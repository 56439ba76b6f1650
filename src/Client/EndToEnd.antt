-- ===== src/Client/EndToEnd.antt =====
-- What the broadcaster sends, the client counts.
use mathlib.Core.List.{map-append}
use espacekilly.Base.{
  ℕ, ◌+◌, ◌%◌, ◌^◌, ◌≤◌, ◌<◌, ◌≡◌, refl, ap, ◌∙◌, false, List, [], ◌∷◌, ◌++◌, map, arith, ℤ, ltb,
  drop, replicate, length,
}
use espacekilly.Broadcaster.Frames.{frames, all_sent, broadcast-frames}
use espacekilly.Broadcaster.Send.{broadcast}
use espacekilly.Client.{Stats, no_stats, on_request, Received, received, ended, listen}
use espacekilly.Types.{NewRequest, new, cancel}
use espacekilly.Wire.Bytes.{Endian}
use espacekilly.Wire.Datagram.{datagram_bytes, length-datagram, decode_datagram-bytes}
use espacekilly.Wire.Format.{Fits}
use espacekilly.Wire.Sentinel.{sentinel_bytes, length-sentinel, decode_datagram-sentinel}

abbrev pub AllFit : List NewRequest → Type 0
AllFit [] = Unit {0}
AllFit (r ∷ rs) = Fits r × AllFit rs

-- The client's state after the requests.
tally : List NewRequest → Stats → Stats
tally [] s = s
tally (r ∷ rs) s = tally rs (on_request r s)

-- One datagram arrives.
listen-frame :
    (e : Endian) (seqnum : ℕ) (now : ℤ) (r : NewRequest) (more : List Received) (buf : List ℕ)
    (s : Stats)
    → seqnum < 2 ^ 16
    → Fits r
    → (buf' : List ℕ) × (listen e (received (datagram_bytes seqnum now r) ∷ more) buf s
        ≡ listen e more buf' (on_request r s))
unfolding listen
listen-frame e seqnum now r more buf s hs fits =
    let wire = datagram_bytes seqnum now r in
    let long : ltb (length wire) 14 ≡ false =
      let l = length-datagram seqnum now r in ground arith in
    (
      wire ++ drop (length wire) buf,
      rw
          (
            long,
            decode_datagram-bytes on_request s e (drop (length wire) buf) seqnum (length wire) now r
                hs fits,
          )
          refl,
    )

listen-sentinel :
    (e : Endian) (seqnum : ℕ) (more : List Received) (buf : List ℕ) (s : Stats)
    → seqnum < 2 ^ 16
    → listen e (received (sentinel_bytes seqnum) ∷ more) buf s ≡ ended s
unfolding listen
listen-sentinel e seqnum more buf s hs =
    let wire = sentinel_bytes seqnum in
    let long : ltb (length wire) 14 ≡ false = let l = length-sentinel seqnum in ground arith in
    rw
      (
        long,
        decode_datagram-sentinel on_request s e (drop (length wire) buf) seqnum (length wire) hs,
      )
      refl

listen-frames :
    (e : Endian) (now_ns : ℕ → ℤ) (i seqnum seqnum' : ℕ) (rs : List NewRequest)
    (more : List Received) (buf : List ℕ) (s : Stats)
    → seqnum < 2 ^ 16
    → seqnum' < 2 ^ 16
    → AllFit rs
    → listen e
        (map received (frames now_ns i seqnum rs) ++ received (sentinel_bytes seqnum') ∷ more)
        buf
        s
      ≡ ended (tally rs s)
unfolding tally
listen-frames e now_ns i seqnum seqnum' [] more buf s hs hs' fits =
    listen-sentinel e seqnum' more buf s hs'
listen-frames e now_ns i seqnum seqnum' (r ∷ rs) more buf s hs hs' (fit, fits) =
    let (buf', run) =
      listen-frame e seqnum (now_ns i) r
        (map received (frames now_ns (i + 1) ((seqnum + 1) % 2 ^ 16) rs)
          ++ received (sentinel_bytes seqnum') ∷ more)
        buf s hs fit in
    run
    ∙ listen-frames e now_ns (i + 1) ((seqnum + 1) % 2 ^ 16) seqnum' rs more buf' (on_request r s)
        (omega arith) hs' fits

-- The counts of a stream.
unfoldable pub count_news : List NewRequest → ℕ
count_news [] = 0
count_news (new r ∷ rs) = 1 + count_news rs
count_news (cancel r ∷ rs) = count_news rs

unfoldable pub count_cancels : List NewRequest → ℕ
count_cancels [] = 0
count_cancels (new r ∷ rs) = count_cancels rs
count_cancels (cancel r ∷ rs) = 1 + count_cancels rs

tally-counts :
    (rs : List NewRequest) (s : Stats)
    → s.news + length rs < 2 ^ 64
    → s.cancels + length rs < 2 ^ 64
    → tally rs s ≡ record { news = s.news + count_news rs; cancels = s.cancels + count_cancels rs }
unfolding tally on_request count_news count_cancels
tally-counts [] s h k = ground arith
tally-counts (new r ∷ rs) s h k =
    tally-counts rs (on_request (new r) s) (omega arith) (omega arith) ∙ ground arith
tally-counts (cancel r ∷ rs) s h k =
    tally-counts rs (on_request (cancel r) s) (omega arith) (omega arith) ∙ ground arith

-- Where every datagram arrives, once and in order, the client ends with the number of new orders
-- and the number of cancellations of the stream, whatever the byte orders of the two hosts, the
-- clock, and what stood in the buffers (that have room for a datagram); for a stream of less than
-- 2^64 requests whose fields fit their C++ types.
pub listen-broadcast :
    (e e' : Endian) (now_ns : ℕ → ℤ) (buf buf' : List ℕ) (rs : List NewRequest)
    → 69 ≤ length buf
    → length rs < 2 ^ 64
    → AllFit rs
    → listen e' (map received (broadcast e now_ns all_sent buf rs)) buf' no_stats
      ≡ ended (record { news = count_news rs; cancels = count_cancels rs })
listen-broadcast e e' now_ns buf buf' rs room few fits =
    let (seqnum, hs, run) = broadcast-frames e now_ns buf rs room in
    let sentinel = sentinel_bytes seqnum in
    rw (run, map-append)
      (listen-frames e' now_ns 0 0 seqnum rs (map received (replicate 2 sentinel)) buf' no_stats
          (omega arith) hs fits
        ∙ ap ended (tally-counts rs no_stats (omega arith) (omega arith) ∙ ground arith))
