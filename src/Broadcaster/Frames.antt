-- ===== src/Broadcaster/Frames.antt =====
-- The datagrams that the sending loop of udp_broadcaster/main.cpp hands over to `sendto`.
use espacekilly.Base.{
  ℕ, zero, suc, ◌+◌, ◌%◌, ◌^◌, ◌≤◌, ◌<◌, ◌≡◌, refl, ap, ◌∙◌, Bool, true, false, List, [], ◌∷◌, ◌++◌,
  arith, ℤ, take, drop, replicate, length, length-append, length-drop,
}
use espacekilly.Broadcaster.Send.{send_stream, broadcast}
use espacekilly.Types.{NewRequest, new, cancel}
use espacekilly.Wire.Bytes.{Endian}
use espacekilly.Wire.Datagram.{datagram_bytes, length-datagram, encode_datagram-format}
use espacekilly.Wire.Format.{body_size}
use espacekilly.Wire.Sentinel.{sentinel_bytes, length-sentinel, encode_sentinel-format}

-- The datagrams of a stream, the first one with sequence number `seqnum`.
abbrev pub frames : (ℕ → ℤ) → ℕ → ℕ → List NewRequest → List (List ℕ)
frames now_ns i seqnum [] = []
frames now_ns i seqnum (r ∷ rs) =
    datagram_bytes seqnum (now_ns i) r ∷ frames now_ns (i + 1) ((seqnum + 1) % 2 ^ 16) rs

take_front : (xs ys : List ℕ) (n : ℕ) → length xs ≡ n → take n (xs ++ ys) ≡ xs
take_front [] ys n e = rw (← e) refl
take_front (x ∷ xs) ys n e = rw (← e) (ap (λ l. x ∷ l) (take_front xs ys (length xs) refl))

body_size-le : (r : NewRequest) → body_size r ≤ 49
body_size-le (new r) = omega arith
body_size-le (cancel r) = omega arith

abbrev pub all_sent : ℕ → Bool
all_sent i = true

module _ (e : Endian) (now_ns : ℕ → ℤ) where
  -- What the sending loop hands over where `sendto` succeeds.
  send_stream-frames :
      (i : ℕ) (buf : List ℕ) (seqnum : ℕ) (rs : List NewRequest)
      → 69 ≤ length buf
      → seqnum < 2 ^ 16
      → (buf' : List ℕ) × (seqnum' : ℕ) × (send_stream e now_ns all_sent i buf seqnum rs ≡ record {
        datagrams = frames now_ns i seqnum rs;
        buf = buf';
        seqnum = seqnum';
        failed = false;
      })
        × (69 ≤ length buf')
        × (seqnum' < 2 ^ 16)
  unfolding send_stream
  send_stream-frames i buf seqnum [] room hs = (buf, seqnum, refl, room, hs)
  send_stream-frames i buf seqnum (r ∷ rs) room hs =
      let wire = datagram_bytes seqnum (now_ns i) r in
      let small = body_size-le r in
      let long = length-datagram seqnum (now_ns i) r in
      let next = wire ++ drop (20 + body_size r) buf in
      let (buf', seqnum', run, room', hs') =
        send_stream-frames (i + 1) next ((seqnum + 1) % 2 ^ 16) rs
          (omega (
            arith,
            long,
            small,
            length-append {0} wire (drop (20 + body_size r) buf),
            length-drop {0} (20 + body_size r) buf,
          ))
          (omega arith) in
      (
        buf',
        seqnum',
        rw
            (
              encode_datagram-format e buf seqnum (now_ns i) r (omega (arith, small)),
              run,
              take_front wire (drop (20 + body_size r) buf) (20 + body_size r) long,
            )
            refl,
        room',
        hs',
      )

  -- With no failure, the stream is followed by three sentinels.
  pub broadcast-frames :
      (buf : List ℕ) (rs : List NewRequest)
      → 69 ≤ length buf
      → (seqnum : ℕ) × (seqnum < 2 ^ 16)
        × (broadcast e now_ns all_sent buf rs
            ≡ frames now_ns 0 0 rs ++ replicate 3 (sentinel_bytes seqnum))
  unfolding broadcast
  broadcast-frames buf rs room =
      let (buf', seqnum, run, room', hs) = send_stream-frames 0 buf 0 rs room (omega arith) in
      (
        seqnum,
        hs,
        rw
            (
              run,
              encode_sentinel-format e buf' seqnum (omega arith),
              take_front (sentinel_bytes seqnum) (drop 14 buf') 14 (length-sentinel seqnum),
            )
            refl,
      )

-- Where `sendto` fails for the first time at request `k` of those left.
send_stream-fails :
    (e : Endian) (now_ns : ℕ → ℤ) (sends : ℕ → Bool) (k i : ℕ) (buf : List ℕ) (seqnum : ℕ)
    (rs : List NewRequest)
    → 69 ≤ length buf
    → ((j : ℕ) → j < k → sends (i + j) ≡ true)
    → sends (i + k) ≡ false
    → k < length rs
    → ((send_stream e now_ns sends i buf seqnum rs).datagrams
        ≡ frames now_ns i seqnum (take (suc k) rs))
      × ((send_stream e now_ns sends i buf seqnum rs).failed ≡ true)
unfolding send_stream
send_stream-fails e now_ns sends k i buf seqnum [] room before now h = absurd (omega arith)
send_stream-fails e now_ns sends zero i buf seqnum (r ∷ rs) room before now h =
    let wire = datagram_bytes seqnum (now_ns i) r in
    let fails : sends i ≡ false = ap sends (omega arith) ∙ now in
    (
      rw
          (
            fails,
            encode_datagram-format e buf seqnum (now_ns i) r
                (let small = body_size-le r in omega arith),
            take_front wire (drop (20 + body_size r) buf) (20 + body_size r)
                (length-datagram seqnum (now_ns i) r),
          )
          refl,
      rw fails refl,
    )
send_stream-fails e now_ns sends (suc k) i buf seqnum (r ∷ rs) room before now h =
    let wire = datagram_bytes seqnum (now_ns i) r in
    let small = body_size-le r in
    let long = length-datagram seqnum (now_ns i) r in
    let works : sends i ≡ true = ap sends (omega arith) ∙ before 0 (omega arith) in
    let format = encode_datagram-format e buf seqnum (now_ns i) r (omega arith) in
    let (ds, f) =
      send_stream-fails e now_ns sends k (i + 1) (wire ++ drop (20 + body_size r) buf)
        ((seqnum + 1) % 2 ^ 16) rs
        (omega (
          arith,
          length-append {0} wire (drop (20 + body_size r) buf),
          length-drop {0} (20 + body_size r) buf,
        ))
        (λ j hj. ap sends (omega arith) ∙ before (j + 1) (omega arith))
        (ap sends (omega arith) ∙ now) (omega arith) in
    (
      rw (works, format, ds, take_front wire (drop (20 + body_size r) buf) (20 + body_size r) long)
          refl,
      rw (works, format) f,
    )

-- Where `sendto` fails for the first time at request `k` of the stream, it has been given the
-- datagrams of the requests up to that one, and no sentinel.
pub broadcast-fails :
    (e : Endian) (now_ns : ℕ → ℤ) (sends : ℕ → Bool) (k : ℕ) (buf : List ℕ) (rs : List NewRequest)
    → 69 ≤ length buf
    → ((j : ℕ) → j < k → sends j ≡ true)
    → sends k ≡ false
    → k < length rs
    → broadcast e now_ns sends buf rs ≡ frames now_ns 0 0 (take (suc k) rs)
unfolding broadcast
broadcast-fails e now_ns sends k buf rs room before now h =
    let (ds, f) =
      send_stream-fails e now_ns sends k 0 buf 0 rs room
        (λ j hj. ap sends (omega arith) ∙ before j hj) (ap sends (omega arith) ∙ now) h in
    rw f ds
