-- ===== src/Wire/Sentinel.antt =====
-- udp_wire.h: the datagram that ends a stream.
use espacekilly.Base.{
  ℕ, ◌^◌, ◌≤◌, ◌<◌, ◌≡◌, refl, ap₂, false, some, List, [], ◌∷◌, ◌++◌, arith, length, drop,
}
use espacekilly.Types.{NewRequest}
use espacekilly.Wire.Bytes.{Endian}
use espacekilly.Wire.Datagram.{header-Writes}
use espacekilly.Wire.Decoding.{header-Reads}
use espacekilly.Wire.Lengths.{length-header}
use espacekilly.Wire.Format.{field_bytes}
use espacekilly.Wire.Message.{encode_sentinel, decode_datagram}

abbrev pub sentinel_bytes : ℕ → List ℕ
sentinel_bytes seqnum = field_bytes ((2, seqnum) ∷ (4, 0) ∷ (8, 0) ∷ [])

pub length-sentinel : (seqnum : ℕ) → length (sentinel_bytes seqnum) ≡ 14
length-sentinel seqnum = length-header seqnum 0 0

-- In a buffer with room for it `encodeSentinel` writes a message header that counts no messages,
-- and returns its length.
pub encode_sentinel-format :
    (e : Endian) (buf : List ℕ) (seqnum : ℕ)
    → 14 ≤ length buf
    → encode_sentinel e buf seqnum ≡ (sentinel_bytes seqnum ++ drop 14 buf, 14)
unfolding encode_sentinel
encode_sentinel-format e buf seqnum room =
    let l14 : length (sentinel_bytes seqnum) ≡ 14 = length-sentinel seqnum in
    let at =
      header-Writes e seqnum 0 0 (record { buf = buf; p = 0 }) [] buf
        (record { bytes = refl; place = refl }) (omega (arith, l14)) in
    ap₂ (λ l n. (l, n)) (rw l14 at (at.bytes)) (omega (arith, at.place, l14))

-- Decoding it calls nothing back and says that the stream is over, whatever stands behind it.
pub decode_datagram-sentinel :
    {S : Type 0} (on_request : NewRequest → S → S) (s : S) (e : Endian) (rest : List ℕ)
    (seqnum len : ℕ)
    → seqnum < 2 ^ 16
    → decode_datagram on_request e (sentinel_bytes seqnum ++ rest) len s ≡ some (false, s)
unfolding decode_datagram
decode_datagram-sentinel on_request s e rest seqnum len hs =
    let (c1, e1, at1) =
      header-Reads e seqnum 0 0 hs (omega arith) (omega arith)
        (record { buf = sentinel_bytes seqnum ++ rest; p = 0 }) [] rest
        (record { bytes = refl; place = refl }) in
    rw (decode_datagram, e1)
