-- ===== src/Wire/Datagram.antt =====
-- udp_wire.h: `encodeDatagram`, `encodeSentinel` and `decodeDatagram` on whole datagrams.
use espacekilly.Base.{
  ℕ, ◌+◌, ◌-◌, ◌%◌, ◌^◌, ◌≤◌, ◌<◌, ◌≡◌, refl, sym, ap, ap₂, ◌∙◌, true, some, List, [], ◌∷◌, ◌++◌,
  append_assoc, append-nil, arith, length, length-append, ℤ, take, drop, take-append-drop,
  length-take, length-drop, drop-drop, drop-append,
}
use espacekilly.Types.{NewRequest, new, cancel}
use espacekilly.Wire.Bytes.{Endian, Cursor, put}
use espacekilly.Wire.ByteOrder.{be_bytes}
use espacekilly.Wire.Format.{
  header_fields, request_fields, body_fields, body_size, type_number, field_bytes, Fits,
}
use espacekilly.Wire.Message.{
  of_int64, of_request_type, encode_body, encode_datagram, decode_datagram,
}
use espacekilly.Wire.Lengths.{length-body, length-header, length-request}
use espacekilly.Wire.Decoding.{Message, call_each, body_size-lt, stream, decode_datagram-stream}
use espacekilly.Wire.RoundTrip.{put_last-Writes, encode_body-Writes}
use espacekilly.Wire.Transfer.{At, Writes, put-Writes, Writes-then}

pub header-Writes :
    (e : Endian) (seqnum n t : ℕ)
    → Writes
        (λ c. put e 8 t (put e 4 n (put e 2 seqnum c)))
        (field_bytes ((2, seqnum) ∷ (4, n) ∷ (8, t) ∷ []))
header-Writes e seqnum n t =
    Writes-then _ _ _ _ (put-Writes e 2 _)
      (Writes-then _ _ _ _ (put-Writes e 4 _) (put_last-Writes e 8 _))

encode_body-type :
    (e : Endian) (req : NewRequest) (c : Cursor)
    → of_request_type (encode_body e req c).1 ≡ type_number req
unfolding encode_body of_request_type
encode_body-type e (new r) c = refl
encode_body-type e (cancel r) c = refl

request_header-Writes :
    (e : Endian) (size type : ℕ)
    → Writes (λ c. put e 4 type (put e 2 size c)) (field_bytes ((2, size) ∷ (4, type) ∷ []))
request_header-Writes e size type =
    Writes-then _ _ _ _ (put-Writes e 2 size) (put_last-Writes e 4 type)

-- A message header, six bytes left free, a body, and then the six bytes: the whole is in order.
module _ {f g h : Cursor → Cursor} {header body request : List ℕ} (wf : Writes f header)
    (wg : Writes g body) (wh : Writes h request) where
  backfill :
      (buf : List ℕ)
      → length request ≡ 6
      → length header + 6 + length body ≤ length buf
      → let c1 = f (record { buf = buf; p = 0 }) in
        let c2 = g (record c1 { p = c1.p + 6 }) in
        let hc = h (record c2 { p = c1.p }) in
        (hc.buf ≡ (header ++ (request ++ body)) ++ drop (length header + 6 + length body) buf)
        × (c2.p ≡ length header + 6 + length body)
  backfill buf six room =
      let c0 : Cursor = record { buf = buf; p = 0 } in
      let c1 = f c0 in
      let at1 = wf c0 [] buf (record { bytes = refl; place = refl }) (omega arith) in
      let rest1 = drop (length header) buf in
      let free = take 6 rest1 in
      let long : 6 + length body ≤ length rest1 =
        omega (arith, length-drop {0} (length header) buf) in
      let l6 : length free ≡ 6 = length-take 6 rest1 (omega arith) in
      let start : At (record c1 { p = c1.p + 6 }) (header ++ free) (drop 6 rest1) = record {
        bytes =
            at1.bytes
            ∙ ap (◌++◌ header) (sym (take-append-drop 6 rest1))
            ∙ sym (append_assoc header free (drop 6 rest1));
        place = omega (arith, at1.place, l6, length-append {0} header free);
      } in
      let c2 = g (record c1 { p = c1.p + 6 }) in
      let at2 =
        wg _ (header ++ free) (drop 6 rest1) start (omega (arith, length-drop {0} 6 rest1)) in
      let rest2 = drop (length body) (drop 6 rest1) in
      let back : At (record c2 { p = c1.p }) header (free ++ (body ++ rest2)) = record {
        bytes =
            at2.bytes
            ∙ append_assoc (header ++ free) body rest2
            ∙ append_assoc header free (body ++ rest2);
        place = at1.place;
      } in
      let at3 =
        wh _ header (free ++ (body ++ rest2)) back
          (omega (arith, l6, six, length-append {0} free (body ++ rest2))) in
      let skipped : drop (length request) (free ++ (body ++ rest2)) ≡ body ++ rest2 =
        ap (λ k. drop k (free ++ (body ++ rest2))) (six ∙ sym l6) ∙ drop-append free _ in
      let tail : rest2 ≡ drop (length header + 6 + length body) buf =
        ap (drop (length body)) (drop-drop (length header) 6 buf)
        ∙ drop-drop (length header + 6) (length body) buf in
      (
        at3.bytes
            ∙ ap (◌++◌ (header ++ request)) (skipped ∙ ap (◌++◌ body) tail)
            ∙ sym (append_assoc (header ++ request) body _)
            ∙ ap (λ l. l ++ drop (length header + 6 + length body) buf)
                (append_assoc header request body),
        omega (
          arith,
          at2.place,
          l6,
          length-append {0} (header ++ free) body,
          length-append {0} header free,
        ),
      )

abbrev pub datagram_bytes : ℕ → ℤ → NewRequest → List ℕ
datagram_bytes seqnum now_ns req =
    field_bytes (header_fields seqnum 1 now_ns)
    ++ (field_bytes (request_fields req) ++ field_bytes (body_fields req))

pub length-datagram :
    (seqnum : ℕ) (now_ns : ℤ) (req : NewRequest)
    → length (datagram_bytes seqnum now_ns req) ≡ 20 + body_size req
length-datagram seqnum now_ns req =
    let header = field_bytes (header_fields seqnum 1 now_ns) in
    let request = field_bytes (request_fields req) in
    let body = field_bytes (body_fields req) in
    omega (
      arith,
      length-append {0} header (request ++ body),
      length-append {0} request body,
      length-header seqnum 1 (of_int64 now_ns),
      length-request (body_size req) (type_number req),
      length-body req,
    )

-- In a buffer with room for it `encodeDatagram` writes the message header, the request header
-- with the size and the type of the body, and the body, in network byte order on every host; it
-- returns their length, and the bytes behind them stay.
pub encode_datagram-format :
    (e : Endian) (buf : List ℕ) (seqnum : ℕ) (now_ns : ℤ) (req : NewRequest)
    → 20 + body_size req ≤ length buf
    → encode_datagram e buf seqnum now_ns req
      ≡ (datagram_bytes seqnum now_ns req ++ drop (20 + body_size req) buf, 20 + body_size req)
unfolding encode_datagram
encode_datagram-format e buf seqnum now_ns req room =
    let c1 = put e 8 (of_int64 now_ns) (put e 4 1 (put e 2 seqnum (record { buf = buf; p = 0 }))) in
    let c2 = (encode_body e req (record c1 { p = c1.p + 6 })).0 in
    let type = (encode_body e req (record c1 { p = c1.p + 6 })).1 in
    let size = (c2.p - (c1.p + 6)) % 2 ^ 16 in
    let header = field_bytes (header_fields seqnum 1 now_ns) in
    let body = field_bytes (body_fields req) in
    let l14 : length header ≡ 14 = length-header seqnum 1 (of_int64 now_ns) in
    let wf = header-Writes e seqnum 1 (of_int64 now_ns) in
    let at1 =
      wf (record { buf = buf; p = 0 }) [] buf (record { bytes = refl; place = refl })
        (omega arith) in
    let (bytes, place) =
      backfill wf (encode_body-Writes e req) (request_header-Writes e size (of_request_type type))
        buf (length-request size (of_request_type type)) (omega (arith, l14, length-body req)) in
    let total : length header + 6 + length body ≡ 20 + body_size req =
      omega (arith, l14, length-body req) in
    let sized : size ≡ body_size req =
      omega (arith, place, at1.place, total, l14, body_size-lt req) in
    ap₂ (λ l n. (l, n))
      (bytes
        ∙ ap₂ (λ q k. (header ++ (q ++ body)) ++ drop k buf)
            (ap₂ (λ n t. field_bytes ((2, n) ∷ (4, t) ∷ [])) sized (encode_body-type e req _))
            total)
      (place ∙ total)

-- A message of the encoder: nothing follows the body.
abbrev alone : NewRequest → Message
alone req = record { request = req; extra = [] }

stream-alone :
    (req : NewRequest)
    → stream (alone req ∷ []) ≡ field_bytes (request_fields req) ++ field_bytes (body_fields req)
unfolding stream
stream-alone req =
    let size : body_size req + 0 ≡ body_size req = omega arith in
    let type = be_bytes 4 (type_number req) in
    let body = field_bytes (body_fields req) in
    rw
      (
        size,
        append-nil body,
        append-nil type,
        append-nil (be_bytes 2 (body_size req) ++ (type ++ body)),
      )
      (sym (append_assoc (be_bytes 2 (body_size req)) type body))

module _ {S : Type 0} (on_request : NewRequest → S → S) (s : S) where
  -- Decoding the bytes of a datagram, with other bytes behind them.
  pub decode_datagram-bytes :
      (e : Endian) (rest : List ℕ) (seqnum len : ℕ) (now_ns : ℤ) (req : NewRequest)
      → seqnum < 2 ^ 16
      → Fits req
      → decode_datagram on_request e (datagram_bytes seqnum now_ns req ++ rest) len s
        ≡ some (true, on_request req s)
  unfolding call_each
  decode_datagram-bytes e rest seqnum len now_ns req hs fits =
      let header = field_bytes (header_fields seqnum 1 now_ns) in
      let request = field_bytes (request_fields req) in
      let body = field_bytes (body_fields req) in
      ap (λ l. decode_datagram on_request e l len s)
        (append_assoc header (request ++ body) rest
          ∙ ap (λ l. header ++ (l ++ rest)) (sym (stream-alone req)))
      ∙ decode_datagram-stream on_request e rest (alone req ∷ []) seqnum len now_ns s hs
          (omega arith) (omega arith) ((fits, omega (arith, body_size-lt req)), tt)

  -- Decoding a datagram that `encodeDatagram` wrote, whatever stands behind it in the buffer,
  -- calls the callback once, with the request that was encoded, and says that more may follow. The
  -- two hosts may differ in byte order.
  pub decode_datagram-encode_datagram :
      (e e' : Endian) (buf : List ℕ) (seqnum : ℕ) (now_ns : ℤ) (req : NewRequest)
      → 20 + body_size req ≤ length buf
      → seqnum < 2 ^ 16
      → Fits req
      → let (wire, len) = encode_datagram e buf seqnum now_ns req in
        decode_datagram on_request e' wire len s ≡ some (true, on_request req s)
  decode_datagram-encode_datagram e e' buf seqnum now_ns req room hs fits =
      rw (encode_datagram-format e buf seqnum now_ns req room) (
        decode_datagram-bytes e' (drop (20 + body_size req) buf) seqnum (20 + body_size req) now_ns
          req hs fits)
