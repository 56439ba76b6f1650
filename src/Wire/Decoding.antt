-- ===== src/Wire/Decoding.antt =====
-- udp_wire.h, `decodeDatagram`: datagrams with any number of messages, in which a message may carry
-- more than the body, as its declared size says.
use espacekilly.Base.{
  ℕ, suc, ◌+◌, ◌^◌, ◌<◌, ◌≡◌, refl, sym, ap, ◌∙◌, true, false, ◌==◌, some, List, [], ◌∷◌, ◌++◌,
  append_assoc, arith, length, length-append, ℤ,
}
use espacekilly.Types.{NewRequest, new, cancel}
use espacekilly.Wire.Bytes.{Endian, Cursor, get}
use espacekilly.Wire.ByteOrder.{be_bytes}
use espacekilly.Wire.Format.{header_fields, body_fields, body_size, type_number, field_bytes, Fits}
use espacekilly.Wire.Lengths.{length-body}
use espacekilly.Wire.Message.{
  of_int64, decode_header, decode_messages, decode_datagram, decode_body, to_request_type,
}
use espacekilly.Wire.RoundTrip.{decode_body-Reads, of_int64-lt}
use espacekilly.Wire.Transfer.{At, Reads, get-Reads, Reads-bind, Reads-pure}

pub body_size-lt : (req : NewRequest) → body_size req < 2 ^ 16
body_size-lt (new r) = omega arith
body_size-lt (cancel r) = omega arith

pub type_number-lt : (req : NewRequest) → type_number req < 2 ^ 32
type_number-lt (new r) = omega arith
type_number-lt (cancel r) = omega arith

pub header-Reads :
    (e : Endian) (seqnum n t : ℕ)
    → seqnum < 2 ^ 16
    → n < 2 ^ 32
    → t < 2 ^ 64
    → Reads (decode_header e) n (field_bytes ((2, seqnum) ∷ (4, n) ∷ (8, t) ∷ []))
unfolding decode_header
header-Reads e seqnum n t hs hn ht = Reads-bind _ _ _ _ _ _ (get-Reads e 2 seqnum hs) (
    Reads-bind _ _ _ _ _ _ (get-Reads e 4 n hn)
      (Reads-bind _ _ _ _ _ _ (get-Reads e 8 t ht) (Reads-pure n)))

-- A request, and the bytes of fields behind its body that the decoder does not know.
pub record Message : Type 0 where
  pub request : NewRequest
  pub extra : List ℕ

abbrev pub declared : Message → ℕ
declared m = body_size m.request + length m.extra

abbrev pub message_bytes : Message → List ℕ
message_bytes m =
    be_bytes 2 (declared m)
    ++ (be_bytes 4 (type_number m.request) ++ (field_bytes (body_fields m.request) ++ m.extra))

-- Messages, one behind the other.
unfoldable pub stream : List Message → List ℕ
stream [] = []
stream (m ∷ ms) = message_bytes m ++ stream ms

-- Each request fits its type and each declared size 16 bits.
abbrev pub AllSized : List Message → Type 0
AllSized [] = Unit {0}
AllSized (m ∷ ms) = (Fits m.request × (declared m < 2 ^ 16)) × AllSized ms

module _ {S : Type 0} (on_request : NewRequest → S → S) where
  -- The callback on each request, in order.
  unfoldable pub call_each : List Message → S → S
  call_each [] s = s
  call_each (m ∷ ms) s = call_each ms (on_request m.request s)

  -- A round of the loop calls back and goes on at the size that the header declares.
  decode_messages-suc :
      (s : S) (e : Endian) (n size type : ℕ) (req : NewRequest) (c c1 c2 c3 : Cursor)
      → get e 2 c ≡ some (size, c1)
      → get e 4 c1 ≡ some (type, c2)
      → decode_body e (to_request_type type) c2 ≡ some (req, c3)
      → decode_messages on_request e (suc n) s c
        ≡ decode_messages on_request e n (on_request req s) (record c3 { p = c2.p + size })
  unfolding decode_messages
  decode_messages-suc e n size type req c c1 c2 c3 e1 e2 e3 = ground (arith, e1, e2, e3)

  decode_messages-stream :
      (e : Endian) (ms : List Message) (s : S) (c : Cursor) (before rest : List ℕ)
      → AllSized ms
      → At c before (stream ms ++ rest)
      → (c' : Cursor) × (decode_messages on_request e (length ms) s c ≡ some (call_each ms s, c'))
  unfolding decode_messages stream call_each
  decode_messages-stream e [] s c before rest fits at = (c, refl)
  decode_messages-stream e (m ∷ ms) s c before rest ((fits, sized), more) at =
      let req = m.request in
      let type = be_bytes 4 (type_number req) in
      let body = field_bytes (body_fields req) in
      let next = stream ms ++ rest in
      let (c1, e1, at1) =
        get-Reads e 2 (declared m) sized c before (type ++ (body ++ (m.extra ++ next))) (record {
          bytes =
              at.bytes
              ∙ ap (◌++◌ before)
                  (apart (be_bytes 2 (declared m)) type body m.extra (stream ms) rest);
          place = at.place;
        }) in
      let (c2, e2, at2) =
        get-Reads e 4 (type_number req) (type_number-lt req) c1 _ (body ++ (m.extra ++ next)) at1 in
      let (c3, e3, at3) = decode_body-Reads e req fits c2 _ (m.extra ++ next) at2 in
      let before3 = ((before ++ be_bytes 2 (declared m)) ++ type) ++ body in
      let (c', run) =
        decode_messages-stream e ms (on_request req s) (record c3 { p = c2.p + declared m })
          (before3 ++ m.extra) rest more
          (record {
            bytes = at3.bytes ∙ sym (append_assoc before3 m.extra next);
            place = omega (
              arith,
              at2.place,
              length-append {0} before3 m.extra,
              length-append {0} ((before ++ be_bytes 2 (declared m)) ++ type) body,
              length-body req,
            );
          }) in
      (
        c',
        decode_messages-suc s e (length ms) (declared m) (type_number req) req c c1 c2 c3 e1 e2 e3
            ∙ run,
      )
    where
      apart :
          (a b c d x y : List ℕ)
          → ((a ++ (b ++ (c ++ d))) ++ x) ++ y ≡ a ++ (b ++ (c ++ (d ++ (x ++ y))))
      apart a b c d x y =
          rw (append_assoc, append_assoc, append_assoc b (c ++ d), append_assoc c d) refl

  -- Decoding a datagram with any number of messages, but at least one, calls the callback on each
  -- request, in their order, and says that more may follow: the bytes behind a body that the
  -- declared size counts are skipped, and so is what stands behind the datagram. For requests
  -- whose fields fit their C++ types, declared sizes below 2^16 and fewer than 2^32 messages.
  pub decode_datagram-stream :
      (e : Endian) (rest : List ℕ) (ms : List Message) (seqnum len : ℕ) (now_ns : ℤ) (s : S)
      → seqnum < 2 ^ 16
      → 0 < length ms
      → length ms < 2 ^ 32
      → AllSized ms
      → decode_datagram on_request e
          (field_bytes (header_fields seqnum (length ms) now_ns) ++ (stream ms ++ rest))
          len
          s
        ≡ some (true, call_each ms s)
  unfolding decode_datagram
  decode_datagram-stream e rest ms seqnum len now_ns s hs some_left few fits =
      let (c1, e1, at1) =
        header-Reads e seqnum (length ms) (of_int64 now_ns) hs few (of_int64-lt now_ns)
          (record {
            buf = field_bytes (header_fields seqnum (length ms) now_ns) ++ (stream ms ++ rest);
            p = 0;
          })
          [] (stream ms ++ rest) (record { bytes = refl; place = refl }) in
      let (c2, e2) = decode_messages-stream e ms s c1 _ rest fits at1 in
      let e3 : length ms == 0 ≡ false = ground arith in rw (decode_datagram, e1, e3, e2) refl
