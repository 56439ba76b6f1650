-- ===== src/Wire/Message.antt =====
-- udp_common/udp_wire.h, from `encodeBody` to `decodeDatagram`: the messages in a datagram.
-- The byte order of the host and the reading of the clock are arguments.
use espacekilly.Base.{
  ℕ, zero, suc, ◌+◌, ◌-◌, ◌%◌, ◌^◌, Bool, true, false, Option, none, some, List, ℤ, pos, negsuc,
  ◌==◌, ltb, if◌then◌else◌,
}
use espacekilly.Types.{
  OrderType, buy, buy_limit, sell, sell_limit, other_type, RequestType, new_order, cancel_order,
  other_request, NewRequest, new, cancel,
}
use espacekilly.Wire.Bytes.{Endian, Cursor, put, get}

-- The two's complement pattern of an `int64_t`, and the number that a pattern stands for.
unfoldable pub of_int64 : ℤ → ℕ
of_int64 (pos n) = n % 2 ^ 64
of_int64 (negsuc n) = 2 ^ 64 - 1 - n % 2 ^ 64

unfoldable pub to_int64 : ℕ → ℤ
to_int64 w = if ltb w (2 ^ 63) then pos w else negsuc (2 ^ 64 - 1 - w)

-- `static_cast<uint8_t>(orderType)` and `static_cast<OrderType>(byte)`.
unfoldable pub of_order_type : OrderType → ℕ
of_order_type buy = 0
of_order_type buy_limit = 1
of_order_type sell = 2
of_order_type sell_limit = 3
of_order_type (other_type n) = n % 2 ^ 8

unfoldable pub to_order_type : ℕ → OrderType
to_order_type n =
    if n == 0
    then buy
    else if n == 1
    then buy_limit
    else if n == 2
    then sell
    else if n == 3
    then sell_limit
    else other_type n

-- `static_cast<int32_t>(type)` and `static_cast<RequestType>(value)`, by the 32-bit pattern.
unfoldable pub of_request_type : RequestType → ℕ
of_request_type new_order = 0
of_request_type cancel_order = 1
of_request_type (other_request n) = n % 2 ^ 32

unfoldable pub to_request_type : ℕ → RequestType
to_request_type n = if n == 0 then new_order else if n == 1 then cancel_order else other_request n

abbrev pub k_message_header_bytes : ℕ
k_message_header_bytes = 2 + 4 + 8

abbrev pub k_request_header_bytes : ℕ
k_request_header_bytes = 2 + 4

-- `encodeBody`: the pointer behind the body, and the type for the header.
unfoldable pub encode_body : Endian → NewRequest → Cursor → Cursor × RequestType
encode_body e (new r) c =
    let c = put e 8 r.msg_id c in
    let c = put e 8 r.order.id c in
    let c = put e 8 (of_int64 r.order.quantity_lots) c in
    let c = put e 1 (of_order_type r.order_type) c in
    let c = put e 8 r.instrument_id c in
    let c = put e 8 r.price_ticks_limit c in let c = put e 8 r.price_ticks_stop c in (c, new_order)
encode_body e (cancel r) c =
    let c = put e 8 r.msg_id c in
    let c = put e 8 r.to_cancel c in let c = put e 8 r.instrument_id c in (c, cancel_order)

-- A run that reads through the pointer; `none` is a read behind the end of the buffer.
abbrev pub Reader : Type 0 → Type 0
Reader A = Cursor → Option (A × Cursor)

abbrev pub pure : {A : Type 0} → A → Reader A
pure a c = some (a, c)

infixl 5 ◌>>=◌
abbrev pub ◌>>=◌ : {A B : Type 0} → Reader A → (A → Reader B) → Reader B
◌>>=◌ m f c = elim (m c) [ none ↦ none | some (a, c') ↦ f a c' ]

unfoldable pub decode_cancel : Endian → Reader NewRequest
decode_cancel e = do
  msg_id ← get e 8
  to_cancel ← get e 8
  instrument_id ← get e 8
  pure (cancel (record { msg_id = msg_id; to_cancel = to_cancel; instrument_id = instrument_id }))

unfoldable pub decode_new : Endian → Reader NewRequest
decode_new e = do
  msg_id ← get e 8
  id ← get e 8
  lots ← get e 8
  order_type ← get e 1
  instrument_id ← get e 8
  price_ticks_limit ← get e 8
  price_ticks_stop ← get e 8
  pure (
      new (record {
        msg_id = msg_id;
        order = record { id = id; quantity_lots = to_int64 lots };
        order_type = to_order_type order_type;
        instrument_id = instrument_id;
        price_ticks_limit = price_ticks_limit;
        price_ticks_stop = price_ticks_stop;
      }))

-- `decodeBody`: every type but `CancelOrder` is read as a new order.
unfoldable pub decode_body : Endian → RequestType → Reader NewRequest
decode_body e cancel_order = decode_cancel e
decode_body e new_order = decode_new e
decode_body e (other_request _) = decode_new e

-- `encodeDatagram`: the buffer with the datagram in front, and the length of the datagram.
unfoldable pub encode_datagram : Endian → List ℕ → ℕ → ℤ → NewRequest → List ℕ × ℕ
encode_datagram e buf seqnum now_ns req =
    let c = put e 2 seqnum (record { buf = buf; p = 0 }) in
    let c = put e 4 1 c in
    let c = put e 8 (of_int64 now_ns) c in
    let req_header_at = c.p in
    let body_start = c.p + k_request_header_bytes in
    let (c, type) = encode_body e req (record c { p = body_start }) in
    let body_size = (c.p - body_start) % 2 ^ 16 in
    let hc = put e 2 body_size (record c { p = req_header_at }) in
    let hc = put e 4 (of_request_type type) hc in (hc.buf, c.p)

-- `encodeSentinel`.
unfoldable pub encode_sentinel : Endian → List ℕ → ℕ → List ℕ × ℕ
encode_sentinel e buf seqnum =
    let c = put e 2 seqnum (record { buf = buf; p = 0 }) in
    let c = put e 4 0 c in let c = put e 8 0 c in (c.buf, c.p)

-- The message header, of which `decodeDatagram` keeps `numOfMessages`.
unfoldable pub decode_header : Endian → Reader ℕ
decode_header e = do
  seqnum ← get e 2
  num_of_messages ← get e 4
  timestamp_ns ← get e 8
  pure num_of_messages

module _ {S : Type 0} (on_request : NewRequest → S → S) where
  -- The `for` loop of `decodeDatagram`, with `n` messages left: `s` is what the callback keeps.
  unfoldable pub decode_messages : Endian → ℕ → S → Reader S
  decode_messages e zero s = pure s
  decode_messages e (suc n) s = do
    body_size ← get e 2
    type ← get e 4
    body_start ← (λ c. some (c.p, c))
    request ← decode_body e (to_request_type type)
    (λ c. decode_messages e n (on_request request s) (record c { p = body_start + body_size }))

  -- `decodeDatagram`. Like the code it makes no use of the length of the datagram: `none` is a
  -- read behind the end of the buffer.
  unfoldable pub decode_datagram : Endian → List ℕ → ℕ → S → Option (Bool × S)
  decode_datagram e buf len s = elim (decode_header e (record { buf = buf; p = 0 })) [
    | none ↦ none
    | some (num_of_messages, c) ↦
        if num_of_messages == 0
        then some (false, s)
        else elim (decode_messages e num_of_messages s c) [
          | none ↦ none
          | some (s', _) ↦ some (true, s')
        ]
  ]
