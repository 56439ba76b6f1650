-- ===== src/Tests/Wire.antt =====
-- udp_wire.h at one datagram.
use espacekilly.Base.{
  ℕ, ◌≡◌, refl, true, none, some, List, [], ◌∷◌, ◌++◌, arith, pos, negsuc, drop, take, replicate,
}
use espacekilly.Types.{sell_limit, NewRequest, new, cancel}
use espacekilly.Wire.Bytes.{
  little, big, le_bytes, of_le_bytes, to_memory, byteswap, swap_to_big, write_at, put,
}
use espacekilly.Wire.Datagram.{
  datagram_bytes, encode_datagram-format, decode_datagram-encode_datagram,
}
use espacekilly.Wire.Decoding.{Message, stream, call_each, decode_datagram-stream}
use espacekilly.Wire.Format.{field_bytes, header_fields}
use espacekilly.Wire.Short.{decode_datagram-short}
use espacekilly.Wire.Message.{
  of_int64, of_request_type, encode_body, encode_datagram, decode_datagram,
}

-- Order 7 sells 5 lots at tick 60.
abbrev sell_five : NewRequest
sell_five = new (record {
  msg_id = 7;
  order = record { id = 7; quantity_lots = negsuc 4 };
  order_type = sell_limit;
  instrument_id = 0;
  price_ticks_limit = 60;
  price_ticks_stop = 0;
})

abbrev cancel_seven : NewRequest
cancel_seven = cancel (record { msg_id = 8; to_cancel = 7; instrument_id = 0 })

abbrev buffer : List ℕ
buffer = replicate 80 0

abbrev keep_last : NewRequest → List NewRequest → List NewRequest
keep_last r rs = r ∷ rs

encode_cancel : encode_datagram little (replicate 44 0) 3 (pos 258) cancel_seven ≡ (
  0 ∷ 3 ∷ 0 ∷ 0 ∷ 0 ∷ 1 ∷ 0 ∷ 0 ∷ 0 ∷ 0 ∷ 0 ∷ 0 ∷ 1 ∷ 2 ∷ 0 ∷ 24 ∷ 0 ∷ 0 ∷ 0 ∷ 1 ∷ 0 ∷ 0 ∷ 0 ∷ 0 ∷ 0
      ∷ 0 ∷ 0 ∷ 8 ∷ 0 ∷ 0 ∷ 0 ∷ 0 ∷ 0 ∷ 0 ∷ 0 ∷ 7 ∷ 0 ∷ 0 ∷ 0 ∷ 0 ∷ 0 ∷ 0 ∷ 0 ∷ 0 ∷ [],
  44,
)
unfolding encode_datagram encode_body put to_memory swap_to_big byteswap le_bytes of_le_bytes
    write_at of_int64 of_request_type
encode_cancel = refl

encode_datagram-format_example :
    encode_datagram little buffer 3 (pos 258) sell_five
    ≡ (datagram_bytes 3 (pos 258) sell_five ++ drop 69 buffer, 69)
encode_datagram-format_example =
    encode_datagram-format little buffer 3 (pos 258) sell_five (omega arith)

decode_datagram-encode_datagram_example :
    let (wire, len) = encode_datagram little buffer 3 (pos 258) sell_five in
    decode_datagram keep_last big wire len [] ≡ some (true, sell_five ∷ [])
decode_datagram-encode_datagram_example =
    decode_datagram-encode_datagram keep_last [] little big buffer 3 (pos 258) sell_five
      (omega arith) (omega arith) (omega arith)

-- Order 7 with three bytes of fields that are not known, and its cancellation.
abbrev two_messages : List Message
two_messages =
    record { request = sell_five; extra = 1 ∷ 2 ∷ 3 ∷ [] }
    ∷ record { request = cancel_seven; extra = [] }
    ∷ []

decode_datagram-stream_example :
    decode_datagram keep_last big
      (field_bytes (header_fields 3 2 (pos 258)) ++ (stream two_messages ++ buffer))
      0
      []
    ≡ some (true, call_each keep_last two_messages [])
decode_datagram-stream_example =
    decode_datagram-stream keep_last big buffer two_messages 3 0 (pos 258) [] (omega arith)
      (omega arith) (omega arith)
      (
        (
          (omega arith, omega arith, omega arith, tt, omega arith, omega arith, omega arith),
          omega arith,
        ),
        (((omega arith, omega arith, omega arith), omega arith), tt),
      )

-- The bytes of order 7 that end in the middle of its quantity.
decode_datagram-short_example :
    decode_datagram keep_last big (take 40 (datagram_bytes 3 (pos 258) sell_five)) 69 [] ≡ none
decode_datagram-short_example =
    decode_datagram-short keep_last [] big 3 69 40 (pos 258) sell_five (omega arith) (omega arith)
