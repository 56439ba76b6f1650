-- ===== src/Wire/RoundTrip.antt =====
-- udp_wire.h: `encodeBody` writes the layout of `Format`, and `decodeBody` reads it back.
use espacekilly.Base.{ℕ, ◌^◌, ◌<◌, ◌≡◌, refl, [], ◌++◌, append-nil, arith, ℤ, pos, negsuc, IsInt64}
use espacekilly.Types.{
  OrderType, buy, buy_limit, sell, sell_limit, other_type, NewOrderRequest, CancelOrderRequest,
  NewRequest, new, cancel,
}
use espacekilly.Wire.Bytes.{Endian, put}
use espacekilly.Wire.ByteOrder.{be_bytes}
use espacekilly.Wire.Format.{body_fields, field_bytes, type_number, IsOrderType, Fits}
use espacekilly.Wire.Message.{
  of_int64, to_int64, of_order_type, to_order_type, to_request_type, encode_body, decode_new,
  decode_cancel, decode_body,
}
use espacekilly.Wire.Transfer.{
  Writes, Reads, put-Writes, get-Reads, Writes-then, Reads-bind, Reads-pure,
}

pub of_int64-lt : (x : ℤ) → of_int64 x < 2 ^ 64
unfolding of_int64
of_int64-lt (pos n) = omega arith
of_int64-lt (negsuc n) = omega arith

pub to_int64-of_int64 : (x : ℤ) → IsInt64 x → to_int64 (of_int64 x) ≡ x
unfolding to_int64 of_int64
to_int64-of_int64 (pos n) h = ground arith
to_int64-of_int64 (negsuc n) h = ground arith

of_order_type-lt : (t : OrderType) → of_order_type t < 2 ^ 8
unfolding of_order_type
of_order_type-lt t = ground arith

to_order_type-of_order_type : (t : OrderType) → IsOrderType t → to_order_type (of_order_type t) ≡ t
unfolding to_order_type of_order_type
to_order_type-of_order_type buy h = refl
to_order_type-of_order_type buy_limit h = refl
to_order_type-of_order_type sell h = refl
to_order_type-of_order_type sell_limit h = refl
to_order_type-of_order_type (other_type n) h = ground arith

pub put_last-Writes : (e : Endian) (w v : ℕ) → Writes (put e w v) (be_bytes w v ++ [])
put_last-Writes e w v = rw append-nil (put-Writes e w v)

-- `encodeBody` writes the fields of the request, in order and at their widths, in network byte
-- order on every host.
pub encode_body-Writes :
    (e : Endian) (req : NewRequest)
    → Writes (λ c. (encode_body e req c).0) (field_bytes (body_fields req))
unfolding encode_body
encode_body-Writes e (new r) = Writes-then _ _ _ _ (put-Writes e 8 _) (
    Writes-then _ _ _ _ (put-Writes e 8 _) (
      Writes-then _ _ _ _ (put-Writes e 8 _) (
        Writes-then _ _ _ _ (put-Writes e 1 _) (
          Writes-then _ _ _ _ (put-Writes e 8 _)
            (Writes-then _ _ _ _ (put-Writes e 8 _) (put_last-Writes e 8 _))))))
encode_body-Writes e (cancel r) =
    Writes-then _ _ _ _ (put-Writes e 8 _)
      (Writes-then _ _ _ _ (put-Writes e 8 _) (put_last-Writes e 8 _))

decode_new-Reads :
    (e : Endian) (r : NewOrderRequest)
    → Fits (new r)
    → Reads (decode_new e) (new r) (field_bytes (body_fields (new r)))
unfolding decode_new
decode_new-Reads e r (m, i, l, t, n, p, s) = Reads-bind _ _ _ _ _ _ (get-Reads e 8 r.msg_id m) (
    Reads-bind _ _ _ _ _ _ (get-Reads e 8 r.order.id i) (
      Reads-bind _ _ _ _ _ _
        (get-Reads e 8 (of_int64 r.order.quantity_lots) (of_int64-lt r.order.quantity_lots))
        (Reads-bind _ _ _ _ _ _
          (get-Reads e 1 (of_order_type r.order_type) (of_order_type-lt r.order_type))
          (Reads-bind _ _ _ _ _ _ (get-Reads e 8 r.instrument_id n) (
            Reads-bind _ _ _ _ _ _ (get-Reads e 8 r.price_ticks_limit p) (
              Reads-bind _ _ _ _ _ _ (get-Reads e 8 r.price_ticks_stop s) (
                rw
                  (
                    to_int64-of_int64 r.order.quantity_lots l,
                    to_order_type-of_order_type r.order_type t,
                  )
                  (Reads-pure _))))))))

decode_cancel-Reads :
    (e : Endian) (r : CancelOrderRequest)
    → Fits (cancel r)
    → Reads (decode_cancel e) (cancel r) (field_bytes (body_fields (cancel r)))
unfolding decode_cancel
decode_cancel-Reads e r (m, c, n) = Reads-bind _ _ _ _ _ _ (get-Reads e 8 r.msg_id m) (
    Reads-bind _ _ _ _ _ _ (get-Reads e 8 r.to_cancel c)
      (Reads-bind _ _ _ _ _ _ (get-Reads e 8 r.instrument_id n) (Reads-pure _)))

-- `decodeBody`, at the type that `encodeBody` returned, reads the request back from the layout.
pub decode_body-Reads :
    (e : Endian) (req : NewRequest)
    → Fits req
    → Reads (decode_body e (to_request_type (type_number req))) req (field_bytes (body_fields req))
unfolding decode_body to_request_type
decode_body-Reads e (new r) f = decode_new-Reads e r f
decode_body-Reads e (cancel r) f = decode_cancel-Reads e r f
