-- ===== src/Wire/Format.antt =====
-- The layout of a datagram, written down from the protocol rule at the head of udp_wire.h:
-- every field in network byte order at a fixed width, one behind the other.
use espacekilly.Base.{ℕ, ◌≤◌, ◌<◌, ◌^◌, List, [], ◌∷◌, ◌++◌, ℤ, IsInt64}
use espacekilly.Types.{OrderType, other_type, NewRequest, new, cancel}
use espacekilly.Wire.Message.{of_int64, of_order_type}
use espacekilly.Wire.ByteOrder.{be_bytes}

-- Fields, each with its width in bytes.
abbrev pub Fields : Type 0
Fields = List (ℕ × ℕ)

abbrev pub field_bytes : Fields → List ℕ
field_bytes [] = []
field_bytes ((w, v) ∷ fs) = be_bytes w v ++ field_bytes fs

abbrev pub body_fields : NewRequest → Fields
body_fields (new r) =
    (8, r.msg_id)
    ∷ (8, r.order.id)
    ∷ (8, of_int64 r.order.quantity_lots)
    ∷ (1, of_order_type r.order_type)
    ∷ (8, r.instrument_id)
    ∷ (8, r.price_ticks_limit)
    ∷ (8, r.price_ticks_stop)
    ∷ []
body_fields (cancel r) = (8, r.msg_id) ∷ (8, r.to_cancel) ∷ (8, r.instrument_id) ∷ []

abbrev pub body_size : NewRequest → ℕ
body_size (new r) = 49
body_size (cancel r) = 24

abbrev pub type_number : NewRequest → ℕ
type_number (new r) = 0
type_number (cancel r) = 1

abbrev pub header_fields : ℕ → ℕ → ℤ → Fields
header_fields seqnum num_of_messages timestamp_ns =
    (2, seqnum) ∷ (4, num_of_messages) ∷ (8, of_int64 timestamp_ns) ∷ []

abbrev pub request_fields : NewRequest → Fields
request_fields req = (2, body_size req) ∷ (4, type_number req) ∷ []

-- The values that an `OrderType` variable can hold.
abbrev pub IsOrderType : OrderType → Type 0
IsOrderType (other_type n) = (4 ≤ n) × (n < 256)
IsOrderType _ = Unit {0}

-- Every field of the request fits its C++ type.
abbrev pub Fits : NewRequest → Type 0
Fits (new r) =
    (r.msg_id < 2 ^ 64)
    × (r.order.id < 2 ^ 64)
    × IsInt64 r.order.quantity_lots
    × IsOrderType r.order_type
    × (r.instrument_id < 2 ^ 64)
    × (r.price_ticks_limit < 2 ^ 64)
    × (r.price_ticks_stop < 2 ^ 64)
Fits (cancel r) = (r.msg_id < 2 ^ 64) × (r.to_cancel < 2 ^ 64) × (r.instrument_id < 2 ^ 64)
