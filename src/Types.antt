-- ===== src/Types.antt =====
-- The messages of src/matcher/include/matcher/matcher.h: orders, requests and responses.
-- `OrderID`, `MessageID` and the ticks are `size_t` or `uint64_t` values, kept as numbers;
-- `quantityLots` is a signed number.
use espacekilly.Base.{ℕ, ◌*◌, Option, ℤ, pos}

-- `enum class OrderType : uint8_t`. The underlying type is fixed, so a cast from a byte may give a
-- value that no enumerator names.
pub data OrderType : Type 0 where
  buy buy_limit sell sell_limit : OrderType
  other_type : ℕ → OrderType

pub record Order : Type 0 where
  pub id : ℕ
  pub quantity_lots : ℤ

-- `Order{}`.
abbrev pub no_order : Order
no_order = record { id = 0; quantity_lots = pos 0 }

-- `enum class MessageResponse::Result`, in the order of its values.
pub data Result : Type 0 where
  filled partially_filled resting rejected not_found cancelled : Result

pub record MessageResponse : Type 0 where
  pub order : Option Order
  pub result : Result

-- `enum class Instrument : std::size_t`, by the value that it holds.
abbrev pub Instrument : Type 0
Instrument = ℕ

abbrev pub time : Instrument
time = 0

-- `Instrument::Count`, the number of order books.
abbrev pub instrument_count : ℕ
instrument_count = 1

-- `enum class RequestType : int32_t`; `other_request` holds the 32-bit pattern of any other value.
pub data RequestType : Type 0 where
  new_order cancel_order : RequestType
  other_request : ℕ → RequestType

pub record NewOrderRequest : Type 0 where
  pub msg_id : ℕ
  pub order : Order
  pub order_type : OrderType
  pub instrument_id : Instrument
  pub price_ticks_limit : ℕ
  pub price_ticks_stop : ℕ

pub record CancelOrderRequest : Type 0 where
  pub msg_id : ℕ
  pub to_cancel : ℕ
  pub instrument_id : Instrument

-- `std::variant<NewOrderRequest, CancelOrderRequest>`.
pub data NewRequest : Type 0 where
  new : NewOrderRequest → NewRequest
  cancel : CancelOrderRequest → NewRequest

-- The constants of the order book; the three counts must be powers of two.
abbrev pub k_price_level_count : ℕ
k_price_level_count = 128

abbrev pub k_fulfilled_orders_count : ℕ
k_fulfilled_orders_count = 2048

abbrev pub k_orders_per_tick : ℕ
k_orders_per_tick = 8192

abbrev pub arr_size : ℕ
arr_size = 20_000_000

abbrev pub total_order_count : ℕ
total_order_count = k_price_level_count * k_orders_per_tick
