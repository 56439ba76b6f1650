-- ===== src/Broadcaster.antt =====
-- GenerateOrders of udp_broadcaster/main.cpp. The random numbers are arguments: what the
-- distributions draw for each order, and whether an order is cancelled.
pub mod Frames
pub mod Send
pub mod Stream
use espacekilly.Base.{
  ℕ, zero, suc, ◌+◌, ◌*◌, ◌%◌, ◌^◌, Bool, true, false, not, ◌&&◌, Option, none, some, List, [], ◌∷◌,
  pos, neg_ℤ, ltb, if◌then◌else◌, ◌>>=◌,
}
use espacekilly.Types.{
  OrderType, buy, buy_limit, sell, sell_limit, other_type, time, NewRequest, new, cancel,
}
use espacekilly.Wire.Message.{to_order_type}

-- `distribType`, `distribLots` and `distribTicks`.
pub record OrderDraw : Type 0 where
  pub type_num : ℕ
  pub lots : ℕ
  pub ticks : ℕ

-- `ordIsLimit`.
abbrev pub ord_is_limit : OrderType → ℕ
ord_is_limit buy_limit = 1
ord_is_limit sell_limit = 1
ord_is_limit _ = 0

-- The first loop, with `n` orders left.
unfoldable pub new_orders : (ℕ → OrderDraw) → ℕ → ℕ → ℕ → List NewRequest
new_orders draws zero i msg_id = []
new_orders draws (suc n) i msg_id =
    let d = draws i in
    let lots = if ltb d.type_num 2 then pos d.lots else neg_ℤ (pos d.lots) in
    new (record {
      msg_id = msg_id;
      order = record { id = msg_id; quantity_lots = lots };
      order_type = to_order_type d.type_num;
      instrument_id = time;
      price_ticks_limit = ord_is_limit (to_order_type d.type_num) * d.ticks;
      price_ticks_stop = 0;
    })
    ∷ new_orders draws n (i + 1) ((msg_id + 1) % 2 ^ 64)

-- The second loop over the list, from the element at `itr` on, with `i` draws made: an element that
-- is skipped makes no draw; one that is drawn gets a cancellation behind it, which the loop comes to
-- next, with `skip` set. `none` is the exception of `std::get`, or fuel that has run out.
unfoldable pub add_cancels :
    ℕ → (ℕ → Bool) → ℕ → Bool → ℕ → List NewRequest → Option (List NewRequest)
add_cancels fuel drawn i skip msg_id [] = some []
add_cancels zero drawn i skip msg_id (r ∷ rs) = none
add_cancels (suc fuel) drawn i skip msg_id (cancel c ∷ rs) = do
  rest ← add_cancels fuel drawn (if skip then i else i + 1) false msg_id rs
  if not skip && drawn i then none else some (cancel c ∷ rest)
add_cancels (suc fuel) drawn i skip msg_id (new r ∷ rs) = do
  let cancels = not skip && drawn i
  let added =
      cancel (record { msg_id = msg_id; to_cancel = r.order.id; instrument_id = r.instrument_id })
  rest ←
      add_cancels fuel drawn (if skip then i else i + 1) cancels
        (if cancels then (msg_id + 1) % 2 ^ 64 else msg_id) (if cancels then added ∷ rs else rs)
  some (new r ∷ rest)

unfoldable pub generate_orders : (ℕ → OrderDraw) → (ℕ → Bool) → ℕ → Option (List NewRequest)
generate_orders draws drawn count =
    add_cancels (2 * count) drawn 0 false ((1 + count) % 2 ^ 64) (new_orders draws count 0 1)
