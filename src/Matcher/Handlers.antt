-- ===== src/Matcher/Handlers.antt =====
-- The handlers of matcher.cpp. `none` is undefined behaviour of the code: a null pointer that is
-- followed, an index outside an array, a free list that has run out (or fuel that has).
pub mod Cancel
pub mod Conserve
pub mod Crossing
pub mod Fill
pub mod Filling
pub mod Follows
pub mod Limit
pub mod Market
pub mod Match
pub mod NextLevel
pub mod Place
pub mod Rest
pub mod Resting
pub mod Rounds
pub mod Settle
pub mod Sweep
pub mod Withdraw
use espacekilly.Base.{
  ℕ, zero, suc, ◌+◌, Bool, true, false, not, ◌&&◌, ◌||◌, Option, none, some, ℤ, pos, ◌+ℤ◌, neg_ℤ,
  is_pos, is_neg, eqb_ℤ, ◌==◌, ltb, leb, if◌then◌else◌, ◌>>=◌, update,
}
use espacekilly.Types.{
  Order, Result, filled, partially_filled, resting, rejected, not_found, cancelled, MessageResponse,
  NewOrderRequest, CancelOrderRequest, k_price_level_count, total_order_count, arr_size,
}
use espacekilly.Matcher.Memory.{Ptr, null, sentinel, Heap, order_at}
use espacekilly.Matcher.IntrusiveList.{head, is_empty, append}
use espacekilly.Matcher.OrdersData.{get_free, drop_node}
use espacekilly.Matcher.OrderBook.{
  side, set_side, inc, dec, invalid_best_idx, OrderBook, fulfilled_slot, level_slot,
}

-- `lots * direction`, with `direction` 1 for a buy and -1 for a sell.
abbrev pub times_direction : Bool → ℤ → ℤ
times_direction is_buy lots = if is_buy then lots else neg_ℤ lots

-- `idx += direction` on `size_t`.
abbrev pub move : Bool → ℕ → ℕ
move is_buy idx = if is_buy then inc idx else dec idx

-- The rest of the body of the `while` loop, from `newLots += resting->order.quantityLots` on.
unfoldable pub fill : Bool → OrderBook → Ptr → ℤ → Option (OrderBook × ℤ)
fill is_buy b n lots =
    let d = b.orders_data in
    let new_lots = lots +ℤ d.heap.quantity_lots n in
    let remainder_left_in_resting = is_neg (times_direction is_buy new_lots) in
    let kept = if remainder_left_in_resting then new_lots else pos 0 in
    let h = record d.heap { quantity_lots = update d.heap.quantity_lots n kept } in
    let d = record d { heap = h } in
    let response : MessageResponse = record {
      order = some (order_at h n);
      result = if remainder_left_in_resting then partially_filled else filled;
    } in
    let count = side b.counts (not is_buy) in
    let b = record b {
      fulfilled = update b.fulfilled (fulfilled_slot b.filled_write_idx) response;
      filled_write_idx = inc b.filled_write_idx;
      counts =
          set_side b.counts (not is_buy) (if remainder_left_in_resting then count else dec count);
    } in
    (do
      d ← if remainder_left_in_resting then some d else drop_node d n
      if n == null then none else some (record b { orders_data = d }, new_lots))

-- What a round of the `while` loop leads to.
pub data Round : Type 0 where
  done : OrderBook → ℤ → Round
  again : OrderBook → ℤ → Round
  fault : Round

abbrev pub again_or_fault : Option (OrderBook × ℤ) → Round
again_or_fault none = fault
again_or_fault (some (b, lots)) = again b lots

-- The test of the `while` loop.
abbrev pub goes_on : Bool → OrderBook → ℤ → Bool
goes_on is_buy b lots =
    ltb 0 (side b.counts (not is_buy))
    && not (side b.best_idx (not is_buy) == invalid_best_idx)
    && is_pos (times_direction is_buy lots)

-- `(orderIsBuy && bestIdx > limit) || (!orderIsBuy && bestIdx < limit)`.
abbrev pub past_limit : Bool → ℕ → ℕ → Bool
past_limit is_buy limit best = (is_buy && ltb limit best) || (not is_buy && ltb best limit)

-- The level at the best price is empty: look for more expensive asks or cheaper bids.
unfoldable pub next_level : Bool → ℕ → OrderBook → ℤ → Round
next_level is_buy limit b lots =
    let best = move is_buy (side b.best_idx (not is_buy)) in
    let b = record b { best_idx = set_side b.best_idx (not is_buy) best } in
    if past_limit is_buy limit best then done b lots else again b lots

unfoldable pub round : Bool → ℕ → OrderBook → ℤ → Round
round is_buy limit b lots =
    let level = sentinel (level_slot (side b.best_idx (not is_buy))) in
    let h = b.orders_data.heap in
    if goes_on is_buy b lots
    then (if is_empty h level
        then next_level is_buy limit b lots
        else again_or_fault (fill is_buy b (head h level) lots))
    else done b lots

unfoldable pub sweep : ℕ → Bool → ℕ → OrderBook → ℤ → Option (OrderBook × ℤ)
sweep zero is_buy limit b lots = none
sweep (suc fuel) is_buy limit b lots = elim (round is_buy limit b lots) [
  | done b' lots' ↦ some (b', lots')
  | again b' lots' ↦ sweep fuel is_buy limit b' lots'
  | fault ↦ none
]

-- Every round but the last removes one of the resting orders or leaves one of the levels.
abbrev pub sweep_fuel : ℕ
sweep_fuel = total_order_count + k_price_level_count + 3

-- `resArray[unfilled + rejected]`.
abbrev pub res_array : Bool → Bool → Result
res_array false false = filled
res_array true true = rejected
res_array _ _ = partially_filled

-- What follows the loop of `HandleMarketOrder`.
unfoldable pub settle : Bool → NewOrderRequest → OrderBook → ℤ → OrderBook × MessageResponse
settle is_buy msg b new_lots =
    let opposite = not is_buy in
    let b =
      if side b.counts opposite == 0
      then record b { best_idx = set_side b.best_idx opposite invalid_best_idx }
      else b in
    let unfilled = is_pos (times_direction is_buy new_lots) in
    let is_rejected = eqb_ℤ new_lots msg.order.quantity_lots in
    let left = if unfilled then new_lots else pos 0 in
    (
      b,
      record {
        order = some (record { id = msg.order.id; quantity_lots = left });
        result = res_array unfilled is_rejected;
      },
    )

unfoldable pub handle_market_order :
    NewOrderRequest → OrderBook → ℕ → Option (OrderBook × MessageResponse)
handle_market_order msg b limit =
    let is_buy = is_pos msg.order.quantity_lots in
    let c = b.counters in
    let idle = side b.counts (not is_buy) == 0 in
    let b = record b {
      counters = record c {
        market_orders = inc c.market_orders;
        no_ops = if idle then inc c.no_ops else c.no_ops;
      };
    } in
    (do
      (b, new_lots) ← sweep sweep_fuel is_buy limit b msg.order.quantity_lots
      some (settle is_buy msg b new_lots))

-- The second part of `HandleLimitOrder`: the order rests at its level.
unfoldable pub rest_order : Bool → ℕ → Order → OrderBook → Option (OrderBook × MessageResponse)
rest_order is_buy price new_order b =
    let best = side b.best_idx is_buy in
    let best = if best == invalid_best_idx then price else best in
    if ltb price k_price_level_count && leb new_order.id arr_size
    then (do
      (n, d) ← get_free b.orders_data price
      h ← append d.heap (sentinel price) n
      let h : Heap = record h {
        id = update h.id n new_order.id;
        quantity_lots = update h.quantity_lots n new_order.quantity_lots;
      }
      let better = (is_buy && ltb best price) || (not is_buy && ltb price best)
      let c = b.counters
      some (
        record b {
          orders_data = record d { heap = h };
          id_to_order = update b.id_to_order new_order.id n;
          counts = set_side b.counts is_buy (inc (side b.counts is_buy));
          best_idx =
              set_side b.best_idx is_buy
                (if best == invalid_best_idx || better then price else best);
          counters = record c { resting_order = inc c.resting_order };
        },
        record { order = some new_order; result = resting },
      ))
    else none

-- Does the order cross the best price of the other side?
abbrev pub crosses : Bool → ℕ → ℕ → Bool
crosses is_buy price opposite =
    not (opposite == invalid_best_idx)
    && ((is_buy && leb opposite price) || (not is_buy && leb price opposite))

-- What `HandleLimitOrder` makes of the response of `HandleMarketOrder`.
unfoldable pub after_cross :
    Bool → ℕ → OrderBook × MessageResponse → Option (OrderBook × MessageResponse)
after_cross is_buy price (b, response) =
    let c = b.counters in
    elim response.result [
      | filled ↦ some (
        record b {
          counters = record c { fully_filled_cross_order = inc c.fully_filled_cross_order };
        },
        response,
      )
      | _ ↦ (do new_order ← response.order; rest_order is_buy price new_order b)
    ]

unfoldable pub handle_limit_order :
    NewOrderRequest → OrderBook → Option (OrderBook × MessageResponse)
handle_limit_order msg b =
    let is_buy = is_pos msg.order.quantity_lots in
    let price = msg.price_ticks_limit in
    let c = b.counters in
    let c = record c { limit_orders = inc c.limit_orders } in
    if crosses is_buy price (side b.best_idx (not is_buy))
    then (do
      r ←
          handle_market_order msg
            (record b { counters = record c { cross_order = inc c.cross_order } }) price
      after_cross is_buy price r)
    else rest_order is_buy price msg.order (record b { counters = c })

unfoldable pub handle_cancellation :
    CancelOrderRequest → OrderBook → Option (OrderBook × MessageResponse)
handle_cancellation msg b =
    let c = b.counters in
    let c = record c { cancels = inc c.cancels } in
    let h = b.orders_data.heap in
    let n = b.id_to_order msg.to_cancel in
    if leb msg.to_cancel arr_size
    then (if not (n == null) && h.id n == msg.to_cancel
        then (do
          let order = order_at h n
          let is_bid = is_pos order.quantity_lots
          d ← drop_node b.orders_data n
          some (
            record b {
              counts = set_side b.counts is_bid (dec (side b.counts is_bid));
              orders_data = d;
              counters = c;
            },
            record { order = some order; result = cancelled },
          ))
        else some (
          record b { counters = record c { cancels_not_found = inc c.cancels_not_found } },
          record { order = none; result = not_found },
        ))
    else none
