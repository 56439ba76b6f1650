-- ===== src/Matcher/Engine.antt =====
-- matchAllOrders of matcher.cpp: the requests one by one, and the responses that it puts into the
-- queue. The queue is another project's; only `try_emplace` is called, whose result is dropped.
pub mod Drain
pub mod Dispatch
pub mod Exchange
pub mod Market
pub mod Ring
pub mod Run
pub mod Serve
pub mod Visit
use espacekilly.Base.{
  ℕ, zero, suc, ◌+◌, ◌-◌, ◌%◌, ◌^◌, ◌==◌, Bool, true, false, ◌&&◌, ◌||◌, not, Option, none, some,
  List, [], ◌∷◌, pos, eqb_ℤ, ltb, if◌then◌else◌, ◌>>=◌, update,
}
use espacekilly.Types.{
  OrderType, buy, buy_limit, sell, sell_limit, other_type, MessageResponse, filled, rejected,
  Instrument, instrument_count, NewOrderRequest, CancelOrderRequest, NewRequest, new, cancel,
}
use espacekilly.Matcher.Handlers.{handle_market_order, handle_limit_order, handle_cancellation}
use espacekilly.Matcher.OrderBook.{OrderBook, inc, fulfilled_slot}

-- `Duration`: the cycles that a request took, the fills, and the order's id, both cut to 32 bits.
pub record Duration : Type 0 where
  pub time : ℕ
  pub fills : ℕ
  pub id : ℕ

-- `MessageResponse{}`.
abbrev pub no_response : MessageResponse
no_response = record { order = none; result = filled }

-- `SIZE_MAX` or 0, the limit of a market order.
abbrev pub market_limit : OrderType → ℕ
market_limit buy = 2 ^ 64 - 1
market_limit _ = 0

-- The handler that the type of the order selects.
unfoldable pub dispatch :
    OrderType → NewOrderRequest → OrderBook → Option (OrderBook × MessageResponse)
dispatch buy msg b = handle_market_order msg b (market_limit buy)
dispatch sell msg b = handle_market_order msg b (market_limit sell)
dispatch buy_limit msg b = handle_limit_order msg b
dispatch sell_limit msg b = handle_limit_order msg b
dispatch (other_type _) msg b = some (b, no_response)

-- The number of responses between the two indices, modulo 2^64.
abbrev pub pending : OrderBook → ℕ
pending b = (b.filled_write_idx + (2 ^ 64 - b.filled_read_idx)) % 2 ^ 64

module _ {Q : Type 0} (try_emplace : Q → MessageResponse → Q) where
  -- The loop that drains the fulfilled responses, on fuel.
  unfoldable pub drain : ℕ → OrderBook → Q → Option (OrderBook × Q)
  drain zero b q = if b.filled_write_idx == b.filled_read_idx then some (b, q) else none
  drain (suc fuel) b q =
      let response = b.fulfilled (fulfilled_slot b.filled_read_idx) in
      let rest =
        drain fuel (record b { filled_read_idx = inc b.filled_read_idx })
          (try_emplace q response) in
      if b.filled_write_idx == b.filled_read_idx then some (b, q) else rest

  -- The visitor of a new order: the book, the queue, the fills and the order's id.
  unfoldable pub on_new : NewOrderRequest → OrderBook → Q → Option (OrderBook × Q × ℕ × ℕ)
  on_new msg b q =
      let reject : MessageResponse = record { order = none; result = rejected } in
      if eqb_ℤ msg.order.quantity_lots (pos 0)
      then some (b, try_emplace q reject, 0, 0)
      else (if ltb msg.instrument_id instrument_count
          then (do
            (c, response) ← dispatch msg.order_type msg b
            (c, q) ← drain (pending c) c q
            some (
              c,
              try_emplace q response,
              ((c.filled_write_idx + (2 ^ 64 - b.filled_write_idx)) % 2 ^ 64) % 2 ^ 32,
              msg.order.id,
            ))
          else none)

  -- The visitor of a cancellation.
  unfoldable pub on_cancel : CancelOrderRequest → OrderBook → Q → Option (OrderBook × Q × ℕ × ℕ)
  on_cancel msg b q =
      if ltb msg.instrument_id instrument_count
      then (do (c, response) ← handle_cancellation msg b; some (c, try_emplace q response, 0, 0))
      else none

  unfoldable pub visit : NewRequest → OrderBook → Q → Option (OrderBook × Q × ℕ × ℕ)
  visit (new msg) b q = on_new msg b q
  visit (cancel msg) b q = on_cancel msg b q

  -- The loop over the requests, from index `i` on; `cycles` are the differences of the two readings
  -- of the time stamp counter.
  unfoldable pub match_all :
      (ℕ → ℕ)
      → ℕ
      → List NewRequest
      → OrderBook
      → Q
      → (ℕ → Duration)
      → Option (OrderBook × Q × (ℕ → Duration))
  match_all cycles i [] b q durations = some (b, q, durations)
  match_all cycles i (r ∷ rs) b q durations = do
    (b, q, fills, id) ← visit r b q
    let d : Duration = record { time = cycles i; fills = fills; id = id % 2 ^ 32 }
    match_all cycles (i + 1) rs b q (update durations i d)
