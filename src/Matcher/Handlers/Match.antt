-- ===== src/Matcher/Handlers/Match.antt =====
-- HandleMarketOrder refines the reference matching of Matcher.Priority.
use espacekilly.Base.{
  ℕ, ◌≡◌, ◌≢◌, refl, ap, ◌∙◌, inl, inr, Bool, true, false, not, some, ℤ, pos, is_pos, ◌==◌,
  Bool-cases,
}
use espacekilly.Types.{MessageResponse, NewOrderRequest}
use espacekilly.Matcher.Handlers.{past_limit, sweep_fuel, settle, handle_market_order}
use espacekilly.Matcher.Handlers.Follows.{Follows}
use espacekilly.Matcher.Handlers.Market.{
  counted_in, SettledAt, handle-sweep, settle-SettledAt, from_start, nonzero_side,
}
use espacekilly.Matcher.Handlers.Settle.{
  sweep_fuel-Enough, settled, settle-settled, settle-filled, settle-unfilled,
}
use espacekilly.Matcher.Handlers.Sweep.{sweep-Swept}
use espacekilly.Matcher.OrderBook.{OrderBook, side}
use espacekilly.Matcher.OrderBook.Counting.{on_side}
use espacekilly.Matcher.OrderBook.Invariant.{IsBookOf}
use espacekilly.Matcher.OrderBook.View.{view}
use espacekilly.Matcher.OrdersData.Invariant.{Levels}
use espacekilly.Matcher.Priority.{Matched, match_orders, logged, answer}

-- The handler has returned `r` and the book `c`, in which `rests'` rest; `m` is what the reference
-- makes of the queue of the other side.
pub record Matches (is_buy : Bool) (msg : NewOrderRequest) (b : OrderBook) (rests : Levels)
    (m : Matched) (c : OrderBook) (r : MessageResponse) (rests' : Levels) : Type 0 where
  pub queue : view (not is_buy) c rests' ≡ m.queue
  pub own : view is_buy c rests' ≡ view is_buy b rests
  pub reports : (c.fulfilled, c.filled_write_idx) ≡ logged m.reports b.fulfilled b.filled_write_idx
  pub answered : r ≡ answer is_buy msg.order m.left

settle-answer :
    (is_buy : Bool) (msg : NewOrderRequest) (c : OrderBook) (left : ℤ)
    → on_side is_buy msg.order.quantity_lots ≡ true
    → (settle is_buy msg c left).1 ≡ answer is_buy msg.order left
unfolding answer
settle-answer is_buy msg c left on = elim (Bool-cases (on_side is_buy left)) [
  | inl e ↦ rw (settle-unfilled is_buy msg c left e, e) refl
  | inr e ↦ rw (settle-filled is_buy msg c left on e, e) refl
]

-- The loop's end does not touch the queues or the reports.
settled-Follows :
    (is_buy : Bool) (limit : ℕ) (msg : NewOrderRequest) (b c : OrderBook) (rests rests' : Levels)
    (lots left : ℤ)
    → Follows is_buy limit b rests lots c rests' left
    → Follows is_buy limit b rests lots (settled is_buy msg c left) rests' left
settled-Follows is_buy limit msg b c rests rests' lots left f =
    elim (Bool-cases (side c.counts (not is_buy) == 0)) [
      | inl e ↦
          rw e
            (record { queue = f.queue; lots_left = f.lots_left; reports = f.reports; own = f.own })
      | inr e ↦ rw e f
    ]

-- What HandleMarketOrder leads to: the invariant and what goes with it, and, started within the
-- limit, what the reference asks for.
abbrev pub MarketDone : NewOrderRequest → OrderBook → ℕ → Levels → Levels → Type 0
MarketDone msg b limit rests frees =
    let lots = msg.order.quantity_lots in
    let is_buy = is_pos lots in
    (c : OrderBook) × (r : MessageResponse) × (rests' : Levels) × (frees' : Levels)
    × (handle_market_order msg b limit ≡ some (c, r))
    × SettledAt is_buy limit msg b rests frees c r rests' frees'
    × (past_limit is_buy limit (side b.best_idx (not is_buy)) ≡ false
        → Matches is_buy msg b rests (match_orders is_buy limit (view (not is_buy) b rests) lots) c
            r rests')

pub market_done :
    (msg : NewOrderRequest) (b : OrderBook) (limit : ℕ) (rests frees : Levels)
    → IsBookOf b rests frees
    → msg.order.quantity_lots ≢ pos 0
    → MarketDone msg b limit rests frees
market_done msg b limit rests frees v ne =
    let lots = msg.order.quantity_lots in
    let is_buy = is_pos lots in
    let start = counted_in is_buy b in
    let (c, left, run, s) =
      sweep-Swept sweep_fuel is_buy limit start rests frees lots v
        (sweep_fuel-Enough start is_buy lots v) in
    let e = settle-settled is_buy msg c left in
    let on = nonzero_side lots ne in
    (
      (settle is_buy msg c left).0,
      (settle is_buy msg c left).1,
      s.rests,
      s.frees,
      handle-sweep msg b c limit left run,
      from_start is_buy limit msg b (settle is_buy msg c left).0 (settle is_buy msg c left).1
          (settle-SettledAt is_buy limit msg start c left s on),
      λ near.
          let f =
            settled-Follows is_buy limit msg start c rests s.rests lots left (s.follows near) in
          record {
            queue = ap (λ x. view (not is_buy) x s.rests) e ∙ f.queue;
            own = ap (λ x. view is_buy x s.rests) e ∙ f.own;
            reports = ap (λ x. (x.fulfilled, x.filled_write_idx)) e ∙ f.reports;
            answered =
                settle-answer is_buy msg c left on ∙ ap (answer is_buy msg.order) f.lots_left;
          },
    )

abbrev pub MatchesReference : NewOrderRequest → OrderBook → ℕ → Levels → Type 0
MatchesReference msg b limit rests =
    let lots = msg.order.quantity_lots in
    let is_buy = is_pos lots in
    (c : OrderBook) × (r : MessageResponse) × (rests' : Levels) × (frees' : Levels)
    × (handle_market_order msg b limit ≡ some (c, r))
    × IsBookOf c rests' frees'
    × Matches is_buy msg b rests (match_orders is_buy limit (view (not is_buy) b rests) lots) c r
        rests'

-- HandleMarketOrder of an order with lots, on a book with the invariant, whose best price on the
-- other side is not past the limit, does what price-time priority asks for: the queue of the other
-- side is afterwards what the reference matching leaves of it, best price first and oldest first;
-- the fills are reported in that order, with the reference's lots, in the ring of responses; the
-- answer is that for the lots that the reference leaves; the queue of the order's own side is as
-- before.
pub handle_market_order-match_orders :
    (msg : NewOrderRequest) (b : OrderBook) (limit : ℕ) (rests frees : Levels)
    → IsBookOf b rests frees
    → msg.order.quantity_lots ≢ pos 0
    → past_limit
        (is_pos msg.order.quantity_lots)
        limit
        (side b.best_idx (not (is_pos msg.order.quantity_lots)))
      ≡ false
    → MatchesReference msg b limit rests
handle_market_order-match_orders msg b limit rests frees v ne near =
    let (c, r, rests', frees', run, settled, match) = market_done msg b limit rests frees v ne in
    (c, r, rests', frees', run, settled.0, match near)
