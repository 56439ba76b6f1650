-- ===== src/Matcher/Handlers/Conserve.antt =====
-- HandleMarketOrder makes no lots and loses none.
use espacekilly.Base.{
  ℕ, ◌≡◌, ◌≢◌, refl, sym, ap, ◌∙◌, Bool, true, false, not, some, inl, inr, ℤ, pos, ◌+ℤ◌, is_pos,
  arith, Bool-cases,
}
use espacekilly.Types.{Order, MessageResponse, NewOrderRequest}
use espacekilly.Matcher.Handlers.{past_limit, handle_market_order}
use espacekilly.Matcher.Handlers.Market.{nonzero_side}
use espacekilly.Matcher.Handlers.Match.{handle_market_order-match_orders}
use espacekilly.Matcher.OrderBook.{OrderBook, side}
use espacekilly.Matcher.OrderBook.Counting.{on_side}
use espacekilly.Matcher.OrderBook.Invariant.{IsBookOf}
use espacekilly.Matcher.OrderBook.View.{view}
use espacekilly.Matcher.OrdersData.Invariant.{Levels}
use espacekilly.Matcher.Priority.{wants_more, match_orders, answer}
use espacekilly.Matcher.Priority.Conserve.{volume, remaining, match_orders-volume}

answer-order :
    (is_buy : Bool) (o : Order) (left : ℤ)
    → (answer is_buy o left).order
      ≡ some (record { id = o.id; quantity_lots = remaining is_buy left })
unfolding answer
answer-order is_buy o left = elim (Bool-cases (wants_more is_buy left)) [
  | inl e ↦ rw e refl
  | inr e ↦ rw e refl
]

not_opposite : (x : ℤ) → on_side (is_pos x) x ≡ true → wants_more (not (is_pos x)) x ≡ false
not_opposite x on = ground arith

-- The lots of the order and of all orders on the other side are those that rest there afterwards
-- and those that the response gives back; the own side has as many as before.
abbrev pub Conserves : NewOrderRequest → OrderBook → ℕ → Levels → Type 0
Conserves msg b limit rests =
    let lots = msg.order.quantity_lots in
    let is_buy = is_pos lots in
    (c : OrderBook) × (r : MessageResponse) × (rests' : Levels) × (frees' : Levels) × (left : ℤ)
    × (handle_market_order msg b limit ≡ some (c, r))
    × IsBookOf c rests' frees'
    × (r.order ≡ some (record { id = msg.order.id; quantity_lots = left }))
    × (lots +ℤ volume (view (not is_buy) b rests) ≡ volume (view (not is_buy) c rests') +ℤ left)
    × (volume (view is_buy c rests') ≡ volume (view is_buy b rests))

-- HandleMarketOrder of an order with lots, on a book with the invariant, whose best price on the
-- other side is not past the limit, conserves lots, which are positive for bids and negative for
-- asks: the lots of the order and of all orders that rest on the other side add up to the lots that
-- rest there afterwards and those that the response gives back, and the lots on the order's own
-- side stay. The lots are those in the lists of the levels of the book, which keeps its invariant.
pub handle_market_order-Conserves :
    (msg : NewOrderRequest) (b : OrderBook) (limit : ℕ) (rests frees : Levels)
    → IsBookOf b rests frees
    → msg.order.quantity_lots ≢ pos 0
    → past_limit
        (is_pos msg.order.quantity_lots)
        limit
        (side b.best_idx (not (is_pos msg.order.quantity_lots)))
      ≡ false
    → Conserves msg b limit rests
handle_market_order-Conserves msg b limit rests frees v ne near =
    let lots = msg.order.quantity_lots in
    let is_buy = is_pos lots in
    let (c, r, rests', frees', run, w, m) =
      handle_market_order-match_orders msg b limit rests frees v ne near in
    let q = view (not is_buy) b rests in
    let left = (match_orders is_buy limit q lots).left in
    (
      c,
      r,
      rests',
      frees',
      remaining is_buy left,
      run,
      w,
      ap (λ x. x.order) m.answered ∙ answer-order is_buy msg.order left,
      match_orders-volume is_buy limit q lots (not_opposite lots (nonzero_side lots ne))
          ∙ ap (λ x. volume x +ℤ remaining is_buy left) (sym m.queue),
      ap volume m.own,
    )
