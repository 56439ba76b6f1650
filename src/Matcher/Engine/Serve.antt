-- ===== src/Matcher/Engine/Serve.antt =====
-- The handlers, as matchAllOrders calls them, refine the reference of Matcher.Priority.Exchange.
use espacekilly.Base.{
  ℕ, ◌+◌, ◌≤◌, ◌<◌, ◌≡◌, ◌≢◌, refl, sym, ap, ap₂, ◌∙◌, ◌⊎◌, inl, inr, ◌==◌, Bool, true, false, not,
  Option, some, ℤ, pos, is_pos, is_neg, eq_of_parts, Bool-cases, arith, if◌then◌else◌, length,
}
use espacekilly.Types.{
  OrderType, buy, buy_limit, sell, sell_limit, other_type, MessageResponse, NewOrderRequest,
  k_price_level_count, arr_size,
}
use espacekilly.Matcher.Engine.{no_response, market_limit, dispatch}
use espacekilly.Matcher.Engine.Dispatch.{IsSound, is_limit}
use espacekilly.Matcher.Handlers.{past_limit, handle_market_order, handle_limit_order}
use espacekilly.Matcher.Handlers.Match.{Matches, market_done}
use espacekilly.Matcher.Handlers.Place.{Places, limit_done}
use espacekilly.Matcher.OrderBook.{OrderBook, side}
use espacekilly.Matcher.OrderBook.Counting.{one_if}
use espacekilly.Matcher.OrderBook.Findable.{Findable, Unnamed, Stays-Findable, Stays-Unnamed}
use espacekilly.Matcher.OrderBook.Index.{Keeps-IsIndexed}
use espacekilly.Matcher.OrderBook.Invariant.{IsBookOf}
use espacekilly.Matcher.OrderBook.View.{view}
use espacekilly.Matcher.OrderBook.View.Queues.{queues_of, queues_of-sides, queue_of-view, Serves}
use espacekilly.Matcher.OrdersData.Invariant.{Levels}
use espacekilly.Matcher.Priority.{match_orders, place}
use espacekilly.Matcher.Priority.Exchange.{
  queue_of, queues, Served, any_price, at_market, at_limit, by_type,
}

-- A book between two requests, in which each order is found under its id and all responses have
-- been drained.
pub record IsServing (b : OrderBook) (rests frees : Levels) : Type 0 where
  pub sound : IsSound b rests frees
  pub findable : Findable b rests
  pub met : b.filled_write_idx ≡ b.filled_read_idx

-- The type of a market order goes with its sign.
abbrev pub Signed : OrderType → ℤ → Type 0
Signed buy lots = is_neg lots ≡ false
Signed sell lots = is_pos lots ≡ false
Signed _ lots = Unit {0}

-- What a handler leads to, for an order that may take `wanted l` nodes of level `l`, and whose id
-- is new where `rests_there`.
abbrev pub Led :
    Option (OrderBook × MessageResponse)
    → Served
    → NewOrderRequest
    → Bool
    → OrderBook
    → Levels
    → Levels
    → Type 0
Led run s msg rests_there b rests frees =
    (c : OrderBook) × (r : MessageResponse) × (rests' : Levels) × (frees' : Levels) × (run
      ≡ some (c, r))
    × IsSound c rests' frees'
    × Findable c rests'
    × ((l : ℕ)
        → length (frees l)
          ≤ length (frees' l) + (if rests_there then one_if (msg.price_ticks_limit == l) else 0))
    × ((k : ℕ) → (rests_there ≡ true → msg.order.id ≢ k) → Unnamed k b rests → Unnamed k c rests')
    × (c.filled_read_idx ≡ b.filled_read_idx)
    × Serves s b c rests' r

positive : (x : ℤ) → x ≢ pos 0 → is_neg x ≡ false → is_pos x ≡ true
positive x ne e = elim (Bool-cases (is_pos x)) [
  | inl p ↦ p
  | inr p ↦ absurd (ne (eq_of_parts x (pos 0) (ground arith)))
]

any_price_never :
    (is_buy : Bool) (b : OrderBook) {rests frees : Levels}
    → IsBookOf b rests frees
    → past_limit is_buy (any_price is_buy) (side b.best_idx (not is_buy)) ≡ false
any_price_never true b v = let k = v.best_ok false in ground arith
any_price_never false b v = let k = v.best_ok true in ground arith

module _ (msg : NewOrderRequest) (b c : OrderBook) (rests rests' : Levels)
    (r : MessageResponse) where
  abbrev is_buy : Bool
  is_buy = is_pos msg.order.quantity_lots

  -- The order's own queue and the other one.
  abbrev own : queue_of (queues_of b rests) is_buy ≡ view is_buy b rests
  own = queue_of-view is_buy b rests

  abbrev other : queue_of (queues_of b rests) (not is_buy) ≡ view (not is_buy) b rests
  other = queue_of-view (not is_buy) b rests

  at_market-Serves :
      Matches is_buy msg b rests
        (match_orders is_buy (any_price is_buy) (view (not is_buy) b rests) msg.order.quantity_lots)
        c
        r
        rests'
      → Serves (at_market msg (queues_of b rests)) b c rests' r
  unfolding at_market
  at_market-Serves m =
      rw (own, other)
        (record {
          left = queues_of-sides is_buy c rests' ∙ ap₂ (queues is_buy) m.own m.queue;
          response = m.answered;
          reports = m.reports;
        })

  at_limit-Serves :
      Places is_buy b
        (place is_buy msg.price_ticks_limit msg.order
          (view (not is_buy) b rests)
          (view is_buy b rests))
        c
        r
        rests'
      → Serves (at_limit msg (queues_of b rests)) b c rests' r
  unfolding at_limit
  at_limit-Serves p =
      rw (own, other)
        (record {
          left = queues_of-sides is_buy c rests' ∙ ap₂ (queues is_buy) p.own p.other;
          response = p.response;
          reports = p.reports;
        })

module _ (msg : NewOrderRequest) (b : OrderBook) (rests frees : Levels)
    (s : IsServing b rests frees) (nonzero : msg.order.quantity_lots ≢ pos 0) where
  market-Led :
      (limit : ℕ)
      → limit ≡ any_price (is_pos msg.order.quantity_lots)
      → Led
          (handle_market_order msg b limit)
          (at_market msg (queues_of b rests))
          msg
          false
          b
          rests
          frees
  market-Led limit e =
      let is_buy = is_pos msg.order.quantity_lots in
      let v = s.sound in
      let (c, r, rests', frees', run, settled, match) =
        market_done msg b (any_price is_buy) rests frees v.book nonzero in
      let (w, keeps, _, _, _, _) = settled in
      (
        c,
        r,
        rests',
        frees',
        ap (handle_market_order msg b) e ∙ run,
        record {
          book = w;
          index = Keeps-IsIndexed keeps v.index;
          cursors = keeps.cursors v.cursors;
        },
        Stays-Findable b c rests rests' keeps.stays keeps.index s.findable,
        λ l. (let g = keeps.room l in omega arith),
        λ k _ u. Stays-Unnamed b c rests rests' keeps.stays k u,
        keeps.read,
        at_market-Serves msg b c rests rests' r (match (any_price_never is_buy b v.book)),
      )

  limit-Led :
      msg.price_ticks_limit < k_price_level_count
      → msg.order.id ≤ arr_size
      → 0 < length (frees msg.price_ticks_limit)
      → Unnamed msg.order.id b rests
      → Led (handle_limit_order msg b) (at_limit msg (queues_of b rests)) msg true b rests frees
  limit-Led hp hi room fresh =
      let v = s.sound in
      let (c, r, rests', frees', run, holds, _, placed) =
        limit_done msg b rests frees v.book v.index nonzero hp hi room in
      (
        c,
        r,
        rests',
        frees',
        run,
        record { book = holds.book; index = holds.indexed; cursors = holds.cursors v.cursors },
        holds.findable fresh s.findable,
        holds.room,
        λ k far u. holds.unnamed k (far refl) u,
        holds.read,
        at_limit-Serves msg b c rests rests' r placed,
      )

  pub dispatch-Led :
      (t : OrderType)
      → (is_limit t ≡ false)
        ⊎ ((msg.price_ticks_limit < k_price_level_count) × (msg.order.id ≤ arr_size))
      → Signed t msg.order.quantity_lots
      → (is_limit t ≡ true → 0 < length (frees msg.price_ticks_limit))
      → (is_limit t ≡ true → Unnamed msg.order.id b rests)
      → Led (dispatch t msg b) (by_type t msg (queues_of b rests)) msg (is_limit t) b rests frees
  unfolding dispatch by_type
  dispatch-Led buy fits sign room fresh =
      market-Led (market_limit buy)
        (sym (ap any_price (positive msg.order.quantity_lots nonzero sign)))
  dispatch-Led sell fits sign room fresh = market-Led (market_limit sell) (sym (ap any_price sign))
  dispatch-Led buy_limit (inl e) sign room fresh = cc
  dispatch-Led buy_limit (inr (hp, hi)) sign room fresh = limit-Led hp hi (room refl) (fresh refl)
  dispatch-Led sell_limit (inl e) sign room fresh = cc
  dispatch-Led sell_limit (inr (hp, hi)) sign room fresh = limit-Led hp hi (room refl) (fresh refl)
  dispatch-Led (other_type n) fits sign room fresh = (
    b,
    no_response,
    rests,
    frees,
    refl,
    s.sound,
    s.findable,
    λ l. omega arith,
    λ k _ u. u,
    refl,
    record { left = refl; response = refl; reports = refl },
  )
