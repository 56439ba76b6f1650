-- ===== src/Matcher/Handlers/Place.antt =====
-- HandleLimitOrder refines the reference of Matcher.Priority.
use native.Mathlib.Decide.{ℕ_discrete}
use espacekilly.Base.{
  ℕ, ◌≤◌, ◌<◌, ◌≡◌, ◌≢◌, refl, sym, ap, ◌∙◌, ◌⊎◌, inl, inr, Bool, true, false, not, Option, some,
  arith, ℤ, pos, is_pos, eqb_ℤ, length, Bool-cases,
}
use espacekilly.Types.{
  Order, resting, MessageResponse, NewOrderRequest, k_price_level_count, arr_size,
}
use espacekilly.Matcher.Handlers.{crosses, past_limit, handle_limit_order}
use espacekilly.Matcher.Handlers.Follows.{Follows, stops_past, stops_empty}
use espacekilly.Matcher.Handlers.Crossing.{
  LimitOutcome, crossing, coming, limit-rests, limit-crosses, fully_filled, after-filled,
  after-left, past_limit-crosses, or_past,
}
use espacekilly.Matcher.Handlers.Market.{nonzero_side}
use espacekilly.Matcher.Handlers.Match.{market_done}
use espacekilly.Matcher.Handlers.Resting.{Holds, Keeps-Holds, Holds-after, rest_done}
use espacekilly.Matcher.OrderBook.{OrderBook, side, invalid_best_idx}
use espacekilly.Matcher.OrderBook.Index.{IsIndexed, Keeps-IsIndexed, Keeps-counted}
use espacekilly.Matcher.OrderBook.Invariant.{IsBookOf}
use espacekilly.Matcher.OrderBook.Reading.{best_valid}
use espacekilly.Matcher.OrderBook.View.{view}
use espacekilly.Matcher.OrdersData.Invariant.{Levels}
use espacekilly.Matcher.Priority.Cases.{place_rest, place_done, answer_left, answer_none}
use espacekilly.Matcher.Priority.{wants_more, match_orders, logged, enqueue, Placed, place}

-- The book `c` and the response `r` are what the reference makes of the two queues.
pub record Places (is_buy : Bool) (b : OrderBook) (placed : Placed) (c : OrderBook)
    (r : MessageResponse) (rests' : Levels) : Type 0 where
  pub other : view (not is_buy) c rests' ≡ placed.other
  pub own : view is_buy c rests' ≡ placed.own
  pub reports :
      (c.fulfilled, c.filled_write_idx) ≡ logged placed.reports b.fulfilled b.filled_write_idx
  pub response : r ≡ placed.response

crosses_near :
    (is_buy : Bool) (price best : ℕ)
    → crosses is_buy price best ≡ true
    → past_limit is_buy price best ≡ false
crosses_near true price best e = ground arith
crosses_near false price best e = ground arith

crosses_not :
    (is_buy : Bool) (price best : ℕ)
    → crosses is_buy price best ≡ false
    → (best ≡ invalid_best_idx) ⊎ (past_limit is_buy price best ≡ true)
crosses_not true price best e = ground arith
crosses_not false price best e = ground arith

-- Where the order does not cross, the reference matches nothing.
apart-Follows :
    (is_buy : Bool) (price : ℕ) (b : OrderBook) {rests frees : Levels} (lots : ℤ)
    → IsBookOf b rests frees
    → crosses is_buy price (side b.best_idx (not is_buy)) ≡ false
    → Follows is_buy price b rests lots b rests lots
apart-Follows is_buy price b lots v apart =
    elim (crosses_not is_buy price (side b.best_idx (not is_buy)) apart) [
      | inr past ↦ stops_past is_buy price b lots v past
      | inl e ↦ elim (ℕ_discrete (side b.counts (not is_buy)) 0) [
        | yes z ↦ stops_empty is_buy price b lots v z
        | no ne ↦ let k = best_valid v (not is_buy) (omega arith) in absurd (omega arith)
      ]
    ]

same_lots :
    (r : Option Order) (id : ℕ) (x y : ℤ)
    → r ≡ some (record { id = id; quantity_lots = x })
    → r ≡ some (record { id = id; quantity_lots = y })
    → x ≡ y
same_lots r id x y e f = cc

not_zero : (is_buy : Bool) (left : ℤ) → left ≡ pos 0 → wants_more is_buy left ≡ true → ⊥
not_zero is_buy left z w = let k = rw z at w in ground arith

-- All that HandleLimitOrder leads to.
abbrev pub LimitDone : NewOrderRequest → OrderBook → Levels → Levels → Type 0
LimitDone msg b rests frees =
    let is_buy = is_pos msg.order.quantity_lots in
    (c : OrderBook) × (r : MessageResponse) × (rests' : Levels) × (frees' : Levels)
    × (handle_limit_order msg b ≡ some (c, r))
    × Holds msg.price_ticks_limit msg.order.id b rests frees c rests' frees'
    × LimitOutcome is_buy msg b c rests' r
    × Places is_buy b
        (place is_buy msg.price_ticks_limit msg.order (view (not is_buy) b rests)
          (view is_buy b rests))
        c r rests'

abbrev pub LimitPlaces : NewOrderRequest → OrderBook → Levels → Type 0
LimitPlaces msg b rests =
    let is_buy = is_pos msg.order.quantity_lots in
    (c : OrderBook) × (r : MessageResponse) × (rests' : Levels) × (frees' : Levels)
    × (handle_limit_order msg b ≡ some (c, r))
    × IsBookOf c rests' frees'
    × IsIndexed c rests'
    × Places is_buy b
        (place is_buy msg.price_ticks_limit msg.order (view (not is_buy) b rests)
          (view is_buy b rests))
        c r rests'

module _ (msg : NewOrderRequest) (b : OrderBook) (rests frees : Levels) (v : IsBookOf b rests frees)
    (x : IsIndexed b rests) (nonzero : msg.order.quantity_lots ≢ pos 0)
    (hp : msg.price_ticks_limit < k_price_level_count) (hi : msg.order.id ≤ arr_size)
    (room : 0 < length (frees msg.price_ticks_limit)) where
  abbrev is_buy : Bool
  is_buy = is_pos msg.order.quantity_lots

  abbrev price : ℕ
  price = msg.price_ticks_limit

  places_at_once :
      crosses is_buy price (side b.best_idx (not is_buy)) ≡ false → LimitDone msg b rests frees
  places_at_once apart =
      let on = nonzero_side msg.order.quantity_lots nonzero in
      let (c, rests', frees', run, holds, at, queued) =
        rest_done is_buy price msg.order (coming b) rests frees v x hp hi room on apart in
      let f = apart-Follows is_buy price b msg.order.quantity_lots v apart in
      let p =
        place_rest is_buy price msg.order (view (not is_buy) b rests) (view is_buy b rests)
          (ap (wants_more is_buy) (sym f.lots_left) ∙ on) in
      (
        c,
        record { order = some msg.order; result = resting },
        rests',
        frees',
        limit-rests msg b apart ∙ run,
        record {
          book = holds.book;
          indexed = holds.indexed;
          room = holds.room;
          cursors = holds.cursors;
          read = holds.read;
          findable = holds.findable;
          unnamed = holds.unnamed;
        },
        inr (msg.order.quantity_lots, refl, on, inr refl, at),
        record {
          other = queued.other ∙ f.queue ∙ sym (ap (λ q. q.other) p);
          own =
              queued.own
              ∙ ap
                  (λ l.
                    enqueue is_buy price (record { id = msg.order.id; quantity_lots = l })
                      (view is_buy b rests))
                  f.lots_left
              ∙ sym (ap (λ q. q.own) p);
          reports =
              queued.reports
              ∙ f.reports
              ∙ sym (ap (λ q. logged q.reports b.fulfilled b.filled_write_idx) p);
          response =
              ap
                (λ l. record {
                  order = some (record { id = msg.order.id; quantity_lots = l });
                  result = resting;
                })
                f.lots_left
              ∙ sym (ap (λ q. q.response) p);
        },
      )

  places_after :
      crosses is_buy price (side b.best_idx (not is_buy)) ≡ true → LimitDone msg b rests frees
  places_after cross =
      let (c, r, rests', frees', run, settled, match) =
        market_done msg (crossing b) price rests frees v nonzero in
      let (w, keeps', (left, id, result), _, _, _) = settled in
      let keeps = Keeps-counted (crossing b).counters c.counters b c keeps' in
      let m = match (crosses_near is_buy price (side b.best_idx (not is_buy)) cross) in
      let step = limit-crosses msg b c r cross run in
      let other = view (not is_buy) b rests in
      let own = view is_buy b rests in
      let matched = match_orders is_buy price other msg.order.quantity_lots in
      elim (Bool-cases (wants_more is_buy matched.left)) [
        | inr none_left ↦
            let p = place_done is_buy price msg.order other own none_left in
            let given = m.answered ∙ answer_none is_buy msg.order matched.left none_left in
            let full = ap (λ q. q.result) given in
            (
              fully_filled c,
              r,
              rests',
              frees',
              step ∙ after-filled is_buy price c r full,
              Keeps-Holds price msg.order.id b (fully_filled c) w x
                  (Keeps-counted (crossing b).counters (fully_filled c).counters b c keeps'),
              inl (cross, given),
              record {
                other = m.queue ∙ sym (ap (λ q. q.other) p);
                own = m.own ∙ sym (ap (λ q. q.own) p);
                reports =
                    m.reports ∙ sym (ap (λ q. logged q.reports b.fulfilled b.filled_write_idx) p);
                response = m.answered ∙ sym (ap (λ q. q.response) p);
              },
            )
        | inl some_left ↦
            let p = place_rest is_buy price msg.order other own some_left in
            let o : Order = record { id = msg.order.id; quantity_lots = matched.left } in
            let given = m.answered ∙ answer_left is_buy msg.order matched.left some_left in
            let order = ap (λ q. q.order) given in
            let grown = keeps.room price in
            elim result [
              | inl (z, _) ↦ absurd (
                  not_zero is_buy matched.left
                    (same_lots r.order msg.order.id matched.left left order id ∙ z) some_left)
              | inr (_, _, stop) ↦
                  let (d, rests'', frees'', run', holds, at, queued) =
                    rest_done is_buy price o c rests' frees' w (Keeps-IsIndexed keeps x) hp hi
                      (omega arith) some_left
                      (past_limit-crosses is_buy price (side c.best_idx (not is_buy))
                        (or_past stop)) in
                  (
                    d,
                    record { order = some o; result = resting },
                    rests'',
                    frees'',
                    step
                        ∙ after-left is_buy price c r o (eqb_ℤ matched.left msg.order.quantity_lots)
                            order (ap (λ q. q.result) given)
                        ∙ run',
                    Holds-after keeps holds,
                    inr (matched.left, refl, some_left, inl cross, at),
                    record {
                      other = queued.other ∙ m.queue ∙ sym (ap (λ q. q.other) p);
                      own =
                          queued.own ∙ ap (enqueue is_buy price o) m.own ∙ sym (ap (λ q. q.own) p);
                      reports =
                          queued.reports
                          ∙ m.reports
                          ∙ sym (ap (λ q. logged q.reports b.fulfilled b.filled_write_idx) p);
                      response = sym (ap (λ q. q.response) p);
                    },
                  )
            ]
      ]

  pub limit_done : LimitDone msg b rests frees
  limit_done = elim (Bool-cases (crosses is_buy price (side b.best_idx (not is_buy)))) [
    | inl e ↦ places_after e
    | inr e ↦ places_at_once e
  ]

  -- HandleLimitOrder of an order with lots, with a price that is a level, an id within the index
  -- and a free node at its level, on a book with the invariant, does what price-time priority asks
  -- for: the order is matched against the queue of the other side up to its price, and what is left
  -- of it comes to rest in the queue of its side behind all orders with its price or a better one;
  -- the fills are reported in order in the ring of responses, and the response is that of the
  -- reference. The queues are read off the lists of the new book's levels, on which the invariant
  -- of the book and of the index holds.
  pub handle_limit_order-place : LimitPlaces msg b rests
  handle_limit_order-place =
      let (c, r, rests', frees', run, holds, _, placed) = limit_done in
      (c, r, rests', frees', run, holds.book, holds.indexed, placed)
