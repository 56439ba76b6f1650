-- ===== src/Matcher/Handlers/Crossing.antt =====
-- The steps of HandleLimitOrder, and what becomes of the order.
use espacekilly.Base.{
  ℕ, ◌≡◌, refl, ◌⊎◌, inl, inr, Bool, true, false, not, some, arith, ℤ, pos, is_pos, if◌then◌else◌,
}
use espacekilly.Types.{
  Order, filled, partially_filled, rejected, resting, MessageResponse, NewOrderRequest,
}
use espacekilly.Matcher.Handlers.{
  crosses, after_cross, rest_order, handle_market_order, handle_limit_order, past_limit,
}
use espacekilly.Matcher.OrderBook.{OrderBook, side, inc, invalid_best_idx}
use espacekilly.Matcher.OrderBook.Counting.{on_side}
use espacekilly.Matcher.OrdersData.Invariant.{Levels}
use espacekilly.Matcher.Handlers.Resting.{RestsAt}

-- What becomes of a limit order: it crosses the other side and is filled, or what is left of it,
-- all of it if it does not cross, rests at its level.
abbrev pub LimitOutcome :
    Bool → NewOrderRequest → OrderBook → OrderBook → Levels → MessageResponse → Type 0
LimitOutcome is_buy msg b c rests r =
    ((crosses is_buy msg.price_ticks_limit (side b.best_idx (not is_buy)) ≡ true)
      × (r ≡ record {
        order = some (record { id = msg.order.id; quantity_lots = pos 0 });
        result = filled;
      }))
    ⊎ ((left : ℤ) × (r ≡ record {
      order = some (record { id = msg.order.id; quantity_lots = left });
      result = resting;
    })
        × (on_side is_buy left ≡ true)
        × ((crosses is_buy msg.price_ticks_limit (side b.best_idx (not is_buy)) ≡ true)
            ⊎ (left ≡ msg.order.quantity_lots))
        × RestsAt msg.price_ticks_limit (record { id = msg.order.id; quantity_lots = left }) c
            rests)

-- The book before the order crosses, or rests: the counters at file scope.
abbrev pub crossing : OrderBook → OrderBook
crossing b =
    let c = b.counters in
    record b {
      counters = record c { limit_orders = inc c.limit_orders; cross_order = inc c.cross_order };
    }

abbrev pub coming : OrderBook → OrderBook
coming b =
    let c = b.counters in record b { counters = record c { limit_orders = inc c.limit_orders } }

module _ (msg : NewOrderRequest) (b : OrderBook) where
  pub limit-rests :
      crosses
          (is_pos msg.order.quantity_lots)
          msg.price_ticks_limit
          (side b.best_idx (not (is_pos msg.order.quantity_lots)))
        ≡ false
      → handle_limit_order msg b
        ≡ rest_order (is_pos msg.order.quantity_lots) msg.price_ticks_limit msg.order (coming b)
  unfolding handle_limit_order
  limit-rests e = rw (handle_limit_order, e)

  pub limit-crosses :
      (c : OrderBook) (r : MessageResponse)
      → crosses
          (is_pos msg.order.quantity_lots)
          msg.price_ticks_limit
          (side b.best_idx (not (is_pos msg.order.quantity_lots)))
        ≡ true
      → handle_market_order msg (crossing b) msg.price_ticks_limit ≡ some (c, r)
      → handle_limit_order msg b
        ≡ after_cross (is_pos msg.order.quantity_lots) msg.price_ticks_limit (c, r)
  unfolding handle_limit_order
  limit-crosses c r e f = rw (handle_limit_order, e, f)

abbrev pub fully_filled : OrderBook → OrderBook
fully_filled b =
    let c = b.counters in
    record b { counters = record c { fully_filled_cross_order = inc c.fully_filled_cross_order } }

pub after-filled :
    (is_buy : Bool) (price : ℕ) (c : OrderBook) (r : MessageResponse)
    → r.result ≡ filled
    → after_cross is_buy price (c, r) ≡ some (fully_filled c, r)
unfolding after_cross
after-filled is_buy price c r e = simp (after_cross, e)

pub after-left :
    (is_buy : Bool) (price : ℕ) (c : OrderBook) (r : MessageResponse) (o : Order) (some_left : Bool)
    → r.order ≡ some o
    → r.result ≡ (if some_left then rejected else partially_filled)
    → after_cross is_buy price (c, r) ≡ rest_order is_buy price o c
unfolding after_cross
after-left is_buy price c r o true f e = rw (after_cross, e, f) refl
after-left is_buy price c r o false f e = rw (after_cross, e, f) refl

pub past_limit-crosses :
    (is_buy : Bool) (price best : ℕ)
    → (best ≡ invalid_best_idx) ⊎ (past_limit is_buy price best ≡ true)
    → crosses is_buy price best ≡ false
past_limit-crosses true price best (inl e) = ground arith
past_limit-crosses true price best (inr e) = ground arith
past_limit-crosses false price best (inl e) = ground arith
past_limit-crosses false price best (inr e) = ground arith

pub or_past : {A B C : Type 0} → (A × B) ⊎ C → B ⊎ C
or_past (inl (_, q)) = inl q
or_past (inr c) = inr c
