-- ===== src/Matcher/Handlers/Settle.antt =====
-- What follows the loop of HandleMarketOrder, and the fuel of the loop.
use espacekilly.Base.{
  ℕ, ◌≤◌, ◌<◌, ◌≡◌, ◌≢◌, refl, sym, ◌∙◌, ◌⊎◌, inl, inr, Bool, true, false, not, some, arith, ℤ, pos,
  eqb_ℤ, ◌==◌, if◌then◌else◌, Bool-cases,
}
use espacekilly.Types.{
  Result, filled, partially_filled, rejected, MessageResponse, NewOrderRequest, k_price_level_count,
}
use espacekilly.Matcher.Handlers.{sweep_fuel, settle}
use espacekilly.Matcher.Handlers.Fill.{is_pos-times_direction}
use espacekilly.Matcher.Handlers.NextLevel.{distance}
use espacekilly.Matcher.Handlers.Rounds.{Enough}
use espacekilly.Matcher.IntrusiveList.Ring.{has}
use espacekilly.Matcher.Memory.{Ptr}
use espacekilly.Matcher.OrderBook.{OrderBook, Sides, side, set_side, invalid_best_idx}
use espacekilly.Matcher.OrderBook.Counting.{on_side, count_on, count_on-mem, total-zero}
use espacekilly.Matcher.OrderBook.Invariant.{Within, IsBook, IsBookOf, count_bound}
use espacekilly.Matcher.OrderBook.Reading.{best_valid}
use espacekilly.Matcher.OrdersData.{OrdersData}
use espacekilly.Matcher.OrdersData.Invariant.{Levels}

-- No best price where the counter of the side is zero.
module _ {d : OrdersData} {counts best : Sides} {rests frees : Levels}
    (b : IsBook d counts best rests frees) (s : Bool) (none_left : side counts s ≡ 0) where
  no_order :
      (l : ℕ) (p : Ptr)
      → l < k_price_level_count
      → has p (rests l) ≡ true
      → on_side s (d.heap.quantity_lots p) ≢ true
  no_order l p hl m on =
      let c = count_on-mem s d.heap.quantity_lots p (rests l) m on in
      let z =
        total-zero (λ k. count_on s d.heap.quantity_lots (rests k)) k_price_level_count
          (sym (b.counted s) ∙ none_left) l hl in
      absurd (omega arith)

  other_best : (t : Bool) → t ≢ s → side (set_side best s invalid_best_idx) t ≡ side best t
  other_best t ne = ground arith

  still-Within :
      (t : Bool) (l : ℕ) (p : Ptr)
      → l < k_price_level_count
      → has p (rests l) ≡ true
      → on_side t (d.heap.quantity_lots p) ≡ true
      → Within t (side best t) l
      → Within t (side (set_side best s invalid_best_idx) t) l
  still-Within t l p hl m on w = rw (other_best t λ e. no_order l p hl m (rw e at on)) w

  pub reset-IsBook : IsBook d counts (set_side best s invalid_best_idx) rests frees
  reset-IsBook = record {
    pool = b.pool;
    full = b.full;
    placed =
        λ l p hl m. let (t, on, w) = b.placed l p hl m in (t, on, still-Within t l p hl m on w);
    counted = b.counted;
    best_ok = reset_ok s;
    uncrossed = reset_uncrossed s b.uncrossed;
  }
    where
      reset_ok :
          (s t : Bool)
          → (side (set_side best s invalid_best_idx) t < k_price_level_count)
            ⊎ (side (set_side best s invalid_best_idx) t ≡ invalid_best_idx)
      reset_ok true true = inr refl
      reset_ok true false = b.best_ok false
      reset_ok false true = b.best_ok true
      reset_ok false false = inr refl

      reset_uncrossed :
          (s : Bool)
          → (side best true ≡ invalid_best_idx) ⊎ (side best true < side best false)
          → let best' = set_side best s invalid_best_idx in
            (side best' true ≡ invalid_best_idx) ⊎ (side best' true < side best' false)
      reset_uncrossed true u = inl refl
      reset_uncrossed false u = let k = b.best_ok true in ground arith

-- The fuel of the loop is enough, since at most all nodes of the pool rest.
pub sweep_fuel-Enough :
    (b : OrderBook) {rests frees : Levels} (is_buy : Bool) (lots : ℤ)
    → IsBookOf b rests frees
    → Enough sweep_fuel is_buy b lots
sweep_fuel-Enough b {rests} {frees} is_buy lots v = (
  omega arith,
  λ _ h.
      let c = count_bound b.orders_data.heap.quantity_lots rests frees (not is_buy) v.full in
      let near = distance-le is_buy (best_valid v (not is_buy) h) in
      omega (arith, v.counted (not is_buy), near),
)
  where
    distance-le :
        (is_buy : Bool) {best : ℕ} → best < k_price_level_count → distance is_buy best ≤ 128
    distance-le true h = omega arith
    distance-le false h = omega arith

differs : (s : Bool) (x y : ℤ) → on_side s x ≡ true → on_side s y ≡ false → eqb_ℤ y x ≡ false
differs s x y p q = ground arith

-- The response of `settle`, and its effect on the book.
module _ (is_buy : Bool) (msg : NewOrderRequest) (c : OrderBook) (left : ℤ) where
  abbrev pub settled : OrderBook
  settled =
      if side c.counts (not is_buy) == 0
      then record c { best_idx = set_side c.best_idx (not is_buy) invalid_best_idx }
      else c

  abbrev pub response : ℤ → Result → MessageResponse
  response lots result = record {
    order = some (record { id = msg.order.id; quantity_lots = lots });
    result = result;
  }

  pub settle-settled : (settle is_buy msg c left).0 ≡ settled
  unfolding settle
  settle-settled = refl

  pub settle-filled :
      on_side is_buy msg.order.quantity_lots ≡ true
      → on_side is_buy left ≡ false
      → settle is_buy msg c left ≡ (settled, response (pos 0) filled)
  unfolding settle
  settle-filled on off =
      let p = is_pos-times_direction is_buy left ∙ off in
      rw (settle, p, differs is_buy msg.order.quantity_lots left on off)

  pub settle-unfilled :
      on_side is_buy left ≡ true
      → settle is_buy msg c left ≡ (
        settled,
        response left (if eqb_ℤ left msg.order.quantity_lots then rejected else partially_filled),
      )
  unfolding settle
  settle-unfilled on =
      let p = is_pos-times_direction is_buy left ∙ on in
      rw (settle, p)
        (elim (Bool-cases (eqb_ℤ left msg.order.quantity_lots)) [ inl e ↦ rw e | inr e ↦ rw e ])
