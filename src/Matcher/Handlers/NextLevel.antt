-- ===== src/Matcher/Handlers/NextLevel.antt =====
-- The loop of HandleMarketOrder at an empty level: the best price of the other side moves on.
use espacekilly.Base.{
  ℕ, ◌+◌, ◌-◌, ◌<◌, ◌≡◌, ◌≢◌, ap, ◌⊎◌, inl, Bool, true, false, not, [], arith, if◌then◌else◌,
}
use espacekilly.Types.{k_price_level_count}
use espacekilly.Matcher.Memory.{Ptr}
use espacekilly.Matcher.Handlers.{move}
use espacekilly.Matcher.IntrusiveList.Ring.{has}
use espacekilly.Matcher.OrderBook.{Sides, side, set_side, invalid_best_idx}
use espacekilly.Matcher.OrderBook.Invariant.{Within, IsBook}
use espacekilly.Matcher.OrderBook.Reading.{some_order, best_valid}
use espacekilly.Matcher.OrdersData.{OrdersData}
use espacekilly.Matcher.OrdersData.Invariant.{Levels}

-- How many levels a sweep can still go through: asks upwards, bids downwards.
abbrev pub distance : Bool → ℕ → ℕ
distance is_buy best = if is_buy then 128 - best else best + 1

module _ {d : OrdersData} {counts best : Sides} {rests frees : Levels}
    (b : IsBook d counts best rests frees) where
  elsewhere : (l m : ℕ) (p : Ptr) → rests l ≡ [] → has p (rests m) ≡ true → m ≢ l
  elsewhere l m p e h k = ground (arith, ap rests k, e)

  -- Another level further on holds an order, so that the new best price is a level.
  pub move_in_range :
      (is_buy : Bool)
      → 0 < side counts (not is_buy)
      → rests (side best (not is_buy)) ≡ []
      → (move is_buy (side best (not is_buy)) < k_price_level_count)
        × (distance is_buy (move is_buy (side best (not is_buy))) + 1
            ≡ distance is_buy (side best (not is_buy)))
  move_in_range true c e =
      let (l, p, hl, m, on, w) = some_order b false c in
      let ne = elsewhere best.ask l p e m in (omega arith, omega arith)
  move_in_range false c e =
      let (l, p, hl, m, on, w) = some_order b true c in
      let ne = elsewhere best.bid l p e m in (omega arith, omega arith)

  moved-Within :
      (is_buy s : Bool) (l : ℕ) (p : Ptr)
      → 0 < side counts (not is_buy)
      → rests (side best (not is_buy)) ≡ []
      → has p (rests l) ≡ true
      → Within s (side best s) l
      → Within s (side (set_side best (not is_buy) (move is_buy (side best (not is_buy)))) s) l
  moved-Within true true l p c e m w = w
  moved-Within true false l p c e m w =
      let ne = elsewhere best.ask l p e m in
      let r = move_in_range true c e in let v = best_valid b false c in omega arith
  moved-Within false false l p c e m w = w
  moved-Within false true l p c e m w =
      let ne = elsewhere best.bid l p e m in
      let r = move_in_range false c e in let v = best_valid b true c in (omega arith, omega arith)

  moved_ok :
      (is_buy s : Bool)
      → 0 < side counts (not is_buy)
      → rests (side best (not is_buy)) ≡ []
      → let best' = set_side best (not is_buy) (move is_buy (side best (not is_buy))) in
        (side best' s < k_price_level_count) ⊎ (side best' s ≡ invalid_best_idx)
  moved_ok true true c e = b.best_ok true
  moved_ok true false c e = inl (move_in_range true c e).0
  moved_ok false true c e = inl (move_in_range false c e).0
  moved_ok false false c e = b.best_ok false

  moved_uncrossed :
      (is_buy : Bool)
      → 0 < side counts (not is_buy)
      → rests (side best (not is_buy)) ≡ []
      → let best' = set_side best (not is_buy) (move is_buy (side best (not is_buy))) in
        (side best' true ≡ invalid_best_idx) ⊎ (side best' true < side best' false)
  moved_uncrossed true c e =
      let u = b.uncrossed in
      let r = move_in_range true c e in let v = best_valid b false c in ground arith
  moved_uncrossed false c e =
      let u = b.uncrossed in
      let r = move_in_range false c e in let v = best_valid b true c in ground arith

  -- The invariant holds with the new best price.
  pub move-IsBook :
      (is_buy : Bool)
      → 0 < side counts (not is_buy)
      → rests (side best (not is_buy)) ≡ []
      → IsBook d counts
          (set_side best (not is_buy) (move is_buy (side best (not is_buy))))
          rests
          frees
  move-IsBook is_buy c e = record {
    pool = b.pool;
    full = b.full;
    placed = λ l p hl m.
        let (s, on, w) = b.placed l p hl m in (s, on, moved-Within is_buy s l p c e m w);
    counted = b.counted;
    best_ok = λ s. moved_ok is_buy s c e;
    uncrossed = moved_uncrossed is_buy c e;
  }
