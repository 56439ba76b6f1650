-- ===== src/Matcher/OrderBook/Invariant.antt =====
-- The invariant of the order book.
use espacekilly.Base.{ℕ, ◌+◌, ◌≤◌, ◌<◌, ◌≡◌, ◌⊎◌, Bool, true, false, length, ℤ, arith}
use espacekilly.Types.{k_price_level_count, k_orders_per_tick}
use espacekilly.Matcher.Memory.{Ptr}
use espacekilly.Matcher.IntrusiveList.Ring.{has}
use espacekilly.Matcher.OrderBook.{OrderBook, Sides, side, invalid_best_idx}
use espacekilly.Matcher.OrderBook.Counting.{on_side, count_on, count_on-le, total, total-le}
use espacekilly.Matcher.OrdersData.Invariant.{IsPool, Levels}
use espacekilly.Matcher.OrdersData.{OrdersData}

-- A level that may hold orders of side `s` where the best level of that side is `best`: bids stand
-- at the best bid or below, asks at the best ask or above.
abbrev pub Within : Bool → ℕ → ℕ → Type 0
Within true best l = (l ≤ best) × (best < k_price_level_count)
Within false best l = best ≤ l

-- `rests` are the nodes that rest at each level, oldest first, and `frees` those that are free.
pub record IsBook (d : OrdersData) (counts best : Sides) (rests frees : Levels) : Type 0 where
  pub pool : IsPool d rests frees
  pub full :
      (l : ℕ) → l < k_price_level_count → length (rests l) + length (frees l) ≡ k_orders_per_tick
  -- Each node that rests has lots, and stands on the right side of the best price of its side.
  pub placed :
      (l : ℕ) (p : Ptr)
      → l < k_price_level_count
      → has p (rests l) ≡ true
      → (s : Bool) × (on_side s (d.heap.quantity_lots p) ≡ true) × Within s (side best s) l
  -- `counts` counts them.
  pub counted :
      (s : Bool)
      → side counts s ≡ total (λ l. count_on s d.heap.quantity_lots (rests l)) k_price_level_count
  pub best_ok : (s : Bool) → (side best s < k_price_level_count) ⊎ (side best s ≡ invalid_best_idx)
  -- The best bid is below the best ask.
  pub uncrossed : (side best true ≡ invalid_best_idx) ⊎ (side best true < side best false)

abbrev pub IsBookOf : OrderBook → Levels → Levels → Type 0
IsBookOf b = IsBook b.orders_data b.counts b.best_idx

-- At most all nodes of the pool rest.
pub count_bound :
    (lots : Ptr → ℤ) (rests frees : Levels) (s : Bool)
    → ((l : ℕ) → l < k_price_level_count → length (rests l) + length (frees l) ≡ k_orders_per_tick)
    → total (λ l. count_on s lots (rests l)) k_price_level_count ≤ 1_048_576
count_bound lots rests frees s full =
    total-le (λ l. count_on s lots (rests l)) 8192 128
      λ m h. omega (arith, count_on-le s lots (rests m), full m h)
