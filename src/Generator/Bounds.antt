-- ===== src/Generator/Bounds.antt =====
-- The midpoint and the prices of the generator.
use espacekilly.Base.{ℕ, ◌≤◌, ◌<◌, arith, ◌^◌, true, false}
use espacekilly.Types.{k_price_level_count}
use espacekilly.Generator.{Drift, down, stay, up, drift_midpoint, make_price}

-- The midpoint stays between 37 and 90.
pub drift_midpoint-bounds :
    (drift : Drift) (mid : ℕ)
    → 37 ≤ mid
    → mid ≤ 90
    → (37 ≤ drift_midpoint drift mid) × (drift_midpoint drift mid ≤ 90)
unfolding drift_midpoint
drift_midpoint-bounds down mid lo hi = (ground arith, ground arith)
drift_midpoint-bounds stay mid lo hi = (ground arith, ground arith)
drift_midpoint-bounds up mid lo hi = (ground arith, ground arith)

abbrev pub PriceSides : ℕ → ℕ → Type 0
PriceSides mid depth =
    (make_price mid depth true false < mid)
    × (mid < make_price mid depth false false)
    × (mid < make_price mid depth true true)
    × (make_price mid depth false true < mid)
    × (make_price mid depth false false < k_price_level_count)
    × (make_price mid depth true true < k_price_level_count)

-- Where the midpoint is between 37 and 90 and the depth below 2^30, orders that do not cross have
-- prices on their side of it, and orders that cross on the other side; all prices are levels.
pub make_price-sides : (mid depth : ℕ) → 37 ≤ mid → mid ≤ 90 → depth < 2 ^ 30 → PriceSides mid depth
unfolding make_price
make_price-sides mid depth lo hi d =
    (ground arith, ground arith, ground arith, ground arith, ground arith, ground arith)
