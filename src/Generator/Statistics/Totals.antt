-- ===== src/Generator/Statistics/Totals.antt =====
-- Sums over the live orders, and over the prices.
use espacekilly.Base.{
  ℕ, zero, suc, ◌+◌, ◌^◌, ◌≤◌, ◌<◌, ◌==◌, ◌≡◌, refl, ap, Bool, true, false, List, [], ◌∷◌, arith,
  if◌then◌else◌, length, ltb,
}
use espacekilly.Generator.{LiveOrder, victim, overwrite, swap_pop}
use espacekilly.Generator.Statistics.{model_totals}

unfoldable pub total : (LiveOrder → ℕ) → List LiveOrder → ℕ
total w [] = 0
total w (x ∷ xs) = w x + total w xs

pub total_one : (xs : List LiveOrder) → total (λ x. 1) xs ≡ length xs
unfolding total
total_one [] = refl
total_one (x ∷ xs) = omega (arith, total_one xs)

victim_zero : (x : LiveOrder) (xs : List LiveOrder) → victim 0 x xs ≡ x
unfolding victim
victim_zero x [] = refl
victim_zero x (y ∷ ys) = refl

total-overwrite :
    (w : LiveOrder → ℕ) (k : ℕ) (x y : LiveOrder) (ys : List LiveOrder)
    → k ≤ length ys
    → total w (overwrite k x (y ∷ ys)) + w (victim k y ys) ≡ w x + (w y + total w ys)
unfolding total overwrite victim
total-overwrite w zero x y ys h = omega (arith, ap w (victim_zero y ys))
total-overwrite w (suc k) x y [] h = absurd (omega arith)
total-overwrite w (suc k) x y (z ∷ ys) h = omega (arith, total-overwrite w k x z ys (omega arith))

-- The victim's share leaves the sum.
pub total-swap_pop :
    (w : LiveOrder → ℕ) (k : ℕ) (x : LiveOrder) (xs : List LiveOrder)
    → k ≤ length xs
    → total w (swap_pop k x xs) + w (victim k x xs) ≡ total w (x ∷ xs)
unfolding total victim
total-swap_pop w zero x xs h = omega (arith, ap w (victim_zero x xs))
total-swap_pop w (suc k) x [] h = absurd (omega arith)
total-swap_pop w (suc k) x (y ∷ ys) h = total-overwrite w k x y ys (omega arith)

abbrev pub same : Bool → Bool → Bool
same true b = b
same false true = false
same false false = true

-- 1 for an order of that side and price.
abbrev pub at : Bool → ℕ → LiveOrder → ℕ
at b p x = if same b x.is_buy then (if x.price == p then 1 else 0) else 0

-- 1 for an order whose price is no level.
abbrev pub outside : LiveOrder → ℕ
outside x = if ltb x.price 128 then 0 else 1

unfoldable pub sum_below : (ℕ → ℕ) → ℕ → ℕ
sum_below f zero = 0
sum_below f (suc k) = sum_below f k + f k

sum_below-add :
    (f g h : ℕ → ℕ) (k : ℕ)
    → ((p : ℕ) → h p ≡ f p + g p)
    → sum_below h k ≡ sum_below f k + sum_below g k
unfolding sum_below
sum_below-add f g h zero e = refl
sum_below-add f g h (suc k) e = omega (arith, sum_below-add f g h k e, e k)

pub sum_below-same : (f g : ℕ → ℕ) (k : ℕ) → ((p : ℕ) → f p ≡ g p) → sum_below f k ≡ sum_below g k
unfolding sum_below
sum_below-same f g zero e = refl
sum_below-same f g (suc k) e = omega (arith, sum_below-same f g k e, e k)

sum_below-zero : (k : ℕ) → sum_below (λ p. 0) k ≡ 0
unfolding sum_below
sum_below-zero zero = refl
sum_below-zero (suc k) = omega (arith, sum_below-zero k)

-- Each order with a price below `k` is in exactly one place of the table.
sum_below-at :
    (x : LiveOrder) (k : ℕ)
    → sum_below (λ p. at true p x) k + sum_below (λ p. at false p x) k
      ≡ (if ltb x.price k then 1 else 0)
unfolding sum_below
sum_below-at x zero = ground arith
sum_below-at x (suc k) = let ih = sum_below-at x k in ground arith

-- The table counts every live order once.
pub sum_below-live :
    (xs : List LiveOrder)
    → total outside xs ≡ 0
    → sum_below (λ p. total (at true p) xs) 128 + sum_below (λ p. total (at false p) xs) 128
      ≡ length xs
unfolding total
sum_below-live [] h = let z = sum_below-zero 128 in omega arith
sum_below-live (x ∷ xs) h =
    let ih = sum_below-live xs (omega arith) in
    let one = sum_below-at x 128 in
    let b =
      sum_below-add (λ p. at true p x) (λ p. total (at true p) xs) (λ p. total (at true p) (x ∷ xs))
        128 (λ p. refl) in
    let a =
      sum_below-add (λ p. at false p x) (λ p. total (at false p) xs)
        (λ p. total (at false p) (x ∷ xs)) 128 (λ p. refl) in
    ground arith

-- Without a wrap, `model_totals` adds the two sides of the table up.
pub model_totals-sum_below :
    (model : Bool → ℕ → ℕ) (k : ℕ)
    → sum_below (model true) k + sum_below (model false) k < 2 ^ 64
    → (model_totals model k).0 + (model_totals model k).1
      ≡ sum_below (model true) k + sum_below (model false) k
unfolding model_totals sum_below
model_totals-sum_below model k small = let (a, b) = each k small in omega arith
  where
    each :
        (k : ℕ)
        → sum_below (model true) k + sum_below (model false) k < 2 ^ 64
        → ((model_totals model k).0 ≡ sum_below (model true) k)
          × ((model_totals model k).1 ≡ sum_below (model false) k)
    each zero h = (refl, refl)
    each (suc k) h = let (a, b) = each k (omega arith) in (omega arith, omega arith)
