-- ===== src/Matcher/OrderBook/View/Focus.antt =====
-- The queue of a side, seen from one of its levels.
use native.Mathlib.Decide.{ℕ_discrete}
use espacekilly.Base.{
  ℕ, zero, suc, ◌+◌, ◌-◌, ◌≤◌, ◌<◌, ◌≡◌, ◌≢◌, refl, ap, ap₂, ◌∙◌, Bool, true, false, List, [], ◌++◌,
  arith, if◌then◌else◌,
}
use espacekilly.Types.{k_price_level_count}
use espacekilly.Matcher.Priority.{Entry}
use espacekilly.Matcher.OrderBook.View.{ascending, descending, best_first, Better}

pub ascending-same :
    (f g : ℕ → List Entry) (l k : ℕ)
    → ((m : ℕ) → l ≤ m → m < l + k → g m ≡ f m)
    → ascending g l k ≡ ascending f l k
unfolding ascending
ascending-same f g l zero same = refl
ascending-same f g l (suc k) same =
    ap₂ (λ a b. a ++ b) (same l (omega arith) (omega arith))
      (ascending-same f g (l + 1) k (λ m h i. same m (omega arith) (omega arith)))

pub descending-same :
    (f g : ℕ → List Entry) (k : ℕ) → ((m : ℕ) → m < k → g m ≡ f m) → descending g k ≡ descending f k
unfolding descending
descending-same f g zero same = refl
descending-same f g (suc k) same =
    ap₂ (λ a b. a ++ b) (same k (omega arith)) (descending-same f g k (λ m h. same m (omega arith)))

-- Levels without orders are passed over.
ascending_skip :
    (f : ℕ → List Entry) (l j k : ℕ)
    → ((m : ℕ) → l ≤ m → m < l + j → f m ≡ [])
    → ascending f l (j + k) ≡ ascending f (l + j) k
unfolding ascending
ascending_skip f l zero k none = ap₂ (ascending f) (omega arith) (omega arith)
ascending_skip f l (suc j) k none =
    let n : suc j + k ≡ suc (j + k) = omega arith in
    let rest = ascending_skip f (l + 1) j k (λ m h i. none m (omega arith) (omega arith)) in
    ap (ascending f l) n
    ∙ ap (λ x. x ++ ascending f (l + 1) (j + k)) (none l (omega arith) (omega arith))
    ∙ rest
    ∙ ap (λ x. ascending f x k) (omega arith)

descending_skip :
    (f : ℕ → List Entry) (j k : ℕ)
    → j < k
    → ((m : ℕ) → j < m → m < k → f m ≡ [])
    → descending f k ≡ f j ++ descending f j
unfolding descending
descending_skip f j zero h none = absurd (omega arith)
descending_skip f j (suc k) h none = elim (ℕ_discrete j k) [
  | yes e ↦ rw e refl
  | no ne ↦
      ap (λ x. x ++ descending f k) (none k (omega arith) (omega arith))
      ∙ descending_skip f j k (omega arith) (λ m a b. none m a (omega arith))
]

-- What stands behind level `j`.
abbrev pub behind : Bool → (ℕ → List Entry) → ℕ → List Entry
behind s f j = if s then descending f j else ascending f (j + 1) (127 - j)

-- Where no better level has orders, the queue starts with those of level `j`.
pub best_first-front :
    (s : Bool) (f : ℕ → List Entry) (j : ℕ)
    → j < k_price_level_count
    → ((m : ℕ) → m < k_price_level_count → Better s m j → f m ≡ [])
    → best_first s f ≡ f j ++ behind s f j
unfolding ascending
best_first-front true f j h none = descending_skip f j 128 h (λ m a b. none m b a)
best_first-front false f j h none =
    let n : 128 ≡ j + suc (127 - j) = omega arith in
    ap (ascending f 0) n
    ∙ ascending_skip f 0 j (suc (127 - j)) (λ m a b. none m (omega arith) (omega arith))
    ∙ ap (λ x. ascending f x (suc (127 - j))) at
  where
    at : 0 + j ≡ j
    at = omega arith

pub behind-same :
    (s : Bool) (f g : ℕ → List Entry) (j : ℕ)
    → j < k_price_level_count
    → ((m : ℕ) → m < k_price_level_count → m ≢ j → g m ≡ f m)
    → behind s g j ≡ behind s f j
behind-same true f g j h same = descending-same f g j (λ m a. same m (omega arith) (omega arith))
behind-same false f g j h same =
    ascending-same f g (j + 1) (127 - j) (λ m a b. same m (omega arith) (omega arith))

pub best_first-same :
    (s : Bool) (f g : ℕ → List Entry)
    → ((m : ℕ) → m < k_price_level_count → g m ≡ f m)
    → best_first s g ≡ best_first s f
best_first-same true f g same = descending-same f g 128 same
best_first-same false f g same = ascending-same f g 0 128 (λ m a b. same m (omega arith))
