-- ===== src/Matcher/OrderBook/Counting.antt =====
-- The number of orders that rest on one side of the book.
use espacekilly.Base.{
  ℕ, zero, suc, ◌+◌, ◌*◌, ◌≤◌, ◌<◌, ◌≡◌, ◌≢◌, refl, inl, inr, Bool, true, false, List, [], ◌∷◌,
  ◌++◌, arith, ℤ, is_pos, is_neg, if◌then◌else◌, update, length, Bool-cases,
}
use native.Mathlib.Decide.{ℕ_discrete}
use espacekilly.Matcher.Memory.{Ptr}
use espacekilly.Matcher.IntrusiveList.Ring.{has}

-- Is an order of so many lots a bid (`true`), or an ask (`false`)?
abbrev pub on_side : Bool → ℤ → Bool
on_side s x = if s then is_pos x else is_neg x

abbrev pub one_if : Bool → ℕ
one_if b = if b then 1 else 0

unfoldable pub count_on : Bool → (Ptr → ℤ) → List Ptr → ℕ
count_on s lots [] = 0
count_on s lots (x ∷ xs) = one_if (on_side s (lots x)) + count_on s lots xs

module _ (s : Bool) (lots : Ptr → ℤ) where
  pub count_on-mid :
      (xs : List Ptr) (n : Ptr) (ys : List Ptr)
      → count_on s lots (xs ++ n ∷ ys) ≡ one_if (on_side s (lots n)) + count_on s lots (xs ++ ys)
  unfolding count_on
  count_on-mid [] n ys = refl
  count_on-mid (x ∷ xs) n ys = omega (arith, count_on-mid xs n ys)

  -- A write to a node that is not counted.
  pub count_on-outside :
      (n : Ptr) (v : ℤ) (xs : List Ptr)
      → has n xs ≡ false
      → count_on s (update lots n v) xs ≡ count_on s lots xs
  unfolding count_on
  count_on-outside n v [] out = refl
  count_on-outside n v (x ∷ xs) out = ground (arith, count_on-outside n v xs)

  -- A write that leaves the order on its side.
  pub count_on-same :
      (n : Ptr) (v : ℤ) (xs : List Ptr)
      → on_side s v ≡ on_side s (lots n)
      → count_on s (update lots n v) xs ≡ count_on s lots xs
  unfolding count_on
  count_on-same n v [] same = refl
  count_on-same n v (x ∷ xs) same = ground (arith, count_on-same n v xs)

  pub count_on-le : (xs : List Ptr) → count_on s lots xs ≤ length xs
  unfolding count_on
  count_on-le [] = omega arith
  count_on-le (x ∷ xs) = ground (arith, count_on-le xs)

  pub count_on-mem :
      (n : Ptr) (xs : List Ptr)
      → has n xs ≡ true
      → on_side s (lots n) ≡ true
      → 0 < count_on s lots xs
  unfolding count_on
  count_on-mem n [] h k = cc
  count_on-mem n (x ∷ xs) h k = ground (arith, count_on-mem n xs)

  -- Where orders of a side are counted, there is one.
  pub count_on-pos :
      (xs : List Ptr)
      → 0 < count_on s lots xs
      → (n : Ptr) × (has n xs ≡ true) × (on_side s (lots n) ≡ true)
  unfolding count_on
  count_on-pos [] h = absurd (omega arith)
  count_on-pos (x ∷ xs) h = elim (Bool-cases (on_side s (lots x))) [
    | inl e ↦ (x, ground arith, e)
    | inr e ↦ let (n, m, k) = count_on-pos xs (ground arith) in (n, ground arith, k)
  ]

-- The sum of `f` over the levels below `k`.
unfoldable pub total : (ℕ → ℕ) → ℕ → ℕ
total f zero = 0
total f (suc k) = total f k + f k

pub total-same : (f g : ℕ → ℕ) (k : ℕ) → ((m : ℕ) → m < k → f m ≡ g m) → total f k ≡ total g k
unfolding total
total-same f g zero same = refl
total-same f g (suc k) same =
    omega (arith, total-same f g k (λ m h. same m (omega arith)), same k (omega arith))

-- Two functions that differ at one level.
pub total-change :
    (f g : ℕ → ℕ) (j k : ℕ)
    → j < k
    → ((m : ℕ) → m < k → j ≢ m → f m ≡ g m)
    → total f k + g j ≡ total g k + f j
unfolding total
total-change f g j zero h same = absurd (omega arith)
total-change f g j (suc k) h same = elim (ℕ_discrete j k) [
  | yes e ↦ rw e (omega (arith, total-same f g k (λ m hm. same m (omega arith) (omega arith))))
  | no ne ↦ omega (
    arith,
    total-change f g j k (omega arith) (λ m hm. same m (omega arith)),
    same k (omega arith) ne,
  )
]

pub total-le : (f : ℕ → ℕ) (c k : ℕ) → ((m : ℕ) → m < k → f m ≤ c) → total f k ≤ k * c
unfolding total
total-le f c zero h = omega arith
total-le f c (suc k) h =
    grind (arith, total-le f c k (λ m hm. h m (omega arith)), h k (omega arith))

pub total-pos : (f : ℕ → ℕ) (k : ℕ) → 0 < total f k → (m : ℕ) × (m < k) × (0 < f m)
unfolding total
total-pos f zero h = absurd (omega arith)
total-pos f (suc k) h = elim (ℕ_discrete (f k) 0) [
  | yes e ↦ let (m, hm, p) = total-pos f k (omega arith) in (m, omega arith, p)
  | no ne ↦ (k, omega arith, omega arith)
]

pub total-zero : (f : ℕ → ℕ) (k : ℕ) → total f k ≡ 0 → (m : ℕ) → m < k → f m ≡ 0
unfolding total
total-zero f zero z m h = absurd (omega arith)
total-zero f (suc k) z m h = elim (ℕ_discrete m k) [
  | yes e ↦ rw e (omega arith)
  | no ne ↦ total-zero f k (omega arith) m (omega arith)
]
