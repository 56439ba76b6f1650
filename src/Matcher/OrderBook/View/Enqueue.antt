-- ===== src/Matcher/OrderBook/View/Enqueue.antt =====
-- An order comes to rest: in the queue of its side it stands behind all orders with its price or a
-- better one.
use native.Mathlib.Decide.{ℕ_discrete}
use espacekilly.Base.{
  ℕ, zero, suc, ◌+◌, ◌<◌, ◌≤◌, ◌==◌, ◌≡◌, ◌≢◌, refl, sym, ap, ap₂, ◌∙◌, Bool, true, false, not,
  List, [], ◌∷◌, ◌++◌, arith, ℤ, append_assoc, inl, inr, ltb, Bool-cases,
}
use espacekilly.Types.{Order, k_price_level_count}
use espacekilly.Matcher.Memory.{Ptr}
use espacekilly.Matcher.OrderBook.Counting.{on_side}
use espacekilly.Matcher.OrderBook.View.{level_orders, ascending, descending, best_first}
use espacekilly.Matcher.OrderBook.View.Focus.{ascending-same, descending-same}
use espacekilly.Matcher.Priority.{Entry, worse, enqueue}

-- All prices pass the test.
abbrev pub Every : (ℕ → Bool) → List Entry → Type 0
Every t [] = Unit {0}
Every t ((p, x) ∷ es) = (t p ≡ true) × Every t es

Every-also :
    (t u : ℕ → Bool) (es : List Entry)
    → ((p : ℕ) → t p ≡ true → u p ≡ true)
    → Every t es
    → Every u es
Every-also t u [] h e = tt
Every-also t u ((p, x) ∷ es) h e = (h p e.0, Every-also t u es h e.1)

Every-append : (t : ℕ → Bool) (xs ys : List Entry) → Every t xs → Every t ys → Every t (xs ++ ys)
Every-append t [] ys e f = f
Every-append t ((p, x) ∷ xs) ys e f = (e.0, Every-append t xs ys e.1 f)

-- The orders of a level carry its price.
abbrev pub Priced : (ℕ → List Entry) → Type 0
Priced f = (m : ℕ) → Every (λ p. p == m) (f m)

pub level_orders-Every :
    (s : Bool) (ids : Ptr → ℕ) (lots : Ptr → ℤ) (m : ℕ) (xs : List Ptr)
    → Every (λ p. p == m) (level_orders s ids lots m xs)
unfolding level_orders
level_orders-Every s ids lots m [] = tt
level_orders-Every s ids lots m (x ∷ xs) = elim (Bool-cases (on_side s (lots x))) [
  | inl e ↦ rw e (ground arith, level_orders-Every s ids lots m xs)
  | inr e ↦ rw e (level_orders-Every s ids lots m xs)
]

module _ (s : Bool) (price : ℕ) (o : Order) where
  -- Behind prices that are not worse, in front of prices that are.
  enqueue-append :
      (xs ys : List Entry)
      → Every (λ p. not (worse (not s) price p)) xs
      → enqueue s price o (xs ++ ys) ≡ xs ++ enqueue s price o ys
  unfolding enqueue
  enqueue-append [] ys e = refl
  enqueue-append ((p, x) ∷ xs) ys e =
      let w : worse (not s) price p ≡ false = ground arith in
      rw w (ap (λ r. (p, x) ∷ r) (enqueue-append xs ys e.1))

  enqueue-front :
      (es : List Entry)
      → Every (λ p. worse (not s) price p) es
      → enqueue s price o es ≡ (price, o) ∷ es
  unfolding enqueue
  enqueue-front [] e = refl
  enqueue-front ((p, x) ∷ es) e = rw (e.0) refl

  module _ (f g : ℕ → List Entry) (priced : Priced f) (here : g price ≡ f price ++ (price, o) ∷ [])
      (same : (m : ℕ) → m < k_price_level_count → m ≢ price → g m ≡ f m) where
    level_in_front :
        (m : ℕ) → worse (not s) price m ≡ false → Every (λ p. not (worse (not s) price p)) (f m)
    level_in_front m w =
        Every-also (λ p. p == m) (λ p. not (worse (not s) price p)) (f m)
          (λ p e. let k : p ≡ m = ground arith in rw (k, w) refl) (priced m)

    -- The level of the price, with worse levels behind it.
    at_price :
        (rest rest' : List Entry)
        → worse (not s) price price ≡ false
        → rest' ≡ rest
        → Every (λ p. worse (not s) price p) rest
        → g price ++ rest' ≡ enqueue s price o (f price ++ rest)
    at_price rest rest' w e worse_behind =
        ap₂ (λ a b. a ++ b) here e
        ∙ append_assoc (f price) ((price, o) ∷ []) rest
        ∙ ap (λ r. f price ++ r) (sym (enqueue-front rest worse_behind))
        ∙ sym (enqueue-append (f price) rest (level_in_front price w))

    -- A better level, in front of the others.
    past_level :
        (m : ℕ) (rest rest' : List Entry)
        → m < k_price_level_count
        → m ≢ price
        → worse (not s) price m ≡ false
        → rest' ≡ enqueue s price o rest
        → g m ++ rest' ≡ enqueue s price o (f m ++ rest)
    past_level m rest rest' hm ne w e =
        ap₂ (λ a b. a ++ b) (same m hm ne) e ∙ sym (enqueue-append (f m) rest (level_in_front m w))

descending-Every : (f : ℕ → List Entry) (k : ℕ) → Priced f → Every (λ p. ltb p k) (descending f k)
unfolding descending
descending-Every f zero priced = tt
descending-Every f (suc k) priced =
    Every-append (λ p. ltb p (suc k)) (f k) (descending f k)
      (Every-also (λ p. p == k) (λ p. ltb p (suc k)) (f k) (λ p e. ground arith) (priced k))
      (Every-also (λ p. ltb p k) (λ p. ltb p (suc k)) (descending f k) (λ p e. ground arith)
        (descending-Every f k priced))

ascending-Every :
    (f : ℕ → List Entry) (l k : ℕ) → Priced f → Every (λ p. not (ltb p l)) (ascending f l k)
unfolding ascending
ascending-Every f l zero priced = tt
ascending-Every f l (suc k) priced =
    Every-append (λ p. not (ltb p l)) (f l) (ascending f (l + 1) k)
      (Every-also (λ p. p == l) (λ p. not (ltb p l)) (f l) (λ p e. ground arith) (priced l))
      (Every-also (λ p. not (ltb p (l + 1))) (λ p. not (ltb p l)) (ascending f (l + 1) k)
        (λ p e. ground arith) (ascending-Every f (l + 1) k priced))

module _ (price : ℕ) (o : Order) (f g : ℕ → List Entry) (priced : Priced f)
    (here : g price ≡ f price ++ (price, o) ∷ [])
    (same : (m : ℕ) → m < k_price_level_count → m ≢ price → g m ≡ f m) where
  descending-enqueue :
      (k : ℕ)
      → price < k
      → k ≤ k_price_level_count
      → descending g k ≡ enqueue true price o (descending f k)
  unfolding descending
  descending-enqueue zero h hk = absurd (omega arith)
  descending-enqueue (suc k) h hk = elim (ℕ_discrete price k) [
    | yes e ↦ rw (← e) (
        at_price true price o f g priced here same (descending f price) (descending g price)
          (ground arith) (descending-same f g price (λ m hm. same m (omega arith) (omega arith)))
          (Every-also (λ p. ltb p price) (λ p. worse false price p) (descending f price) (λ p t. t)
            (descending-Every f price priced)))
    | no ne ↦
        past_level true price o f g priced here same k (descending f k) (descending g k)
          (omega arith) (omega arith) (ground arith)
          (descending-enqueue k (omega arith) (omega arith))
  ]

  ascending-enqueue :
      (l k : ℕ)
      → l ≤ price
      → price < l + k
      → l + k ≤ k_price_level_count
      → ascending g l k ≡ enqueue false price o (ascending f l k)
  unfolding ascending
  ascending-enqueue l zero a h hk = absurd (omega arith)
  ascending-enqueue l (suc k) a h hk = elim (ℕ_discrete price l) [
    | yes e ↦ rw (← e) (
        at_price false price o f g priced here same (ascending f (price + 1) k)
          (ascending g (price + 1) k) (ground arith)
          (ascending-same f g (price + 1) k (λ m i j. same m (omega arith) (omega arith)))
          (Every-also (λ p. not (ltb p (price + 1))) (λ p. worse true price p)
            (ascending f (price + 1) k) (λ p t. ground arith)
            (ascending-Every f (price + 1) k priced)))
    | no ne ↦
        past_level false price o f g priced here same l (ascending f (l + 1) k)
          (ascending g (l + 1) k) (omega arith) (omega arith) (ground arith)
          (ascending-enqueue (l + 1) k (omega arith) (omega arith) (omega arith))
  ]

  -- The whole queue with one order more at level `price`.
  pub best_first-enqueue :
      (s : Bool) → price < k_price_level_count → best_first s g ≡ enqueue s price o (best_first s f)
  best_first-enqueue true h = descending-enqueue 128 h (omega arith)
  best_first-enqueue false h = ascending-enqueue 0 128 (omega arith) h (omega arith)
