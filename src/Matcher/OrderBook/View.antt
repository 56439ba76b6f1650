-- ===== src/Matcher/OrderBook/View.antt =====
-- The orders of a side as one queue, best price first and oldest first.
pub mod Focus
pub mod Leave
pub mod Named
pub mod Queues
pub mod Arrive
pub mod Consume
pub mod Enqueue
pub mod Front
use espacekilly.Base.{
  ℕ, zero, suc, ◌+◌, ◌<◌, ◌≡◌, refl, ◌⊎◌, inl, inr, Bool, true, false, List, [], ◌∷◌, ◌++◌, arith,
  ℤ, if◌then◌else◌, Bool-cases,
}
use espacekilly.Types.{k_price_level_count}
use espacekilly.Matcher.Memory.{Ptr}
use espacekilly.Matcher.IntrusiveList.Ring.{has}
use espacekilly.Matcher.OrderBook.{OrderBook}
use espacekilly.Matcher.OrderBook.Counting.{on_side}
use espacekilly.Matcher.OrdersData.Invariant.{Levels}
use espacekilly.Matcher.Priority.{Entry}

-- The orders of side `s` among the nodes of level `l`.
unfoldable pub level_orders : Bool → (Ptr → ℕ) → (Ptr → ℤ) → ℕ → List Ptr → List Entry
level_orders s ids lots l [] = []
level_orders s ids lots l (p ∷ ps) =
    let rest = level_orders s ids lots l ps in
    if on_side s (lots p) then (l, record { id = ids p; quantity_lots = lots p }) ∷ rest else rest

unfoldable pub ascending : (ℕ → List Entry) → ℕ → ℕ → List Entry
ascending f l zero = []
ascending f l (suc k) = f l ++ ascending f (l + 1) k

unfoldable pub descending : (ℕ → List Entry) → ℕ → List Entry
descending f zero = []
descending f (suc k) = f k ++ descending f k

-- The best bid is the highest one, and the best ask the lowest.
abbrev pub best_first : Bool → (ℕ → List Entry) → List Entry
best_first s f = if s then descending f k_price_level_count else ascending f 0 k_price_level_count

abbrev pub view : Bool → OrderBook → Levels → List Entry
view s b rests =
    let h = b.orders_data.heap in
    best_first s (λ l. level_orders s h.id h.quantity_lots l (rests l))

-- Is level `m` better than level `l` on side `s`?
abbrev pub Better : Bool → ℕ → ℕ → Type 0
Better true m l = l < m
Better false m l = m < l

module _ (s : Bool) (ids : Ptr → ℕ) (lots : Ptr → ℤ) (l : ℕ) where
  pub level_orders-cases :
      (xs : List Ptr)
      → (level_orders s ids lots l xs ≡ [])
        ⊎ ((p : Ptr) × (es : List Entry) × (has p xs ≡ true)
            × (on_side s (lots p) ≡ true)
            × (level_orders s ids lots l xs
                ≡ (l, record { id = ids p; quantity_lots = lots p }) ∷ es))
  unfolding level_orders
  level_orders-cases [] = inl refl
  level_orders-cases (p ∷ ps) = elim (Bool-cases (on_side s (lots p))) [
    | inl e ↦ inr (p, level_orders s ids lots l ps, ground arith, e, rw e)
    | inr e ↦ elim (level_orders-cases ps) [
      | inl z ↦ inl (rw e z)
      | inr (q, es, m, on, z) ↦ inr (q, es, ground arith, on, rw e z)
    ]
  ]

  pub level_orders-same :
      (ids' : Ptr → ℕ) (lots' : Ptr → ℤ) (xs : List Ptr)
      → ((q : Ptr) → has q xs ≡ true → (ids' q ≡ ids q) × (lots' q ≡ lots q))
      → level_orders s ids' lots' l xs ≡ level_orders s ids lots l xs
  unfolding level_orders
  level_orders-same ids' lots' [] same = refl
  level_orders-same ids' lots' (p ∷ ps) same =
      let h = same p (ground arith) in
      let rest = level_orders-same ids' lots' ps (λ q m. same q (ground arith)) in
      rw (h.0, h.1, rest) refl

-- The front of the whole queue is the front of one of the levels.
ascending-cases :
    (f : ℕ → List Entry) (l k : ℕ)
    → (ascending f l k ≡ [])
      ⊎ ((m : ℕ) × (x : Entry) × (es : List Entry) × (rest : List Entry) × (m < l + k)
          × (f m ≡ x ∷ es)
          × (ascending f l k ≡ x ∷ rest))
unfolding ascending
ascending-cases f l zero = inl refl
ascending-cases f l (suc k) = go (f l) refl (ascending-cases f (l + 1) k)
  where
    go :
        (ys : List Entry)
        → f l ≡ ys
        → (ascending f (l + 1) k ≡ [])
          ⊎ ((m : ℕ) × (x : Entry) × (es : List Entry) × (rest : List Entry) × (m < l + 1 + k)
              × (f m ≡ x ∷ es)
              × (ascending f (l + 1) k ≡ x ∷ rest))
        → (f l ++ ascending f (l + 1) k ≡ [])
          ⊎ ((m : ℕ) × (x : Entry) × (es : List Entry) × (rest : List Entry) × (m < l + suc k)
              × (f m ≡ x ∷ es)
              × (f l ++ ascending f (l + 1) k ≡ x ∷ rest))
    go (y ∷ ys) e ih = inr (l, y, ys, ys ++ ascending f (l + 1) k, omega arith, e, rw e)
    go [] e (inl z) = inl (rw e z)
    go [] e (inr (m, x, es, rest, h, p, q)) = inr (m, x, es, rest, omega arith, p, rw e q)

descending-cases :
    (f : ℕ → List Entry) (k : ℕ)
    → (descending f k ≡ [])
      ⊎ ((m : ℕ) × (x : Entry) × (es : List Entry) × (rest : List Entry) × (m < k)
          × (f m ≡ x ∷ es)
          × (descending f k ≡ x ∷ rest))
unfolding descending
descending-cases f zero = inl refl
descending-cases f (suc k) = go (f k) refl (descending-cases f k)
  where
    go :
        (ys : List Entry)
        → f k ≡ ys
        → (descending f k ≡ [])
          ⊎ ((m : ℕ) × (x : Entry) × (es : List Entry) × (rest : List Entry) × (m < k)
              × (f m ≡ x ∷ es)
              × (descending f k ≡ x ∷ rest))
        → (f k ++ descending f k ≡ [])
          ⊎ ((m : ℕ) × (x : Entry) × (es : List Entry) × (rest : List Entry) × (m < suc k)
              × (f m ≡ x ∷ es)
              × (f k ++ descending f k ≡ x ∷ rest))
    go (y ∷ ys) e ih = inr (k, y, ys, ys ++ descending f k, omega arith, e, rw e)
    go [] e (inl z) = inl (rw e z)
    go [] e (inr (m, x, es, rest, h, p, q)) = inr (m, x, es, rest, omega arith, p, rw e q)

pub best_first-cases :
    (s : Bool) (f : ℕ → List Entry)
    → (best_first s f ≡ [])
      ⊎ ((m : ℕ) × (x : Entry) × (es : List Entry) × (rest : List Entry) × (m < k_price_level_count)
          × (f m ≡ x ∷ es)
          × (best_first s f ≡ x ∷ rest))
best_first-cases true f = descending-cases f k_price_level_count
best_first-cases false f = ascending-cases f 0 k_price_level_count
