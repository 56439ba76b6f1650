-- ===== src/Matcher/OrderBook/View/Leave.antt =====
-- A node that rests is dropped: its order, and no other, leaves the queue of its side.
use native.Mathlib.Decide.{ℕ_discrete}
use espacekilly.Base.{
  ℕ, zero, suc, ◌+◌, ◌<◌, ◌≤◌, ◌≡◌, ◌≢◌, refl, sym, ap, ap₂, ◌∙◌, subst, Bool, true, false, List,
  ◌∷◌, ◌++◌, append_assoc, arith, update, update_self, update_ne,
}
use espacekilly.Types.{k_price_level_count}
use espacekilly.Matcher.Memory.{Ptr, order_at}
use espacekilly.Matcher.IntrusiveList.Ring.{has}
use espacekilly.Matcher.OrderBook.{Sides}
use espacekilly.Matcher.OrderBook.Counting.{on_side}
use espacekilly.Matcher.OrderBook.Invariant.{IsBook}
use espacekilly.Matcher.OrderBook.Remove.{resting_elsewhere, others_apart}
use espacekilly.Matcher.OrderBook.View.{
  level_orders, level_orders-same, ascending, descending, best_first,
}
use espacekilly.Matcher.OrderBook.View.Arrive.{level_orders-append}
use espacekilly.Matcher.OrderBook.View.Consume.{has_ne, level_orders-skip}
use espacekilly.Matcher.OrderBook.View.Focus.{ascending-same, descending-same, best_first-same}
use espacekilly.Matcher.OrderBook.View.Front.{at_level}
use espacekilly.Matcher.OrdersData.{OrdersData}
use espacekilly.Matcher.OrdersData.Invariant.{Levels}
use espacekilly.Matcher.Priority.{Entry}

-- `after` is `before` without one element, `e`.
abbrev pub Without : Entry → List Entry → List Entry → Type 0
Without e before after =
    (xs : List Entry) × (ys : List Entry) × (before ≡ xs ++ e ∷ ys) × (after ≡ xs ++ ys)

Without-behind :
    {e : Entry} {before after : List Entry} (zs zs' : List Entry)
    → zs' ≡ zs
    → Without e before after
    → Without e (before ++ zs) (after ++ zs')
Without-behind {e} zs zs' same (xs, ys, p, q) = (
  xs,
  ys ++ zs,
  ap (λ l. l ++ zs) p ∙ append_assoc xs (e ∷ ys) zs,
  ap₂ (λ l r. l ++ r) q same ∙ append_assoc xs ys zs,
)

Without-front :
    {e : Entry} {before after : List Entry} (zs zs' : List Entry)
    → zs' ≡ zs
    → Without e before after
    → Without e (zs ++ before) (zs' ++ after)
Without-front {e} zs zs' same (xs, ys, p, q) = (
  zs ++ xs,
  ys,
  ap (λ l. zs ++ l) p ∙ sym (append_assoc zs xs (e ∷ ys)),
  ap₂ (λ l r. l ++ r) same q ∙ sym (append_assoc zs xs ys),
)

module _ (e : Entry) (f g : ℕ → List Entry) (l : ℕ) (here : Without e (f l) (g l))
    (same : (m : ℕ) → m < k_price_level_count → m ≢ l → g m ≡ f m) where
  descending-Without :
      (k : ℕ) → l < k → k ≤ k_price_level_count → Without e (descending f k) (descending g k)
  unfolding descending
  descending-Without zero h hk = absurd (omega arith)
  descending-Without (suc k) h hk = elim (ℕ_discrete l k) [
    | yes i ↦ rw (← i) (
        Without-behind (descending f l) (descending g l)
          (descending-same f g l (λ m hm. same m (omega arith) (omega arith))) here)
    | no ne ↦
        Without-front (f k) (g k) (same k (omega arith) (omega arith))
          (descending-Without k (omega arith) (omega arith))
  ]

  ascending-Without :
      (a k : ℕ)
      → a ≤ l
      → l < a + k
      → a + k ≤ k_price_level_count
      → Without e (ascending f a k) (ascending g a k)
  unfolding ascending
  ascending-Without a zero i h hk = absurd (omega arith)
  ascending-Without a (suc k) i h hk = elim (ℕ_discrete l a) [
    | yes j ↦ rw (← j) (
        Without-behind (ascending f (l + 1) k) (ascending g (l + 1) k)
          (ascending-same f g (l + 1) k (λ m p q. same m (omega arith) (omega arith))) here)
    | no ne ↦
        Without-front (f a) (g a) (same a (omega arith) (omega arith))
          (ascending-Without (a + 1) k (omega arith) (omega arith) (omega arith))
  ]

  best_first-Without :
      (s : Bool) → l < k_price_level_count → Without e (best_first s f) (best_first s g)
  best_first-Without true h = descending-Without 128 h (omega arith)
  best_first-Without false h = ascending-Without 0 128 (omega arith) h (omega arith)

module _ {d : OrdersData} {counts best : Sides} {rests frees : Levels}
    (b : IsBook d counts best rests frees) (l : ℕ) (hl : l < k_price_level_count) (xs : List Ptr)
    (n : Ptr) (ys : List Ptr) (stands : rests l ≡ xs ++ n ∷ ys) (e : OrdersData)
    (ids : (q : Ptr) → n ≢ q → e.heap.id q ≡ d.heap.id q)
    (lots : (q : Ptr) → n ≢ q → e.heap.quantity_lots q ≡ d.heap.quantity_lots q) where
  abbrev rests' : Levels
  rests' = update rests l (xs ++ ys)

  abbrev left : Bool → ℕ → List Entry
  left s m = level_orders s e.heap.id e.heap.quantity_lots m (rests' m)

  apart_same :
      (s : Bool) (m : ℕ) (zs : List Ptr)
      → has n zs ≡ false
      → level_orders s e.heap.id e.heap.quantity_lots m zs
        ≡ level_orders s d.heap.id d.heap.quantity_lots m zs
  apart_same s m zs out =
      level_orders-same s d.heap.id d.heap.quantity_lots m e.heap.id e.heap.quantity_lots zs
        (λ q mem. let k = has_ne n q zs out mem in (ids q k, lots q k))

  others_left : (s : Bool) (m : ℕ) → m < k_price_level_count → m ≢ l → left s m ≡ at_level b s m
  others_left s m hm ne =
      ap (level_orders s e.heap.id e.heap.quantity_lots m)
        (update_ne rests (xs ++ ys) (λ k. ne (sym k)))
      ∙ apart_same s m (rests m) (resting_elsewhere b l hl xs n ys stands m hm (λ k. ne (sym k)))

  -- What is left at the level, split as it was around the node.
  left_split :
      (s : Bool)
      → left s l
        ≡ level_orders s d.heap.id d.heap.quantity_lots l xs
          ++ level_orders s d.heap.id d.heap.quantity_lots l ys
  left_split s =
      let (nx, ny, _) = others_apart b l hl xs n ys stands in
      ap (level_orders s e.heap.id e.heap.quantity_lots l) (update_self rests l (xs ++ ys))
      ∙ level_orders-append s e.heap.id e.heap.quantity_lots l xs ys
      ∙ ap₂ (λ p q. p ++ q) (apart_same s l xs nx) (apart_same s l ys ny)

  was_split :
      (s : Bool)
      → at_level b s l
        ≡ level_orders s d.heap.id d.heap.quantity_lots l xs
          ++ level_orders s d.heap.id d.heap.quantity_lots l (n ∷ ys)
  was_split s =
      ap (level_orders s d.heap.id d.heap.quantity_lots l) stands
      ∙ level_orders-append s d.heap.id d.heap.quantity_lots l xs (n ∷ ys)

  pub view_left :
      (s : Bool)
      → on_side s (d.heap.quantity_lots n) ≡ true
      → Without (l, order_at d.heap n) (best_first s (at_level b s)) (best_first s (left s))
  unfolding level_orders
  view_left s on =
      best_first-Without (l, order_at d.heap n) (at_level b s) (left s) l
        (
          level_orders s d.heap.id d.heap.quantity_lots l xs,
          level_orders s d.heap.id d.heap.quantity_lots l ys,
          was_split s
              ∙ ap (λ r. level_orders s d.heap.id d.heap.quantity_lots l xs ++ r) (rw on refl),
          left_split s,
        )
        (others_left s) s hl

  pub view_left_other :
      (s : Bool)
      → on_side s (d.heap.quantity_lots n) ≡ false
      → best_first s (left s) ≡ best_first s (at_level b s)
  view_left_other s off = best_first-same s (at_level b s) (left s) (λ m hm. elim (ℕ_discrete l m) [
    | yes k ↦
        subst (λ m. left s m ≡ at_level b s m) k
          (left_split s
            ∙ sym (
                was_split s
                ∙ ap (λ r. level_orders s d.heap.id d.heap.quantity_lots l xs ++ r)
                    (level_orders-skip s d.heap.id d.heap.quantity_lots l n ys off)))
    | no ne ↦ others_left s m hm (λ k. ne (sym k))
  ])
