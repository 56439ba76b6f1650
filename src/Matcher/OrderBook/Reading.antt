-- ===== src/Matcher/OrderBook/Reading.antt =====
-- What the handlers find in a book that keeps the invariant.
use espacekilly.Base.{
  ℕ, ◌<◌, ◌≡◌, refl, sym, ap, ◌⊎◌, inl, inr, Bool, true, false, List, [], ◌∷◌, arith, ℤ,
}
use espacekilly.Types.{k_price_level_count}
use espacekilly.Matcher.Memory.{Ptr, Heap}
use espacekilly.Matcher.IntrusiveList.{is_empty, head}
use espacekilly.Matcher.IntrusiveList.Ring.{has, Backward, IsRing}
use espacekilly.Matcher.OrderBook.{Sides, side}
use espacekilly.Matcher.OrderBook.Counting.{on_side, count_on, count_on-pos, total-pos}
use espacekilly.Matcher.OrderBook.Invariant.{Within, IsBook}
use espacekilly.Matcher.OrdersData.{OrdersData}
use espacekilly.Matcher.OrdersData.Invariant.{Levels}

-- An order is on one side only.
pub sides_apart : (s t : Bool) (x : ℤ) → on_side s x ≡ true → on_side t x ≡ true → s ≡ t
sides_apart s t x p q = ground arith

last_mem :
    (prev : Ptr → Ptr) (a x : Ptr) (xs : List Ptr) (b : Ptr)
    → Backward prev a (x ∷ xs) b
    → has (prev b) (x ∷ xs) ≡ true
last_mem prev a x [] b g = ground arith
last_mem prev a x (y ∷ xs) b g = ground (arith, last_mem prev x y xs b g.1)

-- `isEmpty` and `head` of a ring.
pub ring_cases :
    (h : Heap) (s : Ptr) (xs : List Ptr)
    → IsRing h s xs
    → ((xs ≡ []) × (is_empty h s ≡ true))
      ⊎ ((ys : List Ptr) × (xs ≡ head h s ∷ ys) × (is_empty h s ≡ false))
ring_cases h s [] r = inl (refl, ground (arith, r.backward))
ring_cases h s (x ∷ xs) r =
    let m = last_mem h.prev s x xs s r.backward in
    let d = r.distinct in inr (xs, ap (λ y. y ∷ xs) (sym r.forward.0), ground arith)

module _ {d : OrdersData} {counts best : Sides} {rests frees : Levels}
    (b : IsBook d counts best rests frees) where
  -- Where the counter of a side is not zero, an order of that side rests within its best price.
  pub some_order :
      (s : Bool)
      → 0 < side counts s
      → (l : ℕ) × (p : Ptr) × (l < k_price_level_count)
        × (has p (rests l) ≡ true)
        × (on_side s (d.heap.quantity_lots p) ≡ true)
        × Within s (side best s) l
  some_order s h =
      let (l, hl, c) =
        total-pos (λ m. count_on s d.heap.quantity_lots (rests m)) k_price_level_count
          (omega (arith, b.counted s)) in
      let (p, m, on) = count_on-pos s d.heap.quantity_lots (rests l) c in
      let (t, on', w) = b.placed l p hl m in
      let e : t ≡ s = sides_apart t s (d.heap.quantity_lots p) on' on in
      (l, p, hl, m, on, (rw e at w))

  -- So the best price of that side is a level.
  pub best_valid : (s : Bool) → 0 < side counts s → side best s < k_price_level_count
  best_valid true h = (some_order true h).5.1
  best_valid false h = let o = some_order false h in omega (arith, o.5, o.2)

  same_side :
      (s t : Bool)
      → side best s < k_price_level_count
      → Within t (side best t) (side best s)
      → t ≡ s
  same_side true true h w = refl
  same_side true false h w = let u = b.uncrossed in absurd (omega arith)
  same_side false true h w = let u = b.uncrossed in absurd (omega arith)
  same_side false false h w = refl

  -- The orders at the best level of a side are of that side.
  pub best_side :
      (s : Bool) (p : Ptr)
      → side best s < k_price_level_count
      → has p (rests (side best s)) ≡ true
      → on_side s (d.heap.quantity_lots p) ≡ true
  best_side s p h m = let (t, on, w) = b.placed (side best s) p h m in rw (same_side s t h w) at on
