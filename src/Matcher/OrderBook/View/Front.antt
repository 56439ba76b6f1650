-- ===== src/Matcher/OrderBook/View/Front.antt =====
-- The queues of a book that keeps the invariant: what stands at their front, and how a change of
-- the oldest order at the best price shows in them.
use mathlib.Core.List.{cons≢nil}
use espacekilly.Base.{
  ℕ, ◌<◌, ◌≡◌, sym, ap, ◌∙◌, ◌⊎◌, inl, inr, Bool, true, false, List, [], ◌∷◌, arith,
}
use espacekilly.Types.{Order, k_price_level_count}
use espacekilly.Matcher.Memory.{Ptr, order_at}
use espacekilly.Matcher.IntrusiveList.Ring.{has}
use espacekilly.Matcher.OrderBook.{Sides, side}
use espacekilly.Matcher.OrderBook.Counting.{on_side, count_on, count_on-mem, total-zero}
use espacekilly.Matcher.OrderBook.Invariant.{Within, IsBook}
use espacekilly.Matcher.OrderBook.Reading.{sides_apart}
use espacekilly.Matcher.OrderBook.View.{
  level_orders, level_orders-cases, best_first, best_first-cases, Better,
}
use espacekilly.Matcher.OrdersData.{OrdersData}
use espacekilly.Matcher.OrdersData.Invariant.{Levels}
use espacekilly.Matcher.Priority.{Entry}

ahead_of_best : (s : Bool) (best m : ℕ) → Within s best m → Better s m best → ⊥
ahead_of_best true best m w h = omega arith
ahead_of_best false best m w h = omega arith

head_eq : {x y : Entry} {xs ys : List Entry} → x ∷ xs ≡ y ∷ ys → x ≡ y
head_eq e = cc

module _ {d : OrdersData} {counts best : Sides} {rests frees : Levels}
    (b : IsBook d counts best rests frees) (s : Bool) where
  abbrev pub at_level : ℕ → List Entry
  at_level l = level_orders s d.heap.id d.heap.quantity_lots l (rests l)

  -- An order of the side stands within the best price of the side.
  stands-Within :
      (l : ℕ) (p : Ptr)
      → l < k_price_level_count
      → has p (rests l) ≡ true
      → on_side s (d.heap.quantity_lots p) ≡ true
      → Within s (side best s) l
  stands-Within l p hl m on =
      let (t, on', w) = b.placed l p hl m in
      let e : t ≡ s = sides_apart t s (d.heap.quantity_lots p) on' on in (rw e at w)

  -- No better level has orders of the side.
  pub none_ahead : (m : ℕ) → m < k_price_level_count → Better s m (side best s) → at_level m ≡ []
  none_ahead m hm better = elim (level_orders-cases s d.heap.id d.heap.quantity_lots m (rests m)) [
    | inl e ↦ e
    | inr (p, es, member, on, e) ↦
        absurd (ahead_of_best s (side best s) m (stands-Within m p hm member on) better)
  ]

  -- A side without orders has an empty queue.
  pub view_empty : side counts s ≡ 0 → best_first s at_level ≡ []
  view_empty z = elim (best_first-cases s at_level) [
    | inl e ↦ e
    | inr (m, x, es, rest, hm, e, q) ↦
        elim (level_orders-cases s d.heap.id d.heap.quantity_lots m (rests m)) [
          | inl k ↦ absurd (cons≢nil (sym e ∙ k))
          | inr (p, es', member, on, k) ↦
              let c = count_on-mem s d.heap.quantity_lots p (rests m) member on in
              let t =
                total-zero (λ l. count_on s d.heap.quantity_lots (rests l)) k_price_level_count
                  (sym (b.counted s) ∙ z) m hm in
              absurd (omega arith)
        ]
  ]

  -- The front of the queue has a price within the best price.
  pub view_front :
      (best_first s at_level ≡ [])
      ⊎ ((l : ℕ) × (o : Order) × (rest : List Entry) × (best_first s at_level ≡ (l, o) ∷ rest)
          × Within s (side best s) l)
  view_front = elim (best_first-cases s at_level) [
    | inl e ↦ inl e
    | inr (m, x, es, rest, hm, e, q) ↦
        elim (level_orders-cases s d.heap.id d.heap.quantity_lots m (rests m)) [
          | inl k ↦ absurd (cons≢nil (sym e ∙ k))
          | inr (p, es', member, on, k) ↦
              let o = order_at d.heap p in
              let head : x ≡ (m, o) = head_eq (sym e ∙ k) in
              inr (m, o, rest, q ∙ ap (λ y. y ∷ rest) head, stands-Within m p hm member on)
        ]
  ]
