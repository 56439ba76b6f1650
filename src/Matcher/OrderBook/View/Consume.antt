-- ===== src/Matcher/OrderBook/View/Consume.antt =====
-- The oldest order at the best price is changed or taken away: how the queues of the two sides
-- follow.
use mathlib.Core.Bool.{true≢false}
use native.Mathlib.Decide.{ℕ_discrete}
use espacekilly.Base.{
  ℕ, ◌<◌, ◌≡◌, ◌≢◌, refl, sym, ap, ◌∙◌, subst, ◌⊎◌, inl, inr, Bool, true, false, not, List, [], ◌∷◌,
  ◌++◌, arith, ℤ,
}
use espacekilly.Types.{k_price_level_count}
use espacekilly.Matcher.Memory.{Ptr, order_at}
use espacekilly.Matcher.IntrusiveList.Ring.{has}
use espacekilly.Matcher.OrderBook.{Sides, side}
use espacekilly.Matcher.OrderBook.Counting.{on_side}
use espacekilly.Matcher.OrderBook.Invariant.{IsBook}
use espacekilly.Matcher.OrderBook.Reading.{best_side}
use espacekilly.Matcher.OrderBook.Remove.{resting_elsewhere, others_apart}
use espacekilly.Matcher.OrderBook.View.{level_orders, level_orders-same, best_first, Better}
use espacekilly.Matcher.OrderBook.View.Focus.{
  behind, best_first-front, behind-same, best_first-same,
}
use espacekilly.Matcher.OrderBook.View.Front.{at_level, none_ahead}
use espacekilly.Matcher.OrdersData.{OrdersData}
use espacekilly.Matcher.OrdersData.Invariant.{Levels}
use espacekilly.Matcher.Priority.{Entry}

other_level : (s : Bool) (m j : ℕ) → Better s m j → j ≢ m
other_level true m j h = omega arith
other_level false m j h = omega arith

-- An order that is on one side is not on the other.
pub off_side : (s : Bool) (x : ℤ) → on_side s x ≡ true → on_side (not s) x ≡ false
off_side s x on = ground arith

pub has_ne : (n q : Ptr) (xs : List Ptr) → has n xs ≡ false → has q xs ≡ true → n ≢ q
has_ne n q xs out mem e = true≢false (sym mem ∙ ap (λ p. has p xs) (sym e) ∙ out)

pub level_orders-skip :
    (t : Bool) (ids : Ptr → ℕ) (lots : Ptr → ℤ) (l : ℕ) (p : Ptr) (ps : List Ptr)
    → on_side t (lots p) ≡ false
    → level_orders t ids lots l (p ∷ ps) ≡ level_orders t ids lots l ps
unfolding level_orders
level_orders-skip t ids lots l p ps off = rw off refl

module _ {d : OrdersData} {counts best : Sides} {rests frees : Levels}
    (b : IsBook d counts best rests frees) (s : Bool) (n : Ptr) (ys : List Ptr)
    (hl : side best s < k_price_level_count) (stands : rests (side best s) ≡ n ∷ ys) where
  on : on_side s (d.heap.quantity_lots n) ≡ true
  on = best_side b s n hl (rw stands (ground arith))

  -- What is behind the oldest order.
  abbrev pub queue_tail : List Entry
  queue_tail =
      level_orders s d.heap.id d.heap.quantity_lots (side best s) ys
      ++ behind s (at_level b s) (side best s)

  pub view_before : best_first s (at_level b s) ≡ (side best s, order_at d.heap n) ∷ queue_tail
  unfolding level_orders
  view_before =
      best_first-front s (at_level b s) (side best s) hl (none_ahead b s)
      ∙ ap
          (λ xs.
            level_orders s d.heap.id d.heap.quantity_lots (side best s) xs
            ++ behind s (at_level b s) (side best s))
          stands
      ∙ rw on refl

  module _ (e : OrdersData) (rests' : Levels) (ids : (q : Ptr) → n ≢ q → e.heap.id q ≡ d.heap.id q)
      (lots : (q : Ptr) → n ≢ q → e.heap.quantity_lots q ≡ d.heap.quantity_lots q)
      (elsewhere : (m : ℕ) → side best s ≢ m → rests' m ≡ rests m) where
    abbrev after : Bool → ℕ → List Entry
    after t l = level_orders t e.heap.id e.heap.quantity_lots l (rests' l)

    level_same :
        (t : Bool) (m : ℕ) → m < k_price_level_count → side best s ≢ m → after t m ≡ at_level b t m
    level_same t m hm ne =
        ap (level_orders t e.heap.id e.heap.quantity_lots m) (elsewhere m ne)
        ∙ level_orders-same t d.heap.id d.heap.quantity_lots m e.heap.id e.heap.quantity_lots
            (rests m)
            (λ q mem.
              let k =
                has_ne n q (rests m) (resting_elsewhere b (side best s) hl [] n ys stands m hm ne)
                  mem in
              (ids q k, lots q k))

    younger_same :
        (t : Bool)
        → level_orders t e.heap.id e.heap.quantity_lots (side best s) ys
          ≡ level_orders t d.heap.id d.heap.quantity_lots (side best s) ys
    younger_same t =
        level_orders-same t d.heap.id d.heap.quantity_lots (side best s) e.heap.id
          e.heap.quantity_lots ys
          (λ q mem.
            let k = has_ne n q ys (others_apart b (side best s) hl [] n ys stands).1 mem in
            (ids q k, lots q k))

    after_front :
        best_first s (after s)
        ≡ level_orders s e.heap.id e.heap.quantity_lots (side best s) (rests' (side best s))
          ++ behind s (at_level b s) (side best s)
    after_front =
        best_first-front s (after s) (side best s) hl (λ m hm better.
          level_same s m hm (other_level s m (side best s) better) ∙ none_ahead b s m hm better)
        ∙ ap (λ q. after s (side best s) ++ q)
            (behind-same s (at_level b s) (after s) (side best s) hl
              (λ m hm ne. level_same s m hm (λ q. ne (sym q))))

    -- The oldest order keeps its place.
    pub view_kept :
        rests' (side best s) ≡ n ∷ ys
        → on_side s (e.heap.quantity_lots n) ≡ true
        → best_first s (after s) ≡ (side best s, order_at e.heap n) ∷ queue_tail
    unfolding level_orders
    view_kept same still =
        after_front
        ∙ ap
            (λ xs.
              level_orders s e.heap.id e.heap.quantity_lots (side best s) xs
              ++ behind s (at_level b s) (side best s))
            same
        ∙ rw (still, younger_same s) refl

    -- The oldest order goes.
    pub view_gone : rests' (side best s) ≡ ys → best_first s (after s) ≡ queue_tail
    view_gone same =
        after_front
        ∙ ap
            (λ xs.
              level_orders s e.heap.id e.heap.quantity_lots (side best s) xs
              ++ behind s (at_level b s) (side best s))
            same
        ∙ ap (λ xs. xs ++ behind s (at_level b s) (side best s)) (younger_same s)

    before_skip :
        on_side (not s) (d.heap.quantity_lots n) ≡ false
        → at_level b (not s) (side best s)
          ≡ level_orders (not s) d.heap.id d.heap.quantity_lots (side best s) ys
    before_skip off =
        ap (level_orders (not s) d.heap.id d.heap.quantity_lots (side best s)) stands
        ∙ level_orders-skip (not s) d.heap.id d.heap.quantity_lots (side best s) n ys off

    -- The own side of the incoming order does not change.
    own_level :
        (rests' (side best s) ≡ ys)
          ⊎ ((rests' (side best s) ≡ n ∷ ys) × (on_side s (e.heap.quantity_lots n) ≡ true))
        → after (not s) (side best s) ≡ at_level b (not s) (side best s)
    own_level (inl gone) =
        let off = off_side s (d.heap.quantity_lots n) on in
        ap (level_orders (not s) e.heap.id e.heap.quantity_lots (side best s)) gone
        ∙ younger_same (not s)
        ∙ sym (before_skip off)
    own_level (inr (kept, still)) =
        let off = off_side s (d.heap.quantity_lots n) on in
        let off' = off_side s (e.heap.quantity_lots n) still in
        ap (level_orders (not s) e.heap.id e.heap.quantity_lots (side best s)) kept
        ∙ level_orders-skip (not s) e.heap.id e.heap.quantity_lots (side best s) n ys off'
        ∙ younger_same (not s)
        ∙ sym (before_skip off)

    pub view_own :
        (rests' (side best s) ≡ ys)
          ⊎ ((rests' (side best s) ≡ n ∷ ys) × (on_side s (e.heap.quantity_lots n) ≡ true))
        → best_first (not s) (after (not s)) ≡ best_first (not s) (at_level b (not s))
    view_own how = best_first-same (not s) (at_level b (not s)) (after (not s)) (λ m hm.
        elim (ℕ_discrete (side best s) m) [
          | yes here ↦ subst (λ m. after (not s) m ≡ at_level b (not s) m) here (own_level how)
          | no ne ↦ level_same (not s) m hm ne
        ])
