-- ===== src/Matcher/OrderBook/View/Named.antt =====
-- An id that no resting order has is in neither queue.
use espacekilly.Base.{
  ℕ, zero, suc, ◌+◌, ◌<◌, ◌≤◌, ◌≡◌, ◌≢◌, refl, Bool, true, false, inl, inr, List, [], ◌∷◌, arith, ℤ,
  none, Bool-cases,
}
use espacekilly.Types.{k_price_level_count}
use espacekilly.Matcher.Memory.{Ptr}
use espacekilly.Matcher.IntrusiveList.Ring.{has}
use espacekilly.Matcher.OrderBook.{OrderBook}
use espacekilly.Matcher.OrderBook.Counting.{on_side}
use espacekilly.Matcher.OrderBook.Findable.{Unnamed}
use espacekilly.Matcher.OrderBook.View.{level_orders, ascending, descending, best_first, view}
use espacekilly.Matcher.OrdersData.Invariant.{Levels}
use espacekilly.Matcher.Priority.{Entry}
use espacekilly.Matcher.Priority.Withdraw.{take_out, take_out-miss, take_out-append}

module _ (id : ℕ) where
  level_orders-take_out :
      (s : Bool) (ids : Ptr → ℕ) (lots : Ptr → ℤ) (l : ℕ) (ps : List Ptr)
      → ((p : Ptr) → has p ps ≡ true → ids p ≢ id)
      → take_out id (level_orders s ids lots l ps) ≡ none
  unfolding level_orders take_out
  level_orders-take_out s ids lots l [] far = refl
  level_orders-take_out s ids lots l (p ∷ ps) far =
      let rest = level_orders-take_out s ids lots l ps (λ q m. far q (ground arith)) in
      elim (Bool-cases (on_side s (lots p))) [
        | inl e ↦ rw e (
            take_out-miss id l (record { id = ids p; quantity_lots = lots p })
              (level_orders s ids lots l ps) (far p (ground arith)) rest)
        | inr e ↦ rw e rest
      ]

  module _ (f : ℕ → List Entry)
      (out : (m : ℕ) → m < k_price_level_count → take_out id (f m) ≡ none) where
    ascending-take_out :
        (a k : ℕ) → a + k ≤ k_price_level_count → take_out id (ascending f a k) ≡ none
    unfolding ascending take_out
    ascending-take_out a zero h = refl
    ascending-take_out a (suc k) h =
        take_out-append id (f a) (ascending f (a + 1) k) (out a (omega arith))
          (ascending-take_out (a + 1) k (omega arith))

    descending-take_out : (k : ℕ) → k ≤ k_price_level_count → take_out id (descending f k) ≡ none
    unfolding descending take_out
    descending-take_out zero h = refl
    descending-take_out (suc k) h =
        take_out-append id (f k) (descending f k) (out k (omega arith))
          (descending-take_out k (omega arith))

    best_first-take_out : (s : Bool) → take_out id (best_first s f) ≡ none
    best_first-take_out true = descending-take_out 128 (omega arith)
    best_first-take_out false = ascending-take_out 0 128 (omega arith)

  pub view-take_out :
      (b : OrderBook) (rests : Levels)
      → Unnamed id b rests
      → (s : Bool) → take_out id (view s b rests) ≡ none
  view-take_out b rests far s =
      let h = b.orders_data.heap in
      best_first-take_out (λ l. level_orders s h.id h.quantity_lots l (rests l))
        (λ m hm. level_orders-take_out s h.id h.quantity_lots m (rests m) (λ p i. far m p hm i)) s
