-- ===== src/Matcher/OrderBook/View/Arrive.antt =====
-- A free node comes to rest with an order: how the queues of the two sides follow.
use native.Mathlib.Decide.{ℕ_discrete}
use espacekilly.Base.{
  ℕ, ◌<◌, ◌≡◌, ◌≢◌, refl, sym, ap, ap₂, ◌∙◌, subst, inl, inr, Bool, true, false, List, [], ◌∷◌,
  ◌++◌, append-nil, ℤ, update, update_self, update_ne, Bool-cases,
}
use espacekilly.Types.{Order, k_price_level_count}
use espacekilly.Matcher.Memory.{Ptr}
use espacekilly.Matcher.OrderBook.{Sides}
use espacekilly.Matcher.OrderBook.Counting.{on_side}
use espacekilly.Matcher.OrderBook.Insert.{free_nowhere}
use espacekilly.Matcher.OrderBook.Invariant.{IsBook}
use espacekilly.Matcher.OrderBook.View.{level_orders, level_orders-same, best_first}
use espacekilly.Matcher.OrderBook.View.Consume.{has_ne, level_orders-skip}
use espacekilly.Matcher.OrderBook.View.Enqueue.{level_orders-Every, best_first-enqueue}
use espacekilly.Matcher.OrderBook.View.Focus.{best_first-same}
use espacekilly.Matcher.OrderBook.View.Front.{at_level}
use espacekilly.Matcher.OrdersData.{OrdersData}
use espacekilly.Matcher.OrdersData.Invariant.{Levels}
use espacekilly.Matcher.Priority.{Entry, enqueue}

pub level_orders-append :
    (s : Bool) (ids : Ptr → ℕ) (lots : Ptr → ℤ) (l : ℕ) (xs ys : List Ptr)
    → level_orders s ids lots l (xs ++ ys)
      ≡ level_orders s ids lots l xs ++ level_orders s ids lots l ys
unfolding level_orders
level_orders-append s ids lots l [] ys = refl
level_orders-append s ids lots l (x ∷ xs) ys = elim (Bool-cases (on_side s (lots x))) [
  | inl e ↦ rw e (
      ap (λ r. (l, record { id = ids x; quantity_lots = lots x }) ∷ r)
        (level_orders-append s ids lots l xs ys))
  | inr e ↦ rw e (level_orders-append s ids lots l xs ys)
]

level_orders-one :
    (s : Bool) (ids : Ptr → ℕ) (lots : Ptr → ℤ) (l : ℕ) (p : Ptr)
    → on_side s (lots p) ≡ true
    → level_orders s ids lots l (p ∷ []) ≡ (l, record { id = ids p; quantity_lots = lots p }) ∷ []
unfolding level_orders
level_orders-one s ids lots l p on = rw on refl

level_orders-none :
    (s : Bool) (ids : Ptr → ℕ) (lots : Ptr → ℤ) (l : ℕ) → level_orders s ids lots l [] ≡ []
unfolding level_orders
level_orders-none s ids lots l = refl

module _ {d : OrdersData} {counts best : Sides} {rests frees : Levels}
    (b : IsBook d counts best rests frees) (price : ℕ) (hp : price < k_price_level_count) (n : Ptr)
    (rest : List Ptr) (is_free : frees price ≡ n ∷ rest) (o : Order) where
  abbrev ids' : Ptr → ℕ
  ids' = update d.heap.id n o.id

  abbrev lots' : Ptr → ℤ
  lots' = update d.heap.quantity_lots n o.quantity_lots

  abbrev rests' : Levels
  rests' = update rests price (rests price ++ n ∷ [])

  abbrev arrived : Bool → ℕ → List Entry
  arrived s m = level_orders s ids' lots' m (rests' m)

  others_same :
      (s : Bool) (m : ℕ)
      → m < k_price_level_count
      → level_orders s ids' lots' m (rests m) ≡ at_level b s m
  others_same s m hm =
      level_orders-same s d.heap.id d.heap.quantity_lots m ids' lots' (rests m) (λ q mem.
        let k =
          has_ne n q (rests m) (free_nowhere b price hp n rest is_free o.quantity_lots m hm) mem in
        (update_ne d.heap.id o.id k, update_ne d.heap.quantity_lots o.quantity_lots k))

  elsewhere_same :
      (s : Bool) (m : ℕ) → m < k_price_level_count → m ≢ price → arrived s m ≡ at_level b s m
  elsewhere_same s m hm ne =
      ap (level_orders s ids' lots' m) (update_ne rests (rests price ++ n ∷ []) (λ e. ne (sym e)))
      ∙ others_same s m hm

  here_split :
      (s : Bool) → arrived s price ≡ at_level b s price ++ level_orders s ids' lots' price (n ∷ [])
  here_split s =
      ap (level_orders s ids' lots' price) (update_self rests price (rests price ++ n ∷ []))
      ∙ level_orders-append s ids' lots' price (rests price) (n ∷ [])
      ∙ ap (λ xs. xs ++ level_orders s ids' lots' price (n ∷ [])) (others_same s price hp)

  -- On its side, the order stands last among those with its price.
  pub view_arrived :
      (s : Bool)
      → on_side s o.quantity_lots ≡ true
      → best_first s (arrived s) ≡ enqueue s price o (best_first s (at_level b s))
  view_arrived s on =
      let id = update_self d.heap.id n o.id in
      let lots = update_self d.heap.quantity_lots n o.quantity_lots in
      best_first-enqueue price o (at_level b s) (arrived s)
        (λ m. level_orders-Every s d.heap.id d.heap.quantity_lots m (rests m))
        (here_split s
          ∙ ap (λ xs. at_level b s price ++ xs)
              (level_orders-one s ids' lots' price n (ap (on_side s) lots ∙ on)
                ∙ ap₂ (λ i x. (price, record { id = i; quantity_lots = x }) ∷ []) id lots))
        (elsewhere_same s) s hp

  -- The other side stays.
  pub view_arrived_other :
      (s : Bool)
      → on_side s o.quantity_lots ≡ false
      → best_first s (arrived s) ≡ best_first s (at_level b s)
  view_arrived_other s off =
      let lots = update_self d.heap.quantity_lots n o.quantity_lots in
      best_first-same s (at_level b s) (arrived s) (λ m hm. elim (ℕ_discrete price m) [
        | yes e ↦
            subst (λ m. arrived s m ≡ at_level b s m) e
              (here_split s
                ∙ ap (λ xs. at_level b s price ++ xs)
                    (level_orders-skip s ids' lots' price n [] (ap (on_side s) lots ∙ off)
                      ∙ level_orders-none s ids' lots' price)
                ∙ append-nil (at_level b s price))
        | no ne ↦ elsewhere_same s m hm (λ k. ne (sym k))
      ])
