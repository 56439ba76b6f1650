-- ===== src/Matcher/OrderBook/Findable.antt =====
-- `idToOrder` seen from the nodes: each order that rests is found under its id.
use native.Mathlib.Decide.{ℕ_discrete}
use espacekilly.Base.{
  ℕ, ◌<◌, ◌≡◌, ◌≢◌, refl, sym, ap, ◌∙◌, true, [], ◌∷◌, ◌++◌, arith, update, update_self, update_ne,
}
use espacekilly.Types.{k_price_level_count}
use espacekilly.Matcher.Memory.{Ptr}
use espacekilly.Matcher.IntrusiveList.Ring.{has, has-append}
use espacekilly.Matcher.OrderBook.{OrderBook}
use espacekilly.Matcher.OrderBook.Index.{Stays}
use espacekilly.Matcher.OrdersData.Invariant.{Levels}

abbrev pub Findable : OrderBook → Levels → Type 0
Findable b rests =
    (l : ℕ) (p : Ptr)
    → l < k_price_level_count
    → has p (rests l) ≡ true
    → b.id_to_order (b.orders_data.heap.id p) ≡ p

-- No order that rests has this id.
abbrev pub Unnamed : ℕ → OrderBook → Levels → Type 0
Unnamed k b rests =
    (l : ℕ) (p : Ptr)
    → l < k_price_level_count
    → has p (rests l) ≡ true
    → b.orders_data.heap.id p ≢ k

module _ (b c : OrderBook) (rests rests' : Levels) (stays : Stays b c rests rests') where
  pub Stays-Findable : c.id_to_order ≡ b.id_to_order → Findable b rests → Findable c rests'
  Stays-Findable index f l p hl m =
      let (m', e) = stays l p hl m in
      ap c.id_to_order e ∙ ap (λ i. i (b.orders_data.heap.id p)) index ∙ f l p hl m'

  pub Stays-Unnamed : (k : ℕ) → Unnamed k b rests → Unnamed k c rests'
  Stays-Unnamed k u l p hl m = let (m', e) = stays l p hl m in λ h. u l p hl m' (sym e ∙ h)

-- A node takes an order with a new id and comes to rest.
module _ (ids : Ptr → ℕ) (index : ℕ → Ptr) (rests : Levels) (price id : ℕ) (n : Ptr) where
  abbrev after : Levels
  after = update rests price (rests price ++ n ∷ [])

  -- What rests then, other than the new node, rested before.
  was_there : (l : ℕ) (p : Ptr) → n ≢ p → has p (after l) ≡ true → has p (rests l) ≡ true
  was_there l p ne m = elim (ℕ_discrete price l) [
    | yes k ↦
        let j = has-append p (rests price) (n ∷ []) in
        let e = ap (has p) (ap rests k) in ground arith
    | no far ↦ ground arith
  ]

  pub arrived-Findable :
      ((l : ℕ) (p : Ptr) → l < k_price_level_count → has p (rests l) ≡ true → index (ids p) ≡ p)
      → ((l : ℕ) (p : Ptr) → l < k_price_level_count → has p (rests l) ≡ true → ids p ≢ id)
      → (l : ℕ) (p : Ptr) → l < k_price_level_count
      → has p (after l) ≡ true
      → update index id n (update ids n id p) ≡ p
  arrived-Findable f u l p hl m = elim (ℕ_discrete n p) [
    | yes e ↦ rw (← e, update_self ids n id, update_self index id n) refl
    | no ne ↦
        let m' = was_there l p ne m in
        let far = u l p hl m' in
        rw (update_ne ids id ne, update_ne index n (λ h. far (sym h))) (f l p hl m')
  ]

  pub arrived-Unnamed :
      (k : ℕ)
      → id ≢ k
      → ((l : ℕ) (p : Ptr) → l < k_price_level_count → has p (rests l) ≡ true → ids p ≢ k)
      → (l : ℕ) (p : Ptr) → l < k_price_level_count
      → has p (after l) ≡ true
      → update ids n id p ≢ k
  arrived-Unnamed k far u l p hl m = elim (ℕ_discrete n p) [
    | yes e ↦ rw (← e, update_self ids n id) far
    | no ne ↦ rw (update_ne ids id ne) (u l p hl (was_there l p ne m))
  ]
