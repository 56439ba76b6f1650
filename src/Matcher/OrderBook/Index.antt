-- ===== src/Matcher/OrderBook/Index.antt =====
-- `idToOrder`, the index from the ids of orders to their nodes. It keeps pointing at a node that
-- has been released, so that an entry may be stale.
use native.Mathlib.Decide.{ℕ_discrete}
use espacekilly.Base.{
  ◌^◌, ℕ, ◌≤◌, ◌<◌, ◌≡◌, ◌≢◌, sym, ap, ◌∙◌, ◌⊎◌, inl, inr, true, List, [], ◌∷◌, ◌++◌, arith, update,
  length,
}
use espacekilly.Types.{k_price_level_count}
use espacekilly.Matcher.Memory.{Ptr, null}
use espacekilly.Matcher.IntrusiveList.Ring.{has, has-append}
use espacekilly.Matcher.OrderBook.{Counters, OrderBook}
use espacekilly.Matcher.OrdersData.Invariant.{Levels}

-- An entry of the index: null, or a node that is released and carries no id, or one that rests.
abbrev pub Found : (Ptr → ℕ) → Levels → Ptr → Type 0
Found ids rests p =
    (p ≡ null) ⊎ ((ids p ≡ 0) ⊎ ((l : ℕ) × (l < k_price_level_count) × (has p (rests l) ≡ true)))

abbrev pub IsIndexed : OrderBook → Levels → Type 0
IsIndexed b rests = (k : ℕ) → Found b.orders_data.heap.id rests (b.id_to_order k)

-- Entries stay such when the node `n` leaves level `l`, and when it comes to rest there.
module _ (ids : Ptr → ℕ) (rests : Levels) (l : ℕ) (n : Ptr) where
  pub Found-drop :
      (xs ys : List Ptr)
      → rests l ≡ xs ++ n ∷ ys
      → (p : Ptr) → Found ids rests p
      → Found (update ids n 0) (update rests l (xs ++ ys)) p
  Found-drop xs ys stands p (inl e) = inl e
  Found-drop xs ys stands p (inr (inl e)) = inr (inl (ground arith))
  Found-drop xs ys stands p (inr (inr (m, hm, i))) = elim (ℕ_discrete n p) [
    | yes e ↦ inr (inl (ground arith))
    | no ne ↦ inr (
        inr (
          m,
          hm,
          elim (ℕ_discrete l m) [
            | yes k ↦
                let j = ap (has p) (ap rests (sym k) ∙ stands) in
                ground (arith, has-append p xs ys, has-append p xs (n ∷ ys))
            | no far ↦ ground arith
          ],
        ))
  ]

  pub Found-insert :
      (v : ℕ)
      → l < k_price_level_count
      → (p : Ptr) → Found ids rests p
      → Found (update ids n v) (update rests l (rests l ++ n ∷ [])) p
  Found-insert v hl p f = elim (ℕ_discrete n p) [
    | yes e ↦ inr (inr (l, hl, ground (arith, has-append p (rests l) (n ∷ []))))
    | no ne ↦ go f ne
  ]
    where
      go : Found ids rests p → n ≢ p → Found (update ids n v) (update rests l (rests l ++ n ∷ [])) p
      go (inl e) ne = inl e
      go (inr (inl e)) ne = inr (inl (ground arith))
      go (inr (inr (m, hm, i))) ne = inr (
          inr (
            m,
            hm,
            elim (ℕ_discrete l m) [
              | yes k ↦
                  let j = ap (has p) (ap rests (sym k)) in
                  ground (arith, has-append p (rests l) (n ∷ []))
              | no far ↦ ground arith
            ],
          ))

-- The two indices of the fulfilled responses are `size_t`.
abbrev pub Cursors : OrderBook → Type 0
Cursors b = (b.filled_read_idx < 2 ^ 64) × (b.filled_write_idx < 2 ^ 64)

-- What rests in `c` rested in `b`, under the same id.
abbrev pub Stays : (b c : OrderBook) (rests rests' : Levels) → Type 0
Stays b c rests rests' =
    (l : ℕ) (p : Ptr)
    → l < k_price_level_count
    → has p (rests' l) ≡ true
    → (has p (rests l) ≡ true) × (c.orders_data.heap.id p ≡ b.orders_data.heap.id p)

-- What each step of the loop of HandleMarketOrder keeps: free nodes stay free, and the index, with
-- what it finds, is as before.
pub record Keeps (b c : OrderBook) (rests frees rests' frees' : Levels) : Type 0 where
  pub room : (l : ℕ) → length (frees l) ≤ length (frees' l)
  pub cursors : Cursors b → Cursors c
  pub read : c.filled_read_idx ≡ b.filled_read_idx
  pub index : c.id_to_order ≡ b.id_to_order
  pub stays : Stays b c rests rests'
  pub found : (p : Ptr) → Found b.orders_data.heap.id rests p → Found c.orders_data.heap.id rests' p

pub Keeps-trans :
    {b c e : OrderBook} {rests frees rests' frees' rests'' frees'' : Levels}
    → Keeps b c rests frees rests' frees'
    → Keeps c e rests' frees' rests'' frees''
    → Keeps b e rests frees rests'' frees''
Keeps-trans s t = record {
  room = λ l. let h = s.room l in let k = t.room l in omega arith;
  read = t.read ∙ s.read;
  index = t.index ∙ s.index;
  stays = λ l p hl m.
      let (m', e) = t.stays l p hl m in let (m'', f) = s.stays l p hl m' in (m'', e ∙ f);
  cursors = λ k. t.cursors (s.cursors k);
  found = λ p f. t.found p (s.found p f);
}

-- The counters at file scope do not matter.
pub Keeps-counted :
    (was is_now : Counters) (b c : OrderBook) {rests frees rests' frees' : Levels}
    → Keeps (record b { counters = was }) c rests frees rests' frees'
    → Keeps b (record c { counters = is_now }) rests frees rests' frees'
Keeps-counted was is_now b c k = record {
  room = k.room;
  cursors = k.cursors;
  read = k.read;
  index = k.index;
  stays = k.stays;
  found = k.found;
}

pub Keeps-IsIndexed :
    {b c : OrderBook} {rests frees rests' frees' : Levels}
    → Keeps b c rests frees rests' frees'
    → IsIndexed b rests
    → IsIndexed c rests'
Keeps-IsIndexed {b} {c} {rests} {frees} {rests'} s i k =
    s.found (c.id_to_order k) (rw (← ap (λ f. f k) s.index) at (i k))
