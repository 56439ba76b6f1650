-- ===== src/Matcher/Ladder/Shows.antt =====
-- The ladder shows the orders that rest.
use mathlib.Core.Option.{some-injective}
use espacekilly.Base.{
  ℕ, zero, suc, ◌≤◌, ◌<◌, ◌==◌, ◌≡◌, ◌≢◌, refl, ap, ap₂, ◌∙◌, true, false, some, List, [], ◌∷◌,
  arith, ℤ, pos, Bool-cases, Option-cases, inl, inr, Option, none, ◌>>=◌, if◌then◌else◌, length,
}
use espacekilly.Types.{k_price_level_count, k_orders_per_tick}
use espacekilly.Matcher.IntrusiveList.Ring.{has, Forward}
use espacekilly.Matcher.Ladder.{Rung, no_orders, add_order, walk, rung, is_bare, ladder}
use espacekilly.Matcher.Memory.{Ptr, null, sentinel, Heap}
use espacekilly.Matcher.OrderBook.{OrderBook}
use espacekilly.Matcher.OrderBook.Counting.{count_on, count_on-mem}
use espacekilly.Matcher.OrderBook.Invariant.{IsBookOf}
use espacekilly.Matcher.OrdersData.Invariant.{Levels, has-Owned_low}
use espacekilly.Matcher.Ladder.Sums.{lots_on, held, Sided, in_range, checked, gather, gather-more}

module _ (h : Heap) (s : Ptr) where
  walk_stops : (fuel : ℕ) (n : Ptr) (r : Rung) → n ≡ s → walk (suc fuel) h s n r ≡ some r
  unfolding walk
  walk_stops fuel n r at = let e : (n == s) ≡ true = ground arith in rw e refl

  walk-goes :
      (fuel : ℕ) (n : Ptr) (r : Rung)
      → n ≢ s
      → n ≢ null
      → walk (suc fuel) h s n r
        ≡ add_order (h.quantity_lots n) r >>= (λ r'. walk fuel h s (h.next n) r')
  unfolding walk
  walk-goes fuel n r ne nn =
      let e : (n == s) ≡ false = ground arith in
      let k : (n == null) ≡ false = ground arith in rw (e, k) refl

  -- The walk along the nodes of a ring.
  walk-gather :
      (fuel : ℕ) (a : Ptr) (ps : List Ptr) (r : Rung)
      → length ps < fuel
      → Forward h.next a ps s
      → has s ps ≡ false
      → has null ps ≡ false
      → walk fuel h s (h.next a) r ≡ gather h.quantity_lots ps r
  unfolding gather
  walk-gather zero a ps r few f out nn = absurd (omega arith)
  walk-gather (suc fuel) a [] r few f out nn = walk_stops fuel (h.next a) r f
  walk-gather (suc fuel) a (p ∷ ps) r few f out nn =
      ap (λ n. walk (suc fuel) h s n r) f.0
      ∙ walk-goes fuel p r (ground arith) (ground arith)
      ∙ elim (Option-cases (add_order (h.quantity_lots p) r)) [
        | inl e ↦ rw e refl
        | inr (r', e) ↦
            rw e (walk-gather fuel p ps r' (omega arith) f.1 (ground arith) (ground arith))
      ]

-- What is to be seen of the levels below `k`: those with orders, the highest price first, unless the
-- lots of one are out of range.
unfoldable pub rungs : (Ptr → ℤ) → Levels → ℕ → Option (List (ℕ × Rung))
rungs lots rests zero = some []
rungs lots rests (suc p) = do
  r ← checked (held lots (rests p))
  rest ← rungs lots rests p
  some (elim (rests p) [ [] ↦ rest | _ ∷ _ ↦ (p, r) ∷ rest ])

abbrev pub Shown : OrderBook → Levels → Type 0
Shown b rests =
    ladder b k_price_level_count ≡ rungs b.orders_data.heap.quantity_lots rests k_price_level_count

-- A level without orders is skipped, one with orders is not.
bare_none : (lots : Ptr → ℤ) → is_bare (held lots []) ≡ true
unfolding count_on
bare_none lots = refl

bare_some :
    (lots : Ptr → ℤ) (p : Ptr) (ps : List Ptr)
    → Sided lots (p ∷ ps)
    → is_bare (held lots (p ∷ ps)) ≡ false
bare_some lots p ps sides =
    let (s, on) = sides p (ground arith) in
    let k = count_on-mem s lots p (p ∷ ps) (ground arith) on in
    elim (Bool-cases s) [
      | inl e ↦ let k' : 0 < count_on true lots (p ∷ ps) = rw (← e) k in ground (arith, k')
      | inr e ↦ let k' : 0 < count_on false lots (p ∷ ps) = rw (← e) k in ground (arith, k')
    ]

was_checked :
    (lots : Ptr → ℤ) (r : Rung) (ps : List Ptr)
    → some r ≡ checked (held lots ps)
    → is_bare r ≡ is_bare (held lots ps)
was_checked lots r ps e = elim (Bool-cases (in_range (held lots ps))) [
  | inl k ↦
      let f : some r ≡ some (held lots ps) = e ∙ rw k refl in
      ap is_bare (some-injective r (held lots ps) f)
  | inr k ↦ let f : some r ≡ none = e ∙ rw k refl in cc
]

module _ (b : OrderBook) (rests frees : Levels) (v : IsBookOf b rests frees) where
  abbrev lots : Ptr → ℤ
  lots = b.orders_data.heap.quantity_lots

  sided : (l : ℕ) → l < k_price_level_count → Sided lots (rests l)
  sided l hl p m = let (s, on, _) = v.placed l p hl m in (s, on)

  rung-held : (l : ℕ) → l < k_price_level_count → rung b l ≡ checked (held lots (rests l))
  rung-held l hl =
      let level = v.pool.level l hl in
      let few = v.full l hl in
      walk-gather b.orders_data.heap (sentinel l) (suc k_orders_per_tick) (sentinel l) (rests l)
        no_orders (omega arith) level.ring.forward level.ring.distinct.0
        (has-Owned_low l null (rests l) (omega arith) level.owned_ring)
      ∙ gather-more lots (rests l) no_orders (sided l hl) (record {
        bids_fit = omega arith;
        asks_fit = omega arith;
        bid_sign = refl;
        ask_sign = refl;
        bid_range = refl;
        ask_range = refl;
      })
      ∙ ap₂
          (λ x y. checked (record {
            bids = x;
            asks = y;
            bid_lots = lots_on true lots (rests l) (pos 0);
            ask_lots = lots_on false lots (rests l) (pos 0);
          }))
          (omega arith) (omega arith)

  ladder-rungs : (k : ℕ) → k ≤ k_price_level_count → ladder b k ≡ rungs lots rests k
  unfolding ladder rungs
  ladder-rungs zero h = refl
  ladder-rungs (suc k) h =
      rw (rung-held k (omega arith), ladder-rungs k (omega arith))
        (skipped (rests k) (checked (held lots (rests k))) (rungs lots rests k)
          (sided k (omega arith)) refl)
    where
      skipped :
          (ps : List Ptr) (m : Option Rung) (rest : Option (List (ℕ × Rung)))
          → Sided lots ps
          → m ≡ checked (held lots ps)
          → (m >>= (λ r. rest >>= (λ x. some (if is_bare r then x else (k, r) ∷ x))))
            ≡ (m >>= (λ r. rest >>= (λ x. some (elim ps [ [] ↦ x | _ ∷ _ ↦ (k, r) ∷ x ]))))
      skipped ps none rest sides e = refl
      skipped [] (some r) rest sides e =
          let z : is_bare r ≡ true = was_checked lots r [] e ∙ bare_none lots in rw z refl
      skipped (p ∷ ps) (some r) rest sides e =
          let z : is_bare r ≡ false = was_checked lots r (p ∷ ps) e ∙ bare_some lots p ps sides in
          rw z refl

  -- On a book with the invariant the loops that print the ladder end and follow no null pointer.
  -- Where for each level the lots of its bids, and those of its asks, add up to an `int64_t`, they
  -- show exactly the levels in whose lists there are orders, from the highest price down, with the
  -- number of bids and asks and those sums; else a sum overflows, and only then.
  pub ladder-Shown : Shown b rests
  ladder-Shown = ladder-rungs k_price_level_count (omega arith)
