-- ===== src/Matcher/OrdersData/Init.antt =====
-- The constructor of `OrdersData`: its two loops leave every node free, in the free list of its
-- level.
use espacekilly.Base.{
  update_self, update_ne, ℕ, zero, suc, ◌+◌, ◌-◌, ◌*◌, ◌≤◌, ◌<◌, ◌≡◌, refl, ap, ◌∙◌, false, List,
  [], ◌∷◌, arith, update,
}
use native.Mathlib.Decide.{ℕ_discrete}
use espacekilly.Types.{k_price_level_count, k_orders_per_tick}
use espacekilly.Matcher.Memory.{Ptr, null, sentinel, slot, Heap}
use espacekilly.Matcher.IntrusiveList.{set_next}
use espacekilly.Matcher.IntrusiveList.Ring.{has, Distinct}
use espacekilly.Matcher.OrdersData.{OrdersData, link_level, link_levels, init}
use espacekilly.Matcher.OrdersData.Invariant.{Owned, Chain, IsLevel, Levels, IsPool, IsLevel-same}

-- `n` nodes of the pool, from index `i` on.
unfoldable pub slots : ℕ → ℕ → List Ptr
slots zero i = []
slots (suc n) i = slot i ∷ slots n (i + 1)

slots-Owned : (l n i : ℕ) → l * 8192 ≤ i → i + n ≤ l * 8192 + 8192 → Owned l (slots n i)
unfolding slots
slots-Owned l zero i lo hi = tt
slots-Owned l (suc n) i lo hi =
    (omega arith, omega arith, slots-Owned l n (i + 1) (omega arith) (omega arith))

has-slots : (p n i : ℕ) → p < slot i → has p (slots n i) ≡ false
unfolding slots
has-slots p zero i h = refl
has-slots p (suc n) i h = ground (arith, has-slots p n (i + 1))

slots-Distinct : (n i : ℕ) → Distinct (slots n i)
unfolding slots
slots-Distinct zero i = tt
slots-Distinct (suc n) i = (has-slots (slot i) n (i + 1) (omega arith), slots-Distinct n (i + 1))

-- What the inner loop has done: it wrote the `next` links of a run of nodes, and nothing else.
record Linked (h : Heap) (tail : Ptr) (run : List Ptr) (end : Ptr) (g : Heap) : Type 0 where
  chain : Chain g.next tail (tail ∷ run)
  below : (q : Ptr) → q < tail → g.next q ≡ h.next q
  above : (q : Ptr) → end ≤ q → g.next q ≡ h.next q
  same_prev : g.prev ≡ h.prev

link_level-Linked :
    (n i pl : ℕ) (tail : Ptr) (h : Heap)
    → tail < slot (i + pl * 8192)
    → ((q : Ptr) → tail ≤ q → h.next q ≡ null)
    → Linked h tail (slots n (i + pl * 8192)) (slot (i + pl * 8192 + n)) (link_level n i pl tail h)
unfolding link_level slots
link_level-Linked zero i pl tail h lt free = record {
  chain = (refl, free tail (omega arith));
  below = λ q low. refl;
  above = λ q le. refl;
  same_prev = refl;
}
link_level-Linked (suc n) i pl tail h lt free =
    let node = slot (i + pl * 8192) in
    let step : i + pl * 8192 + 1 ≡ i + 1 + pl * 8192 = omega arith in
    let h1 = set_next tail node h in
    let r =
      link_level-Linked n (i + 1) pl node h1 (omega arith)
        (λ q le. update_ne h.next node (omega arith) ∙ free q (omega arith)) in
    record {
      chain = (refl, rw (r.below tail lt, update_self h.next tail node, step) r.chain);
      below = λ q low. r.below q (omega arith) ∙ update_ne h.next node (omega arith);
      above = λ q le. r.above q (omega arith) ∙ update_ne h.next node (omega arith);
      same_prev = r.same_prev;
    }

-- The nodes of a level.
abbrev pub all_slots : Levels
all_slots l = slots k_orders_per_tick (l * k_orders_per_tick)

abbrev pub none_rest : Levels
none_rest l = []

-- A heap in which each sentinel points at itself.
abbrev pub HasSentinels : Heap → Type 0
HasSentinels h =
    (l : ℕ)
    → l < k_price_level_count
    → (h.next (sentinel l) ≡ sentinel l) × (h.prev (sentinel l) ≡ sentinel l)

-- The levels below `pl` are set up, and nothing of the levels from `pl` on has been written.
record Started (d : OrdersData) (pl : ℕ) : Type 0 where
  levels : (l : ℕ) → l < pl → IsLevel d l [] (all_slots l)
  sentinels : HasSentinels d.heap
  blank : (q : Ptr) → slot (pl * 8192) ≤ q → d.heap.next q ≡ null

abbrev start_level : OrdersData → ℕ → OrdersData
start_level d pl = record {
  heap = link_level (k_orders_per_tick - 1) 1 pl (slot (0 + pl * k_orders_per_tick)) d.heap;
  free_lists = update d.free_lists pl (slot (0 + pl * k_orders_per_tick));
}

pub slots-pos : (m n i : ℕ) → m ≡ suc n → slots m i ≡ slot i ∷ slots n (i + 1)
unfolding slots
slots-pos m n i e = rw e

start_level-IsLevel :
    (d : OrdersData) (pl : ℕ)
    → pl < k_price_level_count
    → Started d pl
    → IsLevel (start_level d pl) pl [] (all_slots pl)
start_level-IsLevel d pl hp s =
    let first = slot (0 + pl * 8192) in
    let r =
      link_level-Linked 8191 1 pl first d.heap (omega arith) (λ q le. s.blank q (omega arith)) in
    let e1 : 1 + pl * 8192 ≡ pl * 8192 + 1 = omega arith in
    let e2 : first ≡ slot (pl * 8192) = omega arith in
    record {
      ring = record {
        forward = r.below (sentinel pl) (omega arith) ∙ (s.sentinels pl hp).0;
        backward = ap (λ f. f (sentinel pl)) r.same_prev ∙ (s.sentinels pl hp).1;
        distinct = (refl, tt);
      };
      chain =
          rw
            (
              update_self d.free_lists pl first,
              slots-pos 8192 8191 (pl * 8192) (omega arith),
              ← e1,
              ← e2,
            )
            r.chain;
      owned_ring = tt;
      owned_free = slots-Owned pl 8192 (pl * 8192) (omega arith) (omega arith);
      distinct = slots-Distinct 8192 (pl * 8192);
    }

start_level-Started :
    (d : OrdersData) (pl : ℕ)
    → pl < k_price_level_count
    → Started d pl
    → Started (start_level d pl) (suc pl)
start_level-Started d pl hp s =
    let first = slot (0 + pl * 8192) in
    let r =
      link_level-Linked 8191 1 pl first d.heap (omega arith) (λ q le. s.blank q (omega arith)) in
    let e = start_level d pl in
    record {
      levels = λ l hl. elim (ℕ_discrete pl l) [
        | yes p ↦ rw (← p) (start_level-IsLevel d pl hp s)
        | no ne ↦
            IsLevel-same d e l (λ p near. (r.below p (ground arith), ap (λ f. f p) r.same_prev))
              (update_ne d.free_lists first ne) (s.levels l (omega arith))
      ];
      sentinels = λ l hl. (
        r.below (sentinel l) (omega arith) ∙ (s.sentinels l hl).0,
        ap (λ f. f (sentinel l)) r.same_prev ∙ (s.sentinels l hl).1,
      );
      blank = λ q le. r.above q (omega arith) ∙ s.blank q (omega arith);
    }

link_levels-Started :
    (n pl : ℕ) (d : OrdersData)
    → pl + n ≤ k_price_level_count
    → Started d pl
    → Started (link_levels n pl d) (pl + n)
unfolding link_levels
link_levels-Started zero pl d h s = let e : pl ≡ pl + 0 = omega arith in rw (← e) s
link_levels-Started (suc n) pl d h s =
    let e : pl + 1 + n ≡ pl + suc n = omega arith in
    let e1 : suc pl ≡ pl + 1 = omega arith in
    rw (← e) (
      link_levels-Started n (pl + 1) (start_level d pl) (omega arith)
        (rw (← e1) (start_level-Started d pl (omega arith) s)))

-- From nodes whose sentinels point at themselves and whose other links are null, the constructor
-- makes a pool in which no node rests and all nodes of a level are free at that level.
pub init-IsPool :
    (h : Heap)
    → HasSentinels h
    → ((q : Ptr) → slot 0 ≤ q → h.next q ≡ null)
    → IsPool (init h) none_rest all_slots
unfolding init
init-IsPool h sentinels blank =
    let s =
      link_levels-Started k_price_level_count 0 (record { heap = h; free_lists = λ _. null })
        (omega arith)
        (record { levels = λ l hl. absurd (omega arith); sentinels = sentinels; blank = blank }) in
    record { level = s.levels }
