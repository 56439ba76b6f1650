-- ===== src/Matcher/OrdersData/Insert.antt =====
-- `GetFree` and `append`, as `HandleLimitOrder` calls them: a node of a level leaves its free list
-- and goes to the end of its ring.
use espacekilly.Base.{
  update_self, update_ne, ℕ, ◌<◌, ◌≡◌, ◌≢◌, sym, ◌∙◌, true, false, some, List, [], ◌∷◌, ◌++◌,
  append_assoc, arith, update,
}
use native.Mathlib.Decide.{ℕ_discrete}
use espacekilly.Types.{k_price_level_count}
use espacekilly.Matcher.Memory.{Ptr, null, sentinel, Heap}
use espacekilly.Matcher.IntrusiveList.{append, set_next}
use espacekilly.Matcher.IntrusiveList.Append.{Appended, append-IsRing}
use espacekilly.Matcher.IntrusiveList.Ring.{has, Distinct-mid, Distinct-apart, Forward-frame}
use espacekilly.Matcher.OrdersData.{OrdersData, get_free}
use espacekilly.Matcher.OrdersData.Invariant.{
  IsLevel, Levels, IsPool, has-Owned_far, has-Owned_low, Owned-has, Owned-append, Chain-same,
  IsLevel-same,
}

-- The pool after `GetFree` of a level whose first free node is `n`.
abbrev pub taken : OrdersData → ℕ → Ptr → OrdersData
taken d l n = record {
  heap = set_next n null d.heap;
  free_lists = update d.free_lists l (d.heap.next n);
}

module _ (d : OrdersData) (l : ℕ) {xs : List Ptr} {n : Ptr} {rest : List Ptr}
    (hl : l < k_price_level_count) (v : IsLevel d l xs (n ∷ rest)) where
  pub get_free-taken : get_free d l ≡ some (n, taken d l n)
  unfolding get_free
  get_free-taken =
      let e : d.free_lists l ≡ n = v.chain.0 in
      let o = v.owned_free in rw (get_free, e) (ground arith)

  -- What appending makes of the level.
  insert-IsLevel :
      (h : Heap)
      → Appended (taken d l n).heap (sentinel l) n xs h
      → IsLevel
          (record { heap = h; free_lists = update d.free_lists l (d.heap.next n) })
          l
          (xs ++ n ∷ [])
          rest
  insert-IsLevel h a =
      let (_, n_rest, others) = Distinct-mid xs n rest v.distinct in
      let same : (q : Ptr) → has q rest ≡ true → h.next q ≡ d.heap.next q = λ q i.
        let apart = Distinct-apart xs rest q others i in
        let range = Owned-has l q rest v.owned_free.2 i in
        let qn : n ≢ q = ground arith in
        let out : has q (n ∷ sentinel l ∷ xs) ≡ false = ground arith in
        (a.outside q out).0 ∙ update_ne d.heap.next null qn in
      record {
        ring = a.ring;
        chain =
            rw (update_self d.free_lists l (d.heap.next n))
              (Chain-same d.heap.next h.next (d.heap.next n) rest same v.chain.1);
        owned_ring = Owned-append l xs (n ∷ []) v.owned_ring (v.owned_free.0, v.owned_free.1, tt);
        owned_free = v.owned_free.2;
        distinct = rw (append_assoc xs (n ∷ []) rest) v.distinct;
      }

  -- The node can be appended.
  insert_ready :
      (g : Heap) × (append (taken d l n).heap (sentinel l) n ≡ some g)
      × Appended (taken d l n).heap (sentinel l) n xs g
  insert_ready =
      let (xs_n, _, _) = Distinct-mid xs n rest v.distinct in
      let o = v.owned_free in
      let out : has n (sentinel l ∷ xs) ≡ false = ground arith in
      append-IsRing (taken d l n).heap (sentinel l) n (ground arith) (ground arith) xs out
        (has-Owned_low l null xs (omega arith) v.owned_ring)
        (record {
          forward =
              Forward-frame d.heap.next (sentinel l) n null (sentinel l) xs out v.ring.forward;
          backward = v.ring.backward;
          distinct = v.ring.distinct;
        })

-- `GetFree` of level `l` returns `n`, `append` puts it behind the nodes that rest there, and the
-- orders in the nodes stay.
abbrev pub Inserted : OrdersData → Levels → Levels → ℕ → Ptr → List Ptr → Type 0
Inserted d rests frees l n rest =
    (h : Heap) × (get_free d l ≡ some (n, taken d l n))
    × (append (taken d l n).heap (sentinel l) n ≡ some h)
    × IsPool (record { heap = h; free_lists = update d.free_lists l (d.heap.next n) })
        (update rests l (rests l ++ n ∷ [])) (update frees l rest)
    × (h.id ≡ d.heap.id)
    × (h.quantity_lots ≡ d.heap.quantity_lots)

module _ {d : OrdersData} {rests frees : Levels} (pool : IsPool d rests frees) (l : ℕ)
    (hl : l < k_price_level_count) {n : Ptr} {rest : List Ptr}
    (some_free : frees l ≡ n ∷ rest) where
  -- Where level `l` has a free node, `GetFree` returns the first one and `append` puts it behind
  -- the nodes that rest there; all else in the pool stays, and so do the orders in the nodes.
  pub insert-IsPool : Inserted d rests frees l n rest
  insert-IsPool =
      let v : IsLevel d l (rests l) (n ∷ rest) = rw some_free at (pool.level l hl) in
      let (h, e, a) = insert_ready d l hl v in
      let d' : OrdersData = record {
        heap = h;
        free_lists = update d.free_lists l (d.heap.next n);
      } in
      let o = v.owned_free in
      let levels : (m : ℕ)
          → m < k_price_level_count
          → IsLevel d' m (update rests l (rests l ++ n ∷ []) m) (update frees l rest m) =
        λ m hm. elim (ℕ_discrete l m) [
          | yes p ↦
              rw (← p, update_self rests l (rests l ++ n ∷ []), update_self frees l rest)
                (insert-IsLevel d l hl v h a)
          | no ne ↦
              rw (update_ne rests (rests l ++ n ∷ []) ne, update_ne frees rest ne)
                (IsLevel-same d d' m
                  (λ p near.
                    let far =
                      has-Owned_far l m p (rests l) hm (λ k. ne (sym k)) near v.owned_ring in
                    let pn : n ≢ p = ground arith in
                    let out : has p (n ∷ sentinel l ∷ rests l) ≡ false = ground arith in
                    ((a.outside p out).0 ∙ update_ne d.heap.next null pn, (a.outside p out).1))
                  (update_ne d.free_lists (d.heap.next n) ne) (pool.level m hm))
        ] in
      (h, get_free-taken d l hl v, e, record { level = levels }, a.same_id, a.same_lots)
