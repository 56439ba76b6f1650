-- ===== src/Matcher/OrdersData/Drop.antt =====
-- `unlink` and `ReleaseToFree`, as the handlers call them: a node that rests goes back to the
-- free list of its level.
use espacekilly.Base.{
  update_self, update_ne, ℕ, ◌+◌, ◌*◌, ◌≤◌, ◌<◌, ◌≡◌, ◌≢◌, sym, ap, ◌∙◌, true, false, some, List,
  ◌∷◌, ◌++◌, append_assoc, arith, update, pos,
}
use native.Mathlib.Decide.{ℕ_discrete}
use espacekilly.Types.{k_price_level_count}
use espacekilly.Matcher.Memory.{Ptr, null, sentinel, slot, Heap}
use espacekilly.Matcher.IntrusiveList.{unlink}
use espacekilly.Matcher.IntrusiveList.Unlink.{Unlinked, unlink-IsRing}
use espacekilly.Matcher.IntrusiveList.Ring.{
  has, Distinct, has-append, Distinct-mid, Distinct-insert, Distinct-apart, Forward-frame,
}
use espacekilly.Matcher.OrdersData.{
  OrdersData, get_price_level_for_order, release_to_free, drop_node,
}
use espacekilly.Matcher.OrdersData.Invariant.{
  IsLevel, Levels, IsPool, has-Owned_far, has-Owned_low, Owned-has, Owned-mid, Chain-same,
  IsLevel-same,
}

-- The pool after `ReleaseToFree` of `n` to level `l`, from a heap `g`.
abbrev pub released : OrdersData → ℕ → Ptr → Heap → OrdersData
released d l n g = record {
  heap = record {
    id = update g.id n 0;
    quantity_lots = update g.quantity_lots n (pos 0);
    next = update g.next n (d.free_lists l);
    prev = g.prev;
  };
  free_lists = update d.free_lists l n;
}

module _ (d : OrdersData) (l : ℕ) (xs : List Ptr) (n : Ptr) (ys fs : List Ptr)
    (hl : l < k_price_level_count) (v : IsLevel d l (xs ++ n ∷ ys) fs) where
  range : (slot (l * 8192) ≤ n) × (n < slot (l * 8192 + 8192))
  range = Owned-has l n (xs ++ n ∷ ys) v.owned_ring (ground (arith, has-append n xs (n ∷ ys)))

  -- `GetPriceLevelForOrder` finds the level from the address of the node.
  level_of_node : get_price_level_for_order n (slot 0) ≡ l
  level_of_node = let r = range in omega arith

  drop_ready : (g : Heap) × (unlink d.heap n ≡ some g) × Unlinked d.heap (sentinel l) n xs ys g
  drop_ready =
      unlink-IsRing d.heap (sentinel l) n xs ys (ground arith)
        (has-Owned_low l null (xs ++ n ∷ ys) (omega arith) v.owned_ring) v.ring

  drop_node-released :
      (g : Heap) → unlink d.heap n ≡ some g → drop_node d n ≡ some (released d l n g)
  unfolding drop_node release_to_free
  drop_node-released g e = rw (e, level_of_node)

  drop-IsLevel :
      (g : Heap)
      → Unlinked d.heap (sentinel l) n xs ys g
      → IsLevel (released d l n g) l (xs ++ ys) (n ∷ fs)
  drop-IsLevel g u =
      let r = range in
      let (out_xs, out_ys, apart) = Distinct-mid (sentinel l ∷ xs) n ys v.ring.distinct in
      let in_ring = λ (p : Ptr). has-append p xs (n ∷ ys) in
      let in_rest = λ (p : Ptr). has-append p xs ys in
      let out : has n (sentinel l ∷ (xs ++ ys)) ≡ false = ground (arith, in_rest n) in
      let all : Distinct (xs ++ n ∷ (ys ++ fs)) = rw (← append_assoc xs (n ∷ ys) fs) v.distinct in
      let (n_xs, n_rest, others) = Distinct-mid xs n (ys ++ fs) all in
      let same : (q : Ptr) → has q fs ≡ true → update g.next n (d.free_lists l) q ≡ d.heap.next q =
        λ q i.
          let range_q = Owned-has l q fs v.owned_free i in
          let far = Distinct-apart (xs ++ n ∷ ys) fs q v.distinct i in
          let e1 = in_ring q in
          let e2 = in_rest q in
          let qn : n ≢ q = ground arith in
          let out_q : has q (sentinel l ∷ (xs ++ ys)) ≡ false = ground arith in
          update_ne g.next (d.free_lists l) qn ∙ (u.outside q out_q).0 in
      record {
        ring = record {
          forward =
              Forward-frame g.next (sentinel l) n (d.free_lists l) (sentinel l) (xs ++ ys) out
                u.ring.forward;
          backward = u.ring.backward;
          distinct = u.ring.distinct;
        };
        chain = (
          update_self d.free_lists l n,
          rw (update_self g.next n (d.free_lists l))
              (Chain-same d.heap.next _ (d.free_lists l) fs same v.chain),
        );
        owned_ring = (Owned-mid l xs n ys v.owned_ring).1;
        owned_free = (r.0, r.1, v.owned_free);
        distinct =
            Distinct-insert (xs ++ ys) n fs
              (ground (arith, has-append n (xs ++ ys) fs, has-append n ys fs, in_rest n))
              (rw (append_assoc xs ys fs) others);
      }

-- The handlers' `drop_node` takes `n` from between `xs` and `ys`, makes it the first free node of
-- the level, and erases its order and no other.
abbrev pub Dropped : OrdersData → Levels → Levels → ℕ → List Ptr → Ptr → List Ptr → Type 0
Dropped d rests frees l xs n ys =
    (e : OrdersData) × (drop_node d n ≡ some e)
    × IsPool e (update rests l (xs ++ ys)) (update frees l (n ∷ frees l))
    × (e.heap.id ≡ update d.heap.id n 0)
    × (e.heap.quantity_lots ≡ update d.heap.quantity_lots n (pos 0))

module _ {d : OrdersData} {rests frees : Levels} (pool : IsPool d rests frees) (l : ℕ)
    (hl : l < k_price_level_count) (xs : List Ptr) (n : Ptr) (ys : List Ptr)
    (stands : rests l ≡ xs ++ n ∷ ys) where
  -- A node that rests at a level is taken out from between its neighbours, wherever it stands, and
  -- becomes the first free node of that level, with its order erased; all else in the pool stays,
  -- and so do the orders in the other nodes.
  pub drop_node-IsPool : Dropped d rests frees l xs n ys
  drop_node-IsPool =
      let v : IsLevel d l (xs ++ n ∷ ys) (frees l) = rw stands at (pool.level l hl) in
      let (g, eq, u) = drop_ready d l xs n ys (frees l) hl v in
      let e = released d l n g in
      let r = range d l xs n ys (frees l) hl v in
      let levels : (m : ℕ)
          → m < k_price_level_count
          → IsLevel e m (update rests l (xs ++ ys) m) (update frees l (n ∷ frees l) m) =
        λ m hm. elim (ℕ_discrete l m) [
          | yes p ↦
              rw (← p, update_self rests l (xs ++ ys), update_self frees l (n ∷ frees l))
                (drop-IsLevel d l xs n ys (frees l) hl v g u)
          | no ne ↦
              rw (update_ne rests (xs ++ ys) ne, update_ne frees (n ∷ frees l) ne)
                (IsLevel-same d e m
                  (λ p near.
                    let far =
                      has-Owned_far l m p (xs ++ ys) hm (λ k. ne (sym k)) near
                        (Owned-mid l xs n ys v.owned_ring).1 in
                    let pn : n ≢ p = ground arith in
                    let out : has p (sentinel l ∷ (xs ++ ys)) ≡ false = ground arith in
                    (
                      update_ne g.next (d.free_lists l) pn ∙ (u.outside p out).0,
                      (u.outside p out).1,
                    ))
                  (update_ne d.free_lists n ne) (pool.level m hm))
        ] in
      (
        e,
        drop_node-released d l xs n ys (frees l) hl v g eq,
        record { level = levels },
        ap (λ f. update f n 0) u.same_id,
        ap (λ f. update f n (pos 0)) u.same_lots,
      )
