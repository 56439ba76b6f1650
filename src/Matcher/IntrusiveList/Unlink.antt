-- ===== src/Matcher/IntrusiveList/Unlink.antt =====
-- `intrusiveList::unlink` takes a node out of the circular list that it stands in.
use espacekilly.Base.{
  ◌≡◌, refl, ◌≢◌, true, false, some, List, [], ◌∷◌, ◌++◌, arith, update, append-nil,
}
use espacekilly.Matcher.Memory.{Ptr, null, Heap}
use espacekilly.Matcher.IntrusiveList.{unlink}
use espacekilly.Matcher.IntrusiveList.Ring.{
  has, Distinct, Forward, Backward, IsRing, has-append, Distinct-mid, Forward-split, Forward-hop,
  Backward-split, Backward-join, Backward-frame, Backward-hop,
}

-- The new heap: the list without the node, every order as before, and so each link outside.
pub record Unlinked (h : Heap) (s n : Ptr) (xs ys : List Ptr) (g : Heap) : Type 0 where
  pub ring : IsRing g s (xs ++ ys)
  pub same_id : g.id ≡ h.id
  pub same_lots : g.quantity_lots ≡ h.quantity_lots
  pub outside :
      (p : Ptr) → has p (s ∷ (xs ++ ys)) ≡ false → (g.next p ≡ h.next p) × (g.prev p ≡ h.prev p)

abbrev pub Unlinks : Heap → Ptr → Ptr → List Ptr → List Ptr → Type 0
Unlinks h s n xs ys = (g : Heap) × (unlink h n ≡ some g) × Unlinked h s n xs ys g

module _ (next prev : Ptr → Ptr) (n b : Ptr) where
  prev-mem :
      (a : Ptr) (xs ys : List Ptr) → Backward prev a (xs ++ n ∷ ys) b → has (prev n) (a ∷ xs) ≡ true
  prev-mem a [] ys g = ground arith
  prev-mem a (x ∷ xs) ys g = ground (arith, prev-mem x xs ys g.1)

  next-mem :
      (a : Ptr) (xs ys : List Ptr) → Forward next a (xs ++ n ∷ ys) b → has (next n) (b ∷ ys) ≡ true
  next-mem a [] [] f = ground arith
  next-mem a [] (y ∷ ys) f = ground arith
  next-mem a (x ∷ xs) ys f = next-mem x xs ys f.1

  -- The `next` links without `n`.
  Forward-unlink :
      (a : Ptr) (xs ys : List Ptr)
      → Distinct (a ∷ (xs ++ n ∷ ys))
      → Forward next a (xs ++ n ∷ ys) b
      → Backward prev a (xs ++ n ∷ ys) b
      → Forward (update next (prev n) (next n)) a (xs ++ ys) b
  Forward-unlink a [] ys d f g =
      let t : prev n ≡ a = g.0 in rw t (Forward-hop next b a n ys (ground arith) f.1)
  Forward-unlink a (x ∷ xs) ys d f g = (
    ground (arith, prev-mem x xs ys g.1, has-append a xs (n ∷ ys)),
    Forward-unlink x xs ys d.1 f.1 g.1,
  )

  -- The `prev` links without `n`.
  Backward-unlink :
      (a : Ptr) (xs ys : List Ptr)
      → has b (xs ++ n ∷ ys) ≡ false
      → Distinct (xs ++ n ∷ ys)
      → Forward next a (xs ++ n ∷ ys) b
      → Backward prev a (xs ++ n ∷ ys) b
      → Backward (update prev (next n) (prev n)) a (xs ++ ys) b
  Backward-unlink a xs [] out d f g =
      let e : next n ≡ b = (Forward-split next b a xs n [] f).1 in
      let (before, _) = Backward-split prev b a xs n [] g in
      rw (append-nil, e)
        (Backward-hop prev b n a xs (ground (arith, has-append b xs (n ∷ []))) before)
  Backward-unlink a xs (y ∷ ys) out d f g =
      let e : next n ≡ y = (Forward-split next b a xs n (y ∷ ys) f).1.0 in
      let (before, after) = Backward-split prev b a xs n (y ∷ ys) g in
      let (_, _, rest) = Distinct-mid xs n (y ∷ ys) d in
      let (left, right, _) = Distinct-mid xs y ys rest in
      rw e (
        Backward-join _ b a xs y ys (Backward-hop prev y n a xs left before) (
          Backward-frame prev b y (prev n) y ys right (ground (arith, has-append b xs (n ∷ y ∷ ys)))
            after.1))

module _ (h : Heap) (s n : Ptr) where
  abbrev unlinked : Heap
  unlinked = record h {
    next = update h.next (h.prev n) (h.next n);
    prev = update h.prev (h.next n) (h.prev n);
  }

  unlink-unlinked : h.prev n ≢ null → h.next n ≢ null → h.prev n ≢ n → unlink h n ≡ some unlinked
  unfolding unlink
  unlink-unlinked p q r = ground arith

  -- `unlink` of a node of a circular list takes it out of the list, keeps the order of the
  -- others, changes no order, and writes no link of a node outside the list.
  pub unlink-IsRing :
      (xs ys : List Ptr)
      → s ≢ null
      → has null (xs ++ n ∷ ys) ≡ false
      → IsRing h s (xs ++ n ∷ ys)
      → Unlinks h s n xs ys
  unlink-IsRing xs ys s_ok real r =
      let split_real = has-append null xs (n ∷ ys) in
      let split = λ (p : Ptr). has-append p xs ys in
      let (out_left, out_right, others) = Distinct-mid (s ∷ xs) n ys r.distinct in
      let before = prev-mem h.next h.prev n s s xs ys r.backward in
      let after = next-mem h.next h.prev n s s xs ys r.forward in
      (
        unlinked,
        unlink-unlinked (ground arith) (ground arith) (ground arith),
        record {
          ring = record {
            forward = Forward-unlink h.next h.prev n s s xs ys r.distinct r.forward r.backward;
            backward =
                Backward-unlink h.next h.prev n s s xs ys r.distinct.0 r.distinct.1 r.forward
                  r.backward;
            distinct = others;
          };
          same_id = refl;
          same_lots = refl;
          outside = λ p o. (ground (arith, split p), ground (arith, split p));
        },
      )
