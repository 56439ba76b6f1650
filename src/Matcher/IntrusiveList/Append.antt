-- ===== src/Matcher/IntrusiveList/Append.antt =====
-- `intrusiveList::append` puts a node at the end of the circular list.
use espacekilly.Base.{◌≡◌, refl, ◌≢◌, inl, inr, false, some, List, [], ◌∷◌, ◌++◌, arith, update}
use espacekilly.Matcher.Memory.{Ptr, null, Heap}
use espacekilly.Matcher.IntrusiveList.{append}
use espacekilly.Matcher.IntrusiveList.Ring.{
  has, IsRing, has-append, Distinct-mid, Distinct-snoc, Forward-split, Forward-join, Forward-frame,
  Backward-split, Backward-join, Backward-frame, snoc-cases,
}

-- The new heap: the node stands last, no order has changed, and no link of a node outside.
pub record Appended (h : Heap) (s n : Ptr) (xs : List Ptr) (g : Heap) : Type 0 where
  pub ring : IsRing g s (xs ++ n ∷ [])
  pub same_id : g.id ≡ h.id
  pub same_lots : g.quantity_lots ≡ h.quantity_lots
  pub outside :
      (p : Ptr) → has p (n ∷ s ∷ xs) ≡ false → (g.next p ≡ h.next p) × (g.prev p ≡ h.prev p)

abbrev pub Appends : Heap → Ptr → Ptr → List Ptr → Type 0
Appends h s n xs = (g : Heap) × (append h s n ≡ some g) × Appended h s n xs g

-- The heap after `append`, where `t` is the tail.
abbrev appended : Heap → Ptr → Ptr → Ptr → Heap
appended h s n t = record h {
  next = update (update h.next n s) t n;
  prev = update (update h.prev n t) s n;
}

module _ (h : Heap) (s n : Ptr) (n_ok : n ≢ null) (s_ok : s ≢ null) where
  append-appended :
      (t : Ptr) → t ≢ null → n ≢ s → h.prev s ≡ t → append h s n ≡ some (appended h s n t)
  unfolding append
  append-appended t t_ok ne e = ground arith

  Appended-nil : has n (s ∷ []) ≡ false → IsRing h s [] → Appended h s n [] (appended h s n s)
  Appended-nil out r = record {
    ring = record { forward = ground arith; backward = ground arith; distinct = ground arith };
    same_id = refl;
    same_lots = refl;
    outside = λ p o. ground arith;
  }

  Appended-snoc :
      (ys : List Ptr) (t : Ptr)
      → has n (s ∷ (ys ++ t ∷ [])) ≡ false
      → IsRing h s (ys ++ t ∷ [])
      → Appended h s n (ys ++ t ∷ []) (appended h s n t)
  Appended-snoc ys t out r =
      let (f1, f2) = Forward-split h.next s s ys t [] r.forward in
      let (b1, b2) = Backward-split h.prev s s ys t [] r.backward in
      let (ts, _, _) = Distinct-mid (s ∷ ys) t [] r.distinct in
      let hn = has-append n ys (t ∷ []) in
      let hs = has-append s ys (t ∷ []) in
      record {
        ring = record {
          forward =
              Forward-join _ s s (ys ++ t ∷ []) n []
                (Forward-join _ n s ys t []
                  (Forward-frame _ t t n s ys ts (Forward-frame _ t n s s ys (ground arith) f1))
                  (ground arith))
                (ground arith);
          backward =
              Backward-join _ s s (ys ++ t ∷ []) n []
                (Backward-join _ n s ys t []
                  (Backward-frame _ t s n s ys (ground arith) (ground arith)
                    (Backward-frame _ t n t s ys (ground arith) (ground arith) b1))
                  (ground arith))
                (ground arith);
          distinct = Distinct-snoc (s ∷ (ys ++ t ∷ [])) n out r.distinct;
        };
        same_id = refl;
        same_lots = refl;
        outside = λ p o. ground (arith, has-append p ys (t ∷ []));
      }

  -- Given a sentinel and a node outside the list, `append` puts the node last, changes no order,
  -- and writes no link of any node but these two and the old tail.
  pub append-IsRing :
      (xs : List Ptr)
      → has n (s ∷ xs) ≡ false
      → has null xs ≡ false
      → IsRing h s xs
      → Appends h s n xs
  append-IsRing xs out real r = elim (snoc-cases xs) [
    | inl e ↦
        let r' : IsRing h s [] = rw e at r in
        let out' : has n (s ∷ []) ≡ false = rw e at out in
        (
          appended h s n s,
          append-appended s s_ok (ground arith) r'.backward,
          rw e (Appended-nil out' r'),
        )
    | inr (ys, t, e) ↦
        let r' : IsRing h s (ys ++ t ∷ []) = rw e at r in
        let out' : has n (s ∷ (ys ++ t ∷ [])) ≡ false = rw e at out in
        let real' : has null (ys ++ t ∷ []) ≡ false = rw e at real in
        (
          appended h s n t,
          append-appended t (ground (arith, has-append null ys (t ∷ []))) (ground arith)
              (Backward-split h.prev s s ys t [] r'.backward).1,
          rw e (Appended-snoc ys t out' r'),
        )
  ]
