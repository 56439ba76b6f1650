-- ===== src/Matcher/IntrusiveList/Ring.antt =====
-- What a circular list stands for: the nodes that its links lead through, in order.
use espacekilly.Base.{
  ◌≡◌, refl, ◌≢◌, ◌⊎◌, inl, inr, Bool, true, false, ◌||◌, List, [], ◌∷◌, ◌++◌, arith, ◌==◌, update,
}
use espacekilly.Matcher.Memory.{Ptr, Heap}

abbrev pub has : Ptr → List Ptr → Bool
has p [] = false
has p (x ∷ xs) = (p == x) || has p xs

abbrev pub Distinct : List Ptr → Type 0
Distinct [] = Unit {0}
Distinct (x ∷ xs) = (has x xs ≡ false) × Distinct xs

-- `next` leads from `a` through `xs` to `b`.
abbrev pub Forward : (Ptr → Ptr) → Ptr → List Ptr → Ptr → Type 0
Forward next a [] b = next a ≡ b
Forward next a (x ∷ xs) b = (next a ≡ x) × Forward next x xs b

-- `prev` leads back from `b` through `xs` to `a`.
abbrev pub Backward : (Ptr → Ptr) → Ptr → List Ptr → Ptr → Type 0
Backward prev a [] b = prev b ≡ a
Backward prev a (x ∷ xs) b = (prev x ≡ a) × Backward prev x xs b

pub record IsRing (h : Heap) (sentinel : Ptr) (xs : List Ptr) : Type 0 where
  pub forward : Forward h.next sentinel xs sentinel
  pub backward : Backward h.prev sentinel xs sentinel
  pub distinct : Distinct (sentinel ∷ xs)

pub has-append : (p : Ptr) (xs ys : List Ptr) → has p (xs ++ ys) ≡ (has p xs || has p ys)
has-append p [] ys = refl
has-append p (x ∷ xs) ys = ground (arith, has-append p xs ys)

-- Taking `n` out of the middle of distinct nodes.
pub Distinct-mid :
    (xs : List Ptr) (n : Ptr) (ys : List Ptr)
    → Distinct (xs ++ n ∷ ys)
    → (has n xs ≡ false) × (has n ys ≡ false) × Distinct (xs ++ ys)
Distinct-mid [] n ys d = (refl, d.0, d.1)
Distinct-mid (x ∷ xs) n ys d =
    ground (arith, Distinct-mid xs n ys d.1, has-append x xs (n ∷ ys), has-append x xs ys)

-- Putting `n` into the middle.
pub Distinct-insert :
    (xs : List Ptr) (n : Ptr) (ys : List Ptr)
    → has n (xs ++ ys) ≡ false
    → Distinct (xs ++ ys)
    → Distinct (xs ++ n ∷ ys)
Distinct-insert [] n ys out d = (out, d)
Distinct-insert (x ∷ xs) n ys out d =
    ground (arith, Distinct-insert xs n ys, has-append x xs (n ∷ ys), has-append x xs ys)

pub Distinct-snoc :
    (xs : List Ptr) (n : Ptr) → has n xs ≡ false → Distinct xs → Distinct (xs ++ n ∷ [])
Distinct-snoc [] n out d = (refl, tt)
Distinct-snoc (x ∷ xs) n out d = ground (arith, Distinct-snoc xs n, has-append x xs (n ∷ []))

module _ (next : Ptr → Ptr) (b : Ptr) where
  pub Forward-split :
      (a : Ptr) (xs : List Ptr) (n : Ptr) (ys : List Ptr)
      → Forward next a (xs ++ n ∷ ys) b
      → Forward next a xs n × Forward next n ys b
  Forward-split a [] n ys f = f
  Forward-split a (x ∷ xs) n ys f = let (l, r) = Forward-split x xs n ys f.1 in ((f.0, l), r)

  pub Forward-join :
      (a : Ptr) (xs : List Ptr) (n : Ptr) (ys : List Ptr)
      → Forward next a xs n
      → Forward next n ys b
      → Forward next a (xs ++ n ∷ ys) b
  Forward-join a [] n ys f g = (f, g)
  Forward-join a (x ∷ xs) n ys f g = (f.0, Forward-join x xs n ys f.1 g)

  pub Forward-frame :
      (p q a : Ptr) (xs : List Ptr)
      → has p (a ∷ xs) ≡ false
      → Forward next a xs b
      → Forward (update next p q) a xs b
  Forward-frame p q a [] out f = ground arith
  Forward-frame p q a (x ∷ xs) out f = ground (arith, Forward-frame p q x xs)

  -- Past a node that is skipped.
  pub Forward-hop :
      (t n : Ptr) (ys : List Ptr)
      → has t ys ≡ false
      → Forward next n ys b
      → Forward (update next t (next n)) t ys b
  Forward-hop t n [] out f = ground arith
  Forward-hop t n (y ∷ ys) out f = (ground arith, Forward-frame t (next n) y ys out f.1)

module _ (prev : Ptr → Ptr) (b : Ptr) where
  pub Backward-split :
      (a : Ptr) (xs : List Ptr) (n : Ptr) (ys : List Ptr)
      → Backward prev a (xs ++ n ∷ ys) b
      → Backward prev a xs n × Backward prev n ys b
  Backward-split a [] n ys f = f
  Backward-split a (x ∷ xs) n ys f = let (l, r) = Backward-split x xs n ys f.1 in ((f.0, l), r)

  pub Backward-join :
      (a : Ptr) (xs : List Ptr) (n : Ptr) (ys : List Ptr)
      → Backward prev a xs n
      → Backward prev n ys b
      → Backward prev a (xs ++ n ∷ ys) b
  Backward-join a [] n ys f g = (f, g)
  Backward-join a (x ∷ xs) n ys f g = (f.0, Backward-join x xs n ys f.1 g)

  pub Backward-frame :
      (p q a : Ptr) (xs : List Ptr)
      → has p xs ≡ false
      → p ≢ b
      → Backward prev a xs b
      → Backward (update prev p q) a xs b
  Backward-frame p q a [] out ne f = ground arith
  Backward-frame p q a (x ∷ xs) out ne f = ground (arith, Backward-frame p q x xs)

  pub Backward-hop :
      (n a : Ptr) (xs : List Ptr)
      → has b xs ≡ false
      → Backward prev a xs n
      → Backward (update prev b (prev n)) a xs b
  Backward-hop n a [] out f = ground arith
  Backward-hop n a (x ∷ xs) out f = ground (arith, Backward-hop n x xs)

-- The last element of a list.
pub snoc-cases : (xs : List Ptr) → (xs ≡ []) ⊎ ((ys : List Ptr) × (t : Ptr) × (xs ≡ ys ++ t ∷ []))
snoc-cases [] = inl refl
snoc-cases (x ∷ xs) = elim (snoc-cases xs) [
  | inl e ↦ inr ([], x, rw e)
  | inr (ys, t, e) ↦ inr (x ∷ ys, t, rw e)
]

pub Distinct-apart :
    (xs ys : List Ptr) (p : Ptr) → Distinct (xs ++ ys) → has p ys ≡ true → has p xs ≡ false
Distinct-apart [] ys p d h = refl
Distinct-apart (x ∷ xs) ys p d h = ground (arith, Distinct-apart xs ys p d.1, has-append x xs ys)
