-- ===== src/Matcher/OrdersData/Invariant.antt =====
-- The invariant of the pool: at each price level the sentinel heads a ring of nodes that rest, the
-- free list leads through the nodes that are free, and both are nodes of that level.
use espacekilly.Base.{
  ℕ, ◌+◌, ◌*◌, ◌≤◌, ◌<◌, ◌≡◌, ◌≢◌, refl, ◌∙◌, ◌⊎◌, inr, true, false, List, [], ◌∷◌, ◌++◌, arith,
}
use espacekilly.Types.{k_price_level_count}
use espacekilly.Matcher.Memory.{Ptr, null, sentinel, slot}
use espacekilly.Matcher.IntrusiveList.Ring.{has, Distinct, Forward, Backward, IsRing}
use espacekilly.Matcher.OrdersData.{OrdersData}

-- Every node of the list is one of the 8192 nodes of level `l`.
abbrev pub Owned : ℕ → List Ptr → Type 0
Owned l [] = Unit {0}
Owned l (p ∷ xs) = (slot (l * 8192) ≤ p) × (p < slot (l * 8192 + 8192)) × Owned l xs

-- The links lead from `p` through the nodes to null.
abbrev pub Chain : (Ptr → Ptr) → Ptr → List Ptr → Type 0
Chain next p [] = p ≡ null
Chain next p (y ∷ ys) = (p ≡ y) × Chain next (next y) ys

-- `xs` rest at level `l`, oldest first, and `ys` are free.
pub record IsLevel (d : OrdersData) (l : ℕ) (xs ys : List Ptr) : Type 0 where
  pub ring : IsRing d.heap (sentinel l) xs
  pub chain : Chain d.heap.next (d.free_lists l) ys
  pub owned_ring : Owned l xs
  pub owned_free : Owned l ys
  pub distinct : Distinct (xs ++ ys)

abbrev pub Levels : Type 0
Levels = ℕ → List Ptr

pub record IsPool (d : OrdersData) (rests frees : Levels) : Type 0 where
  pub level : (l : ℕ) → l < k_price_level_count → IsLevel d l (rests l) (frees l)

-- A node of level `l`, or its sentinel.
abbrev pub Near : ℕ → Ptr → Type 0
Near l p = (p ≡ sentinel l) ⊎ ((slot (l * 8192) ≤ p) × (p < slot (l * 8192 + 8192)))

pub has-Owned_far :
    (l m : ℕ) (p : Ptr) (xs : List Ptr)
    → m < k_price_level_count
    → m ≢ l
    → Near m p
    → Owned l xs
    → has p xs ≡ false
has-Owned_far l m p [] hm ne near o = refl
has-Owned_far l m p (x ∷ xs) hm ne near o = ground (arith, has-Owned_far l m p xs)

pub has-Owned_low : (l : ℕ) (p : Ptr) (xs : List Ptr) → p < slot 0 → Owned l xs → has p xs ≡ false
has-Owned_low l p [] low o = refl
has-Owned_low l p (x ∷ xs) low o = ground (arith, has-Owned_low l p xs)

pub Owned-has :
    (l : ℕ) (p : Ptr) (xs : List Ptr)
    → Owned l xs
    → has p xs ≡ true
    → (slot (l * 8192) ≤ p) × (p < slot (l * 8192 + 8192))
Owned-has l p [] o h = cc
Owned-has l p (x ∷ xs) o h = ground (arith, Owned-has l p xs)

pub Owned-append : (l : ℕ) (xs ys : List Ptr) → Owned l xs → Owned l ys → Owned l (xs ++ ys)
Owned-append l [] ys o p = p
Owned-append l (x ∷ xs) ys o p = (o.0, o.1, Owned-append l xs ys o.2 p)

-- The parts of a list with a node in the middle.
pub Owned-mid :
    (l : ℕ) (xs : List Ptr) (n : Ptr) (ys : List Ptr)
    → Owned l (xs ++ n ∷ ys)
    → Owned l (n ∷ []) × Owned l (xs ++ ys)
Owned-mid l [] n ys o = ((o.0, o.1, tt), o.2)
Owned-mid l (x ∷ xs) n ys o = let (a, b) = Owned-mid l xs n ys o.2 in (a, (o.0, o.1, b))

module _ (next next' : Ptr → Ptr) where
  pub Chain-same :
      (p : Ptr) (ys : List Ptr)
      → ((q : Ptr) → has q ys ≡ true → next' q ≡ next q)
      → Chain next p ys
      → Chain next' p ys
  Chain-same p [] same c = c
  Chain-same p (y ∷ ys) same c =
      (c.0, rw (same y (ground arith)) (Chain-same (next y) ys (λ q h. same q (ground arith)) c.1))

  Forward-same :
      (a : Ptr) (xs : List Ptr) (b : Ptr)
      → ((q : Ptr) → has q (a ∷ xs) ≡ true → next' q ≡ next q)
      → Forward next a xs b
      → Forward next' a xs b
  Forward-same a [] b same f = same a (ground arith) ∙ f
  Forward-same a (x ∷ xs) b same f =
      (same a (ground arith) ∙ f.0, Forward-same x xs b (λ q h. same q (ground arith)) f.1)

  Backward-same :
      (a : Ptr) (xs : List Ptr) (b : Ptr)
      → ((q : Ptr) → has q (b ∷ xs) ≡ true → next' q ≡ next q)
      → Backward next a xs b
      → Backward next' a xs b
  Backward-same a [] b same f = same b (ground arith) ∙ f
  Backward-same a (x ∷ xs) b same f =
      (same x (ground arith) ∙ f.0, Backward-same x xs b (λ q h. same q (ground arith)) f.1)

-- A level lives on where nothing near it has changed.
pub IsLevel-same :
    (d e : OrdersData) (l : ℕ) {xs ys : List Ptr}
    → ((p : Ptr) → Near l p → (e.heap.next p ≡ d.heap.next p) × (e.heap.prev p ≡ d.heap.prev p))
    → e.free_lists l ≡ d.free_lists l
    → IsLevel d l xs ys
    → IsLevel e l xs ys
IsLevel-same d e l {xs} {ys} same free v =
    let near : (q : Ptr) → has q (sentinel l ∷ xs) ≡ true → Near l q =
      λ q h. ground (arith, Owned-has l q xs v.owned_ring) in
    record {
      ring = record {
        forward =
            Forward-same _ _ (sentinel l) xs (sentinel l) (λ q h. (same q (near q h)).0)
              v.ring.forward;
        backward =
            Backward-same _ _ (sentinel l) xs (sentinel l) (λ q h. (same q (near q h)).1)
              v.ring.backward;
        distinct = v.ring.distinct;
      };
      chain =
          rw free (
            Chain-same _ _ _ ys (λ q h. (same q (inr (Owned-has l q ys v.owned_free h))).0)
              v.chain);
      owned_ring = v.owned_ring;
      owned_free = v.owned_free;
      distinct = v.distinct;
    }
