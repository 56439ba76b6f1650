-- ===== src/Matcher/OrderBook/Remove.antt =====
-- A node that rests leaves the book.
use espacekilly.Base.{
  update_self, update_ne, ℕ, ◌+◌, ◌<◌, ◌≡◌, ◌≢◌, sym, ap, ◌∙◌, inr, Bool, true, false, List, ◌∷◌,
  ◌++◌, arith, ℤ, pos, update, length, length-append,
}
use native.Mathlib.Decide.{ℕ_discrete}
use espacekilly.Types.{k_price_level_count, k_orders_per_tick}
use espacekilly.Matcher.Memory.{Ptr}
use espacekilly.Matcher.IntrusiveList.Ring.{has, Distinct, has-append, Distinct-mid}
use espacekilly.Matcher.OrderBook.{Sides, side, set_side, dec}
use espacekilly.Matcher.OrderBook.Counting.{
  on_side, one_if, count_on, count_on-mid, count_on-outside, total, total-change,
}
use espacekilly.Matcher.OrderBook.Invariant.{IsBook, count_bound}
use espacekilly.Matcher.OrdersData.{OrdersData}
use espacekilly.Matcher.OrdersData.Invariant.{IsPool, Levels, Owned, Near, has-Owned_far, Owned-has}

module _ {d : OrdersData} {counts best : Sides} {rests frees : Levels}
    (b : IsBook d counts best rests frees) (l : ℕ) (hl : l < k_price_level_count) (xs : List Ptr)
    (n : Ptr) (ys : List Ptr) (stands : rests l ≡ xs ++ n ∷ ys) where
  owned : Owned l (xs ++ n ∷ ys)
  owned = rw stands at ((b.pool.level l hl).owned_ring)

  pub resting-Near : Near l n
  resting-Near = inr (Owned-has l n (xs ++ n ∷ ys) owned (ground (arith, has-append n xs (n ∷ ys))))

  pub resting_mem : has n (rests l) ≡ true
  resting_mem = rw stands (ground (arith, has-append n xs (n ∷ ys)))

  -- The node rests at its own level only.
  pub resting_elsewhere : (m : ℕ) → m < k_price_level_count → l ≢ m → has n (rests m) ≡ false
  resting_elsewhere m hm ne =
      has-Owned_far m l n (rests m) hl ne resting-Near (b.pool.level m hm).owned_ring

  pub others_apart : (has n xs ≡ false) × (has n ys ≡ false) × Distinct (xs ++ ys)
  others_apart =
      let ring : Distinct (rests l) = (b.pool.level l hl).ring.distinct.1 in
      Distinct-mid xs n ys (rw stands at ring)

  abbrev rests' : Levels
  rests' = update rests l (xs ++ ys)

  abbrev frees' : Levels
  frees' = update frees l (n ∷ frees l)

  abbrev lots' : Ptr → ℤ
  lots' = update d.heap.quantity_lots n (pos 0)

  -- The other nodes rest where they did, with their lots.
  pub still :
      (m : ℕ) (p : Ptr)
      → m < k_price_level_count
      → has p (rests' m) ≡ true
      → (has p (rests m) ≡ true) × (n ≢ p)
  still m p hm i =
      let (nx, ny, _) = others_apart in
      let e1 = has-append p xs ys in
      let e2 = has-append p xs (n ∷ ys) in
      let e3 : l ≡ m → has p (rests m) ≡ has p (xs ++ n ∷ ys) =
        λ k. ap (has p) (ap rests (sym k) ∙ stands) in
      elim (ℕ_discrete l m) [
        | yes k ↦ (ground (arith, e3 k), ground (arith, e3 k))
        | no ne ↦ (ground arith, ground (arith, resting_elsewhere m hm ne))
      ]

  counted' :
      (s : Bool)
      → total (λ m. count_on s d.heap.quantity_lots (rests m)) k_price_level_count
        ≡ total (λ m. count_on s lots' (rests' m)) k_price_level_count
          + one_if (on_side s (d.heap.quantity_lots n))
  counted' s =
      let f = λ (m : ℕ). count_on s lots' (rests' m) in
      let g = λ (m : ℕ). count_on s d.heap.quantity_lots (rests m) in
      let (nx, ny, _) = others_apart in
      let out : has n (xs ++ ys) ≡ false = ground (arith, has-append n xs ys) in
      let at_l : f l ≡ count_on s d.heap.quantity_lots (xs ++ ys) =
        ap (count_on s lots') (update_self rests l (xs ++ ys))
        ∙ count_on-outside s d.heap.quantity_lots n (pos 0) (xs ++ ys) out in
      let was : g l
          ≡ one_if (on_side s (d.heap.quantity_lots n))
            + count_on s d.heap.quantity_lots (xs ++ ys) =
        ap (count_on s d.heap.quantity_lots) stands ∙ count_on-mid s d.heap.quantity_lots xs n ys in
      omega (
        arith,
        at_l,
        was,
        total-change f g l 128 hl (λ m hm ne.
            ap (count_on s lots') (update_ne rests (xs ++ ys) ne)
            ∙ count_on-outside s d.heap.quantity_lots n (pos 0) (rests m)
                (resting_elsewhere m hm ne)),
      )

  full' :
      (m : ℕ) → m < k_price_level_count → length (rests' m) + length (frees' m) ≡ k_orders_per_tick
  full' m hm = elim (ℕ_discrete l m) [
    | yes k ↦
        rw (← k, update_self rests l (xs ++ ys), update_self frees l (n ∷ frees l))
          (omega
            (arith, b.full l hl, ap length stands, length-append xs (n ∷ ys), length-append xs ys))
    | no ne ↦ rw (update_ne rests (xs ++ ys) ne, update_ne frees (n ∷ frees l) ne) (b.full m hm)
  ]

  -- The counter of the side does not wrap.
  dec_count :
      (s : Bool)
      → on_side s (d.heap.quantity_lots n) ≡ true
      → dec (side counts s) ≡ total (λ m. count_on s lots' (rests' m)) k_price_level_count
  dec_count s on = omega (
    arith,
    b.counted s,
    counted' s,
    ap one_if on,
    count_bound d.heap.quantity_lots rests frees s b.full,
  )

  same_count :
      (s t : Bool)
      → on_side s (d.heap.quantity_lots n) ≡ true
      → on_side t (d.heap.quantity_lots n) ≡ false
      → side counts t ≡ total (λ m. count_on t lots' (rests' m)) k_price_level_count
  same_count s t on off = omega (arith, b.counted t, counted' t, ap one_if off)

  -- The pool without the node, and the counter of its side less one, keep the invariant.
  pub remove-IsBook :
      (s : Bool) (e : OrdersData)
      → on_side s (d.heap.quantity_lots n) ≡ true
      → IsPool e rests' frees'
      → e.heap.quantity_lots ≡ lots'
      → IsBook e (set_side counts s (dec (side counts s))) best rests' frees'
  remove-IsBook s e on pool same = record {
    pool = pool;
    full = full';
    placed = λ m p hm i.
        let (j, np) = still m p hm i in
        let (t, k, w) = b.placed m p hm j in
        (
          t,
          ap (λ f. on_side t (f p)) same
              ∙ ap (on_side t) (update_ne d.heap.quantity_lots (pos 0) np)
              ∙ k,
          w,
        );
    counted = λ t. rw same (counted_by s t on);
    best_ok = b.best_ok;
    uncrossed = b.uncrossed;
  }
    where
      counted_by :
          (s t : Bool)
          → on_side s (d.heap.quantity_lots n) ≡ true
          → side (set_side counts s (dec (side counts s))) t
            ≡ total (λ m. count_on t lots' (rests' m)) k_price_level_count
      counted_by true true on = dec_count true on
      counted_by true false on = same_count true false on (ground arith)
      counted_by false true on = same_count false true on (ground arith)
      counted_by false false on = dec_count false on
