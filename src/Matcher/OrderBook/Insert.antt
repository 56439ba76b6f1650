-- ===== src/Matcher/OrderBook/Insert.antt =====
-- An order comes to rest in a node that was free.
use native.Mathlib.Decide.{ℕ_discrete}
use espacekilly.Base.{
  update_self, update_ne, ℕ, ◌+◌, ◌<◌, ◌≡◌, ◌≢◌, sym, ap, ◌∙◌, ◌⊎◌, inl, inr, Bool, true, false,
  not, ◌&&◌, ◌||◌, List, [], ◌∷◌, ◌++◌, append-nil, arith, ℤ, ◌==◌, ltb, if◌then◌else◌, update,
  length, length-append,
}
use espacekilly.Types.{k_price_level_count, k_orders_per_tick}
use espacekilly.Matcher.Memory.{Ptr}
use espacekilly.Matcher.IntrusiveList.Ring.{has, has-append, Distinct-mid}
use espacekilly.Matcher.OrderBook.{Sides, side, set_side, inc, invalid_best_idx}
use espacekilly.Matcher.OrderBook.Counting.{
  on_side, one_if, count_on, count_on-mid, count_on-outside, total, total-change,
}
use espacekilly.Matcher.OrderBook.Invariant.{Within, IsBook, count_bound}
use espacekilly.Matcher.OrdersData.{OrdersData}
use espacekilly.Matcher.OrdersData.Invariant.{IsPool, Levels, Near, has-Owned_far}

-- The best price of side `s` once an order rests at `price`.
abbrev pub better_of : Bool → ℕ → ℕ → ℕ
better_of s best price =
    let best = if best == invalid_best_idx then price else best in
    let better = (s && ltb best price) || (not s && ltb price best) in
    if best == invalid_best_idx || better then price else best

module _ {d : OrdersData} {counts best : Sides} {rests frees : Levels}
    (b : IsBook d counts best rests frees) (l : ℕ) (hl : l < k_price_level_count) (n : Ptr)
    (rest : List Ptr) (is_free : frees l ≡ n ∷ rest) (v : ℤ) where
  free-Near : Near l n
  free-Near = let o = rw is_free at ((b.pool.level l hl).owned_free) in inr (o.0, o.1)

  free_out : has n (rests l) ≡ false
  free_out = (Distinct-mid (rests l) n rest (rw is_free at ((b.pool.level l hl).distinct))).0

  -- The free node rests at no level.
  pub free_nowhere : (m : ℕ) → m < k_price_level_count → has n (rests m) ≡ false
  free_nowhere m hm = elim (ℕ_discrete l m) [
    | yes e ↦ rw (← e) free_out
    | no ne ↦ has-Owned_far m l n (rests m) hl ne free-Near (b.pool.level m hm).owned_ring
  ]

  abbrev rests' : Levels
  rests' = update rests l (rests l ++ n ∷ [])

  abbrev frees' : Levels
  frees' = update frees l rest

  abbrev lots' : Ptr → ℤ
  lots' = update d.heap.quantity_lots n v

  -- The nodes that rest are the old ones and this one.
  which :
      (m : ℕ) (p : Ptr)
      → m < k_price_level_count
      → has p (rests' m) ≡ true
      → ((p ≡ n) × (m ≡ l)) ⊎ ((has p (rests m) ≡ true) × (n ≢ p))
  which m p hm i = elim (ℕ_discrete n p) [
    | yes e ↦ elim (ℕ_discrete l m) [
      | yes k ↦ inl (sym e, sym k)
      | no ne ↦ absurd (ground (arith, free_nowhere m hm))
    ]
    | no ne ↦ inr (ground (arith, has-append p (rests l) (n ∷ [])), ne)
  ]

  counted' :
      (s : Bool)
      → total (λ m. count_on s lots' (rests' m)) k_price_level_count
        ≡ one_if (on_side s v)
          + total (λ m. count_on s d.heap.quantity_lots (rests m)) k_price_level_count
  counted' s =
      let f = λ (m : ℕ). count_on s lots' (rests' m) in
      let g = λ (m : ℕ). count_on s d.heap.quantity_lots (rests m) in
      let at_l : f l ≡ one_if (on_side s v) + g l =
        ap (count_on s lots') (update_self rests l (rests l ++ n ∷ []))
        ∙ count_on-mid s lots' (rests l) n []
        ∙ omega (
          arith,
          ap (λ x. one_if (on_side s x)) (update_self d.heap.quantity_lots n v),
          ap (count_on s lots') (append-nil (rests l)),
          count_on-outside s d.heap.quantity_lots n v (rests l) free_out,
        ) in
      omega (
        arith,
        at_l,
        total-change f g l 128 hl (λ m hm ne.
            ap (count_on s lots') (update_ne rests (rests l ++ n ∷ []) ne)
            ∙ count_on-outside s d.heap.quantity_lots n v (rests m) (free_nowhere m hm)),
      )

  full' :
      (m : ℕ) → m < k_price_level_count → length (rests' m) + length (frees' m) ≡ k_orders_per_tick
  full' m hm = elim (ℕ_discrete l m) [
    | yes k ↦
        rw (← k, update_self rests l (rests l ++ n ∷ []), update_self frees l rest)
          (omega (arith, b.full l hl, ap length is_free, length-append (rests l) (n ∷ [])))
    | no ne ↦ rw (update_ne rests (rests l ++ n ∷ []) ne, update_ne frees rest ne) (b.full m hm)
  ]

  -- Other orders stand as well with the new best price, and so does the new one.
  better-Within :
      (s t : Bool) (m : ℕ)
      → Within t (side best t) m
      → m < k_price_level_count
      → Within t (side (set_side best s (better_of s (side best s) l)) t) m
  better-Within true true m w hm = (ground arith, ground arith)
  better-Within true false m w hm = w
  better-Within false true m w hm = w
  better-Within false false m w hm = ground arith

  new-Within : (s : Bool) → Within s (side (set_side best s (better_of s (side best s) l)) s) l
  new-Within true = let k = b.best_ok true in (ground arith, ground arith)
  new-Within false = ground arith

  better_ok :
      (s t : Bool)
      → let best' = set_side best s (better_of s (side best s) l) in
        (side best' t < k_price_level_count) ⊎ (side best' t ≡ invalid_best_idx)
  better_ok true true = let k = b.best_ok true in inl (ground arith)
  better_ok true false = b.best_ok false
  better_ok false true = b.best_ok true
  better_ok false false = let k = b.best_ok false in inl (ground arith)

  -- An order that does not cross the best price of the other side.
  abbrev pub Apart : Bool → Type 0
  Apart s =
      (side best (not s) ≡ invalid_best_idx)
      ⊎ (if s then l < side best (not s) else side best (not s) < l)

  better_uncrossed :
      (s : Bool)
      → Apart s
      → let best' = set_side best s (better_of s (side best s) l) in
        (side best' true ≡ invalid_best_idx) ⊎ (side best' true < side best' false)
  better_uncrossed true apart = let u = b.uncrossed in let k = b.best_ok true in inr (ground arith)
  better_uncrossed false apart = let u = b.uncrossed in let k = b.best_ok false in ground arith

  -- The counter of the side does not wrap.
  inc_count :
      (s : Bool)
      → on_side s v ≡ true
      → inc (side counts s) ≡ total (λ m. count_on s lots' (rests' m)) k_price_level_count
  inc_count s on = omega (
    arith,
    b.counted s,
    counted' s,
    ap one_if on,
    count_bound d.heap.quantity_lots rests frees s b.full,
  )

  same_count :
      (t : Bool)
      → on_side t v ≡ false
      → side counts t ≡ total (λ m. count_on t lots' (rests' m)) k_price_level_count
  same_count t off = omega (arith, b.counted t, counted' t, ap one_if off)

  counted_by :
      (s t : Bool)
      → on_side s v ≡ true
      → side (set_side counts s (inc (side counts s))) t
        ≡ total (λ m. count_on t lots' (rests' m)) k_price_level_count
  counted_by true true on = inc_count true on
  counted_by true false on = same_count false (ground arith)
  counted_by false true on = same_count true (ground arith)
  counted_by false false on = inc_count false on

  -- The pool with the order at its level keeps the invariant.
  pub insert-IsBook :
      (s : Bool) (e : OrdersData)
      → on_side s v ≡ true
      → Apart s
      → IsPool e rests' frees'
      → e.heap.quantity_lots ≡ lots'
      → IsBook e
          (set_side counts s (inc (side counts s)))
          (set_side best s (better_of s (side best s) l))
          rests'
          frees'
  insert-IsBook s e on apart pool same = record {
    pool = pool;
    full = full';
    placed = λ m p hm i. elim (which m p hm i) [
      | inl (pn, ml) ↦ (
        s,
        ap (λ f. on_side s (f p)) same
            ∙ ap (λ q. on_side s (lots' q)) pn
            ∙ ap (on_side s) (update_self d.heap.quantity_lots n v)
            ∙ on,
        rw ml (new-Within s),
      )
      | inr (j, np) ↦
          let (t, k, w) = b.placed m p hm j in
          (
            t,
            ap (λ f. on_side t (f p)) same
                ∙ ap (on_side t) (update_ne d.heap.quantity_lots v np)
                ∙ k,
            better-Within s t m w hm,
          )
    ];
    counted = λ t. rw same (counted_by s t on);
    best_ok = better_ok s;
    uncrossed = better_uncrossed s apart;
  }
