-- ===== src/Matcher/Handlers/Cancel.antt =====
-- HandleCancellation on a book that keeps the invariant.
use espacekilly.Base.{
  length, ℕ, ◌≤◌, ◌<◌, ◌≡◌, ◌≢◌, refl, sym, ap, ◌∙◌, subst, ◌⊎◌, inl, inr, Bool, true, false, not,
  ◌&&◌, none, some, List, [], ◌∷◌, ◌++◌, arith, ℤ, pos, update_ne, is_pos, ◌==◌, leb, update,
  Bool-cases,
}
use espacekilly.Types.{
  Order, not_found, cancelled, MessageResponse, CancelOrderRequest, k_price_level_count, arr_size,
}
use espacekilly.Matcher.Handlers.{handle_cancellation}
use espacekilly.Matcher.Handlers.Filling.{room_grows}
use espacekilly.Matcher.IntrusiveList.Ring.{has}
use espacekilly.Matcher.Memory.{Ptr, null, order_at}
use espacekilly.Matcher.OrderBook.{OrderBook, side, set_side, inc, dec}
use espacekilly.Matcher.OrderBook.Counting.{on_side}
use espacekilly.Matcher.OrderBook.Index.{Cursors, Found, Found-drop, IsIndexed, Stays}
use espacekilly.Matcher.OrderBook.Invariant.{IsBookOf}
use espacekilly.Matcher.OrderBook.View.{view}
use espacekilly.Matcher.OrderBook.View.Consume.{off_side}
use espacekilly.Matcher.OrderBook.View.Leave.{Without, view_left, view_left_other}
use espacekilly.Matcher.OrderBook.Remove.{still, remove-IsBook}
use espacekilly.Matcher.OrdersData.{OrdersData, drop_node}
use espacekilly.Matcher.OrdersData.Drop.{drop_node-IsPool}
use espacekilly.Matcher.OrdersData.Invariant.{Levels}
use espacekilly.Matcher.Priority.{logged}

-- A list around one of its nodes.
split_at :
    (p : Ptr) (zs : List Ptr)
    → has p zs ≡ true
    → (xs : List Ptr) × (ys : List Ptr) × (zs ≡ xs ++ p ∷ ys)
split_at p [] h = cc
split_at p (z ∷ zs) h = elim (Bool-cases (z == p)) [
  | inl e ↦ let q : z ≡ p = ground arith in ([], zs, ap (λ x. x ∷ zs) q)
  | inr e ↦ let (xs, ys, q) = split_at p zs (ground arith) in (z ∷ xs, ys, ap (λ x. z ∷ x) q)
]

-- The books that HandleCancellation leaves.
abbrev unfound : OrderBook → OrderBook
unfound b =
    let c = b.counters in
    record b {
      counters = record c { cancels = inc c.cancels; cancels_not_found = inc c.cancels_not_found };
    }

abbrev without : OrderBook → Bool → OrdersData → OrderBook
without b is_bid d =
    let c = b.counters in
    record b {
      counts = set_side b.counts is_bid (dec (side b.counts is_bid));
      orders_data = d;
      counters = record c { cancels = inc c.cancels };
    }

module _ (msg : CancelOrderRequest) (b : OrderBook) (hi : msg.to_cancel ≤ arr_size) where
  abbrev node : Ptr
  node = b.id_to_order msg.to_cancel

  abbrev hit : Bool
  hit = not (node == null) && b.orders_data.heap.id node == msg.to_cancel

  cancel-misses :
      hit ≡ false
      → handle_cancellation msg b ≡ some (unfound b, record { order = none; result = not_found })
  unfolding handle_cancellation
  cancel-misses e =
      let i : leb msg.to_cancel arr_size ≡ true = ground arith in rw (handle_cancellation, i, e)

  cancel-hits :
      (d : OrdersData)
      → hit ≡ true
      → drop_node b.orders_data node ≡ some d
      → handle_cancellation msg b
        ≡ some (
          without b (is_pos (b.orders_data.heap.quantity_lots node)) d,
          record { order = some (order_at b.orders_data.heap node); result = cancelled },
        )
  unfolding handle_cancellation
  cancel-hits d e f =
      let i : leb msg.to_cancel arr_size ≡ true = ground arith in rw (handle_cancellation, i, e, f)

-- What a cancellation leads to: nothing but the counters changes and it is not found, or the order
-- with that id, which rests at some level, is in the response and in the book no more.
abbrev pub CancelOutcome :
    CancelOrderRequest → OrderBook → Levels → OrderBook → Levels → MessageResponse → Type 0
CancelOutcome msg b rests c rests' r =
    ((c.orders_data ≡ b.orders_data)
      × (rests' ≡ rests)
      × ((b.id_to_order msg.to_cancel ≡ null)
          ⊎ (b.orders_data.heap.id (b.id_to_order msg.to_cancel) ≢ msg.to_cancel))
      × (r ≡ record { order = none; result = not_found }))
    ⊎ ((l : ℕ) × (xs : List Ptr) × (ys : List Ptr) × (o : Order) × (rests l
          ≡ xs ++ b.id_to_order msg.to_cancel ∷ ys)
        × (rests' ≡ update rests l (xs ++ ys))
        × Stays b c rests rests'
        × ((m : ℕ) → m < k_price_level_count → has (b.id_to_order msg.to_cancel) (rests' m) ≡ false)
        × (o ≡ order_at b.orders_data.heap (b.id_to_order msg.to_cancel))
        × (o.id ≡ msg.to_cancel)
        × (r ≡ record { order = some o; result = cancelled })
        × Without (l, o) (view (is_pos o.quantity_lots) b rests)
            (view (is_pos o.quantity_lots) c rests')
        × (view (not (is_pos o.quantity_lots)) c rests'
            ≡ view (not (is_pos o.quantity_lots)) b rests))

-- The index and the ring of responses, with its two indices, are as before.
abbrev pub IsQuiet : OrderBook → OrderBook → Type 0
IsQuiet b c =
    (c.id_to_order ≡ b.id_to_order)
    × (c.filled_read_idx ≡ b.filled_read_idx)
    × ((c.fulfilled, c.filled_write_idx) ≡ logged [] b.fulfilled b.filled_write_idx)

abbrev pub Cancels : CancelOrderRequest → OrderBook → Levels → Levels → Type 0
Cancels msg b rests frees =
    (c : OrderBook) × (r : MessageResponse) × (rests' : Levels) × (frees' : Levels)
    × (handle_cancellation msg b ≡ some (c, r))
    × IsBookOf c rests' frees'
    × IsIndexed c rests'
    × ((l : ℕ) → length (frees l) ≤ length (frees' l))
    × (Cursors b → Cursors c)
    × (c.best_idx ≡ b.best_idx)
    × IsQuiet b c
    × CancelOutcome msg b rests c rests' r

own_side : (s : Bool) (x : ℤ) → on_side s x ≡ true → on_side (is_pos x) x ≡ true
own_side s x e = ground arith

module _ (msg : CancelOrderRequest) (b : OrderBook) (rests frees : Levels)
    (v : IsBookOf b rests frees) (x : IsIndexed b rests) (hi : msg.to_cancel ≤ arr_size)
    (has_id : msg.to_cancel ≢ 0) where
  missing : hit msg b hi ≡ false → Cancels msg b rests frees
  missing e = (
    unfound b,
    record { order = none; result = not_found },
    rests,
    frees,
    cancel-misses msg b hi e,
    v,
    x,
    λ l. omega arith,
    λ k. k,
    refl,
    (refl, refl, refl),
    inl (refl, refl, ground arith, refl),
  )

  there :
      (l : ℕ)
      → l < k_price_level_count
      → has (b.id_to_order msg.to_cancel) (rests l) ≡ true
      → hit msg b hi ≡ true
      → Cancels msg b rests frees
  there l hl m e =
      let n = b.id_to_order msg.to_cancel in
      let h = b.orders_data.heap in
      let (xs, ys, stands) = split_at n (rests l) m in
      let (s, on, _) = v.placed l n hl m in
      let (d, dropped, pool, ids, lots) = drop_node-IsPool v.pool l hl xs n ys stands in
      (
        without b (is_pos (h.quantity_lots n)) d,
        record { order = some (order_at h n); result = cancelled },
        update rests l (xs ++ ys),
        update frees l (n ∷ frees l),
        cancel-hits msg b hi d e dropped,
        remove-IsBook v l hl xs n ys stands (is_pos (h.quantity_lots n)) d
            (own_side s (h.quantity_lots n) on) pool lots,
        λ k.
            subst (λ i. Found i (update rests l (xs ++ ys)) (b.id_to_order k)) (sym ids)
              (Found-drop h.id rests l n xs ys stands (b.id_to_order k) (x k)),
        λ m. room_grows frees l m n,
        λ k. k,
        refl,
        (refl, refl, refl),
        inr (
          l,
          xs,
          ys,
          order_at h n,
          stands,
          refl,
          (λ m p hm i.
              let (j, far) = still v l hl xs n ys stands m p hm i in
              (j, ap (λ f. f p) ids ∙ update_ne h.id 0 far)),
          (λ m hm. elim (Bool-cases (has n (update rests l (xs ++ ys) m))) [
            | inl i ↦ absurd ((still v l hl xs n ys stands m n hm i).1 refl)
            | inr i ↦ i
          ]),
          refl,
          ground arith,
          refl,
          view_left v l hl xs n ys stands d (λ q ne. ap (λ f. f q) ids ∙ update_ne h.id 0 ne)
              (λ q ne. ap (λ f. f q) lots ∙ update_ne h.quantity_lots (pos 0) ne)
              (is_pos (h.quantity_lots n)) (own_side s (h.quantity_lots n) on),
          view_left_other v l hl xs n ys stands d (λ q ne. ap (λ f. f q) ids ∙ update_ne h.id 0 ne)
              (λ q ne. ap (λ f. f q) lots ∙ update_ne h.quantity_lots (pos 0) ne)
              (not (is_pos (h.quantity_lots n)))
              (off_side (is_pos (h.quantity_lots n)) (h.quantity_lots n)
                (own_side s (h.quantity_lots n) on)),
        ),
      )

  -- HandleCancellation of an id that is not 0 and within the index, on a book with the invariant,
  -- returns, and the invariant holds after it. Either the index leads to no order with that id and
  -- nothing rests that did not, or it leads to such an order, which is returned and taken from its
  -- level, wherever it stands there, while the others keep their order: the queue of its side is as
  -- before without it, and the queue of the other side is as before. The best prices, the index and the
  -- ring of responses stay, and no free node is lost.
  pub handle_cancellation-IsBook : Cancels msg b rests frees
  handle_cancellation-IsBook = elim (Bool-cases (hit msg b hi)) [
    | inr e ↦ missing e
    | inl e ↦ elim (x msg.to_cancel) [
      | inl z ↦ absurd (ground arith)
      | inr (inl z) ↦ absurd (ground arith)
      | inr (inr (l, hl, m)) ↦ there l hl m e
    ]
  ]
