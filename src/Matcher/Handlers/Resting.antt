-- ===== src/Matcher/Handlers/Resting.antt =====
-- Where the order rests, and that the index leads to it.
use native.Mathlib.Decide.{ℕ_discrete}
use espacekilly.Base.{
  sym, subst, ◌≢◌, update_self, update_ne, ◌==◌, ◌+◌, length, ℕ, ◌≤◌, ◌<◌, ◌≡◌, refl, ap, ap₂, ◌∙◌,
  ◌⊎◌, inr, Bool, true, false, not, some, List, [], ◌∷◌, ◌++◌, arith, if◌then◌else◌, update, length,
}
use espacekilly.Types.{Order, resting, k_price_level_count, arr_size}
use espacekilly.Matcher.Handlers.{crosses, rest_order}
use espacekilly.Matcher.Handlers.Rest.{rested, rest_order-IsBook}
use espacekilly.Matcher.IntrusiveList.Ring.{has, has-append}
use espacekilly.Matcher.Memory.{Ptr, Heap}
use espacekilly.Matcher.OrderBook.View.{level_orders, best_first, view}
use espacekilly.Matcher.OrderBook.View.Arrive.{view_arrived, view_arrived_other}
use espacekilly.Matcher.OrderBook.View.Consume.{off_side}
use espacekilly.Matcher.Priority.{enqueue, logged}
use espacekilly.Matcher.OrderBook.{OrderBook, side, invalid_best_idx}
use espacekilly.Matcher.OrderBook.Counting.{on_side, one_if}
use espacekilly.Matcher.OrderBook.Index.{Cursors, Found-insert, IsIndexed, Keeps, Keeps-IsIndexed}
use espacekilly.Matcher.OrderBook.Findable.{
  Findable, Unnamed, Stays-Findable, Stays-Unnamed, arrived-Findable, arrived-Unnamed,
}
use espacekilly.Matcher.OrderBook.Invariant.{IsBookOf}
use espacekilly.Matcher.OrdersData.Invariant.{Levels}

-- The order rests at its level, and the index leads to it.
abbrev pub RestsAt : ℕ → Order → OrderBook → Levels → Type 0
RestsAt price o c rests =
    (has (c.id_to_order o.id) (rests price) ≡ true)
    × (c.orders_data.heap.id (c.id_to_order o.id) ≡ o.id)
    × (c.orders_data.heap.quantity_lots (c.id_to_order o.id) ≡ o.quantity_lots)

-- A level other than `price` has as many free nodes as before, or more; level `price` may have
-- one less.
abbrev pub Room : ℕ → Levels → Levels → Type 0
Room price frees frees' = (l : ℕ) → length (frees l) ≤ length (frees' l) + one_if (price == l)

-- What an order with this price and id leads to: the invariants, at most one free node less, at
-- its level, and nothing that is found under its id or comes to rest but the order.
pub record Holds (price id : ℕ) (b : OrderBook) (was_rests was_free : Levels) (c : OrderBook)
    (rests frees : Levels) : Type 0 where
  pub book : IsBookOf c rests frees
  pub indexed : IsIndexed c rests
  pub room : Room price was_free frees
  pub cursors : Cursors b → Cursors c
  pub read : c.filled_read_idx ≡ b.filled_read_idx
  pub findable : Unnamed id b was_rests → Findable b was_rests → Findable c rests
  pub unnamed : (k : ℕ) → id ≢ k → Unnamed k b was_rests → Unnamed k c rests

-- Where nothing comes to rest.
pub Keeps-Holds :
    (price id : ℕ) (b c : OrderBook) {rests frees rests' frees' : Levels}
    → IsBookOf c rests' frees'
    → IsIndexed b rests
    → Keeps b c rests frees rests' frees'
    → Holds price id b rests frees c rests' frees'
Keeps-Holds price id b c {rests} {frees} {rests'} {frees'} w x keeps = record {
  book = w;
  indexed = Keeps-IsIndexed keeps x;
  room = λ l. let g = keeps.room l in omega arith;
  cursors = keeps.cursors;
  read = keeps.read;
  findable = λ _ f. Stays-Findable b c rests rests' keeps.stays keeps.index f;
  unnamed = λ k _ u. Stays-Unnamed b c rests rests' keeps.stays k u;
}

-- The order comes to rest after it was matched.
pub Holds-after :
    {price id : ℕ} {b c d : OrderBook} {rests frees rests' frees' rests'' frees'' : Levels}
    → Keeps b c rests frees rests' frees'
    → Holds price id c rests' frees' d rests'' frees''
    → Holds price id b rests frees d rests'' frees''
Holds-after {id} {b} {c} {rests} {rests'} keeps h = record {
  book = h.book;
  indexed = h.indexed;
  room = λ l. let g = keeps.room l in let k = h.room l in omega arith;
  cursors = λ k. h.cursors (keeps.cursors k);
  read = h.read ∙ keeps.read;
  findable = λ u f.
      h.findable (Stays-Unnamed b c rests rests' keeps.stays id u)
        (Stays-Findable b c rests rests' keeps.stays keeps.index f);
  unnamed = λ k ne u. h.unnamed k ne (Stays-Unnamed b c rests rests' keeps.stays k u);
}

-- The order stands in the queue of its side behind all with its price or a better one; the other
-- side and the ring of responses are as before.
pub record Queued (is_buy : Bool) (price : ℕ) (o : Order) (b : OrderBook) (was_rests : Levels)
    (c : OrderBook) (rests : Levels) : Type 0 where
  pub own : view is_buy c rests ≡ enqueue is_buy price o (view is_buy b was_rests)
  pub other : view (not is_buy) c rests ≡ view (not is_buy) b was_rests
  pub reports : (c.fulfilled, c.filled_write_idx) ≡ logged [] b.fulfilled b.filled_write_idx

abbrev pub RestDone : Bool → ℕ → Order → OrderBook → Levels → Levels → Type 0
RestDone is_buy price o b was_rests was_free =
    (c : OrderBook) × (rests : Levels) × (frees : Levels) × (rest_order is_buy price o b
      ≡ some (c, record { order = some o; result = resting }))
    × Holds price o.id b was_rests was_free c rests frees
    × RestsAt price o c rests
    × Queued is_buy price o b was_rests c rests

not_crossing :
    (is_buy : Bool) (price opposite : ℕ)
    → crosses is_buy price opposite ≡ false
    → (opposite ≡ invalid_best_idx) ⊎ (if is_buy then price < opposite else opposite < price)
not_crossing true price opposite e = ground arith
not_crossing false price opposite e = ground arith

first_of : (xs : List Ptr) → 0 < length xs → (n : Ptr) × (rest : List Ptr) × (xs ≡ n ∷ rest)
first_of [] h = absurd (omega arith)
first_of (n ∷ rest) h = (n, rest, refl)

pub rest_done :
    (is_buy : Bool) (price : ℕ) (o : Order) (b : OrderBook) (rests frees : Levels)
    → IsBookOf b rests frees
    → IsIndexed b rests
    → price < k_price_level_count
    → o.id ≤ arr_size
    → 0 < length (frees price)
    → on_side is_buy o.quantity_lots ≡ true
    → crosses is_buy price (side b.best_idx (not is_buy)) ≡ false
    → RestDone is_buy price o b rests frees
rest_done is_buy price o b rests frees v x hp hi room on apart =
    let (n, rest, e) = first_of (frees price) room in
    let (h, run, w, ids, lots) =
      rest_order-IsBook is_buy price o b rests frees n rest v hp e hi on
        (not_crossing is_buy price (side b.best_idx (not is_buy)) apart) in
    let last : has n (update rests price (rests price ++ n ∷ []) price) ≡ true =
      ground (arith, has-append n (rests price) (n ∷ [])) in
    let node = update_self b.id_to_order o.id n in
    (
      rested is_buy price o b n h,
      update rests price (rests price ++ n ∷ []),
      update frees price rest,
      run,
      record {
        book = w;
        indexed = λ k. elim (ℕ_discrete o.id k) [
          | yes i ↦ rw (← i, node) (inr (inr (price, hp, last)))
          | no ne ↦
              rw (update_ne b.id_to_order n ne, ids)
                (Found-insert b.orders_data.heap.id rests price n o.id hp (b.id_to_order k) (x k))
        ];
        room = λ l. elim (ℕ_discrete price l) [
          | yes i ↦
              let s = update_self frees price rest in
              let u = ap length e in rw (← i, s) (ground arith)
          | no ne ↦ rw (update_ne frees rest ne) (ground arith)
        ];
        cursors = λ k. k;
        read = refl;
        findable = λ u f.
            subst
              (λ i.
                (l : ℕ) (p : Ptr)
                → l < k_price_level_count
                → has p (update rests price (rests price ++ n ∷ []) l) ≡ true
                → update b.id_to_order o.id n (update i n o.id p) ≡ p)
              (sym ids)
              (arrived-Findable b.orders_data.heap.id b.id_to_order rests price o.id n f u);
        unnamed = λ k ne u.
            subst
              (λ i.
                (l : ℕ) (p : Ptr)
                → l < k_price_level_count
                → has p (update rests price (rests price ++ n ∷ []) l) ≡ true
                → update i n o.id p ≢ k)
              (sym ids)
              (arrived-Unnamed b.orders_data.heap.id b.id_to_order rests price o.id n k ne u);
      },
      (
        rw node last,
        ap (update h.id n o.id) node ∙ update_self h.id n o.id,
        ap (update h.quantity_lots n o.quantity_lots) node
            ∙ update_self h.quantity_lots n o.quantity_lots,
      ),
      record {
        own = seen is_buy h n ids lots ∙ view_arrived v price hp n rest e o is_buy on;
        other =
            seen (not is_buy) h n ids lots
            ∙ view_arrived_other v price hp n rest e o (not is_buy)
                (off_side is_buy o.quantity_lots on);
        reports = refl;
      },
    )
  where
    -- The heap that `append` leaves has the ids and the lots of the heap before.
    seen :
        (s : Bool) (h : Heap) (n : Ptr)
        → h.id ≡ b.orders_data.heap.id
        → h.quantity_lots ≡ b.orders_data.heap.quantity_lots
        → view s (rested is_buy price o b n h) (update rests price (rests price ++ n ∷ []))
          ≡ best_first s (λ l.
            level_orders s
              (update b.orders_data.heap.id n o.id)
              (update b.orders_data.heap.quantity_lots n o.quantity_lots)
              l
              (update rests price (rests price ++ n ∷ []) l))
    seen s h n ids lots =
        ap₂
          (λ i x. best_first s (λ l.
            level_orders s (update i n o.id) (update x n o.quantity_lots) l
              (update rests price (rests price ++ n ∷ []) l)))
          ids lots
