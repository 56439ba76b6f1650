-- ===== src/Matcher/Handlers/Rest.antt =====
-- The second part of HandleLimitOrder: what is left of the order comes to rest.
use espacekilly.Base.{
  ℕ, ◌≤◌, ◌<◌, ◌≡◌, refl, ap, Bool, true, some, List, [], ◌∷◌, ◌++◌, arith, ℤ, ltb, leb, update,
}
use espacekilly.Types.{Order, resting, k_price_level_count, arr_size}
use espacekilly.Matcher.Handlers.{rest_order}
use espacekilly.Matcher.IntrusiveList.{append}
use espacekilly.Matcher.Memory.{Ptr, Heap, sentinel}
use espacekilly.Matcher.OrderBook.{OrderBook, side, set_side, inc}
use espacekilly.Matcher.OrderBook.Counting.{on_side}
use espacekilly.Matcher.OrderBook.Insert.{Apart, better_of, insert-IsBook}
use espacekilly.Matcher.OrderBook.Invariant.{IsBookOf}
use espacekilly.Matcher.OrdersData.{get_free}
use espacekilly.Matcher.OrdersData.Insert.{taken, insert-IsPool}
use espacekilly.Matcher.OrdersData.Invariant.{IsPool, IsLevel-same, Levels}

-- The book after `rest_order`, given the heap that `append` leaves.
abbrev pub rested : Bool → ℕ → Order → OrderBook → Ptr → Heap → OrderBook
rested is_buy price new_order b n h =
    let c = b.counters in
    record b {
      orders_data = record {
        heap = record h {
          id = update h.id n new_order.id;
          quantity_lots = update h.quantity_lots n new_order.quantity_lots;
        };
        free_lists = update b.orders_data.free_lists price (b.orders_data.heap.next n);
      };
      id_to_order = update b.id_to_order new_order.id n;
      counts = set_side b.counts is_buy (inc (side b.counts is_buy));
      best_idx = set_side b.best_idx is_buy (better_of is_buy (side b.best_idx is_buy) price);
      counters = record c { resting_order = inc c.resting_order };
    }

rest-rested :
    (is_buy : Bool) (price : ℕ) (o : Order) (b : OrderBook) (n : Ptr) (h : Heap)
    → price < k_price_level_count
    → o.id ≤ arr_size
    → get_free b.orders_data price ≡ some (n, taken b.orders_data price n)
    → append (taken b.orders_data price n).heap (sentinel price) n ≡ some h
    → rest_order is_buy price o b
      ≡ some (rested is_buy price o b n h, record { order = some o; result = resting })
unfolding rest_order
rest-rested is_buy price o b n h hp hi e f =
    let p : ltb price k_price_level_count ≡ true = ground arith in
    let i : leb o.id arr_size ≡ true = ground arith in rw (rest_order, p, i, e, f)

-- Lots and ids do not matter to the pool.
relabelled-IsPool :
    {h : Heap} {free_lists : ℕ → Ptr} {rests frees : Levels} (ids : Ptr → ℕ) (lots : Ptr → ℤ)
    → IsPool (record { heap = h; free_lists = free_lists }) rests frees
    → IsPool
        (record { heap = record h { id = ids; quantity_lots = lots }; free_lists = free_lists })
        rests
        frees
relabelled-IsPool ids lots pool = record {
  level = λ l hl. IsLevel-same _ _ l (λ p near. (refl, refl)) refl (pool.level l hl);
}

abbrev pub Rests : Bool → ℕ → Order → OrderBook → Levels → Levels → Ptr → List Ptr → Type 0
Rests is_buy price o b rests frees n rest =
    (h : Heap) × (rest_order is_buy price o b
      ≡ some (rested is_buy price o b n h, record { order = some o; result = resting }))
    × IsBookOf (rested is_buy price o b n h) (update rests price (rests price ++ n ∷ []))
        (update frees price rest)
    × (h.id ≡ b.orders_data.heap.id)
    × (h.quantity_lots ≡ b.orders_data.heap.quantity_lots)

-- Where level `price` has a free node `n` and the order does not cross the other side, the order
-- comes to rest in that node, last at its level; the book keeps its invariant, and the ids in the
-- other nodes stay.
pub rest_order-IsBook :
    (is_buy : Bool) (price : ℕ) (o : Order) (b : OrderBook) (rests frees : Levels) (n : Ptr)
    (rest : List Ptr) (v : IsBookOf b rests frees) (hp : price < k_price_level_count)
    (is_free : frees price ≡ n ∷ rest)
    → o.id ≤ arr_size
    → on_side is_buy o.quantity_lots ≡ true
    → Apart v price hp n rest is_free o.quantity_lots is_buy
    → Rests is_buy price o b rests frees n rest
rest_order-IsBook is_buy price o b rests frees n rest v hp is_free hi on apart =
    let (h, e, f, pool, ids, lots) = insert-IsPool v.pool price hp is_free in
    (
      h,
      rest-rested is_buy price o b n h hp hi e f,
      insert-IsBook v price hp n rest is_free o.quantity_lots is_buy _ on apart
          (relabelled-IsPool _ _ pool) (ap (λ q. update q n o.quantity_lots) lots),
      ids,
      lots,
    )
