-- ===== src/Matcher/Arena/Placed.antt =====
-- The arrays of an order book fit into its arena.
use espacekilly.Base.{ℕ, ◌+◌, ◌*◌, ◌%◌, ◌^◌, ◌≤◌, ◌<◌, ◌≡◌, refl, Option, some, arith}
use espacekilly.Types.{arr_size, k_price_level_count, k_fulfilled_orders_count, total_order_count}
use espacekilly.Matcher.Arena.{
  k_huge_page, round_up, Element, Elements, order_book_arena_size, alloc_size, Arrays,
  order_book_arrays,
}

-- Rounding up makes a multiple of the page's size, of which the last page is needed.
pub round_up-page :
    (n : ℕ)
    → n + k_huge_page ≤ 2 ^ 64
    → (round_up n k_huge_page % k_huge_page ≡ 0)
      × (n ≤ round_up n k_huge_page)
      × (round_up n k_huge_page < n + k_huge_page)
unfolding round_up
round_up-page n h = (omega arith, omega arith, omega arith)

-- For requests of at most 64 bytes: the size that the market is mapped with is what roundUp makes of
-- the bytes of the requests, so it is a multiple of the huge page that has room for all of them,
-- and one page less would not.
pub alloc_size-page :
    (sizeof_request : ℕ)
    → sizeof_request ≤ 64
    → (alloc_size sizeof_request ≡ round_up (arr_size * sizeof_request) k_huge_page)
      × (alloc_size sizeof_request % k_huge_page ≡ 0)
      × (arr_size * sizeof_request ≤ alloc_size sizeof_request)
      × (alloc_size sizeof_request < arr_size * sizeof_request + k_huge_page)
unfolding alloc_size round_up
alloc_size-page s h = (omega arith, omega arith, omega arith, omega arith)

-- For an alignment that divides the size of a huge page, and where there is room for the block with
-- what aligns it: the block lies behind what is used, aligned, as near as it can.
abbrev pub Monotonic : (ℕ → ℕ → ℕ → ℕ → Option (ℕ × ℕ)) → Type 0
Monotonic allocate =
    (size used bytes align : ℕ)
    → 0 < align
    → k_huge_page % align ≡ 0
    → used + bytes + align ≤ size
    → (start : ℕ) × (allocate size used bytes align ≡ some (start, start + bytes))
      × (used ≤ start)
      × (start < used + align)
      × (start % align ≡ 0)

-- Sizes and alignments of at most 64 bytes, and alignments that divide the size of a huge page, as
-- powers of two do.
abbrev pub IsSmall : Element → Type 0
IsSmall e = (e.size ≤ 64) × (0 < e.align) × (e.align ≤ 64) × (k_huge_page % e.align ≡ 0)

abbrev pub AllSmall : Elements → Type 0
AllSmall e =
    IsSmall e.message_response
    × IsSmall e.orders_for_tick
    × IsSmall e.order_node
    × IsSmall e.pointer

-- The arrays lie one behind the other, each aligned, within the arena.
pub record IsPlaced (e : Elements) (a : Arrays) : Type 0 where
  pub fulfilled_aligned : a.fulfilled % e.message_response.align ≡ 0
  pub orders_aligned : a.orders % e.orders_for_tick.align ≡ 0
  pub orders_data_aligned : a.orders_data % e.order_node.align ≡ 0
  pub free_lists_aligned : a.free_lists % e.pointer.align ≡ 0
  pub id_to_order_aligned : a.id_to_order % e.pointer.align ≡ 0
  pub behind_fulfilled : a.fulfilled + e.message_response.size * k_fulfilled_orders_count ≤ a.orders
  pub behind_orders : a.orders + e.orders_for_tick.size * k_price_level_count ≤ a.orders_data
  pub behind_orders_data : a.orders_data + e.order_node.size * total_order_count ≤ a.free_lists
  pub behind_free_lists : a.free_lists + e.pointer.size * k_price_level_count ≤ a.id_to_order
  pub within :
      a.id_to_order + e.pointer.size * (arr_size + 1)
      ≤ round_up (order_book_arena_size e) k_huge_page

abbrev pub Places : (ℕ → ℕ → ℕ → ℕ → Option (ℕ × ℕ)) → Elements → Type 0
Places allocate e = (a : Arrays) × (order_book_arrays allocate e ≡ some a) × IsPlaced e a

-- Where the arena serves what it has room for, and no element is larger than 64 bytes or aligned to
-- more, or to what does not divide the size of a huge page: the constructor of OrderBook allocates its five arrays without an exception; they lie
-- one behind the other, each aligned for its elements, within the arena.
pub order_book_arrays-Places :
    (allocate : ℕ → ℕ → ℕ → ℕ → Option (ℕ × ℕ)) (e : Elements)
    → Monotonic allocate
    → AllSmall e
    → Places allocate e
unfolding order_book_arrays order_book_arena_size
order_book_arrays-Places allocate e serves
      ((s1, p1, a1, t1), (s2, p2, a2, t2), (s3, p3, a3, t3), (s4, p4, a4, t4)) =
    let size = round_up (order_book_arena_size e) k_huge_page in
    let (_, enough, _) = round_up-page (order_book_arena_size e) (omega arith) in
    let (f, run1, b1, c1, d1) =
      serves size 0 (e.message_response.size * k_fulfilled_orders_count) e.message_response.align p1
        t1 (omega (arith, enough)) in
    let (o, run2, b2, c2, d2) =
      serves size (f + e.message_response.size * k_fulfilled_orders_count)
        (e.orders_for_tick.size * k_price_level_count) e.orders_for_tick.align p2 t2
        (omega (arith, enough)) in
    let (n, run3, b3, c3, d3) =
      serves size (o + e.orders_for_tick.size * k_price_level_count)
        (e.order_node.size * total_order_count) e.order_node.align p3 t3 (omega (arith, enough)) in
    let (l, run4, b4, c4, d4) =
      serves size (n + e.order_node.size * total_order_count) (e.pointer.size * k_price_level_count)
        e.pointer.align p4 t4 (omega (arith, enough)) in
    let (i, run5, b5, c5, d5) =
      serves size (l + e.pointer.size * k_price_level_count) (e.pointer.size * (arr_size + 1))
        e.pointer.align p4 t4 (omega (arith, enough)) in
    (
      record { fulfilled = f; orders = o; orders_data = n; free_lists = l; id_to_order = i },
      rw (run1, run2, run3, run4, run5) refl,
      record {
        fulfilled_aligned = d1;
        orders_aligned = d2;
        orders_data_aligned = d3;
        free_lists_aligned = d4;
        id_to_order_aligned = d5;
        behind_fulfilled = b2;
        behind_orders = b3;
        behind_orders_data = b4;
        behind_free_lists = b5;
        within = omega (arith, enough);
      },
    )
