-- ===== src/Matcher/Arena.antt =====
-- The memory of an order book: HugepageAllocation, the sizes in matcher.h, and where the arrays of
-- OrderBook (class pmr_array of ring_buffer.h) come to lie in its arena. The arena is
-- std::pmr::monotonic_buffer_resource, an argument; addresses count from the start of the
-- buffer, which is aligned to a huge page.
pub mod Placed
use espacekilly.Base.{ℕ, ◌+◌, ◌-◌, ◌*◌, ◌/◌, ◌%◌, ◌^◌, Option, none, some, ◌>>=◌}
use espacekilly.Types.{arr_size, k_price_level_count, k_fulfilled_orders_count, total_order_count}

-- `kHugePage`, and `hugepagesize`.
abbrev pub k_huge_page : ℕ
k_huge_page = 2 * 1024 * 1024

-- `roundUp` for a page whose size is a power of two, which `& ~(page - 1)` makes a multiple of.
unfoldable pub round_up : ℕ → ℕ → ℕ
round_up n page = (n + page + (2 ^ 64 - 1)) % 2 ^ 64 / page * page

-- `sizeof` and `alignof` of the elements of the arrays.
pub record Element : Type 0 where
  pub size : ℕ
  pub align : ℕ

pub record Elements : Type 0 where
  pub message_response : Element
  pub orders_for_tick : Element
  pub order_node : Element
  pub pointer : Element

module _ (e : Elements) where
  abbrev pub sizeof_order_levels : ℕ
  sizeof_order_levels = k_price_level_count * e.orders_for_tick.size

  abbrev pub sizeof_order_nodes : ℕ
  sizeof_order_nodes = total_order_count * e.order_node.size

  abbrev pub sizeof_fulfilled : ℕ
  sizeof_fulfilled = k_fulfilled_orders_count * e.message_response.size

  abbrev pub sizeof_cancel_map : ℕ
  sizeof_cancel_map = (arr_size + 1) * e.pointer.size

  unfoldable pub order_book_arena_size : ℕ
  order_book_arena_size =
      sizeof_order_levels
      + sizeof_order_nodes
      + sizeof_fulfilled
      + sizeof_fulfilled
      + total_order_count * 128
      + sizeof_cancel_map

-- `allocSize`, for `sizeof(NewRequest)`.
unfoldable pub alloc_size : ℕ → ℕ
alloc_size sizeof_request =
    (arr_size * sizeof_request + k_huge_page - 1) / k_huge_page * k_huge_page

-- Where the arrays of an order book start.
pub record Arrays : Type 0 where
  pub fulfilled : ℕ
  pub orders : ℕ
  pub orders_data : ℕ
  pub free_lists : ℕ
  pub id_to_order : ℕ

-- `allocate size used bytes align` is the start of the block and the end of what is used then, or
-- `none` where it throws.
module _ (allocate : ℕ → ℕ → ℕ → ℕ → Option (ℕ × ℕ)) where
  -- The constructor of pmr_array.
  abbrev pub pmr_array : ℕ → ℕ → Element → ℕ → Option (ℕ × ℕ)
  pmr_array size used e capacity = allocate size used (e.size * capacity) e.align

  -- The constructors of the members of OrderBook, in their order.
  unfoldable pub order_book_arrays : Elements → Option Arrays
  order_book_arrays e = do
    let size = round_up (order_book_arena_size e) k_huge_page
    (fulfilled, used) ← pmr_array size 0 e.message_response k_fulfilled_orders_count
    (orders, used) ← pmr_array size used e.orders_for_tick k_price_level_count
    (orders_data, used) ← pmr_array size used e.order_node total_order_count
    (free_lists, used) ← pmr_array size used e.pointer k_price_level_count
    (id_to_order, used) ← pmr_array size used e.pointer (arr_size + 1)
    some (record {
      fulfilled = fulfilled;
      orders = orders;
      orders_data = orders_data;
      free_lists = free_lists;
      id_to_order = id_to_order;
    })
