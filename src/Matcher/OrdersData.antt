-- ===== src/Matcher/OrdersData.antt =====
-- `OrdersData` of matcher.cpp: the pool of nodes, with a free list for each price level, and
-- `GetPriceLevelForOrder`.
pub mod Drop
pub mod Init
pub mod Insert
pub mod Invariant
use espacekilly.Base.{
  ℕ, zero, suc, ◌+◌, ◌-◌, ◌*◌, ◌/◌, ◌^◌, Option, none, some, pos, ◌==◌, if◌then◌else◌, ◌>>=◌,
  update,
}
use espacekilly.Types.{k_price_level_count, k_orders_per_tick}
use espacekilly.Matcher.Memory.{Ptr, null, slot, Heap}
use espacekilly.Matcher.IntrusiveList.{set_next, unlink}

pub record OrdersData : Type 0 where
  pub heap : Heap
  pub free_lists : ℕ → Ptr

-- `GetPriceLevelForOrder`: a shift by `countr_zero(kOrdersPerTick)`.
abbrev pub get_price_level_for_order : Ptr → Ptr → ℕ
get_price_level_for_order node start_node = (node - start_node) / 2 ^ 13

-- `GetFree`: `none` where the free list has run out, which the code only asserts against.
unfoldable pub get_free : OrdersData → ℕ → Option (Ptr × OrdersData)
get_free d level =
    let ret = d.free_lists level in
    if ret == null
    then none
    else some (
      ret,
      record {
        heap = set_next ret null d.heap;
        free_lists = update d.free_lists level (d.heap.next ret);
      },
    )

unfoldable pub release_to_free : OrdersData → Ptr → ℕ → OrdersData
release_to_free d freed level =
    let h = d.heap in
    let h = record h {
      id = update h.id freed 0;
      quantity_lots = update h.quantity_lots freed (pos 0);
    } in
    let temp = d.free_lists level in
    record { heap = set_next freed temp h; free_lists = update d.free_lists level freed }

-- `unlink` and `ReleaseToFree`, as both handlers call them.
unfoldable pub drop_node : OrdersData → Ptr → Option OrdersData
drop_node d n = do
  heap ← unlink d.heap n
  some (release_to_free (record d { heap = heap }) n (get_price_level_for_order n (slot 0)))

-- The inner loop of the constructor, with `n` rounds left: `tail` is the last node linked.
unfoldable pub link_level : ℕ → ℕ → ℕ → Ptr → Heap → Heap
link_level zero ord_idx plevel tail h = h
link_level (suc n) ord_idx plevel tail h =
    let node = slot (ord_idx + plevel * k_orders_per_tick) in
    link_level n (ord_idx + 1) plevel node (set_next tail node h)

-- The outer loop, with `n` levels left.
unfoldable pub link_levels : ℕ → ℕ → OrdersData → OrdersData
link_levels zero plevel d = d
link_levels (suc n) plevel d =
    let tail = slot (0 + plevel * k_orders_per_tick) in
    let free_lists = update d.free_lists plevel tail in
    link_levels n (plevel + 1) (record {
      heap = link_level (k_orders_per_tick - 1) 1 plevel tail d.heap;
      free_lists = free_lists;
    })

-- The constructor of `OrdersData`, from nodes that are default constructed.
unfoldable pub init : Heap → OrdersData
init h = link_levels k_price_level_count 0 (record { heap = h; free_lists = λ _. null })
