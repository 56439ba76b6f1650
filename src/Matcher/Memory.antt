-- ===== src/Matcher/Memory.antt =====
-- The memory of the order nodes: `OrderNode` of matcher.h, the nodes of the pool and the
-- sentinels of the levels. A pointer is a number; the nodes of the pool stand one behind the other,
-- so that the difference of two pointers into the pool is a number of nodes, as in C++.
use espacekilly.Base.{ℕ, ◌+◌, ℤ}
use espacekilly.Types.{Order}

abbrev pub Ptr : Type 0
Ptr = ℕ

abbrev pub null : Ptr
null = 0

-- `&orders[l].listSentinel`, for a level `l` below 128.
abbrev pub sentinel : ℕ → Ptr
sentinel l = 1 + l

-- `&ordersData.ordersData[i]`.
abbrev pub slot : ℕ → Ptr
slot i = 129 + i

-- The fields of the nodes, each by the address of its node.
pub record Heap : Type 0 where
  pub id : Ptr → ℕ
  pub quantity_lots : Ptr → ℤ
  pub next : Ptr → Ptr
  pub prev : Ptr → Ptr

abbrev pub order_at : Heap → Ptr → Order
order_at h p = record { id = h.id p; quantity_lots = h.quantity_lots p }
