-- ===== src/Matcher/OrderBook.antt =====
-- class `OrderBook` of matcher.h. The array of orders is the sentinels in the heap of
-- `orders_data`; the counters at file scope of matcher.cpp travel with the book.
pub mod Counting
pub mod Empty
pub mod Findable
pub mod Index
pub mod Insert
pub mod Invariant
pub mod Reading
pub mod Remove
pub mod View
use espacekilly.Base.{ℕ, ◌+◌, ◌-◌, ◌%◌, ◌^◌, Bool, none, pos, if◌then◌else◌, ltb, ◌&&◌}
use espacekilly.Types.{MessageResponse, filled, k_fulfilled_orders_count, k_price_level_count}
use espacekilly.Matcher.Memory.{Ptr, null, slot, Heap}
use espacekilly.Matcher.OrdersData.{OrdersData, init}

-- `std::array<size_t, 2>`, indexed by `orderIsBuy`: 0 for asks, 1 for bids.
pub record Sides : Type 0 where
  pub ask : ℕ
  pub bid : ℕ

abbrev pub side : Sides → Bool → ℕ
side s is_bid = if is_bid then s.bid else s.ask

abbrev pub set_side : Sides → Bool → ℕ → Sides
set_side s is_bid v = if is_bid then record s { bid = v } else record s { ask = v }

-- `size_t` arithmetic.
abbrev pub inc : ℕ → ℕ
inc n = (n + 1) % 2 ^ 64

abbrev pub dec : ℕ → ℕ
dec n = (n + (2 ^ 64 - 1)) % 2 ^ 64

-- `SIZE_MAX`.
abbrev pub invalid_best_idx : ℕ
invalid_best_idx = 2 ^ 64 - 1

-- `g_limitOrders` and its fellows.
pub record Counters : Type 0 where
  pub limit_orders : ℕ
  pub no_ops : ℕ
  pub market_orders : ℕ
  pub cancels : ℕ
  pub cancels_not_found : ℕ
  pub cross_order : ℕ
  pub resting_order : ℕ
  pub fully_filled_cross_order : ℕ

pub record OrderBook : Type 0 where
  pub counts : Sides
  pub filled_read_idx : ℕ
  pub filled_write_idx : ℕ
  pub fulfilled : ℕ → MessageResponse
  pub best_idx : Sides
  pub orders_data : OrdersData
  pub id_to_order : ℕ → Ptr
  pub counters : Counters

-- The nodes before any order: the sentinels point at themselves, all other links are null.
abbrev pub fresh_link : Ptr → Ptr
fresh_link p = if ltb null p && ltb p (slot 0) then p else null

abbrev pub fresh_heap : Heap
fresh_heap = record {
  id = λ _. 0;
  quantity_lots = λ _. pos 0;
  next = fresh_link;
  prev = fresh_link;
}

abbrev pub no_counters : Counters
no_counters = record {
  limit_orders = 0;
  no_ops = 0;
  market_orders = 0;
  cancels = 0;
  cancels_not_found = 0;
  cross_order = 0;
  resting_order = 0;
  fully_filled_cross_order = 0;
}

-- The constructor.
abbrev pub empty_book : OrderBook
empty_book = record {
  counts = record { ask = 0; bid = 0 };
  filled_read_idx = 0;
  filled_write_idx = 0;
  fulfilled = λ _. record { order = none; result = filled };
  best_idx = record { ask = invalid_best_idx; bid = invalid_best_idx };
  orders_data = init fresh_heap;
  id_to_order = λ _. null;
  counters = no_counters;
}

-- `fulfilled[i & (fulfilled.size() - 1)]`; the size is a power of two.
abbrev pub fulfilled_slot : ℕ → ℕ
fulfilled_slot i = i % k_fulfilled_orders_count

-- `i & (orders.size() - 1)`.
abbrev pub level_slot : ℕ → ℕ
level_slot i = i % k_price_level_count
