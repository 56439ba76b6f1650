-- ===== src/Matcher/Ladder.antt =====
-- The ladder that `startMatch` of matcher.cpp prints: for each level with orders, how many bids and
-- asks its list holds, and their lots (those of asks are negative). `none` is a null pointer that is followed, a sum that overflows, or fuel that has
-- run out.
pub mod Sums
pub mod Shows
use espacekilly.Base.{
  ℕ, zero, suc, Bool, ◌&&◌, Option, none, some, List, [], ◌∷◌, ℤ, pos, ◌+ℤ◌, is_pos, neg_part,
  pos_part, leb, ltb, ◌^◌, ◌==◌, if◌then◌else◌, ◌>>=◌,
}
use espacekilly.Types.{k_orders_per_tick}
use espacekilly.Matcher.IntrusiveList.{head}
use espacekilly.Matcher.Memory.{Ptr, null, sentinel, Heap}
use espacekilly.Matcher.OrderBook.{OrderBook, inc}

pub record Rung : Type 0 where
  pub bids : ℕ
  pub asks : ℕ
  pub bid_lots : ℤ
  pub ask_lots : ℤ

abbrev pub no_orders : Rung
no_orders = record { bids = 0; asks = 0; bid_lots = pos 0; ask_lots = pos 0 }

-- `+=` on `int64_t`; a sum outside the type is undefined.
abbrev pub is_int64 : ℤ → Bool
is_int64 a = leb (neg_part a) (2 ^ 63) && ltb (pos_part a) (2 ^ 63)

abbrev pub add_int64 : ℤ → ℤ → Option ℤ
add_int64 a b = if is_int64 (a +ℤ b) then some (a +ℤ b) else none

-- The body of the loop over the list of a level.
unfoldable pub add_order : ℤ → Rung → Option Rung
add_order lots r =
    if is_pos lots
    then (do sum ← add_int64 r.bid_lots lots; some (record r { bids = inc r.bids; bid_lots = sum }))
    else (do sum ← add_int64 r.ask_lots lots; some (record r { asks = inc r.asks; ask_lots = sum }))

-- The loop over the list of a level, from node `n` on.
unfoldable pub walk : ℕ → Heap → Ptr → Ptr → Rung → Option Rung
walk zero h list_sentinel n r = none
walk (suc fuel) h list_sentinel n r =
    let rest =
      add_order (h.quantity_lots n) r >>= (λ r'. walk fuel h list_sentinel (h.next n) r') in
    if n == list_sentinel then some r else (if n == null then none else rest)

-- A level has at most `kOrdersPerTick` orders.
abbrev pub rung : OrderBook → ℕ → Option Rung
rung b p =
    let h = b.orders_data.heap in
    walk (suc k_orders_per_tick) h (sentinel p) (head h (sentinel p)) no_orders

-- Levels without orders are skipped.
abbrev pub is_bare : Rung → Bool
is_bare r = r.bids == 0 && r.asks == 0

-- The loop over the levels below `k`, the highest price first.
unfoldable pub ladder : OrderBook → ℕ → Option (List (ℕ × Rung))
ladder b zero = some []
ladder b (suc p) = do
  r ← rung b p
  rest ← ladder b p
  some (if is_bare r then rest else (p, r) ∷ rest)
