-- ===== src/Matcher/Handlers/Limit.antt =====
-- HandleLimitOrder on a book that keeps the invariant.
use espacekilly.Base.{◌≤◌, ◌<◌, ◌≡◌, ◌≢◌, some, pos, is_pos, length}
use espacekilly.Types.{MessageResponse, NewOrderRequest, k_price_level_count, arr_size}
use espacekilly.Matcher.Handlers.{handle_limit_order}
use espacekilly.Matcher.OrderBook.{OrderBook}
use espacekilly.Matcher.OrderBook.Index.{Cursors, IsIndexed}
use espacekilly.Matcher.OrderBook.Invariant.{IsBookOf}
use espacekilly.Matcher.OrdersData.Invariant.{Levels}
use espacekilly.Matcher.Handlers.Resting.{Room}
use espacekilly.Matcher.Handlers.Crossing.{LimitOutcome}
use espacekilly.Matcher.Handlers.Place.{limit_done}

abbrev pub Limited : NewOrderRequest → OrderBook → Levels → Type 0
Limited msg b was_free =
    (c : OrderBook) × (r : MessageResponse) × (rests : Levels) × (frees : Levels)
    × (handle_limit_order msg b ≡ some (c, r))
    × IsBookOf c rests frees
    × IsIndexed c rests
    × Room msg.price_ticks_limit was_free frees
    × (Cursors b → Cursors c)
    × LimitOutcome (is_pos msg.order.quantity_lots) msg b c rests r

-- HandleLimitOrder of an order with lots, with a price that is a level, an id within the index
-- and a free node at its level, on a book with the invariant, returns. The invariant holds after
-- it. Either the order crosses the other side and is filled, or what is left of it rests at its
-- level, where the index leads; all of it is left if it does not cross. No level loses a free
-- node but the order's, which loses at most one.
pub handle_limit_order-IsBook :
    (msg : NewOrderRequest) (b : OrderBook) (rests frees : Levels)
    → IsBookOf b rests frees
    → IsIndexed b rests
    → msg.order.quantity_lots ≢ pos 0
    → msg.price_ticks_limit < k_price_level_count
    → msg.order.id ≤ arr_size
    → 0 < length (frees msg.price_ticks_limit)
    → Limited msg b frees
handle_limit_order-IsBook msg b rests frees v x nonzero hp hi room =
    let (c, r, rests', frees', run, holds, outcome, _) =
      limit_done msg b rests frees v x nonzero hp hi room in
    (c, r, rests', frees', run, holds.book, holds.indexed, holds.room, holds.cursors, outcome)
