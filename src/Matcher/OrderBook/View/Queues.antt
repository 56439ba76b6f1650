-- ===== src/Matcher/OrderBook/View/Queues.antt =====
-- The two queues of a book, and what it means that the code serves a request as the reference does.
use espacekilly.Base.{◌≡◌, refl, Bool, true, false, not}
use espacekilly.Types.{MessageResponse}
use espacekilly.Matcher.OrderBook.{OrderBook}
use espacekilly.Matcher.OrderBook.View.{view}
use espacekilly.Matcher.OrdersData.Invariant.{Levels}
use espacekilly.Matcher.Priority.{logged}
use espacekilly.Matcher.Priority.Exchange.{Queues, queues, queue_of, Served}

abbrev pub queues_of : OrderBook → Levels → Queues
queues_of b rests = record { bids = view true b rests; asks = view false b rests }

-- From the book `b` the code has gone to `c`, in which `rests'` rest, and has returned `r`.
pub record Serves (s : Served) (b c : OrderBook) (rests' : Levels) (r : MessageResponse)
    : Type 0 where
  pub left : queues_of c rests' ≡ s.left
  pub response : r ≡ s.response
  pub reports : (c.fulfilled, c.filled_write_idx) ≡ logged s.reports b.fulfilled b.filled_write_idx

-- The queues of a book by a side and the other one.
pub queues_of-sides :
    (s : Bool) (b : OrderBook) (rests : Levels)
    → queues_of b rests ≡ queues s (view s b rests) (view (not s) b rests)
queues_of-sides true b rests = refl
queues_of-sides false b rests = refl

pub queue_of-view :
    (s : Bool) (b : OrderBook) (rests : Levels) → queue_of (queues_of b rests) s ≡ view s b rests
queue_of-view true b rests = refl
queue_of-view false b rests = refl
