-- ===== src/Tests/Book.antt =====
-- The handlers on the empty book, then on the book in which a bid rests.
use espacekilly.Base.{◌<◌, ◌≢◌, refl, arith, pos, negsuc, length}
use espacekilly.Types.{NewOrderRequest, CancelOrderRequest, buy_limit, sell, time}
use espacekilly.Matcher.Handlers.Cancel.{Cancels, handle_cancellation-IsBook}
use espacekilly.Matcher.Handlers.Limit.{Limited, handle_limit_order-IsBook}
use espacekilly.Matcher.Handlers.Market.{Handled, handle_market_order-IsBook}
use espacekilly.Matcher.Handlers.Place.{LimitDone, limit_done}
use espacekilly.Matcher.Handlers.Withdraw.{Withdrawn, handle_cancellation-withdraw}
use espacekilly.Matcher.OrderBook.{empty_book}
use espacekilly.Matcher.OrderBook.Empty.{empty_book-IsBook}
use espacekilly.Matcher.OrderBook.Findable.{Findable}
use espacekilly.Matcher.OrdersData.Init.{all_slots, none_rest, slots-pos}

abbrev pub bid : NewOrderRequest
bid = record {
  msg_id = 1;
  order = record { id = 7; quantity_lots = pos 10 };
  order_type = buy_limit;
  instrument_id = time;
  price_ticks_limit = 60;
  price_ticks_stop = 0;
}

-- A market order that sells 25 lots.
abbrev pub ask : NewOrderRequest
ask = record {
  msg_id = 2;
  order = record { id = 8; quantity_lots = negsuc 24 };
  order_type = sell;
  instrument_id = time;
  price_ticks_limit = 0;
  price_ticks_stop = 0;
}

abbrev withdrawal : CancelOrderRequest
withdrawal = record { msg_id = 3; to_cancel = 7; instrument_id = time }

bid_lots : bid.order.quantity_lots ≢ pos 0
bid_lots e = ground arith

pub ask_lots : ask.order.quantity_lots ≢ pos 0
ask_lots e = ground arith

free_at_60 : 0 < length (all_slots 60)
free_at_60 = let e = slots-pos 8192 8191 491520 refl in rw e (omega arith)

handle_limit_order-IsBook_example : Limited bid empty_book all_slots
handle_limit_order-IsBook_example =
    handle_limit_order-IsBook bid empty_book none_rest all_slots empty_book-IsBook.0
      empty_book-IsBook.1 bid_lots (omega arith) (omega arith) free_at_60

pub with_bid : Limited bid empty_book all_slots
with_bid =
    handle_limit_order-IsBook bid empty_book none_rest all_slots empty_book-IsBook.0
      empty_book-IsBook.1 bid_lots (omega arith) (omega arith) free_at_60

handle_market_order-IsBook_example : Handled ask with_bid.0 with_bid.2 with_bid.3 0
handle_market_order-IsBook_example =
    handle_market_order-IsBook ask with_bid.0 0 with_bid.2 with_bid.3 with_bid.5 ask_lots

handle_cancellation-IsBook_example : Cancels withdrawal with_bid.0 with_bid.2 with_bid.3
handle_cancellation-IsBook_example =
    handle_cancellation-IsBook withdrawal with_bid.0 with_bid.2 with_bid.3 with_bid.5 with_bid.6
      (omega arith) (omega arith)

bid_done : LimitDone bid empty_book none_rest all_slots
bid_done =
    limit_done bid empty_book none_rest all_slots empty_book-IsBook.0 empty_book-IsBook.1 bid_lots
      (omega arith) (omega arith) free_at_60

bid-Findable : Findable bid_done.0 bid_done.2
bid-Findable =
    bid_done.5.findable (λ l p hl m. absurd (ground arith)) (λ l p hl m. absurd (ground arith))

handle_cancellation-withdraw_example : Withdrawn withdrawal bid_done.0 bid_done.2 bid_done.3
handle_cancellation-withdraw_example =
    handle_cancellation-withdraw withdrawal bid_done.0 bid_done.2 bid_done.3 bid_done.5.book
      bid_done.5.indexed bid-Findable (omega arith) (omega arith)
