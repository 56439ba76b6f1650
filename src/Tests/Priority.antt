-- ===== src/Tests/Priority.antt =====
-- Price-time priority at small inputs, and on the book in which a bid rests.
use espacekilly.Base.{◌<◌, ◌≡◌, refl, true, false, List, [], ◌∷◌, arith, pos, negsuc, ◌+ℤ◌, length}
use espacekilly.Types.{NewOrderRequest, sell_limit, time}
use espacekilly.Matcher.Engine.Market.{MarketMatches, dispatch-MarketMatches}
use espacekilly.Matcher.Handlers.Conserve.{Conserves, handle_market_order-Conserves}
use espacekilly.Matcher.Handlers.Match.{MatchesReference, handle_market_order-match_orders}
use espacekilly.Matcher.Handlers.Place.{LimitPlaces, handle_limit_order-place}
use espacekilly.Matcher.Ladder.Shows.{Shown, ladder-Shown}
use espacekilly.Matcher.OrdersData.Init.{all_slots, slots-pos}
use espacekilly.Matcher.Priority.{Entry, fill_report, match_orders}
use espacekilly.Tests.Book.{ask, ask_lots, with_bid}

-- Two asks at tick 60 and one at 61.
abbrev asks : List Entry
asks =
    (60, record { id = 1; quantity_lots = negsuc 4 })
    ∷ (60, record { id = 2; quantity_lots = negsuc 9 })
    ∷ (61, record { id = 3; quantity_lots = negsuc 0 })
    ∷ []

-- Eight lots take the first ask and three lots of the second.
eight_lots : match_orders true 61 asks (pos 8) ≡ record {
  queue =
      (60, record { id = 2; quantity_lots = negsuc 6 })
      ∷ (61, record { id = 3; quantity_lots = negsuc 0 })
      ∷ [];
  left = negsuc 6;
  reports =
      fill_report (record { id = 1; quantity_lots = negsuc 4 }) (pos 0) true
      ∷ fill_report (record { id = 2; quantity_lots = negsuc 9 }) (negsuc 6) false
      ∷ [];
}
unfolding match_orders ◌+ℤ◌
eight_lots = refl

handle_market_order-match_orders_example : MatchesReference ask with_bid.0 0 with_bid.2
handle_market_order-match_orders_example =
    handle_market_order-match_orders ask with_bid.0 0 with_bid.2 with_bid.3 with_bid.5 ask_lots
      (ground arith)

handle_market_order-Conserves_example : Conserves ask with_bid.0 0 with_bid.2
handle_market_order-Conserves_example =
    handle_market_order-Conserves ask with_bid.0 0 with_bid.2 with_bid.3 with_bid.5 ask_lots
      (ground arith)

-- A limit order that sells 25 lots at tick 55, below the bid.
abbrev low_ask : NewOrderRequest
low_ask = record {
  msg_id = 2;
  order = record { id = 8; quantity_lots = negsuc 24 };
  order_type = sell_limit;
  instrument_id = time;
  price_ticks_limit = 55;
  price_ticks_stop = 0;
}

all_free_at_55 : 0 < length (all_slots 55)
all_free_at_55 = let e = slots-pos 8192 8191 450560 refl in rw e (omega arith)

free_at_55 : 0 < length (with_bid.3 55)
free_at_55 = let room = with_bid.7 55 in omega (arith, all_free_at_55, room)

handle_limit_order-place_example : LimitPlaces low_ask with_bid.0 with_bid.2
handle_limit_order-place_example =
    handle_limit_order-place low_ask with_bid.0 with_bid.2 with_bid.3 with_bid.5 with_bid.6 ask_lots
      (omega arith) (omega arith) free_at_55

ladder-Shown_example : Shown with_bid.0 with_bid.2
ladder-Shown_example = ladder-Shown with_bid.0 with_bid.2 with_bid.3 with_bid.5

dispatch-MarketMatches_example : MarketMatches ask with_bid.0 with_bid.2
dispatch-MarketMatches_example =
    dispatch-MarketMatches ask with_bid.0 with_bid.2 with_bid.3 with_bid.5 ask_lots
