-- ===== src/Tests/Engine.antt =====
-- The matching loop on a bid, a limit order that crosses it, a cancellation and a market order
-- without lots, with a list for the queue.
use espacekilly.Base.{
  ℕ, ◌≤◌, ◌<◌, refl, inl, inr, List, [], ◌∷◌, some, none, pos, negsuc, ◌+ℤ◌, ◌≡◌, arith,
}
use espacekilly.Types.{
  MessageResponse, NewRequest, new, cancel, buy_limit, sell_limit, buy, time, filled, resting,
  rejected, cancelled, k_price_level_count,
}
use espacekilly.Matcher.Engine.{Duration}
use espacekilly.Matcher.Engine.Drain.{Drains, drain_lem}
use espacekilly.Matcher.Engine.Exchange.{
  Exchanges, AllApart, AllSigned, RingSuffices, names, no_queues, match_all-serve_all,
}
use espacekilly.Matcher.Engine.Run.{AllFit, wanted, Matches, match_all-IsSound}
use espacekilly.Matcher.OrderBook.{OrderBook, empty_book}
use espacekilly.Matcher.Priority.{match_orders, enqueue, place}
use espacekilly.Matcher.Priority.Exchange.{serve_all, serve, by_type, at_limit, withdraw}
use espacekilly.Matcher.Priority.Withdraw.{take_out}

abbrev pub emplace : List MessageResponse → MessageResponse → List MessageResponse
emplace q r = r ∷ q

abbrev requests : List NewRequest
requests =
    new (record {
      msg_id = 1;
      order = record { id = 7; quantity_lots = pos 10 };
      order_type = buy_limit;
      instrument_id = time;
      price_ticks_limit = 60;
      price_ticks_stop = 0;
    })
    ∷ new (record {
      msg_id = 2;
      order = record { id = 8; quantity_lots = negsuc 24 };
      order_type = sell_limit;
      instrument_id = time;
      price_ticks_limit = 60;
      price_ticks_stop = 0;
    })
    ∷ cancel (record { msg_id = 3; to_cancel = 8; instrument_id = time })
    ∷ new (record {
      msg_id = 4;
      order = record { id = 9; quantity_lots = pos 0 };
      order_type = buy;
      instrument_id = time;
      price_ticks_limit = 0;
      price_ticks_stop = 0;
    })
    ∷ []

requests-AllFit : AllFit requests
requests-AllFit = (
  (omega arith, inr (omega arith, omega arith)),
  (
    (omega arith, inr (omega arith, omega arith)),
    ((omega arith, omega arith, omega arith), ((omega arith, inl refl), tt)),
  ),
)

few_wanted : (l : ℕ) → l < k_price_level_count → wanted l requests ≤ 8192
unfolding wanted
few_wanted l h = ground arith

abbrev pub no_durations : ℕ → Duration
no_durations i = record { time = 0; fills = 0; id = 0 }

match_all-IsSound_example : Matches emplace (λ i. 100) 0 requests empty_book [] no_durations
match_all-IsSound_example =
    match_all-IsSound emplace (λ i. 100) requests [] no_durations requests-AllFit few_wanted

-- Two responses that wait in the ring, the first in its last element.
abbrev waiting : OrderBook
waiting = record empty_book {
  filled_read_idx = 2047;
  filled_write_idx = 2049;
  fulfilled =
      λ i. record { order = some (record { id = i; quantity_lots = pos 0 }); result = filled };
}

drain_lem_example : Drains emplace 2 waiting []
drain_lem_example = drain_lem emplace 2 waiting [] (omega arith, omega arith) (omega arith)

-- The bid rests and is filled, what is left of the ask rests and is taken back, and the order
-- without lots is rejected.
requests_served : serve_all requests no_queues ≡ (
  no_queues,
  record { order = some (record { id = 7; quantity_lots = pos 10 }); result = resting }
      ∷ record { order = some (record { id = 7; quantity_lots = pos 0 }); result = filled }
      ∷ record { order = some (record { id = 8; quantity_lots = negsuc 14 }); result = resting }
      ∷ record { order = some (record { id = 8; quantity_lots = negsuc 14 }); result = cancelled }
      ∷ record { order = none; result = rejected }
      ∷ [],
)
unfolding serve_all serve by_type at_limit withdraw take_out place match_orders enqueue ◌+ℤ◌
requests_served = refl

requests-AllApart : AllApart requests
unfolding names
requests-AllApart = (
  (λ k e. ground arith),
  ((λ k e. ground arith), ((λ k e. ground arith), ((λ k e. ground arith), tt))),
)

requests-AllSigned : AllSigned requests
requests-AllSigned = (tt, (tt, (tt, (refl, tt))))

requests-RingSuffices : RingSuffices requests no_queues
unfolding serve by_type at_limit withdraw take_out place match_orders enqueue ◌+ℤ◌
requests-RingSuffices = (omega arith, (omega arith, (omega arith, (omega arith, tt))))

match_all-serve_all_example :
    Exchanges emplace (λ i. 100) 0 requests empty_book no_queues [] no_durations
match_all-serve_all_example =
    match_all-serve_all emplace (λ i. 100) requests [] no_durations requests-AllFit few_wanted
      requests-AllApart requests-AllSigned requests-RingSuffices
