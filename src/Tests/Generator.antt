-- ===== src/Tests/Generator.antt =====
-- The generator with draws that do not depend on the slot.
use espacekilly.Base.{
  ℕ, ◌≤◌, ◌<◌, ◌≡◌, refl, ◌==◌, arith, true, false, [], ◌∷◌, pos, negsuc, ◌+ℤ◌, if◌then◌else◌,
}
use espacekilly.Types.{arr_size, k_price_level_count, new, cancel, buy_limit, sell, time}
use espacekilly.Generator.{
  Draw, stay, up, drift_midpoint, add_limit, market, cancel_one, generate, start, emit, emit_new,
  emit_cancel, emit_cancel_or_limit, make_price, lots_at, victim,
}
use espacekilly.Generator.Bounds.{PriceSides, drift_midpoint-bounds, make_price-sides}
use espacekilly.Generator.Exchange.{generate-serve_all}
use espacekilly.Generator.Requests.{generate-AllFit}
use espacekilly.Generator.Statistics.Survey.{Surveyed, survey-Surveyed}
use espacekilly.Matcher.Engine.Exchange.{Exchanges, RingSuffices, no_queues}
use espacekilly.Matcher.Engine.Run.{AllFit, wanted}
use espacekilly.Matcher.OrderBook.{empty_book}
use espacekilly.Matcher.Priority.{match_orders, enqueue, place}
use espacekilly.Matcher.Priority.Exchange.{serve, by_type, at_limit, at_market, withdraw}
use espacekilly.Matcher.Priority.Withdraw.{take_out}
use espacekilly.Tests.Engine.{emplace, no_durations}

abbrev draws : ℕ → Draw
draws i = record {
  drift = up;
  action = cancel_one;
  cancel_age = 2;
  is_buy = true;
  lots_index = 3;
  crossing = false;
  depth = 70;
}

generate-AllFit_example : AllFit (generate draws arr_size 0 start)
generate-AllFit_example = generate-AllFit draws

drift_midpoint-bounds_example : (37 ≤ drift_midpoint up 90) × (drift_midpoint up 90 ≤ 90)
drift_midpoint-bounds_example = drift_midpoint-bounds up 90 (omega arith) (omega arith)

make_price-sides_example : PriceSides 64 70
make_price-sides_example = make_price-sides 64 70 (omega arith) (omega arith) (omega arith)

survey-Surveyed_example : Surveyed draws arr_size
survey-Surveyed_example = survey-Surveyed draws arr_size (omega arith)

-- A bid, a market order that sells, and a cancellation of the bid.
abbrev few_draws : ℕ → Draw
few_draws i = record {
  drift = stay;
  action = if i == 0 then add_limit else if i == 1 then market else cancel_one;
  cancel_age = 0;
  is_buy = i == 0;
  lots_index = if i == 0 then 3 else 1;
  crossing = false;
  depth = 4;
}

few_draws_generated :
    generate few_draws 3 0 start
    ≡ new (record {
      msg_id = 1;
      order = record { id = 1; quantity_lots = pos 10 };
      order_type = buy_limit;
      instrument_id = time;
      price_ticks_limit = 59;
      price_ticks_stop = 0;
    })
      ∷ new (record {
        msg_id = 2;
        order = record { id = 2; quantity_lots = negsuc 1 };
        order_type = sell;
        instrument_id = time;
        price_ticks_limit = 0;
        price_ticks_stop = 0;
      })
      ∷ cancel (record { msg_id = 3; to_cancel = 1; instrument_id = time })
      ∷ []
unfolding generate emit emit_new emit_cancel emit_cancel_or_limit drift_midpoint make_price lots_at
    victim
few_draws_generated = refl

few_draws-wanted :
    (l : ℕ) → l < k_price_level_count → wanted l (generate few_draws 3 0 start) ≤ 8192
unfolding wanted
few_draws-wanted l h = rw few_draws_generated (ground arith)

few_draws-RingSuffices : RingSuffices (generate few_draws 3 0 start) no_queues
unfolding serve by_type at_limit at_market withdraw take_out place match_orders enqueue ◌+ℤ◌
few_draws-RingSuffices = rw few_draws_generated (omega arith, (omega arith, (omega arith, tt)))

generate-serve_all_example :
    Exchanges emplace
      (λ i. 100)
      0
      (generate few_draws 3 0 start)
      empty_book
      no_queues
      []
      no_durations
generate-serve_all_example =
    generate-serve_all emplace few_draws 3 (λ i. 100) [] no_durations (omega arith) few_draws-wanted
      few_draws-RingSuffices
