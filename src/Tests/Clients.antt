-- ===== src/Tests/Clients.antt =====
-- The broadcaster with draws that do not depend on the order, each one cancelled, and a stream of
-- two requests that it sends to the client.
use espacekilly.Base.{
  ℕ, ◌+◌, ◌==◌, ◌≡◌, refl, arith, Bool, true, some, List, [], ◌∷◌, map, take, replicate, ℤ, pos,
  negsuc,
}
use espacekilly.Broadcaster.{OrderDraw, new_orders, add_cancels, generate_orders}
use espacekilly.Broadcaster.Frames.{frames, all_sent, broadcast-fails}
use espacekilly.Broadcaster.Send.{broadcast}
use espacekilly.Broadcaster.Stream.{Streams, generate_orders-AllFit}
use espacekilly.Client.{no_stats, received, ended, listen}
use espacekilly.Client.EndToEnd.{count_news, count_cancels, listen-broadcast}
use espacekilly.Types.{sell_limit, NewRequest, new, cancel}
use espacekilly.Wire.Message.{to_order_type}
use espacekilly.Wire.Bytes.{little, big}

abbrev draws : ℕ → OrderDraw
draws i = record { type_num = 3; lots = 500; ticks = 60 }

abbrev all_cancelled : ℕ → Bool
all_cancelled i = true

generate_orders-AllFit_example : Streams draws all_cancelled 100
generate_orders-AllFit_example =
    generate_orders-AllFit draws all_cancelled 100 (λ j. omega arith) (omega arith)

abbrev stream : List NewRequest
stream =
    new (record {
      msg_id = 1;
      order = record { id = 1; quantity_lots = negsuc 499 };
      order_type = sell_limit;
      instrument_id = 0;
      price_ticks_limit = 60;
      price_ticks_stop = 0;
    })
    ∷ cancel (record { msg_id = 2; to_cancel = 1; instrument_id = 0 })
    ∷ []

-- One order is made, drawn and cancelled, and the cancellation is skipped.
one_order : generate_orders draws all_cancelled 1 ≡ some stream
unfolding generate_orders new_orders add_cancels to_order_type
one_order = refl

abbrev clock : ℕ → ℤ
clock i = pos (1000 + i)

listen-broadcast_example :
    listen big (map received (broadcast little clock all_sent (replicate 80 0) stream)) [] no_stats
    ≡ ended (record { news = count_news stream; cancels = count_cancels stream })
listen-broadcast_example =
    listen-broadcast little big clock (replicate 80 0) [] stream (omega arith) (omega arith)
      ((omega arith), (omega arith, tt))

abbrev second_fails : ℕ → Bool
second_fails i = i == 0

broadcast-fails_example :
    broadcast little clock second_fails (replicate 80 0) stream ≡ frames clock 0 0 (take 2 stream)
broadcast-fails_example =
    broadcast-fails little clock second_fails 1 (replicate 80 0) stream (omega arith)
      (λ j h. ground arith) refl (omega arith)
