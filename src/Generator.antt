-- ===== src/Generator.antt =====
-- market_generator/main.cpp: the requests that it writes, one for each slot of the mapping. The
-- random numbers are an argument: what the distributions draw for slot `i`.
pub mod Bounds
pub mod Exchange
pub mod Requests
pub mod Statistics
use espacekilly.Base.{
  ℕ, zero, suc, ◌+◌, ◌-◌, ◌*◌, ◌%◌, ◌^◌, ◌==◌, Bool, true, false, not, ◌&&◌, ◌||◌, Option, none,
  some, List, [], ◌∷◌, ℤ, pos, negsuc, neg_ℤ, ltb, leb, if◌then◌else◌, length, min, update,
}
use espacekilly.Types.{
  OrderType, buy, buy_limit, sell, sell_limit, time, NewRequest, new, cancel, k_price_level_count,
}

-- `int` from a 64-bit value.
abbrev pub to_int32 : ℕ → ℤ
to_int32 x = let n = x % 2 ^ 32 in if ltb n (2 ^ 31) then pos n else negsuc (2 ^ 32 - 1 - n)

-- `std::clamp(price, 0, kPriceLevelCount - 1)`.
abbrev pub clamp_price : ℤ → ℕ
clamp_price (pos n) = min n (k_price_level_count - 1)
clamp_price (negsuc n) = 0

-- `makePrice`, with the depth that was drawn.
unfoldable pub make_price : ℕ → ℕ → Bool → Bool → ℕ
make_price mid depth is_buy crossing =
    let above_mid = (is_buy && crossing) || (not is_buy && not crossing) in
    clamp_price (
      to_int32 (
        if above_mid
        then (mid + 1 + depth) % 2 ^ 64
        else (mid + (2 ^ 64 - 1) + (2 ^ 64 - depth)) % 2 ^ 64))

-- What `driftStepDistrib` draws: -1, 0 or 1.
pub data Drift : Type 0 where
  down stay up : Drift

-- `mid += step` on `size_t`.
abbrev pub drifted : Drift → ℕ → ℕ
drifted down mid = (mid + (2 ^ 64 - 1)) % 2 ^ 64
drifted stay mid = mid
drifted up mid = (mid + 1) % 2 ^ 64

unfoldable pub drift_midpoint : Drift → ℕ → ℕ
drift_midpoint drift mid =
    let mid = drifted drift mid in
    let mid = if ltb 90 mid then mid - 1 else mid in if ltb mid 37 then mid + 1 else mid

pub data Action : Type 0 where
  add_limit cancel_one market : Action

-- What is drawn for one slot.
pub record Draw : Type 0 where
  pub drift : Drift
  pub action : Action
  pub cancel_age : ℕ
  pub is_buy : Bool
  pub lots_index : ℕ
  pub crossing : Bool
  pub depth : ℕ

pub record LiveOrder : Type 0 where
  pub id : ℕ
  pub price : ℕ
  pub is_buy : Bool

-- `lotSizes`, and its element at an index that is drawn.
abbrev pub lot_sizes : List ℕ
lot_sizes = 1 ∷ 2 ∷ 5 ∷ 10 ∷ 20 ∷ 50 ∷ 80 ∷ 100 ∷ []

unfoldable pub lots_at : ℕ → List ℕ → ℕ
lots_at i [] = 0
lots_at zero (x ∷ xs) = x
lots_at (suc i) (x ∷ xs) = lots_at i xs

-- The variables of `main` that the requests depend on. `live` lists the vector from its back.
pub record Generator : Type 0 where
  pub mid : ℕ
  pub msg_id : ℕ
  pub live : List LiveOrder

abbrev pub start : Generator
start = record { mid = 64; msg_id = 1; live = [] }

-- The order at place `k` from the back, the last one if there are not as many.
unfoldable pub victim : ℕ → LiveOrder → List LiveOrder → LiveOrder
victim k x [] = x
victim zero x (y ∷ ys) = x
victim (suc k) x (y ∷ ys) = victim k y ys

-- `live[idx] = live.back()`, for place `k` from the back behind the back itself.
unfoldable pub overwrite : ℕ → LiveOrder → List LiveOrder → List LiveOrder
overwrite k x [] = []
overwrite zero x (y ∷ ys) = x ∷ ys
overwrite (suc k) x (y ∷ ys) = y ∷ overwrite k x ys

-- The swap with the back, and `pop_back`.
abbrev pub swap_pop : ℕ → LiveOrder → List LiveOrder → List LiveOrder
swap_pop zero x xs = xs
swap_pop (suc k) x xs = overwrite k x xs

-- A new order: a limit order, which is live from then on, or a market order.
unfoldable pub emit_new : Draw → Bool → Generator → NewRequest × Generator
emit_new d is_limit g =
    let order_id = g.msg_id in
    let order_type : OrderType =
      if d.is_buy
      then (if is_limit then buy_limit else buy)
      else (if is_limit then sell_limit else sell) in
    let lots = pos (lots_at d.lots_index lot_sizes) in
    let price = if is_limit then make_price g.mid d.depth d.is_buy d.crossing else 0 in
    (
      new (record {
        msg_id = order_id;
        order = record { id = order_id; quantity_lots = if d.is_buy then lots else neg_ℤ lots };
        order_type = order_type;
        instrument_id = time;
        price_ticks_limit = price;
        price_ticks_stop = 0;
      }),
      record g {
        msg_id = (order_id + 1) % 2 ^ 64;
        live =
            if is_limit
            then record { id = order_id; price = price; is_buy = d.is_buy } ∷ g.live
            else g.live;
      },
    )

unfoldable pub emit_cancel : Draw → LiveOrder → List LiveOrder → Generator → NewRequest × Generator
emit_cancel d x xs g =
    let k = min (length xs) d.cancel_age in
    (
      cancel (record { msg_id = g.msg_id; to_cancel = (victim k x xs).id; instrument_id = time }),
      record g { msg_id = (g.msg_id + 1) % 2 ^ 64; live = swap_pop k x xs },
    )

-- A cancellation, or a limit order if there is nothing to cancel.
unfoldable pub emit_cancel_or_limit : Draw → List LiveOrder → Generator → NewRequest × Generator
emit_cancel_or_limit d [] g = emit_new d true g
emit_cancel_or_limit d (x ∷ xs) g = emit_cancel d x xs g

unfoldable pub emit : Action → Draw → Generator → NewRequest × Generator
emit add_limit d g = emit_new d true g
emit market d g = emit_new d false g
emit cancel_one d g = emit_cancel_or_limit d g.live g

-- The loop, `n` slots from slot `i` on; the midpoint drifts at every 500th slot.
unfoldable pub generate : (ℕ → Draw) → ℕ → ℕ → Generator → List NewRequest
generate draws zero i g = []
generate draws (suc n) i g =
    let d = draws i in
    let g = record g { mid = if i % 500 == 0 then drift_midpoint d.drift g.mid else g.mid } in
    let r = emit d.action d g in r.0 ∷ generate draws n (i + 1) r.1
