-- ===== src/Generator/Statistics.antt =====
-- market_generator/main.cpp: what `main` counts while it writes the requests, and prints at the end.
pub mod Agrees
pub mod Survey
pub mod Totals
use espacekilly.Base.{
  ℕ, zero, suc, ◌+◌, ◌%◌, ◌^◌, ◌==◌, Bool, true, false, List, [], ◌∷◌, ℤ, pos, ◌+ℤ◌, if◌then◌else◌,
  length, min, ltb,
}
use espacekilly.Matcher.OrderBook.{inc, dec}
use espacekilly.Generator.{
  make_price, drift_midpoint, Draw, LiveOrder, Action, add_limit, cancel_one, market, lot_sizes,
  lots_at, Generator, victim, emit,
}

pub record Statistics : Type 0 where
  pub limit_bids : ℕ
  pub limit_asks : ℕ
  pub crossing_limits : ℕ
  pub market_buys : ℕ
  pub market_sells : ℕ
  pub cancels : ℕ
  pub cancels_forced_to_limit : ℕ
  pub limit_lots_total : ℤ
  pub market_lots_total : ℤ
  pub resting_model : Bool → ℕ → ℕ
  pub max_live : ℕ

abbrev pub no_statistics : Statistics
no_statistics = record {
  limit_bids = 0;
  limit_asks = 0;
  crossing_limits = 0;
  market_buys = 0;
  market_sells = 0;
  cancels = 0;
  cancels_forced_to_limit = 0;
  limit_lots_total = pos 0;
  market_lots_total = pos 0;
  resting_model = λ is_buy price. 0;
  max_live = 0;
}

-- A write to `restingModel[is_buy][price]`.
abbrev pub modify : (ℕ → ℕ) → Bool → ℕ → (Bool → ℕ → ℕ) → Bool → ℕ → ℕ
modify f true price model true p = if price == p then f (model true p) else model true p
modify f false price model false p = if price == p then f (model false p) else model false p
modify f true price model false p = model false p
modify f false price model true p = model true p

abbrev pub inc_if : Bool → ℕ → ℕ
inc_if true n = inc n
inc_if false n = n

-- A new order has been written; `size` orders are live now.
unfoldable pub count_new : Draw → Bool → ℕ → ℕ → Statistics → Statistics
count_new d true price size s = record s {
  max_live = if ltb s.max_live size then size else s.max_live;
  resting_model = modify inc d.is_buy price s.resting_model;
  limit_bids = if d.is_buy then inc s.limit_bids else s.limit_bids;
  limit_asks = if d.is_buy then s.limit_asks else inc s.limit_asks;
  crossing_limits = inc_if d.crossing s.crossing_limits;
  limit_lots_total = s.limit_lots_total +ℤ pos (lots_at d.lots_index lot_sizes);
}
count_new d false price size s = record s {
  market_buys = if d.is_buy then inc s.market_buys else s.market_buys;
  market_sells = if d.is_buy then s.market_sells else inc s.market_sells;
  market_lots_total = s.market_lots_total +ℤ pos (lots_at d.lots_index lot_sizes);
}

-- A cancellation of `x` has been written.
unfoldable pub count_cancel : LiveOrder → Statistics → Statistics
count_cancel x s = record s {
  resting_model = modify dec x.is_buy x.price s.resting_model;
  cancels = inc s.cancels;
}

unfoldable pub count_limit : Draw → Generator → Statistics → Statistics
count_limit d g =
    count_new d true (make_price g.mid d.depth d.is_buy d.crossing) (suc (length g.live))

-- A draw of a cancellation, with the orders that are live.
unfoldable pub count_cancel_or_limit : Draw → List LiveOrder → Generator → Statistics → Statistics
count_cancel_or_limit d [] g s =
    count_limit d g (record s { cancels_forced_to_limit = inc s.cancels_forced_to_limit })
count_cancel_or_limit d (x ∷ xs) g s = count_cancel (victim (min (length xs) d.cancel_age) x xs) s

unfoldable pub count : Action → Draw → Generator → Statistics → Statistics
count add_limit d g s = count_limit d g s
count market d g s = count_new d false 0 (length g.live) s
count cancel_one d g s = count_cancel_or_limit d g.live g s

-- The loop of `main` with its statistics, `n` slots from slot `i` on.
unfoldable pub survey : (ℕ → Draw) → ℕ → ℕ → Generator → Statistics → Generator × Statistics
survey draws zero i g s = (g, s)
survey draws (suc n) i g s =
    let d = draws i in
    let g = record g { mid = if i % 500 == 0 then drift_midpoint d.drift g.mid else g.mid } in
    survey draws n (i + 1) (emit d.action d g).1 (count d.action d g s)

-- `modelBids` and `modelAsks`, over the first `k` prices.
unfoldable pub model_totals : (Bool → ℕ → ℕ) → ℕ → ℕ × ℕ
model_totals model zero = (0, 0)
model_totals model (suc k) =
    let (bids, asks) = model_totals model k in
    ((bids + model true k) % 2 ^ 64, (asks + model false k) % 2 ^ 64)
