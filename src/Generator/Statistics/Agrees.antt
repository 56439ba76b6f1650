-- ===== src/Generator/Statistics/Agrees.antt =====
-- The statistics of `main` describe the requests that it writes and the orders that are live.
use espacekilly.Base.{
  ℕ, ◌+◌, ◌^◌, ◌≤◌, ◌<◌, ◌≡◌, refl, sym, ap, ◌∙◌, Bool, true, false, List, [], ◌∷◌, arith,
  if◌then◌else◌, length, min,
}
use espacekilly.Matcher.OrderBook.{inc, dec}
use espacekilly.Types.{NewRequest}
use espacekilly.Generator.{
  make_price, Draw, LiveOrder, Action, add_limit, cancel_one, market, Generator, victim, swap_pop,
  emit, emit_new, emit_cancel, emit_cancel_or_limit,
}
use espacekilly.Generator.Requests.{make_price-lt}
use espacekilly.Client.EndToEnd.{count_cancels}
use espacekilly.Generator.Statistics.{
  Statistics, modify, inc_if, count_new, count_cancel, count_limit, count_cancel_or_limit, count,
}
use espacekilly.Generator.Statistics.Totals.{total, total_one, total-swap_pop, at, outside}

-- After `i` slots.
pub record Agrees (i : ℕ) (g : Generator) (s : Statistics) : Type 0 where
  pub resting : (b : Bool) (p : ℕ) → s.resting_model b p ≡ total (at b p) g.live
  pub requests : s.limit_bids + s.limit_asks + s.market_buys + s.market_sells + s.cancels ≡ i
  pub lives : length g.live + s.cancels ≡ s.limit_bids + s.limit_asks
  pub peak : length g.live ≤ s.max_live
  pub peak_limits : s.max_live ≤ s.limit_bids + s.limit_asks
  pub forced : s.cancels_forced_to_limit ≤ s.limit_bids + s.limit_asks
  pub crossing : s.crossing_limits ≤ s.limit_bids + s.limit_asks
  pub levels : total outside g.live ≡ 0

total-at-le : (b : Bool) (p : ℕ) (xs : List LiveOrder) → total (at b p) xs ≤ length xs
unfolding total
total-at-le b p [] = omega arith
total-at-le b p (x ∷ xs) = let ih = total-at-le b p xs in ground arith

abbrev live_order : ℕ → ℕ → Bool → LiveOrder
live_order id price is_buy = record { id = id; price = price; is_buy = is_buy }

modify-inc :
    (id price : ℕ) (is_buy b : Bool) (model : Bool → ℕ → ℕ) (p : ℕ)
    → model b p + 1 < 2 ^ 64
    → modify inc is_buy price model b p ≡ at b p (live_order id price is_buy) + model b p
modify-inc id price true true model p h = ground arith
modify-inc id price false false model p h = ground arith
modify-inc id price true false model p h = omega arith
modify-inc id price false true model p h = omega arith

modify-dec :
    (id price : ℕ) (is_buy b : Bool) (model : Bool → ℕ → ℕ) (p : ℕ)
    → at b p (live_order id price is_buy) ≤ model b p
    → model b p < 2 ^ 64
    → modify dec is_buy price model b p + at b p (live_order id price is_buy) ≡ model b p
modify-dec id price true true model p h k = ground arith
modify-dec id price false false model p h k = ground arith
modify-dec id price true false model p h k = omega arith
modify-dec id price false true model p h k = omega arith

inc_if-le : (b : Bool) (n : ℕ) → inc_if b n ≤ n + 1
inc_if-le true n = omega arith
inc_if-le false n = omega arith

-- One of two counters goes up.
one_of :
    (b : Bool) (m n : ℕ)
    → m + n + 1 < 2 ^ 64
    → (if b then inc m else m) + (if b then n else inc n) ≡ m + n + 1
one_of true m n h = omega arith
one_of false m n h = omega arith

module _ (i : ℕ) (small : i + 1 < 2 ^ 64) (d : Draw) (g : Generator) (s : Statistics)
    (a : Agrees i g s) where
  limit-Agrees :
      (forced : ℕ)
      → forced ≤ s.limit_bids + s.limit_asks + 1
      → Agrees
          (i + 1)
          (emit_new d true g).1
          (count_limit d g (record s { cancels_forced_to_limit = forced }))
  unfolding emit_new count_limit count_new total
  limit-Agrees forced h =
      let limits = one_of d.is_buy s.limit_bids s.limit_asks (omega (arith, a.requests)) in
      let price = make_price g.mid d.depth d.is_buy d.crossing in
      let level = make_price-lt g.mid d.depth d.is_buy d.crossing in
      let c = inc_if-le d.crossing s.crossing_limits in
      record {
        resting = λ b p.
            let r = a.resting b p in
            let few = total-at-le b p g.live in
            modify-inc g.msg_id price d.is_buy b s.resting_model p
              (omega (arith, a.lives, a.requests))
            ∙ omega arith;
        requests = omega (arith, limits, a.requests);
        lives = omega (arith, limits, a.lives);
        peak = let k = a.peak in ground arith;
        peak_limits = let k = a.peak_limits in let l = a.lives in ground arith;
        forced = omega (arith, limits);
        crossing = omega (arith, limits, a.crossing);
        levels = let l = a.levels in ground arith;
      }

  market-Agrees : Agrees (i + 1) (emit_new d false g).1 (count_new d false 0 (length g.live) s)
  unfolding emit_new count_new
  market-Agrees =
      let markets = one_of d.is_buy s.market_buys s.market_sells (omega (arith, a.requests)) in
      record {
        resting = a.resting;
        requests = omega (arith, markets, a.requests);
        lives = a.lives;
        peak = a.peak;
        peak_limits = a.peak_limits;
        forced = a.forced;
        crossing = a.crossing;
        levels = a.levels;
      }

  cancel-Agrees :
      (x : LiveOrder) (xs : List LiveOrder)
      → g.live ≡ x ∷ xs
      → Agrees
          (i + 1)
          (emit_cancel d x xs g).1
          (count_cancel (victim (min (length xs) d.cancel_age) x xs) s)
  unfolding emit_cancel count_cancel
  cancel-Agrees x xs e =
      let k = min (length xs) d.cancel_age in
      let v = victim k x xs in
      let ys = swap_pop k x xs in
      let leaves : (w : LiveOrder → ℕ) → total w ys + w v ≡ total w g.live =
        λ w. total-swap_pop w k x xs (omega arith) ∙ ap (total w) (sym e) in
      let one = leaves (λ x. 1) in
      let before = total_one g.live in
      let after = total_one ys in
      record {
        resting = λ b p.
            let r = a.resting b p in
            let l = leaves (at b p) in
            let few = total-at-le b p g.live in
            let m =
              modify-dec v.id v.price v.is_buy b s.resting_model p (omega arith)
                (omega (arith, a.lives, a.requests)) in
            omega arith;
        requests = omega (arith, a.requests);
        lives = omega (arith, a.lives, a.requests);
        peak = omega (arith, a.peak);
        peak_limits = a.peak_limits;
        forced = a.forced;
        crossing = a.crossing;
        levels = omega (arith, a.levels, leaves outside);
      }

  pub emit-Agrees : (act : Action) → Agrees (i + 1) (emit act d g).1 (count act d g s)
  unfolding emit count emit_cancel_or_limit count_cancel_or_limit
  emit-Agrees add_limit = limit-Agrees s.cancels_forced_to_limit (omega (arith, a.forced))
  emit-Agrees market = market-Agrees
  emit-Agrees cancel_one = or_limit g.live refl
    where
      or_limit :
          (xs : List LiveOrder)
          → g.live ≡ xs
          → Agrees (i + 1) (emit_cancel_or_limit d xs g).1 (count_cancel_or_limit d xs g s)
      or_limit [] e = limit-Agrees (inc s.cancels_forced_to_limit) (omega (arith, a.forced))
      or_limit (x ∷ xs) e = cancel-Agrees x xs e

  -- Cancellations are counted when they are written.
  pub emit-cancels :
      (act : Action) (rs : List NewRequest)
      → (count act d g s).cancels + count_cancels rs
        ≡ s.cancels + count_cancels ((emit act d g).0 ∷ rs)
  unfolding emit emit_new emit_cancel emit_cancel_or_limit count count_limit count_new count_cancel
      count_cancel_or_limit count_cancels
  emit-cancels add_limit rs = refl
  emit-cancels market rs = refl
  emit-cancels cancel_one rs = or_limit g.live refl
    where
      or_limit :
          (xs : List LiveOrder)
          → g.live ≡ xs
          → (count_cancel_or_limit d xs g s).cancels + count_cancels rs
            ≡ s.cancels + count_cancels ((emit_cancel_or_limit d xs g).0 ∷ rs)
      or_limit [] e = refl
      or_limit (x ∷ xs) e = omega (arith, a.requests)
