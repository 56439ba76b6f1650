-- ===== src/Generator/Statistics/Survey.antt =====
-- The statistics after the loop of `main`.
use espacekilly.Base.{
  ℕ, zero, suc, ◌+◌, ◌%◌, ◌^◌, ◌<◌, ◌==◌, ◌≡◌, refl, ◌∙◌, subst, true, false, arith, if◌then◌else◌,
  length,
}
use espacekilly.Types.{k_price_level_count}
use espacekilly.Generator.{drift_midpoint, Draw, Generator, start, emit, generate}
use espacekilly.Client.EndToEnd.{count_cancels}
use espacekilly.Generator.Statistics.{Statistics, no_statistics, count, survey, model_totals}
use espacekilly.Generator.Statistics.Totals.{
  total, at, sum_below-live, sum_below-same, model_totals-sum_below,
}
use espacekilly.Generator.Statistics.Agrees.{Agrees, emit-Agrees, emit-cancels}

-- The midpoint has no part in it.
drift-Agrees :
    (i : ℕ) (g : Generator) (s : Statistics) (mid : ℕ)
    → Agrees i g s
    → Agrees i (record g { mid = mid }) s
drift-Agrees i g s mid a = record {
  resting = a.resting;
  requests = a.requests;
  lives = a.lives;
  peak = a.peak;
  peak_limits = a.peak_limits;
  forced = a.forced;
  crossing = a.crossing;
  levels = a.levels;
}

survey-Agrees :
    (draws : ℕ → Draw) (n i : ℕ) (g : Generator) (s : Statistics)
    → i + n < 2 ^ 64
    → Agrees i g s
    → Agrees (i + n) (survey draws n i g s).0 (survey draws n i g s).1
      × ((survey draws n i g s).1.cancels ≡ s.cancels + count_cancels (generate draws n i g))
unfolding survey generate count_cancels
survey-Agrees draws zero i g s h a = (subst (λ k. Agrees k g s) (omega arith) a, omega arith)
survey-Agrees draws (suc n) i g s h a =
    let d = draws i in
    let g = record g { mid = if i % 500 == 0 then drift_midpoint d.drift g.mid else g.mid } in
    let a = drift-Agrees i _ s _ a in
    let next = (emit d.action d g).1 in
    let s' = count d.action d g s in
    let (b, c) =
      survey-Agrees draws n (i + 1) next s' (omega arith)
        (emit-Agrees i (omega arith) d g s a d.action) in
    (
      subst (λ k. Agrees k (survey draws n (i + 1) next s').0 (survey draws n (i + 1) next s').1)
          (omega arith) b,
      c ∙ emit-cancels i (omega arith) d g s a d.action (generate draws n (i + 1) next),
    )

no_statistics-Agrees : Agrees 0 start no_statistics
unfolding total
no_statistics-Agrees = record {
  resting = λ b p. refl;
  requests = omega arith;
  lives = omega arith;
  peak = omega arith;
  peak_limits = omega arith;
  forced = omega arith;
  crossing = omega arith;
  levels = refl;
}

-- What `main` prints after `n` slots: the statistics agree with the orders that are live, the
-- cancellations are those that were written, and the totals of the table add up to the live orders.
abbrev pub Surveyed : (ℕ → Draw) → ℕ → Type 0
Surveyed draws n =
    let (g, s) = survey draws n 0 start no_statistics in
    let (bids, asks) = model_totals s.resting_model k_price_level_count in
    Agrees n g s
    × (s.cancels ≡ count_cancels (generate draws n 0 start))
    × (bids + asks ≡ length g.live)

-- Whatever is drawn, for fewer than 2^64 requests, no counter of the generator wraps or goes below
-- 0: the table of resting orders counts the live orders of each side and price, the requests are
-- counted once each, the live orders are the limit orders less the cancellations, the peak is
-- between the live orders and the limit orders, the cancellations counted are those written, and
-- the totals of the table add up to the live orders.
pub survey-Surveyed : (draws : ℕ → Draw) (n : ℕ) → n < 2 ^ 64 → Surveyed draws n
survey-Surveyed draws n small =
    let (a, c) = survey-Agrees draws n 0 start no_statistics (omega arith) no_statistics-Agrees in
    let zero_n : 0 + n ≡ n = omega arith in
    let (g, s) = survey draws n 0 start no_statistics in
    let rows = sum_below-live g.live a.levels in
    let bids =
      sum_below-same (s.resting_model true) (λ p. total (at true p) g.live) 128 (a.resting true) in
    let asks =
      sum_below-same (s.resting_model false) (λ p. total (at false p) g.live) 128
        (a.resting false) in
    let sums = model_totals-sum_below s.resting_model 128 (omega (arith, a.lives, a.requests)) in
    (subst (λ k. Agrees k g s) zero_n a, omega (arith, c), omega arith)
