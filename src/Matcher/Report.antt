-- ===== src/Matcher/Report.antt =====
-- What startMatch of matcher.cpp prints once all requests are matched: the counters, the
-- percentiles of the durations, and the slices of them that are plotted.
pub mod Counts
pub mod Kinds
pub mod Percentiles
pub mod Tally
use espacekilly.Base.{ℕ, ◌+◌, ◌-◌, ◌%◌, ◌^◌}
use espacekilly.Matcher.OrderBook.{Counters}

-- `a - b` on `size_t`.
abbrev pub minus : ℕ → ℕ → ℕ
minus a b = (a + (2 ^ 64 - b)) % 2 ^ 64

-- The counters as they are printed.
pub record Summary : Type 0 where
  pub executed_limits : ℕ
  pub resting_crosses : ℕ
  pub fully_filled_crosses : ℕ
  pub resting : ℕ
  pub no_ops : ℕ
  pub executed_markets : ℕ
  pub executed_cancels : ℕ
  pub cancels_not_found : ℕ

unfoldable pub summary : Counters → Summary
summary c = record {
  executed_limits = c.limit_orders;
  resting_crosses = minus c.cross_order c.fully_filled_cross_order;
  fully_filled_crosses = c.fully_filled_cross_order;
  resting = c.resting_order;
  no_ops = c.no_ops;
  executed_markets = minus c.market_orders c.cross_order;
  executed_cancels = c.cancels;
  cancels_not_found = c.cancels_not_found;
}
