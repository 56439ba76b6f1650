-- ===== src/Plots.antt =====
-- src/matcher/src/plots/plots.cpp: how the durations are put into buckets, bins and groups; the
-- children are the axes and the grid, and the proofs. What DurationNs makes of a duration, as
-- `uint32_t`, is floating point arithmetic and an argument.
pub mod Double
pub mod Ticks
pub mod Octaves
pub mod Canvas
pub mod Histogram
pub mod Bins
pub mod Fills
use espacekilly.Base.{
  ℕ, zero, suc, ◌+◌, ◌-◌, ◌*◌, ◌/◌, ◌%◌, ◌^◌, Option, none, some, List, [], ◌∷◌, if◌then◌else◌, ltb,
  min, max, update,
}
use espacekilly.Matcher.Engine.{Duration}
use espacekilly.Matcher.OrderBook.{inc}

abbrev pub k_bucket_ns : ℕ
k_bucket_ns = 10

-- A map that value-initialises what is looked up: 0 for a bucket with no samples.
pub record Buckets : Type 0 where
  pub counts : ℕ → ℕ
  pub max_count : ℕ

abbrev pub bucket_start : ℕ → ℕ
bucket_start ns = ns / k_bucket_ns * k_bucket_ns

abbrev pub bin_count : ℕ
bin_count = 240

pub record Bin : Type 0 where
  pub sum : ℕ
  pub n : ℕ
  pub worst : ℕ

abbrev pub no_bins : ℕ → Bin
no_bins i = record { sum = 0; n = 0; worst = 0 }

abbrev pub add_sample : ℕ → Bin → Bin
add_sample ns b = record { sum = (b.sum + ns) % 2 ^ 64; n = inc b.n; worst = max b.worst ns }

-- `idMin` and `idMax`.
unfoldable pub id_range : ℕ → ℕ → List Duration → ℕ × ℕ
id_range id_min id_max [] = (id_min, id_max)
id_range id_min id_max (d ∷ ds) = id_range (min id_min d.id) (max id_max d.id) ds

abbrev pub bin_index : ℕ → ℕ → ℕ → ℕ
bin_index id id_min span = (id + (2 ^ 64 - id_min)) % 2 ^ 64 * bin_count % 2 ^ 64 / span

-- The largest of the first `k` bins' worst latencies.
unfoldable pub worst_overall : (ℕ → Bin) → ℕ → ℕ
worst_overall bins zero = 0
worst_overall bins (suc k) = max (worst_overall bins k) (bins k).worst

-- `Stats` of one number of fills.
pub record Stats : Type 0 where
  pub sum : ℕ
  pub n : ℕ
  pub lo : ℕ
  pub hi : ℕ

abbrev pub no_samples : Stats
no_samples = record { sum = 0; n = 0; lo = 2 ^ 32 - 1; hi = 0 }

abbrev pub add_to_stats : ℕ → Stats → Stats
add_to_stats ns st = record {
  sum = (st.sum + ns) % 2 ^ 64;
  n = inc st.n;
  lo = min st.lo ns;
  hi = max st.hi ns;
}

module _ (latency_ns : Duration → ℕ) where
  unfoldable pub bucket_by_latency : Buckets → List Duration → Buckets
  bucket_by_latency b [] = b
  bucket_by_latency b (d ∷ ds) =
      let start = bucket_start (latency_ns d) in
      let count = inc (b.counts start) in
      bucket_by_latency
        (record { counts = update b.counts start count; max_count = max b.max_count count }) ds

  -- The loop over the samples; an index outside the vector is undefined.
  unfoldable pub fill_bins : ℕ → ℕ → (ℕ → Bin) → List Duration → Option (ℕ → Bin)
  fill_bins id_min span bins [] = some bins
  fill_bins id_min span bins (d ∷ ds) =
      let idx = bin_index d.id id_min span in
      let rest =
        fill_bins id_min span (update bins idx (add_sample (latency_ns d) (bins idx))) ds in
      if ltb idx bin_count then rest else none

  -- The bins of `WriteLatencyByOrderId`, for the samples `d ∷ ds`.
  unfoldable pub bins_by_id : Duration → List Duration → Option (ℕ → Bin)
  bins_by_id d ds =
      let (id_min, id_max) = id_range d.id d.id (d ∷ ds) in
      fill_bins id_min ((id_max + (2 ^ 64 - id_min) + 1) % 2 ^ 64) no_bins (d ∷ ds)

  -- `byFills` and `worstOverall` of `WriteLatencyByFills`.
  unfoldable pub group_by_fills : (ℕ → Stats) → ℕ → List Duration → (ℕ → Stats) × ℕ
  group_by_fills by_fills worst [] = (by_fills, worst)
  group_by_fills by_fills worst (d ∷ ds) =
      let ns = latency_ns d in
      group_by_fills (update by_fills d.fills (add_to_stats ns (by_fills d.fills))) (max worst ns)
        ds
