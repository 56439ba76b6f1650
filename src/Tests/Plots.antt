-- ===== src/Tests/Plots.antt =====
-- plots.cpp at three samples.
use espacekilly.Base.{ℕ, ◌/◌, ◌≡◌, refl, List, [], ◌∷◌, arith}
use espacekilly.Matcher.Engine.{Duration}
use espacekilly.Plots.{bucket_start, bin_index}
use espacekilly.Plots.Bins.{Samples, BinnedById, bins_by_id-BinnedById}
use espacekilly.Plots.Fills.{GroupedByFills, group_by_fills-GroupedByFills}
use espacekilly.Plots.Histogram.{Bucketed, bucket_by_latency-Bucketed}

abbrev first : Duration
first = record { time = 90; fills = 0; id = 17 }

abbrev others : List Duration
others =
    record { time = 300; fills = 2; id = 4_000_000 } ∷ record { time = 120; fills = 0; id = 3 } ∷ []

-- A third of the cycles.
abbrev third : Duration → ℕ
third d = d.time / 3

bucket_of_47 : bucket_start 47 ≡ 40
bucket_of_47 = refl

last_bin : bin_index 1000 11 990 ≡ 239
last_bin = refl

samples : Samples third (first ∷ others)
samples = (omega arith, omega arith, (omega arith, omega arith, (omega arith, omega arith, tt)))

bucket_by_latency-Bucketed_example : Bucketed third (first ∷ others)
bucket_by_latency-Bucketed_example = bucket_by_latency-Bucketed third (first ∷ others) (omega arith)

bins_by_id-BinnedById_example : BinnedById third first others
bins_by_id-BinnedById_example = bins_by_id-BinnedById third first others (omega arith) samples

group_by_fills-GroupedByFills_example : GroupedByFills third (first ∷ others)
group_by_fills-GroupedByFills_example =
    group_by_fills-GroupedByFills third (first ∷ others) (omega arith) samples
