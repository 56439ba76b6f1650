-- ===== src/Plots/Histogram.antt =====
-- `BucketByLatency`: the buckets count the samples, and the largest count is known.
use native.Mathlib.Decide.{ℕ_discrete}
use espacekilly.Base.{
  ℕ, Bool, ◌&&◌, leb, ltb, ◌%◌, ◌+◌, ◌^◌, ◌≤◌, ◌<◌, ◌==◌, ◌≡◌, ◌≢◌, refl, ◌∙◌, subst, ◌⊎◌, inl, inr,
  List, [], ◌∷◌, arith, max, length, update, update_self, update_ne, if◌then◌else◌,
}
use espacekilly.Matcher.Engine.{Duration}
use espacekilly.Matcher.OrderBook.{inc}
use espacekilly.Plots.{Buckets, bucket_start, bucket_by_latency}

abbrev pub no_buckets : Buckets
no_buckets = record { counts = λ start. 0; max_count = 0 }

-- A sample is in the bucket of ten nanoseconds from its start on.
pub bucket_start-bounds : (ns : ℕ) → (bucket_start ns ≤ ns) × (ns < bucket_start ns + 10)
bucket_start-bounds ns = (omega arith, omega arith)

-- The bucket that starts at a multiple of ten nanoseconds holds what lies in the ten from there on.
abbrev pub in_bucket : ℕ → ℕ → Bool
in_bucket start ns = start % 10 == 0 && (leb start ns && ltb ns (start + 10))

in_bucket-bucket_start : (start ns : ℕ) → (bucket_start ns == start) ≡ in_bucket start ns
in_bucket-bucket_start start ns = ground arith

-- The number of samples in a bucket.
unfoldable pub samples_in : (Duration → ℕ) → ℕ → List Duration → ℕ
samples_in latency_ns start [] = 0
samples_in latency_ns start (d ∷ ds) =
    (if in_bucket start (latency_ns d) then 1 else 0) + samples_in latency_ns start ds

-- The largest count is the count of a bucket, or there is none.
record IsCounted (b : Buckets) (k : ℕ) : Type 0 where
  below : (start : ℕ) → b.counts start ≤ b.max_count
  attained : (b.max_count ≡ 0) ⊎ ((start : ℕ) × (b.counts start ≡ b.max_count))
  few : b.max_count ≤ k

one_more :
    (b : Buckets) (k at : ℕ)
    → k + 1 < 2 ^ 64
    → IsCounted b k
    → let count = inc (b.counts at) in
      IsCounted
        (record { counts = update b.counts at count; max_count = max b.max_count count })
        (k + 1)
one_more b k at h c =
    let low = c.below at in
    let f = c.few in
    record {
      below = λ start. elim (ℕ_discrete at start) [
        | yes e ↦ rw (← e, update_self b.counts at (inc (b.counts at))) (omega arith)
        | no ne ↦ rw (update_ne b.counts (inc (b.counts at)) ne) (omega (arith, c.below start))
      ];
      attained = elim (ℕ_discrete (b.counts at) b.max_count) [
        | yes e ↦ inr (at, update_self b.counts at (inc (b.counts at)) ∙ omega arith)
        | no ne ↦ kept ne c.attained
      ];
      few = omega arith;
    }
  where
    kept :
        b.counts at ≢ b.max_count
        → (b.max_count ≡ 0) ⊎ ((start : ℕ) × (b.counts start ≡ b.max_count))
        → let count = inc (b.counts at) in
          (max b.max_count count ≡ 0)
          ⊎ ((start : ℕ) × (update b.counts at count start ≡ max b.max_count count))
    kept ne (inl z) = absurd (omega (arith, c.below at))
    kept ne (inr (start, e)) = elim (ℕ_discrete at start) [
      | yes s ↦ absurd (ne (rw s e))
      | no ns ↦
          inr (start, update_ne b.counts (inc (b.counts at)) ns ∙ omega (arith, c.below at, c.few))
    ]

counts_from :
    (latency_ns : Duration → ℕ) (b : Buckets) (k : ℕ) (ds : List Duration)
    → k + length ds < 2 ^ 64
    → IsCounted b k
    → let b' = bucket_by_latency latency_ns b ds in
      IsCounted b' (k + length ds)
      × ((start : ℕ) → b'.counts start ≡ b.counts start + samples_in latency_ns start ds)
unfolding bucket_by_latency samples_in
counts_from latency_ns b k [] h c = (subst (IsCounted b) (omega arith) c, λ start. omega arith)
counts_from latency_ns b k (d ∷ ds) h c =
    let at = bucket_start (latency_ns d) in
    let count = inc (b.counts at) in
    let next : Buckets = record {
      counts = update b.counts at count;
      max_count = max b.max_count count;
    } in
    let (c', each) =
      counts_from latency_ns next (k + 1) ds (omega arith) (one_more b k at (omega arith) c) in
    (
      subst (IsCounted (bucket_by_latency latency_ns b (d ∷ ds))) (omega arith) c',
      λ start.
          let e = each start in
          let low = c.below at in
          let f = c.few in
          let here = in_bucket-bucket_start start (latency_ns d) in rw (← here) (ground arith),
    )

-- What the histograms draw: each bucket counts its samples, no bucket has more than `max_count`,
-- and if there are samples then some bucket has that many.
abbrev pub Bucketed : (Duration → ℕ) → List Duration → Type 0
Bucketed latency_ns ds =
    let b = bucket_by_latency latency_ns no_buckets ds in
    ((start : ℕ) → b.counts start ≡ samples_in latency_ns start ds)
    × ((start : ℕ) → b.counts start ≤ b.max_count)
    × ((b.max_count ≡ 0) ⊎ ((start : ℕ) × (b.counts start ≡ b.max_count)))

-- For fewer than 2^64 samples, BucketByLatency counts at each multiple of ten the samples from there on
-- to the next one, and nothing at another number; no bucket has more than the maximum, and some
-- bucket has that many, unless the maximum is 0.
pub bucket_by_latency-Bucketed :
    (latency_ns : Duration → ℕ) (ds : List Duration) → length ds < 2 ^ 64 → Bucketed latency_ns ds
bucket_by_latency-Bucketed latency_ns ds h =
    let (c, each) =
      counts_from latency_ns no_buckets 0 ds (omega arith)
        (record { below = λ start. omega arith; attained = inl refl; few = omega arith }) in
    (λ start. omega (arith, each start), c.below, c.attained)
