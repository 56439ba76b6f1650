-- ===== src/Plots/Bins.antt =====
-- `WriteLatencyByOrderId`: no sample falls outside the bins, and each falls into one.
use native.Mathlib.Nat.{div-lt_iff_lt-mul, mul-le-mul_left, mul-le-mul}
use native.Mathlib.Decide.{ℕ_discrete}
use espacekilly.Base.{
  update_self, update_ne, ℕ, zero, suc, ◌+◌, ◌-◌, ◌*◌, ◌%◌, ◌^◌, ◌≤◌, ◌<◌, ◌≡◌, refl, sym, ap, ◌∙◌,
  subst, some, List, [], ◌∷◌, arith, min, max, length, update, ltb, true, if◌then◌else◌,
}
use espacekilly.Matcher.Engine.{Duration}
use espacekilly.Matcher.OrderBook.Counting.{total, total-change}
use espacekilly.Plots.{
  Bin, no_bins, bin_count, add_sample, id_range, bin_index, worst_overall, fill_bins, bins_by_id,
}

-- The ids of all samples are between `lo` and `hi`.
abbrev pub IdsIn : ℕ → ℕ → List Duration → Type 0
IdsIn lo hi [] = Unit {0}
IdsIn lo hi (d ∷ ds) = (lo ≤ d.id) × (d.id ≤ hi) × IdsIn lo hi ds

-- Every sample fits its type: `uint32_t` for ids and for latencies.
abbrev pub Samples : (Duration → ℕ) → List Duration → Type 0
Samples latency_ns [] = Unit {0}
Samples latency_ns (d ∷ ds) = (d.id < 2 ^ 32) × (latency_ns d < 2 ^ 32) × Samples latency_ns ds

id_range-bounds :
    (latency_ns : Duration → ℕ) (lo hi : ℕ) (ds : List Duration)
    → hi < 2 ^ 32
    → Samples latency_ns ds
    → let (a, b) = id_range lo hi ds in (a ≤ lo) × (hi ≤ b) × (b < 2 ^ 32) × IdsIn a b ds
unfolding id_range
id_range-bounds latency_ns lo hi [] h fits = (omega arith, omega arith, h, tt)
id_range-bounds latency_ns lo hi (d ∷ ds) h fits =
    let (p, q, r, s) =
      id_range-bounds latency_ns (min lo d.id) (max hi d.id) ds (omega (arith, fits.0)) fits.2 in
    (omega arith, omega arith, r, (omega arith, omega arith, s))

-- An id of the range has a bin.
bin_index-lt :
    (id lo hi : ℕ) → lo ≤ id → id ≤ hi → hi < 2 ^ 32 → bin_index id lo (hi - lo + 1) < 240
bin_index-lt id lo hi a b c = (div-lt_iff_lt-mul {k = hi - lo + 1} (omega arith)).1 (omega arith)

-- The largest latency of the samples, or `w`.
unfoldable pub worst_sample : (Duration → ℕ) → ℕ → List Duration → ℕ
worst_sample latency_ns w [] = w
worst_sample latency_ns w (d ∷ ds) = worst_sample latency_ns (max w (latency_ns d)) ds

-- One bin is worse than before.
worst_overall-update :
    (bins : ℕ → Bin) (b : Bin) (idx ns k : ℕ)
    → b.worst ≡ max (bins idx).worst ns
    → worst_overall (update bins idx b) k
      ≡ (if ltb idx k then max (worst_overall bins k) ns else worst_overall bins k)
unfolding worst_overall
worst_overall-update bins b idx ns zero e = ground arith
worst_overall-update bins b idx ns (suc k) e =
    let ih = worst_overall-update bins b idx ns k e in
    elim (ℕ_discrete idx k) [
      | yes here ↦
          let new =
            ap (λ x. x.worst) (ap (update bins idx b) (sym here) ∙ update_self bins idx b) in
          let old = ap (λ i. (bins i).worst) here in ground (arith, new, old, ih, e)
      | no ne ↦ let same = ap (λ x. x.worst) (update_ne bins b ne) in ground (arith, same, ih)
    ]

-- The latencies of the samples, added up.
unfoldable pub all_latencies : (Duration → ℕ) → List Duration → ℕ
all_latencies latency_ns [] = 0
all_latencies latency_ns (d ∷ ds) = latency_ns d + all_latencies latency_ns ds

-- `k` samples are in the bins, of `t` nanoseconds in all.
record IsBinned (bins : ℕ → Bin) (k t : ℕ) : Type 0 where
  sums : total (λ i. (bins i).sum) 240 ≡ t
  each : (i : ℕ) → (bins i).n ≤ k
  count : total (λ i. (bins i).n) 240 ≡ k
  mean : (i : ℕ) → (bins i).sum ≤ (bins i).n * (bins i).worst
  small : (i : ℕ) → (bins i).worst < 2 ^ 32

-- A sum of few latencies does not wrap.
pub sum_bound : (n w : ℕ) → n < 2 ^ 32 → w < 2 ^ 32 → n * w < 2 ^ 64 - 2 ^ 32
sum_bound n w h k =
    let m =
      mul-le-mul {n₁ = n} {m₁ = w} {n₂ = 2 ^ 32 - 1} {m₂ = 2 ^ 32 - 1} (omega arith)
        (omega arith) in
    omega (arith, m)

add_sample-mean :
    (ns : ℕ) (b : Bin)
    → ns < 2 ^ 32
    → b.n + 1 < 2 ^ 32
    → b.worst < 2 ^ 32
    → b.sum ≤ b.n * b.worst
    → (add_sample ns b).sum ≤ (add_sample ns b).n * (add_sample ns b).worst
add_sample-mean ns b h k w m =
    let bound = sum_bound b.n b.worst (omega arith) w in
    let more = mul-le-mul_left {m = b.worst} {n = max b.worst ns} b.n (omega arith) in
    let n1 : (b.n + 1) % 2 ^ 64 ≡ b.n + 1 = omega arith in rw n1 (grind (arith, bound, more))

add_sample-IsBinned :
    (bins : ℕ → Bin) (k t idx ns : ℕ)
    → idx < 240
    → ns < 2 ^ 32
    → k + 1 < 2 ^ 32
    → IsBinned bins k t
    → IsBinned (update bins idx (add_sample ns (bins idx))) (k + 1) (t + ns)
add_sample-IsBinned bins k t idx ns hi hns hk b =
    let after = update bins idx (add_sample ns (bins idx)) in
    let self : after idx ≡ add_sample ns (bins idx) = update_self bins idx _ in
    let few = b.each idx in
    let change =
      total-change (λ i. (after i).n) (λ i. (bins i).n) idx 240 hi
        (λ m _ ne. ap (λ x. x.n) (update_ne bins _ ne)) in
    let change_sum =
      total-change (λ i. (after i).sum) (λ i. (bins i).sum) idx 240 hi
        (λ m _ ne. ap (λ x. x.sum) (update_ne bins _ ne)) in
    let bound = sum_bound (bins idx).n (bins idx).worst (omega arith) (b.small idx) in
    let mean = b.mean idx in
    let added : (after idx).sum ≡ (bins idx).sum + ns =
      ap (λ x. x.sum) self ∙ omega (arith, mean, bound) in
    record {
      sums = omega (arith, change_sum, b.sums, added);
      each = λ i. elim (ℕ_discrete idx i) [
        | yes e ↦ rw (← e, self) (omega arith)
        | no ne ↦ rw (update_ne bins (add_sample ns (bins idx)) ne) (omega (arith, b.each i))
      ];
      count = omega (arith, change, b.count, ap (λ x. x.n) self);
      mean = λ i. elim (ℕ_discrete idx i) [
        | yes e ↦
            rw (← e, self)
              (add_sample-mean ns (bins idx) hns (omega arith) (b.small idx) (b.mean idx))
        | no ne ↦ rw (update_ne bins (add_sample ns (bins idx)) ne) (b.mean i)
      ];
      small = λ i. elim (ℕ_discrete idx i) [
        | yes e ↦ rw (← e, self) (omega (arith, b.small idx))
        | no ne ↦ rw (update_ne bins (add_sample ns (bins idx)) ne) (b.small i)
      ];
    }

same_IsBinned :
    {bins : ℕ → Bin} {k k' t t' : ℕ} → k ≡ k' → t ≡ t' → IsBinned bins k t → IsBinned bins k' t'
same_IsBinned {bins = bins} {k = k} {t' = t'} e f b =
    subst (λ n. IsBinned bins n t') e (subst (IsBinned bins k) f b)

fill_bins-IsBinned :
    (latency_ns : Duration → ℕ) (lo hi : ℕ) (bins : ℕ → Bin) (k t : ℕ) (ds : List Duration)
    → hi < 2 ^ 32
    → k + length ds < 2 ^ 32
    → Samples latency_ns ds
    → IdsIn lo hi ds
    → IsBinned bins k t
    → (bins' : ℕ → Bin) × (fill_bins latency_ns lo (hi - lo + 1) bins ds ≡ some bins')
      × IsBinned bins' (k + length ds) (t + all_latencies latency_ns ds)
      × (worst_overall bins' 240 ≡ worst_sample latency_ns (worst_overall bins 240) ds)
unfolding fill_bins worst_sample all_latencies
fill_bins-IsBinned latency_ns lo hi bins k t [] h few fits ids b =
    (bins, refl, same_IsBinned (omega arith) (omega arith) b, refl)
fill_bins-IsBinned latency_ns lo hi bins k t (d ∷ ds) h few fits ids b =
    let idx = bin_index d.id lo (hi - lo + 1) in
    let inside = bin_index-lt d.id lo hi ids.0 ids.1 h in
    let (bins', run, b', worst) =
      fill_bins-IsBinned latency_ns lo hi (update bins idx (add_sample (latency_ns d) (bins idx)))
        (k + 1) (t + latency_ns d) ds h (omega arith) fits.2 ids.2
        (add_sample-IsBinned bins k t idx (latency_ns d) inside fits.1 (omega arith) b) in
    let test : ltb idx 240 ≡ true = ground arith in
    let worse =
      worst_overall-update bins (add_sample (latency_ns d) (bins idx)) idx (latency_ns d) 240
        refl in
    (
      bins',
      rw test run,
      same_IsBinned (omega arith) (omega arith) b',
      worst ∙ ap (λ w. worst_sample latency_ns w ds) (ground (arith, worse, test)),
    )

worst_none : (k : ℕ) → worst_overall no_bins k ≡ 0
unfolding worst_overall
worst_none zero = refl
worst_none (suc k) = omega (arith, worst_none k)

no_bins-IsBinned : IsBinned no_bins 0 0
unfolding total
no_bins-IsBinned = record {
  sums = empty 240;
  each = λ i. omega arith;
  count = empty 240;
  mean = λ i. omega arith;
  small = λ i. omega arith;
}
  where
    empty : (k : ℕ) → total (λ i. 0) k ≡ 0
    empty zero = refl
    empty (suc k) = omega (arith, empty k)

-- The bins for the samples `d ∷ ds`: all samples and all their latencies are in them, and the mean of a bin is at most its
-- worst; the worst of all bins is the worst of all samples.
abbrev pub BinnedById : (Duration → ℕ) → Duration → List Duration → Type 0
BinnedById latency_ns d ds =
    (bins : ℕ → Bin) × (bins_by_id latency_ns d ds ≡ some bins)
    × (total (λ i. (bins i).n) bin_count ≡ length (d ∷ ds))
    × (total (λ i. (bins i).sum) bin_count ≡ all_latencies latency_ns (d ∷ ds))
    × ((i : ℕ) → (bins i).sum ≤ (bins i).n * (bins i).worst)
    × (worst_overall bins bin_count ≡ worst_sample latency_ns 0 (d ∷ ds))

-- For fewer than 2^32 samples whose ids and latencies fit their types, every sample falls into one
-- of the 240 bins: no index is outside the vector, the bins count each sample once, their
-- sums add up to the latencies of all samples, so that none wraps, in each bin the sum of the latencies is at most their number times the worst one, and the
-- worst of the bins is the worst latency of all samples.
pub bins_by_id-BinnedById :
    (latency_ns : Duration → ℕ) (d : Duration) (ds : List Duration)
    → length (d ∷ ds) < 2 ^ 32
    → Samples latency_ns (d ∷ ds)
    → BinnedById latency_ns d ds
unfolding bins_by_id
bins_by_id-BinnedById latency_ns d ds few fits =
    let (lo, hi) = id_range d.id d.id (d ∷ ds) in
    let (p, q, r, ids) = id_range-bounds latency_ns d.id d.id (d ∷ ds) fits.0 fits in
    let span : (hi + (2 ^ 64 - lo) + 1) % 2 ^ 64 ≡ hi - lo + 1 = omega (arith, p, q, r) in
    let (bins, run, b, worst) =
      fill_bins-IsBinned latency_ns lo hi no_bins 0 0 (d ∷ ds) r (omega arith) fits ids
        no_bins-IsBinned in
    (
      bins,
      ap (λ w. fill_bins latency_ns lo w no_bins (d ∷ ds)) span ∙ run,
      omega (arith, b.count),
      omega (arith, b.sums),
      b.mean,
      worst ∙ ap (λ w. worst_sample latency_ns w (d ∷ ds)) (worst_none 240),
    )
