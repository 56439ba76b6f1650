-- ===== src/Plots/Fills.antt =====
-- `WriteLatencyByFills`: the groups by number of fills.
use native.Mathlib.Decide.{ℕ_discrete}
use native.Mathlib.Nat.{mul-le-mul_left}
use espacekilly.Base.{
  ℕ, ◌-◌, ◌⊎◌, inl, inr, ◌+◌, ◌*◌, ◌%◌, ◌^◌, ◌≤◌, ◌<◌, ◌==◌, ◌≡◌, refl, sym, ap, ◌∙◌, subst, List,
  [], ◌∷◌, arith, min, max, length, update, update_self, update_ne, if◌then◌else◌,
}
use espacekilly.Matcher.Engine.{Duration}
use espacekilly.Plots.{Stats, no_samples, add_to_stats, group_by_fills}
use espacekilly.Plots.Bins.{Samples, sum_bound, worst_sample}

-- The number of samples with so many fills.
unfoldable pub samples_with : ℕ → List Duration → ℕ
samples_with fills [] = 0
samples_with fills (d ∷ ds) = (if d.fills == fills then 1 else 0) + samples_with fills ds

-- Their latencies, added up.
unfoldable pub latencies_with : (Duration → ℕ) → ℕ → List Duration → ℕ
latencies_with latency_ns fills [] = 0
latencies_with latency_ns fills (d ∷ ds) =
    (if d.fills == fills then latency_ns d else 0) + latencies_with latency_ns fills ds

-- A sample with so many fills took `ns` nanoseconds.
abbrev pub Takes : (Duration → ℕ) → ℕ → ℕ → List Duration → Type 0
Takes latency_ns fills ns [] = ⊥
Takes latency_ns fills ns (d ∷ ds) =
    ((d.fills ≡ fills) × (latency_ns d ≡ ns)) ⊎ Takes latency_ns fills ns ds

-- Each sample lies between the extremes of its group.
abbrev pub Spread : (Duration → ℕ) → (ℕ → Stats) → List Duration → Type 0
Spread latency_ns groups [] = Unit {0}
Spread latency_ns groups (d ∷ ds) =
    ((groups d.fills).lo ≤ latency_ns d)
    × (latency_ns d ≤ (groups d.fills).hi)
    × Spread latency_ns groups ds

-- A group of at most `k` samples: their mean is between the extremes.
record IsGroup (st : Stats) (k : ℕ) : Type 0 where
  few : st.n ≤ k
  above : st.n * st.lo ≤ st.sum
  below : st.sum ≤ st.n * st.hi
  small : st.hi < 2 ^ 32

add_to_stats-IsGroup :
    (st : Stats) (k ns : ℕ)
    → ns < 2 ^ 32
    → k + 1 < 2 ^ 32
    → IsGroup st k
    → IsGroup (add_to_stats ns st) (k + 1)
add_to_stats-IsGroup st k ns h hk g =
    let few = g.few in
    let above = g.above in
    let below = g.below in
    let bound = sum_bound st.n st.hi (omega arith) g.small in
    let lower = mul-le-mul_left {m = min st.lo ns} {n = st.lo} st.n (omega arith) in
    let upper = mul-le-mul_left {m = st.hi} {n = max st.hi ns} st.n (omega arith) in
    let n1 : (st.n + 1) % 2 ^ 64 ≡ st.n + 1 = omega arith in
    let s1 : (st.sum + ns) % 2 ^ 64 ≡ st.sum + ns = omega arith in
    record {
      few = omega arith;
      above = rw (n1, s1) (grind (arith, lower, above));
      below = rw (n1, s1) (grind (arith, upper, below));
      small = omega (arith, g.small);
    }

-- The extremes only move outwards.
abbrev Wider : (ℕ → Stats) → (ℕ → Stats) → Type 0
Wider before after = (f : ℕ) → ((after f).lo ≤ (before f).lo) × ((before f).hi ≤ (after f).hi)

-- One sample more, with `at` fills.
module _ (k at ns : ℕ) (h : ns < 2 ^ 32) (hk : k + 1 < 2 ^ 32) (groups : ℕ → Stats)
    (g : (f : ℕ) → IsGroup (groups f) k) where
  abbrev next : ℕ → Stats
  next = update groups at (add_to_stats ns (groups at))

  next-IsGroup : (f : ℕ) → IsGroup (next f) (k + 1)
  next-IsGroup f = elim (ℕ_discrete at f) [
    | yes e ↦
        rw (← e, update_self groups at (add_to_stats ns (groups at)))
          (add_to_stats-IsGroup (groups at) k ns h hk (g at))
    | no ne ↦ rw (update_ne groups (add_to_stats ns (groups at)) ne) (record {
      few = omega (arith, (g f).few);
      above = (g f).above;
      below = (g f).below;
      small = (g f).small;
    })
  ]

  next_n : (f : ℕ) → (next f).n ≡ (if at == f then 1 else 0) + (groups f).n
  next_n f = elim (ℕ_discrete at f) [
    | yes e ↦
        let n =
          ap (λ st. st.n) (ap next (sym e) ∙ update_self groups at (add_to_stats ns (groups at))) in
        let m = ap (λ i. (groups i).n) e in let few = (g at).few in ground (arith, n, m, few)
    | no ne ↦
        let n = ap (λ st. st.n) (update_ne groups (add_to_stats ns (groups at)) ne) in
        ground (arith, n)
  ]

  next_sum : (f : ℕ) → (next f).sum ≡ (if at == f then ns else 0) + (groups f).sum
  next_sum f = elim (ℕ_discrete at f) [
    | yes e ↦
        let n =
          ap (λ st. st.sum)
            (ap next (sym e) ∙ update_self groups at (add_to_stats ns (groups at))) in
        let m = ap (λ i. (groups i).sum) e in
        let few = (g at).few in
        let below = (g at).below in
        let bound = sum_bound (groups at).n (groups at).hi (omega arith) (g at).small in
        ground (arith, n, m, below, bound)
    | no ne ↦
        let n = ap (λ st. st.sum) (update_ne groups (add_to_stats ns (groups at)) ne) in
        ground (arith, n)
  ]

  -- An extreme is as before, or it is the new sample.
  next_lo : (f : ℕ) → ((next f).lo ≡ (groups f).lo) ⊎ ((at ≡ f) × (ns ≡ (next f).lo))
  next_lo f = elim (ℕ_discrete at f) [
    | yes e ↦
        let n =
          ap (λ st. st.lo)
            (ap next (sym e) ∙ update_self groups at (add_to_stats ns (groups at))) in
        let m = ap (λ i. (groups i).lo) e in ground (arith, n, m, e)
    | no ne ↦ inl (ap (λ st. st.lo) (update_ne groups (add_to_stats ns (groups at)) ne))
  ]

  next_hi : (f : ℕ) → ((next f).hi ≡ (groups f).hi) ⊎ ((at ≡ f) × (ns ≡ (next f).hi))
  next_hi f = elim (ℕ_discrete at f) [
    | yes e ↦
        let n =
          ap (λ st. st.hi)
            (ap next (sym e) ∙ update_self groups at (add_to_stats ns (groups at))) in
        let m = ap (λ i. (groups i).hi) e in ground (arith, n, m, e)
    | no ne ↦ inl (ap (λ st. st.hi) (update_ne groups (add_to_stats ns (groups at)) ne))
  ]

  next-Wider : Wider groups next
  next-Wider f = elim (ℕ_discrete at f) [
    | yes e ↦
        rw (← e, update_self groups at (add_to_stats ns (groups at))) (omega arith, omega arith)
    | no ne ↦ rw (update_ne groups (add_to_stats ns (groups at)) ne) (omega arith, omega arith)
  ]

module _ (latency_ns : Duration → ℕ) where
  abbrev Grouping : ℕ → (ℕ → Stats) → ℕ → List Duration → Type 0
  Grouping k groups worst ds =
      let (after, w) = group_by_fills latency_ns groups worst ds in
      ((f : ℕ) → IsGroup (after f) (k + length ds))
      × ((f : ℕ) → (after f).n ≡ (groups f).n + samples_with f ds)
      × Spread latency_ns after ds
      × Wider groups after
      × (w ≡ worst_sample latency_ns worst ds)
      × ((f : ℕ) → (after f).sum ≡ (groups f).sum + latencies_with latency_ns f ds)
      × ((f : ℕ) → ((after f).lo ≡ (groups f).lo) ⊎ Takes latency_ns f (after f).lo ds)
      × ((f : ℕ) → ((after f).hi ≡ (groups f).hi) ⊎ Takes latency_ns f (after f).hi ds)

  -- An extreme from the samples behind `d`, or from `d`, or from before it.
  earlier :
      (f : ℕ) (d : Duration) (ds : List Duration) (before next last : ℕ)
      → (last ≡ next) ⊎ Takes latency_ns f last ds
      → (next ≡ before) ⊎ ((d.fills ≡ f) × (latency_ns d ≡ next))
      → (last ≡ before) ⊎ Takes latency_ns f last (d ∷ ds)
  earlier f d ds before next last (inr t) own = inr (inr t)
  earlier f d ds before next last (inl e) (inl e') = inl (e ∙ e')
  earlier f d ds before next last (inl e) (inr (at, ns)) = inr (inl (at, ns ∙ sym e))

  groups_from :
      (k : ℕ) (ds : List Duration) (groups : ℕ → Stats) (worst : ℕ)
      → k + length ds < 2 ^ 32
      → Samples latency_ns ds
      → ((f : ℕ) → IsGroup (groups f) k)
      → Grouping k groups worst ds
  unfolding group_by_fills samples_with worst_sample latencies_with
  groups_from k [] groups worst h fits g = (
    λ f. subst (IsGroup (groups f)) (omega arith) (g f),
    λ f. omega arith,
    tt,
    λ f. (omega arith, omega arith),
    refl,
    λ f. omega arith,
    λ f. inl refl,
    λ f. inl refl,
  )
  groups_from k (d ∷ ds) groups worst h fits g =
      let ns = latency_ns d in
      let n : ℕ → Stats = next k d.fills ns fits.1 (omega arith) groups g in
      let (g', count, spread, wider, w, sums, lows, highs) =
        groups_from (k + 1) ds n (max worst ns) (omega arith) fits.2
          (next-IsGroup k d.fills ns fits.1 (omega arith) groups g) in
      let one = next-Wider k d.fills ns fits.1 (omega arith) groups g in
      let here = update_self groups d.fills (add_to_stats ns (groups d.fills)) in
      let lo = ap (λ st. st.lo) here in
      let hi = ap (λ st. st.hi) here in
      let at = wider d.fills in
      (
        λ f.
            subst (IsGroup ((group_by_fills latency_ns groups worst (d ∷ ds)).0 f)) (omega arith)
              (g' f),
        λ f. omega (arith, count f, next_n k d.fills ns fits.1 (omega arith) groups g f),
        (omega (arith, at, lo), omega (arith, at, hi), spread),
        λ f. (omega (arith, wider f, one f), omega (arith, wider f, one f)),
        w,
        λ f. omega (arith, sums f, next_sum k d.fills ns fits.1 (omega arith) groups g f),
        λ f. earlier f d ds _ _ _ (lows f) (next_lo k d.fills ns fits.1 (omega arith) groups g f),
        λ f. earlier f d ds _ _ _ (highs f) (next_hi k d.fills ns fits.1 (omega arith) groups g f),
      )

-- The groups for all samples: each counts the samples with so many fills and adds up their
-- latencies; its lowest and highest latency enclose its samples and are latencies of samples of it,
-- or what an empty group starts with; the mean is between them, written without a division; the
-- worst latency is that of all samples.
abbrev pub GroupedByFills : (Duration → ℕ) → List Duration → Type 0
GroupedByFills latency_ns ds =
    let (groups, worst) = group_by_fills latency_ns (λ f. no_samples) 0 ds in
    ((f : ℕ) → (groups f).n ≡ samples_with f ds)
    × ((f : ℕ) → (groups f).sum ≡ latencies_with latency_ns f ds)
    × Spread latency_ns groups ds
    × ((f : ℕ) → ((groups f).lo ≡ 2 ^ 32 - 1) ⊎ Takes latency_ns f (groups f).lo ds)
    × ((f : ℕ) → ((groups f).hi ≡ 0) ⊎ Takes latency_ns f (groups f).hi ds)
    × ((f : ℕ)
        → ((groups f).n * (groups f).lo ≤ (groups f).sum)
          × ((groups f).sum ≤ (groups f).n * (groups f).hi))
    × (worst ≡ worst_sample latency_ns 0 ds)

-- For fewer than 2^32 samples whose ids and latencies fit their types, the groups of
-- WriteLatencyByFills count the samples by their fills and add up their latencies, so that no sum
-- wraps; each sample lies between the lowest and the highest latency of its group, which are those
-- of samples of the group, or 2^32 - 1 and 0; so does the mean of each group, and the worst latency
-- is the largest of all samples.
pub group_by_fills-GroupedByFills :
    (latency_ns : Duration → ℕ) (ds : List Duration)
    → length ds < 2 ^ 32
    → Samples latency_ns ds
    → GroupedByFills latency_ns ds
group_by_fills-GroupedByFills latency_ns ds h fits =
    let (g, count, spread, wider, w, sums, lows, highs) =
      groups_from latency_ns 0 ds (λ f. no_samples) 0 (omega arith) fits
        (λ f. record {
          few = omega arith;
          above = omega arith;
          below = omega arith;
          small = omega arith;
        }) in
    (
      λ f. omega (arith, count f),
      λ f. omega (arith, sums f),
      spread,
      lows,
      highs,
      λ f. ((g f).above, (g f).below),
      w,
    )
