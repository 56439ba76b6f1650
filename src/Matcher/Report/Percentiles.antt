-- ===== src/Matcher/Report/Percentiles.antt =====
-- The percentiles of the durations that startMatch prints, and the slices that it plots. Sorting is
-- std::ranges::sort, and `portion c n` is the product of c hundred-thousandths and n as `double`, cut
-- to `size_t`: both are arguments.
use mathlib.Core.List.{Permᴰ}
use espacekilly.Base.{
  ℕ, zero, suc, ◌-◌, ◌^◌, ◌≤◌, ◌<◌, ◌≡◌, refl, ap, ◌∙◌, ◌⊎◌, inl, inr, Option, some, List, [], ◌∷◌,
  arith, true, none, leb, ◌+◌, if◌then◌else◌, length, drop, take, get_elem?, length-drop,
}
use espacekilly.Matcher.Engine.{Duration}
use espacekilly.Matcher.Report.{minus}

-- The first elements, which are removed.
abbrev pub cold : ℕ
cold = 100

-- `operator<=>` of Duration: the cycles, then the fills, then the id.
abbrev pub Before : Duration → Duration → Type 0
Before d e =
    (d.time < e.time)
    ⊎ ((d.time ≡ e.time) × ((d.fills < e.fills) ⊎ ((d.fills ≡ e.fills) × (d.id ≤ e.id))))

-- No element is before the one in front of it.
abbrev pub Sorted : List Duration → Type 0
Sorted [] = Unit {0}
Sorted (d ∷ []) = Unit {0}
Sorted (d ∷ e ∷ ds) = Before d e × Sorted (e ∷ ds)

-- What is printed, and what is plotted.
pub record Printed : Type 0 where
  pub p99_999 : Option Duration
  pub p99_99 : Option Duration
  pub p99_9 : Option Duration
  pub p99 : Option Duration
  pub p95 : Option Duration
  pub p50 : Option Duration
  pub last : Option Duration
  pub p0_to_p100 : Option (List Duration)
  pub p99_to_p100 : Option (List Duration)
  pub p99_99_to_p100 : Option (List Duration)

module _ (sort : List Duration → List Duration) (portion : ℕ → ℕ → ℕ) where
  -- `slice` of WriteHistogram; a span that ends behind the vector is `none`.
  unfoldable pub slice : ℕ → ℕ → List Duration → Option (List Duration)
  slice start end ds =
      let first = portion start (length ds) in
      let last = portion end (length ds) in
      let count = minus last first in
      if leb (first + count) (length ds) then some (take count (drop first ds)) else none

  abbrev pub at_percentile : ℕ → List Duration → Option Duration
  at_percentile c ds = get_elem? ds (portion c (length ds))

  unfoldable pub printed : List Duration → Printed
  printed durations =
      let ds = sort (drop cold durations) in
      record {
        p99_999 = at_percentile 99_999 ds;
        p99_99 = at_percentile 99_990 ds;
        p99_9 = at_percentile 99_900 ds;
        p99 = at_percentile 99_000 ds;
        p95 = at_percentile 95_000 ds;
        p50 = at_percentile 50_000 ds;
        last = get_elem? ds (length ds - 1);
        p0_to_p100 = slice 0 100_000 ds;
        p99_to_p100 = slice 95_000 100_000 ds;
        p99_99_to_p100 = slice 99_990 100_000 ds;
      }

-- What is used of the products: none and all of the samples, more of them for a higher percentile,
-- and not all of them below the last one.
pub record IsPortion (portion : ℕ → ℕ → ℕ) : Type 0 where
  pub none_of : (n : ℕ) → portion 0 n ≡ 0
  pub all_of : (n : ℕ) → n < 2 ^ 53 → portion 100_000 n ≡ n
  pub more : (c e n : ℕ) → c ≤ e → portion c n ≤ portion e n
  pub before_last : (n : ℕ) → 0 < n → n < 2 ^ 53 → portion 99_999 n < n

get_elem?-some :
    (ds : List Duration) (i : ℕ) → i < length ds → (d : Duration) × (get_elem? ds i ≡ some d)
get_elem?-some [] i h = absurd (omega arith)
get_elem?-some (d ∷ ds) zero h = (d, refl)
get_elem?-some (d ∷ ds) (suc i) h = get_elem?-some ds i (omega arith)

Before-time : (d e : Duration) → Before d e → d.time ≤ e.time
Before-time d e (inl h) = omega arith
Before-time d e (inr (h, _)) = omega (arith, h)

time_of : (d e : Duration) → some d ≡ some e → d.time ≡ e.time
time_of d e h = cc

-- The first of sorted samples is the fastest.
first_fastest :
    (d : Duration) (ds : List Duration) (j : ℕ) (e : Duration)
    → Sorted (d ∷ ds)
    → get_elem? (d ∷ ds) j ≡ some e
    → d.time ≤ e.time
first_fastest d ds zero e s g = omega (arith, time_of d e g)
first_fastest d [] (suc j) e s g = cc
first_fastest d (x ∷ ds) (suc j) e s g =
    let h = Before-time d x s.0 in let k = first_fastest x ds j e s.1 g in omega (arith, h, k)

Sorted-tail : (d : Duration) (ds : List Duration) → Sorted (d ∷ ds) → Sorted ds
Sorted-tail d [] s = tt
Sorted-tail d (x ∷ ds) s = s.1

get_elem?-Sorted :
    (ds : List Duration) (i j : ℕ) (d e : Duration)
    → Sorted ds
    → i ≤ j
    → get_elem? ds i ≡ some d
    → get_elem? ds j ≡ some e
    → d.time ≤ e.time
get_elem?-Sorted [] i j d e s h p q = cc
get_elem?-Sorted (x ∷ ds) zero j d e s h p q =
    let k = first_fastest x ds j e s q in omega (arith, k, time_of x d p)
get_elem?-Sorted (x ∷ ds) (suc i) zero d e s h p q = absurd (omega arith)
get_elem?-Sorted (x ∷ ds) (suc i) (suc j) d e s h p q =
    get_elem?-Sorted ds i j d e (Sorted-tail x ds s) (omega arith) p q

Permᴰ-length : {xs ys : List Duration} → Permᴰ xs ys → length xs ≡ length ys
Permᴰ-length Permᴰ.nil = refl
Permᴰ-length (Permᴰ.cons e p) = ap suc (Permᴰ-length p)
Permᴰ-length (Permᴰ.swap e f) = refl
Permᴰ-length (Permᴰ.trans p q) = Permᴰ-length p ∙ Permᴰ-length q

take-all : (n : ℕ) (ds : List Duration) → length ds ≤ n → take n ds ≡ ds
take-all zero [] h = refl
take-all zero (d ∷ ds) h = absurd (omega arith)
take-all (suc n) [] h = refl
take-all (suc n) (d ∷ ds) h = ap (λ r. d ∷ r) (take-all n ds (omega arith))

-- What is printed for a percentile is the sample `d` with that many hundred-thousandths of the
-- samples in front of it.
abbrev pub Prints : (ℕ → ℕ → ℕ) → List Duration → ℕ → Option Duration → Duration → Type 0
Prints portion ds c p d =
    (p ≡ some d)
    × (portion c (length ds) < length ds)
    × (get_elem? ds (portion c (length ds)) ≡ some d)

-- The percentiles are samples, and in order; the slices end with the slowest sample.
abbrev pub IsRanked : Printed → (ℕ → ℕ → ℕ) → List Duration → Type 0
IsRanked p portion ds =
    (a : Duration) × (b : Duration) × (c : Duration) × (d : Duration) × (e : Duration)
    × (f : Duration) × (g : Duration) × (Prints portion ds 50_000 p.p50 a × (a.time ≤ b.time))
    × (Prints portion ds 95_000 p.p95 b × (b.time ≤ c.time))
    × (Prints portion ds 99_000 p.p99 c × (c.time ≤ d.time))
    × (Prints portion ds 99_900 p.p99_9 d × (d.time ≤ e.time))
    × (Prints portion ds 99_990 p.p99_99 e × (e.time ≤ f.time))
    × (Prints portion ds 99_999 p.p99_999 f × (f.time ≤ g.time))
    × ((p.last ≡ some g) × (get_elem? ds (length ds - 1) ≡ some g))
    × (p.p0_to_p100 ≡ some ds)
    × (p.p99_to_p100 ≡ some (drop (portion 95_000 (length ds)) ds))
    × (p.p99_99_to_p100 ≡ some (drop (portion 99_990 (length ds)) ds))

module _ (sort : List Duration → List Duration) (portion : ℕ → ℕ → ℕ) (part : IsPortion portion)
    (ds : List Duration) (small : length ds < 2 ^ 53) where
  slice-tail :
      (c : ℕ)
      → c ≤ 100_000
      → slice sort portion c 100_000 ds ≡ some (drop (portion c (length ds)) ds)
  unfolding slice
  slice-tail c h =
      let k = part.more c 100_000 (length ds) h in
      let all = part.all_of (length ds) small in
      let rest = length-drop (portion c (length ds)) ds in
      let count : minus (portion 100_000 (length ds)) (portion c (length ds))
          ≡ length ds - portion c (length ds) =
        omega (arith, k, all) in
      let fits : leb (portion c (length ds) + (length ds - portion c (length ds))) (length ds)
          ≡ true =
        ground (arith, k, all) in
      rw (count, fits) (ap some (take-all _ _ (omega (arith, rest))))

  -- The sample at a percentile below the last one.
  at-some :
      (c : ℕ)
      → 0 < length ds
      → c ≤ 99_999
      → (d : Duration) × Prints portion ds c (at_percentile sort portion c ds) d
  at-some c some_left h =
      let k = part.more c 99_999 (length ds) h in
      let l = part.before_last (length ds) some_left small in
      let inside : portion c (length ds) < length ds = omega (arith, k, l) in
      let (d, e) = get_elem?-some ds (portion c (length ds)) inside in (d, (e, inside, e))

  -- Two percentiles are in order.
  at-order :
      (c e : ℕ) (d f : Duration)
      → Sorted ds
      → c ≤ e
      → at_percentile sort portion c ds ≡ some d
      → at_percentile sort portion e ds ≡ some f
      → d.time ≤ f.time
  at-order c e d f s h p q =
      get_elem?-Sorted ds (portion c (length ds)) (portion e (length ds)) d f s
        (part.more c e (length ds) h) p q

-- For more than 100 durations and fewer than 2^53, where sorting puts those behind the first 100
-- into ascending order: each percentile that startMatch prints is the sample at its index, which
-- is inside the vector, the percentiles and the last sample are in ascending order of their
-- cycles, and the three slices that are plotted are all samples, and those from the index of
-- the 95th and the 99.99th percentile on; in no slice is an index outside the vector.
pub printed-IsRanked :
    (sort : List Duration → List Duration) (portion : ℕ → ℕ → ℕ) (durations : List Duration)
    → IsPortion portion
    → Sorted (sort (drop cold durations))
    → Permᴰ (drop cold durations) (sort (drop cold durations))
    → cold < length durations
    → length durations < 2 ^ 53
    → IsRanked (printed sort portion durations) portion (sort (drop cold durations))
unfolding printed
printed-IsRanked sort portion durations part sorted perm enough few =
    let ds = sort (drop cold durations) in
    let dropped = length-drop cold durations in
    let same = Permᴰ-length perm in
    let some_left : 0 < length ds = omega (arith, dropped, same) in
    let small : length ds < 2 ^ 53 = omega (arith, dropped, same) in
    let at = at-some sort portion part ds small in
    let order = at-order sort portion part ds small in
    let tail = slice-tail sort portion part ds small in
    let (a, pa) = at 50_000 some_left (omega arith) in
    let (b, pb) = at 95_000 some_left (omega arith) in
    let (c, pc) = at 99_000 some_left (omega arith) in
    let (d, pd) = at 99_900 some_left (omega arith) in
    let (e, pe) = at 99_990 some_left (omega arith) in
    let (f, pf) = at 99_999 some_left (omega arith) in
    let (g, pg) = get_elem?-some ds (length ds - 1) (omega arith) in
    let k = part.before_last (length ds) some_left small in
    (
      a,
      b,
      c,
      d,
      e,
      f,
      g,
      (pa, order 50_000 95_000 a b sorted (omega arith) pa.0 pb.0),
      (pb, order 95_000 99_000 b c sorted (omega arith) pb.0 pc.0),
      (pc, order 99_000 99_900 c d sorted (omega arith) pc.0 pd.0),
      (pd, order 99_900 99_990 d e sorted (omega arith) pd.0 pe.0),
      (pe, order 99_990 99_999 e f sorted (omega arith) pe.0 pf.0),
      (
        pf,
        get_elem?-Sorted ds (portion 99_999 (length ds)) (length ds - 1) f g sorted (omega arith)
            pf.0 pg,
      ),
      (pg, pg),
      tail 0 (omega arith) ∙ ap (λ n. some (drop n ds)) (part.none_of (length ds)),
      tail 95_000 (omega arith),
      tail 99_990 (omega arith),
    )
