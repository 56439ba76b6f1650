-- ===== src/Tests/Report.antt =====
-- The report on 103 durations, of which the last three are sorted and read.
use espacekilly.Base.{
  ℕ, ◌*◌, ◌/◌, ◌≡◌, refl, inl, List, [], ◌∷◌, ◌++◌, arith, drop, replicate, ltb, if◌then◌else◌,
}
use native.Mathlib.Nat.{mul-le-mul_right}
use mathlib.Core.List.{Permᴰ}
use espacekilly.Matcher.Engine.{Duration}
use espacekilly.Matcher.Report.Percentiles.{cold, printed, IsPortion, IsRanked, printed-IsRanked}

abbrev lasting : ℕ → Duration
lasting n = record { time = n; fills = 0; id = 0 }

abbrev place_in : Duration → List Duration → List Duration
place_in d [] = d ∷ []
place_in d (e ∷ es) = let rest = place_in d es in if ltb e.time d.time then e ∷ rest else d ∷ e ∷ es

abbrev by_time : List Duration → List Duration
by_time [] = []
by_time (d ∷ ds) = place_in d (by_time ds)

abbrev hundred_thousandths : ℕ → ℕ → ℕ
hundred_thousandths c n = c * n / 100_000

abbrev samples : List Duration
samples = replicate 100 (lasting 7) ++ lasting 30 ∷ lasting 10 ∷ lasting 20 ∷ []

samples-by_time : by_time (drop cold samples) ≡ lasting 10 ∷ lasting 20 ∷ lasting 30 ∷ []
samples-by_time = refl

samples-Permᴰ : Permᴰ (drop cold samples) (by_time (drop cold samples))
samples-Permᴰ = Permᴰ.trans (Permᴰ.swap refl refl) (Permᴰ.cons refl (Permᴰ.swap refl refl))

hundred_thousandths-IsPortion : IsPortion hundred_thousandths
hundred_thousandths-IsPortion = record {
  none_of = λ n. omega arith;
  all_of = λ n h. omega arith;
  more = λ c e n h. (let k = mul-le-mul_right n h in omega (arith, k));
  before_last = λ n h k. omega arith;
}

printed-IsRanked_example :
    IsRanked
      (printed by_time hundred_thousandths samples)
      hundred_thousandths
      (by_time (drop cold samples))
printed-IsRanked_example =
    printed-IsRanked by_time hundred_thousandths samples hundred_thousandths-IsPortion
      (inl (omega arith), (inl (omega arith), tt)) samples-Permᴰ (omega arith) (omega arith)
