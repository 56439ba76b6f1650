-- ===== src/Plots/Octaves.antt =====
-- The ticks of the logarithmic axis carry exact powers of two.
use espacekilly.Base.{
  ℕ, zero, suc, ◌+◌, ◌-◌, ◌%◌, ◌^◌, ◌<◌, ◌≡◌, refl, ap, ◌∙◌, true, some, List, [], ◌∷◌, arith, pos,
  leb, length, get_elem?, Bool-cases, inl, inr, ◌-◌,
}
use espacekilly.Plots.Double.{Double}
use espacekilly.Plots.Ticks.{Tick, count, log2_ticks, octave_ticks}

pow-pos : (a : ℕ) → 0 < 2 ^ a
pow-pos zero = omega arith
pow-pos (suc a) = let h = pow-pos a in omega (arith, h)

pow_below : (a d : ℕ) → 2 ^ a < 2 ^ suc (d + a)
pow_below a zero =
    let h = pow-pos a in let e : suc (0 + a) ≡ suc a = omega arith in rw e (omega (arith, h))
pow_below a (suc d) =
    let h = pow_below a d in
    let e : suc (suc d + a) ≡ suc (suc (d + a)) = omega arith in rw e (omega (arith, h))

octave_fits : (a : ℕ) → a < 64 → 2 ^ a % 2 ^ 64 ≡ 2 ^ a
octave_fits a h =
    let k = pow_below a (63 - a) in
    let e : suc (63 - a + a) ≡ 64 = omega arith in
    let l : 2 ^ a < 2 ^ 64 = rw e at k in omega (arith, l)

module _ {D : Type 0} (n : Double D) where
  -- The tick of an octave: at its number, with its power of two.
  abbrev pub power : ℕ → Tick D
  power octave = record {
    position = n.of_int (pos octave);
    label = some (count (2 ^ octave));
    major = true;
  }

  -- One tick for each octave from `lowest` to `highest`, in ascending order.
  abbrev pub IsOctaves : ℕ → ℕ → List (Tick D) → Type 0
  IsOctaves lowest highest ticks =
      (length ticks ≡ highest + 1 - lowest)
      × ((i : ℕ) → i < length ticks → get_elem? ticks i ≡ some (power (lowest + i)))

  power_next :
      (octave : ℕ) (ticks : List (Tick D))
      → ((i : ℕ) → i < length ticks → get_elem? ticks i ≡ some (power (octave + 1 + i)))
      → (i : ℕ) → i < length (power octave ∷ ticks)
      → get_elem? (power octave ∷ ticks) i ≡ some (power (octave + i))
  power_next octave ticks each zero h = let e : octave + 0 ≡ octave = omega arith in rw e refl
  power_next octave ticks each (suc i) h =
      each i (omega arith) ∙ ap (λ k. some (power k)) (omega arith)

  octave_ticks-IsOctaves :
      (fuel octave highest : ℕ)
      → highest < 64
      → highest + 1 - octave < fuel
      → (ticks : List (Tick D)) × (octave_ticks n fuel octave highest ≡ some ticks)
        × IsOctaves octave highest ticks
  unfolding octave_ticks
  octave_ticks-IsOctaves zero octave highest h more = absurd (omega arith)
  octave_ticks-IsOctaves (suc fuel) octave highest h more = elim (Bool-cases (leb octave highest)) [
    | inr e ↦ ([], rw e refl, (ground arith, λ i k. absurd (omega arith)))
    | inl e ↦
        let (ticks, run, (many, each)) =
          octave_ticks-IsOctaves fuel (octave + 1) highest h (ground arith) in
        let fits = octave_fits octave (ground arith) in
        (power octave ∷ ticks, rw (e, run, fits) refl, (ground arith, power_next octave ticks each))
  ]

  -- Where the highest octave is below 64, the loop of Log2Ticks ends and makes one major tick for
  -- each octave from the lowest to the highest one, in ascending order and no other: at its number,
  -- and labelled with the power of two itself, with no wrap of `uint64_t`.
  pub log2_ticks-IsOctaves :
      (lowest highest : ℕ)
      → highest < 64
      → (ticks : List (Tick D)) × (log2_ticks n lowest highest ≡ some ticks)
        × IsOctaves lowest highest ticks
  log2_ticks-IsOctaves lowest highest h =
      octave_ticks-IsOctaves (highest + 2) lowest highest h (omega arith)
