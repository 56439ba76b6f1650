-- ===== src/Plots/Ticks.antt =====
-- The ticks of the axes in plots.cpp. The loops over `double` run on fuel.
use espacekilly.Base.{
  ℕ, zero, suc, ◌+◌, ◌-◌, ◌%◌, ◌^◌, Bool, true, false, ◌&&◌, Option, none, some, List, [], ◌∷◌,
  ◌++◌, map, ℤ, pos, negsuc, ◌+ℤ◌, leb, eqb_ℤ, ltb, if◌then◌else◌, ◌>>=◌,
}
use espacekilly.Plots.Double.{Double}

-- What a label shows: 0, millions with one decimal, thousands or units without decimals, or a count.
pub data Label (D : Type 0) : Type 0 where
  nought : Label D
  millions : D → Label D
  thousands : D → Label D
  units : D → Label D
  count : ℕ → Label D

-- `Tick`; an empty label is `none`.
pub record Tick (D : Type 0) : Type 0 where
  pub position : D
  pub label : Option (Label D)
  pub major : Bool

abbrev pub is_labelled : {D : Type 0} → Tick D → Bool
is_labelled t = elim t.label [ none ↦ false | some _ ↦ true ]

module _ {D : Type 0} (n : Double D) where
  -- `PlainLabel`.
  unfoldable pub plain_label : D → Label D
  plain_label v =
      if n.eq v (n.literal 0 1)
      then nought
      else if n.le (n.literal 1_000_000 0) (n.abs v)
      then millions (n.div v (n.literal 1_000_000 0))
      else if n.le (n.literal 10_000 0) (n.abs v)
      then thousands (n.div v (n.literal 1000 0))
      else units v

  abbrev pub labelled : D → Tick D
  labelled v = record { position = v; label = some (plain_label v); major = true }

  -- The step of `NiceSteps`.
  unfoldable pub nice_step : D → D → ℤ → D
  nice_step lo hi wanted =
      let raw_step = n.div (n.sub hi lo) (n.of_int wanted) in
      let magnitude = n.pow (n.literal 100 1) (n.floor (n.log10 raw_step)) in
      let normalised = n.div raw_step magnitude in
      if n.lt (n.literal 50 1) normalised
      then n.mul (n.literal 100 1) magnitude
      else if n.lt (n.literal 20 1) normalised
      then n.mul (n.literal 50 1) magnitude
      else if n.lt (n.literal 10 1) normalised
      then n.mul (n.literal 20 1) magnitude
      else magnitude

  -- The loop of `NiceSteps`, from `t` on.
  unfoldable pub steps : ℕ → D → D → D → Option (List D)
  steps zero step end t = none
  steps (suc fuel) step end t =
      let rest = steps fuel step end (n.add t step) in
      if n.le t end then (do ticks ← rest; some (t ∷ ticks)) else some []

  unfoldable pub nice_steps : ℕ → D → D → ℤ → Option (List D)
  nice_steps fuel lo hi wanted =
      let step = nice_step lo hi wanted in
      steps fuel step (n.add hi (n.mul step (n.literal 1 9))) (n.mul (n.ceil (n.div lo step)) step)

  -- The inner loop of `LinearTicks`: `k` minor ticks from the one at `i` on.
  unfoldable pub minor_ticks : D → D → D → D → ℕ → ℕ → List (Tick D)
  minor_ticks lo hi minor_step base i zero = []
  minor_ticks lo hi minor_step base i (suc k) =
      let minor = n.add base (n.mul (n.of_int (pos i)) minor_step) in
      let rest = minor_ticks lo hi minor_step base (i + 1) k in
      if n.le lo minor && n.le minor hi
      then record { position = minor; label = none; major = false } ∷ rest
      else rest

  -- Its outer loop, from `k` on; `++k` at the largest `int` is undefined.
  unfoldable pub major_ticks : ℕ → D → D → D → D → D → ℕ → ℤ → Option (List (Tick D))
  major_ticks zero lo hi front step minor_step minors k = none
  major_ticks (suc fuel) lo hi front step minor_step minors k =
      let base = n.add front (n.mul (n.of_int k) step) in
      let rest = major_ticks fuel lo hi front step minor_step minors (k +ℤ pos 1) in
      let own = if n.le lo base then labelled base ∷ [] else [] in
      if n.lt hi base
      then some []
      else (if eqb_ℤ k (pos (2 ^ 31 - 1)) then none else (do
        ticks ← rest
        some (own ++ (minor_ticks lo hi minor_step base 1 (minors - 1) ++ ticks))))

  -- `LinearTicks`, once the major positions are known.
  unfoldable pub ticks_at : ℕ → D → D → ℕ → List D → Option (List (Tick D))
  ticks_at fuel lo hi minors (first ∷ second ∷ others) =
      let step = n.sub second first in
      if ltb minors 2
      then some (map labelled (first ∷ second ∷ others))
      else major_ticks fuel lo hi first step (n.div step (n.of_int (pos minors))) minors (negsuc 0)
  ticks_at fuel lo hi minors majors = some (map labelled majors)

  unfoldable pub linear_ticks : ℕ → D → D → ℤ → ℕ → Option (List (Tick D))
  linear_ticks fuel lo hi wanted_majors minors = do
    majors ← nice_steps fuel lo hi wanted_majors
    ticks_at fuel lo hi minors majors

  -- `std::erase_if` of `LabelAxisStart`.
  abbrev pub too_close : D → D → Tick D → Bool
  too_close lo distance t = is_labelled t && n.lt (n.abs (n.sub t.position lo)) distance

  unfoldable pub erase_close : D → D → List (Tick D) → List (Tick D)
  erase_close lo distance [] = []
  erase_close lo distance (t ∷ ts) =
      let rest = erase_close lo distance ts in if too_close lo distance t then rest else t ∷ rest

  unfoldable pub label_axis_start : D → D → List (Tick D) → List (Tick D)
  label_axis_start lo hi ticks =
      labelled lo ∷ erase_close lo (n.mul (n.sub hi lo) (n.literal 3 2)) ticks

  -- The ticks of an axis of latencies: LinearTicks, then LabelAxisStart.
  unfoldable pub linear_axis : ℕ → D → D → ℤ → ℕ → Option (List (Tick D))
  linear_axis fuel lo hi wanted minors = do
    ticks ← linear_ticks fuel lo hi wanted minors
    some (label_axis_start lo hi ticks)

  -- The loop of `Log2Ticks`, from `octave` on, with `uint64_t` counts.
  unfoldable pub octave_ticks : ℕ → ℕ → ℕ → Option (List (Tick D))
  octave_ticks zero octave highest = none
  octave_ticks (suc fuel) octave highest =
      let rest = octave_ticks fuel (octave + 1) highest in
      let tick : Tick D = record {
        position = n.of_int (pos octave);
        label = some (count (2 ^ octave % 2 ^ 64));
        major = true;
      } in
      if leb octave highest then (do ticks ← rest; some (tick ∷ ticks)) else some []

  abbrev pub log2_ticks : ℕ → ℕ → Option (List (Tick D))
  log2_ticks lowest highest = octave_ticks (highest + 2) lowest highest
