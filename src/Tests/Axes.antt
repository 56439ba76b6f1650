-- ===== src/Tests/Axes.antt =====
-- The axes of the plots, with whole numbers for `double`.
use espacekilly.Base.{
  ℕ, ◌+◌, ◌-◌, ◌*◌, ◌/◌, ◌^◌, ◌==◌, ◌≡◌, refl, true, false, none, List, some, [], ◌∷◌, arith, ltb,
  leb, pos, pos_part,
}
use espacekilly.Plots.Double.{Double}
use espacekilly.Plots.Canvas.{canvas, line, text, grid_x}
use espacekilly.Plots.Octaves.{IsOctaves, log2_ticks-IsOctaves}
use espacekilly.Plots.Ticks.{units, log2_ticks, Tick, nice_steps, nice_step, steps}

abbrev whole : Double ℕ
whole = record {
  add = λ a b. a + b;
  sub = λ a b. a - b;
  mul = λ a b. a * b;
  div = λ a b. a / b;
  floor = λ a. a;
  ceil = λ a. a;
  abs = λ a. a;
  log10 = λ a. 1;
  pow = λ a b. a ^ b;
  lt = ltb;
  le = leb;
  eq = λ a b. a == b;
  of_int = pos_part;
  literal = λ m k. m / 10 ^ k;
}

-- The positions on an axis from 0 to 40, of which four intervals are wanted.
forties : nice_steps whole 10 0 40 (pos 4) ≡ some (0 ∷ 10 ∷ 20 ∷ 30 ∷ 40 ∷ [])
unfolding nice_steps nice_step steps
forties = refl

-- A tick in the middle, and one behind the end, which is not drawn.
abbrev two_ticks : List (Tick ℕ)
two_ticks =
    record { position = 20; label = some (units 20); major = true }
    ∷ record { position = 50; label = none; major = false }
    ∷ []

drawn :
    grid_x whole (canvas whole 0 40 0 40) two_ticks
    ≡ line 100 60 100 995 ∷ text 100 1017 (units 20) ∷ []
unfolding grid_x
drawn = refl

log2_ticks-IsOctaves_example :
    (ticks : List (Tick ℕ)) × (log2_ticks whole 0 5 ≡ some ticks) × IsOctaves whole 0 5 ticks
log2_ticks-IsOctaves_example = log2_ticks-IsOctaves whole 0 5 (omega arith)
