-- ===== src/Plots/Double.antt =====
-- What plots.cpp does with `double`: arithmetic of the compiler and of <cmath>, which is an argument
-- of the model.
use espacekilly.Base.{ℕ, ℤ, Bool}

pub record Double (D : Type 0) : Type 0 where
  pub add : D → D → D
  pub sub : D → D → D
  pub mul : D → D → D
  pub div : D → D → D
  pub floor : D → D
  pub ceil : D → D
  pub abs : D → D
  pub log10 : D → D
  pub pow : D → D → D
  -- `<`, `<=` and `==`.
  pub lt : D → D → Bool
  pub le : D → D → Bool
  pub eq : D → D → Bool
  -- The value of an `int`, and of the literal n / 10^k.
  pub of_int : ℤ → D
  pub literal : ℕ → ℕ → D
