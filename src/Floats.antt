-- ===== src/Floats.antt =====
-- The arithmetic of JavaScript numbers that the services on market values use: a parameter, since
-- its rounding is the machine's.
use payflow_x.Prelude.{Bool}

-- `number` is `Number` of a stored decimal; `round2` and `round8` are `parseFloat(x.toFixed(n))`.
pub record Floats (D F : Type 0) : Type 0 where
  pub number : D → F
  pub round2 : F → F
  pub round8 : F → F
  pub zero_float : F
  pub hundred : F
  pub plus : F → F → F
  pub minus : F → F → F
  pub times : F → F → F
  pub over : F → F → F
  pub less : F → F → Bool
  pub is_positive : F → Bool
