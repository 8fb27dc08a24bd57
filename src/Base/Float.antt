-- ===== src/Base/Float.antt =====
-- A floating-point format of Go, float32 or float64, as its operations. No law of rounding is used.
use Prim.Native.Nat.{ℕ}
use mathlib.Core.Bool.{Bool}

pub record Floats : Type 1 where
  pub Float : Type 0
  -- The conversion of an int64, given by its bit pattern.
  pub of_int : ℕ → Float
  pub plus : Float → Float → Float
  pub minus : Float → Float → Float
  pub times : Float → Float → Float
  pub over : Float → Float → Float
  pub sqrt : Float → Float
  pub abs : Float → Float
  pub max : Float → Float → Float
  pub less : Float → Float → Bool
