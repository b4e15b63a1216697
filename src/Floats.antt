-- ===== src/Floats.antt =====
-- Doubles, and the conversions that src/thirdparty supplies: they are parameters of the model.
use jsnpg.Base.{ℕ, Bool, Option, List}
use jsnpg.Base.Int.{ℤ}
use jsnpg.Base.Memory.{Memory}

-- `compute_float_64 power i negative` (`none` where `success` is set false), for which any result is
-- allowed at any power, though it documents the powers from -325 to 308 only;
-- `parse_float_strtod m start`, the number that the text at `start` denotes and the offset behind
-- it (`none` for NULL); `i64toa` and `dtoa`, the text of a number.
pub record FloatLib : Type 1 where
  pub Real : Type 0
  pub compute_float_64 : ℤ → ℕ → Bool → Option Real
  pub parse_float_strtod : Memory → ℕ → Option (Real × ℕ)
  pub i64toa : ℤ → List ℕ
  pub dtoa : Real → List ℕ
