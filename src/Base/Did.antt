-- ===== src/Base/Did.antt =====
-- A call that succeeds or not, and changes its object either way.
use mathlib.Core.Bool.{Bool, true, false}
use jsnpg.Base.Tests.{if◌then◌else◌}

-- A result of a function that returns a success flag, or a pointer that may be NULL, and changes
-- the state `S` either way.
pub record Did (S : Type 0) : Type 0 where
  pub success : Bool
  pub state : S

abbrev pub did : {S : Type 0} → S → Did S
did s = record { success = true; state = s }

abbrev pub failed : {S : Type 0} → S → Did S
failed s = record { success = false; state = s }

-- `a && b`, where `b` runs in the state that `a` leaves
infixl 6 ◌then_do◌
abbrev pub ◌then_do◌ : {S : Type 0} → Did S → (S → Did S) → Did S
d then_do f = if d.success then f d.state else d
