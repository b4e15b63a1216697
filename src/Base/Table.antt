-- ===== src/Base/Table.antt =====
-- A claim about every number below a bound, from its evaluation at each of them.
use Prim.Native.Nat.{ℕ, zero, suc, ◌<◌}
use mathlib.Core.Path.{◌≡◌}
use mathlib.Core.Bool.{Bool, false, true}
use native.Mathlib.Decide.{ℕ_discrete}
use native.Mathlib.Omega.{arith}
use jsnpg.Base.Tests.{if◌then◌else◌}

-- the rows 0 to `rows - 1`, the last one first
unfoldable pub table : (ℕ → Bool) → ℕ → Bool
table row zero = true
table row (suc last) = if row last then table row last else false

pub table-row : (row : ℕ → Bool) (rows i : ℕ) → i < rows → table row rows ≡ true → row i ≡ true
unfolding table
table-row row zero i below e = absurd (omega arith)
table-row row (suc last) i below e = elim (ℕ_discrete i last) [
  | yes same ↦ rw same (ground (arith, e))
  | no other ↦ table-row row last i (omega (arith, other)) (ground (arith, e))
]
