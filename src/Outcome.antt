-- ===== src/Outcome.antt =====
-- How a parser function of src/parser.c ends: it returns, or throws by `longjmp` to the `setjmp`
-- of the parse in course (throw_parse_error_at), with the input stream as it is at that point.
use jsnpg.Base.{ℕ}
use jsnpg.Types.{ErrorCode}
use jsnpg.Input.{Mis, mis_tell, mis_peek, mis_take}

-- `no_fuel` has no counterpart in the program.
pub data Outcome {ℓ} (A : Type ℓ) : Type ℓ where
  ok : A → Mis → Outcome A
  thrown : ErrorCode → ℕ → Mis → Outcome A
  no_fuel : Outcome A

infixl 5 ◌>>=◌ ◌>>◌
abbrev pub ◌>>=◌ {ℓ κ} :
    {A : Type ℓ} {B : Type κ} → (Mis → Outcome A) → (A → Mis → Outcome B) → Mis → Outcome B
◌>>=◌ p f mis = elim (p mis) [
  | ok a mis' ↦ f a mis'
  | thrown code at mis' ↦ thrown code at mis'
  | no_fuel ↦ no_fuel
]

abbrev pub ◌>>◌ {ℓ κ} :
    {A : Type ℓ} {B : Type κ} → (Mis → Outcome A) → (Mis → Outcome B) → Mis → Outcome B
p >> q = p >>= λ _. q

abbrev pub pure {ℓ} : {A : Type ℓ} → A → Mis → Outcome A
pure a mis = ok a mis

-- throw_parse_error: the position is that of the read pointer
abbrev pub throw {ℓ} : {A : Type ℓ} → ErrorCode → Mis → Outcome A
throw code mis = thrown code (mis_tell mis) mis

abbrev pub peek : Mis → Outcome ℕ
peek mis = ok (mis_peek mis) mis

abbrev pub take_byte : Mis → Outcome (Unit {0})
take_byte mis = ok tt (mis_take mis)
