-- ===== src/Output/Scan/Escapes.antt =====
-- The text of a string as JSON has it (RFC 8259, section 7), without the tables of src/output.c, and
-- what these tables give.
use mathlib.Core.Bool.{false≢true}
use jsnpg.Base.{
  ℕ, ◌/◌, ◌%◌, List, [], ◌∷◌, ◌++◌, Bool, true, false, ◌&&◌, ◌≡◌, refl, sym, ◌∙◌, inl, inr, arith,
  ◌==◌, ltb, Bool-cases, if◌then◌else◌, get_or,
}
use jsnpg.Base.Table.{table, table-row}
use jsnpg.Output.Scan.{is_special, c_escapes, hex_digit, escape_bytes}
use jsnpg.Output.Scan.Reference.{escaped_byte, escaped}

abbrev hex_text : List ℕ
hex_text =
    b'0' ∷ b'1' ∷ b'2' ∷ b'3' ∷ b'4' ∷ b'5' ∷ b'6' ∷ b'7' ∷ b'8' ∷ b'9' ∷ b'A' ∷ b'B' ∷ b'C' ∷ b'D'
    ∷ b'E' ∷ b'F' ∷ []

-- A quote and a backslash behind a backslash, five control characters by their letters, and the other
-- characters below 32 by \u00 and two hexadecimal digits.
abbrev pub json_byte : ℕ → List ℕ
json_byte c =
    if c == b'"'
    then b'\\' ∷ b'"' ∷ []
    else if c == b'\\'
    then b'\\' ∷ b'\\' ∷ []
    else if c == 8
    then b'\\' ∷ b'b' ∷ []
    else if c == 9
    then b'\\' ∷ b't' ∷ []
    else if c == 10
    then b'\\' ∷ b'n' ∷ []
    else if c == 12
    then b'\\' ∷ b'f' ∷ []
    else if c == 13
    then b'\\' ∷ b'r' ∷ []
    else if ltb c 32
    then b'\\' ∷ b'u' ∷ b'0' ∷ b'0' ∷ get_or hex_text (c / 16) 0 ∷ get_or hex_text (c % 16) 0 ∷ []
    else c ∷ []

abbrev pub json_text : List ℕ → List ℕ
json_text [] = []
json_text (c ∷ text) = json_byte c ++ json_text text

same_bytes : List ℕ → List ℕ → Bool
same_bytes [] [] = true
same_bytes (x ∷ xs) (y ∷ ys) = (x == y) && same_bytes xs ys
same_bytes _ _ = false

same_bytes-eq : (xs ys : List ℕ) → same_bytes xs ys ≡ true → xs ≡ ys
unfolding same_bytes
same_bytes-eq [] [] e = refl
same_bytes-eq [] (y ∷ ys) e = absurd (false≢true e)
same_bytes-eq (x ∷ xs) [] e = absurd (false≢true e)
same_bytes-eq (x ∷ xs) (y ∷ ys) e =
    let head : x ≡ y = ground (arith, e) in
    let tail = same_bytes-eq xs ys (ground (arith, e)) in rw (head, tail) refl

-- every character that has an escape of some kind
tables_agree : table (λ c. same_bytes (escaped_byte c) (json_byte c)) 93 ≡ true
unfolding table same_bytes is_special escape_bytes c_escapes hex_digit
tables_agree = refl

escaped_byte-json_byte : (c : ℕ) → escaped_byte c ≡ json_byte c
unfolding is_special
escaped_byte-json_byte c = elim (Bool-cases (ltb c 93)) [
  | inl small ↦ same_bytes-eq (escaped_byte c) (json_byte c) (
      table-row (λ k. same_bytes (escaped_byte k) (json_byte k)) 93 c (ground (arith, small))
        tables_agree)
  | inr large ↦
      let plain : escaped_byte c ≡ c ∷ [] = ground (arith, large) in
      let plain' : json_byte c ≡ c ∷ [] = ground (arith, large) in plain ∙ sym plain'
]

pub escaped-json_text : (text : List ℕ) → escaped text ≡ json_text text
escaped-json_text [] = refl
escaped-json_text (c ∷ text) = rw (escaped_byte-json_byte c) (rw (escaped-json_text text) refl)
