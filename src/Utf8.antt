-- ===== src/Utf8.antt =====
-- src/utf8.c: UTF-8 validation and encoding, and the byte order mark.
-- A mask is written as the arithmetic that it computes: `x & 0xE0` is `x / 32 % 8 * 32`, and
-- `LEADER | low bits` is a sum, since the two have no bit in common.
pub mod RoundTrip
pub mod Sound
use jsnpg.Base.{
  ℕ, zero, suc, ◌+◌, ◌*◌, ◌/◌, ◌%◌, ◌^◌, List, [], ◌∷◌, Bool, true, false, not, ◌&&◌, Option, none,
  some, ◌==◌, leb, ltb, if◌then◌else◌,
}
use jsnpg.Base.Memory.{Memory}

unfoldable pub is_surrogate : ℕ → Bool
is_surrogate cp = leb 0xD800 cp && leb cp 0xDFFF

unfoldable pub is_valid_codepoint : ℕ → Bool
unfolding is_surrogate
is_valid_codepoint cp = leb cp 0x10FFFF && not (is_surrogate cp)

-- the loop `while(shift > 0)`, for shift = 6 * rounds
unfoldable pub continuation_bytes : ℕ → ℕ → List ℕ
continuation_bytes zero cp = []
continuation_bytes (suc rounds) cp =
    (0x80 + cp / 2 ^ (6 * rounds) % 64) ∷ continuation_bytes rounds cp

-- The bytes that are written through the pointer. At a codepoint that is not valid nothing is
-- written (with assertions on, the program stops there).
unfoldable pub utf8_encode : ℕ → List ℕ
unfolding is_surrogate continuation_bytes
utf8_encode cp =
    if leb cp 0x7F
    then cp % 256 ∷ continuation_bytes 0 cp
    else if leb cp 0x7FF
    then (0xC0 + cp / 2 ^ 6 % 32) ∷ continuation_bytes 1 cp
    else if is_surrogate cp
    then []
    else if leb cp 0xFFFF
    then (0xE0 + cp / 2 ^ 12 % 16) ∷ continuation_bytes 2 cp
    else if leb cp 0x10FFFF
    then (0xF0 + cp / 2 ^ 18 % 8) ∷ continuation_bytes 3 cp
    else []

abbrev pub is_2_byte_leader : ℕ → Bool
is_2_byte_leader x = 0xC0 == x / 32 % 8 * 32

abbrev pub is_3_byte_leader : ℕ → Bool
is_3_byte_leader x = 0xE0 == x / 16 % 16 * 16

abbrev pub is_4_byte_leader : ℕ → Bool
is_4_byte_leader x = 0xF0 == x / 8 % 32 * 8

abbrev pub is_continuation : ℕ → Bool
is_continuation x = 0x80 == x / 64 % 4 * 64

-- what the first byte decides: its codepoint bits, the least codepoint that needs this length,
-- and the number of continuation bytes
pub record Leader : Type 0 where
  pub codepoint : ℕ
  pub bar : ℕ
  pub cont : ℕ

unfoldable pub leader : ℕ → Option Leader
leader b =
    if is_2_byte_leader b
    then some (record { codepoint = b % 32; bar = 0x7F + 1; cont = 1 })
    else if is_3_byte_leader b
    then some (record { codepoint = b % 16; bar = 0x7FF + 1; cont = 2 })
    else if is_4_byte_leader b
    then some (record { codepoint = b % 8; bar = 0xFFFF + 1; cont = 3 })
    else if leb b 0x7F
    then some (record { codepoint = b; bar = 0; cont = 0 })
    else none

-- the loop over the continuation bytes, with the rounds left, the offset of the next byte and
-- the codepoint so far
unfoldable pub continuations : ℕ → Memory → ℕ → ℕ → Option ℕ
continuations zero bytes i codepoint = some codepoint
continuations (suc rounds) bytes i codepoint =
    let rest = continuations rounds bytes (suc i) (codepoint * 64 + bytes i % 64) in
    if is_continuation (bytes i) then rest else none

-- the length of the sequence at the pointer, `none` for the result -1
unfoldable pub utf8_validate_sequence : Memory → ℕ → Option ℕ
unfolding leader continuations is_valid_codepoint
utf8_validate_sequence bytes count = elim (leader (bytes 0)) [
  | none ↦ none
  | some l ↦
      if ltb count (1 + l.cont) then none else elim (continuations l.cont bytes 1 l.codepoint) [
        | none ↦ none
        | some cp ↦
            if ltb cp l.bar then none else if is_valid_codepoint cp then some (1 + l.cont) else none
      ]
]

-- sizeof(BYTE_ORDER_MARK): the three bytes of the literal and its terminating zero
abbrev pub bom_count : ℕ
bom_count = 4

unfoldable pub utf8_bom_bytes : Memory → ℕ → ℕ
utf8_bom_bytes bytes count =
    if leb bom_count count
      && (bytes 0 == 0xEF && (bytes 1 == 0xBB && (bytes 2 == 0xBF && bytes 3 == 0)))
    then bom_count
    else 0
