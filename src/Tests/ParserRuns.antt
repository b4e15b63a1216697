-- ===== src/Tests/ParserRuns.antt =====
-- src/parser.c on small texts.
use Prim.Native.Char.{code}
use Prim.Native.String.{String}
use jsnpg.Base.{
  zero, suc, ◌+◌, ◌/◌, ◌%◌, ltb, if◌then◌else◌, ℕ, List, [], ◌∷◌, true, Option, none, some, ◌≡◌,
  refl, length,
}
use jsnpg.Base.Memory.{at_list, slice}
use jsnpg.Base.Int.{ℤ, pos, negsuc}
use jsnpg.Types.{ErrorCode, error_number, error_surrogate}
use jsnpg.Floats.{FloatLib}
use jsnpg.Input.{
  Mis, mis_new, mis_set_bytes, mis_string_update, mis_string_complete, mis_validate_utf8, mis_find,
  strchr,
}
use jsnpg.Utf8.{utf8_encode, utf8_validate_sequence}
use jsnpg.Parser.Escape.{
  parse_escape, escape, unicode_escape, parse_hex4, hex_loop, hex_value, low_surrogate,
}
use jsnpg.Outcome.{Outcome, ok, thrown}
use jsnpg.Parser.White.{
  consume_whitespace, comment_loop, mis_consume_whitespace, white_loop, block_comment,
}
use jsnpg.Parser.Strings.{
  parse_string, parse_string_in_stream, string_loop, string_step, string_escape,
}
use jsnpg.Parser.Number.{
  Number, integer, parse_number, integer_part, integer_digits, integer_step, fraction_part,
  exponent_part, too_large, real_result,
}

-- the bytes of a literal
abbrev pub bytes_of : String → List ℕ
bytes_of (String.◌∷◌ first others) = code first ∷ bytes_of others
bytes_of String.[] = []

abbrev pub stream : List ℕ → Mis
stream bytes = mis_set_bytes mis_new (at_list bytes) (length bytes)

-- the decimal digits of a number below 10 ^ fuel, in front of others
abbrev decimal_digits : ℕ → ℕ → List ℕ → List ℕ
decimal_digits zero n others = others
decimal_digits (suc fuel) n others =
    let digit = b'0' + n % 10 in
    let front = decimal_digits fuel (n / 10) (digit ∷ others) in
    if ltb n 10 then digit ∷ others else front

abbrev pub decimal_text : ℤ → List ℕ
decimal_text (pos n) = decimal_digits 20 n []
decimal_text (negsuc n) = b'-' ∷ decimal_digits 20 (suc n) []

-- No double is ever made, and strtod refuses; a long is written in decimal digits.
abbrev pub no_floats : FloatLib
no_floats = record {
  Real = Unit;
  compute_float_64 = λ e n s. none;
  parse_float_strtod = λ m i. none;
  i64toa = decimal_text;
  dtoa = λ r. [];
}

-- the string read, and the read pointer
abbrev string_read : Outcome ℕ → Option (List ℕ × ℕ)
string_read (ok len m) = some (slice m.bytes m.string len, m.read)
string_read _ = none

abbrev number_read : Outcome (Number Unit) → Option (ℤ × ℕ)
number_read (ok (integer z) m) = some (z, m.read)
number_read _ = none

abbrev failure {ℓ} : {A : Type ℓ} → Outcome A → Option (ErrorCode × ℕ)
failure (thrown code at m) = some (code, at)
failure _ = none

read_string : String → Option (List ℕ × ℕ)
unfolding parse_string mis_new mis_set_bytes parse_string_in_stream string_loop string_step
    string_escape parse_escape escape mis_string_update utf8_encode unicode_escape parse_hex4
    hex_loop hex_value low_surrogate mis_string_complete mis_validate_utf8 utf8_validate_sequence
read_string s = string_read (parse_string true (stream (bytes_of s)))

string_failure : String → Option (ErrorCode × ℕ)
unfolding read_string
string_failure s = failure (parse_string true (stream (bytes_of s)))

string_run :
    read_string "\"a\\n\\u00e9\\ud83d\\ude00z\" "
    ≡ some (b'a' ∷ 10 ∷ 0xC3 ∷ 0xA9 ∷ 0xF0 ∷ 0x9F ∷ 0x98 ∷ 0x80 ∷ b'z' ∷ [], 24)
unfolding read_string
string_run = refl

surrogate_run : string_failure "\"\\ud83dx\"" ≡ some (error_surrogate, 7)
unfolding string_failure
surrogate_run = refl

-- the byte behind white space and comments, and where it stands
white_read : Outcome ℕ → Option (ℕ × ℕ)
white_read (ok c m) = some (c, m.read)
white_read _ = none

skip_white : String → Option (ℕ × ℕ)
unfolding white_read consume_whitespace mis_new mis_set_bytes comment_loop mis_consume_whitespace
    white_loop block_comment mis_find strchr
skip_white s = white_read (consume_whitespace true (stream (bytes_of s)))

white_run : skip_white " /* a * */ // x\n [" ≡ some (b'[', 17)
unfolding skip_white
white_run = refl

-- a comment that is not closed passes for white space at the end of the input
open_comment_run : skip_white " /* a" ≡ some (0, 5)
unfolding skip_white
open_comment_run = refl

number_of : String → Option (ℤ × ℕ)
unfolding parse_number mis_new mis_set_bytes integer_part integer_digits fraction_part exponent_part
    too_large integer_step real_result
number_of s = number_read (parse_number no_floats (stream (bytes_of s)))

number_run : number_of "-120," ≡ some (negsuc 119, 4)
unfolding number_of
number_run = refl

number_failure : String → Option (ErrorCode × ℕ)
unfolding number_of
number_failure s = failure (parse_number no_floats (stream (bytes_of s)))

-- the position lies behind the terminating zero
minus_run : number_failure "-" ≡ some (error_number, 2)
unfolding number_failure
minus_run = refl
