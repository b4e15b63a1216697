-- ===== src/Parser/Strings.antt =====
-- src/parser.c: strings, unescaped in place.
pub mod InPlace
pub mod Decode
pub mod Quoted
use jsnpg.Base.{
  ℕ, zero, suc, ◌+◌, Bool, not, ◌&&◌, ◌==◌, leb, ltb, if◌then◌else◌, Option, none, some, length,
}
use jsnpg.Base.Memory.{poke_all}
use jsnpg.Types.{error_utf8, error_invalid}
use jsnpg.Utf8.{utf8_encode}
use jsnpg.Input.{
  Mis, mis_peek, mis_take, mis_string_start, mis_string_update, mis_string_restart,
  mis_string_complete, mis_validate_utf8,
}
use jsnpg.Outcome.{Outcome, ok, thrown, no_fuel, throw, ◌>>=◌}
use jsnpg.Parser.White.{bytes_left}
use jsnpg.Parser.Escape.{parse_escape}

-- utf8_encode(codepoint, mis_writer(mis))
abbrev pub write_codepoint : ℕ → Mis → Mis
write_codepoint codepoint mis =
    let code = utf8_encode codepoint in
    record mis { bytes = poke_all mis.bytes mis.write code; write = mis.write + length code }

unfoldable pub string_escape : Mis → Outcome (Option ℕ)
string_escape mis =
    (parse_escape >>= λ codepoint m. ok none (mis_string_restart (write_codepoint codepoint m)))
      (mis_string_update mis)

-- One round of the loop: the length, once the closing quote is read.
unfoldable pub string_step : Bool → Mis → Outcome (Option ℕ)
string_step validate_utf8 mis =
    let c = mis_peek mis in
    let (len, done) = mis_string_complete mis in
    let (valid, checked) = mis_validate_utf8 mis in
    if c == b'"'
    then ok (some len) done
    else if c == b'\\'
    then string_escape mis
    else if validate_utf8 && leb 0x80 c
    then (if valid then ok none checked else throw error_utf8 mis)
    else if ltb c 0x20
    then throw error_invalid mis
    else ok none (mis_take mis)

unfoldable pub string_loop : Bool → ℕ → Mis → Outcome ℕ
string_loop validate_utf8 zero mis = no_fuel
string_loop validate_utf8 (suc fuel) mis =
    (string_step validate_utf8 >>= λ (r : Option ℕ) (m : Mis). elim r [
      | none ↦ string_loop validate_utf8 fuel m
      | some len ↦ ok len m
    ])
      mis

unfoldable pub parse_string_in_stream : Bool → Mis → Outcome ℕ
parse_string_in_stream validate_utf8 mis =
    string_loop validate_utf8 (bytes_left mis) (mis_string_start mis)

-- The length of the string; its bytes begin at the stream's `string`.
unfoldable pub parse_string : Bool → Mis → Outcome ℕ
parse_string validate_utf8 mis = parse_string_in_stream validate_utf8 (mis_take mis)
