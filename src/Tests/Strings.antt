-- ===== src/Tests/Strings.antt =====
-- Strings, UTF-8 and the output buffer at concrete inputs.
use jsnpg.Base.{ℕ, ◌<◌, ◌≤◌, List, [], ◌∷◌, ◌++◌, Bool, true, some, ◌≡◌, refl, inr, arith, length}
use jsnpg.Base.Memory.{Holds, at_list}
use jsnpg.Input.{Mis, mis_new, mis_set_bytes, mis_take, mis_string_start}
use jsnpg.Outcome.{ok}
use jsnpg.Utf8.{utf8_encode, utf8_validate_sequence, is_valid_codepoint}
use jsnpg.Utf8.RoundTrip.{validate-encode}
use jsnpg.Utf8.Sound.{Encodes, validate-Encodes}
use jsnpg.Parser.Grammar.{Denotes, short, line_feed, plain, escaped}
use jsnpg.Parser.Escape.{parse_escape}
use jsnpg.Parser.Escape.Reads.{forward, parse_escape-Escape}
use jsnpg.Parser.Strings.{parse_string}
use jsnpg.Parser.Strings.InPlace.{Completed}
use jsnpg.Parser.Strings.Decode.{parse_string-Denotes}
use jsnpg.Output.Buffer.{mos_new, mos_reserve, mos_puts}
use jsnpg.Output.Buffer.Grows.{
  Contains, Reserved, mos_new-Contains, mos_reserve-Reserved, mos_puts-Contains,
}
use jsnpg.Output.Stream.{jos_new}
use jsnpg.Output.Scan.{jos_scan_escape}
use jsnpg.Output.Scan.Escapes.{json_text}
use jsnpg.Output.Scan.Reference.{Text, byte, Printed}
use jsnpg.Output.Scan.Prints.{jos_scan_escape-Printed}
use jsnpg.Output.Printer.{print_string}
use jsnpg.RoundTrip.{parse_string-print_string}

abbrev always : ℕ → Bool
always n = true

-- a"é
abbrev sample : List ℕ
sample = b'a' ∷ b'"' ∷ 0xC3 ∷ 0xA9 ∷ []

sample-Text : Text true sample
unfolding utf8_encode is_valid_codepoint
sample-Text =
    byte b'a' (inr (omega arith))
      (byte b'"' (inr (omega arith)) (Text.sequence 0xE9 refl (omega arith) refl Text.nothing))

parse_string-print_string_example :
    ((print_string always (jos_new 0 true) sample).success ≡ true)
    × ((len : ℕ) × (m : Mis) × (parse_string true (
            mis_set_bytes mis_new
              (print_string always (jos_new 0 true) sample).state.mos.buffer
              (print_string always (jos_new 0 true) sample).state.mos.count)
          ≡ ok len m)
        × (len ≡ 4)
        × Holds m.bytes m.string sample
        × (m.read ≡ (print_string always (jos_new 0 true) sample).state.mos.count))
parse_string-print_string_example =
    parse_string-print_string always true sample (λ n. refl) sample-Text

-- "a\n" with the newline escaped
abbrev body : List ℕ
body = b'a' ∷ b'\\' ∷ b'n' ∷ []

body-Denotes : Denotes true body (b'a' ∷ 10 ∷ [])
unfolding utf8_encode
body-Denotes =
    plain b'a' (omega arith) (omega arith) (omega arith) (inr (omega arith))
      (escaped 10 (short (line_feed refl refl)) Denotes.nothing)

abbrev quoted_body : Mis
quoted_body = record {
  start = true;
  bytes = at_list (b'"' ∷ (body ++ b'"' ∷ []));
  count = 5;
  string = 0;
  read = 0;
  write = 0;
  mark = 0;
}

parse_string-Denotes_example :
    (len : ℕ) × (m : Mis) × (parse_string true quoted_body ≡ ok len m)
    × Completed (mis_string_start (mis_take quoted_body)) m len (b'a' ∷ 10 ∷ []) 5
parse_string-Denotes_example =
    parse_string-Denotes true quoted_body body-Denotes (omega arith) (omega arith)

abbrev at_escape : Mis
at_escape = record quoted_body { read = 2 }

parse_escape-Escape_example : parse_escape at_escape ≡ ok 10 (forward at_escape 2)
parse_escape-Escape_example =
    parse_escape-Escape at_escape (b'\\' ∷ b'n' ∷ []) 10 (short (line_feed refl refl)) (omega arith)

jos_scan_escape-Printed_example :
    Printed
      (jos_new 0 true)
      (jos_scan_escape always (at_list sample) 4 (jos_new 0 true))
      ([] ++ json_text sample)
unfolding jos_new
jos_scan_escape-Printed_example =
    jos_scan_escape-Printed always (jos_new 0 true) [] sample (λ n. refl) sample-Text
      (mos_new-Contains 0)

validate-encode_example :
    utf8_validate_sequence (at_list (0xC3 ∷ 0xA9 ∷ [])) 2 ≡ some (length (utf8_encode 0xE9))
unfolding utf8_encode is_valid_codepoint
validate-encode_example =
    validate-encode (at_list (0xC3 ∷ 0xA9 ∷ [])) 2 0xE9 refl (omega arith) (omega arith)

two_bytes : (i : ℕ) → at_list (0xC3 ∷ 0xA9 ∷ []) i < 256
two_bytes i = ground arith

validate-Encodes_example : (cp : ℕ) × Encodes (at_list (0xC3 ∷ 0xA9 ∷ [])) 2 cp × (2 ≤ 4)
unfolding utf8_validate_sequence
validate-Encodes_example = validate-Encodes (at_list (0xC3 ∷ 0xA9 ∷ [])) 4 2 two_bytes refl

-- the mark in front of {}
mos_reserve-Reserved_example :
    ((mos_reserve always (mos_new 0) 5000).success ≡ true)
    × Reserved (mos_new 0) (mos_reserve always (mos_new 0) 5000).state 5000
mos_reserve-Reserved_example =
    mos_reserve-Reserved always (λ n. refl) (mos_new 0) [] 5000 (mos_new-Contains 0)

mos_puts-Contains_example :
    ((mos_puts always (mos_new 0) sample).success ≡ true)
    × Contains (mos_puts always (mos_new 0) sample).state ([] ++ sample)
mos_puts-Contains_example =
    mos_puts-Contains always (λ n. refl) (mos_new 0) [] sample (mos_new-Contains 0)
