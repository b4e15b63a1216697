-- ===== src/Tests/AnyBytes.antt =====
-- src/parser.c, src/parse.c and src/parsenext.c on bytes that are no JSON text.
use jsnpg.Base.{
  ℕ, suc, ◌≤◌, List, [], true, false, none, some, ◌≡◌, refl, arith, ◌==◌, if◌then◌else◌,
}
use jsnpg.Base.Memory.{Memory, at_list}
use jsnpg.Types.{Event}
use jsnpg.Floats.{FloatLib}
use jsnpg.Input.{Mis, mis_set_bytes}
use jsnpg.Parser.Strings.{parse_string}
use jsnpg.Parser.Escape.{parse_escape}
use jsnpg.Parser.White.Ends.{Inside}
use jsnpg.Parser.Bounds.{Stays, Any}
use jsnpg.Parser.Bounds.Strings.{parse_string-Stays}
use jsnpg.Parser.Bounds.Escapes.{Fits, parse_escape-Fits}
use jsnpg.Api.{ParseOpts}
use jsnpg.Tests.ParserRuns.{bytes_of, stream}
use jsnpg.Tests.Documents.{strict, recording}

-- a strtod that reads one byte
abbrev one_byte : FloatLib
one_byte = record {
  Real = Unit;
  compute_float_64 = λ e n s. none;
  parse_float_strtod = λ m i. if m i == 0 then none else some (tt, suc i);
  i64toa = λ n. [];
  dtoa = λ r. [];
}

-- an array, a string and an escape that are not closed
abbrev bytes : List ℕ
bytes = bytes_of "[1, \"a\\u00"

abbrev opts : ParseOpts Unit (List (Event Unit))
opts = record {
  max_nesting = 0;
  allow = strict;
  allow_invalid_utf8_out = false;
  bytes = some (at_list bytes, 10);
  string = none;
  dom = none;
  callbacks = some (recording, []);
  generator = none;
}

-- the text from its string on, from its escape on and from its number on
abbrev at : ℕ → Mis
at n = record (stream bytes) { read = n }

at-Inside : (n : ℕ) → n ≤ 10 → Inside (at n)
unfolding mis_set_bytes
at-Inside n le = record { zero_ends = refl; in_text = le }

parse_string-Stays_example : Stays 1 Any (at 4) (parse_string true (at 4))
unfolding mis_set_bytes
parse_string-Stays_example =
    parse_string-Stays true (at 4) (at-Inside 4 (omega arith))
      (λ z. let quote : b'"' ≡ 0 = z in omega (arith, quote))

parse_escape-Fits_example : Fits (at 6) (parse_escape (at 6))
unfolding mis_set_bytes
parse_escape-Fits_example =
    parse_escape-Fits (at 6) (at-Inside 6 (omega arith))
      (λ z. let slash : b'\\' ≡ 0 = z in omega (arith, slash))
