-- ===== src/Tests/Texts.antt =====
-- Numbers, white space and comments at concrete inputs.
use jsnpg.Base.{ℕ, [], ◌∷◌, List, true, none, ◌≡◌, refl, arith, length}
use jsnpg.Base.Int.{negsuc}
use jsnpg.Base.Memory.{at_list}
use jsnpg.Input.{Mis}
use jsnpg.Floats.{FloatLib}
use jsnpg.Outcome.{ok}
use jsnpg.Parser.Escape.Reads.{forward}
use jsnpg.Parser.White.{mis_consume_whitespace, consume_whitespace}
use jsnpg.Parser.White.Ends.{Inside, Skipped, Ends, mis_consume_whitespace-Skipped}
use jsnpg.Parser.White.Comments.{consume_whitespace-Ends}
use jsnpg.Parser.Number.{integer, parse_number}
use jsnpg.Parser.Number.Integers.{stop, digit, Natural, positive, parse_number-Natural}

abbrev stream : List ℕ → Mis
stream bytes = record {
  start = true;
  bytes = at_list bytes;
  count = length bytes;
  string = 0;
  read = 0;
  write = 0;
  mark = 0;
}

-- two spaces and a comment that is not closed: "  /*1"
abbrev spaces : Mis
spaces = stream (b' ' ∷ b' ' ∷ b'/' ∷ b'*' ∷ b'1' ∷ [])

spaces-Inside : Inside spaces
spaces-Inside = record { zero_ends = refl; in_text = omega arith }

mis_consume_whitespace-Skipped_example :
    (c : ℕ) × (mis' : Mis) × (mis_consume_whitespace spaces ≡ ok c mis') × Skipped spaces c mis'
mis_consume_whitespace-Skipped_example = mis_consume_whitespace-Skipped spaces spaces-Inside

consume_whitespace-Ends_example : Ends spaces (consume_whitespace true spaces)
consume_whitespace-Ends_example = consume_whitespace-Ends true spaces spaces-Inside

abbrev no_floats : FloatLib
no_floats = record {
  Real = Unit;
  compute_float_64 = λ e n s. none;
  parse_float_strtod = λ m i. none;
  i64toa = λ n. [];
  dtoa = λ r. [];
}

-- "-12,"
abbrev number : Mis
number = stream (b'-' ∷ b'1' ∷ b'2' ∷ b',' ∷ [])

twelve : Natural (b'1' ∷ b'2' ∷ []) 12
twelve = positive (omega arith) (omega arith) (digit (omega arith) (omega arith) stop)

parse_number-Natural_example :
    parse_number no_floats number ≡ ok (integer (negsuc 11)) (forward number 3)
parse_number-Natural_example =
    parse_number-Natural no_floats number true (b'1' ∷ b'2' ∷ []) 12 twelve
      (refl, (refl, (refl, tt))) (ground arith) (omega arith) (omega arith) (omega arith)
