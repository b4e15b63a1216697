-- ===== src/Parser/Number.antt =====
-- src/parser.c: numbers. `sum` is a uint64_t and a byte is cut to eight bits; the counters
-- `sig_digits` and `exponent` are not cut, since they count bytes of the input.
pub mod Integers
use jsnpg.Base.{
  ℕ, zero, suc, ◌+◌, ◌-◌, ◌*◌, ◌%◌, ◌^◌, Bool, true, false, ◌||◌, ◌==◌, leb, ltb, if◌then◌else◌,
  none, some,
}
use jsnpg.Base.Int.{ℤ, pos, negsuc, ◌+ℤ◌, neg_ℕ}
use jsnpg.Types.{error_number}
use jsnpg.Floats.{FloatLib}
use jsnpg.Input.{Mis, mis_peek, mis_take, mis_tell, mis_adjust}
use jsnpg.Outcome.{Outcome, ok, no_fuel, throw, ◌>>=◌}
use jsnpg.Parser.White.{bytes_left}

abbrev pub max_sig_digits : ℕ
max_sig_digits = 19

-- (byte)(c - '0')
abbrev pub digit_of : ℕ → ℕ
digit_of c = (c + 256 - b'0') % 256

abbrev pub point : ℕ
point = digit_of b'.'

abbrev pub lower_e : ℕ
lower_e = digit_of b'e'

abbrev pub upper_e : ℕ
upper_e = digit_of b'E'

abbrev pub long_max : ℕ
long_max = 2 ^ 63 - 1

-- the local variables that the loops share
pub record Scan : Type 0 where
  pub sum : ℕ
  pub sig_digits : ℕ
  pub exponent : ℤ

abbrev pub next_digit : Mis → ℕ
next_digit mis = digit_of (mis_peek mis)

-- sum * 10 + c
abbrev pub add_digit : ℕ → ℕ → ℕ
add_digit sum c = (sum * 10 + c) % 2 ^ 64

-- while(c < 10), behind a first digit that is not 0
unfoldable pub integer_step : Scan → ℕ → Scan
integer_step s c =
    if ltb s.sig_digits max_sig_digits
    then record s { sum = add_digit s.sum c; sig_digits = s.sig_digits + 1 }
    else record s { sig_digits = s.sig_digits + 1; exponent = s.exponent +ℤ pos 1 }

unfoldable pub integer_digits : ℕ → Scan → Mis → Outcome Scan
integer_digits zero s mis = no_fuel
integer_digits (suc fuel) s mis =
    let c = next_digit mis in
    let rest = integer_digits fuel (integer_step s c) (mis_take mis) in
    if ltb c 10 then rest else ok s mis

-- do ... while(c < 10), behind the decimal point
unfoldable pub fraction_step : Scan → ℕ → Scan
fraction_step s c =
    let sum = add_digit s.sum c in
    if ltb s.sig_digits max_sig_digits
    then record {
      sum = sum;
      sig_digits = s.sig_digits + (if sum == 0 then 0 else 1);
      exponent = s.exponent +ℤ negsuc 0;
    }
    else s

unfoldable pub fraction_digits : ℕ → Scan → Mis → Outcome Scan
fraction_digits zero s mis = no_fuel
fraction_digits (suc fuel) s mis =
    let s' = fraction_step s (next_digit mis) in
    let rest = fraction_digits fuel s' (mis_take mis) in
    if ltb (next_digit (mis_take mis)) 10 then rest else ok s' (mis_take mis)

-- do ... while(c < 10), behind the exponent's sign
unfoldable pub exponent_digits : ℕ → ℕ → Mis → Outcome ℕ
exponent_digits zero exp mis = no_fuel
exponent_digits (suc fuel) exp mis =
    let exp' = 10 * exp + next_digit mis in
    let rest = exponent_digits fuel exp' (mis_take mis) in
    if ltb 1000 exp'
    then throw error_number (mis_take mis)
    else if ltb (next_digit (mis_take mis)) 10
    then rest
    else ok exp' (mis_take mis)

-- from the first digit, `negative` known, to the end of the integer part
unfoldable pub integer_part : Mis → Outcome Scan
integer_part mis =
    let c = next_digit mis in
    let m = mis_take mis in
    let first : Scan = record { sum = c; sig_digits = if c == 0 then 0 else 1; exponent = pos 0 } in
    if ltb c 10
    then (if c == 0 then ok first m else integer_digits (bytes_left m) first m)
    else throw error_number m

-- `if(c == point)`; the flag is `force_double`
unfoldable pub fraction_part : Scan → Mis → Outcome (Scan × Bool)
fraction_part s mis =
    let m = mis_take mis in
    let digits = (fraction_digits (bytes_left m) s >>= λ s' m'. ok (s', true) m') in
    if next_digit mis == point
    then (if ltb (next_digit m) 10 then digits m else throw error_number m)
    else ok (s, false) mis

-- the sign of the exponent: true for '-', with the stream behind it
unfoldable pub exponent_sign : Mis → Bool × Mis
exponent_sign mis =
    if mis_peek mis == b'-'
    then (true, mis_take mis)
    else if mis_peek mis == b'+'
    then (false, mis_take mis)
    else (false, mis)

-- `if(c == lower_e || c == upper_e)`
unfoldable pub exponent_part : Scan × Bool → Mis → Outcome (Scan × Bool)
exponent_part (s, force) mis =
    let (minus, m) = exponent_sign (mis_take mis) in
    let digits =
      (exponent_digits (bytes_left m) 0 >>= λ exp m'.
      ok (record s { exponent = s.exponent +ℤ (if minus then neg_ℕ exp else pos exp) }, true) m') in
    if next_digit mis == lower_e || next_digit mis == upper_e
    then (if ltb (next_digit m) 10 then digits m else throw error_number m)
    else ok (s, force) mis

-- exponent >= FASTFLOAT_SMALLEST_POWER || exponent <= FASTFLOAT_LARGEST_POWER
unfoldable pub in_fast_range : ℤ → Bool
in_fast_range (pos n) = true || leb n 308
in_fast_range (negsuc n) = leb (suc n) 325 || true

pub data Number (R : Type 0) : Type 0 where
  integer : ℤ → Number R
  real : R → Number R

-- sig_digits > max_sig_digits, or a sum too large for a long
unfoldable pub too_large : Bool → Scan → Bool
too_large negative s =
    ltb max_sig_digits s.sig_digits
    || (if negative then ltb (1 + long_max) s.sum else ltb long_max s.sum)

module _ (lib : FloatLib) where
  open lib use {Real, compute_float_64, parse_float_strtod}

  -- the fall back on strtod, from the first byte of the number
  unfoldable pub slow_real : ℕ → Mis → Outcome (Number Real)
  slow_real start_pos mis = elim (parse_float_strtod mis.bytes start_pos) [
    | none ↦ throw error_number mis
    | some (d, end) ↦ ok (real d) (mis_adjust mis end)
  ]

  unfoldable pub real_result : ℕ → Bool → Scan → Mis → Outcome (Number Real)
  real_result start_pos negative s mis =
      let fast =
        if in_fast_range s.exponent then compute_float_64 s.exponent s.sum negative else none in
      elim fast [ some d ↦ ok (real d) mis | none ↦ slow_real start_pos mis ]

  unfoldable pub parse_number : Mis → Outcome (Number Real)
  parse_number mis =
      let start_pos = mis_tell mis in
      let negative = mis_peek mis == b'-' in
      (integer_part >>= λ s. fraction_part s >>= λ p.
      exponent_part p >>= λ (q : Scan × Bool) (m : Mis).
      if q.1 || too_large negative q.0
      then real_result start_pos negative q.0 m
      else ok (integer (if negative then neg_ℕ q.0.sum else pos q.0.sum)) m)
        (if negative then mis_take mis else mis)
