-- ===== src/Parser/Escape.antt =====
-- src/parser.c: the escapes of a string.
pub mod Reads
use jsnpg.Base.{
  ℕ, zero, suc, ◌+◌, ◌-◌, ◌*◌, Bool, not, ◌&&◌, ◌||◌, ◌==◌, leb, ltb, between, if◌then◌else◌,
  Option, none, some,
}
use jsnpg.Types.{error_escape, error_surrogate}
use jsnpg.Input.{Mis, mis_peek, mis_take, mis_consume}
use jsnpg.Outcome.{Outcome, ok, thrown, no_fuel, throw, ◌>>=◌}

unfoldable pub hex_value : ℕ → Option ℕ
hex_value c =
    if between b'0' b'9' c
    then some (c - b'0')
    else if between b'A' b'F' c
    then some (10 + (c - b'A'))
    else if between b'a' b'f' c
    then some (10 + (c - b'a'))
    else none

-- the rounds left, and the codepoint so far
unfoldable pub hex_loop : ℕ → ℕ → Mis → Outcome ℕ
hex_loop zero codepoint mis = ok codepoint mis
hex_loop (suc rounds) codepoint mis = elim (hex_value (mis_peek mis)) [
  | none ↦ throw error_escape mis
  | some d ↦ hex_loop rounds (codepoint * 16 + d) (mis_take mis)
]

unfoldable pub parse_hex4 : Mis → Outcome ℕ
parse_hex4 mis = hex_loop 4 0 mis

-- the table `escape`; 0 is an entry that is not given
unfoldable pub escape : ℕ → ℕ
escape e =
    if e == b'"'
    then b'"'
    else if e == b'/'
    then b'/'
    else if e == b'\\'
    then b'\\'
    else if e == b'b'
    then 8
    else if e == b'f'
    then 12
    else if e == b'n'
    then b'\n'
    else if e == b'r'
    then b'\r'
    else if e == b't'
    then b'\t'
    else 0

-- the second half of a surrogate pair
unfoldable pub low_surrogate : ℕ → Mis → Outcome ℕ
low_surrogate codepoint mis =
    let (slash, mis₁) = mis_consume mis b'\\' in
    let (u, mis₂) = mis_consume mis₁ b'u' in
    let pair =
      (parse_hex4 >>= λ codepoint2 m.
      if ltb codepoint2 0xDC00 || ltb 0xDFFF codepoint2
      then throw error_surrogate m
      else ok ((codepoint - 0xD800) * 1024 + (codepoint2 - 0xDC00) + 0x10000) m) in
    if not slash
    then throw error_surrogate mis₁
    else if not u
    then throw error_surrogate mis₂
    else pair mis₂

-- behind `\u`
unfoldable pub unicode_escape : Mis → Outcome ℕ
unicode_escape = parse_hex4 >>= λ codepoint m.
    if leb 0xD800 codepoint && leb codepoint 0xDFFF
    then (if leb codepoint 0xDBFF then low_surrogate codepoint m else throw error_surrogate m)
    else ok codepoint m

unfoldable pub parse_escape : Mis → Outcome ℕ
parse_escape mis =
    let slash = mis_take mis in
    let e = mis_peek slash in
    if not (escape e == 0)
    then ok (escape e) (mis_take slash)
    else if e == b'u'
    then unicode_escape (mis_take slash)
    else throw error_escape slash
