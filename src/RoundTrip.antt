-- ===== src/RoundTrip.antt =====
-- A string that src/output.c prints, read back by src/parser.c.
pub mod Written
pub mod Values
pub mod Documents
use jsnpg.Base.{
  ℕ, ◌/◌, ◌%◌, ◌≤◌, ◌<◌, List, [], ◌∷◌, Bool, true, false, ◌≡◌, ◌≢◌, refl, inl, inr, arith, ◌==◌,
  ltb, length, length-append, Bool-cases,
}
use native.Mathlib.Decide.{ℕ_discrete}
use jsnpg.Base.Memory.{Holds}
use jsnpg.Utf8.{utf8_encode}
use jsnpg.Utf8.RoundTrip.{encode_1, encode-AllHigh}
use jsnpg.Parser.Grammar.{
  Hex, decimal, upper, hex4, Short, quote, backslash, backspace, form_feed, line_feed,
  carriage_return, tab, Escape, short, unicode, Denotes, plain, sequence, escaped,
}
use jsnpg.Output.Scan.{is_special, c_escapes, hex_digit, escape_bytes}
use jsnpg.Output.Scan.Reference.{Text, byte, escaped_byte, escaped_high}
use jsnpg.Output.Scan.Reference
use jsnpg.Output.Stream.{jos_new}
use jsnpg.Output.Printer.{print_string}
use jsnpg.Output.Printer.Quoted.{print_string-Contains}
use jsnpg.Input.{Mis, mis_new, mis_set_bytes}
use jsnpg.Outcome.{ok}
use jsnpg.Parser.Strings.{parse_string}
use jsnpg.Parser.Strings.Decode.{parse_string-Denotes}

hex_digit-Hex : (d : ℕ) → d < 16 → Hex (hex_digit d) d
unfolding hex_digit
hex_digit-Hex d h = elim (Bool-cases (ltb d 10)) [
  | inl e ↦ decimal (ground arith) (ground arith)
  | inr e ↦ upper (ground arith) h (ground arith)
]

-- The characters that have a letter of their own.
c_escapes-Short : (c : ℕ) → 0 < c_escapes c → Short (c_escapes c) c
unfolding c_escapes
c_escapes-Short c h = elim (ℕ_discrete c 8) [
  | yes e ↦ backspace (ground arith) e
  | no ne0 ↦ elim (ℕ_discrete c 9) [
    | yes e ↦ tab (ground arith) e
    | no ne1 ↦ elim (ℕ_discrete c 10) [
      | yes e ↦ line_feed (ground arith) e
      | no ne2 ↦ elim (ℕ_discrete c 12) [
        | yes e ↦ form_feed (ground arith) e
        | no ne3 ↦ elim (ℕ_discrete c 13) [
          | yes e ↦ carriage_return (ground arith) e
          | no ne4 ↦ elim (ℕ_discrete c 34) [
            | yes e ↦ quote (ground arith) e
            | no ne5 ↦ elim (ℕ_discrete c 92) [
              | yes e ↦ backslash (ground arith) e
              | no ne6 ↦ absurd (ground arith)
            ]
          ]
        ]
      ]
    ]
  ]
]

c_escapes_none : (c : ℕ) → c_escapes c ≡ 0 → is_special false c ≡ true → c < 0x20
unfolding c_escapes is_special
c_escapes_none c e h = ground arith

zero-Hex : Hex b'0' 0
zero-Hex = decimal (omega arith) refl

-- What is written for a special character is an escape of the grammar, and denotes it.
escape_bytes-Escape : (c : ℕ) → is_special false c ≡ true → Escape (escape_bytes c) c
unfolding escape_bytes
escape_bytes-Escape c h = elim (Bool-cases (c_escapes c == 0)) [
  | inl e ↦
      let low : c < 0x20 = c_escapes_none c (ground arith) h in
      rw e (
        unicode
          (hex4 zero-Hex zero-Hex (hex_digit-Hex (c / 16) (omega arith))
            (hex_digit-Hex (c % 16) (omega arith)) (omega arith))
          (inl (omega arith)))
  | inr e ↦ rw e (short (c_escapes-Short c (ground arith)))
]

special_ascii : (c : ℕ) → is_special false c ≡ true → c < 0x80
unfolding is_special
special_ascii c h = ground arith

ordinary_bounds : (c : ℕ) → is_special false c ≡ false → (0x20 ≤ c) × (c ≢ b'"') × (c ≢ b'\\')
unfolding is_special
ordinary_bounds c h = (ground arith, ground arith, ground arith)

-- The escaped text is the body of a JSON string that denotes the text.
pub escaped-Denotes :
    (v : Bool) {text : List ℕ} → Text v text → Denotes v (Reference.escaped text) text
escaped-Denotes v Text.nothing = Denotes.nothing
escaped-Denotes v (byte {text} c ascii t) = elim (Bool-cases (is_special false c)) [
  | inl special ↦
      let one = escaped c (escape_bytes-Escape c special) (escaped-Denotes v t) in
      let code = encode_1 c (special_ascii c special) in
      let e : escaped_byte c ≡ escape_bytes c = rw special in rw e (rw code at one)
  | inr ordinary ↦
      let b = ordinary_bounds c ordinary in
      let e : escaped_byte c ≡ c ∷ [] = rw ordinary in
      rw e (plain c b.0 b.1 b.2 ascii (escaped-Denotes v t))
]
escaped-Denotes v (Text.sequence {text} cp on hi valid t) =
    rw (escaped_high (utf8_encode cp) text (encode-AllHigh cp hi valid))
      (sequence cp on hi valid (escaped-Denotes v t))

-- A text that may be put out, printed on a fresh stream with every allocation granted and read back
-- with the same setting for UTF-8: every call succeeds, the parser returns the text's length and leaves the text in its
-- buffer, and it stops at the end of what was printed.
pub parse_string-print_string :
    (grants : ℕ → Bool) (v : Bool) (text : List ℕ)
    → ((n : ℕ) → grants n ≡ true)
    → Text v text
    → let d = print_string grants (jos_new 0 v) text in
      (d.success ≡ true)
      × ((len : ℕ) × (m : Mis) × (parse_string v
              (mis_set_bytes mis_new d.state.mos.buffer d.state.mos.count)
            ≡ ok len m)
          × (len ≡ length text)
          × Holds m.bytes m.string text
          × (m.read ≡ d.state.mos.count))
unfolding mis_set_bytes mis_new
parse_string-print_string grants v text granted t =
    let (success, c) = print_string-Contains grants granted v text t in
    let d = print_string grants (jos_new 0 v) text in
    let mis = mis_set_bytes mis_new d.state.mos.buffer d.state.mos.count in
    let size = length-append (Reference.escaped text) (b'"' ∷ []) in
    let (len, m, run, done) =
      parse_string-Denotes v mis (escaped-Denotes v t) c.holds.1
        (omega (arith, c.count_is, size)) in
    (success, (len, m, run, done.length_is, done.holds, omega (arith, done.read, c.count_is, size)))
