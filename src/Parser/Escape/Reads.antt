-- ===== src/Parser/Escape/Reads.antt =====
-- src/parser.c, parse_escape: every escape of the grammar is read, and gives its codepoint.
use jsnpg.Base.{
  ℕ, suc, ◌+◌, ◌-◌, ◌*◌, ◌≤◌, ◌<◌, List, [], ◌∷◌, ◌++◌, some, ◌≡◌, refl, ◌∙◌, ◌⊎◌, arith, length,
  length-append,
}
use jsnpg.Base.Memory.{Holds, Holds-left, Holds-right}
use jsnpg.Input.{Mis, mis_peek, mis_take}
use jsnpg.Outcome.{ok}
use jsnpg.Utf8.{utf8_encode}
use jsnpg.Utf8.RoundTrip.{encode_1, length-encode-le}
use jsnpg.Parser.Grammar.{
  Hex, decimal, upper, lower, Hex4, hex4, Short, quote, slash, backslash, backspace, form_feed,
  line_feed, carriage_return, tab, Escape, short, unicode, pair,
}
use jsnpg.Parser.Escape.{
  hex_value, hex_loop, parse_hex4, escape, low_surrogate, unicode_escape, parse_escape,
}

hex_value-Hex : (c d : ℕ) → Hex c d → hex_value c ≡ some d
unfolding hex_value
hex_value-Hex c d (decimal h e) = ground arith
hex_value-Hex c d (upper lo hi e) = ground arith
hex_value-Hex c d (lower lo hi e) = ground arith

-- the stream with `n` more bytes read
abbrev pub forward : Mis → ℕ → Mis
forward mis n = record mis { read = mis.read + n }

hex_loop-suc :
    (n cp d : ℕ) (mis : Mis)
    → Hex (mis_peek mis) d
    → hex_loop (suc n) cp mis ≡ hex_loop n (cp * 16 + d) (mis_take mis)
unfolding hex_loop
hex_loop-suc n cp d mis h = rw (hex_value-Hex (mis_peek mis) d h, hex_loop) refl

hex_loop-zero : (cp : ℕ) (mis : Mis) → hex_loop 0 cp mis ≡ ok cp mis
unfolding hex_loop
hex_loop-zero cp mis = refl

-- reading four bytes one by one
forward_4 : (mis : Mis) → mis_take (mis_take (mis_take (mis_take mis))) ≡ forward mis 4
forward_4 mis = let e : suc (suc (suc (suc mis.read))) ≡ mis.read + 4 = omega arith in rw e

parse_hex4-Hex4 :
    (mis : Mis) (digits : List ℕ) (value : ℕ)
    → Hex4 digits value
    → Holds mis.bytes mis.read digits
    → parse_hex4 mis ≡ ok value (forward mis 4)
unfolding parse_hex4
parse_hex4-Hex4 mis digits value (hex4 {d₁} {d₂} {d₃} {d₄} h₁ h₂ h₃ h₄ e) at_ =
    let m₁ = mis_take mis in
    let m₂ = mis_take m₁ in
    let m₃ = mis_take m₂ in
    let total : (((0 * 16 + d₁) * 16 + d₂) * 16 + d₃) * 16 + d₄ ≡ value = omega arith in
    hex_loop-suc 3 0 d₁ mis (rw (at_.0) h₁)
    ∙ hex_loop-suc 2 (0 * 16 + d₁) d₂ m₁ (rw (at_.1.0) h₂)
    ∙ hex_loop-suc 1 ((0 * 16 + d₁) * 16 + d₂) d₃ m₂ (rw (at_.1.1.0) h₃)
    ∙ hex_loop-suc 0 (((0 * 16 + d₁) * 16 + d₂) * 16 + d₃) d₄ m₃ (rw (at_.1.1.1.0) h₄)
    ∙ hex_loop-zero _ _
    ∙ rw (total, forward_4 mis)

escape-Short : (e x : ℕ) → Short e x → (escape e ≡ x) × (0 < x) × (x < 0x80)
unfolding escape
escape-Short e x (quote p q) = ground arith
escape-Short e x (slash p q) = ground arith
escape-Short e x (backslash p q) = ground arith
escape-Short e x (backspace p q) = ground arith
escape-Short e x (form_feed p q) = ground arith
escape-Short e x (line_feed p q) = ground arith
escape-Short e x (carriage_return p q) = ground arith
escape-Short e x (tab p q) = ground arith

length-Hex4 : (digits : List ℕ) (value : ℕ) → Hex4 digits value → length digits ≡ 4
length-Hex4 digits value (hex4 h₁ h₂ h₃ h₄ e) = refl

unfold_short :
    (mis : Mis) (x : ℕ)
    → escape (mis_peek (mis_take mis)) ≡ x
    → 0 < x
    → parse_escape mis ≡ ok x (mis_take (mis_take mis))
unfolding parse_escape
unfold_short mis x e h = ground arith

unfold_unicode :
    (mis : Mis)
    → mis_peek (mis_take mis) ≡ b'u'
    → parse_escape mis ≡ unicode_escape (mis_take (mis_take mis))
unfolding parse_escape escape
unfold_unicode mis e = rw (e, parse_escape) refl

unicode_escape-plain :
    (mis m : Mis) (cp : ℕ)
    → parse_hex4 mis ≡ ok cp m
    → (cp < 0xD800) ⊎ (0xDFFF < cp)
    → unicode_escape mis ≡ ok cp m
unfolding unicode_escape
unicode_escape-plain mis m cp h range = ground arith

unicode_escape-high :
    (mis m : Mis) (cp : ℕ)
    → parse_hex4 mis ≡ ok cp m
    → 0xD800 ≤ cp
    → cp < 0xDC00
    → unicode_escape mis ≡ low_surrogate cp m
unfolding unicode_escape
unicode_escape-high mis m cp h lo hi = ground arith

low_surrogate-pair :
    (mis m : Mis) (high low cp : ℕ)
    → mis_peek mis ≡ b'\\'
    → mis_peek (mis_take mis) ≡ b'u'
    → parse_hex4 (mis_take (mis_take mis)) ≡ ok low m
    → 0xDC00 ≤ low
    → low < 0xE000
    → 0xD800 ≤ high
    → cp + 0xD800 * 1024 + 0xDC00 ≡ high * 1024 + low + 0x10000
    → low_surrogate high mis ≡ ok cp m
unfolding low_surrogate
low_surrogate-pair mis m high low cp s u h lo hi top e =
    let value : (high - 0xD800) * 1024 + (low - 0xDC00) + 0x10000 ≡ cp = omega arith in
    ground (arith, value)

-- The stream stands at the escape `esc`, which is read whole as the codepoint `cp`.
abbrev ReadsAs : Mis → List ℕ → ℕ → Type 0
ReadsAs mis esc cp =
    Holds mis.bytes mis.read esc → parse_escape mis ≡ ok cp (forward mis (length esc))

module _ (mis : Mis) where
  forward-eq :
      (m : Mis) (n k : ℕ) → m ≡ record mis { read = n } → n ≡ mis.read + k → m ≡ forward mis k
  forward-eq m n k p e = rw (p, e)

  parse_escape-Short : (e x : ℕ) → Short e x → ReadsAs mis (b'\\' ∷ e ∷ []) x
  parse_escape-Short e x s at_ =
      let t = escape-Short e x s in
      let end : suc (suc mis.read) ≡ mis.read + 2 = omega arith in
      unfold_short mis x (rw (at_.1.0) t.0) t.1 ∙ rw end

  parse_escape-unicode :
      (digits : List ℕ) (cp : ℕ)
      → Hex4 digits cp
      → (cp < 0xD800) ⊎ (0xDFFF < cp)
      → ReadsAs mis (b'\\' ∷ b'u' ∷ digits) cp
  parse_escape-unicode digits cp h range at_ =
      let m = mis_take (mis_take mis) in
      let end : suc (suc mis.read) + 4 ≡ mis.read + suc (suc (length digits)) =
        omega (arith, length-Hex4 digits cp h) in
      unfold_unicode mis at_.1.0
      ∙ unicode_escape-plain m (forward m 4) cp (parse_hex4-Hex4 m digits cp h at_.1.1) range
      ∙ rw end

  parse_escape-pair :
      (digits digits' : List ℕ) (high low cp : ℕ)
      → Hex4 digits high
      → Hex4 digits' low
      → 0xD800 ≤ high
      → high < 0xDC00
      → 0xDC00 ≤ low
      → low < 0xE000
      → cp + 0xD800 * 1024 + 0xDC00 ≡ high * 1024 + low + 0x10000
      → ReadsAs mis (b'\\' ∷ b'u' ∷ (digits ++ b'\\' ∷ b'u' ∷ digits')) cp
  parse_escape-pair digits digits' high low cp h h' a b c d e at_ =
      let m = mis_take (mis_take mis) in
      let m' = forward m 4 in
      let n = mis_take (mis_take m') in
      let len = length-Hex4 digits high h in
      let behind =
        Holds-right mis.bytes (suc (suc mis.read)) digits (b'\\' ∷ b'u' ∷ digits') at_.1.1 in
      let tail = rw len at behind in
      let whole = length-append digits (b'\\' ∷ b'u' ∷ digits') in
      let end : suc (suc (suc (suc mis.read) + 4)) + 4
          ≡ mis.read + suc (suc (length (digits ++ b'\\' ∷ b'u' ∷ digits'))) =
        omega (arith, len, length-Hex4 digits' low h', whole) in
      unfold_unicode mis at_.1.0
      ∙ unicode_escape-high m m' high
          (parse_hex4-Hex4 m digits high h
            (Holds-left mis.bytes (suc (suc mis.read)) digits _ at_.1.1))
          a b
      ∙ low_surrogate-pair m' (forward n 4) high low cp (tail.0) (tail.1.0)
          (parse_hex4-Hex4 n digits' low h' (tail.1.1)) c d a e
      ∙ rw end

-- Each escape of the grammar is read whole, and gives its codepoint.
pub parse_escape-Escape :
    (mis : Mis) (esc : List ℕ) (cp : ℕ)
    → Escape esc cp
    → Holds mis.bytes mis.read esc
    → parse_escape mis ≡ ok cp (forward mis (length esc))
parse_escape-Escape mis esc cp (short s) at_ = parse_escape-Short mis _ cp s at_
parse_escape-Escape mis esc cp (unicode h range) at_ = parse_escape-unicode mis _ cp h range at_
parse_escape-Escape mis esc cp (pair h h' a b c d e) at_ =
    parse_escape-pair mis _ _ _ _ cp h h' a b c d e at_

Hex-lt : (c d : ℕ) → Hex c d → d < 16
Hex-lt c d (decimal h e) = omega arith
Hex-lt c d (upper lo hi e) = hi
Hex-lt c d (lower lo hi e) = hi

-- An escape is longer than the encoding of its codepoint, so unescaping in place never writes over
-- what is still to be read.
pub length-encode-lt-Escape :
    (esc : List ℕ) (cp : ℕ) → Escape esc cp → length (utf8_encode cp) < length esc
length-encode-lt-Escape esc cp (short {e} s) =
    rw (encode_1 cp (escape-Short e cp s).2) (omega arith)
length-encode-lt-Escape esc cp (unicode {digits} h range) =
    omega (arith, length-Hex4 digits cp h, length-encode-le cp)
length-encode-lt-Escape esc cp (pair {digits} {digits'} {high} h h' a b c d e) = omega (
  arith,
  length-Hex4 digits high h,
  length-append digits (b'\\' ∷ b'u' ∷ digits'),
  length-encode-le cp,
)
