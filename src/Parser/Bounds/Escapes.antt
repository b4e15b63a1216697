-- ===== src/Parser/Bounds/Escapes.antt =====
-- src/parser.c: escapes stay inside the text, and need no more room than they leave.
use jsnpg.Base.{
  ℕ, zero, suc, ◌+◌, ◌-◌, ◌*◌, ◌≤◌, ◌<◌, true, false, Bool-cases, Option-cases, some, ◌≡◌, ◌≢◌, inl,
  inr, refl, ◌∙◌, arith, ◌==◌, ◌&&◌, ◌||◌, leb, ltb, length,
}
use native.Mathlib.Decide.{ℕ_discrete}
use jsnpg.Utf8.{utf8_encode, continuation_bytes, is_surrogate}
use jsnpg.Input.{Mis, mis_peek, mis_take}
use jsnpg.Outcome.{Outcome, ok, thrown, no_fuel, ◌>>=◌}
use jsnpg.Parser.Escape.{
  hex_value, hex_loop, parse_hex4, escape, low_surrogate, unicode_escape, parse_escape,
}
use jsnpg.Parser.Escape.Reads.{forward}
use jsnpg.Parser.White.Ends.{Inside, before_end}

pub length-encode_le_four : (cp : ℕ) → length (utf8_encode cp) ≤ 4
unfolding utf8_encode continuation_bytes
length-encode_le_four cp = ground arith

length-encode_letter : (e : ℕ) → length (utf8_encode (escape e)) ≤ 2
unfolding utf8_encode escape continuation_bytes is_surrogate
length-encode_letter e = ground arith

escape-nonzero : (e : ℕ) → escape e ≢ 0 → e ≢ 0
unfolding escape
escape-nonzero e letter z = ground (arith, letter, z)

hex_value-nonzero : (c d : ℕ) → hex_value c ≡ some d → c ≢ 0
unfolding hex_value
hex_value-nonzero c d e z = ground (arith, e, z)

-- The function reads at least `low` bytes, inside the text, and changes none, or throws.
abbrev Reads : ℕ → Mis → Outcome ℕ → Type 0
Reads low mis (ok cp m) = (n : ℕ) × (m ≡ forward mis n) × (low ≤ n) × (mis.read + n ≤ mis.count)
Reads low mis (thrown code at m) = Unit
Reads low mis no_fuel = ⊥

Reads-later :
    (low n k : ℕ) (mis : Mis) (o : Outcome ℕ)
    → Reads low (forward mis k) o
    → n ≤ k + low
    → Reads n mis o
Reads-later low n k mis (ok cp m) (j, e, le, within) le' =
    let sum : mis.read + k + j ≡ mis.read + (k + j) = omega arith in
    (k + j, e ∙ rw sum refl, omega (arith, le, le'), omega (arith, within))
Reads-later low n k mis (thrown code at m) r le = tt
Reads-later low n k mis no_fuel r le = absurd r

Reads-bind :
    (low low' n : ℕ) (p : Mis → Outcome ℕ) (f : ℕ → Mis → Outcome ℕ) (mis : Mis)
    → Inside mis
    → Reads low mis (p mis)
    → ((cp : ℕ) (m : Mis) → Inside m → Reads low' m (f cp m))
    → n ≤ low + low'
    → Reads n mis ((p >>= f) mis)
Reads-bind low low' n p f mis i r k le = by_cases (p mis) r
  where
    by_cases : (o : Outcome ℕ) → Reads low mis o → Reads n mis (((λ _. o) >>= f) mis)
    by_cases (ok cp m) (j, e, more, within) =
        let inside : Inside (forward mis j) = record {
          zero_ends = i.zero_ends;
          in_text = within;
        } in
        rw e (
          Reads-later low' n j mis (f cp (forward mis j)) (k cp (forward mis j) inside)
            (omega (arith, more, le)))
    by_cases (thrown code at m) r' = tt
    by_cases no_fuel r' = absurd r'

Inside-take : (mis : Mis) → Inside mis → mis_peek mis ≢ 0 → Inside (mis_take mis)
Inside-take mis i ne = record { zero_ends = i.zero_ends; in_text = before_end mis i ne }

-- A byte that is taken, and a function behind it.
Reads-take :
    (low n : ℕ) (mis : Mis) (o : Outcome ℕ)
    → Reads low (mis_take mis) o
    → n ≤ 1 + low
    → Reads n mis o
Reads-take low n mis o r le =
    let one : mis.read + 1 ≡ suc mis.read = omega arith in Reads-later low n 1 mis o (rw one r) le

hex_loop-Reads :
    (rounds codepoint : ℕ) (mis : Mis)
    → Inside mis
    → Reads rounds mis (hex_loop rounds codepoint mis)
unfolding hex_loop
hex_loop-Reads zero codepoint mis i =
    let none_ : mis.read + 0 ≡ mis.read = omega arith in
    (0, rw none_ refl, omega arith, omega (arith, i.in_text))
hex_loop-Reads (suc rounds) codepoint mis i = elim (Option-cases (hex_value (mis_peek mis))) [
  | inl bad ↦ rw (bad, hex_loop) tt
  | inr (d, e) ↦
      let inside = Inside-take mis i (hex_value-nonzero (mis_peek mis) d e) in
      rw (e, hex_loop)
        (Reads-take rounds (suc rounds) mis _
          (hex_loop-Reads rounds (codepoint * 16 + d) (mis_take mis) inside) (omega arith))
]

parse_hex4-Reads : (mis : Mis) → Inside mis → Reads 4 mis (parse_hex4 mis)
unfolding parse_hex4
parse_hex4-Reads mis i = hex_loop-Reads 4 0 mis i

-- a result without a further byte
Reads-here : (cp : ℕ) (mis : Mis) → Inside mis → Reads 0 mis (ok cp mis)
Reads-here cp mis i =
    let none_ : mis.read + 0 ≡ mis.read = omega arith in
    (0, rw none_ refl, omega arith, omega (arith, i.in_text))

low_surrogate-Reads :
    (codepoint : ℕ) (mis : Mis) → Inside mis → Reads 0 mis (low_surrogate codepoint mis)
unfolding low_surrogate
low_surrogate-Reads codepoint mis i = elim (ℕ_discrete (mis_peek mis) b'\\') [
  | no other ↦ let e : (mis_peek mis == b'\\') ≡ false = ground (arith, other) in rw e tt
  | yes slash ↦
      let e : (mis_peek mis == b'\\') ≡ true = ground (arith, slash) in
      let m₁ = mis_take mis in
      let i₁ = Inside-take mis i (λ z. omega (arith, slash, z)) in
      rw e (elim (ℕ_discrete (mis_peek m₁) b'u') [
        | no other ↦ let e' : (mis_peek m₁ == b'u') ≡ false = ground (arith, other) in rw e' tt
        | yes u ↦
            let e' : (mis_peek m₁ == b'u') ≡ true = ground (arith, u) in
            let m₂ = mis_take m₁ in
            let i₂ = Inside-take m₁ i₁ (λ z. omega (arith, u, z)) in
            rw e' (
              Reads-take 0 0 mis _
                (Reads-take 4 0 m₁ _
                  (Reads-bind 4 0 4 parse_hex4 _ m₂ i₂ (parse_hex4-Reads m₂ i₂)
                    (λ codepoint2 m im.
                      elim (Bool-cases (ltb codepoint2 0xDC00 || ltb 0xDFFF codepoint2)) [
                        | inl bad ↦ rw bad tt
                        | inr good ↦ rw good (
                            Reads-here
                              ((codepoint - 0xD800) * 1024 + (codepoint2 - 0xDC00) + 0x10000) m im)
                      ])
                    (omega arith))
                  (omega arith))
                (omega arith))
      ])
]

unicode_escape-Reads : (mis : Mis) → Inside mis → Reads 4 mis (unicode_escape mis)
unfolding unicode_escape
unicode_escape-Reads mis i =
    Reads-bind 4 0 4 parse_hex4 _ mis i (parse_hex4-Reads mis i)
      (λ codepoint m im. elim (Bool-cases (leb 0xD800 codepoint && leb codepoint 0xDFFF)) [
        | inr other ↦ rw other (Reads-here codepoint m im)
        | inl surrogate ↦ rw surrogate (elim (Bool-cases (leb codepoint 0xDBFF)) [
          | inl high ↦ rw high (low_surrogate-Reads codepoint m im)
          | inr low ↦ rw low tt
        ])
      ])
      (omega arith)

-- An escape, and the room that its codepoint needs.
abbrev pub Fits : Mis → Outcome ℕ → Type 0
Fits mis (ok cp m) =
    (n : ℕ) × (m ≡ forward mis n)
    × (length (utf8_encode cp) ≤ n)
    × (0 < n)
    × (mis.read + n ≤ mis.count)
Fits mis (thrown code at m) = Unit
Fits mis no_fuel = ⊥

Reads-Fits : (mis : Mis) (o : Outcome ℕ) → Reads 4 mis o → Fits mis o
Reads-Fits mis (ok cp m) (n, e, le, within) =
    (n, e, omega (arith, le, length-encode_le_four cp), omega (arith, le), within)
Reads-Fits mis (thrown code at m) r = tt
Reads-Fits mis no_fuel r = absurd r

-- Whatever bytes stand behind the first, parse_escape reads some of them, inside the text, changes
-- none and returns a codepoint whose UTF-8 needs no more bytes than it has read, or throws. The
-- stream is inside its text, which a zero byte ends, and the byte ahead is not zero.
pub parse_escape-Fits : (mis : Mis) → Inside mis → mis_peek mis ≢ 0 → Fits mis (parse_escape mis)
unfolding parse_escape
parse_escape-Fits mis i ne =
    let slash = mis_take mis in
    let i₁ = Inside-take mis i ne in
    let e = mis_peek slash in
    elim (ℕ_discrete (escape e) 0) [
      | no letter ↦
          let t : (escape e == 0) ≡ false = ground (arith, letter) in
          let two : mis.read + 2 ≡ suc (suc mis.read) = omega arith in
          let within = before_end slash i₁ (escape-nonzero e letter) in
          rw t (2, rw two refl, length-encode_letter e, omega arith, omega (arith, within))
      | yes none_ ↦
          let t : (escape e == 0) ≡ true = ground (arith, none_) in
          rw t (elim (ℕ_discrete e b'u') [
            | no other ↦ let t' : (e == b'u') ≡ false = ground (arith, other) in rw t' tt
            | yes u ↦
                let t' : (e == b'u') ≡ true = ground (arith, u) in
                let i₂ = Inside-take slash i₁ (λ z. omega (arith, u, z)) in
                rw t' (
                  Reads-Fits mis _ (
                    Reads-take 3 4 mis _
                      (Reads-take 4 3 slash _ (unicode_escape-Reads (mis_take slash) i₂)
                        (omega arith))
                      (omega arith)))
          ])
    ]
