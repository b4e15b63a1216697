-- ===== src/Output/Scan/Prints.antt =====
-- src/output.c, jos_scan_escape: what is printed for every text.
use jsnpg.Base.{
  ℕ, zero, suc, ◌+◌, ◌-◌, ◌≤◌, ◌<◌, List, [], ◌∷◌, ◌++◌, append-nil, append_assoc, Bool, true,
  false, ◌≡◌, refl, sym, ◌∙◌, ap, ◌⊎◌, inl, inr, arith, length, length-append, Bool-cases,
}
use jsnpg.Base.Memory.{
  Memory, Holds, Holds-left, Holds-right, Holds-move, slice, slice-Holds, at_list, at_list-Holds,
}
use jsnpg.Utf8.{utf8_encode, is_valid_codepoint}
use jsnpg.Utf8.RoundTrip.{validate-encode, encode_head, encode-AllHigh, length-encode_pos}
use jsnpg.Output.Buffer.Grows.{Contains}
use jsnpg.Output.Stream.{Jos}
use jsnpg.Output.Scan.{is_special, escape_bytes, scan_loop, jos_scan_escape}
use jsnpg.Output.Scan.Escapes.{json_text, escaped-json_text}
use jsnpg.Output.Scan.Reference.{
  Text, nothing, byte, sequence, escaped_byte, escaped, Plain, Printed, jos_puts-Printed, Round,
  round, Printed-after, stops_at, chunk_is, put_special_escape, put_special_sequence, loop_end,
  Plain-append, escaped_high, special_ascii, special_high,
}

module _ (grants : ℕ → Bool) (granted : (n : ℕ) → grants n ≡ true) (string : Memory)
    (count : ℕ) where
  abbrev Prints : ℕ → ℕ → Jos → List ℕ → Type 0
  Prints fuel pmos1 jos text = Printed jos (scan_loop grants string count fuel pmos1 jos) text

  Prints-end :
      (fuel pmos1 : ℕ) (jos : Jos) (out p : List ℕ)
      → Contains jos.mos out
      → Plain jos.validate_utf8 p
      → Holds string pmos1 (p ++ [])
      → pmos1 + length (p ++ []) ≡ count
      → Prints (suc fuel) pmos1 jos (out ++ (p ++ []))
  Prints-end fuel pmos1 jos out p c plain h e =
      let e' : pmos1 + length p ≡ count = rw append-nil at e in
      let stop =
        stops_at grants granted string count jos.validate_utf8 pmos1 p [] plain h e (inl refl) in
      let chunk : slice string pmos1 (count - pmos1) ≡ p =
        rw e' at (chunk_is grants granted string count pmos1 p [] h) in
      rw (loop_end grants granted string count fuel pmos1 jos (stop ∙ e'))
        (rw chunk (rw append-nil (jos_puts-Printed grants granted jos out p c)))

  -- a special character that is escaped
  Round-escape :
      (fuel pmos1 : ℕ) (jos : Jos) (out p rest : List ℕ) (c : ℕ)
      → Contains jos.mos out
      → Plain jos.validate_utf8 p
      → Holds string pmos1 (p ++ c ∷ rest)
      → pmos1 + length (p ++ c ∷ rest) ≡ count
      → is_special jos.validate_utf8 c ≡ true
      → (jos.validate_utf8 ≡ false) ⊎ (c < 0x80)
      → Round grants granted string count fuel pmos1
          (suc (pmos1 + length p))
          jos
          ((out ++ p) ++ escape_bytes c)
  Round-escape fuel pmos1 jos out p rest c held plain h e special ascii =
      let j = pmos1 + length p in
      let at_ : string j ≡ c = (Holds-right string pmos1 p (c ∷ rest) h).0 in
      round grants granted string count fuel pmos1 j (suc j) jos out p (escape_bytes c) held
        (stops_at grants granted string count jos.validate_utf8 pmos1 p (c ∷ rest) plain h e
          (inr (rw at_ special)))
        (omega (arith, length-append p (c ∷ rest)))
        (chunk_is grants granted string count pmos1 p (c ∷ rest) h)
        (λ mos. rw (← at_) (
          put_special_escape grants granted string count (record jos { mos = mos }) j
            (rw at_ ascii)))

  -- a sequence that is checked and copied
  Round-sequence :
      (fuel pmos1 : ℕ) (jos : Jos) (out p rest : List ℕ) (cp : ℕ)
      → Contains jos.mos out
      → Plain jos.validate_utf8 p
      → Holds string pmos1 (p ++ (utf8_encode cp ++ rest))
      → pmos1 + length (p ++ (utf8_encode cp ++ rest)) ≡ count
      → jos.validate_utf8 ≡ true
      → 0x80 ≤ cp
      → is_valid_codepoint cp ≡ true
      → Round grants granted string count fuel pmos1
          (pmos1 + length p + length (utf8_encode cp))
          jos
          ((out ++ p) ++ utf8_encode cp)
  Round-sequence fuel pmos1 jos out p rest cp held plain h e on hi valid =
      let code = utf8_encode cp in
      let j = pmos1 + length p in
      let behind = Holds-right string pmos1 p (code ++ rest) h in
      let here = Holds-left string j code rest behind in
      let (b, bs, spelled, high) = encode_head cp hi valid in
      let first : string j ≡ b = (rw spelled at here).0 in
      let pointer : Holds (λ i. string (j + i)) 0 code =
        Holds-move string (λ i. string (j + i)) j 0 code
          (λ k lt. let z : 0 + k ≡ k = omega arith in rw z) here in
      let some_bytes : 0 < length code = rw spelled (omega arith) in
      let room : length code ≤ count - j =
        omega (arith, length-append p (code ++ rest), length-append code rest) in
      round grants granted string count fuel pmos1 j (j + length code) jos out p code held
        (stops_at grants granted string count jos.validate_utf8 pmos1 p (code ++ rest) plain h e
          (inr (special_high jos.validate_utf8 (string j) on (rw first high))))
        (omega arith) (chunk_is grants granted string count pmos1 p (code ++ rest) h)
        (λ mos.
          put_special_sequence grants granted string count (record jos { mos = mos }) j
            (length code) code on (rw first high)
            (validate-encode (λ i. string (j + i)) (count - j) cp valid pointer room)
            (slice-Holds string code j (length code) refl here))

  -- The induction: plain characters wait in `p` until a special one or the end.
  scan_loop-Prints :
      (v : Bool) (fuel pmos1 : ℕ) (jos : Jos) (out p : List ℕ) {text : List ℕ}
      → Text v text
      → jos.validate_utf8 ≡ v
      → Contains jos.mos out
      → Plain v p
      → Holds string pmos1 (p ++ text)
      → pmos1 + length (p ++ text) ≡ count
      → length text < fuel
      → Prints fuel pmos1 jos (out ++ (p ++ escaped text))
  scan_loop-Prints v zero pmos1 jos out p t f c plain h e lt = absurd (omega arith)
  scan_loop-Prints v (suc fuel) pmos1 jos out p nothing f c plain h e lt =
      Prints-end fuel pmos1 jos out p c (rw f plain) h e
  scan_loop-Prints v (suc fuel) pmos1 jos out p (byte {text} x ascii t) f c plain h e lt =
      elim (Bool-cases (is_special v x)) [
        | inl special ↦
            let r =
              Round-escape fuel pmos1 jos out p text x c (rw f plain) h e (rw f special)
                (rw f ascii) in
            let same : r.after.validate_utf8 ≡ v =
              ap (λ (j : Jos). j.validate_utf8) r.only_mos ∙ f in
            let behind = (Holds-right string pmos1 p (x ∷ text) h).1 in
            let ih =
              scan_loop-Prints v fuel (suc (pmos1 + length p)) r.after
                ((out ++ p) ++ escape_bytes x) [] t same r.contains tt behind
                (omega (arith, length-append p (x ∷ text))) (omega arith) in
            let code : escaped_byte x ≡ escape_bytes x =
              rw (sym (special_ascii v x ascii) ∙ special) refl in
            rw r.run (
              rw code (
                Printed-after grants granted string count jos r.after _ _ r.only_mos
                  (simp append_assoc at ih)))
        | inr ordinary ↦
            let code : escaped_byte x ≡ x ∷ [] =
              rw (sym (special_ascii v x ascii) ∙ ordinary) refl in
            let ih =
              scan_loop-Prints v (suc fuel) pmos1 jos out (p ++ x ∷ []) t f c
                (Plain-append v p x plain ordinary) (rw append_assoc h) (rw append_assoc e)
                (omega arith) in
            rw code (simp append_assoc at ih)
      ]
  scan_loop-Prints v (suc fuel) pmos1 jos out p (sequence {text} cp on hi valid t) f c plain h e
        lt =
      let code = utf8_encode cp in
      let r = Round-sequence fuel pmos1 jos out p text cp c (rw f plain) h e (f ∙ on) hi valid in
      let same : r.after.validate_utf8 ≡ v = ap (λ (j : Jos). j.validate_utf8) r.only_mos ∙ f in
      let behind =
        Holds-right string (pmos1 + length p) code text
          (Holds-right string pmos1 p (code ++ text) h) in
      let ih =
        scan_loop-Prints v fuel (pmos1 + length p + length code) r.after ((out ++ p) ++ code) [] t
          same r.contains tt behind
          (omega (arith, length-append p (code ++ text), length-append code text))
          (omega (arith, length-append code text, length-encode_pos cp hi valid)) in
      rw r.run (
        rw (escaped_high code text (encode-AllHigh cp hi valid)) (
          Printed-after grants granted string count jos r.after _ _ r.only_mos
            (simp append_assoc at ih)))

pub jos_scan_escape-escaped :
    (grants : ℕ → Bool) (jos : Jos) (out text : List ℕ)
    → ((n : ℕ) → grants n ≡ true)
    → Text jos.validate_utf8 text
    → Contains jos.mos out
    → Printed jos (jos_scan_escape grants (at_list text) (length text) jos) (out ++ escaped text)
unfolding jos_scan_escape
jos_scan_escape-escaped grants jos out text granted t c =
    scan_loop-Prints grants granted (at_list text) (length text) jos.validate_utf8
      (suc (length text)) 0 jos out [] t refl c tt (at_list-Holds text) (omega arith) (omega arith)

-- For a text that may be put out, with every allocation granted, `jos_scan_escape` succeeds: it
-- appends the text as JSON has it, with a quote and a backslash behind a backslash, backspace, tab, line
-- feed, form feed and carriage return by their letters, every other character below 32 by \u00 and
-- two hexadecimal digits, and all else as it is; and it leaves all but the buffer alone. The loop's
-- fuel, the length of the text and one more, is enough.
pub jos_scan_escape-Printed :
    (grants : ℕ → Bool) (jos : Jos) (out text : List ℕ)
    → ((n : ℕ) → grants n ≡ true)
    → Text jos.validate_utf8 text
    → Contains jos.mos out
    → Printed jos (jos_scan_escape grants (at_list text) (length text) jos) (out ++ json_text text)
jos_scan_escape-Printed grants jos out text granted t c =
    rw (← escaped-json_text text) (jos_scan_escape-escaped grants jos out text granted t c)
