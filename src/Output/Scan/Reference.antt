-- ===== src/Output/Scan/Reference.antt =====
-- src/output.c, jos_scan_escape, against a description of the text that it puts out.
use jsnpg.Base.{
  ℕ, zero, suc, ◌+◌, ◌-◌, ◌≤◌, ◌<◌, List, [], ◌∷◌, ◌++◌, Bool, true, false, ◌≡◌, refl, ◌∙◌, ap, ◌⊎◌,
  inl, inr, arith, some, if◌then◌else◌, length, length-append,
}
use jsnpg.Base.Memory.{Memory, Holds, Holds-left, slice, slice-Holds}
use jsnpg.Utf8.{utf8_encode, is_valid_codepoint, utf8_validate_sequence}
use jsnpg.Utf8.RoundTrip.{AllHigh}
use jsnpg.Output.Buffer.{Mos, Did}
use jsnpg.Output.Buffer.Grows.{Contains, mos_puts-Contains}
use jsnpg.Output.Stream.{Jos, jos_puts}
use jsnpg.Output.Scan.{
  is_special, find_special, find_next_special, escape_bytes, put_special, scan_loop,
}

-- A text that may be put out. Where UTF-8 is checked, what is not ASCII stands in encodings of
-- valid codepoints.
pub data Text (v : Bool) : List ℕ → Type 0 where
  nothing : Text v []
  byte : {text : List ℕ} (c : ℕ) → (v ≡ false) ⊎ (c < 0x80) → Text v text → Text v (c ∷ text)
  sequence :
      {text : List ℕ} (cp : ℕ)
      → v ≡ true
      → 0x80 ≤ cp
      → is_valid_codepoint cp ≡ true
      → Text v text
      → Text v (utf8_encode cp ++ text)

-- each quote, backslash and control character escaped
abbrev pub escaped_byte : ℕ → List ℕ
escaped_byte c = if is_special false c then escape_bytes c else c ∷ []

abbrev pub escaped : List ℕ → List ℕ
escaped [] = []
escaped (c ∷ text) = escaped_byte c ++ escaped text

abbrev pub Plain : Bool → List ℕ → Type 0
Plain v [] = Unit
Plain v (c ∷ cs) = (is_special v c ≡ false) × Plain v cs

module _ (v : Bool) (string : Memory) where
  -- the scan passes over characters that are not special, and stops at one that is or at the end
  find_special-stop :
      (plain : List ℕ) (rounds i : ℕ)
      → Plain v plain
      → Holds string i plain
      → length plain ≤ rounds
      → (rounds ≡ length plain) ⊎ (is_special v (string (i + length plain)) ≡ true)
      → find_special v string rounds i ≡ i + length plain
  unfolding find_special
  find_special-stop [] zero i p h le stop = omega arith
  find_special-stop [] (suc rounds) i p h le (inl e) = absurd (omega arith)
  find_special-stop [] (suc rounds) i p h le (inr s) =
      let z : i + 0 ≡ i = omega arith in rw z (rw (rw z at s) refl)
  find_special-stop (c ∷ cs) zero i p h le stop = absurd (omega arith)
  find_special-stop (c ∷ cs) (suc rounds) i p h le stop =
      let e : i + suc (length cs) ≡ suc i + length cs = omega arith in
      let here : is_special v (string i) ≡ false = rw (h.0) p.0 in
      rw here (rw e (find_special-stop cs rounds (suc i) p.1 h.1 (omega arith) (next stop e)))
    where
      next :
          (suc rounds ≡ suc (length cs)) ⊎ (is_special v (string (i + suc (length cs))) ≡ true)
          → i + suc (length cs) ≡ suc i + length cs
          → (rounds ≡ length cs) ⊎ (is_special v (string (suc i + length cs)) ≡ true)
      next (inl a) e = inl (omega arith)
      next (inr b) e = inr (rw e at b)

-- The run succeeded, put `text` into the buffer, and left the other fields alone.
pub record Printed (jos : Jos) (d : Did Jos) (text : List ℕ) : Type 0 where
  pub success : d.success ≡ true
  pub contains : Contains d.state.mos text
  pub only_mos : d.state ≡ record jos { mos = d.state.mos }

module _ (grants : ℕ → Bool) (granted : (n : ℕ) → grants n ≡ true) where
  pub jos_puts-Printed :
      (jos : Jos) (out string : List ℕ)
      → Contains jos.mos out
      → Printed jos (jos_puts grants jos string) (out ++ string)
  jos_puts-Printed jos out string c =
      let p = mos_puts-Contains grants granted jos.mos out string c in
      record { success = p.0; contains = p.1; only_mos = refl }

  module _ (string : Memory) (count : ℕ) where
    pub put_special_escape :
        (jos : Jos) (j : ℕ)
        → (jos.validate_utf8 ≡ false) ⊎ (string j < 0x80)
        → put_special grants string count jos j
          ≡ (jos_puts grants jos (escape_bytes (string j)), suc j)
    unfolding put_special
    put_special_escape jos j h = ground arith

    pub put_special_sequence :
        (jos : Jos) (j len : ℕ) (code : List ℕ)
        → jos.validate_utf8 ≡ true
        → 0x80 ≤ string j
        → utf8_validate_sequence (λ i. string (j + i)) (count - j) ≡ some len
        → slice string j len ≡ code
        → put_special grants string count jos j ≡ (jos_puts grants jos code, j + len)
    unfolding put_special
    put_special_sequence jos j len code v hi ok_ e = ground arith

    pub loop_end :
        (fuel pmos1 : ℕ) (jos : Jos)
        → find_next_special string count pmos1 jos.validate_utf8 ≡ count
        → scan_loop grants string count (suc fuel) pmos1 jos
          ≡ jos_puts grants jos (slice string pmos1 (count - pmos1))
    unfolding scan_loop
    loop_end fuel pmos1 jos e = rw (e, scan_loop) (ground arith)

    loop_more :
        (fuel pmos1 j next : ℕ) (jos : Jos) (put : Did Jos)
        → find_next_special string count pmos1 jos.validate_utf8 ≡ j
        → j < count
        → (jos_puts grants jos (slice string pmos1 (j - pmos1))).success ≡ true
        → put_special grants string count
            (jos_puts grants jos (slice string pmos1 (j - pmos1))).state
            j
          ≡ (put, next)
        → put.success ≡ true
        → scan_loop grants string count (suc fuel) pmos1 jos
          ≡ scan_loop grants string count fuel next put.state
    unfolding scan_loop
    loop_more fuel pmos1 j next jos put e lt copied special ok_ =
        rw (e, scan_loop) (rw special (rw copied (rw ok_ (ground arith))))

    -- where a round ends: the next position, and the stream with more text put
    pub record Round (fuel pmos1 next : ℕ) (jos : Jos) (text : List ℕ) : Type 0 where
      pub after : Jos
      pub run :
          scan_loop grants string count (suc fuel) pmos1 jos
          ≡ scan_loop grants string count fuel next after
      pub contains : Contains after.mos text
      pub only_mos : after ≡ record jos { mos = after.mos }

    pub round :
        (fuel pmos1 j next : ℕ) (jos : Jos) (out p code : List ℕ)
        → Contains jos.mos out
        → find_next_special string count pmos1 jos.validate_utf8 ≡ j
        → j < count
        → slice string pmos1 (j - pmos1) ≡ p
        → ((mos : Mos)
            → put_special grants string count (record jos { mos = mos }) j
              ≡ (jos_puts grants (record jos { mos = mos }) code, next))
        → Round fuel pmos1 next jos ((out ++ p) ++ code)
    round fuel pmos1 j next jos out p code c e lt chunk special =
        let first = jos_puts-Printed jos out p c in
        let middle = (jos_puts grants jos p).state in
        let second = jos_puts-Printed middle (out ++ p) code first.contains in
        record {
          after = (jos_puts grants middle code).state;
          run =
              loop_more fuel pmos1 j next jos (jos_puts grants middle code) e lt
                (rw chunk first.success) (rw chunk (special middle.mos)) second.success;
          contains = second.contains;
          only_mos = refl;
        }

    pub Printed-after :
        (jos after : Jos) (d : Did Jos) (text : List ℕ)
        → after ≡ record jos { mos = after.mos }
        → Printed after d text
        → Printed jos d text
    Printed-after jos after d text e p = record {
      success = p.success;
      contains = p.contains;
      only_mos = p.only_mos ∙ ap (λ (k : Jos). record k { mos = d.state.mos }) e;
    }

    pub stops_at :
        (v : Bool) (pmos1 : ℕ) (p rest : List ℕ)
        → Plain v p
        → Holds string pmos1 (p ++ rest)
        → pmos1 + length (p ++ rest) ≡ count
        → (length rest ≡ 0) ⊎ (is_special v (string (pmos1 + length p)) ≡ true)
        → find_next_special string count pmos1 v ≡ pmos1 + length p
    stops_at v pmos1 p rest plain h e stop =
        find_special-stop v string p (count - pmos1) pmos1 plain (Holds-left string pmos1 p rest h)
          (omega (arith, length-append p rest)) (last stop)
      where
        last :
            (length rest ≡ 0) ⊎ (is_special v (string (pmos1 + length p)) ≡ true)
            → (count - pmos1 ≡ length p) ⊎ (is_special v (string (pmos1 + length p)) ≡ true)
        last (inl z) = inl (omega (arith, length-append p rest))
        last (inr s) = inr s

    pub chunk_is :
        (pmos1 : ℕ) (p rest : List ℕ)
        → Holds string pmos1 (p ++ rest)
        → slice string pmos1 (pmos1 + length p - pmos1) ≡ p
    chunk_is pmos1 p rest h =
        slice-Holds string p pmos1 _ (omega arith) (Holds-left string pmos1 p rest h)

pub Plain-append :
    (v : Bool) (p : List ℕ) (c : ℕ) → Plain v p → is_special v c ≡ false → Plain v (p ++ c ∷ [])
Plain-append v [] c h e = (e, tt)
Plain-append v (x ∷ p) c h e = (h.0, Plain-append v p c h.1 e)

-- what is not ASCII is not escaped
pub escaped_high : (xs ys : List ℕ) → AllHigh xs → escaped (xs ++ ys) ≡ xs ++ escaped ys
unfolding is_special
escaped_high [] ys h = refl
escaped_high (x ∷ xs) ys h =
    let plain : escaped_byte x ≡ x ∷ [] = ground arith in rw (plain, escaped_high xs ys h.1)

pub special_ascii :
    (v : Bool) (c : ℕ) → (v ≡ false) ⊎ (c < 0x80) → is_special v c ≡ is_special false c
unfolding is_special
special_ascii v c h = ground arith

pub special_high : (v : Bool) (c : ℕ) → v ≡ true → 0x80 ≤ c → is_special v c ≡ true
unfolding is_special
special_high v c on h = ground arith
