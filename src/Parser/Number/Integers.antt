-- ===== src/Parser/Number/Integers.antt =====
-- src/parser.c, parse_number, on the integers of JSON: a grammar of them, and what is read.
use jsnpg.Base.{
  ℕ, zero, suc, ◌+◌, ◌-◌, ◌*◌, ◌%◌, ◌^◌, ◌≤◌, ◌<◌, List, [], ◌∷◌, Bool, true, false, ◌≡◌, ◌≢◌, ◌⊎◌,
  refl, ◌∙◌, arith, length, ltb, ltb-eq_true, ◌==◌, if◌then◌else◌,
}
use jsnpg.Base.Int.{pos, neg_ℕ}
use jsnpg.Base.Memory.{Holds}
use jsnpg.Floats.{FloatLib}
use jsnpg.Input.{Mis, mis_peek, mis_take}
use jsnpg.Outcome.{Outcome, ok, ◌>>=◌}
use jsnpg.Parser.Escape.Reads.{forward}
use jsnpg.Parser.White.{bytes_left}
use jsnpg.Parser.Number.{
  Scan, integer, next_digit, digit_of, long_max, integer_step, integer_digits, integer_part,
  fraction_part, exponent_part, too_large, parse_number,
}

-- decimal digits that take the value read so far from `n` to `v`
pub data Digits : ℕ → List ℕ → ℕ → Type 0 where
  stop : {n : ℕ} → Digits n [] n
  digit :
      {n c : ℕ} {cs : List ℕ} {v : ℕ}
      → b'0' ≤ c
      → c ≤ b'9'
      → Digits (n * 10 + (c - b'0')) cs v
      → Digits n (c ∷ cs) v

-- a JSON integer without its sign: no leading zero
pub data Natural : List ℕ → ℕ → Type 0 where
  naught : Natural (b'0' ∷ []) 0
  positive :
      {c : ℕ} {cs : List ℕ} {v : ℕ}
      → b'1' ≤ c
      → c ≤ b'9'
      → Digits (c - b'0') cs v
      → Natural (c ∷ cs) v

-- A byte that can follow an integer: no digit, point or exponent.
abbrev pub EndsInteger : ℕ → Type 0
EndsInteger c = (c < 256) × ((c < b'0') ⊎ (b'9' < c)) × (c ≢ b'.') × (c ≢ b'e') × (c ≢ b'E')

Digits-le : (n : ℕ) (cs : List ℕ) (v : ℕ) → Digits n cs v → n ≤ v
Digits-le n [] _ stop = omega arith
Digits-le n (c ∷ cs) v (digit lo hi ds) = omega (arith, Digits-le (n * 10 + (c - b'0')) cs v ds)

digit_of-digit : (c : ℕ) → b'0' ≤ c → c ≤ b'9' → digit_of c ≡ c - b'0'
digit_of-digit c lo hi = omega arith

digit_of-end : (c : ℕ) → EndsInteger c → ltb (digit_of c) 10 ≡ false
digit_of-end c h = ground (arith, h)

integer_digits-more :
    (fuel : ℕ) (s : Scan) (mis : Mis)
    → next_digit mis < 10
    → integer_digits (suc fuel) s mis
      ≡ integer_digits fuel (integer_step s (next_digit mis)) (mis_take mis)
unfolding integer_digits
integer_digits-more fuel s mis h = rw (ltb-eq_true (next_digit mis) 10 h) refl

integer_digits-end :
    (fuel : ℕ) (s : Scan) (mis : Mis)
    → ltb (next_digit mis) 10 ≡ false
    → integer_digits (suc fuel) s mis ≡ ok s mis
unfolding integer_digits
integer_digits-end fuel s mis h = rw h refl

integer_step-digit :
    (s : Scan) (d : ℕ)
    → s.sig_digits < 19
    → s.sum * 10 + d < 2 ^ 64
    → integer_step s d ≡ record s { sum = s.sum * 10 + d; sig_digits = s.sig_digits + 1 }
unfolding integer_step
integer_step-digit s d h small =
    let whole : (s.sum * 10 + d) % 2 ^ 64 ≡ s.sum * 10 + d = omega arith in
    rw (ltb-eq_true s.sig_digits 19 h) (rw whole refl)

-- The loop reads every digit, and adds nothing else to the value.
integer_digits-Digits :
    (fuel : ℕ) (s : Scan) (mis : Mis) (cs : List ℕ) (v : ℕ)
    → Digits s.sum cs v
    → Holds mis.bytes mis.read cs
    → EndsInteger (mis.bytes (mis.read + length cs))
    → length cs < fuel
    → s.sig_digits + length cs ≤ 19
    → v < 2 ^ 64
    → integer_digits fuel s mis
      ≡ ok (record s { sum = v; sig_digits = s.sig_digits + length cs }) (forward mis (length cs))
integer_digits-Digits zero s mis cs v ds at_ends end fuel sig small = absurd (omega arith)
integer_digits-Digits (suc fuel) s mis [] _ stop text end enough sig small =
    let here : mis.read + 0 ≡ mis.read = omega arith in
    let same : s.sig_digits + 0 ≡ s.sig_digits = omega arith in
    rw (here, same) (integer_digits-end fuel s mis (digit_of-end (mis_peek mis) (rw here at end)))
integer_digits-Digits (suc fuel) s mis (c ∷ cs) v (digit lo hi ds) text end enough sig small =
    let peek : mis_peek mis ≡ c = text.0 in
    let next : next_digit mis ≡ c - b'0' = rw peek (digit_of-digit c lo hi) in
    let room : s.sum * 10 + (c - b'0') < 2 ^ 64 = omega (arith, Digits-le _ cs v ds) in
    let s' : Scan = record {
      sum = s.sum * 10 + (c - b'0');
      sig_digits = s.sig_digits + 1;
      exponent = s.exponent;
    } in
    let along : mis.read + suc (length cs) ≡ suc mis.read + length cs = omega arith in
    let count : s.sig_digits + suc (length cs) ≡ s.sig_digits + 1 + length cs = omega arith in
    integer_digits-more fuel s mis (rw next (omega arith))
    ∙ rw next (
        rw (integer_step-digit s (c - b'0') (omega arith) room) (
          rw (along, count)
            (integer_digits-Digits fuel s' (mis_take mis) cs v ds (text.1) (rw along at end)
              (omega arith) (omega arith) small)))

-- what `integer_part` has read of the digits `cs` with the value `v`
abbrev whole : List ℕ → ℕ → Scan
whole cs v = record { sum = v; sig_digits = if v == 0 then 0 else length cs; exponent = pos 0 }

integer_part-Natural :
    (mis : Mis) (cs : List ℕ) (v : ℕ)
    → Natural cs v
    → Holds mis.bytes mis.read cs
    → EndsInteger (mis.bytes (mis.read + length cs))
    → mis.read + length cs ≤ mis.count
    → length cs ≤ 19
    → v < 2 ^ 64
    → integer_part mis ≡ ok (whole cs v) (forward mis (length cs))
unfolding integer_part
integer_part-Natural mis _ _ naught text end room sig small =
    let peek : mis_peek mis ≡ b'0' = text.0 in
    let along : mis.read + 1 ≡ suc mis.read = omega arith in rw (peek, along) refl
integer_part-Natural mis (c ∷ cs) v (positive lo hi ds) text end room sig small =
    let peek : mis_peek mis ≡ c = text.0 in
    let next : next_digit mis ≡ c - b'0' = rw peek (digit_of-digit c (omega arith) hi) in
    let along : mis.read + suc (length cs) ≡ suc mis.read + length cs = omega arith in
    let nonzero : (c - b'0' == 0) ≡ false = ground arith in
    let positive_value : (v == 0) ≡ false = ground (arith, Digits-le _ cs v ds) in
    let first : Scan = record { sum = c - b'0'; sig_digits = 1; exponent = pos 0 } in
    let count : 1 + length cs ≡ suc (length cs) = omega arith in
    rw next (
      rw (ltb-eq_true (c - b'0') 10 (omega arith), nonzero, positive_value, along)
        (rw count at (
          integer_digits-Digits (bytes_left (mis_take mis)) first (mis_take mis) cs v ds (text.1)
            (rw along at end) (omega arith) (omega arith) small)))

fraction_part-end :
    (s : Scan) (mis : Mis) → EndsInteger (mis_peek mis) → fraction_part s mis ≡ ok (s, false) mis
unfolding fraction_part
fraction_part-end s mis h = ground (arith, h)

exponent_part-end :
    (s : Scan) (mis : Mis)
    → EndsInteger (mis_peek mis)
    → exponent_part (s, false) mis ≡ ok (s, false) mis
unfolding exponent_part
exponent_part-end s mis h = ground (arith, h)

-- a JSON integer
abbrev pub signed : Bool → List ℕ → List ℕ
signed negative cs = if negative then b'-' ∷ cs else cs

-- the largest magnitude that a long has
abbrev pub largest : Bool → ℕ
largest negative = if negative then 1 + long_max else long_max

too_large-whole :
    (negative : Bool) (cs : List ℕ) (v : ℕ)
    → length cs ≤ 19
    → v ≤ largest negative
    → too_large negative (whole cs v) ≡ false
unfolding too_large
too_large-whole true cs v h fits = ground arith
too_large-whole false cs v h fits = ground arith

Natural-no_sign :
    (cs : List ℕ) (v : ℕ) (m : ℕ → ℕ) (i : ℕ) → Natural cs v → Holds m i cs → (m i == b'-') ≡ false
Natural-no_sign _ _ m i naught h = rw (h.0) refl
Natural-no_sign (c ∷ cs) v m i (positive lo hi ds) h = rw (h.0) (ground arith)

bind-ok :
    {A B : Type 0} (p : Mis → Outcome A) (f : A → Mis → Outcome B) (mis mis' : Mis) (a : A)
    → p mis ≡ ok a mis'
    → (p >>= f) mis ≡ f a mis'
bind-ok p f mis mis' a e = rw (e, ◌>>=◌) refl

module _ (lib : FloatLib) where
  -- A JSON integer of at most 19 digits that fits a long is read to its end, as that long, where
  -- a byte follows it that cannot continue a number.
  pub parse_number-Natural :
      (mis : Mis) (negative : Bool) (cs : List ℕ) (v : ℕ)
      → Natural cs v
      → Holds mis.bytes mis.read (signed negative cs)
      → EndsInteger (mis.bytes (mis.read + length (signed negative cs)))
      → mis.read + length (signed negative cs) ≤ mis.count
      → length cs ≤ 19
      → v ≤ largest negative
      → parse_number lib mis
        ≡ ok
            (integer (if negative then neg_ℕ v else pos v))
            (forward mis (length (signed negative cs)))
  unfolding parse_number
  parse_number-Natural mis false cs v n text end room sig fits =
      rw (Natural-no_sign cs v mis.bytes mis.read n text) (
        bind-ok integer_part _ mis (forward mis (length cs)) (whole cs v)
          (integer_part-Natural mis cs v n text end room sig (omega arith))
        ∙ bind-ok (fraction_part (whole cs v)) _ (forward mis (length cs)) _ _
            (fraction_part-end (whole cs v) (forward mis (length cs)) end)
        ∙ bind-ok (exponent_part (whole cs v, false)) _ (forward mis (length cs)) _ _
            (exponent_part-end (whole cs v) (forward mis (length cs)) end)
        ∙ rw (too_large-whole false cs v sig fits) refl)
  parse_number-Natural mis true cs v n text end room sig fits =
      let m = mis_take mis in
      let peek : mis_peek mis ≡ b'-' = text.0 in
      let along : mis.read + suc (length cs) ≡ suc mis.read + length cs = omega arith in
      let end' = rw along at end in
      rw peek (
        bind-ok integer_part _ m (forward m (length cs)) (whole cs v)
          (integer_part-Natural m cs v n (text.1) end' (omega arith) sig (omega arith))
        ∙ bind-ok (fraction_part (whole cs v)) _ (forward m (length cs)) _ _
            (fraction_part-end (whole cs v) (forward m (length cs)) end')
        ∙ bind-ok (exponent_part (whole cs v, false)) _ (forward m (length cs)) _ _
            (exponent_part-end (whole cs v) (forward m (length cs)) end')
        ∙ rw (too_large-whole true cs v sig fits) (rw along refl))
