-- ===== src/Parser/Bounds/Digits.antt =====
-- src/parser.c: the parts of a number stay inside the text.
use jsnpg.Base.{
  ℕ, zero, suc, ◌+◌, ◌*◌, ◌-◌, ◌<◌, Bool, true, false, Bool-cases, ◌≡◌, ◌≢◌, inl, inr, refl, ◌∙◌,
  arith, ◌==◌, ◌||◌, ltb,
}
use native.Mathlib.Decide.{ℕ_discrete, dec_lt}
use jsnpg.Base.Memory.{Memory}
use jsnpg.Types.{error_number}
use jsnpg.Input.{Mis, mis_peek, mis_take}
use jsnpg.Outcome.{throw}
use jsnpg.Parser.White.{bytes_left}
use jsnpg.Parser.White.Ends.{Inside, before_end}
use jsnpg.Parser.Number.{
  Scan, digit_of, next_digit, point, lower_e, upper_e, integer_step, integer_digits, fraction_step,
  fraction_digits, exponent_digits, integer_part, fraction_part, exponent_sign, exponent_part,
}
use jsnpg.Parser.Bounds.{
  Onward, Onward-none, Onward-then, Onward-forward, Inside-Onward, Stays, Stays-bind, later,
}
use jsnpg.Parser.Bounds.Literals.{take-Onward}

-- the bytes are those of the memory
abbrev pub Same : {A : Type 0} → Memory → A → Mis → Type 0
Same m x b = b.bytes ≡ m

digit-nonzero : (c : ℕ) → digit_of c < 10 → c ≢ 0
digit-nonzero c lt z = omega (arith, lt, z)

integer_digits-Stays :
    (fuel : ℕ) (s : Scan) (mis : Mis)
    → Inside mis
    → mis.count - mis.read < fuel
    → Stays 0 (Same mis.bytes) mis (integer_digits fuel s mis)
unfolding integer_digits
integer_digits-Stays zero s mis i le = absurd (omega arith)
integer_digits-Stays (suc fuel) s mis i le = elim (dec_lt (next_digit mis) 10) [
  | yes lt ↦
      let e : ltb (next_digit mis) 10 ≡ true = ground (arith, lt) in
      let next = take-Onward mis i (digit-nonzero (mis_peek mis) lt) in
      rw e (
        later (Same mis.bytes) 1 0 0 mis (mis_take mis) _ next (omega arith) (
          integer_digits-Stays fuel (integer_step s (next_digit mis)) (mis_take mis)
            (Inside-Onward 1 mis _ i next) (omega (arith, next.within, le))))
  | no ge ↦
      let e : ltb (next_digit mis) 10 ≡ false = ground (arith, ge) in rw e (Onward-none mis i, refl)
]

fraction_digits-Stays :
    (fuel : ℕ) (s : Scan) (mis : Mis)
    → Inside mis
    → next_digit mis < 10
    → mis.count - mis.read < fuel
    → Stays 0 (Same mis.bytes) mis (fraction_digits fuel s mis)
unfolding fraction_digits
fraction_digits-Stays zero s mis i lt le = absurd (omega arith)
fraction_digits-Stays (suc fuel) s mis i lt le =
    let next = take-Onward mis i (digit-nonzero (mis_peek mis) lt) in
    let inside = Inside-Onward 1 mis _ i next in
    elim (dec_lt (next_digit (mis_take mis)) 10) [
      | yes lt' ↦
          let e : ltb (next_digit (mis_take mis)) 10 ≡ true = ground (arith, lt') in
          rw e (
            later (Same mis.bytes) 1 0 0 mis (mis_take mis) _ next (omega arith) (
              fraction_digits-Stays fuel (fraction_step s (next_digit mis)) (mis_take mis) inside
                lt' (omega (arith, next.within, le))))
      | no ge ↦
          let e : ltb (next_digit (mis_take mis)) 10 ≡ false = ground (arith, ge) in
          rw e (Onward-then 1 0 0 mis _ _ next (Onward-none _ inside) (omega arith), refl)
    ]

exponent_digits-Stays :
    (fuel exp : ℕ) (mis : Mis)
    → Inside mis
    → next_digit mis < 10
    → mis.count - mis.read < fuel
    → Stays 0 (Same mis.bytes) mis (exponent_digits fuel exp mis)
unfolding exponent_digits
exponent_digits-Stays zero exp mis i lt le = absurd (omega arith)
exponent_digits-Stays (suc fuel) exp mis i lt le =
    let next = take-Onward mis i (digit-nonzero (mis_peek mis) lt) in
    let inside = Inside-Onward 1 mis _ i next in
    elim (Bool-cases (ltb 1000 (10 * exp + next_digit mis))) [
      | inl large ↦ rw large tt
      | inr small ↦ rw small (elim (dec_lt (next_digit (mis_take mis)) 10) [
        | yes lt' ↦
            let e : ltb (next_digit (mis_take mis)) 10 ≡ true = ground (arith, lt') in
            rw e (
              later (Same mis.bytes) 1 0 0 mis (mis_take mis) _ next (omega arith) (
                exponent_digits-Stays fuel (10 * exp + next_digit mis) (mis_take mis) inside lt'
                  (omega (arith, next.within, le))))
        | no ge ↦
            let e : ltb (next_digit (mis_take mis)) 10 ≡ false = ground (arith, ge) in
            rw e (Onward-then 1 0 0 mis _ _ next (Onward-none _ inside) (omega arith), refl)
      ])
    ]

-- The parts of a number, from the first digit on.
pub integer_part-Stays :
    (mis : Mis) → Inside mis → next_digit mis < 10 → Stays 1 (Same mis.bytes) mis (integer_part mis)
unfolding integer_part
integer_part-Stays mis i lt =
    let e : ltb (next_digit mis) 10 ≡ true = ground (arith, lt) in
    let next = take-Onward mis i (digit-nonzero (mis_peek mis) lt) in
    let inside = Inside-Onward 1 mis _ i next in
    rw e (elim (Bool-cases (next_digit mis == 0)) [
      | inl zero_ ↦ rw zero_ (next, refl)
      | inr more ↦ rw more (
          later (Same mis.bytes) 1 0 1 mis (mis_take mis) _ next (omega arith) (
            integer_digits-Stays (bytes_left (mis_take mis)) _ (mis_take mis) inside (omega arith)))
    ])

-- No digit where a number has one.
pub no_integer :
    (mis : Mis) → ¬ (next_digit mis < 10) → integer_part mis ≡ throw error_number (mis_take mis)
unfolding integer_part
no_integer mis ge = let e : ltb (next_digit mis) 10 ≡ false = ground (arith, ge) in rw e refl

pub fraction_part-Stays :
    (s : Scan) (mis : Mis) → Inside mis → Stays 0 (Same mis.bytes) mis (fraction_part s mis)
unfolding fraction_part
fraction_part-Stays s mis i = elim (ℕ_discrete (next_digit mis) point) [
  | no other ↦
      let e : (next_digit mis == point) ≡ false = ground (arith, other) in
      rw e (Onward-none mis i, refl)
  | yes same ↦
      let e : (next_digit mis == point) ≡ true = ground (arith, same) in
      let m = mis_take mis in
      let next = take-Onward mis i (λ z. omega (arith, same, z)) in
      let inside = Inside-Onward 1 mis m i next in
      rw e (elim (dec_lt (next_digit m) 10) [
        | no ge ↦ let e' : ltb (next_digit m) 10 ≡ false = ground (arith, ge) in rw e' tt
        | yes lt ↦
            let e' : ltb (next_digit m) 10 ≡ true = ground (arith, lt) in
            rw e' (
              later (Same mis.bytes) 1 0 0 mis m _ next (omega arith) (
                Stays-bind (Same mis.bytes) (Same mis.bytes) 0 0 0
                  (fraction_digits (bytes_left m) s) _ m
                  (fraction_digits-Stays (bytes_left m) s m inside lt (omega arith)) (omega arith)
                  (λ s' m' o same'. (Onward-none m' (Inside-Onward 0 m m' inside o), same'))))
      ])
]

-- the sign of an exponent, with its bytes
exponent_sign-Onward :
    (mis : Mis)
    → Inside mis
    → Onward 0 mis (exponent_sign mis).1 × ((exponent_sign mis).1.bytes ≡ mis.bytes)
unfolding exponent_sign
exponent_sign-Onward mis i = elim (ℕ_discrete (mis_peek mis) b'-') [
  | yes minus ↦
      let e : (mis_peek mis == b'-') ≡ true = ground (arith, minus) in
      rw e (
        Onward-forward mis (suc mis.read) 0 (omega arith)
            (before_end mis i (λ z. omega (arith, minus, z))),
        refl,
      )
  | no other ↦
      let e : (mis_peek mis == b'-') ≡ false = ground (arith, other) in
      rw e (elim (ℕ_discrete (mis_peek mis) b'+') [
        | yes plus ↦
            let e' : (mis_peek mis == b'+') ≡ true = ground (arith, plus) in
            rw e' (
              Onward-forward mis (suc mis.read) 0 (omega arith)
                  (before_end mis i (λ z. omega (arith, plus, z))),
              refl,
            )
        | no other' ↦
            let e' : (mis_peek mis == b'+') ≡ false = ground (arith, other') in
            rw e' (Onward-none mis i, refl)
      ])
]

-- e or E, a sign that need not be there, and digits
pub exponent_part-Stays :
    (p : Scan × Bool) (mis : Mis) → Inside mis → Stays 0 (Same mis.bytes) mis (exponent_part p mis)
unfolding exponent_part
exponent_part-Stays (s, force) mis i =
    elim (Bool-cases (next_digit mis == lower_e || next_digit mis == upper_e)) [
      | inr other ↦ rw other (Onward-none mis i, refl)
      | inl same ↦
          let ne : mis_peek mis ≢ 0 = λ z. ground (arith, same, z) in
          let t = mis_take mis in
          let taken = take-Onward mis i ne in
          let (signed, bytes) = exponent_sign-Onward t (Inside-Onward 1 mis t i taken) in
          let m = (exponent_sign t).1 in
          let o = Onward-then 1 0 0 mis t m taken signed (omega arith) in
          let inside = Inside-Onward 0 mis m i o in
          rw same (elim (dec_lt (next_digit m) 10) [
            | no ge ↦ let e' : ltb (next_digit m) 10 ≡ false = ground (arith, ge) in rw e' tt
            | yes lt ↦
                let e' : ltb (next_digit m) 10 ≡ true = ground (arith, lt) in
                rw e' (
                  later (Same mis.bytes) 0 0 0 mis m _ o (omega arith) (
                    Stays-bind (Same m.bytes) (Same mis.bytes) 0 0 0
                      (exponent_digits (bytes_left m) 0) _ m
                      (exponent_digits-Stays (bytes_left m) 0 m inside lt (omega arith))
                      (omega arith)
                      (λ exp m' o' same'.
                        (Onward-none m' (Inside-Onward 0 m m' inside o'), same' ∙ bytes))))
          ])
    ]
