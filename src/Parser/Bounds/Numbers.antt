-- ===== src/Parser/Bounds/Numbers.antt =====
-- src/parser.c: a number stays inside the text.
use jsnpg.Base.{
  ℕ, suc, ◌≤◌, ◌<◌, Bool, true, false, Bool-cases, Option, Option-cases, none, some, ◌≡◌, ◌⊎◌, inl,
  inr, refl, ◌∙◌, arith, ◌==◌, ◌||◌, if◌then◌else◌,
}
use native.Mathlib.Decide.{ℕ_discrete, dec_lt}
use jsnpg.Base.Memory.{Memory}
use jsnpg.Base.Int.{pos, neg_ℕ}
use jsnpg.Floats.{FloatLib}
use jsnpg.Input.{Mis, mis_peek, mis_take}
use jsnpg.Outcome.{Outcome, ok, ◌>>=◌}
use jsnpg.Parser.White.Ends.{Inside, before_end}
use jsnpg.Parser.Number.{
  Scan, digit_of, next_digit, integer_part, fraction_part, exponent_part, in_fast_range, Number,
  integer, real, too_large, slow_real, real_result, parse_number,
}
use jsnpg.Parser.Bounds.{
  Onward, Onward-none, Onward-then, Onward-forward, Inside-Onward, Stays, Any, Stays-from,
}
use jsnpg.Parser.Bounds.Digits.{
  Same, integer_part-Stays, no_integer, fraction_part-Stays, exponent_part-Stays,
}

-- A number begins: a digit, behind a minus sign that need not be there.
abbrev pub Begins : Memory → ℕ → Type 0
Begins m i = (digit_of (m i) < 10) ⊎ ((m i ≡ b'-') × (digit_of (m (suc i)) < 10))

-- What the code relies on of strtod: it ends behind the number that it has read, in front of the
-- zero byte behind the text.
pub record Strtod (lib : FloatLib) : Type 0 where
  pub onward :
      (m : Memory) (start n end : ℕ) (d : lib.Real)
      → m n ≡ 0
      → start ≤ n
      → Begins m start
      → lib.parse_float_strtod m start ≡ some (d, end)
      → start < end
  pub within :
      (m : Memory) (start n end : ℕ) (d : lib.Real)
      → m n ≡ 0
      → start ≤ n
      → lib.parse_float_strtod m start ≡ some (d, end)
      → end ≤ n

module _ (lib : FloatLib) (strtod : Strtod lib) (a : Mis) (i : Inside a)
    (begins : Begins a.bytes a.read) where
  slow_real-Stays :
      (mis : Mis) → Onward 1 a mis → mis.bytes ≡ a.bytes → Stays 1 Any a (slow_real lib a.read mis)
  unfolding slow_real
  slow_real-Stays mis o same = elim (Option-cases (lib.parse_float_strtod mis.bytes a.read)) [
    | inl refused ↦ rw (refused, slow_real) tt
    | inr ((d, end), e) ↦
        let e' : lib.parse_float_strtod a.bytes a.read ≡ some (d, end) = rw same at e in
        rw (e, slow_real)
          (
            record {
              forth = omega (
                arith,
                strtod.onward a.bytes a.read a.count end d i.zero_ends i.in_text begins e',
              );
              within = strtod.within a.bytes a.read a.count end d i.zero_ends i.in_text e';
              ahead = λ j h. rw same refl;
              count = o.count;
              start = o.start;
            },
            tt,
          )
  ]

  real_result-Stays :
      (negative : Bool) (s : Scan) (mis : Mis)
      → Onward 1 a mis
      → mis.bytes ≡ a.bytes
      → Stays 1 Any a (real_result lib a.read negative s mis)
  unfolding real_result
  real_result-Stays negative s mis o same =
      by_fast
        (if in_fast_range s.exponent then lib.compute_float_64 s.exponent s.sum negative else none)
    where
      by_fast :
          (fast : Option (lib.Real))
          → Stays 1 Any a (elim fast as (λ f. Outcome (Number (lib.Real))) [
            | some d ↦ ok (real d) mis
            | none ↦ slow_real lib a.read mis
          ])
      by_fast none = slow_real-Stays mis o same
      by_fast (some d) = (o, tt)

  -- from the first digit on, with the stream `m` there
  parts-Stays :
      (negative : Bool) (m : Mis)
      → Onward 0 a m
      → m.bytes ≡ a.bytes
      → next_digit m < 10
      → Stays 1 Any a (
          (integer_part >>= λ s. fraction_part s >>= λ p.
          exponent_part p >>= λ (q : Scan × Bool) (m' : Mis).
          if q.1 || too_large negative q.0
          then real_result lib a.read negative q.0 m'
          else ok (integer (if negative then neg_ℕ q.0.sum else pos q.0.sum)) m')
            m)
  parts-Stays negative m o same lt =
      let im = Inside-Onward 0 a m i o in
      Stays-from (Same m.bytes) Any 1 1 integer_part _ a m (integer_part-Stays m im lt)
        (λ s m₁ o₁ same₁.
          let i₁ = Inside-Onward 1 m m₁ im o₁ in
          Stays-from (Same m₁.bytes) Any 0 1 (fraction_part s) _ a m₁ (fraction_part-Stays s m₁ i₁)
            (λ p m₂ o₂ same₂.
              let i₂ = Inside-Onward 0 m₁ m₂ i₁ o₂ in
              Stays-from (Same m₂.bytes) Any 0 1 (exponent_part p) _ a m₂
                (exponent_part-Stays p m₂ i₂)
                (λ q m₃ o₃ same₃.
                  let bytes = same₃ ∙ same₂ ∙ same₁ ∙ same in
                  let all : Onward 1 a m₃ =
                    Onward-then 0 1 1 a m m₃ o
                      (Onward-then 1 0 1 m m₁ m₃ o₁ (Onward-then 0 0 0 m₁ m₂ m₃ o₂ o₃ (omega arith))
                        (omega arith))
                      (omega arith) in
                  elim (Bool-cases (q.1 || too_large negative q.0)) [
                    | inl as_real ↦ rw as_real (real_result-Stays negative q.0 m₃ all bytes)
                    | inr whole ↦ rw whole (all, tt)
                  ])))

pub parse_number-Stays :
    (lib : FloatLib)
    → Strtod lib
    → (mis : Mis) → Inside mis
    → Stays 1 Any mis (parse_number lib mis)
unfolding parse_number
parse_number-Stays lib strtod mis i = elim (ℕ_discrete (mis_peek mis) b'-') [
  | yes minus ↦
      let e : (mis_peek mis == b'-') ≡ true = ground (arith, minus) in
      let next =
        Onward-forward mis (suc mis.read) 0 (omega arith)
          (before_end mis i (λ z. omega (arith, minus, z))) in
      rw e (elim (dec_lt (next_digit (mis_take mis)) 10) [
        | yes lt ↦ parts-Stays lib strtod mis i (inr (minus, lt)) true (mis_take mis) next refl lt
        | no ge ↦ rw (no_integer (mis_take mis) ge, ◌>>=◌) tt
      ])
  | no other ↦
      let e : (mis_peek mis == b'-') ≡ false = ground (arith, other) in
      rw e (elim (dec_lt (next_digit mis) 10) [
        | yes lt ↦ parts-Stays lib strtod mis i (inl lt) false mis (Onward-none mis i) refl lt
        | no ge ↦ rw (no_integer mis ge, ◌>>=◌) tt
      ])
]
