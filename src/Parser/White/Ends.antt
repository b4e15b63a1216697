-- ===== src/Parser/White/Ends.antt =====
-- src/parser.c: the white space and comment loops end, inside the text, whatever it holds.
use mathlib.Core.Option.{none-ne-some}
use jsnpg.Base.{
  ℕ, zero, suc, ◌+◌, ◌-◌, ◌≤◌, ◌<◌, true, false, Bool-cases, Option-cases, some, ◌≡◌, ◌≢◌, ◌⊎◌,
  refl, inl, inr, arith,
}
use native.Mathlib.Decide.{ℕ_discrete}
use jsnpg.Base.Memory.{Memory}
use jsnpg.Input.{Mis, mis_peek, mis_take, mis_find, strchr}
use jsnpg.Outcome.{Outcome, ok, thrown, no_fuel}
use jsnpg.Parser.White.{is_white, bytes_left, white_loop, mis_consume_whitespace}

-- The stream is inside its text, which a zero byte ends.
pub record Inside (mis : Mis) : Type 0 where
  pub zero_ends : mis.bytes mis.count ≡ 0
  pub in_text : mis.read ≤ mis.count

-- The stream `b` is `a` further on.
pub record Advanced (a b : Mis) : Type 0 where
  pub same_bytes : b.bytes ≡ a.bytes
  pub same_count : b.count ≡ a.count
  pub same_start : b.start ≡ a.start
  pub onward : a.read ≤ b.read
  pub within : b.read ≤ a.count

-- The function returns further on in the text or throws: it has not run out of fuel.
abbrev pub Ends : {A : Type 0} → Mis → Outcome A → Type 0
Ends mis (ok a mis') = Advanced mis mis'
Ends mis (thrown code at mis') = Unit
Ends mis no_fuel = ⊥

-- The stream at an offset of its text.
abbrev pub at_offset : Mis → ℕ → Mis
at_offset mis p = record mis { read = p }

pub Advanced-at_offset :
    (mis : Mis) (p : ℕ) → mis.read ≤ p → p ≤ mis.count → Advanced mis (at_offset mis p)
Advanced-at_offset mis p h h' = record {
  same_bytes = refl;
  same_count = refl;
  same_start = refl;
  onward = h;
  within = h';
}

pub Inside-at_offset : (mis : Mis) (p : ℕ) → Inside mis → p ≤ mis.count → Inside (at_offset mis p)
Inside-at_offset mis p i h = record { zero_ends = i.zero_ends; in_text = h }

-- A byte that is not zero is not the last.
pub before_end : (mis : Mis) → Inside mis → mis_peek mis ≢ 0 → mis.read < mis.count
before_end mis i h = elim (ℕ_discrete mis.read mis.count) [
  | yes e ↦ absurd (h (rw e i.zero_ends))
  | no ne ↦ omega (arith, ne, i.in_text)
]

-- the skipped bytes and the byte behind them
pub record Skipped (mis : Mis) (c : ℕ) (mis' : Mis) : Type 0 where
  pub advanced : Advanced mis mis'
  pub byte : mis_peek mis' ≡ c
  pub not_white : is_white c ≡ false
  pub white : (i : ℕ) → mis.read ≤ i → i < mis'.read → is_white (mis.bytes i) ≡ true

abbrev Skips : Mis → Outcome ℕ → Type 0
Skips mis (ok c mis') = Skipped mis c mis'
Skips mis (thrown code at mis') = ⊥
Skips mis no_fuel = ⊥

Skips-take :
    (mis : Mis) (o : Outcome ℕ)
    → is_white (mis_peek mis) ≡ true
    → Skips (mis_take mis) o
    → Skips mis o
Skips-take mis (ok c mis') w s = record {
  advanced = record {
    same_bytes = s.advanced.same_bytes;
    same_count = s.advanced.same_count;
    same_start = s.advanced.same_start;
    onward = omega (arith, s.advanced.onward);
    within = s.advanced.within;
  };
  byte = s.byte;
  not_white = s.not_white;
  white = λ i lo hi. elim (ℕ_discrete mis.read i) [
    | yes e ↦ rw (← e) w
    | no ne ↦ s.white i (omega arith) hi
  ];
}
Skips-take mis (thrown code at mis') w s = absurd s
Skips-take mis no_fuel w s = absurd s

is_white-zero : (c : ℕ) → is_white c ≡ true → c ≢ 0
is_white-zero c h e = ground (arith, h, e)

white_loop-Skips :
    (fuel : ℕ) (mis : Mis)
    → Inside mis
    → mis.count - mis.read < fuel
    → Skips mis (white_loop fuel mis)
unfolding white_loop
white_loop-Skips zero mis i h = absurd (omega arith)
white_loop-Skips (suc fuel) mis i h = elim (Bool-cases (is_white (mis_peek mis))) [
  | inl w ↦
      let lt = before_end mis i (is_white-zero (mis_peek mis) w) in
      rw w (
        Skips-take mis (white_loop fuel (mis_take mis)) w
          (white_loop-Skips fuel (mis_take mis) (Inside-at_offset mis _ i lt) (omega arith)))
  | inr n ↦ rw n (record {
    advanced = Advanced-at_offset mis mis.read (omega arith) i.in_text;
    byte = refl;
    not_white = n;
    white = λ j lo hi. absurd (omega arith);
  })
]

Skips-ok :
    (mis : Mis) (o : Outcome ℕ)
    → Skips mis o
    → (c : ℕ) × (mis' : Mis) × (o ≡ ok c mis') × Skipped mis c mis'
Skips-ok mis (ok c mis') s = (c, mis', refl, s)
Skips-ok mis (thrown code at mis') s = absurd s
Skips-ok mis no_fuel s = absurd s

-- Inside a text that a zero byte ends, mis_consume_whitespace skips white space only, and all of
-- it: it returns the first byte that is no white space, and stands there.
pub mis_consume_whitespace-Skipped :
    (mis : Mis)
    → Inside mis
    → (c : ℕ) × (mis' : Mis) × (mis_consume_whitespace mis ≡ ok c mis') × Skipped mis c mis'
unfolding mis_consume_whitespace
mis_consume_whitespace-Skipped mis i =
    Skips-ok mis (white_loop (bytes_left mis) mis)
      (white_loop-Skips (bytes_left mis) mis i (omega arith))

strchr-some :
    (n : ℕ) (m : Memory) (i c p : ℕ) → strchr n m i c ≡ some p → (i ≤ p) × (p < i + n) × (m p ≡ c)
unfolding strchr
strchr-some zero m i c p h = absurd (none-ne-some _ h)
strchr-some (suc n) m i c p h = elim (ℕ_discrete (m i) c) [
  | yes e ↦
      let here : i ≡ p = ground (arith, h, e) in (omega arith, omega arith, ground (arith, here, e))
  | no ne ↦ elim (ℕ_discrete (m i) 0) [
    | yes z ↦ absurd (ground (arith, h, ne, z))
    | no nz ↦
        let later : strchr n m (i + 1) c ≡ some p = ground (arith, h, ne, nz) in
        let r = strchr-some n m (i + 1) c p later in (omega (arith, r.0), omega (arith, r.1), r.2)
  ]
]

-- mis_find finds the byte ahead, or is at the end of the text.
pub mis_find-cases :
    (mis : Mis) (c : ℕ)
    → Inside mis
    → ((p : ℕ) × (mis_find mis c ≡ (c, at_offset mis p))
        × (mis.read ≤ p)
        × (p ≤ mis.count)
        × (mis.bytes p ≡ c))
      ⊎ (mis_find mis c ≡ (0, at_offset mis mis.count))
unfolding mis_find
mis_find-cases mis c i =
    elim (Option-cases (strchr (suc mis.count - mis.read) mis.bytes mis.read c)) [
      | inl e ↦ inr (rw (e, mis_find) refl)
      | inr (p, e) ↦
          let r = strchr-some (suc mis.count - mis.read) mis.bytes mis.read c p e in
          inl (p, rw (e, mis_find) (rw (r.2) refl), r.0, omega (arith, r.1, i.in_text), r.2)
    ]
