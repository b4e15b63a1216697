-- ===== src/Parser/Bounds/Strings.antt =====
-- src/parser.c: the loop of parse_string ends inside the text, whatever bytes that holds.
use jsnpg.Base.{
  ℕ, zero, suc, ◌+◌, ◌-◌, ◌≤◌, ◌<◌, List, [], ◌++◌, Bool, true, false, Bool-cases, Option,
  Option-cases, none, some, ◌≡◌, ◌≢◌, inl, inr, refl, sym, ◌∙◌, arith, ◌==◌, ◌&&◌, leb, ltb, length,
  if◌then◌else◌,
}
use native.Mathlib.Decide.{ℕ_discrete}
use jsnpg.Base.Memory.{Memory, Holds, slice}
use jsnpg.Utf8.{utf8_encode, utf8_validate_sequence}
use jsnpg.Utf8.Sound.{validate-within}
use jsnpg.Input.{
  Mis, mis_peek, mis_take, mis_string_start, mis_string_update, mis_string_complete,
  mis_string_restart, mis_validate_utf8,
}
use jsnpg.Types.{error_utf8}
use jsnpg.Outcome.{Outcome, ok, thrown, no_fuel, throw, ◌>>=◌}
use jsnpg.Parser.White.{bytes_left}
use jsnpg.Parser.White.Ends.{Inside, before_end}
use jsnpg.Parser.Escape.{parse_escape}
use jsnpg.Parser.Strings.{
  write_codepoint, string_escape, string_step, string_loop, parse_string_in_stream, parse_string,
}
use jsnpg.Parser.Strings.InPlace.{
  Spares, Built, update-Updated, after_escape, Built-forward, escape-Spares, escape-Built,
  mis_string_complete-Completed,
}
use jsnpg.Parser.Bounds.{Onward, Onward-forward, Inside-Onward, Stays, Any, Stays-from, later}
use jsnpg.Parser.Bounds.Escapes.{Fits, parse_escape-Fits}

Onward-Spares :
    (low : ℕ) (a b : Mis) → Spares a b → a.read + low ≤ b.read → b.read ≤ a.count → Onward low a b
Onward-Spares low a b s forth within = record {
  forth = forth;
  within = within;
  ahead = s.ahead;
  count = s.count;
  start = s.start;
}

length-slice : (m : Memory) (i n : ℕ) → length (slice m i n) ≡ n
length-slice m i zero = refl
length-slice m i (suc n) = let e = length-slice m (suc i) n in omega (arith, e)

Holds-slice : (m : Memory) (i n : ℕ) → Holds m i (slice m i n)
Holds-slice m i zero = tt
Holds-slice m i (suc n) = (refl, Holds-slice m (suc i) n)

-- What a round of the loop leaves: a string that is still built, or its length.
abbrev Rest : Option ℕ → Mis → Type 0
Rest none m = (xs : List ℕ) × (ys : List ℕ) × Built m xs ys
Rest (some len) m = Unit

module _ (mis : Mis) (i : Inside mis) (xs ys : List ℕ) (b : Built mis xs ys) where
  quote-Stays : mis_peek mis ≢ 0 → Onward 1 mis (mis_string_complete mis).1
  quote-Stays ne =
      let c = mis_string_complete-Completed mis xs ys b (suc mis.read) refl in
      Onward-Spares 1 mis (mis_string_complete mis).1 c.spares (omega (arith, c.read))
        (omega (arith, c.read, before_end mis i ne))

  -- bytes that are passed over
  pass-Stays :
      (n : ℕ)
      → 0 < n
      → mis.read + n ≤ mis.count
      → Stays 1 Rest mis (ok none (record mis { read = mis.read + n }))
  pass-Stays n pos within =
      let zs = slice mis.bytes mis.read n in
      let size = length-slice mis.bytes mis.read n in
      (
        Onward-forward mis (mis.read + n) 1 (omega (arith, pos)) within,
        (
          xs,
          ys ++ zs,
          Built-forward mis xs ys b zs (mis.read + n) (omega (arith, size))
              (Holds-slice mis.bytes mis.read n),
        ),
      )

  escape-Stays : mis_peek mis ≢ 0 → Stays 1 Rest mis (string_escape mis)
  unfolding string_escape
  escape-Stays ne =
      let u = update-Updated mis xs ys b in
      let m = mis_string_update mis in
      let inside : Inside m = record {
        zero_ends =
            rw (u.spares.count)
              (u.spares.ahead mis.count (omega (arith, u.read, i.in_text)) ∙ i.zero_ends);
        in_text = omega (arith, u.read, u.spares.count, i.in_text);
      } in
      let byte : mis_peek m ≢ 0 =
        λ z. ne (sym (u.spares.ahead mis.read (omega (arith, u.read))) ∙ rw (u.read) at z) in
      by_cases (parse_escape m) (parse_escape-Fits m inside byte)
    where
      by_cases :
          (o : Outcome ℕ)
          → Fits (mis_string_update mis) o
          → Stays 1 Rest mis (
              ((λ _. o) >>= λ codepoint m'.
              ok none (mis_string_restart (write_codepoint codepoint m')))
                (mis_string_update mis))
      by_cases (ok cp m') (n, e, fits, pos, within) =
          let u = update-Updated mis xs ys b in
          rw e (
            Onward-Spares 1 mis (after_escape mis n cp) (escape-Spares mis xs ys b n cp fits)
                (omega (arith, u.read, pos)) (omega (arith, within, u.spares.count)),
            ((xs ++ ys) ++ utf8_encode cp, [], escape-Built mis xs ys b n cp fits),
          )
      by_cases (thrown code at m') f = tt
      by_cases no_fuel f = absurd f

  -- a sequence of UTF-8 that is checked
  checked-Stays :
      mis_peek mis ≢ 0
      → Stays 1 Rest mis (
          let (valid, checked) = mis_validate_utf8 mis in
          if valid then ok none checked else throw error_utf8 mis)
  unfolding mis_validate_utf8
  checked-Stays ne =
      elim (Option-cases (utf8_validate_sequence (λ j. mis.bytes (mis.read + j)) 4)) [
        | inl bad ↦ rw (bad, mis_validate_utf8) tt
        | inr (n, e) ↦
            let (pos, within) =
              validate-within mis.bytes mis.read mis.count n i.zero_ends (before_end mis i ne) e in
            rw (e, mis_validate_utf8) (pass-Stays n pos within)
      ]

  -- One round of the loop.
  string_step-Stays : (v : Bool) → Stays 1 Rest mis (string_step v mis)
  unfolding string_step mis_validate_utf8
  string_step-Stays v = elim (ℕ_discrete (mis_peek mis) b'"') [
    | yes quote ↦
        let e : (mis_peek mis == b'"') ≡ true = ground (arith, quote) in
        rw e (quote-Stays (λ z. omega (arith, quote, z)), tt)
    | no plain ↦
        let e : (mis_peek mis == b'"') ≡ false = ground (arith, plain) in
        rw e (elim (ℕ_discrete (mis_peek mis) b'\\') [
          | yes slash ↦
              let e' : (mis_peek mis == b'\\') ≡ true = ground (arith, slash) in
              rw e' (escape-Stays (λ z. omega (arith, slash, z)))
          | no other ↦
              let e' : (mis_peek mis == b'\\') ≡ false = ground (arith, other) in
              rw e' (elim (Bool-cases (v && leb 0x80 (mis_peek mis))) [
                | inl checked ↦ rw checked (checked-Stays (λ z. ground (arith, checked, z)))
                | inr unchecked ↦ rw unchecked (elim (Bool-cases (ltb (mis_peek mis) 0x20)) [
                  | inl control ↦ rw control tt
                  | inr printable ↦
                      let one : mis.read + 1 ≡ suc mis.read = omega arith in
                      let more = before_end mis i (λ z. ground (arith, printable, z)) in
                      rw printable (rw one at (pass-Stays 1 (omega arith) (omega (arith, more))))
                ])
              ])
        ])
  ]

-- The loop over a string that is built so far.
string_loop-Stays :
    (v : Bool) (fuel : ℕ) (mis : Mis) (xs ys : List ℕ)
    → Built mis xs ys
    → Inside mis
    → mis.count - mis.read < fuel
    → Stays 1 Any mis (string_loop v fuel mis)
unfolding string_loop
string_loop-Stays v zero mis xs ys b i le = absurd (omega arith)
string_loop-Stays v (suc fuel) mis xs ys b i le =
    Stays-from Rest Any 1 1 (string_step v) _ mis mis (string_step-Stays mis i xs ys b v)
      (λ r m o built. next r m o built (λ xs' ys' b'.
        string_loop-Stays v fuel m xs' ys' b' (Inside-Onward 1 mis m i o)
          (omega (arith, o.forth, o.within, o.count, le))))
  where
    next :
        (r : Option ℕ) (m : Mis)
        → Onward 1 mis m
        → Rest r m
        → ((xs' ys' : List ℕ) → Built m xs' ys' → Stays 1 Any m (string_loop v fuel m))
        → Stays 1 Any mis
            (elim r as (λ r'. Outcome ℕ) [ none ↦ string_loop v fuel m | some len ↦ ok len m ])
    next none m o (xs', ys', b') k =
        later Any 1 1 1 mis m (string_loop v fuel m) o (omega arith) (k xs' ys' b')
    next (some len) m o r k = (o, tt)

-- Whatever bytes stand behind the first, parse_string returns further on, inside the text and with
-- the bytes ahead of it as they were, or throws: its fuel is enough. The stream is inside its text,
-- which a zero byte ends, and the byte ahead is not zero.
pub parse_string-Stays :
    (v : Bool) (mis : Mis) → Inside mis → mis_peek mis ≢ 0 → Stays 1 Any mis (parse_string v mis)
unfolding parse_string parse_string_in_stream
parse_string-Stays v mis i ne =
    let m = mis_string_start (mis_take mis) in
    let o : Onward 1 mis m = record {
      forth = omega arith;
      within = before_end mis i ne;
      ahead = λ j h. refl;
      count = refl;
      start = refl;
    } in
    let built : Built m [] [] = record {
      written = tt;
      pending = tt;
      write_end = omega arith;
      read_end = omega arith;
      ordered = omega arith;
    } in
    later Any 1 1 1 mis m (string_loop v (bytes_left m) m) o (omega arith)
      (string_loop-Stays v (bytes_left m) m [] [] built (Inside-Onward 1 mis m i o) (omega arith))
