-- ===== src/Parser/Strings/InPlace.antt =====
-- src/parser.c, parse_string_in_stream: the string is built in the input buffer itself, by
-- memmove and by writing codepoints behind a write pointer that stays behind the read pointer.
use jsnpg.Base.{
  ℕ, suc, ◌+◌, ◌-◌, ◌≤◌, ◌<◌, List, [], ◌++◌, append-nil, ◌≡◌, ◌≢◌, refl, sym, ◌∙◌, inl, inr, arith,
  length, length-append,
}
use native.Mathlib.Decide.{dec_lt, ℕ_discrete}
use jsnpg.Base.Memory.{
  Holds, Holds-append, Holds-agree, Holds-memmove, Holds-poke_all, memmove, memmove-outside,
  poke_all, poke_all-below, poke_all-above,
}
use jsnpg.Input.{Mis, mis_take, mis_string_update, mis_string_restart, mis_string_complete}
use jsnpg.Utf8.{utf8_encode}
use jsnpg.Parser.Escape.Reads.{forward}
use jsnpg.Parser.Strings.{write_codepoint}

-- What a round of the loop leaves alone, from the stream `a` to the stream `b`: everything from
-- the read pointer on, and everything in front of the string.
pub record Spares (a b : Mis) : Type 0 where
  pub ahead : (j : ℕ) → b.read ≤ j → b.bytes j ≡ a.bytes j
  pub behind : (j : ℕ) → j < a.string → b.bytes j ≡ a.bytes j
  pub string : b.string ≡ a.string
  pub count : b.count ≡ a.count
  pub start : b.start ≡ a.start
  pub forth : a.read ≤ b.read

-- `xs` has been written out, and `ys` stands between the mark and the read pointer.
pub record Built (mis : Mis) (xs ys : List ℕ) : Type 0 where
  pub written : Holds mis.bytes mis.string xs
  pub pending : Holds mis.bytes mis.mark ys
  pub write_end : mis.string + length xs ≡ mis.write
  pub read_end : mis.mark + length ys ≡ mis.read
  pub ordered : mis.write ≤ mis.mark

-- after `mis_string_update` all that was read is written out
pub record Updated (a b : Mis) (text : List ℕ) : Type 0 where
  pub written : Holds b.bytes b.string text
  pub write_end : b.string + length text ≡ b.write
  pub ordered : b.write ≤ b.read
  pub spares : Spares a b
  pub read : b.read ≡ a.read

module _ (mis : Mis) where
  update_same : mis.mark ≡ mis.write → mis_string_update mis ≡ record mis { write = mis.read }
  unfolding mis_string_update
  update_same h = ground arith

  update_none : mis.mark ≢ mis.write → mis.read - mis.mark ≡ 0 → mis_string_update mis ≡ mis
  unfolding mis_string_update
  update_none h z = ground arith

  update_move :
      mis.mark ≢ mis.write
      → 0 < mis.read - mis.mark
      → mis_string_update mis ≡ record mis {
        bytes = memmove mis.bytes mis.write mis.mark (mis.read - mis.mark);
        write = mis.write + (mis.read - mis.mark);
      }
  unfolding mis_string_update
  update_move h z = ground arith

Spares-refl : (mis : Mis) → Spares mis mis
Spares-refl mis = record {
  ahead = λ j h. refl;
  behind = λ j h. refl;
  string = refl;
  count = refl;
  start = refl;
  forth = omega arith;
}

module _ (mis : Mis) (xs ys : List ℕ) (b : Built mis xs ys) where
  update_move-Updated :
      mis.mark ≢ mis.write
      → 0 < mis.read - mis.mark
      → Updated mis (mis_string_update mis) (xs ++ ys)
  update_move-Updated ne more =
      let amt = mis.read - mis.mark in
      let len : length ys ≡ amt = omega (arith, b.read_end) in
      let end : mis.string + length xs ≡ mis.write = b.write_end in
      let moved = Holds-memmove mis.bytes mis.write mis.mark ys amt len b.pending in
      let kept : Holds (memmove mis.bytes mis.write mis.mark amt) mis.string xs =
        Holds-agree mis.bytes (memmove mis.bytes mis.write mis.mark amt) mis.string xs
          (λ j lo hi. memmove-outside mis.bytes mis.write mis.mark amt j (inl (omega (arith, end))))
          b.written in
      rw (update_move mis ne more) (record {
        written = Holds-append _ mis.string xs ys kept (rw end moved);
        write_end = omega (arith, length-append xs ys, end, len);
        ordered = omega (arith, b.ordered, b.read_end);
        spares = record {
          ahead = λ j h.
              memmove-outside mis.bytes mis.write mis.mark amt j
                (inr (omega (arith, b.ordered, b.read_end)));
          behind =
              λ j h. memmove-outside mis.bytes mis.write mis.mark amt j (inl (omega (arith, end)));
          string = refl;
          count = refl;
          start = refl;
          forth = omega arith;
        };
        read = refl;
      })

  update_none-Updated :
      mis.mark ≢ mis.write
      → mis.read - mis.mark ≡ 0
      → Updated mis (mis_string_update mis) (xs ++ ys)
  update_none-Updated ne z =
      let len : length ys ≡ 0 = omega (arith, b.read_end) in
      let e : ys ≡ [] = ground arith in
      rw (update_none mis ne z) (
        rw e (
          rw append-nil (record {
            written = b.written;
            write_end = b.write_end;
            ordered = omega (arith, b.ordered, b.read_end);
            spares = Spares-refl mis;
            read = refl;
          })))

  update_same-Updated : mis.mark ≡ mis.write → Updated mis (mis_string_update mis) (xs ++ ys)
  update_same-Updated e =
      let start : mis.mark ≡ mis.string + length xs = omega (arith, b.write_end) in
      rw (update_same mis e) (record {
        written = Holds-append mis.bytes mis.string xs ys b.written (rw start at b.pending);
        write_end = omega (arith, length-append xs ys, b.write_end, b.read_end);
        ordered = omega arith;
        spares = record {
          ahead = λ j h. refl;
          behind = λ j h. refl;
          string = refl;
          count = refl;
          start = refl;
          forth = omega arith;
        };
        read = refl;
      })

  pub update-Updated : Updated mis (mis_string_update mis) (xs ++ ys)
  update-Updated = elim (ℕ_discrete mis.mark mis.write) [
    | yes e ↦ update_same-Updated e
    | no ne ↦ elim (dec_lt 0 (mis.read - mis.mark)) [
      | yes more ↦ update_move-Updated ne more
      | no none_ ↦ update_none-Updated ne (omega arith)
    ]
  ]

pub Spares-trans : (a b c : Mis) → Spares a b → Spares b c → Spares a c
Spares-trans a b c p q = record {
  ahead = λ j h. q.ahead j h ∙ p.ahead j (omega (arith, q.forth));
  behind = λ j h. q.behind j (omega (arith, p.string)) ∙ p.behind j h;
  string = q.string ∙ p.string;
  count = q.count ∙ p.count;
  start = q.start ∙ p.start;
  forth = omega (arith, p.forth, q.forth);
}

pub Spares-read : (mis : Mis) (n : ℕ) → mis.read ≤ n → Spares mis (record mis { read = n })
Spares-read mis n h = record {
  ahead = λ j k. refl;
  behind = λ j k. refl;
  string = refl;
  count = refl;
  start = refl;
  forth = h;
}

-- the stream behind an escape of `n` bytes for the codepoint `cp`
abbrev pub after_escape : Mis → ℕ → ℕ → Mis
after_escape mis n cp = mis_string_restart (write_codepoint cp (forward (mis_string_update mis) n))

module _ (mis : Mis) (xs ys : List ℕ) (b : Built mis xs ys) where
  -- bytes that stand for themselves are passed over
  pub Built-forward :
      (zs : List ℕ) (n : ℕ)
      → n ≡ mis.read + length zs
      → Holds mis.bytes mis.read zs
      → Built (record mis { read = n }) xs (ys ++ zs)
  Built-forward zs n e h = record {
    written = b.written;
    pending = Holds-append mis.bytes mis.mark ys zs b.pending (rw (b.read_end) h);
    write_end = b.write_end;
    read_end = omega (arith, b.read_end, length-append ys zs);
    ordered = b.ordered;
  }

  -- an escape of `n` bytes is replaced by a codepoint that needs fewer
  pub escape-Spares : (n cp : ℕ) → length (utf8_encode cp) ≤ n → Spares mis (after_escape mis n cp)
  escape-Spares n cp fits =
      let u = update-Updated mis xs ys b in
      let m = mis_string_update mis in
      record {
        ahead = λ j h.
            poke_all-above m.bytes m.write (utf8_encode cp) j (omega (arith, u.ordered))
            ∙ u.spares.ahead j (omega arith);
        behind = λ j h.
            poke_all-below m.bytes m.write (utf8_encode cp) j
              (omega (arith, u.write_end, u.spares.string))
            ∙ u.spares.behind j h;
        string = u.spares.string;
        count = u.spares.count;
        start = u.spares.start;
        forth = omega (arith, u.read);
      }

  pub escape-Built :
      (n cp : ℕ)
      → length (utf8_encode cp) ≤ n
      → Built (after_escape mis n cp) ((xs ++ ys) ++ utf8_encode cp) []
  escape-Built n cp fits =
      let u = update-Updated mis xs ys b in
      let m = mis_string_update mis in
      let code = utf8_encode cp in
      let kept : Holds (poke_all m.bytes m.write code) m.string (xs ++ ys) =
        Holds-agree m.bytes (poke_all m.bytes m.write code) m.string (xs ++ ys)
          (λ j lo hi. poke_all-below m.bytes m.write code j (omega (arith, u.write_end)))
          u.written in
      record {
        written =
            Holds-append _ m.string (xs ++ ys) code kept
              (rw (u.write_end) (Holds-poke_all m.bytes m.write code));
        pending = tt;
        write_end = omega (arith, u.write_end, length-append (xs ++ ys) code);
        read_end = omega arith;
        ordered = omega (arith, u.ordered);
      }

-- The string has been read whole: its bytes stand at `string`, and the stream is at `n`.
pub record Completed (a b : Mis) (len : ℕ) (text : List ℕ) (n : ℕ) : Type 0 where
  pub length_is : len ≡ length text
  pub holds : Holds b.bytes b.string text
  pub spares : Spares a b
  pub read : b.read ≡ n

module _ (mis : Mis) (xs ys : List ℕ) (b : Built mis xs ys) where
  complete_plain :
      mis.mark ≡ mis.string → mis_string_complete mis ≡ (mis.read - mis.string, mis_take mis)
  unfolding mis_string_complete
  complete_plain e = ground arith

  complete_escaped :
      mis.mark ≢ mis.string
      → mis_string_complete mis ≡ (
        (mis_string_update mis).write - (mis_string_update mis).string,
        mis_take (mis_string_update mis),
      )
  unfolding mis_string_complete
  complete_escaped e = ground arith

  pub mis_string_complete-Completed :
      (n : ℕ)
      → n ≡ suc mis.read
      → Completed mis (mis_string_complete mis).1 (mis_string_complete mis).0 (xs ++ ys) n
  mis_string_complete-Completed n e = elim (ℕ_discrete mis.mark mis.string) [
    | yes same ↦
        let none_ : length xs ≡ 0 = omega (arith, b.write_end, b.ordered) in
        let nil : xs ≡ [] = ground arith in
        rw (complete_plain same) (
          rw nil (record {
            length_is = omega (arith, b.read_end);
            holds = rw same at b.pending;
            spares = Spares-read mis (suc mis.read) (omega arith);
            read = sym e;
          }))
    | no differ ↦
        let u = update-Updated mis xs ys b in
        rw (complete_escaped differ) (record {
          length_is = omega (arith, u.write_end);
          holds = u.written;
          spares = Spares-trans mis _ _ u.spares (
              Spares-read (mis_string_update mis) (suc (mis_string_update mis).read) (omega arith));
          read = omega (arith, u.read);
        })
  ]
