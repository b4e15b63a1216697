-- ===== src/Output/Printer/Items.antt =====
-- src/output.c: each item that the printer writes, behind what separates it from the one before.
use jsnpg.Base.{
  ℕ, suc, ◌+◌, ◌-◌, ◌≤◌, List, [], ◌∷◌, ◌++◌, append_assoc, Bool, true, false, ◌≡◌, refl, sym, ◌∙◌,
  subst, arith, ltb, length, length-append,
}
use jsnpg.Base.Int.{ℤ}
use jsnpg.Base.Memory.{Holds-append, Holds-agree, Holds-poke_all, poke_all, poke_all-below}
use jsnpg.Floats.{FloatLib}
use jsnpg.Json.Grammar.{Blank}
use jsnpg.Output.Buffer.{Mos, Did, ◌then_do◌, mos_reserve, mos_adjust}
use jsnpg.Output.Buffer.Grows.{Contains, Reserved, mos_reserve-Reserved}
use jsnpg.Output.Stream.{
  Jos, jos_put, jos_puts, jos_prefix, jos_prefix_start, jos_prefix_end, jos_key_suffix,
}
use jsnpg.Output.Scan.Reference.{Text}
use jsnpg.Output.Printer.{
  text_null, text_true, text_false, jos_put_number, print_null, print_boolean, put_quoted,
  print_string, print_key, print_start_object, print_end_object, print_start_array, print_end_array,
  print_integer,
}
use jsnpg.Output.Printer.Quoted.{quoted, put_quoted-Printed}
use jsnpg.Output.Printer.Places.{
  At, Good, lead, if-true, then_do-Good, Printed-Good, put-Good, puts-Good,
}
use jsnpg.Output.Printer.Separators.{
  prefix-Good, prefix_start-Good, prefix_end-Good, key_suffix-Good,
}

-- A number is written into a reservation of `room` bytes, of which the rest is given back.
number-Contains :
    (mos mos' : Mos) (out digits : List ℕ) (room : ℕ)
    → Contains mos out
    → Reserved mos mos' room
    → length digits ≤ room
    → Contains
        (mos_adjust
          (record mos' { buffer = poke_all mos'.buffer mos.count digits })
          (room - length digits))
        (out ++ digits)
unfolding mos_adjust
number-Contains mos mos' out digits room c r le =
    let written = Holds-poke_all mos.buffer mos.count digits in
    let kept =
      Holds-agree mos.buffer (poke_all mos.buffer mos.count digits) 0 out
        (λ j lo hi. poke_all-below mos.buffer mos.count digits j (omega (arith, c.count_is)))
        c.holds in
    let at_end : 0 + length out ≡ mos.count = omega (arith, c.count_is) in
    record {
      holds = rw (r.same) (Holds-append _ 0 out digits kept (rw at_end written));
      count_is = omega (arith, r.count_is, c.count_is, le, length-append out digits);
      fits = omega (arith, r.fits, r.count_is, le);
      doubles = r.doubles;
    }

module _ (grants : ℕ → Bool) (granted : (n : ℕ) → grants n ≡ true) where
  -- What is written behind the prefix.
  item-Good :
      (jos : Jos) (body : Jos → Did Jos) {v : Bool} {l : ℕ} {c' k' : Bool} (c k : Bool)
      (out w : List ℕ)
      → At jos v l c k out
      → ((j : Jos) (sofar : List ℕ)
          → At j v l true false sofar
          → Good (body j) v l c' k' (sofar ++ w))
      → (a : List ℕ) × Blank a
        × Good (jos_prefix grants jos then_do body) v l c' k' (out ++ (lead c k a ++ w))
  item-Good jos body c k out w at step =
      let (a, blank, g) = prefix-Good grants granted jos c k out at in
      let q =
        rw (append_assoc out (lead c k a) w) at
          (step (jos_prefix grants jos).state (out ++ lead c k a) g.1) in
      (a, blank, then_do-Good (jos_prefix grants jos) body g.0 q)

  number-Good :
      (jos : Jos) (digits : List ℕ) {v : Bool} {l : ℕ} {c k : Bool} (out : List ℕ) (room : ℕ)
      → At jos v l c k out
      → length digits ≤ room
      → Good (jos_put_number grants room jos digits) v l c k (out ++ digits)
  unfolding jos_put_number
  number-Good jos digits {v = v} {l = l} {c = c} {k = k} out room at le =
      let (success, r) = mos_reserve-Reserved grants granted jos.mos out room at.contains in
      let mos' = (mos_reserve grants jos.mos room).state in
      if-true _ (λ d. Good d v l c k (out ++ digits)) success
        (
          refl,
          record {
            validates = at.validates;
            level_is = at.level_is;
            comma_is = at.comma_is;
            key_is = at.key_is;
            contains = number-Contains jos.mos mos' out digits room at.contains r le;
          },
        )

  pub null-Good :
      (jos : Jos) {v : Bool} {l : ℕ} (c k : Bool) (out : List ℕ)
      → At jos v l c k out
      → (a : List ℕ) × Blank a
        × Good (print_null grants jos) v l true false (out ++ (lead c k a ++ text_null))
  unfolding print_null
  null-Good jos c k out at =
      item-Good jos (λ j. jos_puts grants j text_null) c k out text_null at
        (λ j sofar at'. puts-Good grants granted j text_null sofar at')

  abbrev pub text_of : Bool → List ℕ
  text_of true = text_true
  text_of false = text_false

  pub boolean-Good :
      (jos : Jos) (b : Bool) {v : Bool} {l : ℕ} (c k : Bool) (out : List ℕ)
      → At jos v l c k out
      → (a : List ℕ) × Blank a
        × Good (print_boolean grants jos b) v l true false (out ++ (lead c k a ++ text_of b))
  unfolding print_boolean
  boolean-Good jos true c k out at =
      item-Good jos _ c k out text_true at
        (λ j sofar at'. puts-Good grants granted j text_true sofar at')
  boolean-Good jos false c k out at =
      item-Good jos _ c k out text_false at
        (λ j sofar at'. puts-Good grants granted j text_false sofar at')

  pub integer-Good :
      (lib : FloatLib) (jos : Jos) (i : ℤ) {v : Bool} {l : ℕ} (c k : Bool) (out : List ℕ)
      → At jos v l c k out
      → length (lib.i64toa i) ≤ 22
      → (a : List ℕ) × Blank a
        × Good (print_integer grants lib jos i) v l true false (out ++ (lead c k a ++ lib.i64toa i))
  unfolding print_integer
  integer-Good lib jos i c k out at le =
      item-Good jos _ c k out (lib.i64toa i) at
        (λ j sofar at'. number-Good j (lib.i64toa i) sofar 22 at' le)

  quoted-Good :
      (jos : Jos) (text : List ℕ) {v : Bool} {l : ℕ} {c k : Bool} (out : List ℕ)
      → At jos v l c k out
      → Text v text
      → Good (put_quoted grants jos text) v l c k (out ++ quoted text)
  quoted-Good jos text out at t = Printed-Good jos _ (out ++ quoted text) at (
      put_quoted-Printed grants granted jos out text (subst (λ v. Text v text) (sym at.validates) t)
        at.contains)

  pub string-Good :
      (jos : Jos) (text : List ℕ) {v : Bool} {l : ℕ} (c k : Bool) (out : List ℕ)
      → At jos v l c k out
      → Text v text
      → (a : List ℕ) × Blank a
        × Good (print_string grants jos text) v l true false (out ++ (lead c k a ++ quoted text))
  unfolding print_string
  string-Good jos text c k out at t =
      item-Good jos (λ j. put_quoted grants j text) c k out (quoted text) at
        (λ j sofar at'. quoted-Good j text sofar at' t)

  -- A key, a colon and white space.
  pub key-Good :
      (jos : Jos) (text : List ℕ) {v : Bool} {l : ℕ} (c : Bool) (out : List ℕ)
      → At jos v l c false out
      → Text v text
      → (a b : List ℕ) × Blank a
        × Blank b
        × Good
            (print_key grants jos text)
            v
            l
            true
            true
            (out ++ (lead c false a ++ (quoted text ++ b':' ∷ b)))
  unfolding print_key
  key-Good jos text {v = v} {l = l} c out at t =
      let (a, blank, g) = prefix-Good grants granted jos c false out at in
      let j = (jos_prefix grants jos).state in
      let sofar = out ++ lead c false a in
      let q = quoted-Good j text sofar g.1 t in
      let (b, blank', e) =
        key_suffix-Good grants granted (put_quoted grants j text).state (sofar ++ quoted text)
          q.1 in
      let suffix = λ (k : Jos). jos_key_suffix grants k in
      let parts : (sofar ++ quoted text) ++ b':' ∷ b
          ≡ out ++ (lead c false a ++ (quoted text ++ b':' ∷ b)) =
        append_assoc sofar (quoted text) (b':' ∷ b) ∙ append_assoc out (lead c false a) _ in
      (
        a,
        b,
        blank,
        blank',
        then_do-Good (jos_prefix grants jos) (λ j. put_quoted grants j text then_do suffix) g.0
            (rw parts at (then_do-Good (put_quoted grants j text) suffix q.0 e)),
      )

  -- an opening bracket, and a closing one
  opened :
      (jos : Jos) (bracket : ℕ) {v : Bool} {l : ℕ} (c k : Bool) (out : List ℕ)
      → At jos v l c k out
      → (a : List ℕ) × Blank a
        × Good
            (jos_prefix_start grants jos then_do λ j. jos_put grants j bracket)
            v
            (suc l)
            false
            false
            (out ++ (lead c k a ++ bracket ∷ []))
  opened jos bracket c k out at =
      let (a, blank, g) = prefix_start-Good grants granted jos c k out at in
      let put = λ (j : Jos). jos_put grants j bracket in
      let d = jos_prefix_start grants jos in
      let q =
        rw (append_assoc out (lead c k a) (bracket ∷ [])) at
          (put-Good grants granted d.state bracket (out ++ lead c k a) g.1) in
      (a, blank, then_do-Good d put g.0 q)

  ended :
      (jos : Jos) (bracket : ℕ) {v : Bool} {l : ℕ} (c : Bool) (out : List ℕ)
      → At jos v (suc l) c false out
      → (a : List ℕ) × Blank a
        × Good
            (jos_prefix_end grants jos then_do λ j. jos_put grants j bracket)
            v
            l
            (ltb 0 l)
            false
            (out ++ (a ++ bracket ∷ []))
  ended jos bracket c out at =
      let (a, blank, g) = prefix_end-Good grants granted jos c out at in
      let put = λ (j : Jos). jos_put grants j bracket in
      let d = jos_prefix_end grants jos in
      let q =
        rw (append_assoc out a (bracket ∷ [])) at
          (put-Good grants granted d.state bracket (out ++ a) g.1) in
      (a, blank, then_do-Good d put g.0 q)

  pub start_array-Good :
      (jos : Jos) {v : Bool} {l : ℕ} (c k : Bool) (out : List ℕ)
      → At jos v l c k out
      → (a : List ℕ) × Blank a
        × Good
            (print_start_array grants jos)
            v
            (suc l)
            false
            false
            (out ++ (lead c k a ++ b'[' ∷ []))
  unfolding print_start_array
  start_array-Good jos c k out at = opened jos b'[' c k out at

  pub end_array-Good :
      (jos : Jos) {v : Bool} {l : ℕ} (c : Bool) (out : List ℕ)
      → At jos v (suc l) c false out
      → (a : List ℕ) × Blank a
        × Good (print_end_array grants jos) v l (ltb 0 l) false (out ++ (a ++ b']' ∷ []))
  unfolding print_end_array
  end_array-Good jos c out at = ended jos b']' c out at

  pub start_object-Good :
      (jos : Jos) {v : Bool} {l : ℕ} (c k : Bool) (out : List ℕ)
      → At jos v l c k out
      → (a : List ℕ) × Blank a
        × Good
            (print_start_object grants jos)
            v
            (suc l)
            false
            false
            (out ++ (lead c k a ++ b'{' ∷ []))
  unfolding print_start_object
  start_object-Good jos c k out at = opened jos b'{' c k out at

  pub end_object-Good :
      (jos : Jos) {v : Bool} {l : ℕ} (c : Bool) (out : List ℕ)
      → At jos v (suc l) c false out
      → (a : List ℕ) × Blank a
        × Good (print_end_object grants jos) v l (ltb 0 l) false (out ++ (a ++ b'}' ∷ []))
  unfolding print_end_object
  end_object-Good jos c out at = ended jos b'}' c out at
