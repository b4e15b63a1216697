-- ===== src/Output/Printer/Separators.antt =====
-- src/output.c: the separators that the printer puts between the items.
use jsnpg.Base.{
  ℕ, suc, ◌-◌, List, [], ◌∷◌, ◌++◌, append_assoc, append-nil, Bool, true, false, ◌≡◌, refl, ◌∙◌, ap,
  inl, inr, arith, ◌==◌, ltb, if◌then◌else◌, Bool-cases,
}
use jsnpg.Json.Grammar.{Blank}
use jsnpg.Output.Buffer.{Did, did, ◌then_do◌}
use jsnpg.Output.Stream.{
  Jos, jos_put, jos_indent, jos_prefix, jos_prefix_start, jos_prefix_end, jos_key_suffix,
}
use jsnpg.Output.Printer.Places.{
  At, Good, lead, if-true, if-false, then_do-Good, put-Good, indent-Good, closed, keyed, lead_comma,
}

module _ (grants : ℕ → Bool) (granted : (n : ℕ) → grants n ≡ true) where
  -- the comma of jos_prefix
  comma-Good :
      (jos : Jos) {v : Bool} {l : ℕ} {k : Bool} (c : Bool) (out : List ℕ)
      → At jos v l c k out
      → Good
          (if jos.comma then jos_put grants jos b',' else did jos)
          v
          l
          c
          k
          (out ++ (if c then b',' ∷ [] else []))
  comma-Good jos {v = v} {l = l} {k = k} true out at =
      if-true _ (λ d. Good d v l true k (out ++ b',' ∷ [])) at.comma_is
        (put-Good grants granted jos b',' out at)
  comma-Good jos {v = v} {l = l} {k = k} false out at =
      if-false _ (λ d. Good d v l false k (out ++ [])) at.comma_is (rw append-nil (refl, at))

  -- the new line and the indentation of jos_prefix
  blank-Good :
      (jos : Jos) {v : Bool} {l : ℕ} {c k : Bool} (out : List ℕ)
      → At jos v l c k out
      → (a : List ℕ) × Blank a
        × Good (if jos.indent == 0 then did jos else jos_indent grants jos) v l c k (out ++ a)
  blank-Good jos {v = v} {l = l} {c = c} {k = k} out at = elim (Bool-cases (jos.indent == 0)) [
    | inl flat ↦
        ([], tt, if-true _ (λ d. Good d v l c k (out ++ [])) flat (rw append-nil (refl, at)))
    | inr deep ↦
        let (a, blank, g) = indent-Good grants granted jos out at in
        (a, blank, if-false _ (λ d. Good d v l c k (out ++ a)) deep g)
  ]

  set-Good :
      (d : Did Jos) (out : List ℕ) {v : Bool} {l : ℕ} {c k : Bool}
      → Good d v l c k out
      → Good (d then_do λ j. did (record j { comma = true; key = false })) v l true false out
  set-Good d out g = rw (g.0) (
    refl,
    record {
      validates = g.1.validates;
      level_is = g.1.level_is;
      comma_is = refl;
      key_is = refl;
      contains = g.1.contains;
    },
  )

  -- What separates an item from the one before it is a comma, where there is one, and white space.
  pub prefix-Good :
      (jos : Jos) {v : Bool} {l : ℕ} (c k : Bool) (out : List ℕ)
      → At jos v l c k out
      → (a : List ℕ) × Blank a × Good (jos_prefix grants jos) v l true false (out ++ lead c k a)
  unfolding jos_prefix
  prefix-Good jos {v = v} {l = l} c true out at = (
    [],
    tt,
    if-true _
        (λ d.
          Good (d then_do λ j. did (record j { comma = true; key = false })) v l true false
            (out ++ []))
        at.key_is (rw append-nil (set-Good (did jos) out (refl, at))),
  )
  prefix-Good jos {v = v} {l = l} c false out at =
      let d = if jos.comma then jos_put grants jos b',' else did jos in
      let p = comma-Good jos c out at in
      let (a, blank, q) = blank-Good d.state _ p.1 in
      let indented = d then_do λ j. if j.indent == 0 then did j else jos_indent grants j in
      let both = then_do-Good d (λ j. if j.indent == 0 then did j else jos_indent grants j) p.0 q in
      let parts : (out ++ (if c then b',' ∷ [] else [])) ++ a ≡ out ++ lead c false a =
        append_assoc out _ a ∙ ap (λ w. out ++ w) (lead_comma c a) in
      (
        a,
        blank,
        if-false _
            (λ d.
              Good (d then_do λ j. did (record j { comma = true; key = false })) v l true false
                (out ++ lead c false a))
            at.key_is (set-Good indented _ (rw parts at both)),
      )

  pub prefix_start-Good :
      (jos : Jos) {v : Bool} {l : ℕ} (c k : Bool) (out : List ℕ)
      → At jos v l c k out
      → (a : List ℕ) × Blank a
        × Good (jos_prefix_start grants jos) v (suc l) false false (out ++ lead c k a)
  unfolding jos_prefix_start
  prefix_start-Good jos c k out at =
      let (a, blank, g) = prefix-Good jos c k out at in
      (
        a,
        blank,
        rw (g.0) (
          refl,
          record {
            validates = g.1.validates;
            level_is = omega (arith, g.1.level_is);
            comma_is = refl;
            key_is = g.1.key_is;
            contains = g.1.contains;
          },
        ),
      )

  -- White space before a closing bracket, where the container is not empty.
  pub prefix_end-Good :
      (jos : Jos) {v : Bool} {l : ℕ} (c : Bool) (out : List ℕ)
      → At jos v (suc l) c false out
      → (a : List ℕ) × Blank a × Good (jos_prefix_end grants jos) v l (ltb 0 l) false (out ++ a)
  unfolding jos_prefix_end
  prefix_end-Good jos {v = v} {l = l} c out at =
      let outer = record jos { level = jos.level - 1 } in
      let less : outer.level ≡ l = omega (arith, at.level_is) in
      let last = λ (j : Jos). did (record j { comma = ltb 0 j.level }) in
      elim (Bool-cases jos.comma) [
        | inl full ↦
            let inner = record outer { comma = false } in
            let at' : At inner v l false false out = record {
              validates = at.validates;
              level_is = less;
              comma_is = refl;
              key_is = at.key_is;
              contains = at.contains;
            } in
            let (a, blank, g) = prefix-Good inner false false out at' in
            (
              a,
              blank,
              if-true _ (λ d. Good (d then_do last) v l (ltb 0 l) false (out ++ a)) full
                  (then_do-Good (jos_prefix grants inner) last g.0 (refl, closed _ _ g.1)),
            )
        | inr empty ↦
            let at' : At outer v l jos.comma false out = record {
              validates = at.validates;
              level_is = less;
              comma_is = refl;
              key_is = at.key_is;
              contains = at.contains;
            } in
            (
              [],
              tt,
              if-false _ (λ d. Good (d then_do last) v l (ltb 0 l) false (out ++ [])) empty
                  (rw append-nil (refl, closed _ _ at')),
            )
      ]

  pub key_suffix-Good :
      (jos : Jos) {v : Bool} {l : ℕ} (out : List ℕ)
      → At jos v l true false out
      → (a : List ℕ) × Blank a × Good (jos_key_suffix grants jos) v l true true (out ++ b':' ∷ a)
  unfolding jos_key_suffix
  key_suffix-Good jos {v = v} {l = l} out at =
      let j = (jos_put grants jos b':').state in
      let p = put-Good grants granted jos b':' out at in
      let last = λ (k : Jos). did (record k { key = true }) in
      let spaced =
        λ (j : Jos). (if j.indent == 0 then did j else jos_put grants j b' ') then_do last in
      elim (Bool-cases (j.indent == 0)) [
        | inl flat ↦ (
          [],
          tt,
          then_do-Good (jos_put grants jos b':') spaced p.0 (
              if-true _ (λ d. Good (d then_do last) v l true true (out ++ b':' ∷ [])) flat
                (refl, keyed _ _ p.1)),
        )
        | inr deep ↦
            let q =
              rw (append_assoc out (b':' ∷ []) (b' ' ∷ [])) at
                (put-Good grants granted j b' ' (out ++ b':' ∷ []) p.1) in
            (
              b' ' ∷ [],
              (inl refl, tt),
              then_do-Good (jos_put grants jos b':') spaced p.0 (
                  if-false _ (λ d. Good (d then_do last) v l true true (out ++ b':' ∷ b' ' ∷ []))
                    deep (then_do-Good (jos_put grants j b' ') last q.0 (refl, keyed _ _ q.1))),
            )
      ]
