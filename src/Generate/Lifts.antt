-- ===== src/Generate/Lifts.antt =====
-- src/generate.c: what the callbacks make of their context, the generator makes of its own, where
-- the events nest.
use mathlib.Core.Option.{some-injective, none-ne-some}
use jsnpg.Base.{
  ℕ, List, [], ◌∷◌, Bool, true, some, ◌≡◌, refl, sym, ◌∙◌, ap, subst, Option-cases, Bool-cases, inl,
  inr, arith,
}
use jsnpg.Base.Did.{Did, ◌then_do◌}
use jsnpg.Types.{Event}
use jsnpg.Generate.{
  Generator, Callbacks, can_value, can_key, can_push, push_type, can_pop, check, call, callback,
  deliver,
}
use jsnpg.Generate.Machine.{Frame, nest}
use jsnpg.Generate.Nesting.{Nested, Agrees, check-Agrees}
use jsnpg.Generate.Documents.{deliver_all, nest_all, nest_all-cons}
use jsnpg.Generate.Sends.{Sends, sent, sending}

module _ {R C : Type 0} where
  -- A check changes neither the callbacks nor their context.
  record Keeps (d : Did (Generator R C)) (g : Generator R C) : Type 0 where
    callbacks : d.state.callbacks ≡ g.callbacks
    ctx : d.state.ctx ≡ g.ctx

  can_value-Keeps : (g : Generator R C) → Keeps (can_value g) g
  unfolding can_value
  can_value-Keeps g = record { callbacks = ground arith; ctx = ground arith }

  can_key-Keeps : (g : Generator R C) → Keeps (can_key g) g
  unfolding can_key
  can_key-Keeps g = record { callbacks = ground arith; ctx = ground arith }

  push_type-Keeps : (t : ℕ) (g : Generator R C) → Keeps (push_type t g) g
  unfolding push_type
  push_type-Keeps t g = record { callbacks = ground arith; ctx = ground arith }

  then_do-Keeps :
      (d : Did (Generator R C)) (f : Generator R C → Did (Generator R C)) (g : Generator R C)
      → Keeps d g
      → Keeps (f d.state) d.state
      → Keeps (d then_do f) g
  then_do-Keeps d f g p q = elim (Bool-cases d.success) [
    | inl e ↦ rw e (record { callbacks = q.callbacks ∙ p.callbacks; ctx = q.ctx ∙ p.ctx })
    | inr e ↦ rw e (record { callbacks = p.callbacks; ctx = p.ctx })
  ]

  can_push-Keeps : (t : ℕ) (g : Generator R C) → Keeps (can_push t g) g
  unfolding can_push
  can_push-Keeps t g =
      then_do-Keeps (can_value g) (push_type t) g (can_value-Keeps g)
        (push_type-Keeps t (can_value g).state)

  can_pop-Keeps : (t : ℕ) (g : Generator R C) → Keeps (can_pop t g) g
  unfolding can_pop
  can_pop-Keeps t g = record { callbacks = ground arith; ctx = ground arith }

  check-Keeps : (e : Event R) (g : Generator R C) → Keeps (check e g) g
  unfolding check
  check-Keeps Event.null g = can_value-Keeps g
  check-Keeps (Event.boolean b) g = can_value-Keeps g
  check-Keeps (Event.integer i) g = can_value-Keeps g
  check-Keeps (Event.real r) g = can_value-Keeps g
  check-Keeps (Event.string s) g = can_value-Keeps g
  check-Keeps (Event.key k) g = can_key-Keeps g
  check-Keeps Event.start_array g = can_push-Keeps _ g
  check-Keeps Event.end_array g = can_pop-Keeps _ g
  check-Keeps Event.start_object g = can_push-Keeps _ g
  check-Keeps Event.end_object g = can_pop-Keeps _ g

  -- A generator that has `cb` and whose context is `c`, where the events `es` may come next.
  pub record Stage (cb : Callbacks R C) (c : C) (limit : ℕ) (fs : List Frame) (g : Generator R C)
      : Type 0 where
    pub callbacks : g.callbacks ≡ cb
    pub ctx : g.ctx ≡ c
    pub nested : Nested g fs
    pub size : g.stack.size ≡ limit

  -- A callback that goes well, behind a check that goes well.
  deliver-Stage :
      (cb : Callbacks R C) (run : Event R → C → Bool × C) (e : Event R) (c c' : C) (limit : ℕ)
      (fs fs' : List Frame) (g : Generator R C)
      → callback e cb ≡ some (run e)
      → run e c ≡ (true, c')
      → nest limit e fs ≡ some fs'
      → Stage cb c limit fs g
      → (g' : Generator R C) × (deliver e g ≡ some (true, g')) × Stage cb c' limit fs' g'
  unfolding deliver call
  deliver-Stage cb run e c c' limit fs fs' g has goes moved s =
      let moved' = subst (λ n. nest n e fs ≡ some fs') (sym s.size) moved in
      let (success, nested, size) =
        subst (λ o. Agrees (check e g) o g.stack.size) moved' (check-Agrees g fs e s.nested) in
      let h = (check e g).state in
      let keeps = check-Keeps e g in
      let same = keeps.callbacks in
      let called : call (callback e h.callbacks) h ≡ (true, record h { ctx = c' }) =
        ap (λ f. call f h) (ap (λ b. callback e b) (same ∙ s.callbacks) ∙ has)
        ∙ ap (λ p. (p.0, record h { ctx = p.1 })) (ap (run e) (keeps.ctx ∙ s.ctx) ∙ goes) in
      (
        record h { ctx = c' },
        rw success (ap some called),
        record {
          callbacks = same ∙ s.callbacks;
          ctx = refl;
          nested = record {
            refines = nested.refines;
            key_next = nested.key_next;
            settled = nested.settled;
            checks = nested.checks;
            small = nested.small;
          };
          size = size ∙ s.size;
        },
      )

  -- Callbacks that are all given, by `run`, and take the events `es` from `c` to `c'`: a generator
  -- that has them takes the events too, where these nest, and its context is then `c'`.
  pub deliver_all-Stage :
      (cb : Callbacks R C) (run : Event R → C → Bool × C) (limit : ℕ) (es : List (Event R))
      (c c' : C) (fs fs' : List Frame) (g : Generator R C)
      → ((e : Event R) → callback e cb ≡ some (run e))
      → Sends (λ e c. some (run e c)) c' es c
      → nest_all limit es fs ≡ some fs'
      → Stage cb c limit fs g
      → (g' : Generator R C) × (deliver_all es g ≡ some (true, g')) × Stage cb c' limit fs' g'
  deliver_all-Stage cb run limit [] c c' fs fs' g has (sent e) nests s = (
    g,
    refl,
    subst (λ k. Stage cb k limit fs' g) e
        (subst (λ k. Stage cb c limit k g) (some-injective _ _ nests) s),
  )
  deliver_all-Stage cb run limit (e ∷ es) c c' fs fs' g has (sending {g' = next} took more) nests
        s =
      elim (Option-cases (nest limit e fs)) [
        | inl stuck ↦ absurd (none-ne-some _ (rw (stuck, nest_all) at nests))
        | inr (fs₁, moved) ↦
            let (g₁, delivered, s₁) =
              deliver-Stage cb run e c next limit fs fs₁ g (has e) (some-injective _ _ took) moved
                s in
            let (g', all, s') =
              deliver_all-Stage cb run limit es next c' fs₁ fs' g₁ has more
                (sym (nest_all-cons limit e es fs fs₁ moved) ∙ nests) s₁ in
            (g', rw (delivered, deliver_all) all, s')
      ]
