-- ===== src/Generate/Nesting.antt =====
-- The checks of src/generate.c against the nesting machine.
use jsnpg.Base.{
  ℕ, ◌≤◌, ◌<◌, List, [], ◌∷◌, Bool, true, false, not, ◌&&◌, Bool-cases, Option-cases, inl, inr,
  Option, none, some, ◌≡◌, refl, sym, ◌∙◌, arith, subst, length, ltb, ◌==◌, if◌then◌else◌,
}
use jsnpg.Base.Did.{Did}
use jsnpg.Types.{Event}
use jsnpg.Stack.{stack_pop, stack_push}
use jsnpg.Stack.Refine.{Refines, stack_peek-Refines, stack_pop-Refines, stack_push-Refines}
use jsnpg.Generate.{Generator, top_is, can_value, can_key, push_type, can_push, can_pop, check}
use jsnpg.Generate.Machine.{
  Frame, in_array, before_key, before_value, frame_type, types, expects_key, Settled, Nest,
  value_in, key_in, open_in, close_array, close_object, nest, in_object, top_is-object,
  Settled-Nest, in_object-Settled, Settled-value_in, pop_result-tail, size-stack_pop,
  size-stack_push,
}

module _ {R C : Type 0} where
  -- The generator's state spells the open containers.
  pub record Nested (g : Generator R C) (fs : List Frame) : Type 0 where
    pub refines : Refines g.stack (types fs)
    pub key_next : g.key_next ≡ expects_key fs
    pub settled : Nest fs
    pub checks : 0 < g.stack.size
    pub small : g.stack.size ≤ 2048

  -- A check succeeds where the machine moves, and then spells where it moves to.
  abbrev pub Agrees : Did (Generator R C) → Option (List Frame) → ℕ → Type 0
  Agrees d none limit = d.success ≡ false
  Agrees d (some fs) limit = (d.success ≡ true) × Nested d.state fs × (d.state.stack.size ≡ limit)

  nonzero : (g : Generator R C) → 0 < g.stack.size → (g.stack.size == 0) ≡ false
  nonzero g h = ground (arith, h)

  guard :
      (g : Generator R C) (fs : List Frame)
      → Nested g fs
      → (not (g.stack.size == 0) && top_is g.stack 0) ≡ in_object fs
  guard g fs n = rw (nonzero g n.checks) (top_is-object g.stack fs n.refines)

  -- the state after a check that changes the flag alone
  reset :
      (g : Generator R C) (fs fs' : List Frame) (b : Bool)
      → Nested g fs
      → types fs ≡ types fs'
      → b ≡ expects_key fs'
      → Nest fs'
      → Nested (record g { key_next = b }) fs'
  reset g fs fs' b n same flag settled = record {
    refines = subst (Refines g.stack) same n.refines;
    key_next = flag;
    settled = settled;
    checks = n.checks;
    small = n.small;
  }

  can_value-Agrees :
      (g : Generator R C) (fs : List Frame)
      → Nested g fs
      → Agrees (can_value g) (value_in fs) g.stack.size
  unfolding can_value
  can_value-Agrees g [] n = rw (guard g _ n) (refl, n, refl)
  can_value-Agrees g (in_array ∷ fs) n = rw (guard g _ n) (refl, n, refl)
  can_value-Agrees g (before_key ∷ fs) n = rw (guard g _ n) (rw n.key_next refl)
  can_value-Agrees g (before_value ∷ fs) n =
      rw (guard g _ n)
        (rw n.key_next (refl, reset g _ (before_key ∷ fs) true n refl refl n.settled, refl))

  can_key-Agrees :
      (g : Generator R C) (fs : List Frame)
      → Nested g fs
      → Agrees (can_key g) (key_in fs) g.stack.size
  unfolding can_key
  can_key-Agrees g [] n = rw (nonzero g n.checks) (rw n.key_next refl)
  can_key-Agrees g (in_array ∷ fs) n = rw (nonzero g n.checks) (rw n.key_next refl)
  can_key-Agrees g (before_value ∷ fs) n = rw (nonzero g n.checks) (rw n.key_next refl)
  can_key-Agrees g (before_key ∷ fs) n =
      rw (nonzero g n.checks)
        (rw n.key_next (refl, reset g _ (before_value ∷ fs) false n refl refl n.settled, refl))

  push_type-Agrees :
      (g : Generator R C) (f : Frame) (outer : List Frame)
      → Nested g outer
      → Settled outer
      → expects_key (f ∷ outer) ≡ (frame_type f == 0)
      → frame_type f < 2
      → Agrees
          (push_type (frame_type f) g)
          (if ltb (length (types outer)) g.stack.size then some (f ∷ outer) else none)
          g.stack.size
  unfolding push_type
  push_type-Agrees g f outer n settled flag small =
      let pushed =
        stack_push-Refines g.stack (types outer) (frame_type f) n.refines small n.small in
      elim (Bool-cases (ltb (length (types outer)) g.stack.size)) [
        | inr full ↦ rw (nonzero g n.checks) (rw (pushed.0) (rw full refl))
        | inl room ↦ rw (nonzero g n.checks) (
            rw (pushed.0) (
              rw room (
                refl,
                record {
                  refines =
                      subst
                        (λ b.
                          Refines (stack_push g.stack (frame_type f)).1
                            (if b then frame_type f ∷ types outer else types outer))
                        room pushed.1;
                  key_next = sym flag;
                  settled = settled;
                  checks =
                      subst (λ k. 0 < k) (sym (size-stack_push g.stack (frame_type f))) n.checks;
                  small =
                      subst (λ k. k ≤ 2048) (sym (size-stack_push g.stack (frame_type f))) n.small;
                },
                size-stack_push g.stack (frame_type f),
              )))
      ]

  pop-Agrees :
      (g : Generator R C) (f : Frame) (outer : List Frame)
      → Nested g (f ∷ outer)
      → Settled outer
      → (b : Bool) → b ≡ top_is (stack_pop g.stack).1 0
      → Nested (record g { stack = (stack_pop g.stack).1; key_next = b }) outer
  pop-Agrees g f outer n settled b e =
      let r : Refines (stack_pop g.stack).1 (types outer) =
        subst (Refines (stack_pop g.stack).1) (pop_result-tail (frame_type f) (types outer))
          (stack_pop-Refines g.stack (types (f ∷ outer)) n.refines).1 in
      record {
        refines = r;
        key_next =
            e ∙ top_is-object (stack_pop g.stack).1 outer r ∙ in_object-Settled outer settled;
        settled = Settled-Nest outer settled;
        checks = subst (λ k. 0 < k) (sym (size-stack_pop g.stack)) n.checks;
        small = subst (λ k. k ≤ 2048) (sym (size-stack_pop g.stack)) n.small;
      }

  can_push-Agrees :
      (g : Generator R C) (f : Frame) (fs : List Frame)
      → Nested g fs
      → ((outer : List Frame) → expects_key (f ∷ outer) ≡ (frame_type f == 0))
      → frame_type f < 2
      → Agrees (can_push (frame_type f) g) (open_in g.stack.size f fs) g.stack.size
  unfolding can_push
  can_push-Agrees g f fs n flag small = elim (Option-cases (value_in fs)) [
    | inl e ↦
        let no : (can_value g).success ≡ false =
          subst (λ o. Agrees (can_value g) o g.stack.size) e (can_value-Agrees g fs n) in
        rw (e, open_in) (rw no refl)
    | inr (outer, e) ↦
        let v = subst (λ o. Agrees (can_value g) o g.stack.size) e (can_value-Agrees g fs n) in
        let settled = Settled-value_in fs outer n.settled e in
        rw (e, open_in)
          (rw (v.0) (
            subst
              (λ k.
                Agrees (push_type (frame_type f) (can_value g).state)
                  (if ltb (length (types outer)) k then some (f ∷ outer) else none) k)
              v.2 (push_type-Agrees (can_value g).state f outer v.1 settled (flag outer) small)))
  ]

  can_pop_array-Agrees :
      (g : Generator R C) (fs : List Frame)
      → Nested g fs
      → Agrees (can_pop 1 g) (close_array fs) g.stack.size
  unfolding can_pop
  can_pop_array-Agrees g [] n =
      rw (nonzero g n.checks) (rw (stack_peek-Refines g.stack _ n.refines) refl)
  can_pop_array-Agrees g (before_key ∷ fs) n =
      rw (nonzero g n.checks) (rw (stack_peek-Refines g.stack _ n.refines) refl)
  can_pop_array-Agrees g (before_value ∷ fs) n =
      rw (nonzero g n.checks) (rw (stack_peek-Refines g.stack _ n.refines) refl)
  can_pop_array-Agrees g (in_array ∷ fs) n = rw (nonzero g n.checks) (
      rw (stack_peek-Refines g.stack _ n.refines)
        (refl, pop-Agrees g in_array fs n n.settled _ refl, size-stack_pop g.stack))

  can_pop_object-Agrees :
      (g : Generator R C) (fs : List Frame)
      → Nested g fs
      → Agrees (can_pop 0 g) (close_object fs) g.stack.size
  unfolding can_pop
  can_pop_object-Agrees g [] n =
      rw (nonzero g n.checks) (rw (stack_peek-Refines g.stack _ n.refines) refl)
  can_pop_object-Agrees g (in_array ∷ fs) n =
      rw (nonzero g n.checks) (rw (stack_peek-Refines g.stack _ n.refines) refl)
  can_pop_object-Agrees g (before_value ∷ fs) n =
      rw (nonzero g n.checks) (rw (stack_peek-Refines g.stack _ n.refines) (rw n.key_next refl))
  can_pop_object-Agrees g (before_key ∷ fs) n = rw (nonzero g n.checks) (
      rw (stack_peek-Refines g.stack _ n.refines) (
        rw n.key_next
          (refl, pop-Agrees g before_key fs n n.settled _ refl, size-stack_pop g.stack)))

  -- For a generator whose checks are on, with a stack of at most 2048 entries, each of the ten
  -- checks succeeds exactly where the nesting machine moves, and leaves the generator in the
  -- state that it moves to.
  pub check-Agrees :
      (g : Generator R C) (fs : List Frame) (e : Event R)
      → Nested g fs
      → Agrees (check e g) (nest g.stack.size e fs) g.stack.size
  unfolding check
  check-Agrees g fs (Event.key bytes) n = can_key-Agrees g fs n
  check-Agrees g fs Event.start_array n = can_push-Agrees g in_array fs n (λ o. refl) (omega arith)
  check-Agrees g fs Event.end_array n = can_pop_array-Agrees g fs n
  check-Agrees g fs Event.start_object n =
      can_push-Agrees g before_key fs n (λ o. refl) (omega arith)
  check-Agrees g fs Event.end_object n = can_pop_object-Agrees g fs n
  check-Agrees g fs Event.null n = can_value-Agrees g fs n
  check-Agrees g fs (Event.boolean b) n = can_value-Agrees g fs n
  check-Agrees g fs (Event.integer b) n = can_value-Agrees g fs n
  check-Agrees g fs (Event.real b) n = can_value-Agrees g fs n
  check-Agrees g fs (Event.string b) n = can_value-Agrees g fs n
