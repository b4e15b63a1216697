-- ===== src/Generate/Invariant.antt =====
-- src/generate.c: the state of a generator after any events.
use mathlib.Core.Bool.{false≢true}
use mathlib.Core.Option.{some-injective, none-ne-some}
use jsnpg.Base.{
  ℕ, List, [], ◌∷◌, ◌++◌, Bool, true, false, Option, none, some, ◌≡◌, refl, ap, ◌∙◌, subst,
  Option-cases, inl, inr,
}
use jsnpg.Types.{Event}
use jsnpg.Generate.{Generator, check, call, callback, deliver}
use jsnpg.Generate.Machine.{Frame, nest}
use jsnpg.Generate.Nesting.{Nested, Agrees, check-Agrees}
use jsnpg.Generate.Documents.{deliver_all, nest_all, nest_all-cons}

module _ {R C : Type 0} where
  -- The generator has taken `read`, all the events unless a callback has stopped it, and spells the
  -- containers that the nesting machine has open behind them.
  pub record Followed (limit : ℕ) (fs : List Frame) (es : List (Event R)) (b : Bool)
      (g : Generator R C) : Type 0 where
    pub read : List (Event R)
    pub rest : List (Event R)
    pub parts : es ≡ read ++ rest
    pub all_read : b ≡ true → rest ≡ []
    pub open_frames : List Frame
    pub moved : nest_all limit read fs ≡ some open_frames
    pub nested : Nested g open_frames
    pub size : g.stack.size ≡ limit

  call-Nested :
      (f : Option (C → Bool × C)) (g : Generator R C) (fs : List Frame) (limit : ℕ)
      → Nested g fs
      → g.stack.size ≡ limit
      → Nested (call f g).1 fs × ((call f g).1.stack.size ≡ limit)
  unfolding call
  call-Nested none g fs limit n size = (n, size)
  call-Nested (some f) g fs limit n size = (
    record {
      refines = n.refines;
      key_next = n.key_next;
      settled = n.settled;
      checks = n.checks;
      small = n.small;
    },
    size,
  )

  -- an event that the generator takes moves the machine
  abbrev Moved : ℕ → List Frame → Event R → Generator R C → Type 0
  Moved limit fs e g =
      (fs' : List Frame) × (nest limit e fs ≡ some fs') × Nested g fs' × (g.stack.size ≡ limit)

  deliver-Moved :
      (e : Event R) (g g' : Generator R C) (b : Bool) (fs : List Frame) (limit : ℕ)
      → Nested g fs
      → g.stack.size ≡ limit
      → deliver e g ≡ some (b, g')
      → Moved limit fs e g'
  unfolding deliver
  deliver-Moved e g g' b fs limit n size h = elim (Option-cases (nest g.stack.size e fs)) [
    | inl stuck ↦
        let refused =
          subst (λ o. Agrees (check e g) o g.stack.size) stuck (check-Agrees g fs e n) in
        absurd (none-ne-some _ (rw (refused, deliver) at h))
    | inr (fs', moved) ↦
        let passed = subst (λ o. Agrees (check e g) o g.stack.size) moved (check-Agrees g fs e n) in
        let called = some-injective _ _ (rw (passed.0, deliver) at h) in
        let kept =
          call-Nested (callback e (check e g).state.callbacks) (check e g).state fs' limit
            (passed.1) (passed.2 ∙ size) in
        let (nested, size') = subst (λ p. Nested p.1 fs' × (p.1.stack.size ≡ limit)) called kept in
        (fs', rw size at moved, nested, size')
  ]

  Followed-cons :
      (limit : ℕ) (fs fs' : List Frame) (e : Event R) (es : List (Event R)) (b : Bool)
      (g : Generator R C)
      → nest limit e fs ≡ some fs'
      → Followed limit fs' es b g
      → Followed limit fs (e ∷ es) b g
  Followed-cons limit fs fs' e es b g moved f = record {
    read = e ∷ f.read;
    rest = f.rest;
    parts = ap (λ l. e ∷ l) f.parts;
    all_read = f.all_read;
    open_frames = f.open_frames;
    moved = nest_all-cons limit e f.read fs fs' moved ∙ f.moved;
    nested = f.nested;
    size = f.size;
  }

  Followed-none :
      (limit : ℕ) (fs : List Frame) (es : List (Event R)) (b : Bool) (g : Generator R C)
      → (b ≡ true → es ≡ [])
      → Nested g fs
      → g.stack.size ≡ limit
      → Followed limit fs es b g
  Followed-none limit fs es b g all n size = record {
    read = [];
    rest = es;
    parts = refl;
    all_read = all;
    open_frames = fs;
    moved = refl;
    nested = n;
    size = size;
  }

  -- A generator of at most 2048 places whose stack's bits and key_next spell some open containers is
  -- sent any events, in any order. Where no assertion fails, it has taken all of them, or those up to
  -- one that a callback has refused; an independent nesting machine moves by these from the containers
  -- that were open, and the generator's bits and key_next spell the containers to which it has moved.
  -- The size of the stack is as before.
  pub deliver_all-Followed :
      (es : List (Event R)) (g g' : Generator R C) (b : Bool) (fs : List Frame)
      → Nested g fs
      → deliver_all es g ≡ some (b, g')
      → Followed g.stack.size fs es b g'
  deliver_all-Followed es g g' b fs n h = follow es g fs g.stack.size n refl h
    where
      follow :
          (es' : List (Event R)) (at_ : Generator R C) (frames : List Frame) (limit : ℕ)
          → Nested at_ frames
          → at_.stack.size ≡ limit
          → deliver_all es' at_ ≡ some (b, g')
          → Followed limit frames es' b g'
      follow [] at_ frames limit n' size e =
          subst (λ p. Followed limit frames [] p.0 p.1) (some-injective _ _ e)
            (Followed-none limit frames [] true at_ (λ t. refl) n' size)
      follow (event ∷ es') at_ frames limit n' size e = elim (Option-cases (deliver event at_)) [
        | inl stuck ↦ absurd (none-ne-some _ (rw (stuck, deliver_all) at e))
        | inr ((true, next), sent) ↦
            let (frames', moved, nested, size') =
              deliver-Moved event at_ next true frames limit n' size sent in
            Followed-cons limit frames frames' event es' b g' moved
              (follow es' next frames' limit nested size' (rw (sent, deliver_all) at e))
        | inr ((false, next), sent) ↦
            let (frames', moved, nested, size') =
              deliver-Moved event at_ next false frames limit n' size sent in
            let stopped = some-injective _ _ (rw (sent, deliver_all) at e) in
            subst (λ p. Followed limit frames (event ∷ es') p.0 p.1) stopped
              (Followed-cons limit frames frames' event es' false next moved (
                Followed-none limit frames' es' false next (λ t. absurd (false≢true t)) nested
                  size'))
      ]
