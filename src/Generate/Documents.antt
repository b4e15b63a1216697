-- ===== src/Generate/Documents.antt =====
-- The events of a whole JSON value, sent through the checks of src/generate.c.
use mathlib.Core.Option.{some-injective, none-ne-some}
use jsnpg.Base.{
  ℕ, zero, suc, ◌+◌, ◌/◌, ◌%◌, get_or, replicate, length-replicate, ◌≤◌, ◌<◌, List, [], ◌∷◌, Bool,
  true, Option, none, some, ◌≡◌, refl, sym, ◌∙◌, subst, arith, length, Bool-cases, Option-cases,
  inl, inr, false, ltb-eq_true,
}
use jsnpg.Types.{Event}
use jsnpg.Json.{
  Value, array, object, Elements, last, element, Members, done, member, depth, depth_elements,
  depth_members, events, events_elements, events_members,
}
use jsnpg.Generate.{Generator, Callbacks, generator_new, check, call, callback, deliver}
use jsnpg.Generate.Machine.{
  Frame, in_array, before_key, before_value, types, value_in, open_in, nest,
}
use jsnpg.Generate.Nesting.{Nested, Agrees, check-Agrees}

module _ {R : Type 0} (limit : ℕ) where
  abbrev pub nest_all : List (Event R) → List Frame → Option (List Frame)
  nest_all [] fs = some fs
  nest_all (e ∷ es) fs = elim (nest limit e fs) [ none ↦ none | some fs' ↦ nest_all es fs' ]

  pub nest_all-cons :
      (e : Event R) (es : List (Event R)) (fs fs' : List Frame)
      → nest limit e fs ≡ some fs'
      → nest_all (e ∷ es) fs ≡ nest_all es fs'
  nest_all-cons e es fs fs' h = rw (h, nest_all) refl

  mutual
    -- A value moves the machine as one scalar does.
    pub nest_all-events :
        (v : Value R) (fs outer : List Frame) (rest : List (Event R))
        → value_in fs ≡ some outer
        → depth v + length (types outer) ≤ limit
        → nest_all (events v rest) fs ≡ nest_all rest outer
    nest_all-events Value.null fs outer rest e h = nest_all-cons Event.null rest fs outer e
    nest_all-events (Value.boolean b) fs outer rest e h =
        nest_all-cons (Event.boolean b) rest fs outer e
    nest_all-events (Value.integer n) fs outer rest e h =
        nest_all-cons (Event.integer n) rest fs outer e
    nest_all-events (Value.real r) fs outer rest e h = nest_all-cons (Event.real r) rest fs outer e
    nest_all-events (Value.string s) fs outer rest e h =
        nest_all-cons (Event.string s) rest fs outer e
    nest_all-events (array vs) fs outer rest e h =
        let opened : open_in limit in_array fs ≡ some (in_array ∷ outer) =
          rw (e, open_in) (rw (ltb-eq_true (length (types outer)) limit (omega (arith, h))) refl) in
        nest_all-cons Event.start_array (events_elements vs (Event.end_array ∷ rest)) fs _ opened
        ∙ nest_all-elements vs outer rest (omega (arith, h))
    nest_all-events (object ms) fs outer rest e h =
        let opened : open_in limit before_key fs ≡ some (before_key ∷ outer) =
          rw (e, open_in) (rw (ltb-eq_true (length (types outer)) limit (omega (arith, h))) refl) in
        nest_all-cons Event.start_object (events_members ms (Event.end_object ∷ rest)) fs _ opened
        ∙ nest_all-members ms outer rest (omega (arith, h))

    nest_all-elements :
        (vs : Elements R) (outer : List Frame) (rest : List (Event R))
        → depth_elements vs + length (types (in_array ∷ outer)) ≤ limit
        → nest_all (events_elements vs (Event.end_array ∷ rest)) (in_array ∷ outer)
          ≡ nest_all rest outer
    nest_all-elements last outer rest h = refl
    nest_all-elements (element v vs) outer rest h =
        nest_all-events v (in_array ∷ outer) (in_array ∷ outer) _ refl (omega (arith, h))
        ∙ nest_all-elements vs outer rest (omega (arith, h))

    nest_all-members :
        (ms : Members R) (outer : List Frame) (rest : List (Event R))
        → depth_members ms + length (types (before_key ∷ outer)) ≤ limit
        → nest_all (events_members ms (Event.end_object ∷ rest)) (before_key ∷ outer)
          ≡ nest_all rest outer
    nest_all-members done outer rest h = refl
    nest_all-members (member k v ms) outer rest h =
        nest_all-events v (before_value ∷ outer) (before_key ∷ outer) _ refl (omega (arith, h))
        ∙ nest_all-members ms outer rest (omega (arith, h))

module _ {R C : Type 0} where
  -- Events sent in turn, up to the first whose callback returns false.
  abbrev pub deliver_all : List (Event R) → Generator R C → Option (Bool × Generator R C)
  deliver_all [] g = some (true, g)
  deliver_all (e ∷ es) g = elim (deliver e g) [
    | none ↦ none
    | some (true, g') ↦ deliver_all es g'
    | some (false, g') ↦ some (false, g')
  ]

  -- No assertion has failed, and unless a callback has stopped it the generator spells `fs`.
  abbrev pub Passed : Option (Bool × Generator R C) → List Frame → ℕ → Type 0
  Passed none fs limit = ⊥
  Passed (some (true, g)) fs limit = Nested g fs × (g.stack.size ≡ limit)
  Passed (some (false, g)) fs limit = Unit

  call-Passed :
      (f : Option (C → Bool × C)) (g : Generator R C) (fs : List Frame)
      → Nested g fs
      → Passed (some (call f g)) fs g.stack.size
  unfolding call
  call-Passed none g fs n = (n, refl)
  call-Passed (some f) g fs n = elim (Bool-cases (f g.ctx).0) [
    | inl e ↦ rw e (
      record {
        refines = n.refines;
        key_next = n.key_next;
        settled = n.settled;
        checks = n.checks;
        small = n.small;
      },
      refl,
    )
    | inr e ↦ rw e tt
  ]

  deliver-Passed :
      (e : Event R) (g : Generator R C) (fs fs' : List Frame)
      → Nested g fs
      → nest g.stack.size e fs ≡ some fs'
      → Passed (deliver e g) fs' g.stack.size
  unfolding deliver
  deliver-Passed e g fs fs' n h =
      let c = subst (λ o. Agrees (check e g) o g.stack.size) h (check-Agrees g fs e n) in
      rw (c.0) (
        subst (Passed (some (call (callback e (check e g).state.callbacks) (check e g).state)) fs')
          c.2 (call-Passed (callback e (check e g).state.callbacks) (check e g).state fs' c.1))

  deliver_all-cons :
      (e : Event R) (es : List (Event R)) (g : Generator R C) (fs fs' : List Frame) (limit : ℕ)
      → (o : Option (Bool × Generator R C)) → deliver e g ≡ o
      → Passed o fs limit
      → ((g' : Generator R C)
          → Nested g' fs
          → g'.stack.size ≡ limit
          → Passed (deliver_all es g') fs' limit)
      → Passed (deliver_all (e ∷ es) g) fs' limit
  deliver_all-cons e es g fs fs' limit none eq p k = absurd p
  deliver_all-cons e es g fs fs' limit (some (true, g')) eq p k =
      rw (eq, deliver_all) (k g' p.0 p.1)
  deliver_all-cons e es g fs fs' limit (some (false, g')) eq p k = rw (eq, deliver_all) tt

  deliver_all-Passed :
      (es : List (Event R)) (g : Generator R C) (fs fs' : List Frame) (limit : ℕ)
      → Nested g fs
      → g.stack.size ≡ limit
      → nest_all limit es fs ≡ some fs'
      → Passed (deliver_all es g) fs' limit
  deliver_all-Passed [] g fs fs' limit n size h = (subst (Nested g) (some-injective _ _ h) n, size)
  deliver_all-Passed (e ∷ es) g fs fs' limit n size h = elim (Option-cases (nest limit e fs)) [
    | inl stuck ↦
        let nothing : nest_all limit (e ∷ es) fs ≡ none = rw (stuck, nest_all) refl in
        absurd (none-ne-some _ (sym nothing ∙ h))
    | inr (next, moved) ↦
        let passed : Passed (deliver e g) next limit =
          subst (Passed (deliver e g) next) size (
            deliver-Passed e g fs next n (subst (λ k. nest k e fs ≡ some next) (sym size) moved)) in
        deliver_all-cons e es g next fs' limit (deliver e g) refl passed (λ g' n' size'.
          deliver_all-Passed es g' next fs' limit n' size'
            (sym (nest_all-cons limit e es fs next moved) ∙ h))
  ]

  -- A generator with its checks on and a stack of at most 2048 entries, in which a value may stand
  -- next, takes the events of any JSON value that nests no deeper than its stack: no assertion
  -- fails, and unless a callback stops it, it ends where one scalar would have left it.
  pub deliver_all-events :
      (v : Value R) (g : Generator R C) (fs outer : List Frame)
      → Nested g fs
      → value_in fs ≡ some outer
      → depth v + length (types outer) ≤ g.stack.size
      → Passed (deliver_all (events v []) g) outer g.stack.size
  deliver_all-events v g fs outer n e h =
      deliver_all-Passed (events v []) g fs outer g.stack.size n refl
        (nest_all-events g.stack.size v fs outer [] e h)

pub get_or-replicate : (n i : ℕ) → get_or (replicate n 0) i 0 < 256
get_or-replicate zero i = omega arith
get_or-replicate (suc n) zero = omega arith
get_or-replicate (suc n) (suc i) = get_or-replicate n i

-- A new generator whose stack has a multiple of 8 entries, at most 2048, has no open container.
pub generator_new-Nested :
    {R C : Type 0} (size : ℕ) (allow : Bool) (callbacks : Callbacks R C) (ctx : C)
    → 0 < size
    → size ≤ 2048
    → size % 8 ≡ 0
    → Nested (generator_new size allow callbacks ctx) []
unfolding generator_new
generator_new-Nested size allow callbacks ctx h small whole = record {
  refines = record {
    depth = refl;
    fits = omega arith;
    allocated = rw (length-replicate (size / 8) zero) (omega (arith, whole));
    are_bytes = get_or-replicate (size / 8);
    are_types = tt;
    spelled = tt;
  };
  key_next = refl;
  settled = tt;
  checks = h;
  small = small;
}
