-- ===== src/Generate/Machine.antt =====
-- A machine for the nesting of events, independent of src/generate.c: the open containers,
-- innermost first, each with what it expects next.
use mathlib.Core.Option.{some-injective, none-ne-some}
use jsnpg.Base.{
  ℕ, List, [], ◌∷◌, Bool, true, false, Option, none, some, ◌≡◌, refl, arith, subst, length, ltb,
  if◌then◌else◌,
}
use jsnpg.Types.{Event}
use jsnpg.Stack.{Stack, stack_pop, stack_push}
use jsnpg.Stack.Refine.{Refines, pop_result, stack_peek-Refines}
use jsnpg.Generate.{top_is}

-- An open array, an object that expects a key, or one that expects the value of its last key.
pub data Frame : Type 0 where
  in_array before_key before_value : Frame

abbrev pub frame_type : Frame → ℕ
frame_type in_array = 1
frame_type before_key = 0
frame_type before_value = 0

abbrev pub types : List Frame → List ℕ
types [] = []
types (f ∷ open_frames) = frame_type f ∷ types open_frames

abbrev pub expects_key : List Frame → Bool
expects_key (before_key ∷ outer) = true
expects_key _ = false

-- An object around an open container expects a key, since the container is the value.
abbrev pub Settled : List Frame → Type 0
Settled [] = Unit
Settled (before_value ∷ outer) = ⊥
Settled (f ∷ outer) = Settled outer

abbrev pub Nest : List Frame → Type 0
Nest [] = Unit
Nest (f ∷ outer) = Settled outer

-- The machine: a value, a key, a start and an end.
abbrev pub value_in : List Frame → Option (List Frame)
value_in (before_key ∷ outer) = none
value_in (before_value ∷ outer) = some (before_key ∷ outer)
value_in open_frames = some open_frames

abbrev pub key_in : List Frame → Option (List Frame)
key_in (before_key ∷ outer) = some (before_value ∷ outer)
key_in _ = none

abbrev pub open_in : ℕ → Frame → List Frame → Option (List Frame)
open_in limit f open_frames = elim (value_in open_frames) [
  | none ↦ none
  | some outer ↦ if ltb (length (types outer)) limit then some (f ∷ outer) else none
]

abbrev pub close_array : List Frame → Option (List Frame)
close_array (in_array ∷ outer) = some outer
close_array _ = none

abbrev pub close_object : List Frame → Option (List Frame)
close_object (before_key ∷ outer) = some outer
close_object _ = none

abbrev pub nest : {R : Type 0} → ℕ → Event R → List Frame → Option (List Frame)
nest limit (Event.key bytes) fs = key_in fs
nest limit Event.start_array fs = open_in limit in_array fs
nest limit Event.end_array fs = close_array fs
nest limit Event.start_object fs = open_in limit before_key fs
nest limit Event.end_object fs = close_object fs
nest limit _ fs = value_in fs

abbrev pub in_object : List Frame → Bool
in_object [] = false
in_object (in_array ∷ outer) = false
in_object (f ∷ outer) = true

pub top_is-object : (s : Stack) (fs : List Frame) → Refines s (types fs) → top_is s 0 ≡ in_object fs
top_is-object s [] r = rw (stack_peek-Refines s [] r, top_is) refl
top_is-object s (in_array ∷ fs) r = rw (stack_peek-Refines s _ r, top_is) refl
top_is-object s (before_key ∷ fs) r = rw (stack_peek-Refines s _ r, top_is) refl
top_is-object s (before_value ∷ fs) r = rw (stack_peek-Refines s _ r, top_is) refl

pub Settled-Nest : (fs : List Frame) → Settled fs → Nest fs
Settled-Nest [] h = tt
Settled-Nest (in_array ∷ fs) h = h
Settled-Nest (before_key ∷ fs) h = h
Settled-Nest (before_value ∷ fs) h = absurd h

pub in_object-Settled : (fs : List Frame) → Settled fs → in_object fs ≡ expects_key fs
in_object-Settled [] h = refl
in_object-Settled (in_array ∷ fs) h = refl
in_object-Settled (before_key ∷ fs) h = refl
in_object-Settled (before_value ∷ fs) h = absurd h

pub Settled-value_in : (fs outer : List Frame) → Nest fs → value_in fs ≡ some outer → Settled outer
Settled-value_in [] outer h e = subst Settled (some-injective _ _ e) tt
Settled-value_in (in_array ∷ fs) outer h e = subst Settled (some-injective _ _ e) h
Settled-value_in (before_key ∷ fs) outer h e = absurd (none-ne-some _ e)
Settled-value_in (before_value ∷ fs) outer h e = subst Settled (some-injective _ _ e) h

pub pop_result-tail : (t : ℕ) (ts : List ℕ) → (pop_result (t ∷ ts)).1 ≡ ts
pop_result-tail t [] = refl
pop_result-tail t (u ∷ ts) = refl

pub size-stack_pop : (s : Stack) → (stack_pop s).1.size ≡ s.size
unfolding stack_pop
size-stack_pop s = ground arith

pub size-stack_push : (s : Stack) (t : ℕ) → (stack_push s t).1.size ≡ s.size
unfolding stack_push
size-stack_push s t = ground arith
