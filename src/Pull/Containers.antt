-- ===== src/Pull/Containers.antt =====
-- src/parsenext.c: calls of parse_next at the brackets and the commas of containers.
use jsnpg.Base.{ℕ, suc, ◌+◌, ◌≤◌, List, ◌∷◌, ◌++◌, ◌≡◌, refl, ◌∙◌, ap, arith, length}
use jsnpg.Base.Memory.{Holds, Holds-left, Holds-right}
use jsnpg.Types.{type_end_array, type_end_object}
use jsnpg.Floats.{FloatLib}
use jsnpg.Input.{Mis, mis_peek}
use jsnpg.Json.Grammar.{Blank}
use jsnpg.Json.Grammar.First.{Opening}
use jsnpg.Parser.Escape.Reads.{forward}
use jsnpg.Sax.{Options, State}
use jsnpg.Parser.Moved.{past}
use jsnpg.Stack.{stack_object, stack_array}
use jsnpg.Pull.{
  ParseState, state_object, state_array, state_key, state_key_value, state_array_value, Progress,
  accept_end, expect_value, expect_key, in_object, in_array, after_member, after_element, dispatch,
  parse_next,
}
use jsnpg.Pull.Steps.{
  at, parse_next-Blank, in_array-value, in_object-key, after_element-comma, after_member-comma,
}

module _ (lib : FloatLib) (opts : Options) where
  pub array_end :
      (q : State (Progress (lib.Real)))
      → dispatch lib opts state_array b']' q ≡ accept_end stack_array type_end_array q
  unfolding dispatch in_array
  array_end q = refl

  pub object_end :
      (q : State (Progress (lib.Real)))
      → dispatch lib opts state_object b'}' q ≡ accept_end stack_object type_end_object q
  unfolding dispatch in_object
  object_end q = refl

  pub element_end :
      (s : ParseState) (q : State (Progress (lib.Real)))
      → s ≡ state_array_value
      → dispatch lib opts s b']' q ≡ accept_end stack_array type_end_array q
  unfolding dispatch after_element
  element_end s q e = ap (λ state. dispatch lib opts state b']' q) e

  pub member_end :
      (s : ParseState) (q : State (Progress (lib.Real)))
      → s ≡ state_key_value
      → dispatch lib opts s b'}' q ≡ accept_end stack_object type_end_object q
  unfolding dispatch after_member
  member_end s q e = ap (λ state. dispatch lib opts state b'}' q) e

  module _ (p : State (Progress (lib.Real))) (a ws : List ℕ) (blank : Blank a)
      (h : Holds p.mis.bytes p.mis.read (a ++ ws))
      (opening : Opening (p.mis.bytes (p.mis.read + length a)))
      (room : p.mis.read + length a ≤ p.mis.count) where
    abbrev there : Mis
    there = forward p.mis (length a)

    -- the first element, or the value of a member
    pub first_element :
        p.gen.state ≡ state_array
        → parse_next lib opts p ≡ expect_value lib opts (mis_peek there) (at lib opts p there)
    unfolding dispatch
    first_element e =
        parse_next-Blank lib opts p a (mis_peek there) blank
          (Holds-left p.mis.bytes p.mis.read a ws h) refl (opening.0) room
        ∙ ap (λ s. dispatch lib opts s (mis_peek there) (at lib opts p there)) e
        ∙ in_array-value lib opts (mis_peek there) _ (ground (arith, opening))

    pub member_value :
        p.gen.state ≡ state_key
        → parse_next lib opts p ≡ expect_value lib opts (mis_peek there) (at lib opts p there)
    unfolding dispatch
    member_value e =
        parse_next-Blank lib opts p a (mis_peek there) blank
          (Holds-left p.mis.bytes p.mis.read a ws h) refl (opening.0) room
        ∙ ap (λ s. dispatch lib opts s (mis_peek there) (at lib opts p there)) e

    pub first_member :
        p.gen.state ≡ state_object
        → parse_next lib opts p ≡ expect_key lib opts (mis_peek there) (at lib opts p there)
    unfolding dispatch
    first_member e =
        parse_next-Blank lib opts p a (mis_peek there) blank
          (Holds-left p.mis.bytes p.mis.read a ws h) refl (opening.0) room
        ∙ ap (λ s. dispatch lib opts s (mis_peek there) (at lib opts p there)) e
        ∙ in_object-key lib opts (mis_peek there) _ (ground (arith, opening))

  -- A comma with the blanks around it, behind an element or a member.
  module _ (p : State (Progress (lib.Real))) (b a ws : List ℕ) (blank : Blank b) (blank' : Blank a)
      (h : Holds p.mis.bytes p.mis.read (b ++ b',' ∷ (a ++ ws)))
      (opening : Opening (mis_peek (past p.mis b a)))
      (room : p.mis.read + (length b + 1 + length a) ≤ p.mis.count) where
    abbrev comma : State (Progress (lib.Real))
    comma = at lib opts p (forward p.mis (length b))

    at_comma : parse_next lib opts p ≡ dispatch lib opts p.gen.state b',' comma
    at_comma =
        parse_next-Blank lib opts p b b',' blank (Holds-left p.mis.bytes p.mis.read b _ h)
          (Holds-right p.mis.bytes p.mis.read b _ h).0 (refl, λ q. omega (arith, q)) (omega arith)

    ahead : Holds p.mis.bytes (suc (p.mis.read + length b)) a
    ahead =
        Holds-left p.mis.bytes (suc (p.mis.read + length b)) a ws
          (Holds-right p.mis.bytes p.mis.read b _ h).1

    pub next_element :
        p.gen.state ≡ state_array_value
        → parse_next lib opts p
          ≡ expect_value lib opts (mis_peek (past p.mis b a)) (at lib opts p (past p.mis b a))
    unfolding dispatch
    next_element e =
        at_comma
        ∙ ap (λ s. dispatch lib opts s b',' comma) e
        ∙ after_element-comma lib opts comma a _ blank' ahead refl (opening.0) (omega arith)
            (ground (arith, opening))

    pub next_member :
        p.gen.state ≡ state_key_value
        → parse_next lib opts p
          ≡ expect_key lib opts (mis_peek (past p.mis b a)) (at lib opts p (past p.mis b a))
    unfolding dispatch
    next_member e =
        at_comma
        ∙ ap (λ s. dispatch lib opts s b',' comma) e
        ∙ after_member-comma lib opts comma a _ blank' ahead refl (opening.0) (omega arith)
            (ground (arith, opening))
