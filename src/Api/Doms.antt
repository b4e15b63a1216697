-- ===== src/Api/Doms.antt =====
-- src/parse.c and src/dom.c: jsnpg_parse on a DOM.
use jsnpg.Base.{ℕ, ◌<◌, List, [], ◌∷◌, Bool, true, none, some, ◌≡◌, refl, ◌∙◌, ap, length}
use jsnpg.Types.{Event, type_eof, Payload}
use jsnpg.Floats.{FloatLib}
use jsnpg.Stack.{get_stack_size}
use jsnpg.Input.{mis_new}
use jsnpg.Generate.{Generator, deliver}
use jsnpg.Generate.Documents.{deliver_all}
use jsnpg.Generate.Sends.{deliver_all-Sends}
use jsnpg.Sax.{State}
use jsnpg.Pull.{Progress, state_start}
use jsnpg.Dom.{Block, Dom, chain, dom_size, dom_new, dom_event, dom_parse, replay, replayed}
use jsnpg.Dom.Stored.{dom_new-empty}
use jsnpg.Dom.Replays.{Stores, storing, first-Filled, Stores-Filled, replay-Filled}
use jsnpg.Api.{
  ParseOpts, no_result, parser_stack, generator_of, passed_on, parse_by, parse_into,
  jsnpg_parser_new_opt, jsnpg_parse_opt,
}

-- the parser that is made of a DOM
abbrev made_of_dom : {R : Type 0} → ℕ → State (Progress R)
made_of_dom max_nesting = record {
  mis = mis_new;
  stack = parser_stack (get_stack_size max_nesting);
  gen = record { state = state_start; result = no_result };
}

module _ (lib : FloatLib) {C : Type 0} where
  -- one input that is a DOM, and one generator
  one_dom :
      (o : ParseOpts (lib.Real) C) (hdrs : List (Block (lib.Real)))
      (g final : Generator (lib.Real) C) (texts fuel : ℕ)
      → o.bytes ≡ none
      → o.dom ≡ some hdrs
      → generator_of o ≡ some g
      → replay deliver fuel hdrs dom_size g ≡ replayed final
      → jsnpg_parse_opt lib o texts fuel
        ≡ some (record { type = type_eof; position = 0; payload = Payload.no_payload }, some final)
  unfolding jsnpg_parse_opt parse_by parse_into jsnpg_parser_new_opt passed_on dom_parse
  one_dom o hdrs g final texts fuel given alone sink run =
      let made : jsnpg_parser_new_opt {R = lib.Real} o.max_nesting (passed_on o)
          ≡ made_of_dom {R = lib.Real} o.max_nesting =
        rw (given, alone) refl in
      ap (λ p. parse_by lib o p texts fuel) made
      ∙ rw (sink, alone, parse_by) (rw (run, dom_parse) refl)

  -- Events that were stored in a new DOM, the first of them in its first block, are sent again by a
  -- parse of the DOM, which ends with the generator that has taken them all, where it takes them.
  pub jsnpg_parse_opt-Stores :
      (o : ParseOpts (lib.Real) C) (grants : ℕ → Bool) (e : Event (lib.Real))
      (es : List (Event (lib.Real))) (root d : Dom (lib.Real)) (g final : Generator (lib.Real) C)
      (texts fuel : ℕ)
      → o.bytes ≡ none
      → o.dom ≡ some (chain d)
      → generator_of o ≡ some g
      → dom_new grants 0 ≡ some root
      → Stores grants d (e ∷ es) root
      → (dom_event grants e root).state.earlier ≡ []
      → deliver_all (e ∷ es) g ≡ some (true, final)
      → length (e ∷ es) < fuel
      → jsnpg_parse_opt lib o texts fuel
        ≡ some (record { type = type_eof; position = 0; payload = Payload.no_payload }, some final)
  jsnpg_parse_opt-Stores o grants e es root d g final texts fuel given alone sink new
        (storing small ok more) first takes le =
      let (no_earlier, empty) = dom_new-empty grants 0 root new in
      let filled =
        Stores-Filled grants es (dom_event grants e root).state d (e ∷ []) more
          (first-Filled grants e root no_earlier empty small ok first) in
      one_dom o (chain d) g final texts fuel given alone sink (
        replay-Filled deliver final d (e ∷ es) fuel g filled
          (deliver_all-Sends (e ∷ es) g final takes) le)
