-- ===== src/Api/Generators.antt =====
-- src/generate.c, src/output.c and src/dom.c: a generator made from its options, and what the JSON
-- generator makes of the events of a value.
use jsnpg.Base.{
  ℕ, ◌%◌, ◌≤◌, ◌<◌, List, [], Bool, true, not, Option, none, some, ◌≡◌, refl, sym, subst, leb,
  if◌then◌else◌, arith,
}
use jsnpg.Base.Did.{Did}
use jsnpg.Types.{Event}
use jsnpg.Floats.{FloatLib}
use jsnpg.Stack.{get_stack_size}
use jsnpg.Json.{Value, depth, events}
use jsnpg.Dom.{Dom, dom_new, dom_event}
use jsnpg.Generate.{Callbacks, Generator, generator_new, callback}
use jsnpg.Generate.Documents.{deliver_all, generator_new-Nested, nest_all-events}
use jsnpg.Generate.Lifts.{deliver_all-Stage}
use jsnpg.Output.Buffer.Grows.{Contains}
use jsnpg.Output.Stream.{Jos, jos_new}
use jsnpg.Output.Printer.{print_event}
use jsnpg.Sax.Whole.{Document}
use jsnpg.RoundTrip.Written.{Printable}
use jsnpg.RoundTrip.Documents.{print_event-Document}

-- jsnpg_generator_opts
pub record GeneratorOpts (R C : Type 0) : Type 0 where
  pub max_nesting : ℕ
  pub indent : ℕ
  pub allow_invalid_utf8_out : Bool
  pub dom : Bool
  pub callbacks : Option (Callbacks R C × C)

-- A generator by the kind of its context.
pub data NewGenerator (R C : Type 0) : Type 0 where
  of_callbacks : Generator R C → NewGenerator R C
  of_dom : Generator R (Dom R) → NewGenerator R C
  of_json : Generator R Jos → NewGenerator R C

-- what a callback returns, and its context
abbrev pub flagged : {S : Type 0} → Did S → Bool × S
flagged d = (d.success, d.state)

-- Callbacks that do the same with each event: the tables of src/dom.c and src/output.c name one
-- function for each of the ten.
unfoldable pub callbacks_of : {R S : Type 0} → (Event R → S → Did S) → Callbacks R S
callbacks_of f = record {
  boolean = some (λ b s. flagged (f (Event.boolean b) s));
  null = some (λ s. flagged (f Event.null s));
  integer = some (λ i s. flagged (f (Event.integer i) s));
  real = some (λ r s. flagged (f (Event.real r) s));
  string = some (λ bs s. flagged (f (Event.string bs) s));
  key = some (λ bs s. flagged (f (Event.key bs) s));
  start_array = some (λ s. flagged (f Event.start_array s));
  end_array = some (λ s. flagged (f Event.end_array s));
  start_object = some (λ s. flagged (f Event.start_object s));
  end_object = some (λ s. flagged (f Event.end_object s));
}

module _ (grants : ℕ → Bool) {R C : Type 0} where
  unfoldable pub dom_generator : ℕ → Bool → Option (NewGenerator R C)
  dom_generator stack_size allow = elim (dom_new grants 0) [
    | none ↦ none
    | some root ↦
        some (of_dom (generator_new stack_size allow (callbacks_of (dom_event grants)) root))
  ]

module _ (grants : ℕ → Bool) (lib : FloatLib) (real_len : ℕ) where
  abbrev pub print_callbacks : Callbacks (lib.Real) Jos
  print_callbacks = callbacks_of (print_event grants lib real_len)

  unfoldable pub json_generator : ℕ → Bool → ℕ → Generator (lib.Real) Jos
  json_generator stack_size allow indent =
      generator_new stack_size allow print_callbacks (jos_new indent (not allow))

  -- jsnpg_generator_new_opt, where memory is granted for the generator and for its output stream
  unfoldable pub jsnpg_generator_new_opt :
      {C : Type 0} → GeneratorOpts (lib.Real) C → Option (NewGenerator (lib.Real) C)
  jsnpg_generator_new_opt o =
      let indent = if leb o.indent 8 then o.indent else 8 in
      let stack_size = get_stack_size o.max_nesting in
      elim (o.callbacks) [
        | none ↦
            if o.dom
            then dom_generator grants stack_size o.allow_invalid_utf8_out
            else some (of_json (json_generator stack_size o.allow_invalid_utf8_out indent))
        | some (functions, ctx) ↦
            if o.dom
            then none
            else some
                (of_callbacks (generator_new stack_size o.allow_invalid_utf8_out functions ctx))
      ]

-- The callbacks are all given.
callbacks_of-callback :
    {R S : Type 0} (f : Event R → S → Did S) (e : Event R)
    → callback e (callbacks_of f) ≡ some (λ s. flagged (f e s))
unfolding callback callbacks_of
callbacks_of-callback f Event.null = refl
callbacks_of-callback f (Event.boolean b) = refl
callbacks_of-callback f (Event.integer i) = refl
callbacks_of-callback f (Event.real r) = refl
callbacks_of-callback f (Event.string bs) = refl
callbacks_of-callback f (Event.key bs) = refl
callbacks_of-callback f Event.start_array = refl
callbacks_of-callback f Event.end_array = refl
callbacks_of-callback f Event.start_object = refl
callbacks_of-callback f Event.end_object = refl

-- Where memory is granted, a JSON generator whose stack has a multiple of 8 entries, at most 2048,
-- takes the events of any value without real numbers that nests no deeper than the stack, whose
-- strings and keys are UTF-8 where that is checked and whose integers i64toa writes in decimal as JSON
-- has them: no assertion fails, no callback stops it, and its buffer then holds the text of a document
-- of that value.
pub json_generator-Document :
    (grants : ℕ → Bool) (lib : FloatLib) (real_len size indent : ℕ) (allow : Bool)
    (x : Value (lib.Real))
    → ((n : ℕ) → grants n ≡ true)
    → 0 < size
    → size ≤ 2048
    → size % 8 ≡ 0
    → depth x ≤ size
    → Printable lib (not allow) x
    → (g : Generator (lib.Real) Jos) × (deliver_all
          (events x [])
          (json_generator grants lib real_len size allow indent)
        ≡ some (true, g))
      × ((text : List ℕ) × Document (not allow) x text × Contains g.ctx.mos text)
unfolding json_generator generator_new
json_generator-Document grants lib real_len size indent allow x granted pos small whole deep p =
    let (jos, sends, written) =
      print_event-Document grants granted lib real_len (not allow) indent x p in
    let callbacks = print_callbacks grants lib real_len in
    let new = generator_new size allow callbacks (jos_new indent (not allow)) in
    let (g, all, s) =
      deliver_all-Stage callbacks (λ e j. flagged (print_event grants lib real_len e j)) size
        (events x []) (jos_new indent (not allow)) jos [] [] new
        (callbacks_of-callback (print_event grants lib real_len)) sends
        (nest_all-events size x [] [] [] refl (omega (arith, deep)))
        (record {
          callbacks = refl;
          ctx = refl;
          nested =
              generator_new-Nested size allow callbacks (jos_new indent (not allow)) pos small
                whole;
          size = refl;
        }) in
    (
      g,
      all,
      subst (λ j. (text : List ℕ) × Document (not allow) x text × Contains j.mos text) (sym s.ctx)
          written,
    )
