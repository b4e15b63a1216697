-- ===== src/Api/Texts.antt =====
-- src/parse.c: jsnpg_parse on the bytes of a whole document.
use jsnpg.Base.{
  ℕ, zero, suc, ◌+◌, ◌-◌, ◌/◌, ◌≤◌, ◌<◌, List, [], ◌∷◌, ◌++◌, Bool, true, false, Option, none, some,
  ◌≡◌, refl, ◌∙◌, ap, arith, length, length-replicate, ◌==◌, if◌then◌else◌,
}
use jsnpg.Base.Memory.{Memory, Holds, Holds-agree, Holds-left, Holds-append}
use jsnpg.Types.{type_eof, error_opt, Payload}
use jsnpg.Floats.{FloatLib}
use jsnpg.Stack.{get_stack_size}
use jsnpg.Utf8.{utf8_bom_bytes}
use jsnpg.Json.Grammar.{Blank, Spells}
use jsnpg.Json.Grammar.First.{Spells-Opening}
use jsnpg.Json.{Value, depth, events}
use jsnpg.Input.{mis_new, mis_set_bytes}
use jsnpg.Generate.{Generator, Callbacks, deliver, jsnpg_result_error}
use jsnpg.Generate.Documents.{deliver_all, get_or-replicate}
use jsnpg.Sax.{Options, State, ok, parse_texts}
use jsnpg.Generate.Sends.{deliver_all-Sends}
use jsnpg.Sax.Runs.{Ready}
use jsnpg.Sax.Whole.{Document, Stands, parse_texts-Document}
use jsnpg.Dom.{Block}
use jsnpg.Pull.{Progress, state_start, make_parse_result}
use jsnpg.Errors.{make_error_return}
use jsnpg.Api.{
  ParseOpts, passed_on, generator_of, parse, parser_stack, parser_set_bytes, jsnpg_parser_new_opt,
  given, jsnpg_parse_opt, no_result, parse_by, parse_into, with_generator,
}

-- The new stack of a parser is empty.
pub parser_stack-Ready : (size : ℕ) → Ready size (parser_stack size) []
unfolding parser_stack
parser_stack-Ready size = record {
  refines = record {
    depth = refl;
    fits = omega arith;
    allocated = rw (length-replicate ((size + 7) / 8) zero) (omega arith);
    are_bytes = get_or-replicate ((size + 7) / 8);
    are_types = tt;
    spelled = tt;
  };
  size = refl;
}

-- The first byte of a document is ASCII.
first-ascii :
    {R : Type 0} (v : Bool) (x : Value R) (a w b : List ℕ) (m : Memory)
    → Blank a
    → Spells v x w
    → Holds m 0 (a ++ (w ++ b))
    → m 0 < 128
first-ascii v x [] w b m blank sp h =
    let (solid, c1, c2, c3, ascii) = Spells-Opening v x w m 0 sp (Holds-left m 0 w b h) in ascii
first-ascii v x (c ∷ a) w b m blank sp h = ground (arith, h.0, blank.0)

-- The bytes that are handed to a new parser, with no byte order mark in front.
pub parser_set_bytes-Stands :
    (m : Memory) (text : List ℕ)
    → Holds m 0 text
    → utf8_bom_bytes m (length text) ≡ 0
    → Stands (parser_set_bytes mis_new m (length text)) text
unfolding parser_set_bytes mis_set_bytes mis_new
parser_set_bytes-Stands m text h e =
    let n = length text in
    let copied : Memory = λ i. if i == n - 0 then 0 else m (0 + i) in
    let held : Holds copied 0 (text ++ 0 ∷ []) =
      Holds-append copied 0 text (0 ∷ [])
        (Holds-agree m copied 0 text
          (λ j lo hi.
            let other : (j == n - 0) ≡ false = ground (arith, hi) in
            let same : 0 + j ≡ j = omega arith in rw (other, same) refl)
          h)
        (let here : (0 + n == n - 0) ≡ true = ground arith in rw here refl, tt) in
    let size : 0 + n ≡ n - 0 = omega arith in rw e (held, size)

-- A parser's bytes, where the first is ASCII, have no byte order mark in front.
ascii-no_bom : (m : Memory) (count : ℕ) → m 0 < 128 → utf8_bom_bytes m count ≡ 0
unfolding utf8_bom_bytes
ascii-no_bom m count h = ground (arith, h)

-- The stream of a new parser stands in front of the whole document.
pub parser_set_bytes-Document :
    {R : Type 0} (v : Bool) (m : Memory) (text : List ℕ) (x : Value R)
    → Holds m 0 text
    → Document v x text
    → Stands (parser_set_bytes mis_new m (length text)) text
      × ((parser_set_bytes mis_new m (length text)).count ≡ length text)
      × ((parser_set_bytes mis_new m (length text)).start ≡ true)
unfolding parser_set_bytes mis_set_bytes
parser_set_bytes-Document v m text x h d =
    let no_bom =
      ascii-no_bom m (length text)
        (first-ascii v x d.before d.body d.after m d.before_Blank d.spells (rw (d.parts) at h)) in
    (parser_set_bytes-Stands m text h no_bom, rw no_bom (omega arith), refl)

-- the parser that is made of bytes
abbrev pub made_of_bytes : {R : Type 0} → ℕ → Memory → ℕ → State (Progress R)
made_of_bytes max_nesting m n = record {
  mis = parser_set_bytes mis_new m n;
  stack = parser_stack (get_stack_size max_nesting);
  gen = record { state = state_start; result = no_result };
}

module _ (lib : FloatLib) {C : Type 0} where
  -- a parse that the loop ends
  parse-ok :
      (opts : Options) (texts fuel : ℕ) (s s' : State (Generator (lib.Real) C))
      (final : Generator (lib.Real) C) (n : ℕ)
      → parse_texts lib deliver opts texts fuel s ≡ ok tt s'
      → s'.gen ≡ final
      → s'.mis.read ≡ n
      → s'.mis.start ≡ true
      → parse lib deliver opts jsnpg_result_error texts fuel s
        ≡ some (record { type = type_eof; position = n; payload = Payload.no_payload }, final)
  unfolding parse make_parse_result
  parse-ok opts texts fuel s s' final n run gen end start =
      rw (run, parse) (rw (start, end, gen) refl)

  -- one input that holds bytes, and one generator
  pub one_input :
      (o : ParseOpts (lib.Real) C) (m : Memory) (n : ℕ) (g : Generator (lib.Real) C)
      (texts fuel : ℕ)
      → o.bytes ≡ some (m, n)
      → o.dom ≡ none
      → generator_of o ≡ some g
      → jsnpg_parse_opt lib o texts fuel
        ≡ with_generator lib (
            parse lib deliver o.allow jsnpg_result_error texts fuel (record {
              mis = parser_set_bytes mis_new m n;
              stack = parser_stack (get_stack_size o.max_nesting);
              gen = g;
            }))
  unfolding jsnpg_parse_opt parse_by parse_into jsnpg_parser_new_opt passed_on
  one_input o m n g texts fuel given alone sink =
      let made : jsnpg_parser_new_opt {R = lib.Real} o.max_nesting (passed_on o)
          ≡ made_of_bytes {R = lib.Real} o.max_nesting m n =
        rw (given, alone) refl in
      ap (λ p. parse_by lib o p texts fuel) made ∙ rw (sink, alone, parse_by) refl

  -- The bytes of a document are read to their end, and the result says so: a generator that takes the
  -- events of the document's value has been sent these. The bytes are the only input, callbacks or a
  -- generator are given, the value nests no deeper than the parser's stack, of at most 2048 entries,
  -- and the fuel is more than the bytes and one.
  pub jsnpg_parse_opt-Document :
      (o : ParseOpts (lib.Real) C) (m : Memory) (text : List ℕ) (x : Value (lib.Real))
      (g final : Generator (lib.Real) C) (fuel more : ℕ)
      → o.bytes ≡ some (m, length text)
      → o.dom ≡ none
      → generator_of o ≡ some g
      → Holds m 0 text
      → Document o.allow.validate_utf8 x text
      → depth x ≤ get_stack_size o.max_nesting
      → get_stack_size o.max_nesting ≤ 2048
      → length text + 1 < fuel
      → deliver_all (events x []) g ≡ some (true, final)
      → jsnpg_parse_opt lib o (suc more) fuel
        ≡ some (
          record { type = type_eof; position = length text; payload = Payload.no_payload },
          some final,
        )
  unfolding parser_set_bytes mis_set_bytes
  jsnpg_parse_opt-Document o m text x g final fuel more given alone sink h d deep small le takes =
      let limit = get_stack_size o.max_nesting in
      let mis = parser_set_bytes mis_new m (length text) in
      let s : State (Generator (lib.Real) C) = record {
        mis = mis;
        stack = parser_stack limit;
        gen = g;
      } in
      let (stands, count, fresh) = parser_set_bytes-Document o.allow.validate_utf8 m text x h d in
      let (s', run, gen, end, start) =
        parse_texts-Document lib deliver o.allow limit small final x text s fuel more d stands
          (parser_stack-Ready limit) deep le (deliver_all-Sends (events x []) g final takes) in
      one_input o m (length text) g (suc more) fuel given alone sink
      ∙ ap (with_generator lib)
          (parse-ok o.allow (suc more) fuel s s' final (length text) run gen (end ∙ count) start)

-- jsnpg_parse_opt of the options, each by itself
option_error :
    (lib : FloatLib) {C : Type 0} (max_nesting : ℕ) (allow : Options) (out : Bool)
    (bytes string : Option (Memory × ℕ)) (dom : Option (List (Block (lib.Real))))
    (callbacks : Option (Callbacks (lib.Real) C × C)) (generator : Option (Generator (lib.Real) C))
    (texts fuel : ℕ)
    → ¬ ((given bytes + given dom ≡ 1) × (given callbacks + given generator ≡ 1))
    → jsnpg_parse_opt lib
        (record {
          max_nesting = max_nesting;
          allow = allow;
          allow_invalid_utf8_out = out;
          bytes = bytes;
          string = string;
          dom = dom;
          callbacks = callbacks;
          generator = generator;
        })
        texts
        fuel
      ≡ some (make_error_return error_opt 0, none)
unfolding jsnpg_parse_opt parse_by parse_into jsnpg_parser_new_opt passed_on generator_of
    make_error_return
option_error lib k allow out none s none cs g texts fuel h = refl
option_error lib k allow out (some b) s (some d) cs g texts fuel h = refl
option_error lib k allow out (some b) s none none none texts fuel h = refl
option_error lib k allow out (some b) s none (some c) (some g) texts fuel h = refl
option_error lib k allow out (some b) s none none (some g) texts fuel h = absurd (h (refl, refl))
option_error lib k allow out (some b) s none (some c) none texts fuel h = absurd (h (refl, refl))
option_error lib k allow out none s (some d) none none texts fuel h = refl
option_error lib k allow out none s (some d) (some c) (some g) texts fuel h = refl
option_error lib k allow out none s (some d) none (some g) texts fuel h = absurd (h (refl, refl))
option_error lib k allow out none s (some d) (some c) none texts fuel h = absurd (h (refl, refl))

-- Unless exactly one of the bytes and the DOM, and exactly one of the callbacks and the generator,
-- are given, jsnpg_parse_opt reports JSNPG_ERROR_OPT and no generator is used. So it does where both
-- callbacks and a generator are given, and where the option `string` is the only input.
pub jsnpg_parse_opt-Option_error :
    (lib : FloatLib) {C : Type 0} (o : ParseOpts (lib.Real) C) (texts fuel : ℕ)
    → ¬ ((given o.bytes + given o.dom ≡ 1) × (given o.callbacks + given o.generator ≡ 1))
    → jsnpg_parse_opt lib o texts fuel ≡ some (make_error_return error_opt 0, none)
jsnpg_parse_opt-Option_error lib o texts fuel h =
    option_error lib o.max_nesting o.allow o.allow_invalid_utf8_out o.bytes o.string o.dom
      o.callbacks o.generator texts fuel h
