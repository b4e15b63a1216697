-- ===== src/Api.antt =====
-- src/parser.c and src/parse.c: a parser made from its options, and jsnpg_parse_opt.
pub mod Texts
pub mod Doms
pub mod Generators
pub mod Pulls
pub mod Returns
pub mod Sessions
pub mod Unexpected
use jsnpg.Base.{
  ℕ, List, [], false, true, ◌&&◌, ◌+◌, ◌-◌, ◌/◌, Bool, Option, none, some, ◌==◌, if◌then◌else◌,
  replicate,
}
use jsnpg.Base.Memory.{Memory}
use jsnpg.Types.{ErrorCode, error_opt, type_none, type_error, type_eof, Payload, ParseResult, Event}
use jsnpg.Errors.{make_error_return, make_pg_error_return}
use jsnpg.Floats.{FloatLib}
use jsnpg.Stack.{Stack, get_stack_size}
use jsnpg.Utf8.{utf8_bom_bytes}
use jsnpg.Input.{Mis, mis_new, mis_set_bytes}
use jsnpg.Sax.{Options, State, ok, thrown, aborted, no_fuel, parse_texts}
use jsnpg.Generate.{
  Callbacks, Generator, deliver, generator_new, generator_reset, generator_set_callbacks,
  jsnpg_result_error,
}
use jsnpg.Dom.{Block, dom_parse}
use jsnpg.Pull.{PullParser, dom_parser_info, Progress, make_parse_result, state_start}

-- parser_set_bytes: the bytes behind a byte order mark are copied, with a zero behind them.
unfoldable pub parser_set_bytes : Mis → Memory → ℕ → Mis
parser_set_bytes mis bytes count =
    let skip = utf8_bom_bytes bytes count in
    let n = count - skip in mis_set_bytes mis (λ i. if i == n then 0 else bytes (skip + i)) n

-- parser_new: `(stack_size + 7) / 8` bytes behind the parser hold the stack
unfoldable pub parser_stack : ℕ → Stack
parser_stack stack_size = record {
  ptr = 0;
  size = stack_size;
  stack = replicate ((stack_size + 7) / 8) 0;
}

abbrev pub no_result : {R : Type 0} → ParseResult R
no_result = record { type = type_none; position = 0; payload = Payload.no_payload }

-- the inputs that jsnpg_parser_opts can name: bytes and their count, a C string, or a DOM
pub record Inputs : Type 0 where
  pub bytes : Option (Memory × ℕ)
  pub string : Option (Memory × ℕ)
  pub dom : Bool

abbrev pub given {ℓ} : {A : Type ℓ} → Option A → ℕ
given none = 0
given (some a) = 1

-- the sum of the pointers that are not NULL
abbrev pub inputs_given : Inputs → ℕ
inputs_given i = given i.bytes + given i.string + (if i.dom then 1 else 0)

-- jsnpg_parser_new_opt: exactly one input must be given. The stream of a DOM parser has no start.
unfoldable pub jsnpg_parser_new_opt : {R : Type 0} → ℕ → Inputs → State (Progress R)
jsnpg_parser_new_opt max_nesting inputs =
    let from = λ (source : Option (Memory × ℕ)) (other : Mis). elim source as (λ s. Mis) [
      | none ↦ other
      | some (m, n) ↦ parser_set_bytes mis_new m n
    ] in
    let good = inputs_given inputs == 1 in
    record {
      mis = if good then from inputs.bytes (from inputs.string mis_new) else mis_new;
      stack = parser_stack (get_stack_size max_nesting);
      gen = record {
        state = state_start;
        result = if good then no_result else make_error_return error_opt 0;
      };
    }

-- the parser with the part of it that the calls of a pull parser over a DOM use; `root` is the chain
-- of the DOM
unfoldable pub pull_parser : {R : Type 0} → ℕ → Inputs → List (Block R) → PullParser R
pull_parser max_nesting inputs root = record {
  text = jsnpg_parser_new_opt max_nesting inputs;
  dom =
      if inputs_given inputs == 1 && inputs.dom
      then dom_parser_info root
      else record { hdrs = []; offset = 0 };
}

module _ (lib : FloatLib) {G : Type 0} (send : Event (lib.Real) → G → Option (Bool × G)) where
  -- parse: the result, with the generator; `error_of` reads the generator's error
  unfoldable pub parse :
      Options → (G → ErrorCode) → ℕ → ℕ → State G → Option (ParseResult (lib.Real) × G)
  parse opts error_of texts fuel s = elim (parse_texts lib send opts texts fuel s) [
    | ok done s' ↦ some (make_parse_result s'.mis type_eof Payload.no_payload, s'.gen)
    | thrown code at s' ↦
        some (make_pg_error_return (make_error_return code at) (error_of s'.gen), s'.gen)
    | aborted ↦ none
    | no_fuel ↦ none
  ]

-- jsnpg_parse_opts, less `string`, which jsnpg_parse_opt does not pass on. A DOM is its chain.
pub record ParseOpts (R C : Type 0) : Type 0 where
  pub max_nesting : ℕ
  pub allow : Options
  pub allow_invalid_utf8_out : Bool
  pub bytes : Option (Memory × ℕ)
  pub string : Option (Memory × ℕ)
  pub dom : Option (List (Block R))
  pub callbacks : Option (Callbacks R C × C)
  pub generator : Option (Generator R C)

module _ {R C : Type 0} where
  -- the inputs that jsnpg_parse_opt passes on to its parser
  unfoldable pub passed_on : ParseOpts R C → Inputs
  passed_on o = record {
    bytes = o.bytes;
    string = none;
    dom = elim (o.dom) [ none ↦ false | some hdrs ↦ true ];
  }

  -- The generator that the events go to: a new one without checks around the callbacks, or the one
  -- given; `none` where not exactly one of them is given.
  unfoldable pub generator_of : ParseOpts R C → Option (Generator R C)
  generator_of o = elim (o.callbacks) [
    | none ↦ elim (o.generator) [
      | none ↦ none
      | some g ↦ some (generator_reset g o.allow_invalid_utf8_out)
    ]
    | some (functions, ctx) ↦ elim (o.generator) [
      | none ↦ some (
          generator_set_callbacks (generator_new 0 o.allow_invalid_utf8_out functions ctx) functions
            ctx)
      | some g ↦ none
    ]
  ]

-- jsnpg_parse_opt, where memory is granted: the result, with the generator as the parse leaves it
-- where there was one. `none` is a failed assertion, memory without an event, or a lack of fuel.
module _ (lib : FloatLib) {C : Type 0} where
  -- a result that comes with a generator
  abbrev pub with_generator :
      Option (ParseResult (lib.Real) × Generator (lib.Real) C)
      → Option (ParseResult (lib.Real) × Option (Generator (lib.Real) C))
  with_generator none = none
  with_generator (some (result, g)) = some (result, some g)

  -- the part of jsnpg_parse_opt that takes a generator to its parser
  unfoldable pub parse_into :
      ParseOpts (lib.Real) C
      → State (Progress (lib.Real))
      → Option (List (Block (lib.Real)))
      → ℕ
      → ℕ
      → Option (Generator (lib.Real) C)
      → Option (ParseResult (lib.Real) × Option (Generator (lib.Real) C))
  parse_into o p dom texts fuel none = some (make_error_return error_opt 0, none)
  parse_into o p (some hdrs) texts fuel (some g) =
      with_generator (dom_parse deliver jsnpg_result_error p.gen.result fuel hdrs g)
  parse_into o p none texts fuel (some g) = with_generator (
      parse lib deliver o.allow jsnpg_result_error texts fuel
        (record { mis = p.mis; stack = p.stack; gen = g }))

  -- the part behind jsnpg_parser_new_opt
  unfoldable pub parse_by :
      ParseOpts (lib.Real) C
      → State (Progress (lib.Real))
      → ℕ
      → ℕ
      → Option (ParseResult (lib.Real) × Option (Generator (lib.Real) C))
  parse_by o p texts fuel = elim (p.gen.result.type) [
    | type_error ↦ some (p.gen.result, none)
    | _ ↦ parse_into o p o.dom texts fuel (generator_of o)
  ]

  unfoldable pub jsnpg_parse_opt :
      ParseOpts (lib.Real) C
      → ℕ
      → ℕ
      → Option (ParseResult (lib.Real) × Option (Generator (lib.Real) C))
  jsnpg_parse_opt o texts fuel =
      parse_by o (jsnpg_parser_new_opt o.max_nesting (passed_on o)) texts fuel
