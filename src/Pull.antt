-- ===== src/Pull.antt =====
-- src/parsenext.c: the pull parser, which returns one item at a call and keeps in `state` where it
-- is up to.
pub mod Yields
pub mod Steps
pub mod Calls
pub mod Containers
pub mod Openings
pub mod Values
pub mod Whole
pub mod Bounds
use jsnpg.Base.{ℕ, List, ◌||◌, Option, none, some, ◌==◌, between, if◌then◌else◌}
use jsnpg.Types.{
  error_unexpected, error_expected_key, error_eof, JsonType, type_null, type_false, type_true,
  type_integer, type_real, type_string, type_key, type_start_array, type_end_array,
  type_start_object, type_end_object, type_error, type_eof, Payload, ParseResult,
}
use jsnpg.Errors.{make_error_return}
use jsnpg.Floats.{FloatLib}
use jsnpg.Stack.{Stack, stack_object, stack_array, stack_peek}
use jsnpg.Input.{Mis, mis_eof, mis_tell}
use jsnpg.Parser.White.{consume_whitespace}
use jsnpg.Parser.Literal.{parse_true, parse_false, parse_null}
use jsnpg.Parser.Strings.{parse_string}
use jsnpg.Parser.Number.{Number, parse_number}
use jsnpg.Dom.{Block, dom_size, DomInfo, dom_parse_next}
use jsnpg.Sax.{
  Options, State, Run, ok, thrown, aborted, no_fuel, ◌>>=◌, ◌>>◌, pure, throw, on_input, take_byte,
  parse_start, parse_end,
}

-- parse_state
pub data ParseState : Type 0 where
  state_start state_object state_key state_key_value state_object_comma : ParseState
  state_array state_array_value state_array_comma state_done state_eof : ParseState

-- what a pull parser keeps beside its input and its stack
pub record Progress (R : Type 0) : Type 0 where
  pub state : ParseState
  pub result : ParseResult R

-- `none` is the failed assertion "Invalid state"
unfoldable pub state_change_value : ParseState → Option ParseState
state_change_value state_start = some state_done
state_change_value state_key = some state_key_value
state_change_value state_array = some state_array_value
state_change_value state_array_value = some state_array_value
state_change_value _ = none

unfoldable pub state_change_end : Stack → ParseState
state_change_end s = elim (stack_peek s) [
  | none ↦ state_done
  | some type ↦
      if type == stack_object
      then state_key_value
      else if type == stack_array
      then state_array_value
      else state_done
]

abbrev pub parse_position : Mis → ℕ
parse_position mis = if mis.start then mis_tell mis else 0

module _ {R : Type 0} where
  unfoldable pub make_parse_result : Mis → JsonType → Payload R → ParseResult R
  make_parse_result mis type payload = record {
    type = type;
    position = parse_position mis;
    payload = payload;
  }

  -- p->state = state; p->result = make_parse_result(p, type, ..); return p->result.type
  unfoldable pub accept_in :
      ParseState → JsonType → Payload R → State (Progress R) → Run (Progress R) JsonType
  accept_in state type payload p =
      ok type
        (record p { gen = record { state = state; result = make_parse_result p.mis type payload } })

  -- accept_boolean, accept_null, accept_integer, accept_real, accept_string
  unfoldable pub accept_value :
      JsonType → Payload R → State (Progress R) → Run (Progress R) JsonType
  accept_value type payload p = elim (state_change_value p.gen.state) [
    | none ↦ aborted
    | some state ↦ accept_in state type payload p
  ]

  -- accept_end_object and accept_end_array, behind parse_end_object and parse_end_array
  unfoldable pub accept_end : ℕ → JsonType → State (Progress R) → Run (Progress R) JsonType
  accept_end container type = parse_end container >>= λ (outer : ℕ) (p : State (Progress R)).
      accept_in (state_change_end p.stack) type Payload.no_payload p

  unfoldable pub accept_start :
      ℕ → ParseState → JsonType → State (Progress R) → Run (Progress R) JsonType
  accept_start container state type =
      parse_start container >>= λ (t : ℕ). accept_in state type Payload.no_payload

module _ (lib : FloatLib) (opts : Options) where
  abbrev Parser : Type 0
  Parser = State (Progress (lib.Real))

  abbrev Pulled : Type 0
  Pulled = Run (Progress (lib.Real)) JsonType

  abbrev white : Parser → Run (Progress (lib.Real)) ℕ
  white = on_input (consume_whitespace opts.comments)

  -- the switch behind the states: a value, `{` or `[` is expected
  unfoldable pub expect_value : ℕ → State (Progress (lib.Real)) → Run (Progress (lib.Real)) JsonType
  expect_value b p =
      let string_value =
        (on_input (parse_string opts.validate_utf8) >>= λ (count : ℕ) (q : Parser).
        accept_value type_string (Payload.text q.mis.string count) q) in
      let true_value = (on_input parse_true >> accept_value type_true Payload.no_payload) in
      let false_value = (on_input parse_false >> accept_value type_false Payload.no_payload) in
      let null_value = (on_input parse_null >> accept_value type_null Payload.no_payload) in
      let number_value =
        (on_input (parse_number lib) >>= λ (n : Number (lib.Real)). elim n [
          | Number.integer i ↦ accept_value type_integer (Payload.integer i)
          | Number.real d ↦ accept_value type_real (Payload.real d)
        ]) in
      if b == b'"'
      then string_value p
      else if b == b'{'
      then accept_start stack_object state_object type_start_object p
      else if b == b'['
      then accept_start stack_array state_array type_start_array p
      else if b == b't'
      then true_value p
      else if b == b'f'
      then false_value p
      else if b == b'n'
      then null_value p
      else if b == b'-' || between b'0' b'9' b
      then number_value p
      else throw error_unexpected p

  -- case STATE_OBJECT_COMMA
  unfoldable pub expect_key : ℕ → State (Progress (lib.Real)) → Run (Progress (lib.Real)) JsonType
  expect_key b p =
      let key =
        (on_input (parse_string opts.validate_utf8) >>= λ (count : ℕ).
        white >>= λ (c : ℕ) (q : Parser).
        let accepted =
          (take_byte >> (λ (r : Parser).
            accept_in state_key type_key (Payload.text r.mis.string count) r)) in
        if c == b':' then accepted q else throw error_expected_key q) in
      if b == b'"' then key p else throw error_expected_key p

  -- case STATE_OBJECT
  unfoldable pub in_object : ℕ → State (Progress (lib.Real)) → Run (Progress (lib.Real)) JsonType
  in_object b p = if b == b'}' then accept_end stack_object type_end_object p else expect_key b p

  -- case STATE_KEY_VALUE
  unfoldable pub after_member : ℕ → State (Progress (lib.Real)) → Run (Progress (lib.Real)) JsonType
  after_member b p =
      let skip = (take_byte >> white) in
      let next =
        ((if b == b',' then skip else pure b) >>= λ (c : ℕ).
        if opts.trailing_commas then in_object c else expect_key c) in
      if b == b'}' then accept_end stack_object type_end_object p else next p

  -- case STATE_ARRAY
  unfoldable pub in_array : ℕ → State (Progress (lib.Real)) → Run (Progress (lib.Real)) JsonType
  in_array b p = if b == b']' then accept_end stack_array type_end_array p else expect_value b p

  -- case STATE_ARRAY_VALUE
  unfoldable pub after_element :
      ℕ → State (Progress (lib.Real)) → Run (Progress (lib.Real)) JsonType
  after_element b p =
      let next =
        (take_byte
          >> (white >>= λ (c : ℕ). if opts.trailing_commas then in_array c else expect_value c)) in
      if b == b']'
      then accept_end stack_array type_end_array p
      else if b == b','
      then next p
      else throw error_unexpected p

  -- case STATE_DONE
  unfoldable pub after_text : ℕ → State (Progress (lib.Real)) → Run (Progress (lib.Real)) JsonType
  after_text b = white >> λ (p : Parser).
      let ended = accept_in state_eof type_eof Payload.no_payload p in
      if mis_eof p.mis
      then ended
      else if opts.multiple_values
      then expect_value b p
      else if opts.trailing_chars
      then ended
      else throw error_unexpected p

  unfoldable pub dispatch :
      ParseState → ℕ → State (Progress (lib.Real)) → Run (Progress (lib.Real)) JsonType
  dispatch state_eof b = throw error_eof
  dispatch state_key_value b = after_member b
  dispatch state_object b = in_object b
  dispatch state_object_comma b = expect_key b
  dispatch state_array_value b = after_element b
  dispatch state_array b = in_array b
  dispatch state_done b = after_text b
  dispatch state_start b = expect_value b
  dispatch state_key b = expect_value b
  dispatch state_array_comma b = expect_value b

  unfoldable pub parse_next : State (Progress (lib.Real)) → Run (Progress (lib.Real)) JsonType
  parse_next p = (white >>= dispatch p.gen.state) p

  -- A throw is caught here, and is the result.
  unfoldable pub parser_parse_next :
      State (Progress (lib.Real)) → Run (Progress (lib.Real)) JsonType
  parser_parse_next p = elim (parse_next p) [
    | ok type q ↦ ok type q
    | thrown code at q ↦
        ok type_error (record q { gen = record (q.gen) { result = make_error_return code at } })
    | aborted ↦ aborted
    | no_fuel ↦ no_fuel
  ]

-- struct dom_info: the chain from the block that the parser is up to on, and the offset in that block
pub record DomPosition (R : Type 0) : Type 0 where
  pub hdrs : List (Block R)
  pub offset : ℕ

abbrev pub dom_parser_info : {R : Type 0} → List (Block R) → DomPosition R
dom_parser_info root = record { hdrs = root; offset = dom_size }

-- A pull parser over a text or over a DOM: the same object in the source, whose stream has no start
-- where it is over a DOM.
pub record PullParser (R : Type 0) : Type 0 where
  pub text : State (Progress R)
  pub dom : DomPosition R

unfoldable pub jsnpg_parse_result : {R : Type 0} → PullParser R → ParseResult R
jsnpg_parse_result p = p.text.gen.result

-- what a call on a text leaves; `none` where an assertion has failed
abbrev pub to_caller :
    {R : Type 0} → DomPosition R → Run (Progress R) JsonType → Option (JsonType × PullParser R)
to_caller dom (ok type p) = some (type, record { text = p; dom = dom })
to_caller dom _ = none

-- dom_parse_next, on the fields of a parser that it reads and writes
abbrev pub dom_view : {R : Type 0} → PullParser R → DomInfo R
dom_view p = record {
  hdrs = p.dom.hdrs;
  offset = p.dom.offset;
  type = p.text.gen.result.type;
  payload = p.text.gen.result.payload;
}

abbrev pub dom_update : {R : Type 0} → PullParser R → DomInfo R → PullParser R
dom_update p d = record {
  text = record (p.text) {
    gen = record (p.text.gen) {
      result = record (p.text.gen.result) { type = d.type; payload = d.payload };
    };
  };
  dom = record { hdrs = d.hdrs; offset = d.offset };
}

module _ (lib : FloatLib) (opts : Options) where
  unfoldable pub jsnpg_parse_next :
      PullParser (lib.Real) → Option (JsonType × PullParser (lib.Real))
  jsnpg_parse_next p =
      let of_dom : Option (JsonType × PullParser (lib.Real)) = elim (dom_parse_next (dom_view p)) [
        | none ↦ none
        | some d ↦ some (d.type, dom_update p d)
      ] in
      if p.text.mis.start then to_caller p.dom (parser_parse_next lib opts p.text) else of_dom
