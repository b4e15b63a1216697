-- ===== src/Tests/Documents.antt =====
-- src/parse.c on whole documents.
use jsnpg.Base.{
  ◌<◌, ℕ, ◌+◌, List, [], ◌∷◌, ◌++◌, ◌≤◌, Bool, true, false, none, some, ◌≡◌, refl, inl, inr, arith,
  length,
}
use jsnpg.Base.Memory.{at_list, at_list-Holds}
use jsnpg.Base.Int.{pos, neg_ℕ}
use jsnpg.Types.{Event, Payload, type_eof, error_opt, error_unexpected}
use jsnpg.Errors.{make_error_return}
use jsnpg.Parser.Grammar.{Denotes, nothing, plain}
use jsnpg.Parser.Number.Integers.{naught, positive, digit, stop}
use jsnpg.Json.{Value, array, object, element, last, member, done, events}
use jsnpg.Json.Grammar.{Spells, integer, string, elements, final, another, end, members}
use jsnpg.Stack.{get_stack_size, stack_array, stack_peek, stack_push}
use jsnpg.Generate.{
  Callbacks, Generator, generator_new, generator_set_callbacks, deliver, check, can_value, can_key,
  can_push, can_pop, push_type, call, callback,
}
use jsnpg.Sax.{Options}
use jsnpg.Sax.Whole.{Document}
use jsnpg.Api.{generator_of, ParseOpts, jsnpg_parse_opt}
use jsnpg.Api.Texts.{jsnpg_parse_opt-Document, jsnpg_parse_opt-Option_error}
use jsnpg.Utf8.{utf8_bom_bytes}
use jsnpg.Generate.Sends.{Sends}
use jsnpg.Generate.Documents.{deliver_all, generator_new-Nested}
use jsnpg.Generate.Invariant.{Followed, deliver_all-Followed}
use jsnpg.Output.Stream.{Jos, jos_new}
use jsnpg.Output.Buffer.Grows.{Contains}
use jsnpg.Output.Scan.Reference.{Text, byte}
use jsnpg.RoundTrip.Written.{Printable, print_callback}
use jsnpg.RoundTrip.Documents.{jsnpg_parse_opt-print_event}
use jsnpg.Dom.{
  Dom, chain, unset, dom_event, dom_add, dom_node_next, dom_size_align, dom_new, dom_hdr_new,
  dom_alloc_size,
}
use jsnpg.Dom.Replays.{storing, stored}
use jsnpg.Api.Unexpected.{jsnpg_parse_opt-Unexpected}
use jsnpg.Api.Generators.{json_generator, json_generator-Document}
use jsnpg.Api.Doms.{jsnpg_parse_opt-Stores}
use jsnpg.Tests.ParserRuns.{no_floats, bytes_of}

-- callbacks that write down what they are called with, the last first
abbrev pub recording : Callbacks Unit (List (Event Unit))
recording = record {
  boolean = some (λ b es. (true, Event.boolean b ∷ es));
  null = some (λ es. (true, Event.null ∷ es));
  integer = some (λ i es. (true, Event.integer i ∷ es));
  real = some (λ r es. (true, Event.real r ∷ es));
  string = some (λ s es. (true, Event.string s ∷ es));
  key = some (λ s es. (true, Event.key s ∷ es));
  start_array = some (λ es. (true, Event.start_array ∷ es));
  end_array = some (λ es. (true, Event.end_array ∷ es));
  start_object = some (λ es. (true, Event.start_object ∷ es));
  end_object = some (λ es. (true, Event.end_object ∷ es));
}

abbrev pub strict : Options
strict = record {
  comments = false;
  trailing_commas = false;
  trailing_chars = false;
  multiple_values = false;
  validate_utf8 = true;
}

-- [{"k": 0}, "a"] with some white space
abbrev pub text : List ℕ
text = bytes_of " [{\"k\": 0} ,\"a\"]\n"

abbrev pub sample : Value Unit
sample = array (
    element (object (member (b'k' ∷ []) (Value.integer (pos 0)) done))
      (element (Value.string (b'a' ∷ [])) last))

abbrev recorded : List (Event Unit) → Generator Unit (List (Event Unit))
recorded es = generator_new 0 false recording es

abbrev opts : ParseOpts Unit (List (Event Unit))
opts = record {
  max_nesting = 0;
  allow = strict;
  allow_invalid_utf8_out = false;
  bytes = some (at_list text, length text);
  string = none;
  dom = none;
  callbacks = some (recording, []);
  generator = none;
}

small_letter : (c : ℕ) → b'a' ≤ c → c ≤ b'z' → Denotes true (c ∷ []) (c ∷ [])
small_letter c lo hi =
    plain c (omega arith) (λ e. omega (arith, e)) (λ e. omega (arith, e)) (inr (omega arith))
      nothing

object_Spells :
    Spells true {R = Unit}
      (object (member (b'k' ∷ []) (Value.integer (pos 0)) done))
      (bytes_of "{\"k\": 0}")
object_Spells = members [] _ (b'k' ∷ []) tt (
    end (b'k' ∷ []) (b'k' ∷ []) [] (b' ' ∷ []) (b'0' ∷ []) []
      (small_letter b'k' (omega arith) (omega arith)) tt (inl refl, tt)
      (integer (b'0' ∷ []) 0 false naught (omega arith) (omega arith)) tt)

pub sample-Document : Document true sample text
sample-Document = record {
  before = b' ' ∷ [];
  body = bytes_of "[{\"k\": 0} ,\"a\"]";
  after = b'\n' ∷ [];
  before_Blank = (inl refl, tt);
  spells = elements [] _ tt (
      another _ (b' ' ∷ []) [] _ object_Spells (inl refl, tt) tt
        (final _ [] (string _ _ (small_letter b'a' (omega arith) (omega arith))) tt));
  after_Blank = (inr (inl refl), tt);
  parts = refl;
}

-- what is written down
abbrev all_events : List (Event Unit)
all_events =
    Event.end_array
    ∷ Event.string (b'a' ∷ [])
    ∷ Event.end_object
    ∷ Event.integer (pos 0)
    ∷ Event.key (b'k' ∷ [])
    ∷ Event.start_object
    ∷ Event.start_array
    ∷ []

jsnpg_parse_opt-Document_example :
    jsnpg_parse_opt no_floats opts 1 100
    ≡ some (
      record { type = type_eof; position = 17; payload = Payload.no_payload },
      some (recorded all_events),
    )
unfolding get_stack_size generator_of generator_new generator_set_callbacks deliver check can_value
    can_key can_push can_pop push_type call callback
jsnpg_parse_opt-Document_example =
    jsnpg_parse_opt-Document no_floats opts (at_list text) text sample (recorded [])
      (recorded all_events) 100 0 refl refl refl (at_list-Holds text) sample-Document (omega arith)
      (omega arith) (omega arith) refl

-- neither callbacks nor a generator
jsnpg_parse_opt-Option_error_example :
    jsnpg_parse_opt no_floats (record opts { callbacks = none }) 1 100
    ≡ some (make_error_return error_opt 0, none)
jsnpg_parse_opt-Option_error_example =
    jsnpg_parse_opt-Option_error no_floats (record opts { callbacks = none }) 1 100
      (λ h. omega (arith, h.1))

-- nothing but a bracket that closes, behind a space
abbrev closing : List ℕ
closing = bytes_of " ]"

jsnpg_parse_opt-Unexpected_example :
    jsnpg_parse_opt no_floats (record opts { bytes = some (at_list closing, 2) }) 1 100
    ≡ some (make_error_return error_unexpected 1, some (recorded []))
unfolding generator_of generator_new generator_set_callbacks utf8_bom_bytes
jsnpg_parse_opt-Unexpected_example =
    jsnpg_parse_opt-Unexpected no_floats (record opts { bytes = some (at_list closing, 2) })
      (at_list closing) closing (b' ' ∷ []) b']' (recorded []) 99 0 refl refl refl refl
      (at_list-Holds closing) (inl refl, tt) ([] ++ 0 ∷ [], refl) (refl, λ e. omega (arith, e)) refl

-- [{"k": -42}, "a"]
abbrev plain_sample : Value Unit
plain_sample = array (
    element (object (member (b'k' ∷ []) (Value.integer (neg_ℕ 42)) done))
      (element (Value.string (b'a' ∷ [])) last))

letter-Text : (c : ℕ) → c < 128 → Text true (c ∷ [])
letter-Text c h = byte c (inr h) Text.nothing

minus_42-Spells : Spells true {R = Unit} (Value.integer (neg_ℕ 42)) (b'-' ∷ b'4' ∷ b'2' ∷ [])
minus_42-Spells =
    integer (b'4' ∷ b'2' ∷ []) 42 true
      (positive (omega arith) (omega arith) (digit (omega arith) (omega arith) stop)) (omega arith)
      (omega arith)

plain_sample-Printable : Printable no_floats true plain_sample
plain_sample-Printable = (
  (letter-Text b'k' (omega arith), (minus_42-Spells, omega arith), tt),
  (letter-Text b'a' (omega arith), tt),
)

abbrev plain_events : List (Event Unit)
plain_events =
    Event.end_array
    ∷ Event.string (b'a' ∷ [])
    ∷ Event.end_object
    ∷ Event.integer (neg_ℕ 42)
    ∷ Event.key (b'k' ∷ [])
    ∷ Event.start_object
    ∷ Event.start_array
    ∷ []

abbrev pub always : ℕ → Bool
always n = true

jsnpg_parse_opt-print_event_example :
    (jos : Jos) × Sends
      (print_callback always no_floats 30)
      jos
      (events plain_sample [])
      (jos_new 2 true)
    × (jsnpg_parse_opt no_floats
          (record opts { bytes = some (jos.mos.buffer, jos.mos.count) })
          1
          (jos.mos.count + 2)
        ≡ some (
          record { type = type_eof; position = jos.mos.count; payload = Payload.no_payload },
          some (recorded plain_events),
        ))
unfolding get_stack_size generator_of generator_new generator_set_callbacks deliver check can_value
    can_key can_push can_pop push_type call callback
jsnpg_parse_opt-print_event_example =
    jsnpg_parse_opt-print_event always (λ n. refl) no_floats 30 opts 2 plain_sample (recorded [])
      (recorded plain_events) plain_sample-Printable refl refl (omega arith) (omega arith) refl

json_generator-Document_example :
    (g : Generator Unit Jos) × (deliver_all
        (events plain_sample [])
        (json_generator always no_floats 30 1024 false 2)
      ≡ some (true, g))
    × ((text : List ℕ) × Document true plain_sample text × Contains g.ctx.mos text)
json_generator-Document_example =
    json_generator-Document always no_floats 30 1024 2 false plain_sample (λ n. refl) (omega arith)
      (omega arith) refl (omega arith) plain_sample-Printable

-- a DOM with two events
abbrev pub root : Dom Unit
root = record { earlier = []; current = record { size = 8192; count = 40; nodes = λ i. unset } }

abbrev pub two_events : Dom Unit
two_events =
    (dom_event always Event.end_array (dom_event always Event.start_array root).state).state

abbrev dom_opts : ParseOpts Unit (List (Event Unit))
dom_opts = record opts { bytes = none; dom = some (chain two_events) }

jsnpg_parse_opt-Stores_example :
    jsnpg_parse_opt no_floats dom_opts 1 3
    ≡ some (
      record { type = type_eof; position = 0; payload = Payload.no_payload },
      some (recorded (Event.end_array ∷ Event.start_array ∷ [])),
    )
unfolding generator_of generator_new generator_set_callbacks deliver check can_value can_key
    can_push can_pop push_type call callback dom_event dom_add dom_node_next dom_size_align dom_new
    dom_hdr_new dom_alloc_size
jsnpg_parse_opt-Stores_example =
    jsnpg_parse_opt-Stores no_floats dom_opts always Event.start_array (Event.end_array ∷ []) root
      two_events (recorded []) (recorded (Event.end_array ∷ Event.start_array ∷ [])) 1 3 refl refl
      refl refl (storing (omega arith) refl (storing (omega arith) refl (stored refl))) refl refl
      (omega arith)

-- a generator with eight places on its stack, and an array open
abbrev eight : Generator Unit (List (Event Unit))
eight = generator_new 8 false recording []

abbrev in_an_array : Generator Unit (List (Event Unit))
in_an_array = record eight {
  stack = (stack_push eight.stack stack_array).1;
  ctx = Event.start_array ∷ [];
}

deliver_all-Followed_example : Followed 8 [] (Event.start_array ∷ []) true in_an_array
unfolding deliver check can_value can_push push_type call callback generator_new stack_push
    stack_peek
deliver_all-Followed_example =
    deliver_all-Followed (Event.start_array ∷ []) eight in_an_array true []
      (generator_new-Nested 8 false recording [] (omega arith) (omega arith) refl) refl
