-- ===== src/Pull/Steps.antt =====
-- src/parsenext.c: single calls of parse_next, where the text goes on as it may.
use jsnpg.Base.{
  ℕ, suc, ◌+◌, ◌≤◌, List, ◌∷◌, ◌++◌, Bool, true, false, ◌||◌, between, some, ◌≡◌, ◌≢◌, ◌⊎◌, refl,
  ◌∙◌, arith, length, ◌==◌, if◌then◌else◌,
}
use jsnpg.Base.Int.{ℤ}
use jsnpg.Base.Memory.{Holds, Holds-left, Holds-right}
use jsnpg.Types.{
  JsonType, type_null, type_false, type_true, type_integer, type_string, type_start_array,
  type_start_object, type_key, Payload,
}
use jsnpg.Floats.{FloatLib}
use jsnpg.Stack.{stack_object, stack_array, stack_push, stack_pop}
use jsnpg.Input.{Mis, mis_take}
use jsnpg.Outcome.{Outcome}
use jsnpg.Json.Grammar.{Blank}
use jsnpg.Parser.Escape.Reads.{forward}
use jsnpg.Parser.White.{consume_whitespace}
use jsnpg.Parser.White.Blank.{Solid, consume_whitespace-Blank}
use jsnpg.Parser.Literal.{parse_true, parse_false, parse_null}
use jsnpg.Parser.Strings.{parse_string}
use jsnpg.Parser.Number.{integer, parse_number}
use jsnpg.Sax.{Options, State, ok, on_input, parse_end, parse_start, top_type_is}
use jsnpg.Sax.Steps.{bind-ok, on_input-ok, parse_start-ok, parse_end-ok}
use jsnpg.Pull.{
  ParseState, state_key, state_object, state_array, Progress, accept_in, accept_value, accept_end,
  accept_start, state_change_value, state_change_end, expect_value, expect_key, in_object, in_array,
  after_member, after_element, dispatch, parse_next,
}

module _ (lib : FloatLib) (opts : Options) where
  -- the stream is further on
  abbrev pub at : State (Progress (lib.Real)) → Mis → State (Progress (lib.Real))
  at p m = record p { mis = m }

  pub white-Blank :
      (p : State (Progress (lib.Real))) (ws : List ℕ) (c : ℕ)
      → Blank ws
      → Holds p.mis.bytes p.mis.read ws
      → p.mis.bytes (p.mis.read + length ws) ≡ c
      → Solid c
      → p.mis.read + length ws ≤ p.mis.count
      → on_input (consume_whitespace opts.comments) p ≡ ok c (at p (forward p.mis (length ws)))
  white-Blank p ws c b h e solid room = rw (← e) (
      on_input-ok (consume_whitespace opts.comments) p _ _
        (consume_whitespace-Blank opts.comments p.mis ws b h (rw e solid) room))

  -- A call begins behind the blanks.
  pub parse_next-Blank :
      (p : State (Progress (lib.Real))) (ws : List ℕ) (c : ℕ)
      → Blank ws
      → Holds p.mis.bytes p.mis.read ws
      → p.mis.bytes (p.mis.read + length ws) ≡ c
      → Solid c
      → p.mis.read + length ws ≤ p.mis.count
      → parse_next lib opts p ≡ dispatch lib opts p.gen.state c (at p (forward p.mis (length ws)))
  unfolding parse_next
  parse_next-Blank p ws c b h e solid room =
      bind-ok (on_input (consume_whitespace opts.comments)) _ p _ c
        (white-Blank p ws c b h e solid room)

  -- the scalars
  module _ (p : State (Progress (lib.Real))) (m : Mis) (state : ParseState)
      (changes : state_change_value p.gen.state ≡ some state) where
    accept_value-changes :
        (t : JsonType) (v : Payload (lib.Real))
        → accept_value t v (at p m) ≡ accept_in state t v (at p m)
    unfolding accept_value
    accept_value-changes t v = rw (changes, accept_value) refl

    pub expect_value-null :
        parse_null p.mis ≡ Outcome.ok tt m
        → expect_value lib opts b'n' p ≡ accept_in state type_null Payload.no_payload (at p m)
    unfolding expect_value
    expect_value-null e =
        bind-ok (on_input parse_null) _ p _ tt (on_input-ok parse_null p m tt e)
        ∙ accept_value-changes type_null Payload.no_payload

    pub expect_value-true :
        parse_true p.mis ≡ Outcome.ok tt m
        → expect_value lib opts b't' p ≡ accept_in state type_true Payload.no_payload (at p m)
    unfolding expect_value
    expect_value-true e =
        bind-ok (on_input parse_true) _ p _ tt (on_input-ok parse_true p m tt e)
        ∙ accept_value-changes type_true Payload.no_payload

    pub expect_value-false :
        parse_false p.mis ≡ Outcome.ok tt m
        → expect_value lib opts b'f' p ≡ accept_in state type_false Payload.no_payload (at p m)
    unfolding expect_value
    expect_value-false e =
        bind-ok (on_input parse_false) _ p _ tt (on_input-ok parse_false p m tt e)
        ∙ accept_value-changes type_false Payload.no_payload

    pub expect_value-string :
        (count : ℕ)
        → parse_string opts.validate_utf8 p.mis ≡ Outcome.ok count m
        → expect_value lib opts b'"' p
          ≡ accept_in state type_string (Payload.text m.string count) (at p m)
    unfolding expect_value
    expect_value-string count e =
        bind-ok (on_input (parse_string opts.validate_utf8)) _ p _ count
          (on_input-ok (parse_string opts.validate_utf8) p m count e)
        ∙ accept_value-changes type_string (Payload.text m.string count)

    pub expect_value-integer :
        (b : ℕ) (i : ℤ)
        → (b ≡ b'-') ⊎ ((b'0' ≤ b) × (b ≤ b'9'))
        → parse_number lib p.mis ≡ Outcome.ok (integer i) m
        → expect_value lib opts b p ≡ accept_in state type_integer (Payload.integer i) (at p m)
    unfolding expect_value
    expect_value-integer b i first e =
        let array_no : (b == b'[') ≡ false = ground (arith, first) in
        let object_no : (b == b'{') ≡ false = ground (arith, first) in
        let string_no : (b == b'"') ≡ false = ground (arith, first) in
        let true_no : (b == b't') ≡ false = ground (arith, first) in
        let false_no : (b == b'f') ≡ false = ground (arith, first) in
        let null_no : (b == b'n') ≡ false = ground (arith, first) in
        let number : ((b == b'-') || between b'0' b'9' b) ≡ true = ground (arith, first) in
        rw (array_no, object_no, string_no, true_no, false_no, null_no, number)
          (bind-ok (on_input (parse_number lib)) _ p _ (integer i)
              (on_input-ok (parse_number lib) p m (integer i) e)
            ∙ accept_value-changes type_integer (Payload.integer i))

  -- An opening bracket, where the stack has room.
  abbrev pub opened : ℕ → State (Progress (lib.Real)) → State (Progress (lib.Real))
  opened type p = record { mis = mis_take p.mis; stack = (stack_push p.stack type).1; gen = p.gen }

  pub expect_value-array :
      (p : State (Progress (lib.Real)))
      → (stack_push p.stack stack_array).0 ≡ true
      → expect_value lib opts b'[' p
        ≡ accept_in state_array type_start_array Payload.no_payload (opened stack_array p)
  unfolding expect_value accept_start
  expect_value-array p pushed =
      bind-ok (parse_start stack_array) _ p _ stack_array (parse_start-ok stack_array p pushed)

  pub expect_value-object :
      (p : State (Progress (lib.Real)))
      → (stack_push p.stack stack_object).0 ≡ true
      → expect_value lib opts b'{' p
        ≡ accept_in state_object type_start_object Payload.no_payload (opened stack_object p)
  unfolding expect_value accept_start
  expect_value-object p pushed =
      bind-ok (parse_start stack_object) _ p _ stack_object (parse_start-ok stack_object p pushed)

  -- A closing bracket, where a container is open.
  pub accept_end-ok :
      (p : State (Progress (lib.Real))) (container : ℕ) (type : JsonType) (outer : ℕ)
      → top_type_is p.stack container ≡ true
      → (stack_pop p.stack).0 ≡ some outer
      → accept_end container type p
        ≡ accept_in
            (state_change_end (stack_pop p.stack).1)
            type
            Payload.no_payload
            (record { mis = mis_take p.mis; stack = (stack_pop p.stack).1; gen = p.gen })
  unfolding accept_end
  accept_end-ok p container type outer top popped =
      bind-ok (parse_end container) _ p _ outer (parse_end-ok container p outer top popped)

  -- The key of a member, with its colon.
  pub expect_key-ok :
      (p : State (Progress (lib.Real))) (m : Mis) (count : ℕ) (a ws : List ℕ)
      → parse_string opts.validate_utf8 p.mis ≡ Outcome.ok count m
      → Blank a
      → Holds m.bytes m.read (a ++ b':' ∷ ws)
      → m.read + length a ≤ m.count
      → expect_key lib opts b'"' p
        ≡ accept_in state_key type_key
            (Payload.text m.string count)
            (at p (mis_take (forward m (length a))))
  unfolding expect_key
  expect_key-ok p m count a ws e blank h room =
      bind-ok (on_input (parse_string opts.validate_utf8)) _ p _ count
        (on_input-ok (parse_string opts.validate_utf8) p m count e)
      ∙ bind-ok (on_input (consume_whitespace opts.comments)) _ (at p m) _ b':' (
          white-Blank (at p m) a b':' blank (Holds-left m.bytes m.read a _ h)
            (Holds-right m.bytes m.read a _ h).0 (refl, λ q. omega (arith, q)) room)

  pub in_array-value :
      (c : ℕ) (p : State (Progress (lib.Real)))
      → c ≢ b']'
      → in_array lib opts c p ≡ expect_value lib opts c p
  unfolding in_array
  in_array-value c p h = let other : (c == b']') ≡ false = ground (arith, h) in rw other refl

  pub in_object-key :
      (c : ℕ) (p : State (Progress (lib.Real)))
      → c ≢ b'}'
      → in_object lib opts c p ≡ expect_key lib opts c p
  unfolding in_object
  in_object-key c p h = let other : (c == b'}') ≡ false = ground (arith, h) in rw other refl

  -- A comma and blanks behind an element, or behind a member.
  module _ (p : State (Progress (lib.Real))) (a : List ℕ) (c : ℕ) (blank : Blank a)
      (h : Holds p.mis.bytes (suc p.mis.read) a) (e : p.mis.bytes (suc p.mis.read + length a) ≡ c)
      (solid : Solid c) (room : suc p.mis.read + length a ≤ p.mis.count) where
    abbrev next : State (Progress (lib.Real))
    next = at p (forward (mis_take p.mis) (length a))

    pub after_element-comma :
        c ≢ b']' → after_element lib opts b',' p ≡ expect_value lib opts c next
    unfolding after_element
    after_element-comma other =
        bind-ok (on_input (consume_whitespace opts.comments)) _ (at p (mis_take p.mis)) next c
          (white-Blank (at p (mis_take p.mis)) a c blank h e solid room)
        ∙ by_option opts.trailing_commas
      where
        by_option :
            (t : Bool)
            → (if t then in_array lib opts c else expect_value lib opts c) next
              ≡ expect_value lib opts c next
        by_option true = in_array-value c next other
        by_option false = refl

    pub after_member-comma : c ≢ b'}' → after_member lib opts b',' p ≡ expect_key lib opts c next
    unfolding after_member
    after_member-comma other =
        bind-ok (on_input (consume_whitespace opts.comments)) _ (at p (mis_take p.mis)) next c
          (white-Blank (at p (mis_take p.mis)) a c blank h e solid room)
        ∙ by_option opts.trailing_commas
      where
        by_option :
            (t : Bool)
            → (if t then in_object lib opts c else expect_key lib opts c) next
              ≡ expect_key lib opts c next
        by_option true = in_object-key c next other
        by_option false = refl
