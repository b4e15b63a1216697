-- ===== src/Sax.antt =====
-- src/parse.c: the event parser, one loop over values with the nesting in a bit stack. The
-- generator is a parameter: its type `G` and what it does with an event, where `none` is a failed
-- assertion of its checks and the flag is what the jsnpg_ function returns.
pub mod Steps
pub mod Items
pub mod Runs
pub mod Reads
pub mod Values
pub mod Whole
pub mod Bounds
use jsnpg.Base.{
  ℕ, zero, suc, List, Bool, true, false, ◌&&◌, ◌||◌, ◌⊎◌, inl, inr, Option, none, some, ◌==◌,
  between, if◌then◌else◌,
}
use jsnpg.Base.Memory.{slice}
use jsnpg.Types.{
  ErrorCode, error_unexpected, error_expected_key, error_terminated, error_stack_overflow,
  error_stack_underflow, Event,
}
use jsnpg.Floats.{FloatLib}
use jsnpg.Stack.{Stack, stack_object, stack_array, stack_none, stack_peek, stack_push, stack_pop}
use jsnpg.Input.{Mis, mis_take, mis_eof, mis_tell}
use jsnpg.Outcome.{Outcome}
use jsnpg.Parser.White.{consume_whitespace}
use jsnpg.Parser.Literal.{parse_true, parse_false, parse_null}
use jsnpg.Parser.Strings.{parse_string}
use jsnpg.Parser.Number.{Number, parse_number}

-- the options of a parse that its loop reads
pub record Options : Type 0 where
  pub comments : Bool
  pub trailing_commas : Bool
  pub trailing_chars : Bool
  pub multiple_values : Bool
  pub validate_utf8 : Bool

-- the parser and the generator that it drives
pub record State (G : Type 0) : Type 0 where
  pub mis : Mis
  pub stack : Stack
  pub gen : G

-- what a value leaves: it is read, in a container of the type, or it has opened a container of the
-- type and `b` is the next byte
pub data Item : Type 0 where
  value : ℕ → Item
  opened : ℕ → ℕ → Item

-- another round with a container's type and the next byte, or the end of the text
pub data Next : Type 0 where
  another : ℕ → ℕ → Next
  finished : Next

-- `thrown` is the longjmp to the `setjmp` of `parse`. `aborted` is a failed assertion, of the
-- generator or of parse_end; `no_fuel` has no counterpart.
pub data Run (G A : Type 0) : Type 0 where
  ok : A → State G → Run G A
  thrown : ErrorCode → ℕ → State G → Run G A
  aborted : Run G A
  no_fuel : Run G A

-- stack_peek(&p->stack) == type
abbrev pub top_type_is : Stack → ℕ → Bool
top_type_is s type = elim (stack_peek s) [ none ↦ false | some found ↦ found == type ]

module _ {G : Type 0} where
  infixl 5 ◌>>=◌ ◌>>◌
  abbrev pub ◌>>=◌ :
      {A B : Type 0} → (State G → Run G A) → (A → State G → Run G B) → State G → Run G B
  ◌>>=◌ m f s = elim (m s) [
    | ok a s' ↦ f a s'
    | thrown code at s' ↦ thrown code at s'
    | aborted ↦ aborted
    | no_fuel ↦ no_fuel
  ]

  abbrev pub ◌>>◌ : {A B : Type 0} → (State G → Run G A) → (State G → Run G B) → State G → Run G B
  m >> k = m >>= λ _. k

  abbrev pub pure : {A : Type 0} → A → State G → Run G A
  pure a s = ok a s

  abbrev pub throw : {A : Type 0} → ErrorCode → State G → Run G A
  throw code s = thrown code (mis_tell s.mis) s

  -- a function that uses the input alone
  abbrev pub on_input : {A : Type 0} → (Mis → Outcome A) → State G → Run G A
  on_input p s = elim (p s.mis) [
    | Outcome.ok a mis ↦ ok a (record s { mis = mis })
    | Outcome.thrown code at mis ↦ thrown code at (record s { mis = mis })
    | Outcome.no_fuel ↦ no_fuel
  ]

  abbrev pub take_byte : State G → Run G (Unit {0})
  take_byte s = ok tt (record s { mis = mis_take s.mis })

  -- parse_start_object and parse_start_array, without the assertion that the bracket is ahead
  unfoldable pub parse_start : ℕ → State G → Run G ℕ
  parse_start type s =
      let taken = record s { mis = mis_take s.mis } in
      let (pushed, stack) = stack_push s.stack type in
      if pushed then ok type (record taken { stack = stack }) else throw error_stack_overflow taken

  -- parse_end_object and parse_end_array, by the type of the container, with the assertion on the
  -- stack's top, without that on the bracket ahead: the type of the container around the one that ends.
  unfoldable pub parse_end : ℕ → State G → Run G ℕ
  parse_end container s =
      let taken = record s { mis = mis_take s.mis } in
      let (popped, stack) = stack_pop s.stack in
      let ended : Run G ℕ = elim popped [
        | none ↦ throw error_stack_underflow (record taken { stack = stack })
        | some type ↦ ok type (record taken { stack = stack })
      ] in
      if top_type_is s.stack container then ended else aborted

  module _ (lib : FloatLib) (send : Event (lib.Real) → G → Option (Bool × G)) (opts : Options) where
    -- if(!jsnpg_..(g, ..)) throw_parse_error(p, JSNPG_ERROR_TERMINATED)
    unfoldable pub emit : Event (lib.Real) → State G → Run G (Unit {0})
    emit e s = elim (send e s.gen) [
      | none ↦ aborted
      | some (flag, gen) ↦
          if flag
          then ok tt (record s { gen = gen })
          else throw error_terminated (record s { gen = gen })
    ]

    abbrev pub white : State G → Run G ℕ
    white = on_input (consume_whitespace opts.comments)

    -- the bytes of the string just read
    abbrev pub string_event : (List ℕ → Event (lib.Real)) → State G → Run G (Unit {0})
    string_event event = on_input (parse_string opts.validate_utf8) >>= λ (count : ℕ) (s : State G).
        emit (event (slice s.mis.bytes s.mis.string count)) s

    abbrev pub close_byte : ℕ → ℕ
    close_byte type = if type == stack_object then b'}' else b']'

    abbrev pub start_event : ℕ → Event (lib.Real)
    start_event type = if type == stack_object then Event.start_object else Event.start_array

    abbrev pub end_event : ℕ → Event (lib.Real)
    end_event type = if type == stack_object then Event.end_object else Event.end_array

    -- the end of a container: the type of the one around it
    unfoldable pub close_container : ℕ → State G → Run G ℕ
    close_container type = parse_end type >>= λ (outer : ℕ). emit (end_event type) >> pure outer

    -- `,` behind the opening bracket, where trailing commas are allowed
    unfoldable pub leading_comma : ℕ → ℕ → State G → Run G ℕ
    leading_comma type b s =
        let skip =
          (take_byte
            >> (white >>= λ (c : ℕ) (s' : State G).
                if c == close_byte type then ok c s' else throw error_unexpected s')) in
        if opts.trailing_commas && b == b',' then skip s else ok b s

    -- case '[' and case '{'
    unfoldable pub open_container : ℕ → State G → Run G Item
    open_container type = parse_start type >>= λ (inner : ℕ).
        emit (start_event type)
        >> (white >>= λ (b : ℕ). leading_comma type b >>= λ (c : ℕ) (s : State G).
            let closed = (close_container type >>= λ (outer : ℕ). pure (value outer)) in
            let opened = (white >>= λ (d : ℕ). pure (opened inner d)) in
            if c == close_byte type then closed s else opened s)

    -- the key of an object's member, and the byte at its value
    unfoldable pub parse_member_key : ℕ → State G → Run G ℕ
    parse_member_key b s =
        let key =
          (on_input (parse_string opts.validate_utf8) >>= λ (count : ℕ).
          white >>= λ (c : ℕ) (s' : State G).
          let bytes = slice s'.mis.bytes s'.mis.string count in
          let next = (emit (Event.key bytes) >> (take_byte >> white)) in
          if c == b':' then next s' else throw error_expected_key s') in
        if b == b'"' then key s else throw error_expected_key s

    unfoldable pub parse_number_event : State G → Run G (Unit {0})
    parse_number_event = on_input (parse_number lib) >>= λ (n : Number (lib.Real)). elim n [
      | Number.integer i ↦ emit (Event.integer i)
      | Number.real d ↦ emit (Event.real d)
    ]

    -- the switch on the first byte of a value, in a container of the type
    unfoldable pub parse_value : ℕ → ℕ → State G → Run G Item
    parse_value stack_type b s =
        let done = pure (value stack_type) in
        let string_value = (string_event Event.string >> done) in
        let true_value = (on_input parse_true >> (emit (Event.boolean true) >> done)) in
        let false_value = (on_input parse_false >> (emit (Event.boolean false) >> done)) in
        let null_value = (on_input parse_null >> (emit Event.null >> done)) in
        let number_value = (parse_number_event >> done) in
        if b == b'['
        then open_container stack_array s
        else if b == b'{'
        then open_container stack_object s
        else if b == b'"'
        then string_value s
        else if b == b't'
        then true_value s
        else if b == b'f'
        then false_value s
        else if b == b'n'
        then null_value s
        else if b == b'-' || between b'0' b'9' b
        then number_value s
        else throw error_unexpected s

    -- the comma behind a value: `inr` where the inner loop is left for another value
    unfoldable pub separator : ℕ → State G → Run G (ℕ ⊎ ℕ)
    separator b s =
        let comma =
          (take_byte
            >> (white >>= λ (c : ℕ).
                pure
                  (if opts.trailing_commas && (c == b'}' || c == b']') then inl c else inr c))) in
        if b == b',' then comma s else ok (inl b) s

    -- while(true), behind a value: the containers that end, until a comma or the end of the text
    unfoldable pub after_value : ℕ → ℕ → State G → Run G Next
    after_value zero stack_type s = no_fuel
    after_value (suc fuel) stack_type s =
        (white >>= λ (b : ℕ). separator b >>= λ (e : ℕ ⊎ ℕ) (s' : State G). elim e [
          | inr c ↦ ok (another stack_type c) s'
          | inl c ↦
              let close = (close_container stack_type >>= λ (outer : ℕ). after_value fuel outer) in
              if c == b'}' && stack_type == stack_object
              then close s'
              else if c == b']' && stack_type == stack_array
              then close s'
              else if stack_type == stack_none
              then ok finished s'
              else throw error_unexpected s'
        ])
          s

    -- one round of the outer loop
    unfoldable pub round : ℕ → ℕ → ℕ → State G → Run G Next
    round fuel stack_type b =
        (if stack_type == stack_object then parse_member_key b else pure b) >>= λ (c : ℕ).
        parse_value stack_type c >>= λ (item : Item). elim item [
          | opened inner d ↦ pure (another inner d)
          | value type ↦ after_value fuel type
        ]

    -- do .. while(more_todo). Each round reads a byte, and so does each container that ends.
    unfoldable pub rounds : ℕ → ℕ → ℕ → State G → Run G (Unit {0})
    rounds zero stack_type b s = no_fuel
    rounds (suc fuel) stack_type b s =
        (round fuel stack_type b >>= λ (n : Next). elim n [
          | another type c ↦ rounds fuel type c
          | finished ↦ pure tt
        ])
          s

    unfoldable pub parse_generate : ℕ → State G → Run G (Unit {0})
    parse_generate fuel = white >>= λ (b : ℕ). rounds fuel stack_none b >> (white >> pure tt)

    -- the loop of `parse`, inside its `setjmp`; the fuel is that of each text and of the loop
    unfoldable pub parse_texts : ℕ → ℕ → State G → Run G (Unit {0})
    parse_texts zero fuel s = no_fuel
    parse_texts (suc more) fuel s =
        (parse_generate fuel >> λ (s' : State G).
        let again = parse_texts more fuel s' in
        if mis_eof s'.mis
        then ok tt s'
        else if opts.multiple_values
        then again
        else if opts.trailing_chars
        then ok tt s'
        else throw error_unexpected s')
          s
