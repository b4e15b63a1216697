-- ===== src/Sax/Items.antt =====
-- src/parse.c: white space, containers, keys and scalars in the loop of parse_generate, each where
-- the text goes on as it may.
use jsnpg.Base.{
  ℕ, ◌+◌, ◌≤◌, List, Bool, true, false, ◌||◌, between, Option, some, ◌≡◌, ◌≢◌, ◌⊎◌, refl, ◌∙◌,
  arith, length, ◌==◌,
}
use jsnpg.Base.Int.{ℤ}
use jsnpg.Base.Memory.{Holds, slice}
use jsnpg.Types.{Event}
use jsnpg.Floats.{FloatLib}
use jsnpg.Stack.{stack_object, stack_array, stack_push}
use jsnpg.Input.{Mis, mis_take}
use jsnpg.Outcome.{Outcome}
use jsnpg.Json.Grammar.{Blank}
use jsnpg.Parser.Escape.Reads.{forward}
use jsnpg.Parser.White.{consume_whitespace}
use jsnpg.Parser.White.Blank.{Solid, consume_whitespace-Blank}
use jsnpg.Parser.Literal.{parse_true, parse_false, parse_null}
use jsnpg.Parser.Strings.{parse_string}
use jsnpg.Parser.Number.{integer, parse_number}
use jsnpg.Sax.{
  Options, State, value, opened, ok, on_input, parse_start, emit, white, start_event, close_byte,
  close_container, leading_comma, open_container, string_event, parse_member_key,
  parse_number_event, parse_value,
}
use jsnpg.Sax.Steps.{bind-ok, on_input-ok, parse_start-ok, emit-ok}

module _ {G : Type 0} (lib : FloatLib) (send : Event (lib.Real) → G → Option (Bool × G))
    (opts : Options) where
  pub white-Blank :
      (s : State G) (ws : List ℕ) (c : ℕ)
      → Blank ws
      → Holds s.mis.bytes s.mis.read ws
      → s.mis.bytes (s.mis.read + length ws) ≡ c
      → Solid c
      → s.mis.read + length ws ≤ s.mis.count
      → white lib send opts s ≡ ok c (record s { mis = forward s.mis (length ws) })
  white-Blank s ws c b h e solid room = rw (← e) (
      on_input-ok (consume_whitespace opts.comments) s _ _
        (consume_whitespace-Blank opts.comments s.mis ws b h (rw e solid) room))

  pub leading_comma-none :
      (type b : ℕ) (s : State G) → b ≢ b',' → leading_comma lib send opts type b s ≡ ok b s
  unfolding leading_comma
  leading_comma-none type b s h =
      let other : (b == b',') ≡ false = ground (arith, h) in rw other (ground arith)

  -- the state behind an opening bracket
  abbrev pub inside : ℕ → State G → G → State G
  inside type s g = record { mis = mis_take s.mis; stack = (stack_push s.stack type).1; gen = g }

  module _ (type : ℕ) (s s' : State G) (g : G) (c : ℕ) (pushed : (stack_push s.stack type).0 ≡ true)
      (sent : send (start_event lib send opts type) s.gen ≡ some (true, g))
      (skipped : white lib send opts (inside type s g) ≡ ok c s') (other : c ≢ b',') where
    pub open_container-empty :
        (outer : ℕ) (s₂ : State G)
        → c ≡ close_byte lib send opts type
        → close_container lib send opts type s' ≡ ok outer s₂
        → open_container lib send opts type s ≡ ok (value outer) s₂
    unfolding open_container
    open_container-empty outer s₂ e closed =
        let same : (c == close_byte lib send opts type) ≡ true = ground (arith, e) in
        bind-ok (parse_start type) _ s _ type (parse_start-ok type s pushed)
        ∙ bind-ok (emit lib send opts (start_event lib send opts type)) _ _ (inside type s g) tt
            (emit-ok lib send opts (start_event lib send opts type) _ g sent)
        ∙ bind-ok (white lib send opts) _ (inside type s g) s' c skipped
        ∙ bind-ok (leading_comma lib send opts type c) _ s' s' c
            (leading_comma-none type c s' other)
        ∙ rw same (bind-ok (close_container lib send opts type) _ s' s₂ outer closed)

    pub open_container-more :
        (d : ℕ) (s₂ : State G)
        → c ≢ close_byte lib send opts type
        → white lib send opts s' ≡ ok d s₂
        → open_container lib send opts type s ≡ ok (opened type d) s₂
    unfolding open_container
    open_container-more d s₂ ne again =
        let differs : (c == close_byte lib send opts type) ≡ false = ground (arith, ne) in
        bind-ok (parse_start type) _ s _ type (parse_start-ok type s pushed)
        ∙ bind-ok (emit lib send opts (start_event lib send opts type)) _ _ (inside type s g) tt
            (emit-ok lib send opts (start_event lib send opts type) _ g sent)
        ∙ bind-ok (white lib send opts) _ (inside type s g) s' c skipped
        ∙ bind-ok (leading_comma lib send opts type c) _ s' s' c
            (leading_comma-none type c s' other)
        ∙ rw differs (bind-ok (white lib send opts) _ s' s₂ d again)

  pub parse_value-array :
      (t : ℕ) (s : State G)
      → parse_value lib send opts t b'[' s ≡ open_container lib send opts stack_array s
  unfolding parse_value
  parse_value-array t s = refl

  pub parse_value-object :
      (t : ℕ) (s : State G)
      → parse_value lib send opts t b'{' s ≡ open_container lib send opts stack_object s
  unfolding parse_value
  parse_value-object t s = refl

  pub parse_value-null :
      (t : ℕ) (s : State G) (m : Mis) (g : G)
      → parse_null s.mis ≡ Outcome.ok tt m
      → send Event.null s.gen ≡ some (true, g)
      → parse_value lib send opts t b'n' s ≡ ok (value t) (record s { mis = m; gen = g })
  unfolding parse_value
  parse_value-null t s m g e h =
      bind-ok (on_input parse_null) _ s _ tt (on_input-ok parse_null s m tt e)
      ∙ bind-ok (emit lib send opts Event.null) _ _ _ tt (emit-ok lib send opts Event.null _ g h)

  pub parse_value-true :
      (t : ℕ) (s : State G) (m : Mis) (g : G)
      → parse_true s.mis ≡ Outcome.ok tt m
      → send (Event.boolean true) s.gen ≡ some (true, g)
      → parse_value lib send opts t b't' s ≡ ok (value t) (record s { mis = m; gen = g })
  unfolding parse_value
  parse_value-true t s m g e h =
      bind-ok (on_input parse_true) _ s _ tt (on_input-ok parse_true s m tt e)
      ∙ bind-ok (emit lib send opts (Event.boolean true)) _ _ _ tt
          (emit-ok lib send opts (Event.boolean true) _ g h)

  pub parse_value-false :
      (t : ℕ) (s : State G) (m : Mis) (g : G)
      → parse_false s.mis ≡ Outcome.ok tt m
      → send (Event.boolean false) s.gen ≡ some (true, g)
      → parse_value lib send opts t b'f' s ≡ ok (value t) (record s { mis = m; gen = g })
  unfolding parse_value
  parse_value-false t s m g e h =
      bind-ok (on_input parse_false) _ s _ tt (on_input-ok parse_false s m tt e)
      ∙ bind-ok (emit lib send opts (Event.boolean false)) _ _ _ tt
          (emit-ok lib send opts (Event.boolean false) _ g h)

  pub parse_value-string :
      (t count : ℕ) (s : State G) (m : Mis) (g : G)
      → parse_string opts.validate_utf8 s.mis ≡ Outcome.ok count m
      → send (Event.string (slice m.bytes m.string count)) s.gen ≡ some (true, g)
      → parse_value lib send opts t b'"' s ≡ ok (value t) (record s { mis = m; gen = g })
  unfolding parse_value
  parse_value-string t count s m g e h =
      bind-ok (string_event lib send opts Event.string) _ s (record s { mis = m; gen = g }) tt
        (bind-ok (on_input (parse_string opts.validate_utf8)) _ s _ count
            (on_input-ok (parse_string opts.validate_utf8) s m count e)
          ∙ emit-ok lib send opts (Event.string (slice m.bytes m.string count)) _ g h)

  pub parse_value-integer :
      (t b : ℕ) (i : ℤ) (s : State G) (m : Mis) (g : G)
      → (b ≡ b'-') ⊎ ((b'0' ≤ b) × (b ≤ b'9'))
      → parse_number lib s.mis ≡ Outcome.ok (integer i) m
      → send (Event.integer i) s.gen ≡ some (true, g)
      → parse_value lib send opts t b s ≡ ok (value t) (record s { mis = m; gen = g })
  unfolding parse_value parse_number_event
  parse_value-integer t b i s m g first e h =
      let array_no : (b == b'[') ≡ false = ground (arith, first) in
      let object_no : (b == b'{') ≡ false = ground (arith, first) in
      let string_no : (b == b'"') ≡ false = ground (arith, first) in
      let true_no : (b == b't') ≡ false = ground (arith, first) in
      let false_no : (b == b'f') ≡ false = ground (arith, first) in
      let null_no : (b == b'n') ≡ false = ground (arith, first) in
      let number : ((b == b'-') || between b'0' b'9' b) ≡ true = ground (arith, first) in
      rw (array_no, object_no, string_no, true_no, false_no, null_no, number)
        (bind-ok (parse_number_event lib send opts) _ s (record s { mis = m; gen = g }) tt
          (bind-ok (on_input (parse_number lib)) _ s _ (integer i)
              (on_input-ok (parse_number lib) s m (integer i) e)
            ∙ emit-ok lib send opts (Event.integer i) _ g h))

  pub parse_member_key-ok :
      (count c : ℕ) (s s₂ s₃ : State G) (m : Mis) (g : G)
      → parse_string opts.validate_utf8 s.mis ≡ Outcome.ok count m
      → white lib send opts (record s { mis = m }) ≡ ok b':' s₂
      → send (Event.key (slice s₂.mis.bytes s₂.mis.string count)) s₂.gen ≡ some (true, g)
      → white lib send opts (record s₂ { mis = mis_take s₂.mis; gen = g }) ≡ ok c s₃
      → parse_member_key lib send opts b'"' s ≡ ok c s₃
  unfolding parse_member_key
  parse_member_key-ok count c s s₂ s₃ m g e skipped sent again =
      bind-ok (on_input (parse_string opts.validate_utf8)) _ s _ count
        (on_input-ok (parse_string opts.validate_utf8) s m count e)
      ∙ bind-ok (white lib send opts) _ _ s₂ b':' skipped
      ∙ bind-ok (emit lib send opts (Event.key (slice s₂.mis.bytes s₂.mis.string count))) _ _ _ tt
          (emit-ok lib send opts (Event.key (slice s₂.mis.bytes s₂.mis.string count)) _ g sent)
      ∙ again
