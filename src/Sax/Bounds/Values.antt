-- ===== src/Sax/Bounds/Values.antt =====
-- src/parse.c: keys, values and containers are read inside the text, whatever bytes that holds.
use jsnpg.Base.{
  ℕ, ◌<◌, Bool, true, false, ◌&&◌, ◌||◌, between, Option, some, refl, ◌≡◌, ◌≢◌, arith, ◌==◌,
  if◌then◌else◌,
}
use jsnpg.Base.Memory.{slice}
use jsnpg.Types.{Event, error_expected_key, error_unexpected}
use jsnpg.Floats.{FloatLib}
use jsnpg.Sax.Bounds.Tracks.{Tracks, Tracks-top, Tracks-push, Tracks-pop}
use jsnpg.Stack.{Stack, stack_object, stack_array}
use jsnpg.Input.{Mis, mis_peek}
use jsnpg.Outcome.{Outcome}
use jsnpg.Parser.Literal.{parse_true, parse_false, parse_null}
use jsnpg.Parser.Strings.{parse_string}
use jsnpg.Parser.Number.{Number, parse_number}
use jsnpg.Parser.Bounds.{Onward-none, Stays, Any, Seen}
use jsnpg.Parser.Bounds.Literals.{parse_true-Stays, parse_false-Stays, parse_null-Stays}
use jsnpg.Parser.Bounds.Numbers.{Strtod, parse_number-Stays}
use jsnpg.Parser.Bounds.Strings.{parse_string-Stays}
use jsnpg.Sax.{
  Options, State, Item, value, opened, Run, ok, ◌>>=◌, ◌>>◌, throw, on_input, take_byte,
  parse_start, parse_end, emit, white, string_event, close_byte, start_event, end_event,
  close_container, leading_comma, open_container, parse_member_key, parse_number_event, parse_value,
}
use jsnpg.Sax.Bounds.{
  Fine, Seen-nonzero, Finishes, Done, Finishes-later, Finishes-weaken, Finishes-bind, Finishes-if,
  on_input-Finishes, Ahead, white-Finishes, take_byte-Finishes, parse_start-Finishes,
  parse_end-Finishes, Answers, emit-Finishes,
}

module _ {G : Type 0} (I : Stack → G → Type 0) (lib : FloatLib) (strtod : Strtod lib)
    (send : Event (lib.Real) → G → Option (Bool × G)) (answers : Answers I send)
    (opts : Options) where
  -- an event, and a result
  emits :
      {A : Type 0} (Q : A → State G → Type 0) (x : A) (e : Event (lib.Real)) (s : State G)
      → Fine I s
      → ((s' : State G) → s'.mis ≡ s.mis → Q x s')
      → Finishes I 0 Q s.mis ((emit lib send opts e >> (λ s'. ok x s')) s)
  emits Q x e s i q =
      Finishes-bind I I (λ u s'. s'.mis ≡ s.mis) Q 0 0 0 (emit lib send opts e) _ s
        (emit-Finishes I lib send opts e s answers i) (omega arith)
        (λ u s' o i' same. (Onward-none s'.mis i'.0, i', q s' same))

  -- a byte that is taken, and white space behind it
  pub take_white-Finishes :
      (s : State G)
      → Fine I s
      → mis_peek s.mis ≢ 0
      → Finishes I 1 Ahead s.mis ((take_byte >> white lib send opts) s)
  take_white-Finishes s i ne =
      Finishes-bind I I Done Ahead 1 0 1 take_byte _ s (take_byte-Finishes I s i ne) (omega arith)
        (λ u s' o i' d. white-Finishes I opts.comments s' i')

  expects_close :
      (type c : ℕ) (s : State G)
      → Fine I s
      → Seen c s.mis
      → Finishes I 0 Ahead s.mis
          (if c == close_byte lib send opts type then ok c s else throw error_unexpected s)
  expects_close type c s i seen =
      Finishes-if I Ahead 0 s.mis (c == close_byte lib send opts type) (ok c s)
        (throw error_unexpected s) (λ e. (Onward-none s.mis i.0, i, seen)) (λ e. tt)

  leading_comma-Finishes :
      (type b : ℕ) (s : State G)
      → Fine I s
      → Seen b s.mis
      → Finishes I 0 Ahead s.mis (leading_comma lib send opts type b s)
  unfolding leading_comma
  leading_comma-Finishes type b s i seen =
      Finishes-if I Ahead 0 s.mis (opts.trailing_commas && b == b',') _ _
        (λ e.
          let comma : b ≡ b',' = ground (arith, e) in
          let ne = Seen-nonzero b s.mis seen (λ z. omega (arith, z, comma)) in
          Finishes-bind I I Done Ahead 1 0 0 take_byte _ s (take_byte-Finishes I s i ne)
            (omega arith)
            (λ u s₁ o₁ i₁ d.
              Finishes-bind I I Ahead Ahead 0 0 0 (white lib send opts) _ s₁
                (white-Finishes I opts.comments s₁ i₁) (omega arith)
                (λ c s₂ o₂ i₂ seen₂. expects_close type c s₂ i₂ seen₂)))
        (λ e. (Onward-none s.mis i.0, i, seen))

  colon :
      (count c : ℕ) (s : State G)
      → Fine I s
      → Seen c s.mis
      → Finishes I 0 Ahead s.mis (
          let bytes = slice s.mis.bytes s.mis.string count in
          let next = (emit lib send opts (Event.key bytes) >> (take_byte >> white lib send opts)) in
          if c == b':' then next s else throw error_expected_key s)
  colon count c s i seen =
      Finishes-if I Ahead 0 s.mis (c == b':') _ _
        (λ e.
          let ne = Seen-nonzero c s.mis seen (λ z. ground (arith, e, z)) in
          Finishes-bind I I (λ u s'. s'.mis ≡ s.mis) Ahead 0 0 0 (emit lib send opts _) _ s
            (emit-Finishes I lib send opts _ s answers i) (omega arith)
            (λ u s₁ o₁ i₁ same.
              Finishes-later I Ahead 0 1 0 s₁.mis s₁.mis _ (Onward-none s₁.mis i₁.0) (omega arith)
                (take_white-Finishes s₁ i₁ (rw same ne))))
        (λ e. tt)

  -- an event with nothing behind it
  emits-Done :
      (e : Event (lib.Real)) (s : State G)
      → Fine I s
      → Finishes I 0 Done s.mis (emit lib send opts e s)
  emits-Done e s i =
      Finishes-weaken I I (λ u s'. s'.mis ≡ s.mis) Done 0 s.mis (emit lib send opts e s)
        (λ u s' i' same. (i'.1, tt)) (emit-Finishes I lib send opts e s answers i)

  -- The key of a member, up to the byte at its value.
  pub parse_member_key-Finishes :
      (b : ℕ) (s : State G)
      → Fine I s
      → Seen b s.mis
      → Finishes I 1 Ahead s.mis (parse_member_key lib send opts b s)
  unfolding parse_member_key
  parse_member_key-Finishes b s i seen =
      Finishes-if I Ahead 1 s.mis (b == b'"') _ _
        (λ e.
          let ne = Seen-nonzero b s.mis seen (λ z. ground (arith, e, z)) in
          Finishes-bind I I (λ x s'. Any x s'.mis) Ahead 1 0 1
            (on_input (parse_string opts.validate_utf8)) _ s
            (on_input-Finishes I Any 1 (parse_string opts.validate_utf8) s i
              (parse_string-Stays opts.validate_utf8 s.mis i.0 ne))
            (omega arith)
            (λ count s₁ o₁ i₁ d₁.
              Finishes-bind I I Ahead Ahead 0 0 0 (white lib send opts) _ s₁
                (white-Finishes I opts.comments s₁ i₁) (omega arith)
                (λ c s₂ o₂ i₂ seen₂. colon count c s₂ i₂ seen₂)))
        (λ e. tt)

  pub parse_number_event-Finishes :
      (s : State G) → Fine I s → Finishes I 1 Done s.mis (parse_number_event lib send opts s)
  unfolding parse_number_event
  parse_number_event-Finishes s i =
      Finishes-bind I I (λ x s'. Any x s'.mis) Done 1 0 1 (on_input (parse_number lib)) _ s
        (on_input-Finishes I Any 1 (parse_number lib) s i (parse_number-Stays lib strtod s.mis i.0))
        (omega arith) (λ n s' o i' d. by_kind n s' i')
    where
      by_kind :
          (n : Number (lib.Real)) (s' : State G)
          → Fine I s'
          → Finishes I 0 Done s'.mis (
              (elim n as (λ n'. State G → Run G (Unit {0})) [
                | Number.integer i' ↦ emit lib send opts (Event.integer i')
                | Number.real d ↦ emit lib send opts (Event.real d)
              ])
                s')
      by_kind (Number.integer i') s' inside' = emits-Done (Event.integer i') s' inside'
      by_kind (Number.real d) s' inside' = emits-Done (Event.real d) s' inside'

  -- a scalar leaves the loop in the container that it is in
  abbrev Scalar : ℕ → Item → State G → Type 0
  Scalar type item s = item ≡ value type

  -- a literal
  literal-Finishes :
      (p : Mis → Outcome (Unit {0})) (e : Event (lib.Real)) (type : ℕ) (s : State G)
      → Fine I s
      → Stays 1 Any s.mis (p s.mis)
      → Finishes I 1
          (Scalar type)
          s.mis
          ((on_input p >> (emit lib send opts e >> (λ (s' : State G). ok (value type) s'))) s)
  literal-Finishes p e type s i h =
      Finishes-bind I I (λ x s'. Any x s'.mis) (Scalar type) 1 0 1 (on_input p) _ s
        (on_input-Finishes I Any 1 p s i h) (omega arith)
        (λ u s' o i' d. emits (Scalar type) (value type) e s' i' (λ s'' same. refl))

  string-Finishes :
      (type : ℕ) (s : State G)
      → Fine I s
      → mis_peek s.mis ≢ 0
      → Finishes I 1
          (Scalar type)
          s.mis
          ((string_event lib send opts Event.string >> (λ (s' : State G). ok (value type) s')) s)
  string-Finishes type s i ne =
      Finishes-bind I I Done (Scalar type) 1 0 1 (string_event lib send opts Event.string) _ s
        (Finishes-bind I I (λ x s'. Any x s'.mis) Done 1 0 1
          (on_input (parse_string opts.validate_utf8)) _ s
          (on_input-Finishes I Any 1 (parse_string opts.validate_utf8) s i
            (parse_string-Stays opts.validate_utf8 s.mis i.0 ne))
          (omega arith) (λ count s' o i' d. emits-Done _ s' i'))
        (omega arith) (λ u s' o i' d. (Onward-none s'.mis i'.0, i', refl))

  number-Finishes :
      (type : ℕ) (s : State G)
      → Fine I s
      → Finishes I 1
          (Scalar type)
          s.mis
          ((parse_number_event lib send opts >> (λ (s' : State G). ok (value type) s')) s)
  number-Finishes type s i =
      Finishes-bind I I Done (Scalar type) 1 0 1 (parse_number_event lib send opts) _ s
        (parse_number_event-Finishes s i) (omega arith)
        (λ u s' o i' d. (Onward-none s'.mis i'.0, i', refl))

-- The generator keeps `K`, and the type that the loop has is that of the stack's top.
abbrev pub In : {G : Type 0} → (G → Type 0) → ℕ → Stack → G → Type 0
In K type stack g = Tracks type stack × K g

-- `K` only, whatever the stack.
abbrev pub Somewhere : {G : Type 0} → (G → Type 0) → Stack → G → Type 0
Somewhere K stack g = K g

abbrev pub Takes : {G R : Type 0} → (G → Type 0) → (Event R → G → Option (Bool × G)) → Type 0
Takes {G} {R} K send =
    (e : Event R) (g : G) → K g → (flag : Bool) × (g' : G) × (send e g ≡ some (flag, g')) × K g'

module _ {G : Type 0} (K : G → Type 0) (lib : FloatLib) (strtod : Strtod lib)
    (send : Event (lib.Real) → G → Option (Bool × G)) (takes : Takes K send) (opts : Options) where
  pub answers : (type : ℕ) → Answers (In K type) send
  answers type e stack g k =
      let (flag, g', sent, kept) = takes e g k.1 in (flag, g', sent, (k.0, kept))

  -- a type that is found, with the stack that has it on top
  abbrev pub Outer : ℕ → State G → Type 0
  Outer outer s = Tracks outer s.stack

  pub inside : (type : ℕ) (s : State G) → Fine (Somewhere K) s → Outer type s → Fine (In K type) s
  inside type s i t = (i.0, (t, i.1))

  pub close_container-Finishes :
      (type : ℕ) (s : State G)
      → type < 2
      → Fine (In K type) s
      → mis_peek s.mis ≢ 0
      → Finishes (Somewhere K) 1 Outer s.mis (close_container lib send opts type s)
  unfolding close_container
  close_container-Finishes type s low i ne =
      Finishes-bind (Somewhere K) (Somewhere K) Outer Outer 1 0 1 (parse_end type) _ s
        (parse_end-Finishes (In K type) (Somewhere K) Outer type s i ne
          (Tracks-top type s.stack i.1.0 low)
          (λ outer popped. (i.1.1, Tracks-pop type outer s.stack i.1.0 low popped)))
        (omega arith)
        (λ outer s' o i' t.
          Finishes-weaken (In K outer) (Somewhere K) (λ x s''. x ≡ outer) Outer 0 s'.mis _
            (λ x s'' i'' e. (i''.1.1, rw e (i''.1.0)))
            (emits (In K outer) lib strtod send (answers outer) opts (λ x s''. x ≡ outer) outer
              (end_event lib send opts type) s' (inside outer s' i' t) (λ s'' same. refl)))

  -- The container that an item leaves the loop in, and the byte ahead where it has opened one.
  abbrev pub Opens : Item → State G → Type 0
  Opens (value type) s = Tracks type s.stack
  Opens (opened inner d) s = Tracks inner s.stack × Seen d s.mis

  close_byte-nonzero : (type c : ℕ) → (c == close_byte lib send opts type) ≡ true → c ≢ 0
  close_byte-nonzero type c e z = ground (arith, e, z)

  in_container :
      (type c : ℕ) (s : State G)
      → type < 2
      → Fine (In K type) s
      → Seen c s.mis
      → Finishes (Somewhere K) 0 Opens s.mis (
          let closed =
            (close_container lib send opts type >>= λ (outer : ℕ) (s' : State G).
            ok (value outer) s') in
          let opens = (white lib send opts >>= λ (d : ℕ) (s' : State G). ok (opened type d) s') in
          if c == close_byte lib send opts type then closed s else opens s)
  in_container type c s low i seen =
      Finishes-if (Somewhere K) Opens 0 s.mis (c == close_byte lib send opts type) _ _
        (λ e.
          Finishes-bind (Somewhere K) (Somewhere K) Outer Opens 1 0 0
            (close_container lib send opts type) _ s
            (close_container-Finishes type s low i
              (Seen-nonzero c s.mis seen (close_byte-nonzero type c e)))
            (omega arith) (λ outer s' o i' t. (Onward-none s'.mis i'.0, i', t)))
        (λ e.
          Finishes-bind (In K type) (Somewhere K) Ahead Opens 0 0 0 (white lib send opts) _ s
            (white-Finishes (In K type) opts.comments s i) (omega arith)
            (λ d s' o i' seen'. (Onward-none s'.mis i'.0, (i'.0, i'.1.1), (i'.1.0, seen'))))

  open_container-Finishes :
      (outer type : ℕ) (s : State G)
      → type < 2
      → Fine (In K outer) s
      → mis_peek s.mis ≢ 0
      → Finishes (Somewhere K) 1 Opens s.mis (open_container lib send opts type s)
  unfolding open_container
  open_container-Finishes outer type s low i ne =
      Finishes-bind (In K type) (Somewhere K) (λ x s'. x ≡ type) Opens 1 0 1 (parse_start type) _ s
        (parse_start-Finishes (In K outer) (In K type) type s i ne
          (λ pushed. (Tracks-push outer type s.stack i.1.0 low pushed, i.1.1)))
        (omega arith)
        (λ inner s₁ o₁ i₁ same_type.
          Finishes-bind (In K type) (Somewhere K) (λ u s'. s'.mis ≡ s₁.mis) Opens 0 0 0
            (emit lib send opts (start_event lib send opts type)) _ s₁
            (emit-Finishes (In K type) lib send opts _ s₁ (answers type) i₁) (omega arith)
            (λ u s₂ o₂ i₂ same.
              Finishes-bind (In K type) (Somewhere K) Ahead Opens 0 0 0 (white lib send opts) _ s₂
                (white-Finishes (In K type) opts.comments s₂ i₂) (omega arith)
                (λ b s₃ o₃ i₃ seen₃.
                  Finishes-bind (In K type) (Somewhere K) Ahead Opens 0 0 0
                    (leading_comma lib send opts type b) _ s₃
                    (leading_comma-Finishes (In K type) lib strtod send (answers type) opts type b
                      s₃ i₃ seen₃)
                    (omega arith)
                    (λ c s₄ o₄ i₄ seen₄. rw same_type (in_container type c s₄ low i₄ seen₄)))))

  -- a scalar, where the loop is in a container of the type
  scalar_in :
      (type : ℕ) (s : State G) (r : Run G Item)
      → Finishes (In K type) 1 (λ item s'. item ≡ value type) s.mis r
      → Finishes (Somewhere K) 1 Opens s.mis r
  scalar_in type s r f =
      Finishes-weaken (In K type) (Somewhere K) (λ item s'. item ≡ value type) Opens 1 s.mis r
        (λ item s' i' e. (i'.1.1, rw e (i'.1.0))) f

  -- Where a value is expected, whatever byte is ahead.
  pub parse_value-Finishes :
      (type b : ℕ) (s : State G)
      → Fine (In K type) s
      → Seen b s.mis
      → Finishes (Somewhere K) 1 Opens s.mis (parse_value lib send opts type b s)
  unfolding parse_value
  parse_value-Finishes type b s i seen =
      let ahead : (c : ℕ) → (b == c) ≡ true → 0 < c → mis_peek s.mis ≢ 0 =
        λ c e pos. Seen-nonzero b s.mis seen (λ z. ground (arith, e, z, pos)) in
      Finishes-if (Somewhere K) Opens 1 s.mis (b == b'[') _ _
        (λ e.
          open_container-Finishes type stack_array s (omega arith) i (ahead b'[' e (omega arith)))
        (λ n₁.
          Finishes-if (Somewhere K) Opens 1 s.mis (b == b'{') _ _
            (λ e.
              open_container-Finishes type stack_object s (omega arith) i
                (ahead b'{' e (omega arith)))
            (λ n₂.
              Finishes-if (Somewhere K) Opens 1 s.mis (b == b'"') _ _
                (λ e. scalar_in type s _ (
                  string-Finishes (In K type) lib strtod send (answers type) opts type s i
                    (ahead b'"' e (omega arith))))
                (λ n₃.
                  Finishes-if (Somewhere K) Opens 1 s.mis (b == b't') _ _
                    (λ e. scalar_in type s _ (
                      literal-Finishes (In K type) lib strtod send (answers type) opts parse_true
                        (Event.boolean true) type s i
                        (parse_true-Stays s.mis i.0 (ahead b't' e (omega arith)))))
                    (λ n₄.
                      Finishes-if (Somewhere K) Opens 1 s.mis (b == b'f') _ _
                        (λ e. scalar_in type s _ (
                          literal-Finishes (In K type) lib strtod send (answers type) opts
                            parse_false (Event.boolean false) type s i
                            (parse_false-Stays s.mis i.0 (ahead b'f' e (omega arith)))))
                        (λ n₅.
                          Finishes-if (Somewhere K) Opens 1 s.mis (b == b'n') _ _
                            (λ e. scalar_in type s _ (
                              literal-Finishes (In K type) lib strtod send (answers type) opts
                                parse_null Event.null type s i
                                (parse_null-Stays s.mis i.0 (ahead b'n' e (omega arith)))))
                            (λ n₆.
                              Finishes-if (Somewhere K) Opens 1 s.mis
                                (b == b'-' || between b'0' b'9' b) _ _
                                (λ e. scalar_in type s _ (
                                  number-Finishes (In K type) lib strtod send (answers type) opts
                                    type s i))
                                (λ n₇. tt)))))))
