-- ===== src/Pull/Bounds.antt =====
-- src/parsenext.c: a call of parse_next stays inside the text, whatever bytes that holds, reads at
-- least one byte or ends, and fails no assertion.
pub mod Steps
pub mod Calls
use jsnpg.Base.{
  ℕ, suc, ◌+◌, ◌≤◌, ◌<◌, Bool, Bool-cases, true, false, ◌||◌, between, Option, Option-cases, none,
  some, ◌≡◌, ◌≢◌, ◌⊎◌, inl, inr, refl, ◌∙◌, ap, subst, arith, ◌==◌, if◌then◌else◌,
}
use jsnpg.Types.{
  JsonType, type_null, type_false, type_true, type_integer, type_real, type_string, type_key,
  type_start_array, type_end_array, type_start_object, type_end_object, type_eof, Payload,
  error_expected_key, error_unexpected,
}
use jsnpg.Floats.{FloatLib}
use jsnpg.Stack.{Stack, stack_object, stack_array, stack_peek}
use jsnpg.Input.{Mis, mis_peek, mis_eof}
use jsnpg.Outcome.{Outcome}
use jsnpg.Parser.White.{consume_whitespace}
use jsnpg.Parser.Literal.{parse_true, parse_false, parse_null}
use jsnpg.Parser.Strings.{parse_string}
use jsnpg.Parser.Number.{Number, parse_number}
use jsnpg.Parser.Bounds.{Onward, Onward-none, Inside-Onward, Stays, Any, Seen}
use jsnpg.Parser.Bounds.White.{consume_whitespace-Stays}
use jsnpg.Parser.Bounds.Literals.{parse_true-Stays, parse_false-Stays, parse_null-Stays}
use jsnpg.Parser.Bounds.Numbers.{Strtod, parse_number-Stays}
use jsnpg.Parser.Bounds.Strings.{parse_string-Stays}
use jsnpg.Sax.{
  Options, State, Run, ok, thrown, aborted, no_fuel, ◌>>=◌, ◌>>◌, throw, pure, on_input, take_byte,
  parse_start, parse_end,
}
use jsnpg.Sax.Bounds.{
  Seen-nonzero, Finishes, Fine, Done, Finishes-later, Finishes-weaken, Finishes-bind, Finishes-if,
  take_byte-Finishes, parse_start-Finishes, parse_end-Finishes,
}
use jsnpg.Parser.White.Ends.{Inside}
use jsnpg.Sax.Bounds.Tracks.{Tracks, Tracks-top, Tracks-push, Tracks-pop, Tracks-peek}
use jsnpg.Pull.{
  ParseState, state_start, state_object, state_key, state_key_value, state_object_comma,
  state_array, state_array_value, state_array_comma, state_done, state_eof, Progress,
  state_change_value, state_change_end, accept_in, accept_value, accept_end, accept_start,
  expect_value, expect_key, in_object, in_array, after_member, after_element, after_text, dispatch,
  parse_next,
}

-- A state that a parser is left in; the other two are within a call only.
abbrev pub Stored : ParseState → Type 0
Stored state_object_comma = ⊥
Stored state_array_comma = ⊥
Stored _ = Unit

-- The container that a state is within is the innermost one.
abbrev pub Suits : ParseState → Stack → Type 0
Suits state_object stack = Tracks stack_object stack
Suits state_key stack = Tracks stack_object stack
Suits state_key_value stack = Tracks stack_object stack
Suits state_object_comma stack = Tracks stack_object stack
Suits state_array stack = Tracks stack_array stack
Suits state_array_value stack = Tracks stack_array stack
Suits state_array_comma stack = Tracks stack_array stack
Suits _ stack = (type : ℕ) × Tracks type stack

pub Suits-Tracks : (s : ParseState) (stack : Stack) → Suits s stack → (type : ℕ) × Tracks type stack
Suits-Tracks state_start stack t = t
Suits-Tracks state_object stack t = (stack_object, t)
Suits-Tracks state_key stack t = (stack_object, t)
Suits-Tracks state_key_value stack t = (stack_object, t)
Suits-Tracks state_object_comma stack t = (stack_object, t)
Suits-Tracks state_array stack t = (stack_array, t)
Suits-Tracks state_array_value stack t = (stack_array, t)
Suits-Tracks state_array_comma stack t = (stack_array, t)
Suits-Tracks state_done stack t = t
Suits-Tracks state_eof stack t = t

abbrev pub Kept : {R : Type 0} → Stack → Progress R → Type 0
Kept stack g = Stored g.state × Suits g.state stack

-- A state in which a value changes it.
abbrev pub Valued : ParseState → Stack → Type 0
Valued s stack =
    (next : ParseState) × (state_change_value s ≡ some next) × Stored next × Suits next stack

state_change_end-Stored :
    (t : ℕ) (s : Stack) → Tracks t s → Stored (state_change_end s) × Suits (state_change_end s) s
unfolding state_change_end
state_change_end-Stored t s tracks = elim (Option-cases (stack_peek s)) [
  | inl e ↦ rw (e, state_change_end) (tt, (t, tracks))
  | inr (type, e) ↦
      let here : Tracks type s = rw (← Tracks-peek t type s tracks e) tracks in
      rw (e, state_change_end)
        (elim (Bool-cases (type == stack_object)) [
          | inl o ↦
              let same : type ≡ stack_object = ground (arith, o) in rw o (tt, rw (← same) here)
          | inr n ↦ rw n (elim (Bool-cases (type == stack_array)) [
            | inl a ↦
                let same : type ≡ stack_array = ground (arith, a) in rw a (tt, rw (← same) here)
            | inr n' ↦ rw n' (tt, (t, tracks))
          ])
        ])
]

module _ (lib : FloatLib) (strtod : Strtod lib) (opts : Options) where
  abbrev pub Parser : Type 0
  Parser = State (Progress (lib.Real))

  abbrev pub Safe : State (Progress (lib.Real)) → Type 0
  Safe p = Fine Kept p

  abbrev pub Pulls :
      {A : Type 0}
      → ℕ
      → (A → State (Progress (lib.Real)) → Type 0)
      → Mis
      → Run (Progress (lib.Real)) A
      → Type 0
  Pulls = Finishes Kept

  pub accept_in-Pulls :
      (state : ParseState) (type : JsonType) (v : Payload (lib.Real)) (p : Parser)
      → Inside p.mis
      → Stored state
      → Suits state p.stack
      → Pulls 0 Done p.mis (accept_in state type v p)
  unfolding accept_in
  accept_in-Pulls state type v p i stored suits = (Onward-none p.mis i, (i, (stored, suits)), tt)

  accept_value-Pulls :
      (type : JsonType) (v : Payload (lib.Real)) (p : Parser)
      → Safe p
      → Valued p.gen.state p.stack
      → Pulls 0 Done p.mis (accept_value type v p)
  unfolding accept_value
  accept_value-Pulls type v p i (next, e, stored, suits) =
      rw (e, accept_value) (accept_in-Pulls next type v p i.0 stored suits)

  -- a function of the input, behind which the parser's state is as it was
  pub reads :
      {A : Type 0} (Q : A → Mis → Type 0) (low : ℕ) (f : Mis → Outcome A)
      (k : A → State (Progress (lib.Real)) → Run (Progress (lib.Real)) JsonType) (p : Parser)
      → Safe p
      → Stays low Q p.mis (f p.mis)
      → ((x : A) (q : Parser)
          → Safe q
          → q.gen ≡ p.gen
          → q.stack ≡ p.stack
          → Q x q.mis
          → Pulls 0 Done q.mis (k x q))
      → Pulls low Done p.mis ((on_input f >>= k) p)
  reads {A} Q low f k p i h go = by_cases (f p.mis) h
    where
      by_cases :
          (o : Outcome A) → Stays low Q p.mis o → Pulls low Done p.mis ((on_input (λ _. o) >>= k) p)
      by_cases (Outcome.ok x m) (o, q) =
          let s = record p { mis = m } in
          Finishes-later Kept Done low 0 low p.mis m (k x s) o (omega arith)
            (go x s (Inside-Onward low p.mis m i.0 o, i.1) refl refl q)
      by_cases (Outcome.thrown code at m) h' = tt
      by_cases Outcome.no_fuel h' = absurd h'

  pub white-Pulls :
      (k : ℕ → State (Progress (lib.Real)) → Run (Progress (lib.Real)) JsonType) (p : Parser)
      → Safe p
      → ((c : ℕ) (q : Parser)
          → Safe q
          → q.gen ≡ p.gen
          → q.stack ≡ p.stack
          → Seen c q.mis
          → Pulls 0 Done q.mis (k c q))
      → Pulls 0 Done p.mis ((on_input (consume_whitespace opts.comments) >>= k) p)
  white-Pulls k p i go =
      reads Seen 0 (consume_whitespace opts.comments) k p i
        (consume_whitespace-Stays opts.comments p.mis i.0) go

  -- a scalar that gives the type and the payload
  scalar-Pulls :
      {A : Type 0} (f : Mis → Outcome A) (type : A → JsonType) (v : A → Mis → Payload (lib.Real))
      (p : Parser)
      → Safe p
      → Stays 1 Any p.mis (f p.mis)
      → Valued p.gen.state p.stack
      → Pulls 1 Done p.mis (
          (on_input f >>= λ (x : A) (q : State (Progress (lib.Real))).
          accept_value (type x) (v x q.mis) q)
            p)
  scalar-Pulls {A} f type v p i h valued =
      reads Any 1 f (λ x q. accept_value (type x) (v x q.mis) q) p i h
        (λ x q i' same same_stack d.
          accept_value-Pulls (type x) (v x q.mis) q i' (rw (same, same_stack) valued))

  -- the innermost container, whatever the state
  abbrev Within : ℕ → Stack → Progress (lib.Real) → Type 0
  Within container stack g = Tracks container stack

  abbrev Anywhere : Stack → Progress (lib.Real) → Type 0
  Anywhere stack g = Unit

  accept_start-Pulls :
      (container : ℕ) (state : ParseState) (type : JsonType) (p : Parser)
      → Safe p
      → container < 2
      → Stored state
      → ((stack : Stack) → Tracks container stack → Suits state stack)
      → mis_peek p.mis ≢ 0
      → Pulls 1 Done p.mis (accept_start container state type p)
  unfolding accept_start
  accept_start-Pulls container state type p i low stored suits ne =
      let (outer, tracks) = Suits-Tracks p.gen.state p.stack i.1.1 in
      Finishes-bind (Within container) Kept (λ t q. t ≡ container) Done 1 0 1
        (parse_start container) _ p
        (parse_start-Finishes Kept (Within container) container p i ne
          (λ pushed. Tracks-push outer container p.stack tracks low pushed))
        (omega arith)
        (λ t q o i' d.
          accept_in-Pulls state type Payload.no_payload q i'.0 stored (suits q.stack i'.1))

  pub accept_end-Pulls :
      (container : ℕ) (type : JsonType) (p : Parser)
      → Safe p
      → container < 2
      → Tracks container p.stack
      → mis_peek p.mis ≢ 0
      → Pulls 1 Done p.mis (accept_end container type p)
  unfolding accept_end
  accept_end-Pulls container type p i low tracks ne =
      Finishes-bind Anywhere Kept (λ outer q. Tracks outer q.stack) Done 1 0 1 (parse_end container)
        _ p
        (parse_end-Finishes Kept Anywhere (λ outer q. Tracks outer q.stack) container p i ne
          (Tracks-top container p.stack tracks low)
          (λ outer popped. (tt, Tracks-pop container outer p.stack tracks low popped)))
        (omega arith)
        (λ outer q o i' found.
          let (stored, suits) = state_change_end-Stored outer q.stack found in
          accept_in-Pulls (state_change_end q.stack) type Payload.no_payload q i'.0 stored suits)

  number-Pulls :
      (p : Parser)
      → Safe p
      → Valued p.gen.state p.stack
      → Pulls 1 Done p.mis (
          (on_input (parse_number lib) >>= λ (n : Number (lib.Real)). elim n [
            | Number.integer i ↦ accept_value type_integer (Payload.integer i)
            | Number.real d ↦ accept_value type_real (Payload.real d)
          ])
            p)
  number-Pulls p i valued =
      reads Any 1 (parse_number lib) _ p i (parse_number-Stays lib strtod p.mis i.0)
        (λ n q i' same same_stack d. by_kind n q i' (rw (same, same_stack) valued))
    where
      by_kind :
          (n : Number (lib.Real)) (q : Parser)
          → Safe q
          → Valued q.gen.state q.stack
          → Pulls 0 Done q.mis (
              (elim n as (λ n'. State (Progress (lib.Real)) → Run (Progress (lib.Real)) JsonType) [
                | Number.integer i' ↦ accept_value type_integer (Payload.integer i')
                | Number.real d ↦ accept_value type_real (Payload.real d)
              ])
                q)
      by_kind (Number.integer i') q iq valued' =
          accept_value-Pulls type_integer (Payload.integer i') q iq valued'
      by_kind (Number.real d) q iq valued' =
          accept_value-Pulls type_real (Payload.real d) q iq valued'

  pub expect_value-Pulls :
      (b : ℕ) (p : Parser)
      → Safe p
      → Seen b p.mis
      → Valued p.gen.state p.stack
      → Pulls 1 Done p.mis (expect_value lib opts b p)
  unfolding expect_value
  expect_value-Pulls b p i seen valued =
      let ahead : (c : ℕ) → (b == c) ≡ true → 0 < c → mis_peek p.mis ≢ 0 =
        λ c e pos. Seen-nonzero b p.mis seen (λ z. ground (arith, e, z, pos)) in
      Finishes-if Kept Done 1 p.mis (b == b'"') _ _
        (λ e.
          scalar-Pulls (parse_string opts.validate_utf8) (λ n. type_string)
            (λ n m. Payload.text m.string n) p i
            (parse_string-Stays opts.validate_utf8 p.mis i.0 (ahead b'"' e (omega arith))) valued)
        (λ n₁.
          Finishes-if Kept Done 1 p.mis (b == b'{') _ _
            (λ e.
              accept_start-Pulls stack_object state_object type_start_object p i (omega arith) tt
                (λ stack t. t) (ahead b'{' e (omega arith)))
            (λ n₂.
              Finishes-if Kept Done 1 p.mis (b == b'[') _ _
                (λ e.
                  accept_start-Pulls stack_array state_array type_start_array p i (omega arith) tt
                    (λ stack t. t) (ahead b'[' e (omega arith)))
                (λ n₃.
                  Finishes-if Kept Done 1 p.mis (b == b't') _ _
                    (λ e.
                      scalar-Pulls parse_true (λ u. type_true) (λ u m. Payload.no_payload) p i
                        (parse_true-Stays p.mis i.0 (ahead b't' e (omega arith))) valued)
                    (λ n₄.
                      Finishes-if Kept Done 1 p.mis (b == b'f') _ _
                        (λ e.
                          scalar-Pulls parse_false (λ u. type_false) (λ u m. Payload.no_payload) p i
                            (parse_false-Stays p.mis i.0 (ahead b'f' e (omega arith))) valued)
                        (λ n₅.
                          Finishes-if Kept Done 1 p.mis (b == b'n') _ _
                            (λ e.
                              scalar-Pulls parse_null (λ u. type_null) (λ u m. Payload.no_payload) p
                                i (parse_null-Stays p.mis i.0 (ahead b'n' e (omega arith))) valued)
                            (λ n₆.
                              Finishes-if Kept Done 1 p.mis (b == b'-' || between b'0' b'9' b) _ _
                                (λ e. number-Pulls p i valued) (λ n₇. tt)))))))
