-- ===== src/Pull/Bounds/Calls.antt =====
-- src/parsenext.c: a call of parse_next, and the calls up to the end of the text.
use jsnpg.Base.{ℕ, ◌≤◌, ◌<◌, false, ◌≡◌, ◌⊎◌, inl, inr, refl, arith, if◌then◌else◌}
use jsnpg.Types.{JsonType, type_eof, Payload, error_unexpected}
use jsnpg.Floats.{FloatLib}
use jsnpg.Input.{mis_eof}
use jsnpg.Outcome.{Outcome}
use jsnpg.Parser.White.{consume_whitespace}
use jsnpg.Parser.Bounds.{Onward-none, Inside-Onward, Stays, Seen}
use jsnpg.Parser.Bounds.White.{consume_whitespace-Stays}
use jsnpg.Parser.Bounds.Numbers.{Strtod}
use jsnpg.Sax.{Options, State, Run, ok, thrown, aborted, no_fuel, ◌>>=◌, throw, on_input}
use jsnpg.Sax.Bounds.{
  Ahead, white-Finishes, Finishes, Fine, Done, Finishes-later, Finishes-bind, Finishes-if,
}
use jsnpg.Pull.{
  ParseState, state_start, state_object, state_key, state_key_value, state_object_comma,
  state_array, state_array_value, state_array_comma, state_done, state_eof, Progress,
  state_change_value, accept_in, expect_value, after_text, dispatch, parse_next,
}
use jsnpg.Pull.Bounds.{Stored, Suits, Suits-Tracks, Kept, expect_value-Pulls}
use jsnpg.Pull.Bounds.Steps.{
  in_object-Pulls, in_array-Pulls, after_member-Pulls, after_element-Pulls,
}

-- The call has read a byte, or it has found the end of the text.
abbrev pub Moves : {R : Type 0} → ℕ → JsonType → State (Progress R) → Type 0
Moves r t q = (t ≡ type_eof) ⊎ (r < q.mis.read)

module _ (lib : FloatLib) (strtod : Strtod lib) (opts : Options)
    (single : opts.multiple_values ≡ false) where
  moves :
      (r : ℕ) (p : State (Progress (lib.Real))) (run : Run (Progress (lib.Real)) JsonType)
      → r ≤ p.mis.read
      → Finishes Kept 1 Done p.mis run
      → Finishes Kept 0 (Moves r) p.mis run
  moves r p (ok t q) le (o, i, d) = (
    record {
      forth = omega (arith, o.forth);
      within = o.within;
      ahead = o.ahead;
      count = o.count;
      start = o.start;
    },
    i,
    inr (omega (arith, o.forth, le)),
  )
  moves r p (thrown code at q) le f = tt
  moves r p aborted le f = absurd f
  moves r p no_fuel le f = absurd f

  ends :
      (r : ℕ) (p : State (Progress (lib.Real)))
      → Fine Kept p
      → Finishes Kept 0 (Moves r) p.mis (accept_in state_eof type_eof Payload.no_payload p)
  unfolding accept_in
  ends r p i =
      (Onward-none p.mis i.0, (i.0, (tt, Suits-Tracks p.gen.state p.stack i.1.1)), inl refl)

  after_text-Moves :
      (r b : ℕ) (p : State (Progress (lib.Real)))
      → Fine Kept p
      → Finishes Kept 0 (Moves r) p.mis (after_text lib opts b p)
  unfolding after_text
  after_text-Moves r b p i =
      Finishes-bind Kept Kept Ahead (Moves r) 0 0 0 (on_input (consume_whitespace opts.comments)) _
        p (white-Finishes Kept opts.comments p i) (omega arith) (λ c q o iq seen. at_end q iq)
    where
      at_end :
          (q : State (Progress (lib.Real)))
          → Fine Kept q
          → Finishes Kept 0 (Moves r) q.mis (
              let ended = accept_in state_eof type_eof Payload.no_payload q in
              if mis_eof q.mis
              then ended
              else if opts.multiple_values
              then expect_value lib opts b q
              else if opts.trailing_chars
              then ended
              else throw error_unexpected q)
      at_end q iq =
          Finishes-if Kept (Moves r) 0 q.mis (mis_eof q.mis) _ _ (λ e. ends r q iq)
            (λ e. rw single (
              Finishes-if Kept (Moves r) 0 q.mis opts.trailing_chars _ _ (λ t. ends r q iq)
                (λ t. tt)))

  -- Each state that a parser is left in, whatever byte is ahead.
  dispatch-Moves :
      (state : ParseState) (r b : ℕ) (p : State (Progress (lib.Real)))
      → p.gen.state ≡ state
      → Stored state
      → Suits state p.stack
      → Fine Kept p
      → Seen b p.mis
      → r ≤ p.mis.read
      → Finishes Kept 0 (Moves r) p.mis (dispatch lib opts state b p)
  unfolding dispatch state_change_value
  dispatch-Moves state_object_comma r b p same stored suits i seen le = absurd stored
  dispatch-Moves state_array_comma r b p same stored suits i seen le = absurd stored
  dispatch-Moves state_eof r b p same stored suits i seen le = tt
  dispatch-Moves state_done r b p same stored suits i seen le = after_text-Moves r b p i
  dispatch-Moves state_object r b p same stored suits i seen le =
      moves r p _ le (in_object-Pulls lib strtod opts b p i seen suits)
  dispatch-Moves state_key_value r b p same stored suits i seen le =
      moves r p _ le (after_member-Pulls lib strtod opts b p i seen suits)
  dispatch-Moves state_array r b p same stored suits i seen le = moves r p _ le (
      in_array-Pulls lib strtod opts b p i seen suits
        (rw same (state_array_value, refl, tt, suits)))
  dispatch-Moves state_array_value r b p same stored suits i seen le = moves r p _ le (
      after_element-Pulls lib strtod opts b p i seen suits
        (rw same (state_array_value, refl, tt, suits)))
  dispatch-Moves state_start r b p same stored suits i seen le =
      moves r p _ le
        (expect_value-Pulls lib strtod opts b p i seen (rw same (state_done, refl, tt, suits)))
  dispatch-Moves state_key r b p same stored suits i seen le =
      moves r p _ le
        (expect_value-Pulls lib strtod opts b p i seen (rw same (state_key_value, refl, tt, suits)))

  -- A call of parse_next on any bytes ends inside the text: it has read a byte, found the end, or
  -- throws.
  pub parse_next-Moves :
      (p : State (Progress (lib.Real)))
      → Fine Kept p
      → Finishes Kept 0 (Moves p.mis.read) p.mis (parse_next lib opts p)
  unfolding parse_next
  parse_next-Moves p i =
      by_cases (consume_whitespace opts.comments p.mis)
        (consume_whitespace-Stays opts.comments p.mis i.0)
    where
      by_cases :
          (o : Outcome ℕ)
          → Stays 0 Seen p.mis o
          → Finishes Kept 0
              (Moves p.mis.read)
              p.mis
              ((on_input (λ _. o) >>= dispatch lib opts p.gen.state) p)
      by_cases (Outcome.ok c m) (o, seen) =
          let q = record p { mis = m } in
          Finishes-later Kept (Moves p.mis.read) 0 0 0 p.mis m (dispatch lib opts p.gen.state c q) o
            (omega arith)
            (dispatch-Moves p.gen.state p.mis.read c q refl i.1.0 i.1.1
              (Inside-Onward 0 p.mis m i.0 o, i.1) seen (omega (arith, o.forth)))
      by_cases (Outcome.thrown code at m) h' = tt
      by_cases Outcome.no_fuel h' = absurd h'
