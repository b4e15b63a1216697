-- ===== src/Pull/Calls.antt =====
-- src/parsenext.c: the calls of jsnpg_parse_next that read one value, and what they leave.
use jsnpg.Base.{
  ℕ, ◌+◌, ◌≤◌, List, [], ◌∷◌, ◌++◌, true, ◌≡◌, refl, ◌∙◌, ap, length, ◌==◌, if◌then◌else◌,
}
use jsnpg.Base.Memory.{Holds, Holds-left, Holds-right}
use jsnpg.Types.{Event, JsonType, Payload}
use jsnpg.Floats.{FloatLib}
use jsnpg.Stack.{Stack, stack_object, stack_array, stack_pop}
use jsnpg.Stack.Refine.{stack_peek-Refines}
use jsnpg.Input.{Mis, mis_take}
use jsnpg.Json.Grammar.{Blank}
use jsnpg.Dom.{type_of}
use jsnpg.Parser.Escape.Reads.{forward}
use jsnpg.Parser.White.Blank.{Solid}
use jsnpg.Parser.Moved.{Moved, Moved-forward, Moved-take, Moved-then}
use jsnpg.Sax.{Options, State}
use jsnpg.Sax.Runs.{top, Ready, Ready-pop, Ready-top}
use jsnpg.Pull.{
  DomPosition, ParseState, state_done, state_key_value, state_array_value, Progress, accept_in,
  accept_end, make_parse_result, state_change_end, dispatch, parse_next, PullParser,
  jsnpg_parse_result,
}
use jsnpg.Pull.Yields.{Carries, Yields, yields, jsnpg_parse_next-ok}
use jsnpg.Pull.Steps.{at, parse_next-Blank, accept_end-ok}

-- where the parser is up to behind a value, by the containers that are open
abbrev pub behind : List ℕ → ParseState
behind [] = state_done
behind (t ∷ nest) =
    if t == stack_object
    then state_key_value
    else if t == stack_array
    then state_array_value
    else state_done

pub state_change_end-behind :
    (limit : ℕ) (stack : Stack) (nest : List ℕ)
    → Ready limit stack nest
    → state_change_end stack ≡ behind nest
unfolding state_change_end
state_change_end-behind limit stack [] r =
    rw (stack_peek-Refines stack [] r.refines, state_change_end) refl
state_change_end-behind limit stack (t ∷ nest) r =
    rw (stack_peek-Refines stack (t ∷ nest) r.refines, state_change_end) refl

module _ (lib : FloatLib) (opts : Options) (limit : ℕ) (dom : DomPosition (lib.Real)) where
  abbrev pub Parser : Type 0
  Parser = State (Progress (lib.Real))

  abbrev pub on_text : State (Progress (lib.Real)) → PullParser (lib.Real)
  on_text p = record { text = p; dom = dom }

  -- the parser that accept_in leaves
  abbrev pub accepted :
      ParseState
      → JsonType
      → Payload (lib.Real)
      → State (Progress (lib.Real))
      → State (Progress (lib.Real))
  accepted state t v p = record p {
    gen = record { state = state; result = make_parse_result p.mis t v };
  }

  -- From the parser `p`, whose next call finds the stream at `m`, the calls that give the events in
  -- front of `rest`. They read `n` bytes from `m` on, and leave the parser behind a value.
  pub record Pulls (p : State (Progress (lib.Real))) (m : Mis) (n : ℕ) (nest : List ℕ)
      (es : List (Event (lib.Real)) → List (Event (lib.Real))) : Type 0 where
    pub after : State (Progress (lib.Real))
    pub moved : Moved m after.mis n
    pub ready : Ready limit after.stack nest
    pub state : after.gen.state ≡ behind nest
    pub shown :
        (rest : List (Event (lib.Real))) (goal : PullParser (lib.Real))
        → Yields lib opts rest (on_text after) goal
        → Yields lib opts (es rest) (on_text p) goal

  -- One call, which accepts an item.
  pub one_call :
      (e : Event (lib.Real)) (es : List (Event (lib.Real))) (p q : State (Progress (lib.Real)))
      (state : ParseState) (v : Payload (lib.Real)) (goal : PullParser (lib.Real))
      → p.mis.start ≡ true
      → parse_next lib opts p ≡ accept_in state (type_of e) v q
      → Carries q.mis e v
      → Yields lib opts es (on_text (accepted state (type_of e) v q)) goal
      → Yields lib opts (e ∷ es) (on_text p) goal
  unfolding accept_in jsnpg_parse_result make_parse_result
  one_call e es p q state v goal started run carries more =
      yields (jsnpg_parse_next-ok lib opts p _ dom (type_of e) started run)
        (record { type = refl; position = refl; payload = carries }) more

  -- a call, and the calls behind it
  pub call-Pulls :
      (e : Event (lib.Real)) (es : List (Event (lib.Real)) → List (Event (lib.Real)))
      (p q : State (Progress (lib.Real))) (m m' : Mis) (state : ParseState) (v : Payload (lib.Real))
      (gap n total : ℕ) (nest : List ℕ)
      → p.mis.start ≡ true
      → parse_next lib opts p ≡ accept_in state (type_of e) v q
      → Carries q.mis e v
      → Moved m m' gap
      → Pulls (accepted state (type_of e) v q) m' n nest es
      → gap + n ≡ total
      → Pulls p m total nest (λ rest. e ∷ es rest)
  call-Pulls e es p q m m' state v gap n total nest started run carries moved k sum = record {
    after = k.after;
    moved = Moved-then m m' k.after.mis gap n total moved k.moved sum;
    ready = k.ready;
    state = k.state;
    shown = λ rest goal more.
        one_call e (es rest) p q state v goal started run carries (k.shown rest goal more);
  }

  -- a call that reads a value whole
  pub leaf-Pulls :
      (e : Event (lib.Real)) (p q : State (Progress (lib.Real))) (m : Mis) (v : Payload (lib.Real))
      (n : ℕ) (nest : List ℕ)
      → p.mis.start ≡ true
      → parse_next lib opts p ≡ accept_in (behind nest) (type_of e) v q
      → Carries q.mis e v
      → Moved m q.mis n
      → Ready limit q.stack nest
      → Pulls p m n nest (λ rest. e ∷ rest)
  leaf-Pulls e p q m v n nest started run carries moved ready = record {
    after = accepted (behind nest) (type_of e) v q;
    moved = moved;
    ready = ready;
    state = refl;
    shown = λ rest goal more. one_call e rest p q (behind nest) v goal started run carries more;
  }

  -- calls behind calls
  pub Pulls-then :
      (p : State (Progress (lib.Real))) (m m' : Mis) (n gap n' total : ℕ) (nest nest' : List ℕ)
      (es es' : List (Event (lib.Real)) → List (Event (lib.Real))) (q : Pulls p m n nest es)
      → Moved q.after.mis m' gap
      → Pulls q.after m' n' nest' es'
      → n + gap + n' ≡ total
      → Pulls p m total nest' (λ rest. es (es' rest))
  Pulls-then p m m' n gap n' total nest nest' es es' q moved k sum = record {
    after = k.after;
    moved =
        Moved-then m m' k.after.mis (n + gap) n' total
          (Moved-then m q.after.mis m' n gap (n + gap) q.moved moved refl) k.moved sum;
    ready = k.ready;
    state = k.state;
    shown = λ rest goal more. q.shown (es' rest) goal (k.shown rest goal more);
  }

  -- The call that reads a closing bracket.
  pub end-Pulls :
      (e : Event (lib.Real)) (p : State (Progress (lib.Real))) (b : List ℕ) (c t : ℕ)
      (nest : List ℕ)
      → p.mis.start ≡ true
      → Ready limit p.stack (t ∷ nest)
      → Blank b
      → Holds p.mis.bytes p.mis.read (b ++ c ∷ [])
      → Solid c
      → p.mis.read + length b ≤ p.mis.count
      → ((q : State (Progress (lib.Real)))
          → dispatch lib opts p.gen.state c q ≡ accept_end t (type_of e) q)
      → ((m : Mis) → Carries m e Payload.no_payload)
      → Pulls p p.mis (length b + 1) nest (λ rest. e ∷ rest)
  end-Pulls e p b c t nest started r blank h solid room ends carries =
      let (popped, ready) = Ready-pop limit t p.stack nest r in
      let m = forward p.mis (length b) in
      let q : State (Progress (lib.Real)) = record {
        mis = mis_take m;
        stack = (stack_pop p.stack).1;
        gen = p.gen;
      } in
      let run : parse_next lib opts p ≡ accept_in (behind nest) (type_of e) Payload.no_payload q =
        parse_next-Blank lib opts p b c blank (Holds-left p.mis.bytes p.mis.read b _ h)
          (Holds-right p.mis.bytes p.mis.read b _ h).0 solid room
        ∙ ends (at lib opts p m)
        ∙ accept_end-ok lib opts (at lib opts p m) t (type_of e) (top nest)
            (Ready-top limit t p.stack nest r) popped
        ∙ ap (λ s. accept_in s (type_of e) Payload.no_payload q)
            (state_change_end-behind limit (stack_pop p.stack).1 nest ready) in
      leaf-Pulls e p q p.mis Payload.no_payload (length b + 1) nest started run
        (carries (mis_take m))
        (Moved-then p.mis m (mis_take m) (length b) 1 (length b + 1)
          (Moved-forward p.mis (length b)) (Moved-take m) refl)
        ready
