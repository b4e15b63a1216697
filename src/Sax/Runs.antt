-- ===== src/Sax/Runs.antt =====
-- src/parse.c: the loop of parse_generate from one place of the text to a later one.
use jsnpg.Base.{
  ℕ, zero, suc, ◌+◌, ◌≤◌, ◌<◌, List, [], ◌∷◌, ◌++◌, Bool, true, Option, some, ◌≡◌, refl, ◌∙◌, subst,
  arith, length, ltb-eq_true, if◌then◌else◌,
}
use jsnpg.Base.Memory.{Holds, Holds-left, Holds-right}
use jsnpg.Types.{Event}
use jsnpg.Floats.{FloatLib}
use jsnpg.Generate.Sends.{Sends, sending}
use jsnpg.Stack.{Stack, stack_push, stack_pop}
use jsnpg.Stack.Refine.{
  Refines, pop_result, stack_peek-Refines, stack_pop-Refines, stack_push-Refines,
}
use jsnpg.Generate.Machine.{pop_result-tail, size-stack_pop, size-stack_push}
use jsnpg.Input.{Mis, mis_peek, mis_take}
use jsnpg.Json.Grammar.{Blank}
use jsnpg.Json.Grammar.First.{Opening}
use jsnpg.Parser.Escape.Reads.{forward}
use jsnpg.Parser.Moved.{past, past-Moved, Moved, Holds-Moved, Moved-forward, Moved-take, Moved-then}
use jsnpg.Parser.White.Blank.{Solid}
use jsnpg.Sax.{Options, State, Run, rounds, end_event, close_byte, top_type_is}
use jsnpg.Sax.Steps.{
  parse_end-ok, close_container-ok, behind_value, behind_value-close, behind_value-comma,
}
use jsnpg.Sax.Items.{white-Blank}

-- the type of the innermost container, as the loop has it
abbrev pub top : List ℕ → ℕ
top [] = 2
top (t ∷ nest) = t

pop_result-top : (t : ℕ) (nest : List ℕ) → (pop_result (t ∷ nest)).0 ≡ some (top nest)
pop_result-top t [] = refl
pop_result-top t (u ∷ nest) = refl

-- The stack spells the open containers, and has `limit` entries.
pub record Ready (limit : ℕ) (stack : Stack) (nest : List ℕ) : Type 0 where
  pub refines : Refines stack nest
  pub size : stack.size ≡ limit

pub Ready-pop :
    (limit t : ℕ) (stack : Stack) (nest : List ℕ)
    → Ready limit stack (t ∷ nest)
    → ((stack_pop stack).0 ≡ some (top nest)) × Ready limit (stack_pop stack).1 nest
Ready-pop limit t stack nest r =
    let p = stack_pop-Refines stack (t ∷ nest) r.refines in
    (
      p.0 ∙ pop_result-top t nest,
      record {
        refines = subst (Refines (stack_pop stack).1) (pop_result-tail t nest) p.1;
        size = size-stack_pop stack ∙ r.size;
      },
    )

-- The assertion of parse_end on the stack's top holds.
pub Ready-top :
    (limit t : ℕ) (stack : Stack) (nest : List ℕ)
    → Ready limit stack (t ∷ nest)
    → top_type_is stack t ≡ true
Ready-top limit t stack nest r =
    rw (stack_peek-Refines stack (t ∷ nest) r.refines, top_type_is) (ground arith)

pub Ready-push :
    (limit t : ℕ) (stack : Stack) (nest : List ℕ)
    → Ready limit stack nest
    → limit ≤ 2048
    → length nest < limit
    → t < 2
    → ((stack_push stack t).0 ≡ true) × Ready limit (stack_push stack t).1 (t ∷ nest)
Ready-push limit t stack nest r small room ht =
    let p = stack_push-Refines stack nest t r.refines ht (omega (arith, r.size)) in
    let below = ltb-eq_true (length nest) stack.size (omega (arith, r.size, room)) in
    (
      p.0 ∙ below,
      record {
        refines =
            subst (λ b. Refines (stack_push stack t).1 (if b then t ∷ nest else nest)) below p.1;
        size = size-stack_push stack t ∙ r.size;
      },
    )

module _ {G : Type 0} (lib : FloatLib) (send : Event (lib.Real) → G → Option (Bool × G))
    (opts : Options) (limit : ℕ) (final : G) where
  -- The run has read `n` more bytes and closed what it opened, and stands behind a value: the
  -- events before `es` have been sent. `low` bounds the fuel that is left.
  pub record Runs (s : State G) (n : ℕ) (nest : List ℕ) (es : List (Event (lib.Real)))
      (run : Run G (Unit {0})) (low : ℕ) : Type 0 where
    pub mis : Mis
    pub stack : Stack
    pub gen : G
    pub k : ℕ
    pub fuel : ℕ
    pub moved : Moved s.mis mis n
    pub ready : Ready limit stack nest
    pub sends : Sends send final es gen
    pub goes :
        run
        ≡ behind_value lib send opts k fuel
            (top nest)
            (record { mis = mis; stack = stack; gen = gen })
    pub enough : low ≤ fuel
    pub enough' : low ≤ k

  -- A run that goes on as another one.
  pub Runs-then :
      (s s' : State G) (m n total : ℕ) (nest : List ℕ) (es : List (Event (lib.Real)))
      (run run' : Run G (Unit {0})) (low : ℕ)
      → Moved s.mis s'.mis m
      → run ≡ run'
      → Runs s' n nest es run' low
      → m + n ≡ total
      → Runs s total nest es run low
  Runs-then s s' m n total nest es run run' low moved same r e = record {
    mis = r.mis;
    stack = r.stack;
    gen = r.gen;
    k = r.k;
    fuel = r.fuel;
    moved = Moved-then s.mis s'.mis r.mis m n total moved r.moved e;
    ready = r.ready;
    sends = r.sends;
    goes = same ∙ r.goes;
    enough = r.enough;
    enough' = r.enough';
  }

  close_byte-Solid : (t : ℕ) → Solid (close_byte lib send opts t)
  close_byte-Solid t = ground arith

  -- Behind the last value of a container its end is read.
  pub closes :
      (s : State G) (t : ℕ) (nest : List ℕ) (b : List ℕ) (es : List (Event (lib.Real)))
      (k fuel low : ℕ)
      → Ready limit s.stack (t ∷ nest)
      → t < 2
      → Blank b
      → Holds s.mis.bytes s.mis.read (b ++ close_byte lib send opts t ∷ [])
      → s.mis.read + length b < s.mis.count
      → Sends send final (end_event lib send opts t ∷ es) s.gen
      → low < k
      → low ≤ fuel
      → Runs s (length b + 1) nest es (behind_value lib send opts k fuel t s) low
  closes s t nest b es zero fuel low r ht blank h room (sending e sends) lt le =
      absurd (omega arith)
  closes s t nest b es (suc k) fuel low r ht blank h room (sending {g' = g} e sends) lt le =
      let m = forward s.mis (length b) in
      let s₁ = record s { mis = m } in
      let byte : s.mis.bytes (s.mis.read + length b) ≡ close_byte lib send opts t =
        (Holds-right s.mis.bytes s.mis.read b _ h).0 in
      let (popped, ready) = Ready-pop limit t s.stack nest r in
      let s₂ : State G = record { mis = mis_take m; stack = (stack_pop s.stack).1; gen = g } in
      let skipped =
        white-Blank lib send opts s b _ blank (Holds-left s.mis.bytes s.mis.read b _ h) byte
          (close_byte-Solid t) (omega arith) in
      let closed =
        close_container-ok lib send opts t (top nest) s₁ _ g
          (parse_end-ok t s₁ (top nest) (Ready-top limit t s.stack nest r) popped) e in
      record {
        mis = mis_take m;
        stack = (stack_pop s.stack).1;
        gen = g;
        k = k;
        fuel = fuel;
        moved =
            Moved-then s.mis m (mis_take m) (length b) 1 (length b + 1)
              (Moved-forward s.mis (length b)) (Moved-take m) refl;
        ready = ready;
        sends = sends;
        goes = behind_value-close lib send opts k fuel t (top nest) s s₁ s₂ ht skipped closed;
        enough = le;
        enough' = omega arith;
      }

  -- Behind a value and a comma the next round begins.
  pub commas :
      (s : State G) (t : ℕ) (b a ws : List ℕ) (k fuel : ℕ)
      → Blank b
      → Blank a
      → Holds s.mis.bytes s.mis.read (b ++ b',' ∷ (a ++ ws))
      → Opening (mis_peek (past s.mis b a))
      → s.mis.read + (length b + 1 + length a) ≤ s.mis.count
      → 0 < k
      → behind_value lib send opts k fuel t s
        ≡ rounds lib send opts fuel t
            (mis_peek (past s.mis b a))
            (record s { mis = past s.mis b a })
  commas s t b a ws zero fuel blank blank' h open_ room pos = absurd (omega arith)
  commas s t b a ws (suc k) fuel blank blank' h open_ room pos =
      let m = forward s.mis (length b) in
      let h' = Holds-right s.mis.bytes s.mis.read b _ h in
      behind_value-comma lib send opts k fuel t (mis_peek (past s.mis b a)) s (record s { mis = m })
        (record s { mis = past s.mis b a })
        (white-Blank lib send opts s b b',' blank (Holds-left s.mis.bytes s.mis.read b _ h) (h'.0)
          (refl, λ e. omega (arith, e)) (omega arith))
        (white-Blank lib send opts (record s { mis = mis_take m }) a _ blank'
          (Holds-left s.mis.bytes (suc (s.mis.read + length b)) a ws h'.1) refl (open_.0)
          (omega arith))
        open_.3 open_.2

  -- The last value of a container, and its end.
  pub finishes :
      (s : State G) (n t : ℕ) (nest b : List ℕ) (es : List (Event (lib.Real)))
      (run : Run G (Unit {0})) (low : ℕ)
      → Runs s n (t ∷ nest) (end_event lib send opts t ∷ es) run (suc low)
      → t < 2
      → Blank b
      → Holds s.mis.bytes (s.mis.read + n) (b ++ close_byte lib send opts t ∷ [])
      → s.mis.read + n + length b < s.mis.count
      → Runs s (n + (length b + 1)) nest es run low
  finishes s n t nest b es run low q ht blank h room =
      let s₁ : State G = record { mis = q.mis; stack = q.stack; gen = q.gen } in
      Runs-then s s₁ n (length b + 1) _ nest es _ _ low q.moved q.goes
        (closes s₁ t nest b es q.k q.fuel low q.ready ht blank
          (Holds-Moved s.mis q.mis n _ q.moved h) (omega (arith, q.moved.read, q.moved.count))
          q.sends q.enough' (omega (arith, q.enough)))
        refl

  -- Where the loop is at the first byte of the next round, with `ws` ahead.
  pub record Resumes (s : State G) (n t : ℕ) (nest ws : List ℕ) (es : List (Event (lib.Real)))
      (run : Run G (Unit {0})) (low : ℕ) : Type 0 where
    pub state : State G
    pub fuel : ℕ
    pub moved : Moved s.mis state.mis n
    pub ready : Ready limit state.stack (t ∷ nest)
    pub sends : Sends send final es state.gen
    pub goes : run ≡ rounds lib send opts fuel t (mis_peek state.mis) state
    pub enough : low ≤ fuel
    pub ahead : Holds state.mis.bytes state.mis.read ws

  -- A value that is not the last, and the comma behind it.
  pub resumes :
      (s : State G) (n t : ℕ) (nest b a ws : List ℕ) (es : List (Event (lib.Real)))
      (run : Run G (Unit {0})) (low : ℕ)
      → Runs s n (t ∷ nest) es run low
      → Blank b
      → Blank a
      → Holds s.mis.bytes (s.mis.read + n) (b ++ b',' ∷ (a ++ ws))
      → ((m : ℕ → ℕ) (i : ℕ) → Holds m i ws → Opening (m i))
      → s.mis.read + n + (length b + 1 + length a) ≤ s.mis.count
      → 0 < low
      → Resumes s (n + (length b + 1 + length a)) t nest ws es run low
  resumes s n t nest b a ws es run low q blank blank' h opening room pos =
      let s₁ : State G = record { mis = q.mis; stack = q.stack; gen = q.gen } in
      let h₁ = Holds-Moved s.mis q.mis n _ q.moved h in
      let h₂ = (Holds-right q.mis.bytes q.mis.read b _ h₁).1 in
      let h₃ = Holds-right q.mis.bytes (suc (q.mis.read + length b)) a ws h₂ in
      record {
        state = record { mis = past q.mis b a; stack = q.stack; gen = q.gen };
        fuel = q.fuel;
        moved = Moved-then s.mis q.mis (past q.mis b a) n _ _ q.moved (past-Moved q.mis b a) refl;
        ready = q.ready;
        sends = q.sends;
        goes =
            q.goes
            ∙ commas s₁ t b a ws q.k q.fuel blank blank' h₁ (opening q.mis.bytes _ h₃)
                (omega (arith, q.moved.read, q.moved.count)) (omega (arith, q.enough'));
        enough = q.enough;
        ahead = h₃;
      }
