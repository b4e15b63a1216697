-- ===== src/Sax/Bounds.antt =====
-- src/parse.c: runs that stay inside the text, whatever bytes that holds, and that return or throw.
pub mod Tracks
pub mod Values
pub mod Loops
use jsnpg.Base.{
  ℕ, suc, ◌+◌, ◌≤◌, Bool, true, false, Bool-cases, Option, Option-cases, none, some, ◌≡◌, ◌≢◌, inl,
  inr, refl, arith, if◌then◌else◌,
}
use jsnpg.Types.{Event}
use jsnpg.Floats.{FloatLib}
use jsnpg.Stack.{Stack, stack_push, stack_pop}
use jsnpg.Input.{Mis, mis_peek, mis_take}
use jsnpg.Outcome.{Outcome}
use jsnpg.Parser.White.{consume_whitespace}
use jsnpg.Parser.White.Ends.{Inside}
use jsnpg.Parser.Bounds.{Onward, Onward-none, Onward-then, Inside-Onward, Stays, Seen}
use jsnpg.Parser.Bounds.White.{consume_whitespace-Stays}
use jsnpg.Parser.Bounds.Literals.{take-Onward}
use jsnpg.Sax.{
  Options, State, Run, ok, thrown, aborted, no_fuel, ◌>>=◌, on_input, take_byte, parse_start,
  parse_end, top_type_is, emit,
}

-- A byte that has been seen and is not zero is ahead.
pub Seen-nonzero : (c : ℕ) (mis : Mis) → Seen c mis → c ≢ 0 → mis_peek mis ≢ 0
Seen-nonzero c mis (inl z) ne p = ne z
Seen-nonzero c mis (inr e) ne p = ne (rw e p)

module _ {G : Type 0} where
  abbrev pub Done : {A : Type 0} → A → State G → Type 0
  Done x s = Unit

  -- the byte that white space leaves ahead
  abbrev pub Ahead : ℕ → State G → Type 0
  Ahead c s = Seen c s.mis

-- `I` is kept by the generator.
module _ {G : Type 0} (I : Stack → G → Type 0) where
  abbrev pub Fine : State G → Type 0
  Fine s = Inside s.mis × I s.stack s.gen

  -- The run returns at least `low` bytes behind the stream, with a result of which `Q` holds, or
  -- throws: no assertion has failed, and it has not run out of fuel.
  abbrev pub Finishes : {A : Type 0} → ℕ → (A → State G → Type 0) → Mis → Run G A → Type 0
  Finishes low Q a (ok x s) = Onward low a s.mis × Fine s × Q x s
  Finishes low Q a (thrown code at s) = Unit
  Finishes low Q a aborted = ⊥
  Finishes low Q a no_fuel = ⊥

  pub Finishes-later :
      {A : Type 0} (Q : A → State G → Type 0) (low low' n : ℕ) (a b : Mis) (r : Run G A)
      → Onward low a b
      → n ≤ low + low'
      → Finishes low' Q b r
      → Finishes n Q a r
  Finishes-later Q low low' n a b (ok x s) p le (o, i, q) =
      (Onward-then low low' n a b s.mis p o le, i, q)
  Finishes-later Q low low' n a b (thrown code at s) p le f = tt
  Finishes-later Q low low' n a b aborted p le f = absurd f
  Finishes-later Q low low' n a b no_fuel p le f = absurd f

  pub Finishes-if :
      {A : Type 0} (Q : A → State G → Type 0) (low : ℕ) (a : Mis) (b : Bool) (x y : Run G A)
      → (b ≡ true → Finishes low Q a x)
      → (b ≡ false → Finishes low Q a y)
      → Finishes low Q a (if b then x else y)
  Finishes-if Q low a true x y p q = p refl
  Finishes-if Q low a false x y p q = q refl

  -- a function of the input alone
  pub on_input-Finishes :
      {A : Type 0} (Q : A → Mis → Type 0) (low : ℕ) (p : Mis → Outcome A) (s : State G)
      → Fine s
      → Stays low Q s.mis (p s.mis)
      → Finishes low (λ x s'. Q x s'.mis) s.mis (on_input p s)
  on_input-Finishes {A} Q low p s i h = by_cases (p s.mis) h
    where
      by_cases :
          (o : Outcome A)
          → Stays low Q s.mis o
          → Finishes low (λ x s'. Q x s'.mis) s.mis (on_input (λ _. o) s)
      by_cases (Outcome.ok x m) (o, q) = (o, (Inside-Onward low s.mis m i.0 o, i.1), q)
      by_cases (Outcome.thrown code at m) h' = tt
      by_cases Outcome.no_fuel h' = absurd h'

  pub white-Finishes :
      (comments : Bool) (s : State G)
      → Fine s
      → Finishes 0 Ahead s.mis (on_input (consume_whitespace comments) s)
  white-Finishes comments s i =
      on_input-Finishes Seen 0 (consume_whitespace comments) s i
        (consume_whitespace-Stays comments s.mis i.0)

  taken : (s : State G) → Fine s → mis_peek s.mis ≢ 0 → Inside (mis_take s.mis) × I s.stack s.gen
  taken s i ne = (Inside-Onward 1 s.mis (mis_take s.mis) i.0 (take-Onward s.mis i.0 ne), i.1)

  pub take_byte-Finishes :
      (s : State G) → Fine s → mis_peek s.mis ≢ 0 → Finishes 1 Done s.mis (take_byte s)
  take_byte-Finishes s i ne = (take-Onward s.mis i.0 ne, taken s i ne, tt)

  -- The generator takes every event or refuses it: none of its assertions fails, and `I` is kept.
  abbrev pub Answers : {R : Type 0} → (Event R → G → Option (Bool × G)) → Type 0
  Answers {R} send =
      (e : Event R) (stack : Stack) (g : G)
      → I stack g
      → (flag : Bool) × (g' : G) × (send e g ≡ some (flag, g')) × I stack g'

  pub emit-Finishes :
      (lib : FloatLib) (send : Event (lib.Real) → G → Option (Bool × G)) (opts : Options)
      (e : Event (lib.Real)) (s : State G)
      → Answers send
      → Fine s
      → Finishes 0 (λ x s'. s'.mis ≡ s.mis) s.mis (emit lib send opts e s)
  unfolding emit
  emit-Finishes lib send opts e s answers i = by_flag (answers e s.stack s.gen i.1)
    where
      by_flag :
          (flag : Bool) × (g : G) × (send e s.gen ≡ some (flag, g)) × I s.stack g
          → Finishes 0 (λ x s'. s'.mis ≡ s.mis) s.mis (emit lib send opts e s)
      by_flag (true, g, h, kept) = rw (h, emit) (Onward-none s.mis i.0, (i.0, kept), refl)
      by_flag (false, g, h, kept) = rw (h, emit) tt

-- Where `I` holds in front and `J` behind.
module _ {G : Type 0} (I J : Stack → G → Type 0) where
  pub Finishes-weaken :
      {A : Type 0} (Q R : A → State G → Type 0) (low : ℕ) (a : Mis) (r : Run G A)
      → ((x : A) (s : State G) → Fine I s → Q x s → J s.stack s.gen × R x s)
      → Finishes I low Q a r
      → Finishes J low R a r
  Finishes-weaken Q R low a (ok x s) k (o, i, q) = let (j, r) = k x s i q in (o, (i.0, j), r)
  Finishes-weaken Q R low a (thrown code at s) k f = tt
  Finishes-weaken Q R low a aborted k f = absurd f
  Finishes-weaken Q R low a no_fuel k f = absurd f

  -- A run behind another.
  pub Finishes-bind :
      {A B : Type 0} (Q : A → State G → Type 0) (R : B → State G → Type 0) (low low' n : ℕ)
      (m : State G → Run G A) (f : A → State G → Run G B) (s : State G)
      → Finishes I low Q s.mis (m s)
      → n ≤ low + low'
      → ((x : A) (s' : State G)
          → Onward low s.mis s'.mis
          → Fine I s'
          → Q x s'
          → Finishes J low' R s'.mis (f x s'))
      → Finishes J n R s.mis ((m >>= f) s)
  Finishes-bind {A} Q R low low' n m f s h le k = by_cases (m s) h
    where
      by_cases :
          (r : Run G A) → Finishes I low Q s.mis r → Finishes J n R s.mis (((λ _. r) >>= f) s)
      by_cases (ok x s') (o, i, q) =
          Finishes-later J R low low' n s.mis s'.mis (f x s') o le (k x s' o i q)
      by_cases (thrown code at s') h' = tt
      by_cases aborted h' = absurd h'
      by_cases no_fuel h' = absurd h'

  pub parse_start-Finishes :
      (type : ℕ) (s : State G)
      → Fine I s
      → mis_peek s.mis ≢ 0
      → ((stack_push s.stack type).0 ≡ true → J (stack_push s.stack type).1 s.gen)
      → Finishes J 1 (λ x s'. x ≡ type) s.mis (parse_start type s)
  unfolding parse_start
  parse_start-Finishes type s i ne pushed =
      Finishes-if J (λ x s'. x ≡ type) 1 s.mis (stack_push s.stack type).0 _ _
        (λ e. (take-Onward s.mis i.0 ne, ((taken I s i ne).0, pushed e), refl)) (λ e. tt)

  pub parse_end-Finishes :
      (Q : ℕ → State G → Type 0) (container : ℕ) (s : State G)
      → Fine I s
      → mis_peek s.mis ≢ 0
      → top_type_is s.stack container ≡ true
      → ((outer : ℕ)
          → (stack_pop s.stack).0 ≡ some outer
          → J (stack_pop s.stack).1 s.gen
            × Q outer (record s { mis = mis_take s.mis; stack = (stack_pop s.stack).1 }))
      → Finishes J 1 Q s.mis (parse_end container s)
  unfolding parse_end
  parse_end-Finishes Q container s i ne top popped = elim (Option-cases (stack_pop s.stack).0) [
    | inl e ↦ rw (top, parse_end) (rw (e, parse_end) tt)
    | inr (type, e) ↦
        let (j, q) = popped type e in
        rw (top, parse_end)
          (rw (e, parse_end) (take-Onward s.mis i.0 ne, ((taken I s i ne).0, j), q))
  ]
