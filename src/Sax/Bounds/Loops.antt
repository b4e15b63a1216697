-- ===== src/Sax/Bounds/Loops.antt =====
-- src/parse.c: the loops of parse end, whatever bytes the text holds.
use jsnpg.Base.{
  ℕ, zero, suc, ◌-◌, ◌<◌, Bool, true, false, ◌&&◌, ◌||◌, Option, ◌≡◌, ◌≢◌, ◌⊎◌, inl, inr, arith,
  ◌==◌, if◌then◌else◌,
}
use jsnpg.Types.{Event, error_unexpected}
use jsnpg.Floats.{FloatLib}
use jsnpg.Stack.{Stack, stack_object, stack_array, stack_none}
use jsnpg.Input.{mis_peek, mis_eof}
use jsnpg.Parser.Bounds.{Onward, Onward-none, Seen}
use jsnpg.Parser.Bounds.Numbers.{Strtod}
use jsnpg.Sax.{
  Options, State, Item, value, opened, Next, another, finished, Run, ok, ◌>>=◌, ◌>>◌, throw, pure,
  take_byte, white, close_container, separator, after_value, parse_member_key, parse_value, round,
  rounds, parse_generate, parse_texts,
}
use jsnpg.Sax.Bounds.{
  Fine, Seen-nonzero, Finishes, Done, Finishes-later, Finishes-bind, Finishes-if, Ahead,
  white-Finishes, take_byte-Finishes, Answers,
}
use jsnpg.Sax.Bounds.Tracks.{Tracks}
use jsnpg.Sax.Bounds.Values.{
  In, Somewhere, Takes, answers, close_container-Finishes, Opens, parse_member_key-Finishes,
  parse_value-Finishes,
}

module _ {G : Type 0} (I : Stack → G → Type 0) (lib : FloatLib) (strtod : Strtod lib)
    (send : Event (lib.Real) → G → Option (Bool × G)) (answers : Answers I send)
    (opts : Options) where
  -- the byte behind a separator
  abbrev Behind : ℕ ⊎ ℕ → State G → Type 0
  Behind (inl c) s = Seen c s.mis
  Behind (inr c) s = Seen c s.mis

  chosen :
      (t : Bool) (c : ℕ) (s : State G)
      → Fine I s
      → Seen c s.mis
      → Finishes I 0 Behind s.mis (pure (if t then inl c else inr c) s)
  chosen true c s i seen = (Onward-none s.mis i.0, i, seen)
  chosen false c s i seen = (Onward-none s.mis i.0, i, seen)

  -- a comma, and what follows it
  comma-Finishes :
      (s : State G)
      → Fine I s
      → mis_peek s.mis ≢ 0
      → Finishes I 0 Behind s.mis (
          (take_byte
              >> (white lib send opts >>= λ (c : ℕ).
                  pure (if opts.trailing_commas && (c == b'}' || c == b']') then inl c else inr c)))
            s)
  comma-Finishes s i ne =
      let choose = λ (c : ℕ).
        pure {G = G} (if opts.trailing_commas && (c == b'}' || c == b']') then inl c else inr c) in
      Finishes-bind I I Done Behind 1 0 0 take_byte (λ u. white lib send opts >>= choose) s
        (take_byte-Finishes I s i ne) (omega arith)
        (λ u s₁ o₁ i₁ d.
          Finishes-bind I I Ahead Behind 0 0 0 (white lib send opts) choose s₁
            (white-Finishes I opts.comments s₁ i₁) (omega arith)
            (λ c s₂ o₂ i₂ seen₂.
              chosen (opts.trailing_commas && (c == b'}' || c == b']')) c s₂ i₂ seen₂))

  separator-Finishes :
      (b : ℕ) (s : State G)
      → Fine I s
      → Seen b s.mis
      → Finishes I 0 Behind s.mis (separator lib send opts b s)
  unfolding separator
  separator-Finishes b s i seen =
      Finishes-if I Behind 0 s.mis (b == b',') _ _
        (λ e. comma-Finishes s i (Seen-nonzero b s.mis seen (λ z. ground (arith, e, z))))
        (λ e. (Onward-none s.mis i.0, i, seen))

module _ {G : Type 0} (K : G → Type 0) (lib : FloatLib) (strtod : Strtod lib)
    (send : Event (lib.Real) → G → Option (Bool × G)) (takes : Takes K send) (opts : Options) where
  abbrev Found : ℕ → State G → Type 0
  Found outer s = Tracks outer s.stack

  -- the byte ahead where another round begins
  abbrev pub Begins : Next → State G → Type 0
  Begins (another type c) s = Tracks type s.stack × Seen c s.mis
  Begins finished s = Tracks stack_none s.stack

  -- Behind the separator: `rest` is the loop behind a container that ends here.
  closes :
      (type c : ℕ) (s : State G) (rest : ℕ → State G → Run G Next)
      → Fine (In K type) s
      → Seen c s.mis
      → ((outer : ℕ) (s' : State G)
          → Onward 1 s.mis s'.mis
          → Fine (In K outer) s'
          → Finishes (Somewhere K) 0 Begins s'.mis (rest outer s'))
      → Finishes (Somewhere K) 0 Begins s.mis (
          let close = (close_container lib send opts type >>= λ (outer : ℕ). rest outer) in
          if c == b'}' && type == stack_object
          then close s
          else if c == b']' && type == stack_array
          then close s
          else if type == stack_none
          then ok finished s
          else throw error_unexpected s)
  closes type c s rest i seen k =
      let close : type < 2
          → c ≢ 0
          → Finishes (Somewhere K) 0 Begins s.mis
              ((close_container lib send opts type >>= rest) s) =
        λ low ne.
          Finishes-bind (Somewhere K) (Somewhere K) Found Begins 1 0 0
            (close_container lib send opts type) rest s
            (close_container-Finishes K lib strtod send takes opts type s low i
              (Seen-nonzero c s.mis seen ne))
            (omega arith) (λ outer s' o i' found. k outer s' o (i'.0, (found, i'.1))) in
      Finishes-if (Somewhere K) Begins 0 s.mis (c == b'}' && type == stack_object) _ _
        (λ e. close (ground (arith, e)) (λ z. ground (arith, e, z)))
        (λ n₁.
          Finishes-if (Somewhere K) Begins 0 s.mis (c == b']' && type == stack_array) _ _
            (λ e. close (ground (arith, e)) (λ z. ground (arith, e, z)))
            (λ n₂.
              Finishes-if (Somewhere K) Begins 0 s.mis (type == stack_none) _ _
                (λ e.
                  let none_open : type ≡ stack_none = ground (arith, e) in
                  (Onward-none s.mis i.0, (i.0, i.1.1), rw (← none_open) (i.1.0)))
                (λ e. tt)))

  after_value-Finishes :
      (fuel type : ℕ) (s : State G)
      → Fine (In K type) s
      → s.mis.count - s.mis.read < fuel
      → Finishes (Somewhere K) 0 Begins s.mis (after_value lib send opts fuel type s)
  unfolding after_value
  after_value-Finishes zero type s i le = absurd (omega arith)
  after_value-Finishes (suc fuel) type s i le =
      Finishes-bind (In K type) (Somewhere K) Ahead Begins 0 0 0 (white lib send opts) _ s
        (white-Finishes (In K type) opts.comments s i) (omega arith)
        (λ b s₁ o₁ i₁ seen₁.
          Finishes-bind (In K type) (Somewhere K)
            (Behind (In K type) lib strtod send (answers K lib strtod send takes opts type) opts)
            Begins 0 0 0 (separator lib send opts b) _ s₁
            (separator-Finishes (In K type) lib strtod send
              (answers K lib strtod send takes opts type) opts b s₁ i₁ seen₁)
            (omega arith)
            (λ e s₂ o₂ i₂ behind. by_separator e s₂ i₂ behind (λ outer s₃ o₃ i₃.
              after_value-Finishes fuel outer s₃ i₃ (
                omega (
                  arith, le, o₁.forth, o₁.count, o₂.forth, o₂.count, o₃.forth, o₃.count, o₃.within,
                )))))
    where
      by_separator :
          (e : ℕ ⊎ ℕ) (s₂ : State G)
          → Fine (In K type) s₂
          → Behind (In K type) lib strtod send (answers K lib strtod send takes opts type) opts e s₂
          → ((outer : ℕ) (s' : State G)
              → Onward 1 s₂.mis s'.mis
              → Fine (In K outer) s'
              → Finishes (Somewhere K) 0 Begins s'.mis (after_value lib send opts fuel outer s'))
          → Finishes (Somewhere K) 0 Begins s₂.mis (elim e as (λ e'. Run G Next) [
            | inr c ↦ ok (another type c) s₂
            | inl c ↦
                let close =
                  (close_container lib send opts type >>= λ (outer : ℕ).
                  after_value lib send opts fuel outer) in
                if c == b'}' && type == stack_object
                then close s₂
                else if c == b']' && type == stack_array
                then close s₂
                else if type == stack_none
                then ok finished s₂
                else throw error_unexpected s₂
          ])
      by_separator (inr c) s₂ i₂ seen k = (Onward-none s₂.mis i₂.0, (i₂.0, i₂.1.1), (i₂.1.0, seen))
      by_separator (inl c) s₂ i₂ seen k =
          closes type c s₂ (λ outer. after_value lib send opts fuel outer) i₂ seen k

  round-Finishes :
      (fuel type b : ℕ) (s : State G)
      → Fine (In K type) s
      → Seen b s.mis
      → s.mis.count - s.mis.read < suc fuel
      → Finishes (Somewhere K) 1 Begins s.mis (round lib send opts fuel type b s)
  unfolding round
  round-Finishes fuel type b s i seen le =
      Finishes-bind (In K type) (Somewhere K) Ahead Begins 0 1 1
        (if type == stack_object then parse_member_key lib send opts b else pure b) _ s
        (key (type == stack_object)) (omega arith)
        (λ c s₁ o₁ i₁ seen₁.
          Finishes-bind (Somewhere K) (Somewhere K) (Opens K lib strtod send takes opts) Begins 1 0
            1 (parse_value lib send opts type c) _ s₁
            (parse_value-Finishes K lib strtod send takes opts type c s₁ i₁ seen₁) (omega arith)
            (λ item s₂ o₂ i₂ opens.
              by_item item s₂ i₂ opens
                (omega (arith, le, o₁.forth, o₁.count, o₂.forth, o₂.count, o₂.within))))
    where
      key :
          (t : Bool)
          → Finishes
              (In K type)
              0
              Ahead
              s.mis
              ((if t then parse_member_key lib send opts b else pure b) s)
      key true =
          Finishes-later (In K type) Ahead 0 1 0 s.mis s.mis _ (Onward-none s.mis i.0) (omega arith)
            (parse_member_key-Finishes (In K type) lib strtod send
              (answers K lib strtod send takes opts type) opts b s i seen)
      key false = (Onward-none s.mis i.0, i, seen)

      by_item :
          (item : Item) (s₂ : State G)
          → Fine (Somewhere K) s₂
          → Opens K lib strtod send takes opts item s₂
          → s₂.mis.count - s₂.mis.read < fuel
          → Finishes (Somewhere K) 0 Begins s₂.mis (
              (elim item as (λ i'. State G → Run G Next) [
                | opened inner d ↦ pure (another inner d)
                | value type' ↦ after_value lib send opts fuel type'
              ])
                s₂)
      by_item (opened inner d) s₂ i₂ opens le' = (Onward-none s₂.mis i₂.0, i₂, opens)
      by_item (value type') s₂ i₂ opens le' =
          after_value-Finishes fuel type' s₂ (i₂.0, (opens, i₂.1)) le'

  -- Where the loop ends, no container is open.
  rounds-Finishes :
      (fuel type b : ℕ) (s : State G)
      → Fine (In K type) s
      → Seen b s.mis
      → s.mis.count - s.mis.read < fuel
      → Finishes (In K stack_none) 1 Done s.mis (rounds lib send opts fuel type b s)
  unfolding rounds
  rounds-Finishes zero type b s i seen le = absurd (omega arith)
  rounds-Finishes (suc fuel) type b s i seen le =
      Finishes-bind (Somewhere K) (In K stack_none) Begins Done 1 0 1
        (round lib send opts fuel type b) _ s (round-Finishes fuel type b s i seen le) (omega arith)
        (λ n s₁ o₁ i₁ begins. by_next n s₁ i₁ begins (λ type' c found seen₁.
          rounds-Finishes fuel type' c s₁ (i₁.0, (found, i₁.1)) seen₁
            (omega (arith, le, o₁.forth, o₁.count, o₁.within))))
    where
      by_next :
          (n : Next) (s₁ : State G)
          → Fine (Somewhere K) s₁
          → Begins n s₁
          → ((type' c : ℕ)
              → Tracks type' s₁.stack
              → Seen c s₁.mis
              → Finishes (In K stack_none) 1 Done s₁.mis (rounds lib send opts fuel type' c s₁))
          → Finishes (In K stack_none) 0 Done s₁.mis (
              (elim n as (λ n'. State G → Run G (Unit {0})) [
                | another type' c ↦ rounds lib send opts fuel type' c
                | finished ↦ pure tt
              ])
                s₁)
      by_next (another type' c) s₁ i₁ b' k =
          Finishes-later (In K stack_none) Done 0 1 0 s₁.mis s₁.mis _ (Onward-none s₁.mis i₁.0)
            (omega arith) (k type' c b'.0 b'.1)
      by_next finished s₁ i₁ found k = (Onward-none s₁.mis i₁.0, (i₁.0, (found, i₁.1)), tt)

  pub parse_generate-Finishes :
      (fuel : ℕ) (s : State G)
      → Fine (In K stack_none) s
      → s.mis.count - s.mis.read < fuel
      → Finishes (In K stack_none) 1 Done s.mis (parse_generate lib send opts fuel s)
  unfolding parse_generate
  parse_generate-Finishes fuel s i le =
      Finishes-bind (In K stack_none) (In K stack_none) Ahead Done 0 1 1 (white lib send opts) _ s
        (white-Finishes (In K stack_none) opts.comments s i) (omega arith)
        (λ b s₁ o₁ i₁ seen₁.
          Finishes-bind (In K stack_none) (In K stack_none) Done Done 1 0 1
            (rounds lib send opts fuel stack_none b) _ s₁
            (rounds-Finishes fuel stack_none b s₁ i₁ seen₁ (omega (arith, le, o₁.forth, o₁.count)))
            (omega arith)
            (λ u s₂ o₂ i₂ d.
              Finishes-bind (In K stack_none) (In K stack_none) Ahead Done 0 0 0
                (white lib send opts) _ s₂ (white-Finishes (In K stack_none) opts.comments s₂ i₂)
                (omega arith) (λ c s₃ o₃ i₃ seen₃. (Onward-none s₃.mis i₃.0, i₃, tt))))

  -- Whatever bytes the text holds, the loop of parse ends: it returns further on, inside the text, or
  -- throws, and neither runs out of fuel nor fails an assertion. The texts and the fuel are more than
  -- the bytes left, the generator answers every event, and strtod ends behind the number that it
  -- reads. No container is open at first, on a stack of at most 2048
  -- entries.
  pub parse_texts-Finishes :
      (more fuel : ℕ) (s : State G)
      → Fine (In K stack_none) s
      → s.mis.count - s.mis.read < more
      → s.mis.count - s.mis.read < fuel
      → Finishes (In K stack_none) 1 Done s.mis (parse_texts lib send opts more fuel s)
  unfolding parse_texts
  parse_texts-Finishes zero fuel s i lt le = absurd (omega arith)
  parse_texts-Finishes (suc more) fuel s i lt le =
      Finishes-bind (In K stack_none) (In K stack_none) Done Done 1 0 1
        (parse_generate lib send opts fuel) _ s (parse_generate-Finishes fuel s i le) (omega arith)
        (λ u s₁ o₁ i₁ d. goes_on s₁ i₁ (
          parse_texts-Finishes more fuel s₁ i₁ (omega (arith, lt, o₁.forth, o₁.count, o₁.within))
            (omega (arith, le, o₁.forth, o₁.count))))
    where
      goes_on :
          (s₁ : State G)
          → Fine (In K stack_none) s₁
          → Finishes (In K stack_none) 1 Done s₁.mis (parse_texts lib send opts more fuel s₁)
          → Finishes (In K stack_none) 0 Done s₁.mis (
              let again = parse_texts lib send opts more fuel s₁ in
              if mis_eof s₁.mis
              then ok tt s₁
              else if opts.multiple_values
              then again
              else if opts.trailing_chars
              then ok tt s₁
              else throw error_unexpected s₁)
      goes_on s₁ i₁ again =
          Finishes-if (In K stack_none) Done 0 s₁.mis (mis_eof s₁.mis) _ _
            (λ e. (Onward-none s₁.mis i₁.0, i₁, tt))
            (λ e.
              Finishes-if (In K stack_none) Done 0 s₁.mis opts.multiple_values _ _
                (λ m.
                  Finishes-later (In K stack_none) Done 0 1 0 s₁.mis s₁.mis _
                    (Onward-none s₁.mis i₁.0) (omega arith) again)
                (λ m.
                  Finishes-if (In K stack_none) Done 0 s₁.mis opts.trailing_chars _ _
                    (λ t. (Onward-none s₁.mis i₁.0, i₁, tt)) (λ t. tt)))
