-- ===== src/Sax/Steps.antt =====
-- src/parse.c: the loop of parse_generate, step by step, where the text goes on as it may.
use jsnpg.Base.{
  ℕ, zero, suc, ◌<◌, Bool, true, false, Option, some, ◌≡◌, ◌≢◌, inl, inr, refl, ◌∙◌, arith, ◌==◌,
}
use jsnpg.Types.{Event}
use jsnpg.Floats.{FloatLib}
use jsnpg.Stack.{stack_object, stack_none, stack_pop, stack_push}
use jsnpg.Input.{Mis, mis_take}
use jsnpg.Outcome.{Outcome}
use jsnpg.Sax.{
  Options, State, Item, value, opened, Next, another, finished, Run, ok, thrown, aborted, no_fuel,
  ◌>>=◌, pure, on_input, parse_start, parse_end, top_type_is, emit, white, end_event, close_byte,
  close_container, separator, after_value, parse_member_key, parse_value, round, rounds,
}

module _ {G : Type 0} where
  pub bind-ok :
      {A B : Type 0} (m : State G → Run G A) (f : A → State G → Run G B) (s s' : State G) (a : A)
      → m s ≡ ok a s'
      → (m >>= f) s ≡ f a s'
  bind-ok m f s s' a e = rw (e, ◌>>=◌) refl

  pub bind_assoc :
      {A B C : Type 0} (m : State G → Run G A) (f : A → State G → Run G B)
      (g : B → State G → Run G C) (s : State G)
      → ((m >>= f) >>= g) s ≡ (m >>= λ a. f a >>= g) s
  bind_assoc m f g s = by_cases (m s) refl
    where
      by_cases : (r : Run G _) → m s ≡ r → ((m >>= f) >>= g) s ≡ (m >>= λ a. f a >>= g) s
      by_cases (ok a s') e = rw (e, ◌>>=◌) refl
      by_cases (thrown c n s') e = rw (e, ◌>>=◌) refl
      by_cases aborted e = rw (e, ◌>>=◌) refl
      by_cases no_fuel e = rw (e, ◌>>=◌) refl

  pub on_input-ok :
      {A : Type 0} (p : Mis → Outcome A) (s : State G) (m : Mis) (a : A)
      → p s.mis ≡ Outcome.ok a m
      → on_input p s ≡ ok a (record s { mis = m })
  on_input-ok p s m a e = rw (e, on_input) refl

  pub parse_start-ok :
      (type : ℕ) (s : State G)
      → (stack_push s.stack type).0 ≡ true
      → parse_start type s
        ≡ ok type (record s { mis = mis_take s.mis; stack = (stack_push s.stack type).1 })
  unfolding parse_start
  parse_start-ok type s e = rw (e, parse_start) refl

  pub parse_end-ok :
      (container : ℕ) (s : State G) (type : ℕ)
      → top_type_is s.stack container ≡ true
      → (stack_pop s.stack).0 ≡ some type
      → parse_end container s
        ≡ ok type (record s { mis = mis_take s.mis; stack = (stack_pop s.stack).1 })
  unfolding parse_end
  parse_end-ok container s type top e = rw (top, parse_end) (rw (e, parse_end) refl)

  module _ (lib : FloatLib) (send : Event (lib.Real) → G → Option (Bool × G)) (opts : Options) where
    pub emit-ok :
        (e : Event (lib.Real)) (s : State G) (g : G)
        → send e s.gen ≡ some (true, g)
        → emit lib send opts e s ≡ ok tt (record s { gen = g })
    unfolding emit
    emit-ok e s g h = rw (h, emit) refl

    pub close_container-ok :
        (type outer : ℕ) (s s' : State G) (g : G)
        → parse_end type s ≡ ok outer s'
        → send (end_event lib send opts type) s'.gen ≡ some (true, g)
        → close_container lib send opts type s ≡ ok outer (record s' { gen = g })
    unfolding close_container
    close_container-ok type outer s s' g e h =
        bind-ok (parse_end type) _ s s' outer e
        ∙ bind-ok (emit lib send opts (end_event lib send opts type)) _ s' _ tt (emit-ok _ s' g h)

    -- What the loops do with what a round, or a value, leaves.
    abbrev pub next : ℕ → Next → State G → Run G (Unit {0})
    next fuel n = elim n [ another type c ↦ rounds lib send opts fuel type c | finished ↦ pure tt ]

    abbrev pub behind : ℕ → Item → State G → Run G Next
    behind fuel item = elim item [
      | opened inner d ↦ pure (another inner d)
      | value type ↦ after_value lib send opts fuel type
    ]

    -- The rest of the loop from the first byte of a value on, and from behind a value on.
    abbrev pub at_value : ℕ → ℕ → ℕ → State G → Run G (Unit {0})
    at_value fuel type b = (parse_value lib send opts type b >>= behind fuel) >>= next fuel

    abbrev pub behind_value : ℕ → ℕ → ℕ → State G → Run G (Unit {0})
    behind_value k fuel type = after_value lib send opts k type >>= next fuel

    pub rounds-plain :
        (fuel type b : ℕ) (s : State G)
        → (type == stack_object) ≡ false
        → rounds lib send opts (suc fuel) type b s ≡ at_value fuel type b s
    unfolding rounds round
    rounds-plain fuel type b s h = rw h refl

    -- the same where the fuel is not spelled as a successor
    pub rounds-plain_at :
        (fuel less type b : ℕ) (s : State G)
        → fuel ≡ suc less
        → (type == stack_object) ≡ false
        → rounds lib send opts fuel type b s ≡ at_value less type b s
    rounds-plain_at fuel less type b s e h = rw e (rounds-plain less type b s h)

    pub rounds-member :
        (fuel less b c : ℕ) (s s' : State G)
        → fuel ≡ suc less
        → parse_member_key lib send opts b s ≡ ok c s'
        → rounds lib send opts fuel stack_object b s ≡ at_value less stack_object c s'
    unfolding rounds round
    rounds-member fuel less b c s s' e h = rw e (rw (h, ◌>>=◌) refl)

    pub at_value-value :
        (fuel type b t : ℕ) (s s' : State G)
        → parse_value lib send opts type b s ≡ ok (value t) s'
        → at_value fuel type b s ≡ behind_value fuel fuel t s'
    at_value-value fuel type b t s s' h = rw (h, ◌>>=◌) refl

    pub at_value-opened :
        (fuel type b inner d : ℕ) (s s' : State G)
        → parse_value lib send opts type b s ≡ ok (opened inner d) s'
        → at_value fuel type b s ≡ rounds lib send opts fuel inner d s'
    at_value-opened fuel type b inner d s s' h = rw (h, ◌>>=◌) refl

    abbrev pub spaces : State G → Run G ℕ
    spaces = white lib send opts

    pub separator-none :
        (b : ℕ) (s : State G) → b ≢ b',' → separator lib send opts b s ≡ ok (inl b) s
    unfolding separator
    separator-none b s h = let other : (b == b',') ≡ false = ground (arith, h) in rw other refl

    pub separator-comma :
        (c : ℕ) (s s' : State G)
        → spaces (record s { mis = mis_take s.mis }) ≡ ok c s'
        → c ≢ b'}'
        → c ≢ b']'
        → separator lib send opts b',' s ≡ ok (inr c) s'
    unfolding separator
    separator-comma c s s' e h h' =
        let other : (c == b'}') ≡ false = ground (arith, h) in
        let other' : (c == b']') ≡ false = ground (arith, h') in
        rw (e, ◌>>=◌) (rw (other, other') (ground arith))

    pub behind_value-comma :
        (k fuel type c : ℕ) (s s₁ s₂ : State G)
        → spaces s ≡ ok b',' s₁
        → spaces (record s₁ { mis = mis_take s₁.mis }) ≡ ok c s₂
        → c ≢ b'}'
        → c ≢ b']'
        → behind_value (suc k) fuel type s ≡ rounds lib send opts fuel type c s₂
    unfolding after_value
    behind_value-comma k fuel type c s s₁ s₂ e e' h h' =
        rw (e, ◌>>=◌) (rw (separator-comma c s₁ s₂ e' h h') refl)

    pub behind_value-close :
        (k fuel type outer : ℕ) (s s₁ s₂ : State G)
        → type < 2
        → spaces s ≡ ok (close_byte lib send opts type) s₁
        → close_container lib send opts type s₁ ≡ ok outer s₂
        → behind_value (suc k) fuel type s ≡ behind_value k fuel outer s₂
    unfolding after_value
    behind_value-close k fuel zero outer s s₁ s₂ small e e' =
        rw (e, ◌>>=◌) (rw (separator-none b'}' s₁ (λ h. omega (arith, h))) (rw (e', ◌>>=◌) refl))
    behind_value-close k fuel (suc zero) outer s s₁ s₂ small e e' =
        rw (e, ◌>>=◌) (rw (separator-none b']' s₁ (λ h. omega (arith, h))) (rw (e', ◌>>=◌) refl))
    behind_value-close k fuel (suc (suc type)) outer s s₁ s₂ small e e' = absurd (omega arith)

    pub behind_value-end :
        (k less fuel b : ℕ) (s s₁ : State G)
        → k ≡ suc less
        → spaces s ≡ ok b s₁
        → b ≢ b','
        → behind_value k fuel stack_none s ≡ ok tt s₁
    unfolding after_value
    behind_value-end k less fuel b s s₁ eq e h =
        rw eq (rw (e, ◌>>=◌) (rw (separator-none b s₁ h) (ground arith)))
