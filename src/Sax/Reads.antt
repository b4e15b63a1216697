-- ===== src/Sax/Reads.antt =====
-- src/parse.c: the loop of parse_generate at scalars, strings and the start of containers.
use jsnpg.Base.{
  ℕ, suc, ◌+◌, ◌≤◌, ◌<◌, List, [], ◌∷◌, ◌++◌, Bool, true, Option, some, ◌≡◌, refl, ◌∙◌, arith,
  length,
}
use jsnpg.Base.Memory.{Holds, Holds-left, Holds-right}
use jsnpg.Types.{Event}
use jsnpg.Floats.{FloatLib}
use jsnpg.Stack.{Stack, stack_push, stack_pop}
use jsnpg.Input.{Mis, mis_peek, mis_take}
use jsnpg.Json.Grammar.{Blank, in_quotes}
use jsnpg.Json.Grammar.First.{Opening}
use jsnpg.Parser.Grammar.{Denotes}
use jsnpg.Parser.Escape.Reads.{forward}
use jsnpg.Parser.Strings.Quoted.{string-Moved}
use jsnpg.Parser.Moved.{past, past-Moved, Moved, Moved-forward, Moved-take, Moved-then, Holds-Moved}
use jsnpg.Parser.White.Blank.{Solid}
use jsnpg.Sax.{
  Options, State, value, Run, ok, white, rounds, parse_value, open_container, start_event,
  end_event, close_byte,
}
use jsnpg.Sax.Steps.{
  parse_end-ok, close_container-ok, at_value, at_value-value, at_value-opened, rounds-member,
}
use jsnpg.Sax.Items.{
  white-Blank, open_container-empty, open_container-more, inside, parse_member_key-ok,
}
use jsnpg.Generate.Sends.{Sends, sending}
use jsnpg.Sax.Runs.{top, Ready, Ready-push, Ready-pop, Ready-top, Runs}

module _ {G : Type 0} (lib : FloatLib) (send : Event (lib.Real) → G → Option (Bool × G))
    (opts : Options) (limit : ℕ) (small : limit ≤ 2048) (goal : G) where
  abbrev pub Reads : State G → ℕ → List ℕ → List (Event (lib.Real)) → Run G (Unit {0}) → ℕ → Type 0
  Reads = Runs lib send opts limit goal

  -- A value with no value inside, whose parse is at hand.
  pub leaf-Reads :
      (s : State G) (m : Mis) (stack : Stack) (g : G) (n : ℕ) (nest : List ℕ)
      (es : List (Event (lib.Real))) (fuel b low : ℕ)
      → Ready limit stack nest
      → Moved s.mis m n
      → parse_value lib send opts (top nest) b s
        ≡ ok (value (top nest)) (record { mis = m; stack = stack; gen = g })
      → Sends send goal es g
      → low + n ≤ fuel
      → Reads s n nest es (at_value lib send opts fuel (top nest) b s) low
  leaf-Reads s m stack g n nest es fuel b low r moved e sends le = record {
    mis = m;
    stack = stack;
    gen = g;
    k = fuel;
    fuel = fuel;
    moved = moved;
    ready = r;
    sends = sends;
    goes = at_value-value lib send opts fuel (top nest) b (top nest) s _ e;
    enough = omega arith;
    enough' = omega arith;
  }

  pub white-none :
      (s : State G)
      → Solid (mis_peek s.mis)
      → s.mis.read ≤ s.mis.count
      → white lib send opts s ≡ ok (mis_peek s.mis) s
  white-none s solid room =
      let z : s.mis.read + 0 ≡ s.mis.read = omega arith in
      rw z at (white-Blank lib send opts s [] (mis_peek s.mis) tt tt (rw z) solid (rw z room))

  -- the state behind an opening bracket and the blanks `a`
  abbrev pub entered : ℕ → State G → G → List ℕ → State G
  entered t s g a = record {
    mis = forward (mis_take s.mis) (length a);
    stack = (stack_push s.stack t).1;
    gen = g;
  }

  pub entered-Moved :
      (t : ℕ) (s : State G) (g : G) (a : List ℕ) → Moved s.mis (entered t s g a).mis (1 + length a)
  entered-Moved t s g a =
      Moved-then s.mis (mis_take s.mis) _ 1 (length a) _ (Moved-take s.mis)
        (Moved-forward (mis_take s.mis) (length a)) refl

  module _ (t : ℕ) (ht : t < 2) (s : State G) (nest : List ℕ) (ready : Ready limit s.stack nest)
      (room : length nest < limit) (b : ℕ)
      (dispatch : parse_value lib send opts (top nest) b s ≡ open_container lib send opts t s)
      (g : G) (started : send (start_event lib send opts t) s.gen ≡ some (true, g)) (a : List ℕ)
      (blank : Blank a) where
    pub empty-Reads :
        (es : List (Event (lib.Real))) (fuel low : ℕ)
        → Holds s.mis.bytes (suc s.mis.read) (a ++ close_byte lib send opts t ∷ [])
        → suc s.mis.read + length a < s.mis.count
        → Sends send goal (end_event lib send opts t ∷ es) g
        → low + (1 + length a + 1) ≤ fuel
        → Reads s (1 + length a + 1) nest es (at_value lib send opts fuel (top nest) b s) low
    empty-Reads es fuel low h inside_text (sending {g' = g₂} ended sends) le =
        let (pushed, ready₁) = Ready-push limit t s.stack nest ready small room ht in
        let s₁ = entered t s g a in
        let (popped, ready₂) = Ready-pop limit t s₁.stack nest ready₁ in
        let byte = (Holds-right s.mis.bytes (suc s.mis.read) a _ h).0 in
        let skipped =
          white-Blank lib send opts (inside lib send opts t s g) a (close_byte lib send opts t)
            blank (Holds-left s.mis.bytes (suc s.mis.read) a _ h) byte (ground arith)
            (omega arith) in
        let closed =
          close_container-ok lib send opts t (top nest) s₁ _ g₂
            (parse_end-ok t s₁ (top nest) (Ready-top limit t s₁.stack nest ready₁) popped) ended in
        leaf-Reads s (mis_take s₁.mis) (stack_pop s₁.stack).1 g₂ (1 + length a + 1) nest es fuel b
          low ready₂
          (Moved-then s.mis s₁.mis (mis_take s₁.mis) (1 + length a) 1 _ (entered-Moved t s g a)
            (Moved-take s₁.mis) refl)
          (dispatch
            ∙ open_container-empty lib send opts t s s₁ g (close_byte lib send opts t) pushed
                started skipped (ground arith) (top nest) _ refl closed)
          sends le

    pub enters :
        (fuel : ℕ) (ws : List ℕ)
        → Holds s.mis.bytes (suc s.mis.read) (a ++ ws)
        → Opening (mis_peek (entered t s g a).mis)
        → suc s.mis.read + length a ≤ s.mis.count
        → at_value lib send opts fuel (top nest) b s
          ≡ rounds lib send opts fuel t (mis_peek (entered t s g a).mis) (entered t s g a)
    enters fuel ws h opening inside_text =
        let (pushed, ready₁) = Ready-push limit t s.stack nest ready small room ht in
        let s₁ = entered t s g a in
        let skipped =
          white-Blank lib send opts (inside lib send opts t s g) a _ blank
            (Holds-left s.mis.bytes (suc s.mis.read) a ws h) refl (opening.0) inside_text in
        at_value-opened lib send opts fuel (top nest) b t _ s s₁ (
          dispatch
          ∙ open_container-more lib send opts t s s₁ g _ pushed started skipped opening.1 _ s₁
              (ground (arith, opening.2, opening.3)) (white-none s₁ (opening.0) inside_text))

  -- where the value of a member stands
  pub value_at :
      (s : State G) (body a b ws : List ℕ)
      → Holds s.mis.bytes s.mis.read (in_quotes body ++ (a ++ b':' ∷ (b ++ ws)))
      → Holds s.mis.bytes (s.mis.read + (length (in_quotes body) + (length a + 1 + length b))) ws
  value_at s body a b ws h =
      let m = s.mis.bytes in
      let i = s.mis.read + length (in_quotes body) in
      let there : s.mis.read + (length (in_quotes body) + (length a + 1 + length b))
          ≡ suc (i + length a) + length b =
        omega arith in
      rw there (
        Holds-right m (suc (i + length a)) b ws
          (Holds-right m i a _ (Holds-right m s.mis.read (in_quotes body) _ h)).1)

  -- A member up to the first byte of its value: the key, a colon, and the blanks around it.
  pub key-Reads :
      (s : State G) (body key a b ws : List ℕ) (fuel less : ℕ) (g : G)
      → Denotes opts.validate_utf8 body key
      → Blank a
      → Blank b
      → Holds s.mis.bytes s.mis.read (in_quotes body ++ (a ++ b':' ∷ (b ++ ws)))
      → Opening (s.mis.bytes (s.mis.read + (length (in_quotes body) + (length a + 1 + length b))))
      → s.mis.read + (length (in_quotes body) + (length a + 1 + length b)) ≤ s.mis.count
      → send (Event.key key) s.gen ≡ some (true, g)
      → fuel ≡ suc less
      → (m : Mis) × Moved s.mis m (length (in_quotes body) + (length a + 1 + length b))
        × (rounds lib send opts fuel 0 (mis_peek s.mis) s
            ≡ at_value lib send opts less 0 (mis_peek m) (record s { mis = m; gen = g }))
  key-Reads s body key a b ws fuel less g d blank blank' h opening room e eq =
      let n = length (in_quotes body) in
      let (count, m, parsed, moved, is) =
        string-Moved opts.validate_utf8 s.mis body key d
          (Holds-left s.mis.bytes s.mis.read (in_quotes body) _ h) (omega arith) in
      let ha =
        Holds-Moved s.mis m n _ moved (Holds-right s.mis.bytes s.mis.read (in_quotes body) _ h) in
      let hb = Holds-right m.bytes m.read a _ ha in
      let m' = past m a b in
      let all = Moved-then s.mis m m' n _ _ moved (past-Moved m a b) refl in
      let first : mis_peek m' ≡ s.mis.bytes (s.mis.read + (n + (length a + 1 + length b))) =
        all.ahead m'.read (omega arith) ∙ rw (all.read) in
      let opening' : Opening (mis_peek m') = rw first opening in
      let s₁ = record s { mis = m } in
      let s₂ = record s { mis = forward m (length a) } in
      let s₃ = record s { mis = m'; gen = g } in
      let skipped =
        white-Blank lib send opts s₁ a b':' blank (Holds-left m.bytes m.read a _ ha) (hb.0)
          (refl, λ q. omega (arith, q)) (omega (arith, moved.read, moved.count)) in
      let again =
        white-Blank lib send opts (record s { mis = mis_take (forward m (length a)); gen = g }) b
          (mis_peek m') blank' (Holds-left m.bytes (suc (m.read + length a)) b ws hb.1) refl
          (opening'.0) (omega (arith, moved.read, moved.count)) in
      let quote : mis_peek s.mis ≡ b'"' = h.0 in
      (
        m',
        all,
        rw quote (
            rounds-member lib send opts fuel less b'"' (mis_peek m') s s₃ eq (
              parse_member_key-ok lib send opts count (mis_peek m') s s₂ s₃ m g parsed skipped
                (rw is e) again)),
      )
