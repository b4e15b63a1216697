-- ===== src/Pull/Openings.antt =====
-- src/parsenext.c: the calls of jsnpg_parse_next at an opening bracket and at a member's key, in front
-- of those for what stands behind.
use jsnpg.Base.{
  ℕ, suc, ◌+◌, ◌≤◌, ◌<◌, List, ◌∷◌, ◌++◌, true, some, ◌≡◌, refl, ◌∙◌, ap, arith, length,
}
use jsnpg.Base.Memory.{Holds, Holds-left, Holds-right}
use jsnpg.Types.{Event, Payload, type_start_array, type_start_object, type_key}
use jsnpg.Floats.{FloatLib}
use jsnpg.Stack.{stack_object, stack_array}
use jsnpg.Input.{Mis, mis_peek, mis_take}
use jsnpg.Dom.{type_of}
use jsnpg.Json.Grammar.{Blank, in_quotes}
use jsnpg.Json.Grammar.First.{Opening}
use jsnpg.Parser.Grammar.{Denotes}
use jsnpg.Parser.Escape.Reads.{forward}
use jsnpg.Parser.Moved.{past, past-Moved, Moved, Moved-take, Moved-then, Holds-Moved}
use jsnpg.Parser.Strings.Quoted.{string-Moved}
use jsnpg.Sax.{Options, State}
use jsnpg.Sax.Runs.{Ready, Ready-push}
use jsnpg.Pull.{
  DomPosition, state_object, state_array, state_key, Progress, expect_value, expect_key, parse_next,
}
use jsnpg.Pull.Steps.{at, opened, expect_value-array, expect_value-object, expect_key-ok}
use jsnpg.Pull.Containers.{member_value}
use jsnpg.Pull.Calls.{accepted, Pulls, call-Pulls}

module _ (lib : FloatLib) (opts : Options) (limit : ℕ) (small : limit ≤ 2048)
    (dom : DomPosition (lib.Real)) where
  abbrev pub Shown :
      State (Progress (lib.Real))
      → Mis
      → ℕ
      → List ℕ
      → (List (Event (lib.Real)) → List (Event (lib.Real)))
      → Type 0
  Shown = Pulls lib opts limit dom

  -- An opening bracket that the next call finds, and the calls behind it. The parser after the call:
  module _ (p : State (Progress (lib.Real))) (m : Mis) (nest : List ℕ)
      (started : p.mis.start ≡ true) (started' : m.start ≡ true)
      (run : parse_next lib opts p ≡ expect_value lib opts (mis_peek m) (at lib opts p m))
      (r : Ready limit p.stack nest) (room : length nest < limit) where
    abbrev pub in_new_array : State (Progress (lib.Real))
    in_new_array =
        accepted lib opts limit dom state_array type_start_array Payload.no_payload
          (opened lib opts stack_array (at lib opts p m))

    abbrev pub in_new_object : State (Progress (lib.Real))
    in_new_object =
        accepted lib opts limit dom state_object type_start_object Payload.no_payload
          (opened lib opts stack_object (at lib opts p m))

    pub array-Pulls :
        (m' : Mis) (gap n total : ℕ) (es : List (Event (lib.Real)) → List (Event (lib.Real)))
        → mis_peek m ≡ b'['
        → Moved (mis_take m) m' gap
        → (Ready limit in_new_array.stack (1 ∷ nest) → Shown in_new_array m' n nest es)
        → 1 + gap + n ≡ total
        → Shown p m total nest (λ rest. Event.start_array ∷ es rest)
    unfolding type_of
    array-Pulls m' gap n total es byte moved calls sum =
        let (pushed, ready) = Ready-push limit 1 p.stack nest r small room (omega arith) in
        call-Pulls lib opts limit dom Event.start_array es p
          (opened lib opts stack_array (at lib opts p m)) m m' state_array Payload.no_payload
          (1 + gap) n total nest started
          (run ∙ rw byte (expect_value-array lib opts (at lib opts p m) pushed)) tt
          (Moved-then m (mis_take m) m' 1 gap _ (Moved-take m) moved refl) (calls ready) sum

    pub object-Pulls :
        (m' : Mis) (gap n total : ℕ) (es : List (Event (lib.Real)) → List (Event (lib.Real)))
        → mis_peek m ≡ b'{'
        → Moved (mis_take m) m' gap
        → (Ready limit in_new_object.stack (0 ∷ nest) → Shown in_new_object m' n nest es)
        → 1 + gap + n ≡ total
        → Shown p m total nest (λ rest. Event.start_object ∷ es rest)
    unfolding type_of
    object-Pulls m' gap n total es byte moved calls sum =
        let (pushed, ready) = Ready-push limit 0 p.stack nest r small room (omega arith) in
        call-Pulls lib opts limit dom Event.start_object es p
          (opened lib opts stack_object (at lib opts p m)) m m' state_object Payload.no_payload
          (1 + gap) n total nest started
          (run ∙ rw byte (expect_value-object lib opts (at lib opts p m) pushed)) tt
          (Moved-then m (mis_take m) m' 1 gap _ (Moved-take m) moved refl) (calls ready) sum

  -- A member's key, which the next call finds, and the calls from its value on.
  pub key-Pulls :
      (p : State (Progress (lib.Real))) (m : Mis) (nest body k a b ws : List ℕ) (n total : ℕ)
      (es : List (Event (lib.Real)) → List (Event (lib.Real)))
      → p.mis.start ≡ true
      → m.start ≡ true
      → parse_next lib opts p ≡ expect_key lib opts (mis_peek m) (at lib opts p m)
      → Ready limit p.stack (0 ∷ nest)
      → Denotes opts.validate_utf8 body k
      → Blank a
      → Blank b
      → Holds m.bytes m.read (in_quotes body ++ (a ++ b':' ∷ (b ++ ws)))
      → m.read + (length (in_quotes body) + (length a + 1 + length b)) ≤ m.count
      → ((bytes : ℕ → ℕ) (i : ℕ) → Holds bytes i ws → Opening (bytes i))
      → ((p' : State (Progress (lib.Real))) (m' : Mis)
          → p'.mis.start ≡ true
          → parse_next lib opts p' ≡ expect_value lib opts (mis_peek m') (at lib opts p' m')
          → p'.gen.state ≡ state_key
          → Ready limit p'.stack (0 ∷ nest)
          → Moved m m' (length (in_quotes body) + (length a + 1 + length b))
          → Holds m'.bytes m'.read ws
          → Shown p' m' n nest es)
      → length (in_quotes body) + (length a + 1 + length b) + n ≡ total
      → Shown p m total nest (λ rest. Event.key k ∷ es rest)
  unfolding type_of
  key-Pulls p m nest body k a b ws n total es started started' run r d ba bb h room opening calls
        sum =
      let (count, m₁, parsed, moved, is) =
        string-Moved opts.validate_utf8 m body k d (Holds-left m.bytes m.read (in_quotes body) _ h)
          (omega (arith, room)) in
      let ha =
        Holds-Moved m m₁ (length (in_quotes body)) _ moved
          (Holds-right m.bytes m.read (in_quotes body) _ h) in
      let hb = (Holds-right m₁.bytes m₁.read a _ ha).1 in
      let hw = Holds-right m₁.bytes (suc (m₁.read + length a)) b ws hb in
      let q = at lib opts p (mis_take (forward m₁ (length a))) in
      let p' = accepted lib opts limit dom state_key type_key (Payload.text m₁.string count) q in
      let m' = past m₁ a b in
      let all = Moved-then m m₁ m' (length (in_quotes body)) _ _ moved (past-Moved m₁ a b) refl in
      let still : m₁.start ≡ true = moved.start ∙ started' in
      call-Pulls lib opts limit dom (Event.key k) es p q m m' state_key
        (Payload.text m₁.string count) _ n total nest started
        (run
          ∙ rw (h.0) (
              expect_key-ok lib opts (at lib opts p m) m₁ count a (b ++ ws) parsed ba ha
                (omega (arith, moved.read, moved.count, room))))
        (ap (λ bs. some bs) is) all
        (calls p' m' still
          (member_value lib opts p' b ws bb hb (opening m₁.bytes _ hw)
            (omega (arith, moved.read, moved.count, room)) refl)
          refl r all hw)
        sum
