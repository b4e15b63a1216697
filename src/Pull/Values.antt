-- ===== src/Pull/Values.antt =====
-- src/parsenext.c: the calls of jsnpg_parse_next over the text of a JSON value give its events.
use jsnpg.Base.{
  ℕ, suc, ◌+◌, ◌≤◌, List, [], ◌∷◌, ◌++◌, true, some, ◌≡◌, refl, ◌∙◌, ap, arith, false, length,
  length-append, max,
}
use jsnpg.Base.Memory.{Holds, Holds-left, Holds-right}
use jsnpg.Types.{Event, Payload}
use jsnpg.Floats.{FloatLib}
use jsnpg.Input.{Mis, mis_peek, mis_take}
use jsnpg.Dom.{type_of}
use jsnpg.Json.{
  Value, Elements, Members, depth, depth_elements, depth_members, events, events_elements,
  events_members,
}
use jsnpg.Json.Grammar.{
  in_quotes, Spells, null, truth, falsity, integer, string, no_elements, elements, no_members,
  members, SpellsElements, final, another, SpellsMembers, end, further,
}
use jsnpg.Json.Grammar.First.{
  Spells-Opening, Blank-EndsInteger, Elements-Opening, Members-quote, signed-first,
}
use jsnpg.Parser.Escape.Reads.{forward}
use jsnpg.Parser.Literal.Matches.{parse_true-Holds, parse_false-Holds, parse_null-Holds}
use jsnpg.Parser.Number.Integers.{signed, EndsInteger, parse_number-Natural}
use jsnpg.Parser.Moved.{past, past-Moved, Moved-none, Moved-forward, Holds-Moved}
use jsnpg.Parser.Strings.Quoted.{string-Moved}
use jsnpg.Sax.{Options, State}
use jsnpg.Sax.Runs.{Ready}
use jsnpg.Pull.{DomPosition, state_change_value, Progress, expect_value, expect_key, parse_next}
use jsnpg.Pull.Steps.{
  at, expect_value-null, expect_value-true, expect_value-false, expect_value-string,
  expect_value-integer,
}
use jsnpg.Pull.Containers.{
  array_end, object_end, element_end, member_end, first_element, first_member, next_element,
  next_member,
}
use jsnpg.Pull.Calls.{behind, leaf-Pulls, Pulls-then, end-Pulls}
use jsnpg.Pull.Openings.{Shown, in_new_array, in_new_object, array-Pulls, object-Pulls, key-Pulls}

module _ (lib : FloatLib) (opts : Options) (limit : ℕ) (small : limit ≤ 2048)
    (dom : DomPosition (lib.Real)) where
  mutual
    unfolding type_of state_change_value

    -- From a call that finds a value's first byte, to behind the value.
    pub value-Pulls :
        (x : Value (lib.Real)) (w : List ℕ)
        → Spells opts.validate_utf8 x w
        → (p : State (Progress (lib.Real))) (m : Mis) (nest : List ℕ) → p.mis.start ≡ true
        → m.start ≡ true
        → parse_next lib opts p ≡ expect_value lib opts (mis_peek m) (at lib opts p m)
        → state_change_value p.gen.state ≡ some (behind nest)
        → Ready limit p.stack nest
        → Holds m.bytes m.read w
        → m.read + length w ≤ m.count
        → EndsInteger (m.bytes (m.read + length w))
        → depth x + length nest ≤ limit
        → Shown lib opts limit small dom p m (length w) nest (λ rest. events x rest)
    value-Pulls _ _ null p m nest started started' run changes r h room ends deep =
        leaf-Pulls lib opts limit dom Event.null p (at lib opts p (forward m 4)) m
          Payload.no_payload 4 nest started
          (run
            ∙ rw (h.0) (
                expect_value-null lib opts (at lib opts p m) _ _ changes
                  (parse_null-Holds m b'n' h)))
          tt (Moved-forward m 4) r
    value-Pulls _ _ truth p m nest started started' run changes r h room ends deep =
        leaf-Pulls lib opts limit dom (Event.boolean true) p (at lib opts p (forward m 4)) m
          Payload.no_payload 4 nest started
          (run
            ∙ rw (h.0) (
                expect_value-true lib opts (at lib opts p m) _ _ changes
                  (parse_true-Holds m b't' h)))
          tt (Moved-forward m 4) r
    value-Pulls _ _ falsity p m nest started started' run changes r h room ends deep =
        leaf-Pulls lib opts limit dom (Event.boolean false) p (at lib opts p (forward m 5)) m
          Payload.no_payload 5 nest started
          (run
            ∙ rw (h.0) (
                expect_value-false lib opts (at lib opts p m) _ _ changes
                  (parse_false-Holds m b'f' h)))
          tt (Moved-forward m 5) r
    value-Pulls _ _ (integer cs n negative d short fits) p m nest started started' run changes r h
          room ends deep =
        leaf-Pulls lib opts limit dom (Event.integer _) p
          (at lib opts p (forward m (length (signed negative cs)))) m (Payload.integer _) _ nest
          started
          (run
            ∙ expect_value-integer lib opts (at lib opts p m) _ _ changes (mis_peek m) _
                (signed-first m.bytes m.read negative cs n d h)
                (parse_number-Natural lib m negative cs n d h ends room short fits))
          refl (Moved-forward m _) r
    value-Pulls _ _ (string body text d) p m nest started started' run changes r h room ends deep =
        let (count, m', parsed, moved, is) = string-Moved opts.validate_utf8 m body text d h room in
        leaf-Pulls lib opts limit dom (Event.string text) p (at lib opts p m') m
          (Payload.text m'.string count) _ nest started
          (run
            ∙ rw (h.0) (expect_value-string lib opts (at lib opts p m) m' _ changes count parsed))
          (ap (λ bs. some bs) is) moved r
    value-Pulls _ _ (no_elements a blank) p m nest started started' run changes r h room ends deep =
        let size = length-append a (b']' ∷ []) in
        let p' =
          in_new_array lib opts limit small dom p m nest started started' run r
            (omega (arith, deep)) in
        array-Pulls lib opts limit small dom p m nest started started' run r (omega (arith, deep))
          (mis_take m) 0 (length a + 1) _ (λ rest. Event.end_array ∷ rest) h.0
          (Moved-none (mis_take m))
          (λ ready.
            end-Pulls lib opts limit dom Event.end_array p' a b']' 1 nest started' ready blank h.1
              (refl, λ q. omega (arith, q)) (omega (arith, size, room)) (array_end lib opts)
              (λ m. tt))
          (omega (arith, size))
    value-Pulls _ _ (no_members a blank) p m nest started started' run changes r h room ends deep =
        let size = length-append a (b'}' ∷ []) in
        let p' =
          in_new_object lib opts limit small dom p m nest started started' run r
            (omega (arith, deep)) in
        object-Pulls lib opts limit small dom p m nest started started' run r (omega (arith, deep))
          (mis_take m) 0 (length a + 1) _ (λ rest. Event.end_object ∷ rest) h.0
          (Moved-none (mis_take m))
          (λ ready.
            end-Pulls lib opts limit dom Event.end_object p' a b'}' 0 nest started' ready blank h.1
              (refl, λ q. omega (arith, q)) (omega (arith, size, room)) (object_end lib opts)
              (λ m. tt))
          (omega (arith, size))
    value-Pulls _ _ (elements a w {x} {xs} blank inner) p m nest started started' run changes r h
          room ends deep =
        let size = length-append a w in
        let m' = forward (mis_take m) (length a) in
        let p' =
          in_new_array lib opts limit small dom p m nest started started' run r
            (omega (arith, deep)) in
        let hw = Holds-right m.bytes (suc m.read) a w h.1 in
        let opening = Elements-Opening opts.validate_utf8 x xs w m.bytes _ inner hw in
        array-Pulls lib opts limit small dom p m nest started started' run r (omega (arith, deep))
          m' (length a) (length w) _ _ h.0 (Moved-forward (mis_take m) (length a))
          (λ ready.
            elements-Pulls x xs w inner p' m' nest started' started'
              (first_element lib opts p' a w blank h.1 opening (omega (arith, size, room)) refl)
              refl ready hw (omega (arith, size, room)) (omega (arith, deep)))
          (omega (arith, size))
    value-Pulls _ _ (members a w k {x} {xs} blank inner) p m nest started started' run changes r h
          room ends deep =
        let size = length-append a w in
        let m' = forward (mis_take m) (length a) in
        let p' =
          in_new_object lib opts limit small dom p m nest started started' run r
            (omega (arith, deep)) in
        let hw = Holds-right m.bytes (suc m.read) a w h.1 in
        let quote = Members-quote opts.validate_utf8 k x xs w m.bytes _ inner hw in
        object-Pulls lib opts limit small dom p m nest started started' run r (omega (arith, deep))
          m' (length a) (length w) _ _ h.0 (Moved-forward (mis_take m) (length a))
          (λ ready.
            members-Pulls k x xs w inner p' m' nest started' started'
              (first_member lib opts p' a w blank h.1 (ground (arith, quote))
                (omega (arith, size, room)) refl)
              ready hw (omega (arith, size, room)) (omega (arith, deep)))
          (omega (arith, size))

    -- From a call that finds an element's first byte, to behind the array.
    elements-Pulls :
        (x : Value (lib.Real)) (xs : Elements (lib.Real)) (w : List ℕ)
        → SpellsElements opts.validate_utf8 x xs w
        → (p : State (Progress (lib.Real))) (m : Mis) (nest : List ℕ) → p.mis.start ≡ true
        → m.start ≡ true
        → parse_next lib opts p ≡ expect_value lib opts (mis_peek m) (at lib opts p m)
        → state_change_value p.gen.state ≡ some (behind (1 ∷ nest))
        → Ready limit p.stack (1 ∷ nest)
        → Holds m.bytes m.read w
        → m.read + length w ≤ m.count
        → max (depth x) (depth_elements xs) + suc (length nest) ≤ limit
        → Shown lib opts limit small dom p m
            (length w)
            nest
            (λ rest. events x (events_elements xs (Event.end_array ∷ rest)))
    elements-Pulls x _ _ (final w b sp blank) p m nest started started' run changes r h room deep =
        let size = length-append w (b ++ b']' ∷ []) in
        let size' = length-append b (b']' ∷ []) in
        let hb = Holds-right m.bytes m.read w _ h in
        let q =
          value-Pulls x w sp p m (1 ∷ nest) started started' run changes r
            (Holds-left m.bytes m.read w _ h) (omega (arith, size, room))
            (Blank-EndsInteger m.bytes (m.read + length w) b [] b']' blank (ground arith) hb)
            (omega (arith, deep)) in
        Pulls-then lib opts limit dom p m q.after.mis (length w) 0 (length b + 1) _ (1 ∷ nest) nest
          (λ rest. events x rest) (λ rest. Event.end_array ∷ rest) q (Moved-none q.after.mis)
          (end-Pulls lib opts limit dom Event.end_array q.after b b']' 1 nest
            (q.moved.start ∙ started') q.ready blank
            (Holds-Moved m q.after.mis (length w) _ q.moved hb) (refl, λ e. omega (arith, e))
            (omega (arith, q.moved.read, q.moved.count, size, size', room))
            (λ s. element_end lib opts q.after.gen.state s q.state) (λ m. tt))
          (omega (arith, size, size'))
    elements-Pulls x _ _ (another w b a ws {y = y} {ys = ys} sp blank blank' rest) p m nest started
          started' run changes r h room deep =
        let gap = length b + 1 + length a in
        let size = length-append w (b ++ b',' ∷ (a ++ ws)) in
        let size' = length-append b (b',' ∷ (a ++ ws)) in
        let size₃ = length-append a ws in
        let hb = Holds-right m.bytes m.read w _ h in
        let q =
          value-Pulls x w sp p m (1 ∷ nest) started started' run changes r
            (Holds-left m.bytes m.read w _ h) (omega (arith, size, room))
            (Blank-EndsInteger m.bytes (m.read + length w) b _ b',' blank (ground arith) hb)
            (omega (arith, deep)) in
        let m' = past q.after.mis b a in
        let h' = Holds-Moved m q.after.mis (length w) _ q.moved hb in
        let hs =
          Holds-right m'.bytes (suc (q.after.mis.read + length b)) a ws
            (Holds-right m'.bytes q.after.mis.read b _ h').1 in
        let still : q.after.mis.start ≡ true = q.moved.start ∙ started' in
        Pulls-then lib opts limit dom p m m' (length w) gap (length ws) _ (1 ∷ nest) nest
          (λ rest. events x rest) _ q (past-Moved q.after.mis b a)
          (elements-Pulls y ys ws rest q.after m' nest still still
            (next_element lib opts q.after b a ws blank blank' h'
              (Elements-Opening opts.validate_utf8 y ys ws m'.bytes _ rest hs)
              (omega (arith, q.moved.read, q.moved.count, size, size', size₃, room)) q.state)
            (ap (λ s. state_change_value s) q.state) q.ready hs
            (omega (arith, q.moved.read, q.moved.count, size, size', size₃, room))
            (omega (arith, deep)))
          (omega (arith, size, size', size₃))

    -- From a call that finds a member's key, to behind the object.
    members-Pulls :
        (k : List ℕ) (x : Value (lib.Real)) (xs : Members (lib.Real)) (w : List ℕ)
        → SpellsMembers opts.validate_utf8 k x xs w
        → (p : State (Progress (lib.Real))) (m : Mis) (nest : List ℕ) → p.mis.start ≡ true
        → m.start ≡ true
        → parse_next lib opts p ≡ expect_key lib opts (mis_peek m) (at lib opts p m)
        → Ready limit p.stack (0 ∷ nest)
        → Holds m.bytes m.read w
        → m.read + length w ≤ m.count
        → max (depth x) (depth_members xs) + suc (length nest) ≤ limit
        → Shown lib opts limit small dom p m
            (length w)
            nest
            (λ rest. Event.key k ∷ events x (events_members xs (Event.end_object ∷ rest)))
    members-Pulls _ x _ _ (end body k a b w c d ba bb sp bc) p m nest started started' run r h room
          deep =
        let q' = in_quotes body in
        let tail = c ++ b'}' ∷ [] in
        let size₁ = length-append q' (a ++ b':' ∷ (b ++ (w ++ tail))) in
        let size₂ = length-append a (b':' ∷ (b ++ (w ++ tail))) in
        let size₃ = length-append b (w ++ tail) in
        let size₄ = length-append w tail in
        let size₅ = length-append c (b'}' ∷ []) in
        key-Pulls lib opts limit small dom p m nest body k a b (w ++ tail)
          (length w + 0 + (length c + 1)) _ (λ rest. events x (Event.end_object ∷ rest)) started
          started' run r d ba bb h (omega (arith, size₁, size₂, size₃, room))
          (λ bytes i h'.
            Spells-Opening opts.validate_utf8 x w bytes i sp (Holds-left bytes i w tail h'))
          (λ p' m' still run' state r' moved hw.
            let hc = Holds-right m'.bytes m'.read w tail hw in
            let q =
              value-Pulls x w sp p' m' (0 ∷ nest) still (moved.start ∙ started') run'
                (ap (λ s. state_change_value s) state) r' (Holds-left m'.bytes m'.read w tail hw)
                (omega (arith, moved.read, moved.count, size₁, size₂, size₃, size₄, room))
                (Blank-EndsInteger m'.bytes (m'.read + length w) c [] b'}' bc (ground arith) hc)
                (omega (arith, deep)) in
            Pulls-then lib opts limit dom p' m' q.after.mis (length w) 0 (length c + 1) _ (0 ∷ nest)
              nest (λ rest. events x rest) (λ rest. Event.end_object ∷ rest) q
              (Moved-none q.after.mis)
              (end-Pulls lib opts limit dom Event.end_object q.after c b'}' 0 nest
                (q.moved.start ∙ moved.start ∙ started') q.ready bc
                (Holds-Moved m' q.after.mis (length w) _ q.moved hc) (refl, λ e. omega (arith, e))
                (omega (
                  arith, moved.read, moved.count, q.moved.read, q.moved.count, size₁, size₂, size₃,
                  size₄, size₅, room,
                ))
                (λ s. member_end lib opts q.after.gen.state s q.state) (λ m. tt))
              refl)
          (omega (arith, size₁, size₂, size₃, size₄, size₅))
    members-Pulls _ x _ _ (further body k a b w c d ws k' {y = y} {ys = ys} dn ba bb sp bc bd rest)
          p m nest started started' run r h room deep =
        let q' = in_quotes body in
        let gap = length c + 1 + length d in
        let tail = c ++ b',' ∷ (d ++ ws) in
        let size₁ = length-append q' (a ++ b':' ∷ (b ++ (w ++ tail))) in
        let size₂ = length-append a (b':' ∷ (b ++ (w ++ tail))) in
        let size₃ = length-append b (w ++ tail) in
        let size₄ = length-append w tail in
        let size₅ = length-append c (b',' ∷ (d ++ ws)) in
        let size₆ = length-append d ws in
        key-Pulls lib opts limit small dom p m nest body k a b (w ++ tail)
          (length w + gap + length ws) _
          (λ more. events x (Event.key k' ∷ events y (events_members ys (Event.end_object ∷ more))))
          started started' run r dn ba bb h (omega (arith, size₁, size₂, size₃, room))
          (λ bytes i h'.
            Spells-Opening opts.validate_utf8 x w bytes i sp (Holds-left bytes i w tail h'))
          (λ p' m' still run' state r' moved hw.
            let hc = Holds-right m'.bytes m'.read w tail hw in
            let q =
              value-Pulls x w sp p' m' (0 ∷ nest) still (moved.start ∙ started') run'
                (ap (λ s. state_change_value s) state) r' (Holds-left m'.bytes m'.read w tail hw)
                (omega (arith, moved.read, moved.count, size₁, size₂, size₃, size₄, room))
                (Blank-EndsInteger m'.bytes (m'.read + length w) c _ b',' bc (ground arith) hc)
                (omega (arith, deep)) in
            let next = past q.after.mis c d in
            let h₁ = Holds-Moved m' q.after.mis (length w) _ q.moved hc in
            let hs =
              Holds-right next.bytes (suc (q.after.mis.read + length c)) d ws
                (Holds-right next.bytes q.after.mis.read c _ h₁).1 in
            let on = q.moved.start ∙ moved.start ∙ started' in
            let room' : next.read + length ws ≤ next.count = omega (
              arith, moved.read, moved.count, q.moved.read, q.moved.count, size₁, size₂, size₃,
              size₄, size₅, size₆, room,
            ) in
            Pulls-then lib opts limit dom p' m' next (length w) gap (length ws) _ (0 ∷ nest) nest
              (λ more. events x more) _ q (past-Moved q.after.mis c d)
              (members-Pulls k' y ys ws rest q.after next nest on on
                (next_member lib opts q.after c d ws bc bd h₁
                  (ground (arith, Members-quote opts.validate_utf8 k' y ys ws next.bytes _ rest hs))
                  (omega (arith, room')) q.state)
                q.ready hs room' (omega (arith, deep)))
              refl)
          (omega (arith, size₁, size₂, size₃, size₄, size₅, size₆))
