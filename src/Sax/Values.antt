-- ===== src/Sax/Values.antt =====
-- src/parse.c: the loop of parse_generate reads the text of a JSON value, and sends its events.
use jsnpg.Base.{
  ℕ, suc, ◌+◌, ◌-◌, ◌≤◌, List, [], ◌∷◌, ◌++◌, Bool, Option, ◌≡◌, refl, ◌∙◌, arith, length,
  length-append, max,
}
use jsnpg.Base.Memory.{Holds, Holds-left, Holds-right}
use jsnpg.Types.{Event}
use jsnpg.Floats.{FloatLib}
use jsnpg.Input.{mis_peek}
use jsnpg.Json.{
  Value, Elements, Members, depth, depth_elements, depth_members, events, events_elements,
  events_members,
}
use jsnpg.Json.Grammar.{
  in_quotes, Spells, null, truth, falsity, integer, string, no_elements, elements, no_members,
  members, SpellsElements, final, another, SpellsMembers, end, further,
}
use jsnpg.Json.Grammar.First.{
  Opening, Spells-Opening, Blank-EndsInteger, Elements-Opening, Members-quote, signed-first,
}
use jsnpg.Parser.Escape.Reads.{forward}
use jsnpg.Parser.Literal.Matches.{parse_true-Holds, parse_false-Holds, parse_null-Holds}
use jsnpg.Parser.Number.Integers.{signed, EndsInteger, parse_number-Natural}
use jsnpg.Parser.Moved.{Moved-forward, Moved-then, Holds-Moved}
use jsnpg.Sax.{Options, State, Run, rounds}
use jsnpg.Sax.Steps.{at_value, rounds-plain_at}
use jsnpg.Sax.Items.{
  parse_value-array, parse_value-object, parse_value-null, parse_value-true, parse_value-false,
  parse_value-string, parse_value-integer,
}
use jsnpg.Generate.Sends.{Sends, sending}
use jsnpg.Sax.Runs.{top, Ready, Ready-push, Runs, Runs-then, finishes, resumes}
use jsnpg.Parser.Strings.Quoted.{string-Moved}
use jsnpg.Sax.Reads.{leaf-Reads, entered, entered-Moved, empty-Reads, enters, key-Reads, value_at}

module _ {G : Type 0} (lib : FloatLib) (send : Event (lib.Real) → G → Option (Bool × G))
    (opts : Options) (limit : ℕ) (small : limit ≤ 2048) (goal : G) where
  abbrev After : State G → ℕ → List ℕ → List (Event (lib.Real)) → Run G (Unit {0}) → ℕ → Type 0
  After = Runs lib send opts limit goal

  mutual
    -- From the first byte of a value's text, the loop comes behind the value.
    pub value-Reads :
        (x : Value (lib.Real)) (w : List ℕ)
        → Spells opts.validate_utf8 x w
        → (s : State G) (nest : List ℕ) (es : List (Event (lib.Real))) (fuel low : ℕ)
        → Ready limit s.stack nest
        → Holds s.mis.bytes s.mis.read w
        → s.mis.read + length w ≤ s.mis.count
        → EndsInteger (s.mis.bytes (s.mis.read + length w))
        → depth x + length nest ≤ limit
        → low + length w ≤ fuel
        → Sends send goal (events x es) s.gen
        → After s (length w) nest es (at_value lib send opts fuel (top nest) (mis_peek s.mis) s) low
    value-Reads _ _ null s nest es fuel low r h room ends deep le (sending {g' = g} e sends) =
        leaf-Reads lib send opts limit small goal s (forward s.mis 4) s.stack g 4 nest es fuel
          (mis_peek s.mis) low r (Moved-forward s.mis 4)
          (rw (h.0)
            (parse_value-null lib send opts (top nest) s _ g (parse_null-Holds s.mis b'n' h) e))
          sends le
    value-Reads _ _ truth s nest es fuel low r h room ends deep le (sending {g' = g} e sends) =
        leaf-Reads lib send opts limit small goal s (forward s.mis 4) s.stack g 4 nest es fuel
          (mis_peek s.mis) low r (Moved-forward s.mis 4)
          (rw (h.0)
            (parse_value-true lib send opts (top nest) s _ g (parse_true-Holds s.mis b't' h) e))
          sends le
    value-Reads _ _ falsity s nest es fuel low r h room ends deep le (sending {g' = g} e sends) =
        leaf-Reads lib send opts limit small goal s (forward s.mis 5) s.stack g 5 nest es fuel
          (mis_peek s.mis) low r (Moved-forward s.mis 5)
          (rw (h.0)
            (parse_value-false lib send opts (top nest) s _ g (parse_false-Holds s.mis b'f' h) e))
          sends le
    value-Reads _ _ (integer cs n negative d short fits) s nest es fuel low r h room ends deep le
          (sending {g' = g} e sends) =
        leaf-Reads lib send opts limit small goal s (forward s.mis (length (signed negative cs)))
          s.stack g _ nest es fuel (mis_peek s.mis) low r (Moved-forward s.mis _)
          (parse_value-integer lib send opts (top nest) (mis_peek s.mis) _ s _ g
            (signed-first s.mis.bytes s.mis.read negative cs n d h)
            (parse_number-Natural lib s.mis negative cs n d h ends room short fits) e)
          sends le
    value-Reads _ _ (string body text d) s nest es fuel low r h room ends deep le
          (sending {g' = g} e sends) =
        let (count, m, parsed, moved, is) =
          string-Moved opts.validate_utf8 s.mis body text d h room in
        leaf-Reads lib send opts limit small goal s m s.stack g _ nest es fuel (mis_peek s.mis) low
          r moved
          (rw (h.0) (parse_value-string lib send opts (top nest) count s m g parsed (rw is e)))
          sends le
    value-Reads _ _ (no_elements a blank) s nest es fuel low r h room ends deep le
          (sending {g' = g} e sends) =
        let size = length-append a (b']' ∷ []) in
        let n : 1 + length a + 1 ≡ suc (length (a ++ b']' ∷ [])) = omega (arith, size) in
        rw (← n) (
          empty-Reads lib send opts limit small goal 1 (omega arith) s nest r (omega (arith, deep))
            (mis_peek s.mis) (rw (h.0) (parse_value-array lib send opts (top nest) s)) g e a blank
            es fuel low h.1 (omega (arith, size)) sends (omega (arith, size, le)))
    value-Reads _ _ (no_members a blank) s nest es fuel low r h room ends deep le
          (sending {g' = g} e sends) =
        let size = length-append a (b'}' ∷ []) in
        let n : 1 + length a + 1 ≡ suc (length (a ++ b'}' ∷ [])) = omega (arith, size) in
        rw (← n) (
          empty-Reads lib send opts limit small goal 0 (omega arith) s nest r (omega (arith, deep))
            (mis_peek s.mis) (rw (h.0) (parse_value-object lib send opts (top nest) s)) g e a blank
            es fuel low h.1 (omega (arith, size)) sends (omega (arith, size, le)))
    value-Reads _ _ (elements a w {x} {xs} blank inner) s nest es fuel low r h room ends deep le
          (sending {g' = g} e sends) =
        let size = length-append a w in
        let s₁ = entered lib send opts limit small goal 1 s g a in
        let hw = Holds-right s.mis.bytes (suc s.mis.read) a w h.1 in
        let opening = Elements-Opening opts.validate_utf8 x xs w s.mis.bytes _ inner hw in
        let ready =
          (Ready-push limit 1 s.stack nest r small (omega (arith, deep)) (omega arith)).1 in
        Runs-then lib send opts limit goal s s₁ (1 + length a) (length w) _ nest es _ _ low
          (entered-Moved lib send opts limit small goal 1 s g a)
          (enters lib send opts limit small goal 1 (omega arith) s nest r (omega (arith, deep))
              (mis_peek s.mis) (rw (h.0) (parse_value-array lib send opts (top nest) s)) g e a blank
              fuel w h.1 opening (omega (arith, size))
            ∙ rounds-plain_at lib send opts fuel (fuel - 1) 1 (mis_peek s₁.mis) s₁
                (omega (arith, le)) refl)
          (elements-Reads x xs w inner s₁ nest es (fuel - 1) low ready hw (omega (arith, size))
            (omega (arith, deep)) (omega (arith, le, size)) sends)
          (omega (arith, size))
    value-Reads _ _ (members a w k {x} {xs} blank inner) s nest es fuel low r h room ends deep le
          (sending {g' = g} e sends) =
        let size = length-append a w in
        let s₁ = entered lib send opts limit small goal 0 s g a in
        let hw = Holds-right s.mis.bytes (suc s.mis.read) a w h.1 in
        let quote = Members-quote opts.validate_utf8 k x xs w s.mis.bytes _ inner hw in
        let opening : Opening (mis_peek s₁.mis) = ground (arith, quote) in
        let ready =
          (Ready-push limit 0 s.stack nest r small (omega (arith, deep)) (omega arith)).1 in
        Runs-then lib send opts limit goal s s₁ (1 + length a) (length w) _ nest es _ _ low
          (entered-Moved lib send opts limit small goal 0 s g a)
          (enters lib send opts limit small goal 0 (omega arith) s nest r (omega (arith, deep))
            (mis_peek s.mis) (rw (h.0) (parse_value-object lib send opts (top nest) s)) g e a blank
            fuel w h.1 opening (omega (arith, size)))
          (members-Reads k x xs w inner s₁ nest es fuel low ready hw (omega (arith, size))
            (omega (arith, deep)) (omega (arith, le, size)) sends)
          (omega (arith, size))

    -- From the first byte of an element on, to behind the array.
    elements-Reads :
        (x : Value (lib.Real)) (xs : Elements (lib.Real)) (w : List ℕ)
        → SpellsElements opts.validate_utf8 x xs w
        → (s : State G) (nest : List ℕ) (es : List (Event (lib.Real))) (fuel low : ℕ)
        → Ready limit s.stack (1 ∷ nest)
        → Holds s.mis.bytes s.mis.read w
        → s.mis.read + length w ≤ s.mis.count
        → max (depth x) (depth_elements xs) + suc (length nest) ≤ limit
        → low + length w ≤ fuel
        → Sends send goal (events x (events_elements xs (Event.end_array ∷ es))) s.gen
        → After s (length w) nest es (at_value lib send opts fuel 1 (mis_peek s.mis) s) low
    elements-Reads x _ _ (final w b sp blank) s nest es fuel low r h room deep le sends =
        let size = length-append w (b ++ b']' ∷ []) in
        let size' = length-append b (b']' ∷ []) in
        let total : length w + (length b + 1) ≡ length (w ++ (b ++ b']' ∷ [])) =
          omega (arith, size, size') in
        let hb = Holds-right s.mis.bytes s.mis.read w _ h in
        let ends =
          Blank-EndsInteger s.mis.bytes (s.mis.read + length w) b [] b']' blank (ground arith) hb in
        let q =
          value-Reads x w sp s (1 ∷ nest) (Event.end_array ∷ es) fuel (suc low) r
            (Holds-left s.mis.bytes s.mis.read w _ h) (omega (arith, size)) ends
            (omega (arith, deep)) (omega (arith, size, size', le)) sends in
        rw (← total) (
          finishes lib send opts limit goal s (length w) 1 nest b es _ low q (omega arith) blank hb
            (omega (arith, total, room)))
    elements-Reads x _ _ (another w b a ws {y = y} {ys = ys} sp blank blank' rest) s nest es fuel
          low r h room deep le sends =
        let gap = length b + 1 + length a in
        let size = length-append w (b ++ b',' ∷ (a ++ ws)) in
        let size' = length-append b (b',' ∷ (a ++ ws)) in
        let size₃ = length-append a ws in
        let hb = Holds-right s.mis.bytes s.mis.read w _ h in
        let ends =
          Blank-EndsInteger s.mis.bytes (s.mis.read + length w) b _ b',' blank (ground arith) hb in
        let q =
          value-Reads x w sp s (1 ∷ nest) _ fuel (low + length ws + 1) r
            (Holds-left s.mis.bytes s.mis.read w _ h) (omega (arith, size)) ends
            (omega (arith, deep)) (omega (arith, size, size', size₃, le)) sends in
        let n =
          resumes lib send opts limit goal s (length w) 1 nest b a ws _ _ _ q blank blank' hb
            (λ m i. Elements-Opening opts.validate_utf8 y ys ws m i rest)
            (omega (arith, size, size', size₃, room)) (omega arith) in
        Runs-then lib send opts limit goal s n.state (length w + gap) (length ws) _ nest es _ _ low
          n.moved
          (n.goes
            ∙ rounds-plain_at lib send opts n.fuel (n.fuel - 1) 1 (mis_peek n.state.mis) n.state
                (omega (arith, n.enough)) refl)
          (elements-Reads y ys ws rest n.state nest es (n.fuel - 1) low n.ready n.ahead
            (omega (arith, n.moved.read, n.moved.count, size, size', size₃, room))
            (omega (arith, deep)) (omega (arith, n.enough)) n.sends)
          (omega (arith, size, size', size₃))

    -- From the key of a member on, to behind the object.
    members-Reads :
        (k : List ℕ) (x : Value (lib.Real)) (xs : Members (lib.Real)) (w : List ℕ)
        → SpellsMembers opts.validate_utf8 k x xs w
        → (s : State G) (nest : List ℕ) (es : List (Event (lib.Real))) (fuel low : ℕ)
        → Ready limit s.stack (0 ∷ nest)
        → Holds s.mis.bytes s.mis.read w
        → s.mis.read + length w ≤ s.mis.count
        → max (depth x) (depth_members xs) + suc (length nest) ≤ limit
        → low + length w ≤ fuel
        → Sends send goal (Event.key k ∷ events x (events_members xs (Event.end_object ∷ es))) s.gen
        → After s (length w) nest es (rounds lib send opts fuel 0 (mis_peek s.mis) s) low
    members-Reads _ x _ _ (end body k a b w c d ba bb sp bc) s nest es fuel low r h room deep le
          (sending {g' = g} e sends) =
        let q' = in_quotes body in
        let gap = length q' + (length a + 1 + length b) in
        let size₁ = length-append q' (a ++ b':' ∷ (b ++ (w ++ (c ++ b'}' ∷ [])))) in
        let size₂ = length-append a (b':' ∷ (b ++ (w ++ (c ++ b'}' ∷ [])))) in
        let size₃ = length-append b (w ++ (c ++ b'}' ∷ [])) in
        let size₄ = length-append w (c ++ b'}' ∷ []) in
        let size₅ = length-append c (b'}' ∷ []) in
        let hv = value_at lib send opts limit small goal s body a b (w ++ (c ++ b'}' ∷ [])) h in
        let opening =
          Spells-Opening opts.validate_utf8 x w s.mis.bytes _ sp
            (Holds-left s.mis.bytes _ w _ hv) in
        let (m, moved, goes) =
          key-Reads lib send opts limit small goal s body k a b (w ++ (c ++ b'}' ∷ [])) fuel
            (fuel - 1) g d ba bb h opening (omega (arith, size₁, size₂, size₃, room)) e
            (omega (arith, le)) in
        let s₁ = record s { mis = m; gen = g } in
        let hw = Holds-Moved s.mis m gap _ moved hv in
        let hc = Holds-right m.bytes m.read w _ hw in
        let q =
          value-Reads x w sp s₁ (0 ∷ nest) (Event.end_object ∷ es) (fuel - 1) (suc low) r
            (Holds-left m.bytes m.read w _ hw)
            (omega (arith, moved.read, moved.count, size₁, size₂, size₃, size₄, room))
            (Blank-EndsInteger m.bytes (m.read + length w) c [] b'}' bc (ground arith) hc)
            (omega (arith, deep)) (omega (arith, size₁, size₂, size₃, size₄, size₅, le)) sends in
        Runs-then lib send opts limit goal s s₁ gap (length w + (length c + 1)) _ nest es _ _ low
          moved goes
          (finishes lib send opts limit goal s₁ (length w) 0 nest c es _ low q (omega arith) bc hc
            (omega (arith, moved.read, moved.count, size₁, size₂, size₃, size₄, size₅, room)))
          (omega (arith, size₁, size₂, size₃, size₄, size₅))
    members-Reads _ x _ _ (further body k a b w c d ws k' {y = y} {ys = ys} dn ba bb sp bc bd rest)
          s nest es fuel low r h room deep le (sending {g' = g} e sends) =
        let q' = in_quotes body in
        let gap = length q' + (length a + 1 + length b) in
        let gap' = length c + 1 + length d in
        let tail = c ++ b',' ∷ (d ++ ws) in
        let size₁ = length-append q' (a ++ b':' ∷ (b ++ (w ++ tail))) in
        let size₂ = length-append a (b':' ∷ (b ++ (w ++ tail))) in
        let size₃ = length-append b (w ++ tail) in
        let size₄ = length-append w tail in
        let size₅ = length-append c (b',' ∷ (d ++ ws)) in
        let size₆ = length-append d ws in
        let hv = value_at lib send opts limit small goal s body a b (w ++ tail) h in
        let opening =
          Spells-Opening opts.validate_utf8 x w s.mis.bytes _ sp
            (Holds-left s.mis.bytes _ w _ hv) in
        let (m, moved, goes) =
          key-Reads lib send opts limit small goal s body k a b (w ++ tail) fuel (fuel - 1) g dn ba
            bb h opening (omega (arith, size₁, size₂, size₃, room)) e (omega (arith, le)) in
        let s₁ = record s { mis = m; gen = g } in
        let hw = Holds-Moved s.mis m gap _ moved hv in
        let hc = Holds-right m.bytes m.read w _ hw in
        let q =
          value-Reads x w sp s₁ (0 ∷ nest) _ (fuel - 1) (low + length ws + 1) r
            (Holds-left m.bytes m.read w _ hw)
            (omega (arith, moved.read, moved.count, size₁, size₂, size₃, size₄, room))
            (Blank-EndsInteger m.bytes (m.read + length w) c _ b',' bc (ground arith) hc)
            (omega (arith, deep)) (omega (arith, size₁, size₂, size₃, size₄, size₅, size₆, le))
            sends in
        let n =
          resumes lib send opts limit goal s₁ (length w) 0 nest c d ws _ _ _ q bc bd hc
            (λ m i h'. ground (arith, Members-quote opts.validate_utf8 k' y ys ws m i rest h'))
            (omega (arith, moved.read, moved.count, size₁, size₂, size₃, size₄, size₅, size₆, room))
            (omega arith) in
        Runs-then lib send opts limit goal s n.state (gap + (length w + gap')) (length ws) _ nest es
          _ _ low (Moved-then s.mis m n.state.mis gap (length w + gap') _ moved n.moved refl)
          (goes ∙ n.goes)
          (members-Reads k' y ys ws rest n.state nest es n.fuel low n.ready n.ahead
            (omega (
              arith, moved.read, moved.count, n.moved.read, n.moved.count, size₁, size₂, size₃,
              size₄, size₅, size₆, room,
            ))
            (omega (arith, deep)) (omega (arith, n.enough)) n.sends)
          (omega (arith, size₁, size₂, size₃, size₄, size₅, size₆))
