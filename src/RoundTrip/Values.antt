-- ===== src/RoundTrip/Values.antt =====
-- src/output.c: the events of a JSON value are printed as a text of the grammar.
use jsnpg.Base.{
  ℕ, suc, List, [], ◌∷◌, ◌++◌, Bool, true, false, ◌≡◌, refl, subst, arith, ltb, ltb-eq_true,
}
use jsnpg.Types.{Event}
use jsnpg.Floats.{FloatLib}
use jsnpg.Json.{
  Value, array, object, Elements, last, element, Members, done, member, events, events_elements,
  events_members,
}
use jsnpg.Json.Grammar.{
  Spells, SpellsElements, SpellsMembers, null, truth, falsity, string, no_elements, elements,
  no_members, members, final, another, end, further,
}
use jsnpg.Output.Stream.{Jos}
use jsnpg.Output.Printer.{print_event}
use jsnpg.Output.Printer.Quoted.{quoted}
use jsnpg.Output.Printer.Places.{At, lead}
use jsnpg.Output.Printer.Items.{
  null-Good, boolean-Good, integer-Good, string-Good, key-Good, start_array-Good, end_array-Good,
  start_object-Good, end_object-Good,
}
use jsnpg.Output.Scan.Reference.{Text, escaped}
use jsnpg.RoundTrip.{escaped-Denotes}
use jsnpg.RoundTrip.Written.{
  Printable, PrintableElements, PrintableMembers, printing, behind, behind_member, bracketed,
  leaf-Written, member-Written, Written, KeyValue,
}

module _ (grants : ℕ → Bool) (lib : FloatLib) (real_len : ℕ) (v : Bool)
    (granted : (n : ℕ) → grants n ≡ true) where
  mutual
    unfolding print_event

    -- A value, behind grants lib real_len v what separates it from what stands before it.
    pub value-Written :
        (x : Value (lib.Real)) (jos : Jos) (l : ℕ) (c k : Bool) (out : List ℕ)
        → Printable lib v x
        → At jos v l c k out
        → Written grants lib real_len v (Spells v x) (events x) jos l c k out
    value-Written Value.null jos l c k out p at =
        leaf-Written grants lib real_len v Value.null Event.null _ jos null (λ rest. refl)
          (null-Good grants granted jos c k out at)
    value-Written (Value.boolean true) jos l c k out p at =
        leaf-Written grants lib real_len v (Value.boolean true) (Event.boolean true) _ jos truth
          (λ rest. refl) (boolean-Good grants granted jos true c k out at)
    value-Written (Value.boolean false) jos l c k out p at =
        leaf-Written grants lib real_len v (Value.boolean false) (Event.boolean false) _ jos falsity
          (λ rest. refl) (boolean-Good grants granted jos false c k out at)
    value-Written (Value.integer i) jos l c k out p at =
        leaf-Written grants lib real_len v (Value.integer i) (Event.integer i) _ jos (p.0)
          (λ rest. refl) (integer-Good grants granted lib jos i c k out at p.1)
    value-Written (Value.real r) jos l c k out p at = absurd p
    value-Written (Value.string s) jos l c k out p at =
        leaf-Written grants lib real_len v (Value.string s) (Event.string s) _ jos
          (string (escaped s) s (escaped-Denotes v p)) (λ rest. refl)
          (string-Good grants granted jos s c k out at p)
    value-Written (array last) jos l c k out p at =
        let (a, blank, g) = start_array-Good grants granted jos c k out at in
        let j = (print_event grants lib real_len Event.start_array jos).state in
        let (a', blank', g') = end_array-Good grants granted j false _ g.1 in
        bracketed grants lib real_len v (array last) jos l c k (ltb 0 l) out a (b'[' ∷ [])
          (a' ++ b']' ∷ []) _ (λ h. ltb-eq_true 0 l h) blank (no_elements a' blank') g'.1
          (λ rest goal more.
            printing grants lib real_len Event.start_array _ jos goal g.0
              (printing grants lib real_len Event.end_array rest j goal g'.0 more))
    value-Written (array (element x xs)) jos l c k out p at =
        let (a, blank, g) = start_array-Good grants granted jos c k out at in
        let j = (print_event grants lib real_len Event.start_array jos).state in
        let w =
          elements-Written x xs j l false _ (value-Written x j (suc l) false false _ p.0 g.1) p.1 in
        bracketed grants lib real_len v (array (element x xs)) jos l c k w.comma out a (b'[' ∷ [])
          (w.blanks ++ w.body) w.after w.comma_on blank (elements w.blanks w.body w.blank w.spells)
          w.at
          (λ rest goal more.
            printing grants lib real_len Event.start_array _ jos goal g.0 (w.sends rest goal more))
    value-Written (object done) jos l c k out p at =
        let (a, blank, g) = start_object-Good grants granted jos c k out at in
        let j = (print_event grants lib real_len Event.start_object jos).state in
        let (a', blank', g') = end_object-Good grants granted j false _ g.1 in
        bracketed grants lib real_len v (object done) jos l c k (ltb 0 l) out a (b'{' ∷ [])
          (a' ++ b'}' ∷ []) _ (λ h. ltb-eq_true 0 l h) blank (no_members a' blank') g'.1
          (λ rest goal more.
            printing grants lib real_len Event.start_object _ jos goal g.0
              (printing grants lib real_len Event.end_object rest j goal g'.0 more))
    value-Written (object (member key x ms)) jos l c k out p at =
        let (a, blank, g) = start_object-Good grants granted jos c k out at in
        let j = (print_event grants lib real_len Event.start_object jos).state in
        let named = key-Good grants granted j key false _ g.1 p.0 in
        let i = (print_event grants lib real_len (Event.key key) j).state in
        let first =
          member-Written grants lib real_len v key x j l false _ named
            (value-Written x i (suc l) true true _ p.1 named.4.1) in
        let w = members-Written key x ms j l false _ first p.0 p.2 in
        bracketed grants lib real_len v (object (member key x ms)) jos l c k w.comma out a
          (b'{' ∷ []) (w.blanks ++ w.body) w.after w.comma_on blank
          (members w.blanks w.body key w.blank w.spells) w.at
          (λ rest goal more.
            printing grants lib real_len Event.start_object _ jos goal g.0 (w.sends rest goal more))

    -- The elements from one on, which has been printed, and the end of their array.
    elements-Written :
        (x : Value (lib.Real)) (xs : Elements (lib.Real)) (jos : Jos) (l : ℕ) (c : Bool)
        (out : List ℕ)
        → Written grants lib real_len v (Spells v x) (events x) jos (suc l) c false out
        → PrintableElements lib v xs
        → Written grants lib real_len v
            (SpellsElements v x xs)
            (λ rest. events x (events_elements xs (Event.end_array ∷ rest)))
            jos
            l
            c
            false
            out
    elements-Written x last jos l c out w p =
        let (a, blank, g) = end_array-Good grants granted w.after w.comma _ w.at in
        record {
          after = (print_event grants lib real_len Event.end_array w.after).state;
          comma = ltb 0 l;
          comma_on = λ h. ltb-eq_true 0 l h;
          blanks = w.blanks;
          blank = w.blank;
          body = w.body ++ (a ++ b']' ∷ []);
          spells = final w.body a w.spells blank;
          at =
              rw (behind grants lib real_len v out (lead c false w.blanks) w.body (a ++ b']' ∷ []))
                at g.1;
          sends = λ rest goal more.
              w.sends _ goal
                (printing grants lib real_len Event.end_array rest w.after goal g.0 more);
        }
    elements-Written x (element y ys) jos l c out w p =
        let sofar = out ++ (lead c false w.blanks ++ w.body) in
        let next =
          value-Written y w.after (suc l) true false sofar p.0
            (subst (λ b. At w.after v (suc l) b false sofar) (w.comma_on (omega arith)) w.at) in
        let u = elements-Written y ys w.after l true sofar next p.1 in
        record {
          after = u.after;
          comma = u.comma;
          comma_on = u.comma_on;
          blanks = w.blanks;
          blank = w.blank;
          body = w.body ++ b',' ∷ (u.blanks ++ u.body);
          spells = another w.body [] u.blanks u.body w.spells tt u.blank u.spells;
          at =
              rw
                (behind grants lib real_len v out (lead c false w.blanks) w.body
                  (b',' ∷ (u.blanks ++ u.body)))
                at u.at;
          sends = λ rest goal more. w.sends _ goal (u.sends rest goal more);
        }

    -- The members from one on, which has been printed, and the end of their object.
    members-Written :
        (key : List ℕ) (x : Value (lib.Real)) (ms : Members (lib.Real)) (jos : Jos) (l : ℕ)
        (c : Bool) (out : List ℕ)
        → Written grants lib real_len v
            (KeyValue grants lib real_len v key x)
            (λ rest. Event.key key ∷ events x rest)
            jos
            (suc l)
            c
            false
            out
        → Text v key
        → PrintableMembers lib v ms
        → Written grants lib real_len v
            (SpellsMembers v key x ms)
            (λ rest. Event.key key ∷ events x (events_members ms (Event.end_object ∷ rest)))
            jos
            l
            c
            false
            out
    members-Written key x done jos l c out w named p =
        let (a, blank, g) = end_object-Good grants granted w.after w.comma _ w.at in
        let m = w.spells in
        let z = a ++ b'}' ∷ [] in
        record {
          after = (print_event grants lib real_len Event.end_object w.after).state;
          comma = ltb 0 l;
          comma_on = λ h. ltb-eq_true 0 l h;
          blanks = w.blanks;
          blank = w.blank;
          body = quoted key ++ b':' ∷ (m.blanks ++ (m.text ++ z));
          spells =
              end (escaped key) key [] m.blanks m.text a (escaped-Denotes v named) tt m.blank
                m.spells blank;
          at =
              subst
                (At (print_event grants lib real_len Event.end_object w.after).state v l (ltb 0 l)
                  false)
                (behind_member grants lib real_len v out (lead c false w.blanks) w.body (quoted key)
                  m.blanks m.text z m.parts)
                (g.1);
          sends = λ rest goal more.
              w.sends _ goal
                (printing grants lib real_len Event.end_object rest w.after goal g.0 more);
        }
    members-Written key x (member key' y ms) jos l c out w named p =
        let sofar = out ++ (lead c false w.blanks ++ w.body) in
        let at' = subst (λ b. At w.after v (suc l) b false sofar) (w.comma_on (omega arith)) w.at in
        let k = key-Good grants granted w.after key' true sofar at' p.0 in
        let j = (print_event grants lib real_len (Event.key key') w.after).state in
        let next =
          member-Written grants lib real_len v key' y w.after l true sofar k
            (value-Written y j (suc l) true true _ p.1 k.4.1) in
        let u = members-Written key' y ms w.after l true sofar next p.0 p.2 in
        let m = w.spells in
        let z = b',' ∷ (u.blanks ++ u.body) in
        record {
          after = u.after;
          comma = u.comma;
          comma_on = u.comma_on;
          blanks = w.blanks;
          blank = w.blank;
          body = quoted key ++ b':' ∷ (m.blanks ++ (m.text ++ z));
          spells =
              further (escaped key) key [] m.blanks m.text [] u.blanks u.body key'
                (escaped-Denotes v named) tt m.blank m.spells tt u.blank u.spells;
          at =
              subst (At u.after v l u.comma false)
                (behind_member grants lib real_len v out (lead c false w.blanks) w.body (quoted key)
                  m.blanks m.text z m.parts)
                (u.at);
          sends = λ rest goal more. w.sends _ goal (u.sends rest goal more);
        }
