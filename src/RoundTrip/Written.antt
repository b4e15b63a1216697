-- ===== src/RoundTrip/Written.antt =====
-- src/output.c: what has been printed of a value, behind what stands before it.
use jsnpg.Base.{
  ℕ, suc, ◌≤◌, ◌<◌, List, ◌∷◌, ◌++◌, append_assoc, Bool, true, false, Option, some, ◌≡◌, refl, ◌∙◌,
  ap, length,
}
use jsnpg.Types.{Event}
use jsnpg.Floats.{FloatLib}
use jsnpg.Json.{Value, array, object, Elements, last, element, Members, done, member, events}
use jsnpg.Json.Grammar.{Blank, Spells}
use jsnpg.Generate.Sends.{Sends, sending}
use jsnpg.Output.Stream.{Jos}
use jsnpg.Output.Printer.{print_event}
use jsnpg.Output.Printer.Quoted.{quoted}
use jsnpg.Output.Printer.Places.{At, Good, lead}
use jsnpg.Output.Scan.Reference.{Text}

-- A value that can be printed: its strings may be put out, i64toa writes its integers as the grammar
-- has them, and it holds no reals.
module _ (lib : FloatLib) (v : Bool) where
  abbrev mutual
    pub Printable : Value (lib.Real) → Type 0
    Printable Value.null = Unit
    Printable (Value.boolean b) = Unit
    Printable (Value.integer i) =
        Spells v {R = lib.Real} (Value.integer i) (lib.i64toa i) × (length (lib.i64toa i) ≤ 22)
    Printable (Value.real r) = ⊥
    Printable (Value.string s) = Text v s
    Printable (array xs) = PrintableElements xs
    Printable (object ms) = PrintableMembers ms

    pub PrintableElements : Elements (lib.Real) → Type 0
    PrintableElements last = Unit
    PrintableElements (element x xs) = Printable x × PrintableElements xs

    pub PrintableMembers : Members (lib.Real) → Type 0
    PrintableMembers done = Unit
    PrintableMembers (member k x ms) = Text v k × Printable x × PrintableMembers ms

module _ (grants : ℕ → Bool) (lib : FloatLib) (real_len : ℕ) where
  -- the flag and the stream of a callback of the printer
  abbrev pub print_callback : Event (lib.Real) → Jos → Option (Bool × Jos)
  print_callback e jos = let d = print_event grants lib real_len e jos in some (d.success, d.state)

  -- One event printed.
  pub printing :
      (e : Event (lib.Real)) (es : List (Event (lib.Real))) (jos goal : Jos)
      → (print_event grants lib real_len e jos).success ≡ true
      → Sends print_callback goal es (print_event grants lib real_len e jos).state
      → Sends print_callback goal (e ∷ es) jos
  printing e es jos goal s more =
      sending (ap (λ b. some (b, (print_event grants lib real_len e jos).state)) s) more

  module _ (v : Bool) where
    -- What has been printed of `es`, which spell a text of `P`, behind `out`.
    pub record Written (P : List ℕ → Type 0)
        (es : List (Event (lib.Real)) → List (Event (lib.Real))) (jos : Jos) (l : ℕ) (c k : Bool)
        (out : List ℕ) : Type 0 where
      pub after : Jos
      pub comma : Bool
      pub comma_on : 0 < l → comma ≡ true
      pub blanks : List ℕ
      pub blank : Blank blanks
      pub body : List ℕ
      pub spells : P body
      pub at : At after v l comma false (out ++ (lead c k blanks ++ body))
      pub sends :
          (rest : List (Event (lib.Real))) (goal : Jos)
          → Sends print_callback goal rest after
          → Sends print_callback goal (es rest) jos

    -- `out`, what separates, and two parts of a text
    pub behind : (out a w z : List ℕ) → (out ++ (a ++ w)) ++ z ≡ out ++ (a ++ (w ++ z))
    behind out a w z = append_assoc out (a ++ w) z ∙ ap (λ y. out ++ y) (append_assoc a w z)

    pub behind_member :
        (out a body q b w z : List ℕ)
        → body ≡ q ++ b':' ∷ (b ++ w)
        → (out ++ (a ++ body)) ++ z ≡ out ++ (a ++ (q ++ b':' ∷ (b ++ (w ++ z))))
    behind_member out a body q b w z e = rw e (simp append_assoc)

    -- A key and its value.
    pub record KeyValue (key : List ℕ) (x : Value (lib.Real)) (body : List ℕ) : Type 0 where
      pub blanks : List ℕ
      pub blank : Blank blanks
      pub text : List ℕ
      pub spells : Spells v x text
      pub parts : body ≡ quoted key ++ b':' ∷ (blanks ++ text)

    -- A key that has been printed, and then its value.
    pub member-Written :
        (key : List ℕ) (x : Value (lib.Real)) (jos : Jos) (l : ℕ) (c : Bool) (out : List ℕ)
        (named : (a b : List ℕ) × Blank a
          × Blank b
          × Good
              (print_event grants lib real_len (Event.key key) jos)
              v
              (suc l)
              true
              true
              (out ++ (lead c false a ++ (quoted key ++ b':' ∷ b))))
        → Written
            (Spells v x)
            (events x)
            (print_event grants lib real_len (Event.key key) jos).state
            (suc l)
            true
            true
            (out ++ (lead c false (named.0) ++ (quoted key ++ b':' ∷ named.1)))
        → Written (KeyValue key x) (λ rest. Event.key key ∷ events x rest) jos (suc l) c false out
    member-Written key x jos l c out (a, b, blank, blank', g) w = record {
      after = w.after;
      comma = w.comma;
      comma_on = w.comma_on;
      blanks = a;
      blank = blank;
      body = quoted key ++ b':' ∷ (b ++ w.body);
      spells = record {
        blanks = b;
        blank = blank';
        text = w.body;
        spells = w.spells;
        parts = refl;
      };
      at =
          rw
            (
              behind out (lead c false a) (quoted key ++ b':' ∷ b) w.body,
              append_assoc (quoted key) (b':' ∷ b) w.body,
            )
            at w.at;
      sends = λ rest goal more. printing (Event.key key) _ jos goal g.0 (w.sends rest goal more);
    }

    -- A container, of which the opening bracket is printed first.
    pub bracketed :
        (x : Value (lib.Real)) (jos : Jos) (l : ℕ) (c k comma : Bool) (out a bracket w : List ℕ)
        (after : Jos)
        → (0 < l → comma ≡ true)
        → Blank a
        → Spells v x (bracket ++ w)
        → At after v l comma false ((out ++ (lead c k a ++ bracket)) ++ w)
        → ((rest : List (Event (lib.Real))) (goal : Jos)
            → Sends print_callback goal rest after
            → Sends print_callback goal (events x rest) jos)
        → Written (Spells v x) (events x) jos l c k out
    bracketed x jos l c k comma out a bracket w after on blank sp at sends = record {
      after = after;
      comma = comma;
      comma_on = on;
      blanks = a;
      blank = blank;
      body = bracket ++ w;
      spells = sp;
      at = rw (behind out (lead c k a) bracket w) at at;
      sends = sends;
    }

    pub leaf-Written :
        (x : Value (lib.Real)) (e : Event (lib.Real)) (w : List ℕ) (jos : Jos) {l : ℕ} {c k : Bool}
        {out : List ℕ}
        → Spells v x w
        → ((rest : List (Event (lib.Real))) → events x rest ≡ e ∷ rest)
        → (a : List ℕ) × Blank a
          × Good (print_event grants lib real_len e jos) v l true false (out ++ (lead c k a ++ w))
        → Written (Spells v x) (events x) jos l c k out
    leaf-Written x e w jos sp one (a, blank, g) = record {
      after = (print_event grants lib real_len e jos).state;
      comma = true;
      comma_on = λ h. refl;
      blanks = a;
      blank = blank;
      body = w;
      spells = sp;
      at = g.1;
      sends = λ rest goal more. rw (one rest) (printing e rest jos goal g.0 more);
    }
