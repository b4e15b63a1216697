-- ===== src/Json/Grammar.antt =====
-- The texts of a JSON value, stated without reference to the code. A real number has no text here:
-- what it denotes is for the number conversions to say.
pub mod First
use jsnpg.Base.{
  ℕ, ◌<◌, ◌≤◌, List, [], ◌∷◌, ◌++◌, Bool, true, false, ◌≡◌, ◌≢◌, ◌⊎◌, length, if◌then◌else◌,
}
use jsnpg.Base.Int.{ℤ, pos, neg_ℕ}
use jsnpg.Json.{Value, array, object, Elements, last, element, Members, done, member}
use jsnpg.Parser.Grammar.{Denotes}
use jsnpg.Parser.Number.Integers.{Natural, signed, largest}

abbrev pub IsBlank : ℕ → Type 0
IsBlank c = (c ≡ b' ') ⊎ (c ≡ b'\n') ⊎ (c ≡ b'\r') ⊎ (c ≡ b'\t')

abbrev pub Blank : List ℕ → Type 0
Blank [] = Unit
Blank (c ∷ cs) = IsBlank c × Blank cs

-- A string between its quotes.
abbrev pub in_quotes : List ℕ → List ℕ
in_quotes body = b'"' ∷ (body ++ b'"' ∷ [])

mutual
  -- The text of a value, with no white space around it. `v` tells whether UTF-8 is checked.
  pub data Spells (v : Bool) {R : Type 0} : Value R → List ℕ → Type 0 where
    null : Spells v Value.null (b'n' ∷ b'u' ∷ b'l' ∷ b'l' ∷ [])
    truth : Spells v (Value.boolean true) (b't' ∷ b'r' ∷ b'u' ∷ b'e' ∷ [])
    falsity : Spells v (Value.boolean false) (b'f' ∷ b'a' ∷ b'l' ∷ b's' ∷ b'e' ∷ [])
    integer :
        (cs : List ℕ) (n : ℕ) (negative : Bool)
        → Natural cs n
        → length cs ≤ 19
        → n ≤ largest negative
        → Spells v (Value.integer (if negative then neg_ℕ n else pos n)) (signed negative cs)
    string :
        (body text : List ℕ) → Denotes v body text → Spells v (Value.string text) (in_quotes body)
    no_elements : (a : List ℕ) → Blank a → Spells v (array last) (b'[' ∷ (a ++ b']' ∷ []))
    elements :
        (a w : List ℕ) {x : Value R} {xs : Elements R}
        → Blank a
        → SpellsElements v x xs w
        → Spells v (array (element x xs)) (b'[' ∷ (a ++ w))
    no_members : (a : List ℕ) → Blank a → Spells v (object done) (b'{' ∷ (a ++ b'}' ∷ []))
    members :
        (a w k : List ℕ) {x : Value R} {xs : Members R}
        → Blank a
        → SpellsMembers v k x xs w
        → Spells v (object (member k x xs)) (b'{' ∷ (a ++ w))

  -- elements from the first one on, to the closing bracket
  pub data SpellsElements (v : Bool) {R : Type 0} : Value R → Elements R → List ℕ → Type 0 where
    final :
        (w b : List ℕ) {x : Value R}
        → Spells v x w
        → Blank b
        → SpellsElements v x last (w ++ (b ++ b']' ∷ []))
    another :
        (w b a ws : List ℕ) {x y : Value R} {ys : Elements R}
        → Spells v x w
        → Blank b
        → Blank a
        → SpellsElements v y ys ws
        → SpellsElements v x (element y ys) (w ++ (b ++ b',' ∷ (a ++ ws)))

  -- members from the first one's key on, to the closing brace
  pub data SpellsMembers (v : Bool) {R : Type 0}
      : List ℕ → Value R → Members R → List ℕ → Type 0 where
    end :
        (body k a b w c : List ℕ) {x : Value R}
        → Denotes v body k
        → Blank a
        → Blank b
        → Spells v x w
        → Blank c
        → SpellsMembers v k x done (in_quotes body ++ (a ++ b':' ∷ (b ++ (w ++ (c ++ b'}' ∷ [])))))
    further :
        (body k a b w c d ws k' : List ℕ) {x y : Value R} {ys : Members R}
        → Denotes v body k
        → Blank a
        → Blank b
        → Spells v x w
        → Blank c
        → Blank d
        → SpellsMembers v k' y ys ws
        → SpellsMembers v k x
            (member k' y ys)
            (in_quotes body ++ (a ++ b':' ∷ (b ++ (w ++ (c ++ b',' ∷ (d ++ ws))))))
