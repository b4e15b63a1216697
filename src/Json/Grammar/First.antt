-- ===== src/Json/Grammar/First.antt =====
-- The first byte of a text, and of what follows it.
use jsnpg.Base.{ℕ, ◌≤◌, ◌≡◌, ◌⊎◌, inl, inr, ◌<◌, List, [], ◌∷◌, ◌++◌, Bool, true, false, ◌≢◌, arith}
use jsnpg.Base.Memory.{Memory, Holds, Holds-left}
use jsnpg.Json.{Value, Elements, Members}
use jsnpg.Json.Grammar.{
  Blank, Spells, null, truth, falsity, integer, string, no_elements, elements, no_members, members,
  SpellsElements, final, another, SpellsMembers, end, further,
}
use jsnpg.Parser.Number.Integers.{Natural, naught, positive, signed, EndsInteger}
use jsnpg.Parser.White.Blank.{Solid}

-- A byte that is no white space, comment, comma or closing bracket, and is ASCII.
abbrev pub Opening : ℕ → Type 0
Opening c = Solid c × (c ≢ b',') × (c ≢ b']') × (c ≢ b'}') × (c < 128)

Natural-Opening :
    (m : Memory) (i : ℕ) (cs : List ℕ) (n : ℕ) → Natural cs n → Holds m i cs → Opening (m i)
Natural-Opening m i _ _ naught h = ground (arith, h.0)
Natural-Opening m i _ _ (positive lo hi ds) h = ground (arith, h.0)

pub Spells-Opening :
    {R : Type 0} (v : Bool) (x : Value R) (w : List ℕ) (m : Memory) (i : ℕ)
    → Spells v x w
    → Holds m i w
    → Opening (m i)
Spells-Opening v _ _ m i null h = ground (arith, h.0)
Spells-Opening v _ _ m i truth h = ground (arith, h.0)
Spells-Opening v _ _ m i falsity h = ground (arith, h.0)
Spells-Opening v _ _ m i (integer cs n true d short fits) h = ground (arith, h.0)
Spells-Opening v _ _ m i (integer cs n false d short fits) h = Natural-Opening m i cs n d h
Spells-Opening v _ _ m i (string body text d) h = ground (arith, h.0)
Spells-Opening v _ _ m i (no_elements a b) h = ground (arith, h.0)
Spells-Opening v _ _ m i (elements a w b es) h = ground (arith, h.0)
Spells-Opening v _ _ m i (no_members a b) h = ground (arith, h.0)
Spells-Opening v _ _ m i (members a w k b es) h = ground (arith, h.0)

-- Blanks, and then a byte that ends an integer: an integer can stand in front.
pub Blank-EndsInteger :
    (m : Memory) (i : ℕ) (b rest : List ℕ) (c : ℕ)
    → Blank b
    → EndsInteger c
    → Holds m i (b ++ c ∷ rest)
    → EndsInteger (m i)
Blank-EndsInteger m i [] rest c blank e h = rw (h.0) e
Blank-EndsInteger m i (x ∷ b) rest c blank e h = rw (h.0) (ground (arith, blank))

pub signed-first :
    (m : ℕ → ℕ) (i : ℕ) (negative : Bool) (cs : List ℕ) (n : ℕ)
    → Natural cs n
    → Holds m i (signed negative cs)
    → (m i ≡ b'-') ⊎ ((b'0' ≤ m i) × (m i ≤ b'9'))
signed-first m i true cs n d h = inl h.0
signed-first m i false _ _ naught h = inr (omega (arith, h.0))
signed-first m i false _ _ (positive lo hi ds) h = inr (omega (arith, h.0))

pub Elements-Opening :
    {R : Type 0} (v : Bool) (x : Value R) (xs : Elements R) (w : List ℕ) (m : ℕ → ℕ) (i : ℕ)
    → SpellsElements v x xs w
    → Holds m i w
    → Opening (m i)
Elements-Opening v x _ _ m i (final w b sp blank) h =
    Spells-Opening v x w m i sp (Holds-left m i w _ h)
Elements-Opening v x _ _ m i (another w b a ws sp blank blank' es) h =
    Spells-Opening v x w m i sp (Holds-left m i w _ h)

pub Members-quote :
    {R : Type 0} (v : Bool) (k : List ℕ) (x : Value R) (xs : Members R) (w : List ℕ) (m : ℕ → ℕ)
    (i : ℕ)
    → SpellsMembers v k x xs w
    → Holds m i w
    → m i ≡ b'"'
Members-quote v _ x _ _ m i (end body k a b w c d ba bb sp bc) h = h.0
Members-quote v _ x _ _ m i (further body k a b w c d ws k' dn ba bb sp bc bd es) h = h.0
