-- ===== src/Json.antt =====
-- JSON values and the events that stand for them, stated without reference to the code.
pub mod Grammar
use jsnpg.Base.{ℕ, suc, List, ◌∷◌, Bool, max}
use jsnpg.Base.Int.{ℤ}
use jsnpg.Types.{Event}

mutual
  -- A JSON value, the elements of an array, and the members of an object.
  pub data Value (R : Type 0) : Type 0 where
    null : Value R
    boolean : Bool → Value R
    integer : ℤ → Value R
    real : R → Value R
    string : List ℕ → Value R
    array : Elements R → Value R
    object : Members R → Value R

  pub data Elements (R : Type 0) : Type 0 where
    last : Elements R
    element : Value R → Elements R → Elements R

  pub data Members (R : Type 0) : Type 0 where
    done : Members R
    member : List ℕ → Value R → Members R → Members R

-- how many containers are open at once inside it
abbrev mutual
  pub depth : {R : Type 0} → Value R → ℕ
  depth (array vs) = suc (depth_elements vs)
  depth (object ms) = suc (depth_members ms)
  depth _ = 0

  pub depth_elements : {R : Type 0} → Elements R → ℕ
  depth_elements last = 0
  depth_elements (element v vs) = max (depth v) (depth_elements vs)

  pub depth_members : {R : Type 0} → Members R → ℕ
  depth_members done = 0
  depth_members (member k v ms) = max (depth v) (depth_members ms)

-- the events that a parser sends for it, before those of `rest`
abbrev mutual
  pub events : {R : Type 0} → Value R → List (Event R) → List (Event R)
  events Value.null rest = Event.null ∷ rest
  events (Value.boolean b) rest = Event.boolean b ∷ rest
  events (Value.integer n) rest = Event.integer n ∷ rest
  events (Value.real r) rest = Event.real r ∷ rest
  events (Value.string s) rest = Event.string s ∷ rest
  events (array vs) rest = Event.start_array ∷ events_elements vs (Event.end_array ∷ rest)
  events (object ms) rest = Event.start_object ∷ events_members ms (Event.end_object ∷ rest)

  pub events_elements : {R : Type 0} → Elements R → List (Event R) → List (Event R)
  events_elements last rest = rest
  events_elements (element v vs) rest = events v (events_elements vs rest)

  pub events_members : {R : Type 0} → Members R → List (Event R) → List (Event R)
  events_members done rest = rest
  events_members (member k v ms) rest = Event.key k ∷ events v (events_members ms rest)
