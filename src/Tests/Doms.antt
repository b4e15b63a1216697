-- ===== src/Tests/Doms.antt =====
-- The DOM at concrete inputs.
use jsnpg.Base.{ℕ, [], ◌∷◌, Bool, true, ◌≡◌, refl, arith}
use jsnpg.Types.{Event}
use jsnpg.Dom.{Dom, unset, dom_size_align, dom_node_next, dom_add, dom_event}
use jsnpg.Dom.Stored.{Stored, dom_event-Stored}

abbrev always : ℕ → Bool
always n = true

-- a DOM with no event yet
abbrev empty : Dom ℕ
empty = record { earlier = []; current = record { size = 8232; count = 40; nodes = λ i. unset } }

abbrev name : Event ℕ
name = Event.key (97 ∷ 98 ∷ [])

name-success : (dom_event always name empty).success ≡ true
unfolding dom_event dom_add dom_node_next dom_size_align
name-success = refl

dom_event-Stored_example : (start : ℕ) × Stored empty (dom_event always name empty).state name start
dom_event-Stored_example = dom_event-Stored always name empty (omega arith) name-success

-- a DOM as dom_new makes it, and the same with two events
abbrev root : Dom ℕ
root = record { earlier = []; current = record { size = 8192; count = 40; nodes = λ i. unset } }

abbrev two_events : Dom ℕ
two_events =
    (dom_event always Event.end_array (dom_event always Event.start_array root).state).state
