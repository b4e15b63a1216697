-- ===== src/Pull/Yields.antt =====
-- src/parsenext.c: what a caller of jsnpg_parse_next sees, one event at a call.
use jsnpg.Base.{ℕ, List, [], ◌∷◌, true, Option, none, some, ◌≡◌, refl}
use jsnpg.Base.Memory.{slice}
use jsnpg.Types.{Event, JsonType, Payload}
use jsnpg.Floats.{FloatLib}
use jsnpg.Input.{Mis}
use jsnpg.Dom.{type_of}
use jsnpg.Sax.{Options, State, ok}
use jsnpg.Pull.{
  Progress, parse_position, parse_next, parser_parse_next, DomPosition, PullParser,
  jsnpg_parse_next, jsnpg_parse_result,
}

-- the bytes that a payload gives: by their place in the parser's bytes, or where they stand in a DOM
abbrev pub string_of : {R : Type 0} → Mis → Payload R → Option (List ℕ)
string_of mis (Payload.text i n) = some (slice mis.bytes i n)
string_of mis (Payload.bytes bs) = some bs
string_of mis _ = none

-- The payload of a result gives the value of an event, where it has one.
abbrev pub Carries : {R : Type 0} → Mis → Event R → Payload R → Type 0
Carries mis (Event.integer i) v = v ≡ Payload.integer i
Carries mis (Event.real d) v = v ≡ Payload.real d
Carries mis (Event.string bs) v = string_of mis v ≡ some bs
Carries mis (Event.key bs) v = string_of mis v ≡ some bs
Carries mis _ v = Unit

-- The result that the parser holds is that of an event.
pub record Shows {R : Type 0} (e : Event R) (p : PullParser R) : Type 0 where
  pub type : (jsnpg_parse_result p).type ≡ type_of e
  pub position : (jsnpg_parse_result p).position ≡ parse_position p.text.mis
  pub payload : Carries p.text.mis e (jsnpg_parse_result p).payload

module _ (lib : FloatLib) (opts : Options) where
  -- Calls of jsnpg_parse_next give the events in turn, and leave the parser as the second one: each
  -- returns the type of its event, and jsnpg_parse_result then has its value.
  pub data Yields
      : List (Event (lib.Real)) → PullParser (lib.Real) → PullParser (lib.Real) → Type 0 where
    nothing : {p : PullParser (lib.Real)} → Yields [] p p
    yields :
        {e : Event (lib.Real)} {es : List (Event (lib.Real))} {p q r : PullParser (lib.Real)}
        → jsnpg_parse_next lib opts p ≡ some (type_of e, q)
        → Shows e q
        → Yields es q r
        → Yields (e ∷ es) p r

  parser_parse_next-ok :
      (p q : State (Progress (lib.Real))) (t : JsonType)
      → parse_next lib opts p ≡ ok t q
      → parser_parse_next lib opts p ≡ ok t q
  unfolding parser_parse_next
  parser_parse_next-ok p q t e = rw (e, parser_parse_next) refl

  -- a call on a text that ends as it may
  pub jsnpg_parse_next-ok :
      (p q : State (Progress (lib.Real))) (dom : DomPosition (lib.Real)) (t : JsonType)
      → p.mis.start ≡ true
      → parse_next lib opts p ≡ ok t q
      → jsnpg_parse_next lib opts (record { text = p; dom = dom })
        ≡ some (t, record { text = q; dom = dom })
  unfolding jsnpg_parse_next
  jsnpg_parse_next-ok p q dom t started e = simp (started, parser_parse_next-ok p q t e)
