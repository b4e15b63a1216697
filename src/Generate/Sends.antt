-- ===== src/Generate/Sends.antt =====
-- src/generate.c: events that a generator takes one after the other.
use mathlib.Core.Option.{some-injective, none-ne-some}
use mathlib.Core.Bool.{false≢true}
use jsnpg.Base.{List, [], ◌∷◌, Bool, true, false, Option, some, ◌≡◌, ap, Option-cases, inl, inr}
use jsnpg.Types.{Event}
use jsnpg.Generate.{Generator, deliver}
use jsnpg.Generate.Documents.{deliver_all}

-- The generator takes the events in turn, and is `final` in the end.
pub data Sends {R G : Type 0} (send : Event R → G → Option (Bool × G)) (final : G)
    : List (Event R) → G → Type 0 where
  sent : {g : G} → g ≡ final → Sends send final [] g
  sending :
      {e : Event R} {es : List (Event R)} {g g' : G}
      → send e g ≡ some (true, g')
      → Sends send final es g'
      → Sends send final (e ∷ es) g

pub Sends-final :
    {R G : Type 0} {send : Event R → G → Option (Bool × G)} {goal g : G}
    → Sends send goal [] g
    → g ≡ goal
Sends-final (sent e) = e

module _ {R C : Type 0} where
  -- Events that are delivered to the end are sent.
  pub deliver_all-Sends :
      (es : List (Event R)) (g final : Generator R C)
      → deliver_all es g ≡ some (true, final)
      → Sends deliver final es g
  deliver_all-Sends [] g final h = sent (ap (λ p. p.1) (some-injective _ _ h))
  deliver_all-Sends (e ∷ es) g final h = elim (Option-cases (deliver e g)) [
    | inl stuck ↦ absurd (none-ne-some _ (rw (stuck, deliver_all) at h))
    | inr ((true, g'), moved) ↦
        sending moved (deliver_all-Sends es g' final (rw (moved, deliver_all) at h))
    | inr ((false, g'), moved) ↦
        let stopped = some-injective _ _ (rw (moved, deliver_all) at h) in
        absurd (false≢true (ap (λ p. p.0) stopped))
  ]
