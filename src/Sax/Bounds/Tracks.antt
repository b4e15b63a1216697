-- ===== src/Sax/Bounds/Tracks.antt =====
-- src/stack.c: the type that the loops of the parsers have is that of the innermost container, on a
-- stack of at most 2048 entries, whatever they read.
use mathlib.Core.Option.{some-injective, none-ne-some}
use jsnpg.Base.{ℕ, ◌≤◌, ◌<◌, List, [], ◌∷◌, true, some, ◌≡◌, refl, sym, ◌∙◌, arith, length, ltb}
use jsnpg.Stack.{Stack, stack_none, stack_peek, stack_push, stack_pop}
use jsnpg.Stack.Refine.{stack_peek-Refines, stack_push-Refines}
use jsnpg.Generate.Machine.{size-stack_push}
use jsnpg.Sax.{top_type_is}
use jsnpg.Sax.Runs.{top, Ready, Ready-top, Ready-pop}

-- `type` is the innermost open container, of those that the stack spells.
abbrev pub Tracks : ℕ → Stack → Type 0
Tracks type stack =
    (limit : ℕ) × (nest : List ℕ) × (limit ≤ 2048) × Ready limit stack nest × (type ≡ top nest)

pub Tracks-none :
    (limit : ℕ) (stack : Stack) → limit ≤ 2048 → Ready limit stack [] → Tracks stack_none stack
Tracks-none limit stack small r = (limit, [], small, r, refl)

-- The assertion of parse_end holds.
pub Tracks-top : (t : ℕ) (stack : Stack) → Tracks t stack → t < 2 → top_type_is stack t ≡ true
Tracks-top t stack (limit, [], small, ready, is_top) low = absurd (omega (arith, is_top))
Tracks-top t stack (limit, u ∷ nest, small, ready, is_top) low =
    rw is_top (Ready-top limit u stack nest ready)

pub Tracks-push :
    (t u : ℕ) (stack : Stack)
    → Tracks t stack
    → u < 2
    → (stack_push stack u).0 ≡ true
    → Tracks u (stack_push stack u).1
Tracks-push t u stack (limit, nest, small, ready, is_top) low pushed =
    let p = stack_push-Refines stack nest u ready.refines low (omega (arith, small, ready.size)) in
    let below : ltb (length nest) stack.size ≡ true = sym p.0 ∙ pushed in
    (
      limit,
      u ∷ nest,
      small,
      record { refines = rw below at p.1; size = size-stack_push stack u ∙ ready.size },
      refl,
    )

pub Tracks-pop :
    (t outer : ℕ) (stack : Stack)
    → Tracks t stack
    → t < 2
    → (stack_pop stack).0 ≡ some outer
    → Tracks outer (stack_pop stack).1
Tracks-pop t outer stack (limit, [], small, ready, is_top) low popped =
    absurd (omega (arith, is_top))
Tracks-pop t outer stack (limit, u ∷ nest, small, ready, is_top) low popped =
    let (found, left) = Ready-pop limit u stack nest ready in
    (limit, nest, small, left, some-injective _ _ (sym popped ∙ found))

pub Tracks-peek : (t u : ℕ) (stack : Stack) → Tracks t stack → stack_peek stack ≡ some u → t ≡ u
Tracks-peek t u stack (limit, [], small, ready, is_top) peek =
    absurd (none-ne-some _ (sym (stack_peek-Refines stack [] ready.refines) ∙ peek))
Tracks-peek t u stack (limit, v ∷ nest, small, ready, is_top) peek =
    is_top ∙ some-injective _ _ (sym (stack_peek-Refines stack (v ∷ nest) ready.refines) ∙ peek)
