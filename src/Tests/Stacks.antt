-- ===== src/Tests/Stacks.antt =====
-- The bit stack at concrete inputs.
use jsnpg.Base.{
  ℕ, ◌<◌, [], ◌∷◌, true, some, ◌≡◌, refl, arith, get_or, replicate, ◌==◌, if◌then◌else◌,
}
use jsnpg.Generate.Documents.{get_or-replicate}
use jsnpg.Stack.{Stack, stack_peek, stack_pop, stack_push, bit_at}
use jsnpg.Stack.Refine.{
  Refines, stack_peek-Refines, stack_pop-Refines, stack_push-Refines, stack_peek-push_wraps,
}

-- an object in an array
abbrev two_deep : Stack
two_deep = record { ptr = 2; size = 16; stack = 0x01 ∷ 0x00 ∷ [] }

two_deep-Refines : Refines two_deep (0 ∷ 1 ∷ [])
unfolding bit_at
two_deep-Refines = record {
  depth = refl;
  fits = omega arith;
  allocated = omega arith;
  are_bytes = λ i. ground arith;
  are_types = omega arith;
  spelled = omega arith;
}

stack_peek-Refines_example : stack_peek two_deep ≡ some 0
stack_peek-Refines_example = stack_peek-Refines two_deep (0 ∷ 1 ∷ []) two_deep-Refines

stack_pop-Refines_example :
    ((stack_pop two_deep).0 ≡ some 1) × Refines (stack_pop two_deep).1 (1 ∷ [])
stack_pop-Refines_example = stack_pop-Refines two_deep (0 ∷ 1 ∷ []) two_deep-Refines

stack_push-Refines_example :
    ((stack_push two_deep 1).0 ≡ true) × Refines (stack_push two_deep 1).1 (1 ∷ 0 ∷ 1 ∷ [])
stack_push-Refines_example =
    stack_push-Refines two_deep (0 ∷ 1 ∷ []) 1 two_deep-Refines (omega arith) (omega arith)

abbrev deep : Stack
deep = record { ptr = 2048; size = 4096; stack = replicate 512 0 }

deep_bytes : (i : ℕ) → get_or (replicate 512 0) i 0 < 256
deep_bytes i = get_or-replicate 512 i

-- at depth 2048 an array is pushed; the peek says that it is an object
stack_peek-push_wraps_example :
    (stack_peek (stack_push deep 1).1 ≡ some 0)
    × ((i : ℕ)
        → bit_at (stack_push deep 1).1.stack i ≡ (if i == 0 then 1 else bit_at (replicate 512 0) i))
unfolding bit_at
stack_peek-push_wraps_example =
    stack_peek-push_wraps deep 1 deep_bytes (omega arith) (omega arith) (omega arith) (omega arith)
      (omega arith)
