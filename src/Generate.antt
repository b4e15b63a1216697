-- ===== src/Generate.antt =====
-- src/generate.c: a generator checks that the events it is sent nest, and passes them on to its
-- callbacks. The model is that of a build with assertions on: `none` is a failed ASSERT, at which
-- the program stops. A stack of size 0 turns the checks off.
pub mod Machine
pub mod Nesting
pub mod Documents
pub mod Sends
pub mod Invariant
pub mod Lifts
use jsnpg.Base.{
  ℕ, ◌/◌, List, Bool, true, false, not, ◌&&◌, Option, none, some, ◌==◌, if◌then◌else◌, replicate,
}
use jsnpg.Base.Did.{Did, did, failed, ◌then_do◌}
use jsnpg.Base.Int.{ℤ}
use jsnpg.Types.{
  ErrorCode, error_none, error_expected_key, error_expected_value, error_stack_overflow,
  error_stack_underflow, error_no_object, error_no_array, Event,
}
use jsnpg.Stack.{Stack, stack_object, stack_array, stack_peek, stack_pop, stack_push}

-- jsnpg_callbacks: each function that is given takes the context to a flag and a new context.
pub record Callbacks (R C : Type 0) : Type 0 where
  pub boolean : Option (Bool → C → Bool × C)
  pub null : Option (C → Bool × C)
  pub integer : Option (ℤ → C → Bool × C)
  pub real : Option (R → C → Bool × C)
  pub string : Option (List ℕ → C → Bool × C)
  pub key : Option (List ℕ → C → Bool × C)
  pub start_array : Option (C → Bool × C)
  pub end_array : Option (C → Bool × C)
  pub start_object : Option (C → Bool × C)
  pub end_object : Option (C → Bool × C)

-- `struct jsnpg_generator`, less its allocator
pub record Generator (R C : Type 0) : Type 0 where
  pub callbacks : Callbacks R C
  pub ctx : C
  pub validate_utf8 : Bool
  pub key_next : Bool
  pub error : ErrorCode
  pub count : ℕ
  pub stack : Stack

-- stack_peek(..) == type
abbrev pub top_is : Stack → ℕ → Bool
top_is s type = elim (stack_peek s) [ none ↦ false | some t ↦ t == type ]

-- a callback with its argument
abbrev with_arg : {C A : Type 0} → Option (A → C → Bool × C) → A → Option (C → Bool × C)
with_arg none a = none
with_arg (some f) a = some (f a)

module _ {R C : Type 0} where
  unfoldable pub can_value : Generator R C → Did (Generator R C)
  can_value g =
      if not (g.stack.size == 0) && top_is g.stack stack_object
      then (if g.key_next
          then failed (record g { error = error_expected_key })
          else did (record g { key_next = true }))
      else did g

  unfoldable pub can_key : Generator R C → Did (Generator R C)
  can_key g =
      if not (g.stack.size == 0) && not g.key_next
      then failed (record g { error = error_expected_value })
      else did (record g { key_next = false })

  -- the part of `can_push` behind `can_value`
  unfoldable pub push_type : ℕ → Generator R C → Did (Generator R C)
  push_type type g =
      let (pushed, stack) = stack_push g.stack type in
      if g.stack.size == 0
      then did g
      else if not pushed
      then failed (record g { error = error_stack_overflow })
      else did (record g { stack = stack; key_next = type == stack_object })

  unfoldable pub can_push : ℕ → Generator R C → Did (Generator R C)
  can_push type g = can_value g then_do push_type type

  unfoldable pub can_pop : ℕ → Generator R C → Did (Generator R C)
  can_pop type g =
      let popped = (stack_pop g.stack).1 in
      if g.stack.size == 0 then did g else elim (stack_peek g.stack) [
        | none ↦ failed (record g { error = error_stack_underflow })
        | some cur_type ↦
            if not (type == cur_type)
            then failed (record g {
              error = if type == stack_object then error_no_object else error_no_array;
            })
            else if type == stack_object && not g.key_next
            then failed (record g { error = error_expected_value })
            else did (record g { stack = popped; key_next = top_is popped stack_object })
      ]

  -- the check that each of the ten functions asserts
  unfoldable pub check : Event R → Generator R C → Did (Generator R C)
  check (Event.key bytes) g = can_key g
  check Event.start_array g = can_push stack_array g
  check Event.end_array g = can_pop stack_array g
  check Event.start_object g = can_push stack_object g
  check Event.end_object g = can_pop stack_object g
  check _ g = can_value g

  -- !callback || callback(ctx)
  unfoldable pub call : Option (C → Bool × C) → Generator R C → Bool × Generator R C
  call none g = (true, g)
  call (some f) g = let (flag, ctx) = f g.ctx in (flag, record g { ctx = ctx })

  unfoldable pub callback : Event R → Callbacks R C → Option (C → Bool × C)
  callback Event.null c = c.null
  callback (Event.boolean is_true) c = with_arg c.boolean is_true
  callback (Event.integer integer) c = with_arg c.integer integer
  callback (Event.real real) c = with_arg c.real real
  callback (Event.string bytes) c = with_arg c.string bytes
  callback (Event.key bytes) c = with_arg c.key bytes
  callback Event.start_array c = c.start_array
  callback Event.end_array c = c.end_array
  callback Event.start_object c = c.start_object
  callback Event.end_object c = c.end_object

  -- jsnpg_null, jsnpg_boolean, .. jsnpg_end_object
  unfoldable pub deliver : Event R → Generator R C → Option (Bool × Generator R C)
  deliver e g =
      let checked = check e g in
      if checked.success
      then some (call (callback e checked.state.callbacks) checked.state)
      else none

  -- generator_new, with the memory behind the stack zeroed: `stack_size >> 3` bytes
  unfoldable pub generator_new : ℕ → Bool → Callbacks R C → C → Generator R C
  generator_new stack_size allow_invalid_utf8_out callbacks ctx = record {
    callbacks = callbacks;
    ctx = ctx;
    validate_utf8 = not allow_invalid_utf8_out;
    key_next = false;
    error = error_none;
    count = 0;
    stack = record { ptr = 0; size = stack_size; stack = replicate (stack_size / 8) 0 };
  }

  unfoldable pub generator_reset : Generator R C → Bool → Generator R C
  generator_reset g allow_invalid_utf8_out = record g {
    count = 0;
    validate_utf8 = not allow_invalid_utf8_out;
    error = error_none;
  }

  unfoldable pub generator_set_callbacks : Generator R C → Callbacks R C → C → Generator R C
  generator_set_callbacks g callbacks ctx = record g { callbacks = callbacks; ctx = ctx }

  abbrev pub jsnpg_result_error : Generator R C → ErrorCode
  jsnpg_result_error g = g.error
