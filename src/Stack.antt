-- ===== src/Stack.antt =====
-- src/stack.c: the bit stack that records the nesting of arrays and objects.
pub mod Refine
use jsnpg.Base.{
  ℕ, ◌+◌, ◌-◌, ◌*◌, ◌/◌, ◌%◌, ◌^◌, bit_and, bit_or, List, Option, none, some, Bool, ◌==◌, leb, ltb,
  if◌then◌else◌, get_or, set,
}

abbrev pub stack_object : ℕ
stack_object = 0

abbrev pub stack_array : ℕ
stack_array = 1

abbrev pub stack_none : ℕ
stack_none = 2

-- `struct stack`; the list is the memory behind the pointer `stack`.
pub record Stack : Type 0 where
  pub ptr : ℕ
  pub size : ℕ
  pub stack : List ℕ

-- 0x01 & byte >> (sp & 0x07), at the byte sp >> 3
unfoldable pub bit_at : List ℕ → ℕ → ℕ
bit_at bytes sp = bit_and 1 (get_or bytes (sp / 8) 0 / 2 ^ (sp % 8))

-- `none` is the result -1.
unfoldable pub stack_peek : Stack → Option ℕ
unfolding bit_at
stack_peek s = if s.ptr == 0 then none else some (bit_at s.stack (s.ptr - 1))

unfoldable pub stack_pop : Stack → Option ℕ × Stack
unfolding bit_at
stack_pop s =
    if s.ptr == 0
    then (none, s)
    else if s.ptr == 1
    then (some stack_none, record s { ptr = 0 })
    else (some (bit_at s.stack (s.ptr - 1 - 1)), record s { ptr = s.ptr - 1 })

-- `|= mask` for an array, `&= ~mask` otherwise
unfoldable pub mark_bit : ℕ → ℕ → ℕ → ℕ
mark_bit type mask old = if type == stack_array then bit_or old mask else bit_and old (255 - mask)

-- The flag is false for the result -1. The index `(byte)(sp >> 3)` is cut to eight bits.
unfoldable pub stack_push : Stack → ℕ → Bool × Stack
unfolding mark_bit
stack_push s type =
    let sp = s.ptr in
    let offset = sp / 8 % 256 in
    let mask = 2 ^ (sp % 8) in
    if leb s.size sp then (Bool.false, s) else (
      Bool.true,
      record s {
        ptr = sp + 1;
        stack = set s.stack offset (mark_bit type mask (get_or s.stack offset 0));
      },
    )

abbrev pub min_stack_size : ℕ
min_stack_size = 1024

unfoldable pub get_stack_size : ℕ → ℕ
get_stack_size max_nesting = if ltb min_stack_size max_nesting then max_nesting else min_stack_size
