-- ===== src/Stack/Refine.antt =====
-- The bit stack of src/stack.c against a list of the open containers, innermost first.
use jsnpg.Base.{
  ℕ, ◌+◌, ◌-◌, ◌/◌, ◌%◌, ◌^◌, ◌*◌, ◌<◌, ◌≤◌, bit_and, List, [], ◌∷◌, Bool, true, false, Option,
  none, some, ◌≡◌, refl, ap, arith, length, get_or, set, get_or-set_self, get_or-set_ne, length-set,
  ◌==◌, ◌&&◌, if◌then◌else◌, ltb, ltb-eq_true, ltb-eq_false,
}
use native.Mathlib.Decide.{ℕ_discrete, dec_lt}
use jsnpg.Base.Table.{table, table-row}
use jsnpg.Stack.{Stack, stack_peek, stack_pop, stack_push, bit_at, mark_bit}

-- every byte, bit position read, bit position written and type
mark_bit_check : ℕ → ℕ → ℕ → ℕ → Bool
mark_bit_check b j k t =
    (bit_and 1 (mark_bit t (2 ^ k) b / 2 ^ j) == (if j == k then t else bit_and 1 (b / 2 ^ j)))
    && ltb (mark_bit t (2 ^ k) b) 256

mark_bit_table :
    table (λ b. table (λ j. table (λ k. table (λ t. mark_bit_check b j k t) 2) 8) 8) 256 ≡ true
unfolding table mark_bit mark_bit_check
mark_bit_table = refl

mark_bit_checked : (b j k t : ℕ) → b < 256 → j < 8 → k < 8 → t < 2 → mark_bit_check b j k t ≡ true
mark_bit_checked b j k t hb hj hk ht =
    table-row (mark_bit_check b j k) 2 t ht
      (table-row _ 8 k hk (table-row _ 8 j hj (table-row _ 256 b hb mark_bit_table)))

-- Writing bit k sets it to the type, and leaves the other bits of the byte.
mark_bit_lem :
    (b j k t : ℕ)
    → b < 256
    → j < 8
    → k < 8
    → t < 2
    → (bit_and 1 (mark_bit t (2 ^ k) b / 2 ^ j) ≡ (if j == k then t else bit_and 1 (b / 2 ^ j)))
      × (mark_bit t (2 ^ k) b < 256)
unfolding mark_bit_check
mark_bit_lem b j k t hb hj hk ht = ground (arith, mark_bit_checked b j k t hb hj hk ht)

abbrev AreBytes : List ℕ → Type 0
AreBytes bytes = (i : ℕ) → get_or bytes i 0 < 256

-- the write that `stack_push` makes at bit `sp`
abbrev write_bit : List ℕ → ℕ → ℕ → List ℕ
write_bit bytes sp t = set bytes (sp / 8) (mark_bit t (2 ^ (sp % 8)) (get_or bytes (sp / 8) 0))

module _ (bytes : List ℕ) (sp t : ℕ) (ok : AreBytes bytes) (room : sp / 8 < length bytes)
    (ht : t < 2) where
  bit_at-write_bit :
      (i : ℕ) → bit_at (write_bit bytes sp t) i ≡ (if i == sp then t else bit_at bytes i)
  unfolding bit_at
  bit_at-write_bit i = elim (ℕ_discrete (sp / 8) (i / 8)) [
    | yes e ↦
        let w = mark_bit t (2 ^ (sp % 8)) (get_or bytes (sp / 8) 0) in
        let here : get_or (write_bit bytes sp t) (i / 8) 0 ≡ w =
          rw (← e) (get_or-set_self bytes (sp / 8) w 0 room) in
        rw here (
          ground
            (arith, mark_bit_lem (get_or bytes (sp / 8) 0) (i % 8) (sp % 8) t (ok (sp / 8)), e))
    | no ne ↦
        let w = mark_bit t (2 ^ (sp % 8)) (get_or bytes (sp / 8) 0) in
        rw (get_or-set_ne bytes (sp / 8) (i / 8) w 0 ne) (ground arith)
  ]

  write_bit-AreBytes : AreBytes (write_bit bytes sp t)
  write_bit-AreBytes i = elim (ℕ_discrete (sp / 8) i) [
    | yes e ↦
        let w = mark_bit t (2 ^ (sp % 8)) (get_or bytes (sp / 8) 0) in
        rw (← e) (
          rw (get_or-set_self bytes (sp / 8) w 0 room)
            (mark_bit_lem (get_or bytes (sp / 8) 0) 0 (sp % 8) t (ok (sp / 8)) (omega arith)
              (omega arith) ht).1)
    | no ne ↦
        let w = mark_bit t (2 ^ (sp % 8)) (get_or bytes (sp / 8) 0) in
        rw (get_or-set_ne bytes (sp / 8) i w 0 ne) (ok i)
  ]

-- The bits below position `length open` spell the open containers, the innermost on top.
abbrev Spells : List ℕ → List ℕ → Type 0
Spells bytes [] = Unit
Spells bytes (t ∷ open_) = (bit_at bytes (length open_) ≡ t) × Spells bytes open_

abbrev AreTypes : List ℕ → Type 0
AreTypes [] = Unit
AreTypes (t ∷ ts) = (t < 2) × AreTypes ts

-- `size` counts bits, and the memory behind the stack holds that many.
pub record Refines (s : Stack) (nest : List ℕ) : Type 0 where
  pub depth : s.ptr ≡ length nest
  pub fits : s.ptr ≤ s.size
  pub allocated : s.size ≤ 8 * length s.stack
  pub are_bytes : AreBytes s.stack
  pub are_types : AreTypes nest
  pub spelled : Spells s.stack nest

Spells-write_bit :
    (bytes : List ℕ) (sp t : ℕ)
    → AreBytes bytes
    → sp / 8 < length bytes
    → t < 2
    → (nest : List ℕ) → length nest ≤ sp
    → Spells bytes nest
    → Spells (write_bit bytes sp t) nest
Spells-write_bit bytes sp t ok room ht [] h p = tt
Spells-write_bit bytes sp t ok room ht (u ∷ nest) h p = (
  ground (arith, bit_at-write_bit bytes sp t ok room ht (length nest), p.0),
  Spells-write_bit bytes sp t ok room ht nest (omega arith) p.1,
)

-- What each call does to the nesting, and what it returns.
abbrev pub peek_result : List ℕ → Option ℕ
peek_result [] = none
peek_result (t ∷ nest) = some t

abbrev pub pop_result : List ℕ → Option ℕ × List ℕ
pop_result [] = (none, [])
pop_result (t ∷ []) = (some 2, [])
pop_result (t ∷ u ∷ nest) = (some u, u ∷ nest)

-- `stack_peek` returns the innermost open container, or -1 if there is none.
pub stack_peek-Refines :
    (s : Stack) (nest : List ℕ) → Refines s nest → stack_peek s ≡ peek_result nest
unfolding stack_peek
stack_peek-Refines s [] r = ground (arith, r.depth)
stack_peek-Refines s (t ∷ nest) r =
    let e : s.ptr - 1 ≡ length nest = omega (arith, r.depth) in
    let p : bit_at s.stack (s.ptr - 1) ≡ t = rw e (r.spelled.0) in ground (arith, r.depth, p)

module _ (s : Stack) where
  stack_pop-last : s.ptr ≡ 1 → stack_pop s ≡ (some 2, record s { ptr = 0 })
  unfolding stack_pop
  stack_pop-last h = ground arith

  stack_pop-next :
      1 < s.ptr
      → stack_pop s ≡ (some (bit_at s.stack (s.ptr - 1 - 1)), record s { ptr = s.ptr - 1 })
  unfolding stack_pop
  stack_pop-next h = ground arith

  stack_push_room :
      (t : ℕ)
      → s.ptr < s.size
      → s.ptr < 2048
      → stack_push s t ≡ (true, record s { ptr = s.ptr + 1; stack = write_bit s.stack s.ptr t })
  unfolding stack_push
  stack_push_room t h small =
      let cut : s.ptr / 8 % 256 ≡ s.ptr / 8 = omega arith in rw cut (ground arith)

  stack_push_full : (t : ℕ) → s.size ≤ s.ptr → stack_push s t ≡ (false, s)
  unfolding stack_push
  stack_push_full t h = ground arith

-- `stack_pop` closes the innermost container and returns the type of the one around it, or
-- STACK_NONE where there is no other; on an empty stack it returns -1 and changes nothing.
pub stack_pop-Refines :
    (s : Stack) (nest : List ℕ)
    → Refines s nest
    → ((stack_pop s).0 ≡ (pop_result nest).0) × Refines (stack_pop s).1 (pop_result nest).1
stack_pop-Refines s [] r =
    let e : stack_pop s ≡ (none, s) = unfold stack_pop in ground (arith, r.depth) in rw e (refl, r)
stack_pop-Refines s (t ∷ []) r = rw (stack_pop-last s r.depth) (
  refl,
  record {
    depth = refl;
    fits = omega arith;
    allocated = r.allocated;
    are_bytes = r.are_bytes;
    are_types = tt;
    spelled = tt;
  },
)
stack_pop-Refines s (t ∷ u ∷ nest) r =
    let e : s.ptr - 1 - 1 ≡ length nest = omega (arith, r.depth) in
    rw (stack_pop-next s (omega (arith, r.depth))) (
      rw e (ap some r.spelled.1.0),
      record {
        depth = omega (arith, r.depth);
        fits = omega (arith, r.fits);
        allocated = r.allocated;
        are_bytes = r.are_bytes;
        are_types = r.are_types.1;
        spelled = r.spelled.1;
      },
    )

-- For a stack of at most 2048 entries `stack_push` opens a container of the given type, or returns
-- -1 and changes nothing when the stack is full.
pub stack_push-Refines :
    (s : Stack) (nest : List ℕ) (t : ℕ)
    → Refines s nest
    → t < 2
    → s.size ≤ 2048
    → ((stack_push s t).0 ≡ ltb (length nest) s.size)
      × Refines (stack_push s t).1 (if ltb (length nest) s.size then t ∷ nest else nest)
stack_push-Refines s nest t r ht small = elim (dec_lt s.ptr s.size) [
  | yes room ↦
      let in_memory : s.ptr / 8 < length s.stack = omega (arith, r.allocated) in
      let fits : length nest < s.size = omega (arith, r.depth) in
      let written = bit_at-write_bit s.stack s.ptr t r.are_bytes in_memory ht s.ptr in
      rw (stack_push_room s t room (omega arith)) (
        rw (ltb-eq_true (length nest) s.size fits) (
          refl,
          record {
            depth = omega (arith, r.depth);
            fits = omega arith;
            allocated =
                rw
                  (length-set s.stack (s.ptr / 8)
                    (mark_bit t (2 ^ (s.ptr % 8)) (get_or s.stack (s.ptr / 8) 0)))
                  r.allocated;
            are_bytes = write_bit-AreBytes s.stack s.ptr t r.are_bytes in_memory ht;
            are_types = (ht, r.are_types);
            spelled = (
              rw (← r.depth) (ground (arith, written)),
              Spells-write_bit s.stack s.ptr t r.are_bytes in_memory ht nest
                  (omega (arith, r.depth)) r.spelled,
            );
          },
        ))
  | no full ↦
      rw (stack_push_full s t (omega arith))
        (rw (ltb-eq_false (length nest) s.size (omega (arith, r.depth))) (refl, r))
]

-- On a stack of more than 2048 entries, from depth 2048 to depth 4095 a push with room left writes the
-- type over the entry for depth less 2048, and over no other: that entry is the type pushed. The new
-- innermost entry is what the memory held before, and a peek returns this and not the type that was
-- pushed, where they differ. The memory holds bytes, as many as the stack's size needs.
pub stack_peek-push_wraps :
    (s : Stack) (t : ℕ)
    → AreBytes s.stack
    → s.size ≤ 8 * length s.stack
    → t < 2
    → 2048 ≤ s.ptr
    → s.ptr < 4096
    → s.ptr < s.size
    → (stack_peek (stack_push s t).1 ≡ some (bit_at s.stack s.ptr))
      × ((i : ℕ)
          → bit_at (stack_push s t).1.stack i ≡ (if i == s.ptr - 2048 then t else bit_at s.stack i))
unfolding stack_peek stack_push
stack_peek-push_wraps s t bytes allocated type big below room =
    let off : s.ptr / 8 % 256 ≡ (s.ptr - 2048) / 8 = omega arith in
    let bit : s.ptr % 8 ≡ (s.ptr - 2048) % 8 = omega arith in
    let pushed : stack_push s t
        ≡ (true, record s { ptr = s.ptr + 1; stack = write_bit s.stack (s.ptr - 2048) t }) =
      rw (off, bit) (ground (arith, room)) in
    let written = bit_at-write_bit s.stack (s.ptr - 2048) t bytes (omega (arith, allocated)) type in
    let apart : (s.ptr == s.ptr - 2048) ≡ false = ground (arith, big) in
    let top : s.ptr + 1 - 1 ≡ s.ptr = omega arith in
    let same : bit_at (write_bit s.stack (s.ptr - 2048) t) s.ptr ≡ bit_at s.stack s.ptr =
      rw apart at (written s.ptr) in
    let some_entries : (s.ptr + 1 == 0) ≡ false = ground arith in
    (rw pushed (rw some_entries (rw top (ap some same))), rw pushed written)
