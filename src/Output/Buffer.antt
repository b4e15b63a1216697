-- ===== src/Output/Buffer.antt =====
-- src/output.c: memory_output_stream, a buffer that grows by doubling. A size_t is not cut: the
-- model is that of a program whose buffers stay below 2^63 bytes. `grants` tells of each size
-- whether the allocator serves it (src/alloc.c over the user's malloc and realloc); realloc keeps
-- the bytes that the old block held.
pub mod Grows
use jsnpg.Base.{
  ℕ, zero, suc, ◌+◌, ◌-◌, ◌*◌, List, [], ◌∷◌, Bool, true, false, Option, none, some, ◌==◌, ltb,
  if◌then◌else◌, length, replicate,
}
pub use jsnpg.Base.Did.{Did, did, failed, ◌then_do◌}
use jsnpg.Base.Memory.{Memory, poke, poke_all}

-- `struct memory_output_stream`; the pointer `buffer` is NULL while `capacity` is 0.
pub record Mos : Type 0 where
  pub initial_capacity : ℕ
  pub capacity : ℕ
  pub count : ℕ
  pub buffer : Memory

abbrev pub mos_default_capacity : ℕ
mos_default_capacity = 4096

unfoldable pub mos_new : ℕ → Mos
mos_new initial_capacity = record {
  initial_capacity = if ltb 0 initial_capacity then initial_capacity else mos_default_capacity;
  capacity = 0;
  count = 0;
  buffer = λ i. 0;
}

-- while(size < required) size <<= 1
unfoldable pub doubled : ℕ → ℕ → ℕ → Option ℕ
doubled zero required size = none
doubled (suc fuel) required size =
    let more = doubled fuel required (size * 2) in if ltb size required then more else some size

module _ (grants : ℕ → Bool) where
  -- With a size of at least 1 the fuel, one more than the size required, is not used up.
  unfoldable pub mos_grow : Mos → ℕ → Did Mos
  unfolding doubled
  mos_grow mos incr =
      let size = if mos.capacity == 0 then mos.initial_capacity else mos.capacity * 2 in
      let required = mos.count + incr in
      elim (doubled (suc required) required size) [
        | none ↦ failed mos
        | some new_size ↦
            if grants new_size then did (record mos { capacity = new_size }) else failed mos
      ]

  -- The bytes reserved begin at the old count.
  unfoldable pub mos_reserve : Mos → ℕ → Did Mos
  mos_reserve mos count =
      let grown = mos_grow mos count in
      if ltb (mos.capacity - mos.count) count
      then (if grown.success
          then did (record (grown.state) { count = grown.state.count + count })
          else grown)
      else did (record mos { count = mos.count + count })

  unfoldable pub mos_puts : Mos → List ℕ → Did Mos
  mos_puts mos string =
      let reserved = mos_reserve mos (length string) in
      if reserved.success
      then did
          (record (reserved.state) { buffer = poke_all reserved.state.buffer mos.count string })
      else reserved

  unfoldable pub mos_put : Mos → ℕ → Did Mos
  mos_put mos chr =
      let reserved = mos_reserve mos 1 in
      if reserved.success
      then did (record (reserved.state) { buffer = poke reserved.state.buffer mos.count chr })
      else reserved

  unfoldable pub mos_putn : Mos → ℕ → ℕ → Did Mos
  mos_putn mos chr count =
      let reserved = mos_reserve mos count in
      if count == 0
      then did mos
      else if reserved.success
      then did (record (reserved.state) {
        buffer = poke_all reserved.state.buffer mos.count (replicate count chr);
      })
      else reserved

-- `amount` less, which is what the callers add to the count
unfoldable pub mos_adjust : Mos → ℕ → Mos
mos_adjust mos less = record mos { count = mos.count - less }
