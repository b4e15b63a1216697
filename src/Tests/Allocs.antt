-- ===== src/Tests/Allocs.antt =====
-- src/alloc.c over a small malloc.
use mathlib.Core.Option.{some-injective, none-ne-some}
use jsnpg.Base.{
  ℕ, suc, ◌+◌, ◌-◌, ◌<◌, [], Bool-cases, false, Option, some, ◌≡◌, refl, sym, inl, inr, arith, ◌==◌,
}
use jsnpg.Alloc.{
  LowLevel, Allocator, allocator_new, allocator_free, allocator_alloc, allocator_realloc,
}
use jsnpg.Alloc.Frees.{one, Serves, made, allocated, reallocated, allocator_free-Reached}

-- the next address, and the live blocks at each address
record Blocks : Type 0 where
  next : ℕ
  live : ℕ → ℕ

abbrev gives : Blocks → Blocks
gives h = record { next = suc h.next; live = λ x. h.live x + one x h.next }

abbrev takes : ℕ → Blocks → Blocks
takes p h = record h { live = λ x. h.live x - one x p }

-- a malloc that never gives an address twice
abbrev counting : LowLevel
counting = record {
  Heap = Blocks;
  alloc = λ n h. (some h.next, gives h);
  realloc = λ p n h. (some h.next, gives (takes p h));
  dealloc = takes;
}

one_le : (x p : ℕ) (h : Blocks) → 0 < h.live p → (h.live x - one x p) + one x p ≡ h.live x
one_le x p h there = elim (Bool-cases (x == p)) [
  | inl same ↦
      let e : x ≡ p = ground (arith, same) in
      rw same (let there' : 0 < h.live x = rw e there in omega (arith, there'))
  | inr other ↦ rw other (omega arith)
]

counting-Serves : Serves counting (λ h. h.live)
counting-Serves = record {
  alloc_some = λ n p h e x. let is = some-injective _ _ e in rw (← is) refl;
  alloc_none = λ n h e x. absurd (none-ne-some _ (sym e));
  realloc_some = λ p n q h there e x.
      let is = some-injective _ _ e in
      let back = one_le x p h there in rw (← is) (omega (arith, back));
  realloc_none = λ p n h there e x. absurd (none-ne-some _ (sym e));
  dealloc = λ p h there x. one_le x p h there;
}

abbrev start : Blocks
start = record { next = 0; live = λ x. 0 }

abbrev first : Allocator
first = record {
  self = 0;
  allocs = 1;
  table_bytes = 8192;
  capacity = 1024;
  entries = [];
  overrun = false;
}

-- a block that is allocated, and reallocated
abbrev after : Option ℕ × Allocator × Blocks
after = allocator_alloc counting first 10 (gives (gives start))

abbrev moved : Option ℕ × Allocator × Blocks
moved = allocator_realloc counting after.1 2 20 after.2

allocator_free-Reached_example :
    (moved.1.overrun ≡ false)
    × ((x : ℕ) → (allocator_free counting (some moved.1) moved.2).live x ≡ 0)
unfolding allocator_new
allocator_free-Reached_example =
    allocator_free-Reached counting (λ h. h.live) counting-Serves start moved.1 moved.2
      (reallocated 2 20 (allocated 10 (omega arith) (made refl)))
