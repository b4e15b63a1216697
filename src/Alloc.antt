-- ===== src/Alloc.antt =====
-- src/alloc.c: an allocator keeps a list of what it has allocated, and frees it all at once. The
-- low-level functions are the user's: parameters of the model, over a heap of any type.
pub mod Frees
use jsnpg.Base.{
  ℕ, ◌+◌, ◌*◌, List, [], ◌∷◌, ◌++◌, Option, none, some, ◌==◌, Bool, false, ◌||◌, if◌then◌else◌, ltb,
  length,
}

-- pg_alloc, pg_realloc and pg_dealloc; an address is a number
pub record LowLevel : Type 1 where
  pub Heap : Type 0
  pub alloc : ℕ → Heap → Option ℕ × Heap
  pub realloc : ℕ → ℕ → Heap → Option ℕ × Heap
  pub dealloc : ℕ → Heap → Heap

abbrev pub allocator_default_allocs : ℕ
allocator_default_allocs = 1024

-- sizeof(void *), sizeof(allocator)
abbrev pub pointer_size : ℕ
pointer_size = 8

abbrev pub allocator_size : ℕ
allocator_size = 24

-- `struct allocator`: the entries in use of the table at the address `allocs`, whose block has
-- `table_bytes` bytes, and the allocator's own address. `overrun` is set where an entry has been
-- written behind that block: what memory holds from then on is not known, and what the model says of
-- it holds for a run without an overrun only.
pub record Allocator : Type 0 where
  pub self : ℕ
  pub allocs : ℕ
  pub table_bytes : ℕ
  pub capacity : ℕ
  pub entries : List ℕ
  pub overrun : Bool

abbrev pub used : Allocator → ℕ
used a = length a.entries

module _ (low : LowLevel) where
  open low use {Heap, alloc, realloc, dealloc}

  unfoldable pub allocator_new : low.Heap → Option Allocator × low.Heap
  allocator_new h =
      let (a, h₁) = alloc allocator_size h in
      let (allocs, h₂) = alloc (allocator_default_allocs * pointer_size) h₁ in
      elim a [
        | none ↦ (none, h₁)
        | some self ↦ elim allocs [
          | none ↦ (none, dealloc self h₂)
          | some table ↦ (
            some (record {
              self = self;
              allocs = table;
              table_bytes = allocator_default_allocs * pointer_size;
              capacity = allocator_default_allocs;
              entries = [];
              overrun = false;
            }),
            h₂,
          )
        ]
      ]

  dealloc_all : List ℕ → low.Heap → low.Heap
  dealloc_all [] h = h
  dealloc_all (p ∷ ps) h = dealloc_all ps (dealloc p h)

  -- the entries, the table, and the allocator
  unfoldable pub allocator_free : Option Allocator → low.Heap → low.Heap
  unfolding dealloc_all
  allocator_free none h = h
  allocator_free (some a) h = dealloc a.self (dealloc a.allocs (dealloc_all a.entries h))

  -- room for another entry: the table is given `capacity << 1` bytes, which is less than it has; the
  -- entries behind them are lost
  unfoldable pub grow_table : Allocator → low.Heap → Option Allocator × low.Heap
  grow_table a h =
      let (new_a, h') = realloc a.allocs (a.capacity * 2) h in
      if used a == a.capacity
      then elim new_a [
        | none ↦ (none, h')
        | some table ↦ (
          some (record a {
            allocs = table;
            table_bytes = a.capacity * 2;
            capacity = a.capacity * 2;
            overrun = a.overrun || ltb (a.capacity * 2) (pointer_size * used a);
          }),
          h',
        )
      ]
      else (some a, h)

  -- a->allocs[a->used++] = p
  abbrev pub add_entry : Allocator → ℕ → Allocator
  add_entry b q = record b {
    entries = b.entries ++ q ∷ [];
    overrun = b.overrun || ltb b.table_bytes (pointer_size * (used b + 1));
  }

  -- the address allocated, `none` for NULL
  unfoldable pub allocator_alloc : Allocator → ℕ → low.Heap → Option ℕ × Allocator × low.Heap
  allocator_alloc a size h =
      let (grown, h₁) = grow_table a h in
      elim grown [
        | none ↦ (none, a, h₁)
        | some b ↦
            let (p, h₂) = alloc size h₁ in
            elim p [ none ↦ (none, b, h₂) | some q ↦ (some q, add_entry b q, h₂) ]
      ]

  -- the first entry equal to `p`, in front of and behind which the others stand
  unfoldable pub realloc_entry : List ℕ → ℕ → ℕ → low.Heap → Option ℕ × List ℕ × low.Heap
  realloc_entry [] p new_size h = (none, [], h)
  realloc_entry (q ∷ qs) p new_size h =
      let rest = realloc_entry qs p new_size h in
      let (np, h') = realloc p new_size h in
      if p == q
      then elim np [ none ↦ (none, q ∷ qs, h') | some address ↦ (some address, address ∷ qs, h') ]
      else (rest.0, q ∷ rest.1, rest.2)

  unfoldable pub allocator_realloc : Allocator → ℕ → ℕ → low.Heap → Option ℕ × Allocator × low.Heap
  unfolding realloc_entry
  allocator_realloc a p new_size h =
      let r = realloc_entry a.entries p new_size h in (r.0, record a { entries = r.1 }, r.2)
