-- ===== src/Alloc/Frees.antt =====
-- src/alloc.c: allocator_free gives back all that the allocator has been given, each block once.
use mathlib.Core.Option.{some-injective, none-ne-some}
use jsnpg.Base.{
  ℕ, ◌+◌, ◌*◌, ◌≤◌, ◌<◌, List, [], ◌∷◌, ◌++◌, Bool-cases, Option, Option-cases, none, some, ◌≡◌,
  refl, inl, inr, ap, subst, arith, ◌==◌, false, if◌then◌else◌, length, length-append, ltb,
  ltb-eq_false,
}
use jsnpg.Alloc.{
  LowLevel, allocator_default_allocs, pointer_size, allocator_size, Allocator, used, allocator_new,
  dealloc_all, allocator_free, grow_table, add_entry, allocator_alloc, realloc_entry,
  allocator_realloc,
}

abbrev pub one : ℕ → ℕ → ℕ
one x p = if x == p then 1 else 0

-- how often an address stands in a list
abbrev pub tally : ℕ → List ℕ → ℕ
tally x [] = 0
tally x (p ∷ ps) = one x p + tally x ps

one-same : (p : ℕ) → one p p ≡ 1
one-same p = ground arith

tally-append : (x p : ℕ) (ps : List ℕ) → tally x (ps ++ p ∷ []) ≡ tally x ps + one x p
tally-append x p [] = omega arith
tally-append x p (q ∷ ps) = let e = tally-append x p ps in omega (arith, e)

-- What malloc, realloc and free do, by how many live blocks a heap has at an address.
pub record Serves (low : LowLevel) (live : low.Heap → ℕ → ℕ) : Type 0 where
  pub alloc_some :
      (n p : ℕ) (h : low.Heap)
      → (low.alloc n h).0 ≡ some p
      → (x : ℕ) → live (low.alloc n h).1 x ≡ live h x + one x p
  pub alloc_none :
      (n : ℕ) (h : low.Heap)
      → (low.alloc n h).0 ≡ none
      → (x : ℕ) → live (low.alloc n h).1 x ≡ live h x
  pub realloc_some :
      (p n q : ℕ) (h : low.Heap)
      → 0 < live h p
      → (low.realloc p n h).0 ≡ some q
      → (x : ℕ) → live (low.realloc p n h).1 x + one x p ≡ live h x + one x q
  pub realloc_none :
      (p n : ℕ) (h : low.Heap)
      → 0 < live h p
      → (low.realloc p n h).0 ≡ none
      → (x : ℕ) → live (low.realloc p n h).1 x ≡ live h x
  pub dealloc :
      (p : ℕ) (h : low.Heap)
      → 0 < live h p
      → (x : ℕ) → live (low.dealloc p h) x + one x p ≡ live h x

module _ (low : LowLevel) (live : low.Heap → ℕ → ℕ) (serves : Serves low live) where
  -- The heap has the blocks of the allocator, and those that `base` counts.
  abbrev Owns : (ℕ → ℕ) → Allocator → low.Heap → Type 0
  Owns base a h = (x : ℕ) → live h x ≡ base x + one x a.self + one x a.allocs + tally x a.entries

  dealloc_all-live :
      (ps : List ℕ) (base : ℕ → ℕ) (h : low.Heap)
      → ((x : ℕ) → live h x ≡ base x + tally x ps)
      → (x : ℕ) → live (dealloc_all low ps h) x ≡ base x
  unfolding dealloc_all
  dealloc_all-live [] base h own x = omega (arith, own x)
  dealloc_all-live (p ∷ ps) base h own x =
      dealloc_all-live ps base (low.dealloc p h)
        (λ y. omega (arith, own y, serves.dealloc p h (omega (arith, own p, one-same p)) y)) x

  allocator_free-live :
      (base : ℕ → ℕ) (a : Allocator) (h : low.Heap)
      → Owns base a h
      → (x : ℕ) → live (allocator_free low (some a) h) x ≡ base x
  unfolding allocator_free
  allocator_free-live base a h own x =
      let h₁ = dealloc_all low a.entries h in
      let rest = dealloc_all-live a.entries (λ y. base y + one y a.self + one y a.allocs) h own in
      let h₂ = low.dealloc a.allocs h₁ in
      let table = serves.dealloc a.allocs h₁ (omega (arith, rest a.allocs, one-same a.allocs)) in
      let self =
        serves.dealloc a.self h₂ (omega (arith, rest a.self, table a.self, one-same a.self)) in
      omega (arith, rest x, table x, self x)

  -- the allocator as a failed call leaves it
  abbrev owner : Option Allocator → Allocator → Allocator
  owner none a = a
  owner (some b) a = b

  grow_table-Owns :
      (base : ℕ → ℕ) (a : Allocator) (h : low.Heap)
      → Owns base a h
      → Owns base (owner (grow_table low a h).0 a) (grow_table low a h).1
  unfolding grow_table
  grow_table-Owns base a h own = elim (Bool-cases (used a == a.capacity)) [
    | inr room ↦ rw room own
    | inl full ↦
        let there : 0 < live h a.allocs = omega (arith, own a.allocs, one-same a.allocs) in
        rw full (elim (Option-cases (low.realloc a.allocs (a.capacity * 2) h).0) [
          | inl failed ↦ rw failed (λ x.
              omega (arith, own x, serves.realloc_none a.allocs (a.capacity * 2) h there failed x))
          | inr (q, grown) ↦ rw grown (λ x.
              omega (arith, own x, serves.realloc_some a.allocs (a.capacity * 2) q h there grown x))
        ])
  ]

  allocator_alloc-Owns :
      (base : ℕ → ℕ) (a : Allocator) (size : ℕ) (h : low.Heap)
      → Owns base a h
      → Owns base (allocator_alloc low a size h).1 (allocator_alloc low a size h).2
  unfolding allocator_alloc
  allocator_alloc-Owns base a size h own =
      by_table (grow_table low a h).0 (grow_table low a h).1 (grow_table-Owns base a h own)
    where
      by_block :
          (b : Allocator) (h₁ : low.Heap) (p : Option ℕ) (h₂ : low.Heap)
          → Owns base b h₁
          → ((x : ℕ) → live h₂ x ≡ live h₁ x + tally x (elim p [ none ↦ [] | some q ↦ q ∷ [] ]))
          → (let r : Option ℕ × Allocator × low.Heap = elim p [
            | none ↦ (none, b, h₂)
            | some q ↦ (some q, add_entry low b q, h₂)
          ] in
              Owns base r.1 r.2)
      by_block b h₁ none h₂ own' same = λ x. omega (arith, own' x, same x)
      by_block b h₁ (some q) h₂ own' same =
          λ x. omega (arith, own' x, same x, tally-append x q b.entries)

      by_table :
          (grown : Option Allocator) (h₁ : low.Heap)
          → Owns base (owner grown a) h₁
          → (let r : Option ℕ × Allocator × low.Heap = elim grown [
            | none ↦ (none, a, h₁)
            | some b ↦
                let (p, h₂) = low.alloc size h₁ in
                elim p [ none ↦ (none, b, h₂) | some q ↦ (some q, add_entry low b q, h₂) ]
          ] in
              Owns base r.1 r.2)
      by_table none h₁ own' = own'
      by_table (some b) h₁ own' =
          by_block b h₁ (low.alloc size h₁).0 (low.alloc size h₁).1 own'
            (elim (Option-cases (low.alloc size h₁).0) [
              | inl failed ↦ λ x. rw failed (omega (arith, serves.alloc_none size h₁ failed x))
              | inr (q, given) ↦ λ x. rw given (omega (arith, serves.alloc_some size q h₁ given x))
            ])

  realloc_entry-live :
      (ps : List ℕ) (p n : ℕ) (h : low.Heap)
      → ((x : ℕ) → tally x ps ≤ live h x)
      → (x : ℕ)
      → live (realloc_entry low ps p n h).2 x + tally x ps
        ≡ live h x + tally x (realloc_entry low ps p n h).1
  unfolding realloc_entry
  realloc_entry-live [] p n h le x = omega arith
  realloc_entry-live (q ∷ qs) p n h le x =
      let rest = realloc_entry-live qs p n h (λ y. omega (arith, le y)) x in
      elim (Bool-cases (p == q)) [
        | inr other ↦ rw other (omega (arith, rest))
        | inl same ↦
            let e : p ≡ q = ground (arith, same) in
            let there : 0 < live h p = rw e (omega (arith, le q, one-same q)) in
            rw same (elim (Option-cases (low.realloc p n h).0) [
              | inl failed ↦ rw failed (omega (arith, serves.realloc_none p n h there failed x))
              | inr (r, moved) ↦
                  let swapped : one x p ≡ one x q = ap (λ y. one x y) e in
                  rw moved (omega (arith, serves.realloc_some p n r h there moved x, swapped))
            ])
      ]

  allocator_realloc-Owns :
      (base : ℕ → ℕ) (a : Allocator) (p size : ℕ) (h : low.Heap)
      → Owns base a h
      → Owns base (allocator_realloc low a p size h).1 (allocator_realloc low a p size h).2
  unfolding allocator_realloc
  allocator_realloc-Owns base a p size h own x =
      let moved = realloc_entry-live a.entries p size h (λ y. omega (arith, own y)) x in
      omega (arith, own x, moved)

  -- An allocator made on the heap `start`, and what has been allocated and reallocated with it since,
  -- at most as often as its table has entries from the start.
  pub data Reached (start : low.Heap) : Allocator → low.Heap → Type 0 where
    made :
        {a : Allocator}
        → (allocator_new low start).0 ≡ some a
        → Reached start a (allocator_new low start).1
    allocated :
        {a : Allocator} {h : low.Heap} (size : ℕ)
        → used a < allocator_default_allocs
        → Reached start a h
        → Reached start (allocator_alloc low a size h).1 (allocator_alloc low a size h).2
    reallocated :
        {a : Allocator} {h : low.Heap} (p size : ℕ)
        → Reached start a h
        → Reached start (allocator_realloc low a p size h).1 (allocator_realloc low a p size h).2

  new-Owns :
      (start : low.Heap) (a : Allocator)
      → (allocator_new low start).0 ≡ some a
      → Owns (live start) a (allocator_new low start).1
  unfolding allocator_new
  new-Owns start a e =
      let table_size = allocator_default_allocs * pointer_size in
      let h₁ = (low.alloc allocator_size start).1 in
      elim (Option-cases (low.alloc allocator_size start).0) [
        | inl failed ↦ absurd (none-ne-some _ (rw (failed, allocator_new) at e))
        | inr (self, given) ↦ elim (Option-cases (low.alloc table_size h₁).0) [
          | inl failed ↦ absurd (none-ne-some _ (rw (given, failed, allocator_new) at e))
          | inr (table, given') ↦
              let is = some-injective _ _ (rw (given, given', allocator_new) at e) in
              subst (λ b. Owns (live start) b (allocator_new low start).1) is
                (λ x.
                  rw (given, given', allocator_new)
                    (omega (
                      arith,
                      serves.alloc_some allocator_size self start given x,
                      serves.alloc_some table_size table h₁ given' x,
                    )))
        ]
      ]

  Reached-Owns :
      (start : low.Heap) (a : Allocator) (h : low.Heap) → Reached start a h → Owns (live start) a h
  Reached-Owns start _ _ (made {a = a} e) = new-Owns start a e
  Reached-Owns start _ _ (allocated {a = a} {h = h} size room r) =
      allocator_alloc-Owns (live start) a size h (Reached-Owns start a h r)
  Reached-Owns start _ _ (reallocated {a = a} {h = h} p size r) =
      allocator_realloc-Owns (live start) a p size h (Reached-Owns start a h r)

  -- The table is as it was made, and its entries lie inside it.
  record InTable (a : Allocator) : Type 0 where
    capacity : a.capacity ≡ allocator_default_allocs
    table_bytes : a.table_bytes ≡ allocator_default_allocs * pointer_size
    in_block : used a ≤ allocator_default_allocs
    overrun : a.overrun ≡ false

  new-InTable :
      (start : low.Heap) (a : Allocator) → (allocator_new low start).0 ≡ some a → InTable a
  unfolding allocator_new
  new-InTable start a e =
      let h₁ = (low.alloc allocator_size start).1 in
      elim (Option-cases (low.alloc allocator_size start).0) [
        | inl failed ↦ absurd (none-ne-some _ (rw (failed, allocator_new) at e))
        | inr (self, given) ↦
            elim (Option-cases (low.alloc (allocator_default_allocs * pointer_size) h₁).0) [
              | inl failed ↦ absurd (none-ne-some _ (rw (given, failed, allocator_new) at e))
              | inr (table, given') ↦
                  subst InTable (some-injective _ _ (rw (given, given', allocator_new) at e))
                    (record {
                      capacity = refl;
                      table_bytes = refl;
                      in_block = omega arith;
                      overrun = refl;
                    })
            ]
      ]

  add_entry-InTable :
      (a : Allocator) (q : ℕ)
      → used a < allocator_default_allocs
      → InTable a
      → InTable (add_entry low a q)
  add_entry-InTable a q room i =
      let longer : length (a.entries ++ q ∷ []) ≡ length a.entries + 1 =
        length-append a.entries (q ∷ []) in
      let inside : ltb a.table_bytes (pointer_size * (used a + 1)) ≡ false = rw (i.table_bytes) (
        ltb-eq_false (allocator_default_allocs * pointer_size) (pointer_size * (used a + 1))
          (omega arith)) in
      record {
        capacity = i.capacity;
        table_bytes = i.table_bytes;
        in_block = omega (arith, longer);
        overrun = rw (i.overrun, inside) refl;
      }

  grow_table_room :
      (a : Allocator) (h : low.Heap) → used a < a.capacity → grow_table low a h ≡ (some a, h)
  unfolding grow_table
  grow_table_room a h room = ground (arith, room)

  allocator_alloc-InTable :
      (a : Allocator) (size : ℕ) (h : low.Heap)
      → used a < allocator_default_allocs
      → InTable a
      → InTable (allocator_alloc low a size h).1
  unfolding allocator_alloc
  allocator_alloc-InTable a size h room i =
      let same = grow_table_room a h (rw (i.capacity) room) in
      elim (Option-cases (low.alloc size (grow_table low a h).1).0) [
        | inl failed ↦ rw (same, allocator_alloc) (rw (failed, allocator_alloc) i)
        | inr (q, given) ↦
            rw (same, allocator_alloc) (rw (given, allocator_alloc) (add_entry-InTable a q room i))
      ]

  length-realloc_entry :
      (ps : List ℕ) (p n : ℕ) (h : low.Heap) → length (realloc_entry low ps p n h).1 ≡ length ps
  unfolding realloc_entry
  length-realloc_entry [] p n h = refl
  length-realloc_entry (q ∷ qs) p n h =
      let rest = length-realloc_entry qs p n h in
      elim (Bool-cases (p == q)) [
        | inr other ↦ rw other (omega (arith, rest))
        | inl same ↦ elim (Option-cases (low.realloc p n h).0) [
          | inl failed ↦ rw (same, failed) refl
          | inr (r, moved) ↦ rw (same, moved) refl
        ]
      ]

  allocator_realloc-InTable :
      (a : Allocator) (p size : ℕ) (h : low.Heap)
      → InTable a
      → InTable (allocator_realloc low a p size h).1
  unfolding allocator_realloc
  allocator_realloc-InTable a p size h i = record {
    capacity = i.capacity;
    table_bytes = i.table_bytes;
    in_block = omega (arith, length-realloc_entry a.entries p size h, i.in_block);
    overrun = i.overrun;
  }

  Reached-InTable :
      (start : low.Heap) (a : Allocator) (h : low.Heap) → Reached start a h → InTable a
  Reached-InTable start _ _ (made {a = a} e) = new-InTable start a e
  Reached-InTable start _ _ (allocated {a = a} {h = h} size room r) =
      allocator_alloc-InTable a size h room (Reached-InTable start a h r)
  Reached-InTable start _ _ (reallocated {a = a} {h = h} p size r) =
      allocator_realloc-InTable a p size h (Reached-InTable start a h r)

  -- An allocator is made, at most 1024 allocations are made with it, and any of them is reallocated
  -- any number of times. Then no entry has been written behind the table, and when the allocator is
  -- freed, the heap has at each address the live blocks that it had before the allocator was made: none
  -- of what was allocated is left and none is freed twice. malloc, realloc and free are such that they
  -- count the live blocks.
  pub allocator_free-Reached :
      (start : low.Heap) (a : Allocator) (h : low.Heap)
      → Reached start a h
      → (a.overrun ≡ false) × ((x : ℕ) → live (allocator_free low (some a) h) x ≡ live start x)
  allocator_free-Reached start a h r = (
    (Reached-InTable start a h r).overrun,
    allocator_free-live (live start) a h (Reached-Owns start a h r),
  )
