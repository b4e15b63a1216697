-- ===== src/Base/Memory.antt =====
-- Bytes in memory, read through a pointer: `m i` is the byte at offset `i`.
use Prim.Native.Nat.{ℕ, zero, suc, ◌+◌, ◌-◌, ◌≤◌, ◌<◌}
use mathlib.Core.Path.{◌≡◌, refl, ◌∙◌}
use mathlib.Core.List.{List, [], ◌∷◌, ◌++◌}
use mathlib.Core.Logic.{◌⊎◌}
use native.Mathlib.Omega.{arith}
use jsnpg.Base.Tests.{leb, ltb, ◌==◌, if◌then◌else◌}
use jsnpg.Base.Lists.{length, get_or}

abbrev pub Memory : Type 0
Memory = ℕ → ℕ

-- The bytes from offset `i` on are those of the list.
abbrev pub Holds : Memory → ℕ → List ℕ → Type 0
Holds m i [] = Unit
Holds m i (x ∷ xs) = (m i ≡ x) × Holds m (suc i) xs

-- *p = v
abbrev pub poke : Memory → ℕ → ℕ → Memory
poke m p v i = if p == i then v else m i

-- the bytes of a list written from `p` on
abbrev pub poke_all : Memory → ℕ → List ℕ → Memory
poke_all m p [] = m
poke_all m p (x ∷ xs) = poke_all (poke m p x) (suc p) xs

-- memmove(m + dst, m + src, n): the source is read whole before anything is written
abbrev pub memmove : Memory → ℕ → ℕ → ℕ → Memory
memmove m dst src n i =
    if leb dst i then (if ltb i (dst + n) then m (src + (i - dst)) else m i) else m i

-- the `n` bytes from offset `i` on
abbrev pub slice : Memory → ℕ → ℕ → List ℕ
slice m i zero = []
slice m i (suc n) = m i ∷ slice m (suc i) n

-- a list as the memory behind a pointer to its first byte
abbrev pub at_list : List ℕ → Memory
at_list xs i = get_or xs i 0

-- Bytes that hold a list still hold it where the memory has not changed.
pub Holds-agree :
    (m m' : Memory) (i : ℕ) (xs : List ℕ)
    → ((j : ℕ) → i ≤ j → j < i + length xs → m' j ≡ m j)
    → Holds m i xs
    → Holds m' i xs
Holds-agree m m' i [] same h = tt
Holds-agree m m' i (x ∷ xs) same h = (
  same i (omega arith) (omega arith) ∙ h.0,
  Holds-agree m m' (suc i) xs (λ j a b. same j (omega arith) (omega arith)) h.1,
)

pub Holds-append :
    (m : Memory) (i : ℕ) (xs ys : List ℕ)
    → Holds m i xs
    → Holds m (i + length xs) ys
    → Holds m i (xs ++ ys)
Holds-append m i [] ys hx hy = let e : i + 0 ≡ i = omega arith in rw e at hy
Holds-append m i (x ∷ xs) ys hx hy =
    let e : i + suc (length xs) ≡ suc i + length xs = omega arith in
    (hx.0, Holds-append m (suc i) xs ys hx.1 (rw e at hy))

pub Holds-left : (m : Memory) (i : ℕ) (xs ys : List ℕ) → Holds m i (xs ++ ys) → Holds m i xs
Holds-left m i [] ys h = tt
Holds-left m i (x ∷ xs) ys h = (h.0, Holds-left m (suc i) xs ys h.1)

pub Holds-right :
    (m : Memory) (i : ℕ) (xs ys : List ℕ) → Holds m i (xs ++ ys) → Holds m (i + length xs) ys
Holds-right m i [] ys h = let e : i + 0 ≡ i = omega arith in rw e h
Holds-right m i (x ∷ xs) ys h =
    let e : i + suc (length xs) ≡ suc i + length xs = omega arith in
    rw e (Holds-right m (suc i) xs ys h.1)

pub poke_all-below : (m : Memory) (p : ℕ) (xs : List ℕ) (j : ℕ) → j < p → poke_all m p xs j ≡ m j
poke_all-below m p [] j h = refl
poke_all-below m p (x ∷ xs) j h =
    poke_all-below (poke m p x) (suc p) xs j (omega arith) ∙ ground arith

pub poke_all-above :
    (m : Memory) (p : ℕ) (xs : List ℕ) (j : ℕ) → p + length xs ≤ j → poke_all m p xs j ≡ m j
poke_all-above m p [] j h = refl
poke_all-above m p (x ∷ xs) j h =
    poke_all-above (poke m p x) (suc p) xs j (omega arith) ∙ ground arith

pub Holds-poke_all : (m : Memory) (p : ℕ) (xs : List ℕ) → Holds (poke_all m p xs) p xs
Holds-poke_all m p [] = tt
Holds-poke_all m p (x ∷ xs) = (
  poke_all-below (poke m p x) (suc p) xs p (omega arith) ∙ ground arith,
  Holds-poke_all (poke m p x) (suc p) xs,
)

pub Holds-move :
    (m m' : Memory) (i i' : ℕ) (xs : List ℕ)
    → ((k : ℕ) → k < length xs → m' (i' + k) ≡ m (i + k))
    → Holds m i xs
    → Holds m' i' xs
Holds-move m m' i i' [] same h = tt
Holds-move m m' i i' (x ∷ xs) same h =
    let at0 : i + 0 ≡ i = omega arith in
    let at0' : i' + 0 ≡ i' = omega arith in
    let first : m' i' ≡ m i = rw (at0, at0') at (same 0 (omega arith)) in
    (
      first ∙ h.0,
      Holds-move m m' (suc i) (suc i') xs
          (λ k lt.
            let e : suc i + k ≡ i + suc k = omega arith in
            let e' : suc i' + k ≡ i' + suc k = omega arith in
            rw (e, e') (same (suc k) (omega arith)))
          h.1,
    )

pub Holds-memmove :
    (m : Memory) (dst src : ℕ) (xs : List ℕ) (n : ℕ)
    → length xs ≡ n
    → Holds m src xs
    → Holds (memmove m dst src n) dst xs
Holds-memmove m dst src xs n e h =
    Holds-move m (memmove m dst src n) src dst xs
      (λ k lt. let off : dst + k - dst ≡ k = omega arith in rw off (ground arith)) h

pub memmove-outside :
    (m : Memory) (dst src n j : ℕ) → (j < dst) ⊎ (dst + n ≤ j) → memmove m dst src n j ≡ m j
memmove-outside m dst src n j h = ground arith

pub slice-Holds :
    (m : Memory) (xs : List ℕ) (i n : ℕ) → n ≡ length xs → Holds m i xs → slice m i n ≡ xs
slice-Holds m [] i zero e h = refl
slice-Holds m [] i (suc n) e h = absurd (omega arith)
slice-Holds m (x ∷ xs) i zero e h = absurd (omega arith)
slice-Holds m (x ∷ xs) i (suc n) e h = rw (h.0, slice-Holds m xs (suc i) n (omega arith) h.1)

pub at_list-Holds : (xs : List ℕ) → Holds (at_list xs) 0 xs
at_list-Holds [] = tt
at_list-Holds (x ∷ xs) = (
  refl,
  Holds-move (at_list xs) (at_list (x ∷ xs)) 0 1 xs
      (λ k lt. let z : 1 + k ≡ suc (0 + k) = omega arith in rw z) (at_list-Holds xs),
)
