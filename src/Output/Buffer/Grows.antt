-- ===== src/Output/Buffer/Grows.antt =====
-- src/output.c: what is put into the buffer is appended to what it holds, and fits.
use jsnpg.Base.{
  ℕ, zero, suc, ◌+◌, ◌-◌, ◌*◌, ◌≤◌, ◌<◌, List, [], ◌∷◌, ◌++◌, append-nil, Bool, true, false, some,
  ◌≡◌, refl, arith, ap, sym, subst, ◌==◌, ltb, if◌then◌else◌, length, length-append, replicate,
  length-replicate, Bool-cases, inl, inr,
}
use jsnpg.Base.Memory.{
  Holds, Holds-left, Holds-append, Holds-agree, Holds-poke_all, poke_all, poke_all-below,
}
use jsnpg.Output.Buffer.{
  Mos, mos_new, doubled, did, mos_grow, mos_reserve, mos_puts, mos_put, mos_putn, mos_adjust,
}

-- The doubling loop ends, at a size that is at least the one required.
doubled-le :
    (fuel required size : ℕ)
    → 0 < size
    → required ≤ size + fuel
    → (new_size : ℕ) × (doubled (suc fuel) required size ≡ some new_size) × (required ≤ new_size)
unfolding doubled
doubled-le zero required size pos h =
    let done : ltb size required ≡ false = ground arith in (size, rw done, omega arith)
doubled-le (suc fuel) required size pos h = elim (Bool-cases (ltb size required)) [
  | inl more ↦
      let (n, e, le) = doubled-le fuel required (size * 2) (omega arith) (ground arith) in
      (n, rw more e, le)
  | inr done ↦ (size, rw done, ground arith)
]

-- The buffer holds the text, within its capacity.
pub record Contains (mos : Mos) (text : List ℕ) : Type 0 where
  pub holds : Holds mos.buffer 0 text
  pub count_is : mos.count ≡ length text
  pub fits : mos.count ≤ mos.capacity
  pub doubles : 0 < mos.initial_capacity

pub mos_new-Contains : (n : ℕ) → Contains (mos_new n) []
unfolding mos_new
mos_new-Contains n = record {
  holds = tt;
  count_is = refl;
  fits = omega arith;
  doubles = ground arith;
}

-- What a reservation leaves: room behind the same text, of which nothing is written yet.
pub record Reserved (mos mos' : Mos) (n : ℕ) : Type 0 where
  pub same : mos'.buffer ≡ mos.buffer
  pub count_is : mos'.count ≡ mos.count + n
  pub fits : mos'.count ≤ mos'.capacity
  pub doubles : 0 < mos'.initial_capacity

module _ (grants : ℕ → Bool) (granted : (n : ℕ) → grants n ≡ true) where
  grow-lem :
      (mos : Mos) (n : ℕ)
      → 0 < mos.initial_capacity
      → (size : ℕ) × (mos_grow grants mos n ≡ did (record mos { capacity = size }))
        × (mos.count + n ≤ size)
  unfolding mos_grow
  grow-lem mos n pos =
      let start = if mos.capacity == 0 then mos.initial_capacity else mos.capacity * 2 in
      let (size, e, le) =
        doubled-le (mos.count + n) (mos.count + n) start (ground arith) (omega arith) in
      (size, ground (arith, e, granted size), le)

  -- With every allocation granted, a reservation succeeds: the count grows by the bytes reserved
  -- and stays within the capacity, and the buffer holds what it held.
  pub mos_reserve-Reserved :
      (mos : Mos) (text : List ℕ) (n : ℕ)
      → Contains mos text
      → ((mos_reserve grants mos n).success ≡ true)
        × Reserved mos (mos_reserve grants mos n).state n
  unfolding mos_reserve
  mos_reserve-Reserved mos text n c = elim (Bool-cases (ltb (mos.capacity - mos.count) n)) [
    | inl more ↦
        let (size, e, le) = grow-lem mos n c.doubles in
        rw more
          (rw e (refl, record { same = refl; count_is = refl; fits = le; doubles = c.doubles }))
    | inr room ↦ rw room (
      refl,
      record { same = refl; count_is = refl; fits = ground (arith, c.fits); doubles = c.doubles },
    )
  ]

  -- what is written behind the text at the old count is appended to it
  appended :
      (mos mos' : Mos) (text string : List ℕ)
      → Contains mos text
      → Reserved mos mos' (length string)
      → Contains (record mos' { buffer = poke_all mos'.buffer mos.count string }) (text ++ string)
  appended mos mos' text string c r =
      let written = Holds-poke_all mos.buffer mos.count string in
      let kept =
        Holds-agree mos.buffer (poke_all mos.buffer mos.count string) 0 text
          (λ j lo hi. poke_all-below mos.buffer mos.count string j (omega (arith, c.count_is)))
          c.holds in
      let at_ : 0 + length text ≡ mos.count = omega (arith, c.count_is) in
      record {
        holds = rw (r.same) (Holds-append _ 0 text string kept (rw at_ written));
        count_is = omega (arith, r.count_is, c.count_is, length-append text string);
        fits = r.fits;
        doubles = r.doubles;
      }

  -- With every allocation granted, `mos_puts` succeeds and appends the string.
  pub mos_puts-Contains :
      (mos : Mos) (text string : List ℕ)
      → Contains mos text
      → ((mos_puts grants mos string).success ≡ true)
        × Contains (mos_puts grants mos string).state (text ++ string)
  unfolding mos_puts
  mos_puts-Contains mos text string c =
      let (ok_, r) = mos_reserve-Reserved mos text (length string) c in
      rw ok_ (refl, appended mos (mos_reserve grants mos (length string)).state text string c r)

  -- `mos_put` succeeds and appends the byte.
  pub mos_put-Contains :
      (mos : Mos) (text : List ℕ) (chr : ℕ)
      → Contains mos text
      → ((mos_put grants mos chr).success ≡ true)
        × Contains (mos_put grants mos chr).state (text ++ chr ∷ [])
  unfolding mos_put
  mos_put-Contains mos text chr c =
      let (ok_, r) = mos_reserve-Reserved mos text 1 c in
      rw ok_ (refl, appended mos (mos_reserve grants mos 1).state text (chr ∷ []) c r)

  -- `mos_putn` succeeds and appends the byte `n` times.
  pub mos_putn-Contains :
      (mos : Mos) (text : List ℕ) (chr n : ℕ)
      → Contains mos text
      → ((mos_putn grants mos chr n).success ≡ true)
        × Contains (mos_putn grants mos chr n).state (text ++ replicate n chr)
  unfolding mos_putn
  mos_putn-Contains mos text chr zero c = (refl, rw append-nil c)
  mos_putn-Contains mos text chr (suc n) c =
      let (ok_, r) = mos_reserve-Reserved mos text (suc n) c in
      let mos' = (mos_reserve grants mos (suc n)).state in
      let string = replicate (suc n) chr in
      let len : suc n ≡ length string = ap suc (sym (length-replicate n chr)) in
      let e : mos_putn grants mos chr (suc n)
          ≡ did (record mos' { buffer = poke_all mos'.buffer mos.count string }) =
        ground (arith, ok_) in
      rw e (refl, appended mos mos' text string c (subst (Reserved mos mos') len r))

-- Bytes taken back are those at the end of the text.
pub mos_adjust-Contains :
    (mos : Mos) (text string : List ℕ)
    → Contains mos (text ++ string)
    → Contains (mos_adjust mos (length string)) text
unfolding mos_adjust
mos_adjust-Contains mos text string c = record {
  holds = Holds-left mos.buffer 0 text string c.holds;
  count_is = omega (arith, c.count_is, length-append text string);
  fits = omega (arith, c.fits);
  doubles = c.doubles;
}
