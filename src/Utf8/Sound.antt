-- ===== src/Utf8/Sound.antt =====
-- src/utf8.c: a sequence that `utf8_validate_sequence` accepts is the encoding of a codepoint.
use jsnpg.Base.{
  ℕ, zero, suc, ◌+◌, ◌*◌, ◌/◌, ◌%◌, ◌<◌, ◌≤◌, true, some, ◌≡◌, inl, inr, arith, length, ◌==◌,
  Option-cases, Bool-cases, ◌≢◌,
}
use jsnpg.Base.Memory.{Memory, Holds}
use jsnpg.Utf8.RoundTrip.{encode_1, encode_2, encode_3, encode_4}
use jsnpg.Utf8.{
  is_valid_codepoint, utf8_encode, is_continuation, Leader, leader, continuations,
  utf8_validate_sequence,
}

-- What an accepted call went through.
record Accepted (bytes : Memory) (count n : ℕ) : Type 0 where
  first : Leader
  codepoint : ℕ
  led : leader (bytes 0) ≡ some first
  read : continuations first.cont bytes 1 first.codepoint ≡ some codepoint
  room : 1 + first.cont ≤ count
  not_overlong : first.bar ≤ codepoint
  valid : is_valid_codepoint codepoint ≡ true
  result : n ≡ 1 + first.cont

validate-Accepted :
    (bytes : Memory) (count n : ℕ)
    → utf8_validate_sequence bytes count ≡ some n
    → Accepted bytes count n
unfolding utf8_validate_sequence
validate-Accepted bytes count n h = elim (Option-cases (leader (bytes 0))) [
  | inl e ↦ absurd (ground arith)
  | inr (l, e) ↦ elim (Option-cases (continuations l.cont bytes 1 l.codepoint)) [
    | inl f ↦ absurd (ground arith)
    | inr (cp, f) ↦ record {
      first = l;
      codepoint = cp;
      led = e;
      read = f;
      room = ground arith;
      not_overlong = ground arith;
      valid = ground arith;
      result = ground arith;
    }
  ]
]

-- one continuation byte read
continuations-inv :
    (n : ℕ) (bytes : Memory) (i cp out : ℕ)
    → bytes i < 256
    → continuations (suc n) bytes i cp ≡ some out
    → (x : ℕ) × (x < 64)
      × (bytes i ≡ 0x80 + x)
      × (continuations n bytes (suc i) (cp * 64 + x) ≡ some out)
unfolding continuations
continuations-inv n bytes i cp out small h = elim (Bool-cases (is_continuation (bytes i))) [
  | inl e ↦ (bytes i % 64, omega arith, ground arith, ground arith)
  | inr e ↦ absurd (ground arith)
]

continuations-done :
    (bytes : Memory) (i cp out : ℕ) → continuations 0 bytes i cp ≡ some out → cp ≡ out
unfolding continuations
continuations-done bytes i cp out h = ground arith

-- the four kinds of first byte
data Led (b : ℕ) (l : Leader) : Type 0 where
  led_1 : b < 0x80 → l ≡ record { codepoint = b; bar = 0; cont = 0 } → Led b l
  led_2 :
      (x : ℕ) → x < 32 → b ≡ 0xC0 + x → l ≡ record { codepoint = x; bar = 0x80; cont = 1 } → Led b l
  led_3 :
      (x : ℕ)
      → x < 16
      → b ≡ 0xE0 + x
      → l ≡ record { codepoint = x; bar = 0x800; cont = 2 }
      → Led b l
  led_4 :
      (x : ℕ)
      → x < 8
      → b ≡ 0xF0 + x
      → l ≡ record { codepoint = x; bar = 0x10000; cont = 3 }
      → Led b l

leader-Led : (b : ℕ) (l : Leader) → b < 256 → leader b ≡ some l → Led b l
unfolding leader
leader-Led b l small h = elim (Bool-cases (0xC0 == b / 32 % 8 * 32)) [
  | inl e ↦ led_2 (b % 32) (omega arith) (ground arith) (ground arith)
  | inr e ↦ elim (Bool-cases (0xE0 == b / 16 % 16 * 16)) [
    | inl f ↦ led_3 (b % 16) (omega arith) (ground arith) (ground arith)
    | inr f ↦ elim (Bool-cases (0xF0 == b / 8 % 32 * 8)) [
      | inl g ↦ led_4 (b % 8) (omega arith) (ground arith) (ground arith)
      | inr g ↦ led_1 (ground arith) (ground arith)
    ]
  ]
]

-- The bytes at the pointer are the encoding of a valid codepoint, of `n` bytes.
pub record Encodes (bytes : Memory) (n cp : ℕ) : Type 0 where
  pub valid : is_valid_codepoint cp ≡ true
  pub holds : Holds bytes 0 (utf8_encode cp)
  pub count : n ≡ length (utf8_encode cp)

module _ (bytes : Memory) (small : (i : ℕ) → bytes i < 256) (n cp : ℕ) where
  Encodes-2 :
      (x : ℕ)
      → x < 32
      → bytes 0 ≡ 0xC0 + x
      → continuations 1 bytes 1 x ≡ some cp
      → 0x80 ≤ cp
      → is_valid_codepoint cp ≡ true
      → n ≡ 2
      → Encodes bytes n cp
  Encodes-2 x hx e h lo valid count =
      let (y, hy, b1, h1) = continuations-inv 0 bytes 1 x cp (small 1) h in
      let d = continuations-done bytes 2 (x * 64 + y) cp h1 in
      let code = encode_2 cp lo (omega arith) in
      record { valid = valid; holds = rw code (omega arith); count = rw code count }

  Encodes-3 :
      (x : ℕ)
      → x < 16
      → bytes 0 ≡ 0xE0 + x
      → continuations 2 bytes 1 x ≡ some cp
      → 0x800 ≤ cp
      → is_valid_codepoint cp ≡ true
      → n ≡ 3
      → Encodes bytes n cp
  Encodes-3 x hx e h lo valid count =
      let (y, hy, b1, h1) = continuations-inv 1 bytes 1 x cp (small 1) h in
      let (z, hz, b2, h2) = continuations-inv 0 bytes 2 (x * 64 + y) cp (small 2) h1 in
      let d = continuations-done bytes 3 ((x * 64 + y) * 64 + z) cp h2 in
      let code = encode_3 cp lo (omega arith) valid in
      record { valid = valid; holds = rw code (omega arith); count = rw code count }

  Encodes-4 :
      (x : ℕ)
      → x < 8
      → bytes 0 ≡ 0xF0 + x
      → continuations 3 bytes 1 x ≡ some cp
      → 0x10000 ≤ cp
      → is_valid_codepoint cp ≡ true
      → n ≡ 4
      → Encodes bytes n cp
  Encodes-4 x hx e h lo valid count =
      let (y, hy, b1, h1) = continuations-inv 2 bytes 1 x cp (small 1) h in
      let (z, hz, b2, h2) = continuations-inv 1 bytes 2 (x * 64 + y) cp (small 2) h1 in
      let (w, hw, b3, h3) = continuations-inv 0 bytes 3 ((x * 64 + y) * 64 + z) cp (small 3) h2 in
      let d = continuations-done bytes 4 (((x * 64 + y) * 64 + z) * 64 + w) cp h3 in
      let code = encode_4 cp lo valid in
      record { valid = valid; holds = rw code (omega arith); count = rw code count }

  Accepted-Encodes :
      (l : Leader)
      → Led (bytes 0) l
      → continuations l.cont bytes 1 l.codepoint ≡ some cp
      → l.bar ≤ cp
      → is_valid_codepoint cp ≡ true
      → n ≡ 1 + l.cont
      → Encodes bytes n cp
  Accepted-Encodes l (led_1 h e) read lo valid count =
      let d = continuations-done bytes 1 (bytes 0) cp (rw e at read) in
      let code = encode_1 cp (omega arith) in
      record { valid = valid; holds = rw code (omega arith); count = rw code (rw e at count) }
  Accepted-Encodes l (led_2 x h b e) read lo valid count =
      Encodes-2 x h b (rw e at read) (rw e at lo) valid (rw e at count)
  Accepted-Encodes l (led_3 x h b e) read lo valid count =
      Encodes-3 x h b (rw e at read) (rw e at lo) valid (rw e at count)
  Accepted-Encodes l (led_4 x h b e) read lo valid count =
      Encodes-4 x h b (rw e at read) (rw e at lo) valid (rw e at count)

-- A sequence that is accepted with length n is the encoding, in n bytes, of a valid codepoint, and
-- lies within the count: no overlong form, surrogate, value above 0x10FFFF or cut sequence passes.
pub validate-Encodes :
    (bytes : Memory) (count n : ℕ)
    → ((i : ℕ) → bytes i < 256)
    → utf8_validate_sequence bytes count ≡ some n
    → (cp : ℕ) × Encodes bytes n cp × (n ≤ count)
validate-Encodes bytes count n small h =
    let a = validate-Accepted bytes count n h in
    (
      a.codepoint,
      Accepted-Encodes bytes small n a.codepoint a.first
          (leader-Led (bytes 0) a.first (small 0) a.led) a.read a.not_overlong a.valid a.result,
      omega (arith, a.result, a.room),
    )

continuations-within :
    (rounds : ℕ) (m : Memory) (read i count cp out : ℕ)
    → m count ≡ 0
    → read + i ≤ count
    → continuations rounds (λ j. m (read + j)) i cp ≡ some out
    → read + i + rounds ≤ count
unfolding continuations
continuations-within zero m read i count cp out ends le h = omega (arith, le)
continuations-within (suc rounds) m read i count cp out ends le h =
    elim (Bool-cases (is_continuation (m (read + i)))) [
      | inr e ↦ absurd (ground arith)
      | inl e ↦
          let ne : read + i ≢ count =
            λ z. let last : m (read + i) ≡ 0 = rw z ends in ground (arith, e, last) in
          let rest =
            continuations-within rounds m read (suc i) count (cp * 64 + m (read + i) % 64) out ends
              (omega (arith, le, ne)) (ground (arith, h, e)) in
          omega (arith, rest)
    ]

-- A sequence that is accepted holds no zero byte behind its first: it ends inside the text.
pub validate-within :
    (m : Memory) (read count n : ℕ)
    → m count ≡ 0
    → read < count
    → utf8_validate_sequence (λ j. m (read + j)) 4 ≡ some n
    → (0 < n) × (read + n ≤ count)
validate-within m read count n ends lt h =
    let a = validate-Accepted (λ j. m (read + j)) 4 n h in
    let rest =
      continuations-within a.first.cont m read 1 count a.first.codepoint a.codepoint ends
        (omega (arith, lt)) a.read in
    (omega (arith, a.result), omega (arith, rest, a.result))
