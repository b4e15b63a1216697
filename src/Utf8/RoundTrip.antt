-- ===== src/Utf8/RoundTrip.antt =====
-- src/utf8.c: what `utf8_encode` writes, `utf8_validate_sequence` accepts, and the other way round.
use jsnpg.Base.{
  ℕ, suc, ◌+◌, ◌*◌, ◌/◌, ◌%◌, ◌^◌, ◌<◌, ◌≤◌, List, [], ◌∷◌, true, some, ◌≡◌, refl, arith, length,
}
use native.Mathlib.Decide.{dec_lt}
use jsnpg.Base.Memory.{Memory, Holds}
use jsnpg.Utf8.{
  is_valid_codepoint, utf8_encode, Leader, leader, continuations, utf8_validate_sequence,
}

leader_1 : (x : ℕ) → x < 128 → leader x ≡ some (record { codepoint = x; bar = 0; cont = 0 })
unfolding leader
leader_1 x h = ground arith

leader_2 :
    (x : ℕ) → x < 32 → leader (0xC0 + x) ≡ some (record { codepoint = x; bar = 0x80; cont = 1 })
unfolding leader
leader_2 x h = ground arith

leader_3 :
    (x : ℕ) → x < 16 → leader (0xE0 + x) ≡ some (record { codepoint = x; bar = 0x800; cont = 2 })
unfolding leader
leader_3 x h = ground arith

leader_4 :
    (x : ℕ) → x < 8 → leader (0xF0 + x) ≡ some (record { codepoint = x; bar = 0x10000; cont = 3 })
unfolding leader
leader_4 x h = ground arith

module _ (bytes : Memory) where
  continuations-suc :
      (n i cp x : ℕ)
      → x < 64
      → bytes i ≡ 0x80 + x
      → continuations (suc n) bytes i cp ≡ continuations n bytes (suc i) (cp * 64 + x)
  unfolding continuations
  continuations-suc n i cp x h e = let low : bytes i % 64 ≡ x = omega arith in rw low (ground arith)

  -- the last steps, once the leader and the continuation bytes have been read
  validate-eq_some :
      (l : Leader) (cp count : ℕ)
      → leader (bytes 0) ≡ some l
      → continuations l.cont bytes 1 l.codepoint ≡ some cp
      → 1 + l.cont ≤ count
      → l.bar ≤ cp
      → is_valid_codepoint cp ≡ true
      → utf8_validate_sequence bytes count ≡ some (1 + l.cont)
  unfolding utf8_validate_sequence
  validate-eq_some l cp count hl hc room low valid =
      rw (hl, utf8_validate_sequence) (rw hc (ground arith))

-- The length of an encoding, by ranges.
pub encode_1 : (cp : ℕ) → cp < 0x80 → utf8_encode cp ≡ cp ∷ []
unfolding utf8_encode
encode_1 cp h = let e : cp % 256 ≡ cp = omega arith in ground (arith, e)

pub encode_2 :
    (cp : ℕ) → 0x80 ≤ cp → cp < 0x800 → utf8_encode cp ≡ (0xC0 + cp / 64) ∷ (0x80 + cp % 64) ∷ []
unfolding utf8_encode
encode_2 cp lo hi =
    let a : cp / 2 ^ 6 % 32 ≡ cp / 64 = omega arith in
    let b : cp / 2 ^ (6 * 0) % 64 ≡ cp % 64 = omega arith in ground (arith, a, b)

pub encode_3 :
    (cp : ℕ)
    → 0x800 ≤ cp
    → cp < 0x10000
    → is_valid_codepoint cp ≡ true
    → utf8_encode cp ≡ (0xE0 + cp / 4096) ∷ (0x80 + cp / 64 % 64) ∷ (0x80 + cp % 64) ∷ []
unfolding utf8_encode is_valid_codepoint
encode_3 cp lo hi valid =
    let a : cp / 2 ^ 12 % 16 ≡ cp / 4096 = omega arith in
    let b : cp / 2 ^ (6 * 0) % 64 ≡ cp % 64 = omega arith in ground (arith, a, b)

pub encode_4 :
    (cp : ℕ)
    → 0x10000 ≤ cp
    → is_valid_codepoint cp ≡ true
    → utf8_encode cp
      ≡ (0xF0 + cp / 262144)
        ∷ (0x80 + cp / 4096 % 64)
        ∷ (0x80 + cp / 64 % 64)
        ∷ (0x80 + cp % 64)
        ∷ []
unfolding utf8_encode is_valid_codepoint
encode_4 cp lo valid =
    let le : cp < 0x110000 = ground arith in
    let a : cp / 2 ^ 18 % 8 ≡ cp / 262144 = omega arith in
    let b : cp / 2 ^ (6 * 0) % 64 ≡ cp % 64 = omega arith in ground (arith, a, b)

continuations-zero : (bytes : Memory) (i cp : ℕ) → continuations 0 bytes i cp ≡ some cp
unfolding continuations
continuations-zero bytes i cp = refl

module _ (bytes : Memory) (count cp : ℕ) (valid : is_valid_codepoint cp ≡ true) where
  validate_2 :
      0x80 ≤ cp
      → cp < 0x800
      → Holds bytes 0 ((0xC0 + cp / 64) ∷ (0x80 + cp % 64) ∷ [])
      → 2 ≤ count
      → utf8_validate_sequence bytes count ≡ some 2
  validate_2 lo hi h room =
      let e : cp / 64 * 64 + cp % 64 ≡ cp = omega arith in
      validate-eq_some bytes (record { codepoint = cp / 64; bar = 0x80; cont = 1 }) cp count
        (rw (h.0) (leader_2 (cp / 64) (omega arith)))
        (rw (continuations-suc bytes 0 1 (cp / 64) (cp % 64) (omega arith) h.1.0)
          (rw e (continuations-zero bytes 2 cp)))
        room lo valid

  validate_3 :
      0x800 ≤ cp
      → cp < 0x10000
      → Holds bytes 0 ((0xE0 + cp / 4096) ∷ (0x80 + cp / 64 % 64) ∷ (0x80 + cp % 64) ∷ [])
      → 3 ≤ count
      → utf8_validate_sequence bytes count ≡ some 3
  validate_3 lo hi h room =
      let e : (cp / 4096 * 64 + cp / 64 % 64) * 64 + cp % 64 ≡ cp = omega arith in
      validate-eq_some bytes (record { codepoint = cp / 4096; bar = 0x800; cont = 2 }) cp count
        (rw (h.0) (leader_3 (cp / 4096) (omega arith)))
        (rw (continuations-suc bytes 1 1 (cp / 4096) (cp / 64 % 64) (omega arith) h.1.0) (
          rw
            (continuations-suc bytes 0 2 (cp / 4096 * 64 + cp / 64 % 64) (cp % 64) (omega arith)
              h.1.1.0)
            (rw e (continuations-zero bytes 3 cp))))
        room lo valid

  validate_4 :
      0x10000 ≤ cp
      → cp < 0x110000
      → Holds bytes 0 (
          (0xF0 + cp / 262144)
          ∷ (0x80 + cp / 4096 % 64)
          ∷ (0x80 + cp / 64 % 64)
          ∷ (0x80 + cp % 64)
          ∷ [])
      → 4 ≤ count
      → utf8_validate_sequence bytes count ≡ some 4
  validate_4 lo hi h room =
      let e : ((cp / 262144 * 64 + cp / 4096 % 64) * 64 + cp / 64 % 64) * 64 + cp % 64 ≡ cp =
        omega arith in
      validate-eq_some bytes (record { codepoint = cp / 262144; bar = 0x10000; cont = 3 }) cp count
        (rw (h.0) (leader_4 (cp / 262144) (omega arith)))
        (rw (continuations-suc bytes 2 1 (cp / 262144) (cp / 4096 % 64) (omega arith) h.1.0) (
          rw
            (continuations-suc bytes 1 2 (cp / 262144 * 64 + cp / 4096 % 64) (cp / 64 % 64)
              (omega arith) h.1.1.0)
            (rw
              (continuations-suc bytes 0 3 ((cp / 262144 * 64 + cp / 4096 % 64) * 64 + cp / 64 % 64)
                (cp % 64) (omega arith) h.1.1.1.0)
              (rw e (continuations-zero bytes 4 cp)))))
        room lo valid

  -- The encoding of a valid codepoint is accepted wherever it stands whole in the input, and the
  -- length reported is that of the encoding.
  pub validate-encode :
      Holds bytes 0 (utf8_encode cp)
      → length (utf8_encode cp) ≤ count
      → utf8_validate_sequence bytes count ≡ some (length (utf8_encode cp))
  validate-encode h room = elim (dec_lt cp 0x80) [
    | yes a ↦
        let e = encode_1 cp a in
        rw e (
          validate-eq_some bytes (record { codepoint = cp; bar = 0; cont = 0 }) cp count
            (rw ((rw e at h).0) (leader_1 cp a)) (continuations-zero bytes 1 cp) (rw e at room)
            (omega arith) valid)
    | no a ↦ elim (dec_lt cp 0x800) [
      | yes b ↦
          let e = encode_2 cp (omega arith) b in
          rw e (validate_2 (omega arith) b (rw e at h) (rw e at room))
      | no b ↦ elim (dec_lt cp 0x10000) [
        | yes c ↦
            let e = encode_3 cp (omega arith) c valid in
            rw e (validate_3 (omega arith) c (rw e at h) (rw e at room))
        | no c ↦
            let e = encode_4 cp (omega arith) valid in
            rw e (
              validate_4 (omega arith) (unfold is_valid_codepoint in ground arith) (rw e at h)
                (rw e at room))
      ]
    ]
  ]

-- An encoding has at most four bytes.
pub length-encode-le : (cp : ℕ) → length (utf8_encode cp) ≤ 4
unfolding utf8_encode
length-encode-le cp = ground arith

-- The first byte of an encoding of several bytes, which is not ASCII.
pub encode_head :
    (cp : ℕ)
    → 0x80 ≤ cp
    → is_valid_codepoint cp ≡ true
    → (b : ℕ) × (bs : List ℕ) × (utf8_encode cp ≡ b ∷ bs) × (0x80 ≤ b)
encode_head cp lo valid = elim (dec_lt cp 0x800) [
  | yes h ↦ (_, _, encode_2 cp lo h, omega arith)
  | no h ↦ elim (dec_lt cp 0x10000) [
    | yes k ↦ (_, _, encode_3 cp (omega arith) k valid, omega arith)
    | no k ↦ (_, _, encode_4 cp (omega arith) valid, omega arith)
  ]
]

abbrev pub AllHigh : List ℕ → Type 0
AllHigh [] = Unit
AllHigh (x ∷ xs) = (0x80 ≤ x) × AllHigh xs

-- No byte of an encoding of several bytes is ASCII.
pub encode-AllHigh : (cp : ℕ) → 0x80 ≤ cp → is_valid_codepoint cp ≡ true → AllHigh (utf8_encode cp)
encode-AllHigh cp lo valid = elim (dec_lt cp 0x800) [
  | yes h ↦ rw (encode_2 cp lo h) (omega arith)
  | no h ↦ elim (dec_lt cp 0x10000) [
    | yes k ↦ rw (encode_3 cp (omega arith) k valid) (omega arith)
    | no k ↦ rw (encode_4 cp (omega arith) valid) (omega arith)
  ]
]

pub length-encode_pos :
    (cp : ℕ) → 0x80 ≤ cp → is_valid_codepoint cp ≡ true → 0 < length (utf8_encode cp)
length-encode_pos cp lo valid = let (b, bs, e, high) = encode_head cp lo valid in rw e (omega arith)
