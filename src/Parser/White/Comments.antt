-- ===== src/Parser/White/Comments.antt =====
-- src/parser.c: the loops that skip comments end, inside the text, whatever it holds.
use jsnpg.Base.{
  ℕ, zero, suc, ◌-◌, ◌≤◌, ◌<◌, Bool, true, false, Bool-cases, ◌≡◌, ◌≢◌, refl, ◌∙◌, inl, inr, arith,
  ◌==◌, if◌then◌else◌,
}
use native.Mathlib.Decide.{ℕ_discrete}
use jsnpg.Input.{Mis, mis_take, mis_find, mis_eof}
use jsnpg.Outcome.{Outcome, ok, thrown, no_fuel, throw, ◌>>=◌}
use jsnpg.Parser.White.{
  bytes_left, mis_consume_whitespace, block_comment, comment_loop, consume_whitespace,
}
use jsnpg.Types.{error_unexpected}
use jsnpg.Parser.White.Ends.{
  Inside, Advanced, Ends, at_offset, Advanced-at_offset, Inside-at_offset, before_end,
  mis_consume_whitespace-Skipped, mis_find-cases,
}

-- A function that ends, called further on.
Ends-later :
    {A : Type 0} (mis : Mis) (p : ℕ) (o : Outcome A)
    → mis.read ≤ p
    → p ≤ mis.count
    → Ends (at_offset mis p) o
    → Ends mis o
Ends-later mis p (ok a mis') lo hi e = record {
  same_bytes = e.same_bytes;
  same_count = e.same_count;
  same_start = e.same_start;
  onward = omega (arith, e.onward);
  within = e.within;
}
Ends-later mis p (thrown code at mis') lo hi e = tt
Ends-later mis p no_fuel lo hi e = absurd e

-- The rounds of the block comment loop, by what follows the next asterisk.
block_comment-closed :
    (fuel : ℕ) (mis : Mis) (p : ℕ)
    → mis_find mis b'*' ≡ (b'*', at_offset mis p)
    → mis.bytes (suc p) ≡ b'/'
    → block_comment (suc fuel) mis ≡ ok true (at_offset mis (suc (suc p)))
unfolding block_comment
block_comment-closed fuel mis p e slash = rw (e, block_comment) (rw slash refl)

block_comment-open :
    (fuel : ℕ) (mis : Mis) (p : ℕ)
    → mis_find mis b'*' ≡ (b'*', at_offset mis p)
    → mis.bytes (suc p) ≢ b'/'
    → block_comment (suc fuel) mis ≡ (
        if suc p == mis.count
        then ok false (at_offset mis (suc p))
        else block_comment fuel (at_offset mis (suc p)))
unfolding block_comment
block_comment-open fuel mis p e ne =
    let other : (mis.bytes (suc p) == b'/') ≡ false = ground (arith, ne) in
    rw (e, block_comment) (rw other refl)

block_comment-unclosed :
    (fuel : ℕ) (mis : Mis)
    → mis_find mis b'*' ≡ (0, at_offset mis mis.count)
    → block_comment (suc fuel) mis ≡ ok false (at_offset mis mis.count)
unfolding block_comment
block_comment-unclosed fuel mis e =
    let eof : (mis.count == mis.count) ≡ true = ground arith in rw (e, block_comment) (rw eof refl)

block_comment-Ends :
    (fuel : ℕ) (mis : Mis)
    → Inside mis
    → mis.count - mis.read < fuel
    → Ends mis (block_comment fuel mis)
block_comment-Ends zero mis i h = absurd (omega arith)
block_comment-Ends (suc fuel) mis i h = elim (mis_find-cases mis b'*' i) [
  | inr e ↦
      rw (block_comment-unclosed fuel mis e)
        (Advanced-at_offset mis mis.count i.in_text (omega arith))
  | inl (p, e, lo, hi, star) ↦
      let lt : p < mis.count =
        before_end (at_offset mis p) (Inside-at_offset mis p i hi) (λ z. omega (arith, star, z)) in
      elim (ℕ_discrete (mis.bytes (suc p)) b'/') [
        | yes slash ↦
            let lt' : suc p < mis.count =
              before_end (at_offset mis (suc p)) (Inside-at_offset mis (suc p) i lt)
                (λ z. omega (arith, slash, z)) in
            rw (block_comment-closed fuel mis p e slash)
              (Advanced-at_offset mis (suc (suc p)) (omega arith) lt')
        | no other ↦
            rw (block_comment-open fuel mis p e other) (elim (Bool-cases (suc p == mis.count)) [
              | inl eof ↦ rw eof (Advanced-at_offset mis (suc p) (omega arith) lt)
              | inr more ↦ rw more (
                  Ends-later mis (suc p) _ (omega arith) lt (
                    block_comment-Ends fuel (at_offset mis (suc p))
                      (Inside-at_offset mis (suc p) i lt) (omega arith)))
            ])
      ]
]

Inside-Advanced : (a b : Mis) → Inside a → Advanced a b → Inside b
Inside-Advanced a b i adv = record {
  zero_ends = rw (adv.same_bytes, adv.same_count) i.zero_ends;
  in_text = rw (adv.same_count) adv.within;
}

Ends-after : {A : Type 0} (a b : Mis) (o : Outcome A) → Advanced a b → Ends b o → Ends a o
Ends-after a b (ok x m) adv e = record {
  same_bytes = e.same_bytes ∙ adv.same_bytes;
  same_count = e.same_count ∙ adv.same_count;
  same_start = e.same_start ∙ adv.same_start;
  onward = omega (arith, e.onward, adv.onward);
  within = omega (arith, e.within, adv.same_count);
}
Ends-after a b (thrown code at m) adv e = tt
Ends-after a b no_fuel adv e = absurd e

-- The rounds of the comment loop, by what follows the white space.
module _ (fuel : ℕ) (mis m : Mis) (c : ℕ) (e : mis_consume_whitespace mis ≡ ok c m) where
  pub comment_loop-done : c ≢ b'/' → comment_loop (suc fuel) mis ≡ ok c m
  unfolding comment_loop
  comment_loop-done ne =
      let other : (c == b'/') ≡ false = ground (arith, ne) in
      rw (e, comment_loop, ◌>>=◌) (rw other refl)

  abbrev after_block : Mis → Outcome ℕ
  after_block =
      (block_comment (bytes_left (mis_take (mis_take m))) >>= λ (closed : Bool) (m' : Mis).
      let again = comment_loop fuel m' in if closed then again else ok 0 m')

  comment_loop-block :
      c ≡ b'/'
      → m.bytes (suc m.read) ≡ b'*'
      → comment_loop (suc fuel) mis ≡ after_block (mis_take (mis_take m))
  unfolding comment_loop
  comment_loop-block slash star = rw (e, comment_loop, ◌>>=◌) (rw (slash, star) refl)

  abbrev in_line : Mis
  in_line = (mis_find (mis_take m) b'\n').1

  comment_loop-line :
      c ≡ b'/'
      → m.bytes (suc m.read) ≡ b'/'
      → comment_loop (suc fuel) mis
        ≡ (if mis_eof in_line then ok 0 in_line else comment_loop fuel in_line)
  unfolding comment_loop
  comment_loop-line slash slash' = rw (e, comment_loop, ◌>>=◌) (rw (slash, slash') refl)

  comment_loop-other :
      c ≡ b'/'
      → m.bytes (suc m.read) ≢ b'/'
      → m.bytes (suc m.read) ≢ b'*'
      → comment_loop (suc fuel) mis ≡ throw error_unexpected (mis_take m)
  unfolding comment_loop
  comment_loop-other slash ne ne' =
      let other : (m.bytes (suc m.read) == b'/') ≡ false = ground (arith, ne) in
      let other' : (m.bytes (suc m.read) == b'*') ≡ false = ground (arith, ne') in
      rw (e, comment_loop, ◌>>=◌) (rw (slash, other, other') refl)

-- What follows a block comment ends, if it does after a comment that is closed.
after_block-Ends :
    (fuel : ℕ) (a : Mis) (o : Outcome Bool)
    → Ends a o
    → ((m' : Mis) → Advanced a m' → Ends m' (comment_loop fuel m'))
    → Ends a (
        ((λ _. o) >>= λ (closed : Bool) (m' : Mis).
        let again = comment_loop fuel m' in if closed then again else ok 0 m')
          a)
after_block-Ends fuel a (ok true m') e k = Ends-after a m' (comment_loop fuel m') e (k m' e)
after_block-Ends fuel a (ok false m') e k = e
after_block-Ends fuel a (thrown code at m') e k = tt
after_block-Ends fuel a no_fuel e k = absurd e

-- What follows a line comment.
line-Ends :
    (fuel : ℕ) (a : Mis)
    → Inside a
    → ((p : ℕ)
        → a.read ≤ p
        → p ≤ a.count
        → Ends (at_offset a p) (comment_loop fuel (at_offset a p)))
    → Ends a (let f = (mis_find a b'\n').1 in if mis_eof f then ok 0 f else comment_loop fuel f)
line-Ends fuel a i k = elim (mis_find-cases a b'\n' i) [
  | inr e ↦
      let eof : (a.count == a.count) ≡ true = ground arith in
      rw e (rw eof (Advanced-at_offset a a.count i.in_text (omega arith)))
  | inl (p, e, lo, hi, there) ↦ rw e (elim (Bool-cases (p == a.count)) [
    | inl eof ↦ rw eof (Advanced-at_offset a p lo hi)
    | inr more ↦ rw more (Ends-later a p (comment_loop fuel (at_offset a p)) lo hi (k p lo hi))
  ])
]

comment_loop-Ends :
    (fuel : ℕ) (mis : Mis)
    → Inside mis
    → mis.count - mis.read < fuel
    → Ends mis (comment_loop fuel mis)
comment_loop-Ends zero mis i h = absurd (omega arith)
comment_loop-Ends (suc fuel) mis i h =
    let (c, m, e, s) = mis_consume_whitespace-Skipped mis i in
    let im = Inside-Advanced mis m i s.advanced in
    Ends-after mis m _ s.advanced (elim (ℕ_discrete c b'/') [
      | no ne ↦
          rw (comment_loop-done fuel mis m c e ne)
            (Advanced-at_offset m m.read (omega arith) im.in_text)
      | yes slash ↦
          let lt : m.read < m.count = before_end m im (λ z. omega (arith, slash, z, s.byte)) in
          let next = Inside-at_offset m (suc m.read) im lt in
          elim (ℕ_discrete (m.bytes (suc m.read)) b'*') [
            | yes star ↦
                let lt' = before_end (mis_take m) next (λ z. omega (arith, star, z)) in
                let inner = mis_take (mis_take m) in
                let ii = Inside-at_offset m (suc (suc m.read)) im lt' in
                rw (comment_loop-block fuel mis m c e slash star) (
                  Ends-later m (suc (suc m.read)) _ (omega arith) lt' (
                    after_block-Ends fuel inner (block_comment (bytes_left inner) inner)
                      (block_comment-Ends (bytes_left inner) inner ii (omega arith))
                      (λ m' adv. comment_loop-Ends fuel m' (Inside-Advanced inner m' ii adv) (
                        omega (
                          arith, adv.onward, adv.same_count, h, s.advanced.onward,
                          s.advanced.same_count,
                        )))))
            | no star ↦ elim (ℕ_discrete (m.bytes (suc m.read)) b'/') [
              | no other ↦ rw (comment_loop-other fuel mis m c e slash other star) tt
              | yes line ↦ rw (comment_loop-line fuel mis m c e slash line) (
                  Ends-later m (suc m.read) _ (omega arith) lt (
                    line-Ends fuel (mis_take m) next (λ p lo hi.
                      comment_loop-Ends fuel (at_offset m p) (Inside-at_offset m p im hi)
                        (omega (arith, lo, h, s.advanced.onward, s.advanced.same_count)))))
            ]
          ]
    ])

-- Inside a text that a zero byte ends, consume_whitespace returns further on in the text or
-- throws, with or without comments, whatever bytes the text holds: its fuel is enough.
pub consume_whitespace-Ends :
    (allow_comments : Bool) (mis : Mis)
    → Inside mis
    → Ends mis (consume_whitespace allow_comments mis)
unfolding consume_whitespace
consume_whitespace-Ends true mis i = comment_loop-Ends (bytes_left mis) mis i (omega arith)
consume_whitespace-Ends false mis i =
    let (c, m, e, s) = mis_consume_whitespace-Skipped mis i in rw e s.advanced
