-- ===== src/Parser/Moved.antt =====
-- The input stream further on in its text: what is ahead of it is as it was.
use jsnpg.Base.{ℕ, ◌+◌, ◌≤◌, List, ◌≡◌, refl, ◌∙◌, arith, length}
use jsnpg.Base.Memory.{Holds, Holds-agree}
use jsnpg.Input.{Mis, mis_take}
use jsnpg.Parser.Escape.Reads.{forward}
use jsnpg.Parser.Strings.InPlace.{Spares}

-- The stream `b` is the stream `a` with `n` more bytes read. What has been read may be written over.
pub record Moved (a b : Mis) (n : ℕ) : Type 0 where
  pub read : b.read ≡ a.read + n
  pub ahead : (j : ℕ) → b.read ≤ j → b.bytes j ≡ a.bytes j
  pub count : b.count ≡ a.count
  pub start : b.start ≡ a.start

pub Moved-forward : (a : Mis) (n : ℕ) → Moved a (forward a n) n
Moved-forward a n = record { read = refl; ahead = λ j h. refl; count = refl; start = refl }

pub Moved-none : (a : Mis) → Moved a a 0
Moved-none a = record { read = omega arith; ahead = λ j h. refl; count = refl; start = refl }

pub Moved-then : (a b c : Mis) (m n k : ℕ) → Moved a b m → Moved b c n → m + n ≡ k → Moved a c k
Moved-then a b c m n k p q e = record {
  read = omega (arith, p.read, q.read, e);
  ahead = λ j h. q.ahead j h ∙ p.ahead j (omega (arith, q.read));
  count = q.count ∙ p.count;
  start = q.start ∙ p.start;
}

pub Moved-Spares : (a b : Mis) (n : ℕ) → Spares a b → b.read ≡ a.read + n → Moved a b n
Moved-Spares a b n s e = record { read = e; ahead = s.ahead; count = s.count; start = s.start }

-- What stands ahead still does.
pub Holds-Moved :
    (a b : Mis) (n : ℕ) (xs : List ℕ)
    → Moved a b n
    → Holds a.bytes (a.read + n) xs
    → Holds b.bytes b.read xs
Holds-Moved a b n xs m h =
    Holds-agree a.bytes b.bytes b.read xs (λ j lo hi. m.ahead j lo) (rw (m.read) h)

pub byte-Moved :
    (a b : Mis) (n k : ℕ) → Moved a b n → b.bytes (b.read + k) ≡ a.bytes (a.read + (n + k))
byte-Moved a b n k m =
    let e : b.read + k ≡ a.read + (n + k) = omega (arith, m.read) in
    m.ahead (b.read + k) (omega arith) ∙ rw e

pub Moved-take : (a : Mis) → Moved a (mis_take a) 1
Moved-take a = record { read = omega arith; ahead = λ j h. refl; count = refl; start = refl }

-- the stream behind the blanks `b`, one byte and the blanks `a`
abbrev pub past : Mis → List ℕ → List ℕ → Mis
past mis b a = forward (mis_take (forward mis (length b))) (length a)

pub past-Moved : (mis : Mis) (b a : List ℕ) → Moved mis (past mis b a) (length b + 1 + length a)
past-Moved mis b a =
    Moved-then mis (mis_take (forward mis (length b))) (past mis b a) (length b + 1) (length a) _
      (Moved-then mis (forward mis (length b)) (mis_take (forward mis (length b))) (length b) 1 _
        (Moved-forward mis (length b)) (Moved-take (forward mis (length b))) refl)
      (Moved-forward (mis_take (forward mis (length b))) (length a)) refl
