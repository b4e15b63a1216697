-- ===== src/Parser/Bounds.antt =====
-- src/parser.c: its functions stay inside the text, whatever bytes that holds, and return or throw.
pub mod White
pub mod Literals
pub mod Digits
pub mod Numbers
pub mod Escapes
pub mod Strings
use jsnpg.Base.{ℕ, ◌+◌, ◌≤◌, ◌≡◌, ◌⊎◌, refl, ◌∙◌, arith}
use jsnpg.Input.{Mis, mis_peek}
use jsnpg.Outcome.{Outcome, ok, thrown, no_fuel, ◌>>=◌}
use jsnpg.Parser.White.Ends.{Inside, Advanced}

-- The stream `b` is the stream `a` at least `low` bytes on, inside the text. What has been read may
-- be written over.
pub record Onward (low : ℕ) (a b : Mis) : Type 0 where
  pub forth : a.read + low ≤ b.read
  pub within : b.read ≤ a.count
  pub ahead : (j : ℕ) → b.read ≤ j → b.bytes j ≡ a.bytes j
  pub count : b.count ≡ a.count
  pub start : b.start ≡ a.start

pub Onward-none : (a : Mis) → Inside a → Onward 0 a a
Onward-none a i = record {
  forth = omega arith;
  within = i.in_text;
  ahead = λ j h. refl;
  count = refl;
  start = refl;
}

pub Onward-then :
    (low low' n : ℕ) (a b c : Mis)
    → Onward low a b
    → Onward low' b c
    → n ≤ low + low'
    → Onward n a c
Onward-then low low' n a b c p q le = record {
  forth = omega (arith, p.forth, q.forth, le);
  within = omega (arith, q.within, p.count);
  ahead = λ j h. q.ahead j h ∙ p.ahead j (omega (arith, q.forth));
  count = q.count ∙ p.count;
  start = q.start ∙ p.start;
}

pub Inside-Onward : (low : ℕ) (a b : Mis) → Inside a → Onward low a b → Inside b
Inside-Onward low a b i o = record {
  zero_ends = rw (o.count) (o.ahead a.count o.within ∙ i.zero_ends);
  in_text = omega (arith, o.within, o.count);
}

pub Onward-Advanced : (low : ℕ) (a b : Mis) → Advanced a b → a.read + low ≤ b.read → Onward low a b
Onward-Advanced low a b adv forth = record {
  forth = forth;
  within = adv.within;
  ahead = λ j h. rw (adv.same_bytes) refl;
  count = adv.same_count;
  start = adv.same_start;
}

-- The function returns at least `low` bytes further on, with a result of which `Q` holds, or throws:
-- it has not run out of fuel.
abbrev pub Stays : {A : Type 0} → ℕ → (A → Mis → Type 0) → Mis → Outcome A → Type 0
Stays low Q a (ok x b) = Onward low a b × Q x b
Stays low Q a (thrown code at b) = Unit
Stays low Q a no_fuel = ⊥

abbrev pub Any : {A : Type 0} → A → Mis → Type 0
Any x b = Unit

-- A byte that has been seen: it is that ahead, or zero.
abbrev pub Seen : ℕ → Mis → Type 0
Seen c mis = (c ≡ 0) ⊎ (c ≡ mis_peek mis)

-- What a function does further on, it does from where it is called.
pub later :
    {B : Type 0} (R : B → Mis → Type 0) (low low' n : ℕ) (a b : Mis) (o : Outcome B)
    → Onward low a b
    → n ≤ low + low'
    → Stays low' R b o
    → Stays n R a o
later R low low' n a b (ok x c) p le (q, r) = (Onward-then low low' n a b c p q le, r)
later R low low' n a b (thrown code at c) p le s = tt
later R low low' n a b no_fuel p le s = absurd s

-- A function behind another, measured from a stream `a`.
pub Stays-from :
    {A B : Type 0} (Q : A → Mis → Type 0) (R : B → Mis → Type 0) (low n : ℕ) (p : Mis → Outcome A)
    (f : A → Mis → Outcome B) (a b : Mis)
    → Stays low Q b (p b)
    → ((x : A) (c : Mis) → Onward low b c → Q x c → Stays n R a (f x c))
    → Stays n R a ((p >>= f) b)
Stays-from {A} Q R low n p f a b s k = by_cases (p b) s
  where
    by_cases : (o : Outcome A) → Stays low Q b o → Stays n R a (((λ _. o) >>= f) b)
    by_cases (ok x c) (o, q) = k x c o q
    by_cases (thrown code at c) s' = tt
    by_cases no_fuel s' = absurd s'

-- A function behind another.
pub Stays-bind :
    {A B : Type 0} (Q : A → Mis → Type 0) (R : B → Mis → Type 0) (low low' n : ℕ)
    (p : Mis → Outcome A) (f : A → Mis → Outcome B) (a : Mis)
    → Stays low Q a (p a)
    → n ≤ low + low'
    → ((x : A) (b : Mis) → Onward low a b → Q x b → Stays low' R b (f x b))
    → Stays n R a ((p >>= f) a)
Stays-bind Q R low low' n p f a s le k =
    Stays-from Q R low n p f a a s (λ x b o q. later R low low' n a b (f x b) o le (k x b o q))

-- The stream some bytes on, inside the text.
pub Onward-forward :
    (a : Mis) (n low : ℕ) → a.read + low ≤ n → n ≤ a.count → Onward low a (record a { read = n })
Onward-forward a n low h within = record {
  forth = h;
  within = within;
  ahead = λ j k. refl;
  count = refl;
  start = refl;
}
