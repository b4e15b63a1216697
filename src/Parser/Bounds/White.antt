-- ===== src/Parser/Bounds/White.antt =====
-- src/parser.c: what consume_whitespace returns is the byte ahead, or zero.
use jsnpg.Base.{
  ℕ, zero, suc, Bool, true, false, ◌≡◌, refl, inl, inr, ◌==◌, if◌then◌else◌, not, arith,
}
use jsnpg.Input.{Mis, mis_peek, mis_take, mis_find, mis_eof}
use jsnpg.Outcome.{Outcome, ok, thrown, no_fuel, ◌>>=◌}
use jsnpg.Parser.White.{
  bytes_left, white_loop, mis_consume_whitespace, block_comment, comment_loop, consume_whitespace,
  is_white,
}
use jsnpg.Parser.White.Ends.{Inside, Ends}
use jsnpg.Parser.White.Comments.{consume_whitespace-Ends}
use jsnpg.Parser.Bounds.{Onward-Advanced, Stays, Seen}

abbrev Shows : Outcome ℕ → Type 0
Shows (ok c m) = Seen c m
Shows (thrown code at m) = Unit
Shows no_fuel = Unit

Shows-if : (b : Bool) (x y : Outcome ℕ) → Shows x → Shows y → Shows (if b then x else y)
Shows-if true x y p q = p
Shows-if false x y p q = q

Shows-bind :
    {A : Type 0} (o : Outcome A) (f : A → Mis → Outcome ℕ) (m : Mis)
    → ((x : A) (b : Mis) → o ≡ ok x b → Shows (f x b))
    → Shows (((λ _. o) >>= f) m)
Shows-bind (ok x b) f m k = k x b refl
Shows-bind (thrown code at b) f m k = tt
Shows-bind no_fuel f m k = tt

white_loop-Shows : (fuel : ℕ) (mis : Mis) → Shows (white_loop fuel mis)
unfolding white_loop
white_loop-Shows zero mis = tt
white_loop-Shows (suc fuel) mis =
    Shows-if (is_white (mis_peek mis)) (white_loop fuel (mis_take mis)) (ok (mis_peek mis) mis)
      (white_loop-Shows fuel (mis_take mis)) (inr refl)

comment_loop-Shows : (fuel : ℕ) (mis : Mis) → Shows (comment_loop fuel mis)
unfolding comment_loop mis_consume_whitespace
comment_loop-Shows zero mis = tt
comment_loop-Shows (suc fuel) mis = Shows-bind (white_loop (bytes_left mis) mis) _ mis (λ c m e.
    let slash = mis_take m in
    let in_block = mis_take slash in
    let in_line = (mis_find slash b'\n').1 in
    Shows-if (not (c == b'/')) _ _ (rw e at (white_loop-Shows (bytes_left mis) mis)) (
      Shows-if (mis_peek slash == b'*') _ _
        (Shows-bind (block_comment (bytes_left in_block) in_block) _ in_block (λ closed m' e'.
          Shows-if closed (comment_loop fuel m') (ok 0 m') (comment_loop-Shows fuel m') (inl refl)))
        (Shows-if (mis_peek slash == b'/') _ _
          (Shows-if (mis_eof in_line) (ok 0 in_line) (comment_loop fuel in_line) (inl refl)
            (comment_loop-Shows fuel in_line))
          tt)))

consume_whitespace-Shows : (comments : Bool) (mis : Mis) → Shows (consume_whitespace comments mis)
unfolding consume_whitespace mis_consume_whitespace
consume_whitespace-Shows true mis = comment_loop-Shows (bytes_left mis) mis
consume_whitespace-Shows false mis = white_loop-Shows (bytes_left mis) mis

both : (mis : Mis) (o : Outcome ℕ) → Ends mis o → Shows o → Stays 0 Seen mis o
both mis (ok c m) e s = (Onward-Advanced 0 mis m e (omega (arith, e.onward)), s)
both mis (thrown code at m) e s = tt
both mis no_fuel e s = absurd e

pub consume_whitespace-Stays :
    (comments : Bool) (mis : Mis) → Inside mis → Stays 0 Seen mis (consume_whitespace comments mis)
consume_whitespace-Stays comments mis i =
    both mis (consume_whitespace comments mis) (consume_whitespace-Ends comments mis i)
      (consume_whitespace-Shows comments mis)
