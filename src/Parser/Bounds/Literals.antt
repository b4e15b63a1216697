-- ===== src/Parser/Bounds/Literals.antt =====
-- src/parser.c: literals stay inside the text.
use jsnpg.Base.{ℕ, suc, ◌<◌, List, [], ◌∷◌, true, false, ◌≡◌, ◌≢◌, arith, ◌==◌}
use native.Mathlib.Decide.{ℕ_discrete}
use jsnpg.Input.{Mis, mis_peek, mis_take}
use jsnpg.Parser.White.Ends.{Inside, before_end}
use jsnpg.Parser.Literal.{consume_all, parse_true, parse_false, parse_null}
use jsnpg.Parser.Bounds.{Onward, Onward-then, Onward-forward, Inside-Onward, Stays, Any}

-- Taking a byte that is not zero.
pub take-Onward : (mis : Mis) → Inside mis → mis_peek mis ≢ 0 → Onward 1 mis (mis_take mis)
take-Onward mis i ne = Onward-forward mis (suc mis.read) 1 (omega arith) (before_end mis i ne)

abbrev NonZero : List ℕ → Type 0
NonZero [] = Unit
NonZero (b ∷ bs) = (0 < b) × NonZero bs

consume_all-Stays :
    (bs : List ℕ) (mis : Mis) (low : ℕ) (a : Mis)
    → NonZero bs
    → Inside mis
    → Onward low a mis
    → Stays low Any a (consume_all bs mis)
unfolding consume_all
consume_all-Stays [] mis low a nz i o = (o, tt)
consume_all-Stays (b ∷ bs) mis low a nz i o = elim (ℕ_discrete (mis_peek mis) b) [
  | yes same ↦
      let e : (mis_peek mis == b) ≡ true = ground (arith, same) in
      let ne : mis_peek mis ≢ 0 = λ z. omega (arith, same, z, nz) in
      let next = take-Onward mis i ne in
      rw e (
        consume_all-Stays bs (mis_take mis) low a nz.1 (Inside-Onward 1 mis _ i next)
          (Onward-then low 1 low a mis _ o next (omega arith)))
  | no other ↦ let e : (mis_peek mis == b) ≡ false = ground (arith, other) in rw e tt
]

module _ (mis : Mis) (i : Inside mis) (ne : mis_peek mis ≢ 0) where
  abbrev taken : Onward 1 mis (mis_take mis)
  taken = take-Onward mis i ne

  pub parse_true-Stays : Stays 1 Any mis (parse_true mis)
  unfolding parse_true
  parse_true-Stays =
      consume_all-Stays (b'r' ∷ b'u' ∷ b'e' ∷ []) (mis_take mis) 1 mis (ground arith)
        (Inside-Onward 1 mis _ i taken) taken

  pub parse_false-Stays : Stays 1 Any mis (parse_false mis)
  unfolding parse_false
  parse_false-Stays =
      consume_all-Stays (b'a' ∷ b'l' ∷ b's' ∷ b'e' ∷ []) (mis_take mis) 1 mis (ground arith)
        (Inside-Onward 1 mis _ i taken) taken

  pub parse_null-Stays : Stays 1 Any mis (parse_null mis)
  unfolding parse_null
  parse_null-Stays =
      consume_all-Stays (b'u' ∷ b'l' ∷ b'l' ∷ []) (mis_take mis) 1 mis (ground arith)
        (Inside-Onward 1 mis _ i taken) taken
