-- ===== src/Parser/Literal/Matches.antt =====
-- src/parser.c: the literals, where they stand in the text.
use jsnpg.Base.{ℕ, suc, ◌+◌, List, [], ◌∷◌, true, ◌≡◌, ◌∙◌, arith, length, ◌==◌}
use jsnpg.Base.Memory.{Holds}
use jsnpg.Input.{Mis, mis_peek, mis_take}
use jsnpg.Outcome.{ok}
use jsnpg.Parser.Escape.Reads.{forward}
use jsnpg.Parser.Literal.{consume_all, parse_true, parse_false, parse_null}

consume_all-Holds :
    (bs : List ℕ) (mis : Mis)
    → Holds mis.bytes mis.read bs
    → consume_all bs mis ≡ ok tt (forward mis (length bs))
unfolding consume_all
consume_all-Holds [] mis h = let e : mis.read + 0 ≡ mis.read = omega arith in rw e
consume_all-Holds (b ∷ bs) mis h =
    let along : mis.read + suc (length bs) ≡ suc mis.read + length bs = omega arith in
    let same : (mis_peek mis == b) ≡ true = ground (arith, h.0) in
    rw same (rw along (consume_all-Holds bs (mis_take mis) h.1))

-- The first byte has been seen, and is passed over.
module _ (mis : Mis) (b : ℕ) where
  pub parse_true-Holds :
      Holds mis.bytes mis.read (b ∷ b'r' ∷ b'u' ∷ b'e' ∷ [])
      → parse_true mis ≡ ok tt (forward mis 4)
  unfolding parse_true
  parse_true-Holds h =
      let e : suc mis.read + 3 ≡ mis.read + 4 = omega arith in
      consume_all-Holds (b'r' ∷ b'u' ∷ b'e' ∷ []) (mis_take mis) h.1 ∙ rw e

  pub parse_false-Holds :
      Holds mis.bytes mis.read (b ∷ b'a' ∷ b'l' ∷ b's' ∷ b'e' ∷ [])
      → parse_false mis ≡ ok tt (forward mis 5)
  unfolding parse_false
  parse_false-Holds h =
      let e : suc mis.read + 4 ≡ mis.read + 5 = omega arith in
      consume_all-Holds (b'a' ∷ b'l' ∷ b's' ∷ b'e' ∷ []) (mis_take mis) h.1 ∙ rw e

  pub parse_null-Holds :
      Holds mis.bytes mis.read (b ∷ b'u' ∷ b'l' ∷ b'l' ∷ [])
      → parse_null mis ≡ ok tt (forward mis 4)
  unfolding parse_null
  parse_null-Holds h =
      let e : suc mis.read + 3 ≡ mis.read + 4 = omega arith in
      consume_all-Holds (b'u' ∷ b'l' ∷ b'l' ∷ []) (mis_take mis) h.1 ∙ rw e
