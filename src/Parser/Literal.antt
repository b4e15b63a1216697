-- ===== src/Parser/Literal.antt =====
-- src/parser.c: the literals true, false and null.
pub mod Matches
use jsnpg.Base.{ℕ, List, [], ◌∷◌, if◌then◌else◌}
use jsnpg.Types.{error_unexpected}
use jsnpg.Input.{Mis, mis_consume, mis_take}
use jsnpg.Outcome.{Outcome, ok, throw}

-- `!mis_consume(..) || ..`: the bytes after the first, until one is not there
unfoldable pub consume_all : List ℕ → Mis → Outcome (Unit {0})
consume_all [] mis = ok tt mis
consume_all (b ∷ bs) mis =
    let (matched, mis') = mis_consume mis b in
    let rest = consume_all bs mis' in if matched then rest else throw error_unexpected mis'

unfoldable pub parse_true : Mis → Outcome (Unit {0})
parse_true mis = consume_all (b'r' ∷ b'u' ∷ b'e' ∷ []) (mis_take mis)

unfoldable pub parse_false : Mis → Outcome (Unit {0})
parse_false mis = consume_all (b'a' ∷ b'l' ∷ b's' ∷ b'e' ∷ []) (mis_take mis)

unfoldable pub parse_null : Mis → Outcome (Unit {0})
parse_null mis = consume_all (b'u' ∷ b'l' ∷ b'l' ∷ []) (mis_take mis)
