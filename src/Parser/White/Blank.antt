-- ===== src/Parser/White/Blank.antt =====
-- src/parser.c: white space in front of a byte that is none, skipped with or without comments.
use jsnpg.Base.{
  ℕ, zero, suc, ◌+◌, ◌-◌, ◌≤◌, ◌<◌, List, [], ◌∷◌, Bool, true, false, ◌≡◌, ◌≢◌, refl, arith, length,
}
use jsnpg.Base.Memory.{Holds}
use jsnpg.Input.{Mis, mis_peek, mis_take}
use jsnpg.Outcome.{ok}
use jsnpg.Json.Grammar.{IsBlank, Blank}
use jsnpg.Parser.Escape.Reads.{forward}
use jsnpg.Parser.White.{
  is_white, bytes_left, white_loop, mis_consume_whitespace, consume_whitespace,
}
use jsnpg.Parser.White.Comments.{comment_loop-done}

-- A byte at which the skipping stops: no white space, and no comment.
abbrev pub Solid : ℕ → Type 0
Solid c = (is_white c ≡ false) × (c ≢ b'/')

is_white-IsBlank : (c : ℕ) → IsBlank c → is_white c ≡ true
is_white-IsBlank c h = ground (arith, h)

white_loop-Blank :
    (fuel : ℕ) (mis : Mis) (ws : List ℕ)
    → Blank ws
    → Holds mis.bytes mis.read ws
    → is_white (mis.bytes (mis.read + length ws)) ≡ false
    → length ws < fuel
    → white_loop fuel mis ≡ ok (mis.bytes (mis.read + length ws)) (forward mis (length ws))
unfolding white_loop
white_loop-Blank zero mis ws b h stop enough = absurd (omega arith)
white_loop-Blank (suc fuel) mis [] b h stop enough =
    let here : mis.read + 0 ≡ mis.read = omega arith in rw here (rw (rw here at stop) refl)
white_loop-Blank (suc fuel) mis (w ∷ ws) b h stop enough =
    let along : mis.read + suc (length ws) ≡ suc mis.read + length ws = omega arith in
    let white : is_white (mis_peek mis) ≡ true = rw (h.0) (is_white-IsBlank w b.0) in
    rw white
      (rw along (white_loop-Blank fuel (mis_take mis) ws b.1 h.1 (rw along at stop) (omega arith)))

pub consume_whitespace-Blank :
    (comments : Bool) (mis : Mis) (ws : List ℕ)
    → Blank ws
    → Holds mis.bytes mis.read ws
    → Solid (mis.bytes (mis.read + length ws))
    → mis.read + length ws ≤ mis.count
    → consume_whitespace comments mis
      ≡ ok (mis.bytes (mis.read + length ws)) (forward mis (length ws))
unfolding consume_whitespace mis_consume_whitespace
consume_whitespace-Blank false mis ws b h solid room =
    white_loop-Blank (bytes_left mis) mis ws b h solid.0 (omega arith)
consume_whitespace-Blank true mis ws b h solid room =
    comment_loop-done (mis.count - mis.read) mis (forward mis (length ws))
      (mis.bytes (mis.read + length ws))
      (white_loop-Blank (bytes_left mis) mis ws b h solid.0 (omega arith)) solid.1
