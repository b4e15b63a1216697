-- ===== src/Api/Returns.antt =====
-- src/parse.c: jsnpg_parse returns on any bytes.
use jsnpg.Base.{ℕ, ◌-◌, ◌≤◌, true, ◌≡◌, ◌⊎◌, refl, arith, ◌==◌}
use jsnpg.Base.Memory.{Memory}
use jsnpg.Types.{ParseResult, type_eof, type_error}
use jsnpg.Utf8.{utf8_bom_bytes}
use jsnpg.Input.{mis_new, mis_set_bytes}
use jsnpg.Parser.White.Ends.{Inside}
use jsnpg.Generate.{Generator}
use jsnpg.Sax.Bounds.Tracks.{Tracks}
use jsnpg.Api.{parser_set_bytes}

-- A generator without a stack checks nothing.
abbrev Unchecked : {R C : Type 0} → Generator R C → Type 0
Unchecked g = g.stack.size ≡ 0

-- the stream that is made of bytes
pub parser_set_bytes-Inside :
    (m : Memory) (count : ℕ)
    → Inside (parser_set_bytes mis_new m count)
      × ((parser_set_bytes mis_new m count).count ≤ count)
      × ((parser_set_bytes mis_new m count).read ≡ 0)
unfolding parser_set_bytes mis_set_bytes
parser_set_bytes-Inside m count =
    let n = count - utf8_bom_bytes m count in
    let last : (n == n) ≡ true = ground arith in
    (record { zero_ends = rw last refl; in_text = omega arith }, omega arith, refl)

-- The end of the text, at a place inside it, or an error.
abbrev pub Reports : {R : Type 0} → ℕ → ParseResult R → Type 0
Reports count r = ((r.type ≡ type_eof) × (r.position ≤ count)) ⊎ (r.type ≡ type_error)
