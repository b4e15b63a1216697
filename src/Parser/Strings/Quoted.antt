-- ===== src/Parser/Strings/Quoted.antt =====
-- src/parser.c: a string with its quotes, read from the stream.
use jsnpg.Base.{ℕ, ◌+◌, ◌≤◌, List, [], ◌∷◌, Bool, ◌≡◌, refl, arith, length, length-append}
use jsnpg.Base.Memory.{Holds, slice, slice-Holds}
use jsnpg.Input.{Mis, mis_take, mis_string_start}
use jsnpg.Outcome
use jsnpg.Json.Grammar.{in_quotes}
use jsnpg.Parser.Grammar.{Denotes}
use jsnpg.Parser.Strings.{parse_string}
use jsnpg.Parser.Strings.Decode.{parse_string-Denotes}
use jsnpg.Parser.Moved.{Moved, Moved-then, Moved-Spares}

-- A string stands behind the stream: what parse_string leaves.
pub string-Moved :
    (v : Bool) (mis : Mis) (body text : List ℕ)
    → Denotes v body text
    → Holds mis.bytes mis.read (in_quotes body)
    → mis.read + length (in_quotes body) ≤ mis.count
    → (count : ℕ) × (m : Mis) × (parse_string v mis ≡ Outcome.ok count m)
      × Moved mis m (length (in_quotes body))
      × (slice m.bytes m.string count ≡ text)
string-Moved v mis body text d h room =
    let size = length-append body (b'"' ∷ []) in
    let (count, m, e, c) = parse_string-Denotes v mis d h.1 (omega (arith, size)) in
    (
      count,
      m,
      e,
      Moved-then mis (mis_string_start (mis_take mis)) m 1 (length body + 1) _
          (record { read = omega arith; ahead = λ j lt. refl; count = refl; start = refl })
          (Moved-Spares _ m (length body + 1) c.spares (omega (arith, c.read)))
          (omega (arith, size)),
      slice-Holds m.bytes text m.string count c.length_is c.holds,
    )
