-- ===== src/Api/Sessions.antt =====
-- src/parsenext.c: a caller that calls jsnpg_parse_next to the end comes to it, on any bytes.
use jsnpg.Base.{ℕ, suc, some, ◌≡◌, ◌⊎◌}
use jsnpg.Base.Memory.{Memory}
use jsnpg.Types.{JsonType, type_eof, type_error}
use jsnpg.Floats.{FloatLib}
use jsnpg.Sax.{Options}
use jsnpg.Pull.{PullParser, jsnpg_parse_next}

-- Within `n` calls of jsnpg_parse_next the caller is told that the text is at its end or in error.
pub data Session (lib : FloatLib) (opts : Options) : ℕ → PullParser (lib.Real) → Type 0 where
  over :
      {n : ℕ} {p q : PullParser (lib.Real)} {t : JsonType}
      → jsnpg_parse_next lib opts p ≡ some (t, q)
      → (t ≡ type_eof) ⊎ (t ≡ type_error)
      → Session lib opts (suc n) p
  goes_on :
      {n : ℕ} {p q : PullParser (lib.Real)} {t : JsonType}
      → jsnpg_parse_next lib opts p ≡ some (t, q)
      → Session lib opts n q
      → Session lib opts (suc n) p
