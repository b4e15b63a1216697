-- ===== src/Parser/White.antt =====
-- src/parser.c: white space and comments. Each round of a loop reads a byte, so the bytes left and
-- one more are fuel enough.
pub mod Ends
pub mod Comments
pub mod Blank
use jsnpg.Base.{ℕ, zero, suc, ◌-◌, Bool, true, false, not, ◌||◌, ◌==◌, if◌then◌else◌}
use jsnpg.Types.{error_unexpected}
use jsnpg.Input.{Mis, mis_peek, mis_take, mis_find, mis_eof, mis_consume}
use jsnpg.Outcome.{Outcome, ok, no_fuel, throw, ◌>>=◌}

abbrev pub is_white : ℕ → Bool
is_white c = c == b' ' || c == b'\n' || c == b'\r' || c == b'\t'

-- the rounds that suffice for a loop that starts here
abbrev pub bytes_left : Mis → ℕ
bytes_left mis = suc (mis.count - mis.read)

unfoldable pub white_loop : ℕ → Mis → Outcome ℕ
white_loop zero mis = no_fuel
white_loop (suc fuel) mis =
    let rest = white_loop fuel (mis_take mis) in
    if is_white (mis_peek mis) then rest else ok (mis_peek mis) mis

unfoldable pub mis_consume_whitespace : Mis → Outcome ℕ
mis_consume_whitespace mis = white_loop (bytes_left mis) mis

-- The loop inside `/* */`: true at its `break`, false where the parser returns '\0'.
unfoldable pub block_comment : ℕ → Mis → Outcome Bool
block_comment zero mis = no_fuel
block_comment (suc fuel) mis =
    let (c, found) = mis_find mis b'*' in
    let (closed, after) = mis_consume (mis_take found) b'/' in
    let rest = block_comment fuel after in
    let rest' = block_comment fuel found in
    if c == b'*'
    then (if closed then ok true after else if mis_eof after then ok false after else rest)
    else if mis_eof found
    then ok false found
    else rest'

-- The outer loop, entered at each round with white space to skip.
unfoldable pub comment_loop : ℕ → Mis → Outcome ℕ
comment_loop zero mis = no_fuel
comment_loop (suc fuel) mis =
    (mis_consume_whitespace >>= λ (c : ℕ) (m : Mis).
    let slash = mis_take m in
    let in_block = mis_take slash in
    let in_line = (mis_find slash b'\n').1 in
    let after_line = comment_loop fuel in_line in
    let after_block =
      (block_comment (bytes_left in_block) >>= λ (closed : Bool) (m' : Mis).
      let again = comment_loop fuel m' in if closed then again else ok 0 m') in
    if not (c == b'/')
    then ok c m
    else if mis_peek slash == b'*'
    then after_block in_block
    else if mis_peek slash == b'/'
    then (if mis_eof in_line then ok 0 in_line else after_line)
    else throw error_unexpected slash)
      mis

unfoldable pub consume_whitespace : Bool → Mis → Outcome ℕ
consume_whitespace allow_comments mis =
    if not allow_comments then mis_consume_whitespace mis else comment_loop (bytes_left mis) mis
