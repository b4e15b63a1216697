-- ===== src/Output/Scan.antt =====
-- src/output.c, jos_scan_escape: a string is copied to the output with what JSON does not allow
-- in it escaped, and with its UTF-8 checked. The string is memory behind a pointer, and a count.
pub mod Reference
pub mod Escapes
pub mod Prints
use jsnpg.Base.{
  ℕ, zero, suc, ◌+◌, ◌-◌, ◌/◌, ◌%◌, List, [], ◌∷◌, Bool, true, false, ◌&&◌, ◌||◌, Option, none,
  some, ◌==◌, leb, ltb, if◌then◌else◌,
}
use jsnpg.Base.Memory.{Memory, slice}
use jsnpg.Types.{error_utf8}
use jsnpg.Utf8.{utf8_validate_sequence}
use jsnpg.Output.Buffer.{Did, did, failed}
use jsnpg.Output.Stream.{Jos, jos_puts}

unfoldable pub is_special : Bool → ℕ → Bool
is_special validate_utf8 chr =
    chr == b'"' || (chr == b'\\' || (ltb chr 0x20 || (validate_utf8 && leb 0x80 chr)))

-- the rounds left, which are `count - i`
unfoldable pub find_special : Bool → Memory → ℕ → ℕ → ℕ
find_special validate_utf8 string zero i = i
find_special validate_utf8 string (suc rounds) i =
    let rest = find_special validate_utf8 string rounds (suc i) in
    if is_special validate_utf8 (string i) then i else rest

abbrev pub find_next_special : Memory → ℕ → ℕ → Bool → ℕ
find_next_special string count start validate_utf8 =
    find_special validate_utf8 string (count - start) start

-- the table `c_escapes`; 0 is an entry that is not given
unfoldable pub c_escapes : ℕ → ℕ
c_escapes chr =
    if chr == 0x08
    then b'b'
    else if chr == 0x09
    then b't'
    else if chr == 0x0A
    then b'n'
    else if chr == 0x0C
    then b'f'
    else if chr == 0x0D
    then b'r'
    else if chr == b'"'
    then b'"'
    else if chr == b'\\'
    then b'\\'
    else 0

-- a digit of the table `s_escapes`, which spells each byte below 0x20
unfoldable pub hex_digit : ℕ → ℕ
hex_digit d = if ltb d 10 then b'0' + d else b'A' + (d - 10)

-- the bytes written for a special character
unfoldable pub escape_bytes : ℕ → List ℕ
escape_bytes chr =
    let e = c_escapes chr in
    if e == 0
    then b'\\' ∷ b'u' ∷ b'0' ∷ b'0' ∷ hex_digit (chr / 16) ∷ hex_digit (chr % 16) ∷ []
    else b'\\' ∷ e ∷ []

module _ (grants : ℕ → Bool) (string : Memory) (count : ℕ) where
  -- at a special character: what is put, and the next `pmos1`
  unfoldable pub put_special : Jos → ℕ → Did Jos × ℕ
  put_special jos pmos2 =
      let chr = string pmos2 in
      if jos.validate_utf8 && leb 0x80 chr
      then elim (utf8_validate_sequence (λ i. string (pmos2 + i)) (count - pmos2)) [
        | none ↦ (failed (record jos { error = error_utf8 }), pmos2)
        | some len ↦ (jos_puts grants jos (slice string pmos2 len), pmos2 + len)
      ]
      else (jos_puts grants jos (escape_bytes chr), suc pmos2)

  -- The loop, from `pmos1`. It ends by its test: the fuel is one more than the bytes left.
  unfoldable pub scan_loop : ℕ → ℕ → Jos → Did Jos
  scan_loop zero pmos1 jos = failed jos
  scan_loop (suc fuel) pmos1 jos =
      let pmos2 = find_next_special string count pmos1 jos.validate_utf8 in
      let copied = jos_puts grants jos (slice string pmos1 (pmos2 - pmos1)) in
      let special = put_special copied.state pmos2 in
      let rest = scan_loop fuel special.1 special.0.state in
      if ltb pmos2 count
      then (if copied.success then (if special.0.success then rest else special.0) else copied)
      else copied

  unfoldable pub jos_scan_escape : Jos → Did Jos
  jos_scan_escape jos = scan_loop (suc count) 0 jos
