-- ===== src/Output/Printer.antt =====
-- src/output.c: the callbacks that print each item of a JSON text, and the results.
pub mod Quoted
pub mod Places
pub mod Separators
pub mod Items
use jsnpg.Base.{
  ℕ, zero, suc, ◌+◌, ◌-◌, List, [], ◌∷◌, Bool, true, false, Option, none, some, if◌then◌else◌,
  length,
}
use jsnpg.Base.Int.{ℤ}
use jsnpg.Base.Memory.{Memory, at_list, poke_all, slice}
use jsnpg.Types.{Event}
use jsnpg.Floats.{FloatLib}
use jsnpg.Output.Buffer.{Mos, Did, did, failed, ◌then_do◌, mos_reserve, mos_adjust}
use jsnpg.Output.Stream.{
  Jos, on_mos, jos_put, jos_puts, jos_prefix, jos_prefix_start, jos_prefix_end, jos_key_suffix,
}
use jsnpg.Output.Scan.{jos_scan_escape}

abbrev pub text_null : List ℕ
text_null = b'n' ∷ b'u' ∷ b'l' ∷ b'l' ∷ []

abbrev pub text_true : List ℕ
text_true = b't' ∷ b'r' ∷ b'u' ∷ b'e' ∷ []

abbrev pub text_false : List ℕ
text_false = b'f' ∷ b'a' ∷ b'l' ∷ b's' ∷ b'e' ∷ []

module _ (grants : ℕ → Bool) where
  -- jos_puti and jos_putr: room for the longest number, the text written, the rest given back
  unfoldable pub jos_put_number : ℕ → Jos → List ℕ → Did Jos
  jos_put_number buf_len jos digits =
      let r = mos_reserve grants jos.mos buf_len in
      let written = record (r.state) { buffer = poke_all r.state.buffer jos.mos.count digits } in
      if r.success
      then did (record jos { mos = mos_adjust written (buf_len - length digits) })
      else on_mos jos r

  unfoldable pub print_null : Jos → Did Jos
  print_null jos = jos_prefix grants jos then_do λ j. jos_puts grants j text_null

  unfoldable pub print_boolean : Jos → Bool → Did Jos
  print_boolean jos is_true = jos_prefix grants jos then_do λ j.
      if is_true then jos_puts grants j text_true else jos_puts grants j text_false

  -- between two quotes
  unfoldable pub put_quoted : Jos → List ℕ → Did Jos
  put_quoted jos bytes = jos_put grants jos b'"' then_do λ j.
      jos_scan_escape grants (at_list bytes) (length bytes) j then_do λ k. jos_put grants k b'"'

  unfoldable pub print_string : Jos → List ℕ → Did Jos
  print_string jos bytes = jos_prefix grants jos then_do λ j. put_quoted j bytes

  unfoldable pub print_key : Jos → List ℕ → Did Jos
  print_key jos bytes =
      jos_prefix grants jos then_do λ j. put_quoted j bytes then_do λ k. jos_key_suffix grants k

  unfoldable pub print_start_object : Jos → Did Jos
  print_start_object jos = jos_prefix_start grants jos then_do λ j. jos_put grants j b'{'

  unfoldable pub print_end_object : Jos → Did Jos
  print_end_object jos = jos_prefix_end grants jos then_do λ j. jos_put grants j b'}'

  unfoldable pub print_start_array : Jos → Did Jos
  print_start_array jos = jos_prefix_start grants jos then_do λ j. jos_put grants j b'['

  unfoldable pub print_end_array : Jos → Did Jos
  print_end_array jos = jos_prefix_end grants jos then_do λ j. jos_put grants j b']'

  -- The zero is counted: the count is one more than before.
  unfoldable pub jsnpg_result_string : Jos → Option (List ℕ) × Jos
  jsnpg_result_string jos =
      let d = jos_put grants jos 0 in
      (if d.success then some (slice d.state.mos.buffer 0 d.state.mos.count) else none, d.state)

  module _ (lib : FloatLib) where
    open lib use {Real, i64toa, dtoa}

    unfoldable pub print_integer : Jos → ℤ → Did Jos
    print_integer jos integer =
        jos_prefix grants jos then_do λ j. jos_put_number 22 j (i64toa integer)

    unfoldable pub print_real : ℕ → Jos → Real → Did Jos
    print_real buf_len jos real =
        jos_prefix grants jos then_do λ j. jos_put_number buf_len j (dtoa real)

    -- `print_callbacks`
    unfoldable pub print_event : ℕ → Event Real → Jos → Did Jos
    print_event real_len Event.null jos = print_null jos
    print_event real_len (Event.boolean is_true) jos = print_boolean jos is_true
    print_event real_len (Event.integer integer) jos = print_integer jos integer
    print_event real_len (Event.real real) jos = print_real real_len jos real
    print_event real_len (Event.string bytes) jos = print_string jos bytes
    print_event real_len (Event.key bytes) jos = print_key jos bytes
    print_event real_len Event.start_array jos = print_start_array jos
    print_event real_len Event.end_array jos = print_end_array jos
    print_event real_len Event.start_object jos = print_start_object jos
    print_event real_len Event.end_object jos = print_end_object jos

-- the bytes and their count
unfoldable pub jsnpg_result_bytes : Jos → List ℕ × ℕ
jsnpg_result_bytes jos = (slice jos.mos.buffer 0 jos.mos.count, jos.mos.count)
