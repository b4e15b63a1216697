-- ===== src/Output/Stream.antt =====
-- src/output.c: json_output_stream, and the characters that separate the items it prints.
use jsnpg.Base.{ℕ, ◌+◌, ◌-◌, ◌*◌, List, Bool, true, false, ◌==◌, ltb, if◌then◌else◌}
use jsnpg.Types.{ErrorCode}
use jsnpg.Output.Buffer.{Mos, Did, did, ◌then_do◌, mos_new, mos_put, mos_puts, mos_putn}

-- `struct json_output_stream`, with the two fields of its generator that the printer uses
pub record Jos : Type 0 where
  pub mos : Mos
  pub validate_utf8 : Bool
  pub error : ErrorCode
  pub indent : ℕ
  pub level : ℕ
  pub nl : Bool
  pub comma : Bool
  pub key : Bool

unfoldable pub jos_new : ℕ → Bool → Jos
jos_new indent validate_utf8 = record {
  mos = mos_new 0;
  validate_utf8 = validate_utf8;
  error = ErrorCode.error_none;
  indent = indent;
  level = 0;
  nl = false;
  comma = false;
  key = false;
}

-- a call on the stream's buffer
abbrev pub on_mos : Jos → Did Mos → Did Jos
on_mos jos d = record { success = d.success; state = record jos { mos = d.state } }

module _ (grants : ℕ → Bool) where
  abbrev pub jos_put : Jos → ℕ → Did Jos
  jos_put jos chr = on_mos jos (mos_put grants jos.mos chr)

  abbrev pub jos_puts : Jos → List ℕ → Did Jos
  jos_puts jos string = on_mos jos (mos_puts grants jos.mos string)

  unfoldable pub jos_indent : Jos → Did Jos
  jos_indent jos =
      let line = if jos.nl then jos_put jos b'\n' else did (record jos { nl = true }) in
      line then_do λ j. on_mos j (mos_putn grants j.mos b' ' (j.indent * j.level))

  unfoldable pub jos_prefix : Jos → Did Jos
  jos_prefix jos =
      let separated = if jos.comma then jos_put jos b',' else did jos in
      let indented = separated then_do λ j. if j.indent == 0 then did j else jos_indent j in
      let before = if jos.key then did jos else indented in
      before then_do λ j. did (record j { comma = true; key = false })

  unfoldable pub jos_prefix_start : Jos → Did Jos
  jos_prefix_start jos =
      jos_prefix jos then_do λ j. did (record j { comma = false; level = j.level + 1 })

  -- `level` is unsigned: an end with no start would wrap it, which the generator's checks exclude.
  unfoldable pub jos_prefix_end : Jos → Did Jos
  jos_prefix_end jos =
      let outer = record jos { level = jos.level - 1 } in
      let before = if jos.comma then jos_prefix (record outer { comma = false }) else did outer in
      before then_do λ j. did (record j { comma = ltb 0 j.level })

  unfoldable pub jos_key_suffix : Jos → Did Jos
  jos_key_suffix jos = jos_put jos b':' then_do λ j.
      (if j.indent == 0 then did j else jos_put j b' ') then_do λ k. did (record k { key = true })
