-- ===== src/Input.antt =====
-- src/input.c: the input stream over the bytes of a JSON text, in which strings are unescaped in
-- place. A pointer is its offset from `start`. The buffer holds `count` bytes and a zero after
-- them (src/parser.c, parser_set_bytes).
use jsnpg.Base.{
  ℕ, zero, suc, ◌+◌, ◌-◌, Bool, true, false, not, Option, none, some, ◌==◌, leb, if◌then◌else◌,
}
use jsnpg.Base.Memory.{Memory, memmove}
use jsnpg.Utf8.{utf8_validate_sequence}

-- `struct memory_input_stream`; `start` tells whether that pointer is not NULL
pub record Mis : Type 0 where
  pub start : Bool
  pub bytes : Memory
  pub count : ℕ
  pub string : ℕ
  pub read : ℕ
  pub write : ℕ
  pub mark : ℕ

-- The pointers that are NULL are given the offset 0.
unfoldable pub mis_new : Mis
mis_new = record {
  start = false;
  bytes = λ i. 0;
  count = 0;
  string = 0;
  read = 0;
  write = 0;
  mark = 0;
}

unfoldable pub mis_set_bytes : Mis → Memory → ℕ → Mis
mis_set_bytes mis bytes count = record mis { start = true; bytes = bytes; read = 0; count = count }

abbrev pub mis_tell : Mis → ℕ
mis_tell mis = mis.read

abbrev pub mis_adjust : Mis → ℕ → Mis
mis_adjust mis ptr = record mis { read = ptr }

-- `none` is NULL
unfoldable pub mis_at : Mis → ℕ → Option ℕ
mis_at mis p = if leb mis.count p then none else some p

abbrev pub mis_eof : Mis → Bool
mis_eof mis = mis.read == mis.count

abbrev pub mis_peek : Mis → ℕ
mis_peek mis = mis.bytes mis.read

-- the stream after `mis_take`; the byte that it returns is that of `mis_peek`
abbrev pub mis_take : Mis → Mis
mis_take mis = record mis { read = suc mis.read }

-- strchr of the C library, over the given number of bytes: it ends at the first `c` or zero
unfoldable pub strchr : ℕ → Memory → ℕ → ℕ → Option ℕ
strchr zero m i c = none
strchr (suc n) m i c =
    let rest = strchr n m (i + 1) c in if m i == c then some i else if m i == 0 then none else rest

-- The bytes up to the terminating zero are all that `strchr` can see.
unfoldable pub mis_find : Mis → ℕ → ℕ × Mis
mis_find mis c = elim (strchr (suc mis.count - mis.read) mis.bytes mis.read c) [
  | none ↦ (0, record mis { read = mis.count })
  | some p ↦ (mis.bytes p, record mis { read = p })
]

abbrev pub mis_consume : Mis → ℕ → Bool × Mis
mis_consume mis b = if not (mis_peek mis == b) then (false, mis) else (true, mis_take mis)

unfoldable pub mis_validate_utf8 : Mis → Bool × Mis
mis_validate_utf8 mis = elim (utf8_validate_sequence (λ i. mis.bytes (mis.read + i)) 4) [
  | none ↦ (false, mis)
  | some len ↦ (true, record mis { read = mis.read + len })
]

abbrev pub mis_string_start : Mis → Mis
mis_string_start mis = record mis { string = mis.read; write = mis.read; mark = mis.read }

unfoldable pub mis_string_update : Mis → Mis
mis_string_update mis =
    let amt = mis.read - mis.mark in
    if not (mis.mark == mis.write)
    then (if not (amt == 0)
        then record mis {
          bytes = memmove mis.bytes mis.write mis.mark amt;
          write = mis.write + amt;
        }
        else mis)
    else record mis { write = mis.read }

abbrev pub mis_string_restart : Mis → Mis
mis_string_restart mis = record mis { mark = mis.read }

-- *mis->write++ = *mis->read++
abbrev pub mis_byte_copy : Mis → Mis
mis_byte_copy mis = record mis {
  bytes = λ i. if mis.write == i then mis_peek mis else mis.bytes i;
  write = mis.write + 1;
  read = mis.read + 1;
}

-- the length of the string, which begins at `string`
unfoldable pub mis_string_complete : Mis → ℕ × Mis
mis_string_complete mis =
    let updated = mis_string_update mis in
    if mis.mark == mis.string
    then (mis.read - mis.string, mis_take mis)
    else (updated.write - updated.string, mis_take updated)
