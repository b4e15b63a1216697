-- ===== src/Errors.antt =====
-- src/error.c: the texts of the errors, and the results that report them.
use Prim.Native.String.{String}
use jsnpg.Base.{ℕ, Option, none, some}
use jsnpg.Types.{
  ErrorCode, error_none, error_opt, error_alloc, error_number, error_utf8, error_surrogate,
  error_stack_underflow, error_stack_overflow, error_expected_value, error_expected_key,
  error_no_object, error_no_array, error_escape, error_unexpected, error_invalid, error_terminated,
  error_eof, type_error, Payload, ParseResult,
}

-- `error_msgs`; the entry of JSNPG_ERROR_NONE is NULL
unfoldable pub error_text : ErrorCode → Option String
error_text error_none = none
error_text error_opt = some "Invalid option"
error_text error_alloc = some "Out of memory"
error_text error_number = some "Invalid number"
error_text error_utf8 = some "Invalid UTF-8"
error_text error_surrogate = some "Invalid surrogate"
error_text error_stack_overflow = some "Stack overflow"
error_text error_stack_underflow = some "Stack underflow"
error_text error_expected_value = some "Value expected"
error_text error_expected_key = some "Key expected"
error_text error_no_object = some "Not in object"
error_text error_no_array = some "Not in array"
error_text error_escape = some "Invalid escape"
error_text error_unexpected = some "Unexpected input"
error_text error_invalid = some "Invalid input"
error_text error_terminated = some "Generator terminated"
error_text error_eof = some "Unexpected end of input"

module _ {R : Type 0} where
  unfoldable pub make_error_return : ErrorCode → ℕ → ParseResult R
  make_error_return code at = record {
    type = type_error;
    position = at;
    payload = Payload.error code;
  }

  -- `if(g->error.code)`: a generator that has set an error of its own
  abbrev pub reported : ErrorCode → ParseResult R → ParseResult R
  reported error_none r = r
  reported code r = record r { payload = Payload.error code }

  -- the error that the parser has thrown, or the generator's where that has ended the parse
  unfoldable pub generator_error : ErrorCode → Payload R → ParseResult R → ParseResult R
  generator_error g_error (Payload.error error_terminated) r = reported g_error r
  generator_error g_error _ r = r

  unfoldable pub make_pg_error_return : ParseResult R → ErrorCode → ParseResult R
  make_pg_error_return p_result g_error = elim (p_result.type) [
    | type_error ↦ generator_error g_error p_result.payload p_result
    | _ ↦ make_error_return error_unexpected 0
  ]
