-- ===== src/Types.antt =====
-- The enumerations of src/include/jsnpg.h and src/types.h, and what a parse reports.
use jsnpg.Base.{ℕ, List, Bool}
use jsnpg.Base.Int.{ℤ}

-- jsnpg_error_code
pub data ErrorCode : Type 0 where
  error_none error_opt error_alloc error_number error_utf8 error_surrogate : ErrorCode
  error_stack_underflow error_stack_overflow error_expected_value error_expected_key : ErrorCode
  error_no_object error_no_array error_escape error_unexpected error_invalid : ErrorCode
  error_terminated error_eof : ErrorCode

-- jsnpg_type
pub data JsonType : Type 0 where
  type_none type_pull type_null type_false type_true type_integer type_real : JsonType
  type_string type_key type_start_array type_end_array type_start_object : JsonType
  type_end_object type_error type_eof : JsonType

-- What the union of `jsnpg_result` holds. `R` is the type of doubles; a string is given by the
-- offset of its first byte in the parser's buffer and its count.
pub data Payload (R : Type 0) : Type 0 where
  no_payload : Payload R
  integer : ℤ → Payload R
  real : R → Payload R
  text : ℕ → ℕ → Payload R
  bytes : List ℕ → Payload R
  error : ErrorCode → Payload R

-- jsnpg_result
pub record ParseResult (R : Type 0) : Type 0 where
  pub type : JsonType
  pub position : ℕ
  pub payload : Payload R

-- The events that pass between a parser, a generator and the DOM: one for each callback of
-- `jsnpg_callbacks`.
pub data Event (R : Type 0) : Type 0 where
  null : Event R
  boolean : Bool → Event R
  integer : ℤ → Event R
  real : R → Event R
  string : List ℕ → Event R
  key : List ℕ → Event R
  start_array end_array start_object end_object : Event R
