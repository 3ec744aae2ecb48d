-- ===== src/Core/Errors.antt =====
-- infly/core/errors.py, and the built-in exceptions that the code raises.
use Prim.Native.String.{◌++◌}
use infly.Prelude.{String}
use infly.Prelude.Exec.{Result, Exec}

-- `MODEL_NOT_FOUND` is an alias of `HANDLER_NOT_FOUND`.
pub data ErrorCode : Type 0 where
  success not_found handler_not_found overloaded timeout worker_unavailable : ErrorCode
  invalid_argument invalid_configuration invalid_state invalid_request internal_error : ErrorCode

pub ErrorCode-discrete : Discrete ErrorCode
ErrorCode-discrete = hlevel

-- What an exception has as its attribute `code`: an `ErrorCode`, a text, or another object.
pub data Code : Type 0 where
  error_code : ErrorCode → Code
  text_code : String → Code
  foreign_code : Code

-- `other` is any exception of a class that the code does not name, by its text, and `coded` one of
-- these that has an attribute `code`.
pub data Exception : Type 0 where
  platform_error : (code : ErrorCode) (message : String) → Exception
  value_error type_error key_error other : (message : String) → Exception
  coded : (code : Code) (message : String) → Exception

-- `str(exc)`; that of a `KeyError` is the key in quotes.
unfoldable pub message_of : Exception → String
message_of (platform_error code message) = message
message_of (value_error message) = message
message_of (type_error message) = message
message_of (key_error key) = "'" ++ key ++ "'"
message_of (other message) = message
message_of (coded code message) = message

abbrev pub Outcome : Type 0 → Type 0
Outcome A = Result Exception A

abbrev pub Action : Type 0 → Type 0 → Type 0
Action S A = Exec Exception S A

-- `code.value`
unfoldable pub code_value : ErrorCode → String
code_value success = "OK"
code_value not_found = "NOT_FOUND"
code_value handler_not_found = "HANDLER_NOT_FOUND"
code_value overloaded = "OVERLOADED"
code_value timeout = "TIMEOUT"
code_value worker_unavailable = "WORKER_UNAVAILABLE"
code_value invalid_argument = "INVALID_ARGUMENT"
code_value invalid_configuration = "INVALID_CONFIGURATION"
code_value invalid_state = "INVALID_STATE"
code_value invalid_request = "INVALID_REQUEST"
code_value internal_error = "INTERNAL_ERROR"
