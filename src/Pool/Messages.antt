-- ===== src/Pool/Messages.antt =====
-- What the processes send, and the error codes in it.
use infly.Prelude.{ℕ, Option, none, some, String, ite, text_dec}
use infly.Prelude.Exec.{ok, raise}
use infly.Core.Errors.{
  Code, error_code, text_code, foreign_code, coded, ErrorCode, success, not_found,
  handler_not_found, overloaded, timeout, worker_unavailable, invalid_argument,
  invalid_configuration, invalid_state, invalid_request, internal_error, Exception, platform_error,
  message_of, code_value, Outcome,
}
use infly.Core.Contracts.{TaskResult}

-- `_dump_error_code`
unfoldable pub dump_error_code : Code → Code
unfolding code_value
dump_error_code (error_code c) = text_code (code_value c)
dump_error_code (text_code s) = text_code s
dump_error_code foreign_code = foreign_code

-- `ErrorCode(code)` for a text: the member with that value, if there is one.
unfoldable pub code_of_value : String → Option ErrorCode
code_of_value s = ite (text_dec s "OK") (some success) (
    ite (text_dec s "NOT_FOUND") (some not_found) (
      ite (text_dec s "HANDLER_NOT_FOUND") (some handler_not_found) (
        ite (text_dec s "OVERLOADED") (some overloaded) (
          ite (text_dec s "TIMEOUT") (some timeout) (
            ite (text_dec s "WORKER_UNAVAILABLE") (some worker_unavailable) (
              ite (text_dec s "INVALID_ARGUMENT") (some invalid_argument) (
                ite (text_dec s "INVALID_CONFIGURATION") (some invalid_configuration) (
                  ite (text_dec s "INVALID_STATE") (some invalid_state) (
                    ite (text_dec s "INVALID_REQUEST") (some invalid_request)
                      (ite (text_dec s "INTERNAL_ERROR") (some internal_error) none))))))))))

abbrev pub or_internal : Option ErrorCode → ErrorCode
or_internal none = internal_error
or_internal (some c) = c

-- `_load_error_code`
unfoldable pub load_error_code : Code → ErrorCode
unfolding code_of_value
load_error_code (error_code c) = c
load_error_code (text_code s) = or_internal (code_of_value s)
load_error_code foreign_code = internal_error

-- `ok`, with the payload that a worker then sends, or not `ok`.
pub data Reply : Type 0 where
  succeeded : (payload : TaskResult) → Reply
  failed : (code : Code) (error_message : Option String) → Reply

pub record WorkerResultMessage : Type 0 where
  pub task_id : String
  pub worker_id : String
  pub generation : ℕ
  pub reply : Reply

pub record WorkerLifecycleMessage : Type 0 where
  pub kind : String
  pub worker_id : String
  pub generation : ℕ
  pub error_message : Option String

-- `error_message or fallback`; an empty text counts as none.
unfoldable pub or_else : Option String → (fallback : String) → String
or_else none fallback = fallback
or_else (some s) fallback = ite (text_dec s "") fallback s

-- What the future of a result is set to.
unfoldable pub outcome_of : Reply → Outcome TaskResult
unfolding load_error_code or_else
outcome_of (succeeded payload) = ok payload
outcome_of (failed code error_message) =
    raise (platform_error (load_error_code code) (or_else error_message "Unknown worker error"))

-- `getattr(exc, "code", ErrorCode.INTERNAL_ERROR)`
unfoldable pub code_of : Exception → Code
code_of (platform_error c message) = error_code c
code_of (coded c message) = c
code_of _ = error_code internal_error

-- What a worker answers when the execution of a request has ended.
unfoldable pub reply_of : Outcome TaskResult → Reply
unfolding dump_error_code code_of message_of
reply_of (ok result) = succeeded result
reply_of (raise exc) = failed (dump_error_code (code_of exc)) (some (message_of exc))
