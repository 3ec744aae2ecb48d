-- ===== src/Core/Contracts.antt =====
-- infly/core/contracts.py
use infly.Prelude.{ℕ, String, Bool, true, false, Option, none}
use infly.Dict.{Dict}
use infly.Core.Errors.{ErrorCode}

-- A value of a mapping that the program passes on. It asks of one only whether it is `None` and
-- what `str()` says, so any other value than a text is known by that alone.
pub data Value : Type 0 where
  null : Value
  text : String → Value
  object : (shown : String) → Value

unfoldable pub str : Value → String
str null = "None"
str (text s) = s
str (object shown) = shown

abbrev pub Mapping : Type 0
Mapping = Dict Value

pub record TaskRequest : Type 0 where
  pub handler_name : String
  pub input : Mapping
  pub metadata : Mapping
  pub task_id : String

pub record TaskResult : Type 0 where
  pub task_id : String
  pub output : Mapping
  pub diagnostics : Mapping

pub data TaskStatus : Type 0 where
  pending running completed failed : TaskStatus

-- `status in {TaskStatus.COMPLETED, TaskStatus.FAILED}`
abbrev pub is_terminal : TaskStatus → Bool
is_terminal pending = false
is_terminal running = false
is_terminal completed = true
is_terminal failed = true

-- `status == TaskStatus.PENDING`
abbrev pub is_pending : TaskStatus → Bool
is_pending pending = true
is_pending _ = false

-- Times are counted in ticks of the clock that gave them.
pub record TaskRecord : Type 0 where
  pub task_id : String
  pub request : TaskRequest
  pub status : TaskStatus
  pub result : Option TaskResult
  pub error_code : Option ErrorCode
  pub error_message : Option String
  pub created_at : ℕ
  pub updated_at : ℕ

-- `TaskRecord(task_id=task_id, request=request)` at a time.
abbrev pub new_record : String → TaskRequest → ℕ → TaskRecord
new_record task_id request now = record {
  task_id = task_id;
  request = request;
  status = pending;
  result = none;
  error_code = none;
  error_message = none;
  created_at = now;
  updated_at = now;
}

pub record TaskQueryResponse : Type 0 where
  pub task_id : String
  pub status : TaskStatus
  pub result : Option TaskResult
  pub error_code : Option ErrorCode
  pub error_message : Option String

-- `TaskQueryResponse.from_record`
abbrev pub from_record : TaskRecord → TaskQueryResponse
from_record r = record {
  task_id = r.task_id;
  status = r.status;
  result = r.result;
  error_code = r.error_code;
  error_message = r.error_message;
}
