-- ===== src/Scheduler/Query.antt =====
-- `query`, the wait for a terminal record, `submit_and_wait`, and `health_snapshot`.
use infly.Prelude.{
  ℕ, zero, suc, ◌+◌, Bool, true, false, not, ◌&&◌, ◌||◌, Option, none, some, String, List, [], ◌∷◌,
  length, ltb, ◌==◌, ite, text_dec, if◌then◌else◌,
}
use mathlib.Core.Option
use infly.Prelude.Exec.{ok, raise}
use infly.Prelude.Int.{ℤ, pos, negsuc}
use infly.Prelude.Text.{◌⊕◌}
use infly.Core.Errors.{
  ErrorCode, Exception, platform_error, not_found, timeout, invalid_argument, internal_error,
  Action, Outcome,
}
use infly.Core.Contracts.{
  TaskRecord, TaskRequest, TaskResult, TaskStatus, pending, running, completed, failed,
  TaskQueryResponse, from_record, is_terminal, is_pending,
}
use infly.Backend
use infly.Backend.{list_all}
use infly.Observability.{HealthStatus, healthy, down, StrategyHealthSnapshot, Now}
use infly.Scheduler.State.{Scheduler, record_of}
use infly.Scheduler.Submission.{submit}

abbrev pub missing : String → Exception
missing task_id = platform_error not_found ("Task '" ⊕ task_id ⊕ "' not found.")

-- `_timeout_error` with no `api_name`, and with one.
abbrev pub timeout_error : (task_id phase : String) → Exception
timeout_error task_id phase =
    platform_error timeout ("Timed out waiting for task '" ⊕ task_id ⊕ "' to " ⊕ phase ⊕ ".")

abbrev pub api_timeout_error : (api_name task_id phase : String) → Exception
api_timeout_error api_name task_id phase =
    platform_error timeout
      (api_name ⊕ " timed out for task '" ⊕ task_id ⊕ "' while waiting for task to " ⊕ phase ⊕ ".")

unfoldable pub respond :
    String → Option TaskRecord × Backend.Backend → Scheduler → Outcome TaskQueryResponse × Scheduler
respond task_id (none, b) s = (raise (missing task_id), record s { backend = b })
respond task_id (some r, b) s = (ok (from_record r), record s { backend = b })

-- `_read_terminal_response`
unfoldable pub read_terminal_response :
    String → (consume : Bool) → Action Scheduler TaskQueryResponse
unfolding respond
read_terminal_response task_id consume s =
    respond task_id (Backend.read task_id consume s.backend) s

-- What one round of the wait does: it returns or raises, or it waits for the condition.
pub data Round : Type 0 where
  done : Outcome TaskQueryResponse → Round
  wait : Round

-- Whether the time that remains until the deadline, if there is one, is used up.
abbrev pub is_over : Option ℤ → Bool
is_over none = false
is_over (some (pos zero)) = true
is_over (some (pos (suc _))) = false
is_over (some (negsuc _)) = true

unfoldable pub phase_of : TaskRecord → String
phase_of r = if is_pending r.status then "start" else "complete"

-- One round of `_wait_for_terminal_response`, with the time that remains.
unfoldable pub wait_round :
    String → (consume : Bool) → (remaining : Option ℤ) → Scheduler → Round × Scheduler
unfolding read_terminal_response phase_of
wait_round task_id consume remaining s = elim (record_of task_id s) [
  | none ↦ (done (raise (missing task_id)), s)
  | some r ↦
      if is_terminal r.status
      then (let (response, s') = read_terminal_response task_id consume s in (done response, s'))
      else if is_over remaining
      then (done (raise (timeout_error task_id (phase_of r))), s)
      else (wait, s)
]

-- What happens while a caller waits: the time that remains at its next round, and what the other
-- threads did to the scheduler before.
pub record Wakeup : Type 0 where
  pub remaining : Option ℤ
  pub others : Scheduler → Scheduler

-- The loop over a finite list of wakeups; with none left it still waits.
unfoldable pub wait_loop :
    String
    → (consume : Bool) → List Wakeup
    → Scheduler
    → Option (Outcome TaskQueryResponse) × Scheduler
unfolding wait_round
wait_loop task_id consume [] s = (none, s)
wait_loop task_id consume (w ∷ ws) s =
    let (round, s') = wait_round task_id consume w.remaining (w.others s) in
    let rest = wait_loop task_id consume ws s' in
    elim round [ done response ↦ (some response, s') | wait ↦ rest ]

-- `timeout_seconds` below zero is refused before the first round.
unfoldable pub wait_for_terminal_response :
    String
    → (timeout_seconds : Option ℤ) → (consume : Bool) → List Wakeup
    → Scheduler
    → Option (Outcome TaskQueryResponse) × Scheduler
unfolding wait_loop
wait_for_terminal_response task_id (some (negsuc _)) consume ws s = (
  some (
      raise
        (platform_error invalid_argument "timeout_seconds must be greater than or equal to zero.")),
  s,
)
wait_for_terminal_response task_id (some (pos _)) consume ws s = wait_loop task_id consume ws s
wait_for_terminal_response task_id none consume ws s = wait_loop task_id consume ws s

abbrev returned :
    Outcome TaskQueryResponse × Scheduler → Option (Outcome TaskQueryResponse) × Scheduler
returned (r, s) = (some r, s)

-- `query`; without `wait` it always answers.
unfoldable pub query :
    String
    → (waits : Bool) → (timeout_seconds : Option ℤ) → (consume : Bool) → List Wakeup
    → Scheduler
    → Option (Outcome TaskQueryResponse) × Scheduler
unfolding read_terminal_response wait_for_terminal_response
query task_id waits timeout_seconds consume ws s = elim (record_of task_id s) [
  | none ↦ (some (raise (missing task_id)), s)
  | some r ↦
      if is_terminal r.status
      then returned (read_terminal_response task_id consume s)
      else if not waits
      then (some (ok (from_record r)), s)
      else wait_for_terminal_response task_id timeout_seconds consume ws s
]

unfoldable pub code_or : Option ErrorCode → ErrorCode
code_or none = internal_error
code_or (some code) = code

-- `terminal.error_message or "Task execution failed."`; an empty text counts as none.
unfoldable pub message_or : Option String → String
unfolding text_dec
message_or none = "Task execution failed."
message_or (some message) = ite (text_dec message "") "Task execution failed." message

unfoldable pub result_or : Option TaskResult → Outcome TaskResult
result_or none = raise (platform_error internal_error "Task completed without a result.")
result_or (some result) = ok result

-- `status == TaskStatus.COMPLETED`
abbrev pub is_completed : TaskStatus → Bool
is_completed completed = true
is_completed _ = false

-- The end of `submit_and_wait` and of `submit_and_wait_async`.
unfoldable pub result_of : TaskQueryResponse → Outcome TaskResult
unfolding code_or message_or result_or
result_of response =
    if is_completed response.status
    then result_or response.result
    else raise (platform_error (code_or response.error_code) (message_or response.error_message))

-- `except PlatformError as exc` with its test of the code.
unfoldable pub rename_timeout : String → Exception → Exception
rename_timeout task_id (platform_error timeout message) =
    api_timeout_error "submit_and_wait" task_id "complete"
rename_timeout task_id e = e

unfoldable pub answer_of : String → Outcome TaskQueryResponse → Outcome TaskResult
unfolding rename_timeout result_of
answer_of task_id (ok response) = result_of response
answer_of task_id (raise e) = raise (rename_timeout task_id e)

unfoldable pub await_task :
    (timeout_seconds : Option ℤ)
    → (consume : Bool) → List Wakeup
    → Outcome String × Scheduler
    → Option (Outcome TaskResult) × Scheduler
unfolding query answer_of
await_task timeout_seconds consume ws (raise e, s) = (some (raise e), s)
await_task timeout_seconds consume ws (ok task_id, s) =
    let (response, s') = query task_id true timeout_seconds consume ws s in
    (Option.map (answer_of task_id) response, s')

-- `submit_and_wait`
unfoldable pub submit_and_wait :
    TaskRequest
    → (priority : ℤ) → (timeout_seconds : Option ℤ) → (consume : Bool) → List Wakeup
    → Now
    → Scheduler
    → Option (Outcome TaskResult) × Scheduler
unfolding await_task submit
submit_and_wait request priority timeout_seconds consume ws now s =
    await_task timeout_seconds consume ws (submit request priority now s)

pub record StatusCounts : Type 0 where
  pub pending : ℕ
  pub running : ℕ
  pub completed : ℕ
  pub failed : ℕ

abbrev pub count_status : TaskStatus → StatusCounts → StatusCounts
count_status pending c = record c { pending = c.pending + 1 }
count_status running c = record c { running = c.running + 1 }
count_status completed c = record c { completed = c.completed + 1 }
count_status failed c = record c { failed = c.failed + 1 }

-- The loop of `health_snapshot` over all records.
unfoldable pub count_statuses : List TaskRecord → StatusCounts → StatusCounts
count_statuses [] c = c
count_statuses (r ∷ rs) c = count_statuses rs (count_status r.status c)

pub record SchedulerHealthSnapshot : Type 0 where
  pub status : HealthStatus
  pub accepting : Bool
  pub started : Bool
  pub closed : Bool
  pub worker_threads : ℕ
  pub outstanding_tasks : ℕ
  pub max_outstanding_tasks : ℕ
  pub backend_status_counts : StatusCounts
  pub strategy : Option StrategyHealthSnapshot

unfoldable pub strategy_status : Option StrategyHealthSnapshot → HealthStatus
strategy_status none = healthy
strategy_status (some snapshot) = snapshot.status

-- `health_snapshot`, given the strategy's snapshot, if it has one.
unfoldable pub health_snapshot : Option StrategyHealthSnapshot → Scheduler → SchedulerHealthSnapshot
unfolding count_statuses strategy_status
health_snapshot strategy s = record {
  status =
      if s.closed || (length s.threads == 0 && not s.accepting)
      then down
      else strategy_status strategy;
  accepting = s.accepting;
  started = ltb 0 (length s.threads);
  closed = s.closed;
  worker_threads = length s.threads;
  outstanding_tasks = length s.outstanding_task_ids;
  max_outstanding_tasks = s.config.max_outstanding_tasks;
  backend_status_counts =
      count_statuses (list_all s.backend)
        (record { pending = 0; running = 0; completed = 0; failed = 0 });
  strategy = strategy;
}
