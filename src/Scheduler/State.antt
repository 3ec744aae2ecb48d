-- ===== src/Scheduler/State.antt =====
-- The fields of `TaskScheduler`, and the private methods that the others share. A method is an
-- action on the fields, run as one step.
use infly.Prelude.{
  ℕ, ◌+◌, Bool, true, false, not, ◌&&◌, Option, none, some, String, List, [], ◌∷◌, ltb,
  if◌then◌else◌,
}
use infly.Prelude.Exec.{Result, ok, raise, ◌>>◌}
use infly.Dict.{Dict, Names, get, remove, contains}
use infly.Core.Errors.{
  ErrorCode, Exception, platform_error, value_error, Action, Outcome, worker_unavailable,
  internal_error,
}
use infly.Core.Contracts.{TaskRecord, TaskRequest, TaskResult, running, completed, failed}
use infly.Config.{SchedulerConfig}
use infly.Backend
use infly.Backend.{Backend, Update}
use infly.Observability
use infly.Prelude.Int.{pos}
use infly.Observability.{Instrumentation, Now}

-- An `asyncio.Future` that a coroutine waits for: whether it is done, and whether its loop still
-- runs.
pub record Waiter : Type 0 where
  pub ident : ℕ
  pub done : Bool
  pub loop_runs : Bool

-- `outstanding_slots` is the value of the bounded semaphore, `resolved` the futures whose result
-- was scheduled, `notified` the number of times that all waiters of the condition were notified. The
-- locks have no state between steps.
pub record Scheduler : Type 0 where
  pub config : SchedulerConfig
  pub backend : Backend
  pub instrumentation : Instrumentation
  pub outstanding_slots : ℕ
  pub outstanding_task_ids : Names
  pub stop : Bool
  pub threads : List String
  pub accepting : Bool
  pub strategy_closed : Bool
  pub closed : Bool
  pub async_waiters : Dict Waiter
  pub resolved : List ℕ
  pub notified : ℕ

unfoldable pub with_backend : SchedulerConfig → Outcome Backend → Outcome Scheduler
with_backend config (raise e) = raise e
with_backend config (ok b) = ok (record {
  config = config;
  backend = b;
  instrumentation = Observability.init;
  outstanding_slots = config.max_outstanding_tasks;
  outstanding_task_ids = [];
  stop = false;
  threads = [];
  accepting = true;
  strategy_closed = false;
  closed = false;
  async_waiters = [];
  resolved = [];
  notified = 0;
})

-- The constructor, with no backend and no instrumentation given.
unfoldable pub init : SchedulerConfig → Outcome Scheduler
unfolding with_backend
init config = with_backend config (Backend.init (pos config.max_retained_terminal_tasks))

-- What the strategy does with a request: it raises, or returns a future that is done, or one
-- that is not.
pub data Reply : Type 0 where
  refused : Exception → Reply
  finished : Outcome TaskResult → Reply
  deferred : Reply

abbrev pub Strategy : Type 0
Strategy = TaskRequest → Reply

module _ {A : Type 0} where
  -- A call of the backend.
  abbrev pub on_backend : Action Backend A → Action Scheduler A
  on_backend m s = let (r, b) = m s.backend in (r, record s { backend = b })

  -- A call of the instrumentation.
  abbrev pub on_instrumentation : Action Instrumentation A → Action Scheduler A
  on_instrumentation m s = let (r, i) = m s.instrumentation in (r, record s { instrumentation = i })

  after_cleanup : Result Exception A → Result Exception Unit → Result Exception A
  after_cleanup r (ok _) = r
  after_cleanup r (raise e) = raise e

  -- `try: body` / `finally: cleanup`; an exception of the cleanup hides that of the body.
  unfoldable pub try_finally : Action Scheduler A → Action Scheduler Unit → Action Scheduler A
  unfolding after_cleanup
  try_finally body cleanup s =
      let (r, after) = body s in let (c, end) = cleanup after in (after_cleanup r c, end)

  or_else : Result Exception A → (Exception → Action Scheduler A) → Action Scheduler A
  or_else (ok a) handler s = (ok a, s)
  or_else (raise e) handler s = handler e s

  -- `try: body` / `except Exception as exc: handler`
  unfoldable pub try_except :
      Action Scheduler A → (Exception → Action Scheduler A) → Action Scheduler A
  unfolding or_else
  try_except body handler s = let (r, after) = body s in or_else r handler after

abbrev pub running_update : Update
running_update = record { status = running; result = none; error_code = none; error_message = none }

abbrev pub completed_update : TaskResult → Update
completed_update result = record {
  status = completed;
  result = some result;
  error_code = none;
  error_message = none;
}

abbrev pub failed_update : ErrorCode → (message : String) → Update
failed_update code message = record {
  status = failed;
  result = none;
  error_code = some code;
  error_message = some message;
}

-- `self._backend.update_status(task_id, ...)`, whose result no caller uses.
abbrev pub update : String → Update → Now → Action Scheduler TaskRecord
update task_id u now = on_backend (Backend.update_status task_id u now.utc now.ns)

-- `threading.BoundedSemaphore.release`: one more than the initial value is an error.
unfoldable pub release_semaphore : Action Scheduler Unit
release_semaphore s =
    if ltb s.outstanding_slots s.config.max_outstanding_tasks
    then (ok tt, record s { outstanding_slots = s.outstanding_slots + 1 })
    else (raise (value_error "Semaphore released too many times"), s)

-- `_release_outstanding_slot`
unfoldable pub release_outstanding_slot : String → Action Scheduler Unit
unfolding release_semaphore
release_outstanding_slot task_id s =
    if contains task_id s.outstanding_task_ids
    then release_semaphore
        (record s { outstanding_task_ids = remove task_id s.outstanding_task_ids })
    else (ok tt, s)

unfoldable pub wake : Option Waiter → List ℕ → List ℕ
wake none resolved = resolved
wake (some w) resolved = if not w.done && w.loop_runs then w.ident ∷ resolved else resolved

-- `_resolve_async_waiter`; a `RuntimeError` of a closed loop is suppressed.
unfoldable pub resolve_async_waiter : String → Action Scheduler Unit
unfolding wake
resolve_async_waiter task_id s = (
  ok tt,
  record s {
    async_waiters = remove task_id s.async_waiters;
    resolved = wake (get task_id s.async_waiters) s.resolved;
  },
)

-- `_notify_waiters`: one more `notify_all` of the condition.
abbrev pub notify_waiters : Action Scheduler Unit
notify_waiters s = (ok tt, record s { notified = s.notified + 1 })

-- `_finish_execution`
unfoldable pub finish_execution : String → Action Scheduler Unit
unfolding release_outstanding_slot resolve_async_waiter
finish_execution task_id = do
  release_outstanding_slot task_id
  notify_waiters
  resolve_async_waiter task_id

-- `_execution_error_code`
unfoldable pub execution_error_code : Exception → ErrorCode
execution_error_code (platform_error worker_unavailable message) = worker_unavailable
execution_error_code _ = internal_error

abbrev pub record_of : String → Scheduler → Option TaskRecord
record_of task_id s = get task_id s.backend.records
