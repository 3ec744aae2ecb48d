-- ===== src/Scheduler/Execution.antt =====
-- `_run_task`, `_complete_task`, `_fail_task`, and the worker's loop around them.
use infly.Prelude.{Option, none, some, String, if◌then◌else◌}
use infly.Prelude.Exec.{Result, ok, raise, pure, ◌>>◌}
use infly.Prelude.Text.{◌⊕◌}
use infly.Core.Errors.{ErrorCode, Exception, internal_error, message_of, Action, Outcome}
use infly.Core.Contracts.{TaskRecord, TaskResult, is_terminal, is_pending}
use infly.Backend
use infly.Observability.{Now, record_started, record_completed, record_failed}
use infly.Scheduler.State.{
  Scheduler, Strategy, Reply, refused, finished, deferred, on_instrumentation, try_finally,
  try_except, running_update, completed_update, failed_update, update, finish_execution,
  execution_error_code, record_of,
}

-- `if record is not None: self._instrumentation.record_failed(...)`
unfoldable pub report_failed :
    Option TaskRecord → String → ErrorCode → (message : String) → Now → Action Scheduler Unit
report_failed none task_id code message now = pure tt
report_failed (some r) task_id code message now =
    on_instrumentation (record_failed task_id r.request code message now)

unfoldable pub report_completed : Option TaskRecord → String → Now → Action Scheduler Unit
report_completed none task_id now = pure tt
report_completed (some r) task_id now = on_instrumentation (record_completed task_id r.request now)

abbrev pub execution_failed : Exception → String
execution_failed exc = "Execution failed: " ⊕ message_of exc

-- A task is marked as failed by an exception of its execution.
unfoldable pub mark_failed : Option TaskRecord → String → Exception → Now → Action Scheduler Unit
unfolding report_failed
mark_failed known task_id exc now = do
  update task_id (failed_update (execution_error_code exc) (execution_failed exc)) now
  report_failed known task_id (execution_error_code exc) (execution_failed exc) now

-- The body of the `try` statement of `_complete_task`.
unfoldable pub settle :
    Option TaskRecord → String → Outcome TaskResult → Now → Action Scheduler Unit
unfolding mark_failed report_completed
settle known task_id (raise exc) now = mark_failed known task_id exc now
settle known task_id (ok result) now = do
  update task_id (completed_update result) now
  report_completed known task_id now

-- `_complete_task`, for a future with the given outcome.
unfoldable pub complete_task : String → Outcome TaskResult → Now → Action Scheduler Unit
unfolding settle try_finally finish_execution
complete_task task_id outcome now s =
    try_finally (settle (record_of task_id s) task_id outcome now) (finish_execution task_id) s

-- A done callback: `concurrent.futures` logs its exception and goes on.
unfoldable pub done_callback : String → Outcome TaskResult → Now → Action Scheduler Unit
unfolding complete_task
done_callback task_id outcome now s = (ok tt, (complete_task task_id outcome now s).1)

-- `_fail_task`
unfoldable pub fail_task : String → Exception → Now → Action Scheduler Unit
unfolding mark_failed finish_execution
fail_task task_id exc now s =
    (do mark_failed (record_of task_id s) task_id exc now; finish_execution task_id) s

-- What follows on the strategy's reply; the callback of a future that is done runs at once.
unfoldable pub follow : Reply → String → Now → Action Scheduler Unit
unfolding fail_task done_callback
follow (refused exc) task_id now = fail_task task_id exc now
follow (finished outcome) task_id now = done_callback task_id outcome now
follow deferred task_id now = pure tt

-- A pending task is marked as running and handed to the strategy.
unfoldable pub start_task : Strategy → TaskRecord → String → Now → Action Scheduler Unit
unfolding follow
start_task strategy r task_id now = do
  update task_id running_update now
  on_instrumentation (record_started task_id r.request now)
  follow (strategy r.request) task_id now

-- `_run_task`
unfoldable pub run_task : Strategy → String → Now → Action Scheduler Unit
unfolding start_task
run_task strategy task_id now s = elim (record_of task_id s) [
  | none ↦ (ok tt, s)
  | some r ↦ if is_pending r.status then start_task strategy r task_id now s else (ok tt, s)
]

abbrev pub loop_failed : Exception → String
loop_failed exc = "Worker loop failed: " ⊕ message_of exc

-- The `try` statement of `_handle_worker_loop_task_failure`.
unfoldable pub fail_unfinished :
    Option TaskRecord → String → Exception → Now → Action Scheduler Unit
fail_unfinished none task_id exc now = pure tt
fail_unfinished (some r) task_id exc now = if is_terminal r.status then pure tt else (do
  update task_id (failed_update internal_error (loop_failed exc)) now
  on_instrumentation (record_failed task_id r.request internal_error (loop_failed exc) now))

-- `_handle_worker_loop_task_failure`; `get` of this backend does not raise.
unfoldable pub handle_task_failure : String → Exception → Now → Action Scheduler Unit
unfolding fail_unfinished try_except try_finally finish_execution
handle_task_failure task_id exc now s =
    try_finally (try_except (fail_unfinished (record_of task_id s) task_id exc now) (λ _. pure tt))
      (finish_execution task_id) s

-- What the worker's loop does with a task that it pulled.
unfoldable pub work_on : Strategy → String → Now → Action Scheduler Unit
unfolding run_task handle_task_failure try_except
work_on strategy task_id now =
    try_except (run_task strategy task_id now) (λ exc. handle_task_failure task_id exc now)

-- One round of `_pull_task_or_none`: nothing once the scheduler stops, or while no task is pending.
unfoldable pub pull_task : Scheduler → Option String × Scheduler
pull_task s =
    if s.stop
    then (none, s)
    else (let (task_id, b) = Backend.pull s.backend in (task_id, record s { backend = b }))

unfoldable pub work_on_pulled :
    Strategy → Now → Option String × Scheduler → Result Exception Unit × Scheduler
unfolding work_on
work_on_pulled strategy now (none, s) = (ok tt, s)
work_on_pulled strategy now (some task_id, s) = work_on strategy task_id now s

-- One round of `_worker_loop`.
unfoldable pub worker_round : Strategy → Now → Action Scheduler Unit
unfolding pull_task work_on_pulled
worker_round strategy now s = work_on_pulled strategy now (pull_task s)
