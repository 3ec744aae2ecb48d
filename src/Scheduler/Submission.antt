-- ===== src/Scheduler/Submission.antt =====
-- `submit`.
use infly.Prelude.{ℕ, ◌-◌, not, String, is_some, ltb, if◌then◌else◌}
use infly.Prelude.Exec.{raise, pure, throw, ◌>>◌}
use infly.Prelude.Int.{ℤ}
use infly.Prelude.Text.{◌⊕◌, decimal}
use infly.Dict.{add}
use infly.Core.Errors.{
  Exception, platform_error, invalid_state, invalid_request, overloaded, Action,
}
use infly.Core.Contracts.{TaskRequest, new_record}
use infly.Backend
use infly.Observability.{Now, record_submitted}
use infly.Scheduler.State.{
  Scheduler, on_backend, on_instrumentation, try_except, release_outstanding_slot, notify_waiters,
  record_of,
}
use infly.Scheduler.Lifecycle.{start}

abbrev pub not_accepting : Exception
not_accepting =
    platform_error invalid_state "Scheduler is closed and no longer accepts submissions."

abbrev pub already_submitted : String → Exception
already_submitted task_id =
    platform_error invalid_request ("Task '" ⊕ task_id ⊕ "' has already been submitted.")

abbrev pub limit_reached : (limit : ℕ) → Exception
limit_reached limit =
    platform_error overloaded
      ("Scheduler has reached its outstanding task limit (" ⊕ decimal limit ⊕ ").")

-- A slot of the semaphore is taken, and the task is noted as outstanding.
abbrev pub take_slot : String → Scheduler → Scheduler
take_slot task_id s = record s {
  outstanding_slots = s.outstanding_slots - 1;
  outstanding_task_ids = add task_id s.outstanding_task_ids;
}

-- The record goes to the backend; if that raises, the slot is given back.
unfoldable pub store_task : TaskRequest → ℤ → Now → Action Scheduler Unit
unfolding try_except release_outstanding_slot
store_task request priority now =
    try_except (on_backend (Backend.submit (new_record request.task_id request now.utc) priority))
      (λ exc. do release_outstanding_slot request.task_id; throw exc)

-- `submit` behind `start` and the tests.
unfoldable pub accept : TaskRequest → ℤ → Now → Action Scheduler String
unfolding store_task
accept request priority now s =
    (do
      store_task request priority now
      on_instrumentation (record_submitted request.task_id request now)
      notify_waiters
      pure request.task_id)
      (take_slot request.task_id s)

-- The tests of `submit`, in their order.
unfoldable pub admit : TaskRequest → ℤ → Now → Action Scheduler String
unfolding accept
admit request priority now s =
    if not s.accepting
    then (raise not_accepting, s)
    else if is_some (record_of request.task_id s)
    then (raise (already_submitted request.task_id), s)
    else if ltb 0 s.outstanding_slots
    then accept request priority now s
    else (raise (limit_reached s.config.max_outstanding_tasks), s)

-- `submit`
unfoldable pub submit : TaskRequest → (priority : ℤ) → Now → Action Scheduler String
unfolding start admit
submit request priority now = do start; admit request priority now
