-- ===== src/Scheduler/Lifecycle.antt =====
-- `start`, `stop`, `_worker_exited` and `_fail_pending_tasks`.
use infly.Prelude.{
  ℕ, zero, suc, Bool, true, false, not, ◌&&◌, Option, none, some, String, List, [], ◌∷◌,
  if◌then◌else◌, ite, text_dec,
}
use infly.Prelude.Exec.{ok, raise, pure, ◌>>◌}
use infly.Prelude.Int.{ℤ, pos, negsuc}
use infly.Prelude.Text.{◌⊕◌, decimal}
use infly.Dict.{Names, contains}
use infly.Core.Errors.{
  Exception, platform_error, invalid_state, invalid_argument, worker_unavailable, Action,
}
use infly.Core.Contracts.{TaskRecord, is_pending}
use infly.Backend.{list_all}
use infly.Observability.{Now}
use infly.Scheduler.State.{
  Scheduler, failed_update, update, release_outstanding_slot, resolve_async_waiter, notify_waiters,
}

-- `scheduler-0`, `scheduler-1`, ..., from the number `i` on.
unfoldable pub thread_names : (i count : ℕ) → List String
unfolding decimal
thread_names i zero = []
thread_names i (suc count) = ("scheduler-" ⊕ decimal i) ∷ thread_names (suc i) count

abbrev pub start_threads : Scheduler → Scheduler
start_threads s = record s { stop = false; threads = thread_names 0 s.config.num_threads }

unfoldable pub start_from : List String → Scheduler → Scheduler
start_from [] s = start_threads s
start_from (t ∷ ts) s = s

-- `start`
unfoldable pub start : Action Scheduler Unit
unfolding start_from thread_names
start s =
    if s.closed
    then (
      raise (platform_error invalid_state "Scheduler is closed and cannot be started again."),
      s,
    )
    else (ok tt, start_from s.threads s)

-- The records of `list_all` that are pending and whose task is outstanding.
unfoldable pub pending_records : Names → List TaskRecord → List TaskRecord
pending_records ids [] = []
pending_records ids (r ∷ rs) =
    let rest = pending_records ids rs in
    if contains r.task_id ids && is_pending r.status then r ∷ rest else rest

abbrev pub stopped_message : String
stopped_message = "Scheduler stopped before task execution started."

-- The loop of `_fail_pending_tasks`.
unfoldable pub fail_each : List TaskRecord → Now → Action Scheduler Unit
unfolding release_outstanding_slot resolve_async_waiter
fail_each [] now = pure tt
fail_each (r ∷ rs) now =
    let rest = fail_each rs now in
    do
      update r.task_id (failed_update worker_unavailable stopped_message) now
      release_outstanding_slot r.task_id
      resolve_async_waiter r.task_id
      rest

unfoldable pub notify_if_any : List TaskRecord → Action Scheduler Unit
notify_if_any [] = pure tt
notify_if_any (r ∷ rs) = notify_waiters

-- `_fail_pending_tasks`
unfoldable pub fail_pending_tasks : Now → Action Scheduler Unit
unfolding fail_each pending_records notify_if_any
fail_pending_tasks now s =
    let rs = pending_records s.outstanding_task_ids (list_all s.backend) in
    (do fail_each rs now; notify_if_any rs) s

-- The threads that are alive when `join` has returned for all.
unfoldable pub still_alive : (alive : String → Bool) → List String → List String
still_alive alive [] = []
still_alive alive (t ∷ ts) = let rest = still_alive alive ts in if alive t then t ∷ rest else rest

-- `self._strategy.close()`, which may raise, unless it was closed before.
unfoldable pub close_strategy : (closing : Option Exception) → Action Scheduler Unit
close_strategy none s = (ok tt, record s { strategy_closed = true })
close_strategy (some e) s = if s.strategy_closed then (ok tt, s) else (raise e, s)

unfoldable pub join_threads : (alive : String → Bool) → Scheduler → Scheduler
unfolding still_alive
join_threads alive s = record s { threads = still_alive alive s.threads }

unfoldable pub fail_if_none : List String → Now → Action Scheduler Unit
unfolding fail_pending_tasks
fail_if_none [] now = fail_pending_tasks now
fail_if_none (t ∷ ts) now = pure tt

-- `stop`: `closing` is what closing the strategy does, `alive` the threads that outlive the join.
unfoldable pub stop :
    (timeout : ℤ) (closing : Option Exception) (alive : String → Bool) → Now → Action Scheduler Unit
unfolding close_strategy join_threads fail_if_none
stop (negsuc _) closing alive now s =
    (raise (platform_error invalid_argument "timeout must be greater than or equal to zero."), s)
stop (pos _) closing alive now s =
    (do
      close_strategy closing
      notify_waiters
      λ s'. let joined = join_threads alive s' in fail_if_none joined.threads now joined)
      (record s { stop = true; accepting = false; closed = true })

-- `all(other is thread or not other.is_alive() for other in self._threads)`
unfoldable pub is_last : (alive : String → Bool) → (thread : String) → List String → Bool
unfolding text_dec
is_last alive thread [] = true
is_last alive thread (t ∷ ts) =
    ite (text_dec t thread) true (not (alive t)) && is_last alive thread ts

unfoldable pub remove_thread : String → List String → List String
unfolding text_dec
remove_thread thread [] = []
remove_thread thread (t ∷ ts) =
    let rest = remove_thread thread ts in ite (text_dec t thread) ts (t ∷ rest)

-- `_worker_exited`
unfoldable pub worker_exited :
    (alive : String → Bool) → (thread : String) → Now → Action Scheduler Unit
unfolding is_last remove_thread fail_pending_tasks
worker_exited alive thread now s =
    (do
      if s.stop && is_last alive thread s.threads then fail_pending_tasks now else pure tt
      λ s'. (ok tt, record s' { threads = remove_thread thread s'.threads }))
      s
