-- ===== src/Pool/Supervision.antt =====
-- The exit of a worker in `_supervisor_loop`: its tasks fail, and the shutdown or restart behind it.
use infly.Prelude.{
  ℕ, ◌+◌, true, false, Option, none, some, String, List, [], ◌∷◌, ◌++◌, ◌==◌, ltb, leb, length,
  text_dec, ite, if◌then◌else◌,
}
use infly.Prelude.Int.{pos}
use infly.Prelude.Text.{◌⊕◌}
use infly.Dict.{Dict, get, insert, remove, values}
use infly.Core.Errors.{Exception, platform_error, worker_unavailable}
use infly.Prelude.{not}
use infly.Core.Errors.{value_error, Outcome, Action}
use infly.Prelude.Exec.{ok, raise}
use infly.Pool.State.{System, Pool, Worker, Assignment, same_assignment, fail_futures, store_worker}

-- A worker object that a thread still holds.
pub record WorkerRef : Type 0 where
  pub worker_id : String
  pub ident : ℕ
  pub group_name : String

unfoldable pub same_object : ℕ → Option Worker → Option Worker
same_object ident none = none
same_object ident (some w) = if w.ident == ident then some w else none

-- The object, if `self._workers.get(worker.worker_id)` is it, so that it has not retired.
unfoldable pub current : WorkerRef → Pool → Option Worker
unfolding same_object
current ref p = same_object ref.ident (get ref.worker_id p.workers)

-- The loop of `_take_worker_futures_locked` over a snapshot of the assignments: what is left of
-- assignments and futures, and the futures that were taken.
pub record Taken : Type 0 where
  pub assignments : Dict Assignment
  pub futures : Dict ℕ
  pub failed : List ℕ

abbrev pub also_failed : Option ℕ → List ℕ → List ℕ
also_failed none failed = failed
also_failed (some future) failed = failed ++ future ∷ []

unfoldable pub take_one : (task_id : String) → Taken → Taken
take_one task_id t = record {
  assignments = remove task_id t.assignments;
  futures = remove task_id t.futures;
  failed = also_failed (get task_id t.futures) t.failed;
}

unfoldable pub take_owned : Assignment → List (String × Assignment) → Taken → Taken
unfolding take_one same_assignment
take_owned assignment [] t = t
take_owned assignment ((task_id, owner) ∷ items) t =
    take_owned assignment items (if same_assignment owner assignment then take_one task_id t else t)

abbrev pub assignment_of : Worker → Assignment
assignment_of w = record { worker_id = w.worker_id; generation = w.generation }

-- `_take_worker_futures_locked`, but for the worker's own count.
unfoldable pub take_worker_futures : Worker → Pool → Taken
unfolding take_owned
take_worker_futures w p =
    take_owned (assignment_of w) p.assignments
      (record { assignments = p.assignments; futures = p.futures; failed = [] })

-- The futures of a worker that has gone fail.
unfoldable pub fail_taken : Taken → Exception → Pool → Pool
unfolding fail_futures
fail_taken t exc p = record p {
  assignments = t.assignments;
  futures = t.futures;
  promises = fail_futures t.failed exc p.promises;
}

unfoldable pub drop_before : (now window : ℕ) → List ℕ → List ℕ
drop_before now window [] = []
drop_before now window (t ∷ ts) =
    let rest = drop_before now window ts in if ltb (t + window) now then rest else t ∷ ts

-- `_schedule_restart`; `t < now - window` is written without a difference.
unfoldable pub schedule_restart : (now : ℕ) → Worker → Worker
unfolding drop_before
schedule_restart now w =
    let times = drop_before now w.group.safety.restart_window w.restart_times in
    if leb w.group.safety.restart_limit (length times)
    then record w { restart_times = times; next_restart_at = none }
    else record w {
      restart_times = times;
      next_restart_at = some (now + w.group.safety.restart_backoff);
    }

-- `worker.outstanding = 0` for every worker.
abbrev pub reset_outstanding : Worker → Worker
reset_outstanding w = record w { outstanding = 0 }

unfoldable pub map_workers : (Worker → Worker) → Dict Worker → Dict Worker
map_workers f [] = []
map_workers f ((k, w) ∷ ws) = (k, f w) ∷ map_workers f ws

-- `_fail_all_pending`
unfoldable pub fail_all_pending : Exception → Pool → Pool
unfolding fail_futures map_workers
fail_all_pending exc p = record p {
  futures = [];
  assignments = [];
  workers = map_workers reset_outstanding p.workers;
  promises = fail_futures (values p.futures) exc p.promises;
}

abbrev pub process_closed_error : Exception
process_closed_error = value_error "process object is closed"

-- `_stop_process`: `join` raises on a process that is closed; else the process is closed, if it has
-- ended, and the worker is not alive behind it.
unfoldable pub stop_process : System → Action Worker (Unit {0})
stop_process sys w =
    if not w.has_process
    then (ok tt, w)
    else if w.process_closed
    then (raise process_closed_error, w)
    else (ok tt, record w { alive = false; process_closed = sys.ends w })

-- The loop of the stops, up to the first exception.
unfoldable pub stop_rest :
    (key : String)
    → Outcome (Unit {0}) × Worker
    → Dict Worker
    → Outcome (Unit {0}) × Dict Worker
    → Outcome (Unit {0}) × Dict Worker
stop_rest k (raise e, w) ws rest = (raise e, (k, w) ∷ ws)
stop_rest k (ok t, w) ws (r, rest) = (r, (k, w) ∷ rest)

unfoldable pub stop_each : (stop : Action Worker (Unit {0})) → Action (Dict Worker) (Unit {0})
unfolding stop_rest
stop_each stop [] = (ok tt, [])
stop_each stop ((k, w) ∷ ws) = stop_rest k (stop w) ws (stop_each stop ws)

abbrev pub stop_unless : System → (failed_id : String) → Action Worker (Unit {0})
stop_unless sys failed_id w = ite (text_dec w.worker_id failed_id) (ok tt, w) (stop_process sys w)

unfoldable pub stop_workers : (stop : Action Worker (Unit {0})) → Action Pool (Unit {0})
unfolding stop_each
stop_workers stop p = let (r, ws) = stop_each stop p.workers in (r, record p { workers = ws })

-- What is pending fails, if no stop raised.
unfoldable pub fail_stopped : Exception → Outcome (Unit {0}) × Pool → Outcome (Unit {0}) × Pool
unfolding fail_all_pending
fail_stopped exc (raise e, p) = (raise e, p)
fail_stopped exc (ok t, p) = (ok tt, fail_all_pending exc p)

abbrev pub shut_error : (failed_id : String) → Exception
shut_error failed_id =
    platform_error worker_unavailable ("Pool shut down after worker '" ⊕ failed_id ⊕ "' failed")

-- The lock of `_shutdown_after_worker_failure`.
abbrev pub begin_shutdown : Pool → Pool
begin_shutdown p = record p { accepting = false; closing = true }

-- `_shutdown_after_worker_failure`
unfoldable pub shutdown_after_failure : System → (failed_id : String) → Action Pool (Unit {0})
unfolding stop_process stop_workers fail_stopped
shutdown_after_failure sys failed_id p =
    fail_stopped (shut_error failed_id)
      (stop_workers (stop_unless sys failed_id) (begin_shutdown p))

-- What follows an exit, by the mode of the group's policy.
unfoldable pub after_exit : System → (now : ℕ) → Worker → Action Pool (Unit {0})
unfolding shutdown_after_failure schedule_restart
after_exit sys now w p =
    ite (text_dec w.group.safety.mode "shutdown") (shutdown_after_failure sys w.worker_id p) (
      ok tt,
      ite (text_dec w.group.safety.mode "restart") (store_worker (schedule_restart now w) p) p,
    )

abbrev pub exited_error : (worker_id : String) → Exception
exited_error worker_id =
    platform_error worker_unavailable ("Worker '" ⊕ worker_id ⊕ "' exited unexpectedly")

-- The worker as an exit leaves it.
abbrev pub gone : Worker → Worker
gone w = record w { alive = false; outstanding = 0 }

-- The pool in which the tasks of the worker have failed.
unfoldable pub taken_down : Worker → Pool → Pool
unfolding take_worker_futures fail_taken
taken_down w p = store_worker (gone w) (
    fail_taken (take_worker_futures w p) (exited_error w.worker_id)
      (record p { smooth_weights = insert w.group.name (pos 0) p.smooth_weights }))

unfoldable pub exit_of : System → (now : ℕ) → Worker → Action Pool (Unit {0})
unfolding taken_down after_exit
exit_of sys now w p = after_exit sys now (gone w) (taken_down w p)

-- `_handle_worker_exit`
unfoldable pub handle_worker_exit : System → (now : ℕ) → Option Worker → Action Pool (Unit {0})
unfolding exit_of
handle_worker_exit sys now none p = (ok tt, p)
handle_worker_exit sys now (some w) p = if w.alive then exit_of sys now w p else (ok tt, p)
