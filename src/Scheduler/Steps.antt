-- ===== src/Scheduler/Steps.antt =====
-- Every way in which a worker executes a task, and every end of one, settles the books.
use infly.Prelude.{
  ◌≡◌, refl, ◌⊎◌, inl, inr, true, false, Option, none, some, String, arith, Bool-cases,
  Option-cases,
}
use infly.Prelude.Exec.{ok, raise, and_then, ◌>>=◌}
use infly.Core.Errors.{Exception, Outcome, ErrorCode, Action, internal_error}
use infly.Core.Contracts.{TaskRecord, TaskResult, is_terminal, is_pending}
use infly.Backend.{Update}
use infly.Observability.{Instrumentation, Now, record_started, record_failed}
use infly.Scheduler.State.{
  Scheduler, Strategy, Reply, refused, finished, deferred, on_instrumentation, try_finally,
  try_except, running_update, completed_update, failed_update, update, release_outstanding_slot,
  resolve_async_waiter, notify_waiters, finish_execution, execution_error_code, record_of,
}
use infly.Scheduler.Execution.{
  report_failed, report_completed, execution_failed, mark_failed, settle, complete_task,
  done_callback, fail_task, follow, start_task, run_task, loop_failed, fail_unfinished,
  handle_task_failure, work_on,
}
use infly.Scheduler.Books.{
  IsConsistent, IsConsistentBut, live_at, update_final-BooksBut, update_live-Books,
  release-Released,
}

-- An action of the instrumentation changes no field that the books speak of.
instrumented :
    (k : String) (m : Action Instrumentation Unit) (s : Scheduler)
    → IsConsistentBut k s
    → IsConsistentBut k (on_instrumentation m s).1
instrumented k m s v = v

report_failed-But :
    (k : String) (known : Option TaskRecord) (task_id : String) (code : ErrorCode)
    (message : String) (now : Now) (s : Scheduler)
    → IsConsistentBut k s
    → IsConsistentBut k (report_failed known task_id code message now s).1
unfolding report_failed
report_failed-But k none task_id code message now s v = v
report_failed-But k (some r) task_id code message now s v = v

report_completed-But :
    (k : String) (known : Option TaskRecord) (task_id : String) (now : Now) (s : Scheduler)
    → IsConsistentBut k s
    → IsConsistentBut k (report_completed known task_id now s).1
unfolding report_completed
report_completed-But k none task_id now s v = v
report_completed-But k (some r) task_id now s v = v

-- One step behind another: what holds behind the first outlives the second.
pub and_then-keeps :
    {A : Type 0} (P : Scheduler → Type 0) (r : Outcome A) (f : A → Action Scheduler Unit)
    (s : Scheduler)
    → P s
    → ((a : A) → P (f a s).1)
    → P (and_then r f s).1
and_then-keeps P (ok a) f s p h = h a
and_then-keeps P (raise e) f s p h = p

pub update_final-But :
    (k : String) (u : Update) (now : Now) (s : Scheduler)
    → is_terminal u.status ≡ true
    → IsConsistent s
    → IsConsistentBut k (update k u now s).1
update_final-But k u now s final v =
    update_final-BooksBut k u now.utc now.ns s.backend s.outstanding_task_ids v final

mark_failed-But :
    (k : String) (known : Option TaskRecord) (exc : Exception) (now : Now) (s : Scheduler)
    → IsConsistent s
    → IsConsistentBut k (mark_failed known k exc now s).1
unfolding mark_failed
mark_failed-But k known exc now s v =
    let u = failed_update (execution_error_code exc) (execution_failed exc) in
    let p = update k u now s in
    let after = update_final-But k u now s refl v in
    and_then-keeps (IsConsistentBut k) p.0
      (λ _. report_failed known k (execution_error_code exc) (execution_failed exc) now) p.1 after
      (λ _.
        report_failed-But k known k (execution_error_code exc) (execution_failed exc) now p.1 after)

settle-But :
    (k : String) (known : Option TaskRecord) (outcome : Outcome TaskResult) (now : Now)
    (s : Scheduler)
    → IsConsistent s
    → IsConsistentBut k (settle known k outcome now s).1
unfolding settle
settle-But k known (raise exc) now s v = mark_failed-But k known exc now s v
settle-But k known (ok result) now s v =
    let u = completed_update result in
    let p = update k u now s in
    let after = update_final-But k u now s refl v in
    and_then-keeps (IsConsistentBut k) p.0 (λ _. report_completed known k now) p.1 after
      (λ _. report_completed-But k known k now p.1 after)

-- The end of an execution behind the release of its slot.
abbrev pub announce : String → Action Scheduler Unit
announce k s = resolve_async_waiter k (notify_waiters s).1

-- The end of an execution returns, and settles the books.
pub finish_execution_lem :
    (k : String) (s : Scheduler)
    → IsConsistentBut k s
    → ((finish_execution k s).0 ≡ ok tt) × IsConsistent (finish_execution k s).1
unfolding finish_execution resolve_async_waiter
finish_execution_lem k s v =
    let r = release-Released k s v in go (release_outstanding_slot k s) r.returns r.settled
  where
    go :
        (p : Outcome Unit × Scheduler)
        → p.0 ≡ ok tt
        → IsConsistent p.1
        → ((and_then p.0 (λ _. announce k) p.1).0 ≡ ok tt)
          × IsConsistent (and_then p.0 (λ _. announce k) p.1).1
    go (ok t, s') e c = (refl, c)
    go (raise x, s') e c = cc

try_finally-settles :
    (k : String) (body : Action Scheduler Unit) (s : Scheduler)
    → IsConsistentBut k (body s).1
    → IsConsistent (try_finally body (finish_execution k) s).1
unfolding try_finally
try_finally-settles k body s v = (finish_execution_lem k (body s).1 v).1

-- Where the books hold, and however an execution ends, with a result or with an exception, and
-- whatever the trace sinks raise: `_complete_task` keeps the books.
pub complete_task-IsConsistent :
    (k : String) (outcome : Outcome TaskResult) (now : Now) (s : Scheduler)
    → IsConsistent s
    → IsConsistent (complete_task k outcome now s).1
unfolding complete_task
complete_task-IsConsistent k outcome now s v =
    try_finally-settles k (settle (record_of k s) k outcome now) s
      (settle-But k (record_of k s) outcome now s v)

-- What is known behind a step that may raise: the books are settled, or only the slot of task `k`
-- is left, and that only behind an exception.
abbrev Left : String → Outcome Unit × Scheduler → Type 0
Left k (ok t, s) = IsConsistent s
Left k (raise e, s) = IsConsistent s ⊎ IsConsistentBut k s

fail_task-Left :
    (k : String) (exc : Exception) (now : Now) (s : Scheduler)
    → IsConsistent s
    → Left k (fail_task k exc now s)
unfolding fail_task
fail_task-Left k exc now s v =
    go (mark_failed (record_of k s) k exc now s) (mark_failed-But k (record_of k s) exc now s v)
  where
    settled : (p : Outcome Unit × Scheduler) → (p.0 ≡ ok tt) × IsConsistent p.1 → Left k p
    settled (ok t, s') h = h.1
    settled (raise e, s') h = cc (h.0)

    go :
        (p : Outcome Unit × Scheduler)
        → IsConsistentBut k p.1
        → Left k (and_then p.0 (λ _. finish_execution k) p.1)
    go (ok t, s') c = settled (finish_execution k s') (finish_execution_lem k s' c)
    go (raise e, s') c = inr c

follow-Left :
    (k : String) (reply : Reply) (now : Now) (s : Scheduler)
    → IsConsistent s
    → Left k (follow reply k now s)
unfolding follow done_callback
follow-Left k (refused exc) now s v = fail_task-Left k exc now s v
follow-Left k (finished outcome) now s v = complete_task-IsConsistent k outcome now s v
follow-Left k deferred now s v = v

start_task-Left :
    (strategy : Strategy) (r : TaskRecord) (k : String) (now : Now) (s : Scheduler)
    → record_of k s ≡ some r
    → is_terminal r.status ≡ false
    → IsConsistent s
    → Left k (start_task strategy r k now s)
unfolding start_task
start_task-Left strategy r k now s found open_task v = first (update k running_update now s) (
    update_live-Books k running_update now.utc now.ns s.backend s.outstanding_task_ids v r found
      open_task refl)
  where
    second :
        (p : Outcome Unit × Scheduler)
        → IsConsistent p.1
        → Left k (and_then p.0 (λ _. follow (strategy r.request) k now) p.1)
    second (ok t, s') c = follow-Left k (strategy r.request) now s' c
    second (raise e, s') c = inl c

    first :
        (p : Outcome TaskRecord × Scheduler)
        → IsConsistent p.1
        → Left k (
            and_then p.0
              (λ _. on_instrumentation (record_started k r.request now) >>= λ _.
                follow (strategy r.request) k now)
              p.1)
    first (ok t, s') c = second (on_instrumentation (record_started k r.request now) s') c
    first (raise e, s') c = inl c

pending_is_open : (r : TaskRecord) → is_pending r.status ≡ true → is_terminal r.status ≡ false
pending_is_open r h = ground arith

run_task-Left :
    (strategy : Strategy) (k : String) (now : Now) (s : Scheduler)
    → IsConsistent s
    → Left k (run_task strategy k now s)
unfolding run_task
run_task-Left strategy k now s v = elim (Option-cases (record_of k s)) [
  | inl absent ↦ rw (absent, run_task) v
  | inr (r, found) ↦ elim (Bool-cases (is_pending r.status)) [
    | inl waits ↦
        rw (found, run_task, waits)
          (start_task-Left strategy r k now s found (pending_is_open r waits) v)
    | inr started ↦ rw (found, run_task, started) v
  ]
]

-- A task that is not live has at most its slot left.
Books-But :
    (k : String) (s : Scheduler)
    → IsConsistent s
    → live_at k s.backend ≡ false
    → IsConsistentBut k s
Books-But k s v gone = record {
  valid = v.valid;
  unique = v.unique;
  slots_left = v.slots_left;
  ended = gone;
  others = λ j other. v.live j;
}

fail_unfinished-But :
    (o : Option TaskRecord) (k : String) (exc : Exception) (now : Now) (s : Scheduler)
    → record_of k s ≡ o
    → IsConsistent s ⊎ IsConsistentBut k s
    → IsConsistentBut k (fail_unfinished o k exc now s).1
unfolding fail_unfinished
fail_unfinished-But none k exc now s e (inl v) = Books-But k s v (rw e)
fail_unfinished-But none k exc now s e (inr v) = v
fail_unfinished-But (some r) k exc now s e v = elim (Bool-cases (is_terminal r.status)) [
  | inl over ↦ rw over (go over v)
  | inr open_task ↦ rw open_task (still_open open_task v)
]
  where
    go : is_terminal r.status ≡ true → IsConsistent s ⊎ IsConsistentBut k s → IsConsistentBut k s
    go over (inl c) = Books-But k s c (rw e (ground arith))
    go over (inr c) = c

    still_open :
        is_terminal r.status ≡ false
        → IsConsistent s ⊎ IsConsistentBut k s
        → IsConsistentBut k
            ((update k (failed_update internal_error (loop_failed exc)) now >>= λ _.
                on_instrumentation (record_failed k r.request internal_error (loop_failed exc) now))
              s).1
    still_open o (inr c) = absurd (ground (arith, c.ended))
    still_open o (inl c) =
        let u = failed_update internal_error (loop_failed exc) in
        let p = update k u now s in
        and_then-keeps (IsConsistentBut k) p.0
          (λ _. on_instrumentation (record_failed k r.request internal_error (loop_failed exc) now))
          p.1 (update_final-But k u now s refl c)
          (λ _.
            instrumented k (record_failed k r.request internal_error (loop_failed exc) now) p.1
              (update_final-But k u now s refl c))

swallowed :
    (k : String) (p : Outcome Unit × Scheduler)
    → IsConsistentBut k p.1
    → IsConsistentBut k (try_except (λ _. p) (λ _ s. (ok tt, s)) p.1).1
unfolding try_except
swallowed k (ok t, s) v = v
swallowed k (raise e, s) v = v

handle_task_failure-IsConsistent :
    (k : String) (exc : Exception) (now : Now) (s : Scheduler)
    → IsConsistent s ⊎ IsConsistentBut k s
    → IsConsistent (handle_task_failure k exc now s).1
unfolding handle_task_failure try_except
handle_task_failure-IsConsistent k exc now s v =
    let p = fail_unfinished (record_of k s) k exc now s in
    try_finally-settles k
      (try_except (fail_unfinished (record_of k s) k exc now) (λ _ s'. (ok tt, s'))) s
      (swallowed k p (fail_unfinished-But (record_of k s) k exc now s refl v))

-- Where the books hold, whatever happens to a task that a worker took, refusals and exceptions of
-- the strategy and of the trace sinks included, the worker's round keeps them.
pub work_on-IsConsistent :
    (strategy : Strategy) (k : String) (now : Now) (s : Scheduler)
    → IsConsistent s
    → IsConsistent (work_on strategy k now s).1
unfolding work_on try_except
work_on-IsConsistent strategy k now s v =
    go (run_task strategy k now s) (run_task-Left strategy k now s v)
  where
    go :
        (p : Outcome Unit × Scheduler)
        → Left k p
        → IsConsistent (try_except (λ _. p) (λ exc. handle_task_failure k exc now) s).1
    go (ok t, s') c = c
    go (raise e, s') c = handle_task_failure-IsConsistent k e now s' c
