-- ===== src/Scheduler/Stops.antt =====
-- `stop` and the last worker's exit keep the books.
use infly.Prelude.{
  ℕ, ◌≡◌, refl, inl, inr, Bool, true, false, ◌&&◌, Option, none, some, String, List, [], ◌∷◌,
  Bool-cases, Option-cases,
}
use infly.Prelude.Exec.{ok, raise, and_then, ◌>>=◌}
use infly.Prelude.Int.{ℤ, pos, negsuc}
use infly.Dict.{get}
use infly.Core.Errors.{Exception, Outcome, Action, worker_unavailable, key_error}
use infly.Core.Contracts.{TaskRecord, is_terminal}
use infly.Backend
use infly.Backend.{Backend, Update, terminal_record, list_all}
use infly.Backend.Updates.{update_status_returns}
use infly.Observability.{Now}
use infly.Scheduler.State.{
  Scheduler, failed_update, update, release_outstanding_slot, resolve_async_waiter, notify_waiters,
  record_of,
}
use infly.Scheduler.Lifecycle.{
  fail_each, fail_pending_tasks, notify_if_any, pending_records, stopped_message, close_strategy,
  join_threads, fail_if_none, stop, worker_exited, remove_thread, is_last,
}
use infly.Scheduler.Books.{IsConsistent, IsConsistentBut, release-Released}
use infly.Scheduler.Steps.{update_final-But}

-- What is left by an update that ends a task: it raises only where the task is unknown.
abbrev Ended : String → Outcome TaskRecord × Scheduler → Type 0
Ended k (ok r, s) = IsConsistentBut k s
Ended k (raise e, s) = IsConsistent s

update_absent :
    (k : String) (u : Update) (utc ns : ℕ) (b : Backend)
    → get k b.records ≡ none
    → Backend.update_status k u utc ns b ≡ (raise (key_error k), b)
unfolding Backend.update_status
update_absent k u utc ns b absent = rw (absent, Backend.update_status)

update-Ended :
    (k : String) (u : Update) (now : Now) (s : Scheduler)
    → is_terminal u.status ≡ true
    → IsConsistent s
    → Ended k (update k u now s)
update-Ended k u now s final v = elim (Option-cases (record_of k s)) [
  | inl absent ↦ rw (update_absent k u now.utc now.ns s.backend absent) v
  | inr (r, found) ↦
      go (Backend.update_status k u now.utc now.ns s.backend)
        (update_status_returns k u now.utc now.ns s.backend r v.valid found)
        (update_final-But k u now s final v)
]
  where
    go :
        {x : TaskRecord} (q : Outcome TaskRecord × Backend)
        → q.0 ≡ ok x
        → IsConsistentBut k (record s { backend = q.1 })
        → Ended k (q.0, record s { backend = q.1 })
    go (ok y, b) e c = c
    go (raise x, b) e c = cc

fail_each-IsConsistent :
    (rs : List TaskRecord) (now : Now) (s : Scheduler)
    → IsConsistent s
    → IsConsistent (fail_each rs now s).1
unfolding fail_each
fail_each-IsConsistent [] now s v = v
fail_each-IsConsistent (r ∷ rs) now s v =
    go (fail_each rs now) (fail_each-IsConsistent rs now)
      (update r.task_id (failed_update worker_unavailable stopped_message) now s)
      (update-Ended r.task_id (failed_update worker_unavailable stopped_message) now s refl v)
  where
    released :
        (rest : Action Scheduler Unit)
        → ((s' : Scheduler) → IsConsistent s' → IsConsistent (rest s').1)
        → (q : Outcome Unit × Scheduler) → IsConsistent q.1
        → IsConsistent (and_then q.0 (λ _. resolve_async_waiter r.task_id >>= λ _. rest) q.1).1
    released rest keeps (ok t, s') c = keeps (resolve_async_waiter r.task_id s').1 c
    released rest keeps (raise e, s') c = c

    go :
        (rest : Action Scheduler Unit)
        → ((s' : Scheduler) → IsConsistent s' → IsConsistent (rest s').1)
        → (q : Outcome TaskRecord × Scheduler) → Ended r.task_id q
        → IsConsistent
            (and_then q.0
              (λ _. release_outstanding_slot r.task_id >>= λ _.
                resolve_async_waiter r.task_id >>= λ _. rest)
              q.1).1
    go rest keeps (ok x, s') c =
        released rest keeps (release_outstanding_slot r.task_id s')
          (release-Released r.task_id s' c).settled
    go rest keeps (raise e, s') c = c

fail_pending-IsConsistent :
    (now : Now) (s : Scheduler) → IsConsistent s → IsConsistent (fail_pending_tasks now s).1
unfolding fail_pending_tasks notify_if_any
fail_pending-IsConsistent now s v =
    let rs = pending_records s.outstanding_task_ids (list_all s.backend) in
    go rs (fail_each rs now s) (fail_each-IsConsistent rs now s v)
  where
    go :
        (rs : List TaskRecord) (q : Outcome Unit × Scheduler)
        → IsConsistent q.1
        → IsConsistent (and_then q.0 (λ _. notify_if_any rs) q.1).1
    go [] (ok t, s') c = c
    go (r ∷ rs) (ok t, s') c = c
    go rs (raise e, s') c = c

-- Where the books hold, every call of `stop` keeps them, whatever closing the strategy raises and whichever threads
-- outlive the join.
pub stop-IsConsistent :
    (timeout : ℤ) (closing : Option Exception) (alive : String → Bool) (now : Now) (s : Scheduler)
    → IsConsistent s
    → IsConsistent (stop timeout closing alive now s).1
unfolding stop
stop-IsConsistent (negsuc n) closing alive now s v = v
stop-IsConsistent (pos n) closing alive now s v = go closing
  where
    stopping : Scheduler
    stopping = record s { stop = true; accepting = false; closed = true }

    left :
        (ts : List String) (s' : Scheduler)
        → IsConsistent s'
        → IsConsistent (fail_if_none ts now s').1
    left [] s' c = fail_pending-IsConsistent now s' c
    left (t ∷ ts) s' c = c

    joined :
        (q : Outcome Unit × Scheduler)
        → IsConsistent q.1
        → IsConsistent
            (and_then q.0
              (λ _. notify_waiters >>= λ _ s'.
                fail_if_none (join_threads alive s').threads now (join_threads alive s'))
              q.1).1
    joined (ok t, s') c = let t' = join_threads alive (notify_waiters s').1 in left t'.threads t' c
    joined (raise e, s') c = c

    go : (c : Option Exception) → IsConsistent (stop (pos n) c alive now s).1
    go none = joined (close_strategy none stopping) v
    go (some e) = joined (close_strategy (some e) stopping) (closed s.strategy_closed refl)
      where
        closed :
            (b : Bool) → s.strategy_closed ≡ b → IsConsistent (close_strategy (some e) stopping).1
        closed true eq = rw eq v
        closed false eq = rw eq v

pub worker_exited-IsConsistent :
    (alive : String → Bool) (thread : String) (now : Now) (s : Scheduler)
    → IsConsistent s
    → IsConsistent (worker_exited alive thread now s).1
unfolding worker_exited
worker_exited-IsConsistent alive thread now s v =
    elim (Bool-cases (s.stop && is_last alive thread s.threads)) [
      | inl last ↦ rw last (go (fail_pending_tasks now s) (fail_pending-IsConsistent now s v))
      | inr more ↦ rw more v
    ]
  where
    go :
        (q : Outcome Unit × Scheduler)
        → IsConsistent q.1
        → IsConsistent
            (and_then {B = Unit {0}} q.0
              (λ _ s'. (ok tt, record s' { threads = remove_thread thread s'.threads }))
              q.1).1
    go (ok t, s') c = c
    go (raise e, s') c = c
