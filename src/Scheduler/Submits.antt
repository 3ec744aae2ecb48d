-- ===== src/Scheduler/Submits.antt =====
-- `start` and `submit` keep the books.
use infly.Prelude.{
  ◌-◌, ◌<◌, ◌≡◌, refl, not, none, String, List, [], ◌∷◌, arith, is_some, ltb, if_ind,
}
use infly.Prelude.Exec.{ok, raise, and_then, ◌>>=◌}
use infly.Prelude.Int.{ℤ}
use infly.Dict.{get, add, insert, get-insert, insert-IsUnique, length-insert_new}
use infly.Core.Errors.{Outcome}
use infly.Core.Contracts.{TaskRecord, TaskRequest, new_record}
use infly.Backend
use infly.Backend.{Backend, Update, terminal_record, list_all}
use infly.Backend.Invariant.{submit-IsValid}
use infly.Observability.{Now, record_submitted}
use infly.Scheduler.State.{
  Scheduler, on_instrumentation, try_except, release_outstanding_slot, notify_waiters, record_of,
}
use infly.Scheduler.Lifecycle.{start, start_from}
use infly.Scheduler.Submission.{take_slot, store_task, accept, admit, submit}
use infly.Scheduler.Books.{IsConsistent, Books}

pub start-IsConsistent : (s : Scheduler) → IsConsistent s → IsConsistent (start s).1
unfolding start
start-IsConsistent s v =
    if_ind (λ (q : Outcome Unit × Scheduler). IsConsistent q.1) s.closed (λ _. v)
      (λ _. go s.threads)
  where
    go : (ts : List String) → IsConsistent (start_from ts s)
    go [] = v
    go (t ∷ ts) = v

-- A new record goes in under its task's id.
pub submit_new :
    (r : TaskRecord) (p : ℤ) (b : Backend)
    → get r.task_id b.records ≡ none
    → ((Backend.submit r p b).0 ≡ ok tt)
      × ((Backend.submit r p b).1.records ≡ insert r.task_id r b.records)
unfolding Backend.submit
submit_new r p b new = (rw new, rw new)

pub accepted-Books :
    (request : TaskRequest) (p : ℤ) (now : Now) (s : Scheduler)
    → record_of request.task_id s ≡ none
    → 0 < s.outstanding_slots
    → IsConsistent s
    → Books
        (Backend.submit (new_record request.task_id request now.utc) p s.backend).1
        (add request.task_id s.outstanding_task_ids)
        (s.outstanding_slots - 1)
        s.config.max_outstanding_tasks
accepted-Books request p now s new some_slot v =
    let r = new_record request.task_id request now.utc in
    let k = request.task_id in
    let absent : get k s.outstanding_task_ids ≡ none = ground (arith, v.live k) in
    let stored = (submit_new r p s.backend new).1 in
    record {
      valid = submit-IsValid r p s.backend refl v.valid;
      unique = insert-IsUnique k tt s.outstanding_task_ids v.unique;
      slots_left =
          omega (arith, v.slots_left, length-insert_new k tt s.outstanding_task_ids absent);
      live = λ j. ground (
        arith,
        v.live j,
        stored,
        get-insert k j tt s.outstanding_task_ids,
        get-insert k j r s.backend.records,
      );
    }

accept-IsConsistent :
    (request : TaskRequest) (p : ℤ) (now : Now) (s : Scheduler)
    → record_of request.task_id s ≡ none
    → 0 < s.outstanding_slots
    → IsConsistent s
    → IsConsistent (accept request p now s).1
unfolding accept store_task try_except
accept-IsConsistent request p now s new some_slot v =
    let r = new_record request.task_id request now.utc in
    go (Backend.submit r p s.backend) (submit_new r p s.backend new).0
      (accepted-Books request p now s new some_slot v)
  where
    after : Outcome Unit × Scheduler → Outcome String × Scheduler
    after q = and_then q.0 (λ _. notify_waiters >>= λ _ s'. (ok request.task_id, s')) q.1

    reported : (q : Outcome Unit × Scheduler) → IsConsistent q.1 → IsConsistent (after q).1
    reported (ok t, s') c = c
    reported (raise e, s') c = c

    go :
        (q : Outcome Unit × Backend)
        → q.0 ≡ ok tt
        → Books q.1
            (add request.task_id s.outstanding_task_ids)
            (s.outstanding_slots - 1)
            s.config.max_outstanding_tasks
        → IsConsistent
            (and_then
              (try_except
                (λ s'. (q.0, record s' { backend = q.1 }))
                (λ exc. release_outstanding_slot request.task_id >>= λ _ s'. (raise exc, s'))
                (take_slot request.task_id s)).0
              (λ _. on_instrumentation (record_submitted request.task_id request now) >>= λ _.
                notify_waiters >>= λ _ s'. (ok request.task_id, s'))
              (try_except
                (λ s'. (q.0, record s' { backend = q.1 }))
                (λ exc. release_outstanding_slot request.task_id >>= λ _ s'. (raise exc, s'))
                (take_slot request.task_id s)).1).1
    go (ok t, b) e c =
        reported
          (on_instrumentation (record_submitted request.task_id request now)
            (record (take_slot request.task_id s) { backend = b }))
          c
    go (raise x, b) e c = cc

admit-IsConsistent :
    (request : TaskRequest) (p : ℤ) (now : Now) (s : Scheduler)
    → IsConsistent s
    → IsConsistent (admit request p now s).1
unfolding admit
admit-IsConsistent request p now s v =
    if_ind Kept (not s.accepting) (λ _. v)
      λ _.
        if_ind Kept (is_some (record_of request.task_id s)) (λ _. v)
          λ new.
            if_ind Kept (ltb 0 s.outstanding_slots)
              (λ free. accept-IsConsistent request p now s (ground arith) (ground arith) v) (λ _. v)
  where
    Kept : Outcome String × Scheduler → Type 0
    Kept q = IsConsistent q.1

-- A call of `submit`, accepted or refused, keeps the books.
pub submit-IsConsistent :
    (request : TaskRequest) (p : ℤ) (now : Now) (s : Scheduler)
    → IsConsistent s
    → IsConsistent (submit request p now s).1
unfolding submit
submit-IsConsistent request p now s v = go (start s) (start-IsConsistent s v)
  where
    go :
        (q : Outcome Unit × Scheduler)
        → IsConsistent q.1
        → IsConsistent (and_then q.0 (λ _. admit request p now) q.1).1
    go (ok t, s') c = admit-IsConsistent request p now s' c
    go (raise e, s') c = c
