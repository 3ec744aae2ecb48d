-- ===== src/Scheduler/Outcomes.antt =====
-- What a client sees: which submissions are accepted, and that a result is delivered.
use infly.Prelude.{
  ◌<◌, ◌≡◌, refl, ap, ◌∙◌, Bool, true, false, Option, none, some, String, List, [], ◌∷◌, arith,
  length, if_ind,
}
use infly.Prelude.Exec.{ok, raise, and_then}
use infly.Prelude.Int.{ℤ}
use infly.Dict.{get, contains, get-insert}
use infly.Core.Errors.{Outcome}
use infly.Core.Contracts.{TaskRecord, TaskRequest, TaskResult, from_record, new_record, is_terminal}
use infly.Config.{SchedulerConfig}
use infly.Backend
use infly.Backend.{Backend, updated_record, terminal_record}
use infly.Backend.Updates.{NotAfter, update_status_self_final}
use infly.Observability.{Now}
use infly.Scheduler.State.{
  Scheduler, try_except, try_finally, completed_update, update, release_outstanding_slot,
  finish_execution, record_of,
}
use infly.Scheduler.Execution.{report_completed, settle, complete_task}
use infly.Scheduler.Lifecycle.{start, start_from}
use infly.Scheduler.Submission.{store_task, accept, admit, submit, limit_reached}
use infly.Scheduler.Query.{read_terminal_response, query}
use infly.Scheduler.Steps.{announce}
use infly.Scheduler.Books.{IsConsistent}
use infly.Scheduler.Submits.{submit_new}

start_open : (s : Scheduler) → s.closed ≡ false → start s ≡ (ok tt, start_from s.threads s)
unfolding start
start_open s h =
    if_ind (λ (q : Outcome Unit × Scheduler). q ≡ (ok tt, start_from s.threads s)) s.closed
      (λ e. cc) (λ e. refl)

-- `start` changes the threads only.
abbrev pub SameTasks : Scheduler → Scheduler → Type 0
SameTasks s t =
    (t.backend ≡ s.backend)
    × (t.accepting ≡ s.accepting)
    × (t.outstanding_slots ≡ s.outstanding_slots)
    × (t.outstanding_task_ids ≡ s.outstanding_task_ids)
    × (t.config ≡ s.config)

pub start_from-SameTasks : (ts : List String) (s : Scheduler) → SameTasks s (start_from ts s)
unfolding start_from
start_from-SameTasks [] s = (refl, refl, refl, refl, refl)
start_from-SameTasks (t ∷ ts) s = (refl, refl, refl, refl, refl)

pub submit_open :
    (request : TaskRequest) (p : ℤ) (now : Now) (s : Scheduler)
    → s.closed ≡ false
    → submit request p now s ≡ admit request p now (start_from s.threads s)
unfolding submit
submit_open request p now s h = rw (start_open s h) refl

admit_full :
    (request : TaskRequest) (p : ℤ) (now : Now) (s : Scheduler)
    → s.accepting ≡ true
    → record_of request.task_id s ≡ none
    → s.outstanding_slots ≡ 0
    → (admit request p now s).0 ≡ raise (limit_reached s.config.max_outstanding_tasks)
unfolding admit
admit_full request p now s takes new full = ground arith

-- While the books hold and the scheduler is neither closed nor refusing submissions, a task with no
-- record is refused as an overload when as many tasks are outstanding as the limit allows.
pub submit_overloaded :
    (request : TaskRequest) (p : ℤ) (now : Now) (s : Scheduler)
    → IsConsistent s
    → s.closed ≡ false
    → s.accepting ≡ true
    → record_of request.task_id s ≡ none
    → length s.outstanding_task_ids ≡ s.config.max_outstanding_tasks
    → (submit request p now s).0 ≡ raise (limit_reached s.config.max_outstanding_tasks)
submit_overloaded request p now s v is_open takes new full =
    let s' = start_from s.threads s in
    let same = start_from-SameTasks s.threads s in
    ap (λ (q : Outcome String × Scheduler). q.0) (submit_open request p now s is_open)
    ∙ admit_full request p now s' (same.1 ∙ takes)
        (ap (λ (b : Backend). get request.task_id b.records) same.0 ∙ new)
        (same.2 ∙ omega (arith, v.slots_left))
    ∙ ap (λ (c : SchedulerConfig). raise (limit_reached c.max_outstanding_tasks)) same.4

accepted_record :
    (request : TaskRequest) (p : ℤ) (now : Now) (s : Scheduler)
    → s.accepting ≡ true
    → record_of request.task_id s ≡ none
    → 0 < s.outstanding_slots
    → (record_of request.task_id (admit request p now s).1
        ≡ some (new_record request.task_id request now.utc))
      × (contains request.task_id (admit request p now s).1.outstanding_task_ids ≡ true)
unfolding admit accept store_task try_except
accepted_record request p now s takes new free =
    let r = new_record request.task_id request now.utc in
    let put = submit_new r p s.backend new in
    let set = get-insert request.task_id request.task_id r s.backend.records in
    let mark = get-insert request.task_id request.task_id tt s.outstanding_task_ids in ground arith

-- While the books hold and the scheduler is neither closed nor refusing submissions, a task with no
-- record is, if fewer tasks are outstanding than the limit allows, pending in the backend behind
-- `submit`, and outstanding, also if a trace sink raised.
pub submit_accepted :
    (request : TaskRequest) (p : ℤ) (now : Now) (s : Scheduler)
    → IsConsistent s
    → s.closed ≡ false
    → s.accepting ≡ true
    → record_of request.task_id s ≡ none
    → length s.outstanding_task_ids < s.config.max_outstanding_tasks
    → (record_of request.task_id (submit request p now s).1
        ≡ some (new_record request.task_id request now.utc))
      × (contains request.task_id (submit request p now s).1.outstanding_task_ids ≡ true)
submit_accepted request p now s v is_open takes new free =
    let s' = start_from s.threads s in
    let same = start_from-SameTasks s.threads s in
    let room : 0 < s'.outstanding_slots = omega (arith, v.slots_left, same.2) in
    let new' : record_of request.task_id s' ≡ none =
      ap (λ (b : Backend). get request.task_id b.records) same.0 ∙ new in
    rw (submit_open request p now s is_open)
      (accepted_record request p now s' (same.1 ∙ takes) new' room)

-- The backend as `_finish_execution` and the reports leave it.
report_completed_backend :
    (o : Option TaskRecord) (k : String) (now : Now) (s : Scheduler)
    → (report_completed o k now s).1.backend ≡ s.backend
unfolding report_completed
report_completed_backend none k now s = refl
report_completed_backend (some r) k now s = refl

release_backend :
    (k : String) (s : Scheduler) → (release_outstanding_slot k s).1.backend ≡ s.backend
unfolding release_outstanding_slot
release_backend k s = ground arith

finish_backend : (k : String) (s : Scheduler) → (finish_execution k s).1.backend ≡ s.backend
unfolding finish_execution
finish_backend k s = go (release_outstanding_slot k s) ∙ release_backend k s
  where
    go :
        (q : Outcome Unit × Scheduler)
        → (and_then q.0 (λ _. announce k) q.1).1.backend ≡ q.1.backend
    go (ok t, s') = refl
    go (raise e, s') = refl

settle_backend :
    (o : Option TaskRecord) (k : String) (result : TaskResult) (now : Now) (s : Scheduler)
    → (settle o k (ok result) now s).1.backend
      ≡ (Backend.update_status k (completed_update result) now.utc now.ns s.backend).1
unfolding settle
settle_backend o k result now s = go (update k (completed_update result) now s)
  where
    go :
        (q : Outcome TaskRecord × Scheduler)
        → (and_then q.0 (λ _. report_completed o k now) q.1).1.backend ≡ q.1.backend
    go (ok r, s') = report_completed_backend o k now s'
    go (raise e, s') = refl

complete_backend :
    (k : String) (result : TaskResult) (now : Now) (s : Scheduler)
    → (complete_task k (ok result) now s).1.backend
      ≡ (Backend.update_status k (completed_update result) now.utc now.ns s.backend).1
unfolding complete_task try_finally
complete_backend k result now s =
    finish_backend k (settle (record_of k s) k (ok result) now s).1
    ∙ settle_backend (record_of k s) k result now s

query_terminal :
    (k : String) (waits consume : Bool) (s : Scheduler) (r : TaskRecord)
    → record_of k s ≡ some r
    → is_terminal r.status ≡ true
    → (query k waits none consume [] s).0 ≡ some (ok (from_record r))
unfolding query read_terminal_response Backend.read
query_terminal k waits consume s r found over = ground arith

-- The record of a live task behind its completion.
pub complete_task-record_of :
    (k : String) (result : TaskResult) (now : Now) (s : Scheduler) (r : TaskRecord)
    → IsConsistent s
    → record_of k s ≡ some r
    → is_terminal r.status ≡ false
    → ((j : String) → NotAfter (get j s.backend.terminal_finished_at) now.ns)
    → record_of k (complete_task k (ok result) now s).1
      ≡ some (updated_record (completed_update result) now.utc r)
complete_task-record_of k result now s r v found live clock =
    ap (λ (b : Backend). get k b.records) (complete_backend k result now s)
    ∙ update_status_self_final k (completed_update result) now.utc now.ns s.backend r v.valid found
        refl live clock

-- While the books hold, a result of a live task is delivered: right behind `_complete_task` a query of the task answers
-- with the status COMPLETED and that result, whatever else was dropped to make room, while the
-- clock has not gone back behind the end of any task.
pub query-complete_task :
    (k : String) (result : TaskResult) (now : Now) (s : Scheduler) (r : TaskRecord)
    (waits consume : Bool)
    → IsConsistent s
    → record_of k s ≡ some r
    → is_terminal r.status ≡ false
    → ((j : String) → NotAfter (get j s.backend.terminal_finished_at) now.ns)
    → (query k waits none consume [] (complete_task k (ok result) now s).1).0
      ≡ some (ok (from_record (updated_record (completed_update result) now.utc r)))
query-complete_task k result now s r waits consume v found live clock =
    query_terminal k waits consume (complete_task k (ok result) now s).1
      (updated_record (completed_update result) now.utc r)
      (complete_task-record_of k result now s r v found live clock) refl
