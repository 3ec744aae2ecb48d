-- ===== src/Scheduler/Reach.antt =====
-- The books hold in every state that the methods reach, in whatever order threads call them.
use infly.Prelude.{
  ◌≤◌, ◌≡◌, refl, sym, ◌∙◌, inl, inr, Bool, true, false, Option, none, some, String, List, [], ◌∷◌,
  arith, length, Option-cases, subst, if_ind, if◌then◌else◌,
}
use infly.Prelude.Exec.{ok, raise}
use infly.Prelude.Int.{ℤ, pos}
use infly.Dict.{get, get-remove}
use infly.Core.Errors.{Exception, Outcome}
use infly.Core.Contracts.{TaskRecord, TaskRequest, TaskResult}
use infly.Config.{SchedulerConfig}
use infly.Backend
use infly.Backend.{Backend, Update, terminal_record, list_all, Entry, pop_first}
use infly.Backend.Invariant.{
  terminal_at, terminal_record-ends, init-IsValid, pull-IsValid, read-IsValid,
}
use infly.Observability.{Now, Sink, add_trace_sink, remove_trace_sink}
use infly.Scheduler.State.{Scheduler, Strategy, init}
use infly.Scheduler.Execution.{complete_task, work_on, pull_task}
use infly.Scheduler.Lifecycle.{start, stop, worker_exited}
use infly.Scheduler.Submission.{submit}
use infly.Scheduler.Query.{respond, read_terminal_response}
use infly.Scheduler.Submits.{start-IsConsistent, submit-IsConsistent}
use infly.Scheduler.Stops.{stop-IsConsistent, worker_exited-IsConsistent}
use infly.Scheduler.Books.{IsConsistent, live_at}
use infly.Scheduler.Steps.{complete_task-IsConsistent, work_on-IsConsistent}

-- Reading changes no record that is not terminal.
read_live :
    (k : String) (consume : Bool) (b : Backend) (j : String)
    → live_at j (Backend.read k consume b).1 ≡ live_at j b
unfolding Backend.read
read_live k consume b j = elim (Option-cases (terminal_record (get k b.records))) [
  | inl absent ↦ rw (absent, Backend.read)
  | inr (r, found) ↦
      rw (found, Backend.read) (go (terminal_record-ends (get k b.records) found).1 consume)
]
  where
    go :
        terminal_at k b.records ≡ true
        → (c : Bool)
        → live_at j (if c then Backend.forget k b else Backend.mark_read k b) ≡ live_at j b
    go over true = ground (arith, get-remove k j b.records)
    go over false = refl

read-IsConsistent :
    (k : String) (consume : Bool) (s : Scheduler)
    → IsConsistent s
    → IsConsistent (read_terminal_response k consume s).1
unfolding read_terminal_response
read-IsConsistent k consume s v = go (Backend.read k consume s.backend) (record {
  valid = read-IsValid k consume s.backend v.valid;
  unique = v.unique;
  slots_left = v.slots_left;
  live = λ j. v.live j ∙ sym (read_live k consume s.backend j);
})
  where
    go :
        (q : Option TaskRecord × Backend)
        → IsConsistent (record s { backend = q.1 })
        → IsConsistent (respond k q s).1
    go (none, b) c = c
    go (some r, b) c = c

pull_records : (b : Backend) → (Backend.pull b).1.records ≡ b.records
unfolding Backend.pull
pull_records b = go b.pending
  where
    go : (es : List Entry) → (Backend.pop_first es b).1.records ≡ b.records
    go [] = refl
    go (e ∷ es) = refl

pull-IsConsistent : (s : Scheduler) → IsConsistent s → IsConsistent (pull_task s).1
unfolding pull_task
pull-IsConsistent s v =
    if_ind (λ (q : Option String × Scheduler). IsConsistent q.1) s.stop (λ _. v)
      λ _. record {
        valid = pull-IsValid s.backend v.valid;
        unique = v.unique;
        slots_left = v.slots_left;
        live = λ j. ground (arith, v.live j, pull_records s.backend);
      }

-- One call of a method by some thread: by a client, on the scheduler or on the trace sinks of its
-- instrumentation, by a worker with the task that it pulled, by
-- the strategy as it completes a future, or by a worker as it exits.
pub data Step : Scheduler → Scheduler → Type 0 where
  starts : (s : Scheduler) → Step s (start s).1
  submits :
      (request : TaskRequest) (priority : ℤ) (now : Now) (s : Scheduler)
      → Step s (submit request priority now s).1
  pulls : (s : Scheduler) → Step s (pull_task s).1
  works :
      (strategy : Strategy) (k : String) (now : Now) (s : Scheduler)
      → Step s (work_on strategy k now s).1
  completes :
      (k : String) (outcome : Outcome TaskResult) (now : Now) (s : Scheduler)
      → Step s (complete_task k outcome now s).1
  reads :
      (k : String) (consume : Bool) (s : Scheduler) → Step s (read_terminal_response k consume s).1
  stops :
      (timeout : ℤ) (closing : Option Exception) (alive : String → Bool) (now : Now) (s : Scheduler)
      → Step s (stop timeout closing alive now s).1
  adds_sink :
      (sink : Sink) (s : Scheduler)
      → Step s (record s { instrumentation = add_trace_sink sink s.instrumentation })
  removes_sink :
      (sink : Sink) (s : Scheduler)
      → Step s (record s { instrumentation = remove_trace_sink sink s.instrumentation })
  exits :
      (alive : String → Bool) (thread : String) (now : Now) (s : Scheduler)
      → Step s (worker_exited alive thread now s).1

-- Any calls, in any order.
pub data Reach (s : Scheduler) : Scheduler → Type 0 where
  here : Reach s s
  next : {t u : Scheduler} → Reach s t → Step t u → Reach s u

pub Step-IsConsistent : {s t : Scheduler} → Step s t → IsConsistent s → IsConsistent t
Step-IsConsistent (starts s) v = start-IsConsistent s v
Step-IsConsistent (submits request priority now s) v = submit-IsConsistent request priority now s v
Step-IsConsistent (pulls s) v = pull-IsConsistent s v
Step-IsConsistent (works strategy k now s) v = work_on-IsConsistent strategy k now s v
Step-IsConsistent (completes k outcome now s) v = complete_task-IsConsistent k outcome now s v
Step-IsConsistent (reads k consume s) v = read-IsConsistent k consume s v
Step-IsConsistent (stops timeout closing alive now s) v =
    stop-IsConsistent timeout closing alive now s v
Step-IsConsistent (adds_sink sink s) v = v
Step-IsConsistent (removes_sink sink s) v = v
Step-IsConsistent (exits alive thread now s) v = worker_exited-IsConsistent alive thread now s v

abbrev Made : Outcome Scheduler → Type 0
Made (ok s) = IsConsistent s
Made (raise e) = Unit {0}

init-Made : (config : SchedulerConfig) → Made (init config)
unfolding init get Backend.init
init-Made config = record {
  valid = init-IsValid (pos config.max_retained_terminal_tasks) refl;
  unique = tt;
  slots_left = omega arith;
  live = λ k. refl;
}

init-IsConsistent : (config : SchedulerConfig) {s : Scheduler} → init config ≡ ok s → IsConsistent s
init-IsConsistent config h = subst Made h (init-Made config)

-- In every state that calls of the methods reach from a new scheduler, with trace sinks added and
-- removed in between, in any order and with any exceptions of the strategy, the handlers and the
-- trace sinks: a task is outstanding exactly
-- while it has a record that is not terminal, and the free slots of the semaphore and the
-- outstanding tasks add up to the limit.
pub Reach-IsConsistent :
    (config : SchedulerConfig) {s t : Scheduler} → init config ≡ ok s → Reach s t → IsConsistent t
Reach-IsConsistent config h here = init-IsConsistent config h
Reach-IsConsistent config h (next r step) = Step-IsConsistent step (Reach-IsConsistent config h r)

-- So no more tasks are outstanding than the limit allows.
pub Reach-le_max :
    (config : SchedulerConfig) {s t : Scheduler}
    → init config ≡ ok s
    → Reach s t
    → length t.outstanding_task_ids ≤ t.config.max_outstanding_tasks
Reach-le_max config h r = omega (arith, (Reach-IsConsistent config h r).slots_left)
