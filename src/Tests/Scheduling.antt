-- ===== src/Tests/Scheduling.antt =====
-- Two tasks and a scheduler with one slot, infly/runtime/scheduler.py.
use infly.Prelude.{◌≡◌, refl, true, false, none, some, String, [], arith, text_dec, length}
use infly.Prelude.Exec.{ok, raise}
use infly.Prelude.Int.{pos}
use infly.Dict.{get, insert, contains}
use infly.Core.Errors.{platform_error, other, worker_unavailable}
use infly.Core.Contracts.{TaskRequest, TaskResult, new_record, from_record}
use infly.Config.{SchedulerConfig}
use infly.Backend
use infly.Backend.{updated_record}
use infly.Backend.Updates.{NotAfter}
use infly.Observability
use infly.Observability.{Now, record_submitted, emit, emit_to}
use infly.Scheduler.State
use infly.Scheduler.State.{
  Scheduler, Strategy, Reply, refused, finished, deferred, with_backend, record_of,
  completed_update, try_except,
}
use infly.Scheduler.Execution.{complete_task, work_on}
use infly.Scheduler.Lifecycle.{start, start_from, stop}
use infly.Scheduler.Submission.{store_task, accept, admit, submit, limit_reached}
use infly.Scheduler.Query.{query}
use infly.Observability.{Sink, add_trace_sink}
use infly.Core.Errors.{value_error}
use infly.Scheduler.Books.{IsConsistent}
use infly.Scheduler.Steps.{complete_task-IsConsistent, work_on-IsConsistent}
use infly.Scheduler.Stops.{stop-IsConsistent}
use infly.Scheduler.Reach.{here, next, submits, adds_sink, Reach-IsConsistent}
use infly.Scheduler.Outcomes.{submit_overloaded, submit_accepted, query-complete_task}

abbrev config : SchedulerConfig
config = record { max_outstanding_tasks = 1; num_threads = 1; max_retained_terminal_tasks = 1 }

abbrev request : String → TaskRequest
request task_id = record { handler_name = "echo"; input = []; metadata = []; task_id = task_id }

abbrev result : TaskResult
result = record { task_id = "a"; output = []; diagnostics = [] }

abbrev now : Now
now = record { utc = 5; ns = 6; perf = 7 }

abbrev later : Now
later = record { utc = 8; ns = 9; perf = 10 }

abbrev empty : Scheduler
empty = record {
  config = config;
  backend = record {
    max_retained_terminal_tasks = 1;
    records = [];
    pending = [];
    terminal_finished_at = [];
    read_terminal_tasks = [];
    terminal_sequence = 0;
    sequence = 0;
  };
  instrumentation = Observability.init;
  outstanding_slots = 1;
  outstanding_task_ids = [];
  stop = false;
  threads = [];
  accepting = true;
  strategy_closed = false;
  closed = false;
  async_waiters = [];
  resolved = [];
  notified = 0;
}

init-empty : State.init config ≡ ok empty
unfolding State.init with_backend Backend.init
init-empty = refl

empty_new : record_of "a" empty ≡ none
unfolding get
empty_new = refl

abbrev busy : Scheduler
busy = (submit (request "a") (pos 3) now empty).1

empty-IsConsistent : IsConsistent empty
empty-IsConsistent = Reach-IsConsistent config init-empty here

busy-IsConsistent : IsConsistent busy
busy-IsConsistent =
    Reach-IsConsistent config init-empty (next here (submits (request "a") (pos 3) now empty))

-- What `submit` leaves behind.
busy_lem :
    (record_of "a" busy ≡ some (new_record "a" (request "a") 5))
    × (record_of "b" busy ≡ none)
    × (busy.closed ≡ false)
    × (busy.accepting ≡ true)
    × (length busy.outstanding_task_ids ≡ busy.config.max_outstanding_tasks)
    × (busy.backend.terminal_finished_at ≡ [])
unfolding submit start start_from admit accept store_task try_except get insert text_dec
    Backend.submit Backend.heappush record_submitted emit emit_to
busy_lem = (refl, refl, refl, refl, refl, refl)

abbrev broken_sink : Sink
broken_sink = record { ident = 1; call = λ event. some (value_error "disk full") }

abbrev observed : Scheduler
observed = record empty { instrumentation = add_trace_sink broken_sink empty.instrumentation }

-- The sink makes `submit` raise, and the task is outstanding all the same.
observed_lem :
    ((submit (request "a") (pos 3) now observed).0 ≡ raise (value_error "disk full"))
    × (length (submit (request "a") (pos 3) now observed).1.outstanding_task_ids ≡ 1)
unfolding submit start start_from admit accept store_task try_except get insert text_dec
    Backend.submit Backend.heappush record_submitted emit emit_to add_trace_sink
observed_lem = (refl, refl)

Reach-IsConsistent_example :
    IsConsistent (submit (request "b") (pos 1) now (submit (request "a") (pos 3) now observed).1).1
Reach-IsConsistent_example = Reach-IsConsistent config init-empty (
    next
      (next (next here (adds_sink broken_sink empty)) (submits (request "a") (pos 3) now observed))
      (submits (request "b") (pos 1) now (submit (request "a") (pos 3) now observed).1))

clock_lem : (k : String) → NotAfter (get k busy.backend.terminal_finished_at) 9
unfolding get
clock_lem k = rw busy_lem.5 tt

query-complete_task_example :
    (query "a" false none true [] (complete_task "a" (ok result) later busy).1).0
    ≡ some (
        ok (
          from_record
            (updated_record (completed_update result) 8 (new_record "a" (request "a") 5))))
query-complete_task_example =
    query-complete_task "a" result later busy (new_record "a" (request "a") 5) false true
      busy-IsConsistent busy_lem.0 refl clock_lem

submit_accepted_example :
    (record_of "a" busy ≡ some (new_record "a" (request "a") 5))
    × (contains "a" busy.outstanding_task_ids ≡ true)
submit_accepted_example =
    submit_accepted (request "a") (pos 3) now empty empty-IsConsistent refl refl empty_new
      (omega arith)

submit_overloaded_example : (submit (request "b") (pos 1) now busy).0 ≡ raise (limit_reached 1)
unfolding submit get Backend.submit record_submitted
submit_overloaded_example =
    submit_overloaded (request "b") (pos 1) now busy busy-IsConsistent busy_lem.2 busy_lem.3
      busy_lem.1 busy_lem.4

-- A strategy that refuses every task.
abbrev refusing : Strategy
refusing request = refused (platform_error worker_unavailable "gone")

work_on-IsConsistent_example : IsConsistent (work_on refusing "a" later busy).1
work_on-IsConsistent_example = work_on-IsConsistent refusing "a" later busy busy-IsConsistent

complete_task-IsConsistent_example :
    IsConsistent (complete_task "a" (raise (other "boom")) later busy).1
complete_task-IsConsistent_example =
    complete_task-IsConsistent "a" (raise (other "boom")) later busy busy-IsConsistent

stop-IsConsistent_example : IsConsistent (stop (pos 1) none (λ thread. false) later busy).1
stop-IsConsistent_example =
    stop-IsConsistent (pos 1) none (λ thread. false) later busy busy-IsConsistent

empty_clock : (k : String) → NotAfter (get k empty.backend.terminal_finished_at) 9
unfolding get
empty_clock k = tt
