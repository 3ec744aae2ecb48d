-- ===== src/Tests/Queueing.antt =====
-- Small states of infly/runtime/task_backend.py, config.py, registry.py and observability.py.
use infly.Prelude.{
  ℕ, ◌≤◌, ◌≡◌, ◌≢◌, ◌↔◌, ◌⊎◌, refl, ap, true, false, none, some, String, [], ◌∷◌, arith, text_dec,
  ite,
}
use infly.Prelude.Exec.{ok}
use infly.Prelude.Int.{pos}
use infly.Prelude.Text.{is_blank}
use infly.Dict.{get, insert}
use infly.Core.Contracts.{TaskRequest, TaskResult, TaskRecord, new_record}
use infly.Config
use infly.Config.{
  SafetyArguments, policy, WorkerSafetyPolicy, GroupArguments, WorkerGroup, SafetyArgument,
  has_duplicates, make_group, coerce_safety, any_blank,
}
use infly.Config.Laws.{IsDistinct, has_duplicates-IsDistinct, GroupIsValid, make_group-IsValid}
use infly.Backend
use infly.Backend.{Backend, Entry, Update, updated_record, update_status}
use infly.Backend.Queue.{
  QueueIsValid, Position, Pulled, entry_of, submit-Position, submit-QueueIsValid, pull_lem,
}
use infly.Backend.Invariant.{BackendIsValid, terminal_at, init-IsValid, submit-IsValid}
use infly.Backend.Retention.{count_terminal}
use infly.Backend.Updates.{
  NotAfter, update_status_self_final, update_status-other, update_status-le_limit,
}
use infly.Observability
use infly.Observability.{Instrumentation, Now, metrics_snapshot, record_submitted, record_completed}
use infly.Observability.Counters.{
  IsBalanced, record_submitted-IsBalanced, record_completed-IsBalanced,
}
use infly.Observability.Percentiles.{metrics_snapshot_ordered}
use infly.Scheduler.State.{completed_update}
use infly.Handlers.{HandlerDefinition}

abbrev request : TaskRequest
request = record { handler_name = "echo"; input = []; metadata = []; task_id = "" }

abbrev result : TaskResult
result = record { task_id = "a"; output = []; diagnostics = [] }

abbrev empty : Backend
empty = record {
  max_retained_terminal_tasks = 1;
  records = [];
  pending = [];
  terminal_finished_at = [];
  read_terminal_tasks = [];
  terminal_sequence = 0;
  sequence = 0;
}

abbrev of_task : String → TaskRecord
of_task task_id = new_record task_id request 2

abbrev one : Backend
one = (Backend.submit (of_task "a") (pos 3) empty).1

abbrev two : Backend
two = (Backend.submit (of_task "b") (pos 5) one).1

empty-IsValid : BackendIsValid empty
unfolding Backend.init
empty-IsValid = init-IsValid (pos 1) refl

two-IsValid : BackendIsValid two
two-IsValid =
    submit-IsValid (of_task "b") (pos 5) one refl
      (submit-IsValid (of_task "a") (pos 3) empty refl empty-IsValid)

two_lem :
    (get "a" two.records ≡ some (of_task "a"))
    × (terminal_at "b" two.records ≡ false)
    × (two.terminal_finished_at ≡ [])
    × (two.max_retained_terminal_tasks ≡ 1)
unfolding Backend.submit Backend.heappush get insert text_dec
two_lem = (refl, refl, refl, refl)

one-QueueIsValid : QueueIsValid one
one-QueueIsValid =
    submit-QueueIsValid (of_task "a") (pos 3) empty (record { ordered = tt; fresh = tt })

one_new : get "b" one.records ≡ none
unfolding Backend.submit get insert text_dec
one_new = refl

submit-Position_example : Position (entry_of (of_task "b") (pos 5) one) one.pending two.pending
submit-Position_example = submit-Position (of_task "b") (pos 5) one one-QueueIsValid one_new

pull_lem_example : ((one.pending ≡ []) × (Backend.pull one ≡ (none, one))) ⊎ Pulled one
pull_lem_example = pull_lem one one-QueueIsValid

clock_lem : (k : String) → NotAfter (get k two.terminal_finished_at) 9
unfolding get
clock_lem k = rw two_lem.2 tt

update_status_self_final_example :
    get "a" (update_status "a" (completed_update result) 8 9 two).1.records
    ≡ some (updated_record (completed_update result) 8 (of_task "a"))
update_status_self_final_example =
    update_status_self_final "a" (completed_update result) 8 9 two (of_task "a") two-IsValid
      two_lem.0 refl refl clock_lem

b_other : ◌≢◌ {A = String} "b" "a"
unfolding text_dec
b_other = λ e.
    let apart : false ≡ true = ap (λ (s : String). ite (text_dec s "a") true false) e in
    ground arith

update_status-other_example :
    get "b" (update_status "a" (completed_update result) 8 9 two).1.records ≡ get "b" two.records
update_status-other_example =
    update_status-other "a" (completed_update result) 8 9 two (of_task "a") two-IsValid two_lem.0
      "b" b_other two_lem.1

update_status-le_limit_example :
    count_terminal (update_status "a" (completed_update result) 8 9 two).1.records
    ≤ two.max_retained_terminal_tasks
update_status-le_limit_example =
    update_status-le_limit "a" (completed_update result) 8 9 two (of_task "a") two-IsValid two_lem.0
      refl (omega (arith, two_lem.3))

abbrev now : Now
now = record { utc = 5; ns = 6; perf = 7 }

fresh-IsBalanced : IsBalanced Observability.init
fresh-IsBalanced = record { unique = tt; inflight = refl; total = refl; measured = refl }

abbrev counted : Instrumentation
counted = (record_submitted "a" request now Observability.init).1

fresh_new : get {V = ℕ} "a" [] ≡ none
unfolding get
fresh_new = refl

record_submitted-IsBalanced_example : IsBalanced counted
record_submitted-IsBalanced_example =
    record_submitted-IsBalanced "a" request now Observability.init fresh_new fresh-IsBalanced

counted-IsBalanced : IsBalanced counted
counted-IsBalanced =
    record_submitted-IsBalanced "a" request now Observability.init fresh_new fresh-IsBalanced

counted_lem : get "a" counted.submitted_at ≡ some 7
unfolding get insert text_dec record_submitted Observability.emit Observability.emit_to
counted_lem = refl

record_completed-IsBalanced_example : IsBalanced (record_completed "a" request now counted).1
record_completed-IsBalanced_example =
    record_completed-IsBalanced "a" request now counted counted_lem counted-IsBalanced

abbrev measured : Instrumentation
measured = record Observability.init { latency_ms = 30 ∷ 10 ∷ 20 ∷ [] }

metrics_snapshot_ordered_example :
    (a : ℕ) × (b : ℕ) × (c : ℕ) × ((metrics_snapshot measured).latency_ms_p50 ≡ some a)
    × ((metrics_snapshot measured).latency_ms_p95 ≡ some b)
    × ((metrics_snapshot measured).latency_ms_max ≡ some c)
    × (a ≤ b)
    × (b ≤ c)
metrics_snapshot_ordered_example = metrics_snapshot_ordered measured (omega arith)

has_duplicates-IsDistinct_example :
    (has_duplicates ("a" ∷ "b" ∷ []) ≡ false) ↔ IsDistinct ("a" ∷ "b" ∷ [])
has_duplicates-IsDistinct_example = has_duplicates-IsDistinct ("a" ∷ "b" ∷ [])

abbrev strict : WorkerSafetyPolicy
strict = record {
  mode = "shutdown";
  restart_limit = 3;
  restart_window = 60000;
  restart_backoff = 1000;
}

abbrev group_arguments : GroupArguments
group_arguments = record {
  name = "cpu";
  process_count = pos 2;
  handlers = "echo" ∷ [];
  environment = [];
  safety = policy strict;
}

abbrev group : WorkerGroup
group = record {
  name = "cpu";
  process_count = 2;
  handlers = "echo" ∷ [];
  environment = [];
  safety = strict;
}

group_made : make_group group_arguments ≡ ok group
unfolding make_group any_blank is_blank has_duplicates get insert text_dec
group_made = refl

make_group-IsValid_example :
    GroupIsValid group × (group.name ≡ "cpu") × (group.handlers ≡ "echo" ∷ [])
unfolding Config.is_mode text_dec
make_group-IsValid_example =
    make_group-IsValid group_arguments (record { known_mode = refl; some_window = omega arith })
      group_made

abbrev echo : HandlerDefinition
echo = record {
  handler_name = "echo";
  entrypoint = "demo:Echo";
  init_context = [];
  init_kwargs = [];
  metadata = [];
  reuse_mode = "worker_cached";
}
