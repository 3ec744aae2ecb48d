-- ===== src/Observability.antt =====
-- infly/runtime/observability.py: `RuntimeInstrumentation`, its counters, latencies and trace
-- events. Clock readings are arguments, in ticks: `perf` that of `time.perf_counter`, which never
-- goes back, so a latency is a natural number.
pub mod Counters
pub mod Percentiles
use infly.Prelude.{
  ℕ, zero, suc, ◌+◌, ◌-◌, ◌*◌, ◌/◌, ◌%◌, Bool, true, false, Option, none, some, String, List, [],
  ◌∷◌, ◌++◌, length, ltb, leb, ◌==◌, not, if◌then◌else◌,
}
use infly.Prelude.Exec.{ok, raise, pure, ◌>>=◌, ◌>>◌}
use infly.Prelude.Sort.{sorted}
use infly.Dict.{Dict, get, insert, remove}
use infly.Core.Errors.{ErrorCode, Exception, Action, code_value}
use infly.Core.Contracts.{Value, null, Mapping, TaskRequest, str}

pub data HealthStatus : Type 0 where
  healthy degraded down : HealthStatus

pub record StrategyHealthSnapshot : Type 0 where
  pub name : String
  pub status : HealthStatus
  pub accepting : Bool
  pub detail : Mapping

pub record TraceEvent : Type 0 where
  pub name : String
  pub timestamp : ℕ
  pub task_id : String
  pub handler_name : String
  pub trace_id : Option String
  pub metadata : Mapping
  pub duration_ms : Option ℕ
  pub error_code : Option String
  pub error_message : Option String

-- A sink is an object with an identity, and a call of it returns or raises.
pub record Sink : Type 0 where
  pub ident : ℕ
  pub call : TraceEvent → Option Exception

-- `delivered` is the list of the calls of sinks, oldest first: what the outside has seen.
pub record Instrumentation : Type 0 where
  pub submitted_total : ℕ
  pub started_total : ℕ
  pub completed_total : ℕ
  pub failed_total : ℕ
  pub inflight_tasks : ℕ
  pub submitted_at : Dict ℕ
  pub latency_ms : List ℕ
  pub last_latency_ms : Option ℕ
  pub trace_sinks : List Sink
  pub delivered : List (ℕ × TraceEvent)

abbrev pub init : Instrumentation
init = record {
  submitted_total = 0;
  started_total = 0;
  completed_total = 0;
  failed_total = 0;
  inflight_tasks = 0;
  submitted_at = [];
  latency_ms = [];
  last_latency_ms = none;
  trace_sinks = [];
  delivered = [];
}

-- The readings of the clocks during one call.
pub record Now : Type 0 where
  pub utc : ℕ
  pub ns : ℕ
  pub perf : ℕ

unfoldable pub add_trace_sink : Sink → Instrumentation → Instrumentation
add_trace_sink sink i = record i { trace_sinks = i.trace_sinks ++ sink ∷ [] }

without : ℕ → List Sink → List Sink
without ident [] = []
without ident (s ∷ ss) = let rest = without ident ss in if s.ident == ident then rest else s ∷ rest

unfoldable pub remove_trace_sink : Sink → Instrumentation → Instrumentation
unfolding without
remove_trace_sink sink i = record i { trace_sinks = without sink.ident i.trace_sinks }

-- The sinks are called in turn; one that raises ends the loop.
unfoldable pub emit_to : List Sink → TraceEvent → Action Instrumentation Unit
emit_to [] event i = (ok tt, i)
emit_to (s ∷ ss) event i =
    let i' : Instrumentation = record i { delivered = i.delivered ++ (s.ident, event) ∷ [] } in
    let rest = emit_to ss event i' in elim (s.call event) [ none ↦ rest | some e ↦ (raise e, i') ]

unfoldable pub emit : TraceEvent → Action Instrumentation Unit
unfolding emit_to
emit event i = emit_to i.trace_sinks event i

shown_unless_none : Option Value → Option String
unfolding str
shown_unless_none none = none
shown_unless_none (some null) = none
shown_unless_none (some v) = some (str v)

-- `_trace_id`
unfoldable pub trace_id : TaskRequest → Option String
unfolding shown_unless_none
trace_id request = shown_unless_none (get "trace_id" request.metadata)

-- A trace event of a task, with no duration and no error.
abbrev pub event_of : (name : String) (task_id : String) → TaskRequest → Now → TraceEvent
event_of name task_id request now = record {
  name = name;
  timestamp = now.utc;
  task_id = task_id;
  handler_name = request.handler_name;
  trace_id = trace_id request;
  metadata = request.metadata;
  duration_ms = none;
  error_code = none;
  error_message = none;
}

abbrev pub count_submitted : String → Now → Instrumentation → Instrumentation
count_submitted task_id now i = record i {
  submitted_total = i.submitted_total + 1;
  inflight_tasks = i.inflight_tasks + 1;
  submitted_at = insert task_id now.perf i.submitted_at;
}

abbrev pub count_started : Instrumentation → Instrumentation
count_started i = record i { started_total = i.started_total + 1 }

unfoldable pub record_submitted : String → TaskRequest → Now → Action Instrumentation Unit
unfolding emit
record_submitted task_id request now i =
    emit (event_of "task.submitted" task_id request now) (count_submitted task_id now i)

unfoldable pub record_started : String → TaskRequest → Now → Action Instrumentation Unit
unfolding emit
record_started task_id request now i =
    emit (event_of "task.started" task_id request now) (count_started i)

-- The counters that `_finish` changes on every path.
abbrev pub count_finish : String → (completed : Bool) → Instrumentation → Instrumentation
count_finish task_id completed i = record i {
  submitted_at = remove task_id i.submitted_at;
  inflight_tasks = if ltb 0 i.inflight_tasks then i.inflight_tasks - 1 else i.inflight_tasks;
  completed_total = if completed then i.completed_total + 1 else i.completed_total;
  failed_total = if completed then i.failed_total else i.failed_total + 1;
}

-- `_finish`: the duration, and the new state.
unfoldable pub finish :
    String → (completed : Bool) → Now → Instrumentation → Option ℕ × Instrumentation
finish task_id completed now i =
    let counted = count_finish task_id completed i in
    elim (get task_id i.submitted_at) [
      | none ↦ (none, counted)
      | some started_at ↦
          let duration = (now.perf - started_at) * 1000 in
          (
            some duration,
            record counted {
              last_latency_ms = some duration;
              latency_ms = i.latency_ms ++ duration ∷ [];
            },
          )
    ]

unfoldable pub record_completed : String → TaskRequest → Now → Action Instrumentation Unit
unfolding emit finish
record_completed task_id request now i =
    let (duration, i') = finish task_id true now i in
    emit (record (event_of "task.completed" task_id request now) { duration_ms = duration }) i'

unfoldable pub record_failed :
    String → TaskRequest → ErrorCode → (message : String) → Now → Action Instrumentation Unit
unfolding emit finish
record_failed task_id request code message now i =
    let (duration, i') = finish task_id false now i in
    emit
      (record (event_of "task.failed" task_id request now) {
        duration_ms = duration;
        error_code = some (code_value code);
        error_message = some message;
      })
      i'

-- `round(num / den)`: to the nearest number, and from halfway to the even one.
unfoldable pub round_ratio : (num den : ℕ) → ℕ
round_ratio num den =
    let down = num / den in
    let twice = 2 * (num % den) in
    if ltb twice den
    then down
    else if ltb den twice
    then down + 1
    else if down % 2 == 0
    then down
    else down + 1

abbrev pub get_elem? : List ℕ → ℕ → Option ℕ
get_elem? [] i = none
get_elem? (x ∷ xs) zero = some x
get_elem? (x ∷ xs) (suc i) = get_elem? xs i

-- `_percentile`, for the quantile `num / den`; an index that is out of range has no value.
unfoldable pub percentile : List ℕ → (num den : ℕ) → Option ℕ
unfolding round_ratio
percentile [] num den = none
percentile (x ∷ []) num den = some x
percentile (x ∷ y ∷ ys) num den =
    get_elem? (x ∷ y ∷ ys) (round_ratio ((length (x ∷ y ∷ ys) - 1) * num) den)

abbrev pub sum : List ℕ → ℕ
sum [] = 0
sum (x ∷ xs) = x + sum xs

-- `latencies[-1] if latencies else None`
abbrev pub last : List ℕ → Option ℕ
last [] = none
last (x ∷ []) = some x
last (x ∷ y ∷ ys) = last (y ∷ ys)

-- The mean is kept as its numerator over `latency_count`.
pub record RuntimeMetricsSnapshot : Type 0 where
  pub submitted_total : ℕ
  pub started_total : ℕ
  pub completed_total : ℕ
  pub failed_total : ℕ
  pub inflight_tasks : ℕ
  pub latency_count : ℕ
  pub last_latency_ms : Option ℕ
  pub latency_ms_sum : ℕ
  pub latency_ms_p50 : Option ℕ
  pub latency_ms_p95 : Option ℕ
  pub latency_ms_max : Option ℕ

unfoldable pub metrics_snapshot : Instrumentation → RuntimeMetricsSnapshot
unfolding sorted percentile
metrics_snapshot i =
    let latencies = sorted leb i.latency_ms in
    record {
      submitted_total = i.submitted_total;
      started_total = i.started_total;
      completed_total = i.completed_total;
      failed_total = i.failed_total;
      inflight_tasks = i.inflight_tasks;
      latency_count = length latencies;
      last_latency_ms = i.last_latency_ms;
      latency_ms_sum = sum latencies;
      latency_ms_p50 = percentile latencies 1 2;
      latency_ms_p95 = percentile latencies 19 20;
      latency_ms_max = last latencies;
    }
