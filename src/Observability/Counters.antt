-- ===== src/Observability/Counters.antt =====
-- The counters of `RuntimeInstrumentation` balance, whatever the trace sinks do.
use infly.Prelude.{
  ℕ, ◌+◌, ◌-◌, ◌≡◌, refl, Bool, true, false, none, some, String, List, [], ◌∷◌, arith, ap, sym,
  length-append, ◌++◌, ◌*◌, Option-cases, inl, inr, length,
}
use infly.Dict.{
  Dict, get, IsUnique, insert-IsUnique, remove-IsUnique, length-insert_new, length-remove,
}
use infly.Core.Errors.{ErrorCode}
use infly.Core.Contracts.{TaskRequest}
use infly.Observability.{
  Instrumentation, Sink, Now, TraceEvent, event_of, count_submitted, count_started, emit, emit_to,
  finish, record_submitted, record_started, record_completed, record_failed,
}

-- All fields but the calls of sinks.
abbrev pub SameCounters : Instrumentation → Instrumentation → Type 0
SameCounters i j =
    (i.submitted_total ≡ j.submitted_total)
    × (i.started_total ≡ j.started_total)
    × (i.completed_total ≡ j.completed_total)
    × (i.failed_total ≡ j.failed_total)
    × (i.inflight_tasks ≡ j.inflight_tasks)
    × (i.submitted_at ≡ j.submitted_at)
    × (i.latency_ms ≡ j.latency_ms)

emit_to-SameCounters :
    (ss : List Sink) (event : TraceEvent) (i : Instrumentation)
    → SameCounters (emit_to ss event i).1 i
unfolding emit_to
emit_to-SameCounters [] event i = (refl, refl, refl, refl, refl, refl, refl)
emit_to-SameCounters (s ∷ ss) event i = elim (Option-cases (s.call event)) [
  | inl fine ↦ rw (fine, emit_to) (emit_to-SameCounters ss event _)
  | inr (e, broken) ↦ rw (broken, emit_to) (refl, refl, refl, refl, refl, refl, refl)
]

emit-SameCounters : (event : TraceEvent) (i : Instrumentation) → SameCounters (emit event i).1 i
unfolding emit
emit-SameCounters event i = emit_to-SameCounters i.trace_sinks event i

-- Every task that was submitted is in flight or has ended, once; those in flight are the ones
-- whose start is known; there is a latency for each end.
pub record IsBalanced (i : Instrumentation) : Type 0 where
  pub unique : IsUnique i.submitted_at
  pub inflight : i.inflight_tasks ≡ length i.submitted_at
  pub total : i.submitted_total ≡ i.inflight_tasks + i.completed_total + i.failed_total
  pub measured : length i.latency_ms ≡ i.completed_total + i.failed_total

IsBalanced-SameCounters : (i j : Instrumentation) → SameCounters j i → IsBalanced i → IsBalanced j
IsBalanced-SameCounters i j (a, b, c, d, e, f, g) v = record {
  unique = rw f v.unique;
  inflight = cc (v.inflight, ap (λ (x : Dict ℕ). length x) f);
  total = omega arith;
  measured = cc (v.measured, ap (λ (x : List ℕ). length x) g, c, d);
}

emit-IsBalanced :
    (event : TraceEvent) (i : Instrumentation) → IsBalanced i → IsBalanced (emit event i).1
emit-IsBalanced event i = IsBalanced-SameCounters i (emit event i).1 (emit-SameCounters event i)

-- The submission of a task that is not in flight keeps balanced counters balanced, whatever the
-- trace sinks raise.
pub record_submitted-IsBalanced :
    (task_id : String) (request : TaskRequest) (now : Now) (i : Instrumentation)
    → get task_id i.submitted_at ≡ none
    → IsBalanced i
    → IsBalanced (record_submitted task_id request now i).1
unfolding record_submitted
record_submitted-IsBalanced task_id request now i new v =
    emit-IsBalanced (event_of "task.submitted" task_id request now) (count_submitted task_id now i)
      (record {
        unique = insert-IsUnique task_id now.perf i.submitted_at v.unique;
        inflight = omega (arith, v.inflight, length-insert_new task_id now.perf i.submitted_at new);
        total = omega (arith, v.total);
        measured = v.measured;
      })

pub record_started-IsBalanced :
    (task_id : String) (request : TaskRequest) (now : Now) (i : Instrumentation)
    → IsBalanced i
    → IsBalanced (record_started task_id request now i).1
unfolding record_started
record_started-IsBalanced task_id request now i v =
    emit-IsBalanced (event_of "task.started" task_id request now) (count_started i)
      (record { unique = v.unique; inflight = v.inflight; total = v.total; measured = v.measured })

length-snoc : (xs : List ℕ) (x : ℕ) → length (xs ++ x ∷ []) ≡ length xs + 1
length-snoc xs x = omega (arith, length-append {0} xs (x ∷ []))

finish-IsBalanced :
    (task_id : String) (completed : Bool) (now : Now) (i : Instrumentation) {t : ℕ}
    → get task_id i.submitted_at ≡ some t
    → IsBalanced i
    → IsBalanced (finish task_id completed now i).1
unfolding finish
finish-IsBalanced task_id completed now i {t} known v =
    let shorter = length-remove task_id t i.submitted_at v.unique known in
    let inflight : length i.submitted_at ≡ i.inflight_tasks = sym v.inflight in
    rw (known, finish)
      (record {
        unique = remove-IsUnique task_id i.submitted_at v.unique;
        inflight = ground (arith, shorter, v.inflight);
        total = ground (arith, shorter, v.inflight, v.total);
        measured = ground (arith, v.measured, length-snoc i.latency_ms ((now.perf - t) * 1000));
      })

-- The completion of a task in flight keeps balanced counters balanced, whatever the trace sinks
-- raise.
pub record_completed-IsBalanced :
    (task_id : String) (request : TaskRequest) (now : Now) (i : Instrumentation) {t : ℕ}
    → get task_id i.submitted_at ≡ some t
    → IsBalanced i
    → IsBalanced (record_completed task_id request now i).1
unfolding record_completed
record_completed-IsBalanced task_id request now i known v =
    emit-IsBalanced _ _ (finish-IsBalanced task_id true now i known v)

pub record_failed-IsBalanced :
    (task_id : String) (request : TaskRequest) (code : ErrorCode) (message : String) (now : Now)
    (i : Instrumentation) {t : ℕ}
    → get task_id i.submitted_at ≡ some t
    → IsBalanced i
    → IsBalanced (record_failed task_id request code message now i).1
unfolding record_failed
record_failed-IsBalanced task_id request code message now i known v =
    emit-IsBalanced _ _ (finish-IsBalanced task_id false now i known v)
