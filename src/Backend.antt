-- ===== src/Backend.antt =====
-- infly/runtime/task_backend.py: `InMemoryTaskBackend`. A method is an action on the object's
-- fields; its lock makes it one step. Clock readings are arguments: `utc` that of the calendar and
-- `ns` that of `time.monotonic_ns`. A record is never changed in place, so a deep copy is the
-- record itself.
pub mod Queue
pub mod Invariant
pub mod Retention
pub mod Pruning
pub mod Updates
use infly.Prelude.{
  ℕ, zero, suc, ◌+◌, ◌-◌, Bool, true, false, Option, none, some, String, List, [], ◌∷◌, map, length,
  take, ltb, leb, ◌==◌, is_some, if◌then◌else◌,
}
use infly.Prelude.Exec.{ok, raise, pure, throw, lift, and_then, ◌>>=◌, ◌>>◌}
use infly.Prelude.Int.{ℤ, pos, negsuc, negate, ltb_ℤ, eqb_ℤ}
use infly.Prelude.Sort.{sorted}
use infly.Prelude.Text.{◌⊕◌}
use infly.Dict.{Dict, Names, get, insert, remove, contains, values, add}
use infly.Core.Errors.{ErrorCode, Exception, value_error, key_error, Outcome, Action}
use infly.Core.Contracts.{TaskRecord, TaskResult, TaskStatus, is_terminal}

-- An entry `(-priority, sequence, task_id)` of the heap.
pub record Entry : Type 0 where
  pub neg_priority : ℤ
  pub sequence : ℕ
  pub task_id : String

-- The order of the tuples. The sequence numbers differ, so the texts are never compared.
unfoldable pub precedes : Entry → Entry → Bool
precedes a b =
    if ltb_ℤ a.neg_priority b.neg_priority
    then true
    else if eqb_ℤ a.neg_priority b.neg_priority
    then ltb a.sequence b.sequence
    else false

-- `heapq.heappush` on the heap's entries in their order; `heapq.heappop` takes the first.
unfoldable pub heappush : Entry → List Entry → List Entry
unfolding precedes
heappush e [] = e ∷ []
heappush e (x ∷ xs) = if precedes e x then e ∷ x ∷ xs else x ∷ heappush e xs

-- A pair `(time.monotonic_ns(), terminal_sequence)`.
pub record Finish : Type 0 where
  pub ns : ℕ
  pub sequence : ℕ

pub record Backend : Type 0 where
  pub max_retained_terminal_tasks : ℕ
  pub records : Dict TaskRecord
  pub pending : List Entry
  pub terminal_finished_at : Dict Finish
  pub read_terminal_tasks : Names
  pub terminal_sequence : ℕ
  pub sequence : ℕ

unfoldable pub init : ℤ → Outcome Backend
init (negsuc _) = raise (value_error "max_retained_terminal_tasks must be non-negative")
init (pos n) = ok (record {
  max_retained_terminal_tasks = n;
  records = [];
  pending = [];
  terminal_finished_at = [];
  read_terminal_tasks = [];
  terminal_sequence = 0;
  sequence = 0;
})

unfoldable pub submit : TaskRecord → (priority : ℤ) → Action Backend Unit
unfolding heappush
submit r priority b =
    if contains r.task_id b.records
    then (raise (value_error ("Task '" ⊕ r.task_id ⊕ "' already exists.")), b)
    else (
      ok tt,
      record b {
        records = insert r.task_id r b.records;
        pending =
            heappush
              (record {
                neg_priority = negate priority;
                sequence = b.sequence;
                task_id = r.task_id;
              })
              b.pending;
        sequence = b.sequence + 1;
      },
    )

unfoldable pub pop_first : List Entry → Backend → Option String × Backend
pop_first [] b = (none, b)
pop_first (e ∷ rest) b = (some e.task_id, record b { pending = rest })

unfoldable pub pull : Backend → Option String × Backend
unfolding pop_first
pull b = pop_first b.pending b

-- `get(task_id)`; with `copy` or without.
abbrev pub lookup : String → Backend → Option TaskRecord
lookup task_id b = get task_id b.records

-- The terminal record of a task, if it has one.
abbrev pub terminal_record : Option TaskRecord → Option TaskRecord
terminal_record none = none
terminal_record (some r) = if is_terminal r.status then some r else none

-- A task and what is known of its end are taken out.
abbrev pub forget : String → Backend → Backend
forget task_id b = record b {
  records = remove task_id b.records;
  terminal_finished_at = remove task_id b.terminal_finished_at;
  read_terminal_tasks = remove task_id b.read_terminal_tasks;
}

-- A task that was read goes first when records are dropped.
abbrev pub mark_read : String → Backend → Backend
mark_read task_id b = record b { read_terminal_tasks = add task_id b.read_terminal_tasks }

unfoldable pub read : String → (consume : Bool) → Backend → Option TaskRecord × Backend
read task_id consume b = elim (terminal_record (get task_id b.records)) [
  | none ↦ (none, b)
  | some r ↦ (some r, if consume then forget task_id b else mark_read task_id b)
]

-- What pruning sorts: a terminal task with its key. `unread` is 0 for a task that was read.
pub record Candidate : Type 0 where
  pub task_id : String
  pub unread : ℕ
  pub finish : Finish

unfoldable pub finish_le : Finish → Finish → Bool
finish_le a b =
    if ltb a.ns b.ns then true else if a.ns == b.ns then leb a.sequence b.sequence else false

-- The order of the keys `(unread, finished_at)`.
unfoldable pub candidate_le : Candidate → Candidate → Bool
unfolding finish_le
candidate_le a b =
    if ltb a.unread b.unread
    then true
    else if a.unread == b.unread
    then finish_le a.finish b.finish
    else false

-- One more candidate; a key that is missing is a `KeyError`.
unfoldable pub keyed :
    String → (was_read : Bool) → Option Finish → Outcome (List Candidate) → Outcome (List Candidate)
keyed id was_read none rest = raise (key_error id)
keyed id was_read (some f) (raise e) = raise e
keyed id was_read (some f) (ok cs) =
    ok (record { task_id = id; unread = if was_read then 0 else 1; finish = f } ∷ cs)

-- The terminal tasks among some records, with their keys.
unfoldable pub candidates : Backend → Dict TaskRecord → Outcome (List Candidate)
unfolding keyed
candidates b [] = ok []
candidates b ((k, r) ∷ rs) =
    let rest = candidates b rs in
    if is_terminal r.status
    then keyed k (contains k b.read_terminal_tasks) (get k b.terminal_finished_at) rest
    else rest

-- The loop that drops records; `self._records.pop` of a key that is missing is a `KeyError`.
unfoldable pub evict : List Candidate → Action Backend Unit
evict [] b = (ok tt, b)
evict (c ∷ cs) b =
    let rest = evict cs (forget c.task_id b) in
    if contains c.task_id b.records then rest else (raise (key_error c.task_id), b)

-- `xs[:-limit]`, for a limit above 0.
abbrev pub all_but_last : ℕ → List Candidate → List Candidate
all_but_last limit xs = take (length xs - limit) xs

-- Sorts the terminal tasks and drops the first of them.
unfoldable pub drop_first : Outcome (List Candidate) → Action Backend Unit
unfolding evict sorted candidate_le
drop_first (raise e) b = (raise e, b)
drop_first (ok cs) b = evict (all_but_last b.max_retained_terminal_tasks (sorted candidate_le cs)) b

-- `_prune_terminal_records_locked`
unfoldable pub prune : Action Backend Unit
unfolding candidates drop_first
prune b =
    if b.max_retained_terminal_tasks == 0 then (ok tt, b) else drop_first (candidates b b.records) b

-- What `update_status` is told.
pub record Update : Type 0 where
  pub status : TaskStatus
  pub result : Option TaskResult
  pub error_code : Option ErrorCode
  pub error_message : Option String

abbrev pub updated_record : Update → ℕ → TaskRecord → TaskRecord
updated_record u utc r = record {
  task_id = r.task_id;
  request = r.request;
  status = u.status;
  result = u.result;
  error_code = u.error_code;
  error_message = u.error_message;
  created_at = r.created_at;
  updated_at = utc;
}

abbrev pub finish_at : (ns : ℕ) → Backend → Finish
finish_at ns b = record { ns = ns; sequence = b.terminal_sequence }

-- The time at which a task first became terminal is kept.
unfoldable pub mark_finished : String → (ns : ℕ) → Backend → Backend
mark_finished task_id ns b = if contains task_id b.terminal_finished_at then b else record b {
  terminal_finished_at = insert task_id (finish_at ns b) b.terminal_finished_at;
  terminal_sequence = b.terminal_sequence + 1;
}

-- The end of a task is noted, and old records are dropped.
unfoldable pub finish_task : String → (ns : ℕ) → TaskRecord → Action Backend TaskRecord
unfolding mark_finished prune
finish_task task_id ns updated = λ b. (do prune; pure updated) (mark_finished task_id ns b)

-- What is known of the end of a task that is not terminal is dropped.
abbrev pub unfinish : String → Backend → Backend
unfinish task_id b = record b {
  terminal_finished_at = remove task_id b.terminal_finished_at;
  read_terminal_tasks = remove task_id b.read_terminal_tasks;
}

abbrev pub store : String → TaskRecord → Backend → Backend
store task_id updated b = record b { records = insert task_id updated b.records }

unfoldable pub update_status : String → Update → (utc ns : ℕ) → Action Backend TaskRecord
unfolding finish_task
update_status task_id u utc ns b = elim (get task_id b.records) [
  | none ↦ (raise (key_error task_id), b)
  | some r ↦
      let updated = updated_record u utc r in
      let stored = store task_id updated b in
      if is_terminal u.status
      then finish_task task_id ns updated stored
      else (ok updated, unfinish task_id stored)
]

abbrev pub list_all : Backend → List TaskRecord
list_all b = values b.records
