-- ===== src/Backend/Invariant.antt =====
-- The fields of the backend agree with one another: what is terminal has a finish time, and
-- nothing else has.
use infly.Prelude.{
  ℕ, ◌<◌, Bool, true, false, ◌≡◌, refl, Option, none, some, String, List, [], ◌∷◌, arith,
}
use infly.Dict.{
  Dict, add, get, contains, IsUnique, get-insert, get-remove, insert-IsUnique, remove-IsUnique,
}
use infly.Core.Contracts.{TaskRecord, is_terminal}
use infly.Prelude.{Bool-cases, Option-cases, inl, inr, ◌==◌, subst, if◌then◌else◌}
use infly.Prelude.Exec.{ok, raise, pure, and_then}
use infly.Prelude.Int.{ℤ, pos, negsuc}
use infly.Core.Errors.{Outcome}
use infly.Backend.{
  Backend, Entry, terminal_record, Finish, Candidate, Update, init, submit, pull, pop_first, read,
  candidates, evict, drop_first, prune, updated_record, mark_finished, finish_task, finish_at,
  forget, mark_read, unfinish, store, update_status,
}

-- A predicate on what a call returns, if it returns.
abbrev OnOk : (Backend → Type 0) → Outcome Backend → Type 0
OnOk P (ok b) = P b
OnOk P (raise e) = Unit

-- Whether a task has a terminal record.
abbrev pub ends : Option TaskRecord → Bool
ends none = false
ends (some r) = is_terminal r.status

abbrev pub terminal_at : String → Dict TaskRecord → Bool
terminal_at k d = ends (get k d)

-- A record stands under its own task's id.
abbrev pub NamedBy : Option TaskRecord → String → Type 0
NamedBy none k = Unit {0}
NamedBy (some r) k = r.task_id ≡ k

abbrev pub FinishBelow : Option Finish → ℕ → Type 0
FinishBelow none n = Unit {0}
FinishBelow (some f) n = f.sequence < n

pub record BackendIsValid (b : Backend) : Type 0 where
  pub unique : IsUnique b.records
  pub named : (k : String) → NamedBy (get k b.records) k
  pub finished : (k : String) → contains k b.terminal_finished_at ≡ terminal_at k b.records
  pub read : (k : String) → contains k b.read_terminal_tasks ≡ true → terminal_at k b.records ≡ true
  pub sequences : (k : String) → FinishBelow (get k b.terminal_finished_at) b.terminal_sequence

pub forget-IsValid : (k : String) (b : Backend) → BackendIsValid b → BackendIsValid (forget k b)
forget-IsValid k b v = record {
  unique = remove-IsUnique k b.records v.unique;
  named = λ j. ground (arith, get-remove k j b.records, v.named j);
  finished = λ j.
      ground (arith, get-remove k j b.records, get-remove k j b.terminal_finished_at, v.finished j);
  read =
      λ j. ground (arith, get-remove k j b.records, get-remove k j b.read_terminal_tasks, v.read j);
  sequences = λ j. ground (arith, get-remove k j b.terminal_finished_at, v.sequences j);
}

-- Any run of the eviction loop, one that raises included, keeps the invariant.
pub evict-IsValid :
    (cs : List Candidate) (b : Backend) → BackendIsValid b → BackendIsValid (evict cs b).1
unfolding evict
evict-IsValid [] b v = v
evict-IsValid (c ∷ cs) b v =
    ground (arith, evict-IsValid cs (forget c.task_id b) (forget-IsValid c.task_id b v))

-- An empty backend is valid.
pub init-IsValid : (n : ℤ) {b : Backend} → init n ≡ ok b → BackendIsValid b
unfolding init get
init-IsValid (pos n) h =
    subst (λ (r : Outcome Backend). OnOk BackendIsValid r) h
      (record {
        unique = tt;
        named = λ k. tt;
        finished = λ k. refl;
        read = λ k e. cc;
        sequences = λ k. tt;
      })
init-IsValid (negsuc n) h = cc

pub submit-IsValid :
    (r : TaskRecord) (priority : ℤ) (b : Backend)
    → is_terminal r.status ≡ false
    → BackendIsValid b
    → BackendIsValid (submit r priority b).1
unfolding submit
submit-IsValid r priority b live v = elim (Bool-cases (contains r.task_id b.records)) [
  | inl old ↦ rw old v
  | inr new ↦ rw new (record {
    unique = insert-IsUnique r.task_id r b.records v.unique;
    named = λ j. ground (arith, get-insert r.task_id j r b.records, v.named j);
    finished = λ j. ground (arith, get-insert r.task_id j r b.records, v.finished j);
    read = λ j. ground (arith, get-insert r.task_id j r b.records, v.read j);
    sequences = v.sequences;
  })
]

-- The heap is no part of the invariant.
abbrev pub with_pending : List Entry → Backend → Backend
with_pending es b = record b { pending = es }

with_pending-IsValid :
    (es : List Entry) (b : Backend) → BackendIsValid b → BackendIsValid (with_pending es b)
with_pending-IsValid es b v = record {
  unique = v.unique;
  named = v.named;
  finished = v.finished;
  read = v.read;
  sequences = v.sequences;
}

pub pull-IsValid : (b : Backend) → BackendIsValid b → BackendIsValid (pull b).1
unfolding pull
pull-IsValid b v = go b.pending
  where
    go : (es : List Entry) → BackendIsValid (pop_first es b).1
    go [] = v
    go (e ∷ es) = with_pending-IsValid es b v

mark_read-IsValid :
    (k : String) (b : Backend)
    → terminal_at k b.records ≡ true
    → BackendIsValid b
    → BackendIsValid (record b { read_terminal_tasks = add k b.read_terminal_tasks })
mark_read-IsValid k b final v = record {
  unique = v.unique;
  named = v.named;
  finished = v.finished;
  read = λ j. ground (arith, get-insert k j tt b.read_terminal_tasks, v.read j);
  sequences = v.sequences;
}

pub terminal_record-ends :
    (o : Option TaskRecord) {r : TaskRecord}
    → terminal_record o ≡ some r
    → (o ≡ some r) × (ends o ≡ true)
terminal_record-ends none h = cc
terminal_record-ends (some q) h = ground arith

pub read-IsValid :
    (k : String) (consume : Bool) (b : Backend)
    → BackendIsValid b
    → BackendIsValid (read k consume b).1
unfolding read
read-IsValid k consume b v = elim (Option-cases (terminal_record (get k b.records))) [
  | inl absent ↦ rw (absent, read) v
  | inr (r, found) ↦ rw (found, read) (go consume (terminal_record-ends _ found).1)
]
  where
    go :
        (c : Bool)
        → terminal_at k b.records ≡ true
        → BackendIsValid (if c then forget k b else mark_read k b)
    go true final = forget-IsValid k b v
    go false final = mark_read-IsValid k b final v

drop_first-IsValid :
    (cs : Outcome (List Candidate)) (b : Backend)
    → BackendIsValid b
    → BackendIsValid (drop_first cs b).1
unfolding drop_first
drop_first-IsValid (raise e) b v = v
drop_first-IsValid (ok cs) b v = evict-IsValid _ b v

pub prune-IsValid : (b : Backend) → BackendIsValid b → BackendIsValid (prune b).1
unfolding prune
prune-IsValid b v = elim (Bool-cases (b.max_retained_terminal_tasks == 0)) [
  | inl unlimited ↦ rw unlimited v
  | inr limited ↦ rw limited (drop_first-IsValid (candidates b b.records) b v)
]

-- The state between the write of a terminal record and the pruning.
pub mark_finished-IsValid :
    (k : String) (u : TaskRecord) (ns : ℕ) (b : Backend)
    → BackendIsValid b
    → u.task_id ≡ k
    → is_terminal u.status ≡ true
    → BackendIsValid (mark_finished k ns (store k u b))
unfolding mark_finished
mark_finished-IsValid k u ns b v same final =
    elim (Bool-cases (contains k b.terminal_finished_at)) [
      | inl again ↦ rw again (record {
        unique = insert-IsUnique k u b.records v.unique;
        named = λ j. ground (arith, get-insert k j u b.records, v.named j);
        finished = λ j. ground (arith, get-insert k j u b.records, v.finished j);
        read = λ j. ground (arith, get-insert k j u b.records, v.read j);
        sequences = v.sequences;
      })
      | inr first ↦ rw first (record {
        unique = insert-IsUnique k u b.records v.unique;
        named = λ j. ground (arith, get-insert k j u b.records, v.named j);
        finished = λ j. ground (
          arith,
          get-insert k j u b.records,
          get-insert k j (finish_at ns b) b.terminal_finished_at,
          v.finished j,
        );
        read = λ j. ground (arith, get-insert k j u b.records, v.read j);
        sequences = λ j.
            ground (arith, get-insert k j (finish_at ns b) b.terminal_finished_at, v.sequences j);
      })
    ]

unfinish-IsValid :
    (k : String) (u : TaskRecord) (b : Backend)
    → BackendIsValid b
    → u.task_id ≡ k
    → is_terminal u.status ≡ false
    → BackendIsValid (unfinish k (store k u b))
unfinish-IsValid k u b v same live = record {
  unique = insert-IsUnique k u b.records v.unique;
  named = λ j. ground (arith, get-insert k j u b.records, v.named j);
  finished = λ j.
      ground
        (arith, get-insert k j u b.records, get-remove k j b.terminal_finished_at, v.finished j);
  read = λ j.
      ground (arith, get-insert k j u b.records, get-remove k j b.read_terminal_tasks, v.read j);
  sequences = λ j. ground (arith, get-remove k j b.terminal_finished_at, v.sequences j);
}

state_of_finish_task :
    (k : String) (ns : ℕ) (u : TaskRecord) (b : Backend)
    → (finish_task k ns u b).1 ≡ (prune (mark_finished k ns b)).1
unfolding finish_task
state_of_finish_task k ns u b = go (prune (mark_finished k ns b))
  where
    go : (p : Outcome Unit × Backend) → (and_then {B = TaskRecord} p.0 (λ _. pure u) p.1).1 ≡ p.1
    go (ok t, b') = refl
    go (raise e, b') = refl

-- Every call of `update_status`, one that raises included, keeps the invariant.
pub update_status-IsValid :
    (k : String) (u : Update) (utc ns : ℕ) (b : Backend)
    → BackendIsValid b
    → BackendIsValid (update_status k u utc ns b).1
unfolding update_status
update_status-IsValid k u utc ns b v = elim (Option-cases (get k b.records)) [
  | inl absent ↦ rw (absent, update_status) v
  | inr (r, found) ↦
      let updated = updated_record u utc r in
      let same : r.task_id ≡ k = ground (arith, v.named k) in
      elim (Bool-cases (is_terminal u.status)) [
        | inl final ↦
            rw (found, update_status, final, state_of_finish_task)
              (prune-IsValid _ (mark_finished-IsValid k updated ns b v same final))
        | inr live ↦ rw (found, update_status, live) (unfinish-IsValid k updated b v same live)
      ]
]
