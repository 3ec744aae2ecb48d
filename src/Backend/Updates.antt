-- ===== src/Backend/Updates.antt =====
-- `update_status` as a whole: what it returns, whom it leaves alone, and that a fresh result is
-- there to be read.
use infly.Prelude.{
  ℕ, ◌≤◌, ◌<◌, true, false, ◌≡◌, ◌≢◌, refl, ◌∙◌, Option, none, some, String, List, [], ◌∷◌, All,
  All-mono, arith, Bool-cases, inl, inr, ◌⊎◌, ◌==◌, length,
}
use infly.Prelude.Exec.{ok}
use infly.Dict.{get, contains, get-insert}
use infly.Core.Contracts.{TaskRecord, is_terminal}
use infly.Backend.{
  Backend, Finish, Candidate, Update, updated_record, mark_finished, finish_at, finish_task, store,
  unfinish, prune, update_status,
}
use infly.Backend.Invariant.{BackendIsValid, terminal_at, mark_finished-IsValid}
use infly.Backend.Retention.{count_terminal, Differ, IsKeyed}
use infly.Backend.Pruning.{GoesFirst, Pruned, prune-Pruned}

-- The clock that dates the ends of tasks has not gone back.
abbrev pub NotAfter : Option Finish → ℕ → Type 0
NotAfter none ns = Unit {0}
NotAfter (some f) ns = f.ns ≤ ns

-- The state that is pruned when a task ends.
abbrev pub ended : String → TaskRecord → ℕ → Backend → Backend
ended k u ns b = mark_finished k ns (store k u b)

-- A task that just ended, in a state where all others ended before.
record IsLatest (k : String) (s : Backend) (f : Finish) : Type 0 where
  own : get k s.terminal_finished_at ≡ some f
  unread : contains k s.read_terminal_tasks ≡ false
  others :
      (j : String) (g : Finish)
      → j ≢ k
      → get j s.terminal_finished_at ≡ some g
      → (g.ns ≤ f.ns) × (g.sequence < f.sequence)

latest_stays :
    (k : String) (s : Backend) (f : Finish)
    → IsLatest k s f
    → (c d : Candidate) → IsKeyed s s.records c
    → IsKeyed s s.records d
    → GoesFirst c d
    → Differ c d
    → c.task_id ≢ k
latest_stays k s f l c d ic id first apart = λ e.
    let other : d.task_id ≢ k = λ e'. apart (ground arith) in
    let mine : c.finish ≡ f = ground (arith, ic.finish, l.own) in
    let fresh : c.unread ≡ 1 = ground (arith, ic.unread, l.unread) in
    let at_most : d.unread ≤ 1 = ground (arith, id.unread) in
    let before = l.others d.task_id d.finish other id.finish in ground arith

not_dropped :
    (k : String) (s : Backend) (f : Finish)
    → IsLatest k s f
    → (d : Candidate) (ds cs : List Candidate) → IsKeyed s s.records d
    → All (IsKeyed s s.records) cs
    → All (λ c. All (GoesFirst c) (d ∷ ds)) cs
    → All (λ c. All (Differ c) (d ∷ ds)) cs
    → All (λ c. c.task_id ≢ k) cs
not_dropped k s f l d ds [] id ics first apart = tt
not_dropped k s f l d ds (c ∷ cs) id ics first apart = (
  latest_stays k s f l c d ics.0 id first.0.0 apart.0.0,
  not_dropped k s f l d ds cs id ics.1 first.1 apart.1,
)

-- Of a state with a limit, the latest task is never dropped.
latest_kept :
    (k : String) (s : Backend) (f : Finish)
    → (s.max_retained_terminal_tasks == 0) ≡ false
    → IsLatest k s f
    → Pruned s
    → get k (prune s).1.records ≡ get k s.records
latest_kept k s f limited l p =
    p.kept k (go p.left p.dropped p.needed p.left_keyed p.dropped_keyed p.order p.apart)
  where
    go :
        (left dropped : List Candidate)
        → (dropped ≡ []) ⊎ (length left ≡ s.max_retained_terminal_tasks)
        → All (IsKeyed s s.records) left
        → All (IsKeyed s s.records) dropped
        → All (λ c. All (GoesFirst c) left) dropped
        → All (λ c. All (Differ c) left) dropped
        → All (λ c. c.task_id ≢ k) dropped
    go left [] n il id o a = tt
    go [] (c ∷ cs) n il id o a = absurd (ground arith)
    go (d ∷ ds) (c ∷ cs) n il id o a = not_dropped k s f l d ds (c ∷ cs) il.0 id o a

-- A task with no terminal record is not among what is dropped.
live_kept :
    (j : String) (s : Backend)
    → terminal_at j s.records ≡ false
    → Pruned s
    → get j (prune s).1.records ≡ get j s.records
live_kept j s live p =
    p.kept j (
      All-mono (IsKeyed s s.records) _ (λ c i e. ground (arith, i.final)) p.dropped p.dropped_keyed)

finish_task_lem :
    (k : String) (ns : ℕ) (u : TaskRecord) (s : Backend)
    → (prune (mark_finished k ns s)).0 ≡ ok tt
    → finish_task k ns u s ≡ (ok u, (prune (mark_finished k ns s)).1)
unfolding finish_task
finish_task_lem k ns u s h = ground arith

prune_unlimited : (s : Backend) → (s.max_retained_terminal_tasks == 0) ≡ true → prune s ≡ (ok tt, s)
unfolding prune
prune_unlimited s h = rw h

-- Pruning a valid backend returns, whatever the limit.
pub prune_returns : (s : Backend) → BackendIsValid s → (prune s).0 ≡ ok tt
prune_returns s v = elim (Bool-cases (s.max_retained_terminal_tasks == 0)) [
  | inl unlimited ↦ rw (prune_unlimited s unlimited) refl
  | inr limited ↦ (prune-Pruned s v limited).returns
]

pub prune_keeps_live :
    (s : Backend) (j : String)
    → BackendIsValid s
    → terminal_at j s.records ≡ false
    → get j (prune s).1.records ≡ get j s.records
prune_keeps_live s j v live = elim (Bool-cases (s.max_retained_terminal_tasks == 0)) [
  | inl unlimited ↦ rw (prune_unlimited s unlimited) refl
  | inr limited ↦ live_kept j s live (prune-Pruned s v limited)
]

prune_keeps_latest :
    (s : Backend) (k : String) (f : Finish)
    → BackendIsValid s
    → IsLatest k s f
    → get k (prune s).1.records ≡ get k s.records
prune_keeps_latest s k f v l = elim (Bool-cases (s.max_retained_terminal_tasks == 0)) [
  | inl unlimited ↦ rw (prune_unlimited s unlimited) refl
  | inr limited ↦ latest_kept k s f limited l (prune-Pruned s v limited)
]

module _ (k : String) (u : Update) (utc ns : ℕ) (b : Backend) (r : TaskRecord)
    (v : BackendIsValid b) (found : get k b.records ≡ some r) where
  update_final :
      is_terminal u.status ≡ true
      → update_status k u utc ns b
        ≡ finish_task k ns (updated_record u utc r) (store k (updated_record u utc r) b)
  unfolding update_status
  update_final final = rw (found, update_status, final) refl

  ended_valid : is_terminal u.status ≡ true → BackendIsValid (ended k (updated_record u utc r) ns b)
  ended_valid final =
      mark_finished-IsValid k (updated_record u utc r) ns b v (ground (arith, v.named k)) final

  pub update_final_lem :
      is_terminal u.status ≡ true
      → update_status k u utc ns b
        ≡ (ok (updated_record u utc r), (prune (ended k (updated_record u utc r) ns b)).1)
  update_final_lem final =
      update_final final
      ∙ finish_task_lem k ns (updated_record u utc r) (store k (updated_record u utc r) b)
          (prune_returns _ (ended_valid final))

  pub update_live_lem :
      is_terminal u.status ≡ false
      → update_status k u utc ns b
        ≡ (ok (updated_record u utc r), unfinish k (store k (updated_record u utc r) b))
  unfolding update_status
  update_live_lem live = rw (found, update_status, live) refl

  -- On a task that exists `update_status` returns the record with the new status, and the request
  -- and the time of creation that it had.
  pub update_status_returns : (update_status k u utc ns b).0 ≡ ok (updated_record u utc r)
  update_status_returns = elim (Bool-cases (is_terminal u.status)) [
    | inl final ↦ rw (update_final_lem final) refl
    | inr live ↦ rw (update_live_lem live) refl
  ]

  pub ended_at :
      (j : String)
      → get j (ended k (updated_record u utc r) ns b).records
        ≡ get j (store k (updated_record u utc r) b).records
  unfolding mark_finished
  ended_at j = ground arith

  -- In a valid backend, no update of a task that has a record changes or drops another task that
  -- has not ended.
  pub update_status-other :
      (j : String)
      → j ≢ k
      → terminal_at j b.records ≡ false
      → get j (update_status k u utc ns b).1.records ≡ get j b.records
  update_status-other j other live = elim (Bool-cases (is_terminal u.status)) [
    | inl final ↦
        let same : get j (store k (updated_record u utc r) b).records ≡ get j b.records =
          ground (arith, get-insert k j (updated_record u utc r) b.records) in
        rw (update_final_lem final) (
          prune_keeps_live _ j (ended_valid final) (ground (arith, ended_at j, same))
          ∙ ended_at j
          ∙ same)
    | inr running ↦
        rw (update_live_lem running)
          (ground (arith, get-insert k j (updated_record u utc r) b.records))
  ]

  -- An update that does not end the task is what the next `get` returns.
  pub update_status_self_live :
      is_terminal u.status ≡ false
      → get k (update_status k u utc ns b).1.records ≡ some (updated_record u utc r)
  update_status_self_live live =
      rw (update_live_lem live) (ground (arith, get-insert k k (updated_record u utc r) b.records))

  ended-IsLatest :
      is_terminal r.status ≡ false
      → ((j : String) → NotAfter (get j b.terminal_finished_at) ns)
      → IsLatest k (ended k (updated_record u utc r) ns b) (finish_at ns b)
  unfolding mark_finished
  ended-IsLatest running clock =
      let new : contains k b.terminal_finished_at ≡ false = ground (arith, v.finished k) in
      rw new (record {
        own = ground (arith, get-insert k k (finish_at ns b) b.terminal_finished_at);
        unread = ground (arith, v.read k);
        others = λ j g other h.
            ground (
              arith,
              get-insert k j (finish_at ns b) b.terminal_finished_at,
              clock j,
              v.sequences j,
            );
      })

  -- In a valid backend, the update that ends a task with a live record is what the next `get`
  -- returns, also if it makes the backend drop records, while the clock has not gone back behind
  -- the end of any task.
  pub update_status_self_final :
      is_terminal u.status ≡ true
      → is_terminal r.status ≡ false
      → ((j : String) → NotAfter (get j b.terminal_finished_at) ns)
      → get k (update_status k u utc ns b).1.records ≡ some (updated_record u utc r)
  update_status_self_final final running clock = rw (update_final_lem final) (
      prune_keeps_latest _ k (finish_at ns b) (ended_valid final) (ended-IsLatest running clock)
      ∙ ended_at k
      ∙ ground (arith, get-insert k k (updated_record u utc r) b.records))

  limit-ended :
      (ended k (updated_record u utc r) ns b).max_retained_terminal_tasks
      ≡ b.max_retained_terminal_tasks
  unfolding mark_finished
  limit-ended = ground arith

  -- In a valid backend, after an update that ends a task that has a record, no more ended tasks are
  -- kept than a limit above 0 allows.
  pub update_status-le_limit :
      is_terminal u.status ≡ true
      → 0 < b.max_retained_terminal_tasks
      → count_terminal (update_status k u utc ns b).1.records ≤ b.max_retained_terminal_tasks
  update_status-le_limit final some_limit =
      let e = ended k (updated_record u utc r) ns b in
      let limited : (e.max_retained_terminal_tasks == 0) ≡ false = ground (arith, limit-ended) in
      rw (update_final_lem final)
        (omega (arith, limit-ended, (prune-Pruned e (ended_valid final) limited).bounded))
