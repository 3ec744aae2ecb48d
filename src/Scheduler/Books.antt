-- ===== src/Scheduler/Books.antt =====
-- The books of the scheduler: the semaphore, the outstanding tasks and the backend agree.
use infly.Prelude.{
  ℕ, ◌+◌, ◌≡◌, ◌≢◌, refl, sym, ap, ◌∙◌, ◌⊎◌, inl, inr, Bool, true, false, not, Option, none, some,
  String, List, [], ◌∷◌, arith, length, ltb, ◌==◌, Bool-cases, Option-cases,
}
use infly.Prelude.Exec.{ok, raise}
use infly.Dict.{
  Names, get, contains, IsUnique, get-insert, get-remove, remove-IsUnique, length-remove,
}
use infly.Core.Errors.{Outcome}
use infly.Core.Contracts.{TaskRecord, is_terminal}
use infly.Backend.{
  Backend, Candidate, Update, evict, forget, drop_first, candidates, prune, updated_record,
  update_status,
}
use infly.Backend.Invariant.{BackendIsValid, terminal_at, update_status-IsValid}
use infly.Backend.Updates.{update_status-other, ended, ended_at, update_final_lem, update_live_lem}
use infly.Scheduler.State.{Scheduler, release_outstanding_slot}

-- Whether a task has a record that is not terminal.
abbrev pub lives : Option TaskRecord → Bool
lives none = false
lives (some r) = not (is_terminal r.status)

abbrev pub live_at : String → Backend → Bool
live_at k b = lives (get k b.records)

-- The outstanding tasks are exactly those with a record that is not terminal, and each has taken
-- one slot of the semaphore.
pub record Books (b : Backend) (ids : Names) (slots max : ℕ) : Type 0 where
  pub valid : BackendIsValid b
  pub unique : IsUnique ids
  pub slots_left : slots + length ids ≡ max
  pub live : (k : String) → contains k ids ≡ live_at k b

abbrev pub IsConsistent : Scheduler → Type 0
IsConsistent s =
    Books s.backend s.outstanding_task_ids s.outstanding_slots s.config.max_outstanding_tasks

-- The books between the end of task `k` and the release of its slot.
pub record BooksBut (k : String) (b : Backend) (ids : Names) (slots max : ℕ) : Type 0 where
  pub valid : BackendIsValid b
  pub unique : IsUnique ids
  pub slots_left : slots + length ids ≡ max
  pub ended : live_at k b ≡ false
  pub others : (j : String) → j ≢ k → contains j ids ≡ live_at j b

abbrev pub IsConsistentBut : String → Scheduler → Type 0
IsConsistentBut k s =
    BooksBut k s.backend s.outstanding_task_ids s.outstanding_slots s.config.max_outstanding_tasks

-- Dropping records only drops.
abbrev Drops : Backend → Backend → Type 0
Drops b b' = (j : String) → (get j b'.records ≡ none) ⊎ (get j b'.records ≡ get j b.records)

evict-Drops : (cs : List Candidate) (b : Backend) → Drops b (evict cs b).1
unfolding evict
evict-Drops [] b j = inr refl
evict-Drops (c ∷ cs) b j =
    ground (arith, evict-Drops cs (forget c.task_id b) j, get-remove c.task_id j b.records)

prune-Drops : (b : Backend) → Drops b (prune b).1
unfolding prune drop_first
prune-Drops b j = elim (Bool-cases (b.max_retained_terminal_tasks == 0)) [
  | inl unlimited ↦ rw unlimited (inr refl)
  | inr limited ↦ rw limited (go (candidates b b.records))
]
  where
    go :
        (cs : Outcome (List Candidate))
        → (get j (drop_first cs b).1.records ≡ none)
          ⊎ (get j (drop_first cs b).1.records ≡ get j b.records)
    go (ok cs) = evict-Drops _ b j
    go (raise e) = inr refl

module _ (k : String) (u : Update) (utc ns : ℕ) (b : Backend) (ids : Names) {slots max : ℕ}
    (books : Books b ids slots max) where
  -- Where there is no record the update raises and changes nothing.
  update_absent : get k b.records ≡ none → (update_status k u utc ns b).1 ≡ b
  unfolding update_status
  update_absent absent = rw (absent, update_status)

  module _ (r : TaskRecord) (found : get k b.records ≡ some r)
      (final : is_terminal u.status ≡ true) where
    -- The task has ended, and was perhaps dropped at once.
    ended_after : live_at k (update_status k u utc ns b).1 ≡ false
    ended_after =
        let dropped = prune-Drops (ended k (updated_record u utc r) ns b) k in
        let stored = ended_at k u utc ns b r books.valid found k in
        let set = get-insert k k (updated_record u utc r) b.records in
        rw (update_final_lem k u utc ns b r books.valid found final) (ground arith)

    ended_before :
        (j : String)
        → j ≢ k
        → terminal_at j b.records ≡ true
        → live_at j (update_status k u utc ns b).1 ≡ live_at j b
    ended_before j other over =
        let dropped = prune-Drops (ended k (updated_record u utc r) ns b) j in
        let stored = ended_at k u utc ns b r books.valid found j in
        let set = get-insert k j (updated_record u utc r) b.records in
        rw (update_final_lem k u utc ns b r books.valid found final) (ground arith)

    others_after : (j : String) → j ≢ k → live_at j (update_status k u utc ns b).1 ≡ live_at j b
    others_after j other = elim (Bool-cases (terminal_at j b.records)) [
      | inl over ↦ ended_before j other over
      | inr open_task ↦
          ap lives (update_status-other k u utc ns b r books.valid found j other open_task)
    ]

  -- The end of a task, known or not, leaves only its slot to be released.
  pub update_final-BooksBut :
      is_terminal u.status ≡ true → BooksBut k (update_status k u utc ns b).1 ids slots max
  update_final-BooksBut final = elim (Option-cases (get k b.records)) [
    | inl absent ↦ rw (update_absent absent) (record {
      valid = books.valid;
      unique = books.unique;
      slots_left = books.slots_left;
      ended = rw absent;
      others = λ j other. books.live j;
    })
    | inr (r, found) ↦ record {
      valid = update_status-IsValid k u utc ns b books.valid;
      unique = books.unique;
      slots_left = books.slots_left;
      ended = ended_after r found final;
      others = λ j other. books.live j ∙ sym (others_after r found final j other);
    }
  ]

  -- A change of status that ends no task leaves the books as they are.
  pub update_live-Books :
      (r : TaskRecord)
      → get k b.records ≡ some r
      → is_terminal r.status ≡ false
      → is_terminal u.status ≡ false
      → Books (update_status k u utc ns b).1 ids slots max
  update_live-Books r found was now = record {
    valid = update_status-IsValid k u utc ns b books.valid;
    unique = books.unique;
    slots_left = books.slots_left;
    live = λ j.
        let set = get-insert k j (updated_record u utc r) b.records in
        rw (update_live_lem k u utc ns b r books.valid found now) (ground (arith, books.live j));
  }

-- The release of a slot returns, and settles the books.
pub record Released (k : String) (s : Scheduler) : Type 0 where
  pub returns : (release_outstanding_slot k s).0 ≡ ok tt
  pub settled : IsConsistent (release_outstanding_slot k s).1

pub release-Released : (k : String) (s : Scheduler) → IsConsistentBut k s → Released k s
unfolding release_outstanding_slot
release-Released k s v = elim (Option-cases (get k s.outstanding_task_ids)) [
  | inl absent ↦ record {
    returns = rw absent;
    settled = rw absent (record {
      valid = v.valid;
      unique = v.unique;
      slots_left = v.slots_left;
      live = λ j. ground (arith, v.others j, v.ended);
    });
  }
  | inr (t, there) ↦
      let shorter = length-remove k t s.outstanding_task_ids v.unique there in
      let room : ltb s.outstanding_slots s.config.max_outstanding_tasks ≡ true =
        ground (arith, v.slots_left) in
      record {
        returns = rw (there, room);
        settled =
            rw (there, room)
              (record {
                valid = v.valid;
                unique = remove-IsUnique k s.outstanding_task_ids v.unique;
                slots_left = omega (arith, v.slots_left);
                live =
                    λ j. ground (arith, v.others j, v.ended, get-remove k j s.outstanding_task_ids);
              });
      }
]
