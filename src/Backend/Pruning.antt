-- ===== src/Backend/Pruning.antt =====
-- Pruning and `update_status` as a whole: what stays, what goes, and that nothing is raised.
use infly.Prelude.{
  ℕ, zero, suc, ◌+◌, ◌-◌, ◌≤◌, ◌<◌, true, false, ◌≡◌, ◌≢◌, refl, sym, subst, ◌∙◌, none, String,
  List, [], ◌∷◌, All, AllPairs, All-mono, arith, inl, inr, ◌⊎◌, ◌==◌, length, take, drop, All-take,
  All-drop, AllPairs-take, AllPairs-split, length-take_le, length-drop, ℕ_discrete,
}
use infly.Prelude.Exec.{ok}
use infly.Prelude.Sort.{sorted}
use infly.Prelude.Sort.Laws.{All-sorted, AllPairs-sorted, sorted-IsSorted, length-sorted}
use infly.Dict.{get, remove, contains, IsUnique, get-remove, remove-IsUnique}
use infly.Backend.{Backend, Candidate, candidate_le, evict, forget, drop_first, prune}
use infly.Backend.Invariant.{BackendIsValid, terminal_at}
use infly.Backend.Retention.{
  count_terminal, count_terminal-remove, Differ, IsKeyed, Found, candidates-Found,
}

-- What a run of the eviction loop does to the records.
pub record Evicted (cs : List Candidate) (b : Backend) : Type 0 where
  pub returns : (evict cs b).0 ≡ ok tt
  pub counted : count_terminal (evict cs b).1.records + length cs ≡ count_terminal b.records
  pub gone : All (λ c. get c.task_id (evict cs b).1.records ≡ none) cs
  pub kept :
      (k : String) → All (λ c. c.task_id ≢ k) cs → get k (evict cs b).1.records ≡ get k b.records

still_terminal :
    (c : Candidate) (b : Backend) (d : Candidate)
    → terminal_at d.task_id b.records ≡ true
    → Differ c d
    → terminal_at d.task_id (remove c.task_id b.records) ≡ true
still_terminal c b d h n = ground (arith, get-remove c.task_id d.task_id b.records)

All-still :
    (c : Candidate) (b : Backend) (cs : List Candidate)
    → All (λ d. terminal_at d.task_id b.records ≡ true) cs
    → All (Differ c) cs
    → All (λ d. terminal_at d.task_id (remove c.task_id b.records) ≡ true) cs
All-still c b [] a n = tt
All-still c b (d ∷ ds) a n = (still_terminal c b d a.0 n.0, All-still c b ds a.1 n.1)

-- What is absent stays absent.
evict_absent :
    (k : String) (cs : List Candidate) (b : Backend)
    → get k b.records ≡ none
    → get k (evict cs b).1.records ≡ none
unfolding evict
evict_absent k [] b h = h
evict_absent k (c ∷ cs) b h =
    ground (arith, evict_absent k cs (forget c.task_id b), get-remove c.task_id k b.records)

evict-nil : (b : Backend) → evict [] b ≡ (ok tt, b)
unfolding evict
evict-nil b = refl

evict-cons :
    (c : Candidate) (cs : List Candidate) (b : Backend)
    → contains c.task_id b.records ≡ true
    → evict (c ∷ cs) b ≡ evict cs (forget c.task_id b)
unfolding evict
evict-cons c cs b there = rw there

pub evict_lem :
    (cs : List Candidate) (b : Backend)
    → IsUnique b.records
    → All (λ c. terminal_at c.task_id b.records ≡ true) cs
    → AllPairs Differ cs
    → Evicted cs b
evict_lem [] b u a p = record {
  returns = rw evict-nil refl;
  counted = rw evict-nil (omega arith);
  gone = tt;
  kept = λ k n. rw evict-nil refl;
}
evict_lem (c ∷ cs) b u a p =
    let next = forget c.task_id b in
    let ih =
      evict_lem cs next (remove-IsUnique c.task_id b.records u) (All-still c b cs a.1 p.0) p.1 in
    let step = evict-cons c cs b (ground (arith, a.0)) in
    record {
      returns = rw step ih.returns;
      counted =
          rw step (omega (arith, ih.counted, count_terminal-remove c.task_id b.records u a.0));
      gone =
          subst (λ s. All (λ d. get d.task_id s.1.records ≡ none) (c ∷ cs)) (sym step)
            (
              evict_absent c.task_id cs next
                  (ground (arith, get-remove c.task_id c.task_id b.records)),
              ih.gone,
            );
      kept = λ k n. rw step (ground (arith, ih.kept k n.1, get-remove c.task_id k b.records, n.0));
    }

candidate_le_total : (c d : Candidate) → candidate_le c d ≡ false → candidate_le d c ≡ true
unfolding candidate_le
candidate_le_total c d h = ground arith

candidate_le_trans :
    (c d e : Candidate)
    → candidate_le c d ≡ true
    → candidate_le d e ≡ true
    → candidate_le c e ≡ true
unfolding candidate_le
candidate_le_trans c d e h k = ground arith

-- `c` goes before `d`: a task that was read before one that was not, and of two alike the one that
-- ended earlier.
abbrev pub GoesFirst : Candidate → Candidate → Type 0
GoesFirst c d =
    (c.unread < d.unread)
    ⊎ ((c.unread ≡ d.unread)
        × ((c.finish.ns < d.finish.ns)
            ⊎ ((c.finish.ns ≡ d.finish.ns) × (c.finish.sequence ≤ d.finish.sequence))))

candidate_le→GoesFirst : (c d : Candidate) → candidate_le c d ≡ true → GoesFirst c d
unfolding candidate_le
candidate_le→GoesFirst c d h = ground arith

-- What one pruning of a valid backend with a limit does.
pub record Pruned (b : Backend) : Type 0 where
  pub dropped : List Candidate
  pub left : List Candidate
  pub dropped_keyed : All (IsKeyed b b.records) dropped
  pub left_keyed : All (IsKeyed b b.records) left
  pub returns : (prune b).0 ≡ ok tt
  pub bounded : count_terminal (prune b).1.records ≤ b.max_retained_terminal_tasks
  pub counted : count_terminal (prune b).1.records + length dropped ≡ count_terminal b.records
  pub needed : (dropped ≡ []) ⊎ (length left ≡ b.max_retained_terminal_tasks)
  pub order : All (λ c. All (GoesFirst c) left) dropped
  pub apart : All (λ c. All (Differ c) left) dropped
  pub gone : All (λ c. get c.task_id (prune b).1.records ≡ none) dropped
  pub kept :
      (k : String) → All (λ c. c.task_id ≢ k) dropped → get k (prune b).1.records ≡ get k b.records

take_zero {ℓ} : {A : Type ℓ} (n : ℕ) (xs : List A) → n ≡ 0 → take n xs ≡ []
take_zero zero xs h = refl
take_zero (suc n) xs h = absurd (omega arith)

module _ (b : Backend) (v : BackendIsValid b)
    (limited : (b.max_retained_terminal_tasks == 0) ≡ false) where
  found : Found b b.records
  found = candidates-Found b b.records v.unique (λ k h. ground (arith, v.finished k))

  in_order : List Candidate
  in_order = sorted candidate_le found.list

  excess : ℕ
  excess = length in_order - b.max_retained_terminal_tasks

  excess_lem : excess ≡ length in_order - b.max_retained_terminal_tasks
  unfolding excess
  excess_lem = refl

  prune-evict : prune b ≡ evict (take excess in_order) b
  unfolding prune drop_first in_order excess
  prune-evict = rw (limited, found.result) refl

  in_order-IsKeyed : All (IsKeyed b b.records) in_order
  unfolding in_order
  in_order-IsKeyed = All-sorted candidate_le (IsKeyed b b.records) found.list found.are_keyed

  in_order_distinct : AllPairs Differ in_order
  unfolding in_order
  in_order_distinct =
      AllPairs-sorted candidate_le Differ (λ c d n e. n (sym e)) found.list found.distinct

  length-in_order : length in_order ≡ count_terminal b.records
  unfolding in_order
  length-in_order = length-sorted candidate_le found.list ∙ found.all

  evicted : Evicted (take excess in_order) b
  evicted =
      evict_lem (take excess in_order) b v.unique
        (All-take _ excess in_order
          (All-mono (IsKeyed b b.records) _ (λ c i. i.final) in_order in_order-IsKeyed))
        (AllPairs-take Differ excess in_order in_order_distinct)

  length-taken : length (take excess in_order) ≡ excess
  unfolding excess
  length-taken = length-take_le _ in_order (omega arith)

  ordered : AllPairs (λ c d. candidate_le c d ≡ true) in_order
  unfolding in_order
  ordered = sorted-IsSorted candidate_le candidate_le_total candidate_le_trans found.list

  enough :
      (take excess in_order ≡ []) ⊎ (length (drop excess in_order) ≡ b.max_retained_terminal_tasks)
  enough = elim (ℕ_discrete excess 0) [
    | yes none_over ↦ inl (take_zero excess in_order none_over)
    | no over ↦ inr (omega (arith, length-drop {0} excess in_order, excess_lem))
  ]

  -- On a backend with a limit, pruning returns and leaves no more terminal records than the limit
  -- allows. It drops terminal records only, as few as that takes, tasks that were read before
  -- those that were not and the earlier ended before the later, and keeps all else.
  pub prune-Pruned : Pruned b
  prune-Pruned = record {
    dropped = take excess in_order;
    left = drop excess in_order;
    dropped_keyed = All-take _ excess in_order in_order-IsKeyed;
    left_keyed = All-drop _ excess in_order in_order-IsKeyed;
    returns = rw prune-evict evicted.returns;
    bounded =
        rw prune-evict
          (unfold excess in omega (arith, evicted.counted, length-taken, length-in_order));
    counted = rw prune-evict evicted.counted;
    needed = enough;
    order =
        All-mono _ _ (λ c a. All-mono _ _ (candidate_le→GoesFirst c) (drop excess in_order) a)
          (take excess in_order) (AllPairs-split _ excess in_order ordered);
    apart = AllPairs-split Differ excess in_order in_order_distinct;
    gone = rw prune-evict evicted.gone;
    kept = λ k n. rw prune-evict (evicted.kept k n);
  }
