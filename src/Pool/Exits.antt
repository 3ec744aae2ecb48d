-- ===== src/Pool/Exits.antt =====
-- Taking the tasks of a worker, and failing what is pending, keep a pool valid.
use infly.Prelude.{
  ℕ, ◌<◌, ◌≡◌, refl, sym, ap, subst, ◌∙◌, ◌⊎◌, inl, inr, true, false, Option, none, some, String,
  List, [], ◌∷◌, arith, All, Bool-cases, text_dec, if◌then◌else◌, ite_ind,
}
use infly.Dict.{Dict, get, insert, contains, values, IsUnique, get-insert, get-nil}
use infly.Core.Errors.{Exception}
use infly.Pool.State.{
  is_in, abandon, Pool, Worker, Assignment, Promises, same_assignment, fail_futures,
}
use infly.Pool.Supervision.{
  Taken, take_owned, take_worker_futures, assignment_of, reset_outstanding, fail_all_pending, gone,
}
use infly.Pool.Ledger.{
  Kept, LedgerIsValid, DoneIfAny, FutureIsBelow, drop-LedgerIsValid, fail_futures-Extends,
  fail_futures-PromisesAreValid,
}
use infly.Pool.Tables.{map_workers-WorkersAreFiled, is_served, KeepsServed}
use infly.Pool.Taking.{
  is_in-append, owned_in, owned_by, owned_in-get, fail_futures-is_in, TookOwned,
  take_owned-TookOwned,
}
use infly.Pool.Validity.{OwnedBy, PoolIsValid}

-- What was dropped from the futures is in the list.
abbrev pub InIfAny : Option ℕ → List ℕ → Type 0
InIfAny none fs = Unit {0}
InIfAny (some i) fs = is_in i fs ≡ true

abbrev pub DropsInto : Dict ℕ → Dict ℕ → List ℕ → Type 0
DropsInto fs fs' failed =
    (k : String) → (get k fs' ≡ get k fs) ⊎ ((get k fs' ≡ none) × InIfAny (get k fs) failed)

-- Once those in the list have failed, the ledger is valid again.
pub failed-LedgerIsValid :
    (fs fs' : Dict ℕ) (failed : List ℕ) (e : Exception) (ps : Promises)
    → DropsInto fs fs' failed
    → All (λ f. f < ps.created) failed
    → LedgerIsValid fs ps
    → LedgerIsValid fs' (fail_futures failed e ps)
failed-LedgerIsValid fs fs' failed e ps d b l =
    drop-LedgerIsValid fs fs' ps (fail_futures failed e ps) (λ k. go k (d k))
      (fail_futures-Extends failed e ps) (fail_futures-PromisesAreValid failed e ps b l.promises) l
  where
    done : (o : Option ℕ) → InIfAny o failed → DoneIfAny o (fail_futures failed e ps)
    done none i = tt
    done (some f) i = fail_futures-is_in f failed e ps i

    go :
        (k : String)
        → (get k fs' ≡ get k fs) ⊎ ((get k fs' ≡ none) × InIfAny (get k fs) failed)
        → (get k fs' ≡ get k fs)
          ⊎ ((get k fs' ≡ none) × DoneIfAny (get k fs) (fail_futures failed e ps))
    go k (inl same) = inl same
    go k (inr (out, i)) = inr (out, done (get k fs) i)

-- The same if those in the list are abandoned.
pub abandoned-LedgerIsValid :
    (fs fs' : Dict ℕ) (failed : List ℕ) (ps : Promises)
    → DropsInto fs fs' failed
    → LedgerIsValid fs ps
    → LedgerIsValid fs' (abandon failed ps)
abandoned-LedgerIsValid fs fs' failed ps d l = record {
  promises = record { below = l.promises.below; once = l.promises.once };
  waiting = λ k. ground (arith, d k, l.waiting k);
  kept = λ i. go i (l.kept i);
}
  where
    held :
        (i : ℕ) (k : String)
        → get k fs ≡ some i
        → (get k fs' ≡ get k fs) ⊎ ((get k fs' ≡ none) × InIfAny (get k fs) failed)
        → Kept i fs' (abandon failed ps)
    held i k e (inl same) = inr (inr (inl (k, same ∙ e)))
    held i k e (inr (out, h)) = inr (
        inr (
          inr (
            is_in-append i failed ps.abandoned
              (inl (subst (λ (x : Option ℕ). InIfAny x failed) e h)))))

    go : (i : ℕ) → Kept i fs ps → Kept i fs' (abandon failed ps)
    go i (inl new) = inl new
    go i (inr (inl done)) = inr (inl done)
    go i (inr (inr (inl (k, e)))) = held i k e (d k)
    go i (inr (inr (inr lost))) = inr (inr (inr (is_in-append i failed ps.abandoned (inr lost))))

-- The tasks of `w` are out, with their futures, and no other.
pub record TookWorker (w : Worker) (p : Pool) (t : Taken) : Type 0 where
  pub assignments :
      (k : String)
      → get k t.assignments
        ≡ (if owned_by (assignment_of w) (get k p.assignments) then none else get k p.assignments)
  pub futures :
      (k : String)
      → get k t.futures
        ≡ (if owned_by (assignment_of w) (get k p.assignments) then none else get k p.futures)
  pub drops : DropsInto p.futures t.futures t.failed
  pub unique : IsUnique t.assignments
  pub waiting : IsUnique t.futures
  pub below :
      (n : ℕ) → ((k : String) → FutureIsBelow (get k p.futures) n) → All (λ f. f < n) t.failed

pub take_worker_futures-TookWorker :
    (w : Worker) (p : Pool)
    → IsUnique p.assignments
    → IsUnique p.futures
    → TookWorker w p (take_worker_futures w p)
unfolding take_worker_futures
take_worker_futures-TookWorker w p u n =
    let start : Taken = record { assignments = p.assignments; futures = p.futures; failed = [] } in
    let took = take_owned-TookOwned (assignment_of w) p.assignments start in
    record {
      assignments =
          λ k. ground (arith, took.assignments k, owned_in-get k (assignment_of w) p.assignments u);
      futures =
          λ k. ground (arith, took.futures k, owned_in-get k (assignment_of w) p.assignments u);
      drops = λ k.
          drop (take_owned (assignment_of w) p.assignments start) took k (get k p.futures) refl
            (Bool-cases (owned_in k (assignment_of w) p.assignments));
      unique = took.unique u;
      waiting = took.waiting n;
      below = λ m b. took.below m b tt;
    }
  where
    drop :
        (t : Taken)
        → TookOwned
            (assignment_of w)
            p.assignments
            (record { assignments = p.assignments; futures = p.futures; failed = [] })
            t
        → (k : String) (o : Option ℕ) → get k p.futures ≡ o
        → (owned_in k (assignment_of w) p.assignments ≡ true)
          ⊎ (owned_in k (assignment_of w) p.assignments ≡ false)
        → (get k t.futures ≡ get k p.futures)
          ⊎ ((get k t.futures ≡ none) × InIfAny (get k p.futures) t.failed)
    drop t took k o e (inr other) = inl (ground (arith, took.futures k))
    drop t took k none e (inl own) = inl (ground (arith, took.futures k))
    drop t took k (some i) e (inl own) = inr (
      ground (arith, took.futures k),
      subst (λ (x : Option ℕ). InIfAny x t.failed) (sym e) (took.failed k i own e),
    )

-- With the tasks of a worker taken, the others are served also without it.
pub left_served :
    (w : Worker) (p : Pool) (t : Taken) (ws' : Dict Worker)
    → TookWorker w p t
    → ((k : String) → OwnedBy (get k p.assignments) p.workers)
    → ((a : Assignment)
        → is_served a p.workers ≡ true
        → same_assignment a (assignment_of w) ≡ false
        → is_served a ws' ≡ true)
    → (k : String) → OwnedBy (get k t.assignments) ws'
left_served w p t ws' took own keeps k =
    subst (λ (x : Option Assignment). OwnedBy x ws') (sym (took.assignments k))
      (go (get k p.assignments) (own k))
  where
    go :
        (o : Option Assignment)
        → OwnedBy o p.workers
        → OwnedBy (if owned_by (assignment_of w) o then none else o) ws'
    go none h = tt
    go (some a) h = elim (Bool-cases (same_assignment a (assignment_of w))) [
      | inl same ↦ rw same tt
      | inr other ↦ rw other (keeps a h other)
    ]

pub left_paired :
    (w : Worker) (p : Pool) (t : Taken)
    → TookWorker w p t
    → ((k : String) → contains k p.futures ≡ contains k p.assignments)
    → (k : String) → contains k t.futures ≡ contains k t.assignments
left_paired w p t took paired k = ground (arith, took.futures k, took.assignments k, paired k)

-- A worker that does not live may change as it likes.
pub insert_dead :
    (w w' : Worker) (d : Dict Worker)
    → get w.worker_id d ≡ some w
    → w.alive ≡ false
    → w'.worker_id ≡ w.worker_id
    → KeepsServed d (insert w'.worker_id w' d)
insert_dead w w' d found dead same a h = ground (arith, get-insert w'.worker_id a.worker_id w' d)

pub exit-served :
    (w : Worker) (d : Dict Worker)
    → get w.worker_id d ≡ some w
    → (a : Assignment) → is_served a d ≡ true
    → same_assignment a (assignment_of w) ≡ false
    → is_served a (insert w.worker_id (gone w) d) ≡ true
unfolding same_assignment
exit-served w d found a h other = ground (arith, get-insert w.worker_id a.worker_id (gone w) d)

paired_nil : (k : String) → contains {V = ℕ} k [] ≡ contains {V = Assignment} k []
unfolding get
paired_nil k = refl

pub owned_nil : (ws : Dict Worker) (k : String) → OwnedBy (get k []) ws
unfolding get
owned_nil ws k = tt

in_values : (k : String) (fs : Dict ℕ) → InIfAny (get k fs) (values fs)
unfolding get is_in
in_values k [] = tt
in_values k ((j, i) ∷ fs) =
    ite_ind (λ (x : Option ℕ). InIfAny x (i ∷ values fs)) (text_dec j k) (λ _. ground arith)
      (λ _. grow (get k fs) (in_values k fs))
  where
    grow : (o : Option ℕ) → InIfAny o (values fs) → InIfAny o (i ∷ values fs)
    grow none h = tt
    grow (some f) h = ground arith

all_in :
    (k : String) (fs : Dict ℕ)
    → (get {V = ℕ} k [] ≡ get k fs) ⊎ ((get {V = ℕ} k [] ≡ none) × InIfAny (get k fs) (values fs))
all_in k fs = inr (get-nil k, in_values k fs)

values_below :
    (n : ℕ) (fs : Dict ℕ)
    → IsUnique fs
    → ((k : String) → FutureIsBelow (get k fs) n)
    → All (λ f. f < n) (values fs)
unfolding get
values_below n [] u b = tt
values_below n ((j, i) ∷ fs) u b = (
  ground (arith, b j),
  values_below n fs u.1 λ k. elim (text_dec j k) [
    | yes e ↦
        subst (λ (x : Option ℕ). FutureIsBelow x n)
          (sym (ap (λ (x : String). get x fs) (sym e) ∙ u.0)) tt
    | no m ↦ ground (arith, b k)
  ],
)

-- `_fail_all_pending`
pub fail_all-IsValid :
    (e : Exception) (p : Pool) → PoolIsValid p → PoolIsValid (fail_all_pending e p)
unfolding fail_all_pending
fail_all-IsValid e p v = record {
  filed = map_workers-WorkersAreFiled reset_outstanding (λ w. refl) p.workers v.filed;
  tasks = tt;
  waiting = tt;
  paired = λ k. paired_nil k;
  owned = λ s k. owned_nil _ k;
  ledger =
      failed-LedgerIsValid p.futures [] (values p.futures) e p.promises (λ k. all_in k p.futures)
        (values_below p.promises.created p.futures v.waiting v.ledger.waiting) v.ledger;
  links = v.links;
}
