-- ===== src/Pool/Receipts.antt =====
-- A result that arrives keeps a pool valid.
use infly.Prelude.{
  ℕ, ◌-◌, ◌≡◌, refl, sym, ap, subst, ◌∙◌, inl, inr, Option, none, some, String, [], ◌∷◌, arith, All,
  text_dec, if_ind, ite_ind, ltb,
}
use infly.Dict.{Dict, get, remove, get-remove, remove-IsUnique}
use infly.Core.Errors.{Outcome}
use infly.Core.Contracts.{TaskResult}
use infly.Pool.State.{Pool, Worker, Assignment, Promises, settle_once}
use infly.Pool.Messages.{WorkerResultMessage, outcome_of}
use infly.Pool.Results.{release_worker, settle_found, accept_result, receive_result, is_assignment}
use infly.Pool.Ledger.{
  LedgerIsValid, Extends-refl, Drops, DoneIfAny, FutureIsBelow, drop-LedgerIsValid,
  settle_once-Extends, settle_once-PromisesAreValid, settle_once_done,
}
use infly.Pool.Tables.{
  WorkersAreFiled, FiledUnder, insert-WorkersAreFiled, KeepsServed, insert_served,
}
use infly.Pool.Validity.{OwnedBy, PoolIsValid, owned_kept}

-- A worker of the table is found under its id.
pub found_id :
    (k : String) (w : Worker) (d : Dict Worker)
    → All FiledUnder d
    → get k d ≡ some w
    → w.worker_id ≡ k
unfolding get
found_id k w [] f h = cc
found_id k w ((j, x) ∷ d) f h = ground (arith, found_id k w d f.1, f.0)

release-Filed :
    (k : String) (d : Dict Worker)
    → WorkersAreFiled d
    → WorkersAreFiled (release_worker (get k d) d) × KeepsServed d (release_worker (get k d) d)
unfolding release_worker
release-Filed k d f = go (get k d) refl
  where
    go :
        (o : Option Worker)
        → get k d ≡ o
        → WorkersAreFiled (release_worker o d) × KeepsServed d (release_worker o d)
    go none e = (f, λ a h. h)
    go (some w) e =
        let id = found_id k w d f.filed e in
        let found : get w.worker_id d ≡ some w = ap (λ (j : String). get j d) id ∙ e in
        if_ind (λ (d' : Dict Worker). WorkersAreFiled d' × KeepsServed d d') (ltb 0 w.outstanding)
          (λ _. (
            insert-WorkersAreFiled (record w { outstanding = w.outstanding - 1 }) d f,
            insert_served w (record w { outstanding = w.outstanding - 1 }) d found refl refl refl,
          ))
          λ _. (f, λ a h. h)

found-Ledger :
    (k : String) (o : Outcome TaskResult) (fs : Dict ℕ) (ps : Promises)
    → LedgerIsValid fs ps
    → LedgerIsValid (remove k fs) (settle_found (get k fs) o ps)
unfolding settle_found
found-Ledger k o fs ps l = go (get k fs) refl (l.waiting k)
  where
    go :
        (f : Option ℕ)
        → get k fs ≡ f
        → FutureIsBelow f ps.created
        → LedgerIsValid (remove k fs) (settle_found f o ps)
    go none e b =
        drop-LedgerIsValid fs (remove k fs) ps ps (λ j. inl (ground (arith, get-remove k j fs)))
          (Extends-refl ps) l.promises l
    go (some i) e b =
        drop-LedgerIsValid fs (remove k fs) ps (settle_once i o ps) dropped
          (settle_once-Extends i o ps) (settle_once-PromisesAreValid i o ps b l.promises) l
      where
        dropped : Drops fs (remove k fs) (settle_once i o ps)
        dropped j = elim (text_dec k j) [
          | yes q ↦ inr (
            ground (arith, get-remove k j fs),
            subst (λ (x : Option ℕ). DoneIfAny x (settle_once i o ps))
                (sym (ap (λ (x : String). get x fs) (sym q) ∙ e)) (settle_once_done i o ps),
          )
          | no n ↦ inl (ground (arith, get-remove k j fs))
        ]

pub receive_result-IsValid :
    (item : WorkerResultMessage) (p : Pool) → PoolIsValid p → PoolIsValid (receive_result item p)
unfolding receive_result accept_result
receive_result-IsValid item p v =
    if_ind PoolIsValid (is_assignment (get item.task_id p.assignments) item)
      (λ _.
        let released = release-Filed item.worker_id p.workers v.filed in
        record {
          filed = released.0;
          tasks = remove-IsUnique item.task_id p.assignments v.tasks;
          waiting = remove-IsUnique item.task_id p.futures v.waiting;
          paired = λ k. ground (
            arith,
            v.paired k,
            get-remove item.task_id k p.futures,
            get-remove item.task_id k p.assignments,
          );
          owned = λ s k.
              subst
                (λ (x : Option Assignment).
                  OwnedBy x (release_worker (get item.worker_id p.workers) p.workers))
                (sym (get-remove item.task_id k p.assignments))
                (ite_ind
                  (λ (x : Option Assignment).
                    OwnedBy x (release_worker (get item.worker_id p.workers) p.workers))
                  (text_dec item.task_id k) (λ _. tt)
                  (λ _.
                    owned_kept (get k p.assignments) (get k p.assignments) p.workers _ refl
                      released.1 (v.owned s k)));
          ledger = found-Ledger item.task_id (outcome_of item.reply) p.futures p.promises v.ledger;
          links = v.links;
        })
      (λ _. v)
