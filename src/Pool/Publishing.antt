-- ===== src/Pool/Publishing.antt =====
-- Registering a group keeps a pool valid.
use infly.Prelude.{
  ◌≡◌, ◌≢◌, refl, ap, ◌∙◌, true, false, Option, none, some, String, List, [], ◌∷◌, arith, All,
}
use infly.Prelude.Exec.{ok, raise}
use infly.Dict.{Dict, get, insert, contains, get-insert}
use infly.Core.Errors.{Outcome}
use infly.Config.{WorkerGroup}
use infly.Pool.State.{Pool, Worker}
use infly.Pool.Groups.{put_workers, publish, published, ensure_can_register, publish_group}
use infly.Pool.Tables.{WorkersAreFiled, insert-WorkersAreFiled, is_served, lives_as, KeepsServed}
use infly.Pool.Validity.{PoolIsValid, owned_kept}
use infly.Pool.Links.{publish-TablesAreLinked}

-- No worker of the list has an id of the table.
abbrev pub AreNew : List Worker → Dict Worker → Type 0
AreNew ws d = All (λ w. get w.worker_id d ≡ none) ws

pub put_workers-Filed :
    (ws : List Worker) (d : Dict Worker) → WorkersAreFiled d → WorkersAreFiled (put_workers ws d)
unfolding put_workers
put_workers-Filed [] d f = f
put_workers-Filed (w ∷ ws) d f =
    put_workers-Filed ws (insert w.worker_id w d) (insert-WorkersAreFiled w d f)

put_workers_other :
    (ws : List Worker) (d : Dict Worker) (k : String)
    → All (λ w. w.worker_id ≢ k) ws
    → get k (put_workers ws d) ≡ get k d
unfolding put_workers
put_workers_other [] d k n = refl
put_workers_other (w ∷ ws) d k n =
    put_workers_other ws (insert w.worker_id w d) k n.1
    ∙ ground (arith, n.0, get-insert w.worker_id k w d)

new_differ :
    (ws : List Worker) (d : Dict Worker) (k : String) (x : Worker)
    → AreNew ws d
    → get k d ≡ some x
    → All (λ w. w.worker_id ≢ k) ws
new_differ [] d k x n h = tt
new_differ (w ∷ ws) d k x n h = (λ e. ground (arith, n.0), new_differ ws d k x n.1 h)

put_workers-KeepsServed :
    (ws : List Worker) (d : Dict Worker) → AreNew ws d → KeepsServed d (put_workers ws d)
put_workers-KeepsServed ws d n a h = go (get a.worker_id d) refl h
  where
    go :
        (o : Option Worker)
        → get a.worker_id d ≡ o
        → lives_as a.generation o ≡ true
        → is_served a (put_workers ws d) ≡ true
    go none e l = absurd cc
    go (some x) e l =
        ap (lives_as a.generation)
          (put_workers_other ws d a.worker_id (new_differ ws d a.worker_id x n e) ∙ e)
        ∙ l

ensure-fresh :
    (name : String) (p : Pool) → ensure_can_register name p ≡ ok tt → contains name p.groups ≡ false
unfolding ensure_can_register
ensure-fresh name p e = ground arith

pub publish_group-IsValid :
    (group : WorkerGroup) (names : List String) (ws : List Worker) (p : Pool)
    → AreNew ws p.workers
    → PoolIsValid p
    → PoolIsValid (publish_group group names ws p).1
unfolding publish_group published publish
publish_group-IsValid group names ws p new v = go (ensure_can_register group.name p) refl
  where
    go :
        (r : Outcome (Unit {0}))
        → ensure_can_register group.name p ≡ r
        → PoolIsValid (published group names ws r p).1
    go (raise e) h = v
    go (ok t) h = record {
      filed = put_workers-Filed ws p.workers v.filed;
      tasks = v.tasks;
      waiting = v.waiting;
      paired = v.paired;
      owned = λ s k.
          owned_kept (get k p.assignments) (get k p.assignments) p.workers _ refl
            (put_workers-KeepsServed ws p.workers new) (v.owned s k);
      ledger = v.ledger;
      links =
          publish-TablesAreLinked group names p.groups p.group_handlers p.handler_groups
            (ensure-fresh group.name p h) v.links;
    }
