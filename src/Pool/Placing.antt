-- ===== src/Pool/Placing.antt =====
-- The search of `execute` for a worker: either one that lives has the request, or nothing changed.
use infly.Prelude.{
  ℕ, ◌+◌, ◌-◌, ◌≡◌, ◌≢◌, refl, ap, ◌∙◌, Bool, true, false, Option, none, some, String, List, arith,
  All, All-mono,
}
use infly.Dict.{
  Dict, get, insert, get-insert, get-remove, IsUnique, insert-IsUnique, remove-IsUnique,
}
use infly.Core.Contracts.{TaskRequest}
use infly.Pool.State.{Pool, Worker, Assignment}
use infly.Pool.Assignment.{claim, unclaim, enqueue}
use infly.Pool.Tables.{
  WorkersAreFiled, insert-WorkersAreFiled, IsLiveIn, is_served, lives_as, KeepsServed,
  insert_served,
}

-- Nobody has the task yet: but for the cursors and the weights, `p` is as `p0`.
pub record Open (k : String) (p0 p : Pool) : Type 0 where
  pub filed : WorkersAreFiled p.workers
  pub futures : p.futures ≡ p0.futures
  pub promises : p.promises ≡ p0.promises
  pub unassigned : get k p.assignments ≡ none
  pub others : (j : String) → get j p.assignments ≡ get j p0.assignments
  pub served : KeepsServed p0.workers p.workers
  pub groups : p.groups ≡ p0.groups
  pub handlers : p.group_handlers ≡ p0.group_handlers
  pub routes : p.handler_groups ≡ p0.handler_groups
  pub closing : p.closing ≡ p0.closing
  pub tasks : IsUnique p.assignments

-- A worker that lives has the task.
pub record Placed (k : String) (p0 p : Pool) : Type 0 where
  pub filed : WorkersAreFiled p.workers
  pub futures : p.futures ≡ p0.futures
  pub promises : p.promises ≡ p0.promises
  pub owner : Assignment
  pub assigned : get k p.assignments ≡ some owner
  pub is_live : is_served owner p.workers ≡ true
  pub others : (j : String) → j ≢ k → get j p.assignments ≡ get j p0.assignments
  pub served : KeepsServed p0.workers p.workers
  pub groups : p.groups ≡ p0.groups
  pub handlers : p.group_handlers ≡ p0.group_handlers
  pub routes : p.handler_groups ≡ p0.handler_groups
  pub closing : p.closing ≡ p0.closing
  pub tasks : IsUnique p.assignments

abbrev pub PlacedOr : String → Pool → Bool → Pool → Type 0
PlacedOr k p0 true p = Placed k p0 p
PlacedOr k p0 false p = Open k p0 p

-- What `unclaim` leaves of the workers is what `claim` found.
get_restored :
    (w : Worker) (d : Dict Worker) (j : String)
    → get w.worker_id d ≡ some w
    → get j (
        insert w.worker_id
          (record w { outstanding = w.outstanding + 1 - 1 })
          (insert w.worker_id (record w { outstanding = w.outstanding + 1 }) d))
      ≡ get j d
get_restored w d j found =
    let same : record w { outstanding = w.outstanding + 1 - 1 } ≡ w =
      ap (λ (n : ℕ). record w { outstanding = n }) (omega arith) in
    ground (
      arith,
      get-insert w.worker_id j (record w { outstanding = w.outstanding + 1 - 1 })
          (insert w.worker_id (record w { outstanding = w.outstanding + 1 }) d),
      get-insert w.worker_id j (record w { outstanding = w.outstanding + 1 }) d,
    )

IsLiveIn-same :
    (d d' : Dict Worker) (ws : List Worker)
    → ((j : String) → get j d' ≡ get j d)
    → All (IsLiveIn d) ws
    → All (IsLiveIn d') ws
IsLiveIn-same d d' ws e a =
    All-mono (IsLiveIn d) (IsLiveIn d') (λ w l. (e w.worker_id ∙ l.0, l.1)) ws a

pub refused-Open :
    (k : String) (p0 p : Pool) (w : Worker)
    → IsLiveIn p.workers w
    → Open k p0 p
    → Open k p0 (unclaim k w (claim k w p))
refused-Open k p0 p w l o =
    let w1 = record w { outstanding = w.outstanding + 1 } in
    let a : Assignment = record { worker_id = w.worker_id; generation = w.generation } in
    record {
      filed =
          insert-WorkersAreFiled (record w { outstanding = w.outstanding + 1 - 1 })
            (insert w.worker_id w1 p.workers) (insert-WorkersAreFiled w1 p.workers o.filed);
      futures = o.futures;
      promises = o.promises;
      unassigned = ground (arith, get-remove k k (insert k a p.assignments));
      others = λ j. ground (
        arith,
        o.others j,
        o.others k,
        o.unassigned,
        get-remove k j (insert k a p.assignments),
        get-insert k j a p.assignments,
      );
      served = λ b h.
          ap (λ (x : Option Worker). lives_as b.generation x)
            (get_restored w p.workers b.worker_id l.0)
          ∙ o.served b h;
      groups = o.groups;
      handlers = o.handlers;
      routes = o.routes;
      closing = o.closing;
      tasks =
          remove-IsUnique k (insert k a p.assignments) (insert-IsUnique k a p.assignments o.tasks);
    }

pub taken-Placed :
    (g : String) (k : String) (p0 p : Pool) (w : Worker) (items : List (Option TaskRequest))
    → IsLiveIn p.workers w
    → Open k p0 p
    → Placed k p0 (enqueue g w items (claim k w p))
taken-Placed g k p0 p w items l o =
    let w1 = record w { outstanding = w.outstanding + 1 } in
    let w2 = record w { outstanding = w.outstanding + 1; task_queue = some items } in
    let a : Assignment = record { worker_id = w.worker_id; generation = w.generation } in
    let found1 : get w.worker_id (insert w.worker_id w1 p.workers) ≡ some w1 =
      ground (arith, get-insert w.worker_id w.worker_id w1 p.workers) in
    record {
      filed =
          insert-WorkersAreFiled w2 (insert w.worker_id w1 p.workers)
            (insert-WorkersAreFiled w1 p.workers o.filed);
      futures = o.futures;
      promises = o.promises;
      owner = a;
      assigned = ground (arith, get-insert k k a p.assignments);
      is_live =
          ground
            (arith, l.1, get-insert w.worker_id w.worker_id w2 (insert w.worker_id w1 p.workers));
      others = λ j n. ground (arith, o.others j, get-insert k j a p.assignments);
      served = λ b h.
          insert_served w1 w2 (insert w.worker_id w1 p.workers) found1 refl refl refl b
            (insert_served w w1 p.workers l.0 refl refl refl b (o.served b h));
      groups = o.groups;
      handlers = o.handlers;
      routes = o.routes;
      closing = o.closing;
      tasks = insert-IsUnique k a p.assignments o.tasks;
    }

pub refused-live :
    (k : String) (p : Pool) (w : Worker) (ws : List Worker)
    → IsLiveIn p.workers w
    → All (IsLiveIn p.workers) ws
    → All (IsLiveIn (unclaim k w (claim k w p)).workers) ws
refused-live k p w ws l ls =
    IsLiveIn-same p.workers (unclaim k w (claim k w p)).workers ws
      (λ j. get_restored w p.workers j l.0) ls
