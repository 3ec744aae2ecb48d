-- ===== src/Pool/Validity.antt =====
-- What holds of a pool between two calls, and that `execute` and the results keep it.
use infly.Prelude.{◌∙◌}
use infly.Prelude.{
  ℕ, ◌≡◌, refl, sym, subst, inl, Bool, true, false, not, Option, none, some, String, List, [], ◌∷◌,
  arith, text_dec, if_ind, ite_ind, length,
}
use infly.Prelude.Exec.{ok, raise, and_then}
use infly.Dict.{
  Dict, get, insert, remove, contains, values, IsUnique, get-insert, get-remove, insert-IsUnique,
  remove-IsUnique,
}
use infly.Core.Errors.{Outcome}
use infly.Core.Contracts.{TaskRequest, TaskResult}
use infly.Config.{WorkerGroup}
use infly.Pool.State.{Pool, Worker, System, Assignment, Promises, or_empty, settle}
use infly.Pool.Routing.{alive_workers}
use infly.Pool.Assignment.{give_back, assign, admit, execute, live_groups, try_groups}
use infly.Pool.Ledger.{
  LedgerIsValid, Extends-refl, drop-LedgerIsValid, settled_new-LedgerIsValid,
  waiting_new-LedgerIsValid, made,
}
use infly.Pool.Tables.{WorkersAreFiled, is_served, KeepsServed}
use infly.Pool.Placing.{Open, Placed}
use infly.Pool.Search.{AreKnown}
use infly.Pool.Rounds.{SearchEnds, try_groups-SearchEnds}
use infly.Pool.Links.{Routes, TablesAreLinked, routes_known}

abbrev pub OwnedBy : Option Assignment → Dict Worker → Type 0
OwnedBy none ws = Unit {0}
OwnedBy (some a) ws = is_served a ws ≡ true

-- The tasks with a future are the tasks with an assignment; each is assigned to a worker that is
-- marked alive, in its present generation, unless the pool is closing; every future is set, waits or
-- is abandoned, and none is set twice; the routing tables agree.
pub record Standing (closing : Bool) (groups : Dict WorkerGroup)
    (group_handlers handler_groups : Routes) (workers : Dict Worker) (futures : Dict ℕ)
    (assignments : Dict Assignment) (promises : Promises) : Type 0 where
  pub filed : WorkersAreFiled workers
  pub tasks : IsUnique assignments
  pub waiting : IsUnique futures
  pub paired : (k : String) → contains k futures ≡ contains k assignments
  pub owned : closing ≡ false → (k : String) → OwnedBy (get k assignments) workers
  pub ledger : LedgerIsValid futures promises
  pub links : TablesAreLinked groups group_handlers handler_groups

abbrev pub PoolIsValid : Pool → Type 0
PoolIsValid p =
    Standing p.closing p.groups p.group_handlers p.handler_groups p.workers p.futures p.assignments
      p.promises

pub owned_kept :
    (o o' : Option Assignment) (ws ws' : Dict Worker)
    → o' ≡ o
    → KeepsServed ws ws'
    → OwnedBy o ws
    → OwnedBy o' ws'
owned_kept o o' ws ws' e k h = subst (λ (x : Option Assignment). OwnedBy x ws') (sym e) (go o h)
  where
    go : (x : Option Assignment) → OwnedBy x ws → OwnedBy x ws'
    go none own = tt
    go (some a) own = k a own

-- A new future that is set at once changes nothing else.
refuse-IsValid :
    (o : Outcome TaskResult) (p : Pool)
    → PoolIsValid p
    → PoolIsValid (record p { promises = settle p.promises.created o (made p.promises) })
refuse-IsValid o p v = record {
  filed = v.filed;
  tasks = v.tasks;
  waiting = v.waiting;
  paired = v.paired;
  owned = v.owned;
  ledger = settled_new-LedgerIsValid p.futures o p.promises v.ledger;
  links = v.links;
}

-- The pool in which `execute` searches.
abbrev pub entered : String → Pool → Pool
entered k p = record p {
  futures = insert k p.promises.created p.futures;
  promises = made p.promises;
}

unassigned_new :
    (k : String) (p : Pool) → PoolIsValid p → get k p.futures ≡ none → get k p.assignments ≡ none
unassigned_new k p v new = ground (arith, v.paired k)

pub entered-Open :
    (k : String) (p : Pool)
    → PoolIsValid p
    → get k p.futures ≡ none
    → Open k (entered k p) (entered k p)
entered-Open k p v new = record {
  filed = v.filed;
  futures = refl;
  promises = refl;
  unassigned = unassigned_new k p v new;
  others = λ j. refl;
  served = λ a h. h;
  groups = refl;
  handlers = refl;
  routes = refl;
  closing = refl;
  tasks = v.tasks;
}

links_same :
    {groups groups' : Dict WorkerGroup} {gh gh' hg hg' : Routes}
    → groups' ≡ groups
    → gh' ≡ gh
    → hg' ≡ hg
    → TablesAreLinked groups gh hg
    → TablesAreLinked groups' gh' hg'
links_same a b c l = record {
  tabled = λ g. ground (arith, a, b, l.tabled g);
  linked = λ h g. rw (b, c) (l.linked h g);
}

Placed-IsValid :
    (k : String) (p q : Pool)
    → PoolIsValid p
    → get k p.futures ≡ none
    → Placed k (entered k p) q
    → PoolIsValid q
Placed-IsValid k p q v new d = record {
  filed = d.filed;
  tasks = d.tasks;
  waiting =
      subst (λ (fs : Dict ℕ). IsUnique fs) (sym d.futures)
        (insert-IsUnique k p.promises.created p.futures v.waiting);
  paired = λ j. ground (
    arith,
    d.futures,
    d.assigned,
    d.others j,
    v.paired j,
    get-insert k j p.promises.created p.futures,
  );
  owned = λ s j. elim (text_dec j k) [
    | yes e ↦ rw (e, d.assigned) d.is_live
    | no n ↦
        owned_kept (get j p.assignments) (get j q.assignments) p.workers q.workers (d.others j n)
          d.served (v.owned (sym d.closing ∙ s) j)
  ];
  ledger =
      subst (λ (ps : Promises). LedgerIsValid q.futures ps) (sym d.promises)
        (subst (λ (fs : Dict ℕ). LedgerIsValid fs (made p.promises)) (sym d.futures)
          (waiting_new-LedgerIsValid k p.futures p.promises new v.ledger));
  links = links_same d.groups d.handlers d.routes v.links;
}

-- Nobody took the request: the future fails, and the tables are as before.
given_back-IsValid :
    (k : String) (o : Outcome TaskResult) (p q : Pool)
    → PoolIsValid p
    → get k p.futures ≡ none
    → Open k (entered k p) q
    → PoolIsValid (record q {
      futures = remove k q.futures;
      promises = settle p.promises.created o q.promises;
    })
given_back-IsValid k o p q v new d =
    let same : (j : String) → get j (remove k q.futures) ≡ get j p.futures = λ j. ground (
      arith,
      d.futures,
      new,
      get-remove k j q.futures,
      get-insert k j p.promises.created p.futures,
    ) in
    let settled = settled_new-LedgerIsValid p.futures o p.promises v.ledger in
    record {
      filed = d.filed;
      tasks = d.tasks;
      waiting = remove-IsUnique k q.futures (
          subst (λ (fs : Dict ℕ). IsUnique fs) (sym d.futures)
            (insert-IsUnique k p.promises.created p.futures v.waiting));
      paired = λ j. ground (arith, same j, d.others j, v.paired j);
      owned = λ s j.
          owned_kept (get j p.assignments) (get j q.assignments) p.workers q.workers (d.others j)
            d.served (v.owned (sym d.closing ∙ s) j);
      ledger =
          subst
            (λ (ps : Promises). LedgerIsValid (remove k q.futures) (settle p.promises.created o ps))
            (sym d.promises)
            (drop-LedgerIsValid p.futures (remove k q.futures)
              (settle p.promises.created o (made p.promises))
              (settle p.promises.created o (made p.promises)) (λ j. inl (same j)) (Extends-refl _)
              settled.promises settled);
      links = links_same d.groups d.handlers d.routes v.links;
    }

-- A call that returns the future that it made, in a valid pool.
abbrev pub Returns : ℕ → Outcome ℕ × Pool → Type 0
Returns i (raise e, p) = ⊥
Returns i (ok j, p) = (j ≡ i) × PoolIsValid p

pub AreKnown-live_groups :
    (groups : Dict WorkerGroup) (sys : System) (p : Pool) (gs : List String)
    → AreKnown groups gs
    → AreKnown groups (live_groups sys p gs)
unfolding live_groups
AreKnown-live_groups groups sys p [] a = tt
AreKnown-live_groups groups sys p (g ∷ gs) a =
    go (alive_workers sys g (values p.workers)) (AreKnown-live_groups groups sys p gs a.1)
  where
    go :
        (ws : List Worker)
        → AreKnown groups (live_groups sys p gs)
        → AreKnown groups
            (elim ws [ [] ↦ live_groups sys p gs | w ∷ rest ↦ g ∷ live_groups sys p gs ])
    go [] ih = ih
    go (w ∷ rest) ih = (a.0, ih)

assign-Returns :
    (sys : System) (request : TaskRequest) (gs : List String) (p : Pool)
    → PoolIsValid p
    → get request.task_id p.futures ≡ none
    → AreKnown p.groups gs
    → Returns p.promises.created
        (assign sys request p.promises.created gs (record p { promises = made p.promises }))
unfolding assign give_back
assign-Returns sys request [] p v new a = (refl, refuse-IsValid _ p v)
assign-Returns sys request (g ∷ gs) p v new a =
    go (try_groups (length (g ∷ gs)) sys request (g ∷ gs) (entered request.task_id p)) (
      try_groups-SearchEnds (length (g ∷ gs)) sys request (g ∷ gs) (entered request.task_id p)
        (entered request.task_id p) a (entered-Open request.task_id p v new))
  where
    go :
        (q : Outcome Bool × Pool)
        → SearchEnds request.task_id (entered request.task_id p) q
        → Returns p.promises.created (and_then q.0 (give_back request p.promises.created) q.1)
    go (raise e, q) s = s
    go (ok true, q) s = (refl, Placed-IsValid request.task_id p q v new s)
    go (ok false, q) s = (refl, given_back-IsValid request.task_id _ p q v new s)

-- On a valid pool, whatever the workers' processes and queues answer, `execute` raises nothing,
-- returns the next new future, and leaves a valid pool.
pub execute-Returns :
    (sys : System) (request : TaskRequest) (p : Pool)
    → PoolIsValid p
    → Returns p.promises.created (execute sys request p)
unfolding execute admit
execute-Returns sys request p v =
    ite_ind {A = Outcome ℕ × Pool} (Returns p.promises.created) (text_dec request.task_id "")
      (λ _. (refl, refuse-IsValid _ p v))
      λ _.
        if_ind (Returns p.promises.created) (not p.accepting) (λ _. (refl, refuse-IsValid _ p v))
          λ _.
            if_ind (Returns p.promises.created) (contains request.task_id p.futures)
              (λ _. (refl, refuse-IsValid _ p v))
              λ new.
                let routed = or_empty (get request.handler_name p.handler_groups) in
                assign-Returns sys request
                  (live_groups sys (record p { promises = made p.promises }) routed) p v
                  (ground arith)
                  (AreKnown-live_groups p.groups sys (record p { promises = made p.promises })
                    routed (routes_known request.handler_name v.links))
