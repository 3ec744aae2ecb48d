-- ===== src/Pool/Membership.antt =====
-- Unloading a group keeps a pool valid.
use infly.Prelude.{
  ℕ, ◌<◌, ◌≡◌, refl, sym, subst, ◌∙◌, ◌⊎◌, inl, inr, Bool, true, false, ◌||◌, Option, none, some,
  String, List, [], ◌∷◌, ◌++◌, arith, All, if◌then◌else◌, if_ind,
}
use infly.Prelude.Exec.{ok, raise}
use infly.Dict.{Dict, get, remove, contains, values, IsUnique, get-remove}
use infly.Core.Errors.{Outcome}
use infly.Config.{WorkerGroup}
use infly.Prelude.{◌∙◌, ◌&&◌, ap}
use infly.Core.Errors.{Exception}
use infly.Pool.Supervision.{stop_process}
use infly.Pool.Unloading.{dispose_worker, dispose_workers, settle_retired}
use infly.Pool.Exits.{abandoned-LedgerIsValid}
use infly.Pool.State.{
  System, with_promises, settle_once, abandon, Pool, Worker, Assignment, Promises, same_assignment,
  fail_futures,
}
use infly.Pool.Routing.{is_in_group}
use mathlib.Core.List.{append-nil, append_assoc}
use infly.Pool.Unloading.{
  retire_worker, retire_workers, unloaded_error, fail_retired, unload_workers, unlink_group,
  unload_group, unregister_worker_group,
}
use infly.Pool.Supervision.{take_worker_futures, assignment_of}
use infly.Pool.Ledger.{LedgerIsValid, FutureIsBelow}
use infly.Pool.Tables.{WorkersAreFiled, remove-WorkersAreFiled, values-IsFound, IsFound, is_served}
use infly.Pool.Taking.{is_in-append, All-append}
use infly.Pool.Validity.{OwnedBy, PoolIsValid}
use infly.Pool.Exits.{
  InIfAny, DropsInto, take_worker_futures-TookWorker, failed-LedgerIsValid, left_served,
  left_paired,
}
use infly.Pool.Links.{Routes, TablesAreLinked, Unlinked, unlink_group-Unlinked, occurs_nil}

-- A worker that is found under its id, or is gone.
abbrev FoundOrGone : Dict Worker → Worker → Type 0
FoundOrGone d w = (get w.worker_id d ≡ some w) ⊎ (get w.worker_id d ≡ none)

-- The pool in the middle of `unregister_worker_group`: the futures in the list are to fail.
record Halfway (p0 p : Pool) (failed : List ℕ) : Type 0 where
  filed : WorkersAreFiled p.workers
  tasks : IsUnique p.assignments
  waiting : IsUnique p.futures
  paired : (k : String) → contains k p.futures ≡ contains k p.assignments
  owned : p.closing ≡ false → (k : String) → OwnedBy (get k p.assignments) p.workers
  drops : DropsInto p0.futures p.futures failed
  below : All (λ f. f < p0.promises.created) failed
  bounded : (k : String) → FutureIsBelow (get k p.futures) p0.promises.created
  promises : p.promises ≡ p0.promises
  groups : p.groups ≡ p0.groups
  handlers : p.group_handlers ≡ p0.group_handlers
  routes : p.handler_groups ≡ p0.handler_groups

removed-served :
    (w : Worker) (d : Dict Worker)
    → FoundOrGone d w
    → (a : Assignment) → is_served a d ≡ true
    → same_assignment a (assignment_of w) ≡ false
    → is_served a (remove w.worker_id d) ≡ true
unfolding same_assignment
removed-served w d (inl found) a h other = ground (arith, get-remove w.worker_id a.worker_id d)
removed-served w d (inr gone) a h other = ground (arith, get-remove w.worker_id a.worker_id d)

FoundOrGone-remove :
    (k : String) (d : Dict Worker) (ws : List Worker)
    → All (FoundOrGone d) ws
    → All (FoundOrGone (remove k d)) ws
FoundOrGone-remove k d [] a = tt
FoundOrGone-remove k d (w ∷ ws) a = (one a.0, FoundOrGone-remove k d ws a.1)
  where
    one : FoundOrGone d w → FoundOrGone (remove k d) w
    one (inl found) = ground (arith, get-remove k w.worker_id d)
    one (inr gone) = ground (arith, get-remove k w.worker_id d)

-- One drop behind another.
drops_twice :
    (a b c : Dict ℕ) (xs ys : List ℕ)
    → DropsInto a b xs
    → DropsInto b c ys
    → DropsInto a c (xs ++ ys)
drops_twice a b c xs ys d e k = go (d k) (e k)
  where
    left : (o : Option ℕ) → InIfAny o xs → InIfAny o (xs ++ ys)
    left none h = tt
    left (some i) h = is_in-append i xs ys (inl h)

    right : (o : Option ℕ) → InIfAny o ys → InIfAny o (xs ++ ys)
    right none h = tt
    right (some i) h = is_in-append i xs ys (inr h)

    go :
        (get k b ≡ get k a) ⊎ ((get k b ≡ none) × InIfAny (get k a) xs)
        → (get k c ≡ get k b) ⊎ ((get k c ≡ none) × InIfAny (get k b) ys)
        → (get k c ≡ get k a) ⊎ ((get k c ≡ none) × InIfAny (get k a) (xs ++ ys))
    go (inl x) (inl y) = inl (y ∙ x)
    go (inl x) (inr (y, i)) = inr (y, right (get k a) (subst (λ (o : Option ℕ). InIfAny o ys) x i))
    go (inr (x, i)) (inl y) = inr (y ∙ x, left (get k a) i)
    go (inr (x, i)) (inr (y, j)) = inr (y, left (get k a) i)

retire_worker-Halfway :
    (w : Worker) (p0 p : Pool) (failed : List ℕ)
    → FoundOrGone p.workers w
    → Halfway p0 p failed
    → Halfway p0 (retire_worker w p).0 (failed ++ (retire_worker w p).1)
unfolding retire_worker
retire_worker-Halfway w p0 p failed f h =
    let t = take_worker_futures w p in
    let took = take_worker_futures-TookWorker w p h.tasks h.waiting in
    record {
      filed = remove-WorkersAreFiled w.worker_id p.workers h.filed;
      tasks = took.unique;
      waiting = took.waiting;
      paired = left_paired w p t took h.paired;
      owned = λ s. left_served w p t _ took (h.owned s) (removed-served w p.workers f);
      drops = drops_twice p0.futures p.futures t.futures failed t.failed h.drops took.drops;
      below = All-append _ failed t.failed h.below (took.below p0.promises.created h.bounded);
      bounded = λ k. ground (arith, took.futures k, h.bounded k);
      promises = h.promises;
      groups = h.groups;
      handlers = h.handlers;
      routes = h.routes;
    }

retire_if-Halfway :
    (b : Bool) (w : Worker) (ws : List Worker) (p0 p : Pool) (failed : List ℕ)
    → All (FoundOrGone p.workers) (w ∷ ws)
    → Halfway p0 p failed
    → let r = if b then retire_worker w p else (p, []) in
      Halfway p0 r.0 (failed ++ r.1) × All (FoundOrGone r.0.workers) ws
unfolding retire_worker
retire_if-Halfway true w ws p0 p failed f h =
    (retire_worker-Halfway w p0 p failed f.0 h, FoundOrGone-remove w.worker_id p.workers ws f.1)
retire_if-Halfway false w ws p0 p failed f h =
    (subst (Halfway p0 p) (sym (append-nil failed)) h, f.1)

retire_workers-Halfway :
    (g : String) (ws : List Worker) (p0 p : Pool) (failed : List ℕ)
    → All (FoundOrGone p.workers) ws
    → Halfway p0 p failed
    → Halfway p0 (retire_workers g ws p).0 (failed ++ (retire_workers g ws p).1)
unfolding retire_workers
retire_workers-Halfway g [] p0 p failed f h = subst (Halfway p0 p) (sym (append-nil failed)) h
retire_workers-Halfway g (w ∷ ws) p0 p failed f h =
    let r = if is_in_group g w then retire_worker w p else (p, []) in
    let step = retire_if-Halfway (is_in_group g w) w ws p0 p failed f h in
    subst (Halfway p0 (retire_workers g ws r.0).0)
      (append_assoc failed r.1 (retire_workers g ws r.0).1)
      (retire_workers-Halfway g ws p0 r.0 (failed ++ r.1) step.1 step.0)

All-FoundOrGone : (d : Dict Worker) (ws : List Worker) → All (IsFound d) ws → All (FoundOrGone d) ws
All-FoundOrGone d [] a = tt
All-FoundOrGone d (w ∷ ws) a = (inl a.0, All-FoundOrGone d ws a.1)

-- The routing tables without a group.
Unlinked-TablesAreLinked :
    (g : String) (names : List String) (groups : Dict WorkerGroup) (gh hg hg' : Routes)
    → get g gh ≡ some names
    → Unlinked g names hg (ok tt, hg')
    → TablesAreLinked groups gh hg
    → TablesAreLinked (remove g groups) (remove g gh) hg'
Unlinked-TablesAreLinked g names groups gh hg hg' e u l = record {
  tabled = λ k. ground (arith, l.tabled k, get-remove g k groups, get-remove g k gh);
  linked = λ h k. ground (arith, u h k, l.linked h k, get-remove g k gh, occurs_nil h);
}

fail_retired-IsValid :
    (g : String) (p0 p : Pool) (failed : List ℕ)
    → LedgerIsValid p0.futures p0.promises
    → TablesAreLinked p0.groups p0.group_handlers p0.handler_groups
    → Halfway p0 p failed
    → PoolIsValid (fail_retired g (p, failed))
unfolding fail_retired
fail_retired-IsValid g p0 p failed ledger links h = record {
  filed = h.filed;
  tasks = h.tasks;
  waiting = h.waiting;
  paired = h.paired;
  owned = h.owned;
  ledger =
      subst (λ (ps : Promises). LedgerIsValid p.futures (fail_futures failed (unloaded_error g) ps))
        (sym h.promises)
        (failed-LedgerIsValid p0.futures p.futures failed (unloaded_error g) p0.promises h.drops
          h.below ledger);
  links =
      subst (λ (x : Dict WorkerGroup). TablesAreLinked x p.group_handlers p.handler_groups)
        (sym h.groups)
        (subst (λ (x : Routes). TablesAreLinked p0.groups x p.handler_groups) (sym h.handlers)
          (subst (TablesAreLinked p0.groups p0.group_handlers) (sym h.routes) links));
}

abandon_retired-IsValid :
    (p0 p : Pool) (failed : List ℕ)
    → LedgerIsValid p0.futures p0.promises
    → TablesAreLinked p0.groups p0.group_handlers p0.handler_groups
    → Halfway p0 p failed
    → PoolIsValid (with_promises (abandon failed p.promises) p)
abandon_retired-IsValid p0 p failed ledger links h = record {
  filed = h.filed;
  tasks = h.tasks;
  waiting = h.waiting;
  paired = h.paired;
  owned = h.owned;
  ledger =
      subst (λ (ps : Promises). LedgerIsValid p.futures (abandon failed ps)) (sym h.promises)
        (abandoned-LedgerIsValid p0.futures p.futures failed p0.promises h.drops ledger);
  links =
      subst (λ (x : Dict WorkerGroup). TablesAreLinked x p.group_handlers p.handler_groups)
        (sym h.groups)
        (subst (λ (x : Routes). TablesAreLinked p0.groups x p.handler_groups) (sym h.handlers)
          (subst (TablesAreLinked p0.groups p0.group_handlers) (sym h.routes) links));
}

pub fail_futures_abandoned :
    (fs : List ℕ) (e : Exception) (ps : Promises) → (fail_futures fs e ps).abandoned ≡ ps.abandoned
unfolding fail_futures settle_once
fail_futures_abandoned [] e ps = refl
fail_futures_abandoned (f ∷ fs) e ps =
    fail_futures_abandoned fs e (settle_once f (raise e) ps) ∙ ground arith

-- The outcome of an unload: an exception is that of the stops, in a valid pool, and without one
-- nothing was abandoned.
abbrev pub Unloaded : Outcome (Unit {0}) → Pool → Outcome (Unit {0}) × Pool → Type 0
Unloaded stops p0 (raise e, p) = (stops ≡ raise e) × PoolIsValid p
Unloaded stops p0 (ok t, p) =
    (stops ≡ ok tt) × PoolIsValid p × (p.promises.abandoned ≡ p0.promises.abandoned)

settle_retired-Unloaded :
    (g : String) (stops : Outcome (Unit {0})) (p0 p : Pool) (failed : List ℕ)
    → LedgerIsValid p0.futures p0.promises
    → TablesAreLinked p0.groups p0.group_handlers p0.handler_groups
    → Halfway p0 p failed
    → Unloaded stops p0 (settle_retired g stops (p, failed))
unfolding settle_retired fail_retired
settle_retired-Unloaded g (raise e) p0 p failed ledger links h =
    (refl, abandon_retired-IsValid p0 p failed ledger links h)
settle_retired-Unloaded g (ok t) p0 p failed ledger links h = (
  refl,
  fail_retired-IsValid g p0 p failed ledger links h,
  fail_futures_abandoned failed (unloaded_error g) p.promises
      ∙ ap (λ (ps : Promises). ps.abandoned) h.promises,
)

abbrev pub stops_of : System → String → Pool → Outcome (Unit {0})
stops_of sys g p = dispose_workers sys g (values p.workers)

unload_workers-Unloaded :
    (sys : System) (g : String) (names : List String) (p : Pool) (r : Outcome (Unit {0}) × Routes)
    → get g p.group_handlers ≡ some names
    → Unlinked g names p.handler_groups r
    → PoolIsValid p
    → Unloaded (stops_of sys g p) p (
        unload_workers sys g r
          (record p { groups = remove g p.groups; group_handlers = remove g p.group_handlers }))
unfolding unload_workers
unload_workers-Unloaded sys g names p (raise e, hg) h u v = absurd u
unload_workers-Unloaded sys g names p (ok t, hg) h u v =
    let p0 : Pool = record p {
      groups = remove g p.groups;
      group_handlers = remove g p.group_handlers;
      handler_groups = hg;
      group_cursors = remove g p.group_cursors;
      smooth_weights = remove g p.smooth_weights;
    } in
    let start : Halfway p0 p0 [] = record {
      filed = v.filed;
      tasks = v.tasks;
      waiting = v.waiting;
      paired = v.paired;
      owned = v.owned;
      drops = λ k. inl refl;
      below = tt;
      bounded = v.ledger.waiting;
      promises = refl;
      groups = refl;
      handlers = refl;
      routes = refl;
    } in
    let r = retire_workers g (values p.workers) p0 in
    settle_retired-Unloaded g (stops_of sys g p) p0 r.0 r.1 v.ledger
      (Unlinked-TablesAreLinked g names p.groups p.group_handlers p.handler_groups hg h u v.links)
      (retire_workers-Halfway g (values p.workers) p0 p0 []
        (All-FoundOrGone p.workers (values p.workers) (values-IsFound p.workers v.filed)) start)

unload_group-Unloaded :
    (sys : System) (g : String) (p : Pool) (o : Option (List String))
    → get g p.group_handlers ≡ o
    → PoolIsValid p
    → contains g p.groups ≡ true
    → Unloaded (stops_of sys g p) p (unload_group sys g o (record p { groups = remove g p.groups }))
unfolding unload_group
unload_group-Unloaded sys g p none e v known = absurd (ground (arith, v.links.tabled g))
unload_group-Unloaded sys g p (some names) e v known =
    unload_workers-Unloaded sys g names p (unlink_group g names p.handler_groups) e
      (unlink_group-Unlinked g names p.handler_groups (λ h. ground (arith, v.links.linked h g))) v

-- On a valid pool that is not closing, `unregister_worker_group` of a registered group leaves a valid
-- pool, and raises exactly what the stops of the group's processes raise; if they raise nothing no
-- future is abandoned.
pub unregister-Unloaded :
    (sys : System) (g : String) (p : Pool)
    → PoolIsValid p
    → p.closing || p.close_complete ≡ false
    → contains g p.groups ≡ true
    → Unloaded (stops_of sys g p) p (unregister_worker_group sys g p)
unfolding unregister_worker_group
unregister-Unloaded sys g p v open_ known =
    rw (open_, known) (unload_group-Unloaded sys g p (get g p.group_handlers) refl v known)

Unloaded-IsValid :
    (stops : Outcome (Unit {0})) (p0 : Pool) (r : Outcome (Unit {0}) × Pool)
    → Unloaded stops p0 r
    → PoolIsValid r.1
Unloaded-IsValid stops p0 (raise e, p) h = h.1
Unloaded-IsValid stops p0 (ok t, p) h = h.1

-- Whatever the name and the state of the pool.
pub unregister-IsValid :
    (sys : System) (g : String) (p : Pool)
    → PoolIsValid p
    → PoolIsValid (unregister_worker_group sys g p).1
unfolding unregister_worker_group
unregister-IsValid sys g p v =
    let left : Outcome (Unit {0}) × Pool → Type 0 = λ r. PoolIsValid r.1 in
    if_ind left (p.closing || p.close_complete) (λ _. v)
      λ open_.
        if_ind left (contains g p.groups)
          (λ known.
            Unloaded-IsValid (stops_of sys g p) p _
              (unload_group-Unloaded sys g p (get g p.group_handlers) refl v known))
          (λ _. v)

-- The process of the worker was not closed.
abbrev pub IsOpen : Worker → Type 0
IsOpen w = w.has_process && w.process_closed ≡ false

dispose_worker_open : (sys : System) (w : Worker) → IsOpen w → dispose_worker sys w ≡ ok tt
unfolding dispose_worker stop_process
dispose_worker_open sys w o = ground arith

-- The stops of open processes raise nothing.
dispose_workers_open :
    (sys : System) (g : String) (ws : List Worker)
    → All IsOpen ws
    → dispose_workers sys g ws ≡ ok tt
unfolding dispose_workers
dispose_workers_open sys g [] a = refl
dispose_workers_open sys g (w ∷ ws) a =
    if_ind (λ (r : Outcome (Unit {0})). r ≡ ok tt) (is_in_group g w)
      (λ _. rw (dispose_worker_open sys w a.0) (dispose_workers_open sys g ws a.1))
      (λ _. dispose_workers_open sys g ws a.1)

-- On a valid pool that is not closing, `unregister_worker_group` of a registered group, when no
-- process of a worker was closed before, raises nothing, leaves a valid pool, and abandons no future.
pub unregister_open :
    (sys : System) (g : String) (p : Pool)
    → PoolIsValid p
    → p.closing || p.close_complete ≡ false
    → contains g p.groups ≡ true
    → All IsOpen (values p.workers)
    → ((unregister_worker_group sys g p).0 ≡ ok tt)
      × PoolIsValid (unregister_worker_group sys g p).1
      × ((unregister_worker_group sys g p).1.promises.abandoned ≡ p.promises.abandoned)
unregister_open sys g p v open_ known a =
    go (unregister_worker_group sys g p) (unregister-Unloaded sys g p v open_ known)
      (dispose_workers_open sys g (values p.workers) a)
  where
    go :
        (r : Outcome (Unit {0}) × Pool)
        → Unloaded (stops_of sys g p) p r
        → stops_of sys g p ≡ ok tt
        → (r.0 ≡ ok tt) × PoolIsValid r.1 × (r.1.promises.abandoned ≡ p.promises.abandoned)
    go (raise e, q) u o = absurd cc
    go (ok t, q) u o = (refl, u.1, u.2)
