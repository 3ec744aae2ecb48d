-- ===== src/Pool/Reach.antt =====
-- The pools that the calls reach from the empty one, in any order of the calls.
use infly.Prelude.{true}
use infly.Prelude.{ℕ, ◌<◌, ◌≡◌, refl, inl, false, some, String, List, arith}
use infly.Prelude.Exec.{ok, raise}
use infly.Dict.{get}
use infly.Core.Errors.{Outcome}
use infly.Core.Contracts.{TaskRequest, TaskResult}
use infly.Config.{WorkerGroup}
use infly.Registry.{HandlerRegistry}
use infly.Pool.State.{Pool, Worker, System, settle_once, with_promises}
use infly.Pool.Assignment.{execute}
use infly.Pool.Messages.{WorkerResultMessage}
use infly.Pool.Results.{receive_result}
use infly.Pool.Supervision.{WorkerRef, current}
use infly.Pool.Watch.{supervise, finish_restart}
use infly.Pool.Groups.{publish_group}
use infly.Pool.Unloading.{unregister_worker_group}
use infly.Pool.Building.{empty_pool}
use infly.Pool.Closing.{begin_close, complete_close, finish_close}
use infly.Core.Errors.{Exception}
use infly.Pool.State.{store_worker}
use infly.Pool.Exits.{fail_all-IsValid}
use infly.Pool.Restarts.{begin_shutdown-IsValid, stopped-IsValid, complete_close-IsValid}
use infly.Pool.Supervision.{begin_shutdown, stop_process, fail_all_pending}
use infly.Pool.Ledger.{settle_once-Extends, settle_once-PromisesAreValid, drop-LedgerIsValid}
use infly.Pool.Validity.{PoolIsValid, Returns, execute-Returns}
use infly.Pool.Receipts.{receive_result-IsValid}
use infly.Pool.Restarts.{
  supervise-IsValid, finish_restart-IsValid, begin_close-IsValid, finish_close-IsValid,
}
use infly.Pool.Publishing.{AreNew, publish_group-IsValid}
use infly.Pool.Membership.{unregister-IsValid}

-- One critical section of a thread, or one stop of a process between two of them. Whoever holds a
-- future may set or cancel it.
pub data Step (p : Pool) : Pool → Type 0 where
  executes : (sys : System) (request : TaskRequest) → Step p (execute sys request p).1
  receives : (item : WorkerResultMessage) → Step p (receive_result item p)
  supervises :
      (sys : System) (now later : ℕ) (ref : WorkerRef) → Step p (supervise sys now later ref p).1
  finishes_restart :
      (sys : System) (later : ℕ) (outcome : Outcome (Unit {0})) (ref : WorkerRef)
      → ((w : Worker) → current ref p ≡ some w → w.alive ≡ false)
      → Step p (finish_restart sys later outcome ref p).1
  publishes :
      (group : WorkerGroup) (names : List String) (ws : List Worker)
      → AreNew ws p.workers
      → Step p (publish_group group names ws p).1
  unregisters : (sys : System) (g : String) → Step p (unregister_worker_group sys g p).1
  begins_close : Step p (begin_close p)
  begins_shutdown : Step p (begin_shutdown p)
  stops :
      (sys : System) (w : Worker)
      → p.closing ≡ true
      → get w.worker_id p.workers ≡ some w
      → Step p (store_worker (stop_process sys w).1 p)
  fails_pending : (e : Exception) → Step p (fail_all_pending e p)
  completes_close : Step p (complete_close p)
  finishes_close : (sys : System) → p.closing ≡ true → Step p (finish_close sys p).1
  sets :
      (i : ℕ) (outcome : Outcome TaskResult)
      → i < p.promises.created
      → Step p (with_promises (settle_once i outcome p.promises) p)

-- What the steps reach from a pool.
pub data Reach (p : Pool) : Pool → Type 0 where
  initially : Reach p p
  then_step : (q r : Pool) → Reach p q → Step q r → Reach p r

pub empty_pool-IsValid : (registry : HandlerRegistry) → PoolIsValid (empty_pool registry)
unfolding get infly.Pool.Links.occurs
empty_pool-IsValid registry = record {
  filed = record { unique = tt; filed = tt };
  tasks = tt;
  waiting = tt;
  paired = λ k. refl;
  owned = λ s k. tt;
  ledger = record {
    promises = record { below = tt; once = tt };
    waiting = λ k. tt;
    kept = λ i. inl (ground arith);
  };
  links = record { tabled = λ g. refl; linked = λ h g. refl };
}

sets-IsValid :
    (i : ℕ) (o : Outcome TaskResult) (p : Pool)
    → i < p.promises.created
    → PoolIsValid p
    → PoolIsValid (with_promises (settle_once i o p.promises) p)
sets-IsValid i o p l v = record {
  filed = v.filed;
  tasks = v.tasks;
  waiting = v.waiting;
  paired = v.paired;
  owned = v.owned;
  ledger =
      drop-LedgerIsValid p.futures p.futures p.promises _ (λ k. inl refl)
        (settle_once-Extends i o p.promises)
        (settle_once-PromisesAreValid i o p.promises l v.ledger.promises) v.ledger;
  links = v.links;
}

Returns-IsValid : (i : ℕ) (r : Outcome ℕ × Pool) → Returns i r → PoolIsValid r.1
Returns-IsValid i (ok j, p) h = h.1
Returns-IsValid i (raise e, p) h = absurd h

Step-IsValid : {p q : Pool} → Step p q → PoolIsValid p → PoolIsValid q
Step-IsValid {p} (executes sys request) v =
    Returns-IsValid p.promises.created (execute sys request p) (execute-Returns sys request p v)
Step-IsValid {p} (receives item) v = receive_result-IsValid item p v
Step-IsValid {p} (supervises sys now later ref) v = supervise-IsValid sys now later ref p v
Step-IsValid {p} (finishes_restart sys later outcome ref dead) v =
    finish_restart-IsValid sys later outcome ref p dead v
Step-IsValid {p} (publishes group names ws new) v = publish_group-IsValid group names ws p new v
Step-IsValid {p} (unregisters sys g) v = unregister-IsValid sys g p v
Step-IsValid {p} begins_close v = begin_close-IsValid p v
Step-IsValid {p} begins_shutdown v = begin_shutdown-IsValid p v
Step-IsValid {p} (stops sys w c found) v = stopped-IsValid sys w p c v
Step-IsValid {p} (fails_pending e) v = fail_all-IsValid e p v
Step-IsValid {p} completes_close v = complete_close-IsValid p v
Step-IsValid {p} (finishes_close sys c) v = finish_close-IsValid sys p c v
Step-IsValid {p} (sets i outcome l) v = sets-IsValid i outcome p l v

pub Reach-IsValid : (p q : Pool) → PoolIsValid p → Reach p q → PoolIsValid q
Reach-IsValid p q v initially = v
Reach-IsValid p q v (then_step m r reach step) = Step-IsValid step (Reach-IsValid p m v reach)

-- In every pool that calls reach, in any order, from the pool with no group, exactly the tasks with a
-- future have an assignment, and while the pool is not closing each is to a worker of the pool that
-- is marked alive, in its present generation; every future ever made is set, waits under a task, or
-- was abandoned by an unload whose stops raised, and none was set twice; and a handler leads to a
-- group exactly as often as the group has it. The calls are those of `Step`: a group is published
-- with worker ids that are not in use, and a restart ends for a worker that is not marked alive.
pub reached-IsValid :
    (registry : HandlerRegistry) (p : Pool) → Reach (empty_pool registry) p → PoolIsValid p
reached-IsValid registry p reach =
    Reach-IsValid (empty_pool registry) p (empty_pool-IsValid registry) reach
