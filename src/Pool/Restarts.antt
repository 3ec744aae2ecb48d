-- ===== src/Pool/Restarts.antt =====
-- Exits and restarts of workers, and closing, keep a pool valid.
use infly.Prelude.{
  ℕ, ◌≡◌, refl, ap, ◌∙◌, true, false, not, ◌&&◌, ◌||◌, Option, none, some, String, arith, text_dec,
  if_ind, ite_ind,
}
use infly.Prelude.Exec.{ok, raise}
use infly.Dict.{get, get-insert}
use infly.Core.Errors.{Outcome}
use infly.Registry.{HandlerRegistry}
use infly.Pool.State.{Pool, Worker, System, store_worker}
use infly.Pool.Launch.{relaunched, worker_registry}
use infly.Pool.Supervision.{
  WorkerRef, same_object, current, take_worker_futures, fail_taken, schedule_restart, stop_unless,
  stop_process, shutdown_after_failure, after_exit, gone, exit_of, taken_down, handle_worker_exit,
  exited_error,
}
use infly.Pool.Watch.{
  half_launched, noted_restart, restart_failed, restart_launched, begin_restart, restart_ended,
  detached_ended, ended_for, finish_restart, supervise, supervise_worker, is_due,
}
use infly.Core.Errors.{Action, Exception}
use infly.Pool.Supervision.{
  stop_workers, stop_each, begin_shutdown, fail_stopped, shut_error, fail_all_pending,
}
use infly.Pool.Watch.{after_stop}
use infly.Pool.Tables.{stop_each-WorkersAreFiled, map_workers-WorkersAreFiled}
use infly.Dict.{values, Dict}
use infly.Pool.Closing.{
  begin_close, complete_close, finish_close, stop_pinged, closed_down, ping_all, without_queue,
  closed_early,
}
use infly.Pool.Tables.{WorkersAreFiled, insert-WorkersAreFiled, insert_served}
use infly.Pool.Validity.{PoolIsValid, owned_kept}
use infly.Pool.Receipts.{found_id}
use infly.Pool.Exits.{
  take_worker_futures-TookWorker, failed-LedgerIsValid, left_served, left_paired, insert_dead,
  exit-served, fail_all-IsValid, owned_nil,
}

pub stop_process-id : (sys : System) (w : Worker) → (stop_process sys w).1.worker_id ≡ w.worker_id
unfolding stop_process
stop_process-id sys w = ground arith

stop_unless-id :
    (sys : System) (id : String) (w : Worker) → (stop_unless sys id w).1.worker_id ≡ w.worker_id
stop_unless-id sys id w = ground (arith, stop_process-id sys w)

-- While the pool is closing, workers may change but for their ids.
closing-IsValid :
    (ws : Dict Worker) (p : Pool)
    → p.closing ≡ true
    → WorkersAreFiled ws
    → PoolIsValid p
    → PoolIsValid (record p { workers = ws })
closing-IsValid ws p c f v = record {
  filed = f;
  tasks = v.tasks;
  waiting = v.waiting;
  paired = v.paired;
  owned = λ open_. absurd (ground (arith, c, open_));
  ledger = v.ledger;
  links = v.links;
}

pub stop_workers-IsValid :
    (stop : Action Worker (Unit {0})) (same : (w : Worker) → (stop w).1.worker_id ≡ w.worker_id)
    (p : Pool)
    → p.closing ≡ true
    → PoolIsValid p
    → PoolIsValid (stop_workers stop p).1
unfolding stop_workers
stop_workers-IsValid stop same p c v =
    closing-IsValid (stop_each stop p.workers).1 p c
      (stop_each-WorkersAreFiled stop same p.workers v.filed) v

-- One of those stops.
pub stopped-IsValid :
    (sys : System) (w : Worker) (p : Pool)
    → p.closing ≡ true
    → PoolIsValid p
    → PoolIsValid (store_worker (stop_process sys w).1 p)
stopped-IsValid sys w p c v =
    closing-IsValid _ p c (insert-WorkersAreFiled (stop_process sys w).1 p.workers v.filed) v

pub begin_shutdown-IsValid : (p : Pool) → PoolIsValid p → PoolIsValid (begin_shutdown p)
begin_shutdown-IsValid p v = record {
  filed = v.filed;
  tasks = v.tasks;
  waiting = v.waiting;
  paired = v.paired;
  owned = λ open_. absurd cc;
  ledger = v.ledger;
  links = v.links;
}

fail_stopped-IsValid :
    (e : Exception) (r : Outcome (Unit {0}) × Pool)
    → PoolIsValid r.1
    → PoolIsValid (fail_stopped e r).1
unfolding fail_stopped
fail_stopped-IsValid e (raise x, p) v = v
fail_stopped-IsValid e (ok t, p) v = fail_all-IsValid e p v

shutdown-IsValid :
    (sys : System) (id : String) (p : Pool)
    → PoolIsValid p
    → PoolIsValid (shutdown_after_failure sys id p).1
unfolding shutdown_after_failure
shutdown-IsValid sys id p v =
    fail_stopped-IsValid (shut_error id) (stop_workers (stop_unless sys id) (begin_shutdown p)) (
      stop_workers-IsValid (stop_unless sys id) (stop_unless-id sys id) (begin_shutdown p) refl
        (begin_shutdown-IsValid p v))

-- A valid pool behind a call.
abbrev pub Leaves : Outcome (Unit {0}) × Pool → Type 0
Leaves r = PoolIsValid r.1

-- A change of a worker that keeps its id, its generation and whether it lives.
update-IsValid :
    (w w' : Worker) (p : Pool)
    → get w.worker_id p.workers ≡ some w
    → w'.worker_id ≡ w.worker_id
    → w'.alive ≡ w.alive
    → w'.generation ≡ w.generation
    → PoolIsValid p
    → PoolIsValid (store_worker w' p)
update-IsValid w w' p found a b c v = record {
  filed = insert-WorkersAreFiled w' p.workers v.filed;
  tasks = v.tasks;
  waiting = v.waiting;
  paired = v.paired;
  owned = λ s k.
      owned_kept (get k p.assignments) (get k p.assignments) p.workers _ refl
        (insert_served w w' p.workers found a b c) (v.owned s k);
  ledger = v.ledger;
  links = v.links;
}

-- Any change of a worker that does not live, but for its id.
pub revive-IsValid :
    (w w' : Worker) (p : Pool)
    → get w.worker_id p.workers ≡ some w
    → w.alive ≡ false
    → w'.worker_id ≡ w.worker_id
    → PoolIsValid p
    → PoolIsValid (store_worker w' p)
revive-IsValid w w' p found dead same v = record {
  filed = insert-WorkersAreFiled w' p.workers v.filed;
  tasks = v.tasks;
  waiting = v.waiting;
  paired = v.paired;
  owned = λ s k.
      owned_kept (get k p.assignments) (get k p.assignments) p.workers _ refl
        (insert_dead w w' p.workers found dead same) (v.owned s k);
  ledger = v.ledger;
  links = v.links;
}

schedule_restart-id : (now : ℕ) (w : Worker) → (schedule_restart now w).worker_id ≡ w.worker_id
unfolding schedule_restart
schedule_restart-id now w = ground arith

after_exit-IsValid :
    (sys : System) (now : ℕ) (w : Worker) (p : Pool)
    → get w.worker_id p.workers ≡ some w
    → w.alive ≡ false
    → PoolIsValid p
    → PoolIsValid (after_exit sys now w p).1
unfolding after_exit
after_exit-IsValid sys now w p found dead v =
    ite_ind Leaves (text_dec w.group.safety.mode "shutdown")
      (λ _. shutdown-IsValid sys w.worker_id p v)
      λ _.
        ite_ind PoolIsValid (text_dec w.group.safety.mode "restart")
          (λ _.
            revive-IsValid w (schedule_restart now w) p found dead (schedule_restart-id now w) v)
          (λ _. v)

pub exit_of-IsValid :
    (sys : System) (now : ℕ) (w : Worker) (p : Pool)
    → get w.worker_id p.workers ≡ some w
    → PoolIsValid p
    → PoolIsValid (exit_of sys now w p).1
unfolding exit_of taken_down fail_taken
exit_of-IsValid sys now w p found v =
    let t = take_worker_futures w p in
    let took = take_worker_futures-TookWorker w p v.tasks v.waiting in
    after_exit-IsValid sys now (gone w) (taken_down w p)
      (ground (arith, get-insert w.worker_id w.worker_id (gone w) p.workers)) refl
      (record {
        filed = insert-WorkersAreFiled (gone w) p.workers v.filed;
        tasks = took.unique;
        waiting = took.waiting;
        paired = left_paired w p t took v.paired;
        owned = λ s. left_served w p t _ took (v.owned s) (exit-served w p.workers found);
        ledger =
            failed-LedgerIsValid p.futures t.futures t.failed (exited_error w.worker_id) p.promises
              took.drops (took.below p.promises.created v.ledger.waiting) v.ledger;
        links = v.links;
      })

-- What `current` returns is the worker of the table under its id.
pub current_found :
    (ref : WorkerRef) (p : Pool) (w : Worker)
    → WorkersAreFiled p.workers
    → current ref p ≡ some w
    → get w.worker_id p.workers ≡ some w
unfolding current same_object
current_found ref p w f h = go (get ref.worker_id p.workers) refl h
  where
    go :
        (o : Option Worker)
        → get ref.worker_id p.workers ≡ o
        → same_object ref.ident o ≡ some w
        → get w.worker_id p.workers ≡ some w
    go none e s = absurd cc
    go (some x) e s =
        let same : x ≡ w = ground arith in
        let e' : get ref.worker_id p.workers ≡ some w = e ∙ ap (λ (y : Worker). some y) same in
        ap (λ (k : String). get k p.workers) (found_id ref.worker_id w p.workers f.filed e') ∙ e'

restart_failed-IsValid :
    (sys : System) (later : ℕ) (w w' : Worker) (p : Pool)
    → get w.worker_id p.workers ≡ some w
    → w.alive ≡ false
    → w'.worker_id ≡ w.worker_id
    → PoolIsValid p
    → PoolIsValid (restart_failed sys later w' p).1
unfolding restart_failed after_stop
restart_failed-IsValid sys later w w' p found dead same v =
    go (stop_process sys w') (stop_process-id sys w' ∙ same)
  where
    go :
        (r : Outcome (Unit {0}) × Worker)
        → r.1.worker_id ≡ w.worker_id
        → PoolIsValid (after_stop later r p).1
    go (raise e, x) id = revive-IsValid w x p found dead id v
    go (ok t, x) id =
        if_ind PoolIsValid p.closing (λ _. revive-IsValid w x p found dead id v)
          (λ _.
            revive-IsValid w (schedule_restart later x) p found dead
              (schedule_restart-id later x ∙ id) v)

begin_restart-IsValid :
    (sys : System) (now : ℕ) (w : Worker) (p : Pool)
    → get w.worker_id p.workers ≡ some w
    → w.alive ≡ false
    → PoolIsValid p
    → PoolIsValid (begin_restart sys now w p).1
unfolding begin_restart
begin_restart-IsValid sys now w p found dead v =
    if_ind Leaves p.closing (λ _. v) (λ _. go (worker_registry p.registry w))
  where
    go :
        (r : Outcome HandlerRegistry)
        → PoolIsValid (restart_launched sys now r (noted_restart now w) p).1
    go (ok child) = revive-IsValid w (relaunched (noted_restart now w)) p found dead refl v
    go (raise e) =
        restart_failed-IsValid sys now w (half_launched (noted_restart now w)) p found dead refl v

pub restart_ended-IsValid :
    (sys : System) (later : ℕ) (outcome : Outcome (Unit {0})) (w : Worker) (p : Pool)
    → get w.worker_id p.workers ≡ some w
    → w.alive ≡ false
    → PoolIsValid p
    → PoolIsValid (restart_ended sys later outcome w p).1
unfolding restart_ended
restart_ended-IsValid sys later (ok t) w p found dead v =
    revive-IsValid w (record w { alive = true }) p found dead refl v
restart_ended-IsValid sys later (raise e) w p found dead v =
    restart_failed-IsValid sys later w w p found dead refl v

pub supervise-IsValid :
    (sys : System) (now later : ℕ) (ref : WorkerRef) (p : Pool)
    → PoolIsValid p
    → PoolIsValid (supervise sys now later ref p).1
unfolding supervise supervise_worker handle_worker_exit
supervise-IsValid sys now later ref p v = go (current ref p) refl
  where
    go :
        (o : Option Worker) → current ref p ≡ o → PoolIsValid (supervise_worker sys now later o p).1
    go none e = v
    go (some w) e =
        let found = current_found ref p w v.filed e in
        if_ind Leaves p.closing (λ _. v)
          λ _.
            if_ind Leaves (w.alive && (not w.has_process || not (sys.is_alive w)))
              (λ _. if_ind Leaves w.alive (λ _. exit_of-IsValid sys now w p found v) (λ _. v))
              λ _.
                if_ind Leaves (not w.alive && is_due w.next_restart_at now)
                  (λ due. begin_restart-IsValid sys later w p found (ground arith) v) (λ _. v)

pub finish_restart-IsValid :
    (sys : System) (later : ℕ) (outcome : Outcome (Unit {0})) (ref : WorkerRef) (p : Pool)
    → ((w : Worker) → current ref p ≡ some w → w.alive ≡ false)
    → PoolIsValid p
    → PoolIsValid (finish_restart sys later outcome ref p).1
unfolding finish_restart ended_for detached_ended
finish_restart-IsValid sys later outcome ref p dead v = go (current ref p) refl outcome
  where
    go :
        (o : Option Worker)
        → current ref p ≡ o
        → (r : Outcome (Unit {0})) → PoolIsValid (ended_for sys later r ref.group_name o p).1
    go none e (ok t) = v
    go none e (raise x) = v
    go (some w) e r =
        restart_ended-IsValid sys later r w p (current_found ref p w v.filed e) (dead w e) v

pub begin_close-IsValid : (p : Pool) → PoolIsValid p → PoolIsValid (begin_close p)
unfolding begin_close
begin_close-IsValid p v =
    if_ind PoolIsValid p.close_complete (λ _. v) (λ _. begin_shutdown-IsValid p v)

pub complete_close-IsValid : (p : Pool) → PoolIsValid p → PoolIsValid (complete_close p)
unfolding complete_close
complete_close-IsValid p v =
    let w = fail_all-IsValid closed_early p v in
    record {
      filed =
          map_workers-WorkersAreFiled without_queue (λ x. refl)
            (fail_all_pending closed_early p).workers w.filed;
      tasks = w.tasks;
      waiting = w.waiting;
      paired = w.paired;
      owned = λ s k. owned_nil _ k;
      ledger = w.ledger;
      links = w.links;
    }

pub finish_close-IsValid :
    (sys : System) (p : Pool)
    → p.closing ≡ true
    → PoolIsValid p
    → PoolIsValid (finish_close sys p).1
unfolding finish_close stop_pinged closed_down
finish_close-IsValid sys p c v = go (ping_all (values p.workers))
  where
    down : (r : Outcome (Unit {0}) × Pool) → PoolIsValid r.1 → PoolIsValid (closed_down r).1
    down (raise e, q) w = w
    down (ok t, q) w = complete_close-IsValid q w

    go : (o : Outcome (Unit {0})) → PoolIsValid (stop_pinged sys o p).1
    go (raise e) = v
    go (ok t) =
        down (stop_workers (stop_process sys) p)
          (stop_workers-IsValid (stop_process sys) (stop_process-id sys) p c v)
