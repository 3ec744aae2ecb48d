-- ===== src/Pool/Outside.antt =====
-- The calls of the pool do to the futures what their holders are promised.
use infly.Prelude.{
  ℕ, ◌≡◌, refl, sym, ap, subst, ◌∙◌, inl, inr, Bool, true, false, not, ◌&&◌, ◌||◌, Option, none,
  some, String, List, [], ◌∷◌, arith, if◌then◌else◌, if_ind, ite_ind, text_dec, length,
}
use infly.Prelude.Exec.{ok, raise, and_then}
use infly.Dict.{Dict, get, contains, remove, values}
use infly.Core.Errors.{Outcome}
use infly.Core.Contracts.{TaskRequest}
use infly.Config.{WorkerGroup}
use infly.Registry.{HandlerRegistry}
use infly.Pool.State.{Promises, Pool, Worker, System, settle, or_empty}
use infly.Pool.Routing.{is_in_group}
use infly.Pool.Launch.{worker_registry}
use infly.Pool.Assignment.{execute, admit, assign, try_groups, give_back, live_groups}
use infly.Pool.Messages.{WorkerResultMessage, outcome_of}
use infly.Pool.Results.{receive_result, accept_result, settle_found, is_assignment}
use infly.Pool.Supervision.{
  exited_error, taken_down, take_worker_futures, fail_taken, WorkerRef, current, fail_all_pending,
  shutdown_after_failure, after_exit, gone, exit_of, handle_worker_exit,
}
use infly.Pool.Watch.{
  half_launched, restart_failed, noted_restart, restart_launched, begin_restart, restart_ended,
  detached_ended, ended_for, finish_restart, supervise_worker, supervise, is_due,
}
use infly.Pool.Groups.{publish_group, published, ensure_can_register, publish}
use infly.Pool.Unloading.{
  retire_worker, retire_workers, fail_retired, unload_workers, unlink_group, unload_group,
  unregister_worker_group, unloaded_error,
}
use infly.Pool.Closing.{begin_close, finish_close}
use infly.Pool.Ledger.{made}
use infly.Pool.Search.{AreKnown}
use infly.Pool.Rounds.{SearchEnds, try_groups-SearchEnds}
use infly.Pool.Links.{routes_known}
use infly.Pool.Validity.{PoolIsValid, entered, entered-Open, AreKnown-live_groups}
use infly.Core.Errors.{Action, Exception}
use infly.Pool.Supervision.{
  stop_process, stop_workers, stop_unless, fail_stopped, shut_error, begin_shutdown,
}
use infly.Pool.Watch.{after_stop}
use infly.Pool.Unloading.{settle_retired, dispose_workers}
use infly.Pool.Closing.{complete_close, closed_down, stop_pinged, ping_all, closed_early}
use infly.Pool.Reach.{begins_shutdown, stops, fails_pending, completes_close}
use infly.Pool.History.{
  Follows, Follows-refl, Follows-trans, Noted, Noted-Follows, Advance, Follows-Advance, status,
  settle_once-Follows, fail_futures-Follows,
}
use infly.Pool.Reach.{
  Step, executes, receives, supervises, finishes_restart, publishes, unregisters, begins_close,
  finishes_close, sets, Reach, initially, then_step, Reach-IsValid,
}

abbrev pub Continues : Pool → Pool → Type 0
Continues p q = Follows p.promises q.promises

same_promises : (p q : Pool) → q.promises ≡ p.promises → Continues p q
same_promises p q e = subst (Follows p.promises) (sym e) (Follows-refl p.promises)

assign-Noted :
    (sys : System) (request : TaskRequest) (gs : List String) (p : Pool)
    → PoolIsValid p
    → get request.task_id p.futures ≡ none
    → AreKnown p.groups gs
    → Noted p.promises
        (assign sys request p.promises.created gs
          (record p { promises = made p.promises })).1.promises
unfolding assign give_back
assign-Noted sys request [] p v new a = inr (_, refl)
assign-Noted sys request (g ∷ gs) p v new a =
    go (try_groups (length (g ∷ gs)) sys request (g ∷ gs) (entered request.task_id p)) (
      try_groups-SearchEnds (length (g ∷ gs)) sys request (g ∷ gs) (entered request.task_id p)
        (entered request.task_id p) a (entered-Open request.task_id p v new))
  where
    go :
        (q : Outcome Bool × Pool)
        → SearchEnds request.task_id (entered request.task_id p) q
        → Noted p.promises (and_then q.0 (give_back request p.promises.created) q.1).1.promises
    go (raise e, q) s = absurd s
    go (ok true, q) s = inl s.promises
    go (ok false, q) s = inr (_, ap (settle p.promises.created _) s.promises)

execute-Noted :
    (sys : System) (request : TaskRequest) (p : Pool)
    → PoolIsValid p
    → Noted p.promises (execute sys request p).1.promises
unfolding execute admit
execute-Noted sys request p v =
    let notes : Outcome ℕ × Pool → Type 0 = λ r. Noted p.promises r.1.promises in
    ite_ind {A = Outcome ℕ × Pool} notes (text_dec request.task_id "") (λ _. inr (_, refl))
      λ _.
        if_ind notes (not p.accepting) (λ _. inr (_, refl))
          λ _.
            if_ind notes (contains request.task_id p.futures) (λ _. inr (_, refl))
              λ new.
                let routed = or_empty (get request.handler_name p.handler_groups) in
                assign-Noted sys request
                  (live_groups sys (record p { promises = made p.promises }) routed) p v
                  (ground arith)
                  (AreKnown-live_groups p.groups sys (record p { promises = made p.promises })
                    routed (routes_known request.handler_name v.links))

receive-Continues : (item : WorkerResultMessage) (p : Pool) → Continues p (receive_result item p)
unfolding receive_result accept_result settle_found
receive-Continues item p =
    if_ind (Continues p) (is_assignment (get item.task_id p.assignments) item)
      (λ _. go (get item.task_id p.futures)) (λ _. Follows-refl p.promises)
  where
    go : (f : Option ℕ) → Follows p.promises (settle_found f (outcome_of item.reply) p.promises)
    go none = Follows-refl p.promises
    go (some i) = settle_once-Follows i (outcome_of item.reply) p.promises

stop_workers-Continues :
    (stop : Action Worker (Unit {0})) (p : Pool) → Continues p (stop_workers stop p).1
unfolding stop_workers
stop_workers-Continues stop p = Follows-refl p.promises

fail_all-Continues : (e : Exception) (p : Pool) → Continues p (fail_all_pending e p)
unfolding fail_all_pending
fail_all-Continues e p = fail_futures-Follows (values p.futures) e p.promises

fail_stopped-Continues :
    (e : Exception) (r : Outcome (Unit {0}) × Pool) → Continues r.1 (fail_stopped e r).1
unfolding fail_stopped
fail_stopped-Continues e (raise x, p) = Follows-refl p.promises
fail_stopped-Continues e (ok t, p) = fail_all-Continues e p

-- What a call leaves of the futures of a pool.
abbrev Onward : Pool → Outcome (Unit {0}) × Pool → Type 0
Onward p r = Continues p r.1

shutdown-Continues :
    (sys : System) (id : String) (p : Pool) → Onward p (shutdown_after_failure sys id p)
unfolding shutdown_after_failure stop_workers
shutdown-Continues sys id p =
    fail_stopped-Continues (shut_error id) (stop_workers (stop_unless sys id) (begin_shutdown p))

after_exit-Continues :
    (sys : System) (now : ℕ) (w : Worker) (p : Pool) → Onward p (after_exit sys now w p)
unfolding after_exit
after_exit-Continues sys now w p =
    ite_ind (Onward p) (text_dec w.group.safety.mode "shutdown")
      (λ _. shutdown-Continues sys w.worker_id p)
      λ _.
        ite_ind (Continues p) (text_dec w.group.safety.mode "restart")
          (λ _. Follows-refl p.promises) (λ _. Follows-refl p.promises)

exit_of-Continues :
    (sys : System) (now : ℕ) (w : Worker) (p : Pool) → Onward p (exit_of sys now w p)
unfolding exit_of taken_down fail_taken
exit_of-Continues sys now w p =
    Follows-trans p.promises (taken_down w p).promises (exit_of sys now w p).1.promises
      (fail_futures-Follows (take_worker_futures w p).failed (exited_error w.worker_id) p.promises)
      (after_exit-Continues sys now (gone w) (taken_down w p))

restart_failed-Continues :
    (sys : System) (later : ℕ) (w : Worker) (p : Pool) → Onward p (restart_failed sys later w p)
unfolding restart_failed after_stop
restart_failed-Continues sys later w p = go (stop_process sys w)
  where
    go : (r : Outcome (Unit {0}) × Worker) → Onward p (after_stop later r p)
    go (raise e, x) = Follows-refl p.promises
    go (ok t, x) =
        if_ind (Continues p) p.closing (λ _. Follows-refl p.promises) (λ _. Follows-refl p.promises)

begin_restart-Continues :
    (sys : System) (now : ℕ) (w : Worker) (p : Pool) → Onward p (begin_restart sys now w p)
unfolding begin_restart restart_launched
begin_restart-Continues sys now w p =
    if_ind (Onward p) p.closing (λ _. Follows-refl p.promises)
      (λ _. go (worker_registry p.registry w))
  where
    go :
        (r : Outcome HandlerRegistry)
        → Onward p (restart_launched sys now r (noted_restart now w) p)
    go (ok child) = Follows-refl p.promises
    go (raise e) = restart_failed-Continues sys now (half_launched (noted_restart now w)) p

supervise-Continues :
    (sys : System) (now later : ℕ) (ref : WorkerRef) (p : Pool)
    → Onward p (supervise sys now later ref p)
unfolding supervise supervise_worker handle_worker_exit
supervise-Continues sys now later ref p = go (current ref p)
  where
    go : (o : Option Worker) → Onward p (supervise_worker sys now later o p)
    go none = Follows-refl p.promises
    go (some w) =
        if_ind (Onward p) p.closing (λ _. Follows-refl p.promises)
          λ _.
            if_ind (Onward p) (w.alive && (not w.has_process || not (sys.is_alive w)))
              (λ _.
                if_ind (Onward p) w.alive (λ _. exit_of-Continues sys now w p)
                  (λ _. Follows-refl p.promises))
              λ _.
                if_ind (Onward p) (not w.alive && is_due w.next_restart_at now)
                  (λ _. begin_restart-Continues sys later w p) (λ _. Follows-refl p.promises)

finish_restart-Continues :
    (sys : System) (later : ℕ) (outcome : Outcome (Unit {0})) (ref : WorkerRef) (p : Pool)
    → Onward p (finish_restart sys later outcome ref p)
unfolding finish_restart ended_for detached_ended restart_ended
finish_restart-Continues sys later outcome ref p = go (current ref p) outcome
  where
    go :
        (o : Option Worker) (r : Outcome (Unit {0}))
        → Onward p (ended_for sys later r ref.group_name o p)
    go none (ok t) = Follows-refl p.promises
    go none (raise x) = Follows-refl p.promises
    go (some w) (ok t) = Follows-refl p.promises
    go (some w) (raise x) = restart_failed-Continues sys later w p

publish_group-Continues :
    (group : WorkerGroup) (names : List String) (ws : List Worker) (p : Pool)
    → Continues p (publish_group group names ws p).1
unfolding publish_group published publish
publish_group-Continues group names ws p = go (ensure_can_register group.name p)
  where
    go : (r : Outcome (Unit {0})) → Continues p (published group names ws r p).1
    go (ok t) = Follows-refl p.promises
    go (raise e) = Follows-refl p.promises

retire_workers-same :
    (g : String) (ws : List Worker) (p : Pool) → (retire_workers g ws p).0.promises ≡ p.promises
unfolding retire_workers retire_worker
retire_workers-same g [] p = refl
retire_workers-same g (w ∷ ws) p =
    let r = if is_in_group g w then retire_worker w p else (p, []) in
    retire_workers-same g ws r.0
    ∙ if_ind (λ (q : Pool × List ℕ). q.0.promises ≡ p.promises) (is_in_group g w) (λ _. refl)
        (λ _. refl)

settle_retired-Continues :
    (g : String) (stops : Outcome (Unit {0})) (q : Pool) (failed : List ℕ)
    → Continues q (settle_retired g stops (q, failed)).1
unfolding settle_retired fail_retired
settle_retired-Continues g (raise e) q failed = record {
  grows = (Follows-refl q.promises).grows;
  kept = λ i o h. h;
}
settle_retired-Continues g (ok t) q failed =
    fail_futures-Follows failed (unloaded_error g) q.promises

unload_workers-Continues :
    (sys : System) (g : String) (r : Outcome (Unit {0}) × Dict (List String)) (q : Pool)
    → Onward q (unload_workers sys g r q)
unfolding unload_workers
unload_workers-Continues sys g (raise e, hg) q = Follows-refl q.promises
unload_workers-Continues sys g (ok t, hg) q =
    let q' = record q {
      handler_groups = hg;
      group_cursors = remove g q.group_cursors;
      smooth_weights = remove g q.smooth_weights;
    } in
    let r = retire_workers g (values q.workers) q' in
    let stops = dispose_workers sys g (values q.workers) in
    subst (λ (ps : Promises). Follows ps (settle_retired g stops r).1.promises)
      (retire_workers-same g (values q.workers) q') (settle_retired-Continues g stops r.0 r.1)

unregister-Continues :
    (sys : System) (g : String) (p : Pool) → Onward p (unregister_worker_group sys g p)
unfolding unregister_worker_group unload_group
unregister-Continues sys g p =
    if_ind (Onward p) (p.closing || p.close_complete) (λ _. Follows-refl p.promises)
      λ _.
        if_ind (Onward p) (contains g p.groups) (λ _. go (get g p.group_handlers))
          (λ _. Follows-refl p.promises)
  where
    without : Pool
    without = record p { groups = remove g p.groups }

    go : (o : Option (List String)) → Onward p (unload_group sys g o without)
    go none = Follows-refl p.promises
    go (some names) =
        unload_workers-Continues sys g (unlink_group g names p.handler_groups)
          (record without { group_handlers = remove g p.group_handlers })

complete_close-Continues : (p : Pool) → Continues p (complete_close p)
unfolding complete_close
complete_close-Continues p = fail_all-Continues closed_early p

finish_close-Continues : (sys : System) (p : Pool) → Onward p (finish_close sys p)
unfolding finish_close stop_pinged closed_down
finish_close-Continues sys p = go (ping_all (values p.workers))
  where
    down : (r : Outcome (Unit {0}) × Pool) → Onward r.1 (closed_down r)
    down (raise e, q) = Follows-refl q.promises
    down (ok t, q) = complete_close-Continues q

    go : (o : Outcome (Unit {0})) → Onward p (stop_pinged sys o p)
    go (raise e) = Follows-refl p.promises
    go (ok t) =
        let r = stop_workers (stop_process sys) p in
        Follows-trans p.promises r.1.promises (closed_down r).1.promises
          (stop_workers-Continues (stop_process sys) p) (down r)

begin_close-Continues : (p : Pool) → Continues p (begin_close p)
unfolding begin_close
begin_close-Continues p =
    if_ind (Continues p) p.close_complete (λ _. Follows-refl p.promises)
      (λ _. Follows-refl p.promises)

Step-Continues : {p q : Pool} → Step p q → PoolIsValid p → Continues p q
Step-Continues {p} (executes sys request) v =
    Noted-Follows p.promises (execute sys request p).1.promises v.ledger.promises
      (execute-Noted sys request p v)
Step-Continues {p} (receives item) v = receive-Continues item p
Step-Continues {p} (supervises sys now later ref) v = supervise-Continues sys now later ref p
Step-Continues {p} (finishes_restart sys later outcome ref dead) v =
    finish_restart-Continues sys later outcome ref p
Step-Continues {p} (publishes group names ws new) v = publish_group-Continues group names ws p
Step-Continues {p} (unregisters sys g) v = unregister-Continues sys g p
Step-Continues {p} begins_close v = begin_close-Continues p
Step-Continues {p} begins_shutdown v = Follows-refl p.promises
Step-Continues {p} (stops sys w c found) v = Follows-refl p.promises
Step-Continues {p} (fails_pending e) v = fail_all-Continues e p
Step-Continues {p} completes_close v = complete_close-Continues p
Step-Continues {p} (finishes_close sys c) v = finish_close-Continues sys p
Step-Continues {p} (sets i outcome l) v = settle_once-Follows i outcome p.promises

Reach-Continues : (p q : Pool) → PoolIsValid p → Reach p q → Continues p q
Reach-Continues p q v initially = Follows-refl p.promises
Reach-Continues p q v (then_step m r reach step) =
    Follows-trans p.promises m.promises q.promises (Reach-Continues p m v reach)
      (Step-Continues step (Reach-IsValid p m v reach))

-- From a valid pool on, whatever calls are made in any order, each future goes only the way that
-- its holders are promised: from not made to pending to finished, and a finished one keeps its
-- outcome.
pub reached-Advance :
    (p q : Pool)
    → PoolIsValid p
    → Reach p q
    → (i : ℕ) → Advance (status i p.promises) (status i q.promises)
reached-Advance p q v reach i =
    Follows-Advance i p.promises q.promises (Reach-Continues p q v reach)
