-- ===== src/Pool/Limits.antt =====
-- The restarts of a worker stay within the limit of its group's policy.
use infly.Prelude.{
  ℕ, ◌<◌, ◌≤◌, ◌≡◌, refl, subst, true, not, Option, none, some, String, List, [], ◌∷◌, arith, All,
  if_ind, ite_ind, text_dec, leb, length,
}
use infly.Prelude.Exec.{ok, raise}
use infly.Core.Errors.{Outcome}
use infly.Dict.{Dict, get, insert}
use infly.Pool.Watch.{after_stop}
use infly.Pool.State.{Pool, Worker, System, store_worker}
use infly.Pool.Supervision.{
  drop_before, schedule_restart, stop_process, WorkerRef, current, same_object,
}
use infly.Pool.Watch.{restart_failed, restart_ended, detached_ended, ended_for, finish_restart}

abbrev pub RoomIfAny : Option ℕ → ℕ → ℕ → Type 0
RoomIfAny none n limit = Unit {0}
RoomIfAny (some t) n limit = n < limit

-- No more restarts are noted than the limit, and one is only planned below it.
pub record KeepsLimit (w : Worker) : Type 0 where
  pub within : length w.restart_times ≤ w.group.safety.restart_limit
  pub room : RoomIfAny w.next_restart_at (length w.restart_times) w.group.safety.restart_limit

drop_before_shorter :
    (now window : ℕ) (ts : List ℕ) → length (drop_before now window ts) ≤ length ts
unfolding drop_before
drop_before_shorter now window [] = ground arith
drop_before_shorter now window (t ∷ ts) = ground (arith, drop_before_shorter now window ts)

schedule_restart-KeepsLimit :
    (now : ℕ) (w : Worker) → KeepsLimit w → KeepsLimit (schedule_restart now w)
unfolding schedule_restart
schedule_restart-KeepsLimit now w k =
    let times = drop_before now w.group.safety.restart_window w.restart_times in
    let shorter = drop_before_shorter now w.group.safety.restart_window w.restart_times in
    if_ind KeepsLimit (leb w.group.safety.restart_limit (length times))
      (λ _. record { within = omega (arith, k.within, shorter); room = tt })
      (λ few. record { within = omega (arith, k.within, shorter); room = ground arith })

abbrev pub AllKeepLimit : Pool → Type 0
AllKeepLimit p = All (λ e. KeepsLimit e.1) p.workers

insert-KeepLimit :
    (k : String) (w : Worker) (d : Dict Worker)
    → KeepsLimit w
    → All (λ e. KeepsLimit e.1) d
    → All (λ e. KeepsLimit e.1) (insert k w d)
unfolding insert
insert-KeepLimit k w [] l a = (l, tt)
insert-KeepLimit k w ((j, x) ∷ d) l a =
    ite_ind (λ (e : Dict Worker). All (λ e. KeepsLimit e.1) e) (text_dec j k) (λ _. (l, a.1))
      (λ _. (a.0, insert-KeepLimit k w d l a.1))

store_worker-KeepLimit :
    (w : Worker) (p : Pool) → KeepsLimit w → AllKeepLimit p → AllKeepLimit (store_worker w p)
store_worker-KeepLimit w p l a = insert-KeepLimit w.worker_id w p.workers l a

get-KeepsLimit :
    (k : String) (w : Worker) (d : Dict Worker)
    → get k d ≡ some w
    → All (λ e. KeepsLimit e.1) d
    → KeepsLimit w
unfolding get
get-KeepsLimit k w [] h a = cc
get-KeepsLimit k w ((j, x) ∷ d) h a = elim (text_dec j k) [
  | yes q ↦ subst KeepsLimit (ground arith) a.0
  | no n ↦ get-KeepsLimit k w d (ground arith) a.1
]

stop_process-KeepsLimit :
    (sys : System) (w : Worker) → KeepsLimit w → KeepsLimit (stop_process sys w).1
unfolding stop_process
stop_process-KeepsLimit sys w l =
    let kept : Outcome (Unit {0}) × Worker → Type 0 = λ r. KeepsLimit r.1 in
    if_ind kept (not w.has_process) (λ _. l)
      λ _. if_ind kept w.process_closed (λ _. l) (λ _. record { within = l.within; room = l.room })

-- Every worker within its limit, behind a call.
abbrev pub LeavesLimit : Outcome (Unit {0}) × Pool → Type 0
LeavesLimit r = AllKeepLimit r.1

restart_failed-KeepLimit :
    (sys : System) (later : ℕ) (w : Worker) (p : Pool)
    → KeepsLimit w
    → AllKeepLimit p
    → LeavesLimit (restart_failed sys later w p)
unfolding restart_failed after_stop
restart_failed-KeepLimit sys later w p l a =
    go (stop_process sys w) (stop_process-KeepsLimit sys w l)
  where
    go : (r : Outcome (Unit {0}) × Worker) → KeepsLimit r.1 → LeavesLimit (after_stop later r p)
    go (raise e, x) k = store_worker-KeepLimit x p k a
    go (ok t, x) k =
        if_ind AllKeepLimit p.closing (λ _. store_worker-KeepLimit x p k a)
          (λ _.
            store_worker-KeepLimit (schedule_restart later x) p
              (schedule_restart-KeepsLimit later x k) a)

current-KeepsLimit :
    (ref : WorkerRef) (p : Pool) (w : Worker)
    → current ref p ≡ some w
    → AllKeepLimit p
    → KeepsLimit w
unfolding current same_object
current-KeepsLimit ref p w h a =
    get-KeepsLimit ref.worker_id w p.workers (go (get ref.worker_id p.workers) h) a
  where
    go : (o : Option Worker) → same_object ref.ident o ≡ some w → o ≡ some w
    go none h = h
    go (some x) h = ground arith

-- The end of a restart keeps every worker within the limit, too.
finish_restart-AllKeepLimit :
    (sys : System) (later : ℕ) (outcome : Outcome (Unit {0})) (ref : WorkerRef) (p : Pool)
    → AllKeepLimit p
    → LeavesLimit (finish_restart sys later outcome ref p)
unfolding finish_restart ended_for detached_ended restart_ended
finish_restart-AllKeepLimit sys later outcome ref p a = go (current ref p) refl outcome
  where
    go :
        (o : Option Worker)
        → current ref p ≡ o
        → (r : Outcome (Unit {0})) → LeavesLimit (ended_for sys later r ref.group_name o p)
    go none e (ok t) = a
    go none e (raise x) = a
    go (some w) e (ok t) =
        let l = current-KeepsLimit ref p w e a in
        insert-KeepLimit w.worker_id (record w { alive = true }) p.workers
          (record { within = l.within; room = l.room }) a
    go (some w) e (raise x) =
        restart_failed-KeepLimit sys later w p (current-KeepsLimit ref p w e a) a
