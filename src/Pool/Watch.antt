-- ===== src/Pool/Watch.antt =====
-- `_restart_worker`, and the loop of the supervisor.
use infly.Prelude.{
  ℕ, Bool, true, false, not, ◌&&◌, ◌||◌, Option, none, some, String, [], ◌∷◌, ◌++◌, ◌==◌, leb,
  text_dec, ite, if◌then◌else◌,
}
use infly.Prelude.Exec.{ok, raise}
use infly.Prelude.Int.{pos}
use infly.Prelude.Text.{◌⊕◌}
use infly.Dict.{insert}
use infly.Core.Errors.{Exception, platform_error, internal_error, Outcome}
use infly.Core.Errors.{Action}
use infly.Pool.State.{Pool, Worker, System, store_worker}
use infly.Registry.{HandlerRegistry}
use infly.Pool.Launch.{relaunched, worker_registry}
use infly.Pool.Messages.{WorkerLifecycleMessage, or_else}
use infly.Pool.Supervision.{WorkerRef, current, handle_worker_exit, schedule_restart, stop_process}

abbrev pub noted_restart : (now : ℕ) → Worker → Worker
noted_restart now w = record w {
  next_restart_at = none;
  restart_times = w.restart_times ++ now ∷ [];
}

unfoldable pub after_stop : (later : ℕ) → Outcome (Unit {0}) × Worker → Action Pool (Unit {0})
unfolding schedule_restart
after_stop later (raise e, w) p = (raise e, store_worker w p)
after_stop later (ok t, w) p =
    (ok tt, if p.closing then store_worker w p else store_worker (schedule_restart later w) p)

-- The end of `_restart_worker` behind an exception; `later` is the time by then.
unfoldable pub restart_failed : System → (later : ℕ) → Worker → Action Pool (Unit {0})
unfolding stop_process after_stop
restart_failed sys later w p = after_stop later (stop_process sys w) p

-- The worker as a launch that raised leaves it.
abbrev pub half_launched : Worker → Worker
half_launched w = record (relaunched w) { has_process = w.has_process }

unfoldable pub restart_launched :
    System → (now : ℕ) → Outcome HandlerRegistry → Worker → Action Pool (Unit {0})
unfolding restart_failed
restart_launched sys now (raise e) w p = restart_failed sys now (half_launched w) p
restart_launched sys now (ok child) w p = (ok tt, store_worker (relaunched w) p)

-- `_restart_worker`, up to the wait for the new process.
unfoldable pub begin_restart : System → (now : ℕ) → Worker → Action Pool (Unit {0})
unfolding restart_launched worker_registry
begin_restart sys now w p =
    if p.closing
    then (ok tt, p)
    else restart_launched sys now (worker_registry p.registry w) (noted_restart now w) p

-- How the wait for a worker ends: the lifecycle message, or the worker's exit, the deadline or the
-- stop of the supervisor.
pub data Arrival : Type 0 where
  message : WorkerLifecycleMessage → Arrival
  exited timed_out interrupted : Arrival

abbrev pub startup_error : String → Exception
startup_error text = platform_error internal_error text

unfoldable pub is_ready : Worker → WorkerLifecycleMessage → Bool
is_ready w m = ite (text_dec m.kind "READY") (m.generation == w.generation) false

-- `_await_worker_ready`: whether the worker is ready.
unfoldable pub await_worker_ready : Worker → Arrival → Outcome (Unit {0})
unfolding is_ready or_else
await_worker_ready w interrupted =
    raise (startup_error ("Worker '" ⊕ w.worker_id ⊕ "' startup was interrupted"))
await_worker_ready w timed_out =
    raise (startup_error ("Worker pool startup timed out waiting for '" ⊕ w.worker_id ⊕ "'"))
await_worker_ready w exited =
    raise (startup_error ("Worker '" ⊕ w.worker_id ⊕ "' exited during startup"))
await_worker_ready w (message m) =
    if is_ready w m
    then ok tt
    else raise (
        startup_error (
          "Worker '"
          ⊕ w.worker_id
          ⊕ "' startup failed: "
          ⊕ or_else m.error_message "unknown error"))

-- The end of `_restart_worker` for an object that is still in the pool.
unfoldable pub restart_ended :
    System → (later : ℕ) → Outcome (Unit {0}) → Worker → Action Pool (Unit {0})
unfolding restart_failed
restart_ended sys later (raise e) w p = restart_failed sys later w p
restart_ended sys later (ok t) w p = (
  ok tt,
  store_worker (record w { alive = true })
      (record p { smooth_weights = insert w.group.name (pos 0) p.smooth_weights }),
)

-- The same for an object that has left the pool.
unfoldable pub detached_ended :
    System → Outcome (Unit {0}) → (group_name : String) → Action Pool (Unit {0})
detached_ended sys (raise e) group_name p = (sys.detached_stop, p)
detached_ended sys (ok t) group_name p =
    (ok tt, record p { smooth_weights = insert group_name (pos 0) p.smooth_weights })

unfoldable pub ended_for :
    System
    → (later : ℕ) → Outcome (Unit {0})
    → (group_name : String) → Option Worker
    → Action Pool (Unit {0})
unfolding restart_ended detached_ended
ended_for sys later outcome group_name none p = detached_ended sys outcome group_name p
ended_for sys later outcome group_name (some w) p = restart_ended sys later outcome w p

-- `_restart_worker` behind the wait, with how `_await_worker_ready` ended for the object.
unfoldable pub finish_restart :
    System → (later : ℕ) → Outcome (Unit {0}) → WorkerRef → Action Pool (Unit {0})
unfolding ended_for current
finish_restart sys later outcome ref p =
    ended_for sys later outcome ref.group_name (current ref p) p

abbrev pub is_due : Option ℕ → (now : ℕ) → Bool
is_due none now = false
is_due (some t) now = leb t now

-- The tests of `_supervisor_loop` for one worker; `later` is the time at which a restart begins.
unfoldable pub supervise_worker : System → (now later : ℕ) → Option Worker → Action Pool (Unit {0})
unfolding handle_worker_exit begin_restart
supervise_worker sys now later none p = (ok tt, p)
supervise_worker sys now later (some w) p =
    if p.closing
    then (ok tt, p)
    else if w.alive && (not w.has_process || not (sys.is_alive w))
    then handle_worker_exit sys now (some w) p
    else if not w.alive && is_due w.next_restart_at now
    then begin_restart sys later w p
    else (ok tt, p)

unfoldable pub supervise : System → (now later : ℕ) → WorkerRef → Action Pool (Unit {0})
unfolding supervise_worker current
supervise sys now later ref p = supervise_worker sys now later (current ref p) p
