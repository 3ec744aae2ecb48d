-- ===== src/Pool/Closing.antt =====
-- `close` and `health_snapshot`.
use infly.Prelude.{
  ℕ, suc, ◌-◌, Bool, true, false, not, ◌&&◌, ◌||◌, none, List, [], ◌∷◌, ◌==◌, length, is_some,
  if◌then◌else◌,
}
use infly.Dict.{Dict, values}
use infly.Core.Errors.{Exception, platform_error, internal_error}
use infly.Config.{WorkerGroup}
use infly.Observability.{HealthStatus, healthy, degraded, down}
use infly.Pool.State.{Pool, Worker, System}
use infly.Pool.Routing.{is_live, is_in_group}
use infly.Prelude.Exec.{ok, raise}
use infly.Core.Errors.{Outcome, Action}
use infly.Pool.Supervision.{
  process_closed_error, stop_process, stop_workers, map_workers, fail_all_pending,
}

-- The first lock of `close`.
unfoldable pub begin_close : Pool → Pool
begin_close p = if p.close_complete then p else record p { accepting = false; closing = true }

-- `worker.process.is_alive()` in front of the stops; what it says has no effect here.
unfoldable pub ping_all : List Worker → Outcome (Unit {0})
ping_all [] = ok tt
ping_all (w ∷ ws) =
    let rest = ping_all ws in
    if w.has_process && w.process_closed then raise process_closed_error else rest

-- `_close_queues`
abbrev pub without_queue : Worker → Worker
without_queue w = record w { task_queue = none }

abbrev pub closed_early : Exception
closed_early = platform_error internal_error "ProcessPoolStrategy closed before request completed"

-- The end of `close`, behind the stops.
unfoldable pub complete_close : Pool → Pool
unfolding map_workers fail_all_pending
complete_close p =
    let q = fail_all_pending closed_early p in
    record q { workers = map_workers without_queue q.workers; close_complete = true }

unfoldable pub closed_down : Outcome (Unit {0}) × Pool → Outcome (Unit {0}) × Pool
unfolding complete_close
closed_down (raise e, p) = (raise e, p)
closed_down (ok t, p) = (ok tt, complete_close p)

unfoldable pub stop_pinged : System → Outcome (Unit {0}) → Action Pool (Unit {0})
unfolding stop_process stop_workers closed_down
stop_pinged sys (raise e) p = (raise e, p)
stop_pinged sys (ok t) p = closed_down (stop_workers (stop_process sys) p)

-- `close` behind its first lock.
unfoldable pub finish_close : System → Action Pool (Unit {0})
unfolding ping_all stop_pinged
finish_close sys p = stop_pinged sys (ping_all (values p.workers)) p

-- `close`, with no other call between its parts.
unfoldable pub close : System → Action Pool (Unit {0})
unfolding begin_close finish_close
close sys p = if p.close_complete then (ok tt, p) else finish_close sys (begin_close p)

unfoldable pub count_workers : (Worker → Bool) → List Worker → ℕ
count_workers test [] = 0
count_workers test (w ∷ ws) = let rest = count_workers test ws in if test w then suc rest else rest

pub record GroupHealth : Type 0 where
  pub configured_processes : ℕ
  pub alive_workers : ℕ
  pub accepting : Bool

-- The detail of the snapshot, with what stands beside it.
pub record PoolHealthSnapshot : Type 0 where
  pub status : HealthStatus
  pub accepting : Bool
  pub total_workers : ℕ
  pub alive_workers : ℕ
  pub restarting_workers : ℕ
  pub degraded_workers : ℕ
  pub groups : Dict GroupHealth

unfoldable pub group_health : System → Pool → Dict WorkerGroup → Dict GroupHealth
unfolding is_live is_in_group count_workers
group_health sys p [] = []
group_health sys p ((name, group) ∷ groups) =
    (
      name,
      record {
        configured_processes = group.process_count;
        alive_workers = count_workers (λ w. is_in_group name w && is_live sys w) (values p.workers);
        accepting = p.accepting;
      },
    )
    ∷ group_health sys p groups

-- `health_snapshot`. What is left of a negative number is 0 by `max`, as a difference of natural
-- numbers is.
unfoldable pub health_snapshot : System → Pool → PoolHealthSnapshot
unfolding is_live count_workers group_health
health_snapshot sys p =
    let workers = values p.workers in
    let total = length workers in
    let alive = count_workers (is_live sys) workers in
    let restarting = count_workers (λ w. is_some w.next_restart_at) workers in
    record {
      status =
          if total == 0 || p.close_complete || (not p.accepting && alive == 0)
          then down
          else if alive == total
          then healthy
          else degraded;
      accepting = p.accepting;
      total_workers = total;
      alive_workers = alive;
      restarting_workers = restarting;
      degraded_workers = total - alive - restarting;
      groups = group_health sys p p.groups;
    }
