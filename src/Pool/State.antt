-- ===== src/Pool/State.antt =====
-- The fields of `ProcessPoolStrategy` and of its workers, and the futures that it hands out.
use infly.Prelude.{
  ℕ, Bool, false, ◌||◌, ◌++◌, Option, none, some, String, List, [], ◌∷◌, ◌==◌, text_dec, ite,
  if◌then◌else◌,
}
use infly.Prelude.Exec.{raise}
use infly.Prelude.Int.{ℤ, pos}
use infly.Dict.{Dict, insert}
use infly.Core.Errors.{Exception, platform_error, internal_error, Outcome}
use infly.Core.Contracts.{TaskRequest, TaskResult}
use infly.Config.{WorkerGroup}
use infly.Registry.{HandlerRegistry}

-- The `concurrent.futures.Future` objects: how many were made, which gives each its identity, and
-- what was set, the latest first. One that is set or cancelled is done. `abandoned` are those that an
-- exception took from the local variable of the thread that was to set them.
pub record Promises : Type 0 where
  pub created : ℕ
  pub settled : List (ℕ × Outcome TaskResult)
  pub abandoned : List ℕ

unfoldable pub is_in : ℕ → List ℕ → Bool
is_in i [] = false
is_in i (j ∷ js) = j == i || is_in i js

-- Futures that nobody sets any more.
abbrev pub abandon : List ℕ → Promises → Promises
abandon failed ps = record ps { abandoned = failed ++ ps.abandoned }

-- `future.done()`
unfoldable pub is_done : ℕ → List (ℕ × Outcome TaskResult) → Bool
is_done future [] = false
is_done future ((j, o) ∷ settled) = j == future || is_done future settled

-- `future.set_result` and `future.set_exception`
abbrev pub settle : ℕ → Outcome TaskResult → Promises → Promises
settle future outcome ps = record ps { settled = (future, outcome) ∷ ps.settled }

-- `if not future.done(): ...`
unfoldable pub settle_once : ℕ → Outcome TaskResult → Promises → Promises
unfolding is_done
settle_once future outcome ps = if is_done future ps.settled then ps else settle future outcome ps

-- A pair `(worker_id, generation)`.
pub record Assignment : Type 0 where
  pub worker_id : String
  pub generation : ℕ

-- `owner == assignment`
unfoldable pub same_assignment : Assignment → Assignment → Bool
same_assignment a b = ite (text_dec a.worker_id b.worker_id) (a.generation == b.generation) false

-- `_WorkerState`. `ident` is the identity of the object, `has_process` says that `process` is not
-- `None`, `process_closed` that its `close` was called, after which its other methods raise; a queue holds what was put and not yet taken, `none` stands for a stop.
pub record Worker : Type 0 where
  pub ident : ℕ
  pub worker_id : String
  pub index : ℕ
  pub group : WorkerGroup
  pub handler_names : List String
  pub generation : ℕ
  pub task_queue : Option (List (Option TaskRequest))
  pub has_process : Bool
  pub process_closed : Bool
  pub alive : Bool
  pub outstanding : ℕ
  pub restart_times : List ℕ
  pub next_restart_at : Option ℕ

-- The fields of the strategy. `promises` are the futures outside it, `workers_created` gives the
-- next worker its identity. A worker is marked `retiring` when it leaves `workers`, so the field is
-- that it is not there.
pub record Pool : Type 0 where
  pub registry : HandlerRegistry
  pub groups : Dict WorkerGroup
  pub group_handlers : Dict (List String)
  pub handler_groups : Dict (List String)
  pub workers : Dict Worker
  pub group_cursors : Dict ℕ
  pub smooth_weights : Dict ℤ
  pub futures : Dict ℕ
  pub assignments : Dict Assignment
  pub accepting : Bool
  pub closing : Bool
  pub close_complete : Bool
  pub promises : Promises
  pub workers_created : ℕ

-- What the operating system answers while a method runs: whether a worker's process is alive, whether
-- it has ended behind a join and a termination, what the stop of an object outside the tables raises,
-- and what `put_nowait` on a queue raises.
pub record System : Type 0 where
  pub is_alive : Worker → Bool
  pub ends : Worker → Bool
  pub detached_stop : Outcome (Unit {0})
  pub put_fails : Worker → Option Exception

abbrev pub store_worker : Worker → Pool → Pool
store_worker w p = record p { workers = insert w.worker_id w p.workers }

abbrev pub with_promises : Promises → Pool → Pool
with_promises ps p = record p { promises = ps }

-- A `defaultdict(int)`.
abbrev pub or_zero : Option ℤ → ℤ
or_zero none = pos 0
or_zero (some n) = n

abbrev pub or_none_given : Option ℕ → ℕ
or_none_given none = 0
or_none_given (some n) = n

abbrev pub or_empty : Option (List String) → List String
or_empty none = []
or_empty (some names) = names

abbrev pub closed_error : Exception
closed_error = platform_error internal_error "ProcessPoolStrategy is closed"

-- `_fail_futures`
unfoldable pub fail_futures : List ℕ → Exception → Promises → Promises
unfolding settle_once
fail_futures [] exc ps = ps
fail_futures (future ∷ futures) exc ps =
    fail_futures futures exc (settle_once future (raise exc) ps)
