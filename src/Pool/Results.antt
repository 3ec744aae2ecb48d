-- ===== src/Pool/Results.antt =====
-- `_result_loop`: what one result does.
use infly.Prelude.{ℕ, ◌-◌, Bool, false, Option, none, some, ltb, if◌then◌else◌}
use infly.Dict.{Dict, get, insert, remove}
use infly.Core.Errors.{Outcome}
use infly.Core.Contracts.{TaskResult}
use infly.Pool.State.{Pool, Worker, Assignment, same_assignment, Promises, settle_once}
use infly.Pool.Messages.{WorkerResultMessage, outcome_of}

-- `worker is not None and worker.outstanding > 0`
unfoldable pub release_worker : Option Worker → Dict Worker → Dict Worker
release_worker none workers = workers
release_worker (some w) workers =
    if ltb 0 w.outstanding
    then insert w.worker_id (record w { outstanding = w.outstanding - 1 }) workers
    else workers

unfoldable pub settle_found : Option ℕ → Outcome TaskResult → Promises → Promises
unfolding settle_once
settle_found none outcome ps = ps
settle_found (some future) outcome ps = settle_once future outcome ps

-- The result is that of the assignment: the task is taken out, and its future is set.
unfoldable pub accept_result : WorkerResultMessage → Pool → Pool
unfolding release_worker settle_found outcome_of
accept_result item p = record p {
  assignments = remove item.task_id p.assignments;
  futures = remove item.task_id p.futures;
  workers = release_worker (get item.worker_id p.workers) p.workers;
  promises = settle_found (get item.task_id p.futures) (outcome_of item.reply) p.promises;
}

abbrev pub is_assignment : Option Assignment → WorkerResultMessage → Bool
is_assignment none item = false
is_assignment (some a) item =
    same_assignment a (record { worker_id = item.worker_id; generation = item.generation })

-- A result of another assignment than the present one is ignored.
unfoldable pub receive_result : WorkerResultMessage → Pool → Pool
unfolding accept_result same_assignment
receive_result item p =
    if is_assignment (get item.task_id p.assignments) item then accept_result item p else p
