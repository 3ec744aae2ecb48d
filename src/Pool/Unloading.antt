-- ===== src/Pool/Unloading.antt =====
-- `unregister_worker_group`.
use infly.Prelude.{
  ℕ, Bool, true, false, ◌||◌, Option, none, some, String, List, [], ◌∷◌, ◌++◌, text_dec, ite,
  if◌then◌else◌,
}
use infly.Prelude.Exec.{ok, raise}
use infly.Prelude.Text.{◌⊕◌}
use infly.Dict.{Dict, get, insert, remove, contains, values}
use infly.Core.Errors.{
  Exception, platform_error, not_found, worker_unavailable, value_error, key_error, Outcome, Action,
}
use infly.Prelude.{◌&&◌}
use infly.Pool.Supervision.{process_closed_error, stop_process}
use infly.Pool.State.{
  System, abandon, Pool, Worker, or_empty, closed_error, with_promises, fail_futures,
}
use infly.Pool.Routing.{is_in_group}
use infly.Pool.Assignment.{remove_first}
use infly.Pool.Supervision.{Taken, take_worker_futures}

-- The names of `handler_names` no longer lead to the group; a name with no group is dropped.
unfoldable pub set_or_drop :
    (handler_name : String) → List String → Dict (List String) → Dict (List String)
set_or_drop h [] d = remove h d
set_or_drop h (g ∷ gs) d = insert h (g ∷ gs) d

unfoldable pub is_listed : String → List String → Bool
is_listed name [] = false
is_listed name (x ∷ xs) = let rest = is_listed name xs in ite (text_dec x name) true rest

-- `groups.remove(group_name)` raises where the name is not there, and the `defaultdict` then has
-- the list that was read.
unfoldable pub unlink_group :
    (group_name : String) → List String → Action (Dict (List String)) (Unit {0})
unfolding set_or_drop is_listed remove_first
unlink_group group_name [] d = (ok tt, d)
unlink_group group_name (h ∷ hs) d =
    let listed = or_empty (get h d) in
    let rest = unlink_group group_name hs (set_or_drop h (remove_first group_name listed) d) in
    if is_listed group_name listed
    then rest
    else (raise (value_error "list.remove(x): x not in list"), insert h listed d)

-- What is left of the pool without one worker.
abbrev pub without_worker : Worker → Taken → Pool → Pool
without_worker w t p = record p {
  assignments = t.assignments;
  futures = t.futures;
  workers = remove w.worker_id p.workers;
}

unfoldable pub retire_worker : Worker → Pool → Pool × List ℕ
unfolding take_worker_futures
retire_worker w p = let t = take_worker_futures w p in (without_worker w t p, t.failed)

-- The loop over the workers of the group: the tables without them, and their futures.
unfoldable pub retire_workers : (group_name : String) → List Worker → Pool → Pool × List ℕ
unfolding is_in_group retire_worker
retire_workers group_name [] p = (p, [])
retire_workers group_name (w ∷ ws) p =
    let (p', failed) = if is_in_group group_name w then retire_worker w p else (p, []) in
    let (p'', others) = retire_workers group_name ws p' in (p'', failed ++ others)

abbrev pub unloaded_error : (group_name : String) → Exception
unloaded_error group_name =
    platform_error worker_unavailable ("WorkerGroup '" ⊕ group_name ⊕ "' was unloaded")

unfoldable pub fail_retired : (group_name : String) → Pool × List ℕ → Pool
unfolding fail_futures
fail_retired group_name (p, failed) =
    with_promises (fail_futures failed (unloaded_error group_name) p.promises) p

-- `_dispose_workers`, for one worker that has left the tables: `is_alive` and the stop raise when its
-- process is closed.
unfoldable pub dispose_worker : System → Worker → Outcome (Unit {0})
unfolding stop_process
dispose_worker sys w =
    if w.has_process && w.process_closed then raise process_closed_error else (stop_process sys w).0

-- `_dispose_workers`, for the workers of the group.
unfoldable pub dispose_workers : System → (group_name : String) → List Worker → Outcome (Unit {0})
unfolding is_in_group dispose_worker
dispose_workers sys group_name [] = ok tt
dispose_workers sys group_name (w ∷ ws) =
    let rest = dispose_workers sys group_name ws in
    if is_in_group group_name w
    then elim (dispose_worker sys w) [ raise e ↦ raise e | ok t ↦ rest ]
    else rest

-- The end of the method: the futures fail, or an exception of the stops leaves them as they are.
unfoldable pub settle_retired :
    (group_name : String) → Outcome (Unit {0}) → Pool × List ℕ → Outcome (Unit {0}) × Pool
unfolding fail_retired
settle_retired group_name (raise e) (p, failed) =
    (raise e, with_promises (abandon failed p.promises) p)
settle_retired group_name (ok t) (p, failed) = (ok tt, fail_retired group_name (p, failed))

-- Behind the changes of the routing tables.
unfoldable pub unload_workers :
    System
    → (group_name : String) → Outcome (Unit {0}) × Dict (List String)
    → Action Pool (Unit {0})
unfolding retire_workers dispose_workers settle_retired
unload_workers sys group_name (raise e, handler_groups) p =
    (raise e, record p { handler_groups = handler_groups })
unload_workers sys group_name (ok t, handler_groups) p =
    settle_retired group_name (dispose_workers sys group_name (values p.workers)) (
      retire_workers group_name (values p.workers) (record p {
        handler_groups = handler_groups;
        group_cursors = remove group_name p.group_cursors;
        smooth_weights = remove group_name p.smooth_weights;
      }))

unfoldable pub unload_group :
    System → (group_name : String) → Option (List String) → Action Pool (Unit {0})
unfolding unlink_group unload_workers
unload_group sys group_name none p = (raise (key_error group_name), p)
unload_group sys group_name (some names) p =
    unload_workers sys group_name (unlink_group group_name names p.handler_groups)
      (record p { group_handlers = remove group_name p.group_handlers })

-- `unregister_worker_group`. The processes are stopped when their workers have left the tables.
unfoldable pub unregister_worker_group : System → (group_name : String) → Action Pool (Unit {0})
unfolding unload_group
unregister_worker_group sys group_name p =
    if p.closing || p.close_complete
    then (raise closed_error, p)
    else if contains group_name p.groups
    then unload_group sys group_name (get group_name p.group_handlers)
        (record p { groups = remove group_name p.groups })
    else (
      raise (platform_error not_found ("WorkerGroup '" ⊕ group_name ⊕ "' is not registered")),
      p,
    )
