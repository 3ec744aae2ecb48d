-- ===== src/Pool/Assignment.antt =====
-- `execute`: a request goes to a worker, or its future fails at once.
use infly.Prelude.{
  ℕ, zero, suc, ◌+◌, ◌-◌, ◌%◌, Bool, true, false, not, Option, none, some, String, List, [], ◌∷◌,
  ◌++◌, length, text_dec, ite, if◌then◌else◌,
}
use infly.Prelude.Exec.{ok, raise, pure, and_then, ◌>>=◌}
use infly.Prelude.Text.{◌⊕◌}
use infly.Dict.{get, insert, remove, contains, values}
use infly.Core.Errors.{
  Exception, platform_error, other, internal_error, invalid_request, worker_unavailable, Outcome,
  Action,
}
use infly.Core.Contracts.{TaskRequest}
use infly.Pool.State.{Pool, Worker, System, with_promises, settle, or_empty, closed_error}
use infly.Pool.Routing.{alive_workers, select_group, ordered_workers}

-- The request is noted as the worker's.
abbrev pub claim : (task_id : String) → Worker → Pool → Pool
claim task_id w p = record p {
  assignments =
      insert task_id (record { worker_id = w.worker_id; generation = w.generation }) p.assignments;
  workers = insert w.worker_id (record w { outstanding = w.outstanding + 1 }) p.workers;
}

-- The note is taken back, of a worker with the count that `claim` left.
abbrev pub unclaim : (task_id : String) → Worker → Pool → Pool
unclaim task_id w p = record p {
  assignments = remove task_id p.assignments;
  workers = insert w.worker_id (record w { outstanding = w.outstanding + 1 - 1 }) p.workers;
}

-- `put_nowait`: what it raises, or the queue with the request. `None` has no such method.
unfoldable pub put_nowait : System → TaskRequest → Worker → Outcome (List (Option TaskRequest))
put_nowait sys request w = elim w.task_queue [
  | none ↦ raise (other "'NoneType' object has no attribute 'put_nowait'")
  | some items ↦ elim (sys.put_fails w) [
    | none ↦ ok (items ++ some request ∷ [])
    | some e ↦ raise e
  ]
]

-- The queue has the request, and the next search in the group starts behind the worker.
abbrev pub enqueue : (group_name : String) → Worker → List (Option TaskRequest) → Pool → Pool
enqueue group_name w items p = record p {
  workers =
      insert w.worker_id (record w { outstanding = w.outstanding + 1; task_queue = some items })
        p.workers;
  group_cursors = insert group_name ((w.index + 1) % w.group.process_count) p.group_cursors;
}

-- One worker: whether it took the request.
unfoldable pub put_claimed :
    (group_name : String)
    → TaskRequest
    → Worker
    → Outcome (List (Option TaskRequest))
    → Pool
    → Bool × Pool
put_claimed group_name request w (ok items) p = (true, enqueue group_name w items p)
put_claimed group_name request w (raise e) p = (false, unclaim request.task_id w p)

unfoldable pub try_worker :
    System → (group_name : String) → TaskRequest → Worker → Pool → Bool × Pool
unfolding put_nowait put_claimed
try_worker sys group_name request w p =
    put_claimed group_name request w (put_nowait sys request w) (claim request.task_id w p)

-- The loop over the workers of a group, up to the first that takes the request.
unfoldable pub try_workers :
    System → (group_name : String) → TaskRequest → List Worker → Pool → Bool × Pool
unfolding try_worker
try_workers sys group_name request [] p = (false, p)
try_workers sys group_name request (w ∷ ws) p =
    let (taken, p') = try_worker sys group_name request w p in
    let rest = try_workers sys group_name request ws p' in if taken then (true, p') else rest

-- `list.remove`
unfoldable pub remove_first : String → List String → List String
remove_first name [] = []
remove_first name (x ∷ xs) = let rest = remove_first name xs in ite (text_dec x name) xs (x ∷ rest)

-- One round of the loop over the groups that are left.
unfoldable pub try_group :
    System → TaskRequest → (remaining : List String) → Action Pool (Bool × String)
unfolding select_group ordered_workers try_workers
try_group sys request remaining = do
  group_name ← select_group sys remaining
  λ p.
      and_then (ordered_workers sys group_name p)
        (λ ws p'.
          let (taken, after) = try_workers sys group_name request ws p' in
          (ok (taken, group_name), after))
        p

-- `while remaining_groups`, on fuel: each round removes one of the groups.
unfoldable pub try_groups :
    (fuel : ℕ) → System → TaskRequest → (remaining : List String) → Action Pool Bool
unfolding try_group remove_first
try_groups zero sys request remaining = pure false
try_groups (suc fuel) sys request [] = pure false
try_groups (suc fuel) sys request (g ∷ gs) = do
  outcome ← try_group sys request (g ∷ gs)
  if outcome.0 then pure true else try_groups fuel sys request (remove_first outcome.1 (g ∷ gs))

-- The groups of a handler that have a live worker.
unfoldable pub live_groups : System → Pool → List String → List String
unfolding alive_workers
live_groups sys p [] = []
live_groups sys p (g ∷ gs) =
    let rest = live_groups sys p gs in
    elim (alive_workers sys g (values p.workers)) [ [] ↦ rest | w ∷ ws ↦ g ∷ rest ]

abbrev pub refuse : ℕ → Exception → Pool → Pool
refuse future e p = with_promises (settle future (raise e) p.promises) p

abbrev pub not_submitted : Exception
not_submitted =
    platform_error invalid_request
      "TaskRequest must be submitted through TaskScheduler before execution."

abbrev pub duplicate : String → Exception
duplicate task_id = platform_error internal_error ("Duplicate task_id: " ⊕ task_id)

abbrev pub no_live_worker : String → Exception
no_live_worker handler_name =
    platform_error worker_unavailable
      ("No live worker is deployed for handler '" ⊕ handler_name ⊕ "'")

abbrev pub not_taken : String → Exception
not_taken handler_name =
    platform_error worker_unavailable
      ("Unable to submit request to a live worker for handler '" ⊕ handler_name ⊕ "'")

-- The end of `execute`: nobody took the request.
unfoldable pub give_back : TaskRequest → ℕ → Bool → Action Pool ℕ
give_back request future true p = (ok future, p)
give_back request future false p = (
  ok future,
  refuse future (not_taken request.handler_name)
      (record p { futures = remove request.task_id p.futures }),
)

unfoldable pub assign : System → TaskRequest → ℕ → List String → Action Pool ℕ
unfolding try_groups give_back
assign sys request future [] p = (ok future, refuse future (no_live_worker request.handler_name) p)
assign sys request future (g ∷ gs) p =
    (do taken ← try_groups (length (g ∷ gs)) sys request (g ∷ gs); give_back request future taken)
      (record p { futures = insert request.task_id future p.futures })

-- `execute` behind the making of the future.
unfoldable pub admit : System → TaskRequest → ℕ → Action Pool ℕ
unfolding live_groups assign
admit sys request future p =
    ite (text_dec request.task_id "") (ok future, refuse future not_submitted p)
      (if not p.accepting
        then (ok future, refuse future closed_error p)
        else if contains request.task_id p.futures
        then (ok future, refuse future (duplicate request.task_id) p)
        else assign sys request future
            (live_groups sys p (or_empty (get request.handler_name p.handler_groups))) p)

-- `execute`: the future, by its identity.
unfoldable pub execute : System → TaskRequest → Action Pool ℕ
unfolding admit
execute sys request p =
    let future = p.promises.created in
    admit sys request future (record p { promises = record p.promises { created = future + 1 } })
