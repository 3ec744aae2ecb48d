-- ===== src/Tests/Pooling.antt =====
-- A small pool of infly/runtime/strategy/process_pool.py, with one worker and one task.
use infly.Prelude.{
  ℕ, ◌≡◌, ◌≢◌, refl, Bool, true, false, none, some, String, List, [], ◌∷◌, arith, All, text_dec,
  ite, if◌then◌else◌,
}
use infly.Prelude.Exec.{ok, raise}
use infly.Prelude.Int.{pos}
use infly.Dict.{get, insert, remove}
use infly.Core.Errors.{message_of, platform_error, timeout, Outcome}
use infly.Core.Contracts.{TaskRequest, TaskResult}
use infly.Config.{WorkerGroup, WorkerSafetyPolicy}
use infly.Pool.State.{Pool, Worker, System}
use infly.Pool.Assignment.{execute, admit}
use infly.Pool.Messages.{WorkerResultMessage, succeeded, outcome_of, reply_of}
use infly.Pool.Results.{receive_result}
use infly.Pool.Groups.{new_worker, publish_group, published, publish, ensure_can_register}
use infly.Pool.Unloading.{unregister_worker_group}
use infly.Pool.Building.{empty_pool, init}
use infly.Pool.Closing.{close}
use infly.Pool.Validity.{PoolIsValid, Returns, execute-Returns}
use infly.Pool.Membership.{IsOpen, unregister_open}
use infly.Pool.Reach.{
  Step, Reach, initially, then_step, executes, receives, publishes, reached-IsValid,
  empty_pool-IsValid, Reach-IsValid,
}
use infly.Handlers.{HandlerDefinition}
use infly.Pool.Founding.{init-PoolIsValid}
use infly.Dict.{values}
use infly.Pool.Routing.{select_group, ordered_workers, alive_workers}
use infly.Pool.Assignment.{try_groups}
use infly.Pool.Fuel.{try_groups_enough}
use infly.Pool.Balance.{SumsTo, sum, select_group-SumsTo}
use infly.Pool.Order.{Asked, ordered_workers-Asked}
use infly.Pool.Ends.{Received, receive_result-Received, Closes, close-Closes, outcome_of-reply_of}
use infly.Core.Errors.{coded, text_code}
use infly.Pool.History.{Advance, status}
use infly.Pool.Outside.{reached-Advance}

abbrev policy : WorkerSafetyPolicy
policy = record { mode = "restart"; restart_limit = 2; restart_window = 60; restart_backoff = 1 }

abbrev group : WorkerGroup
group = record {
  name = "a";
  process_count = 1;
  handlers = "h" ∷ [];
  environment = [];
  safety = policy;
}

abbrev worker : Worker
worker = record (new_worker 0 group ("h" ∷ []) 0) {
  worker_id = "a_R0";
  generation = 1;
  task_queue = some [];
  has_process = true;
  alive = true;
}

abbrev system : System
system = record {
  is_alive = λ w. true;
  put_fails = λ w. none;
  ends = λ w. true;
  detached_stop = ok tt;
}

abbrev dead_system : System
dead_system = record system { is_alive = λ w. false }

abbrev request : TaskRequest
request = record { handler_name = "h"; input = []; metadata = []; task_id = "t" }

abbrev result : TaskResult
result = record { task_id = "t"; output = []; diagnostics = [] }

abbrev item : WorkerResultMessage
item = record { task_id = "t"; worker_id = "a_R0"; generation = 1; reply = succeeded result }

abbrev ready_pool : Pool
ready_pool = (publish_group group ("h" ∷ []) (worker ∷ []) (empty_pool [])).1

abbrev busy_pool : Pool
busy_pool = (execute system request ready_pool).1

abbrev answered_pool : Pool
answered_pool = (receive_result item busy_pool)

published-Step : Step (empty_pool []) ready_pool
unfolding get
published-Step = publishes group ("h" ∷ []) (worker ∷ []) (refl, tt)

ready_reached : Reach (empty_pool []) ready_pool
ready_reached = then_step (empty_pool []) ready_pool initially published-Step

busy_reached : Reach (empty_pool []) busy_pool
busy_reached = then_step ready_pool busy_pool ready_reached (executes system request)

answered_reached : Reach (empty_pool []) answered_pool
answered_reached = then_step busy_pool answered_pool busy_reached (receives item)

reached-IsValid_example : PoolIsValid answered_pool
reached-IsValid_example = reached-IsValid [] answered_pool answered_reached

ready_valid : PoolIsValid ready_pool
ready_valid = Reach-IsValid (empty_pool []) ready_pool (empty_pool-IsValid []) ready_reached

busy_valid : PoolIsValid busy_pool
busy_valid = Reach-IsValid (empty_pool []) busy_pool (empty_pool-IsValid []) busy_reached

reached-Advance_example : Advance (status 0 busy_pool.promises) (status 0 answered_pool.promises)
reached-Advance_example =
    reached-Advance busy_pool answered_pool busy_valid
      (then_step busy_pool answered_pool initially (receives item)) 0

execute-Returns_example : Returns ready_pool.promises.created (execute system request ready_pool)
execute-Returns_example = execute-Returns system request ready_pool ready_valid

busy_run :
    (get "t" busy_pool.assignments ≡ some (record { worker_id = "a_R0"; generation = 1 }))
    × (get "t" busy_pool.futures ≡ some 0)
unfolding execute admit publish_group published publish ensure_can_register
    infly.Pool.Assignment.assign infly.Pool.Assignment.live_groups infly.Pool.Assignment.try_groups
    infly.Pool.Assignment.try_group infly.Pool.Routing.select_group
    infly.Pool.Routing.ordered_workers infly.Pool.Assignment.try_workers
    infly.Pool.Assignment.try_worker infly.Pool.Assignment.put_claimed
    infly.Pool.Assignment.put_nowait get insert remove text_dec infly.Pool.Routing.alive_workers
    infly.Pool.Routing.is_live infly.Pool.Routing.is_in_group infly.Pool.Groups.put_workers
    infly.Pool.Groups.append_group infly.Pool.Routing.weights_of infly.Pool.Routing.add_weights
    infly.Pool.Routing.total infly.Pool.Routing.rank_all infly.Pool.Routing.index_of
    infly.Pool.Routing.ranked infly.Pool.Routing.take_highest infly.Pool.Routing.highest
    infly.Pool.Routing.order_workers infly.Prelude.Sort.sorted infly.Pool.Assignment.give_back
busy_run = (refl, refl)

busy-IsOpen : All IsOpen (values busy_pool.workers)
unfolding execute admit publish_group published publish ensure_can_register
    infly.Pool.Assignment.assign infly.Pool.Assignment.live_groups infly.Pool.Assignment.try_groups
    infly.Pool.Assignment.try_group infly.Pool.Routing.select_group
    infly.Pool.Routing.ordered_workers infly.Pool.Assignment.try_workers
    infly.Pool.Assignment.try_worker infly.Pool.Assignment.put_claimed
    infly.Pool.Assignment.put_nowait get insert remove text_dec infly.Pool.Routing.alive_workers
    infly.Pool.Routing.is_live infly.Pool.Routing.is_in_group infly.Pool.Groups.put_workers
    infly.Pool.Groups.append_group infly.Pool.Routing.weights_of infly.Pool.Routing.add_weights
    infly.Pool.Routing.total infly.Pool.Routing.rank_all infly.Pool.Routing.index_of
    infly.Pool.Routing.ranked infly.Pool.Routing.take_highest infly.Pool.Routing.highest
    infly.Pool.Routing.order_workers infly.Prelude.Sort.sorted infly.Pool.Assignment.give_back
busy-IsOpen = (refl, tt)

receive_result-Received_example : Received item busy_pool (receive_result item busy_pool)
receive_result-Received_example = receive_result-Received item busy_pool

close-Closes_example : Closes system (close system busy_pool)
unfolding execute admit publish_group published publish ensure_can_register
    infly.Pool.Assignment.assign infly.Pool.Assignment.live_groups infly.Pool.Assignment.try_groups
    infly.Pool.Assignment.try_group infly.Pool.Routing.select_group
    infly.Pool.Routing.ordered_workers infly.Pool.Assignment.try_workers
    infly.Pool.Assignment.try_worker infly.Pool.Assignment.put_claimed
    infly.Pool.Assignment.put_nowait get insert remove text_dec infly.Pool.Routing.alive_workers
    infly.Pool.Routing.is_live infly.Pool.Routing.is_in_group infly.Pool.Groups.put_workers
    infly.Pool.Groups.append_group infly.Pool.Routing.weights_of infly.Pool.Routing.add_weights
    infly.Pool.Routing.total infly.Pool.Routing.rank_all infly.Pool.Routing.index_of
    infly.Pool.Routing.ranked infly.Pool.Routing.take_highest infly.Pool.Routing.highest
    infly.Pool.Routing.order_workers infly.Prelude.Sort.sorted infly.Pool.Assignment.give_back
close-Closes_example = close-Closes system busy_pool busy_valid refl busy-IsOpen refl

unregister_open_example :
    ((unregister_worker_group system "a" busy_pool).0 ≡ ok tt)
    × PoolIsValid (unregister_worker_group system "a" busy_pool).1
    × ((unregister_worker_group system "a" busy_pool).1.promises.abandoned
        ≡ busy_pool.promises.abandoned)
unfolding execute admit publish_group published publish ensure_can_register
    infly.Pool.Assignment.assign infly.Pool.Assignment.live_groups infly.Pool.Assignment.try_groups
    infly.Pool.Assignment.try_group infly.Pool.Routing.select_group
    infly.Pool.Routing.ordered_workers infly.Pool.Assignment.try_workers
    infly.Pool.Assignment.try_worker infly.Pool.Assignment.put_claimed
    infly.Pool.Assignment.put_nowait get insert remove text_dec infly.Pool.Routing.alive_workers
    infly.Pool.Routing.is_live infly.Pool.Routing.is_in_group infly.Pool.Groups.put_workers
    infly.Pool.Groups.append_group infly.Pool.Routing.weights_of infly.Pool.Routing.add_weights
    infly.Pool.Routing.total infly.Pool.Routing.rank_all infly.Pool.Routing.index_of
    infly.Pool.Routing.ranked infly.Pool.Routing.take_highest infly.Pool.Routing.highest
    infly.Pool.Routing.order_workers infly.Prelude.Sort.sorted infly.Pool.Assignment.give_back
unregister_open_example = unregister_open system "a" busy_pool busy_valid refl refl busy-IsOpen

outcome_of-reply_of_example :
    outcome_of (reply_of (raise (coded (text_code "TIMEOUT") "late")))
    ≡ raise (platform_error timeout "late")
unfolding message_of infly.Pool.Messages.code_of_value text_dec
outcome_of-reply_of_example =
    outcome_of-reply_of (raise (coded (text_code "TIMEOUT") "late")) (λ e. cc)

abbrev echo : HandlerDefinition
echo = record {
  handler_name = "h";
  entrypoint = "m:f";
  init_context = [];
  init_kwargs = [];
  metadata = [];
  reuse_mode = "worker_cached";
}

abbrev founded : Outcome Pool
founded = init (λ w. ok tt) (("h", echo) ∷ []) (group ∷ []) (pos 5)

abbrev pool_of : Outcome Pool → Pool
pool_of (ok p) = p
pool_of (raise e) = empty_pool []

init-PoolIsValid_example : PoolIsValid (pool_of founded)
unfolding init infly.Pool.Building.build infly.Pool.Building.add_groups
    infly.Pool.Groups.resolve_group_handlers infly.Pool.Groups.check_handlers
    infly.Pool.Groups.names_for infly.Pool.Groups.launch_all infly.Pool.Groups.await_all
    infly.Pool.Groups.new_workers infly.Pool.Launch.launch_worker infly.Pool.Launch.worker_registry
    infly.Pool.Launch.add_all_to infly.Registry.get infly.Registry.add
    infly.Handlers.with_runtime_context infly.Handlers.make_definition infly.Handlers.is_reuse_mode
    infly.Config.has_duplicates infly.Config.add_all infly.Prelude.Text.decimal execute admit
    publish_group published publish ensure_can_register infly.Pool.Assignment.assign
    infly.Pool.Assignment.live_groups infly.Pool.Assignment.try_groups
    infly.Pool.Assignment.try_group infly.Pool.Routing.select_group
    infly.Pool.Routing.ordered_workers infly.Pool.Assignment.try_workers
    infly.Pool.Assignment.try_worker infly.Pool.Assignment.put_claimed
    infly.Pool.Assignment.put_nowait get insert remove text_dec infly.Pool.Routing.alive_workers
    infly.Pool.Routing.is_live infly.Pool.Routing.is_in_group infly.Pool.Groups.put_workers
    infly.Pool.Groups.append_group infly.Pool.Routing.weights_of infly.Pool.Routing.add_weights
    infly.Pool.Routing.total infly.Pool.Routing.rank_all infly.Pool.Routing.index_of
    infly.Pool.Routing.ranked infly.Pool.Routing.take_highest infly.Pool.Routing.highest
    infly.Pool.Routing.order_workers infly.Prelude.Sort.sorted infly.Pool.Assignment.give_back
init-PoolIsValid_example =
    init-PoolIsValid (λ w. ok tt) (("h", echo) ∷ []) (group ∷ []) (pos 5) (pool_of founded) refl

abbrev two_groups : Pool
two_groups = (publish_group (record group { name = "b" }) ("h" ∷ []) [] ready_pool).1

try_groups_enough_example :
    try_groups 5 system request ("a" ∷ "b" ∷ []) two_groups
    ≡ try_groups 2 system request ("a" ∷ "b" ∷ []) two_groups
try_groups_enough_example =
    try_groups_enough 5 2 system request ("a" ∷ "b" ∷ []) two_groups (omega arith) (omega arith)

select_group-SumsTo_example :
    SumsTo (sum two_groups.smooth_weights) (select_group system ("a" ∷ "b" ∷ []) two_groups)
unfolding publish_group published publish ensure_can_register get insert text_dec
    infly.Pool.Groups.put_workers infly.Pool.Groups.append_group
select_group-SumsTo_example =
    select_group-SumsTo system "a" ("b" ∷ []) two_groups (refl, (refl, tt))

ordered_workers-Asked_example :
    Asked
      (alive_workers system "a" (values ready_pool.workers))
      (ordered_workers system "a" ready_pool)
unfolding publish_group published publish ensure_can_register get insert text_dec
    infly.Pool.Groups.put_workers infly.Pool.Groups.append_group
ordered_workers-Asked_example = ordered_workers-Asked system "a" ready_pool refl
