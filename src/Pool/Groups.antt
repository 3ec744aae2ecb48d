-- ===== src/Pool/Groups.antt =====
-- The registration of a group of workers: `register_worker_group`.
use infly.Prelude.{
  ℕ, zero, suc, ◌+◌, true, false, not, ◌||◌, none, String, List, [], ◌∷◌, ◌++◌, if◌then◌else◌,
}
use infly.Prelude.Exec.{ok, raise}
use infly.Prelude.Text.{◌⊕◌, decimal}
use infly.Dict.{Dict, get, insert, contains}
use infly.Core.Errors.{Exception, platform_error, internal_error, message_of, Outcome, Action}
use infly.Config.{WorkerGroup}
use infly.Handlers.{HandlerDefinition}
use infly.Registry
use infly.Registry.{HandlerRegistry}
use infly.Pool.State.{Pool, Worker, or_empty, closed_error}
use infly.Pool.Launch.{launch_worker}

infixl 5 ◌>>=◌ ◌>>◌
abbrev pub ◌>>=◌ : {A B : Type 0} → Outcome A → (A → Outcome B) → Outcome B
ok a >>= f = f a
raise e >>= f = raise e

abbrev pub ◌>>◌ : {B : Type 0} → Outcome (Unit {0}) → Outcome B → Outcome B
m >> k = m >>= λ _. k

abbrev handler_names_of : List HandlerDefinition → List String
handler_names_of [] = []
handler_names_of (d ∷ ds) = d.handler_name ∷ handler_names_of ds

-- `tuple(group.handlers) if group.handlers else all_handler_names`
unfoldable pub names_for : List String → HandlerRegistry → List String
unfolding Registry.list
names_for [] registry = handler_names_of (Registry.list none registry)
names_for (h ∷ hs) registry = h ∷ hs

abbrev found_or : Exception → Outcome HandlerDefinition → Outcome (Unit {0})
found_or e (ok d) = ok tt
found_or e (raise x) = raise e

unfoldable pub check_handlers :
    (group_name : String) → HandlerRegistry → List String → Outcome (Unit {0})
unfolding Registry.get
check_handlers group_name registry [] = ok tt
check_handlers group_name registry (h ∷ hs) =
    found_or
      (platform_error internal_error
        ("WorkerGroup '" ⊕ group_name ⊕ "' references missing handler '" ⊕ h ⊕ "'"))
      (Registry.get h registry)
    >> check_handlers group_name registry hs

-- `_resolve_group_handlers`
unfoldable pub resolve_group_handlers : HandlerRegistry → WorkerGroup → Outcome (List String)
unfolding names_for check_handlers
resolve_group_handlers registry group = do
  check_handlers group.name registry (names_for group.handlers registry)
  ok (names_for group.handlers registry)

-- `f"{group.name}_R{index}"`
abbrev pub worker_name : String → ℕ → String
worker_name group_name index = group_name ⊕ "_R" ⊕ decimal index

-- `_WorkerState(...)` with its defaults.
abbrev pub new_worker : (ident : ℕ) → WorkerGroup → List String → (index : ℕ) → Worker
new_worker ident group handler_names index = record {
  ident = ident;
  worker_id = worker_name group.name index;
  index = index;
  group = group;
  handler_names = handler_names;
  generation = 0;
  task_queue = none;
  has_process = false;
  process_closed = false;
  alive = false;
  outstanding = 0;
  restart_times = [];
  next_restart_at = none;
}

-- The workers with the indices from `index` on.
unfoldable pub new_workers :
    (ident : ℕ) → WorkerGroup → List String → (index count : ℕ) → List Worker
unfolding decimal
new_workers ident group handler_names index zero = []
new_workers ident group handler_names index (suc count) =
    new_worker ident group handler_names index
    ∷ new_workers (ident + 1) group handler_names (index + 1) count

-- Each worker is launched.
unfoldable pub launch_all : HandlerRegistry → List Worker → Outcome (List Worker)
unfolding launch_worker
launch_all registry [] = ok []
launch_all registry (w ∷ ws) = do
  w' ← launch_worker registry w
  ws' ← launch_all registry ws
  ok (w' ∷ ws')

-- Each worker is waited for, in turn, and then is alive.
unfoldable pub await_all : (Worker → Outcome (Unit {0})) → List Worker → Outcome (List Worker)
await_all ready [] = ok []
await_all ready (w ∷ ws) = do
  ready w
  ws' ← await_all ready ws
  ok (record w { alive = true } ∷ ws')

unfoldable pub put_workers : List Worker → Dict Worker → Dict Worker
put_workers [] workers = workers
put_workers (w ∷ ws) workers = put_workers ws (insert w.worker_id w workers)

-- `for handler_name in handler_names: self._handler_groups[handler_name].append(group.name)`
unfoldable pub append_group :
    (group_name : String) → List String → Dict (List String) → Dict (List String)
append_group group_name [] d = d
append_group group_name (h ∷ hs) d =
    append_group group_name hs (insert h (or_empty (get h d) ++ group_name ∷ []) d)

-- A group with its workers enters the tables.
unfoldable pub publish : WorkerGroup → List String → List Worker → Pool → Pool
unfolding append_group put_workers
publish group handler_names workers p = record p {
  groups = insert group.name group p.groups;
  group_handlers = insert group.name handler_names p.group_handlers;
  handler_groups = append_group group.name handler_names p.handler_groups;
  workers = put_workers workers p.workers;
}

-- `_ensure_group_can_be_registered_locked`
unfoldable pub ensure_can_register : (group_name : String) → Pool → Outcome (Unit {0})
ensure_can_register group_name p =
    if p.closing || p.close_complete || not p.accepting
    then raise closed_error
    else if contains group_name p.groups
    then raise
        (platform_error internal_error ("WorkerGroup '" ⊕ group_name ⊕ "' is already registered"))
    else ok tt

abbrev startup_failed : (group_name : String) → Outcome (List Worker) → Outcome (List Worker)
startup_failed group_name (ok ws) = ok ws
startup_failed group_name (raise e) = raise (
    platform_error internal_error
      ("WorkerGroup '" ⊕ group_name ⊕ "' startup failed: " ⊕ message_of e))

-- `register_worker_group` up to its last lock: the workers, launched and ready.
unfoldable pub prepare_group :
    (Worker → Outcome (Unit {0})) → WorkerGroup → Pool → Outcome (List String × List Worker)
unfolding resolve_group_handlers new_workers ensure_can_register launch_all await_all message_of
prepare_group ready group p = do
  names ← resolve_group_handlers p.registry group
  ensure_can_register group.name p
  workers ← startup_failed group.name (do
    launched ←
        launch_all p.registry (new_workers p.workers_created group names 0 group.process_count)
    await_all ready launched)
  ok (names, workers)

unfoldable pub published :
    WorkerGroup → List String → List Worker → Outcome (Unit {0}) → Action Pool (Unit {0})
unfolding publish
published group names workers (ok t) p = (ok tt, publish group names workers p)
published group names workers (raise e) p = (raise e, p)

-- The last part of `register_worker_group`.
unfoldable pub publish_group : WorkerGroup → List String → List Worker → Action Pool (Unit {0})
unfolding ensure_can_register published
publish_group group names workers p =
    published group names workers (ensure_can_register group.name p) p

unfoldable pub publish_prepared :
    WorkerGroup → Outcome (List String × List Worker) → Action Pool (Unit {0})
unfolding publish_group
publish_prepared group (raise e) p = (raise e, p)
publish_prepared group (ok (names, workers)) p = publish_group group names workers p

-- `register_worker_group`, with no other call between its parts.
unfoldable pub register_worker_group :
    (Worker → Outcome (Unit {0})) → WorkerGroup → Action Pool (Unit {0})
unfolding prepare_group publish_prepared
register_worker_group ready group p =
    publish_prepared group (prepare_group ready group p)
      (record p { workers_created = p.workers_created + group.process_count })
