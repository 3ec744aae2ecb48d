-- ===== src/Pool/Launch.antt =====
-- `_launch_worker` and `_worker_registry`.
use infly.Prelude.{◌+◌, true, false, none, some, String, List, [], ◌∷◌}
use infly.Prelude.Exec.{ok, raise}
use infly.Prelude.Text.{◌⊕◌}
use infly.Core.Errors.{Outcome}
use infly.Core.Contracts.{Value, object}
use infly.Handlers.{with_runtime_context}
use infly.Registry
use infly.Registry.{HandlerRegistry}
use infly.Pool.State.{Worker}

-- The context that a worker's handlers are given, by what `str` shows of it.
abbrev pub runtime_context : Worker → Value
runtime_context w =
    object ("{'group_name': '" ⊕ w.group.name ⊕ "', 'worker_id': '" ⊕ w.worker_id ⊕ "'}")

infixl 5 ◌>>=◌
abbrev ◌>>=◌ : {A B : Type 0} → Outcome A → (A → Outcome B) → Outcome B
ok a >>= f = f a
raise e >>= f = raise e

-- The loop of `_worker_registry`.
unfoldable pub add_all_to :
    HandlerRegistry → Value → List String → HandlerRegistry → Outcome HandlerRegistry
unfolding Registry.get Registry.add with_runtime_context
add_all_to registry context [] child = ok child
add_all_to registry context (handler_name ∷ names) child = do
  definition ← Registry.get handler_name registry
  own ← with_runtime_context definition context
  add_all_to registry context names (Registry.add own child)

-- `_worker_registry`
unfoldable pub worker_registry : HandlerRegistry → Worker → Outcome HandlerRegistry
unfolding add_all_to
worker_registry registry w = add_all_to registry (runtime_context w) w.handler_names []

-- The worker's fields as `_launch_worker` sets them.
abbrev pub relaunched : Worker → Worker
relaunched w = record w {
  generation = w.generation + 1;
  alive = false;
  outstanding = 0;
  next_restart_at = none;
  task_queue = some [];
  has_process = true;
  process_closed = false;
}

abbrev pub launched_with : Outcome HandlerRegistry → Worker → Outcome Worker
launched_with (ok child) w = ok (relaunched w)
launched_with (raise e) w = raise e

-- `_launch_worker`
unfoldable pub launch_worker : HandlerRegistry → Worker → Outcome Worker
unfolding worker_registry
launch_worker registry w = launched_with (worker_registry registry w) w
