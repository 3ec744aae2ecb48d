-- ===== src/Executor.antt =====
-- infly/runtime/executor.py: `HandlerExecutor`. The registry is read only, the key of a definition
-- (`HandlerDefinition.cache_key`) is a function that may raise, and the import system a parameter.
pub mod Reuse
use infly.Prelude.{Bool, true, false, Option, none, some, String, List, [], ◌∷◌, ite, text_dec}
use infly.Prelude.Exec.{Result, ok, raise, pure, and_then, lift, ◌>>=◌, ◌>>◌}
use infly.Dict.{Dict, get, insert, remove}
use infly.Core.Errors.{Exception, platform_error, invalid_request, Outcome, Action}
use infly.Core.Contracts.{TaskRequest, TaskResult, Mapping, text}
use infly.Handlers.{HandlerDefinition}
use infly.Registry
use infly.Registry.{HandlerRegistry}
use infly.Loader.{Handler, Imports, load_handler}

pub record Executor : Type 0 where
  pub registry : HandlerRegistry
  pub instances : Dict Handler
  pub active_keys : Dict String

unfoldable pub init : HandlerRegistry → Executor
init registry = record { registry = registry; instances = []; active_keys = [] }

abbrev pub activate : (handler_name key : String) → Executor → Executor
activate handler_name key e = record e { active_keys = insert handler_name key e.active_keys }

-- `if previous_key is not None and previous_key != cache_key: self._instances.pop(...)`
unfoldable pub drop_previous : Option String → (key : String) → Dict Handler → Dict Handler
drop_previous none key instances = instances
drop_previous (some previous) key instances =
    ite (text_dec previous key) instances (remove previous instances)

-- A handler that was loaded takes the place of the one that its name had before.
abbrev pub install : (handler_name key : String) → Handler → Executor → Executor
install handler_name key handler e = record e {
  instances = drop_previous (get handler_name e.active_keys) key (insert key handler e.instances);
  active_keys = insert handler_name key e.active_keys;
}

abbrev pub not_submitted : Exception
not_submitted =
    platform_error invalid_request
      "TaskRequest must be submitted through TaskScheduler before execution."

module _ (cache_key : HandlerDefinition → Outcome String) (imports : Imports) where
  unfoldable pub installed : (handler_name key : String) → Outcome Handler → Action Executor Handler
  unfolding drop_previous
  installed handler_name key (raise exc) e = (raise exc, e)
  installed handler_name key (ok handler) e = (ok handler, install handler_name key handler e)

  -- The lookup behind the lock: what another thread loaded meanwhile, or a new handler.
  unfoldable pub load_or_reuse :
      (handler_name key : String) → HandlerDefinition → Option Handler → Action Executor Handler
  unfolding installed load_handler
  load_or_reuse handler_name key d (some handler) e = (ok handler, activate handler_name key e)
  load_or_reuse handler_name key d none e = installed handler_name key (load_handler imports d) e

  -- The part of `_get_or_load` under the lock.
  unfoldable pub load_locked : (handler_name : String) → Action Executor Handler
  unfolding load_or_reuse
  load_locked handler_name e =
      (do
        d ← lift (Registry.get handler_name e.registry)
        key ← lift (cache_key d)
        load_or_reuse handler_name key d (get key e.instances))
        e

  unfoldable pub reuse_or : (handler_name key : String) → Option Handler → Action Executor Handler
  unfolding load_locked
  reuse_or handler_name key (some handler) e = (ok handler, activate handler_name key e)
  reuse_or handler_name key none e = load_locked handler_name e

  -- `_get_or_load`
  unfoldable pub get_or_load : (handler_name : String) → Action Executor Handler
  unfolding reuse_or
  get_or_load handler_name e =
      (do
        d ← lift (Registry.get handler_name e.registry)
        key ← lift (cache_key d)
        reuse_or handler_name key (get key e.instances))
        e

  unfoldable pub forget_active : Option String → Dict Handler → Dict Handler
  forget_active none instances = instances
  forget_active (some key) instances = remove key instances

  -- `_load_transient`
  unfoldable pub load_transient : HandlerDefinition → Action Executor Handler
  unfolding forget_active load_handler
  load_transient d e = (
    load_handler imports d,
    record e {
      instances = forget_active (get d.handler_name e.active_keys) e.instances;
      active_keys = remove d.handler_name e.active_keys;
    },
  )

  -- The choice between the two by `reuse_mode`.
  unfoldable pub handler_for : HandlerDefinition → Action Executor Handler
  unfolding get_or_load load_transient
  handler_for d =
      ite (text_dec d.reuse_mode "task_transient") (load_transient d) (get_or_load d.handler_name)

  abbrev pub result_from : TaskRequest → HandlerDefinition → (output : Mapping) → TaskResult
  result_from request d output = record {
    task_id = request.task_id;
    output = output;
    diagnostics = ("handler_name", text d.handler_name) ∷ [];
  }

  unfoldable pub execute_with : TaskRequest → Action Executor TaskResult
  unfolding handler_for
  execute_with request e =
      (do
        d ← lift (Registry.get request.handler_name e.registry)
        handler ← handler_for d
        output ← lift (handler.handle request.input)
        pure (result_from request d output))
        e

  -- `execute`
  unfoldable pub execute : TaskRequest → Action Executor TaskResult
  unfolding execute_with
  execute request e =
      ite (text_dec request.task_id "") (raise not_submitted, e) (execute_with request e)

  -- The loop of `preload`.
  unfoldable pub preload_each : List HandlerDefinition → Action Executor Unit
  unfolding get_or_load
  preload_each [] = pure tt
  preload_each (d ∷ ds) =
      let rest = preload_each ds in
      ite (text_dec d.reuse_mode "worker_cached") (do get_or_load d.handler_name; rest) rest

  -- `preload`
  unfoldable pub preload : Action Executor Unit
  unfolding preload_each
  preload e = preload_each (Registry.list none e.registry) e
