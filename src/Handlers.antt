-- ===== src/Handlers.antt =====
-- infly/core/handlers.py: `HandlerDefinition`. Its `cache_key` is left to the modules that use it.
use infly.Prelude.{Bool, true, false, not, ◌&&◌, String, ite, text_dec, if◌then◌else◌}
use infly.Prelude.Exec.{ok, raise}
use infly.Dict.{insert, contains}
use infly.Core.Errors.{value_error, Outcome}
use infly.Core.Contracts.{Value, Mapping}

pub record HandlerDefinition : Type 0 where
  pub handler_name : String
  pub entrypoint : String
  pub init_context : Mapping
  pub init_kwargs : Mapping
  pub metadata : Mapping
  pub reuse_mode : String

-- `reuse_mode in {"worker_cached", "task_transient"}`
unfoldable pub is_reuse_mode : String → Bool
unfolding text_dec
is_reuse_mode mode =
    ite (text_dec mode "worker_cached") true (ite (text_dec mode "task_transient") true false)

-- The constructor: the fields, and its tests.
unfoldable pub make_definition :
    HandlerDefinition → (allow_reserved : Bool) → Outcome HandlerDefinition
unfolding is_reuse_mode
make_definition d allow_reserved =
    if contains "runtime_context" d.init_context && not allow_reserved
    then raise (value_error "init_context key 'runtime_context' is reserved")
    else if is_reuse_mode d.reuse_mode
    then ok d
    else raise (value_error "reuse_mode must be one of 'worker_cached' or 'task_transient'")

-- The chain of the two mappings is looked up front to back.
unfoldable pub with_runtime_context : HandlerDefinition → Value → Outcome HandlerDefinition
unfolding make_definition
with_runtime_context d runtime_context =
    make_definition
      (record d { init_context = insert "runtime_context" runtime_context d.init_context }) true
