-- ===== src/Loader.antt =====
-- infly/runtime/handler_loader.py: `load_handler`. What Python's import system does is a
-- parameter.
pub mod Entrypoints
use text.Mathlib.Text.{starts_with}
use infly.Prelude.{
  Bool, true, false, not, ◌&&◌, ◌||◌, Option, none, some, String, List, [], ◌∷◌, ite, text_dec,
  if◌then◌else◌,
}
use infly.Prelude.Exec.{ok, raise}
use infly.Prelude.Text.{◌⊕◌, split}
use infly.Core.Errors.{
  Exception, platform_error, invalid_configuration, not_found, internal_error, message_of, Outcome,
}
use infly.Core.Contracts.{Mapping}
use infly.Handlers.{HandlerDefinition}

-- An object with a callable `handle`, known by its identity.
pub record Handler : Type 0 where
  pub ident : String
  pub handle : Mapping → Outcome Mapping

-- What a factory returns: an object with a callable `handle`, or another.
pub data Instance : Type 0 where
  handler : Handler → Instance
  shapeless : Instance

-- What `getattr` finds: nothing, an object that cannot be called, or a factory.
pub data Attribute : Type 0 where
  absent uncallable : Attribute
  factory : ((init_context init_kwargs : Mapping) → Outcome Instance) → Attribute

-- What `import_module` does: it returns a module, by its attributes, or raises a
-- `ModuleNotFoundError` with a name, or another exception.
pub data Import : Type 0 where
  module_found : (String → Attribute) → Import
  module_not_found : (name : Option String) → Import
  import_raised : Exception → Import

abbrev pub Imports : Type 0
Imports = String → Import

-- `exc.name or ""`
unfoldable pub missing_name : Option String → String
missing_name none = ""
missing_name (some name) = name

-- `missing_name != module_name and not module_name.startswith(f"{missing_name}.")`
unfoldable pub is_dependency : (missing module_name : String) → Bool
unfolding text_dec
is_dependency missing module_name =
    ite (text_dec missing module_name) false true && not (starts_with module_name (missing ⊕ "."))

unfoldable pub or_unknown : String → String
unfolding text_dec
or_unknown name = ite (text_dec name "") "unknown" name

unfoldable pub import_error : (module_name entrypoint missing : String) → Exception
unfolding is_dependency or_unknown
import_error module_name entrypoint missing =
    if is_dependency missing module_name
    then platform_error internal_error (
        "Module '"
        ⊕ module_name
        ⊕ "' could not be imported because dependency '"
        ⊕ or_unknown missing
        ⊕ "' was not found.")
    else platform_error not_found
        ("Module '" ⊕ module_name ⊕ "' not found for entrypoint '" ⊕ entrypoint ⊕ "'.")

-- The test of `_is_handler_instance` behind the call of the factory.
unfoldable pub check_instance :
    HandlerDefinition → (module_name symbol_name : String) → Outcome Instance → Outcome Handler
check_instance d module_name symbol_name (raise exc) = raise (
    platform_error internal_error
      ("Handler '" ⊕ d.handler_name ⊕ "' failed to initialize: " ⊕ message_of exc))
check_instance d module_name symbol_name (ok shapeless) = raise (
    platform_error invalid_configuration (
      "Callable '" ⊕ symbol_name ⊕ "' in module '" ⊕ module_name ⊕ "' for entrypoint '"
      ⊕ d.entrypoint ⊕ "' must return an object with a callable handle(input) method."))
check_instance d module_name symbol_name (ok (handler h)) = ok h

unfoldable pub call_factory :
    HandlerDefinition → (module_name symbol_name : String) → Attribute → Outcome Handler
unfolding check_instance
call_factory d module_name symbol_name absent = raise (
    platform_error not_found (
      "Attribute '" ⊕ symbol_name ⊕ "' not found in module '" ⊕ module_name ⊕ "' for entrypoint '"
      ⊕ d.entrypoint ⊕ "'."))
call_factory d module_name symbol_name uncallable = raise (
    platform_error invalid_configuration (
      "Attribute '" ⊕ symbol_name ⊕ "' in module '" ⊕ module_name ⊕ "' for entrypoint '"
      ⊕ d.entrypoint ⊕ "' must be a callable that returns HandlerProtocol."))
call_factory d module_name symbol_name (factory f) =
    check_instance d module_name symbol_name (f d.init_context d.init_kwargs)

unfoldable pub load_from :
    HandlerDefinition → (module_name symbol_name : String) → Import → Outcome Handler
unfolding missing_name import_error call_factory
load_from d module_name symbol_name (module_found attributes) =
    call_factory d module_name symbol_name (attributes symbol_name)
load_from d module_name symbol_name (module_not_found name) =
    raise (import_error module_name d.entrypoint (missing_name name))
load_from d module_name symbol_name (import_raised exc) = raise exc

abbrev pub malformed : HandlerDefinition → Exception
malformed d =
    platform_error invalid_configuration
      ("Malformed entrypoint: '" ⊕ d.entrypoint ⊕ "'. Expected format 'module:SymbolName'.")

abbrev pub is_empty : String → Bool
is_empty s = ite (text_dec s "") true false

-- `load_handler` behind the split: two parts that are not empty, or an error.
unfoldable pub load_parts : Imports → HandlerDefinition → List String → Outcome Handler
unfolding load_from
load_parts imports d (module_name ∷ symbol_name ∷ []) =
    if is_empty module_name || is_empty symbol_name
    then raise (malformed d)
    else load_from d module_name symbol_name (imports module_name)
load_parts imports d _ = raise (malformed d)

-- `load_handler`
unfoldable pub load_handler : Imports → HandlerDefinition → Outcome Handler
unfolding load_parts split
load_handler imports d = load_parts imports d (split b':' d.entrypoint)
