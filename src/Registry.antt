-- ===== src/Registry.antt =====
-- infly/runtime/registry.py: `HandlerRegistry`.
use Prim.Native.String.{compare}
use text.Mathlib.Text.{is_le}
use infly.Prelude.{Bool, Option, none, some, String, List, [], ◌∷◌, ite, text_dec}
use infly.Prelude.Exec.{ok, raise}
use infly.Prelude.Sort.{sorted}
use infly.Prelude.Text.{◌⊕◌}
use infly.Dict
use infly.Dict.{Dict, values}
use infly.Core.Errors.{Exception, platform_error, handler_not_found, Outcome}
use infly.Handlers.{HandlerDefinition}

abbrev pub HandlerRegistry : Type 0
HandlerRegistry = Dict HandlerDefinition

unfoldable pub add : HandlerDefinition → HandlerRegistry → HandlerRegistry
add d definitions = Dict.insert d.handler_name d definitions

abbrev pub unknown_handler : String → Exception
unknown_handler handler_name =
    platform_error handler_not_found ("Handler '" ⊕ handler_name ⊕ "' not found in registry.")

unfoldable pub get : String → HandlerRegistry → Outcome HandlerDefinition
get handler_name definitions = elim (Dict.get handler_name definitions) [
  | none ↦ raise (unknown_handler handler_name)
  | some d ↦ ok d
]

unfoldable pub with_name : String → List HandlerDefinition → List HandlerDefinition
unfolding text_dec
with_name handler_name [] = []
with_name handler_name (d ∷ ds) =
    let rest = with_name handler_name ds in
    ite (text_dec d.handler_name handler_name) (d ∷ rest) rest

chosen : Option String → List HandlerDefinition → List HandlerDefinition
unfolding with_name
chosen none ds = ds
chosen (some handler_name) ds = with_name handler_name ds

abbrev pub name_le : HandlerDefinition → HandlerDefinition → Bool
name_le a b = is_le (compare a.handler_name b.handler_name)

-- `list`, in the order of the names.
unfoldable pub list : (handler_name : Option String) → HandlerRegistry → List HandlerDefinition
unfolding sorted chosen
list handler_name definitions = sorted name_le (chosen handler_name (values definitions))
