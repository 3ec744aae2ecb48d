-- ===== src/Tests/Loading.antt =====
-- A registry with one handler, whose module can be imported once only.
use infly.Prelude.{◌≡◌, refl, some, String, [], text_dec}
use infly.Prelude.Exec.{ok}
use infly.Prelude.Text.{split}
use infly.Dict.{get, insert}
use infly.Core.Errors.{Outcome}
use infly.Handlers.{HandlerDefinition}
use infly.Registry
use infly.Loader.{Handler, Imports, handler, factory, module_found, module_not_found, load_handler}
use infly.Loader.Entrypoints.{Accepted, load_handler-Accepted}
use infly.Executor
use infly.Executor.{Executor, get_or_load, installed}
use infly.Executor.Reuse.{get_or_load-get_or_load}

abbrev echo : HandlerDefinition
echo = record {
  handler_name = "echo";
  entrypoint = "demo:Echo";
  init_context = [];
  init_kwargs = [];
  metadata = [];
  reuse_mode = "worker_cached";
}

abbrev name_key : HandlerDefinition → Outcome String
name_key d = ok d.handler_name

abbrev instance_of_echo : Handler
instance_of_echo = record { ident = "1"; handle = λ input. ok input }

abbrev present : Imports
present module_name = module_found (λ symbol. factory (λ c k. ok (handler instance_of_echo)))

abbrev gone : Imports
gone module_name = module_not_found (some module_name)

abbrev fresh : Executor
fresh = Executor.init (Registry.add echo [])

loaded : (get_or_load name_key present "echo" fresh).0 ≡ ok instance_of_echo
unfolding get_or_load Executor.init Registry.add Registry.get get insert text_dec load_handler split
loaded = refl

get_or_load-get_or_load_example :
    ((get_or_load name_key gone "echo" (get_or_load name_key present "echo" fresh).1).0
      ≡ ok instance_of_echo)
    × ((get_or_load name_key gone "echo" (get_or_load name_key present "echo" fresh).1).1.instances
        ≡ (get_or_load name_key present "echo" fresh).1.instances)
get_or_load-get_or_load_example =
    get_or_load-get_or_load name_key present gone "echo" fresh instance_of_echo loaded

echo_loaded : load_handler present echo ≡ ok instance_of_echo
unfolding load_handler split
echo_loaded = refl

load_handler-Accepted_example : Accepted present echo instance_of_echo
load_handler-Accepted_example = load_handler-Accepted present echo instance_of_echo echo_loaded
