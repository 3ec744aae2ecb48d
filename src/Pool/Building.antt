-- ===== src/Pool/Building.antt =====
-- The constructor of `ProcessPoolStrategy`.
use infly.Prelude.{zero, suc, ◌+◌, Bool, true, false, not, String, List, [], ◌∷◌}
use infly.Prelude.Exec.{ok, raise}
use infly.Prelude.Int.{ℤ, pos, negsuc}
use infly.Prelude.Text.{◌⊕◌}
use infly.Dict.{values}
use infly.Core.Errors.{Exception, platform_error, internal_error, message_of, Outcome}
use infly.Config.{WorkerGroup, has_duplicates}
use infly.Registry.{HandlerRegistry}
use infly.Pool.State.{Pool, Worker}
use infly.Pool.Groups.{
  await_all, launch_all, new_workers, publish, put_workers, resolve_group_handlers, ◌>>=◌, ◌>>◌,
}

-- The tables of a pool with no group.
abbrev pub empty_pool : HandlerRegistry → Pool
empty_pool registry = record {
  registry = registry;
  groups = [];
  group_handlers = [];
  handler_groups = [];
  workers = [];
  group_cursors = [];
  smooth_weights = [];
  futures = [];
  assignments = [];
  accepting = true;
  closing = false;
  close_complete = false;
  promises = record { created = 0; settled = []; abandoned = [] };
  workers_created = 0;
}

abbrev pub group_names_of : List WorkerGroup → List String
group_names_of [] = []
group_names_of (g ∷ gs) = g.name ∷ group_names_of gs

-- The loop of the constructor over the groups.
unfoldable pub add_groups : List WorkerGroup → Pool → Outcome Pool
unfolding resolve_group_handlers new_workers publish
add_groups [] p = ok p
add_groups (g ∷ gs) p = do
  names ← resolve_group_handlers p.registry g
  add_groups gs (
      publish g names (new_workers p.workers_created g names 0 g.process_count)
        (record p { workers_created = p.workers_created + g.process_count }))

abbrev pub is_positive : ℤ → Bool
is_positive (pos zero) = false
is_positive (pos (suc n)) = true
is_positive (negsuc n) = false

abbrev pub raise_if : Bool → Exception → Outcome (Unit {0})
raise_if true e = raise e
raise_if false e = ok tt

abbrev pub no_groups : List WorkerGroup → Bool
no_groups [] = true
no_groups (g ∷ gs) = false

-- The constructor, but for the wrapping of other exceptions than `PlatformError`.
unfoldable pub build :
    (Worker → Outcome (Unit {0}))
    → HandlerRegistry
    → List WorkerGroup
    → (startup_timeout : ℤ) → Outcome Pool
unfolding add_groups launch_all await_all put_workers has_duplicates
build ready registry groups startup_timeout = do
  raise_if (no_groups groups)
      (platform_error internal_error "ProcessPoolStrategy requires at least one worker group")
  raise_if (not (is_positive startup_timeout))
      (platform_error internal_error "startup_timeout_seconds must be greater than zero")
  raise_if (has_duplicates (group_names_of groups))
      (platform_error internal_error "WorkerGroup names must be unique")
  p ← add_groups groups (empty_pool registry)
  launched ← launch_all registry (values p.workers)
  workers ← await_all ready launched
  ok (record p { workers = put_workers workers p.workers })

abbrev pub wrapped : Outcome Pool → Outcome Pool
wrapped (ok p) = ok p
wrapped (raise (platform_error c m)) = raise (platform_error c m)
wrapped (raise e) =
    raise (platform_error internal_error ("Worker pool startup failed: " ⊕ message_of e))

-- `__init__`
unfoldable pub init :
    (Worker → Outcome (Unit {0}))
    → HandlerRegistry
    → List WorkerGroup
    → (startup_timeout : ℤ) → Outcome Pool
unfolding build message_of
init ready registry groups startup_timeout = wrapped (build ready registry groups startup_timeout)
