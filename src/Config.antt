-- ===== src/Config.antt =====
-- infly/runtime/config.py: the constructors check their arguments, and raise at the first that
-- is wrong. A time is an integer of milliseconds.
pub mod Laws
use infly.Prelude.{
  ℕ, suc, ◌+◌, ◌-◌, String, Bool, true, false, ◌||◌, not, List, [], ◌∷◌, length, leb, ◌==◌,
  text_dec, ite, if◌then◌else◌,
}
use infly.Prelude.Int.{ℤ, pos, negsuc, ltb_ℤ}
use infly.Prelude.Exec.{Result, ok, raise}
use infly.Prelude.Text.{◌⊕◌, decimal, is_blank}
use infly.Dict.{Dict, Names, add}
use infly.Core.Errors.{Exception, value_error, type_error, Outcome}

infixl 5 ◌>>=◌ ◌>>◌
abbrev ◌>>=◌ : {A B : Type 0} → Outcome A → (A → Outcome B) → Outcome B
ok a >>= f = f a
raise e >>= f = raise e

abbrev ◌>>◌ : {B : Type 0} → Outcome (Unit {0}) → Outcome B → Outcome B
m >> k = m >>= λ _. k

-- `if test: raise e`
abbrev raise_if : Bool → Exception → Outcome (Unit {0})
raise_if true e = raise e
raise_if false e = ok tt

unfoldable pub require_nonempty_text : String → (field_name : String) → Outcome String
require_nonempty_text value field_name =
    if is_blank value then raise (value_error (field_name ⊕ " must not be empty")) else ok value

-- The minima of the program are 0 and 1, so a value that passes is a natural number.
unfoldable pub require_int_at_least : ℤ → (minimum : ℕ) → (field_name : String) → Outcome ℕ
require_int_at_least (pos value) minimum field_name =
    if leb minimum value
    then ok value
    else raise (value_error (field_name ⊕ " must be greater than or equal to " ⊕ decimal minimum))
require_int_at_least (negsuc _) minimum field_name =
    raise (value_error (field_name ⊕ " must be greater than or equal to " ⊕ decimal minimum))

unfoldable pub require_float_greater_than : ℤ → (minimum : ℕ) → (field_name : String) → Outcome ℕ
require_float_greater_than (pos value) minimum field_name =
    if leb value minimum
    then raise (value_error (field_name ⊕ " must be greater than " ⊕ decimal minimum))
    else ok value
require_float_greater_than (negsuc _) minimum field_name =
    raise (value_error (field_name ⊕ " must be greater than " ⊕ decimal minimum))

unfoldable pub require_float_at_least : ℤ → (minimum : ℕ) → (field_name : String) → Outcome ℕ
require_float_at_least (pos value) minimum field_name =
    if leb minimum value
    then ok value
    else raise (value_error (field_name ⊕ " must be greater than or equal to " ⊕ decimal minimum))
require_float_at_least (negsuc _) minimum field_name =
    raise (value_error (field_name ⊕ " must be greater than or equal to " ⊕ decimal minimum))

-- The arguments of `WorkerSafetyPolicy`, and the object.
pub record SafetyArguments : Type 0 where
  pub mode : String
  pub restart_limit : ℤ
  pub restart_window : ℤ
  pub restart_backoff : ℤ

pub record WorkerSafetyPolicy : Type 0 where
  pub mode : String
  pub restart_limit : ℕ
  pub restart_window : ℕ
  pub restart_backoff : ℕ

-- `mode in {"shutdown", "degrade", "restart"}`
unfoldable pub is_mode : String → Bool
unfolding text_dec
is_mode mode =
    ite (text_dec mode "shutdown") true
      (ite (text_dec mode "degrade") true (ite (text_dec mode "restart") true false))

unfoldable pub make_policy : SafetyArguments → Outcome WorkerSafetyPolicy
unfolding require_int_at_least require_float_greater_than require_float_at_least
make_policy a = do
  raise_if (not (is_mode a.mode))
      (value_error "mode must be one of 'shutdown', 'degrade', or 'restart'")
  limit ← require_int_at_least a.restart_limit 0 "restart_limit"
  window ← require_float_greater_than a.restart_window 0 "restart_window_seconds"
  backoff ← require_float_at_least a.restart_backoff 0 "restart_backoff_seconds"
  ok (record {
    mode = a.mode;
    restart_limit = limit;
    restart_window = window;
    restart_backoff = backoff;
  })

-- What may be given for `safety`: a policy, a mapping of its arguments, or an object of another
-- type.
pub data SafetyArgument : Type 0 where
  policy : WorkerSafetyPolicy → SafetyArgument
  arguments : SafetyArguments → SafetyArgument
  foreign : SafetyArgument

unfoldable pub coerce_safety : SafetyArgument → Outcome WorkerSafetyPolicy
unfolding make_policy
coerce_safety (policy p) = ok p
coerce_safety (arguments a) = make_policy a
coerce_safety foreign = raise (type_error "safety must be a WorkerSafetyPolicy or mapping")

pub record GroupArguments : Type 0 where
  pub name : String
  pub process_count : ℤ
  pub handlers : List String
  pub environment : Dict String
  pub safety : SafetyArgument

pub record WorkerGroup : Type 0 where
  pub name : String
  pub process_count : ℕ
  pub handlers : List String
  pub environment : Dict String
  pub safety : WorkerSafetyPolicy

-- `any(not handler_name.strip() for handler_name in handlers)`
unfoldable pub any_blank : List String → Bool
any_blank [] = false
any_blank (h ∷ hs) = is_blank h || any_blank hs

-- The set of a list, built up from `s`.
unfoldable pub add_all : List String → Names → Names
add_all [] s = s
add_all (x ∷ xs) s = add_all xs (add x s)

-- `len(handlers) != len(set(handlers))`
unfoldable pub has_duplicates : List String → Bool
unfolding add_all
has_duplicates xs = not (length xs == length (add_all xs []))

unfoldable pub make_group : GroupArguments → Outcome WorkerGroup
unfolding require_nonempty_text require_int_at_least coerce_safety any_blank has_duplicates
make_group a = do
  name ← require_nonempty_text a.name "name"
  process_count ← require_int_at_least a.process_count 1 "process_count"
  raise_if (any_blank a.handlers) (value_error "handler names must not be empty")
  raise_if (has_duplicates a.handlers) (value_error "handlers must not contain duplicates")
  safety ← coerce_safety a.safety
  ok (record {
    name = name;
    process_count = process_count;
    handlers = a.handlers;
    environment = a.environment;
    safety = safety;
  })

pub record SchedulerArguments : Type 0 where
  pub max_outstanding_tasks : ℤ
  pub num_threads : ℤ
  pub max_retained_terminal_tasks : ℤ

pub record SchedulerConfig : Type 0 where
  pub max_outstanding_tasks : ℕ
  pub num_threads : ℕ
  pub max_retained_terminal_tasks : ℕ

unfoldable pub make_scheduler_config : SchedulerArguments → Outcome SchedulerConfig
unfolding require_int_at_least
make_scheduler_config a = do
  outstanding ← require_int_at_least a.max_outstanding_tasks 1 "max_outstanding_tasks"
  threads ← require_int_at_least a.num_threads 1 "num_threads"
  retained ← require_int_at_least a.max_retained_terminal_tasks 0 "max_retained_terminal_tasks"
  ok (record {
    max_outstanding_tasks = outstanding;
    num_threads = threads;
    max_retained_terminal_tasks = retained;
  })
