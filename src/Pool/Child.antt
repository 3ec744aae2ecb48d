-- ===== src/Pool/Child.antt =====
-- The worker process: `_worker_loop` and `_restore_parent_import_path`. It runs the executor of
-- infly/runtime/executor.py on the handlers of its group.
use infly.Prelude.{
  ℕ, Bool, true, false, Option, none, some, String, List, [], ◌∷◌, ◌++◌, ite, text_dec,
  if◌then◌else◌,
}
use infly.Prelude.Exec.{Result, ok, raise}
use infly.Core.Errors.{Exception, message_of, Outcome}
use infly.Core.Contracts.{TaskRequest, TaskResult}
use infly.Handlers.{HandlerDefinition}
use infly.Registry.{HandlerRegistry}
use infly.Loader.{Imports}
use infly.Executor
use infly.Executor.{Executor, preload, execute}
use infly.Pool.Messages.{WorkerLifecycleMessage, WorkerResultMessage, reply_of}

unfoldable pub is_entry : String → List String → Bool
is_entry s [] = false
is_entry s (x ∷ xs) = let rest = is_entry s xs in ite (text_dec x s) true rest

-- The entries of the parent's path that the child's does not have.
unfoldable pub missing_entries :
    (parent_cwd : String) (path parent_sys_path : List String) → List String
unfolding is_entry
missing_entries parent_cwd path [] = []
missing_entries parent_cwd path (entry ∷ entries) =
    let absolute_entry = ite (text_dec entry "") parent_cwd entry in
    let rest = missing_entries parent_cwd path entries in
    if is_entry absolute_entry path then rest else absolute_entry ∷ rest

-- `_restore_parent_import_path`: the new `sys.path`.
unfoldable pub restore_parent_import_path :
    (parent_sys_path : List String) (parent_cwd : String) (path : List String) → List String
unfolding missing_entries
restore_parent_import_path parent_sys_path parent_cwd path =
    missing_entries parent_cwd path parent_sys_path ++ path

module _ (cache_key : HandlerDefinition → Outcome String) (imports : Imports) (worker_id : String)
    (generation : ℕ) where
  unfoldable pub ready_message : WorkerLifecycleMessage
  ready_message = record {
    kind = "READY";
    worker_id = worker_id;
    generation = generation;
    error_message = none;
  }

  unfoldable pub startup_failed_message : Exception → WorkerLifecycleMessage
  unfolding message_of
  startup_failed_message exc = record {
    kind = "STARTUP_FAILED";
    worker_id = worker_id;
    generation = generation;
    error_message = some (message_of exc);
  }

  unfoldable pub started :
      Result Exception (Unit {0}) × Executor → WorkerLifecycleMessage × Option Executor
  unfolding ready_message startup_failed_message
  started (ok t, e) = (ready_message, some e)
  started (raise exc, e) = (startup_failed_message exc, none)

  -- The start: the message, and the executor if there was no exception.
  unfoldable pub start_up : HandlerRegistry → WorkerLifecycleMessage × Option Executor
  unfolding started preload Executor.init
  start_up registry = started (preload cache_key imports (Executor.init registry))

  unfoldable pub result_message : TaskRequest → Outcome TaskResult → WorkerResultMessage
  unfolding reply_of
  result_message request outcome = record {
    task_id = request.task_id;
    worker_id = worker_id;
    generation = generation;
    reply = reply_of outcome;
  }

  -- `while True: request = task_queue.get()` over what the queue gives: the results that are put,
  -- up to the `None` that stops the worker. `dies` says at which requests the process ends with no
  -- message: it is killed, or the handler raises a `SystemExit`, which is no `Exception`.
  unfoldable pub serve :
      (dies : TaskRequest → Bool)
      → List (Option TaskRequest)
      → Executor
      → List WorkerResultMessage × Executor
  unfolding result_message execute
  serve dies [] e = ([], e)
  serve dies (none ∷ items) e = ([], e)
  serve dies (some request ∷ items) e =
      let (outcome, e') = execute cache_key imports request e in
      let (messages, e'') = serve dies items e' in
      if dies request then ([], e) else (result_message request outcome ∷ messages, e'')
