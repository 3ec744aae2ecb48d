-- ===== src/Lib.antt =====
-- Task runtime of the package infly: clients submit tasks to a scheduler, worker threads pull
-- them by priority from a backend and give them to an execution strategy, whose futures complete
-- them; clients query or wait for results. Handlers are registered by name and loaded from
-- entrypoints.
--
-- The files and the code they model:
--   Core/Errors, Core/Contracts   infly/core/errors.py, infly/core/contracts.py
--   Config                        infly/runtime/config.py: the constructors with their checks
--   Backend                       infly/runtime/task_backend.py: InMemoryTaskBackend. The record
--                                 Backend is its fields, with one function per method; Queue is
--                                 about the heap, Invariant about all fields, Retention and Pruning
--                                 about the loop that drops ended tasks, Updates about
--                                 update_status
--   Observability                 infly/runtime/observability.py: RuntimeInstrumentation; Counters
--                                 and Percentiles are about it
--   Scheduler                     infly/runtime/scheduler.py: TaskScheduler. State has the fields
--                                 and the shared private methods, Execution the worker's side,
--                                 Lifecycle start, stop and the exit of a worker, Submission
--                                 submit, Query the reads and waits; Books, Steps, Submits, Stops,
--                                 Reach and Outcomes are about them
--   Handlers, Registry, Loader    infly/core/handlers.py, infly/runtime/registry.py,
--                                 infly/runtime/handler_loader.py; Loader/Entrypoints is about the
--                                 form of an entrypoint
--   Executor                      infly/runtime/executor.py: HandlerExecutor. What HandlerDefinition
--                                 gives as cache_key is a function that may raise; Reuse is about
--                                 the cache
--   Pool                          infly/runtime/strategy/process_pool.py: ProcessPoolStrategy. State
--                                 has its fields and the futures that it gave out, Routing and
--                                 Assignment execute, Messages and Child what a worker process
--                                 runs and sends, Results the result loop, Launch the start of a
--                                 process, Supervision the exit of a worker, Watch its restart and
--                                 the supervisor, Groups and Unloading the registration of groups,
--                                 Building the constructor, Closing close; Validity says what
--                                 holds of the tables, Reach puts all calls in any order, Founding
--                                 is about the constructor, Ends about results and close, Limits
--                                 about restarts, Order, Balance and Fuel about the search for a
--                                 worker, Health about the snapshot, History and Outside about what
--                                 a future's holder sees, and the other files have what these rest
--                                 on
--   Prelude, Dict                 what Python gives: tests, lists, integers, exceptions, texts,
--                                 sorting, dictionaries in the order of insertion
--   Tests                         concrete inputs
--
-- State and exceptions: a method is a function from its arguments and the fields to its result or
-- exception and the fields after it, so that what was written before a raise stays written. A
-- method runs as one step: Scheduler.Reach puts steps of any threads in any order. In the source
-- the locks are finer than that; a method of the scheduler calls the backend several times, and
-- what another thread does between two such calls is not modelled. The pool is finer: each part of
-- a method under the lock is a step, and so are the stops of processes, which run outside it, in
-- close and in the shutdown behind a failed worker; any other steps may run between them. What
-- is_alive and put_nowait answer stays the same during one step, and a worker that is marked alive
-- has a process that was not closed, unless the pool is closing. A process that was closed, by a failed restart or by a
-- shutdown, stays with its worker, and is_alive and join raise a ValueError on it: from there
-- unregister_worker_group and close end with that exception, before they set the futures. The field
-- `abandoned` of the promises lists the futures that an unload dropped in this way; the source has
-- no such field. A future is a number, and what it was set to stands in a list;
-- whoever holds one may set or cancel it at any time.
--
-- Choices: a dictionary is an association list with its keys in order of insertion, a set one of
-- units. Clock readings are arguments, times are natural numbers in ticks of their clock, and a
-- negative timeout is an integer below 0. The floating-point quantile 0.95 is the ratio 19/20, and
-- rounding is to the nearest index, halves to the even one. A heap is its entries in order. A
-- thread is its name. What the strategy, the trace sinks, the handlers and the import system
-- return or raise is a parameter, and so is at which request a worker process ends with no message,
-- because it is killed or its handler raises what is no Exception. `notified` of the scheduler counts
-- the calls of notify_all. The wait for a result runs over a finite list of wakeups, and
-- the answer is absent while it still waits. The loop of execute over the groups of a handler runs
-- on fuel, one unit for each group, and every round removes one; every other loop is structural.
-- The optional constructor arguments of the scheduler (a backend, an instrumentation) are left at their
-- defaults. Log calls are left out.
--
-- Not modelled: the start, stop and join of processes and threads, the queues of the operating
-- system but for what put_nowait answers, an exception of process.start, the logging setup,
-- the coroutine submit_and_wait_async, the Prometheus text, the keys of cached handlers, the demo handlers and the scripts.
pub mod Prelude
pub mod Dict
pub mod Core
pub mod Config
pub mod Backend
pub mod Observability
pub mod Scheduler
pub mod Handlers
pub mod Registry
pub mod Loader
pub mod Executor
mod Tests
pub mod Pool
