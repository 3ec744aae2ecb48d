-- ===== src/Scheduler.antt =====
-- infly/runtime/scheduler.py: `TaskScheduler`. `State` has its fields and what the methods share,
-- `Execution` the worker's side, `Lifecycle` start and stop, `Submission` and `Query` the
-- client's side, and the other modules the proofs.
pub mod State
pub mod Execution
pub mod Lifecycle
pub mod Submission
pub mod Query
pub mod Books
pub mod Steps
pub mod Submits
pub mod Stops
pub mod Reach
pub mod Outcomes
