-- ===== src/Pool.antt =====
-- infly/runtime/strategy/process_pool.py: `ProcessPoolStrategy`. `State` has its fields and the
-- futures, `Routing` and `Assignment` the way of a request to a worker, `Results` its way back,
-- `Supervision`, `Watch` and `Closing` the ends of workers and of the pool, `Groups`, `Unloading`
-- and `Building` the groups of workers, and `Messages` and `Child` what the processes exchange and
-- run. The other modules are about these.
pub mod State
pub mod Routing
pub mod Assignment
pub mod Messages
pub mod Child
pub mod Results
pub mod Launch
pub mod Supervision
pub mod Watch
pub mod Groups
pub mod Unloading
pub mod Building
pub mod Closing
pub mod Ledger
pub mod Tables
pub mod Placing
pub mod Search
pub mod Rounds
pub mod Links
pub mod Taking
pub mod Validity
pub mod Receipts
pub mod Exits
pub mod Restarts
pub mod Publishing
pub mod Membership
pub mod Reach
pub mod Health
pub mod Fuel
pub mod Balance
pub mod Order
pub mod Founding
pub mod Ends
pub mod Limits
pub mod History
pub mod Outside
