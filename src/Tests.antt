-- ===== src/Tests.antt =====
-- Runs of the code at concrete inputs.
mod Scheduling
mod Queueing
mod Loading
mod Pooling
