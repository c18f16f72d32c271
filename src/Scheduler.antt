-- ===== src/Scheduler.antt =====
-- include/cget/scheduler/scheduler.h and src/scheduler/scheduler.cpp. `Defs` has the state and the
-- scheduling pass, `Steps` the threads as a step relation; the other children are proofs.
pub mod Quotas
pub mod Defs
pub mod Steps
pub mod Limits
pub mod Selection
pub mod Twice
