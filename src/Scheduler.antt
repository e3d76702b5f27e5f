-- ===== src/Scheduler.antt =====
-- src/scheduler: which tasks may run, the attempts of a run, their dispatch, and the throttles.
pub mod Pick
pub mod Throttle
pub mod Pool
pub mod Executor
pub mod Cron
