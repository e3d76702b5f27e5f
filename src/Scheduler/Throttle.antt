-- ===== src/Scheduler/Throttle.antt =====
-- src/scheduler/throttle.rs: the fair sharing of a queue among tenants, and the limit on what runs at
-- once.
pub mod Fair
pub mod Limiter
