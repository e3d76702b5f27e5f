-- ===== src/Retry.antt =====
-- src/retry: from a retry policy to the delay before the next attempt, and to a plan.
pub mod Random
pub mod Backoff
pub mod Bounds
pub mod Planner
