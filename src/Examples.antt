-- ===== src/Examples.antt =====
-- The theorems at concrete inputs: a small workflow, its store, and instances of the parameters.
pub mod Data
mod States
mod Retries
mod Stores
mod Pools
mod Codes
mod Throttles
mod Outboxes
mod Notices
mod Graphs
mod Caches
mod Crons
mod Exprs
mod Definitions
mod Attempts
