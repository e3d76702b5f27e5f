-- ===== src/Persistence.antt =====
-- src/persistence: the durable state, the run queue, and the cached store.
pub mod Model
pub mod Filter
pub mod Store
pub mod Records
pub mod Queue
pub mod Calls
pub mod LruStore
