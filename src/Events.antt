-- ===== src/Events.antt =====
-- src/events: what is sent to the outside on the progress of runs.
pub mod Outbox
pub mod Kind
pub mod Dispatch
pub mod Watcher
