-- ===== src/State.antt =====
-- src/state
pub mod Machine
pub mod RunFsm
pub mod TaskFsm
pub mod Invariant
