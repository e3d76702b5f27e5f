-- ===== src/Domain.antt =====
-- src/domain: the vocabulary of the platform.
pub mod RunStatus
pub mod TaskStatus
pub mod FailureKind
pub mod Priority
pub mod RetryPolicy
pub mod Workflow
pub mod Run
pub mod Ids
pub mod Dag
pub mod Versioning
pub mod Validation
pub mod Error
