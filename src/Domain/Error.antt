-- ===== src/Domain/Error.antt =====
-- src/domain/error.rs and src/error.rs: the errors that the modelled code raises.
use aegis_fs.Prelude.{ℕ, String}
use aegis_fs.Domain.RunStatus.{RunStatus}
use aegis_fs.Domain.TaskStatus.{TaskStatus}

-- The constructors that the modelled modules raise.
pub data DomainError : Type 0 where
  illegal_transition : RunStatus → RunStatus → DomainError
  illegal_task_transition : TaskStatus → TaskStatus → DomainError
  unknown_dependency : (dependency task : String) → DomainError
  cycle_detected : DomainError
  invalid_definition duplicate_task_name invalid_name invalid_policy : String → DomainError
  empty_tasks too_many_tasks zero_timeout description_too_long : DomainError
  input_too_large : (size cap : ℕ) → DomainError
  input_too_deep : (depth limit : ℕ) → DomainError

pub data StorageError : Type 0 where
  conflict not_found concurrent_modification schema backend claim_lost : String → StorageError

pub data RunvaneError : Type 0 where
  domain : DomainError → RunvaneError
  storage : StorageError → RunvaneError
