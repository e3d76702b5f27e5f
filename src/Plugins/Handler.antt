-- ===== src/Plugins/Handler.antt =====
-- src/plugins/handler.rs: what a handler is given and what it returns. The handlers themselves are
-- arguments of the executor.
use aegis_fs.Prelude.{ℕ, String, Bool}
use aegis_fs.Domain.FailureKind.{FailureKind, transient_failure, rejected, cancelled}

pub record TaskContext (Json : Type 0) : Type 0 where
  pub tenant : String
  pub def_name : String
  pub run_id : String
  pub task_name : String
  pub input : Json
  pub attempt : ℕ  -- u32
  pub is_cancelled : Bool  -- the flag of the cancellation token

pub record HandlerError : Type 0 where
  pub kind : FailureKind
  pub message : String

abbrev pub transient : String → HandlerError
transient message = record { kind = transient_failure; message = message }

abbrev pub permanent : String → HandlerError
permanent message = record { kind = rejected; message = message }

abbrev pub cancelled_error : String → HandlerError
cancelled_error message = record { kind = cancelled; message = message }

-- What a call of a handler comes to: its output, an error, or a panic.
pub data Handled (Json : Type 0) : Type 0 where
  returned : Json → Handled Json
  failed : HandlerError → Handled Json
  panicked : Handled Json
