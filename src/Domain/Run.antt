-- ===== src/Domain/Run.antt =====
-- src/domain/run.rs: the durable records of runs and task runs.
use aegis_fs.Prelude.{ℕ, String, Option, some, none, Bool}
use aegis_fs.Prelude.Int.{ℤ}
use aegis_fs.Prelude.Map.{Map}
use aegis_fs.Prelude.Text.{◌<>◌, decimal}
use aegis_fs.Domain.FailureKind.{FailureKind, code}
use aegis_fs.Domain.RunStatus
use aegis_fs.Domain.RunStatus.{RunStatus}
use aegis_fs.Domain.TaskStatus
use aegis_fs.Domain.TaskStatus.{TaskStatus}

pub record RunError : Type 0 where
  pub message : String
  pub kind : FailureKind
  pub task : Option String
  pub depth : ℕ  -- u8
  pub attempts : ℕ  -- u32

pub record Run (Json : Type 0) : Type 0 where
  pub id : String
  pub tenant : String
  pub def_name : String
  pub def_version : ℕ  -- u32
  pub input : Json
  pub status : RunStatus
  pub attempts : ℕ  -- u32
  pub next_attempt_at_ms : Option ℤ
  pub deadline_at_ms : Option ℤ
  pub started_at_ms : Option ℤ
  pub finished_at_ms : Option ℤ
  pub error : Option RunError
  pub output : Option Json
  pub tags : Map String String
  pub created_at_ms : ℤ
  pub run_number : ℕ  -- u64

pub record TaskRun (Json : Type 0) : Type 0 where
  pub id : String
  pub run_id : String
  pub task_name : String
  pub status : TaskStatus
  pub attempts : ℕ  -- u32
  pub last_error : Option String
  pub started_at_ms : Option ℤ
  pub finished_at_ms : Option ℤ
  pub output : Option Json

abbrev log_subject : Option String → String
log_subject none = " "
log_subject (some task) = " " <> task <> ": "

unfoldable pub to_log_line : RunError → String
unfolding code decimal
to_log_line e =
    "["
    <> code e.kind
    <> "]"
    <> log_subject e.task
    <> e.message
    <> " (attempt "
    <> decimal e.attempts
    <> ")"

module _ {Json : Type 0} where
  abbrev pub run_is_terminal : Run Json → Bool
  run_is_terminal r = RunStatus.is_terminal r.status

  abbrev pub task_run_is_terminal : TaskRun Json → Bool
  task_run_is_terminal t = TaskStatus.is_terminal t.status
