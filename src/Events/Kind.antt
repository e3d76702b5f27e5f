-- ===== src/Events/Kind.antt =====
-- src/events/mod.rs: the kinds of events and the document that is sent for one. The text of JSON
-- (`serde_json`) and the digest (`sha2`, `hex`) are parameters where they are used.
use aegis_fs.Prelude.{ℕ, String, Bool, true, false, Option, none, some}
use aegis_fs.Prelude.Int.{ℤ}
use aegis_fs.Prelude.Text.{◌<>◌}
use aegis_fs.Domain.Run.{Run, RunError}
use aegis_fs.Domain.RunStatus.{RunStatus, display}

pub data EventKind : Type 0 where
  run_started run_succeeded run_failed run_timed_out run_cancelled : EventKind

unfoldable pub code : EventKind → String
code EventKind.run_started = "run.started"
code EventKind.run_succeeded = "run.succeeded"
code EventKind.run_failed = "run.failed"
code EventKind.run_timed_out = "run.timed_out"
code EventKind.run_cancelled = "run.cancelled"

abbrev pub is_terminal_kind : EventKind → Bool
is_terminal_kind EventKind.run_started = false
is_terminal_kind _ = true

pub record RunEventDoc (Json : Type 0) : Type 0 where
  pub kind : String
  pub run_id : String
  pub tenant : String
  pub def_name : String
  pub def_version : ℕ  -- u32
  pub run_number : ℕ  -- u64
  pub status : String
  pub started_at_ms : Option ℤ
  pub finished_at_ms : Option ℤ
  pub attempts : ℕ  -- u32
  pub error : Option String
  pub output : Option Json
  pub created_at_ms : ℤ

abbrev message_of : Option RunError → Option String
message_of none = none
message_of (some e) = some e.message

abbrev output_for : {Json : Type 0} → EventKind → Option Json → Option Json
output_for EventKind.run_succeeded output = output
output_for _ output = none

-- The status as serde writes it is the text of `Display`: both are in lower case.
unfoldable pub from_run : {Json : Type 0} → Run Json → EventKind → ℤ → RunEventDoc Json
unfolding code display
from_run run kind created_at_ms = record {
  kind = code kind;
  run_id = run.id;
  tenant = run.tenant;
  def_name = run.def_name;
  def_version = run.def_version;
  run_number = run.run_number;
  status = display run.status;
  started_at_ms = run.started_at_ms;
  finished_at_ms = run.finished_at_ms;
  attempts = run.attempts;
  error = message_of run.error;
  output = output_for kind run.output;
  created_at_ms = created_at_ms;
}

abbrev pub terminal_kind_for : RunStatus → Option EventKind
terminal_kind_for RunStatus.succeeded = some EventKind.run_succeeded
terminal_kind_for RunStatus.failed = some EventKind.run_failed
terminal_kind_for RunStatus.timed_out = some EventKind.run_timed_out
terminal_kind_for RunStatus.cancelled = some EventKind.run_cancelled
terminal_kind_for _ = none

unfoldable pub delivery_id :
    (digest : String → String) → (run_id : String) → EventKind → (tenant def_name : String) → String
unfolding code
delivery_id digest run_id kind tenant def_name =
    digest (tenant <> "/" <> def_name <> "/" <> run_id <> "/" <> code kind)
