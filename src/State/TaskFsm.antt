-- ===== src/State/TaskFsm.antt =====
-- src/state/task_fsm.rs: the task machine.
pub mod Paths
use aegis_fs.Prelude.{Bool, true, false, List, [], ◌∷◌, if◌then◌else◌}
use aegis_fs.Prelude.Int.{ℤ}
use aegis_fs.Prelude.Result.{Result, ok, err}
use aegis_fs.Domain.TaskStatus.{
  TaskStatus, pending, running, succeeded, failed, skipped, is_terminal,
}
use aegis_fs.Domain.Error.{RunvaneError, domain, illegal_task_transition}
use aegis_fs.State.Machine
use aegis_fs.State.Machine.{StateLabel, TransitionTable, Transition, ApplyResult, applied, illegal}

abbrev pub task_label : StateLabel TaskStatus
task_label = record { is_terminal = is_terminal }

unfoldable pub can_transition : TaskStatus → TaskStatus → Bool
can_transition pending running = true
can_transition pending failed = true
can_transition pending skipped = true
can_transition running succeeded = true
can_transition running failed = true
can_transition failed running = true
can_transition _ _ = false

abbrev pub all_task : List TaskStatus
all_task = pending ∷ running ∷ succeeded ∷ failed ∷ skipped ∷ []

abbrev pub task_table : TransitionTable TaskStatus
task_table = record { legal = can_transition; all = all_task }

abbrev pub is_legal : TaskStatus → TaskStatus → Bool
is_legal from to = Machine.is_legal task_table from to

unfoldable pub validate : TaskStatus → TaskStatus → Result RunvaneError (Unit {0})
validate from to =
    if is_legal from to then ok tt else err (domain (illegal_task_transition from to))

abbrev pub legal_transitions : List (TaskStatus × TaskStatus)
legal_transitions = Machine.legal_edges task_table

unfoldable pub allowed_targets : TaskStatus → List TaskStatus
unfolding Machine.allowed_targets
allowed_targets from = Machine.allowed_targets task_table from

abbrev pub recorded :
    TaskStatus → TaskStatus → ApplyResult TaskStatus → Result RunvaneError (Transition TaskStatus)
recorded from to (applied t) = ok t
recorded from to (illegal _) = err (domain (illegal_task_transition from to))

unfoldable pub record_task :
    TaskStatus → TaskStatus → ℤ → Result RunvaneError (Transition TaskStatus)
unfolding Machine.apply
record_task from to at_ms = recorded from to (Machine.apply task_table from to at_ms)
