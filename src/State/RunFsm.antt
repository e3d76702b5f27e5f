-- ===== src/State/RunFsm.antt =====
-- src/state/run_fsm.rs: the run machine.
pub mod Paths
use aegis_fs.Prelude.{Bool, true, false, List, [], ◌∷◌, if◌then◌else◌}
use aegis_fs.Prelude.Int.{ℤ}
use aegis_fs.Prelude.Result.{Result, ok, err}
use aegis_fs.Domain.RunStatus.{
  RunStatus, queued, running, succeeded, failed, cancelled, timed_out, is_terminal,
}
use aegis_fs.Domain.Error.{RunvaneError, domain, illegal_transition}
use aegis_fs.State.Machine
use aegis_fs.State.Machine.{StateLabel, TransitionTable, Transition, ApplyResult, applied, illegal}

abbrev pub run_label : StateLabel RunStatus
run_label = record { is_terminal = is_terminal }

unfoldable pub can_transition : RunStatus → RunStatus → Bool
can_transition queued running = true
can_transition queued cancelled = true
can_transition running succeeded = true
can_transition running failed = true
can_transition running cancelled = true
can_transition running timed_out = true
can_transition failed queued = true
can_transition failed cancelled = true
can_transition _ _ = false

abbrev pub all_run : List RunStatus
all_run = queued ∷ running ∷ succeeded ∷ failed ∷ cancelled ∷ timed_out ∷ []

abbrev pub run_table : TransitionTable RunStatus
run_table = record { legal = can_transition; all = all_run }

abbrev pub is_legal : RunStatus → RunStatus → Bool
is_legal from to = Machine.is_legal run_table from to

unfoldable pub validate : RunStatus → RunStatus → Result RunvaneError (Unit {0})
validate from to = if is_legal from to then ok tt else err (domain (illegal_transition from to))

abbrev pub legal_transitions : List (RunStatus × RunStatus)
legal_transitions = Machine.legal_edges run_table

unfoldable pub allowed_targets : RunStatus → List RunStatus
unfolding Machine.allowed_targets
allowed_targets from = Machine.allowed_targets run_table from

abbrev pub recorded :
    RunStatus → RunStatus → ApplyResult RunStatus → Result RunvaneError (Transition RunStatus)
recorded from to (applied t) = ok t
recorded from to (illegal _) = err (domain (illegal_transition from to))

unfoldable pub record_run : RunStatus → RunStatus → ℤ → Result RunvaneError (Transition RunStatus)
unfolding Machine.apply
record_run from to at_ms = recorded from to (Machine.apply run_table from to at_ms)
