-- ===== src/State/Invariant.antt =====
-- src/state/invariant.rs: the consistency of a run's status with the statuses of its tasks.
pub mod Decides
use aegis_fs.Prelude.{
  String, Bool, true, false, not, ◌&&◌, ◌||◌, Option, none, some, List, [], ◌∷◌, any, all, find,
  if◌then◌else◌,
}
use aegis_fs.Prelude.Result.{Result, ok, err}
use aegis_fs.Domain.RunStatus
use aegis_fs.Domain.RunStatus.{RunStatus}
use aegis_fs.Domain.TaskStatus
use aegis_fs.Domain.TaskStatus.{TaskStatus}

pub data InvariantError : Type 0 where
  succeeded_with_non_terminal_task terminal_with_running_task : String → InvariantError
  run_blocked active_with_no_tasks : InvariantError
  skipped_without_failed_dependency : String → InvariantError

abbrev pub Tasks : Type 0
Tasks = List (String × TaskStatus)

abbrev pub is_running : String × TaskStatus → Bool
is_running t = TaskStatus.eq t.1 TaskStatus.running

abbrev pub is_done : String × TaskStatus → Bool
is_done t = TaskStatus.is_terminal t.1

abbrev pub is_failed : String × TaskStatus → Bool
is_failed t = TaskStatus.eq t.1 TaskStatus.failed

abbrev pub is_skipped : String × TaskStatus → Bool
is_skipped t = TaskStatus.eq t.1 TaskStatus.skipped

-- `find(..).unwrap().0`; `none` is the panic of `unwrap`.
abbrev named :
    (String → InvariantError)
    → Option (String × TaskStatus)
    → Option (Result InvariantError (Unit {0}))
named e none = none
named e (some t) = some (err (e t.0))

abbrev is_empty : Tasks → Bool
is_empty [] = true
is_empty (_ ∷ _) = false

-- The last part of the function, on skipped tasks.
check_skipped : RunStatus → Tasks → Option (Result InvariantError (Unit {0}))
check_skipped run tasks =
    let needs_failed_dep =
      RunStatus.eq run RunStatus.failed
      || RunStatus.eq run RunStatus.timed_out
      || RunStatus.eq run RunStatus.succeeded in
    let has_failed = any is_failed tasks in
    if needs_failed_dep
    then elim (find is_skipped tasks) [
      | some t ↦
          if not has_failed
          then some (err (skipped_without_failed_dependency t.0))
          else some (ok tt)
      | none ↦ some (ok tt)
    ]
    else some (ok tt)

-- The check of a run that is `running`, then the rest.
check_running : RunStatus → Tasks → Option (Result InvariantError (Unit {0}))
unfolding check_skipped
check_running run tasks =
    if RunStatus.eq run RunStatus.running
    then if is_empty tasks
      then some (err active_with_no_tasks)
      else if all is_done tasks
      then some (err run_blocked)
      else check_skipped run tasks
    else check_skipped run tasks

-- `none` is a panic.
unfoldable pub check_run_consistency : RunStatus → Tasks → Option (Result InvariantError (Unit {0}))
unfolding check_running
check_run_consistency run tasks =
    let all_terminal = all is_done tasks in
    let any_running = any is_running tasks in
    if (RunStatus.eq run RunStatus.failed || RunStatus.eq run RunStatus.timed_out) && any_running
    then named terminal_with_running_task (find is_running tasks)
    else if RunStatus.eq run RunStatus.succeeded
    then if not all_terminal
      then named succeeded_with_non_terminal_task (find (λ t. not (is_done t)) tasks)
      else some (ok tt)
    else check_running run tasks
