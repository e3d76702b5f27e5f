-- ===== src/Scheduler/Pick.antt =====
-- src/scheduler/pick.rs: the tasks that may be dispatched, and those that never can be.
pub mod Ready
pub mod Skip
use aegis_fs.Prelude.{
  ℕ, zero, suc, ◌+◌, String, Bool, true, false, not, ◌&&◌, ◌||◌, Option, none, some, List, [], ◌∷◌,
  any, all, length, if◌then◌else◌,
}
use aegis_fs.Prelude.BTree
use aegis_fs.Prelude.Eq.{string_eq}
use aegis_fs.Prelude.Map.{Map, lookup}
use aegis_fs.Prelude.Sort.{sort_by}
use aegis_fs.Prelude.Text.{str_le}
use aegis_fs.Domain.TaskStatus
use aegis_fs.Domain.TaskStatus.{TaskStatus, pending, succeeded, failed, skipped}
use aegis_fs.Domain.Workflow.{TaskSpec, WorkflowDef, unwrap_or}

-- `BTreeMap<String, TaskStatus>`
abbrev pub States : Type 0
States = Map String TaskStatus

abbrev pub is_succeeded : Option TaskStatus → Bool
is_succeeded none = false
is_succeeded (some s) = TaskStatus.eq s succeeded

-- The status of a task; one that the map does not hold is pending.
abbrev pub status_of : String → States → TaskStatus
status_of name states = unwrap_or (lookup name states) pending

abbrev pub may_dispatch : TaskStatus → Bool → Bool
may_dispatch failed deps = true
may_dispatch pending deps = deps
may_dispatch _ deps = false

module _ {Json F64 : Type 0} where
  abbrev pub deps_ok : States → TaskSpec Json F64 → Bool
  deps_ok states task = all (λ dep. is_succeeded (lookup dep states)) task.depends_on

  unfoldable pub ready_names : States → List (TaskSpec Json F64) → List String
  ready_names states [] = []
  ready_names states (task ∷ tasks) =
      let rest = ready_names states tasks in
      if may_dispatch (status_of task.name states) (deps_ok states task)
      then task.name ∷ rest
      else rest

  unfoldable pub ready_tasks : WorkflowDef Json F64 → States → List String
  unfolding ready_names sort_by
  ready_tasks def states = sort_by str_le (ready_names states def.tasks)

  abbrev pub dep_blocked : States → TaskSpec Json F64 → Bool
  dep_blocked next task = any (λ dep. not (is_succeeded (lookup dep next))) task.depends_on

  abbrev pub to_skip : States → TaskSpec Json F64 → Bool
  to_skip next task = TaskStatus.eq (status_of task.name next) pending && dep_blocked next task

  -- One pass of the inner loop: the map, and whether it changed.
  unfoldable pub skip_pass : List (TaskSpec Json F64) → States → Bool → States × Bool
  skip_pass [] next changed = (next, changed)
  skip_pass (task ∷ tasks) next changed =
      skip_pass tasks (if to_skip next task then BTree.insert task.name skipped next else next)
        (changed || to_skip next task)

  -- The outer loop; `none` means that the fuel ran out.
  unfoldable pub skip_loop : ℕ → List (TaskSpec Json F64) → States → Option States
  unfolding skip_pass
  skip_loop zero tasks next = none
  skip_loop (suc fuel) tasks next =
      let (after, changed) = skip_pass tasks next false in
      let rest = skip_loop fuel tasks after in if changed then rest else some after

  unfoldable pub pending_to_skip : WorkflowDef Json F64 → States → Option States
  unfolding skip_loop
  pending_to_skip def states = skip_loop (length def.tasks + 2) def.tasks states
