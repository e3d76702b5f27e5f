-- ===== src/Scheduler/Pick/Ready.antt =====
-- What `ready_tasks` of src/scheduler/pick.rs selects.
use aegis_fs.Prelude.{
  String, ◌≡◌, refl, ◌↔◌, ◌⊎◌, inl, inr, true, some, List, [], ◌∷◌, arith, Elem, all-true, all_of,
  Bool-cases,
}
use aegis_fs.Prelude.Eq.{string_eq}
use aegis_fs.Prelude.Map.{lookup}
use aegis_fs.Prelude.Sort.{Elem-sort_by}
use aegis_fs.Prelude.Text.{str_le}
use aegis_fs.Domain.TaskStatus.{TaskStatus, pending, running, succeeded, failed, skipped}
use aegis_fs.Domain.Workflow.{TaskSpec, WorkflowDef}
use aegis_fs.Scheduler.Pick.{
  States, is_succeeded, status_of, deps_ok, may_dispatch, ready_names, ready_tasks,
}

-- Every dependency of the task has succeeded.
abbrev pub DepsDone : {Json F64 : Type 0} → States → TaskSpec Json F64 → Type 0
DepsDone states task =
    (dep : String) → Elem dep task.depends_on → lookup dep states ≡ some succeeded

-- The task may run: it failed before, or it is pending and its dependencies are done.
abbrev pub Dispatchable : {Json F64 : Type 0} → States → TaskSpec Json F64 → Type 0
Dispatchable states task =
    (status_of task.name states ≡ failed)
    ⊎ ((status_of task.name states ≡ pending) × DepsDone states task)

module _ {Json F64 : Type 0} (states : States) where
  deps_ok_iff : (task : TaskSpec Json F64) → (deps_ok states task ≡ true) ↔ DepsDone states task
  deps_ok_iff task = (
    λ h dep m.
        ground (arith, all-true (λ d. is_succeeded (lookup d states)) dep task.depends_on h m),
    λ h. all_of (λ d. is_succeeded (lookup d states)) task.depends_on (λ dep m. rw (h dep m)),
  )

  dispatch_iff :
      (task : TaskSpec Json F64)
      → (may_dispatch (status_of task.name states) (deps_ok states task) ≡ true)
        ↔ Dispatchable states task
  dispatch_iff task = (into (status_of task.name states) refl, back)
    where
      into :
          (s : TaskStatus)
          → status_of task.name states ≡ s
          → may_dispatch s (deps_ok states task) ≡ true
          → Dispatchable states task
      into failed e h = inl e
      into pending e h = inr (e, (deps_ok_iff task).0 h)
      into running e h = absurd (cc)
      into succeeded e h = absurd (cc)
      into skipped e h = absurd (cc)

      back :
          Dispatchable states task
          → may_dispatch (status_of task.name states) (deps_ok states task) ≡ true
      back (inl e) = rw e
      back (inr (e, d)) = rw e ((deps_ok_iff task).1 d)

  Elem-ready_names :
      (name : String) (tasks : List (TaskSpec Json F64))
      → Elem name (ready_names states tasks) ↔ (
          (task : TaskSpec Json F64) × Elem task tasks
          × (name ≡ task.name)
          × Dispatchable states task)
  unfolding ready_names
  Elem-ready_names name tasks = (into tasks, λ (task, m, e, d). back tasks task m e d)
    where
      into :
          (tasks : List (TaskSpec Json F64))
          → Elem name (ready_names states tasks)
          → (task : TaskSpec Json F64) × Elem task tasks
            × (name ≡ task.name)
            × Dispatchable states task
      into [] m = absurd m
      into (t ∷ tasks) m =
          elim (Bool-cases (may_dispatch (status_of t.name states) (deps_ok states t))) [
            | inl h ↦ elim (rw (h, ready_names) at m) [
              | inl e ↦ (t, inl refl, e, (dispatch_iff t).0 h)
              | inr n ↦ let (u, k, e, d) = into tasks n in (u, inr k, e, d)
            ]
            | inr h ↦ let (u, k, e, d) = into tasks (rw (h, ready_names) at m) in (u, inr k, e, d)
          ]

      back :
          (tasks : List (TaskSpec Json F64)) (task : TaskSpec Json F64)
          → Elem task tasks
          → name ≡ task.name
          → Dispatchable states task
          → Elem name (ready_names states tasks)
      back [] task m e d = absurd m
      back (t ∷ tasks) task (inl p) e d = rw (← p, (dispatch_iff task).1 d, ready_names) (inl e)
      back (t ∷ tasks) task (inr m) e d =
          elim (Bool-cases (may_dispatch (status_of t.name states) (deps_ok states t))) [
            | inl h ↦ rw (h, ready_names) (inr (back tasks task m e d))
            | inr h ↦ rw (h, ready_names) (back tasks task m e d)
          ]

  -- A name is selected exactly when a task of the definition has it that failed before, or that is
  -- pending (a status that is not recorded counts as pending) and whose dependencies have all
  -- succeeded.
  pub ready_tasks_iff :
      (def : WorkflowDef Json F64) (name : String)
      → Elem name (ready_tasks def states) ↔ (
          (task : TaskSpec Json F64) × Elem task def.tasks
          × (name ≡ task.name)
          × Dispatchable states task)
  unfolding ready_tasks
  ready_tasks_iff def name = (
    λ m.
        (Elem-ready_names name def.tasks).0
          ((Elem-sort_by str_le name (ready_names states def.tasks)).0 m),
    λ h.
        (Elem-sort_by str_le name (ready_names states def.tasks)).1
          ((Elem-ready_names name def.tasks).1 h),
  )
