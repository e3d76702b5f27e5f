-- ===== src/Persistence/Records.antt =====
-- src/persistence/memory.rs: workflows, runs, task runs and the submission counter; and the retention
-- pass of src/persistence/mod.rs.
pub mod Versions
pub mod Deleted
pub mod Reaped
use aegis_fs.Prelude.{
  ℕ, suc, ◌+◌, ◌%◌, ◌^◌, String, Bool, not, ◌&&◌, Option, none, some, List, [], ◌∷◌, map, filter,
  length, eqb, if◌then◌else◌,
}
use aegis_fs.Prelude.Eq.{◌==◌, string_eq, pair_eq}
use aegis_fs.Prelude.Int.{ℤ, leb_ℤ}
use aegis_fs.Prelude.Map.{lookup, insert, remove, values}
use aegis_fs.Prelude.Result.{Result, ok, err}
use aegis_fs.Prelude.Sort.{sort_by}
use aegis_fs.Prelude.Text.{◌<>◌, decimal, str_le}
use aegis_fs.Domain.Error.{StorageError, conflict, not_found, concurrent_modification}
use aegis_fs.Domain.Run.{Run, TaskRun}
use aegis_fs.Domain.Workflow.{WorkflowDef}
use aegis_fs.Persistence.Filter.{RunFilter, default_filter, matches, apply_order}
use aegis_fs.Persistence.Store.{MemoryState, ok_or, or_zero, lapsed}
use aegis_fs.Persistence.Model.{WorkflowRecord, WorkflowSummary, assemble}

module _ {Json : Type 0} where
  abbrev newest : Run Json → Run Json → Bool
  newest a b = leb_ℤ b.created_at_ms a.created_at_ms

  abbrev task_name_le : TaskRun Json → TaskRun Json → Bool
  task_name_le a b = str_le a.task_name b.task_name

module _ {Json F64 : Type 0} where
  -- Workflows.

  unfoldable pub put_workflow :
      WorkflowDef Json F64 → MemoryState Json F64 → WorkflowRecord Json F64 × MemoryState Json F64
  put_workflow def s =
      let rec : WorkflowRecord Json F64 = record { def = def } in
      (rec, record s { defs = insert (def.tenant, def.name) rec s.defs })

  -- The checks of `update_workflow_version` on the stored record.
  abbrev update_checked :
      (tenant name : String)
      → WorkflowDef Json F64
      → ℕ
      → Option (WorkflowRecord Json F64)
      → MemoryState Json F64
      → Result StorageError (WorkflowRecord Json F64) × MemoryState Json F64
  update_checked tenant name def expected_version none s =
      (err (not_found ("workflow " <> tenant <> "/" <> name)), s)
  update_checked tenant name def expected_version (some current) s =
      let rec : WorkflowRecord Json F64 = record { def = def } in
      if not (eqb current.def.version expected_version)
      then (err (concurrent_modification ("workflow " <> tenant <> "/" <> name)), s)
      else if not (eqb def.version ((expected_version + 1) % 2 ^ 32))
      then (
        err (
            conflict (
              "workflow "
              <> tenant
              <> "/"
              <> name
              <> " version must be "
              <> decimal expected_version
              <> "+1, got "
              <> decimal def.version)),
        s,
      )
      else (ok rec, record s { defs = insert (tenant, name) rec s.defs })

  unfoldable pub update_workflow_version :
      (tenant name : String)
      → WorkflowDef Json F64
      → ℕ
      → MemoryState Json F64
      → Result StorageError (WorkflowRecord Json F64) × MemoryState Json F64
  update_workflow_version tenant name def expected_version s =
      update_checked tenant name def expected_version (lookup (tenant, name) s.defs) s

  unfoldable pub get_workflow :
      (tenant name : String) → MemoryState Json F64 → Result StorageError (WorkflowRecord Json F64)
  get_workflow tenant name s =
      ok_or (lookup (tenant, name) s.defs) (not_found ("workflow " <> tenant <> "/" <> name))

  -- `(&str, &str)` compared in lexicographic order.
  abbrev natural_key_le : WorkflowRecord Json F64 → WorkflowRecord Json F64 → Bool
  natural_key_le a b =
      if a.def.tenant == b.def.tenant
      then str_le a.def.name b.def.name
      else str_le a.def.tenant b.def.tenant

  abbrev pub list_workflows : MemoryState Json F64 → List (WorkflowRecord Json F64)
  list_workflows s = sort_by natural_key_le (values s.defs)

  abbrev pub list_workflow_summaries : MemoryState Json F64 → List (WorkflowSummary Json F64)
  list_workflow_summaries s =
      map
        (λ rec. assemble rec (
          sort_by newest (
            filter (λ r. r.def_name == rec.def.name && r.tenant == rec.def.tenant)
              (values s.runs))))
        (values s.defs)

  -- Runs.

  unfoldable pub put_run : Run Json → MemoryState Json F64 → MemoryState Json F64
  put_run run s = record s { runs = insert run.id run s.runs }

  unfoldable pub get_run : String → MemoryState Json F64 → Result StorageError (Run Json)
  get_run id s = ok_or (lookup id s.runs) (not_found ("run " <> id))

  unfoldable pub delete_run : String → MemoryState Json F64 → MemoryState Json F64
  delete_run id s = record s {
    runs = remove id s.runs;
    task_runs = filter (λ entry. not (entry.1.run_id == id)) s.task_runs;
  }

  unfoldable pub list_runs : RunFilter → MemoryState Json F64 → List (Run Json)
  unfolding matches apply_order
  list_runs f s = apply_order f (filter (matches f) (values s.runs))

  unfoldable pub count_runs : RunFilter → MemoryState Json F64 → ℕ
  unfolding matches
  count_runs f s = length (filter (matches f) (values s.runs))

  -- Task runs.

  unfoldable pub put_task_run : TaskRun Json → MemoryState Json F64 → MemoryState Json F64
  put_task_run tr s = record s { task_runs = insert tr.id tr s.task_runs }

  unfoldable pub get_task_run : String → MemoryState Json F64 → Result StorageError (TaskRun Json)
  get_task_run id s = ok_or (lookup id s.task_runs) (not_found ("task run " <> id))

  unfoldable pub list_task_runs_for_run : String → MemoryState Json F64 → List (TaskRun Json)
  unfolding sort_by
  list_task_runs_for_run run_id s =
      sort_by task_name_le (filter (λ t. t.run_id == run_id) (values s.task_runs))

  -- The submission counter.

  unfoldable pub next_run_number : String → MemoryState Json F64 → ℕ × MemoryState Json F64
  next_run_number def_name s =
      let next = (or_zero (lookup def_name s.run_numbers) + 1) % 2 ^ 64 in
      (next, record s { run_numbers = insert def_name next s.run_numbers })

module _ {Json : Type 0} where
  abbrev pub finished_by : ℤ → Run Json → Bool
  finished_by before_ms r = lapsed before_ms r.finished_at_ms

module _ {Json F64 : Type 0} where
  -- The default method of the trait `Store` in src/persistence/mod.rs.
  unfoldable pub reap_loop :
      ℤ → List (Run Json) → ℕ → MemoryState Json F64 → ℕ × MemoryState Json F64
  unfolding delete_run
  reap_loop before_ms [] reaped s = (reaped, s)
  reap_loop before_ms (r ∷ runs) reaped s =
      let hit = finished_by before_ms r in
      reap_loop before_ms runs (if hit then suc reaped else reaped)
        (if hit then delete_run r.id s else s)

  unfoldable pub reap_finished_runs : ℤ → MemoryState Json F64 → ℕ × MemoryState Json F64
  unfolding reap_loop list_runs
  reap_finished_runs before_ms s = reap_loop before_ms (list_runs default_filter s) 0 s
