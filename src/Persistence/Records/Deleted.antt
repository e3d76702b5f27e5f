-- ===== src/Persistence/Records/Deleted.antt =====
-- src/persistence/memory.rs: the deletion of a run.
use aegis_fs.Prelude.{String, not, none, ◌≡◌, ◌≢◌, ◌↔◌, arith, Elem, Elem-filter}
use aegis_fs.Prelude.Eq.{◌==◌, string_eq, eq_refl, eq_iff}
use aegis_fs.Prelude.Map.{lookup, lookup-remove}
use aegis_fs.Domain.Run.{TaskRun}
use aegis_fs.Persistence.Store.{MemoryState}
use aegis_fs.Persistence.Records.{delete_run}

module _ {Json F64 : Type 0} where
  -- After a deletion the run is gone, every other run is as it was, and of the task runs exactly
  -- those of other runs are left.
  pub delete_run_lem :
      (id : String) (s : MemoryState Json F64)
      → (lookup id (delete_run id s).runs ≡ none)
        × ((j : String) → j ≢ id → lookup j (delete_run id s).runs ≡ lookup j s.runs)
        × ((e : String × TaskRun Json)
            → Elem e (delete_run id s).task_runs ↔ (Elem e s.task_runs × (e.1.run_id ≢ id)))
  unfolding delete_run
  delete_run_lem id s = (
    ground (arith, lookup-remove id id s.runs, eq_refl id),
    λ j ne. ground (arith, lookup-remove id j s.runs, eq_iff id j),
    λ e. (
      λ m.
          let (kept, other) =
            (Elem-filter (λ entry. not (entry.1.run_id == id)) e s.task_runs).0 m in
          (kept, λ same. ground (arith, eq_iff e.1.run_id id)),
      λ (m, other).
          (Elem-filter (λ entry. not (entry.1.run_id == id)) e s.task_runs).1
            (m, ground (arith, eq_iff e.1.run_id id)),
    ),
  )
