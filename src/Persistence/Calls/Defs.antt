-- ===== src/Persistence/Calls/Defs.antt =====
-- src/persistence/memory.rs: the operations that leave the workflow definitions as they are.
use aegis_fs.Prelude.{ℕ, suc, ◌⊎◌, inl, inr, Bool-cases, String, List, [], ◌∷◌, ◌≡◌, refl, arith}
use aegis_fs.Prelude.Int.{ℤ}
use aegis_fs.Prelude.Eq.{string_eq, pair_eq}
use aegis_fs.Prelude.Map.{insert}
use aegis_fs.Prelude.Result.{Result, ok, err, Result-cases}
use aegis_fs.Domain.Error.{StorageError}
use aegis_fs.Domain.Run.{Run}
use aegis_fs.Domain.Workflow.{WorkflowDef}
use aegis_fs.Persistence.Model.{QueueEntry}
use aegis_fs.Persistence.Queue.{write_entry, drop_entry, enqueue, cancel_run}
use aegis_fs.Persistence.Records.{
  update_workflow_version, finished_by, list_runs, delete_run, reap_loop, reap_finished_runs,
}
use aegis_fs.Persistence.Filter.{default_filter}
use aegis_fs.Persistence.Store.{MemoryState}

module _ {Json F64 : Type 0} where
  pub write_entry-defs :
      (id : String) (change : QueueEntry → QueueEntry) (r : Result StorageError QueueEntry)
      (s : MemoryState Json F64)
      → (write_entry id change r s).1.defs ≡ s.defs
  write_entry-defs id change (ok e) s = refl
  write_entry-defs id change (err e) s = refl

  pub drop_entry-defs :
      (id : String) (r : Result StorageError QueueEntry) (s : MemoryState Json F64)
      → (drop_entry id r s).1.defs ≡ s.defs
  drop_entry-defs id (ok e) s = refl
  drop_entry-defs id (err e) s = refl

  pub enqueue-defs : (e : QueueEntry) (s : MemoryState Json F64) → (enqueue e s).1.defs ≡ s.defs
  unfolding enqueue
  enqueue-defs e s = ground arith

  pub cancel_run-defs :
      (id : String) (now : ℤ) (s : MemoryState Json F64) → (cancel_run id now s).1.defs ≡ s.defs
  unfolding cancel_run
  cancel_run-defs id now s = ground arith

  reap_loop-defs :
      (before : ℤ) (rs : List (Run Json)) (n : ℕ) (s : MemoryState Json F64)
      → (reap_loop before rs n s).1.defs ≡ s.defs
  unfolding reap_loop delete_run
  reap_loop-defs before [] n s = refl
  reap_loop-defs before (r ∷ rs) n s = elim (Bool-cases (finished_by before r)) [
    | inl e ↦ rw (e, reap_loop) (reap_loop-defs before rs (suc n) (delete_run r.id s))
    | inr e ↦ rw (e, reap_loop) (reap_loop-defs before rs n s)
  ]

  pub reap-defs :
      (before : ℤ) (s : MemoryState Json F64) → (reap_finished_runs before s).1.defs ≡ s.defs
  unfolding reap_finished_runs
  reap-defs before s = reap_loop-defs before (list_runs default_filter s) 0 s

  pub update_workflow_version_cases :
      (tenant name : String) (def : WorkflowDef Json F64) (v : ℕ) (s : MemoryState Json F64)
      → ((e : StorageError) × (update_workflow_version tenant name def v s ≡ (err e, s)))
        ⊎ (update_workflow_version tenant name def v s ≡ (
          ok (record { def = def }),
          record s { defs = insert (tenant, name) (record { def = def }) s.defs },
        ))
  unfolding update_workflow_version
  update_workflow_version_cases tenant name def v s =
      elim (Result-cases (update_workflow_version tenant name def v s).0) [
        | inl (e, h) ↦ inl (e, ground arith)
        | inr (rec, h) ↦ inr (ground arith)
      ]
