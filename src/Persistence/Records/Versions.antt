-- ===== src/Persistence/Records/Versions.antt =====
-- src/persistence/memory.rs: the optimistic update of workflow definitions.
use aegis_fs.Prelude.{ℕ, ◌+◌, ◌%◌, ◌^◌, ◌<◌, String, false, ◌≡◌, arith, eqb, ◌∙◌}
use aegis_fs.Prelude.Eq.{string_eq, pair_eq}
use aegis_fs.Prelude.Map.{lookup-insert_same}
use aegis_fs.Prelude.Result.{ok, err}
use aegis_fs.Prelude.Text.{◌<>◌}
use aegis_fs.Domain.Error.{concurrent_modification}
use aegis_fs.Domain.Workflow.{WorkflowDef}
use aegis_fs.Persistence.Store.{MemoryState}
use aegis_fs.Persistence.Model.{WorkflowRecord}
use aegis_fs.Persistence.Records.{update_workflow_version, get_workflow}

next_ne : (v : ℕ) → v < 2 ^ 32 → eqb ((v + 1) % 2 ^ 32) v ≡ false
next_ne v h = ground arith

module _ {Json F64 : Type 0} where
  updated :
      (tenant name : String) (def : WorkflowDef Json F64) (v : ℕ) (s s' : MemoryState Json F64)
      (rec : WorkflowRecord Json F64)
      → v < 2 ^ 32
      → update_workflow_version tenant name def v s ≡ (ok rec, s')
      → (get_workflow tenant name s' ≡ ok (record { def = def })) × (def.version ≡ (v + 1) % 2 ^ 32)
  unfolding update_workflow_version get_workflow
  updated tenant name def v s s' rec bound h =
      ground (
        arith,
        lookup-insert_same {K = String × String} (tenant, name) (record { def = def }) s.defs,
      )

  refused :
      (tenant name : String) (def late : WorkflowDef Json F64) (v : ℕ) (s : MemoryState Json F64)
      → v < 2 ^ 32
      → def.version ≡ (v + 1) % 2 ^ 32
      → get_workflow tenant name s ≡ ok (record { def = def })
      → update_workflow_version tenant name late v s
        ≡ (err (concurrent_modification ("workflow " <> tenant <> "/" <> name)), s)
  unfolding update_workflow_version get_workflow
  refused tenant name def late v s bound next h = ground (arith, next_ne v bound)

  -- After an update with the expected version v (a 32-bit one) has succeeded, the store returns the
  -- new definition; and in every later store that still returns it, whatever else has changed, an
  -- update that expects v too, whatever its definition, is refused as a concurrent modification and
  -- changes nothing.
  pub update_once :
      (tenant name : String) (def late : WorkflowDef Json F64) (v : ℕ)
      (s s' s'' : MemoryState Json F64) (rec : WorkflowRecord Json F64)
      → v < 2 ^ 32
      → update_workflow_version tenant name def v s ≡ (ok rec, s')
      → get_workflow tenant name s'' ≡ get_workflow tenant name s'
      → (get_workflow tenant name s' ≡ ok (record { def = def }))
        × (update_workflow_version tenant name late v s''
            ≡ (err (concurrent_modification ("workflow " <> tenant <> "/" <> name)), s''))
  update_once tenant name def late v s s' s'' rec bound h same =
      let (fresh, next) = updated tenant name def v s s' rec bound h in
      (fresh, refused tenant name def late v s'' bound next (same ∙ fresh))
