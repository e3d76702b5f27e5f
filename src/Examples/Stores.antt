-- ===== src/Examples/Stores.antt =====
-- The store of the examples under its operations.
use aegis_fs.Prelude.{ℕ, none, some, List, [], ◌∷◌, ◌≡◌, ◌≢◌, refl, arith, Elem}
use aegis_fs.Prelude.Eq.{string_eq, pair_eq}
use aegis_fs.Prelude.Int.{ℤ, pos, ◌+ℤ◌, ◌<ℤ◌, ◌≤ℤ◌}
use aegis_fs.Prelude.Map.{lookup, insert, values}
use aegis_fs.Prelude.Result.{ok, err}
use aegis_fs.Prelude.Sort.{sort_by}
use aegis_fs.Domain.Error.{claim_lost, concurrent_modification}
use aegis_fs.Domain.Run.{Run}
use aegis_fs.Domain.Workflow.{WorkflowDef}
use aegis_fs.Persistence.Filter.{default_filter, apply_order}
use aegis_fs.Persistence.Filter.Page.{apply_order_lem}
use aegis_fs.Persistence.Model.{ClaimToken}
use aegis_fs.Persistence.Queue.{claim, ack, release, renew_lease, cancel_run}
use aegis_fs.Persistence.Queue.Lease.{lease_exclusive}
use aegis_fs.Persistence.Queue.Trace.{QueueOp, claims, recovers, renews, perform_all}
use aegis_fs.Persistence.Queue.Valid.{IsValid}
use aegis_fs.Persistence.Records.{update_workflow_version, get_workflow, reap_finished_runs}
use aegis_fs.Persistence.Records.Reaped.{reap_finished_runs_lem}
use aegis_fs.Persistence.Records.Versions.{update_once}
use aegis_fs.Persistence.Store.{MemoryState}
use aegis_fs.Examples.Data.{store, run_1, pipeline}

valid : IsValid store.queue
unfolding lookup
valid = record { unique = (refl, tt); keyed = (refl, tt) }

abbrev others : List QueueOp
others =
    claims "r1" "thief" (pos 60) (pos 40)
    ∷ recovers (pos 70)
    ∷ renews "r1" "thief" (pos 80) (pos 9)
    ∷ []

abbrev after_others : MemoryState ℕ ℕ
after_others = perform_all others (claim "r1" "mine" (pos 50) (pos 100) store).1

lease_exclusive_example :
    ((other : ClaimToken) (at by : ℤ)
      → other ≢ "mine"
      → (at <ℤ pos 50 +ℤ pos 100
          → claim "r1" other at by after_others ≡ (err (claim_lost "run r1"), after_others))
        × (ack "r1" other after_others ≡ (err (claim_lost "run r1"), after_others))
        × (release "r1" other at after_others ≡ (err (claim_lost "run r1"), after_others))
        × (renew_lease "r1" other at by after_others ≡ (err (claim_lost "run r1"), after_others)))
    × ((ack "r1" "mine" after_others).0 ≡ ok tt)
    × (lookup "r1" (ack "r1" "mine" after_others).1.queue ≡ none)
unfolding claim lookup
lease_exclusive_example =
    lease_exclusive "r1" "mine" (pos 50) (pos 100) store others valid refl
      (omega arith, omega arith) ((λ e. cc, omega arith), (omega arith, (λ e. cc, tt)))

abbrev next_pipeline : WorkflowDef ℕ ℕ
next_pipeline = record pipeline { version = 5 }

abbrev updated : MemoryState ℕ ℕ
updated = (update_workflow_version "t" "pipeline" next_pipeline 4 store).1

-- The runs have changed in between.
abbrev later : MemoryState ℕ ℕ
later = record updated { runs = [] }

update_once_example :
    (get_workflow "t" "pipeline" updated ≡ ok (record { def = next_pipeline }))
    × (update_workflow_version "t" "pipeline" pipeline 4 later
        ≡ (err (concurrent_modification "workflow t/pipeline"), later))
unfolding update_workflow_version get_workflow lookup insert
update_once_example =
    update_once "t" "pipeline" next_pipeline pipeline 4 store updated later
      (record { def = next_pipeline }) (omega arith) refl refl

apply_order_lem_example :
    apply_order (record default_filter { limit = some 0 }) (run_1 ∷ run_1 ∷ []) ≡ run_1 ∷ []
unfolding sort_by
apply_order_lem_example =
    apply_order_lem (record default_filter { limit = some 0 }) (run_1 ∷ run_1 ∷ [])

abbrev cancelled_store : MemoryState ℕ ℕ
cancelled_store = (cancel_run "r1" (pos 60) store).1

reap_finished_runs_lem_example :
    ((r : Run ℕ) (at : ℤ)
      → Elem r (values cancelled_store.runs)
      → r.id ≡ "r1"
      → r.finished_at_ms ≡ some at
      → at ≤ℤ pos 70
      → lookup "r1" (reap_finished_runs (pos 70) cancelled_store).1.runs ≡ none)
    × (((r : Run ℕ) (at : ℤ)
          → Elem r (values cancelled_store.runs)
          → r.id ≡ "r1"
          → r.finished_at_ms ≡ some at
          → pos 70 <ℤ at)
        → lookup "r1" (reap_finished_runs (pos 70) cancelled_store).1.runs
          ≡ lookup "r1" cancelled_store.runs)
reap_finished_runs_lem_example = reap_finished_runs_lem (pos 70) "r1" cancelled_store

-- The run is there, finished at that time.
finished_60 :
    (r : Run ℕ) × (lookup "r1" cancelled_store.runs ≡ some r) × (r.finished_at_ms ≡ some (pos 60))
unfolding cancel_run lookup insert
finished_60 = (_, refl, refl)
