-- ===== src/Scheduler/Pool/Counts.antt =====
-- src/scheduler/pool.rs: the counters of a step.
use aegis_fs.Prelude.{ℕ, ◌+◌, true, false, Bool, List, [], ◌∷◌, length, ◌≡◌, refl, arith, ◌∙◌}
use aegis_fs.Prelude.Int.{ℤ}
use aegis_fs.Prelude.Result.{Result, ok, err}
use aegis_fs.Domain.Error.{
  StorageError, conflict, not_found, concurrent_modification, schema, backend, claim_lost,
}
use aegis_fs.Persistence.Model.{QueueEntry, ClaimToken}
use aegis_fs.Persistence.Queue.{scan_ready, claim}
use aegis_fs.Scheduler.Pool.{
  DispatchStats, Setup, Dispatch, settled, launch, claimed_entry, dispatch_one, dispatch_all,
  dispatch_step,
}

-- How many entries have been counted.
abbrev handled : DispatchStats → ℕ
handled s = s.claimed + s.submit_failed + s.contended

module _ {Json F64 : Type 0} (setup : Setup) where
  abbrev OneMore : DispatchStats → Dispatch Json F64 × DispatchStats → Type 0
  OneMore stats r = (handled r.1 ≡ handled stats + 1) × (r.1.scanned ≡ stats.scanned)

  settled-OneMore :
      (id : _) (token : ClaimToken) (b : Bool) (d : Dispatch Json F64) (stats : DispatchStats)
      → OneMore stats (settled setup id token b d stats)
  settled-OneMore id token true d stats = (omega arith, refl)
  settled-OneMore id token false d stats = (omega arith, refl)

  claimed_entry-OneMore :
      (id : _) (token : ClaimToken) (r : Result StorageError (Unit {0})) (d : Dispatch Json F64)
      (stats : DispatchStats)
      → OneMore stats (claimed_entry setup id token r d stats)
  unfolding launch
  claimed_entry-OneMore id token (ok _) d stats = settled-OneMore id token _ _ stats
  claimed_entry-OneMore id token (err (claim_lost _)) d stats = (omega arith, refl)
  claimed_entry-OneMore id token (err (not_found _)) d stats = (omega arith, refl)
  claimed_entry-OneMore id token (err (conflict _)) d stats = (omega arith, refl)
  claimed_entry-OneMore id token (err (concurrent_modification _)) d stats = (omega arith, refl)
  claimed_entry-OneMore id token (err (schema _)) d stats = (omega arith, refl)
  claimed_entry-OneMore id token (err (backend _)) d stats = (omega arith, refl)

  dispatch_all-handled :
      (now : ℤ) (ready : List QueueEntry) (d : Dispatch Json F64) (stats : DispatchStats)
      → (handled (dispatch_all setup now ready d stats).1 ≡ handled stats + length ready)
        × ((dispatch_all setup now ready d stats).1.scanned ≡ stats.scanned)
  unfolding dispatch_all dispatch_one
  dispatch_all-handled now [] d stats = (omega arith, refl)
  dispatch_all-handled now (e ∷ ready) d stats =
      let one =
        claimed_entry-OneMore e.run_id (setup.token d.drawn)
          (claim e.run_id (setup.token d.drawn) now setup.lease_ms d.store).0 _ stats in
      let rest =
        dispatch_all-handled now ready (dispatch_one setup now e d stats).0
          (dispatch_one setup now e d stats).1 in
      (rest.0 ∙ omega (arith, one.0), rest.1 ∙ one.1)

  -- Every entry that a step of the dispatcher scans is counted once: as claimed, as failed, or as lost
  -- to another dispatcher.
  pub dispatch_step_lem :
      (d : Dispatch Json F64)
      → ((dispatch_step setup d).1.scanned
          ≡ length (scan_ready (setup.clock d.ticks) setup.batch_size d.store))
        × ((dispatch_step setup d).1.claimed
              + (dispatch_step setup d).1.submit_failed
              + (dispatch_step setup d).1.contended
            ≡ (dispatch_step setup d).1.scanned)
  unfolding dispatch_step
  dispatch_step_lem d =
      let ready = scan_ready (setup.clock d.ticks) setup.batch_size d.store in
      let (sum, same) = dispatch_all-handled (setup.clock d.ticks) ready _ _ in
      (same, sum ∙ omega (arith, same))
