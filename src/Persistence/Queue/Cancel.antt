-- ===== src/Persistence/Queue/Cancel.antt =====
-- src/persistence/memory.rs: the cancellation of a run.
use aegis_fs.Prelude.{String, true, false, none, some, ◌≡◌, refl, arith}
use aegis_fs.Prelude.Eq.{string_eq, eq_refl}
use aegis_fs.Prelude.Int.{ℤ}
use aegis_fs.Prelude.Map.{lookup, lookup-insert_same, lookup-remove}
use aegis_fs.Prelude.Result.{ok}
use aegis_fs.Domain.Run.{Run, run_is_terminal}
use aegis_fs.Domain.RunStatus
use aegis_fs.Persistence.Store.{MemoryState}
use aegis_fs.Persistence.Queue.{cancel_run}

module _ {Json F64 : Type 0} where
  -- The cancellation of a stored run that is not terminal answers true, takes the run out of the
  -- queue and stores it as cancelled at that time; and a second one answers false and changes
  -- nothing.
  pub cancel_run_lem :
      (id : String) (now_ms later_ms : ℤ) (s : MemoryState Json F64) (run : Run Json)
      → lookup id s.runs ≡ some run
      → run_is_terminal run ≡ false
      → let (_, s') = cancel_run id now_ms s in
        ((cancel_run id now_ms s).0 ≡ ok true)
        × (lookup id s'.queue ≡ none)
        × (lookup id s'.runs
            ≡ some (record run {
              status = RunStatus.cancelled;
              finished_at_ms = some now_ms;
              error = none;
            }))
        × (cancel_run id later_ms s' ≡ (ok false, s'))
  unfolding cancel_run
  cancel_run_lem id now_ms later_ms s run found live =
      rw (found, live)
        (
          refl,
          ground (arith, lookup-remove id id s.queue, eq_refl id),
          lookup-insert_same id _ s.runs,
          rw (lookup-insert_same id) refl,
        )
