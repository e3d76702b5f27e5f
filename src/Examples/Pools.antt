-- ===== src/Examples/Pools.antt =====
-- The dispatcher on an entry of a run that has succeeded.
use aegis_fs.Prelude.{ℕ, ◌+◌, false, some, [], ◌∷◌, ◌++◌, ◌≡◌, refl}
use aegis_fs.Prelude.Eq.{string_eq}
use aegis_fs.Prelude.Int.{pos}
use aegis_fs.Prelude.Map.{lookup}
use aegis_fs.Domain.RunStatus
use aegis_fs.Persistence.Store.{unleased}
use aegis_fs.Scheduler.Executor.{RunAction}
use aegis_fs.Scheduler.Pool.{DispatchStats, Setup, Dispatch, dispatch_one, apply_action}
use aegis_fs.Scheduler.Pool.Stray.{stray_entry}
use aegis_fs.Examples.Data.{store, run_1, entry_1}

abbrev setup : Setup
setup = record {
  clock = λ n. pos (100 + n);
  token = λ n. "fresh";
  batch_size = 8;
  lease_ms = pos 60;
  workers = 1;
  closed = false;
}

abbrev at_rest : Dispatch ℕ ℕ
at_rest = record {
  store = record store { runs = ("r1", record run_1 { status = RunStatus.succeeded }) ∷ [] };
  ticks = 0;
  drawn = 0;
  jobs = [];
}

abbrev none_yet : DispatchStats
none_yet = record { scanned = 1; claimed = 0; submit_failed = 0; contended = 0 }

stray_entry_example :
    ((dispatch_one setup (pos 100) entry_1 at_rest none_yet).0.jobs
      ≡ [] ++ (record { run_id = "r1"; token = "fresh" } ∷ []))
    × ((dispatch_one setup (pos 100) entry_1 at_rest none_yet).1.submit_failed ≡ 1)
    × (lookup "r1"
          (apply_action
            (record { run_id = "r1"; token = "fresh" })
            RunAction.ack
            (dispatch_one setup (pos 100) entry_1 at_rest none_yet).0.store).queue
        ≡ some (unleased entry_1))
unfolding lookup
stray_entry_example =
    stray_entry setup (pos 100) entry_1 (record run_1 { status = RunStatus.succeeded })
      RunAction.ack at_rest none_yet refl refl refl refl refl refl refl
