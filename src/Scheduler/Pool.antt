-- ===== src/Scheduler/Pool.antt =====
-- src/scheduler/pool.rs: the dispatcher, the channel to the workers, and what a worker does with an
-- outcome. The clock and the fresh tokens are sequences; the channel is a list, which no worker
-- drains during a step of the dispatcher.
pub mod Counts
pub mod Stray
use aegis_fs.Prelude.{
  ℕ, suc, ◌+◌, ◌*◌, String, Bool, true, false, not, ◌&&◌, Option, none, some, List, [], ◌∷◌, ◌++◌,
  length, ltb, if◌then◌else◌,
}
use aegis_fs.Prelude.Int.{ℤ}
use aegis_fs.Prelude.Result.{Result, ok, err}
use aegis_fs.Prelude.Text.{◌<>◌}
use aegis_fs.Domain.Error.{StorageError, backend, claim_lost, not_found, RunvaneError}
use aegis_fs.Domain.Run.{Run}
use aegis_fs.Domain.RunStatus
use aegis_fs.Persistence.Model.{QueueEntry, ClaimToken}
use aegis_fs.Persistence.Queue.{scan_ready, claim, failclaim, ack, release}
use aegis_fs.Persistence.Records.{get_run, put_run}
use aegis_fs.Persistence.Store.{MemoryState}
use aegis_fs.Scheduler.Executor
use aegis_fs.Scheduler.Executor.{RunAction}
use aegis_fs.State.RunFsm

pub record Job : Type 0 where
  pub run_id : String
  pub token : ClaimToken

pub data SubmitError : Type 0 where
  full disconnected : SubmitError

pub record DispatchStats : Type 0 where
  pub scanned : ℕ
  pub claimed : ℕ
  pub submit_failed : ℕ
  pub contended : ℕ

-- What the dispatcher is built with. The channel holds 16 jobs for each worker; it is closed when the
-- workers have gone.
pub record Setup : Type 0 where
  pub clock : ℕ → ℤ
  pub token : ℕ → ClaimToken
  pub batch_size : ℕ
  pub lease_ms : ℤ
  pub workers : ℕ
  pub closed : Bool

-- The store, the readings of the clock, the tokens drawn, and the jobs in the channel.
pub record Dispatch (Json F64 : Type 0) : Type 0 where
  pub store : MemoryState Json F64
  pub ticks : ℕ
  pub drawn : ℕ
  pub jobs : List Job

abbrev pub submit : Setup → Job → List Job → Result SubmitError (Unit {0}) × List Job
submit setup job jobs =
    if setup.closed
    then (err disconnected, jobs)
    else if ltb (length jobs) (setup.workers * 16)
    then (ok tt, jobs ++ (job ∷ []))
    else (err full, jobs)

abbrev pub succeeded : {E A : Type 0} → Result E A → Bool
succeeded (ok _) = true
succeeded (err _) = false

module _ {Json F64 : Type 0} (setup : Setup) where
  abbrev pub put_running : Run Json → Dispatch Json F64 → Dispatch Json F64
  put_running run d = record d {
    store =
        put_run
          (record run { status = RunStatus.running; started_at_ms = some (setup.clock d.ticks) })
          d.store;
    ticks = suc d.ticks;
  }

  -- The text of a refused transition, which this one is not, is left out.
  abbrev pub start_run :
      Run Json
      → Result RunvaneError (Unit {0})
      → Dispatch Json F64
      → Result StorageError (Unit {0}) × Dispatch Json F64
  start_run run (err e) d = (err (backend ""), d)
  start_run run (ok _) d = (ok tt, put_running run d)

  abbrev pub mark_found :
      String
      → Result StorageError (Run Json)
      → Dispatch Json F64
      → Result StorageError (Unit {0}) × Dispatch Json F64
  mark_found run_id (err e) d = (err e, d)
  mark_found run_id (ok run) d =
      if RunStatus.eq run.status RunStatus.running
      then (ok tt, d)
      else if not (RunStatus.eq run.status RunStatus.queued)
      then (
        err (
            backend ("cannot dispatch run " <> run_id <> " from " <> RunStatus.display run.status)),
        d,
      )
      else start_run run (RunFsm.validate RunStatus.queued RunStatus.running) d

  unfoldable pub mark_running :
      String → Dispatch Json F64 → Result StorageError (Unit {0}) × Dispatch Json F64
  mark_running run_id d = mark_found run_id (get_run run_id d.store) d

  -- The end of a claimed entry: the claim is dropped unless the run was marked and submitted.
  abbrev pub settled :
      String
      → ClaimToken
      → Bool
      → Dispatch Json F64
      → DispatchStats
      → Dispatch Json F64 × DispatchStats
  settled run_id token true d stats = (d, record stats { claimed = suc stats.claimed })
  settled run_id token false d stats = (
    record d { store = (failclaim run_id token d.store).1 },
    record stats { submit_failed = suc stats.submit_failed },
  )

  -- The job is submitted whether or not the run was marked as running.
  unfoldable pub launch :
      String → ClaimToken → Dispatch Json F64 → DispatchStats → Dispatch Json F64 × DispatchStats
  unfolding mark_running
  launch run_id token d stats =
      let (transitioned, d') = mark_running run_id d in
      let (submitted, jobs) = submit setup (record { run_id = run_id; token = token }) d'.jobs in
      settled run_id token (succeeded transitioned && succeeded submitted)
        (record d' { jobs = jobs }) stats

  abbrev pub claimed_entry :
      String
      → ClaimToken
      → Result StorageError (Unit {0})
      → Dispatch Json F64
      → DispatchStats
      → Dispatch Json F64 × DispatchStats
  claimed_entry run_id token (ok _) d stats = launch run_id token d stats
  claimed_entry run_id token (err (claim_lost _)) d stats =
      (d, record stats { contended = suc stats.contended })
  claimed_entry run_id token (err (not_found _)) d stats =
      (d, record stats { contended = suc stats.contended })
  claimed_entry run_id token (err _) d stats =
      (d, record stats { submit_failed = suc stats.submit_failed })

  unfoldable pub dispatch_one :
      ℤ → QueueEntry → Dispatch Json F64 → DispatchStats → Dispatch Json F64 × DispatchStats
  unfolding launch
  dispatch_one now entry d stats =
      let token = setup.token d.drawn in
      let (result, store) = claim entry.run_id token now setup.lease_ms d.store in
      claimed_entry entry.run_id token result (record d { store = store; drawn = suc d.drawn })
        stats

  unfoldable pub dispatch_all :
      ℤ → List QueueEntry → Dispatch Json F64 → DispatchStats → Dispatch Json F64 × DispatchStats
  unfolding dispatch_one
  dispatch_all now [] d stats = (d, stats)
  dispatch_all now (entry ∷ ready) d stats =
      let (d', stats') = dispatch_one now entry d stats in dispatch_all now ready d' stats'

  unfoldable pub dispatch_step : Dispatch Json F64 → Dispatch Json F64 × DispatchStats
  unfolding dispatch_all
  dispatch_step d =
      let now = setup.clock d.ticks in
      let ready = scan_ready now setup.batch_size d.store in
      dispatch_all now ready (record d { ticks = suc d.ticks })
        (record { scanned = length ready; claimed = 0; submit_failed = 0; contended = 0 })

module _ {Json F64 : Type 0} where
  -- What a worker does with the action of an outcome; an error is dropped.
  unfoldable pub apply_action : Job → RunAction → MemoryState Json F64 → MemoryState Json F64
  apply_action job RunAction.ack s = (ack job.run_id job.token s).1
  apply_action job (RunAction.release at) s = (release job.run_id job.token at s).1
