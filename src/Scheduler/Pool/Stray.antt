-- ===== src/Scheduler/Pool/Stray.antt =====
-- src/scheduler/pool.rs: an entry of a run that has ended, which a worker that died between its last
-- write and its `ack` leaves in the queue.
use aegis_fs.Prelude.{
  suc, ◌*◌, String, true, false, some, ◌≡◌, refl, arith, ltb, length, ◌++◌, [], ◌∷◌,
}
use aegis_fs.Prelude.Eq.{string_eq, ◌==◌, eq_refl}
use aegis_fs.Prelude.Int.{ℤ, add_i64}
use aegis_fs.Prelude.Map.{lookup, insert, lookup-insert_same}
use aegis_fs.Prelude.Result.{ok, err}
use aegis_fs.Prelude.Text.{◌<>◌}
use aegis_fs.Domain.Error.{backend}
use aegis_fs.Domain.Run.{Run, run_is_terminal}
use aegis_fs.Domain.RunStatus
use aegis_fs.Persistence.Model.{QueueEntry, ClaimToken, is_leased}
use aegis_fs.Persistence.Queue.{claim, failclaim, ack, release}
use aegis_fs.Persistence.Records.{get_run}
use aegis_fs.Persistence.Store.{MemoryState, unleased}
use aegis_fs.Scheduler.Executor.{RunAction}
use aegis_fs.Scheduler.Pool.{
  Job, DispatchStats, Setup, Dispatch, mark_running, launch, dispatch_one, apply_action,
}

-- The entry as its claim writes it.
abbrev leased : Setup → ℤ → ClaimToken → QueueEntry → QueueEntry
leased setup now token e = record e {
  token = token;
  claimed_by = some "dispatcher";
  lease_until_ms = some (add_i64 now setup.lease_ms);
}

module _ {Json F64 : Type 0} where
  claim-free :
      (setup : Setup) (id : String) (token : ClaimToken) (now : ℤ) (e : QueueEntry)
      (s : MemoryState Json F64)
      → lookup id s.queue ≡ some e
      → is_leased e now ≡ false
      → claim id token now setup.lease_ms s
        ≡ (ok tt, record s { queue = insert id (leased setup now token e) s.queue })
  unfolding claim
  claim-free setup id token now e s h free = ground (arith, h, free)

  failclaim-held :
      (id : String) (token : ClaimToken) (e : QueueEntry) (s : MemoryState Json F64)
      → lookup id s.queue ≡ some e
      → (e.token == token) ≡ true
      → lookup id (failclaim id token s).1.queue ≡ some (unleased e)
  unfolding failclaim
  failclaim-held id token e s h q =
      rw (failclaim, h, q) (lookup-insert_same id (unleased e) s.queue)

  -- A worker's answer with a token that the entry does not have changes nothing.
  apply_action-foreign :
      (job : Job) (action : RunAction) (e : QueueEntry) (s : MemoryState Json F64)
      → lookup job.run_id s.queue ≡ some e
      → (e.token == job.token) ≡ false
      → apply_action job action s ≡ s
  unfolding apply_action ack release
  apply_action-foreign job RunAction.ack e s h q = rw (apply_action, ack, h, q) refl
  apply_action-foreign job (RunAction.release at) e s h q = rw (apply_action, release, h, q) refl

  mark_running-ended :
      (setup : Setup) (id : String) (run : Run Json) (d : Dispatch Json F64)
      → lookup id d.store.runs ≡ some run
      → run_is_terminal run ≡ true
      → mark_running setup id d ≡ (
        err (backend ("cannot dispatch run " <> id <> " from " <> RunStatus.display run.status)),
        d,
      )
  unfolding mark_running get_run
  mark_running-ended setup id run d h ended = ground (arith, h, ended)

  -- An unleased entry of a run that has ended is claimed; its job is put into the channel, if there is
  -- room, although the run is not marked as running; the claim is dropped; and then neither `ack` nor
  -- `release` of the worker that takes the job removes or changes the entry, so that it stays as
  -- due as it was. This is so whatever the fresh token is, but for the empty one.
  pub stray_entry :
      (setup : Setup) (now : ℤ) (entry : QueueEntry) (run : Run Json) (action : RunAction)
      (d : Dispatch Json F64) (stats : DispatchStats)
      → lookup entry.run_id d.store.queue ≡ some entry
      → is_leased entry now ≡ false
      → lookup entry.run_id d.store.runs ≡ some run
      → run_is_terminal run ≡ true
      → ("" == setup.token d.drawn) ≡ false
      → setup.closed ≡ false
      → ltb (length d.jobs) (setup.workers * 16) ≡ true
      → ((dispatch_one setup now entry d stats).0.jobs
          ≡ d.jobs ++ (record { run_id = entry.run_id; token = setup.token d.drawn } ∷ []))
        × ((dispatch_one setup now entry d stats).1.submit_failed ≡ suc stats.submit_failed)
        × (lookup entry.run_id
              (apply_action
                (record { run_id = entry.run_id; token = setup.token d.drawn })
                action
                (dispatch_one setup now entry d stats).0.store).queue
            ≡ some (unleased entry))
  unfolding dispatch_one launch
  stray_entry setup now entry run action d stats h free r ended token opened room =
      let claimed : Dispatch Json F64 = record d {
        store = record d.store {
          queue = insert entry.run_id (leased setup now (setup.token d.drawn) entry) d.store.queue;
        };
        drawn = suc d.drawn;
      } in
      let job : Job = record { run_id = entry.run_id; token = setup.token d.drawn } in
      let kept =
        failclaim-held entry.run_id (setup.token d.drawn)
          (leased setup now (setup.token d.drawn) entry) claimed.store
          (lookup-insert_same entry.run_id (leased setup now (setup.token d.drawn) entry)
            d.store.queue)
          (eq_refl (setup.token d.drawn)) in
      let dropped = (failclaim entry.run_id (setup.token d.drawn) claimed.store).1 in
      let same = apply_action-foreign job action (unleased entry) dropped kept token in
      rw
        (
          dispatch_one,
          claim-free setup entry.run_id (setup.token d.drawn) now entry d.store h free,
          launch,
          mark_running-ended setup entry.run_id run claimed r ended,
          opened,
          room,
        )
        (refl, refl, rw same kept)
