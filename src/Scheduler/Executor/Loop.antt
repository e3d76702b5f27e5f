-- ===== src/Scheduler/Executor/Loop.antt =====
-- src/scheduler/executor.rs: how the loop over the ready tasks ends, and the attempt around it.
use aegis_fs.Prelude.{
  ℕ, zero, suc, String, Option, none, some, List, [], ◌∷◌, ◌++◌, ◌≡◌, ◌≢◌, refl, ap, arith,
}
use aegis_fs.Prelude.Eq.{string_eq}
use aegis_fs.Prelude.Int.{ℤ}
use aegis_fs.Prelude.Map.{lookup}
use aegis_fs.Prelude.Result.{ok, err}
use aegis_fs.Domain.Run.{Run}
use aegis_fs.Domain.RunStatus
use aegis_fs.Domain.RunStatus.{cancelled}
use aegis_fs.Domain.Workflow.{WorkflowDef}
use aegis_fs.Persistence.Store.{MemoryState}
use aegis_fs.Persistence.Model.{ClaimToken}
use aegis_fs.Persistence.Records.{get_run}
use aegis_fs.Scheduler.Pick.{States}
use aegis_fs.Scheduler.Executor.{Env, Exec, World, ack}
use aegis_fs.Scheduler.Executor.Holds.{Post, bind-Holds}
use aegis_fs.Scheduler.Executor.Ends.{Left}
use aegis_fs.Scheduler.Executor.Tasks.{
  LoopEnd, stopped, finished, attempt_loop, execute_all, eligible, cancelled_run, round_checked,
  round_ready,
}

module _ {Json F64 : Type 0} where
  abbrev pub NotCancelled : String → World Json F64 → Type 0
  NotCancelled run_id w =
      (r : Run Json) → lookup run_id w.store.runs ≡ some r → r.status ≢ cancelled

  -- A stopped loop leaves a cancelled run, a finished one a run that is not cancelled.
  abbrev pub LoopEnded : String → Post Json F64 LoopEnd
  LoopEnded run_id (ok (stopped out)) w =
      (out.run_status ≡ cancelled) × (out.action ≡ ack) × Left run_id out w.store.runs
  LoopEnded run_id (ok (finished _)) w = NotCancelled run_id w
  LoopEnded run_id (err _) w = Unit {0}

  cancelled_run-some :
      (run_id : String) (s : MemoryState Json F64) (r : Run Json)
      → cancelled_run (get_run run_id s) ≡ some r
      → (lookup run_id s.runs ≡ some r) × (r.status ≡ cancelled)
  unfolding get_run
  cancelled_run-some run_id s r h = ground arith

  cancelled_run-none :
      (run_id : String) (s : MemoryState Json F64) (r : Run Json)
      → cancelled_run (get_run run_id s) ≡ none
      → lookup run_id s.runs ≡ some r
      → r.status ≢ cancelled
  unfolding get_run
  cancelled_run-none run_id s r h e c = ground arith

  module _ (env : Env Json F64) (run_id : String) (run : Run Json) (def : WorkflowDef Json F64)
      (token : Option ClaimToken) (lease_ms : ℤ) where
    -- However it starts and whatever the handlers do to the store: when the loop stops, the stored
    -- run is cancelled, and the outcome acknowledges it with that status; and when the loop is
    -- finished, the stored run, if there is one, is not cancelled.
    pub attempt_loop-Ended :
        (fuel : ℕ) (executed : List String) (states : States) (w : World Json F64)
        → LoopEnded run_id
            (attempt_loop env run_id run def token lease_ms fuel executed states w).0
            (attempt_loop env run_id run def token lease_ms fuel executed states w).1
    unfolding attempt_loop
    attempt_loop-Ended zero executed states w = tt
    attempt_loop-Ended (suc fuel) executed states w =
        by_run (cancelled_run (get_run run_id w.store)) refl (eligible run def executed states w)
          (attempt_loop-Ended fuel)
      where
        next : List String → States → Exec Json F64 LoopEnd
        next = attempt_loop env run_id run def token lease_ms fuel

        execute : List String → States → Exec Json F64 States
        execute = execute_all env run_id run def token lease_ms

        by_run :
            (c : Option (Run Json))
            → cancelled_run (get_run run_id w.store) ≡ c
            → (ready : List String)
            → ((executed : List String) (states : States) (w : World Json F64)
                → LoopEnded run_id (next executed states w).0 (next executed states w).1)
            → LoopEnded run_id
                (round_checked (round_ready next execute ready executed states) c w).0
                (round_checked (round_ready next execute ready executed states) c w).1
        by_run (some r) e ready ih =
            let (found, status) = cancelled_run-some run_id w.store r e in
            (refl, refl, (r, found, status, ap RunStatus.is_terminal status))
        by_run none e [] ih = λ r found. cancelled_run-none run_id w.store r e found
        by_run none e (n ∷ ns) ih =
            bind-Holds (execute (n ∷ ns) states) _ (λ _ _. Unit {0}) (LoopEnded run_id) w tt
              (λ states' w' _. ih ((n ∷ ns) ++ executed) states' w') (λ _ _ _. tt)
