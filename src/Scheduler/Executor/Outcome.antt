-- ===== src/Scheduler/Executor/Outcome.antt =====
-- src/scheduler/executor.rs: what an attempt returns and what it leaves.
use aegis_fs.Prelude.{
  suc, String, true, Option, some, [], ◌≡◌, refl, sym, ap, length, Bool-cases, arith, inl, inr,
}
use aegis_fs.Prelude.Eq.{string_eq}
use aegis_fs.Prelude.Float.{Float}
use aegis_fs.Prelude.Int.{ℤ}
use aegis_fs.Prelude.Map.{lookup}
use aegis_fs.Prelude.Result.{Result, ok, err}
use aegis_fs.Domain.Run.{Run}
use aegis_fs.Domain.RunStatus
use aegis_fs.Domain.RunStatus.{cancelled}
use aegis_fs.Domain.Workflow.{WorkflowDef}
use aegis_fs.Persistence.Model.{ClaimToken}
use aegis_fs.Persistence.Records.{get_run, get_workflow}
use aegis_fs.Retry.Random.{Random}
use aegis_fs.Scheduler.Pick.Skip.{pending_to_skip_lem}
use aegis_fs.Scheduler.Executor.{
  Env, World, ExecutorError, ◌>>=◌, gets, or_raise, definition_lost, loaded_states,
}
use aegis_fs.Scheduler.Executor.Holds.{bind-Holds}
use aegis_fs.Scheduler.Executor.Ends.{Ended, finalize-Ended, time_out-Ended}
use aegis_fs.Scheduler.Executor.Loop.{LoopEnded, attempt_loop-Ended}
use aegis_fs.Scheduler.Executor.Tasks.{LoopEnd, stopped, finished, attempt_loop}
use aegis_fs.Scheduler.Executor.Attempt.{
  conclude, persist_skipped, run_tasks, attempt_running, attempt_found, attempt_with_token,
  past_deadline,
}

eq_cancelled : (s : RunStatus.RunStatus) → RunStatus.eq s cancelled ≡ true → s ≡ cancelled
eq_cancelled s h = ground arith

module _ {Json : Type 0} (float : Float) (random : Random) (env : Env Json float.F64)
    (run_id : String) (run : Run Json) (def : WorkflowDef Json float.F64)
    (token : Option ClaimToken) (lease_ms : ℤ) (same : run.id ≡ run_id) where
  conclude-Ended :
      (end : LoopEnd) (w : World Json float.F64)
      → LoopEnded run_id (ok end) w
      → Ended run_id
          (conclude float random env run def end w).0
          (conclude float random env run def end w).1
  conclude-Ended (stopped out) w h = h.2
  conclude-Ended (finished states) w h =
      let (collapsed, e, _) = pending_to_skip_lem def states in
      rw (e, sym same)
        (bind-Holds (persist_skipped env run.id states collapsed) _ (λ _ _. Unit {0}) (Ended run.id)
          w tt (λ _ w' _. finalize-Ended float random env run def collapsed w') (λ _ _ _. tt))

  run_tasks-Ended :
      (w : World Json float.F64)
      → Ended run_id
          (run_tasks float random env run_id run def token lease_ms w).0
          (run_tasks float random env run_id run def token lease_ms w).1
  unfolding run_tasks
  run_tasks-Ended w =
      bind-Holds (gets (loaded_states run.id def)) _ (λ _ _. Unit {0}) (Ended run_id) w tt
        (λ states w' _.
          bind-Holds
            (attempt_loop env run_id run def token lease_ms (suc (length def.tasks)) [] states) _
            (LoopEnded run_id) (Ended run_id) w'
            (attempt_loop-Ended env run_id run def token lease_ms (suc (length def.tasks)) [] states
              w')
            conclude-Ended (λ _ _ _. tt))
        (λ _ _ _. tt)

  attempt_running-Ended :
      (w : World Json float.F64)
      → Ended run_id
          (attempt_running float random env run_id run def token lease_ms w).0
          (attempt_running float random env run_id run def token lease_ms w).1
  unfolding attempt_running
  attempt_running-Ended w =
      bind-Holds (past_deadline env run.deadline_at_ms) _ (λ _ _. Unit {0}) (Ended run_id) w tt
        (λ late w' _. elim (Bool-cases late) [
          | inl e ↦ rw (e, sym same) (time_out-Ended env run.id run w')
          | inr e ↦ rw e (run_tasks-Ended w')
        ])
        (λ _ _ _. tt)

  attempt_found-Ended :
      (w : World Json float.F64)
      → lookup run_id w.store.runs ≡ some run
      → Ended run_id
          (attempt_found float random env run_id run def token lease_ms w).0
          (attempt_found float random env run_id run def token lease_ms w).1
  unfolding attempt_found
  attempt_found-Ended w found = elim (Bool-cases (RunStatus.eq run.status RunStatus.running)) [
    | inl e ↦ rw e (attempt_running-Ended w)
    | inr e ↦ elim (Bool-cases (RunStatus.eq run.status cancelled)) [
      | inl c ↦
          let status = eq_cancelled run.status c in
          rw (e, c) (run, found, status, ap RunStatus.is_terminal status)
      | inr c ↦ rw (e, c) tt
    ]
  ]

module _ {Json F64 A E : Type 0} where
  or_raise-world :
      (e : ExecutorError) (r : Result E A) (w : World Json F64) → (or_raise e r w).1 ≡ w
  or_raise-world e (ok a) w = refl
  or_raise-world e (err x) w = refl

module _ {Json : Type 0} (float : Float) (random : Random) where
  -- An attempt at a stored run, whatever the handlers do to the store, either fails or leaves a run
  -- under that id with the status of the outcome; the outcome acknowledges the queue entry only when
  -- that status is terminal, and releases it only when it is `queued`, for the time that the stored
  -- run has for its next attempt.
  pub attempt_outcome :
      (env : Env Json float.F64) (token : Option ClaimToken) (lease_ms : ℤ) (run : Run Json)
      (w : World Json float.F64)
      → lookup run.id w.store.runs ≡ some run
      → Ended run.id
          (attempt_with_token float random env run.id token lease_ms w).0
          (attempt_with_token float random env run.id token lease_ms w).1
  unfolding attempt_with_token get_run ◌>>=◌
  attempt_outcome env token lease_ms run w found = rw found (
      bind-Holds (or_raise (definition_lost run.id) (get_workflow run.tenant run.def_name w.store))
        _ (λ _ w'. lookup run.id w'.store.runs ≡ some run) (Ended run.id) w
        (rw
          (or_raise-world (definition_lost run.id) (get_workflow run.tenant run.def_name w.store) w)
          found)
        (λ def w' kept.
          attempt_found-Ended float random env run.id run def.def token lease_ms refl w' kept)
        (λ _ _ _. tt))
