-- ===== src/Scheduler/Executor/Attempt.antt =====
-- src/scheduler/executor.rs: the whole attempt.
use aegis_fs.Prelude.{
  suc, String, Bool, false, not, ◌&&◌, Option, none, some, [], ◌∷◌, length, if◌then◌else◌,
}
use aegis_fs.Prelude.Eq.{string_eq}
use aegis_fs.Prelude.Float.{Float}
use aegis_fs.Prelude.Int.{ℤ, pos, ltb_ℤ}
use aegis_fs.Prelude.Map.{lookup}
use aegis_fs.Prelude.Result.{ok}
use aegis_fs.Prelude.Text.{◌<>◌}
use aegis_fs.Domain.FailureKind.{timeout}
use aegis_fs.Domain.Run.{Run, RunError}
use aegis_fs.Domain.RunStatus
use aegis_fs.Domain.RunStatus.{RunStatus}
use aegis_fs.Domain.TaskStatus
use aegis_fs.Domain.TaskStatus.{TaskStatus}
use aegis_fs.Domain.Workflow.{WorkflowDef}
use aegis_fs.Persistence.Model.{ClaimToken}
use aegis_fs.Persistence.Records.{get_run, get_workflow, put_run, put_task_run}
use aegis_fs.Retry.Random.{Random}
use aegis_fs.Scheduler.Pick.{States, pending_to_skip}
use aegis_fs.Scheduler.Executor.{
  Env, Exec, AttemptOutcome, invariant, run_lost, definition_lost, out_of_fuel, ack, ◌>>=◌, ◌>>◌,
  pure, raise, gets, modify, now_ms, or_raise, load_task, loaded_states,
}
use aegis_fs.Scheduler.Executor.Finalize.{check_edge, finalize}
use aegis_fs.Scheduler.Executor.Tasks.{LoopEnd, stopped, finished, attempt_loop, cancelled_outcome}

abbrev pub newly_skipped : States → String × TaskStatus → Bool
newly_skipped states (name, status) =
    TaskStatus.eq status TaskStatus.skipped && not (was_skipped (lookup name states))
  where
    was_skipped : Option TaskStatus → Bool
    was_skipped none = false
    was_skipped (some s) = TaskStatus.eq s TaskStatus.skipped

module _ {Json F64 : Type 0} where
  unfoldable pub skip_task : Env Json F64 → (run_id name : String) → Exec Json F64 (Unit {0})
  unfolding load_task put_task_run
  skip_task env run_id name = do
    tr ← gets (load_task run_id name)
    now ← now_ms env
    modify (put_task_run (record tr { status = TaskStatus.skipped; finished_at_ms = some now }))

  -- The freshly skipped tasks are written.
  unfoldable pub persist_skipped :
      Env Json F64 → String → States → States → Exec Json F64 (Unit {0})
  unfolding skip_task
  persist_skipped env run_id states [] = pure tt
  persist_skipped env run_id states ((name, status) ∷ collapsed) =
      let rest = persist_skipped env run_id states collapsed in
      if newly_skipped states (name, status) then skip_task env run_id name >> rest else rest

  unfoldable pub time_out :
      Env Json F64 → (run_id : String) → Run Json → Exec Json F64 AttemptOutcome
  unfolding put_run
  time_out env run_id run = do
    check_edge RunStatus.running RunStatus.timed_out
    now ← now_ms env
    let error : Option RunError = some (record {
      message = "run " <> run_id <> " exceeded its deadline";
      kind = timeout;
      task = none;
      depth = 0;
      attempts = run.attempts;
    })
    modify (
        put_run
          (record run { status = RunStatus.timed_out; finished_at_ms = some now; error = error }))
    pure (record {
      run_status = RunStatus.timed_out;
      failed_tasks = [];
      action = ack;
      error = error;
    })

  -- The clock is read only when there is a deadline.
  abbrev pub past_deadline : Env Json F64 → Option ℤ → Exec Json F64 Bool
  past_deadline env none w = (ok false, w)
  past_deadline env (some d) w =
      (ok (ltb_ℤ d (env.clock w.ticks)), record w { ticks = suc w.ticks })

module _ {Json : Type 0} (float : Float) (random : Random) where
  open float use {F64}

  -- The code behind the loop.
  abbrev pub conclude :
      Env Json F64 → Run Json → WorkflowDef Json F64 → LoopEnd → Exec Json F64 AttemptOutcome
  conclude env run def (stopped outcome) w = (ok outcome, w)
  conclude env run def (finished states) w =
      collapse env run def states (pending_to_skip def states) w
    where
      collapse :
          Env Json F64
          → Run Json
          → WorkflowDef Json F64
          → States
          → Option States
          → Exec Json F64 AttemptOutcome
      collapse env run def states none = raise out_of_fuel
      collapse env run def states (some collapsed) = do
        persist_skipped env run.id states collapsed
        finalize float random env run def collapsed

  unfoldable pub run_tasks :
      Env Json F64
      → (run_id : String) → Run Json
      → WorkflowDef Json F64
      → Option ClaimToken
      → ℤ
      → Exec Json F64 AttemptOutcome
  unfolding loaded_states attempt_loop pending_to_skip persist_skipped finalize
  run_tasks env run_id run def token lease_ms = do
    states ← gets (loaded_states run.id def)
    end ← attempt_loop env run_id run def token lease_ms (suc (length def.tasks)) [] states
    conclude env run def end

  unfoldable pub attempt_running :
      Env Json F64
      → (run_id : String) → Run Json
      → WorkflowDef Json F64
      → Option ClaimToken
      → ℤ
      → Exec Json F64 AttemptOutcome
  unfolding run_tasks time_out
  attempt_running env run_id run def token lease_ms = do
    late ← past_deadline env run.deadline_at_ms
    if late then time_out env run_id run else run_tasks env run_id run def token lease_ms

  -- The checks on the run that was read.
  unfoldable pub attempt_found :
      Env Json F64
      → (run_id : String) → Run Json
      → WorkflowDef Json F64
      → Option ClaimToken
      → ℤ
      → Exec Json F64 AttemptOutcome
  unfolding attempt_running
  attempt_found env run_id run def token lease_ms =
      if RunStatus.eq run.status RunStatus.running
      then attempt_running env run_id run def token lease_ms
      else if RunStatus.eq run.status RunStatus.cancelled
      then pure (cancelled_outcome run)
      else raise (
          invariant (
            "run "
            <> run_id
            <> " is "
            <> RunStatus.display run.status
            <> " on attempt; expected Running"))

  unfoldable pub attempt_with_token :
      Env Json F64
      → (run_id : String) → Option ClaimToken
      → (lease_ms : ℤ) → Exec Json F64 AttemptOutcome
  unfolding get_run get_workflow attempt_found
  attempt_with_token env run_id token lease_ms w =
      (do
        run ← or_raise (run_lost run_id) (get_run run_id w.store)
        def ← or_raise (definition_lost run_id) (get_workflow run.tenant run.def_name w.store)
        attempt_found env run_id run def.def token lease_ms)
        w

  abbrev pub attempt : Env Json F64 → String → Exec Json F64 AttemptOutcome
  attempt env run_id = attempt_with_token env run_id none (pos 60000)
