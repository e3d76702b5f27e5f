-- ===== src/Scheduler/Executor/Finalize.antt =====
-- src/scheduler/executor.rs: the end of an attempt, by the statuses of its tasks.
use aegis_fs.Prelude.{
  ◌+◌, String, Bool, true, not, ◌&&◌, Option, none, some, List, [], ◌∷◌, any, all, find, filter,
  map, if◌then◌else◌,
}
use aegis_fs.Prelude.Eq.{string_eq}
use aegis_fs.Prelude.Float.{Float}
use aegis_fs.Prelude.Int.{ℤ}
use aegis_fs.Prelude.Map.{values}
use aegis_fs.Prelude.Result.{err}
use aegis_fs.Domain.FailureKind.{exhausted}
use aegis_fs.Domain.RetryPolicy.{allows_attempt}
use aegis_fs.Domain.Run.{Run, RunError}
use aegis_fs.Domain.RunStatus.{RunStatus}
use aegis_fs.Domain.TaskStatus
use aegis_fs.Domain.TaskStatus.{TaskStatus}
use aegis_fs.Domain.Workflow.{WorkflowDef, unwrap_or}
use aegis_fs.Persistence.Records.{put_run}
use aegis_fs.Retry.Random.{Random}
use aegis_fs.Retry.Backoff.{next_attempt_at_ms}
use aegis_fs.Scheduler.Pick.{States}
use aegis_fs.Scheduler.Executor.{
  Env, Exec, World, AttemptOutcome, invariant, panic, ack, release, ◌>>=◌, ◌>>◌, pure, raise,
  modify, now_ms, or_raise, load_task, budget_left, u32,
}
use aegis_fs.State.RunFsm

abbrev pub has_failed : String × TaskStatus → Bool
has_failed entry = TaskStatus.eq entry.1 TaskStatus.failed

abbrev first : List String → Option String
first [] = none
first (n ∷ ns) = some n

module _ {Json F64 : Type 0} where
  -- `run_fsm::validate(..).map_err(Invariant)?`; the text of the error is left out.
  abbrev pub check_edge : RunStatus → RunStatus → Exec Json F64 (Unit {0})
  check_edge from to = or_raise (invariant "illegal run transition") (RunFsm.validate from to)

  abbrev pub message_of : Run Json → World Json F64 → Option (String × TaskStatus) → String
  message_of run w none = "task failed"
  message_of run w (some (name, _)) =
      unwrap_or (load_task run.id name w.store).last_error "task failed"

  unfoldable pub succeed : Env Json F64 → Run Json → Exec Json F64 AttemptOutcome
  unfolding put_run
  succeed env run = do
    check_edge run.status RunStatus.succeeded
    now ← now_ms env
    modify (
        put_run
          (record run { status = RunStatus.succeeded; finished_at_ms = some now; error = none }))
    pure
        (record { run_status = RunStatus.succeeded; failed_tasks = []; action = ack; error = none })

  unfoldable pub fail_run :
      Env Json F64 → Run Json → String → List String → Exec Json F64 AttemptOutcome
  unfolding put_run
  fail_run env run reason failing = do
    check_edge run.status RunStatus.failed
    now ← now_ms env
    let error : Option RunError = some (record {
      message = reason;
      kind = exhausted;
      task = first failing;
      depth = 0;
      attempts = run.attempts;
    })
    modify (
        put_run
          (record run { status = RunStatus.failed; finished_at_ms = some now; error = error }))
    pure (record {
      run_status = RunStatus.failed;
      failed_tasks = failing;
      action = ack;
      error = error;
    })

module _ {Json : Type 0} (float : Float) (random : Random) where
  open float use {F64}

  -- The time of the next attempt. Both readings of the clock are made; a panic of `clamp` unwinds.
  abbrev pub retry_time : Option (Option ℤ) → ℤ → Exec Json F64 ℤ
  retry_time none fallback = raise panic
  retry_time (some at) fallback = pure (unwrap_or at fallback)

  unfoldable pub retry_later :
      Env Json F64 → Run Json → WorkflowDef Json F64 → List String → Exec Json F64 AttemptOutcome
  unfolding put_run next_attempt_at_ms
  retry_later env run def failing = do
    check_edge run.status RunStatus.failed
    check_edge RunStatus.failed RunStatus.queued
    let attempts = u32 (run.attempts + 1)
    now ← now_ms env
    fallback ← now_ms env
    delay ←
        retry_time (next_attempt_at_ms float random def.retry attempts true now env.seed) fallback
    modify (
        put_run (record run {
          attempts = attempts;
          status = RunStatus.queued;
          next_attempt_at_ms = some delay;
          error = none;
        }))
    pure (record {
      run_status = RunStatus.queued;
      failed_tasks = failing;
      action = release delay;
      error = none;
    })

  -- Attempts are left to the run, and to each of its failed tasks.
  abbrev pub retry_allowed : Run Json → WorkflowDef Json F64 → List String → World Json F64 → Bool
  retry_allowed run def failing w =
      allows_attempt def.retry (u32 (run.attempts + 1))
      && all (budget_left run.id def w.store) failing

  unfoldable pub finalize :
      Env Json F64 → Run Json → WorkflowDef Json F64 → States → Exec Json F64 AttemptOutcome
  unfolding succeed fail_run retry_later load_task
  finalize env run def states w =
      let failing = map (λ entry. entry.0) (filter has_failed states) in
      let reason = message_of run w (find has_failed states) in
      if not (all TaskStatus.is_terminal (values states))
      then (err (invariant "attempt ended with non-terminal tasks"), w)
      else if not (any has_failed states)
      then succeed env run w
      else if retry_allowed run def failing w
      then retry_later env run def failing w
      else fail_run env run reason failing w
