-- ===== src/Scheduler/Executor/Total.antt =====
-- src/scheduler/executor.rs: the fuel of a whole attempt.
use aegis_fs.Prelude.{
  suc, ◌+◌, String, true, not, Option, none, some, List, [], ◌∷◌, ◌≢◌, length, Bool-cases, arith,
  inl, inr, count_if-le-length, map, filter, find,
}
use aegis_fs.Prelude.Eq.{string_eq}
use aegis_fs.Prelude.Float.{Float}
use aegis_fs.Prelude.Int.{ℤ}
use aegis_fs.Prelude.Result.{Result, ok, err}
use aegis_fs.Domain.Run.{Run}
use aegis_fs.Domain.RunStatus
use aegis_fs.Domain.RunStatus.{RunStatus}
use aegis_fs.Domain.Workflow.{WorkflowDef}
use aegis_fs.Persistence.Model.{ClaimToken}
use aegis_fs.Persistence.Records.{get_run, get_workflow}
use aegis_fs.Retry.Random.{Random}
use aegis_fs.Retry.Backoff.{next_attempt_at_ms}
use aegis_fs.Scheduler.Pick.{States}
use aegis_fs.Scheduler.Pick.Skip.{pending_to_skip_lem}
use aegis_fs.Scheduler.Executor.{
  Env, World, ExecutorError, out_of_fuel, run_lost, definition_lost, invariant, ◌>>=◌, gets,
  or_raise, loaded_states, u32,
}
use aegis_fs.Scheduler.Executor.Fuel.{Fuelled, bind-Fuelled, attempt_loop-Fuelled}
use aegis_fs.Scheduler.Executor.Tasks.{LoopEnd, stopped, finished, attempt_loop, in_list}
use aegis_fs.Scheduler.Executor.Finalize.{
  check_edge, succeed, fail_run, retry_later, retry_time, finalize, message_of, has_failed,
}
use aegis_fs.Scheduler.Executor.Attempt.{
  skip_task, newly_skipped, persist_skipped, conclude, time_out, past_deadline, run_tasks,
  attempt_running, attempt_found, attempt_with_token,
}

module _ {Json F64 A : Type 0} where
  from_Fuelled :
      (r : Result ExecutorError A) (w : World Json F64) → Fuelled r w → r ≢ err out_of_fuel
  from_Fuelled (ok a) w h e = absurd (ground arith)
  from_Fuelled (err x) w h e = h (ground arith)

module _ {Json F64 A E : Type 0} where
  or_raise-Fuelled :
      (e : ExecutorError) (r : Result E A)
      → e ≢ out_of_fuel
      → (w : World Json F64) → Fuelled (or_raise e r w).0 (or_raise e r w).1
  or_raise-Fuelled e (ok a) h w = tt
  or_raise-Fuelled e (err x) h w = h

module _ {Json F64 : Type 0} where
  check_edge-Fuelled :
      (from to : RunStatus) (w : World Json F64)
      → Fuelled (check_edge from to w).0 (check_edge from to w).1
  check_edge-Fuelled from to =
      or_raise-Fuelled (invariant "illegal run transition") _ (λ c. absurd (ground arith))

module _ {Json F64 : Type 0} (env : Env Json F64) where
  skip_task-Fuelled :
      (run_id name : String) (w : World Json F64)
      → Fuelled (skip_task env run_id name w).0 (skip_task env run_id name w).1
  unfolding skip_task ◌>>=◌
  skip_task-Fuelled run_id name w = tt

  persist_skipped-Fuelled :
      (run_id : String) (states collapsed : States) (w : World Json F64)
      → Fuelled
          (persist_skipped env run_id states collapsed w).0
          (persist_skipped env run_id states collapsed w).1
  unfolding persist_skipped
  persist_skipped-Fuelled run_id states [] w = tt
  persist_skipped-Fuelled run_id states ((name, status) ∷ rest) w =
      elim (Bool-cases (newly_skipped states (name, status))) [
        | inl e ↦ rw e (
            bind-Fuelled (skip_task env run_id name) _ w (skip_task-Fuelled run_id name w)
              (λ _ w'. persist_skipped-Fuelled run_id states rest w'))
        | inr e ↦ rw e (persist_skipped-Fuelled run_id states rest w)
      ]

  succeed-Fuelled :
      (run : Run Json) (w : World Json F64) → Fuelled (succeed env run w).0 (succeed env run w).1
  unfolding succeed ◌>>=◌
  succeed-Fuelled run w =
      bind-Fuelled (check_edge run.status RunStatus.succeeded) _ w
        (check_edge-Fuelled run.status RunStatus.succeeded w) (λ _ w'. tt)

  fail_run-Fuelled :
      (run : Run Json) (reason : String) (failing : List String) (w : World Json F64)
      → Fuelled (fail_run env run reason failing w).0 (fail_run env run reason failing w).1
  unfolding fail_run ◌>>=◌
  fail_run-Fuelled run reason failing w =
      bind-Fuelled (check_edge run.status RunStatus.failed) _ w
        (check_edge-Fuelled run.status RunStatus.failed w) (λ _ w'. tt)

  time_out-Fuelled :
      (run_id : String) (run : Run Json) (w : World Json F64)
      → Fuelled (time_out env run_id run w).0 (time_out env run_id run w).1
  unfolding time_out ◌>>=◌
  time_out-Fuelled run_id run w =
      bind-Fuelled (check_edge RunStatus.running RunStatus.timed_out) _ w
        (check_edge-Fuelled RunStatus.running RunStatus.timed_out w) (λ _ w'. tt)

  past_deadline-Fuelled :
      (d : Option ℤ) (w : World Json F64)
      → Fuelled (past_deadline env d w).0 (past_deadline env d w).1
  past_deadline-Fuelled none w = tt
  past_deadline-Fuelled (some d) w = tt

module _ {Json : Type 0} (float : Float) (random : Random) (env : Env Json float.F64) where
  retry_time-Fuelled :
      (t : Option (Option ℤ)) (fallback : ℤ) (w : World Json float.F64)
      → Fuelled (retry_time float random t fallback w).0 (retry_time float random t fallback w).1
  retry_time-Fuelled none fallback w = λ c. absurd (ground arith)
  retry_time-Fuelled (some t) fallback w = tt

  retry_later-Fuelled :
      (run : Run Json) (def : WorkflowDef Json float.F64) (failing : List String)
      (w : World Json float.F64)
      → Fuelled
          (retry_later float random env run def failing w).0
          (retry_later float random env run def failing w).1
  unfolding retry_later ◌>>=◌
  retry_later-Fuelled run def failing w =
      bind-Fuelled (check_edge run.status RunStatus.failed) _ w
        (check_edge-Fuelled run.status RunStatus.failed w)
        (λ _ w1.
          bind-Fuelled (check_edge RunStatus.failed RunStatus.queued) _ w1
            (check_edge-Fuelled RunStatus.failed RunStatus.queued w1)
            (λ _ w2.
              let at =
                next_attempt_at_ms float random def.retry (u32 (run.attempts + 1)) true
                  (env.clock w2.ticks) env.seed in
              bind-Fuelled (retry_time float random at (env.clock (suc w2.ticks))) _
                (record w2 { ticks = suc (suc w2.ticks) }) (retry_time-Fuelled at _ _) (λ _ _. tt)))

  finalize-Fuelled :
      (run : Run Json) (def : WorkflowDef Json float.F64) (states : States)
      (w : World Json float.F64)
      → Fuelled
          (finalize float random env run def states w).0
          (finalize float random env run def states w).1
  unfolding finalize
  finalize-Fuelled run def states w =
      let failing = map (λ entry. entry.0) (filter has_failed states) in
      ground (
        arith,
        succeed-Fuelled env run w,
        retry_later-Fuelled run def failing w,
        fail_run-Fuelled env run (message_of run w (find has_failed states)) failing w,
      )

  conclude-Fuelled :
      (run : Run Json) (def : WorkflowDef Json float.F64) (end : LoopEnd) (w : World Json float.F64)
      → Fuelled
          (conclude float random env run def end w).0
          (conclude float random env run def end w).1
  conclude-Fuelled run def (stopped out) w = tt
  conclude-Fuelled run def (finished states) w =
      let (collapsed, e, _) = pending_to_skip_lem def states in
      rw e (
        bind-Fuelled (persist_skipped env run.id states collapsed) _ w
          (persist_skipped-Fuelled env run.id states collapsed w)
          (λ _ w'. finalize-Fuelled run def collapsed w'))

  module _ (run_id : String) (token : Option ClaimToken) (lease_ms : ℤ) where
    run_tasks-Fuelled :
        (run : Run Json) (def : WorkflowDef Json float.F64) (w : World Json float.F64)
        → Fuelled
            (run_tasks float random env run_id run def token lease_ms w).0
            (run_tasks float random env run_id run def token lease_ms w).1
    unfolding run_tasks
    run_tasks-Fuelled run def w =
        bind-Fuelled (gets (loaded_states run.id def)) _ w tt (λ states w'.
          bind-Fuelled
            (attempt_loop env run_id run def token lease_ms (suc (length def.tasks)) [] states) _ w'
            (attempt_loop-Fuelled env run_id run def token lease_ms (suc (length def.tasks)) []
              states w'
              (omega (arith, count_if-le-length (λ t. not (in_list t.name [])) def.tasks)))
            (conclude-Fuelled run def))

    attempt_found-Fuelled :
        (run : Run Json) (def : WorkflowDef Json float.F64) (w : World Json float.F64)
        → Fuelled
            (attempt_found float random env run_id run def token lease_ms w).0
            (attempt_found float random env run_id run def token lease_ms w).1
    unfolding attempt_found attempt_running
    attempt_found-Fuelled run def w =
        elim (Bool-cases (RunStatus.eq run.status RunStatus.running)) [
          | inl e ↦ rw e (
              bind-Fuelled (past_deadline env run.deadline_at_ms) _ w
                (past_deadline-Fuelled env run.deadline_at_ms w)
                (λ late w'. elim (Bool-cases late) [
                  | inl l ↦ rw l (time_out-Fuelled env run_id run w')
                  | inr l ↦ rw l (run_tasks-Fuelled run def w')
                ]))
          | inr e ↦ elim (Bool-cases (RunStatus.eq run.status RunStatus.cancelled)) [
            | inl c ↦ rw (e, c) tt
            | inr c ↦ rw (e, c) (λ h. absurd (ground arith))
          ]
        ]

    attempt-Fuelled :
        (w : World Json float.F64)
        → Fuelled
            (attempt_with_token float random env run_id token lease_ms w).0
            (attempt_with_token float random env run_id token lease_ms w).1
    unfolding attempt_with_token
    attempt-Fuelled w =
        bind-Fuelled (or_raise (run_lost run_id) (get_run run_id w.store)) _ w
          (or_raise-Fuelled (run_lost run_id) (get_run run_id w.store) (λ h. absurd (ground arith))
            w)
          (λ run w1.
            bind-Fuelled
              (or_raise (definition_lost run_id) (get_workflow run.tenant run.def_name w.store)) _
              w1
              (or_raise-Fuelled (definition_lost run_id)
                (get_workflow run.tenant run.def_name w.store) (λ h. absurd (ground arith)) w1)
              (λ def. attempt_found-Fuelled run def.def))

    -- An attempt with any handlers, store and token comes to an end: the fuel of its loop, one more
    -- than the number of tasks, never runs out.
    pub attempt_ends :
        (w : World Json float.F64)
        → (attempt_with_token float random env run_id token lease_ms w).0 ≢ err out_of_fuel
    attempt_ends w = from_Fuelled _ _ (attempt-Fuelled w)
