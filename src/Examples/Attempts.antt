-- ===== src/Examples/Attempts.antt =====
-- Attempts of the run of the examples.
use aegis_fs.Prelude.{◌⊎◌, ◌<◌, ◌≤◌, String, none, some, [], ◌∷◌, ◌≡◌, ◌≢◌, refl, ◌↔◌, Elem}
use aegis_fs.Prelude.BTree
use aegis_fs.Prelude.Eq.{string_eq, pair_eq}
use aegis_fs.Prelude.Int.{pos}
use aegis_fs.Prelude.Map.{lookup}
use aegis_fs.Prelude.Result.{err}
use aegis_fs.Domain.Workflow.{TaskSpec}
use aegis_fs.Persistence.Records.{get_run, get_workflow, get_task_run, list_task_runs_for_run}
use aegis_fs.Scheduler.Executor.{
  ◌>>=◌, AttemptOutcome, load_task, loaded_states, out_of_fuel, release,
}
use aegis_fs.Scheduler.Executor.Finalize.{finalize, retry_later}
use aegis_fs.Scheduler.Executor.Attempt.{attempt_with_token}
use aegis_fs.Scheduler.Executor.Budget.{finalize_budget, task_limit}
use aegis_fs.Scheduler.Executor.Ends.{Ended}
use aegis_fs.Scheduler.Executor.Loop.{LoopEnded, attempt_loop-Ended}
use aegis_fs.Scheduler.Executor.Outcome.{attempt_outcome}
use aegis_fs.Scheduler.Executor.Stuck.{StuckEnd, attempt_stuck}
use aegis_fs.Scheduler.Executor.Tasks.{attempt_loop}
use aegis_fs.Scheduler.Executor.Total.{attempt_ends}
use aegis_fs.Scheduler.Pick.{States, ready_tasks, pending_to_skip}
use aegis_fs.Scheduler.Pick.Ready.{Dispatchable, ready_tasks_iff}
use aegis_fs.Scheduler.Pick.Skip.{pending_to_skip_lem, skip_spec}
use aegis_fs.Domain.RunStatus
use aegis_fs.Domain.TaskStatus.{failed, skipped}
use aegis_fs.State.RunFsm
use aegis_fs.Examples.Data.{whole, counter, pipeline, steady, run_1, env, world, store, after_panic}

attempt_outcome_example :
    Ended "r1"
      (attempt_with_token whole counter env "r1" (some "k") (pos 50) world).0
      (attempt_with_token whole counter env "r1" (some "k") (pos 50) world).1
unfolding lookup
attempt_outcome_example = attempt_outcome whole counter env (some "k") (pos 50) run_1 world refl

attempt_ends_example :
    (attempt_with_token whole counter env "r1" none (pos 50) world).0 ≢ err out_of_fuel
attempt_ends_example = attempt_ends whole counter env "r1" none (pos 50) world

attempt_loop-Ended_example :
    LoopEnded "r1"
      (attempt_loop env "r1" run_1 pipeline none (pos 50) 3 [] [] world).0
      (attempt_loop env "r1" run_1 pipeline none (pos 50) 3 [] [] world).1
attempt_loop-Ended_example = attempt_loop-Ended env "r1" run_1 pipeline none (pos 50) 3 [] [] world

abbrev broken : States
broken = ("a", failed) ∷ []

ready_tasks_iff_example : Elem "a" (ready_tasks pipeline broken) ↔ (
    (task : TaskSpec _ _) × Elem task pipeline.tasks × ("a" ≡ task.name) × Dispatchable broken task)
ready_tasks_iff_example = ready_tasks_iff broken pipeline "a"

pending_to_skip_lem_example :
    (after : States) × (pending_to_skip pipeline broken ≡ some after)
    × ((j : String) → lookup j after ≡ skip_spec j broken pipeline.tasks)
pending_to_skip_lem_example = pending_to_skip_lem pipeline broken

attempt_stuck_example :
    StuckEnd env run_1 after_panic
      (attempt_with_token whole counter env "r1" none (pos 50) after_panic).0
      (attempt_with_token whole counter env "r1" none (pos 50) after_panic).1
unfolding loaded_states lookup list_task_runs_for_run BTree.insert get_run get_workflow
attempt_stuck_example =
    attempt_stuck whole counter env "r1" run_1 (record { def = pipeline }) none (pos 50) "a"
      after_panic refl refl refl

abbrev a_failed : States
a_failed = ("a", failed) ∷ ("b", skipped) ∷ []

abbrev retried : AttemptOutcome
retried = record {
  run_status = RunStatus.queued;
  failed_tasks = "a" ∷ [];
  action = release (pos 200);
  error = none;
}

finalize_budget_example :
    (RunStatus.queued ≡ RunStatus.queued
      → (1 < 3)
        × ((name : String)
            → Elem (name, failed) a_failed
            → (load_task "r1" name store).attempts < task_limit steady name pipeline.tasks))
    × (RunStatus.queued ≡ RunStatus.failed
        → (3 ≤ 1)
          ⊎ ((name : String) × Elem (name, failed) a_failed
              × (task_limit steady name pipeline.tasks ≤ (load_task "r1" name store).attempts)))
unfolding finalize retry_later get_task_run lookup ◌>>=◌ RunFsm.validate RunFsm.can_transition
finalize_budget_example =
    finalize_budget whole counter env run_1 pipeline a_failed world retried refl
