-- ===== src/Scheduler/Executor/Tasks.antt =====
-- src/scheduler/executor.rs: the execution of one task, and the loop over the ready tasks.
use aegis_fs.Prelude.{
  ℕ, zero, suc, ◌+◌, ◌||◌, String, Bool, false, not, Option, none, some, List, [], ◌∷◌, ◌++◌, any,
  find, filter, if◌then◌else◌,
}
use aegis_fs.Prelude.BTree
use aegis_fs.Prelude.Eq.{◌==◌, string_eq}
use aegis_fs.Prelude.Int.{ℤ}
use aegis_fs.Prelude.Map.{lookup}
use aegis_fs.Prelude.Result.{Result, ok, err}
use aegis_fs.Prelude.Text.{◌<>◌}
use aegis_fs.Domain.Error.{StorageError}
use aegis_fs.Domain.Run.{Run, TaskRun}
use aegis_fs.Domain.RunStatus
use aegis_fs.Domain.TaskStatus
use aegis_fs.Domain.TaskStatus.{TaskStatus}
use aegis_fs.Domain.Workflow.{TaskSpec, WorkflowDef}
use aegis_fs.Persistence.Model.{ClaimToken}
use aegis_fs.Persistence.Records.{get_run, put_task_run}
use aegis_fs.Persistence.Queue.{renew_lease}
use aegis_fs.Plugins.Handler.{TaskContext, Handled, returned, failed, panicked, permanent}
use aegis_fs.Scheduler.Pick.{States, ready_tasks}
use aegis_fs.Scheduler.Executor.{
  Env, World, Exec, AttemptOutcome, invariant, panic, out_of_fuel, ack, ◌>>=◌, ◌>>◌, pure, raise,
  gets, modify, now_ms, load_task, budget_left, named, u32,
}
use aegis_fs.State.TaskFsm

pub data LoopEnd : Type 0 where
  stopped : AttemptOutcome → LoopEnd
  finished : States → LoopEnd

abbrev pub in_list : String → List String → Bool
in_list name = any (λ n. n == name)

abbrev pub is_failed : Option TaskStatus → Bool
is_failed none = false
is_failed (some s) = TaskStatus.eq s TaskStatus.failed

module _ {Json : Type 0} where
  -- The outcome of a run that was found cancelled.
  abbrev pub cancelled_outcome : Run Json → AttemptOutcome
  cancelled_outcome run = record {
    run_status = RunStatus.cancelled;
    failed_tasks = [];
    action = ack;
    error = run.error;
  }

  abbrev pub cancelled_run : Result StorageError (Run Json) → Option (Run Json)
  cancelled_run (err _) = none
  cancelled_run (ok run) = if RunStatus.eq run.status RunStatus.cancelled then some run else none

module _ {Json F64 : Type 0} where
  abbrev pub handled_by :
      String
      → TaskContext Json
      → Option (TaskContext Json → World Json F64 → Handled Json × World Json F64)
      → Exec Json F64 (Handled Json)
  handled_by handler_id ctx none w =
      (ok (failed (permanent ("unknown handler " <> handler_id <> " for " <> ctx.task_name))), w)
  handled_by handler_id ctx (some handler) w = let (r, w') = handler ctx w in (ok r, w')

  unfoldable pub run_handler :
      Env Json F64 → String → TaskContext Json → Exec Json F64 (Handled Json)
  run_handler env handler_id ctx = handled_by handler_id ctx (env.registry handler_id)

  -- The end of a task, in either arm: the record is loaded again, the transition is checked, and
  -- the record is written.
  unfoldable pub settle :
      Env Json F64
      → (run_id name : String) → (to : TaskStatus) → (label : String)
      → (TaskRun Json → TaskRun Json)
      → States
      → Exec Json F64 States
  unfolding load_task put_task_run
  settle env run_id name to label change states = do
    tr ← gets (load_task run_id name)
    if not (TaskFsm.is_legal tr.status to)
        then raise (
            invariant
              ("illegal task transition " <> TaskStatus.display tr.status <> " -> " <> label))
        else do
          now ← now_ms env
          modify (put_task_run (change (record tr { status = to; finished_at_ms = some now })))
          pure (BTree.insert name to states)

  unfoldable pub settle_handled :
      Env Json F64 → (run_id name : String) → Handled Json → States → Exec Json F64 States
  unfolding settle
  settle_handled env run_id name (returned output) states =
      settle env run_id name TaskStatus.succeeded "Succeeded"
        (λ tr. record tr { output = some output }) states
  settle_handled env run_id name (failed e) states =
      settle env run_id name TaskStatus.failed "Failed"
        (λ tr. record tr { last_error = some e.message }) states
  settle_handled env run_id name panicked states = raise panic

  -- The result of the renewal is not looked at.
  unfoldable pub heartbeat :
      Env Json F64 → String → Option ClaimToken → ℤ → Exec Json F64 (Unit {0})
  unfolding renew_lease
  heartbeat env run_id none lease_ms = pure tt
  heartbeat env run_id (some token) lease_ms = do
    now ← now_ms env
    modify (λ s. (renew_lease run_id token now lease_ms s).1)

  -- The bookkeeping before the handler runs: the record as it was stored.
  unfoldable pub start_task : Env Json F64 → (run_id name : String) → Exec Json F64 (TaskRun Json)
  unfolding load_task put_task_run
  start_task env run_id name = do
    tr ← gets (load_task run_id name)
    now ← now_ms env
    let started : TaskRun Json = record tr {
      status = TaskStatus.running;
      attempts = u32 (tr.attempts + 1);
      started_at_ms = some now;
    }
    modify (put_task_run started)
    pure started

  abbrev pub context_of : String → Run Json → TaskSpec Json F64 → String → ℕ → TaskContext Json
  context_of run_id run task name attempt = record {
    tenant = run.tenant;
    def_name = run.def_name;
    run_id = run_id;
    task_name = name;
    input = task.input;
    attempt = attempt;
    is_cancelled = false;
  }

  abbrev pub expect : Option (TaskSpec Json F64) → Exec Json F64 (TaskSpec Json F64)
  expect none = raise panic
  expect (some task) = pure task

  unfoldable pub execute_task :
      Env Json F64
      → (run_id : String) → Run Json
      → WorkflowDef Json F64
      → Option ClaimToken
      → ℤ
      → String
      → States
      → Exec Json F64 States
  unfolding heartbeat start_task run_handler settle_handled
  execute_task env run_id run def token lease_ms name states = do
    task ← expect (find (named name) def.tasks)
    heartbeat env run.id token lease_ms
    started ← start_task env run.id name
    handled ← run_handler env task.handler (context_of run_id run task name started.attempts)
    settle_handled env run.id name handled (BTree.insert name TaskStatus.running states)

  unfoldable pub execute_all :
      Env Json F64
      → (run_id : String) → Run Json
      → WorkflowDef Json F64
      → Option ClaimToken
      → ℤ
      → List String
      → States
      → Exec Json F64 States
  unfolding execute_task
  execute_all env run_id run def token lease_ms [] states = pure states
  execute_all env run_id run def token lease_ms (name ∷ names) states = do
    states' ← execute_task env run_id run def token lease_ms name states
    execute_all env run_id run def token lease_ms names states'

  -- The ready tasks that were not executed in this attempt; a failed one only with budget left.
  unfoldable pub eligible :
      Run Json → WorkflowDef Json F64 → List String → States → World Json F64 → List String
  unfolding ready_tasks load_task
  eligible run def executed states w =
      filter (λ name. not (is_failed (lookup name states)) || budget_left run.id def w.store name)
        (filter (λ name. not (in_list name executed)) (ready_tasks def states))

  -- One round of the loop, given what the loop does next.
  abbrev pub round_ready :
      (List String → States → Exec Json F64 LoopEnd)
      → (List String → States → Exec Json F64 States)
      → List String
      → List String
      → States
      → Exec Json F64 LoopEnd
  round_ready next execute [] executed states = pure (finished states)
  round_ready next execute (n ∷ ns) executed states = do
    states' ← execute (n ∷ ns) states
    next ((n ∷ ns) ++ executed) states'

  abbrev pub round_checked : Exec Json F64 LoopEnd → Option (Run Json) → Exec Json F64 LoopEnd
  round_checked go none = go
  round_checked go (some run) = pure (stopped (cancelled_outcome run))

  -- The loop on fuel, where a round has executed `ready` before the next one starts.
  unfoldable pub attempt_loop :
      Env Json F64
      → (run_id : String) → Run Json
      → WorkflowDef Json F64
      → Option ClaimToken
      → ℤ
      → ℕ
      → List String
      → States
      → Exec Json F64 LoopEnd
  unfolding execute_all eligible get_run
  attempt_loop env run_id run def token lease_ms zero executed states w = (err out_of_fuel, w)
  attempt_loop env run_id run def token lease_ms (suc fuel) executed states w =
      let next = attempt_loop env run_id run def token lease_ms fuel in
      let execute = execute_all env run_id run def token lease_ms in
      round_checked (round_ready next execute (eligible run def executed states w) executed states)
        (cancelled_run (get_run run_id w.store)) w
