-- ===== src/Scheduler/Executor.antt =====
-- src/scheduler/executor.rs: one attempt of a run, over the in-memory store. The clock is a sequence
-- of readings. A handler may change the store while it runs, as an operator's cancel does.
pub mod Tasks
pub mod Finalize
pub mod Attempt
pub mod Holds
pub mod Ends
pub mod Loop
pub mod Outcome
pub mod Fuel
pub mod Total
pub mod Stuck
pub mod Budget
use aegis_fs.Prelude.{
  ℕ, zero, suc, ◌+◌, ◌%◌, ◌^◌, String, Bool, true, false, not, ◌&&◌, ◌||◌, Option, none, some, List,
  [], ◌∷◌, any, all, find, filter, map, length, ltb, if◌then◌else◌,
}
use aegis_fs.Prelude.BTree
use aegis_fs.Prelude.Eq.{◌==◌, string_eq}
use aegis_fs.Prelude.Float.{Float}
use aegis_fs.Prelude.Int.{ℤ, ltb_ℤ}
use aegis_fs.Prelude.Map.{Map, lookup, contains_key, values}
use aegis_fs.Prelude.Result.{Result, ok, err}
use aegis_fs.Prelude.Text.{◌<>◌}
use aegis_fs.Domain.Error.{RunvaneError}
use aegis_fs.Domain.FailureKind.{timeout, exhausted}
use aegis_fs.Domain.Ids.{task_run_id}
use aegis_fs.Domain.RetryPolicy.{RetryPolicy, allows_attempt}
use aegis_fs.Domain.Run.{Run, RunError, TaskRun}
use aegis_fs.Domain.RunStatus
use aegis_fs.Domain.RunStatus.{RunStatus}
use aegis_fs.Domain.TaskStatus
use aegis_fs.Domain.TaskStatus.{TaskStatus}
use aegis_fs.Domain.Workflow.{TaskSpec, WorkflowDef, effective_retry, unwrap_or}
use aegis_fs.Persistence.Store.{MemoryState}
use aegis_fs.Persistence.Records.{
  get_run, get_workflow, put_run, put_task_run, get_task_run, list_task_runs_for_run,
}
use aegis_fs.Persistence.Queue.{renew_lease}
use aegis_fs.Plugins.Handler.{
  TaskContext, HandlerError, Handled, returned, failed, panicked, permanent,
}
use aegis_fs.Retry.Random.{Random}
use aegis_fs.Retry.Backoff.{next_attempt_at_ms}
use aegis_fs.Scheduler.Pick.{States, ready_tasks, pending_to_skip}
use aegis_fs.State.RunFsm
use aegis_fs.State.TaskFsm

pub data RunAction : Type 0 where
  ack : RunAction
  release : (release_at_ms : ℤ) → RunAction

pub record AttemptOutcome : Type 0 where
  pub run_status : RunStatus
  pub failed_tasks : List String
  pub action : RunAction
  pub error : Option RunError

-- `panic` is a panic that unwinds to the worker; `out_of_fuel` is no answer of the code.
pub data ExecutorError : Type 0 where
  run_lost definition_lost invariant : String → ExecutorError
  panic out_of_fuel : ExecutorError

-- The store, and how often the clock has been read.
pub record World (Json F64 : Type 0) : Type 0 where
  pub store : MemoryState Json F64
  pub ticks : ℕ

-- What the executor is built with: the readings of the clock, and the registry.
pub record Env (Json F64 : Type 0) : Type 0 where
  pub clock : ℕ → ℤ
  pub registry : String → Option (TaskContext Json → World Json F64 → Handled Json × World Json F64)
  pub seed : ℕ

abbrev pub Exec : Type 0 → Type 0 → Type 0 → Type 0
Exec Json F64 A = World Json F64 → Result ExecutorError A × World Json F64

abbrev pub u32 : ℕ → ℕ
u32 n = n % 2 ^ 32

abbrev ok_or_else {ℓ κ} : {E : Type κ} {A : Type ℓ} → Result E A → A → A
ok_or_else (ok a) d = a
ok_or_else (err _) d = d

module _ {Json : Type 0} where
  abbrev fresh_task : (run_id task_name : String) → TaskRun Json
  fresh_task run_id task_name = record {
    id = task_run_id run_id task_name;
    run_id = run_id;
    task_name = task_name;
    status = TaskStatus.pending;
    attempts = 0;
    last_error = none;
    started_at_ms = none;
    finished_at_ms = none;
    output = none;
  }

  -- `loaded_states`: the stored statuses, then `Pending` for every task that has none.
  unfoldable pub collect_states : List (TaskRun Json) → States → States
  collect_states [] m = m
  collect_states (t ∷ ts) m = collect_states ts (BTree.insert t.task_name t.status m)

module _ {Json F64 : Type 0} where
  abbrev pub after :
      {A B : Type 0} → Result ExecutorError A → (A → Exec Json F64 B) → Exec Json F64 B
  after (ok a) f w = f a w
  after (err e) f w = (err e, w)

  infixl 5 ◌>>=◌ ◌>>◌
  unfoldable pub ◌>>=◌ : {A B : Type 0} → Exec Json F64 A → (A → Exec Json F64 B) → Exec Json F64 B
  ◌>>=◌ m f w = let (r, w') = m w in after r f w'

  abbrev pub ◌>>◌ : {A B : Type 0} → Exec Json F64 A → Exec Json F64 B → Exec Json F64 B
  m >> n = m >>= λ _. n

  abbrev pub pure : {A : Type 0} → A → Exec Json F64 A
  pure a w = (ok a, w)

  abbrev pub raise : {A : Type 0} → ExecutorError → Exec Json F64 A
  raise e w = (err e, w)

  abbrev pub gets : {A : Type 0} → (MemoryState Json F64 → A) → Exec Json F64 A
  gets f w = (ok (f w.store), w)

  abbrev pub modify : (MemoryState Json F64 → MemoryState Json F64) → Exec Json F64 (Unit {0})
  modify f w = (ok tt, record w { store = f w.store })

  -- A read of the clock.
  abbrev pub now_ms : Env Json F64 → Exec Json F64 ℤ
  now_ms env w = (ok (env.clock w.ticks), record w { ticks = suc w.ticks })

  -- `map_err(..)?` on a result.
  abbrev pub or_raise : {A E : Type 0} → ExecutorError → Result E A → Exec Json F64 A
  or_raise e (ok a) w = (ok a, w)
  or_raise e (err _) w = (err e, w)

  unfoldable pub load_task : (run_id task_name : String) → MemoryState Json F64 → TaskRun Json
  load_task run_id task_name s =
      ok_or_else (get_task_run (task_run_id run_id task_name) s) (fresh_task run_id task_name)

  unfoldable pub fill_pending : List (TaskSpec Json F64) → States → States
  fill_pending [] m = m
  fill_pending (t ∷ ts) m =
      fill_pending ts
        (if contains_key t.name m then m else BTree.insert t.name TaskStatus.pending m)

  unfoldable pub loaded_states : String → WorkflowDef Json F64 → MemoryState Json F64 → States
  unfolding collect_states fill_pending
  loaded_states run_id def s =
      fill_pending def.tasks (collect_states (list_task_runs_for_run run_id s) [])

  abbrev named : String → TaskSpec Json F64 → Bool
  named name t = t.name == name

  abbrev pub policy_of : WorkflowDef Json F64 → Option (TaskSpec Json F64) → RetryPolicy F64
  policy_of def none = def.retry
  policy_of def (some t) = effective_retry t def.retry

  -- Attempts are left to the task.
  abbrev pub budget_left : String → WorkflowDef Json F64 → MemoryState Json F64 → String → Bool
  budget_left run_id def s name =
      ltb (load_task run_id name s).attempts
        (policy_of def (find (named name) def.tasks)).max_attempts
