-- ===== src/Persistence/Calls.antt =====
-- The trait `Store` of src/persistence/mod.rs as a type of calls with their answers, and how the
-- in-memory store answers them.
pub mod Defs
use aegis_fs.Prelude.{ℕ, String, Bool, List, [], ◌∷◌}
use aegis_fs.Prelude.Int.{ℤ}
use aegis_fs.Prelude.Result.{Result}
use aegis_fs.Domain.Error.{StorageError}
use aegis_fs.Domain.Run.{Run, TaskRun}
use aegis_fs.Domain.Workflow.{WorkflowDef}
use aegis_fs.Persistence.Filter.{RunFilter}
use aegis_fs.Persistence.Model.{WorkflowRecord, WorkflowSummary, QueueEntry, ClaimToken}
use aegis_fs.Persistence.Queue
use aegis_fs.Persistence.Records
use aegis_fs.Persistence.Store.{MemoryState}

-- A call of a method of the trait, with its arguments.
pub data Call (Json F64 : Type 0) : Type 0 where
  put_workflow : WorkflowDef Json F64 → Call Json F64
  update_workflow_version :
      (tenant name : String) (def : WorkflowDef Json F64) (expected_version : ℕ) → Call Json F64
  get_workflow : (tenant name : String) → Call Json F64
  list_workflows list_workflow_summaries len_queue : Call Json F64
  put_run : Run Json → Call Json F64
  get_run delete_run get_task_run list_task_runs_for_run next_run_number : String → Call Json F64
  list_runs count_runs : RunFilter → Call Json F64
  put_task_run : TaskRun Json → Call Json F64
  enqueue : QueueEntry → Call Json F64
  scan_ready : (now_ms : ℤ) (limit : ℕ) → Call Json F64
  claim : (run_id : String) (token : ClaimToken) (now_ms lease_ms : ℤ) → Call Json F64
  ack failclaim : (run_id : String) (token : ClaimToken) → Call Json F64
  release : (run_id : String) (token : ClaimToken) (retry_at_ms : ℤ) → Call Json F64
  renew_lease : (run_id : String) (token : ClaimToken) (now_ms extend_by_ms : ℤ) → Call Json F64
  cancel_run : (run_id : String) (now_ms : ℤ) → Call Json F64
  recover_expired_leases reap_finished_runs : ℤ → Call Json F64

-- What a call returns. A write that cannot fail is answered `written`.
pub data Answer (Json F64 : Type 0) : Type 0 where
  written : Answer Json F64
  workflow : Result StorageError (WorkflowRecord Json F64) → Answer Json F64
  workflows : List (WorkflowRecord Json F64) → Answer Json F64
  summaries : List (WorkflowSummary Json F64) → Answer Json F64
  run : Result StorageError (Run Json) → Answer Json F64
  runs : List (Run Json) → Answer Json F64
  task_run : Result StorageError (TaskRun Json) → Answer Json F64
  task_runs : List (TaskRun Json) → Answer Json F64
  number : ℕ → Answer Json F64
  entries : List QueueEntry → Answer Json F64
  done : Result StorageError (Unit {0}) → Answer Json F64
  cancelled : Result StorageError Bool → Answer Json F64

-- An answer's constructor applied to the result of an operation.
abbrev pub answers : {A B S : Type 0} → (A → B) → A × S → B × S
answers f p = (f p.0, p.1)

module _ {Json F64 : Type 0} where
  unfoldable pub memory_call :
      Call Json F64 → MemoryState Json F64 → Answer Json F64 × MemoryState Json F64
  memory_call (put_workflow def) s =
      answers (λ rec. workflow (Result.ok rec)) (Records.put_workflow def s)
  memory_call (update_workflow_version tenant name def v) s =
      answers workflow (Records.update_workflow_version tenant name def v s)
  memory_call (get_workflow tenant name) s = (workflow (Records.get_workflow tenant name s), s)
  memory_call list_workflows s = (workflows (Records.list_workflows s), s)
  memory_call list_workflow_summaries s = (summaries (Records.list_workflow_summaries s), s)
  memory_call len_queue s = (number (Queue.len_queue s), s)
  memory_call (put_run r) s = (written, Records.put_run r s)
  memory_call (get_run id) s = (run (Records.get_run id s), s)
  memory_call (delete_run id) s = (written, Records.delete_run id s)
  memory_call (get_task_run id) s = (task_run (Records.get_task_run id s), s)
  memory_call (list_task_runs_for_run id) s = (task_runs (Records.list_task_runs_for_run id s), s)
  memory_call (next_run_number name) s = answers number (Records.next_run_number name s)
  memory_call (list_runs f) s = (runs (Records.list_runs f s), s)
  memory_call (count_runs f) s = (number (Records.count_runs f s), s)
  memory_call (put_task_run t) s = (written, Records.put_task_run t s)
  memory_call (enqueue e) s = answers done (Queue.enqueue e s)
  memory_call (scan_ready now limit) s = (entries (Queue.scan_ready now limit s), s)
  memory_call (claim id token now lease) s = answers done (Queue.claim id token now lease s)
  memory_call (ack id token) s = answers done (Queue.ack id token s)
  memory_call (failclaim id token) s = answers done (Queue.failclaim id token s)
  memory_call (release id token at) s = answers done (Queue.release id token at s)
  memory_call (renew_lease id token now by) s = answers done (Queue.renew_lease id token now by s)
  memory_call (cancel_run id now) s = answers cancelled (Queue.cancel_run id now s)
  memory_call (recover_expired_leases now) s = answers number (Queue.recover_expired_leases now s)
  memory_call (reap_finished_runs before) s = answers number (Records.reap_finished_runs before s)

  unfoldable pub memory_calls :
      List (Call Json F64) → MemoryState Json F64 → List (Answer Json F64) × MemoryState Json F64
  unfolding memory_call
  memory_calls [] s = ([], s)
  memory_calls (call ∷ calls) s =
      let (answer, s') = memory_call call s in
      let (rest, end) = memory_calls calls s' in (answer ∷ rest, end)
