-- ===== src/Scheduler/Executor/Fuel.antt =====
-- src/scheduler/executor.rs: the fuel of the loop over the ready tasks.
use aegis_fs.Prelude.{
  ℕ, zero, suc, ◌<◌, String, true, not, ◌||◌, Option, none, some, List, [], ◌∷◌, ◌++◌, ◌≡◌, ◌≢◌,
  refl, sym, Bool-cases, arith, inl, inr, count_if, count_if-lt, filter, Elem-filter, find,
}
use aegis_fs.Prelude.Eq.{string_eq, eq_refl}
use aegis_fs.Prelude.BTree
use aegis_fs.Prelude.Int.{ℤ}
use aegis_fs.Prelude.Map.{lookup}
use aegis_fs.Prelude.Result.{ok, err}
use aegis_fs.Domain.Run.{Run, TaskRun}
use aegis_fs.Domain.TaskStatus.{TaskStatus}
use aegis_fs.Domain.Workflow.{TaskSpec, WorkflowDef}
use aegis_fs.Persistence.Model.{ClaimToken}
use aegis_fs.Persistence.Records.{get_run}
use aegis_fs.Plugins.Handler.{Handled, TaskContext, returned, failed, panicked}
use aegis_fs.Scheduler.Pick.{States, ready_tasks}
use aegis_fs.Scheduler.Pick.Ready.{ready_tasks_iff}
use aegis_fs.Scheduler.Executor.{
  Env, Exec, World, out_of_fuel, ◌>>=◌, load_task, named, budget_left,
}
use aegis_fs.Scheduler.Executor.Holds.{Post, bind-Holds}
use aegis_fs.Scheduler.Executor.Tasks.{
  LoopEnd, attempt_loop, execute_all, execute_task, eligible, cancelled_run, round_checked,
  round_ready, in_list, is_failed, settle, settle_handled, heartbeat, start_task, run_handler,
  expect, handled_by, context_of,
}
use aegis_fs.State.TaskFsm

module _ {Json F64 A : Type 0} where
  abbrev pub Fuelled : Post Json F64 A
  Fuelled (ok a) w = Unit {0}
  Fuelled (err e) w = e ≢ out_of_fuel

module _ {Json F64 A B : Type 0} where
  pub bind-Fuelled :
      (m : Exec Json F64 A) (f : A → Exec Json F64 B) (w : World Json F64)
      → Fuelled (m w).0 (m w).1
      → ((a : A) (w' : World Json F64) → Fuelled (f a w').0 (f a w').1)
      → Fuelled ((m >>= f) w).0 ((m >>= f) w).1
  bind-Fuelled m f w h k = bind-Holds m f Fuelled Fuelled w h (λ a w' _. k a w') (λ e w' h. h)

not_in-append :
    (name : String) (ns executed : List String)
    → not (in_list name (ns ++ executed)) ≡ true
    → not (in_list name executed) ≡ true
not_in-append name [] executed h = h
not_in-append name (n ∷ ns) executed h = ground (arith, not_in-append name ns executed)

module _ {Json F64 : Type 0} where
  -- The tasks that the attempt has not executed yet.
  abbrev pub left_over : WorkflowDef Json F64 → List String → ℕ
  left_over def executed = count_if (λ t. not (in_list t.name executed)) def.tasks

  left_over-round :
      (run : Run Json) (def : WorkflowDef Json F64) (executed : List String) (states : States)
      (w : World Json F64) (n : String) (ns : List String)
      → eligible run def executed states w ≡ n ∷ ns
      → left_over def ((n ∷ ns) ++ executed) < left_over def executed
  unfolding eligible
  left_over-round run def executed states w n ns e =
      let (m, _) =
        (Elem-filter
            (λ name. not (is_failed (lookup name states)) || budget_left run.id def w.store name) n
            (filter (λ name. not (in_list name executed)) (ready_tasks def states))).0
          (rw e (inl refl)) in
      let (ready, fresh) =
        (Elem-filter (λ name. not (in_list name executed)) n (ready_tasks def states)).0 m in
      let (task, m_task, same, _) = (ready_tasks_iff states def n).0 ready in
      count_if-lt (λ t. not (in_list t.name ((n ∷ ns) ++ executed)))
        (λ t. not (in_list t.name executed)) (λ t h. not_in-append t.name (n ∷ ns) executed h) task
        (rw (sym same) fresh) (rw (sym same) (ground (arith, eq_refl n))) def.tasks m_task

module _ {Json F64 : Type 0} (env : Env Json F64) where
  settle-Fuelled :
      (run_id name : String) (to : TaskStatus) (label : String)
      (change : TaskRun Json → TaskRun Json) (states : States) (w : World Json F64)
      → Fuelled
          (settle env run_id name to label change states w).0
          (settle env run_id name to label change states w).1
  unfolding settle ◌>>=◌
  settle-Fuelled run_id name to label change states w =
      elim (Bool-cases (TaskFsm.is_legal (load_task run_id name w.store).status to)) [
        | inl e ↦ rw e tt
        | inr e ↦ rw e (λ c. absurd (ground arith))
      ]

  settle_handled-Fuelled :
      (run_id name : String) (handled : Handled Json) (states : States) (w : World Json F64)
      → Fuelled
          (settle_handled env run_id name handled states w).0
          (settle_handled env run_id name handled states w).1
  unfolding settle_handled
  settle_handled-Fuelled run_id name (returned output) states w =
      settle-Fuelled run_id name TaskStatus.succeeded "Succeeded"
        (λ tr. record tr { output = some output }) states w
  settle_handled-Fuelled run_id name (failed e) states w =
      settle-Fuelled run_id name TaskStatus.failed "Failed"
        (λ tr. record tr { last_error = some e.message }) states w
  settle_handled-Fuelled run_id name panicked states w = λ c. absurd (ground arith)

  heartbeat-Fuelled :
      (run_id : String) (token : Option ClaimToken) (lease_ms : ℤ) (w : World Json F64)
      → Fuelled (heartbeat env run_id token lease_ms w).0 (heartbeat env run_id token lease_ms w).1
  unfolding heartbeat ◌>>=◌
  heartbeat-Fuelled run_id none lease_ms w = tt
  heartbeat-Fuelled run_id (some t) lease_ms w = tt

  start_task-Fuelled :
      (run_id name : String) (w : World Json F64)
      → Fuelled (start_task env run_id name w).0 (start_task env run_id name w).1
  unfolding start_task ◌>>=◌
  start_task-Fuelled run_id name w = tt

  expect-Fuelled :
      (o : Option (TaskSpec Json F64)) (w : World Json F64) → Fuelled (expect o w).0 (expect o w).1
  expect-Fuelled none w = λ c. absurd (ground arith)
  expect-Fuelled (some t) w = tt

  run_handler-Fuelled :
      (handler_id : String) (ctx : TaskContext Json) (w : World Json F64)
      → Fuelled (run_handler env handler_id ctx w).0 (run_handler env handler_id ctx w).1
  unfolding run_handler
  run_handler-Fuelled handler_id ctx w = by_entry (env.registry handler_id)
    where
      by_entry :
          (h : Option (TaskContext Json → World Json F64 → Handled Json × World Json F64))
          → Fuelled (handled_by handler_id ctx h w).0 (handled_by handler_id ctx h w).1
      by_entry none = tt
      by_entry (some handler) = tt

  module _ (run_id : String) (run : Run Json) (def : WorkflowDef Json F64)
      (token : Option ClaimToken) (lease_ms : ℤ) where
    execute_task-Fuelled :
        (name : String) (states : States) (w : World Json F64)
        → Fuelled
            (execute_task env run_id run def token lease_ms name states w).0
            (execute_task env run_id run def token lease_ms name states w).1
    unfolding execute_task
    execute_task-Fuelled name states w =
        bind-Fuelled (expect (find (named name) def.tasks)) _ w
          (expect-Fuelled (find (named name) def.tasks) w)
          (λ task w1.
            bind-Fuelled (heartbeat env run.id token lease_ms) _ w1
              (heartbeat-Fuelled run.id token lease_ms w1)
              (λ _ w2.
                bind-Fuelled (start_task env run.id name) _ w2 (start_task-Fuelled run.id name w2)
                  (λ started w3.
                    bind-Fuelled
                      (run_handler env task.handler
                        (context_of run_id run task name started.attempts))
                      _ w3
                      (run_handler-Fuelled task.handler
                        (context_of run_id run task name started.attempts) w3)
                      (λ handled w4.
                        settle_handled-Fuelled run.id name handled
                          (BTree.insert name TaskStatus.running states) w4))))

    execute_all-Fuelled :
        (names : List String) (states : States) (w : World Json F64)
        → Fuelled
            (execute_all env run_id run def token lease_ms names states w).0
            (execute_all env run_id run def token lease_ms names states w).1
    unfolding execute_all
    execute_all-Fuelled [] states w = tt
    execute_all-Fuelled (name ∷ names) states w =
        bind-Fuelled (execute_task env run_id run def token lease_ms name states) _ w
          (execute_task-Fuelled name states w) (λ states' w'. execute_all-Fuelled names states' w')

    pub attempt_loop-Fuelled :
        (fuel : ℕ) (executed : List String) (states : States) (w : World Json F64)
        → left_over def executed < fuel
        → Fuelled
            (attempt_loop env run_id run def token lease_ms fuel executed states w).0
            (attempt_loop env run_id run def token lease_ms fuel executed states w).1
    unfolding attempt_loop
    attempt_loop-Fuelled zero executed states w h = absurd (omega arith)
    attempt_loop-Fuelled (suc fuel) executed states w h =
        by_run (cancelled_run (get_run run_id w.store)) (eligible run def executed states w) refl
          (attempt_loop-Fuelled fuel)
      where
        next : List String → States → Exec Json F64 LoopEnd
        next = attempt_loop env run_id run def token lease_ms fuel

        execute : List String → States → Exec Json F64 States
        execute = execute_all env run_id run def token lease_ms

        by_run :
            (c : Option (Run Json))
            → (ready : List String) → eligible run def executed states w ≡ ready
            → ((executed : List String) (states : States) (w : World Json F64)
                → left_over def executed < fuel
                → Fuelled (next executed states w).0 (next executed states w).1)
            → Fuelled
                (round_checked (round_ready next execute ready executed states) c w).0
                (round_checked (round_ready next execute ready executed states) c w).1
        by_run (some r) ready e ih = tt
        by_run none [] e ih = tt
        by_run none (n ∷ ns) e ih =
            bind-Fuelled (execute (n ∷ ns) states) _ w (execute_all-Fuelled (n ∷ ns) states w)
              (λ states' w'.
                let less = left_over-round run def executed states w n ns e in
                ih ((n ∷ ns) ++ executed) states' w' (omega arith))
