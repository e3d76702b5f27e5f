-- ===== src/Scheduler/Executor/Stuck.antt =====
-- src/scheduler/executor.rs: a task that is stored as running when the attempt starts.
use aegis_fs.Prelude.{
  ℕ, zero, suc, String, Bool, true, false, not, if◌then◌else◌, ◌||◌, Option, none, some, List, [],
  ◌∷◌, ◌++◌, ◌≡◌, ◌≢◌, refl, ◌⊎◌, sym, length, Bool-cases, arith, inl, inr, filter, Elem,
  Elem-filter, find, all,
}
use aegis_fs.Prelude.BTree
use aegis_fs.Prelude.Eq.{string_eq, eq_iff}
use aegis_fs.Prelude.Float.{Float}
use aegis_fs.Prelude.Int.{ℤ, ltb_ℤ, ◌<ℤ◌}
use aegis_fs.Prelude.Map.{lookup, values}
use aegis_fs.Prelude.Result.{Result, ok, err}
use aegis_fs.Domain.Run.{Run, TaskRun}
use aegis_fs.Domain.RunStatus
use aegis_fs.Domain.RunStatus.{cancelled, timed_out}
use aegis_fs.Domain.TaskStatus
use aegis_fs.Domain.TaskStatus.{TaskStatus, running, pending, failed}
use aegis_fs.Domain.Workflow.{TaskSpec, WorkflowDef}
use aegis_fs.Persistence.Model.{ClaimToken, WorkflowRecord}
use aegis_fs.Persistence.Records.{get_run, get_workflow}
use aegis_fs.Plugins.Handler
use aegis_fs.Plugins.Handler.{Handled, returned, panicked}
use aegis_fs.Retry.Random.{Random}
use aegis_fs.Scheduler.Pick.{States, ready_tasks, status_of}
use aegis_fs.Scheduler.Pick.Ready.{Dispatchable, ready_tasks_iff}
use aegis_fs.Scheduler.Pick.Skip.{pending_to_skip_lem}
use aegis_fs.Scheduler.Executor.{
  Env, Exec, World, ExecutorError, AttemptOutcome, ◌>>=◌, load_task, loaded_states, named,
  budget_left, now_ms,
}
use aegis_fs.Scheduler.Executor.Holds.{Post, bind-Holds}
use aegis_fs.Scheduler.Executor.Tasks.{
  LoopEnd, stopped, finished, attempt_loop, execute_all, execute_task, eligible, cancelled_run,
  round_checked, round_ready, in_list, is_failed, settle, settle_handled, heartbeat, start_task,
  run_handler, expect, context_of,
}
use aegis_fs.Scheduler.Executor.Finalize.{check_edge, finalize}
use aegis_fs.Scheduler.Executor.Attempt.{
  conclude, persist_skipped, run_tasks, time_out, past_deadline, attempt_running, attempt_found,
  attempt_with_token,
}
use aegis_fs.State.TaskFsm

module _ {Json F64 : Type 0} (name : String) where
  -- The task is still running in the statuses that are returned.
  abbrev Keeps : Post Json F64 States
  Keeps (ok states) w = lookup name states ≡ some running
  Keeps (err e) w = Unit {0}

  abbrev KeepsEnd : Post Json F64 LoopEnd
  KeepsEnd (ok (stopped out)) w = out.run_status ≡ cancelled
  KeepsEnd (ok (finished states)) w = lookup name states ≡ some running
  KeepsEnd (err e) w = Unit {0}

running_blocked :
    {Json F64 : Type 0} (states : States) (task : TaskSpec Json F64)
    → status_of task.name states ≡ running
    → Dispatchable states task
    → ⊥
running_blocked states task e (inl f) = absurd (cc (e, f))
running_blocked states task e (inr (p, _)) = absurd (cc (e, p))

not_terminal :
    (name : String) (states : States)
    → lookup name states ≡ some running
    → all TaskStatus.is_terminal (values states) ≡ false
unfolding lookup
not_terminal name [] h = absurd (cc)
not_terminal name (entry ∷ states) h = ground (arith, not_terminal name states)

keep-insert :
    (name other : String) (status : TaskStatus) (states : States)
    → other ≢ name
    → lookup name states ≡ some running
    → lookup name (BTree.insert other status states) ≡ some running
keep-insert name other status states ne h =
    ground (arith, BTree.lookup-insert other name status states, eq_iff other name)

module _ {Json F64 : Type 0} (env : Env Json F64) (name : String) where
  settle-Keeps :
      (run_id other : String) (to : TaskStatus) (label : String)
      (change : TaskRun Json → TaskRun Json) (states : States) (w : World Json F64)
      → other ≢ name
      → lookup name states ≡ some running
      → Keeps name
          (settle env run_id other to label change states w).0
          (settle env run_id other to label change states w).1
  unfolding settle ◌>>=◌
  settle-Keeps run_id other to label change states w ne h =
      elim (Bool-cases (TaskFsm.is_legal (load_task run_id other w.store).status to)) [
        | inl e ↦ rw e (keep-insert name other to states ne h)
        | inr e ↦ rw e tt
      ]

  settle_handled-Keeps :
      (run_id other : String) (handled : Handled Json) (states : States) (w : World Json F64)
      → other ≢ name
      → lookup name states ≡ some running
      → Keeps name
          (settle_handled env run_id other handled states w).0
          (settle_handled env run_id other handled states w).1
  unfolding settle_handled
  settle_handled-Keeps run_id other (returned output) states w ne h =
      settle-Keeps run_id other TaskStatus.succeeded "Succeeded"
        (λ tr. record tr { output = some output }) states w ne h
  settle_handled-Keeps run_id other (Handler.failed e) states w ne h =
      settle-Keeps run_id other TaskStatus.failed "Failed"
        (λ tr. record tr { last_error = some e.message }) states w ne h
  settle_handled-Keeps run_id other panicked states w ne h = tt

  module _ (run_id : String) (run : Run Json) (def : WorkflowDef Json F64)
      (token : Option ClaimToken) (lease_ms : ℤ) where
    execute_task-Keeps :
        (other : String) (states : States) (w : World Json F64)
        → other ≢ name
        → lookup name states ≡ some running
        → Keeps name
            (execute_task env run_id run def token lease_ms other states w).0
            (execute_task env run_id run def token lease_ms other states w).1
    unfolding execute_task
    execute_task-Keeps other states w ne h =
        bind-Holds (expect (find (named other) def.tasks)) _ (λ _ _. Unit {0}) (Keeps name) w tt
          (λ task w1 _.
            bind-Holds (heartbeat env run.id token lease_ms) _ (λ _ _. Unit {0}) (Keeps name) w1 tt
              (λ _ w2 _.
                bind-Holds (start_task env run.id other) _ (λ _ _. Unit {0}) (Keeps name) w2 tt
                  (λ started w3 _.
                    bind-Holds
                      (run_handler env task.handler
                        (context_of run_id run task other started.attempts))
                      _ (λ _ _. Unit {0}) (Keeps name) w3 tt
                      (λ handled w4 _.
                        settle_handled-Keeps run.id other handled
                          (BTree.insert other running states) w4 ne
                          (keep-insert name other running states ne h))
                      (λ _ _ _. tt))
                  (λ _ _ _. tt))
              (λ _ _ _. tt))
          (λ _ _ _. tt)

    execute_all-Keeps :
        (others : List String) (states : States) (w : World Json F64)
        → ((n : String) → Elem n others → n ≢ name)
        → lookup name states ≡ some running
        → Keeps name
            (execute_all env run_id run def token lease_ms others states w).0
            (execute_all env run_id run def token lease_ms others states w).1
    unfolding execute_all
    execute_all-Keeps [] states w ne h = h
    execute_all-Keeps (n ∷ others) states w ne h =
        bind-Holds (execute_task env run_id run def token lease_ms n states) _ (Keeps name)
          (Keeps name) w (execute_task-Keeps n states w (ne n (inl refl)) h)
          (λ states' w' h'. execute_all-Keeps others states' w' (λ m e. ne m (inr e)) h')
          (λ _ _ _. tt)

    eligible_ne :
        (executed : List String) (states : States) (w : World Json F64)
        → lookup name states ≡ some running
        → (n : String) → Elem n (eligible run def executed states w)
        → n ≢ name
    unfolding eligible
    eligible_ne executed states w h n m same =
        let (m', _) =
          (Elem-filter
              (λ name. not (is_failed (lookup name states)) || budget_left run.id def w.store name)
              n (filter (λ name. not (in_list name executed)) (ready_tasks def states))).0
            m in
        let (ready, _) =
          (Elem-filter (λ name. not (in_list name executed)) n (ready_tasks def states)).0 m' in
        let (task, _, is_task, may) = (ready_tasks_iff states def n).0 ready in
        running_blocked states task (rw (sym is_task) (rw same (rw h refl))) may

    pub attempt_loop-Keeps :
        (fuel : ℕ) (executed : List String) (states : States) (w : World Json F64)
        → lookup name states ≡ some running
        → KeepsEnd name
            (attempt_loop env run_id run def token lease_ms fuel executed states w).0
            (attempt_loop env run_id run def token lease_ms fuel executed states w).1
    unfolding attempt_loop
    attempt_loop-Keeps zero executed states w h = tt
    attempt_loop-Keeps (suc fuel) executed states w h =
        by_run (cancelled_run (get_run run_id w.store)) (eligible run def executed states w)
          (eligible_ne executed states w h) (attempt_loop-Keeps fuel)
      where
        next : List String → States → Exec Json F64 LoopEnd
        next = attempt_loop env run_id run def token lease_ms fuel

        execute : List String → States → Exec Json F64 States
        execute = execute_all env run_id run def token lease_ms

        by_run :
            (c : Option (Run Json))
            → (ready : List String) → ((n : String) → Elem n ready → n ≢ name)
            → ((executed : List String) (states : States) (w : World Json F64)
                → lookup name states ≡ some running
                → KeepsEnd name (next executed states w).0 (next executed states w).1)
            → KeepsEnd name
                (round_checked (round_ready next execute ready executed states) c w).0
                (round_checked (round_ready next execute ready executed states) c w).1
        by_run (some r) ready ne ih = refl
        by_run none [] ne ih = h
        by_run none (n ∷ ns) ne ih =
            bind-Holds (execute (n ∷ ns) states) _ (Keeps name) (KeepsEnd name) w
              (execute_all-Keeps (n ∷ ns) states w ne h)
              (λ states' w' h'. ih ((n ∷ ns) ++ executed) states' w' h') (λ _ _ _. tt)

module _ {Json F64 : Type 0} where
  abbrev TimedOut : Post Json F64 AttemptOutcome
  TimedOut (ok out) w = out.run_status ≡ timed_out
  TimedOut (err e) w = Unit {0}

  -- The deadline of the run has passed at the first look at the clock.
  abbrev pub Late : Env Json F64 → Run Json → World Json F64 → Type 0
  Late env run w = (d : ℤ) × (run.deadline_at_ms ≡ some d) × (d <ℤ env.clock w.ticks)

  -- No end of the run but by its deadline.
  abbrev pub StuckEnd : Env Json F64 → Run Json → World Json F64 → Post Json F64 AttemptOutcome
  StuckEnd env run w (ok out) v =
      (out.run_status ≡ cancelled) ⊎ (Late env run w × (out.run_status ≡ timed_out))
  StuckEnd env run w (err e) v = Unit {0}

  -- No success: an error, or the outcome of a cancelled run.
  abbrev pub NotDone : Post Json F64 AttemptOutcome
  NotDone (ok out) w = out.run_status ≡ cancelled
  NotDone (err e) w = Unit {0}

module _ {Json : Type 0} (float : Float) (random : Random) (env : Env Json float.F64)
    (run_id : String) (run : Run Json) (def : WorkflowDef Json float.F64) where
  finalize-NotDone :
      (name : String) (states : States) (w : World Json float.F64)
      → lookup name states ≡ some running
      → NotDone
          (finalize float random env run def states w).0
          (finalize float random env run def states w).1
  unfolding finalize
  finalize-NotDone name states w h = rw (not_terminal name states h) tt

  conclude-NotDone :
      (name : String) (end : LoopEnd) (w : World Json float.F64)
      → KeepsEnd name (ok end) w
      → NotDone
          (conclude float random env run def end w).0
          (conclude float random env run def end w).1
  conclude-NotDone name (stopped out) w h = h
  conclude-NotDone name (finished states) w h =
      let (collapsed, e, keeps) = pending_to_skip_lem def states in
      rw e (
        bind-Holds (persist_skipped env run.id states collapsed) _ (λ _ _. Unit {0}) NotDone w tt
          (λ _ w' _. finalize-NotDone name collapsed w' (rw (keeps name, h) refl)) (λ _ _ _. tt))

  run_tasks_stuck :
      (token : Option ClaimToken) (lease_ms : ℤ) (name : String) (w : World Json float.F64)
      → lookup name (loaded_states run.id def w.store) ≡ some running
      → NotDone
          (run_tasks float random env run_id run def token lease_ms w).0
          (run_tasks float random env run_id run def token lease_ms w).1
  unfolding run_tasks ◌>>=◌
  run_tasks_stuck token lease_ms name w h =
      bind-Holds
        (attempt_loop env run_id run def token lease_ms (suc (length def.tasks)) []
          (loaded_states run.id def w.store))
        _ (KeepsEnd name) NotDone w
        (attempt_loop-Keeps env name run_id run def token lease_ms (suc (length def.tasks)) []
          (loaded_states run.id def w.store) w h)
        (conclude-NotDone name) (λ _ _ _. tt)

  time_out-Status :
      (w : World Json float.F64)
      → TimedOut (time_out env run_id run w).0 (time_out env run_id run w).1
  unfolding time_out
  time_out-Status w =
      bind-Holds (check_edge RunStatus.running RunStatus.timed_out) _ (λ _ _. Unit {0}) TimedOut w
        tt
        (λ _ w1 _.
          bind-Holds (now_ms env) _ (λ _ _. Unit {0}) TimedOut w1 tt
            (λ now w2 _.
              bind-Holds _ _ (λ _ _. Unit {0}) TimedOut w2 tt (λ _ w3 _. refl) (λ _ _ _. tt))
            (λ _ _ _. tt))
        (λ _ _ _. tt)

  module _ (token : Option ClaimToken) (lease_ms : ℤ) (name : String) (w : World Json float.F64)
      (stuck : lookup name (loaded_states run.id def w.store) ≡ some running) where
    after_tasks :
        (n : ℕ)
        → StuckEnd env run w
            (run_tasks float random env run_id run def token lease_ms (record w { ticks = n })).0
            (run_tasks float random env run_id run def token lease_ms (record w { ticks = n })).1
    after_tasks n =
        let w' = record w { ticks = n } in
        not_done (run_tasks float random env run_id run def token lease_ms w').0
          (run_tasks float random env run_id run def token lease_ms w').1
          (run_tasks_stuck token lease_ms name w' stuck)
      where
        not_done :
            (r : Result ExecutorError AttemptOutcome) (v : World Json float.F64)
            → NotDone r v
            → StuckEnd env run w r v
        not_done (ok out) v h = inl h
        not_done (err e) v h = tt

    -- The look at the clock changes nothing else.
    abbrev Looked : Post Json float.F64 Bool
    Looked (ok true) v = Late env run w
    Looked (ok false) v = (n : ℕ) × (v ≡ record w { ticks = n })
    Looked (err e) v = Unit {0}

    looks :
        (o : Option ℤ)
        → run.deadline_at_ms ≡ o
        → Looked (past_deadline env o w).0 (past_deadline env o w).1
    looks none e = (w.ticks, refl)
    looks (some d) e = elim (Bool-cases (ltb_ℤ d (env.clock w.ticks))) [
      | inr early ↦ rw early (suc w.ticks, refl)
      | inl late ↦ rw late (d, e, ground arith)
    ]

    timed :
        (r : Result ExecutorError AttemptOutcome) (v : World Json float.F64)
        → Late env run w
        → TimedOut r v
        → StuckEnd env run w r v
    timed (ok out) v late h = inr (late, h)
    timed (err e) v late h = tt

    branch :
        (late : Bool) (v : World Json float.F64)
        → Looked (ok late) v
        → StuckEnd env run w
            ((if late
                then time_out env run_id run
                else run_tasks float random env run_id run def token lease_ms)
              v).0
            ((if late
                then time_out env run_id run
                else run_tasks float random env run_id run def token lease_ms)
              v).1
    branch true v late =
        timed (time_out env run_id run v).0 (time_out env run_id run v).1 late (time_out-Status v)
    branch false v (n, same) = rw same (after_tasks n)

    attempt_running_stuck :
        StuckEnd env run w
          (attempt_running float random env run_id run def token lease_ms w).0
          (attempt_running float random env run_id run def token lease_ms w).1
    unfolding attempt_running
    attempt_running_stuck =
        bind-Holds (past_deadline env run.deadline_at_ms) _ Looked (StuckEnd env run w) w
          (looks run.deadline_at_ms refl) branch (λ _ _ _. tt)

module _ {Json : Type 0} (float : Float) (random : Random) (env : Env Json float.F64) where
  -- A run with a task that is stored as running when an attempt starts is never finished by the
  -- attempt, whatever the handlers do: the attempt fails, or it returns the outcome of a cancelled
  -- run, or the run has a deadline that has passed at the attempt's first look at the clock, and it
  -- times out.
  pub attempt_stuck :
      (run_id : String) (run : Run Json) (rec : WorkflowRecord Json float.F64)
      (token : Option ClaimToken) (lease_ms : ℤ) (name : String) (w : World Json float.F64)
      → get_run run_id w.store ≡ ok run
      → get_workflow run.tenant run.def_name w.store ≡ ok rec
      → lookup name (loaded_states run.id rec.def w.store) ≡ some running
      → StuckEnd env run w
          (attempt_with_token float random env run_id token lease_ms w).0
          (attempt_with_token float random env run_id token lease_ms w).1
  unfolding attempt_with_token attempt_found ◌>>=◌
  attempt_stuck run_id run rec token lease_ms name w there found stuck =
      elim (Bool-cases (RunStatus.eq run.status RunStatus.running)) [
        | inl e ↦
            rw (there, found, e)
              (attempt_running_stuck float random env run_id run rec.def token lease_ms name w
                stuck)
        | inr e ↦ elim (Bool-cases (RunStatus.eq run.status RunStatus.cancelled)) [
          | inl c ↦ rw (there, found, e, c) (inl refl)
          | inr c ↦ rw (there, found, e, c) tt
        ]
      ]
