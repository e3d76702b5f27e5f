-- ===== src/Scheduler/Executor/Budget.antt =====
-- src/scheduler/executor.rs: when the end of an attempt schedules a retry.
use aegis_fs.Prelude.{
  ◌+◌, ◌<◌, ◌≤◌, ◌⊎◌, ℕ, String, Bool, true, false, Option, none, some, List, [], ◌∷◌, ◌≡◌,
  if◌then◌else◌, Elem-map, Elem-of-map, Elem-filter, all-false, refl, Bool-cases, arith, inl, inr,
  filter, map, all, any, find, Elem, all-true, ◌%◌, ◌^◌,
}
use aegis_fs.Prelude.Eq.{◌==◌, string_eq}
use aegis_fs.Prelude.Float.{Float}
use aegis_fs.Prelude.Map.{values}
use aegis_fs.Prelude.Result.{Result, ok, err}
use aegis_fs.Domain.Run.{Run}
use aegis_fs.Domain.RunStatus.{queued, failed}
use aegis_fs.Domain.TaskStatus
use aegis_fs.Domain.RetryPolicy.{RetryPolicy}
use aegis_fs.Domain.Workflow.{TaskSpec, WorkflowDef, unwrap_or}
use aegis_fs.Persistence.Store.{MemoryState}
use aegis_fs.Retry.Random.{Random}
use aegis_fs.Scheduler.Pick.{States}
use aegis_fs.Scheduler.Executor.{
  Env, Exec, World, ExecutorError, AttemptOutcome, ◌>>=◌, budget_left, load_task, policy_of, named,
}
use aegis_fs.Scheduler.Executor.Holds.{Post, bind-Holds}
use aegis_fs.Scheduler.Executor.Finalize.{
  succeed, fail_run, retry_later, finalize, has_failed, message_of, retry_allowed,
}

module _ {Json F64 : Type 0} where
  -- A run goes back to the queue only with the permission, and fails only without it.
  abbrev Permitted : Bool → Post Json F64 AttemptOutcome
  Permitted allowed (ok out) w =
      (out.run_status ≡ queued → allowed ≡ true) × (out.run_status ≡ failed → allowed ≡ false)
  Permitted allowed (err e) w = Unit {0}

  from_Permitted :
      {allowed : Bool} (r : Result ExecutorError AttemptOutcome) (w : World Json F64)
      (out : AttemptOutcome)
      → Permitted allowed r w
      → r ≡ ok out
      → (out.run_status ≡ queued → allowed ≡ true) × (out.run_status ≡ failed → allowed ≡ false)
  from_Permitted (ok a) w out h e = (λ q. h.0 (ground arith), λ q. h.1 (ground arith))
  from_Permitted (err x) w out h e = absurd (ground arith)

  then-Permitted :
      {A : Type 0} (allowed : Bool) (m : Exec Json F64 A) (f : A → Exec Json F64 AttemptOutcome)
      → ((a : A) (w' : World Json F64) → Permitted allowed (f a w').0 (f a w').1)
      → (w : World Json F64) → Permitted allowed ((m >>= f) w).0 ((m >>= f) w).1
  then-Permitted allowed m f h w =
      bind-Holds m f (λ _ _. Unit {0}) (Permitted allowed) w tt (λ a w' _. h a w') (λ _ _ _. tt)

  succeed-Permitted :
      (allowed : Bool) (env : Env Json F64) (run : Run Json) (w : World Json F64)
      → Permitted allowed (succeed env run w).0 (succeed env run w).1
  unfolding succeed
  succeed-Permitted allowed env run = then-Permitted allowed _ _ λ _.
      then-Permitted allowed _ _
        λ _. then-Permitted allowed _ _ λ _ w. (λ e. absurd (cc e), λ e. absurd (cc e))

  fail_run-Permitted :
      (env : Env Json F64) (run : Run Json) (reason : String) (failing : List String)
      (w : World Json F64)
      → Permitted false (fail_run env run reason failing w).0 (fail_run env run reason failing w).1
  unfolding fail_run
  fail_run-Permitted env run reason failing = then-Permitted false _ _ λ _.
      then-Permitted false _ _ λ _. then-Permitted false _ _ λ _ w. (λ e. absurd (cc e), λ e. refl)

-- The failed tasks.
failing-of :
    (name : String) (states : States)
    → Elem (name, TaskStatus.failed) states
    → Elem name (map (λ entry. entry.0) (filter has_failed states))
failing-of name states m =
    Elem-map (λ entry. entry.0) (name, TaskStatus.failed) (filter has_failed states)
      ((Elem-filter has_failed (name, TaskStatus.failed) states).1 (m, refl))

is_failure :
    (s : TaskStatus.TaskStatus) → TaskStatus.eq s TaskStatus.failed ≡ true → s ≡ TaskStatus.failed
is_failure TaskStatus.failed h = refl
is_failure TaskStatus.pending h = absurd (cc)
is_failure TaskStatus.running h = absurd (cc)
is_failure TaskStatus.succeeded h = absurd (cc)
is_failure TaskStatus.skipped h = absurd (cc)

failing-to :
    (name : String) (states : States)
    → Elem name (map (λ entry. entry.0) (filter has_failed states))
    → Elem (name, TaskStatus.failed) states
failing-to name states m =
    let (entry, n, e) = Elem-of-map (λ entry. entry.0) name (filter has_failed states) m in
    let (there, h) = (Elem-filter has_failed entry states).0 n in
    rw (e, ← is_failure entry.1 h) there

-- The limit on the attempts of a task: of its own policy, or of the definition's.
abbrev own_limit : {F64 : Type 0} → RetryPolicy F64 → Option (RetryPolicy F64) → ℕ
own_limit policy none = policy.max_attempts
own_limit policy (some own) = own.max_attempts

unwrap-limit :
    {F64 : Type 0} (policy : RetryPolicy F64) (own : Option (RetryPolicy F64))
    → (unwrap_or own policy).max_attempts ≡ own_limit policy own
unwrap-limit policy none = refl
unwrap-limit policy (some own) = refl

module _ {Json F64 : Type 0} where
  abbrev pub task_limit : RetryPolicy F64 → String → List (TaskSpec Json F64) → ℕ
  task_limit policy name [] = policy.max_attempts
  task_limit policy name (t ∷ tasks) =
      if t.name == name then own_limit policy t.retry else task_limit policy name tasks

  limit_same :
      (def : WorkflowDef Json F64) (name : String) (tasks : List (TaskSpec Json F64))
      → (policy_of def (find (named name) tasks)).max_attempts ≡ task_limit def.retry name tasks
  limit_same def name [] = refl
  limit_same def name (t ∷ tasks) = elim (Bool-cases (t.name == name)) [
    | inl e ↦ rw e (unwrap-limit def.retry t.retry)
    | inr e ↦ rw e (limit_same def name tasks)
  ]

  budget_left-lt :
      (run_id : String) (def : WorkflowDef Json F64) (s : MemoryState Json F64) (name : String)
      → budget_left run_id def s name ≡ true
      → (load_task run_id name s).attempts < task_limit def.retry name def.tasks
  budget_left-lt run_id def s name h = let same = limit_same def name def.tasks in ground arith

  budget_left-le :
      (run_id : String) (def : WorkflowDef Json F64) (s : MemoryState Json F64) (name : String)
      → budget_left run_id def s name ≡ false
      → task_limit def.retry name def.tasks ≤ (load_task run_id name s).attempts
  budget_left-le run_id def s name h = let same = limit_same def name def.tasks in ground arith

module _ {Json : Type 0} (float : Float) (random : Random) (env : Env Json float.F64) where
  retry_later-Permitted :
      (run : Run Json) (def : WorkflowDef Json float.F64) (failing : List String)
      (w : World Json float.F64)
      → Permitted true
          (retry_later float random env run def failing w).0
          (retry_later float random env run def failing w).1
  unfolding retry_later
  retry_later-Permitted run def failing = then-Permitted true _ _ λ _. then-Permitted true _ _ λ _.
      then-Permitted true _ _ λ _. then-Permitted true _ _ λ _.
        then-Permitted true _ _ λ _. then-Permitted true _ _ λ _ w. (λ e. refl, λ e. absurd (cc e))

  finalize-Permitted :
      (run : Run Json) (def : WorkflowDef Json float.F64) (states : States)
      (w : World Json float.F64)
      → Permitted
          (retry_allowed float random run def (map (λ entry. entry.0) (filter has_failed states)) w)
          (finalize float random env run def states w).0
          (finalize float random env run def states w).1
  unfolding finalize
  finalize-Permitted run def states w =
      let failing = map (λ entry. entry.0) (filter has_failed states) in
      elim (Bool-cases (all TaskStatus.is_terminal (values states))) [
        | inr unfinished ↦ rw unfinished tt
        | inl closed ↦ elim (Bool-cases (any has_failed states)) [
          | inr clean ↦ rw (closed, clean) (succeed-Permitted _ env run w)
          | inl broken ↦ elim (Bool-cases (retry_allowed float random run def failing w)) [
            | inl more ↦ rw (closed, broken, more) (retry_later-Permitted run def failing w)
            | inr spent ↦
                rw (closed, broken, spent)
                  (fail_run-Permitted env run (message_of run w (find has_failed states)) failing w)
          ]
        ]
      ]

  -- When `finalize` returns an outcome, the run goes back to the queue only if the attempts that it
  -- has made, counted in 32 bits, are fewer than its policy allows, and each of its failed tasks has
  -- fewer attempts in the store than the policy of the task, or else of the definition, allows; and
  -- the run is failed only if its attempts, or those of one of its failed tasks, have reached that
  -- limit.
  pub finalize_budget :
      (run : Run Json) (def : WorkflowDef Json float.F64) (states : States)
      (w : World Json float.F64) (out : AttemptOutcome)
      → (finalize float random env run def states w).0 ≡ ok out
      → (out.run_status ≡ queued
          → ((run.attempts + 1) % 2 ^ 32 < def.retry.max_attempts)
            × ((name : String)
                → Elem (name, TaskStatus.failed) states
                → (load_task run.id name w.store).attempts < task_limit def.retry name def.tasks))
        × (out.run_status ≡ failed
            → (def.retry.max_attempts ≤ (run.attempts + 1) % 2 ^ 32)
              ⊎ ((name : String) × Elem (name, TaskStatus.failed) states
                  × (task_limit def.retry name def.tasks
                      ≤ (load_task run.id name w.store).attempts)))
  finalize_budget run def states w out e =
      let failing = map (λ entry. entry.0) (filter has_failed states) in
      let left = budget_left run.id def w.store in
      let (more, spent) =
        from_Permitted (finalize float random env run def states w).0
          (finalize float random env run def states w).1 out (finalize-Permitted run def states w)
          e in
      (
        λ q.
            let allowed = more q in
            (
              ground arith,
              λ name m.
                  let has = all-true left name failing (ground arith) (failing-of name states m) in
                  budget_left-lt run.id def w.store name has,
            ),
        λ q.
            let refused = spent q in
            elim (Bool-cases (all left failing)) [
              | inl e ↦ inl (ground arith)
              | inr e ↦
                  let (name, m, used) = all-false left failing e in
                  inr (name, failing-to name states m, budget_left-le run.id def w.store name used)
            ],
      )
