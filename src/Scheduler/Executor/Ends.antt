-- ===== src/Scheduler/Executor/Ends.antt =====
-- src/scheduler/executor.rs: the outcome of an attempt against the run that it leaves in the store.
use aegis_fs.Prelude.{String, true, some, List, ◌≡◌, refl, arith, map, filter, find}
use aegis_fs.Prelude.Eq.{string_eq, eq_refl}
use aegis_fs.Prelude.Float.{Float}
use aegis_fs.Prelude.Map.{Map, insert, lookup, lookup-insert}
use aegis_fs.Prelude.Result.{ok, err}
use aegis_fs.Domain.Run.{Run}
use aegis_fs.Domain.RunStatus
use aegis_fs.Domain.Workflow.{WorkflowDef}
use aegis_fs.Persistence.Records.{put_run}
use aegis_fs.Retry.Random.{Random}
use aegis_fs.Scheduler.Pick.{States}
use aegis_fs.Scheduler.Executor.{
  Env, Exec, World, AttemptOutcome, RunAction, ack, release, modify, pure, ◌>>=◌, ◌>>◌,
}
use aegis_fs.Scheduler.Executor.Holds.{Post, bind-Holds}
use aegis_fs.Scheduler.Executor.Finalize.{
  succeed, fail_run, retry_later, finalize, has_failed, message_of,
}
use aegis_fs.Scheduler.Executor.Attempt.{time_out}

module _ {Json : Type 0} where
  -- What the action asks of the driver fits the stored run.
  abbrev pub Disposed : RunAction → Run Json → Type 0
  Disposed ack r = RunStatus.is_terminal r.status ≡ true
  Disposed (release release_at_ms) r =
      (r.status ≡ RunStatus.queued) × (r.next_attempt_at_ms ≡ some release_at_ms)

  -- The stored run has the outcome's status, and the action fits it.
  abbrev pub Left : String → AttemptOutcome → Map String (Run Json) → Type 0
  Left id out runs =
      (r : Run Json) × (lookup id runs ≡ some r)
      × (r.status ≡ out.run_status)
      × Disposed out.action r

  lookup-put :
      (r : Run Json) (runs : Map String (Run Json)) → lookup r.id (insert r.id r runs) ≡ some r
  lookup-put r runs = ground (arith, lookup-insert r.id r.id r runs, eq_refl r.id)

module _ {Json F64 : Type 0} where
  abbrev pub Ended : String → Post Json F64 AttemptOutcome
  Ended id (ok out) w = Left id out w.store.runs
  Ended id (err e) w = Unit {0}

  -- The write at the end of each branch.
  put-Ended :
      (r : Run Json) (out : AttemptOutcome)
      → (r.status ≡ out.run_status)
      → Disposed out.action r
      → (w : World Json F64)
      → Ended r.id ((modify (put_run r) >> pure out) w).0 ((modify (put_run r) >> pure out) w).1
  unfolding put_run ◌>>=◌
  put-Ended r out e d w = (r, lookup-put r w.store.runs, e, d)

  -- A step that is followed by such a write.
  then-Ended :
      {A : Type 0} (id : String) (m : Exec Json F64 A) (f : A → Exec Json F64 AttemptOutcome)
      → ((a : A) (w' : World Json F64) → Ended id (f a w').0 (f a w').1)
      → (w : World Json F64) → Ended id ((m >>= f) w).0 ((m >>= f) w).1
  then-Ended id m f h w =
      bind-Holds m f (λ _ _. Unit {0}) (Ended id) w tt (λ a w' _. h a w') (λ _ _ _. tt)

  succeed-Ended :
      (env : Env Json F64) (run : Run Json) (w : World Json F64)
      → Ended run.id (succeed env run w).0 (succeed env run w).1
  unfolding succeed
  succeed-Ended env run =
      then-Ended run.id _ _ λ _. then-Ended run.id _ _ λ now. put-Ended _ _ refl refl

  fail_run-Ended :
      (env : Env Json F64) (run : Run Json) (reason : String) (failing : List String)
      (w : World Json F64)
      → Ended run.id (fail_run env run reason failing w).0 (fail_run env run reason failing w).1
  unfolding fail_run
  fail_run-Ended env run reason failing =
      then-Ended run.id _ _ λ _. then-Ended run.id _ _ λ now. put-Ended _ _ refl refl

  pub time_out-Ended :
      (env : Env Json F64) (run_id : String) (run : Run Json) (w : World Json F64)
      → Ended run.id (time_out env run_id run w).0 (time_out env run_id run w).1
  unfolding time_out
  time_out-Ended env run_id run =
      then-Ended run.id _ _ λ _. then-Ended run.id _ _ λ now. put-Ended _ _ refl refl

module _ {Json : Type 0} (float : Float) (random : Random) where
  open float use {F64}

  retry_later-Ended :
      (env : Env Json F64) (run : Run Json) (def : WorkflowDef Json F64) (failing : List String)
      (w : World Json F64)
      → Ended run.id
          (retry_later float random env run def failing w).0
          (retry_later float random env run def failing w).1
  unfolding retry_later
  retry_later-Ended env run def failing = then-Ended run.id _ _ λ _. then-Ended run.id _ _ λ _.
      then-Ended run.id _ _ λ now.
        then-Ended run.id _ _
          λ fallback. then-Ended run.id _ _ λ delay. put-Ended _ _ refl (refl, refl)

  pub finalize-Ended :
      (env : Env Json F64) (run : Run Json) (def : WorkflowDef Json F64) (states : States)
      (w : World Json F64)
      → Ended run.id
          (finalize float random env run def states w).0
          (finalize float random env run def states w).1
  unfolding finalize
  finalize-Ended env run def states w = ground (
    arith,
    succeed-Ended env run w,
    retry_later-Ended env run def (map (λ entry. entry.0) (filter has_failed states)) w,
    fail_run-Ended env run (message_of run w (find has_failed states))
        (map (λ entry. entry.0) (filter has_failed states)) w,
  )
