-- ===== src/Retry/Planner.antt =====
-- src/retry/mod.rs: the planner.
use aegis_fs.Prelude.{ℕ, Option, none, some, if◌then◌else◌}
use mathlib.Core.Option
use aegis_fs.Prelude.Float.{Float}
use aegis_fs.Prelude.Int.{ℤ, leb_ℤ}
use aegis_fs.Domain.FailureKind.{FailureKind, retryable}
use aegis_fs.Domain.RetryPolicy.{RetryPolicy}
use aegis_fs.Retry.Random.{Random}
use aegis_fs.Retry.Backoff.{next_attempt_at_ms}

pub data RetryPlan : Type 0 where
  give_up retry_now : RetryPlan
  retry_at : ℤ → RetryPlan

-- The match at the end of `plan`.
abbrev pub plan_at : ℤ → Option ℤ → RetryPlan
plan_at now none = give_up
plan_at now (some t) = if leb_ℤ t now then retry_now else retry_at t

module _ (float : Float) (random : Random) where
  -- `none` is the panic of `clamp`.
  unfoldable pub plan :
      RetryPolicy float.F64 → (now : ℤ) (seed attempts : ℕ) → FailureKind → Option RetryPlan
  unfolding next_attempt_at_ms
  plan policy now seed attempts kind =
      Option.map (plan_at now)
        (next_attempt_at_ms float random policy attempts (retryable kind) now seed)
