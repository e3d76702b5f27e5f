-- ===== src/Domain/RetryPolicy.antt =====
-- src/domain/retry_policy.rs: the configuration of retries, over the type of `f64`.
use aegis_fs.Prelude.{ℕ, Bool, false, not, ◌||◌, ltb, eqb, if◌then◌else◌}
use aegis_fs.Prelude.Float.{Float}
use aegis_fs.Prelude.Result.{Result, ok, err}

abbrev pub max_attempts_limit : ℕ
max_attempts_limit = 100

abbrev pub max_backoff_ms : ℕ
max_backoff_ms = 86_400_000

pub data BackoffKind : Type 0 where
  fixed linear exponential : BackoffKind

pub data JitterKind : Type 0 where
  no_jitter full equal : JitterKind

pub record RetryPolicy (F64 : Type 0) : Type 0 where
  pub max_attempts : ℕ  -- u32
  pub base_delay_ms : ℕ  -- u64
  pub max_delay_ms : ℕ  -- u64
  pub multiplier : F64
  pub backoff : BackoffKind
  pub jitter : JitterKind
  pub retryable_only : Bool

pub data PolicyError (F64 : Type 0) : Type 0 where
  bad_attempts zero_base_delay delay_over_ceiling : ℕ → PolicyError F64
  max_below_base : (max base : ℕ) → PolicyError F64
  bad_multiplier : F64 → PolicyError F64

module _ (float : Float) where
  open float use {F64, one, two, lt_one, is_finite}

  abbrev pub default_policy : RetryPolicy F64
  default_policy = record {
    max_attempts = 3;
    base_delay_ms = 1_000;
    max_delay_ms = 60_000;
    multiplier = two;
    backoff = exponential;
    jitter = full;
    retryable_only = false;
  }

  unfoldable pub fixed_policy : ℕ → ℕ → RetryPolicy F64
  fixed_policy attempts delay_ms = record {
    max_attempts = attempts;
    base_delay_ms = delay_ms;
    max_delay_ms = delay_ms;
    multiplier = one;
    backoff = fixed;
    jitter = no_jitter;
    retryable_only = false;
  }

  unfoldable pub exponential_policy : ℕ → ℕ → ℕ → RetryPolicy F64
  exponential_policy max_attempts base_delay_ms max_delay_ms = record {
    max_attempts = max_attempts;
    base_delay_ms = base_delay_ms;
    max_delay_ms = max_delay_ms;
    multiplier = two;
    backoff = exponential;
    jitter = full;
    retryable_only = false;
  }

  unfoldable pub validate : RetryPolicy F64 → Result (PolicyError F64) (Unit {0})
  validate p =
      if eqb p.max_attempts 0 || ltb max_attempts_limit p.max_attempts
      then err (bad_attempts p.max_attempts)
      else if eqb p.base_delay_ms 0
      then err (zero_base_delay p.base_delay_ms)
      else if ltb p.max_delay_ms p.base_delay_ms
      then err (max_below_base p.max_delay_ms p.base_delay_ms)
      else if ltb max_backoff_ms p.max_delay_ms
      then err (delay_over_ceiling p.max_delay_ms)
      else if not (is_finite p.multiplier) || lt_one p.multiplier
      then err (bad_multiplier p.multiplier)
      else ok tt

module _ {F64 : Type 0} where
  abbrev pub allows_attempt : RetryPolicy F64 → ℕ → Bool
  allows_attempt p attempts_consumed = ltb attempts_consumed p.max_attempts
