-- ===== src/Retry/Bounds.antt =====
-- Bounds on the delays of a validated policy, whatever the floating-point operations return.
use aegis_fs.Prelude.{
  refl, Bool-cases, ℕ, ◌-◌, ◌/◌, ◌≤◌, ◌<◌, ◌≡◌, ◌≢◌, ◌⊎◌, inl, inr, min, max, Bool, true, false,
  Option, none, some, arith, ◌↔◌,
}
use aegis_fs.Prelude.Float.{Float}
use aegis_fs.Prelude.Int.{ℤ, ◌≤ℤ◌, ◌<ℤ◌, leb_ℤ, ◌+ℤ◌, pos, negsuc, InI64, saturating_add, as_i64}
use aegis_fs.Prelude.Result.{ok}
use aegis_fs.Domain.FailureKind.{FailureKind, retryable}
use aegis_fs.Domain.RetryPolicy.{
  RetryPolicy, JitterKind, no_jitter, full, equal, max_backoff_ms, validate,
}
use aegis_fs.Retry.Random.{Random}
use aegis_fs.Retry.Backoff.{
  raw_delay, jittered, next, should_retry, raw_of_kind, next_attempt_at_ms,
}
use aegis_fs.Retry.Planner.{RetryPlan, give_up, retry_now, retry_at, plan, plan_at}

-- What `validate` accepts, of the fields that the delays read.
pub record IsSane {F64 : Type 0} (p : RetryPolicy F64) : Type 0 where
  pub attempts_pos : 0 < p.max_attempts
  pub attempts_capped : p.max_attempts ≤ 100
  pub base_pos : 0 < p.base_delay_ms
  pub base-le-max : p.base_delay_ms ≤ p.max_delay_ms
  pub max_capped : p.max_delay_ms ≤ max_backoff_ms

-- A delay of at most a day neither wraps in the cast nor saturates in the sum.
delay_sum :
    (now : ℤ) (delay cap : ℕ)
    → delay ≤ cap
    → cap ≤ max_backoff_ms
    → InI64 now
    → InI64 (now +ℤ pos cap)
    → (now ≤ℤ saturating_add now (as_i64 delay))
      × (saturating_add now (as_i64 delay) ≤ℤ now +ℤ pos cap)
      × (saturating_add now (as_i64 delay) ≡ now +ℤ pos delay)
delay_sum (pos n) delay cap h k lo hi = ground arith
delay_sum (negsuc n) delay cap h k lo hi = ground arith

shift : (now : ℤ) {a b : ℕ} → a ≤ b → now +ℤ pos a ≤ℤ now +ℤ pos b
shift (pos n) h = ground arith
shift (negsuc n) h = ground arith

later : (now : ℤ) (b : ℕ) (t : ℤ) → now +ℤ pos b ≤ℤ t → 0 < b → leb_ℤ t now ≡ true → ⊥
later (pos n) b (pos t) h p q = ground arith
later (pos n) b (negsuc t) h p q = ground arith
later (negsuc n) b (pos t) h p q = ground arith
later (negsuc n) b (negsuc t) h p q = ground arith

module _ (float : Float) where
  pub validate-IsSane : (p : RetryPolicy float.F64) → validate float p ≡ ok tt → IsSane p
  unfolding validate
  validate-IsSane p h = ground arith

  -- For a validated policy the raw delay of any attempt exists (the `clamp` does not panic) and lies
  -- between the base delay and the largest delay.
  pub raw_delay_bounds :
      (p : RetryPolicy float.F64) (attempt_index : ℕ)
      → validate float p ≡ ok tt
      → (raw : ℕ) × (raw_delay float p attempt_index ≡ some raw)
        × (p.base_delay_ms ≤ raw)
        × (raw ≤ p.max_delay_ms)
  unfolding raw_delay
  raw_delay_bounds p attempt_index v =
      let s = validate-IsSane p v in
      (
        max p.base_delay_ms
            (min (raw_of_kind float p.backoff p attempt_index) (min p.max_delay_ms max_backoff_ms)),
        ground (arith, s.base-le-max, s.max_capped),
        omega arith,
        omega (arith, s.base-le-max, s.max_capped),
      )

  module _ (random : Random) where
    -- The jittered delay of a positive raw delay: without jitter the raw delay itself, with full
    -- jitter at most that, and with equal jitter between half of it and all of it.
    pub jittered_bounds :
        (kind : JitterKind) (raw : ℕ) (rng : random.Rng)
        → 0 < raw
        → ((jittered float random kind raw rng).0 ≤ raw)
          × (kind ≡ no_jitter → (jittered float random kind raw rng).0 ≡ raw)
          × (kind ≡ equal → raw / 2 ≤ (jittered float random kind raw rng).0)
    unfolding jittered
    jittered_bounds no_jitter raw rng h = ground arith
    jittered_bounds full raw rng h = ground (arith, random.gen_range-le (max raw 1) rng)
    jittered_bounds equal raw rng h = ground (arith, random.gen_range-le (max (raw / 2) 1) rng)

    -- The delay of a validated policy.
    next_bounds :
        (p : RetryPolicy float.F64) (attempt_index : ℕ) (rng : random.Rng)
        → validate float p ≡ ok tt
        → (delay : ℕ) × (rng' : random.Rng) × (next float random p attempt_index rng
            ≡ some (delay, rng'))
          × (delay ≤ p.max_delay_ms)
          × (p.jitter ≡ no_jitter → p.base_delay_ms ≤ delay)
    unfolding next
    next_bounds p i rng v =
        let (raw, e, lower, upper) = raw_delay_bounds p i v in
        let s = validate-IsSane p v in
        let b = jittered_bounds p.jitter raw rng (omega (arith, s.base_pos)) in
        (
          (jittered float random p.jitter raw rng).0,
          (jittered float random p.jitter raw rng).1,
          rw (e, next),
          omega (arith, b.0),
          λ q. omega (arith, b.1 q),
        )

    -- For a validated policy the time of the next attempt is absent exactly when the budget is used
    -- up or the failure may not be retried; and if now and now plus the largest delay fit in 64 bits,
    -- a time lies between these two, and, without jitter, at or after now plus the base delay.
    pub next_attempt_bounds :
        (p : RetryPolicy float.F64) (attempts : ℕ) (failure_retryable : Bool) (now : ℤ) (seed : ℕ)
        → validate float p ≡ ok tt
        → InI64 now
        → InI64 (now +ℤ pos p.max_delay_ms)
        → (answer : Option ℤ) × (next_attempt_at_ms float random p attempts failure_retryable now
              seed
            ≡ some answer)
          × ((answer ≡ none) ↔ (
              (p.max_attempts ≤ attempts)
              ⊎ ((p.retryable_only ≡ true) × (failure_retryable ≡ false))))
          × ((t : ℤ)
              → answer ≡ some t
              → (now ≤ℤ t)
                × (t ≤ℤ now +ℤ pos p.max_delay_ms)
                × (p.jitter ≡ no_jitter → now +ℤ pos p.base_delay_ms ≤ℤ t))
    unfolding next_attempt_at_ms
    next_attempt_bounds p attempts failure_retryable now seed v lo hi =
        let (delay, rng', e, upper, lower) =
          next_bounds p (attempts - 1) (random.seed_from_u64 seed) v in
        let s = validate-IsSane p v in
        elim (Bool-cases (should_retry float random p attempts failure_retryable)) [
          | inl h ↦ (
            some (saturating_add now (as_i64 delay)),
            rw (h, e),
            (λ q. absurd (cc), λ q. absurd (ground arith)),
            λ t q.
                let sum = delay_sum now delay p.max_delay_ms upper s.max_capped lo hi in
                let found : saturating_add now (as_i64 delay) ≡ t = cc in
                (
                  rw (← found) sum.0,
                  rw (← found) sum.1,
                  λ j. rw (← found, sum.2) (shift now (lower j)),
                ),
          )
          | inr h ↦ (none, rw h, (λ q. ground arith, λ q. refl), λ t q. absurd (cc))
        ]

    -- With a validated policy, and if now and now plus the largest delay fit in 64 bits, the planner
    -- gives up exactly when the budget is used up or the failure may not be retried; a planned time is
    -- after now, by the largest delay at most; and without jitter the planner never retries at once.
    pub plan_cases :
        (p : RetryPolicy float.F64) (now : ℤ) (seed attempts : ℕ) (kind : FailureKind)
        → validate float p ≡ ok tt
        → InI64 now
        → InI64 (now +ℤ pos p.max_delay_ms)
        → (r : RetryPlan) × (plan float random p now seed attempts kind ≡ some r)
          × ((r ≡ give_up) ↔ (
              (p.max_attempts ≤ attempts) ⊎ ((p.retryable_only ≡ true) × (retryable kind ≡ false))))
          × ((t : ℤ) → r ≡ retry_at t → (now <ℤ t) × (t ≤ℤ now +ℤ pos p.max_delay_ms))
          × (p.jitter ≡ no_jitter → r ≢ retry_now)
    unfolding plan
    plan_cases p now seed attempts kind v lo hi =
        let (answer, e, absent, bounds) =
          next_attempt_bounds p attempts (retryable kind) now seed v lo hi in
        let s = validate-IsSane p v in
        (
          plan_at now answer,
          rw e,
          gives_up answer absent,
          λ t q. planned answer bounds t q,
          λ j q. not_now answer bounds j q s.base_pos,
        )
      where
        gives_up :
            (answer : Option ℤ) {X : Type 0}
            → (answer ≡ none) ↔ X
            → (plan_at now answer ≡ give_up) ↔ X
        gives_up none h = (λ q. h.0 refl, λ x. refl)
        gives_up (some t) h = (λ q. absurd (ground arith), λ x. absurd (cc (h.1 x)))

        planned :
            (answer : Option ℤ)
            → ((t : ℤ)
                → answer ≡ some t
                → (now ≤ℤ t)
                  × (t ≤ℤ now +ℤ pos p.max_delay_ms)
                  × (p.jitter ≡ no_jitter → now +ℤ pos p.base_delay_ms ≤ℤ t))
            → (t : ℤ) → plan_at now answer ≡ retry_at t
            → (now <ℤ t) × (t ≤ℤ now +ℤ pos p.max_delay_ms)
        planned none h t q = absurd (cc)
        planned (some u) h t q = ground (arith, (h u refl).1)

        not_now :
            (answer : Option ℤ)
            → ((t : ℤ)
                → answer ≡ some t
                → (now ≤ℤ t)
                  × (t ≤ℤ now +ℤ pos p.max_delay_ms)
                  × (p.jitter ≡ no_jitter → now +ℤ pos p.base_delay_ms ≤ℤ t))
            → p.jitter ≡ no_jitter
            → plan_at now answer ≡ retry_now
            → 0 < p.base_delay_ms
            → ⊥
        not_now none h j q b = absurd (cc)
        not_now (some u) h j q b = later now p.base_delay_ms u ((h u refl).2 j) b (ground arith)
