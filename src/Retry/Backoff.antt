-- ===== src/Retry/Backoff.antt =====
-- src/retry/backoff.rs: the delay curve, the jitter and the time of the next attempt.
use aegis_fs.Prelude.{
  ℕ, ◌+◌, ◌-◌, ◌/◌, ◌^◌, min, max, Bool, not, ◌&&◌, ◌||◌, Option, none, some, ltb, if◌then◌else◌,
}
use aegis_fs.Prelude.Float.{Float}
use aegis_fs.Prelude.Int.{ℤ, saturating_add, as_i64}
use aegis_fs.Domain.RetryPolicy.{
  RetryPolicy, fixed, linear, exponential, no_jitter, full, equal, max_backoff_ms, allows_attempt,
  BackoffKind, JitterKind,
}
use aegis_fs.Retry.Random.{Random}

-- `u64::saturating_add`.
abbrev pub saturating_add_u64 : ℕ → ℕ → ℕ
saturating_add_u64 a b = min (a + b) (2 ^ 64 - 1)

-- `u32::saturating_sub`, which ℕ's subtraction is.
abbrev pub saturating_sub_u32 : ℕ → ℕ → ℕ
saturating_sub_u32 a b = a - b

-- `Ord::clamp`, which panics on an empty range.
abbrev pub clamp : ℕ → ℕ → ℕ → Option ℕ
clamp x lo hi = if ltb hi lo then none else some (max lo (min x hi))

module _ (float : Float) where
  open float use {F64, le_one, ge_zero, is_finite, of_nat, sub, mul, powf, to_u64, one}

  abbrev pub delay_cap : RetryPolicy F64 → ℕ
  delay_cap p = min p.max_delay_ms max_backoff_ms

  abbrev pub raw_linear : RetryPolicy F64 → ℕ → ℕ
  raw_linear p attempt_index =
      let growth = p.multiplier in
      if le_one growth
      then p.base_delay_ms
      else let step = mul (mul (of_nat p.base_delay_ms) (sub growth one)) (of_nat attempt_index) in
        if is_finite step && ge_zero step
        then saturating_add_u64 p.base_delay_ms (to_u64 step)
        else delay_cap p

  abbrev pub raw_exponential : RetryPolicy F64 → ℕ → ℕ
  raw_exponential p attempt_index =
      let growth = p.multiplier in
      if le_one growth
      then p.base_delay_ms
      else let val = mul (of_nat p.base_delay_ms) (powf growth (of_nat attempt_index)) in
        if is_finite val && ge_zero val then min (to_u64 val) (delay_cap p) else delay_cap p

  abbrev pub raw_of_kind : BackoffKind → RetryPolicy F64 → ℕ → ℕ
  raw_of_kind fixed p attempt_index = p.base_delay_ms
  raw_of_kind linear p attempt_index = raw_linear p attempt_index
  raw_of_kind exponential p attempt_index = raw_exponential p attempt_index

  -- `none` is the panic of `clamp`.
  unfoldable pub raw_delay : RetryPolicy F64 → ℕ → Option ℕ
  raw_delay p attempt_index =
      clamp (raw_of_kind p.backoff p attempt_index) p.base_delay_ms (delay_cap p)

  module _ (random : Random) where
    open random use {Rng, seed_from_u64, gen_range}

    -- The value of `next` for a raw delay, with the generator's new state.
    unfoldable pub jittered : JitterKind → ℕ → Rng → ℕ × Rng
    jittered no_jitter raw rng = (raw, rng)
    jittered full raw rng = gen_range (max raw 1) rng
    jittered equal raw rng =
        let half = raw / 2 in let (drawn, rng') = gen_range (max half 1) rng in (half + drawn, rng')

    unfoldable pub next : RetryPolicy F64 → ℕ → Rng → Option (ℕ × Rng)
    unfolding jittered raw_delay
    next p attempt_index rng = elim (raw_delay p attempt_index) [
      | none ↦ none
      | some raw ↦ some (jittered p.jitter raw rng)
    ]

    abbrev pub should_retry : RetryPolicy F64 → ℕ → Bool → Bool
    should_retry p attempts failure_retryable =
        allows_attempt p attempts && (not p.retryable_only || failure_retryable)

    -- The outer `none` is a panic, the inner one the source's `None`.
    unfoldable pub next_attempt_at_ms : RetryPolicy F64 → ℕ → Bool → ℤ → ℕ → Option (Option ℤ)
    unfolding next
    next_attempt_at_ms p attempts failure_retryable now_ms seed =
        if not (should_retry p attempts failure_retryable)
        then some none
        else elim (next p (saturating_sub_u32 attempts 1) (seed_from_u64 seed)) [
          | none ↦ none
          | some (delay, _) ↦ some (some (saturating_add now_ms (as_i64 delay)))
        ]
