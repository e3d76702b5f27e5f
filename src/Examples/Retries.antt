-- ===== src/Examples/Retries.antt =====
-- Delays and plans of the policy of the examples.
use aegis_fs.Prelude.{◌≤◌, false, true, Option, none, some, ◌≡◌, ◌↔◌, ◌⊎◌, refl, arith}
use aegis_fs.Prelude.Int.{ℤ, pos, ◌+ℤ◌, ◌≤ℤ◌}
use aegis_fs.Domain.RetryPolicy.{no_jitter, validate}
use aegis_fs.Retry.Backoff.{next_attempt_at_ms}
use aegis_fs.Retry.Bounds.{next_attempt_bounds}
use aegis_fs.Examples.Data.{whole, counter, steady}

next_attempt_bounds_example :
    (answer : Option ℤ) × (next_attempt_at_ms whole counter steady 2 true (pos 50) 3 ≡ some answer)
    × ((answer ≡ none) ↔ ((3 ≤ 2) ⊎ ((false ≡ true) × (true ≡ false))))
    × ((t : ℤ)
        → answer ≡ some t
        → (pos 50 ≤ℤ t)
          × (t ≤ℤ pos 50 +ℤ pos 1_000)
          × (no_jitter ≡ no_jitter → pos 50 +ℤ pos 100 ≤ℤ t))
unfolding validate
next_attempt_bounds_example =
    next_attempt_bounds whole counter steady 2 true (pos 50) 3 refl (omega arith, omega arith)
      (omega arith, omega arith)
