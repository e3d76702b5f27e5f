-- ===== src/Retry/Random.antt =====
-- The seedable generator of the crates `rand` and `rand_chacha`, with what the code relies on: a
-- number drawn from an inclusive range lies in it.
use aegis_fs.Prelude.{ℕ, ◌≤◌}

pub record Random : Type 1 where
  pub Rng : Type 0
  pub seed_from_u64 : ℕ → Rng
  pub gen_range : ℕ → Rng → ℕ × Rng  -- `rng.gen_range(0..=n)`
  pub gen_range-le : (n : ℕ) (rng : Rng) → (gen_range n rng).0 ≤ n
