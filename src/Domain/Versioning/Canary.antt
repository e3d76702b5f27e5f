-- ===== src/Domain/Versioning/Canary.antt =====
-- src/domain/versioning.rs: which keys a canary takes.
use aegis_fs.Prelude.{ℕ, ◌%◌, ◌≤◌, ◌<◌, List, ◌≡◌, ◌≢◌, ◌↔◌, arith}
use aegis_fs.Domain.Versioning.{canary_policy, select_version_by_key, fnv, fnv_offset}

module _ (baseline canary weight : ℕ) (key : List ℕ) where
  -- A policy whose two versions differ sends a key to the canary exactly when the bucket of the key,
  -- its hash modulo 100, lies below the weight, and to the baseline otherwise; a raised weight keeps
  -- every key on the canary that was there.
  pub canary_lem :
      baseline ≢ canary
      → ((select_version_by_key (canary_policy baseline canary weight) key ≡ canary)
          ↔ (fnv fnv_offset key % 100 < weight))
        × ((select_version_by_key (canary_policy baseline canary weight) key ≡ baseline)
            ↔ (weight ≤ fnv fnv_offset key % 100))
        × ((more : ℕ)
            → weight ≤ more
            → select_version_by_key (canary_policy baseline canary weight) key ≡ canary
            → select_version_by_key (canary_policy baseline canary more) key ≡ canary)
  unfolding select_version_by_key canary_policy
  canary_lem differ =
      ((ground arith, ground arith), (ground arith, ground arith), λ more le same. ground arith)
