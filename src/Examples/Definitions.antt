-- ===== src/Examples/Definitions.antt =====
-- Definitions and inputs that are accepted, versions, and a canary.
use Prim.Native.String.{String}
use aegis_fs.Prelude.{ℕ, ◌%◌, ◌<◌, ◌≤◌, true, some, List, [], ◌∷◌, ◌≡◌, ◌↔◌, arith}
use aegis_fs.Prelude.BTree
use aegis_fs.Prelude.Map
use aegis_fs.Prelude.Result.{Result, ok, err}
use aegis_fs.Domain.RetryPolicy.{PolicyError}
use aegis_fs.Domain.Validation.{Url, validate_definition, json_size, validate_run_input}
use aegis_fs.Domain.Validation.Accepted.{IsAccepted, validate_definition_iff}
use aegis_fs.Domain.Validation.Input.{empties, validate_run_input-empties}
use aegis_fs.Domain.Versioning.{canary_policy, select_version_by_key, fnv, fnv_offset, analyze}
use aegis_fs.Domain.Versioning.Canary.{canary_lem}
use aegis_fs.Domain.Versioning.Report.{Keeps, analyze_lem}
use aegis_fs.Domain.Workflow.{WorkflowDef}
use aegis_fs.Engine.Value.{array}
use aegis_fs.Examples.Data.{whole, pipeline, task}

abbrev bytes : List ℕ
bytes = 97 ∷ 99 ∷ 109 ∷ 101 ∷ []

canary_lem_example :
    ((select_version_by_key (canary_policy 1 2 25) bytes ≡ 2) ↔ (fnv fnv_offset bytes % 100 < 25))
    × ((select_version_by_key (canary_policy 1 2 25) bytes ≡ 1) ↔ (25 ≤ fnv fnv_offset bytes % 100))
    × ((more : ℕ)
        → 25 ≤ more
        → select_version_by_key (canary_policy 1 2 25) bytes ≡ 2
        → select_version_by_key (canary_policy 1 2 more) bytes ≡ 2)
canary_lem_example = canary_lem 1 2 25 bytes (omega arith)

abbrev quoted : String → String
quoted s = s

abbrev policy_text : PolicyError ℕ → String
policy_text e = "bad policy"

abbrev no_urls : String → Result String Url
no_urls s = err "no url"

abbrev number_len : ℕ → ℕ
number_len n = 1

validate_run_input-empties_example :
    (json_size number_len (array (empties number_len 3_000_000)) ≡ 0)
    × (validate_run_input number_len (array (empties number_len 3_000_000)) ≡ ok tt)
validate_run_input-empties_example = validate_run_input-empties number_len 3_000_000

abbrev timed : WorkflowDef ℕ ℕ
timed = record pipeline { timeout_ms = 60_000 }

validate_definition_iff_example :
    (validate_definition whole quoted policy_text no_urls timed ≡ some (ok tt))
    ↔ IsAccepted whole quoted policy_text no_urls timed
validate_definition_iff_example = validate_definition_iff whole quoted policy_text no_urls timed

-- A version that adds a task and a dependency.
abbrev wider : WorkflowDef ℕ ℕ
wider = record timed {
  tasks = task "b" ("a" ∷ "c" ∷ []) ∷ task "c" [] ∷ task "a" [] ∷ [];
  timeout_ms = 1;
}

analyze_lem_example :
    ((analyze timed wider).is_backward_compatible ≡ true) ↔ Keeps timed.tasks wider.tasks
analyze_lem_example = analyze_lem timed wider
