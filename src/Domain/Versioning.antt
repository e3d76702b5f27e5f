-- ===== src/Domain/Versioning.antt =====
-- src/domain/versioning.rs: aliases, canary routing, and the comparison of two versions. The message of
-- an issue is left out; keys and names are texts, and the bytes of a key are its UTF-8.
pub mod Report
pub mod Canary
use Prim.Native.Nat.{bit_xor}
use aegis_fs.Prelude.{
  ℕ, ◌*◌, ◌%◌, ◌^◌, String, Bool, true, false, not, Option, none, some, List, [], ◌∷◌, ◌++◌, any,
  filter, length, count_if, min, ltb, leb, eqb, if◌then◌else◌,
}
use aegis_fs.Prelude.BTree
use aegis_fs.Prelude.Eq.{◌==◌, string_eq}
use aegis_fs.Prelude.Int.{ℤ}
use aegis_fs.Prelude.Map.{Map, lookup, contains_key}
use aegis_fs.Prelude.Text.{◌<>◌, decimal}
use aegis_fs.Domain.Dag.{NameSet, add_all, keys}
use aegis_fs.Domain.Workflow.{TaskSpec, WorkflowDef}

pub record WorkflowAlias : Type 0 where
  pub name : String
  pub tenant : String
  pub workflow_name : String
  pub target_version : ℕ  -- u32
  pub updated_at_ms : ℤ

pub record CanaryRoutingPolicy : Type 0 where
  pub baseline_version : ℕ  -- u32
  pub canary_version : ℕ  -- u32
  pub canary_weight_pct : ℕ  -- u8

unfoldable pub canary_policy : (baseline canary weight : ℕ) → CanaryRoutingPolicy
canary_policy baseline canary weight = record {
  baseline_version = baseline;
  canary_version = canary;
  canary_weight_pct = min weight 100;
}

unfoldable pub select_version_by_sample : CanaryRoutingPolicy → ℕ → ℕ
select_version_by_sample p sample =
    if ltb sample p.canary_weight_pct then p.canary_version else p.baseline_version

-- The hash of FNV-1a, over a `u64` that wraps around.
unfoldable pub fnv : ℕ → List ℕ → ℕ
fnv hash [] = hash
fnv hash (byte ∷ bytes) = fnv (bit_xor hash byte * 0x100000001b3 % 2 ^ 64) bytes

abbrev pub fnv_offset : ℕ
fnv_offset = 0xcbf29ce484222325

unfoldable pub select_version_by_key : CanaryRoutingPolicy → List ℕ → ℕ
unfolding select_version_by_sample
select_version_by_key p key =
    if eqb p.canary_weight_pct 0
    then p.baseline_version
    else if leb 100 p.canary_weight_pct
    then p.canary_version
    else select_version_by_sample p (fnv fnv_offset key % 100)

pub data CompatibilitySeverity : Type 0 where
  info warning breaking : CompatibilitySeverity

abbrev pub is_breaking : CompatibilitySeverity → Bool
is_breaking breaking = true
is_breaking _ = false

pub record CompatibilityIssue : Type 0 where
  pub severity : CompatibilitySeverity
  pub task_name : Option String

abbrev pub breaking_issue : Option String → CompatibilityIssue
breaking_issue name = record { severity = breaking; task_name = name }

abbrev pub warning_issue : Option String → CompatibilityIssue
warning_issue name = record { severity = warning; task_name = name }

pub record CompatibilityReport : Type 0 where
  pub is_backward_compatible : Bool
  pub issues : List CompatibilityIssue

-- The names of `new` that are not in `old`.
abbrev pub added_names : (new old : NameSet) → List String
added_names new old = filter (λ d. not (contains_key d old)) (keys new)

abbrev pub is_none_left : List String → Bool
is_none_left [] = true
is_none_left (_ ∷ _) = false

abbrev pub Specs : (Json F64 : Type 0) → Type 0
Specs Json F64 = Map String (TaskSpec Json F64)

module _ {Json F64 : Type 0} where
  -- `collect` into a map: of two tasks with one name, the later.
  unfoldable pub specs_of : List (TaskSpec Json F64) → Specs Json F64 → Specs Json F64
  specs_of [] m = m
  specs_of (t ∷ ts) m = specs_of ts (BTree.insert t.name t m)

  unfoldable pub removed_tasks : Specs Json F64 → Specs Json F64 → List CompatibilityIssue
  removed_tasks new [] = []
  removed_tasks new (entry ∷ old) =
      let rest = removed_tasks new old in
      if not (contains_key entry.0 new) then breaking_issue (some entry.0) ∷ rest else rest

  abbrev pub changed_handler : String → (old new : TaskSpec Json F64) → List CompatibilityIssue
  changed_handler name old new =
      if not (old.handler == new.handler) then breaking_issue (some name) ∷ [] else []

  abbrev pub added_deps : String → (old new : TaskSpec Json F64) → List CompatibilityIssue
  added_deps name old new =
      if not (is_none_left (added_names (add_all new.depends_on []) (add_all old.depends_on [])))
      then warning_issue (some name) ∷ []
      else []

  abbrev pub changed_task :
      String → Option (TaskSpec Json F64) → TaskSpec Json F64 → List CompatibilityIssue
  changed_task name none new = []
  changed_task name (some old) new = changed_handler name old new ++ added_deps name old new

  unfoldable pub changed_tasks : Specs Json F64 → Specs Json F64 → List CompatibilityIssue
  changed_tasks old [] = []
  changed_tasks old (entry ∷ new) =
      changed_task entry.0 (lookup entry.0 old) entry.1 ++ changed_tasks old new

  abbrev pub reduced_timeout : (old new : WorkflowDef Json F64) → List CompatibilityIssue
  reduced_timeout old new =
      if ltb new.timeout_ms old.timeout_ms then warning_issue none ∷ [] else []

  abbrev pub issues_of : (old new : WorkflowDef Json F64) → List CompatibilityIssue
  issues_of old new =
      let old_tasks = specs_of old.tasks [] in
      let new_tasks = specs_of new.tasks [] in
      removed_tasks new_tasks old_tasks
      ++ (changed_tasks old_tasks new_tasks ++ reduced_timeout old new)

  unfoldable pub analyze : (old new : WorkflowDef Json F64) → CompatibilityReport
  unfolding specs_of removed_tasks changed_tasks
  analyze old new =
      let issues = issues_of old new in
      record {
        is_backward_compatible = not (any (λ i. is_breaking i.severity) issues);
        issues = issues;
      }

-- `Display` of a report.
unfoldable pub summary : CompatibilityReport → String
summary r =
    if r.is_backward_compatible
    then "COMPATIBLE: " <> decimal (length r.issues) <> " non-breaking observations"
    else "INCOMPATIBLE: "
      <> decimal (count_if (λ i. is_breaking i.severity) r.issues)
      <> " breaking change(s)"
