-- ===== src/Domain/Workflow.antt =====
-- src/domain/workflow.rs: workflow definitions, over the types of JSON values (`serde_json`) and of
-- `f64`.
use aegis_fs.Prelude.{ℕ, String, Option, none, some, List, ◌++◌, Bool, not, ◌&&◌, length, leb, eqb}
use aegis_fs.Prelude.Int.{ℤ}
use aegis_fs.Prelude.Eq.{◌==◌, string_eq}
use aegis_fs.Prelude.Map.{Map}
use aegis_fs.Domain.Priority.{Priority}
use aegis_fs.Domain.RetryPolicy.{RetryPolicy}

abbrev pub max_tasks : ℕ
max_tasks = 256

pub record HookSpec : Type 0 where
  pub webhook_url : Option String
  pub event_filter : Option String
  pub headers : Map String String

pub record Hooks : Type 0 where
  pub on_start : List HookSpec
  pub on_success : List HookSpec
  pub on_failure : List HookSpec
  pub on_cancel : List HookSpec

abbrev pub all_hooks : Hooks → List HookSpec
all_hooks h = h.on_start ++ (h.on_success ++ (h.on_failure ++ h.on_cancel))

pub record TaskSpec (Json F64 : Type 0) : Type 0 where
  pub name : String
  pub handler : String
  pub input : Json
  pub depends_on : List String
  pub timeout_ms : Option ℕ
  pub retry : Option (RetryPolicy F64)
  pub meta : Map String Json

pub record WorkflowDef (Json F64 : Type 0) : Type 0 where
  pub id : String
  pub tenant : String
  pub name : String
  pub version : ℕ  -- u32
  pub description : String
  pub tasks : List (TaskSpec Json F64)
  pub timeout_ms : ℕ  -- u64
  pub retry : RetryPolicy F64
  pub default_priority : Priority
  pub hooks : Hooks
  pub tags : Map String String
  pub spec_version : ℕ
  pub created_at_ms : ℤ
  pub updated_at_ms : ℤ

abbrev pub unwrap_or {ℓ} : {A : Type ℓ} → Option A → A → A
unwrap_or none d = d
unwrap_or (some a) d = a

module _ {Json F64 : Type 0} where
  abbrev pub effective_retry : TaskSpec Json F64 → RetryPolicy F64 → RetryPolicy F64
  effective_retry t workflow_default = unwrap_or t.retry workflow_default

  abbrev pub effective_timeout_ms : TaskSpec Json F64 → ℕ → ℕ
  effective_timeout_ms t workflow_default_ms = unwrap_or t.timeout_ms workflow_default_ms

  abbrev pub is_minimally_valid : WorkflowDef Json F64 → Bool
  is_minimally_valid def =
      not (def.name == "") && not (eqb (length def.tasks) 0) && leb (length def.tasks) max_tasks
