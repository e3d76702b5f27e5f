-- ===== src/Persistence/Model.antt =====
-- src/persistence/model.rs: the records of the store.
use aegis_fs.Prelude.{ℕ, String, Bool, false, not, ◌&&◌, Option, none, some, List, [], ◌∷◌, length}
use aegis_fs.Prelude.Int.{ℤ, ltb_ℤ, leb_ℤ}
use aegis_fs.Domain.Run.{Run}
use aegis_fs.Domain.Workflow.{WorkflowDef}

pub record WorkflowRecord (Json F64 : Type 0) : Type 0 where
  pub def : WorkflowDef Json F64

-- The text of a token. A fresh one is a random UUID, which callers pass in.
abbrev pub ClaimToken : Type 0
ClaimToken = String

abbrev pub empty_token : ClaimToken
empty_token = ""

pub record QueueEntry : Type 0 where
  pub run_id : String
  pub token : ClaimToken
  pub due_at_ms : ℤ
  pub lease_until_ms : Option ℤ
  pub claimed_by : Option String

abbrev pub leased_until : Option ℤ → ℤ → Bool
leased_until none now_ms = false
leased_until (some exp) now_ms = ltb_ℤ now_ms exp

abbrev pub is_leased : QueueEntry → ℤ → Bool
is_leased e now_ms = leased_until e.lease_until_ms now_ms

abbrev pub is_ready : QueueEntry → ℤ → Bool
is_ready e now_ms = leb_ℤ e.due_at_ms now_ms && not (is_leased e now_ms)

pub record WorkflowSummary (Json F64 : Type 0) : Type 0 where
  pub workflow : WorkflowRecord Json F64
  pub run_count : ℕ  -- u64
  pub latest_run : Option (Run Json)

abbrev first {ℓ} : {A : Type ℓ} → List A → Option A
first [] = none
first (x ∷ _) = some x

module _ {Json F64 : Type 0} where
  abbrev pub assemble : WorkflowRecord Json F64 → List (Run Json) → WorkflowSummary Json F64
  assemble workflow runs = record {
    workflow = workflow;
    run_count = length runs;
    latest_run = first runs;
  }
