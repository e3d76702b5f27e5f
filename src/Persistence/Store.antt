-- ===== src/Persistence/Store.antt =====
-- The state of the store of src/persistence/memory.rs. Each operation runs under the store's lock,
-- so it is a function from the state to its result and the new state; one that cannot fail or
-- changes nothing leaves out what it does not have. A `HashMap` is an association list, in any order.
use aegis_fs.Prelude.{ℕ, String, Bool, false, Option, none, some, []}
use aegis_fs.Prelude.Eq.{string_eq, pair_eq}
use aegis_fs.Prelude.Int.{ℤ, leb_ℤ}
use aegis_fs.Prelude.Map.{Map}
use aegis_fs.Prelude.Result.{Result, ok, err}
use aegis_fs.Domain.Error.{StorageError}
use aegis_fs.Domain.Run.{Run, TaskRun}
use aegis_fs.Persistence.Model.{WorkflowRecord, QueueEntry, empty_token}

pub record MemoryState (Json F64 : Type 0) : Type 0 where
  pub runs : Map String (Run Json)
  pub task_runs : Map String (TaskRun Json)
  pub defs : Map (String × String) (WorkflowRecord Json F64)
  pub queue : Map String QueueEntry
  pub run_numbers : Map String ℕ  -- u64

-- `Option::ok_or`.
abbrev pub ok_or {ℓ} : {A : Type ℓ} → Option A → StorageError → Result StorageError A
ok_or none e = err e
ok_or (some a) e = ok a

abbrev pub or_zero : Option ℕ → ℕ
or_zero none = 0
or_zero (some n) = n

-- An entry with its lease cleared.
abbrev pub unleased : QueueEntry → QueueEntry
unleased e = record e { token = empty_token; claimed_by = none; lease_until_ms = none }

abbrev pub lapsed : ℤ → Option ℤ → Bool
lapsed now_ms none = false
lapsed now_ms (some exp) = leb_ℤ exp now_ms

module _ {Json F64 : Type 0} where
  abbrev pub empty_store : MemoryState Json F64
  empty_store = record { runs = []; task_runs = []; defs = []; queue = []; run_numbers = [] }
