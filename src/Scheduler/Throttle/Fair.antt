-- ===== src/Scheduler/Throttle/Fair.antt =====
-- src/scheduler/throttle.rs: `FairShareDispatcher`. A `VecDeque` is a list, front first.
pub mod Queues
pub mod Turns
use aegis_fs.Prelude.{
  ℕ, zero, suc, ◌+◌, String, Bool, true, false, Option, none, some, List, [], ◌∷◌, ◌++◌, length,
  if◌then◌else◌,
}
use aegis_fs.Prelude.BTree
use aegis_fs.Prelude.Eq.{string_eq}
use aegis_fs.Prelude.Map.{Map, lookup, contains_key, remove, values}
use aegis_fs.Domain.Workflow.{unwrap_or}

pub record FairShare (T : Type 0) : Type 0 where
  pub queues : Map String (List T)
  pub tenant_order : List String

module _ {T : Type 0} where
  abbrev pub new : FairShare T
  new = record { queues = []; tenant_order = [] }

  unfoldable pub push : String → T → FairShare T → FairShare T
  push tenant item d = record {
    queues = BTree.insert tenant (unwrap_or (lookup tenant d.queues) [] ++ (item ∷ [])) d.queues;
    tenant_order =
        if contains_key tenant d.queues then d.tenant_order else d.tenant_order ++ (tenant ∷ []);
  }

  -- The turn of a tenant, which was taken from the front of the order, by its queue.
  abbrev pub serve : String → Option (List T) → FairShare T → Option ((String × T) × FairShare T)
  serve tenant none d = none
  serve tenant (some []) d = none
  serve tenant (some (item ∷ [])) d =
      some ((tenant, item), record d { queues = remove tenant d.queues })
  serve tenant (some (item ∷ next ∷ q)) d = some (
    (tenant, item),
    record {
      queues = BTree.insert tenant (next ∷ q) d.queues;
      tenant_order = d.tenant_order ++ (tenant ∷ []);
    },
  )

  abbrev pub or_rest :
      Option ((String × T) × FairShare T)
      → Option (String × T) × FairShare T
      → Option (String × T) × FairShare T
  or_rest none rest = rest
  or_rest (some (answer, d)) rest = (some answer, d)

  -- The rounds of the loop of `pop`.
  unfoldable pub pop_rounds : ℕ → FairShare T → Option (String × T) × FairShare T
  pop_rounds zero d = (none, d)
  pop_rounds (suc n) d = elim d.tenant_order [
    | [] ↦ pop_rounds n d
    | tenant ∷ order ↦
        let d' : FairShare T = record d { tenant_order = order } in
        or_rest (serve tenant (lookup tenant d.queues) d') (pop_rounds n d')
  ]

  unfoldable pub pop : FairShare T → Option (String × T) × FairShare T
  unfolding pop_rounds
  pop d = pop_rounds (length d.tenant_order) d

  abbrev sum_lengths : List (List T) → ℕ
  sum_lengths [] = 0
  sum_lengths (q ∷ qs) = length q + sum_lengths qs

  abbrev pub len : FairShare T → ℕ
  len d = sum_lengths (values d.queues)

  abbrev pub is_empty : FairShare T → Bool
  is_empty d = elim d.queues [ [] ↦ true | _ ∷ _ ↦ false ]
