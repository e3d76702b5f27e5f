-- ===== src/Domain/Dag.antt =====
-- src/domain/dag.rs: the order of the tasks of a workflow. A `BTreeSet` is a `BTreeMap` without values.
pub mod Depends
pub mod Sets
pub mod Rounds
pub mod Fuel
pub mod Known
pub mod Ends
pub mod Order
pub mod Unknown
pub mod Exact
pub mod Stuck
use aegis_fs.Prelude.{
  ℕ, zero, suc, String, Bool, true, false, not, ◌&&◌, Option, none, some, List, [], ◌∷◌, ◌++◌, map,
  filter, find, length, eqb, if◌then◌else◌,
}
use mathlib.Core.Option
use aegis_fs.Prelude.BTree
use aegis_fs.Prelude.Eq.{string_eq}
use aegis_fs.Prelude.Map.{Map, lookup, contains_key, remove}
use aegis_fs.Prelude.Result.{Result, ok, err, ◌>>=◌}
use aegis_fs.Domain.Error.{DomainError, unknown_dependency, cycle_detected}
use aegis_fs.Domain.Workflow.{TaskSpec, unwrap_or}

abbrev pub NameSet : Type 0
NameSet = Map String (Unit {0})

-- A task's name with the names it depends on.
abbrev pub Deps : Type 0
Deps = Map String NameSet

abbrev pub add_all : List String → NameSet → NameSet
add_all [] s = s
add_all (d ∷ ds) s = add_all ds (BTree.insert d tt s)

abbrev pub or_default : Option NameSet → NameSet
or_default o = unwrap_or o []

abbrev pub is_empty : NameSet → Bool
is_empty [] = true
is_empty (_ ∷ _) = false

abbrev pub keys : {V : Type 0} → Map String V → List String
keys m = map (λ e. e.0) m

-- The check that every dependency is a task.
abbrev pub unknown_in : Deps → NameSet → Option String
unknown_in deps ds = find (λ d. not (contains_key d deps)) (keys ds)

abbrev pub known_or : String → Option String → Result DomainError (Unit {0})
known_or name none = ok tt
known_or name (some dep) = err (unknown_dependency dep name)

unfoldable pub check_known : Deps → Deps → Result DomainError (Unit {0})
check_known deps [] = ok tt
check_known deps ((name, ds) ∷ rest) =
    known_or name (unknown_in deps ds) >>= λ _. check_known deps rest

pub record Kahn : Type 0 where
  pub ready : NameSet
  pub remaining : Deps
  pub emitted : NameSet
  pub order : List String

-- The names whose dependencies are empty, as a set.
unfoldable pub frontier : Deps → NameSet
frontier [] = []
frontier ((name, ds) ∷ deps) =
    let rest = frontier deps in if is_empty ds then BTree.insert name tt rest else rest

-- `d.remove(next) && d.is_empty()`, on the set before the removal.
abbrev pub drains : String → NameSet → Bool
drains next ds = contains_key next ds && is_empty (remove next ds)

abbrev pub draining : String → Deps → List String
draining next remaining = keys (filter (λ e. drains next e.1) remaining)

abbrev pub drop_dep : String → Deps → Deps
drop_dep next remaining = map (λ e. (e.0, remove next e.1)) remaining

unfoldable pub admit : NameSet → List String → NameSet → NameSet
admit emitted [] ready = ready
admit emitted (name ∷ names) ready =
    admit emitted names (if contains_key name emitted then ready else BTree.insert name tt ready)

-- One round of the loop, for the first name of the frontier.
abbrev pub emit : String → Kahn → Kahn
emit next k =
    let emitted = BTree.insert next tt k.emitted in
    record {
      ready = admit emitted (draining next k.remaining) (remove next k.ready);
      remaining = drop_dep next k.remaining;
      emitted = emitted;
      order = k.order ++ (next ∷ []);
    }

abbrev pub next_of : NameSet → Option String
next_of [] = none
next_of ((next, _) ∷ _) = some next

-- The loop. Each round empties one entry of the frontier or of the remaining sets, so the number of
-- tasks is enough fuel.
unfoldable pub kahn : ℕ → Kahn → Option Kahn
kahn zero k = if is_empty k.ready then some k else none
kahn (suc fuel) k = elim (next_of k.ready) [ none ↦ some k | some next ↦ kahn fuel (emit next k) ]

abbrev pub start : Deps → Kahn
start deps = record { ready = frontier deps; remaining = deps; emitted = []; order = [] }

abbrev pub ordered : Kahn → Result DomainError (List String)
ordered k =
    if not (eqb (length k.order) (length k.remaining)) then err cycle_detected else ok k.order

-- The order of checked dependencies. The outer `none` is a loop that runs out of fuel.
abbrev pub plan : Deps → Result DomainError (Unit {0}) → Option (Result DomainError (List String))
plan deps (err e) = some (err e)
plan deps (ok _) = Option.map ordered (kahn (length deps) (start deps))

abbrev pub is_ok : {A : Type 0} → Result DomainError A → Bool
is_ok (ok _) = true
is_ok (err _) = false

module _ {Json F64 : Type 0} where
  abbrev pub task_deps : TaskSpec Json F64 → Deps → Deps
  task_deps task deps =
      BTree.insert task.name (add_all task.depends_on (or_default (lookup task.name deps))) deps

  unfoldable pub dependency_map : List (TaskSpec Json F64) → Deps → Deps
  dependency_map [] deps = deps
  dependency_map (task ∷ tasks) deps = dependency_map tasks (task_deps task deps)

  unfoldable pub topo_order : List (TaskSpec Json F64) → Option (Result DomainError (List String))
  unfolding dependency_map check_known frontier kahn
  topo_order tasks = let deps = dependency_map tasks [] in plan deps (check_known deps deps)

  abbrev pub is_acyclic : List (TaskSpec Json F64) → Option Bool
  is_acyclic tasks = Option.map is_ok (topo_order tasks)

  abbrev pub validate_edges : List (TaskSpec Json F64) → Option (Result DomainError (Unit {0}))
  validate_edges tasks = Option.map (λ r. r >>= λ _. ok tt) (topo_order tasks)
