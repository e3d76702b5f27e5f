-- ===== src/Domain/Dag/Depends.antt =====
-- src/domain/dag.rs: what the map of dependencies holds.
use aegis_fs.Prelude.{
  String, Bool, ◌&&◌, ◌||◌, List, [], ◌∷◌, any, ◌≡◌, refl, ◌∙◌, ap, arith, Bool-cases, inl, inr,
}
use aegis_fs.Prelude.BTree
use aegis_fs.Prelude.BTree.{lookup-insert}
use aegis_fs.Prelude.BTree.Keys.{Ascending, insert-Ascending}
use aegis_fs.Prelude.Eq.{string_eq, ◌==◌, eq_iff}
use aegis_fs.Prelude.Map.{lookup, contains_key, is_some}
use aegis_fs.Domain.Dag.{NameSet, Deps, add_all, or_default, task_deps, dependency_map}
use aegis_fs.Domain.Workflow.{TaskSpec}

-- Whether the set of `n` has `d`.
abbrev pub depends : (n d : String) → Deps → Bool
depends n d deps = contains_key d (or_default (lookup n deps))

pub contains-insert :
    (k j : String) (s : NameSet)
    → contains_key j (BTree.insert k tt s) ≡ (k == j || contains_key j s)
contains-insert k j s = ground (arith, lookup-insert k j tt s)

contains-add_all :
    (d : String) (ds : List String) (s : NameSet)
    → contains_key d (add_all ds s) ≡ (any (λ x. x == d) ds || contains_key d s)
contains-add_all d [] s = refl
contains-add_all d (x ∷ ds) s =
    contains-add_all d ds (BTree.insert x tt s) ∙ ground (arith, contains-insert x d s)

module _ {Json F64 : Type 0} where
  -- Whether a task of the list is called `n`, and whether one called `n` names `d`.
  abbrev pub named : String → List (TaskSpec Json F64) → Bool
  named n tasks = any (λ t. t.name == n) tasks

  abbrev pub names : (n d : String) → TaskSpec Json F64 → Bool
  names n d t = t.name == n && any (λ x. x == d) t.depends_on

  abbrev added : TaskSpec Json F64 → Deps → NameSet
  added t deps = add_all t.depends_on (or_default (lookup t.name deps))

  task_deps-contains :
      (n : String) (t : TaskSpec Json F64) (deps : Deps)
      → contains_key n (task_deps t deps) ≡ (t.name == n || contains_key n deps)
  task_deps-contains n t deps =
      ap is_some (lookup-insert t.name n (added t deps) deps) ∙ ground arith

  task_deps-depends :
      (n d : String) (t : TaskSpec Json F64) (deps : Deps)
      → depends n d (task_deps t deps) ≡ (names n d t || depends n d deps)
  task_deps-depends n d t deps = elim (Bool-cases (t.name == n)) [
    | inl e ↦
        let p = (eq_iff t.name n).0 e in
        rw (lookup-insert t.name n (added t deps) deps, e, ← p)
          (contains-add_all d t.depends_on (or_default (lookup t.name deps)))
    | inr e ↦ rw (lookup-insert t.name n (added t deps) deps, e) refl
  ]

  pub dependency_map-contains :
      (n : String) (tasks : List (TaskSpec Json F64)) (deps : Deps)
      → contains_key n (dependency_map tasks deps) ≡ (named n tasks || contains_key n deps)
  unfolding dependency_map
  dependency_map-contains n [] deps = refl
  dependency_map-contains n (t ∷ ts) deps =
      dependency_map-contains n ts (task_deps t deps) ∙ ground (arith, task_deps-contains n t deps)

  pub dependency_map-depends :
      (n d : String) (tasks : List (TaskSpec Json F64)) (deps : Deps)
      → depends n d (dependency_map tasks deps) ≡ (any (names n d) tasks || depends n d deps)
  unfolding dependency_map
  dependency_map-depends n d [] deps = refl
  dependency_map-depends n d (t ∷ ts) deps =
      dependency_map-depends n d ts (task_deps t deps)
      ∙ ground (arith, task_deps-depends n d t deps)

  pub dependency_map-Ascending :
      (tasks : List (TaskSpec Json F64)) (deps : Deps)
      → Ascending deps
      → Ascending (dependency_map tasks deps)
  unfolding dependency_map
  dependency_map-Ascending [] deps a = a
  dependency_map-Ascending (t ∷ ts) deps a =
      dependency_map-Ascending ts (task_deps t deps) (insert-Ascending t.name _ deps a)
