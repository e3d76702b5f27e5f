-- ===== src/Domain/Dag/Ends.antt =====
-- src/domain/dag.rs: the ways in which the planning ends.
use aegis_fs.Prelude.{
  suc, String, true, ◌||◌, none, some, List, [], ◌∷◌, length, map, any, ◌≡◌, refl, arith, ◌⊎◌, inl,
  inr, ◌∙◌, sym, ap, Elem, any_of, Bool-cases,
}
use aegis_fs.Prelude.BTree.Keys.{Ascending-Unique}
use aegis_fs.Prelude.Eq.{string_eq, ◌==◌, eq_refl}
use aegis_fs.Prelude.Map.{lookup, contains_key}
use aegis_fs.Prelude.Result.{ok, err, Result-cases}
use aegis_fs.Prelude.Unique.{Unique}
use aegis_fs.Domain.Dag.{
  Deps, Kahn, keys, next_of, start, ordered, plan, dependency_map, check_known, topo_order,
}
use aegis_fs.Domain.Dag.Depends.{
  depends, named, names, dependency_map-contains, dependency_map-depends, dependency_map-Ascending,
}
use aegis_fs.Domain.Dag.Fuel.{kahn-start}
use aegis_fs.Prelude.Names.{has, Distinct-full}
use aegis_fs.Domain.Dag.Known.{keys-has}
use aegis_fs.Domain.Dag.Rounds.{IsRound, start-IsRound, kahn-IsRound}
use aegis_fs.Domain.Error.{DomainError}
use aegis_fs.Domain.Workflow.{TaskSpec}

pub length-keys : (deps : Deps) → length (keys deps) ≡ length deps
length-keys [] = refl
length-keys (e ∷ deps) = ap suc (length-keys deps)

pub some_ok : {A : Type 0} {a b : A} → some a ≡ some b → a ≡ b
some_ok h = cc

pub ordered-ok :
    (k : Kahn) (order : List String)
    → ordered k ≡ ok order
    → (k.order ≡ order) × (length k.order ≡ length k.remaining)
ordered-ok k order h = ground (arith, h)

module _ {Json F64 : Type 0} where
  abbrev pub deps_of : List (TaskSpec Json F64) → Deps
  deps_of tasks = dependency_map tasks []

  pub deps_of-contains :
      (n : String) (tasks : List (TaskSpec Json F64))
      → contains_key n (deps_of tasks) ≡ named n tasks
  unfolding lookup
  deps_of-contains n tasks = dependency_map-contains n tasks [] ∙ ground arith

  pub deps_of-depends :
      (n d : String) (tasks : List (TaskSpec Json F64))
      → depends n d (deps_of tasks) ≡ any (names n d) tasks
  unfolding lookup
  deps_of-depends n d tasks = dependency_map-depends n d tasks [] ∙ ground arith

  pub deps_of-Unique : (tasks : List (TaskSpec Json F64)) → Unique (deps_of tasks)
  deps_of-Unique tasks = Ascending-Unique (deps_of tasks) (dependency_map-Ascending tasks [] tt)

  -- The two ways in which the planning ends.
  pub topo_order_cases :
      (tasks : List (TaskSpec Json F64))
      → ((e : DomainError) × (check_known (deps_of tasks) (deps_of tasks) ≡ err e)
          × (topo_order tasks ≡ some (err e)))
        ⊎ ((k : Kahn) × (check_known (deps_of tasks) (deps_of tasks) ≡ ok tt)
            × IsRound (deps_of tasks) k
            × (next_of k.ready ≡ none)
            × (topo_order tasks ≡ some (ordered k)))
  unfolding topo_order
  topo_order_cases tasks = elim (Result-cases (check_known (deps_of tasks) (deps_of tasks))) [
    | inl (e, h) ↦ inl (e, h, rw (topo_order, h) refl)
    | inr (u, h) ↦
        let (k, q) = kahn-start (deps_of tasks) in
        let (r, end) =
          kahn-IsRound (deps_of tasks) (length (deps_of tasks)) (start (deps_of tasks)) k
            (start-IsRound (deps_of tasks) (deps_of-Unique tasks)) q in
        inr (k, h, r, end, rw (topo_order, h, plan, q) refl)
  ]

  pub named-Elem :
      (n : String) (tasks : List (TaskSpec Json F64))
      → named n tasks ≡ has n (map (λ t. t.name) tasks)
  named-Elem n [] = refl
  named-Elem n (t ∷ tasks) = ap (λ b. t.name == n || b) (named-Elem n tasks)

  pub names_of :
      (t : TaskSpec Json F64) (d : String) (tasks : List (TaskSpec Json F64))
      → Elem t tasks
      → Elem d t.depends_on
      → any (names t.name d) tasks ≡ true
  names_of t d tasks m e =
      any_of (names t.name d) t tasks m
        (ground (arith, eq_refl t.name, any_of (λ x. x == d) d t.depends_on e (eq_refl d)))

  -- All tasks are in the order of a loop that ended with as many names as there are sets.
  pub full :
      (tasks : List (TaskSpec Json F64)) (k : Kahn)
      → IsRound (deps_of tasks) k
      → length k.order ≡ length k.remaining
      → (n : String) → has n k.order ≡ named n tasks
  full tasks k r e n = elim (Bool-cases (has n k.order)) [
    | inl m ↦ m ∙ sym (sym (deps_of-contains n tasks) ∙ r.known n m)
    | inr m ↦ elim (Bool-cases (named n tasks)) [
      | inr out ↦ m ∙ sym out
      | inl q ↦
          Distinct-full k.order (keys (deps_of tasks)) r.distinct
            (λ x l. keys-has x (deps_of tasks) ∙ r.known x l)
            (ground (arith, e, r.size, length-keys (deps_of tasks))) n
            (keys-has n (deps_of tasks) ∙ deps_of-contains n tasks ∙ q)
          ∙ sym q
    ]
  ]
