-- ===== src/Domain/Dag/Stuck.antt =====
-- src/domain/dag.rs: the error on a cycle.
use aegis_fs.Prelude.{
  all, all-false, all-true, String, Bool, true, false, not, ◌&&◌, none, some, List, [], ◌∷◌, length,
  any, ◌≡◌, arith, inl, inr, ◌∙◌, sym, eqb, Bool-cases,
}
use aegis_fs.Prelude.Eq.{string_eq, eq_iff}
use aegis_fs.Prelude.Map.{lookup, contains_key}
use aegis_fs.Prelude.Result.{ok, err}
use aegis_fs.Prelude.Unique.{Unique}
use aegis_fs.Domain.Dag.{
  NameSet, is_empty, or_default, Deps, Kahn, keys, next_of, ordered, check_known, topo_order,
}
use aegis_fs.Domain.Dag.Depends.{depends, named, names}
use aegis_fs.Prelude.Names.{has, has_iff, Distinct, Distinct-length}
use aegis_fs.Domain.Dag.Known.{keys-has, check_known-ok, check_known-err}
use aegis_fs.Domain.Dag.Rounds.{IsRound}
use aegis_fs.Domain.Dag.Sets.{next_of-contains_none}
use aegis_fs.Domain.Error.{cycle_detected}
use aegis_fs.Domain.Workflow.{TaskSpec}
use aegis_fs.Domain.Dag.Ends.{
  length-keys, deps_of, deps_of-contains, deps_of-depends, deps_of-Unique, topo_order_cases,
  some_ok,
}

nonempty : (s : NameSet) → is_empty s ≡ false → (d : String) × (contains_key d s ≡ true)
unfolding lookup
nonempty [] h = absurd (cc)
nonempty ((d, v) ∷ s) h = (d, ground (arith, eq_iff d d))

keys-Distinct : (deps : Deps) → Unique deps → Distinct (keys deps)
keys-Distinct [] u = tt
keys-Distinct ((n, ds) ∷ deps) u = (keys-has n deps ∙ ground (arith, u.0), keys-Distinct deps u.1)

ordered-err :
    (k : Kahn) → ordered k ≡ err cycle_detected → eqb (length k.order) (length k.remaining) ≡ false
ordered-err k h = ground (arith, h)

module _ {Json F64 : Type 0} where
  -- Whether a task is left over by the loop.
  abbrev left : List (TaskSpec Json F64) → Kahn → String → Bool
  left tasks k n = named n tasks && not (has n k.order)

  left-depends :
      (tasks : List (TaskSpec Json F64)) (k : Kahn) (n : String)
      → check_known (deps_of tasks) (deps_of tasks) ≡ ok tt
      → IsRound (deps_of tasks) k
      → next_of k.ready ≡ none
      → left tasks k n ≡ true
      → (named n tasks ≡ true)
        × (d : String) × (any (names n d) tasks ≡ true)
        × (left tasks k d ≡ true)
  left-depends tasks k n c r end l =
      elim (Bool-cases (is_empty (or_default (lookup n k.remaining)))) [
        | inl e ↦ absurd (
            ground (
              arith,
              l,
              deps_of-contains n tasks,
              r.free_ready n (ground (arith, l, deps_of-contains n tasks)) e,
              next_of-contains_none n k.ready end,
            ))
        | inr e ↦
            let (d, m) = nonempty (or_default (lookup n k.remaining)) e in
            let waits : depends n d (deps_of tasks) ≡ true = ground (arith, m, r.rest n d) in
            let task = check_known-ok (deps_of tasks) (deps_of tasks) n d c waits in
            (
              ground (arith, l),
              d,
              sym (deps_of-depends n d tasks) ∙ waits,
              ground (arith, m, r.rest n d, r.emitted d, task, deps_of-contains d tasks),
            )
      ]

  left-some :
      (tasks : List (TaskSpec Json F64)) (k : Kahn)
      → IsRound (deps_of tasks) k
      → eqb (length k.order) (length k.remaining) ≡ false
      → (n : String) × (left tasks k n ≡ true)
  left-some tasks k r h = elim (Bool-cases (all (λ n. has n k.order) (keys (deps_of tasks)))) [
    | inr e ↦
        let (n, m, out) = all-false (λ n. has n k.order) (keys (deps_of tasks)) e in
        (
          n,
          ground (
            arith,
            out,
            sym (deps_of-contains n tasks)
                ∙ sym (keys-has n (deps_of tasks))
                ∙ (has_iff n (keys (deps_of tasks))).1 m,
          ),
        )
    | inl e ↦
        let more =
          Distinct-length (keys (deps_of tasks)) k.order
            (keys-Distinct (deps_of tasks) (deps_of-Unique tasks))
            (λ n m. all-true (λ x. has x k.order) n (keys (deps_of tasks)) e ((has_iff n _).0 m)) in
        let less =
          Distinct-length k.order (keys (deps_of tasks)) r.distinct
            (λ n m. keys-has n (deps_of tasks) ∙ r.known n m) in
        let size = length-keys (deps_of tasks) in
        absurd (ground (arith, h, more, less, size, r.size))
  ]

  -- When a cycle is reported, it is there: some tasks each depend on one of them, and there is at
  -- least one.
  pub topo_order-cycle :
      (tasks : List (TaskSpec Json F64))
      → topo_order tasks ≡ some (err cycle_detected)
      → (stuck : String → Bool) × ((n : String) × (stuck n ≡ true))
        × ((n : String)
            → stuck n ≡ true
            → (named n tasks ≡ true)
              × (d : String) × (any (names n d) tasks ≡ true)
              × (stuck d ≡ true))
  topo_order-cycle tasks h = elim (topo_order_cases tasks) [
    | inl (e, c, q) ↦
        let (n, d, p, m, out) =
          check_known-err (deps_of tasks) (deps_of tasks) e (deps_of-Unique tasks) c in
        absurd (ground (arith, h, q, p))
    | inr (k, c, r, end, q) ↦ (
      left tasks k,
      left-some tasks k r (ordered-err k (some_ok (sym q ∙ h))),
      λ n l. left-depends tasks k n c r end l,
    )
  ]
