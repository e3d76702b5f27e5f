-- ===== src/Domain/Dag/Unknown.antt =====
-- src/domain/dag.rs: the error on an unknown dependency.
use aegis_fs.Prelude.{String, true, false, some, List, any, ◌≡◌, arith, inl, inr, ◌∙◌, sym}
use aegis_fs.Prelude.Eq.{string_eq}
use aegis_fs.Prelude.Result.{err}
use aegis_fs.Domain.Dag.{topo_order}
use aegis_fs.Domain.Dag.Depends.{named, names}
use aegis_fs.Domain.Dag.Known.{check_known-ok, check_known-err}
use aegis_fs.Domain.Error.{unknown_dependency}
use aegis_fs.Domain.Workflow.{TaskSpec}
use aegis_fs.Domain.Dag.Ends.{
  deps_of, deps_of-contains, deps_of-depends, deps_of-Unique, topo_order_cases,
}

same_unknown :
    (d n d' n' : String) → unknown_dependency d n ≡ unknown_dependency d' n' → (d ≡ d') × (n ≡ n')
same_unknown d n d' n' h = ground (arith, h)

module _ {Json F64 : Type 0} where
  -- An unknown dependency is reported of a task that has it and of a name that no task has; and if
  -- some task depends on a name that no task has, then such an error is what is returned.
  pub topo_order-unknown :
      (tasks : List (TaskSpec Json F64))
      → ((n d : String)
          → topo_order tasks ≡ some (err (unknown_dependency d n))
          → (any (names n d) tasks ≡ true) × (named d tasks ≡ false))
        × ((n d : String)
            → any (names n d) tasks ≡ true
            → named d tasks ≡ false
            → (d' : String) × (n' : String) × (topo_order tasks
                ≡ some (err (unknown_dependency d' n'))))
  topo_order-unknown tasks = (
    λ n d h. elim (topo_order_cases tasks) [
      | inr (k, c, r, end, q) ↦ absurd (ground (arith, h, q))
      | inl (e, c, q) ↦
          let (n', d', p, m, out) =
            check_known-err (deps_of tasks) (deps_of tasks) e (deps_of-Unique tasks) c in
          let w : unknown_dependency d n ≡ unknown_dependency d' n' = ground (arith, h, q, p) in
          let (wd, wn) = same_unknown d n d' n' w in
          rw (wd, wn) (sym (deps_of-depends n' d' tasks) ∙ m, sym (deps_of-contains d' tasks) ∙ out)
    ],
    λ n d m out. elim (topo_order_cases tasks) [
      | inl (e, c, q) ↦
          let (n', d', p, _, _) =
            check_known-err (deps_of tasks) (deps_of tasks) e (deps_of-Unique tasks) c in
          (d', n', rw (← p) q)
      | inr (k, c, r, end, q) ↦ absurd (
          ground (
            arith,
            check_known-ok (deps_of tasks) (deps_of tasks) n d c (deps_of-depends n d tasks ∙ m),
            deps_of-contains d tasks,
            out,
          ))
    ],
  )
