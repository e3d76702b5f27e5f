-- ===== src/Domain/Dag/Order.antt =====
-- src/domain/dag.rs: the order that is returned.
use aegis_fs.Prelude.{String, some, List, map, ◌≡◌, arith, inl, inr, ◌∙◌, sym, Elem, ◌↔◌, Elem-map}
use aegis_fs.Prelude.Eq.{string_eq}
use aegis_fs.Prelude.Result.{ok}
use aegis_fs.Domain.Dag.{topo_order}
use aegis_fs.Prelude.Names.{has_iff, Distinct, Before}
use aegis_fs.Domain.Workflow.{TaskSpec}
use aegis_fs.Domain.Dag.Ends.{
  deps_of-depends, topo_order_cases, named-Elem, names_of, some_ok, ordered-ok, full,
}

module _ {Json F64 : Type 0} where
  -- When an order is returned, it holds the names of the tasks, each once, and no others, and each
  -- dependency of a task stands before the task.
  pub topo_order_lem :
      (tasks : List (TaskSpec Json F64)) (order : List String)
      → topo_order tasks ≡ some (ok order)
      → Distinct order
        × ((n : String) → Elem n order ↔ Elem n (map (λ t. t.name) tasks))
        × ((t : TaskSpec Json F64) (d : String)
            → Elem t tasks
            → Elem d t.depends_on
            → Before d t.name order)
  topo_order_lem tasks order h = elim (topo_order_cases tasks) [
    | inl (e, _, q) ↦ absurd (ground (arith, h, q))
    | inr (k, c, r, end, q) ↦
        let (same, size) = ordered-ok k order (some_ok (sym q ∙ h)) in
        rw (← same) (
          r.distinct,
          λ n. (
            λ m.
                (has_iff n (map (λ t. t.name) tasks)).0 (
                  sym (named-Elem n tasks) ∙ sym (full tasks k r size n) ∙ (has_iff n k.order).1 m),
            λ m. (has_iff n k.order).0 (
                full tasks k r size n
                ∙ named-Elem n tasks
                ∙ (has_iff n (map (λ t. t.name) tasks)).1 m),
          ),
          λ t d m e.
              r.before t.name d
                (full tasks k r size t.name
                  ∙ named-Elem t.name tasks
                  ∙ (has_iff t.name (map (λ t. t.name) tasks)).1 (Elem-map (λ t. t.name) t tasks m))
                (deps_of-depends t.name d tasks ∙ names_of t d tasks m e),
        )
  ]
