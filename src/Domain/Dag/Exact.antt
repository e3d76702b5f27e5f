-- ===== src/Domain/Dag/Exact.antt =====
-- src/domain/dag.rs: when there is an order.
use aegis_fs.Prelude.{
  String, Bool, true, false, refl, some, List, [], ◌∷◌, map, any, any-true, ◌≡◌, arith, inl, inr,
  ◌∙◌, sym, ap, Elem, ◌↔◌, Bool-cases, length, eqb, not, if◌then◌else◌,
}
use aegis_fs.Prelude.Eq.{string_eq, eq_iff}
use aegis_fs.Prelude.Names.{has, has_iff, Distinct, Before}
use aegis_fs.Prelude.Result.{ok, err}
use aegis_fs.Domain.Workflow.{TaskSpec}
use aegis_fs.Domain.Dag.{Kahn, ordered, topo_order}
use aegis_fs.Domain.Dag.Depends.{named, names}
use aegis_fs.Domain.Dag.Ends.{deps_of, deps_of-Unique, topo_order_cases, named-Elem}
use aegis_fs.Domain.Dag.Known.{check_known-err}
use aegis_fs.Domain.Dag.Order.{topo_order_lem}
use aegis_fs.Domain.Dag.Stuck.{topo_order-cycle}
use aegis_fs.Domain.Dag.Unknown.{topo_order-unknown}
use aegis_fs.Domain.Error.{cycle_detected}

Before-later : (x y : String) (zs : List String) → Before x y zs → Elem y zs
Before-later x y [] b = absurd b
Before-later x y (z ∷ zs) (inl (e, m)) = inr m
Before-later x y (z ∷ zs) (inr b) = inr (Before-later x y zs b)

Before-earlier : (x y : String) (zs : List String) → Before x y zs → Elem x zs
Before-earlier x y [] b = absurd b
Before-earlier x y (z ∷ zs) (inl (e, m)) = inl e
Before-earlier x y (z ∷ zs) (inr b) = inr (Before-earlier x y zs b)

-- Names that are each behind one of them are none.
none_stuck :
    (stuck : String → Bool) (order : List String)
    → Distinct order
    → ((n : String)
        → Elem n order
        → stuck n ≡ true
        → (d : String) × (stuck d ≡ true) × Before d n order)
    → (n : String) → Elem n order
    → stuck n ≡ false
none_stuck stuck [] distinct behind n m = absurd m
none_stuck stuck (z ∷ zs) (new, distinct) behind n m = elim m [
  | inl e ↦ ap stuck e ∙ first
  | inr later ↦ none_stuck stuck zs distinct rest n later
]
  where
    not_behind : Elem z zs → ⊥
    not_behind there = absurd (ground (arith, new, (has_iff z zs).1 there))

    first : stuck z ≡ false
    first = elim (Bool-cases (stuck z)) [
      | inr free ↦ free
      | inl held ↦
          let (d, _, before) = behind z (inl refl) held in
          absurd (elim before [
            | inl (_, there) ↦ not_behind there
            | inr b ↦ not_behind (Before-later d z zs b)
          ])
    ]

    rest :
        (n : String) → Elem n zs → stuck n ≡ true → (d : String) × (stuck d ≡ true) × Before d n zs
    rest n there held =
        let (d, also, before) = behind n (inr there) held in
        elim before [ inl (e, _) ↦ absurd (cc (also, ap stuck e, first)) | inr b ↦ (d, also, b) ]

chosen : (k : Kahn) → eqb (length k.order) (length k.remaining) ≡ true → ordered k ≡ ok k.order
chosen k e = ap (λ b. if not b then err cycle_detected else ok k.order) e

refused :
    (k : Kahn) → eqb (length k.order) (length k.remaining) ≡ false → ordered k ≡ err cycle_detected
refused k e = ap (λ b. if not b then err cycle_detected else ok k.order) e

module _ {Json F64 : Type 0} where
  -- An arrangement of the tasks' names, each once, with every dependency before its task.
  abbrev pub Arranges : List (TaskSpec Json F64) → List String → Type 0
  Arranges tasks order =
      Distinct order
      × ((n : String) → Elem n order ↔ Elem n (map (λ t. t.name) tasks))
      × ((t : TaskSpec Json F64) (d : String)
          → Elem t tasks
          → Elem d t.depends_on
          → Before d t.name order)

  depends-Before :
      (tasks : List (TaskSpec Json F64)) (order : List String) (n d : String)
      → Arranges tasks order
      → any (names n d) tasks ≡ true
      → Before d n order
  depends-Before tasks order n d (_, _, before) h =
      let (t, m, e) = any-true (names n d) tasks h in
      let same : t.name ≡ n = (eq_iff t.name n).0 (ground arith) in
      let needs : has d t.depends_on ≡ true = ground arith in
      rw (← same) (before t d m ((has_iff d t.depends_on).0 needs))

  named-order :
      (tasks : List (TaskSpec Json F64)) (order : List String) (n : String)
      → Arranges tasks order
      → Elem n order ↔ (named n tasks ≡ true)
  named-order tasks order n (_, same, _) =
      let (to, of) = has_iff n (map (λ t. t.name) tasks) in
      (
        λ m. named-Elem n tasks ∙ of ((same n).0 m),
        λ h. (same n).1 (to (sym (named-Elem n tasks) ∙ h)),
      )

  topo_order-of_arrangement :
      (tasks : List (TaskSpec Json F64)) (order : List String)
      → Arranges tasks order
      → (found : List String) × (topo_order tasks ≡ some (ok found))
  topo_order-of_arrangement tasks order arranged = elim (topo_order_cases tasks) [
    | inl (e, c, q) ↦
        let (n, d, p, _, _) =
          check_known-err (deps_of tasks) (deps_of tasks) e (deps_of-Unique tasks) c in
        let (needs, missing) = (topo_order-unknown tasks).0 n d (rw (← p) q) in
        let there = Before-earlier d n order (depends-Before tasks order n d arranged needs) in
        absurd (cc (missing, (named-order tasks order d arranged).0 there))
    | inr (k, c, r, end, q) ↦ elim (Bool-cases (eqb (length k.order) (length k.remaining))) [
      | inl e ↦ (k.order, q ∙ ap some (chosen k e))
      | inr e ↦
          let (stuck, (n, held), behind) = topo_order-cycle tasks (q ∙ ap some (refused k e)) in
          let free =
            none_stuck stuck order arranged.0
              (λ n m h.
                let (_, d, needs, also) = behind n h in
                (d, also, depends-Before tasks order n d arranged needs))
              n ((named-order tasks order n arranged).1 (behind n held).0) in
          absurd (cc (held, free))
    ]
  ]

  -- An order is returned exactly if the tasks can be arranged so.
  pub topo_order_iff :
      (tasks : List (TaskSpec Json F64))
      → ((order : List String) × (topo_order tasks ≡ some (ok order)))
        ↔ ((order : List String) × Arranges tasks order)
  topo_order_iff tasks = (
    λ (order, q). (order, topo_order_lem tasks order q),
    λ (order, arranged). topo_order-of_arrangement tasks order arranged,
  )
