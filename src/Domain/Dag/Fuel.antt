-- ===== src/Domain/Dag/Fuel.antt =====
-- src/domain/dag.rs: the loop ends within as many rounds as there are tasks.
use aegis_fs.Prelude.{
  ℕ, zero, suc, ◌+◌, ◌≤◌, String, true, false, not, Option-cases, some, List, [], ◌∷◌, length,
  count_if, ◌≡◌, refl, arith, Bool-cases, inl, inr,
}
use aegis_fs.Prelude.BTree
use aegis_fs.Prelude.Eq.{string_eq, eq_refl}
use aegis_fs.Prelude.Map.{remove, contains_key, lookup}
use aegis_fs.Prelude.Result.{Result, ok, err}
use aegis_fs.Domain.Dag.{
  NameSet, Deps, Kahn, is_empty, frontier, draining, drop_dep, admit, emit, next_of, kahn, start,
  ordered, plan, dependency_map, check_known, topo_order,
}
use aegis_fs.Domain.Dag.Sets.{next_of-empty}
use aegis_fs.Domain.Error.{DomainError}
use aegis_fs.Domain.Workflow.{TaskSpec}

-- How many names still wait for a dependency.
abbrev waiting : Deps → ℕ
waiting deps = count_if (λ e. not (is_empty e.1)) deps

length-remove : (k : String) (s : NameSet) → length (remove k s) ≤ length s
unfolding remove
length-remove k [] = omega arith
length-remove k (e ∷ s) = ground (arith, length-remove k s)

length-remove_first :
    (k : String) (s : NameSet) → next_of s ≡ some k → suc (length (remove k s)) ≤ length s
unfolding remove
length-remove_first k [] h = absurd (cc)
length-remove_first k ((j, v) ∷ s) h = ground (arith, length-remove k s, eq_refl k)

length-insert : (k : String) (s : NameSet) → length (BTree.insert k tt s) ≤ suc (length s)
unfolding BTree.insert
length-insert k [] = omega arith
length-insert k ((j, v) ∷ s) = ground (arith, length-insert k s)

length-admit :
    (emitted : NameSet) (names : List String) (ready : NameSet)
    → length (admit emitted names ready) ≤ length names + length ready
unfolding admit
length-admit emitted [] ready = omega arith
length-admit emitted (n ∷ names) ready = elim (Bool-cases (contains_key n emitted)) [
  | inl e ↦ rw (admit, e) (let le = length-admit emitted names ready in omega arith)
  | inr e ↦
      rw (admit, e)
        (let le = length-admit emitted names (BTree.insert n tt ready) in
          let more = length-insert n ready in omega arith)
]

nonempty-contains : (k : String) (s : NameSet) → contains_key k s ≡ true → is_empty s ≡ false
unfolding lookup
nonempty-contains k [] h = absurd (cc)
nonempty-contains k (e ∷ s) h = refl

nonempty-remove : (k : String) (s : NameSet) → is_empty s ≡ true → is_empty (remove k s) ≡ true
unfolding remove
nonempty-remove k [] h = refl
nonempty-remove k (e ∷ s) h = absurd (cc)

waiting-drop_dep :
    (next : String) (deps : Deps)
    → waiting (drop_dep next deps) + length (draining next deps) ≤ waiting deps
waiting-drop_dep next [] = omega arith
waiting-drop_dep next ((n, ds) ∷ deps) =
    ground (arith, waiting-drop_dep next deps, nonempty-contains next ds, nonempty-remove next ds)

length-frontier : (deps : Deps) → length (frontier deps) + waiting deps ≤ length deps
unfolding frontier
length-frontier [] = omega arith
length-frontier ((n, ds) ∷ deps) =
    ground (arith, length-frontier deps, length-insert n (frontier deps))

abbrev budget : Kahn → ℕ
budget k = length k.ready + waiting k.remaining

budget-emit :
    (next : String) (k : Kahn) → next_of k.ready ≡ some next → suc (budget (emit next k)) ≤ budget k
budget-emit next k h =
    let a =
      length-admit (BTree.insert next tt k.emitted) (draining next k.remaining)
        (remove next k.ready) in
    let b = waiting-drop_dep next k.remaining in
    let c = length-remove_first next k.ready h in omega arith

kahn-enough : (fuel : ℕ) (k : Kahn) → budget k ≤ fuel → (k' : Kahn) × (kahn fuel k ≡ some k')
unfolding kahn
kahn-enough zero k h = elim (Option-cases (next_of k.ready)) [
  | inl e ↦ (k, rw (kahn, next_of-empty k.ready e) refl)
  | inr (next, e) ↦ let less = budget-emit next k e in absurd (omega arith)
]
kahn-enough (suc fuel) k h = elim (Option-cases (next_of k.ready)) [
  | inl e ↦ (k, rw (kahn, e) refl)
  | inr (next, e) ↦
      let less = budget-emit next k e in
      let (k', q) = kahn-enough fuel (emit next k) (omega arith) in (k', rw (kahn, e) q)
]

pub kahn-start : (deps : Deps) → (k : Kahn) × (kahn (length deps) (start deps) ≡ some k)
kahn-start deps = kahn-enough (length deps) (start deps) (length-frontier deps)

plan-some :
    (deps : Deps) (r : Result DomainError (Unit {0}))
    → (q : Result DomainError (List String)) × (plan deps r ≡ some q)
plan-some deps (err e) = (err e, refl)
plan-some deps (ok _) = let (k, e) = kahn-start deps in (ordered k, rw (plan, e) refl)

module _ {Json F64 : Type 0} where
  -- For every list of tasks, ill-formed or cyclic ones included, an order or an error is returned:
  -- the loop does not run out of fuel.
  pub topo_order-returns :
      (tasks : List (TaskSpec Json F64))
      → (r : Result DomainError (List String)) × (topo_order tasks ≡ some r)
  unfolding topo_order
  topo_order-returns tasks =
      plan-some (dependency_map tasks [])
        (check_known (dependency_map tasks []) (dependency_map tasks []))
