-- ===== src/Domain/Dag/Known.antt =====
-- src/domain/dag.rs: the check that every dependency is a task.
use aegis_fs.Prelude.{
  String, true, false, not, Option-cases, none, some, [], ◌∷◌, ◌≡◌, refl, arith, inl, inr,
  Bool-cases, sym, ◌∙◌, find-none, find-some, any-false,
}
use aegis_fs.Prelude.Eq.{string_eq, ◌==◌, eq_iff}
use aegis_fs.Prelude.Map.{Map, lookup, contains_key}
use aegis_fs.Prelude.Result.{ok, err}
use aegis_fs.Prelude.Unique.{Unique}
use aegis_fs.Domain.Dag.{NameSet, Deps, keys, unknown_in, check_known}
use aegis_fs.Domain.Dag.Depends.{depends}
use aegis_fs.Prelude.Names.{has, has_iff}
use aegis_fs.Domain.Error.{DomainError, unknown_dependency}

pub keys-has : {V : Type 0} (n : String) (m : Map String V) → has n (keys m) ≡ contains_key n m
unfolding lookup
keys-has n [] = refl
keys-has n ((k, v) ∷ m) = ground (arith, keys-has n m)

unknown_in-none :
    (deps : Deps) (ds : NameSet) (d : String)
    → unknown_in deps ds ≡ none
    → contains_key d ds ≡ true
    → contains_key d deps ≡ true
unknown_in-none deps ds d h m =
    let out =
      any-false (λ x. not (contains_key x deps)) d (keys ds) (find-none _ (keys ds) h)
        ((has_iff d (keys ds)).0 (keys-has d ds ∙ m)) in
    ground (arith, out)

unknown_in-some :
    (deps : Deps) (ds : NameSet) (d : String)
    → unknown_in deps ds ≡ some d
    → (contains_key d ds ≡ true) × (contains_key d deps ≡ false)
unknown_in-some deps ds d h =
    let (m, q) = find-some (λ x. not (contains_key x deps)) (keys ds) d h in
    (sym (keys-has d ds) ∙ (has_iff d (keys ds)).1 m, ground (arith, q))

pub check_known-ok :
    (deps rest : Deps) (n d : String)
    → check_known deps rest ≡ ok tt
    → depends n d rest ≡ true
    → contains_key d deps ≡ true
unfolding check_known lookup
check_known-ok deps [] n d h m = absurd (cc)
check_known-ok deps ((k, ds) ∷ rest) n d h m = elim (Option-cases (unknown_in deps ds)) [
  | inl e ↦ elim (Bool-cases (k == n)) [
    | inl q ↦ unknown_in-none deps ds d e (ground (arith, m, q))
    | inr q ↦ check_known-ok deps rest n d (ground (arith, h, e)) (ground (arith, m, q))
  ]
  | inr (x, e) ↦ absurd (ground (arith, h, e))
]

pub check_known-err :
    (deps rest : Deps) (e : DomainError)
    → Unique rest
    → check_known deps rest ≡ err e
    → (n : String) × (d : String) × (e ≡ unknown_dependency d n)
      × (depends n d rest ≡ true)
      × (contains_key d deps ≡ false)
unfolding check_known lookup
check_known-err deps [] e u h = absurd (cc)
check_known-err deps ((k, ds) ∷ rest) e u h = elim (Option-cases (unknown_in deps ds)) [
  | inl q ↦
      let (n, d, p, m, out) = check_known-err deps rest e u.1 (ground (arith, h, q)) in
      (n, d, p, ground (arith, m, u.0, eq_iff k n), out)
  | inr (d, q) ↦
      let (m, out) = unknown_in-some deps ds d q in
      (k, d, ground (arith, h, q), ground (arith, m, eq_iff k k), out)
]
