-- ===== src/Domain/Validation/Accepted.antt =====
-- src/domain/validation.rs: which definitions are accepted, and what follows for their tasks.
use Prim.Native.String.{String, count}
use aegis_fs.Prelude.{
  ◌≤◌, ◌<◌, Bool, true, false, not, some, List, [], ◌∷◌, length, ltb, eqb, ◌≡◌, ◌↔◌, refl, ap,
  arith, inl, inr, Elem,
}
use aegis_fs.Prelude.Float.{Float}
use aegis_fs.Prelude.Map.{lookup}
use aegis_fs.Prelude.Names.{Distinct}
use aegis_fs.Prelude.Result.{Result, ok, err, ◌>>=◌, Result-cases}
use aegis_fs.Domain.Dag.{topo_order, validate_edges}
use aegis_fs.Domain.Dag.Fuel.{topo_order-returns}
use aegis_fs.Domain.Dag.Exact.{Arranges, topo_order_iff}
use aegis_fs.Domain.Error.{DomainError, zero_timeout, invalid_name, empty_tasks, too_many_tasks}
use aegis_fs.Domain.RetryPolicy.{PolicyError}
use aegis_fs.Domain.Workflow.{TaskSpec, WorkflowDef, HookSpec, all_hooks}
use aegis_fs.Domain.Validation.{
  is_valid_name, guard, sanitize_description, is_empty_list, check_unique, check_tasks, Url,
  check_hooks, first_checks, last_checks, edges_then, validate_definition,
}
use aegis_fs.Domain.Validation.Conditions.{NameIsValid, name_iff}
use aegis_fs.Domain.Validation.Sound.{
  then-ok, guard-ok, names, HookIsValid, hooks_iff, TaskIsValid, tasks_iff, unique-Distinct,
  Distinct-unique,
}

not-false : (b : Bool) → not b ≡ false → b ≡ true
not-false true h = refl
not-false false h = absurd (cc)

module _ (float : Float) (debug : String → String) (policy_text : PolicyError float.F64 → String)
    (parse_url : String → Result String Url) {Json : Type 0} where
  open float use {F64}

  pub record IsAccepted (def : WorkflowDef Json F64) : Type 0 where
    pub named : NameIsValid def.name
    pub described : count def.description ≤ 512
    pub some_task : 1 ≤ length def.tasks
    pub few_tasks : length def.tasks ≤ 256
    pub distinct : Distinct (names def.tasks)
    pub tasks_valid :
        (t : TaskSpec Json F64) → Elem t def.tasks → TaskIsValid float debug policy_text parse_url t
    pub ordered : (order : List String) × Arranges def.tasks order
    pub timed : 0 < def.timeout_ms
    pub hooks_valid : (h : HookSpec) → Elem h (all_hooks def.hooks) → HookIsValid parse_url h

  abbrev First : WorkflowDef Json F64 → Type 0
  First def =
      (is_valid_name def.name ≡ true)
      × (count def.description ≤ 512)
      × (1 ≤ length def.tasks)
      × (length def.tasks ≤ 256)
      × (check_unique [] def.tasks ≡ ok tt)
      × (check_tasks float debug policy_text parse_url def.tasks ≡ ok tt)

  module _ (def : WorkflowDef Json F64) where
    abbrev unique_then : Result DomainError (Unit {0})
    unique_then =
        check_unique [] def.tasks >>= λ _. check_tasks float debug policy_text parse_url def.tasks

    abbrev many_then : Result DomainError (Unit {0})
    many_then = guard (ltb 256 (length def.tasks)) too_many_tasks >>= λ _. unique_then

    abbrev empty_then : Result DomainError (Unit {0})
    empty_then = guard (is_empty_list def.tasks) empty_tasks >>= λ _. many_then

    abbrev description_then : Result DomainError (Unit {0})
    description_then = sanitize_description def.description >>= λ _. empty_then

    some_task_iff : (ts : List (TaskSpec Json F64)) → (is_empty_list ts ≡ false) ↔ (1 ≤ length ts)
    some_task_iff [] = (λ h. absurd (cc), λ h. absurd (omega arith))
    some_task_iff (t ∷ ts) = (λ h. omega arith, λ h. refl)

    First-of_checks : first_checks float debug policy_text parse_url def ≡ ok tt → First def
    unfolding first_checks
    First-of_checks h =
        let (a, r1) =
          (then-ok (guard (not (is_valid_name def.name)) (invalid_name def.name)) description_then
              tt).0
            h in
        let (b, r2) = (then-ok (sanitize_description def.description) empty_then tt).0 r1 in
        let (c, r3) = (then-ok (guard (is_empty_list def.tasks) empty_tasks) many_then tt).0 r2 in
        let (d, r4) =
          (then-ok (guard (ltb 256 (length def.tasks)) too_many_tasks) unique_then tt).0 r3 in
        let (e, f) =
          (then-ok (check_unique [] def.tasks)
              (check_tasks float debug policy_text parse_url def.tasks) tt).0
            r4 in
        (
          (let n = (guard-ok (not (is_valid_name def.name)) (invalid_name def.name)).0 a in
              not-false (is_valid_name def.name) n),
          ground (arith, b),
          (some_task_iff def.tasks).0 ((guard-ok (is_empty_list def.tasks) empty_tasks).0 c),
          ground (arith, d),
          e,
          f,
        )

    First-to_checks : First def → first_checks float debug policy_text parse_url def ≡ ok tt
    unfolding first_checks
    First-to_checks (a, b, c, d, e, f) =
        let r4 =
          (then-ok (check_unique [] def.tasks)
              (check_tasks float debug policy_text parse_url def.tasks) tt).1
            (e, f) in
        let few : guard (ltb 256 (length def.tasks)) too_many_tasks ≡ ok tt = ground (arith, d) in
        let r3 =
          (then-ok (guard (ltb 256 (length def.tasks)) too_many_tasks) unique_then tt).1
            (few, r4) in
        let filled =
          (guard-ok (is_empty_list def.tasks) empty_tasks).1 ((some_task_iff def.tasks).1 c) in
        let r2 =
          (then-ok (guard (is_empty_list def.tasks) empty_tasks) many_then tt).1 (filled, r3) in
        let short : sanitize_description def.description ≡ ok tt = ground (arith, b) in
        let r1 = (then-ok (sanitize_description def.description) empty_then tt).1 (short, r2) in
        let named =
          (guard-ok (not (is_valid_name def.name)) (invalid_name def.name)).1 (ap not a) in
        (then-ok (guard (not (is_valid_name def.name)) (invalid_name def.name)) description_then
            tt).1
          (named, r1)

    last_iff : (last_checks float debug policy_text parse_url def ≡ ok tt) ↔ (
        (0 < def.timeout_ms)
        × ((h : HookSpec) → Elem h (all_hooks def.hooks) → HookIsValid parse_url h))
    unfolding last_checks
    last_iff =
        let hooks = check_hooks debug parse_url (all_hooks def.hooks) in
        let (to, of) = then-ok (guard (eqb def.timeout_ms 0) zero_timeout) hooks tt in
        let (each, of_each) = hooks_iff debug parse_url (all_hooks def.hooks) in
        (
          λ h. ((let timed = (to h).0 in ground (arith, timed)), each (to h).1),
          λ v. of ((let timed = v.0 in ground (arith, timed)), of_each v.1),
        )

    edges_then_iff :
        (r : Result DomainError (List String))
        → topo_order def.tasks ≡ some r
        → (edges_then float debug policy_text parse_url def (validate_edges def.tasks)
            ≡ some (ok tt))
          ↔ (((order : List String) × (topo_order def.tasks ≡ some (ok order)))
              × (last_checks float debug policy_text parse_url def ≡ ok tt))
    edges_then_iff (ok order) q = rw q (λ h. ((order, refl), ground (arith, h)), λ v. ap some v.1)
    edges_then_iff (err e) q =
        rw q
          (λ h. absurd (ground (arith, h)), λ v. absurd (let same = v.0.1 in ground (arith, same)))

  -- A definition is accepted exactly when: its name has at most 64 bytes, starts with a lower-case
  -- letter and consists of lower-case letters, digits and dashes, and its description has at most 512
  -- characters; it has between 1 and 256 tasks with distinct names; no task has a timeout of 0, a
  -- name of more than 64 bytes, or a retry policy of its own outside of these bounds: 1 to 100
  -- attempts, a base delay from 1 to the maximal delay, which is at most a day, and a finite
  -- multiplier that is not less than one; the names of the tasks can be arranged with every
  -- dependency before its task; the timeout is positive; and the URL of every hook parses, is of http
  -- or https and has a host.
  pub validate_definition_iff :
      (def : WorkflowDef Json F64)
      → (validate_definition float debug policy_text parse_url def ≡ some (ok tt)) ↔ IsAccepted def
  unfolding validate_definition lookup
  validate_definition_iff def =
      let (r, q) = topo_order-returns def.tasks in
      let (edges, of_edges) = edges_then_iff def r q in
      let (last, of_last) = last_iff def in
      elim (Result-cases (first_checks float debug policy_text parse_url def)) [
        | inl (e, bad) ↦ (
          λ h. absurd (ground (arith, h, bad)),
          λ v. absurd (let good = First-to_checks def (first_parts v) in ground (arith, good, bad)),
        )
        | inr (_, good) ↦ (
          λ h.
              (let f = First-of_checks def good in
                let (order, l) = edges (rw good at h) in
                let (timed, hooks) = last l in
                record {
                  named = (name_iff def.name).0 f.0;
                  described = f.1;
                  some_task = f.2;
                  few_tasks = f.3;
                  distinct = (unique-Distinct [] def.tasks f.4).1;
                  tasks_valid = (tasks_iff float debug policy_text parse_url def.tasks).0 f.5;
                  ordered = (topo_order_iff def.tasks).0 order;
                  timed = timed;
                  hooks_valid = hooks;
                }),
          λ v.
              rw good (
                of_edges
                  ((topo_order_iff def.tasks).1 v.ordered, of_last (v.timed, v.hooks_valid))),
        )
      ]
    where
      first_parts : {d : WorkflowDef Json F64} → IsAccepted d → First d
      first_parts {d} v = (
        (name_iff d.name).1 v.named,
        v.described,
        v.some_task,
        v.few_tasks,
        Distinct-unique [] d.tasks (λ n m. refl) v.distinct,
        (tasks_iff float debug policy_text parse_url d.tasks).1 v.tasks_valid,
      )
