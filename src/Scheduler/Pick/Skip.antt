-- ===== src/Scheduler/Pick/Skip.antt =====
-- What `pending_to_skip` of src/scheduler/pick.rs computes, and that its loop ends.
use aegis_fs.Prelude.{
  ℕ, suc, ◌+◌, String, ◌≡◌, refl, ◌∙◌, ◌⊎◌, inl, inr, Bool, true, false, not, ◌&&◌, ◌||◌, Option,
  none, some, List, [], ◌∷◌, any, length, arith, Elem, any_of, Bool-cases, if◌then◌else◌,
}
use mathlib.Core.Bool.{false≢true}
use aegis_fs.Prelude.BTree
use aegis_fs.Prelude.Eq.{◌==◌, string_eq, eq_iff, eq_refl}
use aegis_fs.Prelude.Map.{lookup}
use aegis_fs.Domain.TaskStatus
use aegis_fs.Domain.TaskStatus.{TaskStatus, pending, running, succeeded, failed, skipped}
use aegis_fs.Domain.Workflow.{TaskSpec, WorkflowDef}
use aegis_fs.Scheduler.Pick.{
  States, is_succeeded, status_of, dep_blocked, to_skip, skip_pass, skip_loop, pending_to_skip,
}

add_two : (n : ℕ) → n + 2 ≡ suc (suc n)
add_two n = omega arith

abbrev pub is_pending : String → States → Bool
is_pending name states = TaskStatus.eq (status_of name states) pending

succeeded-insert :
    (k d : String) (m : States)
    → is_pending k m ≡ true
    → is_succeeded (lookup d (BTree.insert k skipped m)) ≡ is_succeeded (lookup d m)
succeeded-insert k d m h = rw (BTree.lookup-insert k d skipped m) (by_status (lookup k m) refl)
  where
    by_status :
        (o : Option TaskStatus)
        → lookup k m ≡ o
        → is_succeeded (if k == d then some skipped else lookup d m) ≡ is_succeeded (lookup d m)
    by_status none e = ground (arith, eq_iff k d)
    by_status (some s) e = ground (arith, eq_iff k d)

pending-insert :
    (k j : String) (m : States)
    → is_pending j (BTree.insert k skipped m) ≡ (if k == j then false else is_pending j m)
pending-insert k j m = rw (BTree.lookup-insert k j skipped m) (ground arith)

any-blocked :
    (deps : List String) (m m' : States)
    → ((d : String) → is_succeeded (lookup d m') ≡ is_succeeded (lookup d m))
    → any (λ d. not (is_succeeded (lookup d m'))) deps
      ≡ any (λ d. not (is_succeeded (lookup d m))) deps
any-blocked [] m m' h = refl
any-blocked (d ∷ deps) m m' h = rw (h d, any-blocked deps m m' h)

module _ {Json F64 : Type 0} where
  -- A task of the list has the name and a dependency that has not succeeded.
  abbrev pub blocked_named : String → States → List (TaskSpec Json F64) → Bool
  blocked_named j m tasks = any (λ t. t.name == j && dep_blocked m t) tasks

  blocked_named-same :
      (j : String) (tasks : List (TaskSpec Json F64)) (m m' : States)
      → ((d : String) → is_succeeded (lookup d m') ≡ is_succeeded (lookup d m))
      → blocked_named j m' tasks ≡ blocked_named j m tasks
  blocked_named-same j [] m m' h = refl
  blocked_named-same j (t ∷ tasks) m m' h =
      rw (any-blocked t.depends_on m m' h, blocked_named-same j tasks m m' h)

  -- The reference: a pending task is skipped when some dependency has not succeeded.
  abbrev pub skip_spec : String → States → List (TaskSpec Json F64) → Option TaskStatus
  skip_spec j m tasks =
      if is_pending j m && blocked_named j m tasks then some skipped else lookup j m

  lookup-skip_pass :
      (tasks : List (TaskSpec Json F64)) (m : States) (c : Bool) (j : String)
      → lookup j (skip_pass tasks m c).0 ≡ skip_spec j m tasks
  unfolding skip_pass
  lookup-skip_pass [] m c j = ground arith
  lookup-skip_pass (t ∷ tasks) m c j = by_test (lookup-skip_pass tasks) (to_skip m t) refl
    where
      by_test :
          ((n : States) (c : Bool) (j : String)
            → lookup j (skip_pass tasks n c).0 ≡ skip_spec j n tasks)
          → (b : Bool) → to_skip m t ≡ b
          → lookup j (skip_pass tasks (if b then BTree.insert t.name skipped m else m) (c || b)).0
            ≡ skip_spec j m (t ∷ tasks)
      by_test ih true h =
          ih (BTree.insert t.name skipped m) (c || true) j
          ∙ rw
              (
                pending-insert t.name j m,
                blocked_named-same j tasks m (BTree.insert t.name skipped m)
                    (λ d. succeeded-insert t.name d m (ground arith)),
                BTree.lookup-insert t.name j skipped m,
              )
              (ground (arith, eq_iff t.name j))
      by_test ih false h = ih m (c || false) j ∙ ground (arith, eq_iff t.name j)

  -- A pass that changes something has found a task to skip in the map that it began with.
  abbrev Found : States → List (TaskSpec Json F64) → Type 0
  Found m tasks = (t : TaskSpec Json F64) × Elem t tasks × (to_skip m t ≡ true)

  skip_pass-changed :
      (tasks : List (TaskSpec Json F64)) (m : States) (c : Bool)
      → (skip_pass tasks m c).1 ≡ true
      → (c ≡ true) ⊎ Found m tasks
  unfolding skip_pass
  skip_pass-changed [] m c h = inl h
  skip_pass-changed (t ∷ tasks) m c h = by_test (skip_pass-changed tasks) (to_skip m t) refl h
    where
      by_test :
          ((n : States) (c : Bool) → (skip_pass tasks n c).1 ≡ true → (c ≡ true) ⊎ Found n tasks)
          → (b : Bool) → to_skip m t ≡ b
          → (skip_pass tasks (if b then BTree.insert t.name skipped m else m) (c || b)).1 ≡ true
          → (c ≡ true) ⊎ Found m (t ∷ tasks)
      by_test ih true e h = inr (t, inl refl, e)
      by_test ih false e h = elim (ih m (c || false) h) [
        | inl q ↦ inl (ground arith)
        | inr (u, k, q) ↦ inr (u, inr k, q)
      ]

  succeeded-pass :
      (tasks : List (TaskSpec Json F64)) (m : States) (c : Bool) (d : String)
      → is_succeeded (lookup d (skip_pass tasks m c).0) ≡ is_succeeded (lookup d m)
  succeeded-pass tasks m c d = rw (lookup-skip_pass tasks m c d) (ground arith)

  -- After one pass nothing is left to skip.
  settled :
      (tasks : List (TaskSpec Json F64)) (m : States) (c : Bool)
      → (skip_pass tasks (skip_pass tasks m c).0 false).1 ≡ false
  settled tasks m c = elim (Bool-cases (skip_pass tasks (skip_pass tasks m c).0 false).1) [
    | inr e ↦ e
    | inl e ↦ elim (skip_pass-changed tasks (skip_pass tasks m c).0 false e) [
      | inl q ↦ absurd (false≢true q)
      | inr (t, k, q) ↦ absurd (none_left t k q)
    ]
  ]
    where
      after : States
      after = (skip_pass tasks m c).0

      none_left : (t : TaskSpec Json F64) → Elem t tasks → to_skip after t ≡ true → ⊥
      none_left t k q = elim (Bool-cases (dep_blocked m t)) [
        | inl b ↦ ground (
          arith,
          lookup-skip_pass tasks m c t.name,
          any_of (λ u. u.name == t.name && dep_blocked m u) t tasks k (rw (b, eq_refl t.name)),
        )
        | inr b ↦
            ground
              (arith, any-blocked t.depends_on m (skip_pass tasks m c).0 (succeeded-pass tasks m c))
      ]

  skip_pass-true :
      (tasks : List (TaskSpec Json F64)) (m : States) → (skip_pass tasks m true).1 ≡ true
  unfolding skip_pass
  skip_pass-true [] m = refl
  skip_pass-true (t ∷ tasks) m =
      skip_pass-true tasks (if to_skip m t then BTree.insert t.name skipped m else m)

  -- A pass that reports no change has made none.
  skip_pass_unchanged :
      (tasks : List (TaskSpec Json F64)) (m : States)
      → (skip_pass tasks m false).1 ≡ false
      → (skip_pass tasks m false).0 ≡ m
  unfolding skip_pass
  skip_pass_unchanged [] m h = refl
  skip_pass_unchanged (t ∷ tasks) m h = by_test (skip_pass_unchanged tasks m) (to_skip m t) h
    where
      by_test :
          ((skip_pass tasks m false).1 ≡ false → (skip_pass tasks m false).0 ≡ m)
          → (b : Bool)
          → (skip_pass tasks (if b then BTree.insert t.name skipped m else m) b).1 ≡ false
          → (skip_pass tasks (if b then BTree.insert t.name skipped m else m) b).0 ≡ m
      by_test ih true h = absurd (cc (skip_pass-true tasks (BTree.insert t.name skipped m)))
      by_test ih false h = ih h

  -- The loop makes one pass, or two of which the second changes nothing.
  skip_loop_ends :
      (fuel : ℕ) (tasks : List (TaskSpec Json F64)) (m : States)
      → skip_loop (suc (suc fuel)) tasks m ≡ some (skip_pass tasks m false).0
  unfolding skip_loop
  skip_loop_ends fuel tasks m = elim (Bool-cases (skip_pass tasks m false).1) [
    | inl h ↦ rw (
      h,
      settled tasks m false,
      skip_pass_unchanged tasks (skip_pass tasks m false).0 (settled tasks m false),
    )
    | inr h ↦ rw h
  ]

  -- The loop ends within its fuel, and what it returns gives each name the status of the reference:
  -- `skipped` to a pending task with some dependency that has not succeeded, and to every other name
  -- the status it had.
  pub pending_to_skip_lem :
      (def : WorkflowDef Json F64) (states : States)
      → (after : States) × (pending_to_skip def states ≡ some after)
        × ((j : String) → lookup j after ≡ skip_spec j states def.tasks)
  unfolding pending_to_skip
  pending_to_skip_lem def states = (
    (skip_pass def.tasks states false).0,
    rw (add_two (length def.tasks)) (skip_loop_ends (length def.tasks) def.tasks states),
    lookup-skip_pass def.tasks states false,
  )
