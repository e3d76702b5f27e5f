-- ===== src/Domain/Versioning/Report.antt =====
-- src/domain/versioning.rs: when two versions are compatible.
use aegis_fs.Prelude.{
  String, Bool, true, false, not, ◌||◌, Option, none, some, List, [], ◌∷◌, ◌++◌, any, Elem,
  any-false, any-true, ◌≡◌, ◌↔◌, refl, arith, inl, inr, if◌then◌else◌, Bool-cases, Option-cases,
  sym, ◌∙◌,
}
use aegis_fs.Prelude.BTree
use aegis_fs.Prelude.BTree.{lookup-insert}
use aegis_fs.Prelude.BTree.Keys.{Ascending, insert-Ascending, Ascending-Unique}
use aegis_fs.Prelude.Eq.{string_eq, ◌==◌, eq_iff}
use aegis_fs.Prelude.Map.{lookup, contains_key}
use aegis_fs.Prelude.Unique.{lookup-of-Elem, Elem-of-lookup}
use aegis_fs.Domain.Workflow.{TaskSpec, WorkflowDef}
use aegis_fs.Domain.Versioning.{
  CompatibilityIssue, is_breaking, Specs, specs_of, removed_tasks, changed_task, changed_handler,
  added_deps, changed_tasks, reduced_timeout, issues_of, analyze,
}

abbrev breaks : List CompatibilityIssue → Bool
breaks issues = any (λ i. is_breaking i.severity) issues

breaks-append : (xs ys : List CompatibilityIssue) → breaks (xs ++ ys) ≡ (breaks xs || breaks ys)
breaks-append [] ys = refl
breaks-append (x ∷ xs) ys = ground (arith, breaks-append xs ys)

abbrev pub or_else {ℓ} : {A : Type ℓ} → Option A → Option A → Option A
or_else (some a) o = some a
or_else none o = o

or_else-none {ℓ} : {A : Type ℓ} (o : Option A) → or_else o none ≡ o
or_else-none none = refl
or_else-none (some a) = refl

module _ {Json F64 : Type 0} where
  -- The last task of a list that is called `n`.
  abbrev pub last_named : String → List (TaskSpec Json F64) → Option (TaskSpec Json F64)
  last_named n [] = none
  last_named n (t ∷ ts) = or_else (last_named n ts) (if t.name == n then some t else none)

  specs_of-lookup :
      (n : String) (ts : List (TaskSpec Json F64)) (m : Specs Json F64)
      → lookup n (specs_of ts m) ≡ or_else (last_named n ts) (lookup n m)
  unfolding specs_of
  specs_of-lookup n [] m = refl
  specs_of-lookup n (t ∷ ts) m =
      specs_of-lookup n ts (BTree.insert t.name t m)
      ∙ rw (lookup-insert t.name n t m) (ground arith)

  specs_of-Ascending :
      (ts : List (TaskSpec Json F64)) (m : Specs Json F64) → Ascending m → Ascending (specs_of ts m)
  unfolding specs_of
  specs_of-Ascending [] m a = a
  specs_of-Ascending (t ∷ ts) m a =
      specs_of-Ascending ts (BTree.insert t.name t m) (insert-Ascending t.name t m a)

  specs_of-last :
      (n : String) (ts : List (TaskSpec Json F64)) → lookup n (specs_of ts []) ≡ last_named n ts
  unfolding lookup
  specs_of-last n ts = specs_of-lookup n ts [] ∙ or_else-none (last_named n ts)

  specs_of-Elem :
      (n : String) (t : TaskSpec Json F64) (ts : List (TaskSpec Json F64))
      → Elem (n, t) (specs_of ts []) ↔ (last_named n ts ≡ some t)
  specs_of-Elem n t ts = (
    λ m.
        sym (specs_of-last n ts)
        ∙ lookup-of-Elem n t (specs_of ts [])
            (Ascending-Unique (specs_of ts []) (specs_of-Ascending ts [] tt)) m,
    λ e. Elem-of-lookup n t (specs_of ts []) (specs_of-last n ts ∙ e),
  )

  abbrev gone : Specs Json F64 → String × TaskSpec Json F64 → Bool
  gone new entry = not (contains_key entry.0 new)

  removed_tasks-breaks :
      (new old : Specs Json F64) → breaks (removed_tasks new old) ≡ any (gone new) old
  unfolding removed_tasks
  removed_tasks-breaks new [] = refl
  removed_tasks-breaks new (entry ∷ old) = ground (arith, removed_tasks-breaks new old)

  abbrev rehandled : Option (TaskSpec Json F64) → TaskSpec Json F64 → Bool
  rehandled none new = false
  rehandled (some old) new = not (old.handler == new.handler)

  changed_task-breaks :
      (name : String) (old : Option (TaskSpec Json F64)) (new : TaskSpec Json F64)
      → breaks (changed_task name old new) ≡ rehandled old new
  changed_task-breaks name none new = refl
  changed_task-breaks name (some old) new =
      breaks-append (changed_handler name old new) (added_deps name old new) ∙ ground arith

  changed_tasks-breaks :
      (old new : Specs Json F64)
      → breaks (changed_tasks old new) ≡ any (λ entry. rehandled (lookup entry.0 old) entry.1) new
  unfolding changed_tasks
  changed_tasks-breaks old [] = refl
  changed_tasks-breaks old (entry ∷ new) =
      breaks-append (changed_task entry.0 (lookup entry.0 old) entry.1) (changed_tasks old new)
      ∙ rw (changed_task-breaks entry.0 (lookup entry.0 old) entry.1, changed_tasks-breaks old new)

  -- Every task name of `old` is in `new`, with the same handler; of tasks with one name, the last counts.
  abbrev pub Keeps : (old new : List (TaskSpec Json F64)) → Type 0
  Keeps old new =
      (n : String) (o : TaskSpec Json F64)
      → last_named n old ≡ some o
      → (w : TaskSpec Json F64) × (last_named n new ≡ some w) × (o.handler ≡ w.handler)

  module _ (old new : List (TaskSpec Json F64)) where
    abbrev olds : Specs Json F64
    olds = specs_of old []

    abbrev news : Specs Json F64
    news = specs_of new []

    abbrev reh : String × TaskSpec Json F64 → Bool
    reh entry = rehandled (lookup entry.0 olds) entry.1

    kept : any (gone news) olds ≡ false → any reh news ≡ false → Keeps old new
    kept e f n o h =
        let present = any-false (gone news) (n, o) olds e ((specs_of-Elem n o old).1 h) in
        elim (Option-cases (lookup n news)) [
          | inl q ↦ absurd (ground (arith, q, present))
          | inr (w, q) ↦
              let there = sym (specs_of-last n new) ∙ q in
              let same = any-false reh (n, w) news f ((specs_of-Elem n w new).1 there) in
              let before = specs_of-last n old ∙ h in
              (w, there, ground (arith, before, same, eq_iff o.handler w.handler))
        ]

    none_gone : Keeps old new → any (gone news) olds ≡ false
    none_gone k = elim (Bool-cases (any (gone news) olds)) [
      | inr e ↦ e
      | inl e ↦
          let ((n, o), m, q) = any-true (gone news) olds e in
          let (w, there, _) = k n o ((specs_of-Elem n o old).0 m) in
          let found = specs_of-last n new ∙ there in absurd (ground (arith, q, found))
    ]

    none_rehandled : Keeps old new → any reh news ≡ false
    none_rehandled k = elim (Bool-cases (any reh news)) [
      | inr e ↦ e
      | inl e ↦
          let ((n, w), m, q) = any-true reh news e in
          let there = (specs_of-Elem n w new).0 m in
          elim (Option-cases (lookup n olds)) [
            | inl l ↦ absurd (ground (arith, q, l))
            | inr (o, l) ↦
                let (w', there', same) = k n o (sym (specs_of-last n old) ∙ l) in
                absurd (ground (arith, q, l, there, there', same, eq_iff o.handler w.handler))
          ]
    ]

  issues_of-breaks :
      (old new : WorkflowDef Json F64)
      → breaks (issues_of old new) ≡ (
          any (gone (news old.tasks new.tasks)) (olds old.tasks new.tasks)
          || (any (reh old.tasks new.tasks) (news old.tasks new.tasks) || false))
  issues_of-breaks old new =
      let o = specs_of old.tasks [] in
      let n = specs_of new.tasks [] in
      let third : breaks (reduced_timeout old new) ≡ false = ground arith in
      breaks-append (removed_tasks n o) (changed_tasks o n ++ reduced_timeout old new)
      ∙ rw
          (
            breaks-append (changed_tasks o n) (reduced_timeout old new),
            removed_tasks-breaks n o,
            changed_tasks-breaks o n,
            third,
          )
          refl

  -- Two versions are reported as compatible exactly when every task name of the old one is in the new
  -- one with the same handler; neither an added dependency nor a reduced timeout counts. Where a
  -- version has several tasks with one name, the last of them counts.
  pub analyze_lem :
      (old new : WorkflowDef Json F64)
      → ((analyze old new).is_backward_compatible ≡ true) ↔ Keeps old.tasks new.tasks
  unfolding analyze
  analyze_lem old new =
      let whole = issues_of-breaks old new in
      (
        λ h. kept old.tasks new.tasks (ground (arith, h, whole)) (ground (arith, h, whole)),
        λ k. rw (whole, none_gone old.tasks new.tasks k, none_rehandled old.tasks new.tasks k) refl,
      )
