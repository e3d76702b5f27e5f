-- ===== src/State/Invariant/Decides.antt =====
-- What src/state/invariant.rs accepts, stated over the tasks without the code's tests.
use aegis_fs.Prelude.{
  ◌≡◌, ◌≢◌, refl, ◌↔◌, ◌⊎◌, inl, inr, String, Bool, true, false, not, none, some, [], ◌∷◌, any, all,
  arith, Elem, any-true, any-false, any_of, all-true, all_of, all-false, find_cases, Bool-cases,
}
use aegis_fs.Prelude.Result.{ok}
use aegis_fs.Domain.RunStatus.{RunStatus}
use aegis_fs.Domain.TaskStatus.{TaskStatus}
use aegis_fs.State.Invariant.{
  Tasks, is_running, is_done, is_failed, is_skipped, check_run_consistency,
}

-- Some task has the status.
abbrev pub Has : TaskStatus → Tasks → Type 0
Has s tasks = (t : String × TaskStatus) × Elem t tasks × (t.1 ≡ s)

-- No task has the status.
abbrev pub HasNo : TaskStatus → Tasks → Type 0
HasNo s tasks = (t : String × TaskStatus) → Elem t tasks → t.1 ≢ s

-- Some task may still progress.
abbrev pub HasOpen : Tasks → Type 0
HasOpen tasks =
    (t : String × TaskStatus) × Elem t tasks
    × ((t.1 ≡ TaskStatus.pending) ⊎ (t.1 ≡ TaskStatus.running))

-- No run status is at odds with the tasks.
abbrev pub Consistent : RunStatus → Tasks → Type 0
Consistent RunStatus.queued tasks = Unit
Consistent RunStatus.cancelled tasks = Unit
Consistent RunStatus.running tasks = HasOpen tasks
Consistent RunStatus.succeeded tasks =
    HasNo TaskStatus.pending tasks × HasNo TaskStatus.running tasks
Consistent RunStatus.failed tasks =
    HasNo TaskStatus.running tasks × (Has TaskStatus.failed tasks ⊎ HasNo TaskStatus.skipped tasks)
Consistent RunStatus.timed_out tasks =
    HasNo TaskStatus.running tasks × (Has TaskStatus.failed tasks ⊎ HasNo TaskStatus.skipped tasks)

any_iff :
    (p : String × TaskStatus → Bool) (s : TaskStatus) (tasks : Tasks)
    → ((t : String × TaskStatus) → (p t ≡ true) ↔ (t.1 ≡ s))
    → ((any p tasks ≡ true) ↔ Has s tasks) × ((any p tasks ≡ false) ↔ HasNo s tasks)
any_iff p s tasks h = (
  (
    λ e. let (t, m, q) = any-true p tasks e in (t, m, (h t).0 q),
    λ (t, m, q). any_of p t tasks m ((h t).1 q),
  ),
  (
    λ e t m q. ground (arith, any-false p t tasks e m, (h t).1 q),
    λ no_one. elim (Bool-cases (any p tasks)) [
      | inl e ↦ let (t, m, q) = any-true p tasks e in absurd (no_one t m ((h t).0 q))
      | inr e ↦ e
    ],
  ),
)

is_running_iff : (t : String × TaskStatus) → (is_running t ≡ true) ↔ (t.1 ≡ TaskStatus.running)
is_running_iff t = ground arith

is_failed_iff : (t : String × TaskStatus) → (is_failed t ≡ true) ↔ (t.1 ≡ TaskStatus.failed)
is_failed_iff t = ground arith

is_skipped_iff : (t : String × TaskStatus) → (is_skipped t ≡ true) ↔ (t.1 ≡ TaskStatus.skipped)
is_skipped_iff t = ground arith

open_iff : (tasks : Tasks) → (all is_done tasks ≡ false) ↔ HasOpen tasks
open_iff tasks = (
  λ e. let (t, m, q) = all-false is_done tasks e in (t, m, ground arith),
  λ (t, m, q). elim (Bool-cases (all is_done tasks)) [
    | inl e ↦ ground (arith, all-true is_done t tasks e m)
    | inr e ↦ e
  ],
)

done_iff :
    (tasks : Tasks)
    → (all is_done tasks ≡ true) ↔ (HasNo TaskStatus.pending tasks × HasNo TaskStatus.running tasks)
done_iff tasks = (
  λ e. (
    λ t m q. ground (arith, all-true is_done t tasks e m),
    λ t m q. ground (arith, all-true is_done t tasks e m),
  ),
  λ h. all_of is_done tasks (λ t m. ground (arith, h.0 t m, h.1 t m)),
)

-- The answer through the three tests on the tasks.
abbrev Answer : RunStatus → Tasks → Type 0
Answer RunStatus.queued tasks = Unit
Answer RunStatus.cancelled tasks = Unit
Answer RunStatus.running tasks = all is_done tasks ≡ false
Answer RunStatus.succeeded tasks = all is_done tasks ≡ true
Answer RunStatus.failed tasks =
    (any is_running tasks ≡ false) × ((any is_failed tasks ≡ true) ⊎ (any is_skipped tasks ≡ false))
Answer RunStatus.timed_out tasks =
    (any is_running tasks ≡ false) × ((any is_failed tasks ≡ true) ⊎ (any is_skipped tasks ≡ false))

not_all-any : (tasks : Tasks) → any (λ t. not (is_done t)) tasks ≡ not (all is_done tasks)
not_all-any [] = refl
not_all-any (t ∷ tasks) = ground (arith, not_all-any tasks)

answer :
    (run : RunStatus) (tasks : Tasks)
    → (check_run_consistency run tasks ≢ none)
      × ((check_run_consistency run tasks ≡ some (ok tt)) ↔ Answer run tasks)
unfolding check_run_consistency
answer RunStatus.queued tasks = ground arith
answer RunStatus.cancelled tasks = ground arith
answer RunStatus.running [] = ground arith
answer RunStatus.running (t ∷ tasks) = ground arith
answer RunStatus.succeeded tasks =
    ground (arith, find_cases (λ t. not (is_done t)) tasks, not_all-any tasks)
answer RunStatus.failed tasks =
    ground (arith, find_cases is_running tasks, find_cases is_skipped tasks)
answer RunStatus.timed_out tasks =
    ground (arith, find_cases is_running tasks, find_cases is_skipped tasks)

-- The check never panics, and it accepts exactly the consistent runs: a running one with an open
-- task, a succeeded one with none, and a failed or timed-out one with no running task and with a
-- failed task if any is skipped. Skipped tasks of other runs, succeeded ones among them, are not
-- looked at, and queued and cancelled runs are accepted always.
pub check-Consistent :
    (run : RunStatus) (tasks : Tasks)
    → (check_run_consistency run tasks ≢ none)
      × ((check_run_consistency run tasks ≡ some (ok tt)) ↔ Consistent run tasks)
check-Consistent run tasks =
    let (total, iff) = answer run tasks in
    (total, (λ h. (bridge run).0 (iff.0 h), λ c. iff.1 ((bridge run).1 c)))
  where
    finished :
        ((any is_running tasks ≡ false)
          × ((any is_failed tasks ≡ true) ⊎ (any is_skipped tasks ≡ false)))
        ↔ (HasNo TaskStatus.running tasks
            × (Has TaskStatus.failed tasks ⊎ HasNo TaskStatus.skipped tasks))
    finished =
        let r = any_iff is_running TaskStatus.running tasks is_running_iff in
        let f = any_iff is_failed TaskStatus.failed tasks is_failed_iff in
        let s = any_iff is_skipped TaskStatus.skipped tasks is_skipped_iff in
        (
          λ (a, b). (r.1.0 a, elim b [ inl x ↦ inl (f.0.0 x) | inr x ↦ inr (s.1.0 x) ]),
          λ (a, b). (r.1.1 a, elim b [ inl x ↦ inl (f.0.1 x) | inr x ↦ inr (s.1.1 x) ]),
        )

    bridge : (run : RunStatus) → Answer run tasks ↔ Consistent run tasks
    bridge RunStatus.queued = (λ h. h, λ h. h)
    bridge RunStatus.cancelled = (λ h. h, λ h. h)
    bridge RunStatus.running = open_iff tasks
    bridge RunStatus.succeeded = done_iff tasks
    bridge RunStatus.failed = finished
    bridge RunStatus.timed_out = finished
