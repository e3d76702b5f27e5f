-- ===== src/State/TaskFsm/Paths.antt =====
-- The task machine of src/state/task_fsm.rs against the diagram in its source, and its paths.
use aegis_fs.Prelude.{◌≡◌, refl, ◌↔◌, ◌⊎◌, true, [], arith}
use aegis_fs.Prelude.Result.{ok}
use aegis_fs.Domain.TaskStatus.{TaskStatus, pending, running, succeeded, failed, skipped}
use aegis_fs.State.TaskFsm.{can_transition, validate, allowed_targets}

-- The edges of the diagram.
infix 40 ◌⟶◌ ◌⟶*◌
pub data ◌⟶◌ : TaskStatus → TaskStatus → Type 0 where
  start : pending ⟶ running
  abort : pending ⟶ failed
  skip : pending ⟶ skipped
  succeed : running ⟶ succeeded
  fail : running ⟶ failed
  retry : failed ⟶ running

ruleset edges = (start, abort, skip, succeed, fail, retry)

can_transition-of : {a b : TaskStatus} → a ⟶ b → can_transition a b ≡ true
unfolding can_transition
can_transition-of start = refl
can_transition-of abort = refl
can_transition-of skip = refl
can_transition-of succeed = refl
can_transition-of fail = refl
can_transition-of retry = refl

edge-of : (a b : TaskStatus) → can_transition a b ≡ true → a ⟶ b
unfolding can_transition
edge-of a b h = grind (arith, edges)

-- Paths of the machine.
pub data ◌⟶*◌ : TaskStatus → TaskStatus → Type 0 where
  here : {a : TaskStatus} → a ⟶* a
  then : {a b c : TaskStatus} → a ⟶ b → b ⟶* c → a ⟶* c

-- `validate` accepts exactly the edges of the diagram; every status is reached from `pending`; and
-- no path leads back to `pending`.
pub validate_paths :
    (a b : TaskStatus)
    → ((validate a b ≡ ok tt) ↔ (a ⟶ b)) × (pending ⟶* a) × (a ⟶* pending → a ≡ pending)
unfolding validate
validate_paths a b =
    ((λ h. edge-of a b (ground arith), λ e. ground (arith, can_transition-of e)), reach a, back)
  where
    reach : (a : TaskStatus) → pending ⟶* a
    reach pending = here
    reach a = search (here, then, edges)

    back : {a : TaskStatus} → a ⟶* pending → a ≡ pending
    back p = last p refl
      where
        last : {a b : TaskStatus} → a ⟶* b → b ≡ pending → a ≡ pending
        last here e = e
        last (then start p) e = absurd (cc (last p e))
        last (then abort p) e = absurd (cc (last p e))
        last (then skip p) e = absurd (cc (last p e))
        last (then succeed p) e = absurd (cc (last p e))
        last (then fail p) e = absurd (cc (last p e))
        last (then retry p) e = absurd (cc (last p e))

-- A task that succeeded or was skipped has no allowed target; every other has one.
pub allowed_targets-nil_iff :
    (a : TaskStatus) → (allowed_targets a ≡ []) ↔ ((a ≡ succeeded) ⊎ (a ≡ skipped))
unfolding allowed_targets can_transition
allowed_targets-nil_iff pending = (λ h. absurd (cc), λ f. ground arith)
allowed_targets-nil_iff running = (λ h. absurd (cc), λ f. ground arith)
allowed_targets-nil_iff failed = (λ h. absurd (cc), λ f. ground arith)
allowed_targets-nil_iff succeeded = (λ h. ground arith, λ f. refl)
allowed_targets-nil_iff skipped = (λ h. ground arith, λ f. refl)
