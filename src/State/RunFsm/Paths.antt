-- ===== src/State/RunFsm/Paths.antt =====
-- The run machine of src/state/run_fsm.rs against the diagram in its header, and the paths of it.
use aegis_fs.Prelude.{◌≡◌, refl, ◌≢◌, ◌↔◌, ◌⊎◌, true, [], arith}
use aegis_fs.Prelude.Int.{ℤ}
use aegis_fs.Prelude.Result.{ok}
use aegis_fs.Domain.RunStatus.{
  RunStatus, queued, running, succeeded, failed, cancelled, timed_out, is_terminal,
}
use aegis_fs.State.Machine.{record_transition}
use aegis_fs.State.RunFsm.{can_transition, validate, allowed_targets, record_run}

-- The edges of the diagram.
infix 40 ◌⟶◌ ◌⟶*◌
pub data ◌⟶◌ : RunStatus → RunStatus → Type 0 where
  start : queued ⟶ running
  withdraw : queued ⟶ cancelled
  succeed : running ⟶ succeeded
  fail : running ⟶ failed
  cancel : running ⟶ cancelled
  expire : running ⟶ timed_out
  retry : failed ⟶ queued
  give_up : failed ⟶ cancelled

ruleset edges = (start, withdraw, succeed, fail, cancel, expire, retry, give_up)

can_transition-of : {a b : RunStatus} → a ⟶ b → can_transition a b ≡ true
unfolding can_transition
can_transition-of start = refl
can_transition-of withdraw = refl
can_transition-of succeed = refl
can_transition-of fail = refl
can_transition-of cancel = refl
can_transition-of expire = refl
can_transition-of retry = refl
can_transition-of give_up = refl

edge-of : (a b : RunStatus) → can_transition a b ≡ true → a ⟶ b
unfolding can_transition
edge-of a b h = grind (arith, edges)

-- `validate` and `record` accept a transition exactly when it is an edge of the diagram, and the
-- record holds the two statuses and the time.
pub validate_iff :
    (a b : RunStatus) (at_ms : ℤ)
    → ((validate a b ≡ ok tt) ↔ (a ⟶ b))
      × ((record_run a b at_ms ≡ ok (record_transition a b at_ms)) ↔ (a ⟶ b))
unfolding validate record_run
validate_iff a b at_ms = (
  (λ h. edge-of a b (ground arith), λ e. ground (arith, can_transition-of e)),
  (λ h. edge-of a b (ground arith), λ e. ground (arith, can_transition-of e)),
)

-- Paths of the machine.
pub data ◌⟶*◌ : RunStatus → RunStatus → Type 0 where
  here : {a : RunStatus} → a ⟶* a
  then : {a b c : RunStatus} → a ⟶ b → b ⟶* c → a ⟶* c

-- The statuses that no edge leaves.
abbrev pub Final : RunStatus → Type 0
Final a = (a ≡ succeeded) ⊎ (a ≡ cancelled) ⊎ (a ≡ timed_out)

-- A status has no allowed target exactly when it is `succeeded`, `cancelled` or `timed_out`; and no
-- path of the machine leaves these.
pub allowed_targets-Final :
    (a : RunStatus)
    → ((allowed_targets a ≡ []) ↔ Final a) × ((b : RunStatus) → Final a → a ⟶* b → b ≡ a)
unfolding allowed_targets can_transition
allowed_targets-Final a = (ends a, λ b f p. stays f p)
  where
    ends : (a : RunStatus) → (allowed_targets a ≡ []) ↔ Final a
    ends queued = (λ h. absurd (cc), λ f. ground arith)
    ends running = (λ h. absurd (cc), λ f. ground arith)
    ends failed = (λ h. absurd (cc), λ f. ground arith)
    ends succeeded = (λ h. ground arith, λ f. refl)
    ends cancelled = (λ h. ground arith, λ f. refl)
    ends timed_out = (λ h. ground arith, λ f. refl)

    stuck : {a b : RunStatus} → Final a → a ⟶ b → ⊥
    stuck f start = ground arith
    stuck f withdraw = ground arith
    stuck f succeed = ground arith
    stuck f fail = ground arith
    stuck f cancel = ground arith
    stuck f expire = ground arith
    stuck f retry = ground arith
    stuck f give_up = ground arith

    stays : {a b : RunStatus} → Final a → a ⟶* b → b ≡ a
    stays f here = refl
    stays f (then e p) = absurd (stuck f e)

-- Every status can be reached from `queued`, and the way back to `queued` is from `failed` alone.
pub reach-queued : (a : RunStatus) → (queued ⟶* a) × (validate a queued ≡ ok tt → a ≡ failed)
unfolding validate can_transition
reach-queued queued = (here, λ h. ground arith)
reach-queued a = (search (here, then, edges), λ h. ground arith)

-- `is_terminal` holds of one status that has an allowed target: `failed`.
pub is_terminal-allowed_targets :
    (a : RunStatus) → ((is_terminal a ≡ true) × (allowed_targets a ≢ [])) ↔ (a ≡ failed)
unfolding allowed_targets can_transition
is_terminal-allowed_targets a = (λ h. only a h.0 h.1, λ e. back a e)
  where
    only : (a : RunStatus) → is_terminal a ≡ true → allowed_targets a ≢ [] → a ≡ failed
    only queued t n = absurd (cc)
    only running t n = absurd (cc)
    only failed t n = refl
    only succeeded t n = absurd (n refl)
    only cancelled t n = absurd (n refl)
    only timed_out t n = absurd (n refl)

    back : (a : RunStatus) → a ≡ failed → (is_terminal a ≡ true) × (allowed_targets a ≢ [])
    back a e = rw e (refl, λ h. absurd (cc))
