-- ===== src/Scheduler/Throttle/Fair/Turns.antt =====
-- src/scheduler/throttle.rs: every tenant with queued items has its turn.
use aegis_fs.Prelude.{
  ℕ, suc, ◌<◌, String, Bool, true, false, not, ◌||◌, Option, none, some, List, [], ◌∷◌, ◌++◌,
  length, ◌≡◌, refl, arith, ap, ◌∙◌, if◌then◌else◌,
}
use aegis_fs.Prelude.Eq.{string_eq, ◌==◌, eq_refl}
use aegis_fs.Prelude.Map.{contains_key}
use aegis_fs.Scheduler.Throttle.Fair.{FairShare, push, pop}
use aegis_fs.Scheduler.Throttle.Fair.Queues.{
  IsFair, filled, push-IsFair, pop-IsFair, fair_queue_lem,
}

-- Calls of the dispatcher.
pub data FairOp (T : Type 0) : Type 0 where
  pushes : String → T → FairOp T
  pops : FairOp T

append_assoc : (us vs ws : List String) → (us ++ vs) ++ ws ≡ us ++ (vs ++ ws)
append_assoc [] vs ws = refl
append_assoc (u ∷ us) vs ws = ap (λ l. u ∷ l) (append_assoc us vs ws)

-- The place of `t` in the order does not change when `u` may come last.
behind :
    (u : String) (us vs : List String) (t : String) (stays : Bool)
    → (ws : List String) × ((if stays then us ++ (t ∷ vs) else (us ++ (t ∷ vs)) ++ (u ∷ []))
        ≡ us ++ (t ∷ ws))
behind u us vs t true = (vs, refl)
behind u us vs t false = (vs ++ (u ∷ []), append_assoc us (t ∷ vs) (u ∷ []))

module _ {T : Type 0} where
  abbrev pub pop_count : List (FairOp T) → ℕ
  pop_count [] = 0
  pop_count (pushes t x ∷ ops) = pop_count ops
  pop_count (pops ∷ ops) = suc (pop_count ops)

  abbrev pub answered : String → Option (String × T) → Bool
  answered t none = false
  answered t (some (u, x)) = u == t

  -- Whether one of the pops returns an item of the tenant.
  unfoldable pub has_turn : String → List (FairOp T) → FairShare T → Bool
  has_turn t [] d = false
  has_turn t (pushes u x ∷ ops) d = has_turn t ops (push u x d)
  has_turn t (pops ∷ ops) d = let rest = has_turn t ops (pop d).1 in answered t (pop d).0 || rest

  push-order :
      (u : String) (x : T) (us vs : List String) (t : String) (d : FairShare T)
      → d.tenant_order ≡ us ++ (t ∷ vs)
      → (ws : List String) × ((push u x d).tenant_order ≡ us ++ (t ∷ ws))
  unfolding push
  push-order u x us vs t d e =
      let (ws, p) = behind u us vs t (contains_key u d.queues) in (ws, rw (push, e) p)

  -- No tenant starves: one with `us` ahead of it in the order has its turn within `length us + 1`
  -- pops, whatever is pushed in between.
  pub fair_turn :
      (ops : List (FairOp T)) (us vs : List String) (t : String) (d : FairShare T)
      → IsFair d
      → d.tenant_order ≡ us ++ (t ∷ vs)
      → length us < pop_count ops
      → has_turn t ops d ≡ true
  unfolding has_turn
  fair_turn [] us vs t d v e h = absurd (omega (arith, h))
  fair_turn (pushes u x ∷ ops) us vs t d v e h =
      let (ws, e') = push-order u x us vs t d e in
      fair_turn ops us ws t (push u x d) (push-IsFair u x d v) e' h
  fair_turn (pops ∷ ops) [] vs t d v e h =
      let (x, q, _, p, _, _) = (fair_queue_lem d v).2 t vs e in
      ground (arith, ap (answered t) p, eq_refl t)
  fair_turn (pops ∷ ops) (u ∷ us) vs t d v e h =
      let (x, q, _, _, _, p) = (fair_queue_lem d v).2 u (us ++ (t ∷ vs)) e in
      let (ws, r) = behind u us vs t (not (filled q)) in
      let later =
        fair_turn ops us ws t (pop d).1 (pop-IsFair d v) (p ∙ ground (arith, r))
          (omega (arith, h)) in
      ground (arith, later)
