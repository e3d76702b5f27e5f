-- ===== src/Events/Outbox/Step.antt =====
-- src/events/outbox.rs: a drain step of the processor.
use aegis_fs.Prelude.{
  String, true, false, none, some, List, [], ◌∷◌, filter, count_if, ◌≡◌, refl, arith, Elem, ◌∙◌, ap,
  inl, inr, Option-cases, Bool-cases, any-true, any-false, if◌then◌else◌,
}
use mathlib.Core.Path.{subst, sym}
use aegis_fs.Prelude.Eq.{string_eq, ◌==◌, eq_iff, eq_refl}
use aegis_fs.Prelude.Int.{ℤ}
use aegis_fs.Prelude.Map.{lookup, values, lookup-insert, lookup-insert_same}
use aegis_fs.Prelude.Result.{Result, ok, err}
use aegis_fs.Prelude.Sort.{length-sort_by}
use aegis_fs.Events.Outbox.{
  OutboxStatus, Delivery, OutboxItem, WebhookOutbox, is_pending, is_ready, due_le, ready_items,
  mark_success, failed, mark_failure, backoff, settle, drain, step,
}
use aegis_fs.Events.Outbox.Ready.{has_id, Held, ready_items-Elem, ready_items-Held}
use aegis_fs.Events.Outbox.Valid.{IsValid, mark_success-IsValid, mark_failure-IsValid}

mark_success-other :
    (id k : String) (o : WebhookOutbox)
    → (id == k) ≡ false
    → lookup k (mark_success id o).1.items ≡ lookup k o.items
unfolding mark_success
mark_success-other id k o h = elim (Option-cases (lookup id o.items)) [
  | inl e ↦ rw (mark_success, e) refl
  | inr (i, e) ↦
      ground
        (arith, e, h, lookup-insert id k (record i { status = OutboxStatus.delivered }) o.items)
]

mark_success-own :
    (i : OutboxItem) (o : WebhookOutbox)
    → lookup i.id o.items ≡ some i
    → is_pending i ≡ true
    → lookup i.id (mark_success i.id o).1.items
      ≡ some (record i { status = OutboxStatus.delivered })
unfolding mark_success
mark_success-own i o h q =
    rw (mark_success, h, q)
      (lookup-insert_same i.id (record i { status = OutboxStatus.delivered }) o.items)

mark_failure-other :
    (id k error : String) (now by : ℤ) (o : WebhookOutbox)
    → (id == k) ≡ false
    → lookup k (mark_failure id error now by o).1.items ≡ lookup k o.items
unfolding mark_failure
mark_failure-other id k error now by o h = elim (Option-cases (lookup id o.items)) [
  | inl e ↦ rw (mark_failure, e) refl
  | inr (i, e) ↦ rw (mark_failure, e, lookup-insert id k (failed error now by i) o.items, h) refl
]

mark_failure-own :
    (error : String) (now by : ℤ) (i : OutboxItem) (o : WebhookOutbox)
    → lookup i.id o.items ≡ some i
    → lookup i.id (mark_failure i.id error now by o).1.items ≡ some (failed error now by i)
unfolding mark_failure
mark_failure-own error now by i o h =
    rw (mark_failure, h) (lookup-insert_same i.id (failed error now by i) o.items)

later_id :
    (a i : OutboxItem) (items : List OutboxItem)
    → has_id a.id items ≡ false
    → Elem i items
    → (a.id == i.id) ≡ false
later_id a i items h m = elim (Bool-cases (a.id == i.id)) [
  | inr e ↦ e
  | inl e ↦
      let same = (eq_iff a.id i.id).0 e in
      let other = any-false (λ j. j.id == a.id) i items h m in
      absurd (ground (arith, eq_iff i.id a.id))
]

module _ {S : Type 0} (deliver : Delivery → S → Result String (Unit {0}) × S) where
  -- What becomes of an item that was attempted, by the answer of the sink.
  abbrev pub Outcome : (base now : ℤ) → OutboxItem → Result String (Unit {0}) → OutboxItem → Type 0
  Outcome base now i (ok _) j = j ≡ record i { status = OutboxStatus.delivered }
  Outcome base now i (err error) j = j ≡ failed error now (backoff deliver base i) i

  -- The state of the sink when the item with the id has its turn.
  abbrev pub sink_at : String → List OutboxItem → S → S
  sink_at id [] s = s
  sink_at id (i ∷ items) s =
      let later = sink_at id items (deliver i.delivery s).1 in if i.id == id then s else later

  abbrev pub answer_at : OutboxItem → List OutboxItem → S → Result String (Unit {0})
  answer_at i items s = (deliver i.delivery (sink_at i.id items s)).0

  answer_at-own :
      (a : OutboxItem) (items : List OutboxItem) (s : S)
      → answer_at a (a ∷ items) s ≡ (deliver a.delivery s).0
  answer_at-own a items s =
      ap (λ t. (deliver a.delivery t).0)
        (ap (λ b. if b then s else sink_at a.id items (deliver a.delivery s).1) (eq_refl a.id))

  answer_at-later :
      (a i : OutboxItem) (items : List OutboxItem) (s : S)
      → (a.id == i.id) ≡ false
      → answer_at i (a ∷ items) s ≡ answer_at i items (deliver a.delivery s).1
  answer_at-later a i items s e =
      ap (λ t. (deliver i.delivery t).0)
        (ap (λ b. if b then s else sink_at i.id items (deliver a.delivery s).1) e)

  settle-other :
      (base now : ℤ) (i : OutboxItem) (r : Result String (Unit {0})) (k : String)
      (o : WebhookOutbox)
      → (i.id == k) ≡ false
      → lookup k (settle deliver base now i r o).items ≡ lookup k o.items
  settle-other base now i (ok _) k o h = mark_success-other i.id k o h
  settle-other base now i (err e) k o h =
      mark_failure-other i.id k e now (backoff deliver base i) o h

  settle-own :
      (base now : ℤ) (i : OutboxItem) (r : Result String (Unit {0})) (o : WebhookOutbox)
      → lookup i.id o.items ≡ some i
      → is_pending i ≡ true
      → (j : OutboxItem) × (lookup i.id (settle deliver base now i r o).items ≡ some j)
        × Outcome base now i r j
  settle-own base now i (ok _) o h q = (_, mark_success-own i o h q, refl)
  settle-own base now i (err e) o h q =
      (_, mark_failure-own e now (backoff deliver base i) i o h, refl)

  settle-IsValid :
      (base now : ℤ) (i : OutboxItem) (r : Result String (Unit {0})) (o : WebhookOutbox)
      → lookup i.id o.items ≡ some i
      → is_pending i ≡ true
      → IsValid o
      → IsValid (settle deliver base now i r o)
  settle-IsValid base now i (ok _) o h q v = mark_success-IsValid i.id o v
  settle-IsValid base now i (err e) o h q v =
      mark_failure-IsValid i.id e now (backoff deliver base i) i o h q v

  settle-Held :
      (base now : ℤ) (i : OutboxItem) (r : Result String (Unit {0})) (o : WebhookOutbox)
      (rest : List OutboxItem)
      → has_id i.id rest ≡ false
      → Held o rest
      → Held (settle deliver base now i r o) rest
  settle-Held base now i r o [] h held = tt
  settle-Held base now i r o (j ∷ rest) h held = (
    settle-other base now i r j.id o (ground (arith, h, eq_iff i.id j.id, eq_iff j.id i.id))
        ∙ held.0,
    held.1,
    held.2,
    settle-Held base now i r o rest (ground (arith, h)) held.3,
  )

  pub drain-IsValid :
      (base now : ℤ) (items : List OutboxItem) (s : S) (o : WebhookOutbox)
      → Held o items
      → IsValid o
      → IsValid (drain deliver base now items s o).1
  unfolding drain
  drain-IsValid base now [] s o held v = v
  drain-IsValid base now (i ∷ items) s o held v =
      let r = (deliver i.delivery s).0 in
      drain-IsValid base now items (deliver i.delivery s).1 (settle deliver base now i r o)
        (settle-Held base now i r o items held.2 held.3)
        (settle-IsValid base now i r o held.0 held.1 v)

  drain-other :
      (base now : ℤ) (items : List OutboxItem) (s : S) (o : WebhookOutbox) (k : String)
      → has_id k items ≡ false
      → lookup k (drain deliver base now items s o).1.items ≡ lookup k o.items
  unfolding drain
  drain-other base now [] s o k h = refl
  drain-other base now (i ∷ items) s o k h =
      let r = (deliver i.delivery s).0 in
      drain-other base now items (deliver i.delivery s).1 (settle deliver base now i r o) k
        (ground (arith, h))
      ∙ settle-other base now i r k o (ground (arith, h))

  drain-own :
      (base now : ℤ) (items : List OutboxItem) (s : S) (o : WebhookOutbox) (i : OutboxItem)
      → Held o items
      → Elem i items
      → (j : OutboxItem) × (lookup i.id (drain deliver base now items s o).1.items ≡ some j)
        × Outcome base now i (answer_at i items s) j
  unfolding drain
  drain-own base now [] s o i held m = absurd m
  drain-own base now (a ∷ items) s o i held (inl e) =
      let r = (deliver a.delivery s).0 in
      let (j, at, out) = settle-own base now a r o held.0 held.1 in
      rw e (
        j,
        drain-other base now items (deliver a.delivery s).1 (settle deliver base now a r o) a.id
              held.2
            ∙ at,
        subst (λ x. Outcome base now a x j) (sym (answer_at-own a items s)) out,
      )
  drain-own base now (a ∷ items) s o i held (inr m) =
      let r = (deliver a.delivery s).0 in
      let other : (a.id == i.id) ≡ false = later_id a i items held.2 m in
      let (j, at, out) =
        drain-own base now items (deliver a.delivery s).1 (settle deliver base now a r o) i
          (settle-Held base now a r o items held.2 held.3) m in
      (j, at, subst (λ x. Outcome base now i x j) (sym (answer_at-later a i items s other)) out)

  pub step-IsValid :
      (base now : ℤ) (s : S) (o : WebhookOutbox) → IsValid o → IsValid (step deliver base now s o).2
  unfolding step
  step-IsValid base now s o v =
      drain-IsValid base now (ready_items now o) s o (ready_items-Held now o v) v

  not_ready :
      (now : ℤ) (i : OutboxItem) (k : String) (o : WebhookOutbox)
      → IsValid o
      → lookup k o.items ≡ some i
      → is_ready now i ≡ false
      → has_id k (ready_items now o) ≡ false
  not_ready now i k o v h q = elim (Bool-cases (has_id k (ready_items now o))) [
    | inr e ↦ e
    | inl e ↦
        let (j, m, p) = any-true (λ j. j.id == k) (ready_items now o) e in
        let r = (ready_items-Elem now j o v).0 m in
        absurd (ground (arith, h, q, r.0, r.1, rw ((eq_iff j.id k).0 p) at r.0))
  ]

  not_there :
      (now : ℤ) (k : String) (o : WebhookOutbox)
      → IsValid o
      → lookup k o.items ≡ none
      → has_id k (ready_items now o) ≡ false
  not_there now k o v h = elim (Bool-cases (has_id k (ready_items now o))) [
    | inr e ↦ e
    | inl e ↦
        let (j, m, p) = any-true (λ j. j.id == k) (ready_items now o) e in
        let r = (ready_items-Elem now j o v).0 m in
        absurd (ground (arith, h, rw ((eq_iff j.id k).0 p) at r.0))
  ]

  pub step_lem :
      (base now : ℤ) (s : S) (o : WebhookOutbox)
      → IsValid o
      → ((step deliver base now s o).0 ≡ count_if (is_ready now) (values o.items))
        × ((k : String) (i : OutboxItem)
            → lookup k o.items ≡ some i
            → (is_ready now i ≡ true
                → (j : OutboxItem) × (lookup k (step deliver base now s o).2.items ≡ some j)
                  × Outcome base now i (answer_at i (ready_items now o) s) j)
              × (is_ready now i ≡ false → lookup k (step deliver base now s o).2.items ≡ some i))
        × ((k : String)
            → lookup k o.items ≡ none
            → lookup k (step deliver base now s o).2.items ≡ none)
  unfolding step ready_items
  step_lem base now s o v = (
    length-sort_by due_le (filter (is_ready now) (values o.items)),
    λ k i h.
        let p = (v.keyed k i h).0 in
        let at : lookup i.id o.items ≡ some i = subst (λ x. lookup x o.items ≡ some i) (sym p) h in
        (
          λ r. rw (← p) (
              drain-own base now (ready_items now o) s o i (ready_items-Held now o v)
                ((ready_items-Elem now i o v).1 (at, r))),
          λ r. drain-other base now (ready_items now o) s o k (not_ready now i k o v h r) ∙ h,
        ),
    λ k h. drain-other base now (ready_items now o) s o k (not_there now k o v h) ∙ h,
  )
