-- ===== src/Events/Outbox/Valid.antt =====
-- src/events/outbox.rs: what holds of the items and the counters.
use aegis_fs.Prelude.{
  ℕ, ◌%◌, ◌^◌, ◌≤◌, ◌<◌, String, Bool, true, some, count_if, ◌≡◌, arith, Bool-cases, Option-cases,
  inl, inr,
}
use aegis_fs.Prelude.Eq.{string_eq, eq_iff}
use aegis_fs.Prelude.Int.{ℤ}
use aegis_fs.Prelude.Map.{lookup, values, lookup-insert}
use aegis_fs.Prelude.Counts.{count-insert_new, count-insert}
use aegis_fs.Prelude.Unique.{Unique, insert-Unique}
use aegis_fs.Events.Outbox.{
  OutboxStatus, Delivery, OutboxItem, WebhookOutbox, is_pending, is_delivered, is_dead, new_item,
  enqueue, mark_success, failed, mark_failure,
}

-- An item's attempts fit its status: a pending one and a delivered one have attempts left, a dead
-- one has made all of them.
abbrev pub Fits : OutboxItem → Type 0
Fits i =
    (i.max_attempts < 2 ^ 32)
    × (i.attempts ≤ i.max_attempts)
    × (i.attempts ≡ i.max_attempts → is_dead i ≡ true)
    × (is_dead i ≡ true → i.attempts ≡ i.max_attempts)

abbrev pub count : (OutboxItem → Bool) → WebhookOutbox → ℕ
count p o = count_if p (values o.items)

pub record IsValid (o : WebhookOutbox) : Type 0 where
  pub unique : Unique o.items
  pub keyed :
      (k : String) (i : OutboxItem) → lookup k o.items ≡ some i → (i.id ≡ k) × (i.delivery.id ≡ k)
  pub fits : (k : String) (i : OutboxItem) → lookup k o.items ≡ some i → Fits i
  pub delivered : o.delivered_count ≡ count is_delivered o % 2 ^ 64
  pub dead_letter : o.dead_letter_count ≡ count is_dead o % 2 ^ 64

pub enqueue-IsValid :
    (d : Delivery) (max_attempts : ℕ) (now : ℤ) (o : WebhookOutbox)
    → max_attempts < 2 ^ 32
    → IsValid o
    → IsValid (enqueue d max_attempts now o)
unfolding enqueue
enqueue-IsValid d n now o bound v = elim (Option-cases (lookup d.id o.items)) [
  | inr (i, e) ↦ rw (enqueue, e) v
  | inl e ↦
      rw (enqueue, e)
        (record {
          unique = insert-Unique d.id (new_item d n now) o.items v.unique;
          keyed = λ k i h. ground (
            arith,
            h,
            lookup-insert d.id k (new_item d n now) o.items,
            v.keyed k i,
            eq_iff d.id k,
          );
          fits = λ k i h.
              ground (arith, h, lookup-insert d.id k (new_item d n now) o.items, v.fits k i, bound);
          delivered =
              ground (
                arith,
                v.delivered,
                count-insert_new is_delivered d.id (new_item d n now) o.items e,
              );
          dead_letter =
              ground
                (arith, v.dead_letter, count-insert_new is_dead d.id (new_item d n now) o.items e);
        })
]

pub mark_success-IsValid :
    (id : String) (o : WebhookOutbox) → IsValid o → IsValid (mark_success id o).1
unfolding mark_success
mark_success-IsValid id o v = elim (Option-cases (lookup id o.items)) [
  | inl e ↦ rw (mark_success, e) v
  | inr (i, e) ↦ elim (Bool-cases (is_pending i)) [
    | inr q ↦ rw (mark_success, e, q) v
    | inl q ↦
        let i' : OutboxItem = record i { status = OutboxStatus.delivered } in
        rw (mark_success, e, q)
          (record {
            unique = insert-Unique id i' o.items v.unique;
            keyed = λ k j h. ground (
              arith,
              h,
              e,
              lookup-insert id k i' o.items,
              v.keyed k j,
              v.keyed id i,
              eq_iff id k,
            );
            fits = λ k j h. ground (
              arith,
              h,
              e,
              q,
              lookup-insert id k i' o.items,
              v.fits k j,
              v.fits id i,
              eq_iff id k,
            );
            delivered = ground (arith, q, v.delivered, count-insert is_delivered id i' i o.items e);
            dead_letter = ground (arith, q, v.dead_letter, count-insert is_dead id i' i o.items e);
          })
  ]
]

-- A failure is recorded of a pending item.
pub mark_failure-IsValid :
    (id error : String) (now by : ℤ) (i : OutboxItem) (o : WebhookOutbox)
    → lookup id o.items ≡ some i
    → is_pending i ≡ true
    → IsValid o
    → IsValid (mark_failure id error now by o).1
unfolding mark_failure
mark_failure-IsValid id error now by i o e q v =
    let i' = failed error now by i in
    rw (mark_failure, e)
      (record {
        unique = insert-Unique id i' o.items v.unique;
        keyed = λ k j h.
            ground
              (arith, h, e, lookup-insert id k i' o.items, v.keyed k j, v.keyed id i, eq_iff id k);
        fits = λ k j h.
            ground
              (arith, h, e, q, lookup-insert id k i' o.items, v.fits k j, v.fits id i, eq_iff id k);
        delivered = ground (arith, q, v.delivered, count-insert is_delivered id i' i o.items e);
        dead_letter = ground (arith, q, v.dead_letter, count-insert is_dead id i' i o.items e);
      })
