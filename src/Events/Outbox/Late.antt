-- ===== src/Events/Outbox/Late.antt =====
-- src/events/outbox.rs: `mark_failure` does not look at the status of the item.
use aegis_fs.Prelude.{String, true, some, ◌≡◌, refl}
use aegis_fs.Prelude.Eq.{string_eq}
use aegis_fs.Prelude.Int.{ℤ}
use aegis_fs.Prelude.Map.{lookup, lookup-insert_same}
use aegis_fs.Events.Outbox.{
  OutboxStatus, OutboxItem, WebhookOutbox, is_pending, exhausted, next_count, mark_success,
  mark_failure,
}

-- When two workers have taken the same pending item in its last attempt, and one of them marks it
-- delivered before the other records a failure, the delivered item becomes a dead letter, and both
-- counters have counted it.
pub late_failure :
    (id error : String) (now by : ℤ) (i : OutboxItem) (o : WebhookOutbox)
    → lookup id o.items ≡ some i
    → is_pending i ≡ true
    → exhausted i ≡ true
    → ((mark_success id o).0 ≡ true)
      × ((mark_failure id error now by (mark_success id o).1).0 ≡ OutboxStatus.dead_letter)
      × ((mark_failure id error now by (mark_success id o).1).1.delivered_count
          ≡ next_count o.delivered_count)
      × ((mark_failure id error now by (mark_success id o).1).1.dead_letter_count
          ≡ next_count o.dead_letter_count)
unfolding mark_success mark_failure
late_failure id error now by i o h q e =
    let i' : OutboxItem = record i { status = OutboxStatus.delivered } in
    rw (mark_success, h, q, mark_failure, lookup-insert_same id i' o.items)
      (refl, rw e refl, refl, rw e refl)
