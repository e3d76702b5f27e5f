-- ===== src/Examples/Outboxes.antt =====
-- The outbox with one delivery, and a sink that fails a number of times.
use aegis_fs.Prelude.{
  ℕ, zero, suc, ◌+◌, ◌^◌, ◌≤◌, ◌<◌, String, true, some, List, [], ◌∷◌, length, count_if, ◌≡◌, refl,
  arith,
}
use aegis_fs.Prelude.Eq.{string_eq}
use aegis_fs.Prelude.Int.{pos}
use aegis_fs.Prelude.Map.{lookup, insert, values}
use aegis_fs.Prelude.Result.{Result, ok, err}
use aegis_fs.Events.Outbox.{
  OutboxStatus, Delivery, OutboxItem, WebhookOutbox, new, new_item, is_delivered, is_dead,
  next_count, enqueue, stats, mark_success, mark_failure,
}
use aegis_fs.Events.Outbox.Late.{late_failure}
use aegis_fs.Events.Outbox.Trace.{
  OutboxOp, enqueues, steps, run_ops, Later, new-IsValid, outbox_keeps, outbox_accounts,
}
use aegis_fs.Events.Outbox.Valid.{IsValid, enqueue-IsValid}

abbrev flaky : Delivery → ℕ → Result String (Unit {0}) × ℕ
flaky d zero = (ok tt, 0)
flaky d (suc n) = (err "network timeout", n)

abbrev delivery : Delivery
delivery = record { id = "dlv_1"; url = "http://localhost/hook"; headers = []; body_json = "{}" }

abbrev item : OutboxItem
item = new_item delivery 1 (pos 5)

abbrev outbox : WebhookOutbox
outbox = record { items = ("dlv_1", item) ∷ []; delivered_count = 0; dead_letter_count = 0 }

outbox-IsValid : IsValid outbox
unfolding enqueue insert lookup
outbox-IsValid = enqueue-IsValid delivery 1 (pos 5) new (omega arith) new-IsValid

abbrev ops : List OutboxOp
ops = steps (pos 500) (pos 9) ∷ enqueues delivery 2 (pos 9) ∷ steps (pos 500) (pos 9_000) ∷ []

outbox_keeps_example :
    (j : OutboxItem) × (lookup "dlv_1" (run_ops flaky ops 1 outbox).1.items ≡ some j)
    × Later flaky item j
unfolding lookup
outbox_keeps_example =
    outbox_keeps flaky ops 1 outbox "dlv_1" item (omega arith, tt) outbox-IsValid refl

outbox_accounts_example :
    (length (run_ops flaky ops 1 new).1.items < 2 ^ 64
      → ((stats (run_ops flaky ops 1 new).1).pending
            + (stats (run_ops flaky ops 1 new).1).delivered
            + (stats (run_ops flaky ops 1 new).1).dead_letter
          ≡ length (run_ops flaky ops 1 new).1.items)
        × ((stats (run_ops flaky ops 1 new).1).delivered
            ≡ count_if is_delivered (values (run_ops flaky ops 1 new).1.items)))
    × ((k : String) (i : OutboxItem)
        → lookup k (run_ops flaky ops 1 new).1.items ≡ some i
        → (i.attempts ≤ i.max_attempts)
          × (i.attempts ≡ i.max_attempts → is_dead i ≡ true)
          × (is_dead i ≡ true → i.attempts ≡ i.max_attempts))
outbox_accounts_example = outbox_accounts flaky ops 1 (omega arith, tt)

late_failure_example :
    ((mark_success "dlv_1" outbox).0 ≡ true)
    × ((mark_failure "dlv_1" "late" (pos 9) (pos 1) (mark_success "dlv_1" outbox).1).0
        ≡ OutboxStatus.dead_letter)
    × ((mark_failure "dlv_1" "late"
          (pos 9)
          (pos 1)
          (mark_success "dlv_1" outbox).1).1.delivered_count
        ≡ next_count 0)
    × ((mark_failure "dlv_1" "late"
          (pos 9)
          (pos 1)
          (mark_success "dlv_1" outbox).1).1.dead_letter_count
        ≡ next_count 0)
unfolding lookup
late_failure_example = late_failure "dlv_1" "late" (pos 9) (pos 1) item outbox refl refl refl
