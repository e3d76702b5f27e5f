-- ===== src/Events/Outbox.antt =====
-- src/events/outbox.rs: the webhook deliveries that wait for their receivers. Each operation runs
-- under the lock of the items; the counters are `usize`, of 64 bits.
pub mod Valid
pub mod Ready
pub mod Step
pub mod Trace
pub mod Late
use aegis_fs.Prelude.{
  ℕ, ◌+◌, ◌%◌, ◌^◌, max, min, String, Bool, true, false, not, ◌&&◌, Option, none, some, List, [],
  ◌∷◌, filter, length, count_if, leb, if◌then◌else◌,
}
use aegis_fs.Prelude.Eq.{string_eq}
use aegis_fs.Prelude.Int.{ℤ, pos, leb_ℤ, ltb_ℤ, add_i64, saturating_mul}
use aegis_fs.Prelude.Map.{Map, lookup, contains_key, insert, values}
use aegis_fs.Prelude.Result.{Result, ok, err}
use aegis_fs.Prelude.Sort.{sort_by}

pub data OutboxStatus : Type 0 where
  pending delivered dead_letter : OutboxStatus

-- `Delivery` of src/events/dispatch.rs.
pub record Delivery : Type 0 where
  pub id : String
  pub url : String
  pub headers : Map String String
  pub body_json : String

pub record OutboxItem : Type 0 where
  pub id : String
  pub delivery : Delivery
  pub attempts : ℕ  -- u32
  pub max_attempts : ℕ  -- u32
  pub next_attempt_at_ms : ℤ
  pub last_error : Option String
  pub status : OutboxStatus

pub record OutboxStats : Type 0 where
  pub pending : ℕ
  pub delivered : ℕ
  pub dead_letter : ℕ

pub record WebhookOutbox : Type 0 where
  pub items : Map String OutboxItem
  pub delivered_count : ℕ
  pub dead_letter_count : ℕ

abbrev pub new : WebhookOutbox
new = record { items = []; delivered_count = 0; dead_letter_count = 0 }

abbrev pub is_pending : OutboxItem → Bool
is_pending i = elim i.status [ pending ↦ true | _ ↦ false ]

abbrev pub is_delivered : OutboxItem → Bool
is_delivered i = elim i.status [ delivered ↦ true | _ ↦ false ]

abbrev pub is_dead : OutboxItem → Bool
is_dead i = elim i.status [ dead_letter ↦ true | _ ↦ false ]

abbrev pub next_count : ℕ → ℕ
next_count n = (n + 1) % 2 ^ 64

abbrev pub new_item : Delivery → ℕ → ℤ → OutboxItem
new_item delivery max_attempts now_ms = record {
  id = delivery.id;
  delivery = delivery;
  attempts = 0;
  max_attempts = max max_attempts 1;
  next_attempt_at_ms = now_ms;
  last_error = none;
  status = pending;
}

unfoldable pub enqueue : Delivery → ℕ → ℤ → WebhookOutbox → WebhookOutbox
enqueue delivery max_attempts now_ms o =
    if contains_key delivery.id o.items
    then o
    else record o { items = insert delivery.id (new_item delivery max_attempts now_ms) o.items }

abbrev pub is_ready : ℤ → OutboxItem → Bool
is_ready now_ms i = is_pending i && leb_ℤ i.next_attempt_at_ms now_ms

-- The order of the pairs of the due time and the number of attempts.
abbrev pub due_le : OutboxItem → OutboxItem → Bool
due_le a b =
    if ltb_ℤ a.next_attempt_at_ms b.next_attempt_at_ms
    then true
    else if ltb_ℤ b.next_attempt_at_ms a.next_attempt_at_ms
    then false
    else leb a.attempts b.attempts

unfoldable pub ready_items : ℤ → WebhookOutbox → List OutboxItem
unfolding sort_by
ready_items now_ms o = sort_by due_le (filter (is_ready now_ms) (values o.items))

-- `mark_success` on what the map holds for the id.
abbrev pub success_of : String → Option OutboxItem → WebhookOutbox → Bool × WebhookOutbox
success_of id none o = (false, o)
success_of id (some i) o =
    if is_pending i
    then (
      true,
      record o {
        items = insert id (record i { status = delivered }) o.items;
        delivered_count = next_count o.delivered_count;
      },
    )
    else (false, o)

unfoldable pub mark_success : String → WebhookOutbox → Bool × WebhookOutbox
mark_success id o = success_of id (lookup id o.items) o

-- An item after a failed attempt: attempts are of 32 bits.
abbrev pub failed : String → (now_ms backoff_ms : ℤ) → OutboxItem → OutboxItem
failed error now_ms backoff_ms i =
    let attempts = (i.attempts + 1) % 2 ^ 32 in
    if leb i.max_attempts attempts
    then record i { attempts = attempts; last_error = some error; status = dead_letter }
    else record i {
      attempts = attempts;
      last_error = some error;
      next_attempt_at_ms = add_i64 now_ms backoff_ms;
    }

-- `item.attempts >= item.max_attempts`, after the attempt.
abbrev pub exhausted : OutboxItem → Bool
exhausted i = leb i.max_attempts ((i.attempts + 1) % 2 ^ 32)

abbrev pub failure_of :
    String
    → String
    → (now_ms backoff_ms : ℤ) → Option OutboxItem
    → WebhookOutbox
    → OutboxStatus × WebhookOutbox
failure_of id error now_ms backoff_ms none o = (pending, o)
failure_of id error now_ms backoff_ms (some i) o =
    let item = failed error now_ms backoff_ms i in
    (
      item.status,
      record o {
        items = insert id item o.items;
        dead_letter_count =
            if exhausted i then next_count o.dead_letter_count else o.dead_letter_count;
      },
    )

unfoldable pub mark_failure :
    (id error : String) (now_ms backoff_ms : ℤ) → WebhookOutbox → OutboxStatus × WebhookOutbox
mark_failure id error now_ms backoff_ms o =
    failure_of id error now_ms backoff_ms (lookup id o.items) o

abbrev pub dead_letter_items : WebhookOutbox → List OutboxItem
dead_letter_items o = filter is_dead (values o.items)

abbrev pub stats : WebhookOutbox → OutboxStats
stats o = record {
  pending = count_if is_pending (values o.items);
  delivered = o.delivered_count;
  dead_letter = o.dead_letter_count;
}

-- `OutboxProcessor`, over a sink whose state is `S`.
module _ {S : Type 0} (deliver : Delivery → S → Result String (Unit {0}) × S) where
  abbrev pub base_backoff : ℤ → ℤ
  base_backoff base_backoff_ms = if leb_ℤ base_backoff_ms (pos 10) then pos 10 else base_backoff_ms

  abbrev pub backoff : ℤ → OutboxItem → ℤ
  backoff base i = saturating_mul (base_backoff base) (2 ^ min i.attempts 10)

  abbrev pub settle :
      (base now : ℤ) → OutboxItem → Result String (Unit {0}) → WebhookOutbox → WebhookOutbox
  settle base now i (ok _) o = (mark_success i.id o).1
  settle base now i (err e) o = (mark_failure i.id e now (backoff base i) o).1

  unfoldable pub drain : (base now : ℤ) → List OutboxItem → S → WebhookOutbox → S × WebhookOutbox
  drain base now [] s o = (s, o)
  drain base now (i ∷ ready) s o =
      let (answer, s') = deliver i.delivery s in
      drain base now ready s' (settle base now i answer o)

  -- The count of the processed items beside the states.
  unfoldable pub step : (base now : ℤ) → S → WebhookOutbox → ℕ × S × WebhookOutbox
  unfolding drain ready_items
  step base now s o =
      let ready = ready_items now o in
      let (s', o') = drain base now ready s o in (length ready, s', o')
