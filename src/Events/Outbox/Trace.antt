-- ===== src/Events/Outbox/Trace.antt =====
-- src/events/outbox.rs: any sequence of deliveries that are enqueued and of drain steps.
use aegis_fs.Prelude.{
  ℕ, suc, ◌+◌, ◌^◌, ◌≤◌, ◌<◌, String, true, false, some, List, [], ◌∷◌, length, count_if,
  count_if-le-length, ap, ◌≡◌, refl, arith, ◌∙◌, inl, inr, Bool-cases,
}
use aegis_fs.Prelude.Eq.{string_eq, eq_iff}
use aegis_fs.Prelude.Int.{ℤ}
use aegis_fs.Prelude.Map.{Map, lookup, values, lookup-insert}
use aegis_fs.Prelude.Result.{Result, ok, err}
use aegis_fs.Events.Outbox.{
  Delivery, OutboxItem, WebhookOutbox, is_pending, is_delivered, is_dead, is_ready, new_item,
  enqueue, ready_items, step, stats, new,
}
use aegis_fs.Events.Outbox.Step.{Outcome, answer_at, step_lem, step-IsValid}
use aegis_fs.Events.Outbox.Valid.{IsValid, Fits, count, enqueue-IsValid}

pub data OutboxOp : Type 0 where
  enqueues : (delivery : Delivery) (max_attempts : ℕ) (now : ℤ) → OutboxOp
  steps : (base now : ℤ) → OutboxOp

-- A `max_attempts` is of 32 bits.
abbrev pub Sized : List OutboxOp → Type 0
Sized [] = Unit
Sized (enqueues d n now ∷ ops) = (n < 2 ^ 32) × Sized ops
Sized (steps base now ∷ ops) = Sized ops

total :
    (m : List OutboxItem)
    → count_if is_pending m + (count_if is_delivered m + count_if is_dead m) ≡ length m
total [] = refl
total (i ∷ m) = ground (arith, total m)

length-values : {V : Type 0} (m : Map String V) → length (values m) ≡ length m
length-values [] = refl
length-values (e ∷ m) = ap suc (length-values m)

pub new-IsValid : IsValid new
unfolding lookup
new-IsValid = record {
  unique = tt;
  keyed = λ k i h. absurd (cc);
  fits = λ k i h. absurd (cc);
  delivered = refl;
  dead_letter = refl;
}

module _ {S : Type 0} (deliver : Delivery → S → Result String (Unit {0}) × S) where
  unfoldable pub run_ops : List OutboxOp → S → WebhookOutbox → S × WebhookOutbox
  run_ops [] s o = (s, o)
  run_ops (enqueues d n now ∷ ops) s o = run_ops ops s (enqueue d n now o)
  run_ops (steps base now ∷ ops) s o =
      let (count, s', o') = step deliver base now s o in run_ops ops s' o'

  run_ops-IsValid :
      (ops : List OutboxOp) (s : S) (o : WebhookOutbox)
      → Sized ops
      → IsValid o
      → IsValid (run_ops ops s o).1
  unfolding run_ops
  run_ops-IsValid [] s o b v = v
  run_ops-IsValid (enqueues d n now ∷ ops) s o b v =
      run_ops-IsValid ops s (enqueue d n now o) b.1 (enqueue-IsValid d n now o b.0 v)
  run_ops-IsValid (steps base now ∷ ops) s o b v =
      run_ops-IsValid ops _ _ b (step-IsValid deliver base now s o v)

  -- An item later on: the same delivery, no fewer attempts, and nothing changed once it was
  -- delivered or dead.
  abbrev pub Later : OutboxItem → OutboxItem → Type 0
  Later i j =
      (j.delivery ≡ i.delivery)
      × (j.max_attempts ≡ i.max_attempts)
      × (i.attempts ≤ j.attempts)
      × (is_pending i ≡ false → j ≡ i)

  Later-refl : (i : OutboxItem) → Later i i
  Later-refl i = (refl, refl, omega arith, λ q. refl)

  enqueue-Later :
      (d : Delivery) (n : ℕ) (now : ℤ) (k : String) (i : OutboxItem) (o : WebhookOutbox)
      → lookup k o.items ≡ some i
      → lookup k (enqueue d n now o).items ≡ some i
  unfolding enqueue
  enqueue-Later d n now k i o h =
      ground (arith, h, lookup-insert d.id k (new_item d n now) o.items, eq_iff d.id k)

  Outcome-Later :
      (base now : ℤ) (i j : OutboxItem) (answer : Result String (Unit {0}))
      → Fits i
      → is_pending i ≡ true
      → Outcome deliver base now i answer j
      → Later i j
  Outcome-Later base now i j (ok _) f q e =
      rw e (refl, refl, omega arith, λ p. absurd (ground (arith, p, q)))
  Outcome-Later base now i j (err error) f q e =
      let size = f.0 in
      let le = f.1 in
      let left = f.2 in
      rw e (
        ground arith,
        ground arith,
        ground (arith, size, le, left, q),
        λ p. absurd (ground (arith, p, q)),
      )

  step-Later :
      (base now : ℤ) (s : S) (o : WebhookOutbox) (k : String) (i : OutboxItem)
      → IsValid o
      → lookup k o.items ≡ some i
      → (j : OutboxItem) × (lookup k (step deliver base now s o).2.items ≡ some j) × Later i j
  step-Later base now s o k i v h =
      let (n, there, gone) = step_lem deliver base now s o v in
      elim (Bool-cases (is_ready now i)) [
        | inl r ↦
            let (j, at, out) = (there k i h).0 r in
            (
              j,
              at,
              Outcome-Later base now i j (answer_at deliver i (ready_items now o) s) (v.fits k i h)
                  (ground (arith, r)) out,
            )
        | inr r ↦ (i, (there k i h).1 r, Later-refl i)
      ]

  Later-trans : (i j k : OutboxItem) → Later i j → Later j k → Later i k
  Later-trans i j k a b = (
    b.0 ∙ a.0,
    b.1 ∙ a.1,
    let x = a.2 in let y = b.2 in omega arith,
    λ q. ground (arith, a.3 q, b.3, q),
  )

  -- Whatever is enqueued and drained, no delivery is lost: an item stays in the outbox with its
  -- delivery, its attempts never go down, and once it is delivered or dead it does not change.
  pub outbox_keeps :
      (ops : List OutboxOp) (s : S) (o : WebhookOutbox) (k : String) (i : OutboxItem)
      → Sized ops
      → IsValid o
      → lookup k o.items ≡ some i
      → (j : OutboxItem) × (lookup k (run_ops ops s o).1.items ≡ some j) × Later i j
  unfolding run_ops
  outbox_keeps [] s o k i b v h = (i, h, Later-refl i)
  outbox_keeps (enqueues d n now ∷ ops) s o k i b v h =
      outbox_keeps ops s (enqueue d n now o) k i b.1 (enqueue-IsValid d n now o b.0 v)
        (enqueue-Later d n now k i o h)
  outbox_keeps (steps base now ∷ ops) s o k i b v h =
      let (j, at, later) = step-Later base now s o k i v h in
      let o' = (step deliver base now s o).2 in
      let (l, at', later') =
        outbox_keeps ops (step deliver base now s o).1 o' k j b
          (step-IsValid deliver base now s o v) at in
      (l, at', Later-trans i j l later later')

  -- From an empty outbox, after any sequence of deliveries enqueued and drain steps: the stats, while
  -- there are fewer than 2^64 items, add up to the number of items, and the counters count the
  -- delivered and the dead items; and the attempts that an item counts, which are the failed ones, are
  -- never more than its limit, and an item is dead exactly when they have reached it.
  pub outbox_accounts :
      (ops : List OutboxOp) (s : S)
      → Sized ops
      → (length (run_ops ops s new).1.items < 2 ^ 64
          → ((stats (run_ops ops s new).1).pending
                + (stats (run_ops ops s new).1).delivered
                + (stats (run_ops ops s new).1).dead_letter
              ≡ length (run_ops ops s new).1.items)
            × ((stats (run_ops ops s new).1).delivered
                ≡ count_if is_delivered (values (run_ops ops s new).1.items)))
        × ((k : String) (i : OutboxItem)
            → lookup k (run_ops ops s new).1.items ≡ some i
            → (i.attempts ≤ i.max_attempts)
              × (i.attempts ≡ i.max_attempts → is_dead i ≡ true)
              × (is_dead i ≡ true → i.attempts ≡ i.max_attempts))
  outbox_accounts ops s b =
      let o = (run_ops ops s new).1 in
      let v = run_ops-IsValid ops s new b new-IsValid in
      let sum = total (values o.items) in
      let size = length-values o.items in
      (
        λ small.
            (let d = count_if-le-length is_delivered (values o.items) in
              let e = count_if-le-length is_dead (values o.items) in
              let vd = v.delivered in let ve = v.dead_letter in (ground arith, ground arith)),
        λ k i h. (let f = v.fits k i h in (f.1, f.2, f.3)),
      )
