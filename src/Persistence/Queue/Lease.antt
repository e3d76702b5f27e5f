-- ===== src/Persistence/Queue/Lease.antt =====
-- The lease of src/persistence/memory.rs: what its holder may rely on while others use the queue.
use aegis_fs.Prelude.{
  String, ◌≡◌, ◌≢◌, refl, ap, inl, inr, Option, none, some, List, [], ◌∷◌, arith, Bool-cases,
}
use aegis_fs.Prelude.Eq.{string_eq, eq_iff}
use aegis_fs.Prelude.Int.{ℤ, ◌<ℤ◌, ◌+ℤ◌, InI64, add_i64, add_i64_exact}
use aegis_fs.Prelude.Map.{Map, lookup, lookup-insert, lookup-remove, contains_key}
use aegis_fs.Prelude.Text.{◌<>◌}
use aegis_fs.Prelude.Result.{Result, ok, err}
use aegis_fs.Domain.Error.{claim_lost, StorageError}
use aegis_fs.Persistence.Model.{QueueEntry, ClaimToken}
use aegis_fs.Persistence.Store.{MemoryState, unleased}
use aegis_fs.Persistence.Queue.{
  enqueue, claim, ack, release, failclaim, renew_lease, write_entry, drop_entry, claim_entry,
  held_entry, renewable_entry,
}
use aegis_fs.Persistence.Queue.Valid.{IsValid}
use aegis_fs.Persistence.Queue.Recover.{recover_lem}
use aegis_fs.Persistence.Queue.Trace.{
  QueueOp, enqueues, claims, acks, releases, failclaims, renews, cancels, recovers, perform,
  perform_all, perform-IsValid,
}

-- An operation of others while a lease of `token` until `exp` is live: it presents another token, and
-- a claim or a recovery happens before the lease ends. An operator's cancel is none.
abbrev pub Foreign : ClaimToken → ℤ → QueueOp → Type 0
Foreign token exp (enqueues e) = Unit
Foreign token exp (claims id other now lease) = (other ≢ token) × (now <ℤ exp)
Foreign token exp (acks id other) = other ≢ token
Foreign token exp (releases id other retry_at) = other ≢ token
Foreign token exp (failclaims id other) = other ≢ token
Foreign token exp (renews id other now by) = other ≢ token
Foreign token exp (cancels id now) = ⊥
Foreign token exp (recovers now) = now <ℤ exp

abbrev pub AllForeign : ClaimToken → ℤ → List QueueOp → Type 0
AllForeign token exp [] = Unit
AllForeign token exp (op ∷ ops) = Foreign token exp op × AllForeign token exp ops

-- The entry of a run is leased to a token until a time.
pub record Holds (run_id : String) (token : ClaimToken) (exp : ℤ) (q : Map String QueueEntry)
    : Type 0 where
  pub entry : QueueEntry
  pub found : lookup run_id q ≡ some entry
  pub owned : entry.token ≡ token
  pub until : entry.lease_until_ms ≡ some exp

refused_ne :
    (run_id id : String) (f : String → Result StorageError QueueEntry) {x : StorageError}
    → f run_id ≡ err x
    → id ≡ run_id
    → (e : QueueEntry) → f id ≢ ok e
refused_ne run_id id f r p e q = ground (arith, ap f p)

module _ {Json F64 : Type 0} (run_id : String) (token : ClaimToken) (exp : ℤ) where
  keep-write :
      (id : String) (f : QueueEntry → QueueEntry) (r : Result StorageError QueueEntry)
      (s : MemoryState Json F64)
      → Holds run_id token exp s.queue
      → (id ≡ run_id → (e : QueueEntry) → r ≢ ok e)
      → Holds run_id token exp (write_entry id f r s).1.queue
  keep-write id f (err x) s h n = h
  keep-write id f (ok e) s h n = record {
    entry = h.entry;
    found =
        rw (lookup-insert id run_id (f e) s.queue)
          (ground (arith, h.found, eq_iff id run_id, λ (p : id ≡ run_id). n p e refl));
    owned = h.owned;
    until = h.until;
  }

  keep-drop :
      (id : String) (r : Result StorageError QueueEntry) (s : MemoryState Json F64)
      → Holds run_id token exp s.queue
      → (id ≡ run_id → (e : QueueEntry) → r ≢ ok e)
      → Holds run_id token exp (drop_entry id r s).1.queue
  keep-drop id (err x) s h n = h
  keep-drop id (ok e) s h n = record {
    entry = h.entry;
    found =
        rw (lookup-remove id run_id s.queue)
          (ground (arith, h.found, eq_iff id run_id, λ (p : id ≡ run_id). n p e refl));
    owned = h.owned;
    until = h.until;
  }

  -- What the operations answer to another token.
  module _ (s : MemoryState Json F64) (h : Holds run_id token exp s.queue) where
    claim_refused :
        (other : ClaimToken) (now lease : ℤ)
        → other ≢ token
        → now <ℤ exp
        → claim_entry run_id other now lease (lookup run_id s.queue)
          ≡ err (claim_lost ("run " <> run_id))
    claim_refused other now lease n live =
        rw h.found (ground (arith, h.owned, h.until, eq_iff h.entry.token other))

    held_refused :
        (other : ClaimToken)
        → other ≢ token
        → held_entry run_id other (lookup run_id s.queue) ≡ err (claim_lost ("run " <> run_id))
    held_refused other n = rw h.found (ground (arith, h.owned, eq_iff h.entry.token other))

    renew_refused :
        (other : ClaimToken) (now : ℤ)
        → other ≢ token
        → renewable_entry run_id other now (lookup run_id s.queue)
          ≡ err (claim_lost ("run " <> run_id))
    renew_refused other now n = rw h.found (ground (arith, h.owned, eq_iff h.entry.token other))

  own_entry :
      (s : MemoryState Json F64) (h : Holds run_id token exp s.queue)
      → held_entry run_id token (lookup run_id s.queue) ≡ ok h.entry
  own_entry s h = rw h.found (ground (arith, h.owned, eq_iff h.entry.token token))

  perform-Holds :
      (op : QueueOp) (s : MemoryState Json F64)
      → IsValid s.queue
      → Foreign token exp op
      → Holds run_id token exp s.queue
      → Holds run_id token exp (perform op s).queue
  unfolding perform enqueue claim ack release failclaim renew_lease
  perform-Holds (enqueues e) s v f h = elim (Bool-cases (contains_key e.run_id s.queue)) [
    | inl p ↦ rw (p, perform, enqueue) h
    | inr p ↦
        rw (p, perform, enqueue)
          (record {
            entry = h.entry;
            found =
                rw (lookup-insert e.run_id run_id e s.queue)
                  (ground (arith, h.found, eq_iff e.run_id run_id));
            owned = h.owned;
            until = h.until;
          })
  ]
  perform-Holds (claims id other now lease) s v f h =
      keep-write id (λ e. e) (claim_entry id other now lease (lookup id s.queue)) s h
        (refused_ne run_id id (λ i. claim_entry i other now lease (lookup i s.queue))
          (claim_refused s h other now lease f.0 f.1))
  perform-Holds (acks id other) s v f h =
      keep-drop id (held_entry id other (lookup id s.queue)) s h (
        refused_ne run_id id (λ i. held_entry i other (lookup i s.queue))
          (held_refused s h other f))
  perform-Holds (releases id other retry_at) s v f h =
      keep-write id (λ e. record (unleased e) { due_at_ms = retry_at })
        (held_entry id other (lookup id s.queue)) s h
        (refused_ne run_id id (λ i. held_entry i other (lookup i s.queue))
          (held_refused s h other f))
  perform-Holds (failclaims id other) s v f h =
      keep-write id unleased (held_entry id other (lookup id s.queue)) s h (
        refused_ne run_id id (λ i. held_entry i other (lookup i s.queue))
          (held_refused s h other f))
  perform-Holds (renews id other now by) s v f h =
      keep-write id (λ e. record e { lease_until_ms = some (add_i64 now by) })
        (renewable_entry id other now (lookup id s.queue)) s h
        (refused_ne run_id id (λ i. renewable_entry i other now (lookup i s.queue))
          (renew_refused s h other now f))
  perform-Holds (cancels id now) s v f h = absurd f
  perform-Holds (recovers now) s v f h = record {
    entry = h.entry;
    found = rw ((recover_lem now s v).0 run_id, h.found) (ground (arith, h.until));
    owned = h.owned;
    until = h.until;
  }

  perform_all-Holds :
      (ops : List QueueOp) (s : MemoryState Json F64)
      → IsValid s.queue
      → AllForeign token exp ops
      → Holds run_id token exp s.queue
      → Holds run_id token exp (perform_all ops s).queue
  unfolding perform_all
  perform_all-Holds [] s v f h = h
  perform_all-Holds (op ∷ ops) s v f h =
      perform_all-Holds ops (perform op s) (perform-IsValid op s v) f.1 (perform-Holds op s v f.0 h)

claimed :
    (run_id : String) (token : ClaimToken) (now lease : ℤ) (e w : QueueEntry)
    → claim_entry run_id token now lease (some e) ≡ ok w
    → InI64 (now +ℤ lease)
    → (w.token ≡ token) × (w.lease_until_ms ≡ some (now +ℤ lease))
claimed run_id token now lease e w q room = ground (arith, add_i64_exact now lease room)

module _ {Json F64 : Type 0} where
  -- The entry after a successful claim, of a clock with room for the lease.
  claim-Holds :
      (run_id : String) (token : ClaimToken) (now lease : ℤ) (s : MemoryState Json F64)
      → (claim run_id token now lease s).0 ≡ ok tt
      → InI64 (now +ℤ lease)
      → Holds run_id token (now +ℤ lease) (claim run_id token now lease s).1.queue
  unfolding claim
  claim-Holds run_id token now lease s c room = by_entry (lookup run_id s.queue) c
    where
      by_entry :
          (o : Option QueueEntry)
          → (write_entry run_id (λ e. e) (claim_entry run_id token now lease o) s).0 ≡ ok tt
          → Holds run_id token
              (now +ℤ lease)
              (write_entry run_id (λ e. e) (claim_entry run_id token now lease o) s).1.queue
      by_entry none p = absurd (cc)
      by_entry (some e) p =
          by_result (claim_entry run_id token now lease (some e))
            (λ w q. claimed run_id token now lease e w q room) p
        where
          by_result :
              (r : Result StorageError QueueEntry)
              → ((w : QueueEntry)
                  → r ≡ ok w
                  → (w.token ≡ token) × (w.lease_until_ms ≡ some (now +ℤ lease)))
              → (write_entry run_id (λ e. e) r s).0 ≡ ok tt
              → Holds run_id token (now +ℤ lease) (write_entry run_id (λ e. e) r s).1.queue
          by_result (err x) g p = absurd (cc)
          by_result (ok w) g p = record {
            entry = w;
            found =
                rw (lookup-insert run_id run_id w s.queue) (ground (arith, eq_iff run_id run_id));
            owned = (g w refl).0;
            until = (g w refl).1;
          }

  -- In a valid queue, a claim that succeeds, with a lease whose end fits in 64 bits, excludes every
  -- other party until the lease ends. Whatever operations follow that present other tokens, claims
  -- and recoveries at times before the end and cancels left out, the run's entry stays leased to the
  -- token: every other token's claim before the end, and its acknowledgement, release
  -- and renewal at any time, is refused with `claim_lost` and changes nothing, and the token's own
  -- acknowledgement succeeds and removes the entry.
  pub lease_exclusive :
      (run_id : String) (token : ClaimToken) (now lease : ℤ) (s : MemoryState Json F64)
      (ops : List QueueOp)
      → IsValid s.queue
      → (claim run_id token now lease s).0 ≡ ok tt
      → InI64 (now +ℤ lease)
      → AllForeign token (now +ℤ lease) ops
      → let t = perform_all ops (claim run_id token now lease s).1 in
        ((other : ClaimToken) (at by : ℤ)
          → other ≢ token
          → (at <ℤ now +ℤ lease
              → claim run_id other at by t ≡ (err (claim_lost ("run " <> run_id)), t))
            × (ack run_id other t ≡ (err (claim_lost ("run " <> run_id)), t))
            × (release run_id other at t ≡ (err (claim_lost ("run " <> run_id)), t))
            × (renew_lease run_id other at by t ≡ (err (claim_lost ("run " <> run_id)), t)))
        × ((ack run_id token t).0 ≡ ok tt)
        × (lookup run_id (ack run_id token t).1.queue ≡ none)
  unfolding claim perform ack release renew_lease
  lease_exclusive run_id token now lease s ops v c room f =
      answers run_id token (now +ℤ lease) (perform_all ops (claim run_id token now lease s).1) (
        perform_all-Holds run_id token (now +ℤ lease) ops (claim run_id token now lease s).1
          (perform-IsValid (claims run_id token now lease) s v) f
          (claim-Holds run_id token now lease s c room))
    where
      answers :
          (run_id : String) (token : ClaimToken) (exp : ℤ) (t : MemoryState Json F64)
          → Holds run_id token exp t.queue
          → ((other : ClaimToken) (at by : ℤ)
              → other ≢ token
              → (at <ℤ exp → claim run_id other at by t ≡ (err (claim_lost ("run " <> run_id)), t))
                × (ack run_id other t ≡ (err (claim_lost ("run " <> run_id)), t))
                × (release run_id other at t ≡ (err (claim_lost ("run " <> run_id)), t))
                × (renew_lease run_id other at by t ≡ (err (claim_lost ("run " <> run_id)), t)))
            × ((ack run_id token t).0 ≡ ok tt)
            × (lookup run_id (ack run_id token t).1.queue ≡ none)
      answers run_id token exp t h = (
        λ other at by n. (
          λ live. rw (claim_refused run_id token exp t h other at by n live),
          rw (held_refused run_id token exp t h other n),
          rw (held_refused run_id token exp t h other n),
          rw (renew_refused run_id token exp t h other at n),
        ),
        rw (own_entry run_id token exp t h),
        rw (own_entry run_id token exp t h)
            (rw (lookup-remove run_id run_id t.queue) (ground (arith, eq_iff run_id run_id))),
      )
