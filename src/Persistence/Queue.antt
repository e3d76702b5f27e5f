-- ===== src/Persistence/Queue.antt =====
-- src/persistence/memory.rs: the run queue with its leases, and the cancellation of a run.
pub mod Valid
pub mod Recover
pub mod Trace
pub mod Lease
pub mod Cancel
pub mod Scan
use aegis_fs.Prelude.{
  ℕ, suc, String, Bool, true, false, not, ◌&&◌, ◌||◌, Option, none, some, List, [], ◌∷◌, map,
  filter, length, take, if◌then◌else◌,
}
use aegis_fs.Prelude.Eq.{◌==◌, string_eq, pair_eq}
use aegis_fs.Prelude.Int.{ℤ, leb_ℤ, add_i64}
use aegis_fs.Prelude.Map.{Map, lookup, contains_key, insert, remove, values}
use aegis_fs.Prelude.Result.{Result, ok, err}
use aegis_fs.Prelude.Sort.{sort_by}
use aegis_fs.Prelude.Text.{◌<>◌}
use aegis_fs.Domain.Error.{StorageError, conflict, not_found, claim_lost}
use aegis_fs.Domain.Run.{Run, run_is_terminal}
use aegis_fs.Domain.RunStatus
use aegis_fs.Persistence.Store.{MemoryState, unleased, lapsed}
use aegis_fs.Persistence.Model.{QueueEntry, ClaimToken, is_leased, is_ready}

abbrev pub due_le : QueueEntry → QueueEntry → Bool
due_le a b = leb_ℤ a.due_at_ms b.due_at_ms

abbrev pub recovered_after : ℕ → Option QueueEntry → ℕ
recovered_after n none = n
recovered_after n (some _) = suc n

abbrev pub cleared : String → Option QueueEntry → Map String QueueEntry → Map String QueueEntry
cleared id none q = q
cleared id (some e) q = insert id (unleased e) q

abbrev no_entry : String → StorageError
no_entry run_id = not_found ("queue entry " <> run_id)

abbrev lost : String → StorageError
lost run_id = claim_lost ("run " <> run_id)

-- The loop over the ids of the lapsed entries. An id whose key holds no entry is passed over.
unfoldable pub recover_ids : List String → ℕ → Map String QueueEntry → ℕ × Map String QueueEntry
recover_ids [] recovered q = (recovered, q)
recover_ids (id ∷ ids) recovered q =
    recover_ids ids (recovered_after recovered (lookup id q)) (cleared id (lookup id q) q)

-- The operations on one entry, given what `queue.get(run_id)` returned.
abbrev pub claim_entry :
    String → ClaimToken → ℤ → ℤ → Option QueueEntry → Result StorageError QueueEntry
claim_entry run_id token now_ms lease_ms none = err (no_entry run_id)
claim_entry run_id token now_ms lease_ms (some entry) =
    if is_leased entry now_ms && not (entry.token == token)
    then err (lost run_id)
    else if entry.token == "" && token == "" && is_leased entry now_ms
    then err (lost run_id)
    else ok (record entry {
      token = token;
      claimed_by = some "dispatcher";
      lease_until_ms = some (add_i64 now_ms lease_ms);
    })

abbrev pub held_entry : String → ClaimToken → Option QueueEntry → Result StorageError QueueEntry
held_entry run_id token none = err (no_entry run_id)
held_entry run_id token (some entry) =
    if not (entry.token == token) then err (lost run_id) else ok entry

abbrev pub renewable_entry :
    String → ClaimToken → ℤ → Option QueueEntry → Result StorageError QueueEntry
renewable_entry run_id token now_ms none = err (no_entry run_id)
renewable_entry run_id token now_ms (some entry) =
    if not (entry.token == token) || not (is_leased entry now_ms)
    then err (lost run_id)
    else ok entry

module _ {Json F64 : Type 0} where
  -- The queue.

  unfoldable pub enqueue :
      QueueEntry → MemoryState Json F64 → Result StorageError (Unit {0}) × MemoryState Json F64
  enqueue entry s =
      if contains_key entry.run_id s.queue
      then (err (conflict ("already queued: " <> entry.run_id)), s)
      else (ok tt, record s { queue = insert entry.run_id entry s.queue })

  unfoldable pub scan_ready : ℤ → ℕ → MemoryState Json F64 → List QueueEntry
  unfolding sort_by
  scan_ready now_ms limit s =
      take limit (sort_by due_le (filter (λ e. is_ready e now_ms) (values s.queue)))

  -- Stores the changed entry, or returns the error with the state as it was.
  abbrev pub write_entry :
      String
      → (QueueEntry → QueueEntry)
      → Result StorageError QueueEntry
      → MemoryState Json F64
      → Result StorageError (Unit {0}) × MemoryState Json F64
  write_entry run_id change (err e) s = (err e, s)
  write_entry run_id change (ok entry) s =
      (ok tt, record s { queue = insert run_id (change entry) s.queue })

  abbrev pub drop_entry :
      String
      → Result StorageError QueueEntry
      → MemoryState Json F64
      → Result StorageError (Unit {0}) × MemoryState Json F64
  drop_entry run_id (err e) s = (err e, s)
  drop_entry run_id (ok entry) s = (ok tt, record s { queue = remove run_id s.queue })

  unfoldable pub claim :
      String
      → ClaimToken
      → (now_ms lease_ms : ℤ) → MemoryState Json F64
      → Result StorageError (Unit {0}) × MemoryState Json F64
  claim run_id token now_ms lease_ms s =
      write_entry run_id (λ e. e) (claim_entry run_id token now_ms lease_ms (lookup run_id s.queue))
        s

  unfoldable pub ack :
      String
      → ClaimToken
      → MemoryState Json F64
      → Result StorageError (Unit {0}) × MemoryState Json F64
  ack run_id token s = drop_entry run_id (held_entry run_id token (lookup run_id s.queue)) s

  unfoldable pub release :
      String
      → ClaimToken
      → (retry_at_ms : ℤ) → MemoryState Json F64
      → Result StorageError (Unit {0}) × MemoryState Json F64
  release run_id token retry_at_ms s =
      write_entry run_id (λ e. record (unleased e) { due_at_ms = retry_at_ms })
        (held_entry run_id token (lookup run_id s.queue)) s

  unfoldable pub failclaim :
      String
      → ClaimToken
      → MemoryState Json F64
      → Result StorageError (Unit {0}) × MemoryState Json F64
  failclaim run_id token s =
      write_entry run_id unleased (held_entry run_id token (lookup run_id s.queue)) s

  unfoldable pub renew_lease :
      String
      → ClaimToken
      → (now_ms extend_by_ms : ℤ) → MemoryState Json F64
      → Result StorageError (Unit {0}) × MemoryState Json F64
  renew_lease run_id token now_ms extend_by_ms s =
      write_entry run_id (λ e. record e { lease_until_ms = some (add_i64 now_ms extend_by_ms) })
        (renewable_entry run_id token now_ms (lookup run_id s.queue)) s

  abbrev cancel_found :
      String
      → ℤ
      → Option (Run Json)
      → MemoryState Json F64
      → Result StorageError Bool × MemoryState Json F64
  cancel_found run_id now_ms none s = (err (not_found ("run " <> run_id)), s)
  cancel_found run_id now_ms (some run) s = if run_is_terminal run then (ok false, s) else (
    ok true,
    record s {
      runs =
          insert run_id
            (record run {
              status = RunStatus.cancelled;
              finished_at_ms = some now_ms;
              error = none;
            })
            s.runs;
      queue = remove run_id s.queue;
    },
  )

  unfoldable pub cancel_run :
      String → ℤ → MemoryState Json F64 → Result StorageError Bool × MemoryState Json F64
  cancel_run run_id now_ms s = cancel_found run_id now_ms (lookup run_id s.runs) s

  unfoldable pub recover_expired_leases : ℤ → MemoryState Json F64 → ℕ × MemoryState Json F64
  unfolding recover_ids
  recover_expired_leases now_ms s =
      let expired = filter (λ e. lapsed now_ms e.lease_until_ms) (values s.queue) in
      let (recovered, q) = recover_ids (map (λ e. e.run_id) expired) 0 s.queue in
      (recovered, record s { queue = q })

  abbrev pub len_queue : MemoryState Json F64 → ℕ
  len_queue s = length s.queue
