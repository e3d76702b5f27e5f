-- ===== src/Persistence/Queue/Valid.antt =====
-- The invariant of the run queue: one entry for a run, and each under the id of its run.
use aegis_fs.Prelude.{
  String, ◌≡◌, refl, Option, none, some, List, [], ◌∷◌, arith, filter, map, any, ℕ, if◌then◌else◌,
}
use mathlib.Core.Option
use aegis_fs.Prelude.Eq.{◌==◌, string_eq, eq_iff}
use aegis_fs.Prelude.Int.{ℤ, add_i64}
use aegis_fs.Prelude.Result.{Result, ok, err}
use aegis_fs.Domain.Error.{StorageError}
use aegis_fs.Prelude.Map.{Map, lookup, insert, remove, values, lookup-insert}
use aegis_fs.Prelude.Unique.{Unique, insert-Unique, remove-Unique}
use aegis_fs.Persistence.Model.{QueueEntry}
use aegis_fs.Persistence.Store.{MemoryState, unleased, lapsed}
use aegis_fs.Persistence.Queue.{
  recovered_after, cleared, recover_ids, enqueue, claim, ack, release, failclaim, renew_lease,
  cancel_run, recover_expired_leases, write_entry, drop_entry, held_entry, renewable_entry,
  claim_entry,
}

abbrev pub Keyed : Map String QueueEntry → Type 0
Keyed [] = Unit
Keyed ((k, e) ∷ q) = (e.run_id ≡ k) × Keyed q

pub record IsValid (q : Map String QueueEntry) : Type 0 where
  pub unique : Unique q
  pub keyed : Keyed q

insert-Keyed :
    (k : String) (e : QueueEntry) (q : Map String QueueEntry)
    → e.run_id ≡ k
    → Keyed q
    → Keyed (insert k e q)
unfolding insert
insert-Keyed k e [] h v = ground arith
insert-Keyed k e ((j, w) ∷ q) h v = ground (arith, insert-Keyed k e q h v.1)

remove-Keyed : (k : String) (q : Map String QueueEntry) → Keyed q → Keyed (remove k q)
unfolding remove
remove-Keyed k [] v = tt
remove-Keyed k ((j, w) ∷ q) v = ground (arith, remove-Keyed k q v.1)

Keyed-lookup :
    (k : String) (e : QueueEntry) (q : Map String QueueEntry)
    → Keyed q
    → lookup k q ≡ some e
    → e.run_id ≡ k
unfolding lookup
Keyed-lookup k e [] v h = absurd (cc)
Keyed-lookup k e ((j, w) ∷ q) v h = ground (arith, Keyed-lookup k e q v.1, eq_iff j k)

pub insert-IsValid :
    (k : String) (e : QueueEntry) (q : Map String QueueEntry)
    → e.run_id ≡ k
    → IsValid q
    → IsValid (insert k e q)
insert-IsValid k e q h v = record {
  unique = insert-Unique k e q v.unique;
  keyed = insert-Keyed k e q h v.keyed;
}

pub remove-IsValid : (k : String) (q : Map String QueueEntry) → IsValid q → IsValid (remove k q)
remove-IsValid k q v = record {
  unique = remove-Unique k q v.unique;
  keyed = remove-Keyed k q v.keyed;
}

-- The entry of a run, kept under a change that keeps its run.
pub change-IsValid :
    (k : String) (e e' : QueueEntry) (q : Map String QueueEntry)
    → lookup k q ≡ some e
    → e'.run_id ≡ e.run_id
    → IsValid q
    → IsValid (insert k e' q)
change-IsValid k e e' q found same v =
    insert-IsValid k e' q (ground (arith, Keyed-lookup k e q v.keyed found)) v

unleased_twice :
    (o : Option QueueEntry) → Option.map unleased (Option.map unleased o) ≡ Option.map unleased o
unleased_twice none = refl
unleased_twice (some e) = refl

lookup-cleared :
    (j i : String) (q : Map String QueueEntry)
    → lookup j (cleared i (lookup i q) q)
      ≡ (if i == j then Option.map unleased (lookup j q) else lookup j q)
lookup-cleared j i q = by_entry (lookup i q) refl
  where
    by_entry :
        (o : Option QueueEntry)
        → lookup i q ≡ o
        → lookup j (cleared i o q)
          ≡ (if i == j then Option.map unleased (lookup j q) else lookup j q)
    by_entry none h = ground (arith, eq_iff i j)
    by_entry (some e) h = ground (arith, eq_iff i j, lookup-insert i j (unleased e) q)

-- The loop of the recovery: it clears the entries of the listed ids and touches no other.
pub lookup-recover_ids :
    (j : String) (ids : List String) (n : ℕ) (q : Map String QueueEntry)
    → lookup j (recover_ids ids n q).1
      ≡ (if any (λ i. i == j) ids then Option.map unleased (lookup j q) else lookup j q)
unfolding recover_ids
lookup-recover_ids j [] n q = refl
lookup-recover_ids j (i ∷ ids) n q =
    rw (lookup-recover_ids j ids (recovered_after n (lookup i q)) (cleared i (lookup i q) q))
      (rw (lookup-cleared j i q) (ground (arith, unleased_twice (lookup j q))))

pub recover_ids-IsValid :
    (ids : List String) (n : ℕ) (q : Map String QueueEntry)
    → IsValid q
    → IsValid (recover_ids ids n q).1
unfolding recover_ids
recover_ids-IsValid [] n q v = v
recover_ids-IsValid (i ∷ ids) n q v =
    recover_ids-IsValid ids (recovered_after n (lookup i q)) (cleared i (lookup i q) q)
      (step (lookup i q) refl)
  where
    step : (o : Option QueueEntry) → lookup i q ≡ o → IsValid (cleared i o q)
    step none h = v
    step (some e) h = change-IsValid i e (unleased e) q h refl v

-- The invariant under each operation.
module _ {Json F64 : Type 0} (s : MemoryState Json F64) (v : IsValid s.queue) where
  pub enqueue-IsValid : (e : QueueEntry) → IsValid (enqueue e s).1.queue
  unfolding enqueue
  enqueue-IsValid e = ground (arith, insert-IsValid e.run_id e s.queue refl v)

  write-IsValid :
      (id : String) (f : QueueEntry → QueueEntry) (r : Result StorageError QueueEntry)
      → ((e : QueueEntry) → r ≡ ok e → (f e).run_id ≡ id)
      → IsValid (write_entry id f r s).1.queue
  write-IsValid id f (err x) h = v
  write-IsValid id f (ok e) h = insert-IsValid id (f e) s.queue (h e refl) v

  drop-IsValid :
      (id : String) (r : Result StorageError QueueEntry) → IsValid (drop_entry id r s).1.queue
  drop-IsValid id (err x) = v
  drop-IsValid id (ok e) = remove-IsValid id s.queue v

  held-run_id :
      (id token : String) (e : QueueEntry)
      → held_entry id token (lookup id s.queue) ≡ ok e
      → e.run_id ≡ id
  held-run_id id token e h = by_entry (lookup id s.queue) refl h
    where
      by_entry :
          (o : Option QueueEntry)
          → lookup id s.queue ≡ o
          → held_entry id token o ≡ ok e
          → e.run_id ≡ id
      by_entry none f h = absurd (cc)
      by_entry (some w) f h = ground (arith, Keyed-lookup id w s.queue v.keyed f)

  renewable-run_id :
      (id token : String) (now : ℤ) (e : QueueEntry)
      → renewable_entry id token now (lookup id s.queue) ≡ ok e
      → e.run_id ≡ id
  renewable-run_id id token now e h = by_entry (lookup id s.queue) refl h
    where
      by_entry :
          (o : Option QueueEntry)
          → lookup id s.queue ≡ o
          → renewable_entry id token now o ≡ ok e
          → e.run_id ≡ id
      by_entry none f h = absurd (cc)
      by_entry (some w) f h = ground (arith, Keyed-lookup id w s.queue v.keyed f)

  claimed-run_id :
      (id token : String) (now lease : ℤ) (e : QueueEntry)
      → claim_entry id token now lease (lookup id s.queue) ≡ ok e
      → e.run_id ≡ id
  claimed-run_id id token now lease e h = by_entry (lookup id s.queue) refl h
    where
      by_entry :
          (o : Option QueueEntry)
          → lookup id s.queue ≡ o
          → claim_entry id token now lease o ≡ ok e
          → e.run_id ≡ id
      by_entry none f h = absurd (cc)
      by_entry (some w) f h = ground (arith, Keyed-lookup id w s.queue v.keyed f)

  pub claim-IsValid :
      (id token : String) (now lease : ℤ) → IsValid (claim id token now lease s).1.queue
  unfolding claim
  claim-IsValid id token now lease =
      write-IsValid id (λ e. e) (claim_entry id token now lease (lookup id s.queue))
        (claimed-run_id id token now lease)

  pub ack-IsValid : (id token : String) → IsValid (ack id token s).1.queue
  unfolding ack
  ack-IsValid id token = drop-IsValid id (held_entry id token (lookup id s.queue))

  pub release-IsValid :
      (id token : String) (retry_at : ℤ) → IsValid (release id token retry_at s).1.queue
  unfolding release
  release-IsValid id token retry_at =
      write-IsValid id (λ e. record (unleased e) { due_at_ms = retry_at })
        (held_entry id token (lookup id s.queue)) (held-run_id id token)

  pub failclaim-IsValid : (id token : String) → IsValid (failclaim id token s).1.queue
  unfolding failclaim
  failclaim-IsValid id token =
      write-IsValid id unleased (held_entry id token (lookup id s.queue)) (held-run_id id token)

  pub renew-IsValid :
      (id token : String) (now by : ℤ) → IsValid (renew_lease id token now by s).1.queue
  unfolding renew_lease
  renew-IsValid id token now by =
      write-IsValid id (λ e. record e { lease_until_ms = some (add_i64 now by) })
        (renewable_entry id token now (lookup id s.queue)) (renewable-run_id id token now)

  pub cancel-IsValid : (id : String) (now : ℤ) → IsValid (cancel_run id now s).1.queue
  unfolding cancel_run
  cancel-IsValid id now = ground (arith, remove-IsValid id s.queue v)

  pub recover-IsValid : (now : ℤ) → IsValid (recover_expired_leases now s).1.queue
  unfolding recover_expired_leases
  recover-IsValid now =
      recover_ids-IsValid
        (map (λ e. e.run_id) (filter (λ e. lapsed now e.lease_until_ms) (values s.queue))) 0 s.queue
        v
