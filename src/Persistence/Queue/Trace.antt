-- ===== src/Persistence/Queue/Trace.antt =====
-- The operations of the run queue as steps, and sequences of them by any number of parties.
use aegis_fs.Prelude.{String, List, [], ◌∷◌}
use aegis_fs.Prelude.Int.{ℤ}
use aegis_fs.Persistence.Model.{QueueEntry, ClaimToken}
use aegis_fs.Persistence.Store.{MemoryState}
use aegis_fs.Persistence.Queue.{
  enqueue, claim, ack, release, failclaim, renew_lease, cancel_run, recover_expired_leases,
}
use aegis_fs.Persistence.Queue.Valid.{
  IsValid, enqueue-IsValid, claim-IsValid, ack-IsValid, release-IsValid, failclaim-IsValid,
  renew-IsValid, cancel-IsValid, recover-IsValid,
}

pub data QueueOp : Type 0 where
  enqueues : QueueEntry → QueueOp
  claims : (id : String) (token : ClaimToken) (now lease : ℤ) → QueueOp
  acks : (id : String) (token : ClaimToken) → QueueOp
  releases : (id : String) (token : ClaimToken) (retry_at : ℤ) → QueueOp
  failclaims : (id : String) (token : ClaimToken) → QueueOp
  renews : (id : String) (token : ClaimToken) (now by : ℤ) → QueueOp
  cancels : (id : String) (now : ℤ) → QueueOp
  recovers : (now : ℤ) → QueueOp

module _ {Json F64 : Type 0} where
  -- The state after an operation, whether it succeeded or failed.
  unfoldable pub perform : QueueOp → MemoryState Json F64 → MemoryState Json F64
  perform (enqueues e) s = (enqueue e s).1
  perform (claims id token now lease) s = (claim id token now lease s).1
  perform (acks id token) s = (ack id token s).1
  perform (releases id token retry_at) s = (release id token retry_at s).1
  perform (failclaims id token) s = (failclaim id token s).1
  perform (renews id token now by) s = (renew_lease id token now by s).1
  perform (cancels id now) s = (cancel_run id now s).1
  perform (recovers now) s = (recover_expired_leases now s).1

  unfoldable pub perform_all : List QueueOp → MemoryState Json F64 → MemoryState Json F64
  unfolding perform
  perform_all [] s = s
  perform_all (op ∷ ops) s = perform_all ops (perform op s)

  pub perform-IsValid :
      (op : QueueOp) (s : MemoryState Json F64) → IsValid s.queue → IsValid (perform op s).queue
  unfolding perform
  perform-IsValid (enqueues e) s v = enqueue-IsValid s v e
  perform-IsValid (claims id token now lease) s v = claim-IsValid s v id token now lease
  perform-IsValid (acks id token) s v = ack-IsValid s v id token
  perform-IsValid (releases id token retry_at) s v = release-IsValid s v id token retry_at
  perform-IsValid (failclaims id token) s v = failclaim-IsValid s v id token
  perform-IsValid (renews id token now by) s v = renew-IsValid s v id token now by
  perform-IsValid (cancels id now) s v = cancel-IsValid s v id now
  perform-IsValid (recovers now) s v = recover-IsValid s v now
