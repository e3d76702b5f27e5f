-- ===== src/Persistence/LruStore.antt =====
-- src/persistence/lru_store.rs: the read cache over a store. The cache itself is that of the crate
-- `lru`, a parameter with the documented behaviour of the calls that are used; the inner store is the
-- in-memory one.
pub mod Refines
pub mod Stale
use aegis_fs.Prelude.{
  ℕ, zero, suc, ◌+◌, ◌%◌, ◌^◌, String, Option, none, some, List, [], ◌∷◌, ◌≡◌, ◌≢◌,
}
use aegis_fs.Prelude.Result.{Result, ok, err}
use aegis_fs.Domain.Error.{StorageError}
use aegis_fs.Domain.Workflow.{WorkflowDef}
use aegis_fs.Persistence.Calls.{Call, Answer, written, workflow, memory_call, answers}
use aegis_fs.Persistence.Model.{WorkflowRecord}
use aegis_fs.Persistence.Records
use aegis_fs.Persistence.Store.{MemoryState}

abbrev pub NaturalKey : Type 0
NaturalKey = String × String

-- `lru::LruCache`. `peek` reads without touching the order; what a key holds is what was put last,
-- unless it was evicted, so a `put` may lose other keys and never changes what they hold.
pub record LruCache (V : Type 0) : Type 1 where
  pub Cache : Type 0
  pub new : ℕ → Cache
  pub get : NaturalKey → Cache → Option V × Cache
  pub put : NaturalKey → V → Cache → Cache
  pub pop : NaturalKey → Cache → Cache
  pub peek : NaturalKey → Cache → Option V
  pub peek-new : (k : NaturalKey) (capacity : ℕ) → peek k (new capacity) ≡ none
  pub get-peek : (k : NaturalKey) (c : Cache) → (get k c).0 ≡ peek k c
  pub peek-get : (j k : NaturalKey) (c : Cache) → peek j (get k c).1 ≡ peek j c
  pub peek-put_other :
      (j k : NaturalKey) (v w : V) (c : Cache)
      → k ≢ j
      → peek j (put k v c) ≡ some w
      → peek j c ≡ some w
  pub peek-put : (k : NaturalKey) (v : V) (c : Cache) → peek k (put k v c) ≡ some v
  pub peek-pop : (k : NaturalKey) (c : Cache) → peek k (pop k c) ≡ none
  pub peek-pop_other :
      (j k : NaturalKey) (w : V) (c : Cache) → peek j (pop k c) ≡ some w → peek j c ≡ some w

abbrev pub default_cache_capacity : ℕ
default_cache_capacity = 128

module _ {Json F64 : Type 0} (lru : LruCache (WorkflowRecord Json F64)) where
  pub record LruState : Type 0 where
    pub inner : MemoryState Json F64
    pub cache : lru.Cache
    pub hits : ℕ  -- u64
    pub misses : ℕ  -- u64

  -- A capacity of 0 panics.
  abbrev pub with_capacity : MemoryState Json F64 → ℕ → Option LruState
  with_capacity inner zero = none
  with_capacity inner (suc n) =
      some (record { inner = inner; cache = lru.new (suc n); hits = 0; misses = 0 })

  abbrev pub wrap : MemoryState Json F64 → Option LruState
  wrap inner = with_capacity inner default_cache_capacity

  abbrev pub cache_stats : LruState → ℕ × ℕ
  cache_stats s = (s.hits, s.misses)

  -- The end of `fetch` on a miss, which runs after the inner store was read and under a new lock.
  abbrev pub remember :
      (tenant name : String)
      → Result StorageError (WorkflowRecord Json F64)
      → LruState
      → Result StorageError (WorkflowRecord Json F64) × LruState
  remember tenant name (err e) s = (err e, s)
  remember tenant name (ok rec) s =
      (ok rec, record s { cache = lru.put (tenant, name) rec s.cache })

  -- The look into the cache, with its counters.
  abbrev pub probed :
      Option (WorkflowRecord Json F64) → LruState → Option (WorkflowRecord Json F64) × LruState
  probed (some rec) s = (some rec, record s { hits = (s.hits + 1) % 2 ^ 64 })
  probed none s = (none, record s { misses = (s.misses + 1) % 2 ^ 64 })

  unfoldable pub probe :
      (tenant name : String) → LruState → Option (WorkflowRecord Json F64) × LruState
  probe tenant name s =
      let (found, cache) = lru.get (tenant, name) s.cache in
      probed found (record s { cache = cache })

  abbrev pub fetched :
      (tenant name : String)
      → Option (WorkflowRecord Json F64) × LruState
      → Result StorageError (WorkflowRecord Json F64) × LruState
  fetched tenant name (some rec, s) = (ok rec, s)
  fetched tenant name (none, s) = remember tenant name (Records.get_workflow tenant name s.inner) s

  unfoldable pub fetch :
      (tenant name : String) → LruState → Result StorageError (WorkflowRecord Json F64) × LruState
  unfolding probe
  fetch tenant name s = fetched tenant name (probe tenant name s)

  abbrev pub invalidate : (tenant name : String) → LruState → LruState
  invalidate tenant name s = record s { cache = lru.pop (tenant, name) s.cache }

  unfoldable pub put_workflow : WorkflowDef Json F64 → LruState → WorkflowRecord Json F64 × LruState
  put_workflow def s =
      let (rec, inner) = Records.put_workflow def s.inner in
      (rec, invalidate rec.def.tenant rec.def.name (record s { inner = inner }))

  -- The end of `update_workflow_version`: an error returns before the entry is invalidated.
  abbrev pub updated :
      (tenant name : String)
      → Result StorageError (WorkflowRecord Json F64)
      → LruState
      → Result StorageError (WorkflowRecord Json F64) × LruState
  updated tenant name (err e) s = (err e, s)
  updated tenant name (ok rec) s = (ok rec, invalidate tenant name s)

  unfoldable pub update_workflow_version :
      (tenant name : String)
      → WorkflowDef Json F64
      → ℕ
      → LruState
      → Result StorageError (WorkflowRecord Json F64) × LruState
  update_workflow_version tenant name def expected_version s =
      let (result, inner) =
        Records.update_workflow_version tenant name def expected_version s.inner in
      updated tenant name result (record s { inner = inner })

  -- A method that calls the same one of the inner store.
  abbrev pub delegate : Call Json F64 → LruState → Answer Json F64 × LruState
  delegate call s =
      let (answer, inner) = memory_call call s.inner in (answer, record s { inner = inner })

  -- The methods of the decorator. `reap_finished_runs`, the default method, is made of `list_runs`
  -- and `delete_run`, which delegate.
  unfoldable pub lru_call : Call Json F64 → LruState → Answer Json F64 × LruState
  lru_call (Call.put_workflow def) s = answers (λ rec. workflow (ok rec)) (put_workflow def s)
  lru_call (Call.update_workflow_version tenant name def v) s =
      answers workflow (update_workflow_version tenant name def v s)
  lru_call (Call.get_workflow tenant name) s = answers workflow (fetch tenant name s)
  lru_call Call.list_workflows s = delegate Call.list_workflows s
  lru_call Call.list_workflow_summaries s = delegate Call.list_workflow_summaries s
  lru_call Call.len_queue s = delegate Call.len_queue s
  lru_call (Call.put_run r) s = delegate (Call.put_run r) s
  lru_call (Call.get_run id) s = delegate (Call.get_run id) s
  lru_call (Call.delete_run id) s = delegate (Call.delete_run id) s
  lru_call (Call.get_task_run id) s = delegate (Call.get_task_run id) s
  lru_call (Call.list_task_runs_for_run id) s = delegate (Call.list_task_runs_for_run id) s
  lru_call (Call.next_run_number name) s = delegate (Call.next_run_number name) s
  lru_call (Call.list_runs f) s = delegate (Call.list_runs f) s
  lru_call (Call.count_runs f) s = delegate (Call.count_runs f) s
  lru_call (Call.put_task_run t) s = delegate (Call.put_task_run t) s
  lru_call (Call.enqueue e) s = delegate (Call.enqueue e) s
  lru_call (Call.scan_ready now limit) s = delegate (Call.scan_ready now limit) s
  lru_call (Call.claim id token now lease) s = delegate (Call.claim id token now lease) s
  lru_call (Call.ack id token) s = delegate (Call.ack id token) s
  lru_call (Call.failclaim id token) s = delegate (Call.failclaim id token) s
  lru_call (Call.release id token at) s = delegate (Call.release id token at) s
  lru_call (Call.renew_lease id token now by) s = delegate (Call.renew_lease id token now by) s
  lru_call (Call.cancel_run id now) s = delegate (Call.cancel_run id now) s
  lru_call (Call.recover_expired_leases now) s = delegate (Call.recover_expired_leases now) s
  lru_call (Call.reap_finished_runs before) s = delegate (Call.reap_finished_runs before) s

  unfoldable pub lru_calls : List (Call Json F64) → LruState → List (Answer Json F64) × LruState
  unfolding lru_call
  lru_calls [] s = ([], s)
  lru_calls (call ∷ calls) s =
      let (answer, s') = lru_call call s in
      let (rest, end) = lru_calls calls s' in (answer ∷ rest, end)
