-- ===== src/Persistence/LruStore/Refines.antt =====
-- src/persistence/lru_store.rs: the cached store answers as its inner store does.
use aegis_fs.Prelude.{
  ℕ, inl, inr, Bool-cases, String, some, List, [], ◌∷◌, ◌≡◌, refl, arith, ap, sym, ◌∙◌,
  Option-cases,
}
use aegis_fs.Prelude.Eq.{string_eq, pair_eq, eq_iff, ◌==◌}
use aegis_fs.Prelude.Map.{lookup, insert, lookup-insert}
use aegis_fs.Domain.Workflow.{WorkflowDef}
use aegis_fs.Persistence.Calls.{Call, memory_call, memory_calls}
use aegis_fs.Persistence.Calls.Defs.{
  write_entry-defs, drop_entry-defs, enqueue-defs, cancel_run-defs, reap-defs,
  update_workflow_version_cases,
}
use aegis_fs.Persistence.LruStore.{
  NaturalKey, LruCache, LruState, probe, fetch, put_workflow, update_workflow_version, delegate,
  lru_call, lru_calls,
}
use aegis_fs.Persistence.Model.{WorkflowRecord}
use aegis_fs.Persistence.Queue
use aegis_fs.Persistence.Records

module _ {Json F64 : Type 0} (lru : LruCache (WorkflowRecord Json F64)) where
  -- Every cached record is the one that the inner store holds.
  abbrev pub Coherent : LruState lru → Type 0
  Coherent s =
      (k : NaturalKey) (rec : WorkflowRecord Json F64)
      → lru.peek k s.cache ≡ some rec
      → lookup k s.inner.defs ≡ some rec

  -- The cached store after a call is coherent and has the answer and the inner state of the store.
  abbrev Refined : Call Json F64 → LruState lru → Type 0
  Refined call s =
      ((lru_call lru call s).0 ≡ (memory_call call s.inner).0)
      × ((lru_call lru call s).1.inner ≡ (memory_call call s.inner).1)
      × Coherent (lru_call lru call s).1

  delegate-Coherent :
      (call : Call Json F64) (s : LruState lru)
      → (memory_call call s.inner).1.defs ≡ s.inner.defs
      → Coherent s
      → Coherent (delegate lru call s).1
  delegate-Coherent call s e c k rec h = ap (lookup k) e ∙ c k rec h

  -- A record written under a key whose cache entry is dropped.
  popped-Coherent :
      (key : NaturalKey) (new : WorkflowRecord Json F64) (s : LruState lru)
      → Coherent s
      → (k : NaturalKey) (rec : WorkflowRecord Json F64)
      → lru.peek k (lru.pop key s.cache) ≡ some rec
      → lookup k (insert key new s.inner.defs) ≡ some rec
  popped-Coherent key new s c k rec h = ground (
    arith,
    lookup-insert key k new s.inner.defs,
    eq_iff key k,
    lru.peek-pop k s.cache,
    lru.peek-pop_other k key rec s.cache,
    c k rec,
  )

  -- A record read from the inner store and put into the cache.
  put-Coherent :
      (key : NaturalKey) (new : WorkflowRecord Json F64) (s : LruState lru)
      → lookup key s.inner.defs ≡ some new
      → Coherent s
      → (k : NaturalKey) (rec : WorkflowRecord Json F64)
      → lru.peek k (lru.put key new s.cache) ≡ some rec
      → lookup k s.inner.defs ≡ some rec
  put-Coherent key new s held c k rec h = elim (Bool-cases (key == k)) [
    | inl e ↦ ground (arith, eq_iff key k, lru.peek-put key new s.cache)
    | inr e ↦
        c k rec (lru.peek-put_other k key new rec s.cache (λ p. ground (arith, eq_iff key k)) h)
  ]

  kept :
      (tenant name : String) (s : LruState lru)
      → Coherent s
      → Coherent (record s { cache = (lru.get (tenant, name) s.cache).1 })
  kept tenant name s c k rec h = c k rec (sym (lru.peek-get k (tenant, name) s.cache) ∙ h)

  fetch-Refined :
      (tenant name : String) (s : LruState lru)
      → Coherent s
      → Refined (Call.get_workflow tenant name) s
  unfolding lru_call memory_call fetch probe Records.get_workflow
  fetch-Refined tenant name s c = elim (Option-cases (lru.peek (tenant, name) s.cache)) [
    | inl e ↦
        rw (fetch, lru.get-peek (tenant, name) s.cache, e)
          (elim (Option-cases (lookup (tenant, name) s.inner.defs)) [
            | inl f ↦ rw (Records.get_workflow, f) (refl, refl, kept tenant name s c)
            | inr (rec, f) ↦
                rw (Records.get_workflow, f)
                  (
                    refl,
                    refl,
                    put-Coherent (tenant, name) rec
                        (record s { cache = (lru.get (tenant, name) s.cache).1 }) f
                        (kept tenant name s c),
                  )
          ])
    | inr (rec, e) ↦
        rw (fetch, lru.get-peek (tenant, name) s.cache, e)
          (rw (Records.get_workflow, c (tenant, name) rec e) (refl, refl, kept tenant name s c))
  ]

  put-Refined :
      (def : WorkflowDef Json F64) (s : LruState lru)
      → Coherent s
      → Refined (Call.put_workflow def) s
  unfolding lru_call memory_call put_workflow Records.put_workflow
  put-Refined def s c =
      (refl, refl, popped-Coherent (def.tenant, def.name) (record { def = def }) s c)

  update-Refined :
      (tenant name : String) (def : WorkflowDef Json F64) (v : ℕ) (s : LruState lru)
      → Coherent s
      → Refined (Call.update_workflow_version tenant name def v) s
  unfolding lru_call memory_call update_workflow_version Records.update_workflow_version
  update-Refined tenant name def v s c =
      elim (update_workflow_version_cases tenant name def v s.inner) [
        | inl (e, q) ↦ rw (update_workflow_version, q) (refl, refl, c)
        | inr q ↦
            rw (update_workflow_version, q)
              (refl, refl, popped-Coherent (tenant, name) (record { def = def }) s c)
      ]

  lru_call-Refined : (call : Call Json F64) (s : LruState lru) → Coherent s → Refined call s
  unfolding lru_call memory_call Records.put_run Records.delete_run Records.next_run_number
      Records.put_task_run Queue.recover_expired_leases Queue.claim Queue.ack Queue.failclaim
      Queue.release Queue.renew_lease
  lru_call-Refined (Call.put_workflow def) s c = put-Refined def s c
  lru_call-Refined (Call.update_workflow_version tenant name def v) s c =
      update-Refined tenant name def v s c
  lru_call-Refined (Call.get_workflow tenant name) s c = fetch-Refined tenant name s c
  lru_call-Refined Call.list_workflows s c =
      (refl, refl, delegate-Coherent Call.list_workflows s (refl) c)
  lru_call-Refined Call.list_workflow_summaries s c =
      (refl, refl, delegate-Coherent Call.list_workflow_summaries s (refl) c)
  lru_call-Refined Call.len_queue s c = (refl, refl, delegate-Coherent Call.len_queue s (refl) c)
  lru_call-Refined (Call.put_run r) s c =
      (refl, refl, delegate-Coherent (Call.put_run r) s (refl) c)
  lru_call-Refined (Call.get_run id) s c =
      (refl, refl, delegate-Coherent (Call.get_run id) s (refl) c)
  lru_call-Refined (Call.delete_run id) s c =
      (refl, refl, delegate-Coherent (Call.delete_run id) s (refl) c)
  lru_call-Refined (Call.get_task_run id) s c =
      (refl, refl, delegate-Coherent (Call.get_task_run id) s (refl) c)
  lru_call-Refined (Call.list_task_runs_for_run id) s c =
      (refl, refl, delegate-Coherent (Call.list_task_runs_for_run id) s (refl) c)
  lru_call-Refined (Call.next_run_number name) s c =
      (refl, refl, delegate-Coherent (Call.next_run_number name) s (refl) c)
  lru_call-Refined (Call.list_runs f) s c =
      (refl, refl, delegate-Coherent (Call.list_runs f) s (refl) c)
  lru_call-Refined (Call.count_runs f) s c =
      (refl, refl, delegate-Coherent (Call.count_runs f) s (refl) c)
  lru_call-Refined (Call.put_task_run t) s c =
      (refl, refl, delegate-Coherent (Call.put_task_run t) s (refl) c)
  lru_call-Refined (Call.enqueue e) s c =
      (refl, refl, delegate-Coherent (Call.enqueue e) s (enqueue-defs e s.inner) c)
  lru_call-Refined (Call.scan_ready now limit) s c =
      (refl, refl, delegate-Coherent (Call.scan_ready now limit) s (refl) c)
  lru_call-Refined (Call.claim id token now lease) s c = (
    refl,
    refl,
    delegate-Coherent (Call.claim id token now lease) s (write_entry-defs id _ _ s.inner) c,
  )
  lru_call-Refined (Call.ack id token) s c =
      (refl, refl, delegate-Coherent (Call.ack id token) s (drop_entry-defs id _ s.inner) c)
  lru_call-Refined (Call.failclaim id token) s c = (
    refl,
    refl,
    delegate-Coherent (Call.failclaim id token) s (write_entry-defs id _ _ s.inner) c,
  )
  lru_call-Refined (Call.release id token at) s c = (
    refl,
    refl,
    delegate-Coherent (Call.release id token at) s (write_entry-defs id _ _ s.inner) c,
  )
  lru_call-Refined (Call.renew_lease id token now by) s c = (
    refl,
    refl,
    delegate-Coherent (Call.renew_lease id token now by) s (write_entry-defs id _ _ s.inner) c,
  )
  lru_call-Refined (Call.cancel_run id now) s c =
      (refl, refl, delegate-Coherent (Call.cancel_run id now) s (cancel_run-defs id now s.inner) c)
  lru_call-Refined (Call.recover_expired_leases now) s c =
      (refl, refl, delegate-Coherent (Call.recover_expired_leases now) s (refl) c)
  lru_call-Refined (Call.reap_finished_runs before) s c = (
    refl,
    refl,
    delegate-Coherent (Call.reap_finished_runs before) s (reap-defs before s.inner) c,
  )

  -- The calls made through a cached store are answered one by one as by the store alone, whatever
  -- the capacity and the evictions of the cache, and leave the inner store in the same state: from a
  -- state in which every cached record is the stored one, with no other access to the inner store
  -- and each call run to its end before the next; this condition holds again at the end.
  pub lru_calls-refines :
      (calls : List (Call Json F64)) (s : LruState lru)
      → Coherent s
      → ((lru_calls lru calls s).0 ≡ (memory_calls calls s.inner).0)
        × ((lru_calls lru calls s).1.inner ≡ (memory_calls calls s.inner).1)
        × Coherent (lru_calls lru calls s).1
  unfolding lru_calls memory_calls
  lru_calls-refines [] s c = (refl, refl, c)
  lru_calls-refines (call ∷ calls) s c =
      let (answer, inner, c') = lru_call-Refined call s c in
      let (rest, end, c'') = lru_calls-refines calls (lru_call lru call s).1 c' in
      (ground (arith, rest, inner, answer), ground (arith, end, inner), c'')
