-- ===== src/Persistence/LruStore/Stale.antt =====
-- src/persistence/lru_store.rs: `fetch` holds the cache's lock for its look and for its `put`, and not
-- in between, so a write can come between the reading of the inner store and the `put`.
use aegis_fs.Prelude.{String, Option, none, some, ◌≡◌, refl, ap, ◌∙◌}
use aegis_fs.Prelude.Eq.{string_eq, pair_eq}
use aegis_fs.Prelude.Map.{lookup-insert_same}
use aegis_fs.Prelude.Result.{ok}
use aegis_fs.Domain.Workflow.{WorkflowDef}
use aegis_fs.Persistence.LruStore.{
  NaturalKey, LruCache, LruState, probed, probe, remember, fetch, put_workflow,
}
use aegis_fs.Persistence.Model.{WorkflowRecord}
use aegis_fs.Persistence.Records

module _ {Json F64 : Type 0} (lru : LruCache (WorkflowRecord Json F64)) where
  -- The end of a reader that has missed, in the state `seen`: it has read the inner store, a writer
  -- has then stored `def`, and the reader puts what it read into the cache.
  abbrev pub overtaken : WorkflowDef Json F64 → LruState lru → LruState lru
  overtaken def seen =
      (remember lru def.tenant def.name (Records.get_workflow def.tenant def.name seen.inner)
        (put_workflow lru def seen).1).1

  probed-inner :
      (found : Option (WorkflowRecord Json F64)) (s : LruState lru)
      → (probed lru found s).1.inner ≡ s.inner
  probed-inner none s = refl
  probed-inner (some rec) s = refl

  probe-none :
      (tenant name : String) (s : LruState lru)
      → lru.peek (tenant, name) s.cache ≡ none
      → (probe lru tenant name s).0 ≡ none
  unfolding probe
  probe-none tenant name s h = rw (probe, lru.get-peek (tenant, name) s.cache, h) refl

  probe-inner :
      (tenant name : String) (s : LruState lru) → (probe lru tenant name s).1.inner ≡ s.inner
  unfolding probe
  probe-inner tenant name s = probed-inner (lru.get (tenant, name) s.cache).0 _

  fetch-hit :
      (tenant name : String) (rec : WorkflowRecord Json F64) (s : LruState lru)
      → lru.peek (tenant, name) s.cache ≡ some rec
      → (fetch lru tenant name s).0 ≡ ok rec
  unfolding fetch probe
  fetch-hit tenant name rec s h = rw (fetch, lru.get-peek (tenant, name) s.cache, h) refl

  overtaken-stale :
      (def : WorkflowDef Json F64) (old : WorkflowRecord Json F64) (seen : LruState lru)
      → Records.get_workflow def.tenant def.name seen.inner ≡ ok old
      → ((fetch lru def.tenant def.name (overtaken def seen)).0 ≡ ok old)
        × (Records.get_workflow def.tenant def.name (overtaken def seen).inner
            ≡ ok (record { def = def }))
  unfolding put_workflow Records.put_workflow Records.get_workflow
  overtaken-stale def old seen read =
      let key : NaturalKey = (def.tenant, def.name) in
      rw (overtaken, read)
        (
          fetch-hit key.0 key.1 old _ (lru.peek-put key old (lru.pop key seen.cache)),
          rw (Records.get_workflow, lookup-insert_same key (record { def = def }) seen.inner.defs)
              refl,
        )

  -- When a reader misses on a stored record and a writer replaces that record between the reader's
  -- look at the inner store and its `put`, the next read through the cache returns the old record,
  -- while the inner store holds the new one.
  pub stale_fetch :
      (def : WorkflowDef Json F64) (old : WorkflowRecord Json F64) (s : LruState lru)
      → lru.peek (def.tenant, def.name) s.cache ≡ none
      → Records.get_workflow def.tenant def.name s.inner ≡ ok old
      → ((probe lru def.tenant def.name s).0 ≡ none)
        × ((fetch lru def.tenant def.name (overtaken def (probe lru def.tenant def.name s).1)).0
            ≡ ok old)
        × (Records.get_workflow def.tenant def.name
              (overtaken def (probe lru def.tenant def.name s).1).inner
            ≡ ok (record { def = def }))
  stale_fetch def old s miss read =
      let (stale, new) = overtaken-stale def old (probe lru def.tenant def.name s).1 (
        ap (Records.get_workflow def.tenant def.name) (probe-inner def.tenant def.name s) ∙ read) in
      (probe-none def.tenant def.name s miss, stale, new)
