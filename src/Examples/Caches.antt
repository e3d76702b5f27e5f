-- ===== src/Examples/Caches.antt =====
-- A cache of the `lru` kind as a list, most recent first, and the cached store over it.
use aegis_fs.Prelude.{
  ℕ, zero, suc, ◌-◌, Option, none, some, List, [], ◌∷◌, ◌≡◌, ◌≢◌, refl, arith, take,
}
use aegis_fs.Prelude.Eq.{string_eq, pair_eq, eq_iff}
use aegis_fs.Prelude.Int.{pos}
use aegis_fs.Prelude.Map.{Map, lookup, remove, lookup-remove}
use aegis_fs.Prelude.Result.{ok}
use aegis_fs.Domain.Workflow.{WorkflowDef}
use aegis_fs.Persistence.Calls.{Call, memory_calls}
use aegis_fs.Persistence.LruStore.{NaturalKey, LruCache, LruState, probe, fetch, lru_calls}
use aegis_fs.Persistence.LruStore.Refines.{Coherent, lru_calls-refines}
use aegis_fs.Persistence.LruStore.Stale.{overtaken, stale_fetch}
use aegis_fs.Persistence.Model.{WorkflowRecord}
use aegis_fs.Persistence.Records
use aegis_fs.Examples.Data.{store, pipeline}

module _ {V : Type 0} where
  abbrev touched : NaturalKey → Option V → Map NaturalKey V → Map NaturalKey V
  touched k none m = m
  touched k (some v) m = (k, v) ∷ remove k m

  lookup-nil : (k : NaturalKey) → lookup {V = V} k [] ≡ none
  unfolding lookup
  lookup-nil k = refl

  lookup-touched :
      (j k : NaturalKey) (m : Map NaturalKey V) → lookup j (touched k (lookup k m) m) ≡ lookup j m
  unfolding lookup
  lookup-touched j k m = ground (arith, lookup-remove k j m, eq_iff k j)

  lookup-take :
      (n : ℕ) (j : NaturalKey) (v : V) (m : Map NaturalKey V)
      → lookup j (take n m) ≡ some v
      → lookup j m ≡ some v
  unfolding lookup
  lookup-take zero j v m h = absurd (cc)
  lookup-take (suc n) j v [] h = h
  lookup-take (suc n) j v (e ∷ m) h = ground (arith, lookup-take n j v m)

  lookup-put_other :
      (n : ℕ) (j k : NaturalKey) (v w : V) (m : Map NaturalKey V)
      → k ≢ j
      → lookup j ((k, v) ∷ take n (remove k m)) ≡ some w
      → lookup j m ≡ some w
  unfolding lookup
  lookup-put_other n j k v w m ne h =
      ground (arith, lookup-take n j w (remove k m), lookup-remove k j m, eq_iff k j)

  lookup-put :
      (n : ℕ) (k : NaturalKey) (v : V) (m : Map NaturalKey V)
      → lookup k ((k, v) ∷ take n (remove k m)) ≡ some v
  unfolding lookup
  lookup-put n k v m = ground (arith, eq_iff k k)

-- The number beside the entries is the capacity less one.
abbrev listed : (V : Type 0) → LruCache V
listed V = record {
  Cache = ℕ × Map NaturalKey V;
  new = λ n. (n - 1, []);
  get = λ k c. (lookup k c.1, (c.0, touched k (lookup k c.1) c.1));
  put = λ k v c. (c.0, (k, v) ∷ take c.0 (remove k c.1));
  pop = λ k c. (c.0, remove k c.1);
  peek = λ k c. lookup k c.1;
  peek-new = λ k n. lookup-nil k;
  get-peek = λ k c. refl;
  peek-get = λ j k c. lookup-touched j k c.1;
  peek-put_other = λ j k v w c ne h. lookup-put_other c.0 j k v w c.1 ne h;
  peek-put = λ k v c. lookup-put c.0 k v c.1;
  peek-pop = λ k c. ground (arith, lookup-remove k k c.1, eq_iff k k);
  peek-pop_other = λ j k w c h. ground (arith, lookup-remove k j c.1);
}

abbrev lru : LruCache (WorkflowRecord ℕ ℕ)
lru = listed (WorkflowRecord ℕ ℕ)

abbrev cached : LruState lru
cached = record { inner = store; cache = (1, []); hits = 0; misses = 0 }

abbrev next_pipeline : WorkflowDef ℕ ℕ
next_pipeline = record pipeline { version = 5 }

abbrev calls : List (Call ℕ ℕ)
calls =
    Call.get_workflow "t" "pipeline"
    ∷ Call.update_workflow_version "t" "pipeline" next_pipeline 4
    ∷ Call.get_workflow "t" "pipeline"
    ∷ Call.recover_expired_leases (pos 9)
    ∷ []

fresh : Coherent lru cached
unfolding lookup
fresh k rec h = absurd (cc)

lru_calls-refines_example :
    ((lru_calls lru calls cached).0 ≡ (memory_calls calls store).0)
    × ((lru_calls lru calls cached).1.inner ≡ (memory_calls calls store).1)
    × Coherent lru (lru_calls lru calls cached).1
lru_calls-refines_example = lru_calls-refines lru calls cached fresh

stale_fetch_example :
    ((probe lru "t" "pipeline" cached).0 ≡ none)
    × ((fetch lru "t" "pipeline"
          (overtaken lru next_pipeline (probe lru "t" "pipeline" cached).1)).0
        ≡ ok (record { def = pipeline }))
    × (Records.get_workflow "t" "pipeline"
          (overtaken lru next_pipeline (probe lru "t" "pipeline" cached).1).inner
        ≡ ok (record { def = next_pipeline }))
unfolding Records.get_workflow lookup
stale_fetch_example = stale_fetch lru next_pipeline (record { def = pipeline }) cached refl refl
