-- ===== src/Persistence/Queue/Recover.antt =====
-- `recover_expired_leases` of src/persistence/memory.rs: which entries it clears, and its count.
use mathlib.Core.Option
use aegis_fs.Prelude.{
  ℕ, ◌+◌, String, ◌≡◌, refl, inl, inr, Bool, true, false, Option, none, some, List, [], ◌∷◌, arith,
  filter, map, any, length, if◌then◌else◌, Elem,
}
use aegis_fs.Prelude.Eq.{◌==◌, string_eq, eq_iff}
use aegis_fs.Prelude.Int.{ℤ}
use aegis_fs.Prelude.Map.{Map, lookup, insert, values, lookup-insert, is_some}
use aegis_fs.Persistence.Model.{QueueEntry}
use aegis_fs.Persistence.Store.{MemoryState, unleased, lapsed}
use aegis_fs.Persistence.Queue.{recovered_after, cleared, recover_ids, recover_expired_leases}
use aegis_fs.Persistence.Queue.Valid.{IsValid, Keyed, lookup-recover_ids}
use aegis_fs.Prelude.Unique.{Unique, lookup-of-Elem}

abbrev pub tests : (QueueEntry → Bool) → Option QueueEntry → Bool
tests p none = false
tests p (some e) = p e

-- An entry as the recovery at a time leaves it.
abbrev pub recovered_entry : ℤ → QueueEntry → QueueEntry
recovered_entry now e = if lapsed now e.lease_until_ms then unleased e else e

abbrev ids_of : (QueueEntry → Bool) → Map String QueueEntry → List String
ids_of p q = map (λ e. e.run_id) (filter p (values q))

-- The listed ids are the keys of the entries that pass the test.
any-ids :
    (p : QueueEntry → Bool) (j : String) (q : Map String QueueEntry)
    → Unique q
    → Keyed q
    → any (λ i. i == j) (ids_of p q) ≡ tests p (lookup j q)
unfolding lookup
any-ids p j [] u k = refl
any-ids p j ((i, e) ∷ q) u k = ground (arith, any-ids p j q u.1 k.1, eq_iff i j, eq_iff e.run_id j)

-- Every listed id has an entry, so each is counted.
abbrev AllPresent : List String → Map String QueueEntry → Type 0
AllPresent [] q = Unit
AllPresent (i ∷ ids) q = (is_some (lookup i q) ≡ true) × AllPresent ids q

present-cleared :
    (i : String) (ids : List String) (q : Map String QueueEntry)
    → AllPresent ids q
    → AllPresent ids (cleared i (lookup i q) q)
present-cleared i ids q h = by_entry (lookup i q)
  where
    written :
        (e : QueueEntry) (ids : List String)
        → AllPresent ids q
        → AllPresent ids (insert i (unleased e) q)
    written e [] h = tt
    written e (j ∷ ids) h = (ground (arith, lookup-insert i j (unleased e) q), written e ids h.1)

    by_entry : (o : Option QueueEntry) → AllPresent ids (cleared i o q)
    by_entry none = h
    by_entry (some e) = written e ids h

recover_ids-count :
    (ids : List String) (n : ℕ) (q : Map String QueueEntry)
    → AllPresent ids q
    → (recover_ids ids n q).0 ≡ n + length ids
unfolding recover_ids
recover_ids-count [] n q h = omega arith
recover_ids-count (i ∷ ids) n q h = ground (
  arith,
  recover_ids-count ids (recovered_after n (lookup i q)) (cleared i (lookup i q) q)
      (present-cleared i ids q h.1),
)

present-ids :
    (p : QueueEntry → Bool) (all rest : Map String QueueEntry)
    → Keyed rest
    → ((k : String) (e : QueueEntry) → Elem (k, e) rest → lookup k all ≡ some e)
    → AllPresent (ids_of p rest) all
present-ids p all [] k h = tt
present-ids p all ((i, e) ∷ rest) k h =
    ground (arith, present-ids p all rest k.1 (λ j w m. h j w (inr m)), h i e (inl refl))

length-ids :
    (p : QueueEntry → Bool) (q : Map String QueueEntry)
    → length (ids_of p q) ≡ length (filter p (values q))
length-ids p [] = refl
length-ids p ((i, e) ∷ q) = ground (arith, length-ids p q)

recover-lookup :
    (now : ℤ) (j : String) (o : Option QueueEntry)
    → (if tests (λ e. lapsed now e.lease_until_ms) o then Option.map unleased o else o)
      ≡ Option.map (recovered_entry now) o
recover-lookup now j none = refl
recover-lookup now j (some e) = ground arith

module _ {Json F64 : Type 0} where
  -- In a valid queue the recovery clears the lease of exactly the entries whose lease ends at or
  -- before now, leaves every other entry and every other key as it was, and returns how many it
  -- cleared.
  pub recover_lem :
      (now : ℤ) (s : MemoryState Json F64)
      → IsValid s.queue
      → ((j : String)
          → lookup j (recover_expired_leases now s).1.queue
            ≡ Option.map (recovered_entry now) (lookup j s.queue))
        × ((recover_expired_leases now s).0
            ≡ length (filter (λ e. lapsed now e.lease_until_ms) (values s.queue)))
  unfolding recover_expired_leases
  recover_lem now s v =
      let p : QueueEntry → Bool = λ e. lapsed now e.lease_until_ms in
      (
        λ j.
            rw
              (
                lookup-recover_ids j (ids_of p s.queue) 0 s.queue,
                any-ids p j s.queue v.unique v.keyed,
              )
              (recover-lookup now j (lookup j s.queue)),
        omega (
          arith,
          recover_ids-count (ids_of p s.queue) 0 s.queue (
              present-ids p s.queue s.queue v.keyed
                (λ k e m. lookup-of-Elem k e s.queue v.unique m)),
          length-ids p s.queue,
        ),
      )
