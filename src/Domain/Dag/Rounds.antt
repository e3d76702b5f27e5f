-- ===== src/Domain/Dag/Rounds.antt =====
-- src/domain/dag.rs: what holds before each round of the loop.
use aegis_fs.Prelude.{
  ℕ, zero, suc, String, true, false, not, ◌&&◌, ◌||◌, none, some, [], ◌∷◌, length, ◌≡◌, refl, arith,
  ◌⊎◌, inl, inr, Bool-cases, Option-cases, ◌∙◌, sym, ap,
}
use aegis_fs.Prelude.BTree
use aegis_fs.Prelude.Eq.{string_eq, ◌==◌, eq_iff}
use aegis_fs.Prelude.Map.{lookup, remove, contains_key}
use aegis_fs.Prelude.Unique.{Unique}
use aegis_fs.Domain.Dag.{
  Deps, Kahn, is_empty, drains, draining, emit, next_of, kahn, start, or_default,
}
use aegis_fs.Domain.Dag.Depends.{depends, contains-insert}
use aegis_fs.Prelude.Names.{
  has, has_iff, has-append, Distinct, Distinct-append, Before, Before-append, Before-last,
}
use aegis_fs.Domain.Dag.Sets.{
  contains-remove, empty-contains, next_of-empty, next_of-nonempty, next_of-contains,
  drop_dep-contains, or_default-drop_dep, drop_dep-depends, drop_dep-Unique, drop_dep-length,
  admit-contains, draining-has, frontier-contains, empty_cases, drains-known,
}

-- The remaining sets are the dependencies that are not emitted; the frontier holds names that are
-- not emitted and wait for none, and every such name; the order is of distinct tasks, each behind
-- its dependencies.
pub record IsRound (deps : Deps) (k : Kahn) : Type 0 where
  pub unique : Unique k.remaining
  pub size : length k.remaining ≡ length deps
  pub tasks : (n : String) → contains_key n k.remaining ≡ contains_key n deps
  pub rest :
      (n d : String)
      → depends n d k.remaining ≡ (depends n d deps && not (contains_key d k.emitted))
  pub emitted : (n : String) → contains_key n k.emitted ≡ has n k.order
  pub known : (n : String) → has n k.order ≡ true → contains_key n deps ≡ true
  pub ready_known : (n : String) → contains_key n k.ready ≡ true → contains_key n deps ≡ true
  pub ready_new : (n : String) → contains_key n k.ready ≡ true → has n k.order ≡ false
  pub ready_free : (n d : String) → contains_key n k.ready ≡ true → depends n d k.remaining ≡ false
  pub free_ready :
      (n : String)
      → contains_key n deps ≡ true
      → is_empty (or_default (lookup n k.remaining)) ≡ true
      → has n k.order || contains_key n k.ready ≡ true
  pub distinct : Distinct k.order
  pub before : (n d : String) → has n k.order ≡ true → depends n d deps ≡ true → Before d n k.order

pub start-IsRound : (deps : Deps) → Unique deps → IsRound deps (start deps)
unfolding lookup
start-IsRound deps u = record {
  unique = u;
  size = refl;
  tasks = λ n. refl;
  rest = λ n d. ground arith;
  emitted = λ n. refl;
  known = λ n h. absurd (cc);
  ready_known = λ n h. ground (arith, frontier-contains n deps u);
  ready_new = λ n h. refl;
  ready_free = λ n d h.
      empty-contains d (or_default (lookup n deps)) (ground (arith, frontier-contains n deps u));
  free_ready = λ n h e. ground (arith, frontier-contains n deps u);
  distinct = tt;
  before = λ n d h. absurd (cc);
}

module _ (deps : Deps) (k : Kahn) (next : String) (r : IsRound deps k)
    (h : next_of k.ready ≡ some next) where
  next-ready : contains_key next k.ready ≡ true
  next-ready = next_of-contains next k.ready h

  emit-emitted : (n : String) → contains_key n (emit next k).emitted ≡ has n (emit next k).order
  emit-emitted n =
      contains-insert next n k.emitted
      ∙ ground (arith, has-append n k.order (next ∷ []), r.emitted n)

  emit-rest :
      (n d : String)
      → depends n d (emit next k).remaining
        ≡ (depends n d deps && not (contains_key d (emit next k).emitted))
  emit-rest n d =
      drop_dep-depends next n d k.remaining
      ∙ ground (arith, r.rest n d, contains-insert next d k.emitted)

  -- A name of the frontier after the round: one of before, or one that was drained.
  emit-ready :
      (n : String)
      → contains_key n (emit next k).ready ≡ true
      → ((contains_key n k.ready ≡ true) × ((next == n) ≡ false))
        ⊎ ((drains next (or_default (lookup n k.remaining)) ≡ true)
            × (has n (emit next k).order ≡ false))
  emit-ready n m = ground (
    arith,
    m,
    admit-contains n (BTree.insert next tt k.emitted) (draining next k.remaining)
        (remove next k.ready),
    contains-remove next n k.ready,
    draining-has n next k.remaining r.unique,
    emit-emitted n,
  )

  order-has : (n : String) → has n (emit next k).order ≡ (has n k.order || (next == n))
  order-has n = has-append n k.order (next ∷ []) ∙ ground arith

  next-Before : (d : String) → depends next d deps ≡ true → Before d next (emit next k).order
  next-Before d m = Before-last d next k.order (
      (has_iff d k.order).0
        (ground (arith, m, r.rest next d, r.ready_free next d next-ready, r.emitted d)))

  emit-Before :
      (n d : String)
      → has n (emit next k).order ≡ true
      → depends n d deps ≡ true
      → Before d n (emit next k).order
  emit-Before n d m e = elim (Bool-cases (next == n)) [
    | inl q ↦ let p = (eq_iff next n).0 q in rw (← p) (next-Before d (rw p e))
    | inr q ↦
        Before-append d n k.order (next ∷ []) (r.before n d (ground (arith, m, q, order-has n)) e)
  ]

  emit-ready_free :
      (n d : String)
      → contains_key n (emit next k).ready ≡ true
      → depends n d (emit next k).remaining ≡ false
  emit-ready_free n d m = elim (emit-ready n m) [
    | inl (old, _) ↦ drop_dep-depends next n d k.remaining ∙ ground (arith, r.ready_free n d old)
    | inr (drained, _) ↦
        ap (contains_key d) (or_default-drop_dep next n k.remaining)
        ∙ empty-contains d (remove next (or_default (lookup n k.remaining)))
            (ground (arith, drained))
  ]

  emit-free_ready :
      (n : String)
      → contains_key n deps ≡ true
      → is_empty (or_default (lookup n (emit next k).remaining)) ≡ true
      → has n (emit next k).order || contains_key n (emit next k).ready ≡ true
  emit-free_ready n m e =
      elim (empty_cases next (or_default (lookup n k.remaining))
        (rw (or_default-drop_dep next n k.remaining) at e)) [
          | inl free ↦ ground (
            arith,
            r.free_ready n m free,
            order-has n,
            emit-emitted n,
            admit-contains n (BTree.insert next tt k.emitted) (draining next k.remaining)
                (remove next k.ready),
            contains-remove next n k.ready,
          )
          | inr drained ↦ ground (
            arith,
            drained,
            order-has n,
            emit-emitted n,
            admit-contains n (BTree.insert next tt k.emitted) (draining next k.remaining)
                (remove next k.ready),
            draining-has n next k.remaining r.unique,
          )
        ]

  pub emit-IsRound : IsRound deps (emit next k)
  emit-IsRound = record {
    unique = drop_dep-Unique next k.remaining r.unique;
    size = drop_dep-length next k.remaining ∙ r.size;
    tasks = λ n. drop_dep-contains next n k.remaining ∙ r.tasks n;
    rest = emit-rest;
    emitted = emit-emitted;
    known = λ n m.
        ground (arith, m, order-has n, r.known n, r.ready_known n, next-ready, eq_iff next n);
    ready_known = λ n m. elim (emit-ready n m) [
      | inl (old, _) ↦ r.ready_known n old
      | inr (drained, _) ↦ sym (r.tasks n) ∙ drains-known next n k.remaining drained
    ];
    ready_new = λ n m. elim (emit-ready n m) [
      | inl (old, ne) ↦ ground (arith, order-has n, r.ready_new n old, ne)
      | inr (_, new) ↦ new
    ];
    ready_free = emit-ready_free;
    free_ready = emit-free_ready;
    distinct = Distinct-append next k.order (r.ready_new next next-ready) r.distinct;
    before = emit-Before;
  }

-- The end of the loop: the frontier is empty.
pub kahn-IsRound :
    (deps : Deps) (fuel : ℕ) (k k' : Kahn)
    → IsRound deps k
    → kahn fuel k ≡ some k'
    → IsRound deps k' × (next_of k'.ready ≡ none)
unfolding kahn
kahn-IsRound deps zero k k' r h = elim (Option-cases (next_of k.ready)) [
  | inl e ↦ let p : k ≡ k' = ground (arith, h, next_of-empty k.ready e) in rw (← p) (r, e)
  | inr (next, e) ↦ absurd (ground (arith, h, next_of-nonempty next k.ready e))
]
kahn-IsRound deps (suc fuel) k k' r h = elim (Option-cases (next_of k.ready)) [
  | inl e ↦ let p : k ≡ k' = ground (arith, h, e) in rw (← p) (r, e)
  | inr (next, e) ↦
      kahn-IsRound deps fuel (emit next k) k' (emit-IsRound deps k next r e) (ground (arith, h, e))
]
