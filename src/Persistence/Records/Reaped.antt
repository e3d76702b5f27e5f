-- ===== src/Persistence/Records/Reaped.antt =====
-- src/persistence/mod.rs: what the retention pass removes.
use aegis_fs.Prelude.{
  ℕ, suc, String, Bool, true, ◌&&◌, none, some, Option-cases, List, [], ◌∷◌, ◌≡◌, refl, sym, ap,
  ◌∙◌, arith, if◌then◌else◌, any, any-true, any_of, filter, Elem, ◌↔◌, Bool-cases, inl, inr,
}
use aegis_fs.Prelude.Eq.{◌==◌, string_eq, eq_iff}
use aegis_fs.Prelude.Int.{ℤ, ◌≤ℤ◌, ◌<ℤ◌}
use aegis_fs.Prelude.Map.{lookup, values, lookup-remove}
use aegis_fs.Prelude.Sort.{Elem-sort_by}
use aegis_fs.Domain.Run.{Run}
use aegis_fs.Persistence.Filter.{default_filter, matches, newest_first}
use aegis_fs.Persistence.Filter.Page.{apply_order_lem}
use aegis_fs.Persistence.Store.{MemoryState}
use aegis_fs.Persistence.Records.{reap_loop, reap_finished_runs, finished_by, list_runs, delete_run}

module _ {A : Type 0} where
  any-same :
      (p : A → Bool) (xs ys : List A) → ((a : A) → Elem a xs ↔ Elem a ys) → any p xs ≡ any p ys
  any-same p xs ys h = elim (Bool-cases (any p xs)) [
    | inl e ↦ let (a, m, q) = any-true p xs e in e ∙ sym (any_of p a ys ((h a).0 m) q)
    | inr e ↦ elim (Bool-cases (any p ys)) [
      | inl f ↦ let (a, m, q) = any-true p ys f in absurd (cc (e, any_of p a xs ((h a).1 m) q))
      | inr f ↦ e ∙ sym f
    ]
  ]

module _ {Json : Type 0} where
  -- The run has the id and finished by then.
  abbrev reaps : ℤ → String → Run Json → Bool
  reaps before_ms id r = r.id == id && finished_by before_ms r

  reaps-to :
      (before_ms : ℤ) (id : String) (r : Run Json) (at : ℤ)
      → r.id ≡ id
      → r.finished_at_ms ≡ some at
      → at ≤ℤ before_ms
      → reaps before_ms id r ≡ true
  reaps-to before_ms id r at same finished old = ground (arith, eq_iff r.id id)

  reaps-of :
      (before_ms : ℤ) (id : String) (r : Run Json)
      → reaps before_ms id r ≡ true
      → (r.id ≡ id) × ((at : ℤ) × (r.finished_at_ms ≡ some at) × (at ≤ℤ before_ms))
  reaps-of before_ms id r h = elim (Option-cases r.finished_at_ms) [
    | inl e ↦ absurd (ground arith)
    | inr (at, e) ↦ (ground (arith, eq_iff r.id id), (at, e, ground arith))
  ]

  filter-default : (runs : List (Run Json)) → filter (matches default_filter) runs ≡ runs
  unfolding matches
  filter-default [] = refl
  filter-default (r ∷ runs) = ap (λ rest. r ∷ rest) (filter-default runs)

module _ {Json F64 : Type 0} where
  lookup-reap_loop :
      (before_ms : ℤ) (id : String) (runs : List (Run Json)) (n : ℕ) (s : MemoryState Json F64)
      → lookup id (reap_loop before_ms runs n s).1.runs
        ≡ (if any (reaps before_ms id) runs then none else lookup id s.runs)
  unfolding reap_loop delete_run
  lookup-reap_loop before_ms id [] n s = refl
  lookup-reap_loop before_ms id (r ∷ runs) n s =
      lookup-reap_loop before_ms id runs (if finished_by before_ms r then suc n else n)
        (if finished_by before_ms r then delete_run r.id s else s)
      ∙ elim (Bool-cases (finished_by before_ms r)) [
        | inl e ↦ rw e (ground (arith, lookup-remove r.id id s.runs))
        | inr e ↦ rw e (ground arith)
      ]

  lookup-reaped :
      (before_ms : ℤ) (id : String) (s : MemoryState Json F64)
      → lookup id (reap_finished_runs before_ms s).1.runs
        ≡ (if any (reaps before_ms id) (values s.runs) then none else lookup id s.runs)
  unfolding reap_finished_runs list_runs
  lookup-reaped before_ms id s =
      rw
        (sym (
          any-same (reaps before_ms id) (list_runs default_filter s) (values s.runs) (λ a.
            rw
              (
                apply_order_lem default_filter (filter (matches default_filter) (values s.runs)),
                filter-default (values s.runs),
              )
              (Elem-sort_by newest_first a (values s.runs)))))
        (lookup-reap_loop before_ms id (list_runs default_filter s) 0 s)

  -- After a retention pass there is no run under an id when a stored run with that id has a time of
  -- finishing at or before the given time, whatever its status; and what is stored under an id is as
  -- it was when every stored run with that id has a later time of finishing, or none.
  pub reap_finished_runs_lem :
      (before_ms : ℤ) (id : String) (s : MemoryState Json F64)
      → ((r : Run Json) (at : ℤ)
          → Elem r (values s.runs)
          → r.id ≡ id
          → r.finished_at_ms ≡ some at
          → at ≤ℤ before_ms
          → lookup id (reap_finished_runs before_ms s).1.runs ≡ none)
        × (((r : Run Json) (at : ℤ)
              → Elem r (values s.runs)
              → r.id ≡ id
              → r.finished_at_ms ≡ some at
              → before_ms <ℤ at)
            → lookup id (reap_finished_runs before_ms s).1.runs ≡ lookup id s.runs)
  reap_finished_runs_lem before_ms id s = (
    λ r at m same finished old.
        let reaped =
          any_of (reaps before_ms id) r (values s.runs) m
            (reaps-to before_ms id r at same finished old) in
        lookup-reaped before_ms id s ∙ rw reaped refl,
    λ young. elim (Bool-cases (any (reaps before_ms id) (values s.runs))) [
      | inr kept ↦ lookup-reaped before_ms id s ∙ rw kept refl
      | inl reaped ↦
          let (r, m, h) = any-true (reaps before_ms id) (values s.runs) reaped in
          let (same, (at, finished, old)) = reaps-of before_ms id r h in
          let later = young r at m same finished in absurd (omega arith)
    ],
  )
