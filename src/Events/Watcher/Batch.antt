-- ===== src/Events/Watcher/Batch.antt =====
-- src/events/watcher.rs: which candidates a poll dispatches, and in which order.
use aegis_fs.Prelude.{
  true, Option, none, some, List, ◌≡◌, refl, sym, ap, ◌↔◌, ◌⊎◌, inl, inr, Elem, arith, Bool-cases,
}
use aegis_fs.Prelude.Int.{ℤ, ltb_ℤ, ◌<ℤ◌}
use aegis_fs.Prelude.Partial.{filter_map, Elem-filter_map}
use aegis_fs.Prelude.Sort.{Sorted, sort_by-Sorted, Elem-sort_by}
use aegis_fs.Prelude.TextOrder.{str_le-total}
use aegis_fs.Domain.Run.{Run}
use aegis_fs.Domain.RunStatus
use aegis_fs.Domain.RunStatus.{RunStatus}
use aegis_fs.Events.Kind.{EventKind, terminal_kind_for}
use aegis_fs.Events.Watcher.{
  Candidate, past, ended, started_candidate, finished_candidate, key_le, started_of, finished_of,
}

eq-running : (s : RunStatus) → (RunStatus.eq s RunStatus.running ≡ true) ↔ (s ≡ RunStatus.running)
eq-running RunStatus.queued = ground arith
eq-running RunStatus.running = (λ _. refl, λ _. refl)
eq-running RunStatus.succeeded = ground arith
eq-running RunStatus.failed = ground arith
eq-running RunStatus.cancelled = ground arith
eq-running RunStatus.timed_out = ground arith

module _ {Json : Type 0} where
  pub key_le-total : (a b : Candidate Json) → (key_le a b ≡ true) ⊎ (key_le b a ≡ true)
  key_le-total a b = ground (arith, str_le-total a.run.id b.run.id)

  -- What a run must be to have its start, or its end, dispatched.
  abbrev pub StartDue : ℤ → List (Run Json) → Candidate Json → Type 0
  StartDue watermark runs c =
      Elem c.run runs
      × (c.run.status ≡ RunStatus.running)
      × (c.run.started_at_ms ≡ some c.at)
      × (watermark <ℤ c.at)
      × (c.kind ≡ EventKind.run_started)

  abbrev pub EndDue : ℤ → List (Run Json) → Candidate Json → Type 0
  EndDue watermark runs c =
      Elem c.run runs
      × (terminal_kind_for c.run.status ≡ some c.kind)
      × (c.run.finished_at_ms ≡ some c.at)
      × (watermark <ℤ c.at)

  of-past :
      (watermark : ℤ) (o : Option ℤ) (kind : EventKind) (r : Run Json) (c : Candidate Json)
      → past watermark o kind r ≡ some c
      → (c.run ≡ r) × (c.kind ≡ kind) × (o ≡ some c.at) × (watermark <ℤ c.at)
  of-past watermark none kind r c h = absurd (cc)
  of-past watermark (some at) kind r c h = elim (Bool-cases (ltb_ℤ watermark at)) [
    | inl e ↦
        let same : record { at = at; kind = kind; run = r } ≡ c = cc in
        (
          ap (λ x. x.run) (sym same),
          ap (λ x. x.kind) (sym same),
          ap (λ x. some x.at) same,
          rw (sym (ap (λ x. x.at) same)) (ground arith),
        )
    | inr e ↦ absurd (ground arith)
  ]

  to-past :
      (watermark : ℤ) (o : Option ℤ) (kind : EventKind) (c : Candidate Json)
      → c.kind ≡ kind
      → o ≡ some c.at
      → watermark <ℤ c.at
      → past watermark o kind c.run ≡ some c
  to-past watermark o kind c k e later =
      let before : ltb_ℤ watermark c.at ≡ true = ground arith in
      rw (e, before) (ap (λ x. some (record { at = c.at; kind = x; run = c.run })) (sym k))

  of-started :
      (watermark : ℤ) (r : Run Json) (c : Candidate Json)
      → started_candidate watermark r ≡ some c
      → (c.run ≡ r)
        × (r.status ≡ RunStatus.running)
        × (r.started_at_ms ≡ some c.at)
        × (watermark <ℤ c.at)
        × (c.kind ≡ EventKind.run_started)
  of-started watermark r c h = elim (Bool-cases (RunStatus.eq r.status RunStatus.running)) [
    | inl e ↦
        let (run, kind, at, later) =
          of-past watermark r.started_at_ms EventKind.run_started r c (cc) in
        (run, (eq-running r.status).0 e, at, later, kind)
    | inr e ↦ absurd (cc)
  ]

  of-finished :
      (watermark : ℤ) (o : Option EventKind) (r : Run Json) (c : Candidate Json)
      → ended watermark o r ≡ some c
      → (c.run ≡ r) × (o ≡ some c.kind) × (r.finished_at_ms ≡ some c.at) × (watermark <ℤ c.at)
  of-finished watermark none r c h = absurd (cc)
  of-finished watermark (some kind) r c h =
      let (run, k, at, later) = of-past watermark r.finished_at_ms kind r c h in
      (run, ap some (sym k), at, later)

  started_iff :
      (watermark : ℤ) (runs : List (Run Json)) (c : Candidate Json)
      → Elem c (filter_map (started_candidate watermark) runs) ↔ StartDue watermark runs c
  started_iff watermark runs c = (
    λ m.
        let (r, n, h) = (Elem-filter_map (started_candidate watermark) c runs).0 m in
        let (run, status, at, later, kind) = of-started watermark r c h in
        rw run (n, status, at, later, kind),
    λ (n, status, at, later, kind). (Elem-filter_map (started_candidate watermark) c runs).1 (
      c.run,
      n,
      rw ((eq-running c.run.status).1 status)
          (to-past watermark c.run.started_at_ms EventKind.run_started c kind at later),
    ),
  )

  finished_iff :
      (watermark : ℤ) (runs : List (Run Json)) (c : Candidate Json)
      → Elem c (filter_map (finished_candidate watermark) runs) ↔ EndDue watermark runs c
  finished_iff watermark runs c = (
    λ m.
        let (r, n, h) = (Elem-filter_map (finished_candidate watermark) c runs).0 m in
        let (run, kind, at, later) = of-finished watermark (terminal_kind_for r.status) r c h in
        rw run (n, kind, at, later),
    λ (n, kind, at, later).
        (Elem-filter_map (finished_candidate watermark) c runs).1
          (c.run, n, rw kind (to-past watermark c.run.finished_at_ms c.kind c refl at later)),
  )

  pub Elem-started_of :
      (watermark : ℤ) (runs : List (Run Json)) (c : Candidate Json)
      → Elem c (started_of watermark runs) ↔ StartDue watermark runs c
  unfolding started_of
  Elem-started_of watermark runs c =
      let (f, g) = Elem-sort_by key_le c (filter_map (started_candidate watermark) runs) in
      let (h, k) = started_iff watermark runs c in (λ m. h (f m), λ d. g (k d))

  pub Elem-finished_of :
      (watermark : ℤ) (runs : List (Run Json)) (c : Candidate Json)
      → Elem c (finished_of watermark runs) ↔ EndDue watermark runs c
  unfolding finished_of
  Elem-finished_of watermark runs c =
      let (f, g) = Elem-sort_by key_le c (filter_map (finished_candidate watermark) runs) in
      let (h, k) = finished_iff watermark runs c in (λ m. h (f m), λ d. g (k d))

  pub started_of-Sorted :
      (watermark : ℤ) (runs : List (Run Json)) → Sorted key_le (started_of watermark runs)
  unfolding started_of
  started_of-Sorted watermark runs =
      sort_by-Sorted key_le key_le-total (filter_map (started_candidate watermark) runs)

  pub finished_of-Sorted :
      (watermark : ℤ) (runs : List (Run Json)) → Sorted key_le (finished_of watermark runs)
  unfolding finished_of
  finished_of-Sorted watermark runs =
      sort_by-Sorted key_le key_le-total (filter_map (finished_candidate watermark) runs)
