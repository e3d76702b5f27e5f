-- ===== src/Events/Watcher/Quiet.antt =====
-- src/events/watcher.rs: the watermarks over the polls.
use aegis_fs.Prelude.{List, [], ◌∷◌, ◌≡◌, refl, inl, inr, Elem, arith}
use aegis_fs.Prelude.Int.{ℤ, ◌<ℤ◌, ◌≤ℤ◌}
use aegis_fs.Prelude.Sort.{Sorted}
use aegis_fs.Domain.Run.{Run}
use aegis_fs.Events.Watcher.{Candidate, key_le, last_at, started_of, finished_of}
use aegis_fs.Events.Watcher.Batch.{
  Elem-started_of, Elem-finished_of, started_of-Sorted, finished_of-Sorted,
}

no_elements : {A : Type 0} (xs : List A) → ((a : A) → Elem a xs → ⊥) → xs ≡ []
no_elements [] h = refl
no_elements (x ∷ xs) h = absurd (h x (inl refl))

module _ {Json : Type 0} where
  pub last_at-max :
      (watermark : ℤ) (cs : List (Candidate Json))
      → Sorted key_le cs
      → (c : Candidate Json) → Elem c cs
      → c.at ≤ℤ last_at watermark cs
  last_at-max watermark [] s c m = absurd m
  last_at-max watermark (x ∷ []) s c (inl e) = rw e (omega arith)
  last_at-max watermark (x ∷ []) s c (inr m) = absurd m
  last_at-max watermark (x ∷ y ∷ ys) s c (inl e) =
      let later = last_at-max watermark (y ∷ ys) s.1 y (inl refl) in rw e (ground arith)
  last_at-max watermark (x ∷ y ∷ ys) s c (inr m) = last_at-max watermark (y ∷ ys) s.1 c m

  pub last_at-grows :
      (watermark : ℤ) (cs : List (Candidate Json))
      → Sorted key_le cs
      → ((c : Candidate Json) → Elem c cs → watermark <ℤ c.at)
      → watermark ≤ℤ last_at watermark cs
  last_at-grows watermark [] s h = omega arith
  last_at-grows watermark (x ∷ cs) s h =
      let before = h x (inl refl) in
      let after = last_at-max watermark (x ∷ cs) s x (inl refl) in omega arith

  pub started_of-grows :
      (watermark : ℤ) (runs : List (Run Json))
      → watermark ≤ℤ last_at watermark (started_of watermark runs)
  started_of-grows watermark runs =
      last_at-grows watermark (started_of watermark runs) (started_of-Sorted watermark runs)
        (λ c m. ((Elem-started_of watermark runs c).0 m).3)

  pub finished_of-grows :
      (watermark : ℤ) (runs : List (Run Json))
      → watermark ≤ℤ last_at watermark (finished_of watermark runs)
  finished_of-grows watermark runs =
      last_at-grows watermark (finished_of watermark runs) (finished_of-Sorted watermark runs)
        (λ c m. ((Elem-finished_of watermark runs c).0 m).3)

  -- Nothing of the same runs is past the watermark that a poll leaves.
  pub started_of-again :
      (watermark : ℤ) (runs : List (Run Json))
      → started_of (last_at watermark (started_of watermark runs)) runs ≡ []
  started_of-again watermark runs =
      let starts = started_of watermark runs in
      no_elements (started_of (last_at watermark starts) runs) (λ c m.
        let (n, status, at, later, kind) =
          (Elem-started_of (last_at watermark starts) runs c).0 m in
        let grown = started_of-grows watermark runs in
        let seen = (Elem-started_of watermark runs c).1 (n, status, at, omega arith, kind) in
        let most = last_at-max watermark starts (started_of-Sorted watermark runs) c seen in
        omega arith)

  pub finished_of-again :
      (watermark : ℤ) (runs : List (Run Json))
      → finished_of (last_at watermark (finished_of watermark runs)) runs ≡ []
  finished_of-again watermark runs =
      let ends = finished_of watermark runs in
      no_elements (finished_of (last_at watermark ends) runs) (λ c m.
        let (n, kind, at, later) = (Elem-finished_of (last_at watermark ends) runs c).0 m in
        let grown = finished_of-grows watermark runs in
        let seen = (Elem-finished_of watermark runs c).1 (n, kind, at, omega arith) in
        let most = last_at-max watermark ends (finished_of-Sorted watermark runs) c seen in
        omega arith)
