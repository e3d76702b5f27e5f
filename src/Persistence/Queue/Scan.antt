-- ===== src/Persistence/Queue/Scan.antt =====
-- src/persistence/memory.rs: what a scan of the queue returns.
use aegis_fs.Prelude.{
  ℕ, zero, suc, min, Bool, true, List, [], ◌∷◌, ◌≡◌, ◌⊎◌, ◌∙◌, ap, arith, Elem, Elem-filter, length,
  take, filter, count_if, inl, inr,
}
use aegis_fs.Prelude.Eq.{string_eq}
use aegis_fs.Prelude.Int.{ℤ, leb_ℤ-total}
use aegis_fs.Prelude.Map.{values}
use aegis_fs.Prelude.Sort.{Sorted, sort_by-Sorted, Elem-sort_by, length-sort_by}
use aegis_fs.Persistence.Store.{MemoryState}
use aegis_fs.Persistence.Model.{QueueEntry, is_ready}
use aegis_fs.Persistence.Queue.{scan_ready, due_le}

module _ {A : Type 0} where
  length-take : (n : ℕ) (xs : List A) → length (take n xs) ≡ min n (length xs)
  length-take zero xs = omega arith
  length-take (suc n) [] = omega arith
  length-take (suc n) (x ∷ xs) = omega (arith, length-take n xs)

  Elem-take : (n : ℕ) (a : A) (xs : List A) → Elem a (take n xs) → Elem a xs
  Elem-take zero a xs m = absurd m
  Elem-take (suc n) a [] m = absurd m
  Elem-take (suc n) a (x ∷ xs) (inl e) = inl e
  Elem-take (suc n) a (x ∷ xs) (inr m) = inr (Elem-take n a xs m)

  module _ (le : A → A → Bool) where
    Sorted-take : (n : ℕ) (xs : List A) → Sorted le xs → Sorted le (take n xs)
    Sorted-take zero xs s = tt
    Sorted-take (suc n) [] s = tt
    Sorted-take (suc n) (x ∷ []) s = sorted_one x n
      where
        sorted_one : (x : A) (n : ℕ) → Sorted le (x ∷ take n [])
        sorted_one x zero = tt
        sorted_one x (suc n) = tt
    Sorted-take (suc zero) (x ∷ y ∷ ys) s = tt
    Sorted-take (suc (suc n)) (x ∷ y ∷ ys) (le, s) = (le, Sorted-take (suc n) (y ∷ ys) s)

due_le-total : (a b : QueueEntry) → (due_le a b ≡ true) ⊎ (due_le b a ≡ true)
due_le-total a b = ground (arith, leb_ℤ-total a.due_at_ms b.due_at_ms)

module _ {Json F64 : Type 0} where
  -- A scan returns entries of the queue that are ready, in the order of their due times, and as many
  -- of them as there are, up to the limit.
  pub scan_ready_lem :
      (now_ms : ℤ) (limit : ℕ) (s : MemoryState Json F64)
      → Sorted due_le (scan_ready now_ms limit s)
        × (length (scan_ready now_ms limit s)
            ≡ min limit (count_if (λ e. is_ready e now_ms) (values s.queue)))
        × ((e : QueueEntry)
            → Elem e (scan_ready now_ms limit s)
            → Elem e (values s.queue) × (is_ready e now_ms ≡ true))
  unfolding scan_ready
  scan_ready_lem now_ms limit s = (
    Sorted-take due_le limit _
        (sort_by-Sorted due_le due_le-total (filter (λ e. is_ready e now_ms) (values s.queue))),
    length-take limit _
        ∙ ap (min limit) (length-sort_by due_le (filter (λ e. is_ready e now_ms) (values s.queue))),
    λ e m. (Elem-filter (λ e. is_ready e now_ms) e (values s.queue)).0 (
        (Elem-sort_by due_le e (filter (λ e. is_ready e now_ms) (values s.queue))).0
          (Elem-take limit e _ m)),
  )
