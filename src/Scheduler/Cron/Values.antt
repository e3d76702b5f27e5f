-- ===== src/Scheduler/Cron/Values.antt =====
-- src/scheduler/cron.rs: the numbers that the loops of a field push, and their order after sorting.
use aegis_fs.Prelude.{
  ℕ, zero, suc, ◌+◌, ◌-◌, ◌*◌, ◌^◌, ◌<◌, ◌≤◌, true, List, [], ◌∷◌, ◌≡◌, ◌↔◌, ◌⊎◌, arith, inl, inr,
  Elem, leb, eqb, any_of, any-true, Bool-cases,
}
use aegis_fs.Prelude.Sort.{sort_by, Sorted, sort_by-Sorted, Elem-sort_by}
use aegis_fs.Scheduler.Cron.{count_up, inclusive, step_up, dedup, CronField, contains}

Elem-count_up : (v n a : ℕ) → Elem v (count_up n a) ↔ ((a ≤ v) × (v < a + n))
unfolding count_up
Elem-count_up v zero a = (λ m. absurd m, λ h. absurd (omega arith))
Elem-count_up v (suc n) a = ground (arith, Elem-count_up v n (a + 1))

pub Elem-inclusive : (v start end : ℕ) → Elem v (inclusive start end) ↔ ((start ≤ v) × (v ≤ end))
Elem-inclusive v start end =
    let (to, of) = Elem-count_up v (end + 1 - start) start in
    (
      λ m. (let (a, b) = to m in (omega arith, omega arith)),
      λ h. of (h.0, let (a, b) = h in omega arith),
    )

-- The numbers from `start` in steps, up to `max`.
abbrev pub Stepped : (start step max v : ℕ) → Type 0
Stepped start step max v = (i : ℕ) × (v ≡ start + i * step) × (v ≤ max)

step_up_cases :
    (fuel step max start v : ℕ)
    → Elem v (step_up (suc fuel) step max start)
    → ((v ≡ start) × (start ≤ max)) ⊎ Elem v (step_up fuel step max (start + step))
unfolding step_up
step_up_cases fuel step max start v m = ground arith

step_up-Stepped :
    (fuel step max start v : ℕ) → Elem v (step_up fuel step max start) → Stepped start step max v
unfolding step_up
step_up-Stepped zero step max start v m = absurd m
step_up-Stepped (suc fuel) step max start v m = elim (step_up_cases fuel step max start v m) [
  | inl (e, l) ↦ (0, omega arith, omega arith)
  | inr n ↦
      let (i, e, l) = step_up-Stepped fuel step max (start + step) v n in (suc i, grind arith, l)
]

Stepped-step_up :
    (fuel step max start v : ℕ)
    → 0 < step
    → max < 2 ^ 32
    → max < start + fuel
    → Stepped start step max v
    → Elem v (step_up fuel step max start)
unfolding step_up
Stepped-step_up zero step max start v p l h (i, e, b) = absurd (grind arith)
Stepped-step_up (suc fuel) step max start v p l h (zero, e, b) = ground arith
Stepped-step_up (suc fuel) step max start v p l h (suc i, e, b) =
    let rest =
      Stepped-step_up fuel step max (start + step) v p l (omega arith) (i, grind arith, b) in
    let low : start + step ≤ v = grind arith in ground (arith, rest)

pub Elem-step_up :
    (step max start v : ℕ)
    → 0 < step
    → max < 2 ^ 32
    → Elem v (step_up (max + 1 - start) step max start) ↔ Stepped start step max v
Elem-step_up step max start v p l = (
  step_up-Stepped (max + 1 - start) step max start v,
  λ s. Stepped-step_up (max + 1 - start) step max start v p l (omega arith) s,
)

abbrev pub Ascending : List ℕ → Type 0
Ascending [] = Unit
Ascending (x ∷ []) = Unit
Ascending (x ∷ y ∷ ys) = (x < y) × Ascending (y ∷ ys)

Elem-dedup : (v : ℕ) (xs : List ℕ) → Elem v (dedup xs) ↔ Elem v xs
unfolding dedup
Elem-dedup v [] = (λ m. m, λ m. m)
Elem-dedup v (x ∷ []) = (λ m. m, λ m. m)
Elem-dedup v (x ∷ y ∷ ys) = ground (arith, Elem-dedup v (y ∷ ys))

-- A number in front of all the others.
abbrev Below : ℕ → List ℕ → Type 0
Below x [] = Unit
Below x (y ∷ ys) = x < y

Below-dedup : (x y : ℕ) (ys : List ℕ) → x < y → Below x (dedup (y ∷ ys))
unfolding dedup
Below-dedup x y [] l = l
Below-dedup x y (z ∷ zs) l = elim (Bool-cases (eqb y z)) [
  | inl e ↦ ground (arith, Below-dedup x z zs)
  | inr e ↦ ground arith
]

Ascending-cons : (x : ℕ) (ys : List ℕ) → Below x ys → Ascending ys → Ascending (x ∷ ys)
Ascending-cons x [] b a = tt
Ascending-cons x (y ∷ ys) b a = (b, a)

dedup-Ascending : (xs : List ℕ) → Sorted leb xs → Ascending (dedup xs)
unfolding dedup
dedup-Ascending [] s = tt
dedup-Ascending (x ∷ []) s = tt
dedup-Ascending (x ∷ y ∷ ys) s = elim (Bool-cases (eqb x y)) [
  | inl e ↦ rw e (dedup-Ascending (y ∷ ys) s.1)
  | inr e ↦ rw e (
      Ascending-cons x (dedup (y ∷ ys)) (Below-dedup x y ys (ground arith))
        (dedup-Ascending (y ∷ ys) s.1))
]

leb_total : (a b : ℕ) → (leb a b ≡ true) ⊎ (leb b a ≡ true)
leb_total a b = ground arith

-- Sorting and joining equal neighbours leaves the same numbers, in ascending order.
pub sorted_values :
    (xs : List ℕ)
    → Ascending (dedup (sort_by leb xs)) × ((v : ℕ) → Elem v (dedup (sort_by leb xs)) ↔ Elem v xs)
sorted_values xs = (
  dedup-Ascending (sort_by leb xs) (sort_by-Sorted leb leb_total xs),
  λ v. ground (arith, Elem-dedup v (sort_by leb xs), Elem-sort_by leb v xs),
)

pub contains_iff : (v : ℕ) (f : CronField) → (contains v f ≡ true) ↔ Elem v f.allowed
contains_iff v f = (
  λ h.
      (let (a, m, e) = any-true (λ x. eqb x v) f.allowed h in
        let same : a ≡ v = ground arith in rw same at m),
  λ m. any_of (λ x. eqb x v) v f.allowed m (ground arith),
)
