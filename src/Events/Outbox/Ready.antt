-- ===== src/Events/Outbox/Ready.antt =====
-- src/events/outbox.rs: the ready items are pending items of the map, with different ids.
use aegis_fs.Prelude.{
  String, Bool, true, false, ◌||◌, some, none, List, [], ◌∷◌, any, filter, ◌≡◌, refl, arith, Elem,
  Elem-filter, Elem-of-map, Elem-map, ◌∙◌, inl, inr, ◌↔◌,
}
use aegis_fs.Prelude.Eq.{string_eq, ◌==◌, eq_iff}
use aegis_fs.Prelude.Int.{ℤ}
use aegis_fs.Prelude.Map.{Map, lookup, values}
use aegis_fs.Prelude.Sort.{place, sort_by, Elem-sort_by}
use aegis_fs.Prelude.Unique.{Unique, lookup-of-Elem, Elem-of-lookup}
use aegis_fs.Events.Outbox.{OutboxItem, WebhookOutbox, is_pending, is_ready, due_le, ready_items}
use aegis_fs.Events.Outbox.Valid.{IsValid}

abbrev pub has_id : String → List OutboxItem → Bool
has_id k items = any (λ i. i.id == k) items

abbrev pub DistinctIds : List OutboxItem → Type 0
DistinctIds [] = Unit
DistinctIds (i ∷ items) = (has_id i.id items ≡ false) × DistinctIds items

-- The items are pending ones of the map, and no id stands twice.
abbrev pub Held : WebhookOutbox → List OutboxItem → Type 0
Held o [] = Unit
Held o (i ∷ items) =
    (lookup i.id o.items ≡ some i)
    × (is_pending i ≡ true)
    × (has_id i.id items ≡ false)
    × Held o items

has_id-filter :
    (p : OutboxItem → Bool) (k : String) (items : List OutboxItem)
    → has_id k items ≡ false
    → has_id k (filter p items) ≡ false
has_id-filter p k [] h = refl
has_id-filter p k (i ∷ items) h = ground (arith, has_id-filter p k items)

DistinctIds-filter :
    (p : OutboxItem → Bool) (items : List OutboxItem)
    → DistinctIds items
    → DistinctIds (filter p items)
DistinctIds-filter p [] d = tt
DistinctIds-filter p (i ∷ items) d =
    ground (arith, DistinctIds-filter p items d.1, has_id-filter p i.id items)

module _ (le : OutboxItem → OutboxItem → Bool) where
  has_id-place :
      (k : String) (i : OutboxItem) (items : List OutboxItem)
      → has_id k (place le i items) ≡ (i.id == k || has_id k items)
  unfolding place
  has_id-place k i [] = refl
  has_id-place k i (j ∷ items) = ground (arith, has_id-place k i items)

  DistinctIds-place :
      (i : OutboxItem) (items : List OutboxItem)
      → has_id i.id items ≡ false
      → DistinctIds items
      → DistinctIds (place le i items)
  unfolding place
  DistinctIds-place i [] h d = (refl, tt)
  DistinctIds-place i (j ∷ items) h d = ground (
    arith,
    DistinctIds-place i items,
    has_id-place j.id i items,
    eq_iff i.id j.id,
    eq_iff j.id i.id,
  )

  has_id-sort_by :
      (k : String) (items : List OutboxItem) → has_id k (sort_by le items) ≡ has_id k items
  unfolding sort_by
  has_id-sort_by k [] = refl
  has_id-sort_by k (i ∷ items) =
      has_id-place k i (sort_by le items) ∙ ground (arith, has_id-sort_by k items)

  DistinctIds-sort_by :
      (items : List OutboxItem) → DistinctIds items → DistinctIds (sort_by le items)
  unfolding sort_by
  DistinctIds-sort_by [] d = tt
  DistinctIds-sort_by (i ∷ items) d =
      DistinctIds-place i (sort_by le items) (has_id-sort_by i.id items ∙ d.0)
        (DistinctIds-sort_by items d.1)

-- Every entry stands under the id of its item.
abbrev Keyed : Map String OutboxItem → Type 0
Keyed m = (k : String) (i : OutboxItem) → Elem (k, i) m → i.id ≡ k

has_id-values :
    (k : String) (m : Map String OutboxItem)
    → Keyed m
    → lookup k m ≡ none
    → has_id k (values m) ≡ false
unfolding lookup
has_id-values k [] keyed h = refl
has_id-values k ((j, i) ∷ m) keyed h =
    ground (arith, has_id-values k m (λ a b e. keyed a b (inr e)), keyed j i (inl refl))

DistinctIds-values : (m : Map String OutboxItem) → Keyed m → Unique m → DistinctIds (values m)
DistinctIds-values [] keyed u = tt
DistinctIds-values ((j, i) ∷ m) keyed u = (
  rw (keyed j i (inl refl)) (has_id-values j m (λ a b e. keyed a b (inr e)) u.0),
  DistinctIds-values m (λ a b e. keyed a b (inr e)) u.1,
)

Held-all :
    (o : WebhookOutbox) (items : List OutboxItem)
    → ((i : OutboxItem) → Elem i items → (lookup i.id o.items ≡ some i) × (is_pending i ≡ true))
    → DistinctIds items
    → Held o items
Held-all o [] h d = tt
Held-all o (i ∷ items) h d =
    let (at, waits) = h i (inl refl) in (at, waits, d.0, Held-all o items (λ j m. h j (inr m)) d.1)

held_value :
    (i : OutboxItem) (o : WebhookOutbox)
    → IsValid o
    → Elem i (values o.items)
    → lookup i.id o.items ≡ some i
held_value i o v m =
    let (entry, in_items, same) = Elem-of-map (λ e. e.1) i o.items m in
    let at = lookup-of-Elem entry.0 entry.1 o.items v.unique in_items in
    rw (same, (v.keyed entry.0 entry.1 at).0) at

pub ready_items-Elem :
    (now : ℤ) (i : OutboxItem) (o : WebhookOutbox)
    → IsValid o
    → Elem i (ready_items now o) ↔ ((lookup i.id o.items ≡ some i) × (is_ready now i ≡ true))
unfolding ready_items
ready_items-Elem now i o v = (
  λ m.
      let (in_values, ready) =
        (Elem-filter (is_ready now) i (values o.items)).0
          ((Elem-sort_by due_le i (filter (is_ready now) (values o.items))).0 m) in
      (held_value i o v in_values, ready),
  λ h. (Elem-sort_by due_le i (filter (is_ready now) (values o.items))).1 (
      (Elem-filter (is_ready now) i (values o.items)).1
        (Elem-map (λ e. e.1) (i.id, i) o.items (Elem-of-lookup i.id i o.items h.0), h.1)),
)

pub ready_items-Held : (now : ℤ) (o : WebhookOutbox) → IsValid o → Held o (ready_items now o)
unfolding ready_items
ready_items-Held now o v =
    Held-all o (ready_items now o)
      (λ i m. (let h = (ready_items-Elem now i o v).0 m in (h.0, ground (arith, h.1))))
      (DistinctIds-sort_by due_le (filter (is_ready now) (values o.items)) (
        DistinctIds-filter (is_ready now) (values o.items) (
          DistinctIds-values o.items
            (λ k i m. (v.keyed k i (lookup-of-Elem k i o.items v.unique m)).0) v.unique)))
