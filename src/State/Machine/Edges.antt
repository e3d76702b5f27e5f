-- ===== src/State/Machine/Edges.antt =====
-- The enumerations of src/state/machine.rs against the predicate of the table.
use aegis_fs.Prelude.{
  ◌+◌, ◌*◌, ◌≡◌, ◌↔◌, inl, inr, Bool, true, not, List, [], ◌∷◌, length, length-append, arith, Elem,
  Elem-append_left, Elem-append_right, Elem-append_cases,
}
use aegis_fs.State.Machine.{TransitionTable, is_legal, row, edges, legal_edges, illegal_edges}

module _ {L : Type 0} (test : L → L → Bool) where
  Elem-of-row :
      (a from to : L) (labels : List L)
      → Elem (a, to) (row test from labels)
      → (a ≡ from) × Elem to labels × (test a to ≡ true)
  unfolding row
  Elem-of-row a from to [] m = absurd m
  Elem-of-row a from to (x ∷ labels) m = ground (arith, Elem-of-row a from to labels)

  Elem-to-row :
      (from to : L) (labels : List L)
      → Elem to labels
      → test from to ≡ true
      → Elem (from, to) (row test from labels)
  unfolding row
  Elem-to-row from to [] m h = absurd m
  Elem-to-row from to (x ∷ labels) m h = ground (arith, Elem-to-row from to labels)

  Elem-of-edges :
      (from to : L) (froms labels : List L)
      → Elem (from, to) (edges test froms labels)
      → Elem from froms × Elem to labels × (test from to ≡ true)
  unfolding edges
  Elem-of-edges from to [] labels m = absurd m
  Elem-of-edges from to (x ∷ froms) labels m =
      elim (Elem-append_cases (from, to) (row test x labels) (edges test froms labels) m) [
        | inl n ↦ let (e, k, h) = Elem-of-row from x to labels n in (inl e, k, h)
        | inr n ↦ let (e, k, h) = Elem-of-edges from to froms labels n in (inr e, k, h)
      ]

  Elem-to-edges :
      (from to : L) (froms labels : List L)
      → Elem from froms
      → Elem to labels
      → test from to ≡ true
      → Elem (from, to) (edges test froms labels)
  unfolding edges
  Elem-to-edges from to [] labels m n h = absurd m
  Elem-to-edges from to (x ∷ froms) labels (inl e) n h =
      Elem-append_left (from, to) (row test x labels) _ (rw (← e) (Elem-to-row from to labels n h))
  Elem-to-edges from to (x ∷ froms) labels (inr m) n h =
      Elem-append_right (from, to) (row test x labels) _ (Elem-to-edges from to froms labels m n h)

module _ {L : Type 0} (t : TransitionTable L) where
  -- The legal edges are exactly the pairs of labels that the predicate accepts.
  pub mem-legal_edges :
      (from to : L)
      → Elem (from, to) (legal_edges t)
        ↔ (Elem from t.all × Elem to t.all × (is_legal t from to ≡ true))
  unfolding legal_edges
  mem-legal_edges from to = (
    Elem-of-edges (is_legal t) from to t.all t.all,
    λ h. Elem-to-edges (is_legal t) from to t.all t.all h.0 h.1 h.2,
  )

  length-row :
      (from : L) (labels : List L)
      → length (row (is_legal t) from labels)
          + length (row (λ a b. not (is_legal t a b)) from labels)
        ≡ length labels
  unfolding row
  length-row from [] = omega arith
  length-row from (to ∷ labels) = ground (arith, length-row from labels)

  length-edges :
      (froms labels : List L)
      → length (edges (is_legal t) froms labels)
          + length (edges (λ a b. not (is_legal t a b)) froms labels)
        ≡ length froms * length labels
  unfolding edges
  length-edges [] labels = omega arith
  length-edges (from ∷ froms) labels = omega (
    arith,
    length-append (row (is_legal t) from labels) (edges (is_legal t) froms labels),
    length-append (row (λ a b. not (is_legal t a b)) from labels)
        (edges (λ a b. not (is_legal t a b)) froms labels),
    length-row from labels,
    length-edges froms labels,
  )

  -- Every pair of labels is a legal edge or an illegal one, and is counted once.
  pub length-legal-illegal :
      length (legal_edges t) + length (illegal_edges t) ≡ length t.all * length t.all
  unfolding legal_edges illegal_edges
  length-legal-illegal = length-edges t.all t.all
