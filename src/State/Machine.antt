-- ===== src/State/Machine.antt =====
-- src/state/machine.rs: the generic machine, a transition table over a label type.
pub mod Edges
use aegis_fs.Prelude.{ℕ, ◌+◌, Bool, List, [], ◌∷◌, ◌++◌, length, filter, if◌then◌else◌, not, String}
use aegis_fs.Prelude.Int.{ℤ}

-- The trait `StateLabel`.
pub record StateLabel (L : Type 0) : Type 0 where
  pub is_terminal : L → Bool

pub record TransitionTable (L : Type 0) : Type 0 where
  pub legal : L → L → Bool
  pub all : List L

pub record Transition (L : Type 0) : Type 0 where
  pub from : L
  pub to : L
  pub at_ms : ℤ

pub data ApplyResult (L : Type 0) : Type 0 where
  applied illegal : Transition L → ApplyResult L

module _ {L : Type 0} where
  abbrev pub len_labels : TransitionTable L → ℕ
  len_labels t = length t.all

  abbrev pub is_legal : TransitionTable L → L → L → Bool
  is_legal t from to = t.legal from to

  -- All labels reachable in one step.
  unfoldable pub allowed_targets : TransitionTable L → L → List L
  allowed_targets t from = filter (λ to. is_legal t from to) t.all

  -- The two nested loops of `legal_edges`, and of `illegal_edges` with the test turned round.
  unfoldable pub row : (L → L → Bool) → L → List L → List (L × L)
  row test from [] = []
  row test from (to ∷ labels) =
      let rest = row test from labels in if test from to then (from, to) ∷ rest else rest

  unfoldable pub edges : (L → L → Bool) → List L → List L → List (L × L)
  edges test [] labels = []
  edges test (from ∷ froms) labels = row test from labels ++ edges test froms labels

  unfoldable pub legal_edges : TransitionTable L → List (L × L)
  unfolding edges row
  legal_edges t = edges (is_legal t) t.all t.all

  unfoldable pub illegal_edges : TransitionTable L → List (L × L)
  unfolding edges row
  illegal_edges t = edges (λ from to. not (is_legal t from to)) t.all t.all

  abbrev pub record_transition : L → L → ℤ → Transition L
  record_transition from to at_ms = record { from = from; to = to; at_ms = at_ms }

  unfoldable pub apply : TransitionTable L → L → L → ℤ → ApplyResult L
  apply t from to at_ms =
      let attempt = record_transition from to at_ms in
      if is_legal t from to then applied attempt else illegal attempt

  abbrev pub state_count : TransitionTable L → ℕ
  state_count t = len_labels t
