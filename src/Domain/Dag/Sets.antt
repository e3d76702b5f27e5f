-- ===== src/Domain/Dag/Sets.antt =====
-- src/domain/dag.rs: the sets of a round, by what they hold.
use aegis_fs.Prelude.{
  String, true, false, not, ◌&&◌, ◌||◌, Option, none, some, List, [], ◌∷◌, length, ◌≡◌, refl, arith,
  ◌⊎◌, inl, inr, Bool-cases, ap, ◌∙◌, suc,
}
use mathlib.Core.Option
use aegis_fs.Prelude.BTree
use aegis_fs.Prelude.Eq.{string_eq, ◌==◌, eq_iff}
use aegis_fs.Prelude.Map.{lookup, remove, contains_key, is_some, lookup-remove}
use aegis_fs.Prelude.Unique.{Unique}
use aegis_fs.Domain.Dag.{
  NameSet, Deps, is_empty, frontier, drains, draining, drop_dep, admit, next_of, or_default,
}
use aegis_fs.Domain.Dag.Depends.{depends, contains-insert}
use aegis_fs.Prelude.Names.{has}

pub contains-remove :
    (gone n : String) (s : NameSet)
    → contains_key n (remove gone s) ≡ (contains_key n s && not (gone == n))
contains-remove gone n s = ap is_some (lookup-remove gone n s) ∙ ground arith

pub empty-contains : (n : String) (s : NameSet) → is_empty s ≡ true → contains_key n s ≡ false
unfolding lookup
empty-contains n [] h = refl
empty-contains n (e ∷ s) h = absurd (cc)

pub next_of-contains : (n : String) (s : NameSet) → next_of s ≡ some n → contains_key n s ≡ true
unfolding lookup
next_of-contains n [] h = absurd (cc)
next_of-contains n ((m, v) ∷ s) h = ground (arith, eq_iff m n)

pub next_of-empty : (s : NameSet) → next_of s ≡ none → is_empty s ≡ true
next_of-empty [] h = refl
next_of-empty (e ∷ s) h = absurd (cc)

pub next_of-nonempty : (n : String) (s : NameSet) → next_of s ≡ some n → is_empty s ≡ false
next_of-nonempty n [] h = absurd (cc)
next_of-nonempty n (e ∷ s) h = refl

pub next_of-contains_none : (n : String) (s : NameSet) → next_of s ≡ none → contains_key n s ≡ false
unfolding lookup
next_of-contains_none n [] h = refl
next_of-contains_none n (e ∷ s) h = absurd (cc)

pub lookup-drop_dep :
    (next n : String) (deps : Deps)
    → lookup n (drop_dep next deps) ≡ Option.map (remove next) (lookup n deps)
unfolding lookup
lookup-drop_dep next n [] = refl
lookup-drop_dep next n ((m, ds) ∷ deps) = ground (arith, lookup-drop_dep next n deps)

pub drop_dep-contains :
    (next n : String) (deps : Deps) → contains_key n (drop_dep next deps) ≡ contains_key n deps
drop_dep-contains next n deps = ap is_some (lookup-drop_dep next n deps) ∙ ground arith

pub or_default-drop_dep :
    (next n : String) (deps : Deps)
    → or_default (lookup n (drop_dep next deps)) ≡ remove next (or_default (lookup n deps))
unfolding remove
or_default-drop_dep next n deps = ap or_default (lookup-drop_dep next n deps) ∙ ground arith

pub drop_dep-depends :
    (next n d : String) (deps : Deps)
    → depends n d (drop_dep next deps) ≡ (depends n d deps && not (next == d))
drop_dep-depends next n d deps =
    ap (contains_key d) (or_default-drop_dep next n deps)
    ∙ contains-remove next d (or_default (lookup n deps))

pub drop_dep-Unique : (next : String) (deps : Deps) → Unique deps → Unique (drop_dep next deps)
drop_dep-Unique next [] u = tt
drop_dep-Unique next ((m, ds) ∷ deps) u =
    (rw (lookup-drop_dep next m deps, u.0) refl, drop_dep-Unique next deps u.1)

pub drop_dep-length : (next : String) (deps : Deps) → length (drop_dep next deps) ≡ length deps
drop_dep-length next [] = refl
drop_dep-length next (e ∷ deps) = ap suc (drop_dep-length next deps)

pub admit-contains :
    (n : String) (emitted : NameSet) (names : List String) (ready : NameSet)
    → contains_key n (admit emitted names ready)
      ≡ ((has n names && not (contains_key n emitted)) || contains_key n ready)
unfolding admit
admit-contains n emitted [] ready = refl
admit-contains n emitted (m ∷ names) ready = elim (Bool-cases (contains_key m emitted)) [
  | inl e ↦ rw (admit, e) (ground (arith, admit-contains n emitted names ready, eq_iff m n))
  | inr e ↦
      rw (admit, e)
        (ground (
          arith,
          admit-contains n emitted names (BTree.insert m tt ready),
          contains-insert m n ready,
          eq_iff m n,
        ))
]

pub draining-has :
    (n next : String) (deps : Deps)
    → Unique deps
    → has n (draining next deps) ≡ drains next (or_default (lookup n deps))
unfolding lookup
draining-has n next [] u = refl
draining-has n next ((m, ds) ∷ deps) u = ground (arith, draining-has n next deps u.1, eq_iff m n)

pub frontier-contains :
    (n : String) (deps : Deps)
    → Unique deps
    → contains_key n (frontier deps)
      ≡ (contains_key n deps && is_empty (or_default (lookup n deps)))
unfolding frontier lookup
frontier-contains n [] u = refl
frontier-contains n ((m, ds) ∷ deps) u =
    ground (arith, frontier-contains n deps u.1, eq_iff m n, contains-insert m n (frontier deps))

-- A set that a removal empties was empty, or is drained.
pub empty_cases :
    (next : String) (ds : NameSet)
    → is_empty (remove next ds) ≡ true
    → (is_empty ds ≡ true) ⊎ (drains next ds ≡ true)
unfolding remove lookup
empty_cases next [] h = inl refl
empty_cases next ((m, v) ∷ ds) h = inr (ground arith)

pub drains-known :
    (next n : String) (deps : Deps)
    → drains next (or_default (lookup n deps)) ≡ true
    → contains_key n deps ≡ true
unfolding lookup remove
drains-known next n deps h = go (lookup n deps) h
  where
    go : (o : Option NameSet) → drains next (or_default o) ≡ true → is_some o ≡ true
    go none h = absurd (cc)
    go (some ds) h = refl
