-- ===== src/Prelude/Map.antt =====
-- Maps as association lists. `insert` writes a key where it stands, or behind the others: the order
-- of the entries is the order in which a `HashMap` happens to be walked.
use mathlib.Core.Path.{◌≡◌, refl}
use mathlib.Core.Bool.{Bool, true, false}
use mathlib.Core.Option.{Option, none, some}
use mathlib.Core.List.{List, [], ◌∷◌, map}
use native.Mathlib.Omega.{arith}
use aegis_fs.Prelude.Tests.{if◌then◌else◌}
use aegis_fs.Prelude.Eq.{Key, ◌==◌, eq_iff}

abbrev pub Map {ℓ κ} : Type ℓ → Type κ → Type (ℓ ⊔ κ)
Map K V = List (K × V)

abbrev pub is_some {ℓ} : {V : Type ℓ} → Option V → Bool
is_some none = false
is_some (some _) = true

module _ {ℓ κ} {K : Type ℓ} {V : Type κ} ⦃keys : Key K⦄ where
  unfoldable pub lookup : K → Map K V → Option V
  lookup key [] = none
  lookup key (entry ∷ entries) = if entry.0 == key then some entry.1 else lookup key entries

  abbrev pub contains_key : K → Map K V → Bool
  contains_key key entries = is_some (lookup key entries)

  abbrev pub values : Map K V → List V
  values = map (λ entry. entry.1)

  unfoldable pub remove : K → Map K V → Map K V
  remove key [] = []
  remove key (entry ∷ entries) =
      let rest = remove key entries in if entry.0 == key then rest else entry ∷ rest

  unfoldable pub insert : K → V → Map K V → Map K V
  insert key value [] = (key, value) ∷ []
  insert key value (entry ∷ entries) =
      let rest = insert key value entries in
      if entry.0 == key then (key, value) ∷ entries else entry ∷ rest

  -- What is read under a key after another was removed, or written.
  pub lookup-remove :
      (gone other : K) (entries : Map K V)
      → lookup other (remove gone entries) ≡ (if gone == other then none else lookup other entries)
  unfolding lookup remove
  lookup-remove gone other [] = ground arith
  lookup-remove gone other (entry ∷ entries) = ground (
    lookup-remove gone other entries,
    eq_iff entry.0 other,
    eq_iff entry.0 gone,
    eq_iff gone other,
    arith,
  )

  pub lookup-insert :
      (new other : K) (value : V) (entries : Map K V)
      → lookup other (insert new value entries)
        ≡ (if new == other then some value else lookup other entries)
  unfolding lookup insert
  lookup-insert new other value [] = refl
  lookup-insert new other value (entry ∷ entries) = ground (
    lookup-insert new other value entries,
    eq_iff entry.0 other,
    eq_iff entry.0 new,
    eq_iff new other,
    arith,
  )

  pub lookup-insert_same :
      (new : K) (value : V) (entries : Map K V) → lookup new (insert new value entries) ≡ some value
  lookup-insert_same new value entries =
      ground (arith, lookup-insert new new value entries, eq_iff new new)
