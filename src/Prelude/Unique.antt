-- ===== src/Prelude/Unique.antt =====
-- Association lists with no key twice, as the standard library's maps are.
use mathlib.Core.Path.{◌≡◌, refl}
use mathlib.Core.Option.{none, some}
use mathlib.Core.List.{[], ◌∷◌}
use native.Mathlib.Omega.{arith}
use aegis_fs.Prelude.Lists.{Elem}
use aegis_fs.Prelude.Eq.{Key, eq_iff}
use aegis_fs.Prelude.Map.{Map, lookup, insert, remove, lookup-insert, lookup-remove}

module _ {K V : Type 0} ⦃keys : Key K⦄ where
  abbrev pub Unique : Map K V → Type 0
  Unique [] = Unit
  Unique ((k, v) ∷ m) = (lookup k m ≡ none) × Unique m

  pub insert-Unique : (k : K) (v : V) (m : Map K V) → Unique m → Unique (insert k v m)
  unfolding insert lookup
  insert-Unique k v [] u = (refl, tt)
  insert-Unique k v ((j, w) ∷ m) u =
      ground (arith, insert-Unique k v m u.1, lookup-insert k j v m, eq_iff j k, eq_iff k j)

  pub remove-Unique : (k : K) (m : Map K V) → Unique m → Unique (remove k m)
  unfolding remove
  remove-Unique k [] u = tt
  remove-Unique k ((j, w) ∷ m) u =
      ground (arith, remove-Unique k m u.1, lookup-remove k j m, eq_iff j k, eq_iff k j)

  pub lookup-of-Elem :
      (k : K) (v : V) (m : Map K V) → Unique m → Elem (k, v) m → lookup k m ≡ some v
  unfolding lookup
  lookup-of-Elem k v [] u h = absurd h
  lookup-of-Elem k v ((j, w) ∷ m) u h = ground (arith, lookup-of-Elem k v m u.1, eq_iff j k)

  pub Elem-of-lookup : (k : K) (v : V) (m : Map K V) → lookup k m ≡ some v → Elem (k, v) m
  unfolding lookup
  Elem-of-lookup k v [] h = absurd (cc)
  Elem-of-lookup k v ((j, w) ∷ m) h = ground (arith, Elem-of-lookup k v m, eq_iff j k)
