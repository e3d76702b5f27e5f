-- ===== src/Prelude/Counts.antt =====
-- How many values of a map pass a test, when a value is written.
use Prim.Native.Nat.{ℕ, ◌+◌}
use Prim.Native.String.{String}
use mathlib.Core.Path.{◌≡◌}
use mathlib.Core.Bool.{Bool}
use mathlib.Core.Option.{none, some}
use mathlib.Core.List.{[], ◌∷◌}
use native.Mathlib.Omega.{arith}
use aegis_fs.Prelude.Tests.{if◌then◌else◌}
use aegis_fs.Prelude.Lists.{count_if}
use aegis_fs.Prelude.Eq.{string_eq, eq_iff}
use aegis_fs.Prelude.Map.{Map, lookup, insert, values}

abbrev pub one_if : Bool → ℕ
one_if b = if b then 1 else 0

module _ {V : Type 0} where
  pub count-insert_new :
      (p : V → Bool) (k : String) (v : V) (m : Map String V)
      → lookup k m ≡ none
      → count_if p (values (insert k v m)) ≡ count_if p (values m) + one_if (p v)
  unfolding insert lookup
  count-insert_new p k v [] h = ground arith
  count-insert_new p k v ((j, w) ∷ m) h = ground (arith, count-insert_new p k v m, eq_iff j k)

  pub count-insert :
      (p : V → Bool) (k : String) (v old : V) (m : Map String V)
      → lookup k m ≡ some old
      → count_if p (values (insert k v m)) + one_if (p old) ≡ count_if p (values m) + one_if (p v)
  unfolding insert lookup
  count-insert p k v old [] h = absurd (cc)
  count-insert p k v old ((j, w) ∷ m) h = ground (arith, count-insert p k v old m, eq_iff j k)
