-- ===== src/Prelude/Eq.antt =====
-- The keys of maps: types with a Boolean test that decides equality.
use mathlib.Core.Path.{◌≡◌, refl}
use mathlib.Core.Logic.{◌↔◌}
use mathlib.Core.Bool.{Bool, true, ◌&&◌}
use native.Mathlib.Omega.{arith}
use Prim.Native.String.{String}
use text.Mathlib.Text.{◌==◌ as same_text}
use text.Mathlib.TextEquality

pub record Key {ℓ} (K : Type ℓ) : Type ℓ where
  pub same : K → K → Bool
  pub same_sound : (j k : K) → same j k ≡ true → j ≡ k
  pub same_refl : (k : K) → same k k ≡ true

infix 50 ◌==◌
abbrev pub ◌==◌ {ℓ} : {K : Type ℓ} ⦃keys : Key K⦄ → K → K → Bool
◌==◌ ⦃keys⦄ j k = keys.same j k

pub eq_refl {ℓ} : {K : Type ℓ} ⦃keys : Key K⦄ (k : K) → (k == k) ≡ true
eq_refl ⦃keys⦄ = keys.same_refl

pub eq_iff {ℓ} : {K : Type ℓ} ⦃keys : Key K⦄ (j k : K) → ((j == k) ≡ true) ↔ (j ≡ k)
eq_iff ⦃keys⦄ j k = (keys.same_sound j k, λ p. rw p (keys.same_refl k))

instance abbrev pub string_eq : Key String
string_eq = record {
  same = same_text;
  same_sound = λ s t. (TextEquality.eq_iff s t).0;
  same_refl = λ s. (TextEquality.eq_iff s s).1 refl;
}

module _ {ℓ κ} {A : Type ℓ} {B : Type κ} ⦃left : Key A⦄ ⦃right : Key B⦄ where
  abbrev pub same_pair : A × B → A × B → Bool
  same_pair p q = p.0 == q.0 && p.1 == q.1

  pub same_pair_sound : (p q : A × B) → same_pair p q ≡ true → p ≡ q
  same_pair_sound p q h = ground (arith, eq_iff p.0 q.0, eq_iff p.1 q.1)

  pub same_pair_refl : (p : A × B) → same_pair p p ≡ true
  same_pair_refl p = ground (arith, eq_refl p.0, eq_refl p.1)

  instance abbrev pub pair_eq : Key (A × B)
  pair_eq = record { same = same_pair; same_sound = same_pair_sound; same_refl = same_pair_refl }
