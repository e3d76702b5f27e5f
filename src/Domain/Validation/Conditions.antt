-- ===== src/Domain/Validation/Conditions.antt =====
-- src/domain/validation.rs, src/domain/retry_policy.rs: what a name and a retry policy must be.
use Prim.Native.Char.{code}
use Prim.Native.String.{String, [], ◌∷◌, len}
use mathlib.Core.Path.{subst}
use aegis_fs.Prelude.{ℕ, ◌≤◌, true, false, ◌≡◌, ◌↔◌, ◌⊎◌, refl, arith, inl, inr, Bool-cases}
use aegis_fs.Prelude.Eq.{◌==◌, string_eq, eq_iff}
use aegis_fs.Prelude.Float.{Float}
use aegis_fs.Prelude.Result.{ok}
use aegis_fs.Domain.RetryPolicy.{RetryPolicy, validate}
use aegis_fs.Domain.Validation.{is_name_char, all_chars, name_shape, is_valid_name}

-- A letter from a to z, a digit, or a dash, by the number of the character.
abbrev pub NameChar : ℕ → Type 0
NameChar c = ((97 ≤ c) × (c ≤ 122)) ⊎ ((48 ≤ c) × (c ≤ 57)) ⊎ (c ≡ 45)

abbrev pub NameChars : String → Type 0
NameChars [] = Unit
NameChars (c ∷ s) = NameChar (code c) × NameChars s

-- The first character is a letter.
abbrev pub StartsWithLetter : String → Type 0
StartsWithLetter [] = ⊥
StartsWithLetter (c ∷ s) = (97 ≤ code c) × (code c ≤ 122)

abbrev pub NameIsValid : String → Type 0
NameIsValid name = (len name ≤ 64) × StartsWithLetter name × NameChars name

char_iff : (c : ℕ) → (is_name_char c ≡ true) ↔ NameChar c
char_iff c = (λ h. ground arith, λ h. ground arith)

chars_iff : (s : String) → (all_chars is_name_char s ≡ true) ↔ NameChars s
unfolding all_chars
chars_iff [] = (λ h. tt, λ h. refl)
chars_iff (c ∷ s) =
    let (to, of) = char_iff (code c) in
    let (to', of') = chars_iff s in
    (λ h. (to (ground (arith, h)), to' (ground (arith, h))), λ v. rw (of v.0) (of' v.1))

shape_iff : (s : String) → (name_shape s ≡ true) ↔ (StartsWithLetter s × NameChars s)
unfolding all_chars
shape_iff [] = (λ h. absurd (cc), λ v. absurd v.0)
shape_iff (c ∷ s) =
    let (to, of) = chars_iff s in
    (
      λ h. (ground (arith, h), (inl (ground (arith, h)), to (ground (arith, h)))),
      λ v. let letter = v.0 in let rest = of v.1.1 in ground arith,
    )

not_empty : (s : String) → StartsWithLetter s → (s == "") ≡ false
not_empty s v = elim (Bool-cases (s == "")) [
  | inr e ↦ e
  | inl e ↦ absurd (subst StartsWithLetter ((eq_iff s "").0 e) v)
]

pub name_iff : (name : String) → (is_valid_name name ≡ true) ↔ NameIsValid name
name_iff name =
    let (to, of) = shape_iff name in
    (
      λ h. let (start, chars) = to (ground (arith, h)) in (ground (arith, h), start, chars),
      λ v.
          let shape = of (v.1, v.2) in
          let short = v.0 in let some_text = not_empty name v.1 in ground arith,
    )

module _ (float : Float) where
  open float use {F64, is_finite, lt_one}

  pub record PolicyIsValid (p : RetryPolicy F64) : Type 0 where
    pub some_attempt : 1 ≤ p.max_attempts
    pub few_attempts : p.max_attempts ≤ 100
    pub some_delay : 1 ≤ p.base_delay_ms
    pub delays : p.base_delay_ms ≤ p.max_delay_ms
    pub within_a_day : p.max_delay_ms ≤ 86_400_000
    pub finite : is_finite p.multiplier ≡ true
    pub at_least_one : lt_one p.multiplier ≡ false

  pub policy_iff : (p : RetryPolicy F64) → (validate float p ≡ ok tt) ↔ PolicyIsValid p
  unfolding validate
  policy_iff p = (
    λ h. record {
      some_attempt = ground arith;
      few_attempts = ground arith;
      some_delay = ground arith;
      delays = ground arith;
      within_a_day = ground arith;
      finite = ground arith;
      at_least_one = ground arith;
    },
    λ v.
        let a = v.some_attempt in
        let b = v.few_attempts in
        let c = v.some_delay in
        let d = v.delays in
        let e = v.within_a_day in let f = v.finite in let g = v.at_least_one in ground arith,
  )
