-- ===== src/Domain/Validation/Input.antt =====
-- src/domain/validation.rs: which inputs are accepted.
use Prim.Native.Nat.{max}
use aegis_fs.Prelude.{ℕ, zero, suc, ◌+◌, ◌^◌, ◌≤◌, ◌≡◌, ◌↔◌, refl, arith, inl, inr, Option-cases}
use aegis_fs.Prelude.Result.{ok}
use aegis_fs.Domain.Workflow.{unwrap_or}
use aegis_fs.Domain.Validation.{
  json_depth, items_depth, fields_depth, json_size, items_size, validate_run_input,
}
use aegis_fs.Engine.Value.{
  Json, null, bool, number, string, array, object, Items, nil, cons, Fields, end, field,
}

module _ {N : Type 0} where
  -- How many arrays and objects stand around the innermost part.
  mutual
    pub nesting : Json N → ℕ
    nesting null = 0
    nesting (bool b) = 0
    nesting (number n) = 0
    nesting (string s) = 0
    nesting (array xs) = suc (nesting_items xs)
    nesting (object fs) = suc (nesting_fields fs)

    pub nesting_items : Items N → ℕ
    nesting_items nil = 0
    nesting_items (cons x xs) = max (nesting x) (nesting_items xs)

    pub nesting_fields : Fields N → ℕ
    nesting_fields end = 0
    nesting_fields (field k v fs) = max (nesting v) (nesting_fields fs)

  mutual
    unfolding json_depth nesting

    depth-nesting : (j : Json N) (d : ℕ) → json_depth j d ≡ d + nesting j
    depth-nesting null d = omega arith
    depth-nesting (bool b) d = omega arith
    depth-nesting (number n) d = omega arith
    depth-nesting (string s) d = omega arith
    depth-nesting (array xs) d = omega (arith, items-nesting xs (d + 1))
    depth-nesting (object fs) d = omega (arith, fields-nesting fs (d + 1))

    items-nesting : (xs : Items N) (d : ℕ) → unwrap_or (items_depth xs d) d ≡ d + nesting_items xs
    items-nesting nil d = omega arith
    items-nesting (cons x xs) d = elim (Option-cases (items_depth xs d)) [
      | inl e ↦ let rest = items-nesting xs d in rw (e, depth-nesting x d) (ground (arith, e, rest))
      | inr (m, e) ↦
          let rest = items-nesting xs d in rw (e, depth-nesting x d) (ground (arith, e, rest))
    ]

    fields-nesting :
        (fs : Fields N) (d : ℕ) → unwrap_or (fields_depth fs d) d ≡ d + nesting_fields fs
    fields-nesting end d = omega arith
    fields-nesting (field k v fs) d = elim (Option-cases (fields_depth fs d)) [
      | inl e ↦
          let rest = fields-nesting fs d in rw (e, depth-nesting v d) (ground (arith, e, rest))
      | inr (m, e) ↦
          let rest = fields-nesting fs d in rw (e, depth-nesting v d) (ground (arith, e, rest))
    ]

  module _ (number_len : N → ℕ) where
    -- The input of a run is accepted exactly when its measured size is at most 2^20 and at most 64
    -- arrays and objects are nested in it.
    pub validate_run_input_iff :
        (input : Json N)
        → (validate_run_input number_len input ≡ ok tt)
          ↔ ((json_size number_len input ≤ 2 ^ 20) × (nesting input ≤ 64))
    unfolding validate_run_input
    validate_run_input_iff input =
        let depth = depth-nesting input 0 in (λ h. ground arith, λ h. ground arith)

    -- As many empty arrays.
    abbrev pub empties : ℕ → Items N
    empties zero = nil
    empties (suc n) = cons (array nil) (empties n)

    empties_size : (n : ℕ) → items_size number_len (empties n) ≡ 0
    unfolding json_size
    empties_size zero = refl
    empties_size (suc n) = omega (arith, empties_size n)

    empties_nesting : (n : ℕ) → nesting_items (empties n) ≤ 1
    unfolding nesting
    empties_nesting zero = omega arith
    empties_nesting (suc n) = omega (arith, empties_nesting n)

    -- The measured size of an array of empty arrays is 0, however many there are, since brackets and
    -- commas are not counted; so every such array is accepted as an input.
    pub validate_run_input-empties :
        (n : ℕ)
        → (json_size number_len (array (empties n)) ≡ 0)
          × (validate_run_input number_len (array (empties n)) ≡ ok tt)
    unfolding json_size
    validate_run_input-empties n = (
      empties_size n,
      (validate_run_input_iff (array (empties n))).1 (
        let size = empties_size n in omega arith,
        let nest = empties_nesting n in unfold nesting in omega arith,
      ),
    )
