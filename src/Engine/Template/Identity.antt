-- ===== src/Engine/Template/Identity.antt =====
-- src/engine/expr.rs: JSON values without holes, and texts that are one hole.
use Prim.Native.Char.{code}
use Prim.Native.String.{String, [], ◌∷◌}
use text.Mathlib.Text.{starts_with}
use text.Mathlib.TextLemmas.{nil-append}
use text.Mathlib.TextEquality.{starts_with_iff}
use mathlib.Core.List
use aegis_fs.Prelude.{
  Bool, true, false, ◌&&◌, ◌||◌, ◌≡◌, refl, ap, ◌∙◌, arith, eqb, Bool-cases, inl, inr,
}
use aegis_fs.Prelude.Chars.{trim, trim_start, trim_end, is_whitespace}
use aegis_fs.Prelude.Eq.{◌==◌, string_eq}
use aegis_fs.Prelude.Result.{ok}
use aegis_fs.Prelude.Text.{◌<>◌}
use aegis_fs.Engine.Value.{
  Numbers, Json, null, bool, number, string, array, object, Items, nil, cons, Fields, end, field,
}
use aegis_fs.Engine.Expr.{ExprContext}
use aegis_fs.Engine.Template.{
  starts_brace, has_opening, interpolate_string, interpolate_text, interpolate_json,
  interpolate_items, interpolate_fields,
}
use aegis_fs.Engine.Template.Pieces.{closed, write, fill}
use aegis_fs.Engine.Template.Render.{open_append, interpolate_string-write}

trim_start-opening : (s : String) → has_opening s ≡ false → has_opening (trim_start s) ≡ false
unfolding trim_start has_opening
trim_start-opening [] h = refl
trim_start-opening (c ∷ s) h = elim (Bool-cases (is_whitespace c)) [
  | inl e ↦ rw e (trim_start-opening s (ground (arith, h)))
  | inr e ↦ rw e h
]

trim_end-brace : (s : String) → starts_brace s ≡ false → starts_brace (trim_end s) ≡ false
unfolding trim_end
trim_end-brace [] h = refl
trim_end-brace (c ∷ s) h = elim (Bool-cases (is_whitespace c && trim_end s == "")) [
  | inl e ↦ rw e refl
  | inr e ↦ rw e h
]

trim_end-opening : (s : String) → has_opening s ≡ false → has_opening (trim_end s) ≡ false
unfolding trim_end has_opening
trim_end-opening [] h = refl
trim_end-opening (c ∷ s) h =
    let rest = trim_end-opening s (ground (arith, h)) in
    elim (Bool-cases (is_whitespace c && trim_end s == "")) [
      | inl e ↦ rw e refl
      | inr e ↦ elim (Bool-cases (starts_brace s)) [
        | inl b ↦
            rw e
              (let plain : eqb (code c) 36 ≡ false = ground (arith, h, b) in rw (plain, rest) refl)
        | inr b ↦ rw (e, trim_end-brace s b, rest) (ground arith)
      ]
    ]

-- A text that starts with `${` holds one.
starts-opening : (s : String) → has_opening s ≡ false → starts_with s "${" ≡ false
starts-opening s h = elim (Bool-cases (starts_with s "${")) [
  | inr e ↦ e
  | inl e ↦
      let (rest, q) = (starts_with_iff s "${").0 e in
      let opened : has_opening ("${" <> rest) ≡ true =
        rw (open_append rest) (unfold has_opening in refl) in
      absurd (cc (ap has_opening q))
]

module _ (numbers : Numbers) (ctx : ExprContext numbers.Number) where
  open numbers use {Number}

  interpolate_string-plain :
      (s : String) → has_opening s ≡ false → interpolate_string numbers ctx s ≡ ok s
  unfolding write fill
  interpolate_string-plain s h =
      interpolate_string-write numbers ctx List.[] (closed s) h ∙ ap ok (nil-append s)

  interpolate_text-plain :
      (s : String) → has_opening s ≡ false → interpolate_text numbers ctx s ≡ ok (string s)
  unfolding interpolate_text
  interpolate_text-plain s h =
      let trimmed = trim_end-opening (trim_start s) (trim_start-opening s h) in
      rw (starts-opening (trim s) trimmed, interpolate_string-plain s h) refl

  -- Whether some text of a value holds `${`; the keys of objects are not interpolated.
  mutual
    pub holes : Json Number → Bool
    holes null = false
    holes (bool b) = false
    holes (number n) = false
    holes (string s) = has_opening s
    holes (array xs) = holes_items xs
    holes (object fs) = holes_fields fs

    pub holes_items : Items Number → Bool
    holes_items nil = false
    holes_items (cons x xs) = holes x || holes_items xs

    pub holes_fields : Fields Number → Bool
    holes_fields end = false
    holes_fields (field k v fs) = holes v || holes_fields fs

  mutual
    unfolding holes interpolate_json

    plain_json : (j : Json Number) → holes j ≡ false → interpolate_json numbers ctx j ≡ ok j
    plain_json null h = refl
    plain_json (bool b) h = refl
    plain_json (number n) h = refl
    plain_json (string s) h = interpolate_text-plain s h
    plain_json (array xs) h = rw (plain_items xs h) refl
    plain_json (object fs) h = rw (plain_fields fs h) refl

    plain_items :
        (xs : Items Number) → holes_items xs ≡ false → interpolate_items numbers ctx xs ≡ ok xs
    plain_items nil h = refl
    plain_items (cons x xs) h =
        rw (plain_json x (ground (arith, h)), plain_items xs (ground (arith, h))) refl

    plain_fields :
        (fs : Fields Number) → holes_fields fs ≡ false → interpolate_fields numbers ctx fs ≡ ok fs
    plain_fields end h = refl
    plain_fields (field k v fs) h =
        rw (plain_json v (ground (arith, h)), plain_fields fs (ground (arith, h))) refl

  -- A JSON value whose texts hold no `${` is its own interpolation, whatever the context holds.
  pub interpolate_json-plain :
      (j : Json Number) → holes j ≡ false → interpolate_json numbers ctx j ≡ ok j
  interpolate_json-plain j h = plain_json j h
