-- ===== src/Engine/Template/Exact.antt =====
-- src/engine/expr.rs: a text that is taken for one hole.
use Prim.Native.Char.{Char}
use Prim.Native.String.{String, [], ◌∷◌, len}
use text.Mathlib.TextLemmas.{append_assoc, cons≢nil, cons-append, nil-append}
use text.Mathlib.TextPositions.{len-append, slice-append_middle, starts_with-append}
use aegis_fs.Prelude.{
  ◌+◌, ◌-◌, Bool, true, false, ◌&&◌, ◌≡◌, refl, sym, ap, ◌∙◌, arith, if◌then◌else◌, Bool-cases, inl,
  inr,
}
use aegis_fs.Prelude.Chars.{trim, trim_start, trim_end, is_whitespace, split}
use aegis_fs.Prelude.Eq.{◌==◌, string_eq, eq_iff}
use aegis_fs.Prelude.Result.{ok, ◌>>=◌}
use aegis_fs.Prelude.Text.{◌<>◌}
use aegis_fs.Engine.Value.{Numbers, string, to_json}
use aegis_fs.Engine.Expr.{ExprContext, resolve_path}
use aegis_fs.Engine.Template.{has_opening, ends_brace, inner, interpolate_text, interpolate_json}
use aegis_fs.Engine.Template.Render.{open_append}

abbrev hole : String → String
hole name = "${" <> (name <> "}")

never {ℓ} : {A : Type ℓ} (b : Bool) (x y : A) → (if b && false then x else y) ≡ y
never true x y = refl
never false x y = refl

cons-empty : (c : Char) (s : String) → (c ∷ s == "") ≡ false
cons-empty c s = elim (Bool-cases (c ∷ s == "")) [
  | inr e ↦ e
  | inl e ↦ absurd (cons≢nil ((eq_iff (c ∷ s) "").0 e))
]

trim_end-brace : (s : String) → (trim_end (s <> "}") ≡ s <> "}") × ((s <> "}" == "") ≡ false)
unfolding trim_end
trim_end-brace [] = rw (nil-append "}") (refl, refl)
trim_end-brace (c ∷ s) =
    let (same, ne) = trim_end-brace s in
    rw (cons-append c s "}", same, ne)
      (never (is_whitespace c) "" (c ∷ (s <> "}")), cons-empty c (s <> "}"))

ends_brace-append : (s : String) → ends_brace (s <> "}") ≡ true
unfolding ends_brace
ends_brace-append [] = ap ends_brace (nil-append "}")
ends_brace-append (c ∷ []) = ap ends_brace (cons-append c [] "}" ∙ ap (λ t. c ∷ t) (nil-append "}"))
ends_brace-append (c ∷ d ∷ s) =
    ap ends_brace (cons-append c (d ∷ s) "}" ∙ ap (λ t. c ∷ t) (cons-append d s "}"))
    ∙ ap ends_brace (sym (cons-append d s "}"))
    ∙ ends_brace-append (d ∷ s)

hole-regroup : (name : String) → hole name ≡ ("${" <> name) <> "}"
hole-regroup name = sym (append_assoc "${" name "}")

trim_start-hole : (name : String) → trim_start (hole name) ≡ hole name
unfolding trim_start
trim_start-hole name = ap trim_start (open_append (name <> "}")) ∙ sym (open_append (name <> "}"))

trim-hole : (name : String) → trim (hole name) ≡ hole name
trim-hole name =
    ap trim_end (trim_start-hole name ∙ hole-regroup name)
    ∙ (trim_end-brace ("${" <> name)).0
    ∙ sym (hole-regroup name)

inner-hole : (name : String) → inner (hole name) ≡ name
inner-hole name =
    let size : len (hole name) - 1 ≡ 2 + len name =
      omega (arith, len-append "${" (name <> "}"), len-append name "}") in
    rw size (slice-append_middle "${" name "}")

module _ (numbers : Numbers) (ctx : ExprContext numbers.Number) where
  interpolate_text-hole :
      (name : String)
      → has_opening name ≡ false
      → interpolate_text numbers ctx ("${" <> (name <> "}"))
        ≡ (resolve_path numbers ctx (split 46 (trim name)) >>= λ v. ok (to_json numbers v))
  unfolding interpolate_text
  interpolate_text-hole name h =
      let ends : ends_brace (hole name) ≡ true =
        ap ends_brace (hole-regroup name) ∙ ends_brace-append ("${" <> name) in
      rw (trim-hole name, starts_with-append "${" (name <> "}"), ends, inner-hole name, h) refl

  -- A JSON text that is `${`, a name without `${`, and `}` becomes the value itself of the path that the
  -- name spells between its dots, whatever else the name holds: also where it holds a `}` and a further
  -- text behind it.
  pub interpolate_json-hole :
      (name : String)
      → has_opening name ≡ false
      → interpolate_json numbers ctx (string ("${" <> (name <> "}")))
        ≡ (resolve_path numbers ctx (split 46 (trim name)) >>= λ v. ok (to_json numbers v))
  unfolding interpolate_json
  interpolate_json-hole name h = interpolate_text-hole name h
