-- ===== src/Engine/Template.antt =====
-- src/engine/expr.rs: the interpolation of templates, in texts and in JSON values. The loop over the
-- characters is a machine with a mode, and the start of a hole is counted in bytes.
pub mod Pieces
pub mod Render
pub mod Identity
pub mod Exact
use Prim.Native.Char.{Char, code, len_utf8}
use Prim.Native.String.{String, [], ◌∷◌, len, slice}
use text.Mathlib.Text.{starts_with}
use aegis_fs.Prelude.{ℕ, ◌+◌, ◌-◌, Bool, true, false, not, ◌&&◌, ◌||◌, eqb, if◌then◌else◌}
use aegis_fs.Prelude.Chars.{trim, trim_start, trim_end, split, split_by}
use aegis_fs.Prelude.Result.{Result, ok, err, ◌>>=◌}
use aegis_fs.Prelude.Text.{◌<>◌, decimal}
use aegis_fs.Engine.Value.{
  Numbers, Json, null, bool, number, string, array, object, Items, nil, cons, Fields, end, field,
  to_json, display,
}
use aegis_fs.Engine.Expr.{ExprError, syntax, ExprContext, resolve_path}

-- What is done with the next character: it is text, it is the brace of an opening, or it belongs to a
-- hole that starts at a position.
pub data Mode : Type 0 where
  outside : Mode
  opening : (start : ℕ) → Mode
  inside : (start : ℕ) (name : String) → Mode

pub record Scan : Type 0 where
  pub mode : Mode
  pub position : ℕ
  pub out : String

abbrev pub starts_brace : String → Bool
starts_brace [] = false
starts_brace (c ∷ s) = eqb (code c) 123

-- `${` somewhere in a text.
unfoldable pub has_opening : String → Bool
has_opening [] = false
has_opening (c ∷ s) = (eqb (code c) 36 && starts_brace s) || has_opening s

unfoldable pub ends_brace : String → Bool
ends_brace [] = false
ends_brace (c ∷ []) = eqb (code c) 125
ends_brace (c ∷ d ∷ s) = ends_brace (d ∷ s)

-- `trimmed[2..trimmed.len() - 1]`
abbrev pub inner : String → String
inner trimmed = slice trimmed 2 (len trimmed - 1)

abbrev pub is_exact : String → Bool
is_exact trimmed =
    starts_with trimmed "${" && ends_brace trimmed && not (has_opening (inner trimmed))

module _ (numbers : Numbers) (ctx : ExprContext numbers.Number) where
  open numbers use {Number}

  -- The text of a hole, by its name.
  unfoldable pub filled : String → Result ExprError String
  filled name = resolve_path numbers ctx (split 46 (trim name)) >>= λ v. ok (display numbers v)

  abbrev pub pushed : Scan → Char → Mode → Scan
  pushed s c mode = record {
    mode = mode;
    position = s.position + len_utf8 c;
    out = s.out <> (c ∷ []);
  }

  abbrev pub moved : Scan → Char → Mode → Scan
  moved s c mode = record { mode = mode; position = s.position + len_utf8 c; out = s.out }

  -- One character, in front of the text `rest`.
  unfoldable pub step : Mode → Scan → Char → (rest : String) → Result ExprError Scan
  step outside s c rest = ok (
      if eqb (code c) 36 && starts_brace rest
      then moved s c (opening (s.position + 2))
      else pushed s c outside)
  step (opening start) s c rest = ok (moved s c (inside start ""))
  step (inside start name) s c rest =
      if eqb (code c) 125
      then (filled name >>= λ value.
          ok (record { mode = outside; position = s.position + len_utf8 c; out = s.out <> value }))
      else ok (moved s c (inside start (name <> (c ∷ []))))

  abbrev pub unclosed : ℕ → ExprError
  unclosed start = syntax ("unclosed '${' expression starting at index " <> decimal start)

  abbrev pub finish : Mode → Scan → Result ExprError String
  finish outside s = ok s.out
  finish (opening start) s = err (unclosed start)
  finish (inside start name) s = err (unclosed start)

  unfoldable pub scan : Scan → String → Result ExprError String
  scan s [] = finish s.mode s
  scan s (c ∷ rest) = step s.mode s c rest >>= λ s'. scan s' rest

  abbrev pub initial : Scan
  initial = record { mode = outside; position = 0; out = "" }

  unfoldable pub interpolate_string : String → Result ExprError String
  interpolate_string template = scan initial template

  -- A text that is one `${...}` becomes the value itself.
  unfoldable pub interpolate_text : String → Result ExprError (Json Number)
  interpolate_text s =
      if is_exact (trim s)
      then (resolve_path numbers ctx (split 46 (trim (inner (trim s)))) >>= λ v.
          ok (to_json numbers v))
      else (interpolate_string s >>= λ t. ok (string t))

  unfoldable mutual
    pub interpolate_json : Json Number → Result ExprError (Json Number)
    interpolate_json null = ok null
    interpolate_json (bool b) = ok (bool b)
    interpolate_json (number n) = ok (number n)
    interpolate_json (string s) = interpolate_text s
    interpolate_json (array xs) = interpolate_items xs >>= λ ys. ok (array ys)
    interpolate_json (object fs) = interpolate_fields fs >>= λ gs. ok (object gs)

    pub interpolate_items : Items Number → Result ExprError (Items Number)
    interpolate_items nil = ok nil
    interpolate_items (cons x xs) =
        interpolate_json x >>= λ y. interpolate_items xs >>= λ ys. ok (cons y ys)

    pub interpolate_fields : Fields Number → Result ExprError (Fields Number)
    interpolate_fields end = ok end
    interpolate_fields (field k v fs) =
        interpolate_json v >>= λ w. interpolate_fields fs >>= λ gs. ok (field k w gs)
