-- ===== src/Engine/Template/Pieces.antt =====
-- src/engine/expr.rs: a template as texts and holes, and what its interpolation is.
use Prim.Native.String.{String, len}
use aegis_fs.Prelude.{ℕ, ◌+◌, List, false, ◌≡◌}
use aegis_fs.Prelude.Chars.{has_char}
use aegis_fs.Prelude.Result.{Result, ok, err, ◌>>=◌}
use aegis_fs.Prelude.Text.{◌<>◌}
use aegis_fs.Engine.Value.{Numbers}
use aegis_fs.Engine.Expr.{ExprError, ExprContext}
use aegis_fs.Engine.Template.{has_opening, filled, unclosed}

-- A text and the hole behind it.
pub record Piece : Type 0 where
  pub text : String
  pub name : String

-- How a template ends: in a text, or in a hole that is not closed behind a text.
pub data Ending : Type 0 where
  closed : (text : String) → Ending
  open_hole : (text name : String) → Ending

-- The texts hold no `${`, and the names no `}`.
abbrev pub IsEnding : Ending → Type 0
IsEnding (closed text) = has_opening text ≡ false
IsEnding (open_hole text name) = (has_opening text ≡ false) × (has_char 125 name ≡ false)

abbrev pub IsTemplate : List Piece → Ending → Type 0
IsTemplate List.[] e = IsEnding e
IsTemplate (List.◌∷◌ p ps) e =
    (has_opening p.text ≡ false) × (has_char 125 p.name ≡ false) × IsTemplate ps e

abbrev pub write_ending : Ending → String
write_ending (closed text) = text
write_ending (open_hole text name) = text <> ("${" <> name)

unfoldable pub write : List Piece → Ending → String
write List.[] e = write_ending e
write (List.◌∷◌ p ps) e = p.text <> ("${" <> (p.name <> ("}" <> write ps e)))

module _ (numbers : Numbers) (ctx : ExprContext numbers.Number) where
  abbrev pub fill_ending : ℕ → (out : String) → Ending → Result ExprError String
  fill_ending position out (closed text) = ok (out <> text)
  fill_ending position out (open_hole text name) =
      err (unclosed numbers ctx (position + len text + 2))

  -- The holes are resolved in turn, and the first error is the result; the position counts the bytes
  -- of the template.
  unfoldable pub fill : ℕ → (out : String) → List Piece → Ending → Result ExprError String
  fill position out List.[] e = fill_ending position out e
  fill position out (List.◌∷◌ p ps) e = filled numbers ctx p.name >>= λ value.
      fill (position + len p.text + 2 + len p.name + 1) (out <> p.text <> value) ps e
