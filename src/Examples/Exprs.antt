-- ===== src/Examples/Exprs.antt =====
-- Expressions and templates, on a small context in which numbers are whole.
use aegis_fs.Prelude.{ℕ, ◌<◌, ◌≤◌, some, List, [], ◌∷◌, ◌≡◌, refl, eqb, ltb}
use aegis_fs.Prelude.Chars.{split, split_by, trim, trim_start, trim_end, has_char}
use aegis_fs.Prelude.Map.{lookup}
use aegis_fs.Prelude.Result.{ok, err, ◌>>=◌}
use aegis_fs.Prelude.Text.{decimal, ◌<>◌}
use aegis_fs.Engine.Value.{
  Numbers, ExprValue, null, number, string, object, field, end, get, to_json, convert, display,
}
use aegis_fs.Engine.Expr.{
  ExprContext, Expr, literal, variable, eq, and, resolve_path, eval, nesting_limit_exceeded,
}
use aegis_fs.Engine.Expr.Meaning.{HasValue, height}
use aegis_fs.Engine.Expr.Depth.{eval_lem}
use aegis_fs.Engine.Template.{interpolate_string, interpolate_json, has_opening, filled}
use aegis_fs.Engine.Template.Pieces.{Piece, closed, write, fill}
use aegis_fs.Engine.Template.Render.{interpolate_string-write}
use aegis_fs.Engine.Template.Exact.{interpolate_json-hole}

abbrev naturals : Numbers
naturals = record {
  Number = ℕ;
  F64 = ℕ;
  zero_f64 = 0;
  as_f64 = λ n. some n;
  from_f64 = λ n. some n;
  same_f64 = eqb;
  lt_f64 = ltb;
  show_f64 = decimal;
}

abbrev context : ExprContext ℕ
context = record {
  run_input = object (field "user" (string "ada") (field "tries" (number 3) end));
  task_outputs = ("fetch", object (field "status" (number 200) end)) ∷ [];
  meta = ("tenant", "acme") ∷ [];
}

abbrev succeeded : Expr ℕ
succeeded =
    and (eq (variable ("tasks" ∷ "fetch" ∷ "output" ∷ "status" ∷ [])) (literal (number 200)))
      (eq (variable ("run" ∷ "input" ∷ "tries" ∷ [])) (literal (number 3)))

eval_lem_example :
    ((v : ExprValue ℕ)
      → eval naturals context succeeded ≡ ok v
      → HasValue naturals context succeeded v)
    × (height succeeded ≤ 32
        → (v : ExprValue ℕ) → HasValue naturals context succeeded v
        → eval naturals context succeeded ≡ ok v)
    × (eval naturals context succeeded ≡ err nesting_limit_exceeded → 32 < height succeeded)
eval_lem_example = eval_lem naturals context succeeded

abbrev greeting : List Piece
greeting =
    record { text = "hi "; name = "run.input.user" }
    ∷ record { text = ", "; name = " meta.tenant " }
    ∷ []

interpolate_string-write_example :
    interpolate_string naturals context (write greeting (closed "!"))
    ≡ fill naturals context 0 "" greeting (closed "!")
unfolding has_opening has_char
interpolate_string-write_example =
    interpolate_string-write naturals context greeting (closed "!") (refl, refl, (refl, refl, refl))

greeting_text : write greeting (closed "!") ≡ "hi ${run.input.user}, ${ meta.tenant }!"
unfolding write
greeting_text = refl

greeting_filled : fill naturals context 0 "" greeting (closed "!") ≡ ok "hi ada, acme!"
unfolding fill filled resolve_path split_by trim_start trim_end get convert lookup display
greeting_filled = refl

-- The text `${meta.tenant} {x}` is taken for one path.
interpolate_json-hole_example :
    interpolate_json naturals context (string ("${" <> ("meta.tenant} {x" <> "}"))) ≡ (
      resolve_path naturals context (split 46 (trim "meta.tenant} {x")) >>= λ v.
      ok (to_json naturals v))
unfolding has_opening
interpolate_json-hole_example = interpolate_json-hole naturals context "meta.tenant} {x" refl

misread : interpolate_json naturals context (string ("${" <> ("meta.tenant} {x" <> "}"))) ≡ ok null
unfolding resolve_path split_by trim_start trim_end lookup convert
misread = interpolate_json-hole_example
