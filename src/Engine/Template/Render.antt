-- ===== src/Engine/Template/Render.antt =====
-- src/engine/expr.rs: the machine on a template that is written out.
use Prim.Native.Char.{Char, code, len_utf8}
use Prim.Native.String.{String, [], ◌∷◌, len}
use mathlib.Core.Path.{fun_ext}
use text.Mathlib.TextLemmas.{append_assoc, append-nil, cons-append, nil-append}
use Prim.Native.String.len.{cons}
use aegis_fs.Prelude.{ℕ, ◌+◌, List, false, ◌&&◌, ◌≡◌, refl, sym, ap, ◌∙◌, arith, eqb, inl, inr}
use aegis_fs.Prelude.Chars.{has_char}
use aegis_fs.Prelude.Result.{err, ◌>>=◌, Result-cases}
use aegis_fs.Prelude.Text.{◌<>◌}
use aegis_fs.Engine.Value.{Numbers}
use aegis_fs.Engine.Expr.{ExprContext}
use aegis_fs.Engine.Template.{
  Mode, outside, inside, Scan, starts_brace, has_opening, filled, step, scan, interpolate_string,
  unclosed,
}
use aegis_fs.Engine.Template.Pieces.{
  Piece, Ending, closed, open_hole, IsEnding, IsTemplate, write_ending, write, fill_ending, fill,
}

add_zero : (n : ℕ) → n + 0 ≡ n
add_zero n = omega arith

one_one : (n : ℕ) → n + 1 + 1 ≡ n + 2
one_one n = omega arith

starts_brace-append :
    (s rest : String) → starts_brace rest ≡ false → starts_brace (s <> rest) ≡ starts_brace s
starts_brace-append [] rest h = rw (nil-append rest) h
starts_brace-append (c ∷ s) rest h = rw (cons-append c s rest) refl

abbrev at : Mode → ℕ → String → Scan
at mode position out = record { mode = mode; position = position; out = out }

append_one : (out : String) (c : Char) (s : String) → (out <> (c ∷ [])) <> s ≡ out <> (c ∷ s)
append_one out c s =
    append_assoc out (c ∷ []) s
    ∙ ap (λ t. out <> t) (cons-append c [] s ∙ ap (λ t. c ∷ t) (nil-append s))

abbrev pub dollar : Char
dollar = "$"

abbrev pub left_brace : Char
left_brace = "{"

abbrev pub right_brace : Char
right_brace = "}"

pub open_append : (rest : String) → "${" <> rest ≡ dollar ∷ (left_brace ∷ rest)
open_append rest =
    cons-append dollar "{" rest
    ∙ ap (λ t. dollar ∷ t)
        (cons-append left_brace [] rest ∙ ap (λ t. left_brace ∷ t) (nil-append rest))

pub close_append : (rest : String) → "}" <> rest ≡ right_brace ∷ rest
close_append rest = cons-append right_brace [] rest ∙ ap (λ t. right_brace ∷ t) (nil-append rest)

position-cons :
    (position : ℕ) (c : Char) (s : String) → position + len_utf8 c + len s ≡ position + len (c ∷ s)
position-cons position c s = omega (arith, cons c s)

module _ (numbers : Numbers) (ctx : ExprContext numbers.Number) where
  scan_plain :
      (c : Char) (rest : String) (position : ℕ) (out : String)
      → (eqb (code c) 36 && starts_brace rest) ≡ false
      → scan numbers ctx (at outside position out) (c ∷ rest)
        ≡ scan numbers ctx (at outside (position + len_utf8 c) (out <> (c ∷ []))) rest
  unfolding scan step
  scan_plain c rest position out h = rw h refl

  scan_inner :
      (c : Char) (rest : String) (start position : ℕ) (name out : String)
      → eqb (code c) 125 ≡ false
      → scan numbers ctx (at (inside start name) position out) (c ∷ rest)
        ≡ scan numbers ctx (at (inside start (name <> (c ∷ []))) (position + len_utf8 c) out) rest
  unfolding scan step
  scan_inner c rest start position name out h = rw h refl

  scan_close :
      (rest : String) (start position : ℕ) (name out : String)
      → scan numbers ctx (at (inside start name) position out) ("}" <> rest) ≡ (
          filled numbers ctx name >>= λ value.
          scan numbers ctx (at outside (position + 1) (out <> value)) rest)
  unfolding scan step
  scan_close rest start position name out =
      rw (close_append rest) (elim (Result-cases (filled numbers ctx name)) [
        | inl (e, q) ↦ rw q refl
        | inr (value, q) ↦ rw q refl
      ])

  scan_open :
      (rest : String) (position : ℕ) (out : String)
      → scan numbers ctx (at outside position out) ("${" <> rest)
        ≡ scan numbers ctx (at (inside (position + 2) "") (position + 2) out) rest
  unfolding scan step
  scan_open rest position out =
      ap (scan numbers ctx (at outside position out)) (open_append rest)
      ∙ ap (λ p. scan numbers ctx (at (inside (position + 2) "") p out) rest) (one_one position)

  scan_text :
      (text rest : String) (position : ℕ) (out : String)
      → has_opening text ≡ false
      → starts_brace rest ≡ false
      → scan numbers ctx (at outside position out) (text <> rest)
        ≡ scan numbers ctx (at outside (position + len text) (out <> text)) rest
  unfolding has_opening
  scan_text [] rest position out h b = rw (nil-append rest, append-nil out, add_zero position) refl
  scan_text (c ∷ s) rest position out h b =
      let quiet : (eqb (code c) 36 && starts_brace (s <> rest)) ≡ false =
        rw (starts_brace-append s rest b) (ground (arith, h)) in
      let more =
        scan_plain c (s <> rest) position out quiet
        ∙ scan_text s rest (position + len_utf8 c) (out <> (c ∷ [])) (ground (arith, h)) b in
      rw (cons-append c s rest, ← append_one out c s, ← position-cons position c s) more

  scan_name :
      (name rest : String) (start position : ℕ) (acc out : String)
      → has_char 125 name ≡ false
      → scan numbers ctx (at (inside start acc) position out) (name <> rest)
        ≡ scan numbers ctx (at (inside start (acc <> name)) (position + len name) out) rest
  unfolding has_char
  scan_name [] rest start position acc out h =
      rw (nil-append rest, append-nil acc, add_zero position) refl
  scan_name (c ∷ s) rest start position acc out h =
      let more =
        scan_inner c (s <> rest) start position acc out (ground (arith, h))
        ∙ scan_name s rest start (position + len_utf8 c) (acc <> (c ∷ [])) out
            (ground (arith, h)) in
      rw (cons-append c s rest, ← append_one acc c s, ← position-cons position c s) more

  -- From an opening to its end: a closed hole, and one that stays open.
  scan_hole :
      (name rest : String) (position : ℕ) (out : String)
      → has_char 125 name ≡ false
      → scan numbers ctx (at outside position out) ("${" <> (name <> ("}" <> rest))) ≡ (
          filled numbers ctx name >>= λ value.
          scan numbers ctx (at outside (position + 2 + len name + 1) (out <> value)) rest)
  scan_hole name rest position out h =
      scan_open (name <> ("}" <> rest)) position out
      ∙ scan_name name ("}" <> rest) (position + 2) (position + 2) "" out h
      ∙ scan_close rest (position + 2) (position + 2 + len name) ("" <> name) out
      ∙ ap
          (λ n. filled numbers ctx n >>= λ value.
            scan numbers ctx (at outside (position + 2 + len name + 1) (out <> value)) rest)
          (nil-append name)

  scan_rest_open :
      (name : String) (position : ℕ) (out : String)
      → has_char 125 name ≡ false
      → scan numbers ctx (at outside position out) ("${" <> name)
        ≡ err (unclosed numbers ctx (position + 2))
  unfolding scan
  scan_rest_open name position out h =
      scan_open name position out
      ∙ ap (scan numbers ctx (at (inside (position + 2) "") (position + 2) out))
          (sym (append-nil name))
      ∙ scan_name name "" (position + 2) (position + 2) "" out h

  scan_ending :
      (e : Ending) (position : ℕ) (out : String)
      → IsEnding e
      → scan numbers ctx (at outside position out) (write_ending e)
        ≡ fill_ending numbers ctx position out e
  unfolding scan
  scan_ending (closed text) position out h =
      ap (scan numbers ctx (at outside position out)) (sym (append-nil text))
      ∙ scan_text text "" position out h refl
  scan_ending (open_hole text name) position out (h, n) =
      scan_text text ("${" <> name) position out h (ap starts_brace (open_append name))
      ∙ scan_rest_open name (position + len text) (out <> text) n

  scan-write :
      (ps : List Piece) (e : Ending) (position : ℕ) (out : String)
      → IsTemplate ps e
      → scan numbers ctx (at outside position out) (write ps e) ≡ fill numbers ctx position out ps e
  unfolding write fill
  scan-write List.[] e position out h = scan_ending e position out h
  scan-write (List.◌∷◌ p ps) e position out (h, n, rest) =
      scan_text p.text ("${" <> (p.name <> ("}" <> write ps e))) position out h
        (ap starts_brace (open_append (p.name <> ("}" <> write ps e))))
      ∙ scan_hole p.name (write ps e) (position + len p.text) (out <> p.text) n
      ∙ ap (λ k. filled numbers ctx p.name >>= k)
          (fun_ext λ value.
            scan-write ps e (position + len p.text + 2 + len p.name + 1) (out <> p.text <> value)
              rest)

  -- On a template that is written as texts without `${` and holes without `}`, which ends in such a text
  -- or in a hole that is not closed, the interpolation is the texts with each hole replaced by its
  -- value; the first hole that does not resolve is the error, and a hole that is not closed is the
  -- syntax error with the byte at which its name starts.
  pub interpolate_string-write :
      (ps : List Piece) (e : Ending)
      → IsTemplate ps e
      → interpolate_string numbers ctx (write ps e) ≡ fill numbers ctx 0 "" ps e
  unfolding interpolate_string
  interpolate_string-write ps e h = scan-write ps e 0 "" h
