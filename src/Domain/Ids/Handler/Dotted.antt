-- ===== src/Domain/Ids/Handler/Dotted.antt =====
-- src/domain/ids.rs: the accepted handler ids, by the parts between their dots.
use Prim.Native.Char.{Char, code}
use Prim.Native.String.{String, [], ◌∷◌, len}
use aegis_fs.Prelude.{
  ◌≤◌, Bool, true, false, not, ◌&&◌, ◌||◌, List, all, eqb, ltb, ◌≡◌, refl, sym, ap, ◌∙◌, ◌↔◌, inl,
  inr, arith, Bool-cases,
}
use aegis_fs.Prelude.Chars.{split, split_by, extend}
use aegis_fs.Prelude.Eq.{◌==◌, string_eq, eq_iff}
use aegis_fs.Prelude.Result.{Result, ok, err}
use aegis_fs.Domain.Ids.Handler.{
  plain, starts_lowercase, all_plain, scan_handler, scanned_handler, parse_handler_id,
  max_handler_len,
}

abbrev no_text : String → Bool
no_text [] = true
no_text (_ ∷ _) = false

-- A part that is not empty, of letters, digits and dashes.
abbrev pub good : String → Bool
good part = not (no_text part) && all_plain part

-- Behind a dot the first part must not be empty; behind another character it may be.
abbrev parts_fit : Bool → List String → Bool
parts_fit prev_dot List.[] = true
parts_fit prev_dot (List.◌∷◌ part parts) =
    all_plain part && (not prev_dot || not (no_text part)) && all good parts

abbrev is_fine : Result String Bool → Bool
is_fine (ok false) = true
is_fine _ = false

parts_fit-extend :
    (prev_dot : Bool) (c : Char) (parts : List String)
    → parts_fit prev_dot (extend c parts) ≡ (plain c && parts_fit false parts)
unfolding all_plain
parts_fit-extend prev_dot c List.[] = ground arith
parts_fit-extend prev_dot c (List.◌∷◌ part parts) = ground arith

parts_fit-true : (parts : List String) → parts_fit true parts ≡ all good parts
parts_fit-true List.[] = refl
parts_fit-true (List.◌∷◌ part parts) = ground arith

-- What the loop and the parts do at one character.
module _ (c : Char) (s : String) where
  scan-plain :
      (prev_dot : Bool) → plain c ≡ true → scan_handler prev_dot (c ∷ s) ≡ scan_handler false s
  unfolding scan_handler
  scan-plain prev_dot p = rw p refl

  scan-dot :
      plain c ≡ false → eqb (code c) 46 ≡ true → scan_handler false (c ∷ s) ≡ scan_handler true s
  unfolding scan_handler
  scan-dot p d = rw (p, d) refl

  scan-dots : plain c ≡ false → eqb (code c) 46 ≡ true → is_fine (scan_handler true (c ∷ s)) ≡ false
  unfolding scan_handler
  scan-dots p d = rw (p, d) refl

  scan-other :
      (prev_dot : Bool)
      → plain c ≡ false
      → eqb (code c) 46 ≡ false
      → is_fine (scan_handler prev_dot (c ∷ s)) ≡ false
  unfolding scan_handler
  scan-other prev_dot p d = rw (p, d) refl

  split-dot : eqb (code c) 46 ≡ true → split 46 (c ∷ s) ≡ List.◌∷◌ "" (split 46 s)
  unfolding split_by
  split-dot d = rw d refl

  split-other : eqb (code c) 46 ≡ false → split 46 (c ∷ s) ≡ extend c (split 46 s)
  unfolding split_by
  split-other d = rw d refl

plain-no_dot : (c : Char) → plain c ≡ true → eqb (code c) 46 ≡ false
plain-no_dot c p = ground arith

at_dot :
    (prev_dot : Bool) (c : Char) (s : String)
    → plain c ≡ false
    → eqb (code c) 46 ≡ true
    → is_fine (scan_handler true s) ≡ parts_fit true (split 46 s)
    → is_fine (scan_handler prev_dot (c ∷ s)) ≡ parts_fit prev_dot (split 46 (c ∷ s))
unfolding all_plain
at_dot true c s p d fits = scan-dots c s p d ∙ sym (ap (parts_fit true) (split-dot c s d))
at_dot false c s p d fits =
    ap is_fine (scan-dot c s p d)
    ∙ fits
    ∙ parts_fit-true (split 46 s)
    ∙ sym (ap (parts_fit false) (split-dot c s d))

scan_fits :
    (prev_dot : Bool) (s : String)
    → is_fine (scan_handler prev_dot s) ≡ parts_fit prev_dot (split 46 s)
unfolding scan_handler split_by all_plain
scan_fits true [] = refl
scan_fits false [] = refl
scan_fits prev_dot (c ∷ s) = elim (Bool-cases (plain c)) [
  | inl p ↦
      ap is_fine (scan-plain c s prev_dot p)
      ∙ scan_fits false s
      ∙ sym (
          ap (parts_fit prev_dot) (split-other c s (plain-no_dot c p))
          ∙ parts_fit-extend prev_dot c (split 46 s)
          ∙ ap (λ b. b && parts_fit false (split 46 s)) p)
  | inr p ↦ elim (Bool-cases (eqb (code c) 46)) [
    | inl d ↦ at_dot prev_dot c s p d (scan_fits true s)
    | inr d ↦
        scan-other c s prev_dot p d
        ∙ sym (
            ap (parts_fit prev_dot) (split-other c s d)
            ∙ parts_fit-extend prev_dot c (split 46 s)
            ∙ ap (λ b. b && parts_fit false (split 46 s)) p)
  ]
]

-- An id that starts with a letter has a first part, so the first part is like the others.
parts_fit-start :
    (s : String) → starts_lowercase s ≡ true → parts_fit false (split 46 s) ≡ all good (split 46 s)
parts_fit-start [] h = absurd (cc)
parts_fit-start (c ∷ s) h =
    let no_dot : eqb (code c) 46 ≡ false = ground arith in
    rw (split-other c s no_dot) (extended (split 46 s))
  where
    extended : (parts : List String) → parts_fit false (extend c parts) ≡ all good (extend c parts)
    extended List.[] = ground arith
    extended (List.◌∷◌ part parts) = ground arith

accepted_scan :
    (value : String) (r : Result String Bool)
    → (scanned_handler value r ≡ ok value) ↔ (is_fine r ≡ true)
accepted_scan value (err reason) = ground arith
accepted_scan value (ok true) = ground arith
accepted_scan value (ok false) = ground arith

sized :
    (value : String)
    → (value == "" || ltb max_handler_len (len value)) ≡ true
    → len value ≤ max_handler_len
    → starts_lowercase value ≡ true
    → ⊥
sized value e short start = elim (Bool-cases (value == "")) [
  | inl q ↦ let empty = ap starts_lowercase ((eq_iff value "").0 q) in cc
  | inr q ↦ ground arith
]

-- The accepted ids, by the tests on their characters.
pub parse_handler_id-good :
    (value : String)
    → (parse_handler_id value ≡ ok value) ↔ (
        (len value ≤ max_handler_len)
        × (starts_lowercase value ≡ true)
        × (all good (split 46 value) ≡ true))
unfolding parse_handler_id
parse_handler_id-good value = elim (Bool-cases (value == "" || ltb max_handler_len (len value))) [
  | inl e ↦ rw e (λ h. absurd (cc), λ (short, start, _). absurd (sized value e short start))
  | inr e ↦ elim (Bool-cases (starts_lowercase value)) [
    | inr n ↦ rw (e, n) (λ h. absurd (cc), λ h. absurd (cc))
    | inl l ↦
        let fine = scan_fits false value ∙ parts_fit-start value l in
        let (f, g) = accepted_scan value (scan_handler false value) in
        rw (e, l) (λ h. (ground arith, refl, sym fine ∙ f h), λ h. g (fine ∙ h.2))
  ]
]
