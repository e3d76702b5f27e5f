-- ===== src/Domain/Ids/Handler/Accepted.antt =====
-- src/domain/ids.rs: the accepted handler ids, by the numbers of their characters.
use Prim.Native.String.{String, [], ◌∷◌, len}
use aegis_fs.Prelude.{◌≤◌, true, all-true, all_of, Elem, ◌≡◌, ◌≢◌, refl, ◌↔◌, arith}
use aegis_fs.Prelude.Chars.{split}
use aegis_fs.Prelude.Result.{ok}
use aegis_fs.Domain.Ids.Handler.{starts_lowercase, all_plain, parse_handler_id}
use aegis_fs.Domain.Ids.Handler.Dotted.{good, parse_handler_id-good}
use aegis_fs.Domain.Validation.Conditions.{NameChars, StartsWithLetter}

plain_iff : (s : String) → (all_plain s ≡ true) ↔ NameChars s
unfolding all_plain
plain_iff [] = (λ h. tt, λ h. refl)
plain_iff (c ∷ s) =
    let (to, of) = plain_iff s in
    (
      λ h. (ground (arith, h), to (ground (arith, h))),
      λ v. let one = v.0 in let rest = of v.1 in ground arith,
    )

starts_iff : (s : String) → (starts_lowercase s ≡ true) ↔ StartsWithLetter s
starts_iff [] = (λ h. absurd (cc), λ v. absurd v)
starts_iff (c ∷ s) = (λ h. ground (arith, h), λ v. ground arith)

good_iff : (s : String) → (good s ≡ true) ↔ ((s ≢ "") × NameChars s)
good_iff [] = (λ h. absurd (cc), λ v. absurd (v.0 refl))
good_iff (c ∷ s) = let (to, of) = plain_iff (c ∷ s) in (λ h. ((λ e. cc), to h), λ v. of v.1)

-- A handler id is accepted exactly if it has at most 80 bytes, starts with a lower-case letter, and
-- each of the parts between its dots consists of lower-case letters, digits and dashes, and is not
-- empty.
pub parse_handler_id_iff :
    (value : String)
    → (parse_handler_id value ≡ ok value) ↔ (
        (len value ≤ 80)
        × StartsWithLetter value
        × ((part : String) → Elem part (split 46 value) → (part ≢ "") × NameChars part))
parse_handler_id_iff value =
    let (to, of) = parse_handler_id-good value in
    let (start, of_start) = starts_iff value in
    (
      λ h.
          let (short, letter, parts) = to h in
          (
            short,
            start letter,
            λ part m. (good_iff part).0 (all-true good part (split 46 value) parts m),
          ),
      λ (short, letter, parts). of (
        short,
        of_start letter,
        all_of good (split 46 value) (λ part m. (good_iff part).1 (parts part m)),
      ),
    )
