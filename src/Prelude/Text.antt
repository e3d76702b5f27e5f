-- ===== src/Prelude/Text.antt =====
-- Texts: `format!` of the source, and the order of its strings.
use Prim.Native.Nat.{ℕ, zero, suc, ◌/◌, ◌%◌}
use Prim.Native.String.{String, ◌++◌, compare}
use mathlib.Core.Bool.{Bool}
use text.Mathlib.Text.{is_le}
use aegis_fs.Prelude.Tests.{if◌then◌else◌, ltb, eqb}

infixl 65 ◌<>◌
abbrev pub ◌<>◌ : String → String → String
s <> t = s ++ t

-- `s <= t`
abbrev pub str_le : String → String → Bool
str_le s t = is_le (compare s t)

digit : ℕ → String
digit n =
    if eqb n 0
    then "0"
    else if eqb n 1
    then "1"
    else if eqb n 2
    then "2"
    else if eqb n 3
    then "3"
    else if eqb n 4
    then "4"
    else if eqb n 5
    then "5"
    else if eqb n 6
    then "6"
    else if eqb n 7
    then "7"
    else if eqb n 8
    then "8"
    else "9"

-- The digits of a number that is less than the fuel.
digits : ℕ → ℕ → String
unfolding digit
digits zero n = ""
digits (suc fuel) n =
    let rest = digits fuel (n / 10) <> digit (n % 10) in if ltb n 10 then digit n else rest

unfoldable pub decimal : ℕ → String
unfolding digits
decimal n = digits (suc n) n
