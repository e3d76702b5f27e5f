-- ===== src/Scheduler/Cron.antt =====
-- src/scheduler/cron.rs: cron fields and schedules. A field is parsed to the list of its values.
pub mod Clock
pub mod Ticks
pub mod Values
pub mod Fields
use Prim.Native.Nat.{compare, Ordering}
use Prim.Native.String.{String}
use aegis_fs.Prelude.{
  ℕ, zero, suc, ◌+◌, ◌-◌, ◌^◌, Bool, true, false, ◌&&◌, ◌||◌, Option, none, some, List, [], ◌∷◌,
  ◌++◌, any, filter, length, not, ltb, leb, eqb, if◌then◌else◌,
}
use aegis_fs.Prelude.Chars.{
  trim, trim_start, trim_end, split, split_by, has_char, strip_prefix, parse_u32, ParseIntError,
  describe, is_whitespace,
}
use aegis_fs.Prelude.Eq.{◌==◌, string_eq}
use aegis_fs.Prelude.Result.{Result, ok, err, ◌>>=◌}
use aegis_fs.Prelude.Sort.{sort_by}
use aegis_fs.Prelude.Text.{◌<>◌, decimal}

pub data CronError : Type 0 where
  invalid_field_count : ℕ → CronError
  value_out_of_range : (field : String) (value min max : ℕ) → CronError
  malformed_field : (field reason : String) → CronError

pub record CronField : Type 0 where
  pub allowed : List ℕ

-- `binary_search` on a sorted list finds exactly its elements.
abbrev pub contains : ℕ → CronField → Bool
contains value f = any (λ v. eqb v value) f.allowed

-- `count` numbers from `v`.
unfoldable pub count_up : (count v : ℕ) → List ℕ
count_up zero v = []
count_up (suc count) v = v ∷ count_up count (v + 1)

abbrev pub inclusive : (start end : ℕ) → List ℕ
inclusive start end = count_up (end + 1 - start) start

-- The loop over `v`, which leaves when `checked_add` overflows; it has at most `max + 1 - v` rounds.
unfoldable pub step_up : (fuel step max v : ℕ) → List ℕ
step_up zero step max v = []
step_up (suc fuel) step max v =
    let rest = step_up fuel step max (v + step) in
    if leb v max then v ∷ (if ltb (v + step) (2 ^ 32) then rest else []) else []

-- Neighbours that are equal become one.
unfoldable pub dedup : List ℕ → List ℕ
dedup [] = []
dedup (x ∷ []) = x ∷ []
dedup (x ∷ y ∷ ys) = let rest = dedup (y ∷ ys) in if eqb x y then rest else x ∷ rest

module _ (field : String) (min max : ℕ) where
  abbrev pub number : String → Result ParseIntError ℕ → Result CronError ℕ
  number what (ok n) = ok n
  number what (err e) = err (malformed_field field (what <> ": " <> describe e))

  abbrev pub in_range : ℕ → Result CronError (Unit {0})
  in_range value =
      if ltb value min || ltb max value then err (value_out_of_range field value min max) else ok tt

  abbrev pub parse_step : String → Result CronError (List ℕ)
  parse_step text = number "invalid step" (parse_u32 text) >>= λ step.
      if eqb step 0
      then err (malformed_field field "step must be greater than 0")
      else ok (step_up (max + 1 - min) step max min)

  -- The first two parts are the bounds; there are two, since the text has a dash.
  abbrev pub parse_range : List String → Result CronError (List ℕ)
  parse_range [] = err (malformed_field field "missing range upper bound")
  parse_range (_ ∷ []) = err (malformed_field field "missing range upper bound")
  parse_range (first ∷ second ∷ _) = number "invalid range start" (parse_u32 first) >>= λ start.
      number "invalid range end" (parse_u32 second) >>= λ end. in_range start >>= λ _.
      in_range end >>= λ _.
      if ltb end start
      then err (
          malformed_field field ("range start " <> decimal start <> " exceeds end " <> decimal end))
      else ok (inclusive start end)

  abbrev pub parse_single : String → Result CronError (List ℕ)
  parse_single text =
      number "invalid integer" (parse_u32 text) >>= λ value. in_range value >>= λ _. ok (value ∷ [])

  abbrev pub parse_stepless : String → Result CronError (List ℕ)
  parse_stepless text = if has_char 45 text then parse_range (split 45 text) else parse_single text

  abbrev pub parse_rest : String → Option String → Result CronError (List ℕ)
  parse_rest text (some step) = parse_step step
  parse_rest text none = parse_stepless text

  -- The values of one part of the list.
  unfoldable pub parse_part : String → Result CronError (List ℕ)
  unfolding count_up step_up
  parse_part text =
      if text == ""
      then err (malformed_field field "empty sub-expression in list")
      else if text == "*"
      then ok (inclusive min max)
      else parse_rest text (strip_prefix text "*/")

  unfoldable pub parse_parts : List ℕ → List String → Result CronError (List ℕ)
  unfolding parse_part
  parse_parts allowed [] = ok allowed
  parse_parts allowed (part ∷ parts) =
      parse_part (trim part) >>= λ values. parse_parts (allowed ++ values) parts

  unfoldable pub parse_field : String → Result CronError CronField
  unfolding parse_parts dedup trim_start trim_end split_by
  parse_field expr = parse_parts [] (split 44 expr) >>= λ allowed.
      ok (record { allowed = dedup (sort_by leb allowed) })

pub record CronSchedule : Type 0 where
  pub raw : String
  pub minutes : CronField
  pub hours : CronField
  pub days_of_month : CronField
  pub months : CronField
  pub days_of_week : CronField

abbrev pub words : String → List String
words s = filter (λ w. not (w == "")) (split_by is_whitespace s)

abbrev pub parse_fields : String → List String → Result CronError CronSchedule
parse_fields expr (f0 ∷ f1 ∷ f2 ∷ f3 ∷ f4 ∷ []) = parse_field "minute" 0 59 f0 >>= λ minutes.
    parse_field "hour" 0 23 f1 >>= λ hours. parse_field "day_of_month" 1 31 f2 >>= λ days_of_month.
    parse_field "month" 1 12 f3 >>= λ months. parse_field "day_of_week" 0 6 f4 >>= λ days_of_week.
    ok (record {
      raw = trim expr;
      minutes = minutes;
      hours = hours;
      days_of_month = days_of_month;
      months = months;
      days_of_week = days_of_week;
    })
parse_fields expr fields = err (invalid_field_count (length fields))

unfoldable pub parse : String → Result CronError CronSchedule
unfolding parse_field
parse expr = parse_fields expr (words expr)
