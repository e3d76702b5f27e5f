-- ===== src/Examples/Crons.antt =====
-- Cron fields and ticks, over a calendar of days without dates.
use aegis_fs.Prelude.{
  ℕ, ◌+◌, ◌*◌, ◌-◌, ◌/◌, ◌%◌, ◌<◌, ◌≤◌, true, Option, none, some, [], ◌∷◌, ◌≡◌, ◌↔◌, refl, arith,
}
use aegis_fs.Prelude.Chars.{split, split_by, parse_u32, has_char}
use aegis_fs.Prelude.Int.{ℤ, pos, ◌<ℤ◌, ◌≤ℤ◌, ◌+ℤ◌, ◌-ℤ◌, negsuc}
use aegis_fs.Prelude.Result.{ok}
use aegis_fs.Prelude.Sort.{sort_by}
use aegis_fs.Scheduler.Cron.{CronField, CronSchedule, contains, parse, parse_field}
use aegis_fs.Scheduler.Cron.Clock.{
  Calendar, CalendarLaws, MinuteStart, ScheduledTrigger, matches_utc, scan, max_scan, first_minute,
  next_tick_ms, advance_after_fire,
}
use aegis_fs.Scheduler.Cron.Values.{Ascending}
use aegis_fs.Scheduler.Cron.Fields.{SomePart, parse_field_lem}
use aegis_fs.Scheduler.Cron.Ticks.{FirstMatch, NoMatch, minutes_after, next_tick_lem}

abbrev quarters : CronField
quarters = record { allowed = 0 ∷ 3 ∷ 4 ∷ 5 ∷ 15 ∷ 30 ∷ 45 ∷ [] }

parse_field_lem_example :
    Ascending quarters.allowed
    × ((v : ℕ) → (contains v quarters ≡ true) ↔ SomePart "minute" 0 59 (split 44 "*/15, 3-5") v)
    × ((v : ℕ) → contains v quarters ≡ true → (0 ≤ v) × (v ≤ 59))
unfolding parse_field parse_u32 has_char split_by sort_by
parse_field_lem_example = parse_field_lem "minute" 0 59 "*/15, 3-5" quarters (omega arith) refl

-- Units of `per` milliseconds since the last full `size` of them, also before the epoch.
abbrev units : (per size : ℕ) → ℤ → ℕ
units per size (pos n) = n / per % size
units per size (negsuc n) = size - 1 - n / per % size

abbrev days : Calendar
days = record {
  in_range = λ t. true;
  millisecond = units 1 1000;
  second = units 1000 60;
  minute = units 60000 60;
  hour = units 3600000 24;
  day = λ t. 1;
  month = λ t. 1;
  day_of_week = λ t. 4;
}

small_ms : (t : ℤ) → days.millisecond t < 1000
small_ms (pos n) = omega arith
small_ms (negsuc n) = omega arith

small_seconds : (t : ℤ) → days.second t < 60
small_seconds (pos n) = omega arith
small_seconds (negsuc n) = omega arith

whole_minutes : (t : ℤ) → MinuteStart (t -ℤ pos (days.second t * 1000 + days.millisecond t))
whole_minutes (pos n) = (n / 60000, 0, ground arith)
whole_minutes (negsuc n) = (0, n / 60000 + 1, ground arith)

abbrev days_laws : CalendarLaws days
days_laws = record {
  millisecond_lt = small_ms;
  second_lt = small_seconds;
  minute_start = whole_minutes;
}

abbrev one_of : ℕ → CronField
one_of n = record { allowed = n ∷ [] }

abbrev at_five_past : CronSchedule
at_five_past = record {
  raw = "5 0 1 1 4";
  minutes = one_of 5;
  hours = one_of 0;
  days_of_month = one_of 1;
  months = one_of 1;
  days_of_week = one_of 4;
}

next_tick_lem_example :
    (MinuteStart (first_minute days (pos 61_500))
      × (pos 61_500 <ℤ first_minute days (pos 61_500))
      × (first_minute days (pos 61_500) ≤ℤ pos 61_500 +ℤ pos 60_000))
    × ((r : ℤ)
        → next_tick_ms days at_five_past (pos 61_500) ≡ some (some r)
        → MinuteStart r
          × (pos 61_500 <ℤ r)
          × FirstMatch days at_five_past max_scan (first_minute days (pos 61_500)) r)
    × (days.in_range (pos 61_500) ≡ true
        → next_tick_ms days at_five_past (pos 61_500) ≡ some none
        → NoMatch days at_five_past max_scan (first_minute days (pos 61_500)))
    × (days.in_range (pos 61_500) ≡ true
        → days.in_range (pos 61_500 +ℤ pos 60_000) ≡ true
        → ((j : ℕ)
            → j ≤ max_scan
            → days.in_range (minutes_after j (first_minute days (pos 61_500))) ≡ true)
        → (found : Option ℤ) × (next_tick_ms days at_five_past (pos 61_500) ≡ some found))
next_tick_lem_example = next_tick_lem days at_five_past days_laws (pos 61_500)

-- The first tick after one minute and a half.
found : next_tick_ms days at_five_past (pos 61_500) ≡ some (some (pos 300_000))
unfolding next_tick_ms scan matches_utc
found = refl

abbrev trigger : ScheduledTrigger ℕ
trigger = record {
  id = "trig_1";
  tenant = "acme";
  workflow_name = "backup";
  cron_expr = "5 0 * * *";
  input = 0;
  enabled = true;
  last_triggered_at_ms = none;
  next_trigger_at_ms = some (pos 61_500);
}

abbrev trigger_fired : ScheduledTrigger ℕ
trigger_fired = record trigger {
  last_triggered_at_ms = some (pos 61_500);
  next_trigger_at_ms = some (pos 300_000);
}

-- The trigger does advance so.
advanced :
    advance_after_fire days trigger (pos 61_500) ≡ some (ok (some (pos 300_000)), trigger_fired)
unfolding advance_after_fire parse parse_field parse_u32 has_char split_by sort_by next_tick_ms scan
    matches_utc
advanced = refl
