-- ===== src/Scheduler/Cron/Clock.antt =====
-- src/scheduler/cron.rs: the search for the next tick, and triggers. A `DateTime<Utc>` of `chrono` is
-- the number of its milliseconds, and its fields are a parameter.
use aegis_fs.Prelude.{
  ℕ, zero, suc, ◌*◌, ◌+◌, ◌<◌, ◌≡◌, String, Bool, true, false, ◌&&◌, Option, none, some,
  if◌then◌else◌,
}
use aegis_fs.Prelude.Int.{ℤ, pos, pos_part, neg_part, ◌+ℤ◌, ◌-ℤ◌}
use aegis_fs.Prelude.Result.{Result, ok, err}
use aegis_fs.Scheduler.Cron.{CronSchedule, CronError, contains, parse}

pub record Calendar : Type 0 where
  pub in_range : ℤ → Bool  -- the times that a `DateTime` can hold
  pub millisecond : ℤ → ℕ  -- `nanosecond()`, in milliseconds
  pub second : ℤ → ℕ
  pub minute : ℤ → ℕ
  pub hour : ℤ → ℕ
  pub day : ℤ → ℕ
  pub month : ℤ → ℕ
  pub day_of_week : ℤ → ℕ  -- `weekday().num_days_from_sunday()`

-- A whole number of minutes from the epoch, `later` minus `earlier`.
abbrev pub MinuteStart : ℤ → Type 0
MinuteStart t = (later earlier : ℕ) × (pos_part t + earlier * 60_000 ≡ neg_part t + later * 60_000)

-- What the documentation of `chrono` says of the fields that are used for arithmetic.
pub record CalendarLaws (c : Calendar) : Type 0 where
  pub millisecond_lt : (t : ℤ) → c.millisecond t < 1000
  pub second_lt : (t : ℤ) → c.second t < 60
  pub minute_start : (t : ℤ) → MinuteStart (t -ℤ pos (c.second t * 1000 + c.millisecond t))

pub record ScheduledTrigger (Json : Type 0) : Type 0 where
  pub id : String
  pub tenant : String
  pub workflow_name : String
  pub cron_expr : String
  pub input : Json
  pub enabled : Bool
  pub last_triggered_at_ms : Option ℤ
  pub next_trigger_at_ms : Option ℤ

abbrev pub max_scan : ℕ
max_scan = 2_628_000

module _ (calendar : Calendar) where
  open calendar use {in_range, millisecond, second, minute, hour, day, month, day_of_week}

  unfoldable pub matches_utc : CronSchedule → ℤ → Bool
  matches_utc s t =
      contains (minute t) s.minutes
      && contains (hour t) s.hours
      && contains (day t) s.days_of_month
      && contains (month t) s.months
      && contains (day_of_week t) s.days_of_week

  -- `dt + Duration`, which panics out of range.
  abbrev pub checked : ℤ → Option ℤ
  checked t = if in_range t then some t else none

  abbrev pub add_minute : ℤ → Option ℤ
  add_minute t = checked (t +ℤ pos 60_000)

  -- The loop. The outer `none` is a panic.
  unfoldable pub scan : ℕ → CronSchedule → ℤ → Option (Option ℤ)
  scan zero s t = some none
  scan (suc rounds) s t = elim (matches_utc s t) [
    | true ↦ some (some t)
    | false ↦ elim (add_minute t) [ none ↦ none | some t' ↦ scan rounds s t' ]
  ]

  -- The start of the minute after `t`.
  abbrev pub first_minute : ℤ → ℤ
  first_minute t = t +ℤ pos 60_000 -ℤ pos (second t * 1000) -ℤ pos (millisecond t)

  unfoldable pub next_tick_ms : CronSchedule → ℤ → Option (Option ℤ)
  next_tick_ms s after =
      if in_range after
      then elim (add_minute after) [ none ↦ none | some _ ↦ scan max_scan s (first_minute after) ]
      else some none

  -- A trigger is made or advanced with the next tick; a panic is the outer `none`.
  module _ {Json : Type 0} where
    abbrev pub new_trigger :
        (id tenant workflow_name cron_expr : String) → Json → Option ℤ → ScheduledTrigger Json
    new_trigger id tenant workflow_name cron_expr input next = record {
      id = id;
      tenant = tenant;
      workflow_name = workflow_name;
      cron_expr = cron_expr;
      input = input;
      enabled = true;
      last_triggered_at_ms = none;
      next_trigger_at_ms = next;
    }

    abbrev pub created :
        (Option ℤ → ScheduledTrigger Json)
        → ℤ
        → Result CronError CronSchedule
        → Option (Result CronError (ScheduledTrigger Json))
    created make now (err e) = some (err e)
    created make now (ok schedule) = elim (next_tick_ms schedule now) [
      | none ↦ none
      | some next ↦ some (ok (make next))
    ]

    unfoldable pub create :
        (id tenant workflow_name cron_expr : String)
        → Json
        → ℤ
        → Option (Result CronError (ScheduledTrigger Json))
    create id tenant workflow_name cron_expr input now =
        created (new_trigger id tenant workflow_name cron_expr input) now (parse cron_expr)

    abbrev pub fired :
        ScheduledTrigger Json
        → ℤ
        → Result CronError CronSchedule
        → Option (Result CronError (Option ℤ) × ScheduledTrigger Json)
    fired trigger fired_at (err e) = some (err e, trigger)
    fired trigger fired_at (ok schedule) = elim (next_tick_ms schedule fired_at) [
      | none ↦ none
      | some next ↦ some (
        ok next,
        record trigger { last_triggered_at_ms = some fired_at; next_trigger_at_ms = next },
      )
    ]

    unfoldable pub advance_after_fire :
        ScheduledTrigger Json → ℤ → Option (Result CronError (Option ℤ) × ScheduledTrigger Json)
    advance_after_fire trigger fired_at = fired trigger fired_at (parse trigger.cron_expr)
