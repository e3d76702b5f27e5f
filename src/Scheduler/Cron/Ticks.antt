-- ===== src/Scheduler/Cron/Ticks.antt =====
-- src/scheduler/cron.rs: which tick is found, and what a trigger keeps of it.
use aegis_fs.Prelude.{
  ℕ, zero, suc, ◌+◌, ◌*◌, ◌<◌, ◌≤◌, true, false, Option, none, some, ◌≡◌, refl, arith, ap,
  Bool-cases, Option-cases, ◌∙◌, inl, inr,
}
use aegis_fs.Prelude.Int.{ℤ, pos, negsuc, ◌+ℤ◌, ◌-ℤ◌, ◌<ℤ◌, ◌≤ℤ◌}
use aegis_fs.Prelude.Result.{ok, err, Result-cases}
use aegis_fs.Scheduler.Cron.{CronSchedule, CronError, parse}
use aegis_fs.Scheduler.Cron.Clock.{
  Calendar, CalendarLaws, MinuteStart, ScheduledTrigger, matches_utc, scan, max_scan, first_minute,
  next_tick_ms, advance_after_fire,
}

abbrev pub minutes_after : ℕ → ℤ → ℤ
minutes_after zero t = t
minutes_after (suc k) t = minutes_after k (t +ℤ pos 60_000)

add_minute-MinuteStart : (t : ℤ) → MinuteStart t → MinuteStart (t +ℤ pos 60_000)
add_minute-MinuteStart (pos n) (k, m, e) = (suc k, m, ground arith)
add_minute-MinuteStart (negsuc n) (k, m, e) = (suc k, m, ground arith)

-- A minute more, and less the seconds and the milliseconds.
truncated-MinuteStart :
    (t : ℤ) (x y : ℕ)
    → MinuteStart (t -ℤ pos (x + y))
    → MinuteStart (t +ℤ pos 60_000 -ℤ pos x -ℤ pos y)
truncated-MinuteStart (pos n) x y (k, m, e) = (suc k, m, ground arith)
truncated-MinuteStart (negsuc n) x y (k, m, e) = (suc k, m, ground arith)

minutes_after-MinuteStart : (k : ℕ) (t : ℤ) → MinuteStart t → MinuteStart (minutes_after k t)
minutes_after-MinuteStart zero t m = m
minutes_after-MinuteStart (suc k) t m =
    minutes_after-MinuteStart k (t +ℤ pos 60_000) (add_minute-MinuteStart t m)

module _ (calendar : Calendar) (s : CronSchedule) where
  -- `r` is the first of the times `t`, `t` and a minute, ... that matches, within `n` of them.
  abbrev pub FirstMatch : (n : ℕ) (t r : ℤ) → Type 0
  FirstMatch n t r =
      (k : ℕ) × (k < n)
      × (r ≡ minutes_after k t)
      × (matches_utc calendar s r ≡ true)
      × ((j : ℕ) → j < k → matches_utc calendar s (minutes_after j t) ≡ false)

  abbrev pub NoMatch : (n : ℕ) (t : ℤ) → Type 0
  NoMatch n t = (j : ℕ) → j < n → matches_utc calendar s (minutes_after j t) ≡ false

  first :
      (n : ℕ) (t : ℤ)
      → matches_utc calendar s t ≡ false
      → NoMatch n (t +ℤ pos 60_000)
      → NoMatch (suc n) t
  first n t e h zero l = e
  first n t e h (suc j) l = h j (omega arith)

  module _ (n : ℕ) (t : ℤ) where
    scan-match : matches_utc calendar s t ≡ true → scan calendar (suc n) s t ≡ some (some t)
    unfolding scan
    scan-match e = ground arith

    scan-next :
        matches_utc calendar s t ≡ false
        → calendar.in_range (t +ℤ pos 60_000) ≡ true
        → scan calendar (suc n) s t ≡ scan calendar n s (t +ℤ pos 60_000)
    unfolding scan
    scan-next e i = ground arith

    scan-panic :
        matches_utc calendar s t ≡ false
        → calendar.in_range (t +ℤ pos 60_000) ≡ false
        → scan calendar (suc n) s t ≡ none
    unfolding scan
    scan-panic e i = ground arith

  scan-found : (n : ℕ) (t r : ℤ) → scan calendar n s t ≡ some (some r) → FirstMatch n t r
  scan-found zero t r h = absurd (unfold scan in (cc))
  scan-found (suc n) t r h = elim (Bool-cases (matches_utc calendar s t)) [
    | inl e ↦
        let same : t ≡ r = cc (scan-match n t e) in (0, omega arith, cc, cc, λ j l. elim l [ ])
    | inr e ↦ elim (Bool-cases (calendar.in_range (t +ℤ pos 60_000))) [
      | inl i ↦
          let (k, l, q, m, before) = scan-found n (t +ℤ pos 60_000) r (cc (scan-next n t e i)) in
          (suc k, omega arith, q, m, first k t e before)
      | inr i ↦ absurd (cc (scan-panic n t e i))
    ]
  ]

  scan-none : (n : ℕ) (t : ℤ) → scan calendar n s t ≡ some none → NoMatch n t
  scan-none zero t h = λ j l. elim l [ ]
  scan-none (suc n) t h = elim (Bool-cases (matches_utc calendar s t)) [
    | inl e ↦ absurd (cc (scan-match n t e))
    | inr e ↦ elim (Bool-cases (calendar.in_range (t +ℤ pos 60_000))) [
      | inl i ↦ first n t e (scan-none n (t +ℤ pos 60_000) (cc (scan-next n t e i)))
      | inr i ↦ absurd (cc (scan-panic n t e i))
    ]
  ]

  scan_returns :
      (n : ℕ) (t : ℤ)
      → ((j : ℕ) → j ≤ n → calendar.in_range (minutes_after j t) ≡ true)
      → (found : Option ℤ) × (scan calendar n s t ≡ some found)
  scan_returns zero t h = (none, unfold scan in refl)
  scan_returns (suc n) t h = elim (Bool-cases (matches_utc calendar s t)) [
    | inl e ↦ (some t, scan-match n t e)
    | inr e ↦
        let (found, q) = scan_returns n (t +ℤ pos 60_000) (λ j l. h (suc j) (omega arith)) in
        (found, scan-next n t e (h 1 (omega arith)) ∙ q)
  ]

  minutes_after-le : (k : ℕ) (t : ℤ) → t ≤ℤ minutes_after k t
  minutes_after-le zero t = omega arith
  minutes_after-le (suc k) t = let rest = minutes_after-le k (t +ℤ pos 60_000) in ground arith

  module _ (laws : CalendarLaws calendar) (after : ℤ) where
    first_minute_bounds :
        (after <ℤ first_minute calendar after)
        × (first_minute calendar after ≤ℤ after +ℤ pos 60_000)
    first_minute_bounds =
        let ms = laws.millisecond_lt after in let sec = laws.second_lt after in ground arith

    first_minute-MinuteStart : MinuteStart (first_minute calendar after)
    first_minute-MinuteStart =
        truncated-MinuteStart after (calendar.second after * 1000) (calendar.millisecond after)
          (laws.minute_start after)

    next_tick-scan :
        (found : Option ℤ)
        → next_tick_ms calendar s after ≡ some found
        → calendar.in_range after ≡ true
        → scan calendar max_scan s (first_minute calendar after) ≡ some found
    unfolding next_tick_ms
    next_tick-scan found h i = ground arith

    next_tick-in_range :
        (r : ℤ) → next_tick_ms calendar s after ≡ some (some r) → calendar.in_range after ≡ true
    unfolding next_tick_ms
    next_tick-in_range r h = ground arith

    next_tick_runs :
        calendar.in_range after ≡ true
        → calendar.in_range (after +ℤ pos 60_000) ≡ true
        → next_tick_ms calendar s after ≡ scan calendar max_scan s (first_minute calendar after)
    unfolding next_tick_ms
    next_tick_runs i j = ground arith

    -- Where the seconds and milliseconds of a time lie below 60 and 1000, and without them it is the
    -- start of a minute: a tick that is found is the start of a minute and later than the given time,
    -- and it is the first of the minute starts after that time, within 2,628,000 of them, at which
    -- all five fields match; the first of these minute starts is at most a minute later than the
    -- given time. When none is found for a time in range, none
    -- of these minute starts matches. And the search does not panic when the times that it visits,
    -- and the given time with a minute, are in range.
    pub next_tick_lem :
        (MinuteStart (first_minute calendar after)
          × (after <ℤ first_minute calendar after)
          × (first_minute calendar after ≤ℤ after +ℤ pos 60_000))
        × ((r : ℤ)
            → next_tick_ms calendar s after ≡ some (some r)
            → MinuteStart r × (after <ℤ r) × FirstMatch max_scan (first_minute calendar after) r)
        × (calendar.in_range after ≡ true
            → next_tick_ms calendar s after ≡ some none
            → NoMatch max_scan (first_minute calendar after))
        × (calendar.in_range after ≡ true
            → calendar.in_range (after +ℤ pos 60_000) ≡ true
            → ((j : ℕ)
                → j ≤ max_scan
                → calendar.in_range (minutes_after j (first_minute calendar after)) ≡ true)
            → (found : Option ℤ) × (next_tick_ms calendar s after ≡ some found))
    next_tick_lem = (
      (first_minute-MinuteStart, first_minute_bounds.0, first_minute_bounds.1),
      λ r h.
          (let scanned = next_tick-scan (some r) h (next_tick-in_range r h) in
            let found = scan-found max_scan (first_minute calendar after) r scanned in
            (starts r found, past r found, found)),
      λ i h. scan-none max_scan (first_minute calendar after) (next_tick-scan none h i),
      λ i j all.
          (let (found, q) = scan_returns max_scan (first_minute calendar after) all in
            (found, next_tick_runs i j ∙ q)),
    )
      where
        starts : (r : ℤ) → FirstMatch max_scan (first_minute calendar after) r → MinuteStart r
        starts r (k, _, q, _, _) =
            rw q
              (minutes_after-MinuteStart k (first_minute calendar after) first_minute-MinuteStart)

        past : (r : ℤ) → FirstMatch max_scan (first_minute calendar after) r → after <ℤ r
        past r (k, _, q, _, _) =
            let lower = first_minute_bounds.0 in
            let upper = minutes_after-le k (first_minute calendar after) in rw q (omega arith)

module _ (calendar : Calendar) (laws : CalendarLaws calendar) {Json : Type 0} where
  -- A trigger that is advanced with a tick keeps the time at which it fired and the tick, and else
  -- stays as it was; the tick is later than that time, and matches the schedule of the trigger's
  -- expression. When the expression does not parse, the trigger stays as it was.
  pub advance_after_fire_lem :
      (trigger trigger' : ScheduledTrigger Json) (fired_at : ℤ)
      → ((tick : ℤ)
          → advance_after_fire calendar trigger fired_at ≡ some (ok (some tick), trigger')
          → (trigger' ≡ record trigger {
            last_triggered_at_ms = some fired_at;
            next_trigger_at_ms = some tick;
          })
            × (fired_at <ℤ tick)
            × (schedule : CronSchedule) × (parse trigger.cron_expr ≡ ok schedule)
            × (matches_utc calendar schedule tick ≡ true))
        × ((e : CronError)
            → advance_after_fire calendar trigger fired_at ≡ some (err e, trigger')
            → trigger' ≡ trigger)
  unfolding advance_after_fire
  advance_after_fire_lem trigger trigger' fired_at = elim (Result-cases (parse trigger.cron_expr)) [
    | inl (e, q) ↦ (λ tick h. absurd (ground (arith, q, h)), λ e' h. ground (arith, q, h))
    | inr (schedule, q) ↦ elim (Option-cases (next_tick_ms calendar schedule fired_at)) [
      | inl n ↦
          (λ tick h. absurd (ground (arith, q, n, h)), λ e' h. absurd (ground (arith, q, n, h)))
      | inr (next, n) ↦ (
        λ tick h.
            (let is_tick : next ≡ some tick = ground (arith, q, n, h) in
              let found =
                (next_tick_lem calendar schedule laws fired_at).1 tick (n ∙ ap some is_tick) in
              (ground (arith, q, n, h), found.1, schedule, q, found.2.3)),
        λ e' h. absurd (ground (arith, q, n, h)),
      )
    ]
  ]
