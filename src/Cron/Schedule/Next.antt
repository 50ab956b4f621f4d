-- ===== src/Cron/Schedule/Next.antt =====
-- cron/cron.go: daily and weekly schedules fire next at their time, and not later than one period.
use xlgo_core.Base.{
  ℕ, ◌+◌, ◌-◌, ◌*◌, ◌/◌, ◌%◌, ◌≤◌, ◌<◌, ◌≡◌, arith, leb, Bool-cases, inl, inr, leb→le, leb-false→lt,
}
use xlgo_core.Cron.Clock.{minute, day, minute_of, hour_of, weekday_of, date_at}
use xlgo_core.Cron.Schedule.{next_daily, next_weekly}

-- The instant of a day at an hour and a minute has that hour, minute and day of the week.
date_at-parts :
    (days h m : ℕ)
    → h < 24
    → m < 60
    → (hour_of (days * day + (h * 60 + m) * minute) ≡ h)
      × (minute_of (days * day + (h * 60 + m) * minute) ≡ m)
      × (weekday_of (days * day + (h * 60 + m) * minute) ≡ (days + 4) % 7)
date_at-parts days h m p q = (omega arith, omega arith, omega arith)

-- A daily schedule fires at its hour and minute, after `now` and within a day.
pub next_daily_lem :
    (h m now : ℕ)
    → h < 24
    → m < 60
    → (now < next_daily h m now)
      × (next_daily h m now ≤ now + day)
      × (hour_of (next_daily h m now) ≡ h)
      × (minute_of (next_daily h m now) ≡ m)
unfolding next_daily
next_daily_lem h m now p q = elim (Bool-cases (leb (date_at now h m) now)) [
  | inl past ↦
      rw past
        (omega (arith, leb→le _ _ past), omega (arith, leb→le _ _ past), omega arith, omega arith)
  | inr ahead ↦
      rw ahead (omega (arith, leb-false→lt _ _ ahead), omega arith, omega arith, omega arith)
]

-- The day that a weekly schedule lands on.
weekly-day :
    (weekday days : ℕ) → weekday < 7 → (days + (weekday + 7 - (days + 4) % 7) % 7 + 4) % 7 ≡ weekday
weekly-day weekday days h = omega arith

-- A weekly schedule fires on its day of the week at its hour and minute, after `now` and within
-- seven days.
pub next_weekly_lem :
    (d h m now : ℕ)
    → d < 7
    → h < 24
    → m < 60
    → (now < next_weekly d h m now)
      × (next_weekly d h m now ≤ now + 7 * day)
      × (weekday_of (next_weekly d h m now) ≡ d)
      × (hour_of (next_weekly d h m now) ≡ h)
      × (minute_of (next_weekly d h m now) ≡ m)
unfolding next_weekly
next_weekly_lem d h m now k p q = elim (Bool-cases (leb (date_at now h m + wait * day) now)) [
  | inl past ↦ rw past (
    omega (arith, leb→le _ _ past),
    omega (arith, leb→le _ _ past),
    omega (arith, lands),
    omega arith,
    omega arith,
  )
  | inr ahead ↦ rw ahead (
    omega (arith, leb-false→lt _ _ ahead),
    omega arith,
    omega (arith, lands),
    omega arith,
    omega arith,
  )
]
  where
    wait : ℕ
    wait = (d + 7 - weekday_of now) % 7

    lands : (now / day + wait + 4) % 7 ≡ d
    lands = weekly-day d (now / day) k
