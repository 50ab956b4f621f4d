-- ===== src/Cron/Clock.antt =====
-- The parts of a Go `time.Time` that cron/cron.go reads, in UTC: an instant is its nanoseconds
-- since the start of 1970, and `none` stands for the zero time.
use xlgo_core.Base.{ℕ, ◌+◌, ◌-◌, ◌*◌, ◌/◌, ◌%◌, ◌≡◌, refl, ltb, if◌then◌else◌}

abbrev pub minute : ℕ
minute = 60000000000

abbrev pub day : ℕ
day = 86400000000000

abbrev pub minute_of : ℕ → ℕ
minute_of t = t / minute % 60

abbrev pub hour_of : ℕ → ℕ
hour_of t = t / (60 * minute) % 24

-- The first of January 1970 was a Thursday; Sunday is 0.
abbrev pub weekday_of : ℕ → ℕ
weekday_of t = (t / day + 4) % 7

-- The Gregorian calendar, in years that begin in March and eras of 400 of them.
day_of_era : ℕ → ℕ
day_of_era t = (t / day + 719468) % 146097

year_of_era : ℕ → ℕ
year_of_era doe = (doe - doe / 1460 + doe / 36524 - doe / 146096) / 365

day_of_year : ℕ → ℕ
unfolding day_of_era year_of_era
day_of_year t =
    let doe = day_of_era t in let yoe = year_of_era doe in doe - (365 * yoe + yoe / 4 - yoe / 100)

unfoldable pub month_of : ℕ → ℕ
unfolding day_of_year
month_of t = let mp = (5 * day_of_year t + 2) / 153 in if ltb mp 10 then mp + 3 else mp - 9

unfoldable pub day_of : ℕ → ℕ
unfolding day_of_year
day_of t = let doy = day_of_year t in let mp = (5 * doy + 2) / 153 in doy - (153 * mp + 2) / 5 + 1

-- 29 February 2024, a Thursday, at 13:45
leap_day :
    (month_of 1709214300000000000 ≡ 2)
    × (day_of 1709214300000000000 ≡ 29)
    × (weekday_of 1709214300000000000 ≡ 4)
    × (hour_of 1709214300000000000 ≡ 13)
    × (minute_of 1709214300000000000 ≡ 45)
unfolding month_of day_of
leap_day = (refl, refl, refl, refl, refl)

-- `time.Date` on the day of an instant, at an hour and a minute
abbrev pub date_at : ℕ → ℕ → ℕ → ℕ
date_at now hour min = now / day * day + (hour * 60 + min) * minute
