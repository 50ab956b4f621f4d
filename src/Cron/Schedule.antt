-- ===== src/Cron/Schedule.antt =====
-- cron/cron.go: the schedules and their `Next`.
pub mod Search
pub mod Next
use xlgo_core.Base.{
  ℕ, zero, suc, ◌+◌, ◌-◌, ◌*◌, ◌/◌, ◌%◌, List, [], ◌∷◌, Bool, true, false, ◌&&◌, ◌||◌, Option, none,
  some, leb, ltb, ◌==◌, if◌then◌else◌, Result, ok, err, any,
}
use xlgo_core.Base.Text.{Text, codes, text_eq, split_on, trim_space}
use xlgo_core.Base.Int.{ℤ, pos, pos_part, leb_ℤ, ltb_ℤ}
use xlgo_core.Base.Atoi.{atoi}
use xlgo_core.Cron.Clock.{minute, day, minute_of, hour_of, weekday_of, day_of, month_of, date_at}
use xlgo_core.Cron.Expr.{FullCronSchedule, match_field}

-- `Minute` and `Hour` of a simplified cron schedule: the star, or a list of numbers.
pub record CronSchedule : Type 0 where
  pub minutes : Text
  pub hours : Text

pub data Schedule : Type 0 where
  interval : ℕ → Schedule
  daily : (hour minute : ℕ) → Schedule
  weekly : (weekday hour minute : ℕ) → Schedule
  cron : CronSchedule → Schedule
  full : FullCronSchedule → Schedule

-- `splitPattern`: what is no number is skipped.
with_number : Option ℤ → List ℤ → List ℤ
with_number none vs = vs
with_number (some v) vs = v ∷ vs

numbers : List Text → List ℤ
unfolding atoi trim_space with_number
numbers [] = []
numbers (p ∷ ps) = with_number (atoi (trim_space p)) (numbers ps)

unfoldable pub split_pattern : Text → List ℤ
unfolding numbers split_on
split_pattern pattern' = numbers (split_on b',' pattern')

abbrev is_number : ℕ → ℤ → Bool
is_number value v = leb_ℤ v (pos value) && leb_ℤ (pos value) v

unfoldable pub match_value : Text → ℕ → Bool
unfolding split_pattern
match_value pattern' value = any (is_number value) (split_pattern pattern')

unfoldable pub match_cron : CronSchedule → ℕ → Bool
unfolding match_value text_eq
match_cron s t =
    (text_eq s.minutes (codes "*") || match_value s.minutes (minute_of t))
    && (text_eq s.hours (codes "*") || match_value s.hours (hour_of t))

-- `(*FullCronSchedule).match`
unfoldable pub match_full : FullCronSchedule → ℕ → Bool
unfolding match_field day_of month_of
match_full s t =
    match_field s.minute (minute_of t) 0 59
    && (match_field s.hour (hour_of t) 0 23
        && (match_field s.day (day_of t) 1 31
            && (match_field s.month (month_of t) 1 12 && match_field s.weekday (weekday_of t) 0 6)))

-- The loops of the cron schedules: the first of so many minutes, from one on, that passes a test.
unfoldable pub search_minutes : (ℕ → Bool) → ℕ → ℕ → Option ℕ
search_minutes test zero t = none
search_minutes test (suc rounds) t = elim (test t) [
  | true ↦ some t
  | false ↦ search_minutes test rounds (t + minute)
]

abbrev pub max_attempts : ℕ
max_attempts = 366 * 24 * 60

abbrev pub next_minute : ℕ → ℕ
next_minute now = (now + minute) / minute * minute

unfoldable pub next_full : FullCronSchedule → ℕ → Option ℕ
unfolding search_minutes match_full
next_full s now = search_minutes (match_full s) max_attempts (next_minute now)

unfoldable pub next_cron : CronSchedule → ℕ → Option ℕ
unfolding search_minutes match_cron
next_cron s now = search_minutes (match_cron s) (60 * 24) (now + minute)

unfoldable pub next_daily : ℕ → ℕ → ℕ → ℕ
next_daily hour min now =
    let next = date_at now hour min in if leb next now then next + day else next

unfoldable pub next_weekly : ℕ → ℕ → ℕ → ℕ → ℕ
next_weekly weekday hour min now =
    let days_until = (weekday + 7 - weekday_of now) % 7 in
    let next = date_at now hour min + days_until * day in
    if leb next now then next + 7 * day else next

unfoldable pub next : Schedule → ℕ → Option ℕ
unfolding next_daily next_weekly next_cron next_full
next (interval i) now = some (now + i)
next (daily h m) now = some (next_daily h m now)
next (weekly d h m) now = some (next_weekly d h m now)
next (cron s) now = next_cron s now
next (full s) now = next_full s now

-- The panics of `validateSchedule` and of the constructors.
pub data Invalid : Type 0 where
  interval_not_positive hour_out_of_range minute_out_of_range weekday_out_of_range : Invalid

unfoldable pub validate_interval : ℤ → Result Invalid ℕ
validate_interval i = if leb_ℤ i (pos 0) then err interval_not_positive else ok (pos_part i)

unfoldable pub validate_clock : ℤ → ℤ → Result Invalid (ℕ × ℕ)
validate_clock h m =
    if ltb_ℤ h (pos 0) || ltb_ℤ (pos 23) h
    then err hour_out_of_range
    else if ltb_ℤ m (pos 0) || ltb_ℤ (pos 59) m
    then err minute_out_of_range
    else ok (pos_part h, pos_part m)

unfoldable pub validate_weekday : ℤ → Result Invalid ℕ
validate_weekday d =
    if ltb_ℤ d (pos 0) || ltb_ℤ (pos 6) d then err weekday_out_of_range else ok (pos_part d)

unfoldable pub every : ℤ → Result Invalid Schedule
unfolding validate_interval
every i = elim (validate_interval i) [ err e ↦ err e | ok n ↦ ok (interval n) ]

unfoldable pub make_daily : ℤ → ℤ → Result Invalid Schedule
unfolding validate_clock
make_daily h m = elim (validate_clock h m) [ err e ↦ err e | ok (a, b) ↦ ok (daily a b) ]

unfoldable pub make_weekly : ℤ → ℤ → ℤ → Result Invalid Schedule
unfolding validate_weekday make_daily validate_clock
make_weekly d h m = elim (validate_weekday d) [
  | err e ↦ err e
  | ok w ↦ elim (validate_clock h m) [ err e ↦ err e | ok (a, b) ↦ ok (weekly w a b) ]
]
