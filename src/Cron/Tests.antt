-- ===== src/Cron/Tests.antt =====
-- Runs of cron expressions, schedules and the scheduler at concrete inputs.
use xlgo_core.Base.{
  ℕ, ◌%◌, ◌≤◌, ◌<◌, ◌≡◌, refl, List, [], ◌∷◌, map, true, false, Option, none, some, arith, ◌↔◌, ok,
  any, inr, inl, subst, Option-cases,
}
use xlgo_core.Base.Text.{codes, join, fields}
use xlgo_core.Base.Dict.{lookup, insert}
use xlgo_core.Cron.Clock.{minute}
use xlgo_core.Cron.Expr.{
  FullCronSchedule, is_weekday, match_cron_item, match_field, validate_cron_item, parse_cron_range,
  parse_cron_strict, every_minute,
}
use xlgo_core.Cron.Expr.Fields.{IsValid, to_list, parse_cron_strict_iff, descending_never}
use xlgo_core.Cron.Expr.Meaning.{value, span, every_in, print, denotes}
use xlgo_core.Cron.Expr.Printed.{match_field-printed}
use xlgo_core.Cron.Schedule.{next_full, max_attempts, next_minute, match_full, interval}
use xlgo_core.Cron.Schedule.Search.{search_never, next_full_first, next_full-none}
use xlgo_core.Cron.Scheduler.{
  Scheduler, Task, Event, recovered, panics, add_task, end_job, Reachable, created, stepped, step,
  adds, starts, ticks, stops, loop_exit, job_end, new_scheduler, start, stop_begin, consider,
  check_and_run,
}
use xlgo_core.Cron.Scheduler.Invariant.{executions, Reachable-exclusive, stop_done-quiet}
use xlgo_core.Cron.Scheduler.Stopping.{live_loops, Reachable-live_loops}

-- The opened definitions.
expressions : Unit {0}
unfolding match_cron_item match_field validate_cron_item parse_cron_range parse_cron_strict
    is_weekday
expressions = tt

match_tests :
    (match_field (codes "1-5,8") 8 0 59 ≡ true)
    × (match_field (codes "1-5,8") 7 0 59 ≡ false)
    × (match_field (codes "*/15") 45 0 59 ≡ true)
    × (match_field (codes "6-1") 0 0 6 ≡ true)
    × (match_field (codes "7") 0 0 6 ≡ true)
    × (match_field (codes "garbage") 0 0 59 ≡ false)
    × (match_field (codes "6-1/2") 6 0 6 ≡ false)
unfolding expressions
match_tests = (refl, refl, refl, refl, refl, refl, refl)

abbrev noon : FullCronSchedule
noon = record {
  minute = codes "0";
  hour = codes "12";
  day = codes "*";
  month = codes "*";
  weekday = codes "1-5";
}

parse_noon : parse_cron_strict (codes " 0 12 * *  1-5 ") ≡ ok noon
unfolding expressions
parse_noon = refl

parse_cron_strict_iff_example :
    (parse_cron_strict (codes "0 12 * * 1-5") ≡ ok noon)
    ↔ ((fields (codes "0 12 * * 1-5") ≡ to_list noon) × IsValid noon)
parse_cron_strict_iff_example = parse_cron_strict_iff (codes "0 12 * * 1-5") noon

descending_never_example :
    (validate_cron_item (print (every_in 6 1 2)) 0 6 ≡ ok tt)
    × ((v : ℕ) → match_cron_item (print (every_in 6 1 2)) v 0 6 ≡ false)
descending_never_example =
    descending_never 0 6 (every_in 6 1 2) (omega arith) (omega arith) (omega arith)

match_field-printed_example :
    match_field
      (join (b',' ∷ []) (map print (value 3 ∷ span 10 20 ∷ every_in 30 50 10 ∷ [])))
      50
      0
      59
    ≡ any (λ i. denotes 0 59 i 50) (value 3 ∷ span 10 20 ∷ every_in 30 50 10 ∷ [])
match_field-printed_example =
    match_field-printed 0 59 50 (value 3) (span 10 20 ∷ every_in 30 50 10 ∷ []) (omega arith)
      (omega arith) (tt, (tt, (inr (omega arith), tt)))

-- 29 February 2024 at 13:45 and ten seconds
abbrev moment : ℕ
moment = 1709214310000000000

next_full_noon : next_full every_minute moment ≡ some 1709214360000000000
unfolding next_full expressions
next_full_noon = refl

next_full_first_example :
    (match_full every_minute 1709214360000000000 ≡ true)
    × (1709214360000000000 % minute ≡ 0)
    × (moment < 1709214360000000000)
    × ((w : ℕ)
        → w % minute ≡ 0
        → moment < w
        → w < 1709214360000000000
        → match_full every_minute w ≡ false)
next_full_first_example = next_full_first every_minute moment 1709214360000000000 next_full_noon

-- There is no minute 61.
abbrev no_minute : FullCronSchedule
no_minute = record every_minute { minute = codes "61" }

no_minute_never : (x : ℕ) → match_full no_minute x ≡ false
unfolding match_full expressions
no_minute_never x = refl

next_full-no_minute : next_full no_minute moment ≡ none
unfolding next_full
next_full-no_minute =
    search_never (match_full no_minute) max_attempts (next_minute moment) no_minute_never

next_full-none_example : match_full no_minute 1709214360000000000 ≡ false
next_full-none_example =
    next_full-none no_minute moment 1709214360000000000 next_full-no_minute (omega arith)
      (omega arith) (omega arith)

run_from : List Event → Scheduler → Option Scheduler
run_from [] s = some s
run_from (e ∷ es) s = elim (step e s) [ none ↦ none | some t ↦ run_from es t ]

run_from-Reachable :
    (es : List Event) (s t : Scheduler) → run_from es s ≡ some t → Reachable s → Reachable t
unfolding run_from
run_from-Reachable [] s t e r = subst Reachable (ground arith) r
run_from-Reachable (e ∷ es) s t h r = elim (Option-cases (step e s)) [
  | inl no' ↦ cc (rw (no', run_from) at h)
  | inr (u, yes') ↦ run_from-Reachable es u t (rw (yes', run_from) at h) (stepped e r yes')
]

-- A task every ten units of time, added at 0, that the tick at 15 takes and `Stop` waits for.
abbrev task : Task
task = record {
  name = codes "report";
  schedule = interval 10;
  enabled = true;
  last_run = none;
  next_run = some 20;
  run_count = 0;
  last_error = none;
  running = true;
}

abbrev busy : Scheduler
busy = record {
  heap = task ∷ [];
  tasks = (codes "report", 0) ∷ [];
  jobs = 0 ∷ [];
  manual = [];
  loops = 0 ∷ [];
  wg = 2;
  running = true;
  stopping = false;
  generation = 0;
  cancelled = false;
}

busy-Reachable : Reachable busy
unfolding run_from step new_scheduler add_task start check_and_run consider lookup insert
busy-Reachable =
    run_from-Reachable
      (adds (codes "report") (interval 10) true 0 ∷ starts ∷ ticks 0 15 ∷ ticks 0 26 ∷ [])
      new_scheduler busy refl created

abbrev finished : Scheduler
finished = record busy {
  heap =
      record task {
        last_run = some 30;
        run_count = 1;
        last_error = some (recovered 7);
        running = false;
      }
      ∷ [];
  jobs = [];
  loops = [];
  wg = 0;
  running = false;
  stopping = true;
  cancelled = true;
}

finished-Reachable : Reachable finished
unfolding run_from step stop_begin end_job
finished-Reachable =
    run_from-Reachable (stops ∷ loop_exit 0 ∷ job_end 0 30 (panics 7) ∷ []) busy finished refl
      busy-Reachable

Reachable-exclusive_example : executions busy 0 ≤ 1
Reachable-exclusive_example = Reachable-exclusive 0 busy-Reachable

Reachable-live_loops_example : live_loops busy ≡ 1
Reachable-live_loops_example = Reachable-live_loops busy-Reachable

stop_done-quiet_example : (finished.loops ≡ []) × (finished.jobs ≡ [])
unfolding step
stop_done-quiet_example =
    stop_done-quiet {t = record finished { stopping = false }} finished-Reachable refl
