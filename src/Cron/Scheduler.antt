-- ===== src/Cron/Scheduler.antt =====
-- cron/cron.go: the scheduler. Tasks are objects of a heap, to which the map of names and the
-- goroutines hold pointers: a task that is removed or replaced while its handler runs stays there.
-- An event is what happens under one lock, or the end of a goroutine; `step` is `none` where the
-- event cannot happen. Contexts are numbered, and `generation` is the newest one. The goroutines
-- that a tick spawns stand in `jobs` from the tick on, which is when they are counted.
pub mod Guards
pub mod Invariant
pub mod Stopping
use xlgo_core.Base.{
  ℕ, zero, suc, ◌+◌, ◌-◌, List, [], ◌∷◌, ◌++◌, Bool, true, false, not, ◌&&◌, ◌||◌, Option, none,
  some, ltb, leb, ◌==◌, if◌then◌else◌, length, ◌≡◌,
}
use xlgo_core.Base.Text.{Text}
use xlgo_core.Base.Dict.{Dict, lookup, insert, delete}
use xlgo_core.Cron.Schedule.{Schedule, interval, daily, weekly, cron, full, next}

-- What a handler's run comes to, and the error that `executeTask` makes of it.
pub data Ending : Type 0 where
  succeeds : Ending
  fails panics : ℕ → Ending

pub data Fault : Type 0 where
  handler_error recovered : ℕ → Fault

unfoldable pub execute_task : Ending → Option Fault
execute_task succeeds = none
execute_task (fails code) = some (handler_error code)
execute_task (panics value) = some (recovered value)

pub record Task : Type 0 where
  pub name : Text
  pub schedule : Schedule
  pub enabled : Bool
  pub last_run : Option ℕ
  pub next_run : Option ℕ
  pub run_count : ℕ
  pub last_error : Option Fault
  pub running : Bool

pub record Scheduler : Type 0 where
  pub heap : List Task
  pub tasks : Dict ℕ
  pub jobs : List ℕ
  pub manual : List ℕ
  pub loops : List ℕ
  pub wg : ℕ
  pub running : Bool
  pub stopping : Bool
  pub generation : ℕ
  pub cancelled : Bool

unfoldable pub new_scheduler : Scheduler
new_scheduler = record {
  heap = [];
  tasks = [];
  jobs = [];
  manual = [];
  loops = [];
  wg = 0;
  running = false;
  stopping = false;
  generation = 0;
  cancelled = false;
}

abbrev pub get : List Task → ℕ → Option Task
get [] p = none
get (t ∷ h) zero = some t
get (t ∷ h) (suc p) = get h p

abbrev pub update : List Task → ℕ → (Task → Task) → List Task
update [] p f = []
update (t ∷ h) zero f = f t ∷ h
update (t ∷ h) (suc p) f = t ∷ update h p f

-- Takes one occurrence away: a goroutine that has ended.
abbrev pub remove_one : ℕ → List ℕ → List ℕ
remove_one p [] = []
remove_one p (q ∷ ps) = if p == q then ps else q ∷ remove_one p ps

abbrev pub mem : ℕ → List ℕ → Bool
mem p [] = false
mem p (q ∷ ps) = p == q || mem p ps

-- `validateSchedule`
unfoldable pub validate_schedule : Schedule → Bool
validate_schedule (interval i) = ltb 0 i
validate_schedule (daily h m) = leb h 23 && leb m 59
validate_schedule (weekly d h m) = leb d 6 && leb h 23 && leb m 59
validate_schedule (cron s) = true
validate_schedule (full s) = true

-- `AddTask`; a schedule that is refused, or a nil handler, panics before anything changes.
unfoldable pub add_task : Text → Schedule → Bool → ℕ → Scheduler → Scheduler
unfolding validate_schedule next insert
add_task name schedule has_handler now s =
    if has_handler && validate_schedule schedule
    then record s {
      heap =
          s.heap
          ++ record {
            name = name;
            schedule = schedule;
            enabled = true;
            last_run = none;
            next_run = next schedule now;
            run_count = 0;
            last_error = none;
            running = false;
          }
            ∷ [];
      tasks = insert name (length s.heap) s.tasks;
    }
    else s

unfoldable pub remove_task : Text → Scheduler → Scheduler
unfolding delete
remove_task name s = record s { tasks = delete name s.tasks }

-- The task of a name, if there is one, is changed; otherwise the call returns an error.
on_task : Text → (Task → Task) → Scheduler → Scheduler
unfolding lookup
on_task name f s = elim (lookup name s.tasks) [
  | none ↦ s
  | some p ↦ record s { heap = update s.heap p f }
]

unfoldable pub enable_task : Text → ℕ → Scheduler → Scheduler
unfolding on_task next
enable_task name now =
    on_task name (λ t. record t { enabled = true; next_run = next t.schedule now })

unfoldable pub disable_task : Text → Scheduler → Scheduler
unfolding on_task
disable_task name = on_task name (λ t. record t { enabled = false })

-- Whether a tick at `now` takes the task.
unfoldable pub due : ℕ → Task → Bool
due now t = t.enabled && (elim t.next_run [ none ↦ false | some at ↦ ltb at now ] && not t.running)

-- The guard is taken, and the next run counted from the one that is due.
unfoldable pub claim : Task → Task
unfolding next
claim t = record t {
  running = true;
  next_run = elim t.next_run [ none ↦ none | some at ↦ next t.schedule at ];
}

-- One round of the loop in `checkAndRun`, on the task that the pointer leads to.
take : ℕ → ℕ → Option Task → Scheduler → Scheduler
unfolding due claim
take now p none s = s
take now p (some t) s =
    if due now t
    then record s { heap = update s.heap p claim; jobs = p ∷ s.jobs; wg = suc s.wg }
    else s

unfoldable pub consider : ℕ → ℕ → Scheduler → Scheduler
unfolding take
consider now p s = take now p (get s.heap p) s

unfoldable pub consider_all : ℕ → Dict ℕ → Scheduler → Scheduler
consider_all now [] s = s
consider_all now ((name, p) ∷ tasks) s = consider_all now tasks (consider now p s)

-- Whether the context of a number is done.
abbrev pub done : Scheduler → ℕ → Bool
done s g = ltb g s.generation || s.cancelled

-- `checkAndRun` as the loop with the context `g` calls it.
unfoldable pub check_and_run : ℕ → ℕ → Scheduler → Scheduler
unfolding consider_all
check_and_run g now s = if not s.running || done s g then s else consider_all now s.tasks s

-- What a goroutine, or `RunTask`, writes when the handler has returned.
unfoldable pub finish : ℕ → Ending → Task → Task
unfolding execute_task
finish now ending t = record t {
  last_run = some now;
  run_count = suc t.run_count;
  last_error = execute_task ending;
  running = false;
}

-- `RunTask` from the guard to the handler: it returns an error where the task runs.
abbrev guard : Task → Task
guard t = record t { running = true }

enter : ℕ → Option Task → Scheduler → Scheduler
enter p none s = s
enter p (some t) s =
    if t.running then s else record s { heap = update s.heap p guard; manual = p ∷ s.manual }

unfoldable pub run_at : ℕ → Scheduler → Scheduler
unfolding enter
run_at p s = enter p (get s.heap p) s

-- `RunTask` up to the handler.
unfoldable pub run_task : Text → Scheduler → Scheduler
unfolding lookup run_at
run_task name s = elim (lookup name s.tasks) [ none ↦ s | some p ↦ run_at p s ]

-- `Start`: a scheduler that has been stopped gets a new context.
unfoldable pub start : Scheduler → Scheduler
start s =
    if s.running
    then s
    else let g = if s.cancelled then suc s.generation else s.generation in
      record s {
        generation = g;
        cancelled = false;
        running = true;
        wg = suc s.wg;
        loops = g ∷ s.loops;
      }

-- `StopWithTimeout` up to the wait.
unfoldable pub stop_begin : Scheduler → Scheduler
stop_begin s =
    if s.running then record s { running = false; cancelled = true; stopping = true } else s

pub data Event : Type 0 where
  adds : Text → Schedule → Bool → ℕ → Event
  removes disables runs : Text → Event
  enables : Text → ℕ → Event
  -- A `RunTask` that has looked its task up some time ago takes the guard.
  resumes : ℕ → Event
  starts stops : Event
  -- `Stop` returns: the wait is over, or the timeout has passed.
  stop_done stop_timeout : Event
  -- The loop with a context ticks at a time, or sees that its context is done.
  ticks : ℕ → ℕ → Event
  loop_exit : ℕ → Event
  -- A handler returns at a time.
  job_end manual_end : ℕ → ℕ → Ending → Event

abbrev pub when : Bool → Scheduler → Option Scheduler
when b s = if b then some s else none

unfoldable pub end_job : ℕ → ℕ → Ending → Scheduler → Scheduler
unfolding finish
end_job p now e s = record s {
  heap = update s.heap p (finish now e);
  jobs = remove_one p s.jobs;
  wg = s.wg - 1;
}

unfoldable pub end_manual : ℕ → ℕ → Ending → Scheduler → Scheduler
unfolding finish
end_manual p now e s = record s {
  heap = update s.heap p (finish now e);
  manual = remove_one p s.manual;
}

-- `lifecycleMu` is held from `stops` until the call returns.
unfoldable pub step : Event → Scheduler → Option Scheduler
step (adds name schedule has_handler now) s = some (add_task name schedule has_handler now s)
step (removes name) s = some (remove_task name s)
step (enables name now) s = some (enable_task name now s)
step (disables name) s = some (disable_task name s)
step (runs name) s = some (run_task name s)
step (resumes p) s = some (run_at p s)
step starts s = when (not s.stopping) (start s)
step stops s = when (not s.stopping) (stop_begin s)
step stop_done s = when (s.stopping && s.wg == 0) (record s { stopping = false })
step stop_timeout s = when s.stopping (record s { stopping = false })
step (ticks g now) s = when (mem g s.loops) (check_and_run g now s)
step (loop_exit g) s =
    when (mem g s.loops && done s g) (record s { loops = remove_one g s.loops; wg = s.wg - 1 })
step (job_end p now e) s = when (mem p s.jobs) (end_job p now e s)
step (manual_end p now e) s = when (mem p s.manual) (end_manual p now e s)

-- The states of a scheduler that was made by `NewScheduler`.
pub data Reachable : Scheduler → Type 0 where
  created : Reachable new_scheduler
  stepped : {s t : Scheduler} (e : Event) → Reachable s → step e s ≡ some t → Reachable t
