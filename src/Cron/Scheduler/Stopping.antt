-- ===== src/Cron/Scheduler/Stopping.antt =====
-- cron/cron.go: one scheduling loop at a time, however `Start` and `Stop` follow each other.
use xlgo_core.Base.{
  ℕ, suc, ◌-◌, ◌<◌, ◌≡◌, refl, sym, ◌∙◌, subst, [], ◌∷◌, Bool, true, false, not, ◌||◌, Option, none,
  some, if◌then◌else◌, arith, Bool-cases, Option-cases, inl, inr, &&_iff, ◌⊎◌,
}
use xlgo_core.Base.Text.{Text}
use xlgo_core.Base.Dict.{Dict, lookup}
use xlgo_core.Cron.Schedule.{Schedule}
use xlgo_core.Cron.Scheduler.{
  Task, Scheduler, new_scheduler, get, remove_one, mem, add_task, remove_task, on_task, enable_task,
  disable_task, take, enter, consider, consider_all, done, check_and_run, run_at, run_task, start,
  stop_begin, when, Event, adds, removes, disables, runs, enables, resumes, starts, stops,
  stop_done, stop_timeout, ticks, loop_exit, job_end, manual_end, end_job, end_manual, step,
  Reachable, created, stepped,
}
use xlgo_core.Cron.Scheduler.Guards.{count, count-remove_one}

-- The loops whose context is not done: those of the newest one, unless it is cancelled.
abbrev pub live_loops : Scheduler → ℕ
live_loops s = if s.cancelled then 0 else count s.generation s.loops

record Live (s : Scheduler) : Type 0 where
  one : live_loops s ≡ (if s.running then 1 else 0)
  known : (g : ℕ) → s.generation < g → count g s.loops ≡ 0

-- What the loops depend on is left alone.
abbrev SameLoops : Scheduler → Scheduler → Type 0
SameLoops s t =
    (s.loops ≡ t.loops)
    × (s.running ≡ t.running)
    × (s.generation ≡ t.generation)
    × (s.cancelled ≡ t.cancelled)

SameLoops-Live : (s t : Scheduler) → SameLoops s t → Live s → Live t
SameLoops-Live s t (a, b, c, d) v = record {
  one = rw (← a, ← b, ← c, ← d) v.one;
  known = λ g h. rw (← a) (v.known g (rw c h));
}

SameLoops-trans : (s t u : Scheduler) → SameLoops s t → SameLoops t u → SameLoops s u
SameLoops-trans s t u (a, b, c, d) (a', b', c', d') = (a ∙ a', b ∙ b', c ∙ c', d ∙ d')

if-SameLoops :
    (b : Bool) (s t u : Scheduler)
    → SameLoops s t
    → SameLoops s u
    → SameLoops s (if b then t else u)
if-SameLoops true s t u h k = h
if-SameLoops false s t u h k = k

same : (s : Scheduler) → SameLoops s s
same s = (refl, refl, refl, refl)

take-SameLoops : (now p : ℕ) (o : Option Task) (s : Scheduler) → SameLoops s (take now p o s)
unfolding take
take-SameLoops now p none s = same s
take-SameLoops now p (some t) s = if-SameLoops _ s _ _ (same s) (same s)

consider_all-SameLoops :
    (now : ℕ) (tasks : Dict ℕ) (s : Scheduler) → SameLoops s (consider_all now tasks s)
unfolding consider_all consider
consider_all-SameLoops now [] s = same s
consider_all-SameLoops now ((name, p) ∷ tasks) s =
    SameLoops-trans s (consider now p s) (consider_all now tasks (consider now p s))
      (take-SameLoops now p (get s.heap p) s) (consider_all-SameLoops now tasks (consider now p s))

enter-SameLoops : (p : ℕ) (o : Option Task) (s : Scheduler) → SameLoops s (enter p o s)
unfolding enter
enter-SameLoops p none s = same s
enter-SameLoops p (some t) s = if-SameLoops t.running s _ _ (same s) (same s)

run_task-SameLoops : (name : Text) (s : Scheduler) → SameLoops s (run_task name s)
unfolding run_task run_at
run_task-SameLoops name s = elim (Option-cases (lookup name s.tasks)) [
  | inl e ↦ rw (e, run_task) (same s)
  | inr (p, e) ↦ rw (e, run_task) (enter-SameLoops p (get s.heap p) s)
]

on_task-SameLoops : (name : Text) (f : Task → Task) (s : Scheduler) → SameLoops s (on_task name f s)
unfolding on_task
on_task-SameLoops name f s = elim (Option-cases (lookup name s.tasks)) [
  | inl e ↦ rw (e, on_task) (same s)
  | inr (p, e) ↦ rw (e, on_task) (same s)
]

check_and_run-SameLoops : (g now : ℕ) (s : Scheduler) → SameLoops s (check_and_run g now s)
unfolding check_and_run
check_and_run-SameLoops g now s =
    if-SameLoops _ s _ _ (same s) (consider_all-SameLoops now s.tasks s)

add_task-SameLoops :
    (name : Text) (sched : Schedule) (has_handler : Bool) (now : ℕ) (s : Scheduler)
    → SameLoops s (add_task name sched has_handler now s)
unfolding add_task
add_task-SameLoops name sched has_handler now s = if-SameLoops _ s _ _ (same s) (same s)

if-Live : (b : Bool) (s t : Scheduler) → Live s → Live t → Live (if b then s else t)
if-Live true s t v w = v
if-Live false s t v w = w

start-Live : (s : Scheduler) → Live s → Live (start s)
unfolding start
start-Live s v = elim (Bool-cases s.running) [
  | inl up ↦ subst Live (ground arith) v
  | inr down ↦ subst Live {x = begun} (ground arith) (begun-Live down)
]
  where
    g : ℕ
    g = if s.cancelled then suc s.generation else s.generation

    begun : Scheduler
    begun = record s {
      generation = g;
      cancelled = false;
      running = true;
      wg = suc s.wg;
      loops = g ∷ s.loops;
    }

    begun-Live : s.running ≡ false → Live begun
    begun-Live down = record {
      one = ground (arith, v.one, v.known (suc s.generation));
      known = λ k h. ground (arith, v.known k);
    }

stop_begin-Live : (s : Scheduler) → Live s → Live (stop_begin s)
unfolding stop_begin
stop_begin-Live s v = if-Live s.running _ _ (record { one = refl; known = v.known }) v

exit-Live :
    (g : ℕ) (s : Scheduler)
    → mem g s.loops ≡ true
    → done s g ≡ true
    → Live s
    → Live (record s { loops = remove_one g s.loops; wg = s.wg - 1 })
exit-Live g s m d v = record {
  one = ground (arith, v.one, count-remove_one g s.generation s.loops m);
  known = λ k h. omega (arith, v.known k h, count-remove_one g k s.loops m);
}

when-Live : (b : Bool) (s t : Scheduler) → when b s ≡ some t → (b ≡ true → Live s) → Live t
when-Live true s t e v = subst Live (ground arith) (v refl)
when-Live false s t e v = cc

some-Live : (s t u : Scheduler) → some t ≡ some u → SameLoops s t → Live s → Live u
some-Live s t u e k v = subst Live {x = t} (ground arith) (SameLoops-Live s t k v)

step-Live : (e : Event) (s t : Scheduler) → step e s ≡ some t → Live s → Live t
unfolding step remove_task enable_task disable_task run_at end_job end_manual
step-Live (adds name sched h now) s t e v =
    some-Live s _ t e (add_task-SameLoops name sched h now s) v
step-Live (removes name) s t e v = some-Live s _ t e (same s) v
step-Live (enables name now) s t e v = some-Live s _ t e (on_task-SameLoops name _ s) v
step-Live (disables name) s t e v = some-Live s _ t e (on_task-SameLoops name _ s) v
step-Live (runs name) s t e v = some-Live s _ t e (run_task-SameLoops name s) v
step-Live (resumes p) s t e v = some-Live s _ t e (enter-SameLoops p (get s.heap p) s) v
step-Live starts s t e v = when-Live _ _ t e (λ _. start-Live s v)
step-Live stops s t e v = when-Live _ _ t e (λ _. stop_begin-Live s v)
step-Live stop_done s t e v = when-Live _ _ t e (λ _. SameLoops-Live s _ (same s) v)
step-Live stop_timeout s t e v = when-Live _ _ t e (λ _. SameLoops-Live s _ (same s) v)
step-Live (ticks g now) s t e v =
    when-Live _ _ t e (λ _. SameLoops-Live s _ (check_and_run-SameLoops g now s) v)
step-Live (loop_exit g) s t e v =
    when-Live _ _ t e
      λ can. let (m, d) = (&&_iff (mem g s.loops) (done s g)).0 can in exit-Live g s m d v
step-Live (job_end p now ending) s t e v = when-Live _ _ t e (λ _. SameLoops-Live s _ (same s) v)
step-Live (manual_end p now ending) s t e v = when-Live _ _ t e (λ _. SameLoops-Live s _ (same s) v)

Reachable-Live : {s : Scheduler} → Reachable s → Live s
unfolding new_scheduler
Reachable-Live created = record { one = refl; known = λ g h. refl }
Reachable-Live (stepped {s} {t} e r h) = step-Live e s t h (Reachable-Live r)

-- However `Start`, `Stop` and timeouts follow each other, a running scheduler has exactly one
-- scheduling loop whose context is not done, and one that does not run has none.
pub Reachable-live_loops :
    {s : Scheduler} → Reachable s → live_loops s ≡ (if s.running then 1 else 0)
Reachable-live_loops r = (Reachable-Live r).one

-- A tick takes no task once `Stop` has begun, nor does a tick of a loop whose context is done.
pub check_and_run-stopped :
    (g now : ℕ) (s : Scheduler)
    → ((s.running ≡ false) ⊎ (done s g ≡ true))
    → check_and_run g now s ≡ s
unfolding check_and_run
check_and_run-stopped g now s (inl e) =
    subst (λ b. (if not b || done s g then s else consider_all now s.tasks s) ≡ s) (sym e) refl
check_and_run-stopped g now s (inr e) = ground arith
