-- ===== src/Cron/Scheduler/Invariant.antt =====
-- cron/cron.go: no handler of a task overlaps another one of that task, and the wait group counts
-- the goroutines.
use xlgo_core.Base.{
  ℕ, ◌+◌, ◌≤◌, ◌≡◌, refl, sym, ◌∙◌, subst, List, [], ◌∷◌, Bool, true, false, not, ◌&&◌, ◌||◌,
  Option, none, some, ◌==◌, if◌then◌else◌, length, arith, Bool-cases, Option-cases, inl, inr,
  &&_iff, ==_iff,
}
use xlgo_core.Base.Text.{Text}
use xlgo_core.Base.Dict.{Dict, lookup}
use xlgo_core.Cron.Schedule.{Schedule}
use xlgo_core.Cron.Scheduler.{
  Task, Scheduler, new_scheduler, get, mem, add_task, remove_task, on_task, enable_task,
  disable_task, due, claim, take, enter, guard, Ending, consider, consider_all, done, check_and_run,
  finish, run_at, run_task, start, stop_begin, validate_schedule, when, Event, adds, removes,
  disables, runs, enables, resumes, starts, stops, stop_done, stop_timeout, ticks, loop_exit,
  job_end, manual_end, end_job, end_manual, step, Reachable, created, stepped,
}
use xlgo_core.Cron.Scheduler.Guards.{
  count, guarded, guarded-le, guarded-update_same, guarded-update_set, guarded_of_get,
  get_of_guarded, guarded-append, count-remove_one, length-remove_one, count_of_mem,
}

-- The handlers of an object that run now, spawned by a tick or called by `RunTask`.
abbrev pub executions : Scheduler → ℕ → ℕ
executions s p = count p s.jobs + count p s.manual

pub record Inv (s : Scheduler) : Type 0 where
  pub exclusive : (p : ℕ) → executions s p ≡ guarded s.heap p
  pub counted : s.wg ≡ length s.loops + length s.jobs

take-Inv :
    (now p : ℕ) (o : Option Task) (s : Scheduler) → get s.heap p ≡ o → Inv s → Inv (take now p o s)
unfolding take due claim
take-Inv now p none s e v = v
take-Inv now p (some t) s e v = elim (Bool-cases (due now t)) [
  | inl yes' ↦ rw yes' (record {
    exclusive = λ q. ground (
      arith,
      v.exclusive q,
      guarded-update_set claim true (λ u. refl) s.heap p q e,
      guarded_of_get s.heap p t e,
    );
    counted = omega (arith, v.counted);
  })
  | inr no' ↦ rw no' v
]

consider-Inv : (now p : ℕ) (s : Scheduler) → Inv s → Inv (consider now p s)
unfolding consider
consider-Inv now p s v = take-Inv now p (get s.heap p) s refl v

consider_all-Inv :
    (now : ℕ) (tasks : Dict ℕ) (s : Scheduler) → Inv s → Inv (consider_all now tasks s)
unfolding consider_all
consider_all-Inv now [] s v = v
consider_all-Inv now ((name, p) ∷ tasks) s v =
    consider_all-Inv now tasks (consider now p s) (consider-Inv now p s v)

check_and_run-Inv : (g now : ℕ) (s : Scheduler) → Inv s → Inv (check_and_run g now s)
unfolding check_and_run
check_and_run-Inv g now s v = elim (Bool-cases (not s.running || done s g)) [
  | inl idle ↦ rw idle v
  | inr busy ↦ rw busy (consider_all-Inv now s.tasks s v)
]

enter-Inv : (p : ℕ) (o : Option Task) (s : Scheduler) → get s.heap p ≡ o → Inv s → Inv (enter p o s)
unfolding enter
enter-Inv p none s e v = v
enter-Inv p (some t) s e v = elim (Bool-cases t.running) [
  | inl busy ↦ rw busy v
  | inr free ↦ rw free (record {
    exclusive = λ q. ground (
      arith,
      v.exclusive q,
      guarded-update_set guard true (λ u. refl) s.heap p q e,
      guarded_of_get s.heap p t e,
    );
    counted = v.counted;
  })
]

run_at-Inv : (p : ℕ) (s : Scheduler) → Inv s → Inv (run_at p s)
unfolding run_at
run_at-Inv p s v = enter-Inv p (get s.heap p) s refl v

run_task-Inv : (name : Text) (s : Scheduler) → Inv s → Inv (run_task name s)
unfolding run_task
run_task-Inv name s v = elim (Option-cases (lookup name s.tasks)) [
  | inl e ↦ rw (e, run_task) v
  | inr (p, e) ↦ rw (e, run_task) (run_at-Inv p s v)
]

-- A change of a task that leaves its guard alone.
on_task-Inv :
    (name : Text) (f : Task → Task) (s : Scheduler)
    → ((t : Task) → (f t).running ≡ t.running)
    → Inv s
    → Inv (on_task name f s)
unfolding on_task
on_task-Inv name f s same v = elim (Option-cases (lookup name s.tasks)) [
  | inl e ↦ rw (e, on_task) v
  | inr (p, e) ↦
      rw (e, on_task)
        (record {
          exclusive = λ q. v.exclusive q ∙ sym (guarded-update_same f same s.heap p q);
          counted = v.counted;
        })
]

add_task-Inv :
    (name : Text) (sched : Schedule) (has_handler : Bool) (now : ℕ) (s : Scheduler)
    → Inv s
    → Inv (add_task name sched has_handler now s)
unfolding add_task
add_task-Inv name sched has_handler now s v =
    elim (Bool-cases (has_handler && validate_schedule sched)) [
      | inl good ↦ rw good (record {
        exclusive = λ q. v.exclusive q ∙ sym (guarded-append s.heap _ q refl);
        counted = v.counted;
      })
      | inr bad ↦ rw bad v
    ]

end_job-Inv :
    (p now : ℕ) (e : Ending) (s : Scheduler) → mem p s.jobs ≡ true → Inv s → Inv (end_job p now e s)
unfolding end_job
end_job-Inv p now e s m v =
    let busy : guarded s.heap p ≡ 1 =
      omega (arith, v.exclusive p, guarded-le s.heap p, count_of_mem p s.jobs m) in
    let (t, here) = get_of_guarded s.heap p busy in
    record {
      exclusive = λ q. ground (
        arith,
        v.exclusive q,
        guarded-update_set (finish now e) false (λ u. refl) s.heap p q here,
        count-remove_one p q s.jobs m,
        busy,
      );
      counted = omega (arith, v.counted, length-remove_one p s.jobs m);
    }

end_manual-Inv :
    (p now : ℕ) (e : Ending) (s : Scheduler)
    → mem p s.manual ≡ true
    → Inv s
    → Inv (end_manual p now e s)
unfolding end_manual
end_manual-Inv p now e s m v =
    let busy : guarded s.heap p ≡ 1 =
      omega (arith, v.exclusive p, guarded-le s.heap p, count_of_mem p s.manual m) in
    let (t, here) = get_of_guarded s.heap p busy in
    record {
      exclusive = λ q. ground (
        arith,
        v.exclusive q,
        guarded-update_set (finish now e) false (λ u. refl) s.heap p q here,
        count-remove_one p q s.manual m,
        busy,
      );
      counted = v.counted;
    }

when-Inv : (b : Bool) (s t : Scheduler) → when b s ≡ some t → (b ≡ true → Inv s) → Inv t
when-Inv true s t e v = subst Inv (ground arith) (v refl)
when-Inv false s t e v = cc

some-Inv : (s t : Scheduler) → some s ≡ some t → Inv s → Inv t
some-Inv s t e v = subst Inv (ground arith) v

if-Inv : (b : Bool) (s t : Scheduler) → Inv s → Inv t → Inv (if b then s else t)
if-Inv true s t v w = v
if-Inv false s t v w = w

start-Inv : (s : Scheduler) → Inv s → Inv (start s)
unfolding start
start-Inv s v =
    if-Inv s.running _ _ v (record { exclusive = v.exclusive; counted = omega (arith, v.counted) })

stop_begin-Inv : (s : Scheduler) → Inv s → Inv (stop_begin s)
unfolding stop_begin
stop_begin-Inv s v =
    if-Inv s.running _ _ (record { exclusive = v.exclusive; counted = v.counted }) v

step-Inv : (e : Event) (s t : Scheduler) → step e s ≡ some t → Inv s → Inv t
unfolding step remove_task enable_task disable_task
step-Inv (adds name sched h now) s t e v = some-Inv _ t e (add_task-Inv name sched h now s v)
step-Inv (removes name) s t e v =
    some-Inv _ t e (record { exclusive = v.exclusive; counted = v.counted })
step-Inv (enables name now) s t e v = some-Inv _ t e (on_task-Inv name _ s (λ u. refl) v)
step-Inv (disables name) s t e v = some-Inv _ t e (on_task-Inv name _ s (λ u. refl) v)
step-Inv (runs name) s t e v = some-Inv _ t e (run_task-Inv name s v)
step-Inv (resumes p) s t e v = some-Inv _ t e (run_at-Inv p s v)
step-Inv starts s t e v = when-Inv _ _ t e (λ _. start-Inv s v)
step-Inv stops s t e v = when-Inv _ _ t e (λ _. stop_begin-Inv s v)
step-Inv stop_done s t e v =
    when-Inv _ _ t e (λ _. record { exclusive = v.exclusive; counted = v.counted })
step-Inv stop_timeout s t e v =
    when-Inv _ _ t e (λ _. record { exclusive = v.exclusive; counted = v.counted })
step-Inv (ticks g now) s t e v = when-Inv _ _ t e (λ _. check_and_run-Inv g now s v)
step-Inv (loop_exit g) s t e v = when-Inv _ _ t e λ can. record {
  exclusive = v.exclusive;
  counted = omega (arith, v.counted, length-remove_one g s.loops ((&&_iff _ _).0 can).0);
}
step-Inv (job_end p now ending) s t e v = when-Inv _ _ t e (λ can. end_job-Inv p now ending s can v)
step-Inv (manual_end p now ending) s t e v =
    when-Inv _ _ t e (λ can. end_manual-Inv p now ending s can v)

pub Reachable-Inv : {s : Scheduler} → Reachable s → Inv s
unfolding new_scheduler
Reachable-Inv created = record { exclusive = λ p. refl; counted = refl }
Reachable-Inv (stepped {s} {t} e r h) = step-Inv e s t h (Reachable-Inv r)

-- In every state that a scheduler can reach, at most one handler of a task runs, whether a tick or
-- `RunTask` called it, also of a task that was removed or replaced meanwhile.
pub Reachable-exclusive : {s : Scheduler} (p : ℕ) → Reachable s → executions s p ≤ 1
Reachable-exclusive {s} p r =
    let v = Reachable-Inv r in omega (arith, v.exclusive p, guarded-le s.heap p)

pub when-eq-some : (b : Bool) (s t : Scheduler) → when b s ≡ some t → (b ≡ true) × (s ≡ t)
when-eq-some true s t e = (refl, ground arith)
when-eq-some false s t e = cc

nil_of_length : (ps : List ℕ) → length ps ≡ 0 → ps ≡ []
nil_of_length [] h = refl
nil_of_length (p ∷ ps) h = absurd (omega arith)

-- When `Stop` has waited for the wait group, no scheduling loop and no handler that a tick has
-- spawned is left.
pub stop_done-quiet :
    {s t : Scheduler} → Reachable s → step stop_done s ≡ some t → (t.loops ≡ []) × (t.jobs ≡ [])
unfolding step
stop_done-quiet {s} {t} r e =
    let v = Reachable-Inv r in
    let (can, same) = when-eq-some _ _ t e in
    let zero_wg : s.wg ≡ 0 = (==_iff s.wg 0).0 ((&&_iff s.stopping (s.wg == 0)).0 can).1 in
    (
      subst (λ u. u.loops ≡ []) same (nil_of_length s.loops (omega (arith, v.counted))),
      subst (λ u. u.jobs ≡ []) same (nil_of_length s.jobs (omega (arith, v.counted))),
    )
