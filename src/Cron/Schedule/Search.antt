-- ===== src/Cron/Schedule/Search.antt =====
-- cron/cron.go: the searches of the cron schedules find the first minute that matches.
use xlgo_core.Base.{
  ℕ, zero, suc, ◌+◌, ◌-◌, ◌*◌, ◌/◌, ◌%◌, ◌≤◌, ◌<◌, ◌≡◌, refl, Bool, true, false, none, some, arith,
  Bool-cases, inl, inr, subst,
}
use xlgo_core.Cron.Clock.{minute, day}
use xlgo_core.Cron.Expr.{FullCronSchedule}
use xlgo_core.Cron.Schedule.{
  CronSchedule, match_cron, match_full, search_minutes, max_attempts, next_minute, next_full,
  next_cron,
}

-- What the search over `rounds` minutes from `t` on comes back with.
pub record Found (test : ℕ → Bool) (rounds t u : ℕ) : Type 0 where
  pub after : ℕ
  pub place : u ≡ t + after * minute
  pub in_time : after < rounds
  pub matches : test u ≡ true
  pub first : (k : ℕ) → k < after → test (t + k * minute) ≡ false

module _ (test : ℕ → Bool) where
  search-Found : (rounds t u : ℕ) → search_minutes test rounds t ≡ some u → Found test rounds t u
  unfolding search_minutes
  search-Found zero t u e = cc
  search-Found (suc rounds) t u e = elim (Bool-cases (test t)) [
    | inl hit ↦ found_now (rw (hit, search_minutes) at e) hit
    | inr miss ↦
        found_later miss (search-Found rounds (t + minute) u (rw (miss, search_minutes) at e))
  ]
    where
      found_now : some t ≡ some u → test t ≡ true → Found test (suc rounds) t u
      found_now same hit = record {
        after = 0;
        place = ground arith;
        in_time = omega arith;
        matches = subst (λ x. test x ≡ true) (cc) hit;
        first = λ k h. elim h [ ];
      }

      first_from :
          test t ≡ false
          → (f : Found test rounds (t + minute) u) (k : ℕ) → k < suc f.after
          → test (t + k * minute) ≡ false
      first_from miss f zero h = subst (λ x. test x ≡ false) (omega arith) miss
      first_from miss f (suc k) h =
          subst (λ x. test x ≡ false) (omega arith) (f.first k (omega arith))

      found_later : test t ≡ false → Found test rounds (t + minute) u → Found test (suc rounds) t u
      found_later miss f = record {
        after = suc f.after;
        place = omega (arith, f.place);
        in_time = omega (arith, f.in_time);
        matches = f.matches;
        first = first_from miss f;
      }

  search-none :
      (rounds t k : ℕ)
      → search_minutes test rounds t ≡ none
      → k < rounds
      → test (t + k * minute) ≡ false
  unfolding search_minutes
  search-none zero t k e h = elim h [ ]
  search-none (suc rounds) t zero e h = elim (Bool-cases (test t)) [
    | inl hit ↦ cc (rw (hit, search_minutes) at e)
    | inr miss ↦ subst (λ x. test x ≡ false) (omega arith) miss
  ]
  search-none (suc rounds) t (suc k) e h = elim (Bool-cases (test t)) [
    | inl hit ↦ cc (rw (hit, search_minutes) at e)
    | inr miss ↦
        subst (λ x. test x ≡ false) (omega arith)
          (search-none rounds (t + minute) k (rw (miss, search_minutes) at e) (omega arith))
  ]

pub search_never :
    (test : ℕ → Bool) (rounds t : ℕ)
    → ((x : ℕ) → test x ≡ false)
    → search_minutes test rounds t ≡ none
unfolding search_minutes
search_never test zero t never = refl
search_never test (suc rounds) t never =
    ground (arith, never t, search_never test rounds (t + minute) never)

-- A whole minute after `now` is one of those that the full search visits.
visited :
    (now w : ℕ)
    → w % minute ≡ 0
    → now < w
    → next_minute now + (w - next_minute now) / minute * minute ≡ w
visited now w m h = omega arith

-- `FullCronSchedule.Next` returns the first whole minute after `now` that matches the expression.
pub next_full_first :
    (s : FullCronSchedule) (now u : ℕ)
    → next_full s now ≡ some u
    → (match_full s u ≡ true)
      × (u % minute ≡ 0)
      × (now < u)
      × ((w : ℕ) → w % minute ≡ 0 → now < w → w < u → match_full s w ≡ false)
unfolding next_full
next_full_first s now u e =
    let f = search-Found (match_full s) max_attempts (next_minute now) u e in
    (
      f.matches,
      omega (arith, f.place),
      omega (arith, f.place),
      λ w m after before.
          subst (λ x. match_full s x ≡ false) (visited now w m after)
            (f.first ((w - next_minute now) / minute) (omega (arith, f.place))),
    )

-- Where it returns the zero time, no whole minute of the 366 days after `now` matches.
pub next_full-none :
    (s : FullCronSchedule) (now w : ℕ)
    → next_full s now ≡ none
    → w % minute ≡ 0
    → now < w
    → w ≤ now + 366 * day
    → match_full s w ≡ false
unfolding next_full
next_full-none s now w e m after before =
    subst (λ x. match_full s x ≡ false) (visited now w m after)
      (search-none (match_full s) max_attempts (next_minute now) ((w - next_minute now) / minute) e
        (omega arith))

-- `CronSchedule.Next` returns the first of the instants that lie whole minutes after `now`, up to
-- a day, which matches the minute and the hour, and the zero time only if none of them does.
pub next_cron_first :
    (s : CronSchedule) (now : ℕ)
    → ((u : ℕ)
        → next_cron s now ≡ some u
        → (match_cron s u ≡ true)
          × (now < u)
          × (u ≤ now + day)
          × ((k : ℕ) → now + suc k * minute < u → match_cron s (now + suc k * minute) ≡ false))
      × (next_cron s now ≡ none → (k : ℕ) → k < 1440 → match_cron s (now + suc k * minute) ≡ false)
unfolding next_cron
next_cron_first s now = (
  λ u e.
      let f = search-Found (match_cron s) (60 * 24) (now + minute) u e in
      (
        f.matches,
        omega (arith, f.place),
        omega (arith, f.place, f.in_time),
        λ k h.
            subst (λ x. match_cron s x ≡ false) (omega arith) (f.first k (omega (arith, f.place))),
      ),
  λ e k h.
      subst (λ x. match_cron s x ≡ false) (omega arith)
        (search-none (match_cron s) (60 * 24) (now + minute) k e h),
)
