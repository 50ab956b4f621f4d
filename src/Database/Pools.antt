-- ===== src/Database/Pools.antt =====
-- database/manager.go: that no pool of connections is left open, in any sequence of calls.
use xlgo_core.Base.{
  ℕ, zero, suc, ◌+◌, ◌-◌, ◌≤◌, ◌≡◌, ◌⊎◌, inl, inr, refl, ◌∙◌, List, [], ◌∷◌, ◌++◌, Bool, true,
  false, not, ◌==◌, if◌then◌else◌, Option, none, some, length, arith, Bool-cases,
}
use xlgo_core.Database.{
  Manager, World, close_pool, close_all, close_old, DatabaseError, cancelled, retries_exhausted,
  Attempt, open_fails, no_pool, ping_fails, connects, Round, install, after, After, finished, retry,
  attempts, waited, go_on, unless_cancelled, Opening, init_db, with_config, max_retries,
  is_transient_db_error, unrecoverable, not_configured, tls_failed,
}

abbrev pub one_if : Bool → ℕ
one_if true = 1
one_if false = 0

-- How often a pool stands in a list
abbrev pub count : ℕ → List ℕ → ℕ
count d [] = 0
count d (p ∷ ps) = one_if (p == d) + count d ps

abbrev pub count_opt : ℕ → Option ℕ → ℕ
count_opt d none = 0
count_opt d (some p) = one_if (p == d)

-- The pools that are open are the ones that the manager holds, each once.
abbrev pub NoLeak : World → Type 0
NoLeak w = (d : ℕ) → count d w.pools ≡ count_opt d w.manager.master + count d w.manager.replicas

-- The marks of the replicas are as many as the replicas, once they are set.
abbrev pub Aligned : Manager → Type 0
Aligned m = m.replica_health_set ≡ true → length m.replica_healthy ≡ length m.replicas

pub count-append : (d : ℕ) (xs ys : List ℕ) → count d (xs ++ ys) ≡ count d xs + count d ys
count-append d [] ys = omega arith
count-append d (x ∷ xs) ys = omega (arith, count-append d xs ys)

count-close_pool :
    (d x : ℕ) (ps : List ℕ) → count d (close_pool x ps) ≡ count d ps - one_if (x == d)
unfolding close_pool
count-close_pool d x [] = omega arith
count-close_pool d x (p ∷ ps) = ground (arith, count-close_pool d x ps)

pub count-close_all : (d : ℕ) (xs ps : List ℕ) → count d (close_all xs ps) ≡ count d ps - count d xs
unfolding close_all
count-close_all d [] ps = omega arith
count-close_all d (x ∷ xs) ps =
    omega (arith, count-close_all d xs (close_pool x ps), count-close_pool d x ps)

pub count-close_old :
    (d : ℕ) (o : Option ℕ) (ps : List ℕ) → count d (close_old o ps) ≡ count d ps - count_opt d o
unfolding close_old
count-close_old d none ps = omega arith
count-close_old d (some x) ps = count-close_pool d x ps

-- How a loop of attempts ends: with a new pool installed, or with an error and the manager and the
-- pools as before.
abbrev pub Ending : World → World × Option DatabaseError → Type 0
Ending w r =
    ((n : ℕ) × (w.next ≤ n) × (r ≡ (install (record w { next = n }), none)))
    ⊎ ((e : DatabaseError) × (n : ℕ) × (r ≡ (record w { next = n }, some e)))

later-Ending :
    (w : World) (n : ℕ) (r : World × Option DatabaseError)
    → w.next ≤ n
    → Ending (record w { next = n }) r
    → Ending w r
later-Ending w n r h (inl (m, k, e)) = inl (m, omega arith, e)
later-Ending w n r h (inr x) = inr x

after-Ending :
    (left : ℕ) (stopped : Bool) (w : World) (a : After)
    (loop : World → World × Option DatabaseError)
    → ((n : ℕ) → w.next ≤ n → Ending w (loop (record w { next = n })))
    → ((n : ℕ) × (w.next ≤ n) × (a ≡ retry (record w { next = n })))
      ⊎ ((a ≡ finished (install w) none) ⊎ ((e : DatabaseError) × (a ≡ finished w (some e))))
    → Ending w (go_on left stopped a loop)
unfolding go_on waited
after-Ending zero stopped w a loop h (inl (n, k, e)) = rw e (inr (retries_exhausted, n, refl))
after-Ending (suc left) true w a loop h (inl (n, k, e)) = rw e (inr (cancelled, n, refl))
after-Ending (suc left) false w a loop h (inl (n, k, e)) = rw e (h n k)
after-Ending left stopped w a loop h (inr (inl e)) = rw e (inl (w.next, omega arith, refl))
after-Ending left stopped w a loop h (inr (inr (x, e))) = rw e (inr (x, w.next, refl))

after-cases :
    (a : Attempt) (w : World)
    → ((n : ℕ) × (w.next ≤ n) × (after a w ≡ retry (record w { next = n })))
      ⊎ ((after a w ≡ finished (install w) none)
          ⊎ ((e : DatabaseError) × (after a w ≡ finished w (some e))))
unfolding after
after-cases (open_fails msg) w = elim (Bool-cases (is_transient_db_error msg)) [
  | inl again ↦ rw (after, again) (inl (w.next, omega arith, refl))
  | inr final ↦ rw (after, final) (inr (inr (unrecoverable, refl)))
]
after-cases no_pool w = inl (w.next, omega arith, refl)
after-cases ping_fails w = inl (suc w.next, omega arith, refl)
after-cases connects w = inr (inl refl)

unless_cancelled-Ending :
    (b : Bool) (w : World) (r : World × Option DatabaseError)
    → Ending w r
    → Ending w (unless_cancelled b w r)
unfolding unless_cancelled
unless_cancelled-Ending true w r h = inr (cancelled, w.next, refl)
unless_cancelled-Ending false w r h = h

attempts-Ending :
    (left i : ℕ) (rounds : ℕ → Round) (w : World) → Ending w (attempts left i rounds w)
unfolding attempts
attempts-Ending zero i rounds w = inr (retries_exhausted, w.next, refl)
attempts-Ending (suc left) i rounds w = unless_cancelled-Ending (rounds i).cancelled_before w _ (
    after-Ending left (rounds i).cancelled_waiting w (after (rounds i).attempt w)
      (attempts left (suc i) rounds)
      (λ n k.
        later-Ending w n (attempts left (suc i) rounds (record w { next = n })) k
          (attempts-Ending left (suc i) rounds (record w { next = n })))
      (after-cases (rounds i).attempt w))

-- What a successful `initDB` installs: a new pool, the old one closed
pub install-NoLeak : (w : World) → NoLeak w → NoLeak (install w)
unfolding install
install-NoLeak w h d = count-close_old d w.manager.master (w.next ∷ w.pools) ∙ omega (arith, h d)

-- `InitDB` ends with a new pool in place of the old master, or with an error; then the master, the
-- replicas, the mark of health and the open pools are what they were.
pub init_db-Ending :
    (o : Opening) (w : World)
    → ((n : ℕ) × (w.next ≤ n)
        × (init_db o w ≡ (install (record (with_config w) { next = n }), none)))
      ⊎ ((e : DatabaseError) × (n : ℕ) × (c : Bool) × (init_db o w
            ≡ (record w { manager = record w.manager { configured = c }; next = n }, some e)))
unfolding init_db with_config
init_db-Ending o w = go o.configured o.cancelled_at_once o.tls_registered
  where
    loop : Ending (with_config w) (attempts max_retries 0 o.rounds (with_config w))
    loop = attempts-Ending max_retries 0 o.rounds (with_config w)

    run : World × Option DatabaseError
    run = attempts max_retries 0 o.rounds (with_config w)

    go :
        (a b c : Bool)
        → ((n : ℕ) × (w.next ≤ n)
            × ((if not a
                  then (w, some not_configured)
                  else if b
                  then (w, some cancelled)
                  else if not c
                  then (with_config w, some tls_failed)
                  else run)
                ≡ (install (record (with_config w) { next = n }), none)))
          ⊎ ((e : DatabaseError) × (n : ℕ) × (c' : Bool) × ((if not a
                  then (w, some not_configured)
                  else if b
                  then (w, some cancelled)
                  else if not c
                  then (with_config w, some tls_failed)
                  else run)
                ≡ (record w { manager = record w.manager { configured = c' }; next = n }, some e)))
    go false b c = inr (not_configured, w.next, w.manager.configured, refl)
    go true true c = inr (cancelled, w.next, w.manager.configured, refl)
    go true false false = inr (tls_failed, w.next, true, refl)
    go true false true = elim loop [
      | inl (n, k, e) ↦ inl (n, k, e)
      | inr (x, n, e) ↦ inr (x, n, true, e)
    ]
