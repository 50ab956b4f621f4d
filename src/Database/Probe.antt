-- ===== src/Database/Probe.antt =====
-- database/manager.go: how the probes of the master mark it, and what a failed `InitDB` leaves.
use xlgo_core.Base.{
  ℕ, suc, ◌-◌, ◌≤◌, ◌≡◌, ◌⊎◌, inl, inr, refl, ◌∙◌, List, [], ◌∷◌, Bool, true, false, not, leb, none,
  All, ◌<◌, some, arith,
}
use xlgo_core.Database.{
  Manager, World, DatabaseError, Opening, init_db, with_config, install, probe_master,
}
use xlgo_core.Database.Pools.{count, count_opt, count-close_old, init_db-Ending}

-- The rounds of `probeOnce` on the master, by whether it answers in each
unfoldable pub probes : ℕ → List Bool → Manager → Manager
unfolding probe_master
probes threshold [] m = m
probes threshold (b ∷ bs) m = probes threshold bs (probe_master threshold b m)

-- The failures at the end of the rounds, after so many before them
abbrev pub failures_after : ℕ → List Bool → ℕ
failures_after n [] = n
failures_after n (true ∷ bs) = failures_after 0 bs
failures_after n (false ∷ bs) = failures_after (suc n) bs

-- The mark agrees with the count: unhealthy only from the threshold on.
abbrev pub Agrees : ℕ → Manager → Type 0
Agrees threshold m = m.healthy ≡ not (leb threshold m.probe_failures)

probe_master-Agrees :
    (t : ℕ) (b : Bool) (m : Manager) → 1 ≤ t → Agrees t m → Agrees t (probe_master t b m)
unfolding probe_master
probe_master-Agrees t true m h a = ground (arith, h)
probe_master-Agrees t false m h a = ground (arith, a)

-- From a mark that agrees with the count, as a new connection leaves it on a manager without failures:
-- after any rounds of probes the master is marked healthy exactly if the last rounds that failed, one
-- after the other and with those before, are fewer than the threshold.
pub probes_lem :
    (t : ℕ) (bs : List Bool) (m : Manager)
    → 1 ≤ t
    → m.healthy ≡ not (leb t m.probe_failures)
    → (probes t bs m).healthy ≡ not (leb t (failures_after m.probe_failures bs))
unfolding probes
probes_lem t [] m h a = a
probes_lem t (b ∷ bs) m h a =
    probes_lem t bs (probe_master t b m) h (probe_master-Agrees t b m h a) ∙ next b
  where
    next :
        (b : Bool)
        → not (leb t (failures_after (probe_master t b m).probe_failures bs))
          ≡ not (leb t (failures_after m.probe_failures (b ∷ bs)))
    next true = refl
    next false = refl

-- A pool that is not among numbers below it
fresh-count : (n : ℕ) (ps : List ℕ) → All (λ p. p < n) ps → count n ps ≡ 0
fresh-count n [] h = refl
fresh-count n (p ∷ ps) (h, hs) = ground (arith, fresh-count n ps hs)

All-below : (m n : ℕ) (ps : List ℕ) → m ≤ n → All (λ p. p < m) ps → All (λ p. p < n) ps
All-below m n [] k h = tt
All-below m n (p ∷ ps) k (h, hs) = (omega arith, All-below m n ps k hs)

-- Where the open pools carry numbers below the next one: an `InitDB` that fails leaves the master, the
-- replicas, the mark of health and the open pools as they were; one that ends well has as its master a
-- pool that was not open before, marked healthy, and the open pools are those before with this one and
-- without the old master.
pub init_db_keeps :
    (o : Opening) (w : World)
    → All (λ p. p < w.next) w.pools
    → (((init_db o w).1 ≡ none)
        × ((init_db o w).0.manager.healthy ≡ true)
        × ((n : ℕ) × (count n w.pools ≡ 0)
            × ((init_db o w).0.manager.master ≡ some n)
            × ((d : ℕ)
                → count d (init_db o w).0.pools
                  ≡ count d (n ∷ w.pools) - count_opt d w.manager.master)))
      ⊎ (((e : DatabaseError) × ((init_db o w).1 ≡ some e))
          × ((init_db o w).0.manager.master ≡ w.manager.master)
          × ((init_db o w).0.manager.replicas ≡ w.manager.replicas)
          × ((init_db o w).0.manager.healthy ≡ w.manager.healthy)
          × ((init_db o w).0.pools ≡ w.pools))
unfolding install with_config
init_db_keeps o w below = elim (init_db-Ending o w) [
  | inl (n, k, e) ↦
      let fresh = fresh-count n w.pools (All-below w.next n w.pools k below) in
      inl
        (rw e (refl, refl, (n, fresh, refl, λ d. count-close_old d w.manager.master (n ∷ w.pools))))
  | inr (x, n, c, e) ↦ inr (rw e ((x, refl), refl, refl, refl, refl))
]
