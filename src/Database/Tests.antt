-- ===== src/Database/Tests.antt =====
-- database/manager.go: runs on small inputs, and the theorems applied there.
use xlgo_core.Base.{
  ℕ, ◌-◌, ◌≡◌, ◌⊎◌, refl, List, [], ◌∷◌, Bool, true, false, not, none, some, arith, leb, ◌==◌,
  if◌then◌else◌,
}
use xlgo_core.Base.Text.{codes}
use xlgo_core.Base.Int.{pos}
use xlgo_core.Database.{
  round_robin, pick, Manager, new_manager, replica, World, DatabaseError, unrecoverable, open_fails,
  ping_fails, connects, Round, Opening, init_db, Dsn, is_transient_db_error, replica_max_open_conns,
  close, init_db_with_replicas,
}
use xlgo_core.Database.Pools.{count, count_opt, NoLeak, Aligned}
use xlgo_core.Database.History.{
  Call, opening, opening_replicas, probing, run, new_world, run-NoLeak,
}
use xlgo_core.Database.Pick.{HealthyAt, replica-HealthyAt}
use xlgo_core.Database.Probe.{probes, failures_after, probes_lem, init_db_keeps}

-- The second attempt connects.
abbrev second : ℕ → Round
second i = record {
  cancelled_before = false;
  attempt = if i == 0 then ping_fails else connects;
  cancelled_waiting = false;
}

abbrev refused : ℕ → Round
refused i = record {
  cancelled_before = false;
  attempt = open_fails (codes "Error 1045: Access denied for user");
  cancelled_waiting = false;
}

abbrev with_rounds : (ℕ → Round) → Opening
with_rounds rounds = record {
  configured = true;
  cancelled_at_once = false;
  tls_registered = true;
  rounds = rounds;
}

abbrev dsns : List Dsn
dsns =
    record { cancelled_before = false; attempt = connects }
    ∷ record { cancelled_before = false; attempt = ping_fails }
    ∷ record { cancelled_before = false; attempt = connects }
    ∷ []

abbrev serving : Manager
serving = record (new_manager true) {
  master = some 1;
  replicas = 2 ∷ 4 ∷ [];
  picker = some (round_robin 0);
  healthy = true;
  replica_healthy = false ∷ true ∷ [];
  replica_health_set = true;
}

abbrev world : World
world = record { manager = serving; pools = 4 ∷ 2 ∷ 1 ∷ []; next = 5 }

database_tests :
    (is_transient_db_error (codes "the database system is starting up") ≡ true)
    × (is_transient_db_error (codes "x: Access denied") ≡ false)
    × (replica_max_open_conns (pos 1) ≡ 1)
    × (replica_max_open_conns (pos 7) ≡ 3)
    × (replica_max_open_conns (pos 0) ≡ 0)
    × ((init_db (with_rounds refused) world).1 ≡ some unrecoverable)
    × ((init_db_with_replicas (with_rounds second) dsns (new_world true)).0.pools ≡ 4 ∷ 2 ∷ 1 ∷ [])
    × ((close world).pools ≡ [])
    × ((replica (λ n. none) serving).1 ≡ some 4)
    × ((pick (λ n. none) (round_robin 1) (7 ∷ 8 ∷ 9 ∷ [])).1 ≡ some 8)
unfolding is_transient_db_error replica_max_open_conns init_db init_db_with_replicas close replica
    pick
database_tests = (refl, refl, refl, refl, refl, refl, refl, refl, refl, refl)

abbrev calls : List Call
calls =
    opening_replicas (with_rounds second) dsns
    ∷ probing 3 (λ d. d == 2)
    ∷ opening (with_rounds second)
    ∷ []

run-NoLeak_example :
    NoLeak (run calls (new_world true)) × Aligned (run calls (new_world true)).manager
run-NoLeak_example = run-NoLeak true calls

replica-HealthyAt_example :
    (d : ℕ) × ((replica (λ n. none) serving).1 ≡ some d)
    × HealthyAt serving.replicas serving.replica_healthy d
replica-HealthyAt_example =
    replica-HealthyAt (λ n. none) serving (round_robin 0) 1 4 refl tt refl refl refl

abbrev answers : List Bool
answers = false ∷ true ∷ false ∷ false ∷ []

probes_lem_example : (probes 2 answers serving).healthy ≡ not (leb 2 (failures_after 0 answers))
probes_lem_example = probes_lem 2 answers serving (omega arith) refl

init_db_keeps_example :
    (((init_db (with_rounds refused) world).1 ≡ none)
      × ((init_db (with_rounds refused) world).0.manager.healthy ≡ true)
      × ((n : ℕ) × (count n world.pools ≡ 0)
          × ((init_db (with_rounds refused) world).0.manager.master ≡ some n)
          × ((d : ℕ)
              → count d (init_db (with_rounds refused) world).0.pools
                ≡ count d (n ∷ world.pools) - count_opt d (some 1))))
    ⊎ (((e : DatabaseError) × ((init_db (with_rounds refused) world).1 ≡ some e))
        × ((init_db (with_rounds refused) world).0.manager.master ≡ some 1)
        × ((init_db (with_rounds refused) world).0.manager.replicas ≡ serving.replicas)
        × ((init_db (with_rounds refused) world).0.manager.healthy ≡ true)
        × ((init_db (with_rounds refused) world).0.pools ≡ world.pools))
init_db_keeps_example =
    init_db_keeps (with_rounds refused) world (omega arith, (omega arith, (omega arith, tt)))
