-- ===== src/Database.antt =====
-- database/manager.go: `Manager` with its pools of connections. A pool is known by a number, and the
-- world keeps the pools that are open; what GORM and the server answer is an argument.
pub mod Pick
pub mod Pools
pub mod History
pub mod Probe
mod Tests
use xlgo_core.Base.{
  ℕ, zero, suc, ◌+◌, ◌-◌, ◌/◌, ◌%◌, List, [], ◌∷◌, ◌++◌, Bool, true, false, not, ◌&&◌, ◌||◌, ◌==◌,
  ltb, leb, if◌then◌else◌, Option, none, some, Result, ok, err, length,
}
use xlgo_core.Base.Int.{ℤ, pos, negsuc}
use xlgo_core.Base.Text.{Text, codes, has_prefix}

-- A `ReplicaPicker`: the two of the package, and one of the application
pub data Picker : Type 0 where
  round_robin : ℕ → Picker
  random : Picker
  custom : (List ℕ → Option ℕ) → Picker

abbrev pub get_elem? {ℓ} : {A : Type ℓ} → List A → ℕ → Option A
get_elem? [] n = none
get_elem? (x ∷ xs) zero = some x
get_elem? (x ∷ xs) (suc n) = get_elem? xs n

-- `RandomPicker.Pick`, for the number below the length that `crypto/rand` gives, if it gives one
unfoldable pub random_pick : Option ℕ → List ℕ → Option ℕ
random_pick none pool = get_elem? pool 0
random_pick (some n) pool = get_elem? pool n

-- `Pick` of each picker, with the picker that it leaves
unfoldable pub pick : (ℕ → Option ℕ) → Picker → List ℕ → Picker × Option ℕ
unfolding random_pick
pick draw (round_robin counter) [] = (round_robin counter, none)
pick draw (round_robin counter) (d ∷ pool) =
    let n = suc (length pool) in
    let idx = counter % n in (round_robin (suc idx % n), get_elem? (d ∷ pool) idx)
pick draw random [] = (random, none)
pick draw random (d ∷ pool) = (random, random_pick (draw (suc (length pool))) (d ∷ pool))
pick draw (custom f) pool = (custom f, f pool)

pub record Manager : Type 0 where
  pub configured : Bool
  pub master : Option ℕ
  pub replicas : List ℕ
  pub picker : Option Picker
  pub healthy : Bool
  pub replica_healthy : List Bool
  pub probe_failures : ℕ
  pub replica_health_set : Bool

-- `NewManager`
abbrev pub new_manager : Bool → Manager
new_manager configured = record {
  configured = configured;
  master = none;
  replicas = [];
  picker = some random;
  healthy = false;
  replica_healthy = [];
  probe_failures = 0;
  replica_health_set = false;
}

-- `SetPicker`
unfoldable pub set_picker : Option Picker → Manager → Manager
set_picker none m = m
set_picker (some p) m = record m { picker = some p }

-- The replicas whose mark says that they are healthy
unfoldable pub healthy_of : List ℕ → List Bool → List ℕ
healthy_of [] marks = []
healthy_of (d ∷ ds) [] = []
healthy_of (d ∷ ds) (true ∷ marks) = d ∷ healthy_of ds marks
healthy_of (d ∷ ds) (false ∷ marks) = healthy_of ds marks

unfoldable pub or_all : List ℕ → List ℕ → List ℕ
or_all ds [] = ds
or_all ds (h ∷ hs) = h ∷ hs

-- The replicas that reads may go to
unfoldable pub read_pool : Manager → List ℕ
unfolding healthy_of or_all
read_pool m =
    if m.replica_health_set
    then or_all m.replicas (healthy_of m.replicas m.replica_healthy)
    else m.replicas

unfoldable pub or_first : List ℕ → Option ℕ → Option ℕ
or_first pool (some d) = some d
or_first pool none = get_elem? pool 0

unfoldable pub picked : (ℕ → Option ℕ) → Manager → List ℕ → Option Picker → Manager × Option ℕ
unfolding pick or_first
picked draw m pool none = (m, get_elem? pool 0)
picked draw m pool (some p) =
    let r = pick draw p pool in (record m { picker = some r.0 }, or_first pool r.1)

unfoldable pub from_replicas : (ℕ → Option ℕ) → Manager → List ℕ → Manager × Option ℕ
unfolding picked read_pool
from_replicas draw m [] = (m, m.master)
from_replicas draw m (d ∷ ds) = picked draw m (read_pool m) m.picker

-- `Replica`
unfoldable pub replica : (ℕ → Option ℕ) → Manager → Manager × Option ℕ
unfolding from_replicas
replica draw m = from_replicas draw m m.replicas

-- What `UseMaster` and `UseReplica` leave in a context, or another value under the key
pub data Mode : Type 0 where
  master_mode replica_mode other_mode : Mode

-- `FromContext`
unfoldable pub from_context : (ℕ → Option ℕ) → Option Mode → Manager → Manager × Option ℕ
unfolding replica
from_context draw (some master_mode) m = (m, m.master)
from_context draw _ m = replica draw m

unfoldable pub trues : List ℕ → List Bool
trues [] = []
trues (d ∷ ds) = true ∷ trues ds

-- `ensureReplicaHealthLocked`
unfoldable pub ensure_replica_health : Manager → Manager
unfolding trues
ensure_replica_health m = record m { replica_healthy = trues m.replicas; replica_health_set = true }

-- `initReplicaHealth`
unfoldable pub init_replica_health : Manager → Manager
unfolding ensure_replica_health
init_replica_health m = if m.replica_health_set then m else ensure_replica_health m

-- `resetReplicaHealth`
unfoldable pub reset_replica_health : Manager → Manager
reset_replica_health m = record m { replica_healthy = []; replica_health_set = false }

-- The manager, the pools that are open, and the number of the next one
pub record World : Type 0 where
  pub manager : Manager
  pub pools : List ℕ
  pub next : ℕ

-- `closeDB` on a pool
unfoldable pub close_pool : ℕ → List ℕ → List ℕ
close_pool d [] = []
close_pool d (p ∷ ps) = let rest = close_pool d ps in if p == d then ps else p ∷ rest

unfoldable pub close_all : List ℕ → List ℕ → List ℕ
unfolding close_pool
close_all [] pools = pools
close_all (d ∷ ds) pools = close_all ds (close_pool d pools)

unfoldable pub close_old : Option ℕ → List ℕ → List ℕ
unfolding close_pool
close_old none pools = pools
close_old (some d) pools = close_pool d pools

-- `Close`
unfoldable pub close : World → World
unfolding close_old close_all reset_replica_health
close w = record w {
  manager = record (reset_replica_health w.manager) {
    master = none;
    replicas = [];
    healthy = false;
  };
  pools = close_all w.manager.replicas (close_old w.manager.master w.pools);
}

pub data DatabaseError : Type 0 where
  not_configured cancelled tls_failed unrecoverable retries_exhausted : DatabaseError

-- How an attempt to connect goes: `gorm.Open` fails with a message, gives no pool, or gives one whose
-- ping fails or succeeds.
pub data Attempt : Type 0 where
  open_fails : Text → Attempt
  no_pool ping_fails connects : Attempt

-- One round of the retries: whether the context is cancelled before it or in the wait after it
pub record Round : Type 0 where
  pub cancelled_before : Bool
  pub attempt : Attempt
  pub cancelled_waiting : Bool

-- `strings.Contains`
unfoldable pub contains : Text → Text → Bool
unfolding has_prefix
contains [] sub = has_prefix [] sub
contains (c ∷ s) sub = has_prefix (c ∷ s) sub || contains s sub

abbrev pub non_transient : List Text
non_transient =
    codes "Access denied"
    ∷ codes "authentication plugin"
    ∷ codes "Unknown database"
    ∷ codes "invalid DSN"
    ∷ codes "unknown driver"
    ∷ codes "unsupported driver"
    ∷ codes "password authentication failed"
    ∷ codes "does not exist"
    ∷ codes "no pg_hba.conf entry"
    ∷ []

none_in : Text → List Text → Bool
unfolding contains
none_in msg [] = true
none_in msg (sub ∷ subs) = not (contains msg sub) && none_in msg subs

-- `isTransientDBError`, on the message of an error
unfoldable pub is_transient_db_error : Text → Bool
unfolding none_in
is_transient_db_error msg = none_in msg non_transient

-- A ping that succeeds installs the pool and closes the one before.
unfoldable pub install : World → World
unfolding close_old
install w = record {
  manager = record w.manager { master = some w.next; healthy = true };
  pools = close_old w.manager.master (w.next ∷ w.pools);
  next = suc w.next;
}

-- A pool that is opened and closed again
abbrev pub tried : World → World
tried w = record w { next = suc w.next }

abbrev pub max_retries : ℕ
max_retries = 5

-- What is left to do after an attempt: an answer, or the wait and the next round
pub data After : Type 0 where
  finished : World → Option DatabaseError → After
  retry : World → After

unfoldable pub after : Attempt → World → After
unfolding is_transient_db_error install
after (open_fails msg) w =
    if is_transient_db_error msg then retry w else finished w (some unrecoverable)
after no_pool w = retry w
after ping_fails w = retry (tried w)
after connects w = finished (install w) none

-- After the last round there is no wait, and a wait may be cancelled.
unfoldable pub waited :
    ℕ → Bool → World → World × Option DatabaseError → World × Option DatabaseError
waited zero stopped w rest = (w, some retries_exhausted)
waited (suc left) true w rest = (w, some cancelled)
waited (suc left) false w rest = rest

unfoldable pub go_on :
    ℕ → Bool → After → (World → World × Option DatabaseError) → World × Option DatabaseError
unfolding waited
go_on left stopped (finished w e) loop = (w, e)
go_on left stopped (retry w) loop = waited left stopped w (loop w)

unfoldable pub unless_cancelled :
    Bool → World → World × Option DatabaseError → World × Option DatabaseError
unless_cancelled true w rest = (w, some cancelled)
unless_cancelled false w rest = rest

-- The loop of `initDB`, with so many rounds left
unfoldable pub attempts : ℕ → ℕ → (ℕ → Round) → World → World × Option DatabaseError
unfolding after go_on unless_cancelled
attempts zero i rounds w = (w, some retries_exhausted)
attempts (suc left) i rounds w = unless_cancelled (rounds i).cancelled_before w (
    go_on left (rounds i).cancelled_waiting (after (rounds i).attempt w)
      (attempts left (suc i) rounds))

-- What `initDB` is given: whether there is a configuration, whether the context is done at once, how
-- the registration of the TLS configuration goes, and the rounds.
pub record Opening : Type 0 where
  pub configured : Bool
  pub cancelled_at_once : Bool
  pub tls_registered : Bool
  pub rounds : ℕ → Round

unfoldable pub with_config : World → World
with_config w = record w { manager = record w.manager { configured = true } }

-- `InitDB`, by `initDB`
unfoldable pub init_db : Opening → World → World × Option DatabaseError
unfolding attempts with_config
init_db o w =
    if not o.configured
    then (w, some not_configured)
    else if o.cancelled_at_once
    then (w, some cancelled)
    else if not o.tls_registered
    then (with_config w, some tls_failed)
    else attempts max_retries 0 o.rounds (with_config w)

-- `Open`, for the configuration that is set
unfoldable pub open_db : Opening → World → World × Option DatabaseError
unfolding init_db
open_db o w = init_db (record o { configured = w.manager.configured }) w

-- `replicaMaxOpenConns`
unfoldable pub replica_max_open_conns : ℤ → ℕ
replica_max_open_conns (negsuc n) = 0
replica_max_open_conns (pos zero) = 0
replica_max_open_conns (pos (suc n)) = if ltb (suc n / 2) 1 then 1 else suc n / 2

-- One DSN of a replica: whether the context is cancelled before it, and how the attempt goes
pub record Dsn : Type 0 where
  pub cancelled_before : Bool
  pub attempt : Attempt

-- The replicas that were connected, the pools and the next number, or the cancellation
pub record Built : Type 0 where
  pub new_replicas : List ℕ
  pub pools : List ℕ
  pub next : ℕ

unfoldable pub try_replica : Attempt → Built → Built
try_replica connects b = record {
  new_replicas = b.new_replicas ++ b.next ∷ [];
  pools = b.next ∷ b.pools;
  next = suc b.next;
}
try_replica ping_fails b = record b { next = suc b.next }
try_replica (open_fails msg) b = b
try_replica no_pool b = b

-- A cancellation closes what was opened.
unfoldable pub unless_stopped :
    Bool → Built → Built × Option DatabaseError → Built × Option DatabaseError
unfolding close_all
unless_stopped true b rest =
    (record b { new_replicas = []; pools = close_all b.new_replicas b.pools }, some cancelled)
unless_stopped false b rest = rest

-- The loop over the DSNs of the replicas
unfoldable pub build : List Dsn → Built → Built × Option DatabaseError
unfolding try_replica unless_stopped
build [] b = (b, none)
build (d ∷ ds) b = unless_stopped d.cancelled_before b (build ds (try_replica d.attempt b))

-- The old replicas are closed before new ones are built.
unfoldable pub drop_replicas : World → World
unfolding reset_replica_health close_all
drop_replicas w = record w {
  manager = reset_replica_health (record w.manager { replicas = [] });
  pools = close_all w.manager.replicas w.pools;
}

unfoldable pub with_built : World → Built × Option DatabaseError → World × Option DatabaseError
unfolding ensure_replica_health
with_built w (b, none) = (
  record {
    manager = ensure_replica_health (record w.manager { replicas = b.new_replicas });
    pools = b.pools;
    next = b.next;
  },
  none,
)
with_built w (b, some e) = (record w { pools = b.pools; next = b.next }, some e)

unfoldable pub build_replicas : List Dsn → World → World × Option DatabaseError
unfolding build with_built
build_replicas [] w = (w, none)
build_replicas (d ∷ ds) w =
    with_built w (build (d ∷ ds) (record { new_replicas = []; pools = w.pools; next = w.next }))

unfoldable pub then_replicas :
    List Dsn → World × Option DatabaseError → World × Option DatabaseError
unfolding drop_replicas build_replicas
then_replicas dsns (w, some e) = (w, some e)
then_replicas dsns (w, none) = build_replicas dsns (drop_replicas w)

-- `InitDBWithReplicas`
unfoldable pub init_db_with_replicas : Opening → List Dsn → World → World × Option DatabaseError
unfolding init_db then_replicas
init_db_with_replicas o dsns w = then_replicas dsns (init_db o w)

-- `probeOnce` on the master, for whether it answers
unfoldable pub probe_master : ℕ → Bool → Manager → Manager
probe_master threshold true m = record m { probe_failures = 0; healthy = true }
probe_master threshold false m = record m {
  probe_failures = suc m.probe_failures;
  healthy = if leb threshold (suc m.probe_failures) then false else m.healthy;
}

-- The marks after the replicas have answered or not; a replica beyond the marks has none.
unfoldable pub probe_marks : (ℕ → Bool) → List ℕ → List Bool → List Bool
probe_marks answers [] marks = marks
probe_marks answers (d ∷ ds) [] = []
probe_marks answers (d ∷ ds) (mark ∷ marks) = answers d ∷ probe_marks answers ds marks

unfoldable pub ready : List ℕ → Manager → Manager
unfolding ensure_replica_health
ready [] m = m
ready (d ∷ ds) m = if m.replica_health_set then m else ensure_replica_health m

unfoldable pub probe_replicas : (ℕ → Bool) → Manager → Manager
unfolding probe_marks
probe_replicas answers m =
    if m.replica_health_set
    then record m { replica_healthy = probe_marks answers m.replicas m.replica_healthy }
    else m

-- `probeOnce`; a pool that is missing does not answer.
unfoldable pub probe_once : ℕ → (ℕ → Bool) → Manager → Manager
unfolding probe_master probe_replicas ready
probe_once threshold answers m =
    let m' = probe_master threshold (elim m.master [ none ↦ false | some d ↦ answers d ]) m in
    probe_replicas answers (ready m'.replicas m')

-- The threshold of `StartProbing`, for what is configured
unfoldable pub probe_threshold : Option ℤ → ℕ
probe_threshold none = 3
probe_threshold (some (negsuc n)) = 3
probe_threshold (some (pos zero)) = 3
probe_threshold (some (pos (suc n))) = suc n
