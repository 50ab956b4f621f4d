-- ===== src/Database/History.antt =====
-- database/manager.go: what holds after any sequence of calls of a `Manager`. `opMu` and `mu` make
-- each call one step.
use xlgo_core.Base.{
  ℕ, suc, ◌+◌, ◌≡◌, ◌⊎◌, inl, inr, refl, sym, ap, ap₂, ◌∙◌, List, [], ◌∷◌, Bool, true, false,
  if◌then◌else◌, Option, none, some, length, arith,
}
use xlgo_core.Database.{
  Picker, Manager, new_manager, set_picker, replica, from_context, Mode, master_mode, replica_mode,
  other_mode, ensure_replica_health, init_replica_health, reset_replica_health, World, close_old,
  close, DatabaseError, Attempt, open_fails, no_pool, ping_fails, connects, install, Opening,
  init_db, with_config, Dsn, Built, try_replica, build, drop_replicas, with_built, unless_stopped,
  build_replicas, then_replicas, init_db_with_replicas, probe_once, probe_master, probe_replicas,
  probe_marks, ready, trues, picked, from_replicas, read_pool,
}
use xlgo_core.Database.Pools.{
  count, count_opt, NoLeak, Aligned, count-append, count-close_all, count-close_old, init_db-Ending,
  install-NoLeak,
}

-- The calls of a manager, with what the outside answers
pub data Call : Type 0 where
  opening : Opening → Call
  opening_replicas : Opening → List Dsn → Call
  closing : Call
  probing : ℕ → (ℕ → Bool) → Call
  start_probing : Call
  choosing : (ℕ → Option ℕ) → Option Mode → Call
  setting : Option Picker → Call

on_manager : (Manager → Manager) → World → World
on_manager f w = record w { manager = f w.manager }

unfoldable pub step : Call → World → World
unfolding init_db init_db_with_replicas close probe_once init_replica_health from_context set_picker
    on_manager
step (opening o) w = (init_db o w).0
step (opening_replicas o dsns) w = (init_db_with_replicas o dsns w).0
step closing w = close w
step (probing threshold answers) w = on_manager (probe_once threshold answers) w
step start_probing w = on_manager init_replica_health w
step (choosing draw mode) w = on_manager (λ m. (from_context draw mode m).0) w
step (setting p) w = on_manager (set_picker p) w

unfoldable pub run : List Call → World → World
unfolding step
run [] w = w
run (c ∷ cs) w = run cs (step c w)

abbrev pub new_world : Bool → World
new_world configured = record { manager = new_manager configured; pools = []; next = 0 }

abbrev Sound : World → Type 0
Sound w = NoLeak w × Aligned w.manager

length-trues : (ds : List ℕ) → length (trues ds) ≡ length ds
unfolding trues
length-trues [] = refl
length-trues (d ∷ ds) = ap suc (length-trues ds)

length-probe_marks :
    (answers : ℕ → Bool) (ds : List ℕ) (marks : List Bool)
    → length (probe_marks answers ds marks) ≡ length marks
unfolding probe_marks
length-probe_marks answers [] marks = refl
length-probe_marks answers (d ∷ ds) [] = refl
length-probe_marks answers (d ∷ ds) (m ∷ marks) = ap suc (length-probe_marks answers ds marks)

ensure-Aligned : (m : Manager) → Aligned (ensure_replica_health m)
unfolding ensure_replica_health
ensure-Aligned m h = length-trues m.replicas

close-Sound : (w : World) → Sound w → Sound (close w)
unfolding close reset_replica_health
close-Sound w (h, a) = (
  λ d.
      count-close_all d w.manager.replicas (close_old w.manager.master w.pools)
      ∙ omega (arith, h d, count-close_old d w.manager.master w.pools),
  λ e. cc,
)

drop_replicas-Sound : (w : World) → NoLeak w → Sound (drop_replicas w)
unfolding drop_replicas reset_replica_health
drop_replicas-Sound w h =
    (λ d. count-close_all d w.manager.replicas w.pools ∙ omega (arith, h d), λ e. cc)

-- The pools are so many others and the new replicas.
Holds : ℕ → ℕ → Built → Type 0
Holds d k b = count d b.pools ≡ k + count d b.new_replicas

try_replica-Holds : (d k : ℕ) (a : Attempt) (b : Built) → Holds d k b → Holds d k (try_replica a b)
unfolding Holds try_replica
try_replica-Holds d k (open_fails msg) b h = h
try_replica-Holds d k no_pool b h = h
try_replica-Holds d k ping_fails b h = h
try_replica-Holds d k connects b h = omega (arith, h, count-append d b.new_replicas (b.next ∷ []))

unless_stopped-Holds :
    (d k : ℕ) (s : Bool) (b : Built) (r : Built × Option DatabaseError)
    → Holds d k b
    → Holds d k r.0 × ((r.1 ≡ none) ⊎ (r.0.new_replicas ≡ []))
    → Holds d k (unless_stopped s b r).0
      × (((unless_stopped s b r).1 ≡ none) ⊎ ((unless_stopped s b r).0.new_replicas ≡ []))
unfolding Holds unless_stopped
unless_stopped-Holds d k true b r h g =
    (count-close_all d b.new_replicas b.pools ∙ omega (arith, h), inr refl)
unless_stopped-Holds d k false b r h g = g

build-Holds :
    (d k : ℕ) (ds : List Dsn) (b : Built)
    → Holds d k b
    → Holds d k (build ds b).0 × (((build ds b).1 ≡ none) ⊎ ((build ds b).0.new_replicas ≡ []))
unfolding build
build-Holds d k [] b h = (h, inl refl)
build-Holds d k (x ∷ ds) b h =
    unless_stopped-Holds d k x.cancelled_before b (build ds (try_replica x.attempt b)) h
      (build-Holds d k ds (try_replica x.attempt b) (try_replica-Holds d k x.attempt b h))

with_built-Sound :
    (w : World) (r : Built × Option DatabaseError)
    → w.manager.replicas ≡ []
    → Sound w
    → ((d : ℕ)
        → Holds d (count_opt d w.manager.master) r.0 × ((r.1 ≡ none) ⊎ (r.0.new_replicas ≡ [])))
    → Sound (with_built w r).0
unfolding with_built Holds ensure_replica_health
with_built-Sound w (b, none) e s h = (λ d. (h d).0, λ _. length-trues b.new_replicas)
with_built-Sound w (b, some x) e (n, a) h = (λ d. gone d (h d).0 (h d).1, a)
  where
    gone :
        (d : ℕ)
        → count d b.pools ≡ count_opt d w.manager.master + count d b.new_replicas
        → ((some x ≡ none) ⊎ (b.new_replicas ≡ []))
        → count d b.pools ≡ count_opt d w.manager.master + count d w.manager.replicas
    gone d c (inl z) = absurd (cc)
    gone d c (inr z) = c ∙ ap (λ q. count_opt d w.manager.master + count d q) (z ∙ sym e)

build_replicas-Sound :
    (w : World) (ds : List Dsn) → w.manager.replicas ≡ [] → Sound w → Sound (build_replicas ds w).0
unfolding build_replicas Holds
build_replicas-Sound w [] e s = s
build_replicas-Sound w (x ∷ ds) e s =
    with_built-Sound w
      (build (x ∷ ds) (record { new_replicas = []; pools = w.pools; next = w.next })) e s
      (λ d.
        build-Holds d (count_opt d w.manager.master) (x ∷ ds)
          (record { new_replicas = []; pools = w.pools; next = w.next })
          (s.0 d ∙ ap (λ q. count_opt d w.manager.master + count d q) e))

init_db-Sound : (o : Opening) (w : World) → Sound w → Sound (init_db o w).0
unfolding install with_config
init_db-Sound o w (h, a) = elim (init_db-Ending o w) [
  | inl (n, k, e) ↦ rw e (install-NoLeak (record (with_config w) { next = n }) h, a)
  | inr (x, n, c, e) ↦ rw e (h, a)
]

then_replicas-Sound :
    (dsns : List Dsn) (r : World × Option DatabaseError)
    → Sound r.0
    → Sound (then_replicas dsns r).0
unfolding then_replicas drop_replicas reset_replica_health
then_replicas-Sound dsns (w, some e) s = s
then_replicas-Sound dsns (w, none) s =
    build_replicas-Sound (drop_replicas w) dsns refl (drop_replicas-Sound w s.0)

-- A manager that holds the same pools, its marks in order
Fits : Manager → Manager → Type 0
Fits m m' = (m'.master ≡ m.master) × (m'.replicas ≡ m.replicas) × Aligned m'

Fits-Sound :
    (w : World) (m : Manager) → Sound w → Fits w.manager m → Sound (record w { manager = m })
unfolding Fits
Fits-Sound w m (h, _) (e, f, a) =
    (λ d. h d ∙ ap₂ (λ x y. count_opt d x + count d y) (sym e) (sym f), a)

if-Fits : (m x y : Manager) (b : Bool) → Fits m x → Fits m y → Fits m (if b then x else y)
if-Fits m x y true h k = h
if-Fits m x y false h k = k

ensure-Fits : (m : Manager) → Fits m (ensure_replica_health m)
unfolding Fits ensure_replica_health
ensure-Fits m = (refl, refl, λ h. length-trues m.replicas)

init_health-Fits : (m : Manager) → Aligned m → Fits m (init_replica_health m)
unfolding Fits init_replica_health
init_health-Fits m a =
    if-Fits m m (ensure_replica_health m) m.replica_health_set (refl, refl, a) (ensure-Fits m)

probe_master-Fits : (n : ℕ) (b : Bool) (m : Manager) → Aligned m → Fits m (probe_master n b m)
unfolding Fits probe_master
probe_master-Fits n true m a = (refl, refl, a)
probe_master-Fits n false m a = (refl, refl, a)

ready-Fits : (ds : List ℕ) (m : Manager) → Aligned m → Fits m (ready ds m)
unfolding Fits ready
ready-Fits [] m a = (refl, refl, a)
ready-Fits (d ∷ ds) m a =
    if-Fits m m (ensure_replica_health m) m.replica_health_set (refl, refl, a) (ensure-Fits m)

probe_replicas-Fits :
    (answers : ℕ → Bool) (m : Manager) → Aligned m → Fits m (probe_replicas answers m)
unfolding Fits probe_replicas
probe_replicas-Fits answers m a =
    if-Fits m (record m { replica_healthy = probe_marks answers m.replicas m.replica_healthy }) m
      m.replica_health_set
      (refl, refl, λ h. length-probe_marks answers m.replicas m.replica_healthy ∙ a h)
      (refl, refl, a)

Fits-trans : (a b c : Manager) → Fits a b → Fits b c → Fits a c
unfolding Fits
Fits-trans a b c (e, f, _) (g, h, k) = (g ∙ e, h ∙ f, k)

Fits-Aligned : (a b : Manager) → Fits a b → Aligned b
unfolding Fits
Fits-Aligned a b (_, _, k) = k

probe_once-Fits :
    (n : ℕ) (answers : ℕ → Bool) (m : Manager) → Aligned m → Fits m (probe_once n answers m)
unfolding probe_once
probe_once-Fits n answers m a =
    let one = probe_master n (elim m.master [ none ↦ false | some d ↦ answers d ]) m in
    let two = ready one.replicas one in
    let h = probe_master-Fits n (elim m.master [ none ↦ false | some d ↦ answers d ]) m a in
    let k = ready-Fits one.replicas one (Fits-Aligned m one h) in
    Fits-trans m one (probe_replicas answers two) h (
      Fits-trans one two (probe_replicas answers two) k
        (probe_replicas-Fits answers two (Fits-Aligned one two k)))

picked-Fits :
    (draw : ℕ → Option ℕ) (m : Manager) (pool : List ℕ) (p : Option Picker)
    → Aligned m
    → Fits m (picked draw m pool p).0
unfolding Fits picked
picked-Fits draw m pool none a = (refl, refl, a)
picked-Fits draw m pool (some p) a = (refl, refl, a)

from_replicas-Fits :
    (draw : ℕ → Option ℕ) (m : Manager) (ds : List ℕ)
    → Aligned m
    → Fits m (from_replicas draw m ds).0
unfolding Fits from_replicas
from_replicas-Fits draw m [] a = (refl, refl, a)
from_replicas-Fits draw m (d ∷ ds) a = picked-Fits draw m (read_pool m) m.picker a

from_context-Fits :
    (draw : ℕ → Option ℕ) (mode : Option Mode) (m : Manager)
    → Aligned m
    → Fits m (from_context draw mode m).0
unfolding Fits from_context replica
from_context-Fits draw (some master_mode) m a = (refl, refl, a)
from_context-Fits draw (some replica_mode) m a = from_replicas-Fits draw m m.replicas a
from_context-Fits draw (some other_mode) m a = from_replicas-Fits draw m m.replicas a
from_context-Fits draw none m a = from_replicas-Fits draw m m.replicas a

set_picker-Fits : (p : Option Picker) (m : Manager) → Aligned m → Fits m (set_picker p m)
unfolding Fits set_picker
set_picker-Fits none m a = (refl, refl, a)
set_picker-Fits (some p) m a = (refl, refl, a)

step-Sound : (c : Call) (w : World) → Sound w → Sound (step c w)
unfolding step init_db_with_replicas on_manager
step-Sound (opening o) w s = init_db-Sound o w s
step-Sound (opening_replicas o dsns) w s =
    then_replicas-Sound dsns (init_db o w) (init_db-Sound o w s)
step-Sound closing w s = close-Sound w s
step-Sound (probing n answers) w s =
    Fits-Sound w (probe_once n answers w.manager) s (probe_once-Fits n answers w.manager s.1)
step-Sound start_probing w s =
    Fits-Sound w (init_replica_health w.manager) s (init_health-Fits w.manager s.1)
step-Sound (choosing draw mode) w s =
    Fits-Sound w (from_context draw mode w.manager).0 s (from_context-Fits draw mode w.manager s.1)
step-Sound (setting p) w s =
    Fits-Sound w (set_picker p w.manager) s (set_picker-Fits p w.manager s.1)

run-Sound : (cs : List Call) (w : World) → Sound w → Sound (run cs w)
unfolding run
run-Sound [] w s = s
run-Sound (c ∷ cs) w s = run-Sound cs (step c w) (step-Sound c w s)

-- In any sequence of calls of a new manager, whatever the server and the contexts do: the pools that are
-- open are the master and the replicas that the manager holds, each as often as it is held, and the
-- marks of health, once they are set, are as many as the replicas.
pub run-NoLeak :
    (configured : Bool) (cs : List Call)
    → NoLeak (run cs (new_world configured)) × Aligned (run cs (new_world configured)).manager
run-NoLeak configured cs = run-Sound cs (new_world configured) (λ d. refl, λ h. refl)
