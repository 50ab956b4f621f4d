-- ===== src/Database/Pick.antt =====
-- database/manager.go: the replica that a read goes to.
use xlgo_core.Base.{
  ℕ, zero, suc, ◌%◌, ◌≤◌, ◌<◌, ◌≡◌, ◌≢◌, refl, ap, ◌∙◌, List, [], ◌∷◌, Bool, true, false,
  if◌then◌else◌, Option, none, some, length, arith, Bool-cases, inl, inr, ◌==◌,
}
use xlgo_core.Database.{
  Picker, round_robin, random, custom, get_elem?, random_pick, pick, Manager, replica,
  from_replicas, picked, read_pool, healthy_of, or_all, or_first,
}
use xlgo_core.Database.Pools.{count}

-- A picker of the package, with random numbers below their bound
abbrev pub BuiltIn : (ℕ → Option ℕ) → Picker → Type 0
BuiltIn draw (round_robin counter) = Unit
BuiltIn draw random = (n k : ℕ) → draw n ≡ some k → k < n
BuiltIn draw (custom f) = ⊥

-- The pool stands in the list.
abbrev pub Among : ℕ → List ℕ → Type 0
Among d ds = 1 ≤ count d ds

get_elem?-Among :
    (ds : List ℕ) (n : ℕ) → n < length ds → (d : ℕ) × (get_elem? ds n ≡ some d) × Among d ds
get_elem?-Among [] n h = absurd (omega (arith, h))
get_elem?-Among (x ∷ ds) zero h = (x, refl, here x)
  where
    here : (x : ℕ) → 1 ≤ count x (x ∷ ds)
    here x = ground arith
get_elem?-Among (x ∷ ds) (suc n) h =
    let (d, e, k) = get_elem?-Among ds n (omega (arith, h)) in (d, e, omega (arith, k))

pick-Among :
    (draw : ℕ → Option ℕ) (p : Picker) (x : ℕ) (ds : List ℕ)
    → BuiltIn draw p
    → (d : ℕ) × ((pick draw p (x ∷ ds)).1 ≡ some d) × Among d (x ∷ ds)
unfolding pick random_pick
pick-Among draw (round_robin counter) x ds h =
    get_elem?-Among (x ∷ ds) (counter % suc (length ds)) (omega arith)
pick-Among draw random x ds h = drawn (draw (suc (length ds))) (h (suc (length ds)))
  where
    drawn :
        (o : Option ℕ)
        → ((k : ℕ) → o ≡ some k → k < suc (length ds))
        → (d : ℕ) × (random_pick o (x ∷ ds) ≡ some d) × Among d (x ∷ ds)
    drawn none h = get_elem?-Among (x ∷ ds) 0 (omega arith)
    drawn (some n) h = get_elem?-Among (x ∷ ds) n (h n refl)
pick-Among draw (custom f) x ds h = absurd h

picked-Among :
    (draw : ℕ → Option ℕ) (m : Manager) (p : Picker) (pool : List ℕ) (x : ℕ) (ds : List ℕ)
    → pool ≡ x ∷ ds
    → BuiltIn draw p
    → (d : ℕ) × ((picked draw m pool (some p)).1 ≡ some d) × Among d (x ∷ ds)
unfolding picked or_first
picked-Among draw m p pool x ds e h =
    let (d, k, a) = pick-Among draw p x ds h in
    (d, ap (λ z. or_first z (pick draw p z).1) e ∙ ap (or_first (x ∷ ds)) k, a)

read_pool_healthy :
    (m : Manager) (h : ℕ) (hs : List ℕ)
    → m.replica_health_set ≡ true
    → healthy_of m.replicas m.replica_healthy ≡ h ∷ hs
    → read_pool m ≡ h ∷ hs
unfolding read_pool or_all
read_pool_healthy m h hs e k = go m.replica_health_set e
  where
    go :
        (b : Bool)
        → b ≡ true
        → (if b then or_all m.replicas (healthy_of m.replicas m.replica_healthy) else m.replicas)
          ≡ h ∷ hs
    go true e = ap (or_all m.replicas) k
    go false e = absurd (cc)

no_replicas : (marks : List Bool) (h : ℕ) (hs : List ℕ) → healthy_of [] marks ≢ h ∷ hs
unfolding healthy_of
no_replicas marks h hs e = cc

from_replicas-Among :
    (draw : ℕ → Option ℕ) (m : Manager) (p : Picker) (ds : List ℕ) (h : ℕ) (hs : List ℕ)
    → m.picker ≡ some p
    → BuiltIn draw p
    → read_pool m ≡ h ∷ hs
    → (marks : List Bool) × (healthy_of ds marks ≡ h ∷ hs)
    → (d : ℕ) × ((from_replicas draw m ds).1 ≡ some d) × Among d (h ∷ hs)
unfolding from_replicas
from_replicas-Among draw m p [] h hs e b r (marks, k) = absurd (no_replicas marks h hs k)
from_replicas-Among draw m p (x ∷ ds) h hs e b r _ =
    let (d, k, a) = picked-Among draw m p (read_pool m) h hs r b in
    (d, ap (λ z. (picked draw m (read_pool m) z).1) e ∙ k, a)

-- A place of the lists where the pool stands with a mark of health
abbrev pub HealthyAt : List ℕ → List Bool → ℕ → Type 0
HealthyAt ds marks d = (i : ℕ) × (get_elem? ds i ≡ some d) × (get_elem? marks i ≡ some true)

healthy_of-found :
    (ds : List ℕ) (marks : List Bool) (i d : ℕ)
    → get_elem? ds i ≡ some d
    → get_elem? marks i ≡ some true
    → (h : ℕ) × (hs : List ℕ) × (healthy_of ds marks ≡ h ∷ hs)
unfolding healthy_of
healthy_of-found [] marks i d e k = absurd (cc e)
healthy_of-found (x ∷ ds) [] i d e k = absurd (cc k)
healthy_of-found (x ∷ ds) (true ∷ marks) i d e k = (x, healthy_of ds marks, refl)
healthy_of-found (x ∷ ds) (false ∷ marks) zero d e k = absurd (cc k)
healthy_of-found (x ∷ ds) (false ∷ marks) (suc i) d e k = healthy_of-found ds marks i d e k

Among-HealthyAt :
    (ds : List ℕ) (marks : List Bool) (d : ℕ) → Among d (healthy_of ds marks) → HealthyAt ds marks d
unfolding healthy_of
Among-HealthyAt [] marks d h = absurd (omega (arith, h))
Among-HealthyAt (x ∷ ds) [] d h = absurd (omega (arith, h))
Among-HealthyAt (x ∷ ds) (false ∷ marks) d h =
    let (i, e, k) = Among-HealthyAt ds marks d h in (suc i, e, k)
Among-HealthyAt (x ∷ ds) (true ∷ marks) d h = elim (Bool-cases (x == d)) [
  | inl same ↦ (zero, ground arith, refl)
  | inr apart ↦
      let (i, e, k) = Among-HealthyAt ds marks d (ground (arith, h, apart)) in (suc i, e, k)
]

-- With marks of health that are set, and some replica that is marked healthy at its place, `Replica`
-- gives a replica that is marked healthy at its place, by either picker of the package, where the
-- random numbers are below their bound.
pub replica-HealthyAt :
    (draw : ℕ → Option ℕ) (m : Manager) (p : Picker) (i h : ℕ)
    → m.picker ≡ some p
    → BuiltIn draw p
    → m.replica_health_set ≡ true
    → get_elem? m.replicas i ≡ some h
    → get_elem? m.replica_healthy i ≡ some true
    → (d : ℕ) × ((replica draw m).1 ≡ some d) × HealthyAt m.replicas m.replica_healthy d
unfolding replica
replica-HealthyAt draw m p i h e b s there mark =
    let (x, xs, k) = healthy_of-found m.replicas m.replica_healthy i h there mark in
    let (d, g, a) =
      from_replicas-Among draw m p m.replicas x xs e b (read_pool_healthy m x xs s k)
        (m.replica_healthy, k) in
    (d, g, Among-HealthyAt m.replicas m.replica_healthy d (rw k a))
