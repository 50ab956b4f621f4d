-- ===== src/App/Slots.antt =====
-- app.go: what each step of `doInit` and of the rollback does to one resource.
use xlgo_core.Base.{
  ℕ, suc, ◌≡◌, ◌⊎◌, inl, inr, refl, sym, ap, ◌∙◌, subst, Bool, true, false, Option, none,
  if◌then◌else◌, ◌==◌, Bool-cases, arith, ==_iff,
}
use xlgo_core.App.{
  App, World, Slot, Resource, logger, mysql, redis, storage, cache, cron, limiter, index, Answers,
  same_resource, go, is_stopping,
}
use xlgo_core.App.Init.{
  install, swap_limiter, Stage, resolves_config, traces, migrates, sets_modes, configured,
  answering, probes, swaps_limiter, runs_hooks, opens_resource, lives, do_stage, guard,
}

from_index : ℕ → Resource
from_index n =
    if n == 0
    then logger
    else if n == 1
    then mysql
    else if n == 2
    then redis
    else if n == 3
    then storage
    else if n == 4
    then cache
    else if n == 5
    then cron
    else limiter

from_index-index : (r : Resource) → from_index (index r) ≡ r
unfolding from_index
from_index-index logger = refl
from_index-index mysql = refl
from_index-index redis = refl
from_index-index storage = refl
from_index-index cache = refl
from_index-index cron = refl
from_index-index limiter = refl

pub same_resource_sound : (q r : Resource) → same_resource q r ≡ true → q ≡ r
same_resource_sound q r h =
    sym (from_index-index q)
    ∙ (ap from_index ((==_iff (index q) (index r)).0 h) ∙ from_index-index r)

pub same_resource_refl : (r : Resource) → same_resource r r ≡ true
same_resource_refl r = (==_iff (index r) (index r)).1 refl

-- What says that an object of the App is to be closed.
abbrev pub flag : Resource → Slot → Bool
flag limiter t = t.manager
flag r t = t.initialized

-- The App `id` holds one resource in order, `due` says whether its step is still to come.
pub record Held (id : ℕ) (w : World) (r : Resource) (due : Bool) (a : App) : Type 0 where
  pub same : a.id ≡ id
  pub owner : a.world.live r id ≡ true → flag r (a.slots r) ≡ true
  pub has : flag r (a.slots r) ≡ true → (a.slots r).manager ≡ true
  pub bare : lives r ≡ false → a.world.live r id ≡ false
  pub others : (o : ℕ) → (o == id) ≡ false → a.world.live r o ≡ w.live r o
  pub kept : due ≡ true → same_resource r limiter ≡ true → (a.slots r).manager ≡ true
  pub default :
      (((a.slots r).previous ≡ none) × (a.world.defaults r ≡ w.defaults r))
      ⊎ ((due ≡ false) × ((a.slots r).previous ≡ w.defaults r) × (guard r (a.slots r) ≡ true))

-- The resource that a step opens.
abbrev pub concerns : Resource → Stage → Bool
concerns r (opens_resource q) = same_resource r q
concerns r swaps_limiter = same_resource r limiter
concerns r _ = false

module _ (id : ℕ) (w : World) where
  install_other :
      (q r : Resource) (due : Bool) (a : App)
      → same_resource r q ≡ false
      → Held id w r due a
      → Held id w r due (install q a)
  unfolding install
  install_other q r due a ne v = record {
    same = v.same;
    owner = rw ne v.owner;
    has = rw ne v.has;
    bare = rw ne v.bare;
    others = λ o h. rw ne (v.others o h);
    kept = rw ne v.kept;
    default = rw ne v.default;
  }

  install_default :
      (r : Resource) (a : App) → Held id w r true a → a.world.defaults r ≡ w.defaults r
  install_default r a v = elim v.default [ inl (n, e) ↦ e | inr (f, p, g) ↦ cc ]

  full_flag :
      (r : Resource) (p : Option ℕ)
      → flag r (record { initialized = true; manager = true; previous = p }) ≡ true
  full_flag logger p = refl
  full_flag mysql p = refl
  full_flag redis p = refl
  full_flag storage p = refl
  full_flag cache p = refl
  full_flag cron p = refl
  full_flag limiter p = refl

  full_guard :
      (r : Resource) (p : Option ℕ)
      → guard r (record { initialized = true; manager = true; previous = p }) ≡ true
  full_guard logger p = refl
  full_guard mysql p = refl
  full_guard redis p = refl
  full_guard storage p = refl
  full_guard cache p = refl
  full_guard cron p = refl
  full_guard limiter p = refl

  install_self : (r : Resource) (a : App) → Held id w r true a → Held id w r false (install r a)
  unfolding install
  install_self r a v = record {
    same = v.same;
    owner = rw same_resource_refl λ l. full_flag r (a.world.defaults r);
    has = rw same_resource_refl λ f. refl;
    bare = rw same_resource_refl λ h. ground (arith, h, v.bare h);
    others = rw same_resource_refl λ o h. ground (arith, h, v.same, v.others o h);
    kept = λ d. cc;
    default =
        rw same_resource_refl
          (inr (refl, install_default r a v, full_guard r (a.world.defaults r)));
  }

  swap_limiter_self :
      (a : App) → Held id w limiter true a → Held id w limiter false (swap_limiter a)
  unfolding swap_limiter
  swap_limiter_self a v = record {
    same = v.same;
    owner = v.owner;
    has = v.has;
    bare = v.bare;
    others = v.others;
    kept = λ d. cc;
    default = inr (refl, install_default limiter a v, v.kept refl refl);
  }

  swap_limiter_other :
      (r : Resource) (due : Bool) (a : App)
      → same_resource r limiter ≡ false
      → Held id w r due a
      → Held id w r due (swap_limiter a)
  unfolding swap_limiter
  swap_limiter_other r due a ne v = record {
    same = v.same;
    owner = rw ne v.owner;
    has = rw ne v.has;
    bare = v.bare;
    others = v.others;
    kept = λ d h. cc;
    default = rw ne v.default;
  }

  -- A step that does not open `r` leaves it; the step that opens it comes once.
  pub not_due : (r : Resource) (b : Bool) (a : App) → Held id w r b a → Held id w r false a
  not_due r b a v = record {
    same = v.same;
    owner = v.owner;
    has = v.has;
    bare = v.bare;
    others = v.others;
    kept = λ d. cc;
    default = elim v.default [ inl e ↦ inl e | inr (d, p, g) ↦ inr (refl, p, g) ];
  }

  -- What a resource does not see.
  pub frame :
      (r : Resource) (due : Bool) (a b : App)
      → b.id ≡ a.id
      → b.slots ≡ a.slots
      → b.world.live ≡ a.world.live
      → b.world.defaults ≡ a.world.defaults
      → Held id w r due a
      → Held id w r due b
  frame r due a b i t l d v = record {
    same = rw i v.same;
    owner = rw (t, l) v.owner;
    has = rw t v.has;
    bare = rw l v.bare;
    others = rw l v.others;
    kept = rw t v.kept;
    default = rw (t, d) v.default;
  }

  pub go-Held :
      (r : Resource) (due : Bool) (a : App) → Held id w r due a → Held id w r due (go true a)
  unfolding go
  go-Held r due a v = elim (Bool-cases (is_stopping a.state)) [
    | inl y ↦ rw y v
    | inr n ↦ rw n (frame r due a (record a { wg = suc a.wg }) refl refl refl refl v)
  ]

  pub do_stage_other :
      (s : Answers) (g : Stage) (r : Resource) (due : Bool) (a : App)
      → concerns r g ≡ false
      → Held id w r due a
      → Held id w r due (do_stage s g a).0
  unfolding do_stage configured answering
  do_stage_other s resolves_config r due a ne v =
      ground (arith, v, frame r due a (record a { world = configured s a }) refl refl refl refl v)
  do_stage_other s sets_modes r due a ne v =
      frame r due a (record a { world = answering s a.world }) refl refl refl refl v
  do_stage_other s traces r due a ne v = ground (
    arith,
    v,
    frame r due a (record a { initialized_trace = true; world = record a.world { tracing = true } })
        refl refl refl refl v,
  )
  do_stage_other s migrates r due a ne v = v
  do_stage_other s probes r due a ne v = ground (arith, go-Held r due a v)
  do_stage_other s runs_hooks r due a ne v = v
  do_stage_other s swaps_limiter r due a ne v = swap_limiter_other r due a ne v
  do_stage_other s (opens_resource q) r due a ne v = ground (arith, install_other q r due a ne v)

  pub do_stage_self :
      (s : Answers) (g : Stage) (r : Resource) (a : App)
      → concerns r g ≡ true
      → Held id w r true a
      → Held id w r false (do_stage s g a).0
  unfolding do_stage
  do_stage_self s swaps_limiter r a e v =
      let q = same_resource_sound r limiter e in
      subst (λ y. Held id w y false (swap_limiter a)) (sym q)
        (swap_limiter_self a (subst (λ y. Held id w y true a) q v))
  do_stage_self s (opens_resource q) r a e v =
      let p = same_resource_sound r q e in
      let opened =
        subst (λ y. Held id w y false (install q a)) (sym p)
          (install_self q a (subst (λ y. Held id w y true a) p v)) in
      ground (arith, opened, not_due r true a v)
  do_stage_self s resolves_config r a e v = cc
  do_stage_self s traces r a e v = cc
  do_stage_self s migrates r a e v = cc
  do_stage_self s sets_modes r a e v = cc
  do_stage_self s probes r a e v = cc
  do_stage_self s runs_hooks r a e v = cc
