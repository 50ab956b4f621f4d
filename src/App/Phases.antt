-- ===== src/App/Phases.antt =====
-- app.go: what is open of an App before `Init`, after it, and once it is over.
use xlgo_core.Base.{
  ℕ, suc, ◌≡◌, ◌⊎◌, inl, inr, refl, sym, ap, ◌∙◌, subst, List, [], ◌∷◌, Bool, true, false, none,
  if◌then◌else◌, ◌==◌, Bool-cases, arith,
}
use xlgo_core.App.{
  App, World, Slot, Resource, logger, mysql, redis, storage, cache, cron, limiter, Answers,
  AppError, AppState, created, initializing, initialized, stopped, stopping, is_stopping, go,
}
use xlgo_core.App.Init.{
  Stage, resolves_config, traces, migrates, sets_modes, probes, swaps_limiter, runs_hooks,
  opens_resource, install, swap_limiter, do_stage, carried, stages, do_stages, do_init, committed,
  concluded, commit_replaced_resources, fail_after_init, init_at,
}
use xlgo_core.App.Stop.{do_shutdown, shutdown, is_initialized}
use xlgo_core.App.Slots.{flag, Held, frame}
use xlgo_core.App.Failure.{stages-Held, fail_after_init-Undone}
use xlgo_core.App.Closed.{Owned, Held-Owned, view, do_shutdown-closed}

kept_flag : (r : Resource) (t : Slot) → flag r (record t { previous = none }) ≡ flag r t
kept_flag logger t = refl
kept_flag mysql t = refl
kept_flag redis t = refl
kept_flag storage t = refl
kept_flag cache t = refl
kept_flag cron t = refl
kept_flag limiter t = refl

stopped_now :
    (s : Answers) (es : List AppError) (a : App) → is_stopping (fail_after_init s es a).state ≡ true
unfolding fail_after_init
stopped_now s es a = refl

do_stage-once :
    (s : Answers) (g : Stage) (a : App) → (do_stage s g a).0.shutdown_once ≡ a.shutdown_once
unfolding do_stage install swap_limiter go
do_stage-once s resolves_config a = ground arith
do_stage-once s sets_modes a = refl
do_stage-once s traces a = ground arith
do_stage-once s (opens_resource r) a = ground arith
do_stage-once s migrates a = refl
do_stage-once s probes a = ground arith
do_stage-once s swaps_limiter a = refl
do_stage-once s runs_hooks a = refl

carried-once :
    (a : App) (es : List AppError) (rest : App × List AppError)
    → rest.0.shutdown_once ≡ a.shutdown_once
    → (carried a es rest).0.shutdown_once ≡ a.shutdown_once
carried-once a [] rest h = h
carried-once a (e ∷ es) rest h = refl

do_stages-once :
    (s : Answers) (gs : List Stage) (a : App) → (do_stages s gs a).0.shutdown_once ≡ a.shutdown_once
unfolding do_stages
do_stages-once s [] a = refl
do_stages-once s (g ∷ gs) a =
    let b = (do_stage s g a).0 in
    carried-once b (do_stage s g a).1 (do_stages s gs b) (do_stages-once s gs b)
    ∙ do_stage-once s g a

not_over :
    (q : AppState) (a : App) → a.state ≡ q → is_stopping q ≡ false → is_stopping a.state ≡ true → ⊥
not_over q a e n y = let z : is_stopping q ≡ true = subst (λ x. is_stopping x ≡ true) e y in cc

module _ (id : ℕ) (w : World) where
  pub record Gone (r : Resource) (a : App) : Type 0 where
    pub same : a.id ≡ id
    pub gone : a.world.live r id ≡ false
    pub others : (o : ℕ) → (o == id) ≡ false → a.world.live r o ≡ w.live r o

  abbrev pub Fresh : App → Type 0
  Fresh a = (a.state ≡ created) × (a.shutdown_once ≡ false) × ((r : Resource) → Held id w r true a)

  abbrev pub Ready : App → Type 0
  Ready a =
      (a.state ≡ initialized)
      × (a.init_error ≡ [])
      × (a.shutdown_once ≡ false)
      × ((r : Resource) → Owned id w r a)

  abbrev pub Over : App → Type 0
  Over a = (is_stopping a.state ≡ true) × ((r : Resource) → Gone r a)

  abbrev pub Phase : App → Type 0
  Phase a = Fresh a ⊎ Ready a ⊎ Over a

  -- What `Init` answers: no error, or the App is over.
  abbrev pub Settled : App × List AppError → Type 0
  Settled x = ((x.1 ≡ []) × Phase x.0) ⊎ Over x.0

  Gone-view :
      (r : Resource) (a b : App)
      → b.id ≡ a.id
      → b.world.live r ≡ a.world.live r
      → Gone r a
      → Gone r b
  Gone-view r a b i l v = record { same = rw i v.same; gone = rw l v.gone; others = rw l v.others }

  -- What the phase does not see.
  pub Phase-view :
      (a b : App)
      → b.id ≡ a.id
      → b.slots ≡ a.slots
      → b.world ≡ a.world
      → b.state ≡ a.state
      → b.shutdown_once ≡ a.shutdown_once
      → b.init_error ≡ a.init_error
      → Phase a
      → Phase b
  Phase-view a b i t l q o n (inl (x, y, v)) =
      inl
        (q ∙ x, o ∙ y, λ r. frame id w r true a b i t (ap World.live l) (ap World.defaults l) (v r))
  Phase-view a b i t l q o n (inr (inl (x, z, y, v))) = inr (
      inl (
        q ∙ x,
        n ∙ z,
        o ∙ y,
        λ r. view id w r a b i (ap (λ f. f r) t) (ap (λ m. m.live r) l) (v r),
      ))
  Phase-view a b i t l q o n (inr (inr (x, v))) =
      inr (inr (ap is_stopping q ∙ x, λ r. Gone-view r a b i (ap (λ m. m.live r) l) (v r)))

  pub go-Phase : (given : Bool) (a : App) → Phase a → Phase (go given a)
  unfolding go
  go-Phase false a v = v
  go-Phase true a v = elim (Bool-cases (is_stopping a.state)) [
    | inl y ↦ rw y v
    | inr n ↦ rw n (Phase-view a (record a { wg = suc a.wg }) refl refl refl refl refl refl v)
  ]

  last-Over :
      (o q : Bool) (a b c : App) (es fs gs : List AppError)
      → o ≡ false
      → q ≡ false
      → Over c
      → Over (if◌then◌else◌ {A = App × List AppError} o (a, es) (if q then (b, fs) else (c, gs))).0
  last-Over false false a b c es fs gs x y v = v
  last-Over true q a b c es fs gs x y v = cc
  last-Over false true a b c es fs gs x y v = cc

  first-Over :
      (o q : Bool) (a b c : App) (es fs gs : List AppError)
      → q ≡ true
      → Over a
      → Over b
      → Over (if◌then◌else◌ {A = App × List AppError} o (a, es) (if q then (b, fs) else (c, gs))).0
  first-Over true q a b c es fs gs x u v = u
  first-Over false true a b c es fs gs x u v = v
  first-Over false false a b c es fs gs x u v = cc

  shut_down :
      (s : Answers) (a : App)
      → is_stopping a.state ≡ false
      → a.shutdown_once ≡ false
      → ((r : Resource) → Owned id w r a)
      → Over (shutdown s a).0
  unfolding shutdown
  shut_down s a q o v =
      let b = record a { shutdown_once = true; state = stopping } in
      let c = do_shutdown s (is_initialized a.state) b in
      let closed : Over (record c.0 { state = stopped; shutdown_error = c.1 }) = (
        refl,
        λ r.
            let u =
              do_shutdown-closed id w s (is_initialized a.state) r b
                (λ y. view id w y a b refl refl refl (v y)) in
            record { same = u.0.same; gone = u.1; others = u.0.others },
      ) in
      last-Over a.shutdown_once (is_stopping a.state) a (record a { shutdown_once = true })
        (record c.0 { state = stopped; shutdown_error = c.1 }) a.shutdown_error a.shutdown_error c.1
        o q closed

  pub shut-Over : (s : Answers) (a : App) → Over a → Over (shutdown s a).0
  unfolding shutdown
  shut-Over s a v =
      let b = record a { shutdown_once = true } in
      let c =
        do_shutdown s (is_initialized a.state)
          (record a { shutdown_once = true; state = stopping }) in
      first-Over a.shutdown_once (is_stopping a.state) a b
        (record c.0 { state = stopped; shutdown_error = c.1 }) a.shutdown_error a.shutdown_error c.1
        v.0 v (v.0, λ r. Gone-view r a b refl refl (v.1 r))

  pub shutdown-Over : (s : Answers) (a : App) → Phase a → Over (shutdown s a).0
  shutdown-Over s a (inl (q, o, v)) =
      shut_down s a (rw q refl) o (λ r. Held-Owned id w r true a (v r))
  shutdown-Over s a (inr (inl (q, z, o, v))) = shut_down s a (rw q refl) o v
  shutdown-Over s a (inr (inr v)) = shut-Over s a v

  concluded-Settled :
      (s : Answers) (x : App × List AppError)
      → ((r : Resource) → w.defaults r ≡ none → ⊥)
      → (x.0.shutdown_once ≡ false)
      → ((r : Resource) → Held id w r false x.0)
      → Settled (concluded s (committed x))
  unfolding concluded committed commit_replaced_resources
  concluded-Settled s (a, []) d o v = inl (
    refl,
    inr (
        inl (
          refl,
          refl,
          o,
          λ r. record {
            same = (v r).same;
            owner = λ l. kept_flag r (a.slots r) ∙ (v r).owner l;
            has = λ f. (v r).has (sym (kept_flag r (a.slots r)) ∙ f);
            bare = (v r).bare;
            others = (v r).others;
          },
        )),
  )
  concluded-Settled s (a, e ∷ es) d o v = inr (
      (
        stopped_now s (e ∷ es) a,
        λ r.
            let u = fail_after_init-Undone id w s (e ∷ es) r a (d r) (v r) in
            record { same = u.same; gone = u.gone; others = u.others },
      ))

  pub init_at-Settled :
      (s : Answers) (q : AppState) (a : App)
      → ((r : Resource) → w.defaults r ≡ none → ⊥)
      → a.state ≡ q
      → Phase a
      → Settled (init_at q s a)
  unfolding init_at do_init
  init_at-Settled s created a d e (inl (q, o, v)) =
      let start = record a { state = initializing } in
      concluded-Settled s (do_stages s stages start) d (do_stages-once s stages start ∙ o)
        (λ r. stages-Held s id w r a (v r))
  init_at-Settled s created a d e (inr (inl (q, z, o, v))) = cc
  init_at-Settled s created a d e (inr (inr (x, v))) = absurd (not_over created a e refl x)
  init_at-Settled s initializing a d e (inl (q, o, v)) = cc
  init_at-Settled s initializing a d e (inr (inl (q, z, o, v))) = cc
  init_at-Settled s initializing a d e (inr (inr (x, v))) =
      absurd (not_over initializing a e refl x)
  init_at-Settled s initialized a d e (inl (q, o, v)) = cc
  init_at-Settled s initialized a d e (inr (inl (q, z, o, v))) = inl (z, inr (inl (q, z, o, v)))
  init_at-Settled s initialized a d e (inr (inr (x, v))) = absurd (not_over initialized a e refl x)
  init_at-Settled s stopping a d e (inl (q, o, v)) = cc
  init_at-Settled s stopping a d e (inr (inl (q, z, o, v))) = cc
  init_at-Settled s stopping a d e (inr (inr v)) = inr v
  init_at-Settled s stopped a d e (inl (q, o, v)) = cc
  init_at-Settled s stopped a d e (inr (inl (q, z, o, v))) = cc
  init_at-Settled s stopped a d e (inr (inr v)) = inr v
