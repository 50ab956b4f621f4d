-- ===== src/App/Failure.antt =====
-- app.go: an App whose `Init` fails takes back what it opened. The default manager of the configuration
-- and the modes of gin and of the answers stay as `Init` has set them.
use xlgo_core.Base.{
  ℕ, ◌≡◌, ◌⊎◌, inl, inr, refl, sym, ap, ◌∙◌, subst, List, [], ◌∷◌, true, false, none, if◌then◌else◌,
  ◌==◌, Bool-cases, arith, any, ==_iff,
}
use xlgo_core.App.{
  App, World, Resource, logger, mysql, redis, storage, cache, cron, limiter, Answers, Options, Hook,
  AppError, app_closed, initializing, stopping, same_resource, set_live, stop_cron, new_app,
  fresh_slot,
}
use xlgo_core.App.Init.{
  stages, do_stages, do_init, closes, lives, rollback_order, rollback_replaced_resources,
  close_trace, fail_after_init, init, concluded, committed, init_at,
}
use xlgo_core.App.Slots.{same_resource_sound, flag, Held, frame}
use xlgo_core.App.Rollback.{Undone, due_in, once, do_stages-Held, roll_back_each-all}

module _ (id : ℕ) (w : World) where
  listed : (r : Resource) → any (same_resource r) rollback_order ≡ true
  listed logger = refl
  listed mysql = refl
  listed redis = refl
  listed storage = refl
  listed cache = refl
  listed cron = refl
  listed limiter = refl

  stop_cron_other :
      (s : Answers) (r : Resource) (a : App)
      → same_resource r cron ≡ false
      → Held id w r false a
      → Held id w r false (stop_cron s a).0
  unfolding stop_cron
  stop_cron_other s r a ne v = elim (Bool-cases (a.slots cron).initialized) [
    | inr off ↦ rw off v
    | inl on ↦ elim (Bool-cases (a.slots cron).manager) [
      | inr none' ↦
          rw (on, none')
            record {
              same = v.same;
              owner = rw ne v.owner;
              has = rw ne v.has;
              bare = v.bare;
              others = v.others;
              kept = λ x. cc;
              default = rw ne v.default;
            }
      | inl some' ↦
          rw (on, some')
            record {
              same = v.same;
              owner = rw ne v.owner;
              has = rw ne v.has;
              bare = rw ne v.bare;
              others = rw ne v.others;
              kept = λ x. cc;
              default = rw ne v.default;
            }
    ]
  ]

  stop_cron_self :
      (s : Answers) (a : App)
      → Held id w cron false a
      → Held id w cron false (stop_cron s a).0 × ((stop_cron s a).0.world.live cron id ≡ false)
  unfolding stop_cron
  stop_cron_self s a v = elim (Bool-cases (a.slots cron).initialized) [
    | inr off ↦ rw off (v, ground (arith, off, v.owner))
    | inl on ↦
        let some' = v.has on in
        rw (on, some')
          (
            record {
              same = v.same;
              owner = λ l. ground (arith, l, v.same);
              has = λ f. cc;
              bare = λ b. cc;
              others = λ o h. ground (arith, h, v.same, v.others o h);
              kept = λ x. cc;
              default = elim v.default [ inl e ↦ inl e | inr (d, p, g) ↦ inr (d, p, refl) ];
            },
            ground (arith, v.same),
          )
  ]

  cron_or_bare : (r : Resource) → closes r ≡ false → (r ≡ cron) ⊎ (lives r ≡ false)
  cron_or_bare logger h = cc
  cron_or_bare mysql h = cc
  cron_or_bare redis h = cc
  cron_or_bare storage h = cc
  cron_or_bare cache h = inr refl
  cron_or_bare cron h = inl refl
  cron_or_bare limiter h = cc

  stop_cron-Held :
      (s : Answers) (r : Resource) (a : App)
      → Held id w r false a
      → Held id w r false (stop_cron s a).0
        × (closes r ≡ false → (stop_cron s a).0.world.live r id ≡ false)
  stop_cron-Held s r a v = elim (Bool-cases (same_resource r cron)) [
    | inl mine ↦
        let e = sym (same_resource_sound r cron mine) in
        let (h, l) = stop_cron_self s a (subst (λ y. Held id w y false a) (sym e) v) in
        (
          subst (λ y. Held id w y false (stop_cron s a).0) e h,
          λ c. subst (λ y. (stop_cron s a).0.world.live y id ≡ false) e l,
        )
    | inr ne ↦
        let h = stop_cron_other s r a ne v in
        (
          h,
          λ c. elim (cron_or_bare r c) [
            | inl e ↦
                let y : same_resource r cron ≡ true =
                  subst (λ y. same_resource y cron ≡ true) (sym e) refl in
                cc
            | inr b ↦ h.bare b
          ],
        )
  ]

  close_trace-Held :
      (s : Answers) (r : Resource) (a : App)
      → Held id w r false a
      → Held id w r false (close_trace s a).0 × ((close_trace s a).0.world.live r ≡ a.world.live r)
  unfolding close_trace
  close_trace-Held s r a v = elim (Bool-cases a.initialized_trace) [
    | inr off ↦ (ground (arith, off, v), ground (arith, off))
    | inl on ↦ rw on (
      frame id w r false a
          (record a { initialized_trace = false; world = record a.world { tracing = false } }) refl
          refl refl refl v,
      refl,
    )
  ]

  pub fail_after_init-Undone :
      (s : Answers) (e : List AppError) (r : Resource) (a : App)
      → (w.defaults r ≡ none → ⊥)
      → Held id w r false a
      → Undone id w r (fail_after_init s e a)
  unfolding fail_after_init rollback_replaced_resources
  fail_after_init-Undone s e r a some' v =
      let quiet = record a {
        state = stopping;
        cancelled = true;
        wg = if s.goroutines_end then 0 else a.wg;
      } in
      let b = stop_cron-Held s r quiet (frame id w r false a quiet refl refl refl refl v) in
      let c = close_trace-Held s r (stop_cron s quiet).0 b.0 in
      let u =
        roll_back_each-all id w s rollback_order r (close_trace s (stop_cron s quiet).0).0 some'
          (listed r) (λ h. ap (λ l. l id) c.1 ∙ b.1 h) c.0 in
      record { same = u.same; default = u.default; gone = u.gone; others = u.others; off = u.off }

failed_stages :
    (s : Answers) (x : App × List AppError) (a : App) (e : AppError) (es : List AppError)
    → concluded s (committed x) ≡ (a, e ∷ es)
    → fail_after_init s x.1 x.0 ≡ a
unfolding concluded committed
failed_stages s (b, []) a e es h = cc
failed_stages s (b, f ∷ fs) a e es h = ap (λ y. y.0) h

due_in-stages : (r : Resource) → due_in r stages ≡ true
due_in-stages logger = refl
due_in-stages mysql = refl
due_in-stages redis = refl
due_in-stages storage = refl
due_in-stages cache = refl
due_in-stages cron = refl
due_in-stages limiter = refl

once-stages : (r : Resource) → once r stages ≡ true
once-stages logger = refl
once-stages mysql = refl
once-stages redis = refl
once-stages storage = refl
once-stages cache = refl
once-stages cron = refl
once-stages limiter = refl

fresh_flag :
    (r : Resource)
    → (flag r (fresh_slot r) ≡ (fresh_slot r).manager)
      × ((fresh_slot r).previous ≡ none)
      × (same_resource r limiter ≡ true → (fresh_slot r).manager ≡ true)
      × (same_resource r limiter ≡ true → lives r ≡ true)
fresh_flag logger = (refl, refl, λ h. cc, λ h. refl)
fresh_flag mysql = (refl, refl, λ h. cc, λ h. refl)
fresh_flag redis = (refl, refl, λ h. cc, λ h. refl)
fresh_flag storage = (refl, refl, λ h. cc, λ h. refl)
fresh_flag cache = (refl, refl, λ h. cc, λ h. cc)
fresh_flag cron = (refl, refl, λ h. cc, λ h. refl)
fresh_flag limiter = (refl, refl, λ h. refl, λ h. refl)

-- An App that was just made, its registry of limiters counted as its own.
pub new_app-Held :
    (id : ℕ) (o : Options) (hooks : List Hook) (w : World) (r : Resource)
    → w.live r id ≡ false
    → Held id (set_live limiter id true w) r true (new_app id o hooks w)
unfolding new_app
new_app-Held id o hooks w r h =
    let (f, p, m, c) = fresh_flag r in
    record {
      same = refl;
      owner = elim (Bool-cases (same_resource r limiter)) [
        | inl mine ↦ λ l. f ∙ m mine
        | inr other ↦ ground (arith, other, h)
      ];
      has = λ q. sym f ∙ q;
      bare = elim (Bool-cases (same_resource r limiter)) [
        | inl mine ↦ let on = c mine in λ b. cc
        | inr other ↦ ground (arith, other, h)
      ];
      others = λ q n. refl;
      kept = λ d. m;
      default = inl (p, refl);
    }

pub set_live_else :
    (id p : ℕ) (r : Resource) (w : World)
    → (p == id) ≡ false
    → (set_live limiter id true w).live r p ≡ w.live r p
set_live_else id p r w ne = elim (Bool-cases (same_resource r limiter)) [
  | inl mine ↦
      subst (λ y. (set_live limiter id true w).live y p ≡ w.live y p)
        (sym (same_resource_sound r limiter mine)) (rw ne refl)
  | inr other ↦ rw other refl
]

closed_for_good :
    (s s' : Answers) (es : List AppError) (a : App)
    → init s' (fail_after_init s es a) ≡ (fail_after_init s es a, app_closed ∷ [])
unfolding init init_at fail_after_init
closed_for_good s s' es a = refl

pub stages-Held :
    (s : Answers) (id : ℕ) (w : World) (r : Resource) (a : App)
    → Held id w r true a
    → Held id w r false (do_stages s stages (record a { state = initializing })).0
stages-Held s id w r a v =
    let start = record a { state = initializing } in
    let begun = frame id w r true a start refl refl refl refl v in
    do_stages-Held id w s stages r start (once-stages r)
      (subst (λ b. Held id w r b start) (sym (due_in-stages r)) begun)

-- An `Init` that fails, at whatever step, takes back what it opened: the default logger, databases,
-- storage, cache, scheduler and limiters are the objects they were, no such object of this App is open,
-- nobody else's was closed, and the App never starts again. (These defaults are never nil: each package
-- makes one when it is loaded.)
pub init-undone :
    (s s' : Answers) (id : ℕ) (o : Options) (hooks : List Hook) (w : World) (a : App) (e : AppError)
    (es : List AppError) (r : Resource) (p : ℕ)
    → (w.defaults r ≡ none → ⊥)
    → w.live r id ≡ false
    → init s (new_app id o hooks w) ≡ (a, e ∷ es)
    → (a.world.defaults r ≡ w.defaults r)
      × (a.world.live r p ≡ w.live r p)
      × (init s' a ≡ (a, app_closed ∷ []))
unfolding init init_at do_init new_app
init-undone s s' id o hooks w a e es r p some' fresh h =
    let fresh_app = new_app id o hooks w in
    let start = record fresh_app { state = initializing } in
    let w' = set_live limiter id true w in
    let run = do_stages s stages start in
    let held = stages-Held s id w' r fresh_app (new_app-Held id o hooks w r fresh) in
    let u = fail_after_init-Undone id w' s run.1 r run.0 some' held in
    let same = failed_stages s run a e es h in
    (
      ap (λ x. x.world.defaults r) (sym same) ∙ u.default,
      elim (Bool-cases (p == id)) [
        | inl me ↦
            let q = (==_iff p id).0 me in
            subst (λ y. a.world.live r y ≡ w.live r y) (sym q)
              (ap (λ x. x.world.live r id) (sym same) ∙ (u.gone ∙ sym fresh))
        | inr other ↦
            ap (λ x. x.world.live r p) (sym same)
            ∙ (u.others p other ∙ set_live_else id p r w other)
      ],
      subst (λ x. init s' x ≡ (x, app_closed ∷ [])) same (closed_for_good s s' run.1 run.0),
    )
