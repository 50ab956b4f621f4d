-- ===== src/App/Closed.antt =====
-- app.go: after `Shutdown` nothing of the App is open, whatever was called before.
use xlgo_core.Base.{
  ℕ, ◌+◌, ◌≡◌, ◌⊎◌, inl, inr, refl, sym, ◌∙◌, subst, List, [], ◌∷◌, Bool, true, false, Option,
  if◌then◌else◌, ◌==◌, Bool-cases, arith, any, All,
}
use xlgo_core.App.{
  App, World, Slot, Resource, logger, mysql, redis, storage, cache, cron, limiter, Answers,
  at_resource, same_resource, set_live, stop_cron,
}
use xlgo_core.App.Init.{lives}
use xlgo_core.App.Stop.{
  close_resource, close_each, close_order, close_resources, shut_server, stop_limiter, flush_trace,
  do_shutdown, run_on_stop_hooks, release,
}
use xlgo_core.App.Slots.{same_resource_sound, same_resource_refl, flag, Held}

module _ (id : ℕ) (w : World) where
  -- The App has one resource in hand.
  pub record Owned (r : Resource) (a : App) : Type 0 where
    pub same : a.id ≡ id
    pub owner : a.world.live r id ≡ true → flag r (a.slots r) ≡ true
    pub has : flag r (a.slots r) ≡ true → (a.slots r).manager ≡ true
    pub bare : lives r ≡ false → a.world.live r id ≡ false
    pub others : (o : ℕ) → (o == id) ≡ false → a.world.live r o ≡ w.live r o

  pub Held-Owned : (r : Resource) (b : Bool) (a : App) → Held id w r b a → Owned r a
  Held-Owned r b a v = record {
    same = v.same;
    owner = v.owner;
    has = v.has;
    bare = v.bare;
    others = v.others;
  }

  pub view :
      (r : Resource) (a b : App)
      → b.id ≡ a.id
      → b.slots r ≡ a.slots r
      → b.world.live r ≡ a.world.live r
      → Owned r a
      → Owned r b
  view r a b i t l v = record {
    same = rw i v.same;
    owner = rw (t, l) v.owner;
    has = rw t v.has;
    bare = rw l v.bare;
    others = rw l v.others;
  }

  -- An object is closed and its flag is cleared.
  put_off :
      (r : Resource) (t : Slot) (a b : App)
      → b.id ≡ a.id
      → b.slots r ≡ t
      → b.world.live r ≡ (λ p. if p == a.id then false else a.world.live r p)
      → (flag r t ≡ true → t.manager ≡ true)
      → Owned r a
      → Owned r b × (b.world.live r id ≡ false)
  put_off r t a b i e l f v =
      let gone : b.world.live r id ≡ false = rw l (ground (arith, v.same)) in
      (
        record {
          same = rw i v.same;
          owner = λ on. cc;
          has = rw e f;
          bare = λ c. gone;
          others = λ o h. rw l (ground (arith, h, v.same, v.others o h));
        },
        gone,
      )

  -- What a step of the shutdown does to one resource: it stays in hand, and what is closed stays so.
  record Step (r : Resource) (a b : App) : Type 0 where
    pub owned : Owned r b
    pub gone : a.world.live r id ≡ false → b.world.live r id ≡ false

  done : (r : Resource) (a b : App) → Owned r b × (b.world.live r id ≡ false) → Step r a b
  done r a b (o, g) = record { owned = o; gone = λ x. g }

  seen :
      (r : Resource) (a b : App)
      → b.id ≡ a.id
      → b.slots r ≡ a.slots r
      → b.world.live r ≡ a.world.live r
      → Owned r a
      → Step r a b
  seen r a b i t l v = record { owned = view r a b i t l v; gone = rw l λ x. x }

  -- One resource is put off, the others are as before.
  close_at :
      (q r : Resource) (t : Slot) (a b : App)
      → b.id ≡ a.id
      → b.slots ≡ at_resource q t a.slots
      → b.world.live
        ≡ at_resource q (λ p. if p == a.id then false else a.world.live q p) a.world.live
      → (flag q t ≡ true → t.manager ≡ true)
      → Owned r a
      → Step r a b × (same_resource r q ≡ true → b.world.live r id ≡ false)
  close_at q r t a b i e l f v = elim (Bool-cases (same_resource r q)) [
    | inl mine ↦
        let p = sym (same_resource_sound r q mine) in
        let both =
          put_off q t a b i (rw (e, same_resource_refl) refl) (rw (l, same_resource_refl) refl) f
            (subst (λ y. Owned y a) (sym p) v) in
        let here = subst (λ y. Owned y b × (b.world.live y id ≡ false)) p both in
        (done r a b here, λ m. here.1)
    | inr ne ↦ (seen r a b i (rw (e, ne) refl) (rw (l, ne) refl) v, λ m. cc)
  ]

  abbrev Whole : App → Type 0
  Whole a = (r : Resource) → Owned r a

  -- The resources with a flag.
  abbrev flagged : Resource → Bool
  flagged limiter = false
  flagged r = true

  flagged-initialized : (q : Resource) (t : Slot) → flagged q ≡ true → t.initialized ≡ flag q t
  flagged-initialized logger t h = refl
  flagged-initialized mysql t h = refl
  flagged-initialized redis t h = refl
  flagged-initialized storage t h = refl
  flagged-initialized cache t h = refl
  flagged-initialized cron t h = refl
  flagged-initialized limiter t h = cc

  off_flag :
      (q : Resource) (o : Option ℕ)
      → flag q (record { initialized = false; manager = false; previous = o }) ≡ false
  off_flag logger o = refl
  off_flag mysql o = refl
  off_flag redis o = refl
  off_flag storage o = refl
  off_flag cache o = refl
  off_flag cron o = refl
  off_flag limiter o = refl

  unopened :
      (q r : Resource) (a : App)
      → flag q (a.slots q) ≡ false
      → Owned r a
      → same_resource r q ≡ true
      → a.world.live r id ≡ false
  unopened q r a f v m =
      let p = sym (same_resource_sound r q m) in
      let o = subst (λ y. Owned y a) (sym p) v in
      subst (λ y. a.world.live y id ≡ false) p (ground (arith, o.owner, f))

  close_resource-Step :
      (s : Answers) (q r : Resource) (a : App)
      → flagged q ≡ true
      → Whole a
      → Step r a (close_resource s q a).0
        × (same_resource r q ≡ true → (close_resource s q a).0.world.live r id ≡ false)
  unfolding close_resource
  close_resource-Step s q r a h v =
      let e = flagged-initialized q (a.slots q) h in
      elim (Bool-cases (a.slots q).initialized) [
        | inr off ↦ rw off (seen r a a refl refl refl (v r), unopened q r a (sym e ∙ off) (v r))
        | inl on ↦
            let m = (v q).has (sym e ∙ on) in
            let t : Slot = record {
              initialized = false;
              manager = false;
              previous = (a.slots q).previous;
            } in
            rw (on, m)
              (close_at q r t a
                (record a {
                  slots = at_resource q t a.slots;
                  world = set_live q a.id false a.world;
                })
                refl refl refl (λ f. let z = off_flag q (a.slots q).previous in cc) (v r))
      ]

  after : (r : Resource) (a b c : App) → Step r a b → Step r b c → Step r a c
  after r a b c u v = record { owned = v.owned; gone = λ x. v.gone (u.gone x) }

  close_each-Step :
      (s : Answers) (qs : List Resource) (r : Resource) (a : App)
      → All (λ q. flagged q ≡ true) qs
      → Whole a
      → Step r a (close_each s qs a).0
        × (any (same_resource r) qs ≡ true → (close_each s qs a).0.world.live r id ≡ false)
  unfolding close_each
  close_each-Step s [] r a h v = (seen r a a refl refl refl (v r), λ m. cc)
  close_each-Step s (q ∷ qs) r a (h, hs) v =
      let here = close_resource-Step s q r a h v in
      let rest =
        close_each-Step s qs r (close_resource s q a).0 hs
          (λ y. (close_resource-Step s q y a h v).0.owned) in
      (
        after r a (close_resource s q a).0 (close_each s qs (close_resource s q a).0).0 here.0
            rest.0,
        λ m. elim (Bool-cases (same_resource r q)) [
          | inl mine ↦ rest.0.gone (here.1 mine)
          | inr other ↦ rest.1 (ground (arith, m, other))
        ],
      )

  stop_cron-Step :
      (s : Answers) (r : Resource) (a : App)
      → Whole a
      → Step r a (stop_cron s a).0
        × (same_resource r cron ≡ true → (stop_cron s a).0.world.live r id ≡ false)
  unfolding stop_cron
  stop_cron-Step s r a v = elim (Bool-cases (a.slots cron).initialized) [
    | inr off ↦ rw off (seen r a a refl refl refl (v r), unopened cron r a off (v r))
    | inl on ↦
        let m = (v cron).has on in
        let t : Slot = record {
          initialized = false;
          manager = true;
          previous = (a.slots cron).previous;
        } in
        rw (on, m)
          (close_at cron r t a
            (record a {
              slots = at_resource cron t a.slots;
              world = set_live cron a.id false a.world;
            })
            refl refl refl (λ f. cc) (v r))
  ]

  -- The registry of limiters keeps its pointer, and can be stopped again.
  stop_limiter-gone :
      (r : Resource) (a : App)
      → Whole a
      → same_resource r limiter ≡ true
      → (stop_limiter a).world.live r id ≡ false
  unfolding stop_limiter
  stop_limiter-gone r a v m = elim (Bool-cases (a.slots limiter).manager) [
    | inr off ↦ rw off (unopened limiter r a off (v r) m)
    | inl on ↦ rw on (let e = (v limiter).same in ground (arith, m, e))
  ]

  stop_limiter-Step : (r : Resource) (a : App) → Whole a → Step r a (stop_limiter a)
  unfolding stop_limiter
  stop_limiter-Step r a v = elim (Bool-cases (a.slots limiter).manager) [
    | inr off ↦ rw off (seen r a a refl refl refl (v r))
    | inl on ↦
        let b = record a { world = set_live limiter a.id false a.world } in
        rw on (elim (Bool-cases (same_resource r limiter)) [
          | inl mine ↦
              let p = sym (same_resource_sound r limiter mine) in
              subst (λ y. Step y a b) p
                (done limiter a b
                  (put_off limiter (a.slots limiter) a b refl refl refl (λ f. f) (v limiter)))
          | inr ne ↦ seen r a b refl refl (rw ne refl) (v r)
        ])
  ]

  shut_server-Step : (s : Answers) (r : Resource) (a : App) → Whole a → Step r a (shut_server s a).0
  unfolding shut_server
  shut_server-Step s r a v =
      let same = seen r a a refl refl refl (v r) in
      let shut = seen r a (record a { listening = false }) refl refl refl (v r) in
      ground (arith, same, shut)

  flush_trace-Step : (s : Answers) (r : Resource) (a : App) → Whole a → Step r a (flush_trace s a).0
  unfolding flush_trace
  flush_trace-Step s r a v =
      let same = seen r a a refl refl refl (v r) in
      let flushed =
        seen r a (record a { world = record a.world { tracing = false } }) refl refl refl (v r) in
      ground (arith, same, flushed)

  close_resources-flagged : All (λ q. flagged q ≡ true) close_order
  close_resources-flagged = (refl, (refl, (refl, (refl, tt))))

  -- Every resource has a step that closes it, or nothing to close.
  closer :
      (r : Resource)
      → (any (same_resource r) close_order ≡ true)
        ⊎ (same_resource r cron ≡ true)
        ⊎ (same_resource r limiter ≡ true)
        ⊎ (lives r ≡ false)
  closer logger = inl refl
  closer mysql = inl refl
  closer redis = inl refl
  closer storage = inl refl
  closer cache = inr (inr (inr refl))
  closer cron = inr (inl refl)
  closer limiter = inr (inr (inl refl))

  release-closed :
      (s : Answers) (r : Resource) (a : App)
      → Whole a
      → Owned r (release s a).0 × ((release s a).0.world.live r id ≡ false)
  unfolding release close_resources
  release-closed s r a v =
      let b = (stop_cron s a).0 in
      let c = stop_limiter b in
      let d = (flush_trace s c).0 in
      let vb : Whole b = λ y. (stop_cron-Step s y a v).0.owned in
      let vc : Whole c = λ y. (stop_limiter-Step y b vb).owned in
      let vd : Whole d = λ y. (flush_trace-Step s y c vc).owned in
      let ab = stop_cron-Step s r a v in
      let bc = stop_limiter-Step r b vb in
      let cd = flush_trace-Step s r c vc in
      let de = close_each-Step s close_order r d close_resources-flagged vd in
      (
        de.0.owned,
        elim (closer r) [
          | inl listed ↦ de.1 listed
          | inr (inl m) ↦ de.0.gone (cd.gone (bc.gone (ab.1 m)))
          | inr (inr (inl m)) ↦ de.0.gone (cd.gone (stop_limiter-gone r b vb m))
          | inr (inr (inr b)) ↦ de.0.owned.bare b
        ],
      )

  pub do_shutdown-closed :
      (s : Answers) (was : Bool) (r : Resource) (a : App)
      → Whole a
      → Owned r (do_shutdown s was a).0 × ((do_shutdown s was a).0.world.live r id ≡ false)
  unfolding do_shutdown
  do_shutdown-closed s was r a v =
      let b = record a {
        stop_hooks = a.stop_hooks + (if was then run_on_stop_hooks a.hooks else (0, [])).0;
        cancelled = true;
      } in
      let c = (shut_server s b).0 in
      let d = record c { wg = if s.goroutines_end then 0 else c.wg } in
      let vb : Whole b = λ y. view y a b refl refl refl (v y) in
      let vc : Whole c = λ y. (shut_server-Step s y b vb).owned in
      let vd : Whole d = λ y. view y c d refl refl refl (vc y) in release-closed s r d vd
