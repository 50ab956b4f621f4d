-- ===== src/App/Rollback.antt =====
-- app.go, `rollbackReplacedResources`: each default is put back and each object closed.
use xlgo_core.Base.{
  ℕ, ◌≡◌, ◌⊎◌, inl, inr, refl, sym, ap, ◌∙◌, subst, List, [], ◌∷◌, Bool, true, false, not, ◌&&◌,
  ◌||◌, Option, none, some, if◌then◌else◌, ◌==◌, Bool-cases, arith, any,
}
use xlgo_core.App.{
  App, World, Slot, Resource, logger, mysql, redis, storage, cache, cron, limiter, Answers,
  AppError, same_resource,
}
use xlgo_core.App.Init.{
  Stage, do_stage, do_stages, guard, closes, roll_back, roll_back_each, rolled, carried,
}
use xlgo_core.App.Slots.{
  same_resource_sound, same_resource_refl, flag, Held, concerns, not_due, do_stage_other,
  do_stage_self,
}

-- Whether a step for `r` is among them, and whether no resource has two.
abbrev pub due_in : Resource → List Stage → Bool
due_in r [] = false
due_in r (g ∷ gs) = concerns r g || due_in r gs

abbrev pub once : Resource → List Stage → Bool
once r [] = true
once r (g ∷ gs) = not (concerns r g && due_in r gs) && once r gs

rolled_other :
    (q r : Resource) (o : Option ℕ) (shut : Bool) (i : ℕ) (w : World)
    → same_resource r q ≡ false
    → ((rolled q o shut i w).defaults r ≡ w.defaults r) × ((rolled q o shut i w).live r ≡ w.live r)
rolled_other q r none true i w ne = (refl, rw ne refl)
rolled_other q r none false i w ne = (refl, refl)
rolled_other q r (some o) true i w ne = (rw ne refl, rw ne refl)
rolled_other q r (some o) false i w ne = (rw ne refl, refl)

default_or : Option ℕ → Option ℕ → Option ℕ
default_or none d = d
default_or (some o) d = some o

rolled-defaults :
    (r : Resource) (o : Option ℕ) (shut : Bool) (i : ℕ) (w : World)
    → (rolled r o shut i w).defaults r ≡ default_or o (w.defaults r)
unfolding default_or
rolled-defaults r none true i w = refl
rolled-defaults r none false i w = refl
rolled-defaults r (some o) true i w = rw same_resource_refl refl
rolled-defaults r (some o) false i w = rw same_resource_refl refl

rolled-live :
    (r : Resource) (o : Option ℕ) (shut : Bool) (i p : ℕ) (w : World)
    → (rolled r o shut i w).live r p ≡ (if shut && p == i then false else w.live r p)
rolled-live r none true i p w = rw same_resource_refl refl
rolled-live r none false i p w = refl
rolled-live r (some o) true i p w = rw same_resource_refl refl
rolled-live r (some o) false i p w = refl

full_guard : (r : Resource) (t : Slot) → flag r t ≡ true → t.manager ≡ true → guard r t ≡ true
full_guard logger t f m = f
full_guard mysql t f m = f
full_guard redis t f m = f
full_guard storage t f m = f
full_guard cache t f m = f
full_guard cron t f m = m
full_guard limiter t f m = m

bare_guard :
    (r : Resource)
    → guard r (record { initialized = false; manager = false; previous = none }) ≡ false
bare_guard logger = refl
bare_guard mysql = refl
bare_guard redis = refl
bare_guard storage = refl
bare_guard cache = refl
bare_guard cron = refl
bare_guard limiter = refl

default_or-previous :
    (previous before now : Option ℕ)
    → (before ≡ none → ⊥)
    → ((previous ≡ none) × (now ≡ before)) ⊎ (previous ≡ before)
    → default_or previous now ≡ before
unfolding default_or
default_or-previous none before now b (inl (n, e)) = e
default_or-previous (some o) before now b (inl (n, e)) = cc
default_or-previous none before now b (inr e) = absurd (b (sym e))
default_or-previous (some o) before now b (inr e) = e

shut_or_gone :
    (c m on : Bool) (i j : ℕ)
    → j ≡ i
    → (c ≡ false → on ≡ false)
    → (on ≡ true → m ≡ true)
    → (if (c && m) && i == j then false else on) ≡ false
shut_or_gone true true on i j e a b = ground (arith, e)
shut_or_gone true false true i j e a b = cc (b refl)
shut_or_gone true false false i j e a b = refl
shut_or_gone false m on i j e a b = a refl

module _ (id : ℕ) (w : World) where
  carried-Held :
      (r : Resource) (a : App) (es : List AppError) (rest : App × List AppError)
      → Held id w r false a
      → Held id w r false rest.0
      → Held id w r false (carried a es rest).0
  carried-Held r a [] rest u v = v
  carried-Held r a (e ∷ es) rest u v = u

  pub do_stages-Held :
      (s : Answers) (gs : List Stage) (r : Resource) (a : App)
      → once r gs ≡ true
      → Held id w r (due_in r gs) a
      → Held id w r false (do_stages s gs a).0
  unfolding do_stages
  do_stages-Held s [] r a u v = v
  do_stages-Held s (g ∷ gs) r a u v =
      let here = (do_stage s g a).0 in
      elim (Bool-cases (concerns r g)) [
        | inl mine ↦
            let opened =
              do_stage_self id w s g r a mine
                (subst (λ b. Held id w r b a) (ground (arith, mine)) v) in
            carried-Held r here (do_stage s g a).1 (do_stages s gs here) opened (
              do_stages-Held s gs r here (ground (arith, u))
                (subst (λ b. Held id w r b here) (ground (arith, u, mine)) opened))
        | inr other ↦
            let kept =
              do_stage_other id w s g r (due_in r gs) a other
                (subst (λ b. Held id w r b a) (ground (arith, other)) v) in
            carried-Held r here (do_stage s g a).1 (do_stages s gs here)
              (not_due id w r (due_in r gs) here kept)
              (do_stages-Held s gs r here (ground (arith, u)) kept)
      ]

  -- A resource that is to be rolled back, and one that was.
  pub record Undone (r : Resource) (a : App) : Type 0 where
    pub same : a.id ≡ id
    pub default : a.world.defaults r ≡ w.defaults r
    pub gone : a.world.live r id ≡ false
    pub others : (o : ℕ) → (o == id) ≡ false → a.world.live r o ≡ w.live r o
    pub off : guard r (a.slots r) ≡ false

  roll_back-Held :
      (s : Answers) (q r : Resource) (a : App)
      → same_resource r q ≡ false
      → Held id w r false a
      → Held id w r false (roll_back s q a).0
  unfolding roll_back
  roll_back-Held s q r a ne v = elim (Bool-cases (guard q (a.slots q))) [
    | inr quiet ↦ rw quiet v
    | inl busy ↦
        let (d, l) =
          rolled_other q r (a.slots q).previous (closes q && (a.slots q).manager) a.id a.world ne in
        rw busy record {
          same = v.same;
          owner = rw (l, ne) v.owner;
          has = rw ne v.has;
          bare = rw l v.bare;
          others = rw l v.others;
          kept = λ x. cc;
          default = rw (d, ne) v.default;
        }
  ]

  roll_back-Undone :
      (s : Answers) (q r : Resource) (a : App) → Undone r a → Undone r (roll_back s q a).0
  unfolding roll_back
  roll_back-Undone s q r a v = elim (Bool-cases (guard q (a.slots q))) [
    | inr quiet ↦ rw quiet v
    | inl busy ↦ elim (Bool-cases (same_resource r q)) [
      | inl mine ↦ cc (same_resource_sound r q mine, v.off)
      | inr ne ↦
          let (d, l) =
            rolled_other q r (a.slots q).previous (closes q && (a.slots q).manager) a.id a.world
              ne in
          rw busy record {
            same = v.same;
            default = rw d v.default;
            gone = rw l v.gone;
            others = rw l v.others;
            off = rw ne v.off;
          }
    ]
  ]

  roll_back_self :
      (s : Answers) (r : Resource) (a : App)
      → (w.defaults r ≡ none → ⊥)
      → (closes r ≡ false → a.world.live r id ≡ false)
      → Held id w r false a
      → Undone r (roll_back s r a).0
  unfolding roll_back
  roll_back_self s r a some' shut v =
      let t = a.slots r in
      let stops = closes r && t.manager in
      elim (Bool-cases (guard r t)) [
        | inr quiet ↦ rw quiet record {
          same = v.same;
          default = elim v.default [ inl (n, e) ↦ e | inr (d, p, g) ↦ cc ];
          gone = elim (Bool-cases (a.world.live r id)) [
            | inl on ↦ let f = v.owner on in let g = full_guard r t f (v.has f) in cc
            | inr gone ↦ gone
          ];
          others = v.others;
          off = quiet;
        }
        | inl busy ↦ rw busy record {
          same = v.same;
          default =
              rolled-defaults r t.previous stops a.id a.world
              ∙ default_or-previous t.previous (w.defaults r) (a.world.defaults r) some'
                  (elim v.default [ inl e ↦ inl e | inr (d, p, g) ↦ inr p ]);
          gone =
              rolled-live r t.previous stops a.id id a.world
              ∙ shut_or_gone (closes r) t.manager (a.world.live r id) id a.id v.same shut
                  (λ on. v.has (v.owner on));
          others = λ o h.
              rolled-live r t.previous stops a.id o a.world
              ∙ ground (arith, h, v.same, v.others o h);
          off = rw same_resource_refl (bare_guard r);
        }
      ]

  -- What is ready to be rolled back has what the rollback does not close stopped.
  roll_back_each-Undone :
      (s : Answers) (rs : List Resource) (r : Resource) (a : App)
      → Undone r a
      → Undone r (roll_back_each s rs a).0
  unfolding roll_back_each
  roll_back_each-Undone s [] r a v = v
  roll_back_each-Undone s (q ∷ qs) r a v =
      roll_back_each-Undone s qs r (roll_back s q a).0 (roll_back-Undone s q r a v)

  roll_back-live :
      (s : Answers) (q r : Resource) (a : App)
      → same_resource r q ≡ false
      → (roll_back s q a).0.world.live r ≡ a.world.live r
  unfolding roll_back
  roll_back-live s q r a ne = elim (Bool-cases (guard q (a.slots q))) [
    | inr quiet ↦ rw quiet refl
    | inl busy ↦ rw busy (
        (rolled_other q r (a.slots q).previous (closes q && (a.slots q).manager) a.id a.world ne).1)
  ]

  pub roll_back_each-all :
      (s : Answers) (rs : List Resource) (r : Resource) (a : App)
      → (w.defaults r ≡ none → ⊥)
      → any (same_resource r) rs ≡ true
      → (closes r ≡ false → a.world.live r id ≡ false)
      → Held id w r false a
      → Undone r (roll_back_each s rs a).0
  unfolding roll_back_each
  roll_back_each-all s [] r a some' m shut v = cc
  roll_back_each-all s (q ∷ qs) r a some' m shut v = elim (Bool-cases (same_resource r q)) [
    | inl mine ↦
        let p = same_resource_sound r q mine in
        roll_back_each-Undone s qs r (roll_back s q a).0
          (subst (λ y. Undone r (roll_back s y a).0) p (roll_back_self s r a some' shut v))
    | inr ne ↦
        roll_back_each-all s qs r (roll_back s q a).0 some' (ground (arith, m, ne))
          (λ c. ap (λ l. l id) (roll_back-live s q r a ne) ∙ shut c) (roll_back-Held s q r a ne v)
  ]
