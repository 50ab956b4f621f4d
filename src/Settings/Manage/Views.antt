-- ===== src/Settings/Manage/Views.antt =====
-- config/config.go: which configurations are published, and what a refused reload leaves.
use xlgo_core.Base.{
  ℕ, ◌≡◌, refl, sym, ap, subst, ◌∙◌, List, [], ◌∷◌, Bool, true, false, Option, none, some, map, ◌⊎◌,
  inl, inr, All,
}
use xlgo_core.Base.Text.{Text}
use xlgo_core.Base.Text.Laws.{All-append}
use xlgo_core.Settings.{Config, Problem, validate}
use xlgo_core.Settings.Manage.{
  Viper, ConfigError, invalid, World, new_manager, checked, accepted, loaded, load_view, load_from,
  watch_from, load, register_callback, start_watcher, stop_watcher, set_checked, set, published,
  reload_view, reload_from, reload, get, get_viper,
}

-- The calls of a manager, with what the file holds or whether it can be watched
pub data Call (F : Type 0) : Type 0 where
  loading : F → Call F
  reloading : F → Call F
  registering : ℕ → Call F
  setting : Option Config → Call F
  starting : Bool → Call F
  stopping : Call F

unfoldable pub step : {V F : Type 0} → Viper V F → (Text → Bool) → Call F → World V → World V
unfolding load reload register_callback set start_watcher stop_watcher
step lib registered (loading file) w = (load lib registered file w).0
step lib registered (reloading file) w = (reload lib registered file w).0
step lib registered (registering cb) w = register_callback cb w
step lib registered (setting c) w = (set lib registered c w).0
step lib registered (starting watchable) w = (start_watcher watchable w).0
step lib registered stopping w = stop_watcher w

unfoldable pub run : {V F : Type 0} → Viper V F → (Text → Bool) → List (Call F) → World V → World V
unfolding step
run lib registered [] w = w
run lib registered (c ∷ cs) w = run lib registered cs (step lib registered c w)

module _ (registered : Text → Bool) where
  abbrev pub IsValid : Config → Type 0
  IsValid c = validate registered c ≡ []

  abbrev pub IsValidOpt : Option Config → Type 0
  IsValidOpt none = Unit
  IsValidOpt (some c) = IsValid c

-- The configuration is valid, and so is every one that a callback was called with.
abbrev pub Sound : {V : Type 0} → (Text → Bool) → World V → Type 0
Sound registered w = IsValidOpt registered w.manager.cfg × All (λ h. IsValid registered h.1) w.heard

module _ {V F : Type 0} (lib : Viper V F) (registered : Text → Bool) where
  accepted-IsValid :
      (o : Option Config) (c : Config) → accepted registered o ≡ inl c → IsValid registered c
  unfolding accepted
  accepted-IsValid none c h = absurd (cc)
  accepted-IsValid (some d) c h = go (validate registered d) refl h
    where
      go :
          (ps : List Problem)
          → ps ≡ validate registered d
          → checked ps d ≡ inl c
          → IsValid registered c
      go [] e h = subst (IsValid registered) (inl_inj h) (sym e)
        where
          inl_inj : ◌≡◌ {A = Config ⊎ ConfigError} (inl d) (inl c) → d ≡ c
          inl_inj h = cc
      go (p ∷ ps) e h = absurd (cc)

  loaded-Sound :
      (v : V) (o : Option Config) (w : World V)
      → Sound registered w
      → Sound registered (loaded v (accepted registered o) w).0
  unfolding loaded
  loaded-Sound v o w (h, k) = go (accepted registered o) refl
    where
      go :
          (r : Config ⊎ ConfigError) → r ≡ accepted registered o → Sound registered (loaded v r w).0
      go (inl c) e = (accepted-IsValid o c (sym e), k)
      go (inr x) e = (h, k)

  load-Sound :
      (file : F) (w : World V)
      → Sound registered w
      → Sound registered (load lib registered file w).0
  unfolding load load_from load_view
  load-Sound file w s = go w.manager.path
    where
      view_of : (o : Option V) → Sound registered (load_view lib registered o w).0
      view_of none = s
      view_of (some v) = loaded-Sound v (lib.unmarshal v) w s

      go : (path : Text) → Sound registered (load_from lib registered file path w).0
      go [] = s
      go (c ∷ r) = view_of (lib.read_in_config file (lib.new_viper (c ∷ r)))

  heard-IsValid :
      (c : Config) (cbs : List ℕ)
      → IsValid registered c
      → All (λ (h : ℕ × Config). IsValid registered h.1) (map (λ cb. (cb, c)) cbs)
  heard-IsValid c [] v = tt
  heard-IsValid c (cb ∷ cbs) v = (v, heard-IsValid c cbs v)

  published-Sound :
      (v : V) (o : Option Config) (w : World V)
      → Sound registered w
      → Sound registered (published v (accepted registered o) w).0
  unfolding published
  published-Sound v o w (h, k) = go (accepted registered o) refl
    where
      go :
          (r : Config ⊎ ConfigError)
          → r ≡ accepted registered o
          → Sound registered (published v r w).0
      go (inl c) e =
          let fine = accepted-IsValid o c (sym e) in
          (
            fine,
            All-append (λ (h : ℕ × Config). IsValid registered h.1) w.heard
                (map (λ cb. (cb, c)) w.manager.callbacks) k
                (heard-IsValid c w.manager.callbacks fine),
          )
      go (inr x) e = (h, k)

  reload-Sound :
      (file : F) (w : World V)
      → Sound registered w
      → Sound registered (reload lib registered file w).0
  unfolding reload reload_from reload_view
  reload-Sound file w s = go w.manager.view
    where
      read : (o : Option V) → Sound registered (reload_view lib registered o w).0
      read none = s
      read (some v) = published-Sound v (lib.unmarshal v) w s

      go : (o : Option V) → Sound registered (reload_from lib registered file o w).0
      go none = s
      go (some v) = read (lib.read_in_config file v)

  set-Sound :
      (o : Option Config) (w : World V)
      → Sound registered w
      → Sound registered (set lib registered o w).0
  unfolding set set_checked
  set-Sound none w (h, k) = (tt, k)
  set-Sound (some c) w (h, k) = go (validate registered c) refl
    where
      go :
          (ps : List Problem)
          → ps ≡ validate registered c
          → Sound registered (set_checked lib ps c w).0
      go [] e = (sym e, k)
      go (p ∷ ps) e = (h, k)

  start_watcher-Sound :
      (b : Bool) (w : World V) → Sound registered w → Sound registered (start_watcher b w).0
  unfolding start_watcher watch_from
  start_watcher-Sound b w s = go w.manager.watching w.manager.view w.manager.path b
    where
      go :
          (on : Bool) (v : Option V) (path : Text) (b : Bool)
          → Sound registered (watch_from on v path b w).0
      go true v path b = s
      go false none path b = s
      go false (some v) [] b = s
      go false (some v) (c ∷ r) true = s
      go false (some v) (c ∷ r) false = s

  step-Sound :
      (c : Call F) (w : World V) → Sound registered w → Sound registered (step lib registered c w)
  unfolding step register_callback stop_watcher
  step-Sound (loading file) w s = load-Sound file w s
  step-Sound (reloading file) w s = reload-Sound file w s
  step-Sound (registering cb) w s = s
  step-Sound (setting c) w s = set-Sound c w s
  step-Sound (starting b) w s = start_watcher-Sound b w s
  step-Sound stopping w s = s

  run_from-Sound :
      (cs : List (Call F)) (w : World V)
      → Sound registered w
      → Sound registered (run lib registered cs w)
  unfolding run
  run_from-Sound [] w s = s
  run_from-Sound (c ∷ cs) w s = run_from-Sound cs (step lib registered c w) (step-Sound c w s)

-- In any sequence of calls of a new manager, whatever the files hold: the configuration that `Get`
-- gives, if there is one, passes `Validate`, and so does every one that a callback was called with.
pub run-IsValid :
    {V F : Type 0} (lib : Viper V F) (registered : Text → Bool) (path : Text) (cs : List (Call F))
    → IsValidOpt registered
        (get (run lib registered cs (record { manager = new_manager path; heard = [] })))
      × All
          (λ (h : ℕ × Config). IsValid registered h.1)
          (run lib registered cs (record { manager = new_manager path; heard = [] })).heard
run-IsValid lib registered path cs =
    run_from-Sound lib registered cs (record { manager = new_manager path; heard = [] }) (tt, tt)

-- A `Reload` of a file that is read and decoded but does not pass `Validate` reports the problems; `Get`
-- gives the old configuration and no callback is called, but what `GetString` and its kin read is the
-- refused file.
pub reload-refused :
    {V F : Type 0} (lib : Viper V F) (registered : Text → Bool) (file : F) (w : World V) (v v' : V)
    (c : Config) (p : Problem) (ps : List Problem)
    → get_viper w ≡ some v
    → lib.read_in_config file v ≡ some v'
    → lib.unmarshal v' ≡ some c
    → validate registered c ≡ p ∷ ps
    → ((reload lib registered file w).1 ≡ some (invalid (p ∷ ps)))
      × (get (reload lib registered file w).0 ≡ get w)
      × ((reload lib registered file w).0.heard ≡ w.heard)
      × (get_viper (reload lib registered file w).0 ≡ some v')
unfolding reload reload_from reload_view published accepted checked
reload-refused lib registered file w v v' c p ps a r d e =
    let refusal : reload lib registered file w
        ≡ (record w { manager = record w.manager { view = some v' } }, some (invalid (p ∷ ps))) =
      ap (λ o. reload_from lib registered file o w) a
      ∙ ap (λ o. reload_view lib registered o w) r
      ∙ ap (λ o. published v' (accepted registered o) w) d
      ∙ ap (λ o. published v' (checked o c) w) e in
    (
      ap (λ z. z.1) refusal,
      ap (λ z. get z.0) refusal,
      ap (λ z. z.0.heard) refusal,
      ap (λ z. get_viper z.0) refusal,
    )
