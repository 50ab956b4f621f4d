-- ===== src/Settings/Manage.antt =====
-- config/config.go: `Manager`. Viper is a parameter, by what the manager asks of it: the view that a
-- read of the file leaves, the configuration that a view decodes to, and the view of a configuration.
-- The callbacks are numbers, and what they were called with is recorded; `mu` makes each call one step.
pub mod Views
use xlgo_core.Base.{
  ℕ, List, [], ◌∷◌, ◌++◌, Bool, true, false, Option, none, some, map, ◌⊎◌, inl, inr,
}
use xlgo_core.Base.Text.{Text}
use xlgo_core.Settings.{Config, Problem, validate}

-- The operations of viper: a new view, `ReadInConfig` on what the file holds, which leaves the view as
-- it is where it fails, `Unmarshal`, and the view of a configuration
pub record Viper (V F : Type 0) : Type 0 where
  pub new_viper : Text → V
  pub read_in_config : F → V → Option V
  pub unmarshal : V → Option Config
  pub from_config : Text → Config → V

pub data ConfigError : Type 0 where
  not_loaded read_failed parse_failed watch_failed : ConfigError
  invalid : List Problem → ConfigError

pub record Manager (V : Type 0) : Type 0 where
  pub path : Text
  pub view : Option V
  pub cfg : Option Config
  pub callbacks : List ℕ
  pub watching : Bool

-- The manager, and the calls of callbacks, the first one first
pub record World (V : Type 0) : Type 0 where
  pub manager : Manager V
  pub heard : List (ℕ × Config)

-- `NewManager`
abbrev pub new_manager : {V : Type 0} → Text → Manager V
new_manager path = record { path = path; view = none; cfg = none; callbacks = []; watching = false }

-- A configuration that is decoded and passes `Validate`
unfoldable pub checked : List Problem → Config → Config ⊎ ConfigError
checked [] c = inl c
checked (p ∷ ps) c = inr (invalid (p ∷ ps))

unfoldable pub accepted : (Text → Bool) → Option Config → Config ⊎ ConfigError
unfolding checked validate
accepted registered none = inr parse_failed
accepted registered (some c) = checked (validate registered c) c

unfoldable pub loaded :
    {V : Type 0} → V → Config ⊎ ConfigError → World V → World V × Option ConfigError
loaded v (inl c) w = (record w { manager = record w.manager { view = some v; cfg = some c } }, none)
loaded v (inr e) w = (w, some e)

unfoldable pub load_view :
    {V F : Type 0} → Viper V F → (Text → Bool) → Option V → World V → World V × Option ConfigError
unfolding loaded accepted
load_view lib registered none w = (w, some read_failed)
load_view lib registered (some v) w = loaded v (accepted registered (lib.unmarshal v)) w

unfoldable pub load_from :
    {V F : Type 0} → Viper V F → (Text → Bool) → F → Text → World V → World V × Option ConfigError
unfolding load_view
load_from lib registered file [] w = (w, some not_loaded)
load_from lib registered file (c ∷ s) w =
    load_view lib registered (lib.read_in_config file (lib.new_viper (c ∷ s))) w

-- `Load`, for what the file holds
unfoldable pub load :
    {V F : Type 0} → Viper V F → (Text → Bool) → F → World V → World V × Option ConfigError
unfolding load_from
load lib registered file w = load_from lib registered file w.manager.path w

-- `RegisterCallback`
unfoldable pub register_callback : {V : Type 0} → ℕ → World V → World V
register_callback cb w = record w {
  manager = record w.manager { callbacks = w.manager.callbacks ++ cb ∷ [] };
}

unfoldable pub watch_from :
    {V : Type 0} → Bool → Option V → Text → Bool → World V → World V × Option ConfigError
watch_from true view path watchable w = (w, none)
watch_from false none path watchable w = (w, some not_loaded)
watch_from false (some v) [] watchable w = (w, some not_loaded)
watch_from false (some v) (c ∷ s) true w =
    (record w { manager = record w.manager { watching = true } }, none)
watch_from false (some v) (c ∷ s) false w = (w, some watch_failed)

-- `StartWatcher`, for whether the directory can be watched
unfoldable pub start_watcher : {V : Type 0} → Bool → World V → World V × Option ConfigError
unfolding watch_from
start_watcher watchable w = watch_from w.manager.watching w.manager.view w.manager.path watchable w

watched :
    {V : Type 0} → Option ℕ → Bool → World V × Option ConfigError → World V × Option ConfigError
unfolding start_watcher register_callback
watched cb watchable (w, some e) = (w, some e)
watched none watchable (w, none) = start_watcher watchable w
watched (some cb) watchable (w, none) = start_watcher watchable (register_callback cb w)

-- `LoadWithWatch`
unfoldable pub load_with_watch :
    {V F : Type 0}
    → Viper V F
    → (Text → Bool)
    → F
    → Option ℕ
    → Bool
    → World V
    → World V × Option ConfigError
unfolding load watched
load_with_watch lib registered file cb watchable w =
    watched cb watchable (load lib registered file w)

-- `StopWatcher`
unfoldable pub stop_watcher : {V : Type 0} → World V → World V
stop_watcher w = record w { manager = record w.manager { watching = false } }

unfoldable pub set_checked :
    {V F : Type 0} → Viper V F → List Problem → Config → World V → World V × Option ConfigError
set_checked lib [] c w = (
  record w {
    manager = record w.manager { view = some (lib.from_config w.manager.path c); cfg = some c };
  },
  none,
)
set_checked lib (p ∷ ps) c w = (w, some (invalid (p ∷ ps)))

-- `Set`
unfoldable pub set :
    {V F : Type 0}
    → Viper V F
    → (Text → Bool)
    → Option Config
    → World V
    → World V × Option ConfigError
unfolding set_checked validate
set lib registered none w =
    (record w { manager = record w.manager { view = none; cfg = none } }, none)
set lib registered (some c) w = set_checked lib (validate registered c) c w

-- The end of `reload`, on a view that `ReadInConfig` has changed in place
unfoldable pub published :
    {V : Type 0} → V → Config ⊎ ConfigError → World V → World V × Option ConfigError
published v (inl c) w = (
  record {
    manager = record w.manager { view = some v; cfg = some c };
    heard = w.heard ++ map (λ cb. (cb, c)) w.manager.callbacks;
  },
  none,
)
published v (inr e) w = (record w { manager = record w.manager { view = some v } }, some e)

unfoldable pub reload_view :
    {V F : Type 0} → Viper V F → (Text → Bool) → Option V → World V → World V × Option ConfigError
unfolding published accepted
reload_view lib registered none w = (w, some read_failed)
reload_view lib registered (some v) w = published v (accepted registered (lib.unmarshal v)) w

unfoldable pub reload_from :
    {V F : Type 0}
    → Viper V F
    → (Text → Bool)
    → F
    → Option V
    → World V
    → World V × Option ConfigError
unfolding reload_view
reload_from lib registered file none w = (w, some not_loaded)
reload_from lib registered file (some v) w =
    reload_view lib registered (lib.read_in_config file v) w

-- `Reload`, and the reload after a change of the file that is watched
unfoldable pub reload :
    {V F : Type 0} → Viper V F → (Text → Bool) → F → World V → World V × Option ConfigError
unfolding reload_from
reload lib registered file w = reload_from lib registered file w.manager.view w

-- `Get`
abbrev pub get : {V : Type 0} → World V → Option Config
get w = w.manager.cfg

-- What `GetString` and its kin read
abbrev pub get_viper : {V : Type 0} → World V → Option V
get_viper w = w.manager.view
