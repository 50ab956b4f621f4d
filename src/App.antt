-- ===== src/App.antt =====
-- app.go, `App`: the state of the life cycle, and the resources that it puts in the place of the
-- process-wide defaults. Objects are known by their owner and their kind; owners are numbers.
pub mod Init
pub mod Stop
mod Slots
mod Rollback
pub mod Failure
pub mod Closed
mod Phases
mod Started
pub mod History
mod Tests
use xlgo_core.Base.{
  ℕ, suc, ◌+◌, ◌≡◌, List, [], ◌∷◌, ◌++◌, Bool, true, false, not, ◌&&◌, Option, none, some, ◌==◌,
  if◌then◌else◌, refl, ap, ◌∙◌, sym,
}

pub data Resource : Type 0 where
  logger mysql redis storage cache cron limiter : Resource

abbrev index : Resource → ℕ
index logger = 0
index mysql = 1
index redis = 2
index storage = 3
index cache = 4
index cron = 5
index limiter = 6

abbrev pub same_resource : Resource → Resource → Bool
same_resource q r = index q == index r

abbrev pub at_resource {ℓ} : {A : Type ℓ} → Resource → A → (Resource → A) → Resource → A
at_resource r v f q = if same_resource q r then v else f q

-- The fields of one resource: its `initialized` flag, whether the pointer to its manager is there,
-- and the default that it replaced. The registry of limiters has no flag.
pub record Slot : Type 0 where
  pub initialized : Bool
  pub manager : Bool
  pub previous : Option ℕ

-- The modes of gin and of the answers: whether gin is in release mode, whether errors have a status
-- of their own, and whether their details are shown.
pub record Modes : Type 0 where
  pub release : Bool
  pub rest : Bool
  pub expose_detail : Bool

-- The process: the owner of each default, which objects are open, the owner of the default manager of
-- the configuration, and the modes.
pub record World : Type 0 where
  pub defaults : Resource → Option ℕ
  pub live : Resource → ℕ → Bool
  pub tracing : Bool
  pub config_default : Option ℕ
  pub modes : Modes

pub data AppState : Type 0 where
  created initializing initialized stopping stopped : AppState

abbrev pub is_stopping : AppState → Bool
is_stopping stopping = true
is_stopping stopped = true
is_stopping _ = false

pub data AppError : Type 0 where
  app_closed config_invalid trace_failed trace_unclosed migration_without_mysql migration_failed :
      AppError
  hook_failed cron_late server_unclosed not_listening tls_invalid serve_failed : AppError
  init_failed unclosed : Resource → AppError

-- What the functions of a hook answer; `none` is a nil function. An `OnStop` can also fail so late
-- that the time for the shutdown is over.
pub data StopAnswer : Type 0 where
  stops fails fails_late : StopAnswer

pub record Hook : Type 0 where
  pub on_init : Option Bool
  pub on_start : Option Bool
  pub on_ready : Option Bool
  pub on_stop : Option StopAnswer

-- The switches that options set; a configuration is managed if it comes from a manager or a path.
pub record Options : Type 0 where
  pub config_managed : Bool
  pub enable_trace : Bool
  pub enable_logger : Bool
  pub enable_mysql : Bool
  pub enable_redis : Bool
  pub enable_storage : Bool
  pub enable_auto_migrate : Bool
  pub enable_cron : Bool

-- What the rest of the world answers to the calls of the App; a migrator answers whether it went
-- well, and the configuration says whether the response mode is `rest` if it names one of the two.
pub record Answers : Type 0 where
  pub config_valid : Bool
  pub production : Bool
  pub development : Bool
  pub response_mode : Option Bool
  pub tracing_starts : Bool
  pub tracing_ends : Bool
  pub opens : Resource → Bool
  pub shuts : Resource → Bool
  pub migrators : List Bool
  pub goroutines_end : Bool
  pub server_shuts : Bool
  pub server_closes : Bool

pub record App : Type 0 where
  pub id : ℕ
  pub options : Options
  pub hooks : List Hook
  pub state : AppState
  pub init_error : List AppError
  pub shutdown_once : Bool
  pub shutdown_error : List AppError
  pub slots : Resource → Slot
  pub initialized_trace : Bool
  pub server : Bool
  pub listening : Bool
  pub cancelled : Bool
  pub wg : ℕ
  pub stop_hooks : ℕ
  pub world : World

abbrev pub fresh_slot : Resource → Slot
fresh_slot limiter = record { initialized = false; manager = true; previous = none }
fresh_slot _ = record { initialized = false; manager = false; previous = none }

-- `Go`, on a function that may be nil
unfoldable pub go : Bool → App → App
go given a = if given && not (is_stopping a.state) then record a { wg = suc a.wg } else a

-- An owner's object is open from now on, or no more.
abbrev pub set_live : Resource → ℕ → Bool → World → World
set_live r o b w = record w { live = at_resource r (λ p. if p == o then b else w.live r p) w.live }

abbrev pub set_default : Resource → Option ℕ → World → World
set_default r o w = record w { defaults = at_resource r o w.defaults }

-- `New`, which makes the registry of limiters.
unfoldable pub new_app : ℕ → Options → List Hook → World → App
new_app id options hooks w = record {
  id = id;
  options = options;
  hooks = hooks;
  state = created;
  init_error = [];
  shutdown_once = false;
  shutdown_error = [];
  slots = fresh_slot;
  initialized_trace = false;
  server = false;
  listening = false;
  cancelled = false;
  wg = 0;
  stop_hooks = 0;
  world = set_live limiter id true w;
}

-- `stopCron`
unfoldable pub stop_cron : Answers → App → App × List AppError
stop_cron s a =
    if not (a.slots cron).initialized
    then (a, [])
    else let off = record a {
      slots = at_resource cron (record (a.slots cron) { initialized = false }) a.slots;
    } in
      if not (a.slots cron).manager then (off, []) else (
        record off { world = set_live cron a.id false a.world },
        if s.shuts cron then [] else cron_late ∷ [],
      )
