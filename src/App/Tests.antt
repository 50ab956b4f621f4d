-- ===== src/App/Tests.antt =====
-- The life cycle of an App beside another one.
use xlgo_core.Base.{◌≡◌, refl, [], ◌∷◌, Bool, true, false, none, some, ◌==◌}
use xlgo_core.App.{
  App, World, Resource, redis, storage, Answers, Options, Hook, init_failed, hook_failed,
  app_closed, fails, new_app,
}
use xlgo_core.App.Init.{init}
use xlgo_core.App.Stop.{shutdown, Network, signalled}
use xlgo_core.App.Failure.{init-undone}

abbrev options : Options
options = record {
  config_managed = true;
  enable_trace = true;
  enable_logger = true;
  enable_mysql = true;
  enable_redis = true;
  enable_storage = true;
  enable_auto_migrate = true;
  enable_cron = true;
}

abbrev quiet_hook : Hook
quiet_hook = record { on_init = some true; on_start = none; on_ready = none; on_stop = some fails }

-- Owner 0 has all defaults.
abbrev process : World
process = record {
  defaults = λ r. some 0;
  live = λ r p. p == 0;
  tracing = false;
  config_default = some 0;
  modes = record { release = false; rest = false; expose_detail = true };
}

abbrev all_well : Answers
all_well = record {
  config_valid = true;
  production = true;
  development = false;
  response_mode = some true;
  tracing_starts = true;
  tracing_ends = true;
  opens = λ r. true;
  shuts = λ r. true;
  migrators = true ∷ [];
  goroutines_end = true;
  server_shuts = true;
  server_closes = true;
}

abbrev but_storage : Resource → Bool
but_storage storage = false
but_storage r = true

abbrev no_storage : Answers
no_storage = record all_well { opens = but_storage; server_shuts = false }

abbrev app : App
app = new_app 1 options (quiet_hook ∷ []) process

init-error : (init no_storage app).1 ≡ init_failed storage ∷ []
unfolding init new_app
init-error = refl

init-defaults : (init all_well app).0.world.defaults redis ≡ some 1
unfolding init new_app
init-defaults = refl

shutdown-error : (shutdown no_storage (init all_well app).0).1 ≡ hook_failed ∷ []
unfolding init shutdown new_app
shutdown-error = refl

abbrev failed : App
failed = (init no_storage app).0

init-failed : init no_storage app ≡ (failed, init_failed storage ∷ [])
unfolding init new_app
init-failed = refl

-- The default of the configuration stays with the App that failed.
init-config : failed.world.config_default ≡ some 1
unfolding init new_app
init-config = refl

init-undone_example :
    (failed.world.defaults redis ≡ some 0)
    × (failed.world.live redis 1 ≡ false)
    × (init all_well failed ≡ (failed, app_closed ∷ []))
init-undone_example =
    init-undone no_storage all_well 1 options (quiet_hook ∷ []) process failed (init_failed storage)
      [] redis 1 (λ e. cc) refl init-failed

abbrev network : Network
network = record {
  listens = true;
  certified = true;
  fails_early = false;
  closed_early = false;
  serving = signalled;
}
