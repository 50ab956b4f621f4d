-- ===== src/App/Init.antt =====
-- app.go: `Init` with the steps of `doInit`, and what undoes them when one fails.
use xlgo_core.Base.{
  ℕ, List, [], ◌∷◌, ◌++◌, Bool, true, false, not, ◌&&◌, ◌||◌, Option, none, some, if◌then◌else◌,
}
use xlgo_core.App.{
  App, World, Slot, Resource, logger, mysql, redis, storage, cache, cron, limiter, AppState,
  created, initializing, initialized, stopping, stopped, AppError, app_closed, config_invalid,
  trace_failed, trace_unclosed, migration_without_mysql, migration_failed, hook_failed, init_failed,
  unclosed, Hook, Options, Answers, at_resource, set_live, set_default, go, stop_cron,
}

-- A cache manager holds nothing that could be closed.
abbrev pub lives : Resource → Bool
lives cache = false
lives r = true

-- A new object becomes the default: `Swap…` gives back the one before.
unfoldable pub install : Resource → App → App
install r a = record a {
  slots =
      at_resource r (record { initialized = true; manager = true; previous = a.world.defaults r })
        a.slots;
  world = set_default r (some a.id) (set_live r a.id (lives r) a.world);
}

-- `SwapDefaultRateLimitRegistry`: the registry is there since `New`.
unfoldable pub swap_limiter : App → App
swap_limiter a = record a {
  slots =
      at_resource limiter (record (a.slots limiter) { previous = a.world.defaults limiter })
        a.slots;
  world = set_default limiter (some a.id) a.world;
}

-- The steps of `doInit` that can fail or leave something behind, in their order.
pub data Stage : Type 0 where
  resolves_config traces migrates sets_modes probes swaps_limiter runs_hooks : Stage
  opens_resource : Resource → Stage

abbrev pub stages : List Stage
stages =
    resolves_config
    ∷ traces
    ∷ opens_resource logger
    ∷ opens_resource mysql
    ∷ opens_resource redis
    ∷ opens_resource storage
    ∷ opens_resource cache
    ∷ migrates
    ∷ sets_modes
    ∷ probes
    ∷ opens_resource cron
    ∷ swaps_limiter
    ∷ runs_hooks
    ∷ []

abbrev pub enabled : Options → Resource → Bool
enabled o logger = o.enable_logger
enabled o mysql = o.enable_mysql
enabled o redis = o.enable_redis
enabled o storage = o.enable_storage
enabled o cache = o.enable_redis
enabled o cron = o.enable_cron
enabled o limiter = false

-- Neither the cache nor the scheduler has an `Init` that fails.
abbrev pub may_fail : Resource → Bool
may_fail cache = false
may_fail cron = false
may_fail r = true

migrated : List Bool → List AppError
migrated [] = []
migrated (ok' ∷ rest) = if ok' then migrated rest else migration_failed ∷ []

-- The `OnInit` loop
init_hooks : List Hook → List AppError
init_hooks [] = []
init_hooks (h ∷ hs) = elim h.on_init [
  | none ↦ init_hooks hs
  | some fine ↦ if fine then init_hooks hs else hook_failed ∷ []
]

migrations : Options → List Bool → List AppError
unfolding migrated
migrations o [] = []
migrations o (m ∷ ms) =
    if not o.enable_auto_migrate
    then []
    else if not o.enable_mysql
    then migration_without_mysql ∷ []
    else migrated (m ∷ ms)

-- `resolveConfig` makes the manager of the App the default one, and a configuration for production
-- puts gin into release mode. Nothing puts these back.
unfoldable pub configured : Answers → App → World
configured s a = record a.world {
  config_default = if a.options.config_managed then some a.id else a.world.config_default;
  modes = record a.world.modes { release = s.production || a.world.modes.release };
}

-- `response.SetMode` and `response.SetExposeDetail`
unfoldable pub answering : Answers → World → World
answering s w = record w {
  modes = record w.modes {
    rest = elim s.response_mode [ none ↦ w.modes.rest | some b ↦ b ];
    expose_detail = s.development;
  };
}

-- One step of `doInit`: what it leaves, and its error if it has one.
unfoldable pub do_stage : Answers → Stage → App → App × List AppError
unfolding install swap_limiter migrations init_hooks go configured answering
do_stage s resolves_config a =
    if s.config_valid then (record a { world = configured s a }, []) else (a, config_invalid ∷ [])
do_stage s traces a =
    if not a.options.enable_trace
    then (a, [])
    else if s.tracing_starts
    then (record a { initialized_trace = true; world = record a.world { tracing = true } }, [])
    else (a, trace_failed ∷ [])
do_stage s (opens_resource r) a =
    if not (enabled a.options r)
    then (a, [])
    else if may_fail r && not (s.opens r)
    then (a, init_failed r ∷ [])
    else (install r a, [])
do_stage s migrates a = (a, migrations a.options s.migrators)
do_stage s sets_modes a = (record a { world = answering s a.world }, [])
do_stage s probes a = (if a.options.enable_mysql then go true a else a, [])
do_stage s swaps_limiter a = (swap_limiter a, [])
do_stage s runs_hooks a = (a, init_hooks a.hooks)

-- `commitReplacedResources`
unfoldable pub commit_replaced_resources : App → App
commit_replaced_resources a = record a { slots = λ r. record (a.slots r) { previous = none } }

abbrev pub carried : App → List AppError → App × List AppError → App × List AppError
carried a [] rest = rest
carried a (e ∷ es) rest = (a, e ∷ es)

-- The steps up to the first that fails.
unfoldable pub do_stages : Answers → List Stage → App → App × List AppError
unfolding do_stage
do_stages s [] a = (a, [])
do_stages s (g ∷ gs) a =
    let here = do_stage s g a in let rest = do_stages s gs here.0 in carried here.0 here.1 rest

unfoldable pub committed : App × List AppError → App × List AppError
unfolding commit_replaced_resources
committed (a, []) = (commit_replaced_resources a, [])
committed (a, e ∷ es) = (a, e ∷ es)

-- `doInit`
unfoldable pub do_init : Answers → App → App × List AppError
unfolding do_stages committed
do_init s a = committed (do_stages s stages a)

-- The field that `rollbackReplacedResources` asks before it undoes a resource.
abbrev pub guard : Resource → Slot → Bool
guard cron t = t.manager
guard limiter t = t.manager
guard r t = t.initialized

-- Neither the cache, which has no `Close`, nor the scheduler, which was stopped before, is closed.
abbrev pub closes : Resource → Bool
closes cache = false
closes cron = false
closes r = true

-- The registry's `Stop` has no error.
abbrev pub reports : Resource → Bool
reports limiter = false
reports r = closes r

abbrev pub restored : Resource → Option ℕ → World → World
restored r none w = w
restored r (some o) w = set_default r (some o) w

abbrev pub rolled : Resource → Option ℕ → Bool → ℕ → World → World
rolled r o shut id w = if shut then set_live r id false (restored r o w) else restored r o w

-- `rollbackReplacedResources` on one resource
unfoldable pub roll_back : Answers → Resource → App → App × List AppError
roll_back s r a = if not (guard r (a.slots r)) then (a, []) else (
  record a {
    slots =
        at_resource r (record { initialized = false; manager = false; previous = none }) a.slots;
    world = rolled r (a.slots r).previous (closes r && (a.slots r).manager) a.id a.world;
  },
  if (reports r && (a.slots r).manager) && not (s.shuts r) then unclosed r ∷ [] else [],
)

unfoldable pub roll_back_each : Answers → List Resource → App → App × List AppError
unfolding roll_back
roll_back_each s [] a = (a, [])
roll_back_each s (r ∷ rs) a =
    let here = roll_back s r a in
    let rest = roll_back_each s rs here.0 in (rest.0, here.1 ++ rest.1)

abbrev pub rollback_order : List Resource
rollback_order = mysql ∷ redis ∷ storage ∷ cron ∷ cache ∷ limiter ∷ logger ∷ []

-- `rollbackReplacedResources`
unfoldable pub rollback_replaced_resources : Answers → App → App × List AppError
unfolding roll_back_each
rollback_replaced_resources s a = roll_back_each s rollback_order a

-- The part of `failAfterInit` on the tracer
unfoldable pub close_trace : Answers → App → App × List AppError
close_trace s a =
    if a.initialized_trace
    then (
      record a { initialized_trace = false; world = record a.world { tracing = false } },
      if s.tracing_ends then [] else trace_unclosed ∷ [],
    )
    else (a, [])

-- `failAfterInit`
unfoldable pub fail_after_init : Answers → List AppError → App → App
unfolding stop_cron close_trace rollback_replaced_resources
fail_after_init s e a =
    let quiet = record a {
      state = stopping;
      cancelled = true;
      wg = if s.goroutines_end then 0 else a.wg;
    } in
    let b = stop_cron s quiet in
    let c = close_trace s b.0 in
    let d = rollback_replaced_resources s c.0 in
    record d.0 { state = stopped; init_error = e ++ (b.1 ++ (c.1 ++ d.1)) }

unfoldable pub concluded : Answers → App × List AppError → App × List AppError
unfolding fail_after_init
concluded s (a, []) = (record a { state = initialized; init_error = [] }, [])
concluded s (a, e ∷ es) = let failed = fail_after_init s (e ∷ es) a in (failed, failed.init_error)

unfoldable pub init_at : AppState → Answers → App → App × List AppError
unfolding concluded do_init
init_at created s a = concluded s (do_init s (record a { state = initializing }))
init_at initializing s a = (a, a.init_error)
init_at initialized s a = (a, a.init_error)
init_at _ s a = (a, app_closed ∷ [])

-- `Init`
unfoldable pub init : Answers → App → App × List AppError
unfolding init_at
init s a = init_at a.state s a
