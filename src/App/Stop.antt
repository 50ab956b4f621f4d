-- ===== src/App/Stop.antt =====
-- app.go: `Shutdown` with the steps of `doShutdown`, and `Run` with those of `StartServer`.
use xlgo_core.Base.{
  ℕ, zero, suc, ◌+◌, List, [], ◌∷◌, ◌++◌, Bool, true, false, not, Option, none, some, if◌then◌else◌,
}
use xlgo_core.App.{
  App, World, Resource, logger, mysql, redis, storage, limiter, AppState, initialized, stopping,
  stopped, is_stopping, AppError, trace_unclosed, hook_failed, server_unclosed, unclosed,
  not_listening, tls_invalid, serve_failed, Hook, StopAnswer, stops, fails, fails_late, Answers,
  at_resource, set_live, stop_cron,
}
use xlgo_core.App.Init.{init}

-- The `OnStop` loop: how many ran, and their errors. It ends when the time is over.
stopped_by : Option StopAnswer → ℕ × List AppError → ℕ × List AppError
stopped_by none rest = rest
stopped_by (some stops) rest = (suc rest.0, rest.1)
stopped_by (some fails) rest = (suc rest.0, hook_failed ∷ rest.1)
stopped_by (some fails_late) rest = (1, hook_failed ∷ [])

unfoldable pub run_on_stop_hooks : List Hook → ℕ × List AppError
unfolding stopped_by
run_on_stop_hooks [] = (0, [])
run_on_stop_hooks (h ∷ hs) = let rest = run_on_stop_hooks hs in stopped_by h.on_stop rest

-- `database.CloseAll`, `database.CloseRedis` and `logger.Close` act on the default.
close_default : Resource → World → World
close_default storage w = w
close_default r w = elim (w.defaults r) [ none ↦ w | some o ↦ set_live r o false w ]

-- `closeResources` on one resource
unfoldable pub close_resource : Answers → Resource → App → App × List AppError
unfolding close_default
close_resource s r a = if not (a.slots r).initialized then (a, []) else (
  record a {
    slots =
        at_resource r
          (record { initialized = false; manager = false; previous = (a.slots r).previous })
          a.slots;
    world = if (a.slots r).manager then set_live r a.id false a.world else close_default r a.world;
  },
  if s.shuts r then [] else unclosed r ∷ [],
)

unfoldable pub close_each : Answers → List Resource → App → App × List AppError
unfolding close_resource
close_each s [] a = (a, [])
close_each s (r ∷ rs) a =
    let here = close_resource s r a in
    let rest = close_each s rs here.0 in (rest.0, here.1 ++ rest.1)

abbrev pub close_order : List Resource
close_order = mysql ∷ redis ∷ storage ∷ logger ∷ []

-- `closeResources`
unfoldable pub close_resources : Answers → App → App × List AppError
unfolding close_each
close_resources s a = close_each s close_order a

-- `server.Shutdown`, and `server.Close` when that fails: either way nothing listens any more.
unfoldable pub shut_server : Answers → App → App × List AppError
shut_server s a = if not a.server then (a, []) else (
  record a { listening = false },
  if s.server_shuts
      then []
      else server_unclosed ∷ (if s.server_closes then [] else server_unclosed ∷ []),
)

-- `rateLimitRegistry.Stop`
unfoldable pub stop_limiter : App → App
stop_limiter a =
    if (a.slots limiter).manager
    then record a { world = set_live limiter a.id false a.world }
    else a

unfoldable pub flush_trace : Answers → App → App × List AppError
flush_trace s a =
    if a.initialized_trace
    then (
      record a { world = record a.world { tracing = false } },
      if s.tracing_ends then [] else trace_unclosed ∷ [],
    )
    else (a, [])

-- The part of `doShutdown` that releases the resources.
unfoldable pub release : Answers → App → App × List AppError
unfolding stop_cron stop_limiter flush_trace close_resources
release s a =
    let f = flush_trace s (stop_limiter (stop_cron s a).0) in
    let g = close_resources s f.0 in (g.0, f.1 ++ g.1)

-- `doShutdown`; that the scheduler stops late is only logged.
unfoldable pub do_shutdown : Answers → Bool → App → App × List AppError
unfolding run_on_stop_hooks shut_server release
do_shutdown s was_initialized a =
    let hooks = if was_initialized then run_on_stop_hooks a.hooks else (zero, []) in
    let b = record a { stop_hooks = a.stop_hooks + hooks.0; cancelled = true } in
    let c = shut_server s b in
    let d = record c.0 { wg = if s.goroutines_end then 0 else c.0.wg } in
    let e = release s d in (e.0, hooks.1 ++ (c.1 ++ e.1))

abbrev pub is_initialized : AppState → Bool
is_initialized initialized = true
is_initialized _ = false

-- `Shutdown`
unfoldable pub shutdown : Answers → App → App × List AppError
unfolding do_shutdown
shutdown s a =
    let run =
      do_shutdown s (is_initialized a.state)
        (record a { shutdown_once = true; state = stopping }) in
    if a.shutdown_once
    then (a, a.shutdown_error)
    else if is_stopping a.state
    then (record a { shutdown_once = true }, a.shutdown_error)
    else (record run.0 { state = stopped; shutdown_error = run.1 }, run.1)

-- `shutdownAfterStartFailure`
unfoldable pub shutdown_after_start_failure : Answers → App × List AppError → App × List AppError
unfolding shutdown
shutdown_after_start_failure s (a, []) = (a, [])
shutdown_after_start_failure s (a, e ∷ es) = let run = shutdown s a in (run.0, (e ∷ es) ++ run.1)

-- What happens while the server runs: it fails, a signal arrives, or somebody else closes it, by a
-- call of `Shutdown` that goes on afterwards, or by `GetServer().Close()`.
pub data Serving : Type 0 where
  serving_fails signalled closed_elsewhere : Serving

-- What `StartServer` finds: a port, a certificate that is valid or not asked for, whether the server
-- fails or is closed by somebody else before `OnReady`, and how it ends otherwise.
pub record Network : Type 0 where
  pub listens : Bool
  pub certified : Bool
  pub fails_early : Bool
  pub closed_early : Bool
  pub serving : Serving

-- The `OnStart` and the `OnReady` loop
unfoldable pub some_fails : List (Option Bool) → Bool
some_fails [] = false
some_fails (none ∷ hs) = some_fails hs
some_fails (some fine ∷ hs) = if fine then some_fails hs else true

unfoldable pub on_starts : List Hook → List (Option Bool)
on_starts [] = []
on_starts (h ∷ hs) = h.on_start ∷ on_starts hs

unfoldable pub on_readies : List Hook → List (Option Bool)
on_readies [] = []
on_readies (h ∷ hs) = h.on_ready ∷ on_readies hs

-- `Serve` of a server that was closed gives `ErrServerClosed` at once, which is no error: what else a
-- `Shutdown` that closed it has to do comes after that.
unfoldable pub served : Answers → Serving → App → App × List AppError
unfolding shutdown shutdown_after_start_failure
served s serving_fails a = shutdown_after_start_failure s (a, serve_failed ∷ [])
served s closed_elsewhere a = (record a { listening = false }, [])
served s signalled a = shutdown s a

-- `StartServer`, on an App that has its configuration. The listener of a server that is shut down is
-- closed with it.
unfoldable pub start_server : Answers → Network → App → App × List AppError
unfolding shutdown_after_start_failure some_fails on_starts on_readies served
start_server s n a =
    let b = record a { server = true } in
    let c = record b { listening = true } in
    if some_fails (on_starts a.hooks)
    then shutdown_after_start_failure s (b, hook_failed ∷ [])
    else if not n.listens
    then shutdown_after_start_failure s (b, not_listening ∷ [])
    else if not n.certified
    then shutdown_after_start_failure s (b, tls_invalid ∷ [])
    else if n.fails_early
    then shutdown_after_start_failure s (c, serve_failed ∷ [])
    else if n.closed_early
    then (record c { listening = false }, [])
    else if some_fails (on_readies a.hooks)
    then shutdown_after_start_failure s (c, hook_failed ∷ [])
    else served s n.serving c

unfoldable pub started : Answers → Network → App × List AppError → App × List AppError
unfolding start_server shutdown_after_start_failure
started s n (a, []) = shutdown_after_start_failure s (start_server s n a)
started s n (a, e ∷ es) = (a, e ∷ es)

-- `Run`
unfoldable pub run : Answers → Network → App → App × List AppError
unfolding started init
run s n a = started s n (init s a)
