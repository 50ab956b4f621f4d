-- ===== src/Lib.antt =====
-- xlgo-core: models of the life cycle of an application, the rate limiters, the task scheduler, the
-- distributed lock, tokens, the WebSocket hub and the request filters of the framework, with the
-- theorems on them.
--
-- The program is a Go web framework. An App reads its configuration, starts the components it is given
-- (database, Redis, cron, storage, tracing) and serves HTTP through gin; the middlewares stand between
-- gin and the handlers. The parts modelled here are those that keep state over requests or decide
-- whether a request goes on.
--
-- * App is app.go: App.antt has the state of the life cycle and the process with its defaults,
--   App/Init.antt `Init` with the steps of `doInit` and the rollback, App/Stop.antt `Shutdown`,
--   `StartServer` and `Run`. The other App files hold the proofs: Slots and Rollback follow one
--   resource, Failure is an `Init` that fails (the default of the configuration and the modes of gin
--   and of the answers, which it sets, are not put back), Closed, Phases, Started and History are the calls of `Shutdown` and
--   `Run` after any others; a `Shutdown` that closes the server of a `Run` counts after it. Managers are known by their owner; which calls fail is an argument.
-- * RateLimit is middleware/ratelimit.go. RateLimit.antt has `RateLimiter` with `NewRateLimiter`,
--   `Allow`, the cleanup goroutine and `Stop`: the visitors are an association list, a call happens at
--   a time that is given, and the mutex makes each call one step. RateLimit/Registry.antt has
--   `RateLimitRegistry`: its limiters are objects on a heap and pointers are indices, since a custom
--   middleware and the registry share one. RateLimit/Redis.antt has the sliding window script and the
--   middleware on every reply; the sorted sets of Redis are a record of commands with their laws, in
--   which two members added in one millisecond need not be two.
--   RateLimit/Call, Bounds, Cleanup and Registry/Leaks are the proofs.
-- * Cron is cron/cron.go. Cron/Clock.antt reads the parts of an instant, in UTC. Cron/Expr.antt is the
--   language of fields: matching (`matchField`, `matchCronItem`, `parseCronRange`) and strict
--   validation. Cron/Schedule.antt has the schedules and their `Next`. Cron/Scheduler.antt is
--   `Scheduler`: tasks on a heap, executions as elements of a list of jobs, and one event for each
--   critical section, so that a history is any interleaving of the loop, the jobs, manual runs and the
--   callers of `Start` and `StopWithTimeout`. Cron/Expr, Schedule and Scheduler hold the proofs.
-- * Lock is cache/lock.go. Lock.antt has the three scripts and the operations on a token; the server is
--   a record of commands with their laws, in which a key is not seen after its time to live. A call
--   may be lost on its way, or only its answer. Lock/Exclusion and Lock/Sessions follow a key through
--   the calls of all clients. Lock/Guarded.antt has `TryLock`, `WithLock` and `WithLockAutoExtend`, and
--   its child modules the proofs on them.
-- * Csrf is middleware/csrf.go: Csrf.antt has the cookie middlewares as functions from a request to an
--   outcome, where an error function of the application need not abort, Csrf/Paths.antt the skipped paths, Csrf/Api.antt the store of single-use tokens and
--   Csrf/Checks.antt the proofs on the cookie middlewares.
-- * Cors is middleware/cors.go with the accessors of `CORSConfig` in config/config.go; Cors/Origins.antt
--   has the proofs.
-- * Jwt is jwt/jwt.go: Jwt.antt has the functions on tokens, with golang-jwt and the keys of Redis as
--   records of operations and laws; Jwt/Revoked and Jwt/Issued hold the proofs.
-- * Auth is middleware/auth.go: the chain of `AuthRequired` and a check of types or roles, each a
--   function on the context of a request; it calls `ParseToken` of Jwt. Auth/Chain has the proofs.
-- * Ws is ws/ws.go: Ws.antt has a connection with its buffer, Ws/Hub.antt the hub: the goroutine of
--   `Run`, the callers and `Stop` take turns in any order. Ws/Origin.antt is the check of origins, and
--   Ws/Hub/Lost and Ws/Hub/Ending hold the proofs.
-- * Repository is repository/repository.go: Repository.antt has the pages (`FindPage` and its kin, a
--   missing condition or order being an option; only an order that ranks the rows fixes their place) and the checks of orders, with GORM as a record of
--   queries and laws; Repository/Pages and Repository/Orders hold the proofs.
-- * Settings is config/config.go and config/validate.go: Settings.antt has the sections that `Validate`
--   reads, its checks and `PostgresDSN`; Settings/Manage.antt the `Manager`, with viper as a record of
--   operations. Settings/Quoted and Manage/Views have the proofs.
-- * Storage is storage/storage.go: Storage.antt has the upload policy with the reader that enforces it,
--   Storage/Paths.antt `sanitizeObjectKey`, `publicURL` and `safeJoin` with `path.Clean` and its kin,
--   Storage/Local.antt `LocalStorage`. Storage/Store.antt is the store of named contents that its
--   clients rely on; Paths/Clean, Anchor, Relative and Accept, Place, Refine, Uploads, Clients, Caps and Whole
--   hold the proofs. What `http.DetectContentType` says is a parameter, the slash is the separator.
-- * Database is database/manager.go: Database.antt has the pickers and `Manager`, with a round of the
--   retries or a replica's DSN given by how the attempt goes. Database/Pools and History follow the
--   pools through any calls, Pick and Probe have the proofs on replicas and on the marks of health.
-- * Base holds what they share: texts as lists of code points, maps as association lists, Go's signed
--   integers, `strconv.Atoi`, decimal printing, results with an error, and tests on numbers.
--
-- The Tests modules run the definitions on small inputs and apply each theorem there; Jwt/Toy is the
-- library of tokens and the store that those of Jwt and Auth use.
--
-- Numbers: a time or a duration is a natural number where the code only has it so (an instant since
-- 1970, a window that passed validation) and an integer where a caller can pass any. The counters stay
-- below their limits, so that no operation modelled here leaves the range of `int64`, and the wrap at
-- 2 ^ 63 is not written out. Every loop is a structural recursion: over the minutes of the cron search,
-- at most 366 * 24 * 60 of them as in the code, over the attempts of `TryLock`, of which there are
-- `maxRetry`, over the five rounds of `initDB`, over the fields of an expression, the segments of a path
-- or the chunks of a source, or over a list of events. Only decimal printing has fuel: one step more than
-- the number says, which has fewer digits than that.
--
-- Not modelled: time zones with daylight saving; panics of jobs and of locked functions, which end like
-- an ordinary return in the deferred calls; the end of the context of the extending goroutine, which is
-- a failed extension here; the loss of data on the Redis server; another application that replaces
-- the defaults while an `Init` or `Shutdown` runs; symbolic links and, but for the answers of a call,
-- directories. The object storage of a cloud, the cache, server-sent events, routing and responses
-- have no model; logging, tracing, the console and the project generator are input and output.
pub mod App
pub mod Auth
pub mod Base
pub mod Cors
pub mod Cron
pub mod Csrf
pub mod Database
pub mod Jwt
pub mod Lock
pub mod RateLimit
pub mod Repository
pub mod Settings
pub mod Storage
pub mod Ws
