-- ===== src/RateLimit/Registry.antt =====
-- middleware/ratelimit.go, `RateLimitRegistry`: the limiters of one App and their goroutines.
-- Limiters are objects of a heap, and a pointer to one is its index: the registry and the closure
-- of a custom middleware share theirs. A limiter's cleanup goroutine runs from its construction
-- until `Stop` cancels it and waits for it. Each method holds the registry's mutex, so it is one
-- step.
pub mod Leaks
use xlgo_core.Base.{
  ℕ, zero, suc, List, [], ◌∷◌, ◌++◌, Bool, true, false, not, Option, none, some, if◌then◌else◌,
  length, ◌||◌, ◌==◌,
}
use xlgo_core.Base.Text.{Text}
use xlgo_core.RateLimit.{RateLimiter, allow, stop}

pub record Registry : Type 0 where
  pub login : Option ℕ
  pub api : Option ℕ
  pub upload : Option ℕ
  pub custom : List ℕ
  pub heap : List RateLimiter

abbrev pub get : List RateLimiter → ℕ → Option RateLimiter
get [] i = none
get (l ∷ ls) zero = some l
get (l ∷ ls) (suc i) = get ls i

abbrev pub update : List RateLimiter → ℕ → (RateLimiter → RateLimiter) → List RateLimiter
update [] i f = []
update (l ∷ ls) zero f = f l ∷ ls
update (l ∷ ls) (suc i) f = l ∷ update ls i f

-- `time.Minute`, in nanoseconds
abbrev pub minute : ℕ
minute = 60000000000

-- `NewRateLimiter` at a positive rate and window
abbrev pub fresh : ℕ → ℕ → RateLimiter
fresh rate window = record { visitors = []; rate = rate; window = window; stopped = false }

unfoldable pub new_registry : Registry
new_registry = record { login = none; api = none; upload = none; custom = []; heap = [] }

unfoldable pub login_limiter_instance : Registry → Registry × ℕ
login_limiter_instance r = elim r.login [
  | some i ↦ (r, i)
  | none ↦ (
    record r { login = some (length r.heap); heap = r.heap ++ fresh 10 minute ∷ [] },
    length r.heap,
  )
]

unfoldable pub api_limiter_instance : Registry → Registry × ℕ
api_limiter_instance r = elim r.api [
  | some i ↦ (r, i)
  | none ↦ (
    record r { api = some (length r.heap); heap = r.heap ++ fresh 100 minute ∷ [] },
    length r.heap,
  )
]

unfoldable pub upload_limiter_instance : Registry → Registry × ℕ
upload_limiter_instance r = elim r.upload [
  | some i ↦ (r, i)
  | none ↦ (
    record r { upload = some (length r.heap); heap = r.heap ++ fresh 20 minute ∷ [] },
    length r.heap,
  )
]

-- `registerCustom`, on a limiter that the heap holds
unfoldable pub register_custom : Registry → ℕ → Registry
register_custom r i = record r { custom = r.custom ++ i ∷ [] }

abbrev pub stop_at : Option ℕ → List RateLimiter → List RateLimiter
stop_at none h = h
stop_at (some i) h = update h i stop

unfoldable pub stop_each : List ℕ → List RateLimiter → List RateLimiter
stop_each [] h = h
stop_each (i ∷ is) h = stop_each is (update h i stop)

-- `Init`: stops those of the three that are there, then makes all three anew.
unfoldable pub init : Registry → Registry
init r =
    let h = stop_at r.upload (stop_at r.api (stop_at r.login r.heap)) in
    record r {
      login = some (length h);
      api = some (suc (length h));
      upload = some (suc (suc (length h)));
      heap = h ++ fresh 10 minute ∷ fresh 100 minute ∷ fresh 20 minute ∷ [];
    }

-- `Stop`
unfoldable pub stop_all : Registry → Registry
unfolding stop_each
stop_all r = record {
  login = none;
  api = none;
  upload = none;
  custom = [];
  heap = stop_each r.custom (stop_at r.upload (stop_at r.api (stop_at r.login r.heap)));
}

-- What the middleware does: the next handler runs, the request is aborted with a status, or the
-- handler panics.
pub data Outcome : Type 0 where
  next too_many_requests service_unavailable panicked : Outcome

-- `rateLimitAllow` on a limiter, and on one that is nil
unfoldable pub rate_limit_allow : Option RateLimiter → ℕ → Text → Outcome
rate_limit_allow none now ip = service_unavailable
rate_limit_allow (some l) now ip = if (allow l now ip).1 then next else too_many_requests

-- A request that meets the limiter at a pointer, which keeps its new state.
unfoldable pub ask : Registry → ℕ → ℕ → Text → Registry × Outcome
unfolding rate_limit_allow
ask r i now ip = (
  record r { heap = update r.heap i (λ l. (allow l now ip).0) },
  rate_limit_allow (get r.heap i) now ip,
)

unfoldable pub login_rate_limit : Registry → ℕ → Text → Registry × Outcome
unfolding login_limiter_instance ask
login_rate_limit r now ip = let (r', i) = login_limiter_instance r in ask r' i now ip

unfoldable pub api_rate_limit : Registry → ℕ → Text → Registry × Outcome
unfolding api_limiter_instance ask
api_rate_limit r now ip = let (r', i) = api_limiter_instance r in ask r' i now ip

unfoldable pub upload_rate_limit : Registry → ℕ → Text → Registry × Outcome
unfolding upload_limiter_instance ask
upload_rate_limit r now ip = let (r', i) = upload_limiter_instance r in ask r' i now ip

-- What the closure of `CustomRateLimit` holds: its `once` has not run, it ran and panicked, so that
-- the limiter stays nil, or it made a limiter.
pub data Closure : Type 0 where
  unused broken : Closure
  made : ℕ → Closure

-- `rate` and `window` are 0 for every value that `mustValidRateLimit` panics on.
unfoldable pub custom_rate_limit :
    Registry → Closure → ℕ → ℕ → ℕ → Text → Registry × Closure × Outcome
unfolding ask register_custom
custom_rate_limit r (made i) rate window now ip =
    let (r', out) = ask r i now ip in (r', made i, out)
custom_rate_limit r broken rate window now ip = (r, broken, rate_limit_allow none now ip)
custom_rate_limit r unused rate window now ip =
    let i : ℕ = length r.heap in
    let r' = register_custom (record r { heap = r.heap ++ fresh rate window ∷ [] }) i in
    let (r'', out) = ask r' i now ip in
    if rate == 0 || window == 0 then (r, broken, panicked) else (r'', made i, out)

pub data Action : Type 0 where
  login_request api_request upload_request : ℕ → Text → Action
  custom_request : Closure → ℕ → ℕ → ℕ → Text → Action
  init_all stop_everything : Action

unfoldable pub step : Registry → Action → Registry
step r (login_request now ip) = (login_rate_limit r now ip).0
step r (api_request now ip) = (api_rate_limit r now ip).0
step r (upload_request now ip) = (upload_rate_limit r now ip).0
step r (custom_request closure rate window now ip) =
    (custom_rate_limit r closure rate window now ip).0
step r init_all = init r
step r stop_everything = stop_all r

unfoldable pub run : Registry → List Action → Registry
run r [] = r
run r (a ∷ rest) = run (step r a) rest
