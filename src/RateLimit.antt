-- ===== src/RateLimit.antt =====
-- middleware/ratelimit.go: the in-memory limiter with its fixed windows and its cleanup goroutine.
-- A call holds the mutex throughout, so it is one step; its time is an argument, in nanoseconds.
-- `now.Sub(start) > window` is `window < now - start` also where the clock went back, since both
-- are then false.
pub mod Call
pub mod Bounds
pub mod Cleanup
pub mod Registry
pub mod Redis
mod Tests
use xlgo_core.Base.{
  ℕ, suc, ◌-◌, List, [], ◌∷◌, Bool, true, false, not, Option, none, some, ltb, leb, if◌then◌else◌,
}
use xlgo_core.Base.{Result, ok, err}
use xlgo_core.Base.Text.{Text}
use xlgo_core.Base.Dict.{Dict, lookup, insert, retain}
use xlgo_core.Base.Int.{ℤ, pos, pos_part, leb_ℤ}

-- The start of the current window, and the requests let through since.
pub record Visitor : Type 0 where
  pub window_start : ℕ
  pub count : ℕ

pub record RateLimiter : Type 0 where
  pub visitors : Dict Visitor
  pub rate : ℕ
  pub window : ℕ
  pub stopped : Bool

-- The two panics of `mustValidRateLimit`.
pub data Panic : Type 0 where
  rate_not_positive window_not_positive : Panic

unfoldable pub must_valid_rate_limit : ℤ → ℤ → Result Panic (ℕ × ℕ)
must_valid_rate_limit rate window =
    if leb_ℤ rate (pos 0)
    then err rate_not_positive
    else if leb_ℤ window (pos 0)
    then err window_not_positive
    else ok (pos_part rate, pos_part window)

unfoldable pub new_rate_limiter : ℤ → ℤ → Result Panic RateLimiter
unfolding must_valid_rate_limit
new_rate_limiter rate window = elim (must_valid_rate_limit rate window) [
  | err p ↦ err p
  | ok (r, w) ↦ ok (record { visitors = []; rate = r; window = w; stopped = false })
]

-- The visitor's new record and the answer; a refusal leaves the record alone.
unfoldable pub allow_visitor : RateLimiter → ℕ → Text → Option Visitor → RateLimiter × Bool
allow_visitor l now ip none =
    (record l { visitors = insert ip (record { window_start = now; count = 1 }) l.visitors }, true)
allow_visitor l now ip (some v) =
    if ltb l.window (now - v.window_start)
    then (
      record l { visitors = insert ip (record { window_start = now; count = 1 }) l.visitors },
      true,
    )
    else if leb l.rate v.count
    then (l, false)
    else (record l { visitors = insert ip (record v { count = suc v.count }) l.visitors }, true)

unfoldable pub allow : RateLimiter → ℕ → Text → RateLimiter × Bool
unfolding allow_visitor
allow l now ip = allow_visitor l now ip (lookup ip l.visitors)

-- One tick of the goroutine; once the context is cancelled it has returned.
unfoldable pub cleanup_visitors : RateLimiter → ℕ → RateLimiter
cleanup_visitors l now =
    if l.stopped
    then l
    else record l { visitors = retain (λ v. not (ltb l.window (now - v.window_start))) l.visitors }

unfoldable pub stop : RateLimiter → RateLimiter
stop l = record l { stopped = true }

-- Calls of `Allow` one after the other: the limiter at the end, and the answers.
unfoldable pub serve : RateLimiter → List (ℕ × Text) → RateLimiter × List Bool
serve l [] = (l, [])
serve l ((now, ip) ∷ reqs) =
    let (l', answer) = allow l now ip in
    let (l'', answers) = serve l' reqs in (l'', answer ∷ answers)

-- What happens to a limiter: a call of `Allow`, or a tick of its goroutine.
pub data Event : Type 0 where
  request : ℕ → Text → Event
  tick : ℕ → Event

unfoldable pub run : RateLimiter → List Event → RateLimiter × List Bool
run l [] = (l, [])
run l (request now ip ∷ es) =
    let (l', answer) = allow l now ip in let (l'', answers) = run l' es in (l'', answer ∷ answers)
run l (tick now ∷ es) = run (cleanup_visitors l now) es
