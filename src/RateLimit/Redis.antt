-- ===== src/RateLimit/Redis.antt =====
-- middleware/ratelimit.go, `RedisRateLimiter`: the answer under every fault of Redis, and the sliding
-- window of its script. The sorted sets of Redis are a parameter.
use xlgo_core.Base.{
  ℕ, ◌-◌, ◌+◌, ◌≤◌, ◌<◌, ◌≡◌, refl, List, [], ◌∷◌, Bool, true, false, Option, none, some, arith,
  ltb, leb, ◌==◌, ◌&&◌, if◌then◌else◌, ◌↔◌, ◌⊎◌, ◌≢◌, max, Bool-cases, inl, inr,
}
use xlgo_core.RateLimit.Registry.{Outcome, next, too_many_requests, service_unavailable}

-- What the script's call comes back with: an integer, a value of another type, or an error.
pub data Reply : Type 0 where
  integer : ℕ → Reply
  other_type failed : Reply

pub data Fault : Type 0 where
  unavailable unexpected_result backend : Fault

-- `Allow`: the answer and the error. `none` stands for a client that is nil.
unfoldable pub allow : Bool → Option Reply → Bool × Option Fault
allow fail_closed none = if fail_closed then (false, some unavailable) else (true, none)
allow fail_closed (some failed) =
    if fail_closed then (false, some backend) else (true, some backend)
allow fail_closed (some other_type) =
    if fail_closed then (false, some unexpected_result) else (true, some unexpected_result)
allow fail_closed (some (integer n)) = (n == 0, none)

unfoldable pub redis_limit_decision : Bool → Option Fault → Outcome
redis_limit_decision allowed none = if allowed then next else too_many_requests
redis_limit_decision allowed (some e) = if allowed then next else service_unavailable

-- The body of the Redis middlewares, after the identifier is chosen.
unfoldable pub redis_rate_limit : Bool → Option Reply → Outcome
unfolding allow redis_limit_decision
redis_rate_limit fail_closed reply =
    let (allowed, e) = allow fail_closed reply in redis_limit_decision allowed e

-- A limiter that is fail-closed lets a request through exactly when the script answered 0, says
-- 429 exactly when it answered another number, and 503 on every fault; one that is fail-open lets
-- it through unless the script answered a number other than 0.
pub redis_rate_limit_lem :
    (reply : Option Reply)
    → ((redis_rate_limit true reply ≡ next) ↔ (reply ≡ some (integer 0)))
      × ((redis_rate_limit true reply ≡ too_many_requests)
          ↔ ((n : ℕ) × (n ≢ 0) × (reply ≡ some (integer n))))
      × ((redis_rate_limit true reply ≡ service_unavailable)
          ↔ ((reply ≡ none) ⊎ ((reply ≡ some failed) ⊎ (reply ≡ some other_type))))
      × ((redis_rate_limit false reply ≡ next) ↔ ((n : ℕ) → n ≢ 0 → reply ≢ some (integer n)))
unfolding redis_rate_limit
redis_rate_limit_lem none = grind arith
redis_rate_limit_lem (some failed) = grind arith
redis_rate_limit_lem (some other_type) = grind arith
redis_rate_limit_lem (some (integer n)) = (
  (λ e. ground arith, λ e. ground arith),
  (λ e. (n, ground arith, refl), λ (m, h, e). ground arith),
  (λ e. ground arith, λ e. ground arith),
  (
    λ e m h g. ground arith,
    λ h. elim (Bool-cases (n == 0)) [
      | inl zero' ↦ rw zero' refl
      | inr pos' ↦ absurd (h n (ground arith) refl)
    ],
  ),
)

-- What the script needs of Redis: sorted sets of which `zremrangebyscore` drops the members with a
-- score up to a bound, `zcard` counts the rest, and `zadd s` adds a member named after the score `s`
-- and `math.random()`, which Redis seeds alike for every run of a script: it is a new member if none
-- of that score or a later one is there. `above t z` counts the members of `z` with a score above `t`.
pub record SortedSets : Type 1 where
  pub Z : Type 0
  pub empty : Z
  pub zremrangebyscore : ℕ → Z → Z
  pub zcard : Z → ℕ
  pub zadd : ℕ → Z → Z
  pub above : ℕ → Z → ℕ
  pub above-empty : (t : ℕ) → above t empty ≡ 0
  pub zcard-zremrangebyscore : (t : ℕ) (z : Z) → zcard (zremrangebyscore t z) ≡ above t z
  pub above-zremrangebyscore :
      (t u : ℕ) (z : Z) → above u (zremrangebyscore t z) ≡ above (max t u) z
  pub above-zadd :
      (t s : ℕ) (z : Z)
      → above s z ≡ 0
      → above (s - 1) z ≡ 0
      → above t (zadd s z) ≡ (if ltb t s then 1 else 0) + above t z
  pub above-mono : (t u : ℕ) (z : Z) → t ≤ u → above u z ≤ above t z

module _ (redis : SortedSets) where
  open redis use {Z, empty, zremrangebyscore, zcard, zadd, above}

  -- The script at the time `now`, in milliseconds: the set afterwards, and 0 or the count.
  -- `PEXPIRE` drops the whole set only once each score in it has left the window.
  unfoldable pub sliding_window : (rate window now : ℕ) → Z → Z × ℕ
  sliding_window rate window now z =
      let kept = zremrangebyscore (now - window) z in
      if ltb (zcard kept) rate then (zadd now kept, 0) else (kept, zcard kept)

  -- Calls one after the other, and the answers of `Allow` to them.
  unfoldable pub slide : (rate window : ℕ) → List ℕ → Z → Z × List Bool
  unfolding sliding_window
  slide rate window [] z = (z, [])
  slide rate window (now ∷ times) z =
      let (z', n) = sliding_window rate window now z in
      let (z'', answers) = slide rate window times z' in (z'', (n == 0) ∷ answers)

  -- Those let through after `t - window` and not after `t`.
  abbrev pub allowed_in : (window t : ℕ) → List ℕ → List Bool → ℕ
  allowed_in window t (now ∷ times) (a ∷ answers) =
      (if ltb (t - window) now && (leb now t && a) then 1 else 0)
      + allowed_in window t times answers
  allowed_in window t _ _ = 0

  abbrev pub Ascending : ℕ → List ℕ → Type 0
  Ascending t [] = Unit
  Ascending t (now ∷ times) = (t < now) × Ascending now times
