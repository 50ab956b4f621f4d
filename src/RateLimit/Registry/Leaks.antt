-- ===== src/RateLimit/Registry/Leaks.antt =====
-- middleware/ratelimit.go, `RateLimitRegistry`: no cleanup goroutine is lost from sight.
use xlgo_core.Base.{
  ℕ, zero, suc, ◌≡◌, refl, sym, ap, ◌∙◌, List, [], ◌∷◌, ◌++◌, Bool, true, false, not, ◌||◌, ◌&&◌,
  Option, none, some, length, arith, ◌==◌, Bool-cases, inl, inr,
}
use mathlib.Core.Bool.{false≢true}
use xlgo_core.Base.Text.{Text}
use xlgo_core.RateLimit.{RateLimiter, allow, stop}
use xlgo_core.RateLimit.Registry.{
  Registry, Closure, unused, broken, made, update, minute, fresh, new_registry,
  login_limiter_instance, api_limiter_instance, upload_limiter_instance, register_custom, stop_at,
  stop_each, init, stop_all, ask, login_rate_limit, api_rate_limit, upload_rate_limit,
  custom_rate_limit, Action, login_request, api_request, upload_request, custom_request, init_all,
  stop_everything, step, run,
}

-- Whether the object at an index has a running cleanup goroutine.
abbrev pub running : List RateLimiter → ℕ → Bool
running [] j = false
running (l ∷ ls) zero = not l.stopped
running (l ∷ ls) (suc j) = running ls j

abbrev pub contains : List ℕ → ℕ → Bool
contains [] j = false
contains (i ∷ is) j = i == j || contains is j

abbrev pub points : Option ℕ → ℕ → Bool
points none j = false
points (some i) j = i == j

-- The registry holds a pointer to the object.
abbrev pub holds : Registry → ℕ → Bool
holds r j = points r.login j || points r.api j || points r.upload j || contains r.custom j

abbrev Tracked : Registry → Type 0
Tracked r = (j : ℕ) → running r.heap j ≡ true → holds r j ≡ true

allow-stopped : (l : RateLimiter) (now : ℕ) (ip : Text) → (allow l now ip).0.stopped ≡ l.stopped
unfolding allow
allow-stopped l now ip = ground arith

running-allow :
    (ls : List RateLimiter) (i now j : ℕ) (ip : Text)
    → running (update ls i (λ l. (allow l now ip).0)) j ≡ running ls j
running-allow [] i now j ip = refl
running-allow (l ∷ ls) zero now zero ip = ap not (allow-stopped l now ip)
running-allow (l ∷ ls) zero now (suc j) ip = refl
running-allow (l ∷ ls) (suc i) now zero ip = refl
running-allow (l ∷ ls) (suc i) now (suc j) ip = running-allow ls i now j ip

running-stop :
    (ls : List RateLimiter) (i j : ℕ)
    → running (update ls i stop) j ≡ (not (i == j) && running ls j)
unfolding stop
running-stop [] i j = ground arith
running-stop (l ∷ ls) zero zero = refl
running-stop (l ∷ ls) zero (suc j) = ground arith
running-stop (l ∷ ls) (suc i) zero = ground arith
running-stop (l ∷ ls) (suc i) (suc j) = running-stop ls i j ∙ ground arith

running-stop_at :
    (ls : List RateLimiter) (o : Option ℕ) (j : ℕ)
    → running (stop_at o ls) j ≡ (not (points o j) && running ls j)
running-stop_at ls none j = refl
running-stop_at ls (some i) j = running-stop ls i j

running-stop_each :
    (is : List ℕ) (ls : List RateLimiter) (j : ℕ)
    → running (stop_each is ls) j ≡ (not (contains is j) && running ls j)
unfolding stop_each
running-stop_each [] ls j = refl
running-stop_each (i ∷ is) ls j =
    ground (arith, running-stop_each is (update ls i stop) j, running-stop ls i j)

-- A new object is the only one that starts to run.
running-append :
    (ls : List RateLimiter) (rate window j : ℕ)
    → running (ls ++ fresh rate window ∷ []) j ≡ true
    → (length ls == j || running ls j) ≡ true
running-append [] rate window zero h = ground arith
running-append [] rate window (suc j) h = cc
running-append (l ∷ ls) rate window zero h = ground arith
running-append (l ∷ ls) rate window (suc j) h = ground (arith, running-append ls rate window j)

contains-append : (is : List ℕ) (i j : ℕ) → contains (is ++ i ∷ []) j ≡ (contains is j || i == j)
contains-append [] i j = ground arith
contains-append (k ∷ is) i j = ground (arith, contains-append is i j)

ask-Tracked : (r : Registry) (i now : ℕ) (ip : Text) → Tracked r → Tracked (ask r i now ip).0
unfolding ask
ask-Tracked r i now ip t j h = t j (sym (running-allow r.heap i now j ip) ∙ h)

login-Tracked : (r : Registry) → Tracked r → Tracked (login_limiter_instance r).0
unfolding login_limiter_instance
login-Tracked r t j h = ground (arith, t j, running-append r.heap 10 minute j)

api-Tracked : (r : Registry) → Tracked r → Tracked (api_limiter_instance r).0
unfolding api_limiter_instance
api-Tracked r t j h = ground (arith, t j, running-append r.heap 100 minute j)

upload-Tracked : (r : Registry) → Tracked r → Tracked (upload_limiter_instance r).0
unfolding upload_limiter_instance
upload-Tracked r t j h = ground (arith, t j, running-append r.heap 20 minute j)

custom-Tracked :
    (r : Registry) (c : Closure) (rate window now : ℕ) (ip : Text)
    → Tracked r
    → Tracked (custom_rate_limit r c rate window now ip).0
unfolding custom_rate_limit
custom-Tracked r (made i) rate window now ip t = ask-Tracked r i now ip t
custom-Tracked r broken rate window now ip t = t
custom-Tracked r unused rate window now ip t = elim (Bool-cases (rate == 0 || window == 0)) [
  | inl bad ↦ rw bad t
  | inr good ↦ rw good (ask-Tracked registered (length r.heap) now ip tracked)
]
  where
    registered : Registry
    registered =
        register_custom (record r { heap = r.heap ++ fresh rate window ∷ [] }) (length r.heap)

    tracked : Tracked registered
    tracked j h = ground (
      arith,
      t j,
      running-append r.heap rate window j,
      contains-append r.custom (length r.heap) j,
    )

-- The three limiters that `Init` makes stand at the end of the heap.
running-append₃ :
    (ls : List RateLimiter) (a b c j : ℕ)
    → running (ls ++ fresh a minute ∷ fresh b minute ∷ fresh c minute ∷ []) j ≡ true
    → (length ls == j || suc (length ls) == j || suc (suc (length ls)) == j || running ls j) ≡ true
running-append₃ [] a b c zero h = ground arith
running-append₃ [] a b c (suc zero) h = ground arith
running-append₃ [] a b c (suc (suc zero)) h = ground arith
running-append₃ [] a b c (suc (suc (suc j))) h = cc
running-append₃ (l ∷ ls) a b c zero h = ground arith
running-append₃ (l ∷ ls) a b c (suc j) h = ground (arith, running-append₃ ls a b c j)

init-Tracked : (r : Registry) → Tracked r → Tracked (init r)
unfolding init
init-Tracked r t j h = ground (
  arith,
  t j,
  running-append₃ (stop_at r.upload (stop_at r.api (stop_at r.login r.heap))) 10 100 20 j,
  running-stop_at (stop_at r.api (stop_at r.login r.heap)) r.upload j,
  running-stop_at (stop_at r.login r.heap) r.api j,
  running-stop_at r.heap r.login j,
)

stop_all-running : (r : Registry) (j : ℕ) → Tracked r → running (stop_all r).heap j ≡ false
unfolding stop_all
stop_all-running r j t = ground (
  arith,
  t j,
  running-stop_each r.custom (stop_at r.upload (stop_at r.api (stop_at r.login r.heap))) j,
  running-stop_at (stop_at r.api (stop_at r.login r.heap)) r.upload j,
  running-stop_at (stop_at r.login r.heap) r.api j,
  running-stop_at r.heap r.login j,
)

step-Tracked : (r : Registry) (a : Action) → Tracked r → Tracked (step r a)
unfolding step login_rate_limit api_rate_limit upload_rate_limit
step-Tracked r (login_request now ip) t =
    ask-Tracked (login_limiter_instance r).0 (login_limiter_instance r).1 now ip (login-Tracked r t)
step-Tracked r (api_request now ip) t =
    ask-Tracked (api_limiter_instance r).0 (api_limiter_instance r).1 now ip (api-Tracked r t)
step-Tracked r (upload_request now ip) t =
    ask-Tracked (upload_limiter_instance r).0 (upload_limiter_instance r).1 now ip
      (upload-Tracked r t)
step-Tracked r (custom_request c rate window now ip) t = custom-Tracked r c rate window now ip t
step-Tracked r init_all t = init-Tracked r t
step-Tracked r stop_everything t = λ j h. absurd (false≢true (sym (stop_all-running r j t) ∙ h))

run-Tracked : (r : Registry) (actions : List Action) → Tracked r → Tracked (run r actions)
unfolding run
run-Tracked r [] t = t
run-Tracked r (a ∷ actions) t = run-Tracked (step r a) actions (step-Tracked r a t)

-- After any history of requests, `Init` and `Stop` on a new registry, the registry holds a pointer
-- to every limiter whose cleanup goroutine runs, and a further `Stop` leaves none running.
pub run-no_leak :
    (actions : List Action) (j : ℕ)
    → (running (run new_registry actions).heap j ≡ true → holds (run new_registry actions) j ≡ true)
      × (running (stop_all (run new_registry actions)).heap j ≡ false)
unfolding new_registry
run-no_leak actions j =
    let t = run-Tracked new_registry actions (λ k h. cc) in
    (t j, stop_all-running (run new_registry actions) j t)
