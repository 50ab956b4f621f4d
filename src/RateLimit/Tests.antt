-- ===== src/RateLimit/Tests.antt =====
-- Runs of the rate limiters on concrete requests.
use xlgo_core.Base.{
  ℕ, ◌+◌, ◌*◌, ◌≤◌, ◌≡◌, refl, List, [], ◌∷◌, true, false, arith, ltb, max, if◌then◌else◌, length,
}
use xlgo_core.Base.Text.{Text, codes, text_eq}
use xlgo_core.Base.Dict.{lookup, insert}
use xlgo_core.RateLimit.{RateLimiter, allow, stop, serve, request, tick, run}
use xlgo_core.RateLimit.Bounds.{allowed_of, requests_of, serve-burst, serve_complete}
use xlgo_core.RateLimit.Cleanup.{run-eq-serve}
use xlgo_core.RateLimit.Registry.{
  Outcome, next, too_many_requests, service_unavailable, new_registry, unused, login_request,
  custom_request, init_all, stop_all,
}
use xlgo_core.RateLimit.Registry as Registry
use xlgo_core.RateLimit.Registry.Leaks.{running, holds, run-no_leak}
use xlgo_core.RateLimit.Redis.{SortedSets, slide}

abbrev alice : Text
alice = codes "10.0.0.1"

abbrev bob : Text
bob = codes "10.0.0.2"

-- Two requests in a window of ten.
abbrev small : RateLimiter
small = record { visitors = []; rate = 2; window = 10; stopped = false }

abbrev burst : List (ℕ × Text)
burst = (9, alice) ∷ (10, alice) ∷ (10, bob) ∷ (12, alice) ∷ (19, alice) ∷ []

-- Alice began her window at time 1 and has used it up at 10, so that her new one starts at 12.
abbrev worn : RateLimiter
worn = record small { visitors = (alice, record { window_start = 1; count = 0 }) ∷ [] }

serve-worn : (serve worn burst).1 ≡ true ∷ true ∷ true ∷ true ∷ true ∷ []
unfolding serve allow lookup insert
serve-worn = refl

serve-small : (serve small burst).1 ≡ true ∷ true ∷ true ∷ false ∷ false ∷ []
unfolding serve allow lookup insert
serve-small = refl

serve-burst_example : allowed_of alice burst (serve worn burst).1 ≤ 2 * 2
serve-burst_example = serve-burst alice 9 19 worn burst (omega arith) refl (omega arith)

serve_complete_example : allowed_of bob burst (serve small burst).1 ≡ requests_of bob burst
unfolding lookup text_eq
serve_complete_example = serve_complete bob small burst refl (omega arith)

run-eq-serve_example :
    (run small (request 3 alice ∷ tick 20 ∷ request 21 alice ∷ [])).1
    ≡ (serve small ((3, alice) ∷ (21, alice) ∷ [])).1
run-eq-serve_example =
    run-eq-serve 0 small (request 3 alice ∷ tick 20 ∷ request 21 alice ∷ []) tt (omega arith)

abbrev history : List Registry.Action
history = login_request 5 alice ∷ custom_request unused 3 9 6 bob ∷ init_all ∷ []

history_running :
    (running (Registry.run new_registry history).heap 0 ≡ false)
    × (running (Registry.run new_registry history).heap 1 ≡ true)
unfolding Registry.run Registry.step new_registry Registry.login_rate_limit
    Registry.custom_rate_limit Registry.init allow lookup stop
history_running = (refl, refl)

run-no_leak_example :
    (running (Registry.run new_registry history).heap 1 ≡ true
      → holds (Registry.run new_registry history) 1 ≡ true)
    × (running (stop_all (Registry.run new_registry history)).heap 1 ≡ false)
run-no_leak_example = run-no_leak history 1

-- Sorted sets as the lists of their scores.
abbrev drop_to : ℕ → List ℕ → List ℕ
drop_to t [] = []
drop_to t (s ∷ z) = if ltb t s then s ∷ drop_to t z else drop_to t z

abbrev count_above : ℕ → List ℕ → ℕ
count_above t [] = 0
count_above t (s ∷ z) = (if ltb t s then 1 else 0) + count_above t z

length-drop_to : (t : ℕ) (z : List ℕ) → length (drop_to t z) ≡ count_above t z
length-drop_to t [] = refl
length-drop_to t (s ∷ z) = ground (arith, length-drop_to t z)

count_above-drop_to : (t u : ℕ) (z : List ℕ) → count_above u (drop_to t z) ≡ count_above (max t u) z
count_above-drop_to t u [] = refl
count_above-drop_to t u (s ∷ z) = ground (arith, count_above-drop_to t u z)

count_above_mono : (t u : ℕ) (z : List ℕ) → t ≤ u → count_above u z ≤ count_above t z
count_above_mono t u [] h = omega arith
count_above_mono t u (s ∷ z) h = ground (arith, count_above_mono t u z h)

abbrev scores : SortedSets
scores = record {
  Z = List ℕ;
  empty = [];
  zremrangebyscore = drop_to;
  zcard = length;
  zadd = λ s z. s ∷ z;
  above = count_above;
  above-empty = λ t. refl;
  zcard-zremrangebyscore = length-drop_to;
  above-zremrangebyscore = count_above-drop_to;
  above-zadd = λ t s z h k. refl;
  above-mono = count_above_mono;
}

slide-scores :
    (slide scores 2 10 (5 ∷ 9 ∷ 14 ∷ 15 ∷ 16 ∷ []) []).1 ≡ true ∷ true ∷ false ∷ true ∷ false ∷ []
unfolding slide
slide-scores = refl
