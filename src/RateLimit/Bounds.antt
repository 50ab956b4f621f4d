-- ===== src/RateLimit/Bounds.antt =====
-- middleware/ratelimit.go: how many requests of one client the fixed windows let through.
use xlgo_core.Base.{
  ℕ, ◌+◌, ◌-◌, ◌*◌, ◌≤◌, ◌≡◌, refl, Bool, true, Option, none, some, List, [], ◌∷◌, All, leb,
  if◌then◌else◌, arith, ◌&&◌,
}
use xlgo_core.Base.Text.{Text, text_eq, text_eq_iff}
use xlgo_core.Base.Dict.{lookup}
use xlgo_core.RateLimit.{RateLimiter, Visitor, allow, serve}
use xlgo_core.RateLimit.Call.{answer, after, allow-answer, allow-rate, allow-window, lookup-allow}

-- The requests of one client.
abbrev pub requests_of : Text → List (ℕ × Text) → ℕ
requests_of ip [] = 0
requests_of ip ((now, j) ∷ reqs) = (if text_eq j ip then 1 else 0) + requests_of ip reqs

-- Those of them that were let through.
abbrev pub allowed_of : Text → List (ℕ × Text) → List Bool → ℕ
allowed_of ip ((now, j) ∷ reqs) (a ∷ answers) =
    (if text_eq j ip && a then 1 else 0) + allowed_of ip reqs answers
allowed_of ip _ _ = 0

-- What a client may still get from the time `t0` until its window, if it began later, ends.
abbrev budget : ℕ → ℕ → Option Visitor → ℕ
budget rate t0 none = rate
budget rate t0 (some v) = if leb t0 v.window_start then rate - v.count else rate - v.count + rate

abbrev Within : ℕ → ℕ → List (ℕ × Text) → Type 0
Within t0 t1 = All (λ r. (t0 ≤ r.0) × (r.0 ≤ t1))

budget-after :
    (rate window t0 now : ℕ) (o : Option Visitor)
    → 1 ≤ rate
    → t0 ≤ now
    → now ≤ t0 + window
    → (if answer rate window now o then 1 else 0) + budget rate t0 (after rate window now o)
      ≤ budget rate t0 o
budget-after rate window t0 now none h a b = ground arith
budget-after rate window t0 now (some v) h a b = ground arith

allowed-le-budget :
    (ip : Text) (t0 t1 : ℕ) (l : RateLimiter) (reqs : List (ℕ × Text))
    → 1 ≤ l.rate
    → t1 ≡ t0 + l.window
    → Within t0 t1 reqs
    → allowed_of ip reqs (serve l reqs).1 ≤ budget l.rate t0 (lookup ip l.visitors)
unfolding serve
allowed-le-budget ip t0 t1 l [] h e w = omega arith
allowed-le-budget ip t0 t1 l ((now, j) ∷ reqs) h e ((a, b), w) = ground (
  arith,
  allow-answer l now j,
  allow-rate l now j,
  lookup-allow l now j ip,
  text_eq_iff j ip,
  budget-after l.rate l.window t0 now (lookup ip l.visitors) h,
  allowed-le-budget ip t0 t1 (allow l now j).0 reqs (rw (allow-rate l now j) h)
      (rw (allow-window l now j) e) w,
)

budget-le : (rate t0 : ℕ) (o : Option Visitor) → budget rate t0 o ≤ 2 * rate
budget-le rate t0 none = omega arith
budget-le rate t0 (some v) = ground arith

-- Within any span as long as the window, whatever requests of whatever clients arrive and in
-- whatever state the limiter starts, at most twice `rate` requests of one client are let through.
pub serve-burst :
    (ip : Text) (t0 t1 : ℕ) (l : RateLimiter) (reqs : List (ℕ × Text))
    → 1 ≤ l.rate
    → t1 ≡ t0 + l.window
    → Within t0 t1 reqs
    → allowed_of ip reqs (serve l reqs).1 ≤ 2 * l.rate
serve-burst ip t0 t1 l reqs h e w =
    omega
      (arith, allowed-le-budget ip t0 t1 l reqs h e w, budget-le l.rate t0 (lookup ip l.visitors))

-- A client without a record gets at most `rate` requests through in a span as long as the window.
pub serve-fresh-le :
    (ip : Text) (t0 t1 : ℕ) (l : RateLimiter) (reqs : List (ℕ × Text))
    → 1 ≤ l.rate
    → t1 ≡ t0 + l.window
    → Within t0 t1 reqs
    → lookup ip l.visitors ≡ none
    → allowed_of ip reqs (serve l reqs).1 ≤ l.rate
serve-fresh-le ip t0 t1 l reqs h e w fresh =
    omega (arith, rw fresh at (allowed-le-budget ip t0 t1 l reqs h e w))

-- What is left of `rate` for a client in its current window.
abbrev left : ℕ → Option Visitor → ℕ
left rate none = rate
left rate (some v) = rate - v.count

left-after :
    (rate window now : ℕ) (o : Option Visitor)
    → 1 ≤ left rate o
    → (answer rate window now o ≡ true) × (left rate o ≤ 1 + left rate (after rate window now o))
left-after rate window now none h = ground arith
left-after rate window now (some v) h = ground arith

serve-left :
    (ip : Text) (l : RateLimiter) (reqs : List (ℕ × Text))
    → requests_of ip reqs ≤ left l.rate (lookup ip l.visitors)
    → allowed_of ip reqs (serve l reqs).1 ≡ requests_of ip reqs
unfolding serve
serve-left ip l [] h = refl
serve-left ip l ((now, j) ∷ reqs) h = ground (
  arith,
  allow-answer l now j,
  lookup-allow l now j ip,
  text_eq_iff j ip,
  left-after l.rate l.window now (lookup ip l.visitors),
  allow-rate l now j,
  serve-left ip (allow l now j).0 reqs,
)

-- A client without a record that makes at most `rate` requests has each of them let through,
-- whatever other clients do between them.
pub serve_complete :
    (ip : Text) (l : RateLimiter) (reqs : List (ℕ × Text))
    → lookup ip l.visitors ≡ none
    → requests_of ip reqs ≤ l.rate
    → allowed_of ip reqs (serve l reqs).1 ≡ requests_of ip reqs
serve_complete ip l reqs fresh h = serve-left ip l reqs (rw fresh h)
