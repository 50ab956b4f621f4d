-- ===== src/RateLimit/Cleanup.antt =====
-- middleware/ratelimit.go, `cleanupVisitors`: dropping expired records changes no answer.
use xlgo_core.Base.{
  ℕ, suc, ◌-◌, ◌≤◌, ◌<◌, ◌≡◌, refl, not, Option, none, some, List, [], ◌∷◌, All, ltb, if◌then◌else◌,
  arith, Bool-cases, inl, inr, ◌⊎◌, ap, ◌∙◌,
}
use xlgo_core.Base.Text.{Text, text_eq}
use xlgo_core.Base.Dict.{lookup, Unique, lookup-retain, keep_if, retain-Unique, insert-Unique}
use xlgo_core.RateLimit.{
  RateLimiter, Visitor, allow, allow_visitor, serve, cleanup_visitors, Event, request, tick, run,
}
use xlgo_core.RateLimit.Call.{answer, after, allow-answer, allow-rate, allow-window, lookup-allow}

-- The second record is the first one, or is gone while the first one has expired by `t`.
abbrev Same : ℕ → ℕ → Option Visitor → Option Visitor → Type 0
Same window t a b =
    (a ≡ b) ⊎ ((v : Visitor) × (a ≡ some v) × (b ≡ none) × (window < t - v.window_start))

record Sim (t : ℕ) (l l' : RateLimiter) : Type 0 where
  rates : l.rate ≡ l'.rate
  windows : l.window ≡ l'.window
  records : (ip : Text) → Same l.window t (lookup ip l.visitors) (lookup ip l'.visitors)

Same-answer :
    (rate window t now : ℕ) (a b : Option Visitor)
    → t ≤ now
    → Same window t a b
    → answer rate window now a ≡ answer rate window now b
Same-answer rate window t now a b h (inl e) = rw e
Same-answer rate window t now a b h (inr (v, e, f, old)) = rw (e, f) (ground arith)

Same-after :
    (rate window t now : ℕ) (a b : Option Visitor)
    → t ≤ now
    → Same window t a b
    → after rate window now a ≡ after rate window now b
Same-after rate window t now a b h (inl e) = rw e
Same-after rate window t now a b h (inr (v, e, f, old)) = rw (e, f) (ground arith)

allow-Sim :
    (t now : ℕ) (ip : Text) (l l' : RateLimiter)
    → t ≤ now
    → Sim t l l'
    → Sim t (allow l now ip).0 (allow l' now ip).0
allow-Sim t now ip l l' h s = record {
  rates = rw (allow-rate l now ip, allow-rate l' now ip) s.rates;
  windows = rw (allow-window l now ip, allow-window l' now ip) s.windows;
  records =
      λ j. rw (allow-window l now ip, lookup-allow l now ip j, lookup-allow l' now ip j) (pick j);
}
  where
    pick :
        (j : Text)
        → Same l.window t
            (if text_eq ip j
              then after l.rate l.window now (lookup ip l.visitors)
              else lookup j l.visitors)
            (if text_eq ip j
              then after l'.rate l'.window now (lookup ip l'.visitors)
              else lookup j l'.visitors)
    pick j = elim (Bool-cases (text_eq ip j)) [
      | inl e ↦
          rw (e, ← s.rates, ← s.windows)
            (inl (Same-after l.rate l.window t now _ _ h (s.records ip)))
      | inr e ↦ rw e (s.records j)
    ]

serve-Sim :
    (t : ℕ) (l l' : RateLimiter) (reqs : List (ℕ × Text))
    → All (λ r. t ≤ r.0) reqs
    → Sim t l l'
    → (serve l' reqs).1 ≡ (serve l reqs).1
unfolding serve
serve-Sim t l l' [] h s = refl
serve-Sim t l l' ((now, ip) ∷ reqs) (h, hs) s = cc (
  allow-answer l now ip,
  allow-answer l' now ip,
  s.rates,
  s.windows,
  Same-answer l.rate l.window t now _ _ h (s.records ip),
  serve-Sim t (allow l now ip).0 (allow l' now ip).0 reqs hs (allow-Sim t now ip l l' h s),
)

keep-Same :
    (window t : ℕ) (o : Option Visitor)
    → Same window t o (keep_if (λ v. not (ltb window (t - v.window_start))) o)
keep-Same window t none = inl refl
keep-Same window t (some v) = elim (Bool-cases (ltb window (t - v.window_start))) [
  | inl old ↦ rw old (inr (v, refl, refl, ground arith))
  | inr young ↦ rw young (inl refl)
]

cleanup-Sim : (t : ℕ) (l : RateLimiter) → Unique l.visitors → Sim t l (cleanup_visitors l t)
unfolding cleanup_visitors
cleanup-Sim t l u = elim (Bool-cases l.stopped) [
  | inl done ↦ rw done (record { rates = refl; windows = refl; records = λ ip. inl refl })
  | inr live ↦ rw live (record {
    rates = refl;
    windows = refl;
    records =
        λ ip. rw (lookup-retain _ ip l.visitors u) (keep-Same l.window t (lookup ip l.visitors));
  })
]

serve-cleanup :
    (t : ℕ) (l : RateLimiter) (reqs : List (ℕ × Text))
    → Unique l.visitors
    → All (λ r. t ≤ r.0) reqs
    → (serve (cleanup_visitors l t) reqs).1 ≡ (serve l reqs).1
serve-cleanup t l reqs u h = serve-Sim t l (cleanup_visitors l t) reqs h (cleanup-Sim t l u)

allow_visitor-Unique :
    (l : RateLimiter) (now : ℕ) (ip : Text) (o : Option Visitor)
    → Unique l.visitors
    → Unique (allow_visitor l now ip o).0.visitors
unfolding allow_visitor
allow_visitor-Unique l now ip none u = insert-Unique ip _ l.visitors u
allow_visitor-Unique l now ip (some v) u = ground (
  arith,
  insert-Unique ip (record { window_start = now; count = 1 }) l.visitors u,
  insert-Unique ip (record v { count = suc v.count }) l.visitors u,
)

pub allow-Unique :
    (l : RateLimiter) (now : ℕ) (ip : Text) → Unique l.visitors → Unique (allow l now ip).0.visitors
unfolding allow
allow-Unique l now ip u = allow_visitor-Unique l now ip (lookup ip l.visitors) u

pub cleanup-Unique :
    (l : RateLimiter) (now : ℕ) → Unique l.visitors → Unique (cleanup_visitors l now).visitors
unfolding cleanup_visitors
cleanup-Unique l now u =
    ground (arith, retain-Unique (λ v. not (ltb l.window (now - v.window_start))) l.visitors u)

-- The requests among some events.
abbrev pub requests : List Event → List (ℕ × Text)
requests [] = []
requests (request now ip ∷ es) = (now, ip) ∷ requests es
requests (tick now ∷ es) = requests es

-- The events come one after the other, from the time `t` on.
abbrev pub Ascending : ℕ → List Event → Type 0
Ascending t [] = Unit
Ascending t (request now ip ∷ es) = (t ≤ now) × Ascending now es
Ascending t (tick now ∷ es) = (t ≤ now) × Ascending now es

Ascending-requests :
    (t u : ℕ) (es : List Event) → t ≤ u → Ascending u es → All (λ r. t ≤ r.0) (requests es)
Ascending-requests t u [] h a = tt
Ascending-requests t u (request now ip ∷ es) h (k, a) =
    (omega arith, Ascending-requests t now es (omega arith) a)
Ascending-requests t u (tick now ∷ es) h (k, a) = Ascending-requests t now es (omega arith) a

-- However the cleanup goroutine's ticks fall between the requests, in ascending time, each request
-- is answered as it would be with no cleanup at all.
pub run-eq-serve :
    (t : ℕ) (l : RateLimiter) (es : List Event)
    → Unique l.visitors
    → Ascending t es
    → (run l es).1 ≡ (serve l (requests es)).1
unfolding run serve
run-eq-serve t l [] u a = refl
run-eq-serve t l (request now ip ∷ es) u (h, a) =
    ap (λ r. (allow l now ip).1 ∷ r)
      (run-eq-serve now (allow l now ip).0 es (allow-Unique l now ip u) a)
run-eq-serve t l (tick now ∷ es) u (h, a) =
    run-eq-serve now (cleanup_visitors l now) es (cleanup-Unique l now u) a
    ∙ serve-cleanup now l (requests es) u (Ascending-requests now now es (omega arith) a)
