-- ===== src/RateLimit/Call.antt =====
-- middleware/ratelimit.go, `(*RateLimiter).Allow`: what one call does, visitor by visitor.
use xlgo_core.Base.{
  ℕ, suc, ◌-◌, ◌≡◌, refl, Bool, true, not, ◌||◌, Option, none, some, ltb, leb, if◌then◌else◌, arith,
}
use xlgo_core.Base.Text.{Text, text_eq, text_eq_iff}
use xlgo_core.Base.Dict.{lookup, lookup-insert}
use xlgo_core.RateLimit.{RateLimiter, Visitor, allow, allow_visitor}

-- The answer to a client, from its record alone.
abbrev pub answer : ℕ → ℕ → ℕ → Option Visitor → Bool
answer rate window now none = true
answer rate window now (some v) = ltb window (now - v.window_start) || not (leb rate v.count)

-- The client's record after the call.
abbrev pub after : ℕ → ℕ → ℕ → Option Visitor → Option Visitor
after rate window now none = some (record { window_start = now; count = 1 })
after rate window now (some v) =
    if ltb window (now - v.window_start)
    then some (record { window_start = now; count = 1 })
    else if leb rate v.count
    then some v
    else some (record v { count = suc v.count })

module _ (l : RateLimiter) (now : ℕ) (ip : Text) where
  pub allow-answer : (allow l now ip).1 ≡ answer l.rate l.window now (lookup ip l.visitors)
  unfolding allow
  allow-answer = ground arith

  pub allow-rate : (allow l now ip).0.rate ≡ l.rate
  unfolding allow
  allow-rate = ground arith

  pub allow-window : (allow l now ip).0.window ≡ l.window
  unfolding allow
  allow-window = ground arith

  lookup-allow_visitor :
      (j : Text) (o : Option Visitor)
      → lookup ip l.visitors ≡ o
      → lookup j (allow_visitor l now ip o).0.visitors
        ≡ (if text_eq ip j then after l.rate l.window now o else lookup j l.visitors)
  unfolding allow_visitor
  lookup-allow_visitor j none e = rw lookup-insert
  lookup-allow_visitor j (some v) e = ground (
    arith,
    lookup-insert ip j (record { window_start = now; count = 1 }) l.visitors,
    lookup-insert ip j (record v { count = suc v.count }) l.visitors,
    text_eq_iff ip j,
  )

  pub lookup-allow :
      (j : Text)
      → lookup j (allow l now ip).0.visitors ≡ (
          if text_eq ip j
          then after l.rate l.window now (lookup ip l.visitors)
          else lookup j l.visitors)
  unfolding allow
  lookup-allow j = lookup-allow_visitor j (lookup ip l.visitors) refl
