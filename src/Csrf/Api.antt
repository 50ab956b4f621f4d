-- ===== src/Csrf/Api.antt =====
-- middleware/csrf.go: the tokens that GenerateAPIToken hands out and CSRFForAPI takes once each.
-- Times are counted on one clock; `none` is a failure of the source of random bytes.
use xlgo_core.Base.{
  ℕ, ◌+◌, ◌-◌, ◌≤◌, ◌≡◌, refl, List, [], ◌∷◌, Bool, true, false, not, ◌&&◌, Option, none, some, ltb,
  if◌then◌else◌, length, arith, Option-cases, inl, inr, ◌↔◌, ◌≢◌, ◌∙◌,
}
use xlgo_core.Csrf.{is_safe_method}
use xlgo_core.Base.Text.{Text, text_eq, text_eq_iff, text_eq_refl}
use xlgo_core.Base.Dict.{
  Dict, lookup, insert, delete, retain, lookup-delete, lookup-insert, lookup-retain-none,
}

-- Thirty minutes, in nanoseconds.
abbrev pub api_token_ttl : ℕ
api_token_ttl = 1800000000000

-- `cleanupExpiredAPITokensLocked`, and the same loop in `CSRFForAPI`
unfoldable pub cleanup_expired_api_tokens_locked : ℕ → Dict ℕ → Dict ℕ
cleanup_expired_api_tokens_locked now m = retain (λ at. not (ltb api_token_ttl (now - at))) m

-- `GenerateAPIToken`: `now` is read for the cleanup, `at` for the token.
unfoldable pub generate_api_token : Option Text → ℕ → ℕ → Dict ℕ → Dict ℕ × Option Text
unfolding cleanup_expired_api_tokens_locked
generate_api_token none now at m = (m, none)
generate_api_token (some t) now at m =
    (insert t at (cleanup_expired_api_tokens_locked now m), some t)

taken : Text → Dict ℕ → Option ℕ → Dict ℕ
taken t m none = m
taken t m (some at) = delete t m

swept : ℕ → Dict ℕ → Dict ℕ
unfolding cleanup_expired_api_tokens_locked
swept now m = if ltb 256 (length m) then cleanup_expired_api_tokens_locked now m else m

in_time : ℕ → Option ℕ → Bool
in_time later none = false
in_time later (some at) = not (ltb api_token_ttl (later - at))

-- `CSRFForAPI` on a method that is not safe, whether it lets the request through; `now` is read for
-- the cleanup and `later` for the token's age.
unfoldable pub csrf_for_api : Text → ℕ → ℕ → Dict ℕ → Dict ℕ × Bool
unfolding taken swept in_time
csrf_for_api [] now later m = (m, false)
csrf_for_api (c ∷ s) now later m =
    let found = lookup (c ∷ s) m in (swept now (taken (c ∷ s) m found), in_time later found)

-- `CSRFForAPI`, whose safe methods neither bring a token nor look at the store
unfoldable pub csrf_for_api_request : Text → Text → ℕ → ℕ → Dict ℕ → Dict ℕ × Bool
unfolding is_safe_method csrf_for_api
csrf_for_api_request method t now later m =
    if is_safe_method method then (m, true) else csrf_for_api t now later m

-- What happens to the store.
pub data Use : Type 0 where
  generate : Option Text → ℕ → ℕ → Use
  request : Text → ℕ → ℕ → Use

-- How often a token is handed out, and how often it lets a request through.
abbrev pub issues : Text → List Use → ℕ
issues t [] = 0
issues t (generate none now at ∷ us) = issues t us
issues t (generate (some u) now at ∷ us) = (if text_eq u t then 1 else 0) + issues t us
issues t (request u now later ∷ us) = issues t us

abbrev pub accepts : Text → List Use → Dict ℕ → ℕ
accepts t [] m = 0
accepts t (generate random now at ∷ us) m = accepts t us (generate_api_token random now at m).0
accepts t (request u now later ∷ us) m =
    (if text_eq u t && (csrf_for_api u now later m).1 then 1 else 0)
    + accepts t us (csrf_for_api u now later m).0

stock : Option ℕ → ℕ
stock none = 0
stock (some at) = 1

stock_le : (x : Option ℕ) → stock x ≤ 1
unfolding stock
stock_le none = omega arith
stock_le (some at) = omega arith

stock-retain :
    (p : ℕ → Bool) (t : Text) (m : Dict ℕ) → stock (lookup t (retain p m)) ≤ stock (lookup t m)
unfolding stock
stock-retain p t m = elim (Option-cases (lookup t m)) [
  | inl gone ↦ rw (lookup-retain-none p t m gone) (omega arith)
  | inr (at, there) ↦ rw there (stock_le (lookup t (retain p m)))
]

stock-generate :
    (t u : Text) (now at : ℕ) (m : Dict ℕ)
    → stock (lookup t (generate_api_token (some u) now at m).0)
      ≤ (if text_eq u t then 1 else 0) + stock (lookup t m)
unfolding generate_api_token cleanup_expired_api_tokens_locked stock
stock-generate t u now at m = ground (
  arith,
  lookup-insert u t at (cleanup_expired_api_tokens_locked now m),
  stock-retain (λ b. not (ltb api_token_ttl (now - b))) t m,
)

stock-swept :
    (t : Text) (now : ℕ) (m : Dict ℕ) → stock (lookup t (swept now m)) ≤ stock (lookup t m)
unfolding swept cleanup_expired_api_tokens_locked
stock-swept t now m = ground (arith, stock-retain (λ b. not (ltb api_token_ttl (now - b))) t m)

stock-taken :
    (t u : Text) (later : ℕ) (m : Dict ℕ)
    → (if text_eq u t && in_time later (lookup u m) then 1 else 0)
        + stock (lookup t (taken u m (lookup u m)))
      ≤ stock (lookup t m)
unfolding taken stock in_time
stock-taken t u later m = elim (Option-cases (lookup u m)) [
  | inl gone ↦ rw gone (ground arith)
  | inr (at, there) ↦ rw there (ground (arith, lookup-delete u t m, text_eq_iff u t, there))
]

stock-request :
    (t u : Text) (now later : ℕ) (m : Dict ℕ)
    → (if text_eq u t && (csrf_for_api u now later m).1 then 1 else 0)
        + stock (lookup t (csrf_for_api u now later m).0)
      ≤ stock (lookup t m)
unfolding csrf_for_api
stock-request t [] now later m = ground arith
stock-request t (c ∷ s) now later m =
    omega
      (arith, stock-taken t (c ∷ s) later m, stock-swept t now (taken (c ∷ s) m (lookup (c ∷ s) m)))

accepts_le :
    (t : Text) (us : List Use) (m : Dict ℕ) → accepts t us m ≤ issues t us + stock (lookup t m)
unfolding generate_api_token
accepts_le t [] m = omega arith
accepts_le t (generate none now at ∷ us) m = accepts_le t us m
accepts_le t (generate (some u) now at ∷ us) m =
    omega
      (arith, accepts_le t us (generate_api_token (some u) now at m).0, stock-generate t u now at m)
accepts_le t (request u now later ∷ us) m =
    omega (arith, accepts_le t us (csrf_for_api u now later m).0, stock-request t u now later m)

-- Single use: over any sequence of calls on a store that is empty at first, a token lets at most as
-- many unsafe requests through as it was handed out, whatever the cleanups do.
pub accepts-le-issues : (t : Text) (us : List Use) → accepts t us [] ≤ issues t us
unfolding lookup stock
accepts-le-issues t us = omega (arith, accepts_le t us [])

in_time_iff :
    (later : ℕ) (x : Option ℕ)
    → (in_time later x ≡ true) ↔ ((at : ℕ) × ((x ≡ some at) × (later ≤ at + api_token_ttl)))
unfolding in_time
in_time_iff later none = (λ h. cc, λ (at, (e, h)). cc)
in_time_iff later (some at) = (λ h. (at, (refl, ground arith)), λ (b, (e, h)). ground arith)

lookup-swept-none :
    (t : Text) (now : ℕ) (m : Dict ℕ) → lookup t m ≡ none → lookup t (swept now m) ≡ none
unfolding swept cleanup_expired_api_tokens_locked
lookup-swept-none t now m h =
    ground (arith, lookup-retain-none (λ b. not (ltb api_token_ttl (now - b))) t m h)

lookup-taken : (t : Text) (m : Dict ℕ) → lookup t (taken t m (lookup t m)) ≡ none
unfolding taken
lookup-taken t m = elim (Option-cases (lookup t m)) [
  | inl gone ↦ rw gone gone
  | inr (at, there) ↦ rw there (lookup-delete t t m ∙ rw text_eq_refl refl)
]

-- The check lets a request through exactly if its token is not empty, is in the store and is at most
-- thirty minutes old; afterwards the store does not have the token.
pub csrf_for_api_iff :
    (t : Text) (now later : ℕ) (m : Dict ℕ)
    → (((csrf_for_api t now later m).1 ≡ true)
        ↔ ((at : ℕ) × ((t ≢ []) × (lookup t m ≡ some at) × (later ≤ at + api_token_ttl))))
      × (t ≢ [] → lookup t (csrf_for_api t now later m).0 ≡ none)
unfolding csrf_for_api
csrf_for_api_iff [] now later m =
    ((λ h. cc, λ (at, (ne, e, h)). absurd (ne refl)), λ ne. absurd (ne refl))
csrf_for_api_iff (c ∷ s) now later m = (
  (
    λ h. let (at, (e, k)) = (in_time_iff later (lookup (c ∷ s) m)).0 h in (at, (λ e'. cc, e, k)),
    λ (at, (ne, e, k)). (in_time_iff later (lookup (c ∷ s) m)).1 (at, (e, k)),
  ),
  λ ne. lookup-swept-none (c ∷ s) now (taken (c ∷ s) m (lookup (c ∷ s) m)) (lookup-taken (c ∷ s) m),
)
