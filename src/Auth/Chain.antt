-- ===== src/Auth/Chain.antt =====
-- middleware/auth.go: `AuthRequired` with a check of user types after it.
use xlgo_core.Base.{
  ℕ, ◌≡◌, ◌↔◌, refl, sym, ap, subst, List, [], ◌∷◌, ◌++◌, Bool, true, false, Option, any,
  if◌then◌else◌, Result, ok, err,
}
use xlgo_core.Base.Text.{Text, codes, text_eq, cut, contains_rune, equal_fold}
use xlgo_core.Base.Text.Laws.{cut-append}
use xlgo_core.Jwt.{Golang, Keys, Wire, Claims, Config, JwtError, parse_token}
use xlgo_core.Auth.{
  Context, Outcome, goes_on, forbidden, bad_header, and_then, context_of, auth_required, bearer,
  logged_in, require_user_types, require_auth, allowed_on, checked_by, get_auth_user,
}

context_or : Context → Outcome → Context
context_or d (goes_on c) = c
context_or d other = d

claims_or : Claims → Result JwtError Claims → Claims
claims_or d (ok c) = c
claims_or d (err e) = d

gate_iff :
    (b : Bool) (c k : Context)
    → ((if b then goes_on c else forbidden) ≡ goes_on k) ↔ ((b ≡ true) × (k ≡ c))
unfolding context_or
gate_iff true c k = (λ h. (refl, sym (ap (context_or k) h)), λ e. ap goes_on (sym e.1))
gate_iff false c k = (λ h. cc, λ h. cc)

typed_through :
    (types : List Text) (c : Claims) (k : Context)
    → (require_user_types types (context_of c) ≡ goes_on k)
      ↔ ((any (text_eq c.user_type) types ≡ true) × (k ≡ context_of c))
unfolding require_user_types require_auth allowed_on checked_by get_auth_user
typed_through types c k = gate_iff (any (text_eq c.user_type) types) (context_of c) k

logged_through :
    (types : List Text) (r : Result JwtError Claims) (k : Context)
    → (and_then (logged_in r) (require_user_types types) ≡ goes_on k)
      ↔ ((c : Claims) × (r ≡ ok c) × (any (text_eq c.user_type) types ≡ true) × (k ≡ context_of c))
unfolding logged_in claims_or
logged_through types (err e) k = (λ h. cc, λ h. cc)
logged_through types (ok c) k = (
  λ h. let g = (typed_through types c k).0 h in (c, refl, g.0, g.1),
  λ h.
      let same : c ≡ h.0 = ap (claims_or c) h.1 in
      (typed_through types c k).1 (
        subst (λ d. (any (text_eq d.user_type) types ≡ true) × (k ≡ context_of d)) (sym same)
          (h.2, h.3)),
)

bearer_iff :
    (b : Bool) (types : List Text) (r : Result JwtError Claims) (k : Context)
    → (and_then (if b then logged_in r else bad_header) (require_user_types types) ≡ goes_on k) ↔ (
        (b ≡ true)
        × (c : Claims) × (r ≡ ok c)
        × (any (text_eq c.user_type) types ≡ true)
        × (k ≡ context_of c))
bearer_iff true types r k = (
  λ h. let g = (logged_through types r k).0 h in (refl, g.0, g.1, g.2, g.3),
  λ h. (logged_through types r k).1 (h.1, h.2, h.3, h.4),
)
bearer_iff false types r k = (λ h. cc, λ h. cc)

module _ (golang : Golang) (keys : Keys) where
  open keys use {Store}

  header_cons :
      (scheme token : Text) (cfg : Option Config) (w : Wire) (now : ℕ) (s : Store)
      → auth_required golang keys cfg (scheme ++ 32 ∷ token) w now s
        ≡ bearer golang keys
            (λ t. parse_token golang keys cfg t w now s)
            (cut 32 (scheme ++ 32 ∷ token))
  unfolding auth_required
  header_cons [] token cfg w now s = refl
  header_cons (c ∷ scheme) token cfg w now s = refl

  -- A request whose header is a scheme, a space and the rest goes through `AuthRequired` and a check
  -- of user types exactly if the scheme is Bearer in any case and `ParseToken` accepts the rest with a
  -- user type that is listed; the handler then sees the user of these claims.
  pub auth_required_iff :
      (types : List Text) (cfg : Option Config) (scheme token : Text) (w : Wire) (now : ℕ)
      (s : Store) (k : Context)
      → contains_rune scheme 32 ≡ false
      → (and_then
            (auth_required golang keys cfg (scheme ++ 32 ∷ token) w now s)
            (require_user_types types)
          ≡ goes_on k)
        ↔ ((equal_fold scheme (codes "Bearer") ≡ true)
            × (c : Claims) × (parse_token golang keys cfg token w now s ≡ ok c)
            × (any (text_eq c.user_type) types ≡ true)
            × (k ≡ context_of c))
  unfolding bearer
  auth_required_iff types cfg scheme token w now s k clean =
      rw (header_cons scheme token cfg w now s, cut-append 32 scheme token clean)
        (bearer_iff (equal_fold scheme (codes "Bearer")) types
          (parse_token golang keys cfg token w now s) k)
