-- ===== src/Cors/Origins.antt =====
-- middleware/cors.go: which origins an answer can name.
use xlgo_core.Base.{
  ℕ, ◌≡◌, ◌≢◌, ◌⊎◌, inl, inr, refl, ap, sym, ◌∙◌, List, [], ◌∷◌, ◌++◌, Bool, true, false, ◌&&◌,
  ◌||◌, Option, some, any, arith, Bool-cases,
}
use xlgo_core.Base.Text.{Text, text_eq, text_eq_iff, text_eq_refl, has_prefix, has_suffix}
use mathlib.Core.List.{reverse, reverse-reverse, reverse-append}
use xlgo_core.Cors.{
  Config, CorsConfig, Url, is_empty, is_development, get_allowed_origins, star, trim_dot, lower,
  wildcard, match_origin, is_localhost_origin, Found, matched_wildcard, matched, unmatched,
  search_origins, echo, allowed_origin, answer, cors_with_config, allows_credentials, effective,
}

has_prefix_sound : (s p : Text) → has_prefix s p ≡ true → (t : Text) × (s ≡ p ++ t)
unfolding has_prefix
has_prefix_sound s [] h = (s, refl)
has_prefix_sound [] (b ∷ p) h = cc
has_prefix_sound (a ∷ s) (b ∷ p) h =
    let (t, e) = has_prefix_sound s p (ground (arith, h)) in (t, ground (arith, h, e))

has_suffix_sound : (s p : Text) → has_suffix s p ≡ true → (t : Text) × (s ≡ t ++ p)
unfolding has_suffix
has_suffix_sound s p h =
    let (t, e) = has_prefix_sound (reverse s) (reverse p) h in
    (
      reverse t,
      sym (reverse-reverse s)
          ∙ ap reverse e
          ∙ reverse-append (reverse p) t
          ∙ ap (λ q. reverse t ++ q) (reverse-reverse p),
    )

wildcard_sound :
    (domain : Text) (u : Url)
    → wildcard domain (some u) ≡ true
    → (sub : Text) × (lower (trim_dot u.hostname) ≡ sub ++ 46 ∷ domain)
unfolding wildcard
wildcard_sound domain u h =
    has_suffix_sound (lower (trim_dot u.hostname)) (46 ∷ domain) (ground (arith, h))

module _ (parse : Text → Option Url) where
  -- A pattern "*.d" matches an origin other than itself only if the host name of the origin, in lower
  -- case and without a final dot, is something followed by a dot and d: neither d itself nor a name
  -- that merely ends in the letters of d.
  pub match_origin-wildcard :
      (origin d : Text) (u : Url)
      → parse origin ≡ some u
      → origin ≢ 42 ∷ 46 ∷ d
      → match_origin parse origin (42 ∷ 46 ∷ d) ≡ true
      → (sub : Text) × (lower (trim_dot u.hostname) ≡ sub ++ 46 ∷ lower (trim_dot d))
  unfolding match_origin
  match_origin-wildcard origin d u e other h =
      let w : wildcard (lower (trim_dot d)) (parse origin) ≡ true =
        ground (arith, text_eq_iff origin (42 ∷ 46 ∷ d), h, other) in
      wildcard_sound (lower (trim_dot d)) u (rw e at w)

  -- A wildcard stands in the list, or a pattern that matches.
  abbrev pub Listed : Text → List Text → Type 0
  Listed origin aos = any (λ ao. text_eq ao star || match_origin parse origin ao) aos ≡ true

  search_origins-Listed :
      (origin : Text) (aos : List Text)
      → (search_origins parse origin aos ≡ unmatched) ⊎ Listed origin aos
  unfolding search_origins
  search_origins-Listed origin [] = inl refl
  search_origins-Listed origin (ao ∷ aos) = elim (Bool-cases (text_eq ao star)) [
    | inl all_in ↦ inr (ground (arith, all_in))
    | inr some_in ↦ elim (Bool-cases (match_origin parse origin ao)) [
      | inl here ↦ inr (ground (arith, here))
      | inr there ↦ rw (some_in, there) (search_origins-Listed origin aos)
    ]
  ]

  allowed_origin-Listed :
      (cfg : Option Config) (cors : Option CorsConfig) (c : ℕ) (s : Text)
      → allowed_origin parse cfg cors (c ∷ s) ≢ []
      → Listed (c ∷ s) (get_allowed_origins cfg cors)
        ⊎ ((is_development cfg ≡ true) × (is_localhost_origin parse (c ∷ s) ≡ true))
  unfolding allowed_origin echo is_empty
  allowed_origin-Listed cfg cors c s h =
      elim (search_origins-Listed (c ∷ s) (get_allowed_origins cfg cors)) [
        | inr listed ↦ inl listed
        | inl out ↦ elim (Bool-cases (is_development cfg && is_localhost_origin parse (c ∷ s))) [
          | inl fallback ↦ inr (ground (arith, fallback), ground (arith, fallback))
          | inr strict ↦ absurd (h (rw (out, strict) refl))
        ]
      ]

  echo-credentials :
      (origin : Text) (creds fallback : Bool) (f : Found)
      → creds ≡ true
      → is_empty (echo parse origin creds fallback f) ≡ false
      → text_eq (echo parse origin creds fallback f) star ≡ false
      → echo parse origin creds fallback f ≡ origin
  unfolding echo is_empty
  echo-credentials origin creds fallback matched e h k = refl
  echo-credentials origin creds fallback matched_wildcard e h k =
      ground (arith, e, k, text_eq_refl star)
  echo-credentials origin creds true unmatched e h k = refl
  echo-credentials origin creds false unmatched e h k = cc h

  -- An answer names an origin, for a request that has one, only if the list of allowed origins holds
  -- a wildcard or a pattern that matches, or if the program runs in development and the origin is on
  -- this host. An answer that allows credentials names the origin of the request itself, and the
  -- configuration allows credentials.
  pub cors_with_config-origin :
      (own : Option CorsConfig) (cfg : Option Config) (method : Text) (c : ℕ) (s : Text)
      → ((cors_with_config parse own cfg method (c ∷ s)).allow_origin ≢ []
          → Listed (c ∷ s) (get_allowed_origins cfg (effective own cfg))
            ⊎ ((is_development cfg ≡ true) × (is_localhost_origin parse (c ∷ s) ≡ true)))
        × ((cors_with_config parse own cfg method (c ∷ s)).allow_credentials ≡ true
            → ((cors_with_config parse own cfg method (c ∷ s)).allow_origin ≡ c ∷ s)
              × (allows_credentials (effective own cfg) ≡ true))
  unfolding cors_with_config answer allowed_origin is_empty
  cors_with_config-origin own cfg method c s = (
    allowed_origin-Listed cfg (effective own cfg) c s,
    λ h. (
      echo-credentials (c ∷ s) (allows_credentials (effective own cfg))
          (is_development cfg && is_localhost_origin parse (c ∷ s))
          (search_origins parse (c ∷ s) (get_allowed_origins cfg (effective own cfg)))
          (ground (arith, h)) (ground (arith, h)) (ground (arith, h)),
      ground (arith, h),
    ),
  )
