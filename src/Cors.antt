-- ===== src/Cors.antt =====
-- middleware/cors.go with the accessors of config/config.go it calls: which origin is let in, and
-- with which headers. `parse` is net/url's, whose result has a host with its port and a host name.
pub mod Origins
mod Tests
use xlgo_core.Base.{
  ℕ, ◌+◌, List, [], ◌∷◌, ◌++◌, Bool, true, false, not, ◌&&◌, ◌||◌, Option, none, some, leb, ◌==◌,
  if◌then◌else◌, map, drop,
}
use xlgo_core.Base.Text.{Text, codes, text_eq, has_prefix, has_suffix, to_lower, join}
use xlgo_core.Base.Int.{ℤ, pos, leb_ℤ}
use mathlib.Core.List.{reverse}

pub record CorsConfig : Type 0 where
  pub allowed_origins : List Text
  pub allowed_methods : List Text
  pub allowed_headers : List Text
  pub exposed_headers : List Text
  pub allow_credentials : Bool
  pub max_age : ℤ

-- The fields of the configuration that the middleware reads.
pub record Config : Type 0 where
  pub app_env : Text
  pub server_mode : Text
  pub cors : CorsConfig

pub record Url : Type 0 where
  pub host : Text
  pub hostname : Text

is_empty : {A : Type 0} → List A → Bool
is_empty [] = true
is_empty (x ∷ xs) = false

-- `Config.IsDevelopment` and `AppConfig.IsDev`
unfoldable pub is_development : Option Config → Bool
unfolding is_empty text_eq
is_development none = false
is_development (some c) =
    if is_empty c.app_env
    then text_eq c.server_mode (codes "development")
    else text_eq c.app_env (codes "dev") || text_eq c.app_env (codes "development")

-- `Config.IsProduction` and `AppConfig.IsProd`
unfoldable pub is_production : Option Config → Bool
unfolding is_empty text_eq
is_production none = false
is_production (some c) =
    if is_empty c.app_env
    then text_eq c.server_mode (codes "production")
    else text_eq c.app_env (codes "prod") || text_eq c.app_env (codes "production")

given : List Text → List Text → List Text
given default [] = default
given default (x ∷ xs) = x ∷ xs

-- `GetAllowedMethods`, `GetAllowedHeaders`, `GetExposedHeaders` and `GetMaxAge`
unfoldable pub get_allowed_methods : Option CorsConfig → List Text
unfolding given
get_allowed_methods c =
    given
      (codes "GET"
        ∷ codes "POST"
        ∷ codes "PUT"
        ∷ codes "PATCH"
        ∷ codes "DELETE"
        ∷ codes "OPTIONS"
        ∷ [])
      (elim c [ none ↦ [] | some k ↦ k.allowed_methods ])

unfoldable pub get_allowed_headers : Option CorsConfig → List Text
unfolding given
get_allowed_headers c =
    given
      (codes "Origin"
        ∷ codes "Content-Type"
        ∷ codes "Content-Length"
        ∷ codes "Accept-Encoding"
        ∷ codes "X-CSRF-Token"
        ∷ codes "Authorization"
        ∷ codes "X-Requested-With"
        ∷ [])
      (elim c [ none ↦ [] | some k ↦ k.allowed_headers ])

unfoldable pub get_exposed_headers : Option CorsConfig → List Text
unfolding given
get_exposed_headers c =
    given
      (codes "Content-Length"
        ∷ codes "Access-Control-Allow-Origin"
        ∷ codes "Access-Control-Allow-Headers"
        ∷ codes "Content-Type"
        ∷ [])
      (elim c [ none ↦ [] | some k ↦ k.exposed_headers ])

unfoldable pub get_max_age : Option CorsConfig → ℤ
get_max_age none = pos 86400
get_max_age (some c) = if leb_ℤ c.max_age (pos 0) then pos 86400 else c.max_age

-- `getAllowedOrigins`
unfoldable pub get_allowed_origins : Option Config → Option CorsConfig → List Text
unfolding given is_production
get_allowed_origins cfg cors =
    given
      (if is_production cfg
        then []
        else codes "http://localhost:3000"
          ∷ codes "http://localhost:5173"
          ∷ codes "http://localhost:8080"
          ∷ codes "http://localhost:4200"
          ∷ codes "http://127.0.0.1:3000"
          ∷ codes "http://127.0.0.1:5173"
          ∷ codes "http://127.0.0.1:8080"
          ∷ codes "http://127.0.0.1:4200"
          ∷ [])
      (elim cors [ none ↦ [] | some k ↦ k.allowed_origins ])

abbrev pub star : Text
star = 42 ∷ []

-- strings.TrimSuffix(s, "."), on the reversed text
drop_dot : Text → Text
drop_dot [] = []
drop_dot (c ∷ s) = if c == 46 then s else c ∷ s

unfoldable pub trim_dot : Text → Text
unfolding drop_dot
trim_dot s = reverse (drop_dot (reverse s))

-- strings.ToLower, on the ASCII letters that a host name has
abbrev pub lower : Text → Text
lower s = map to_lower s

wildcard : Text → Option Url → Bool
unfolding is_empty trim_dot has_suffix text_eq to_lower
wildcard domain none = false
wildcard domain (some u) =
    let host = lower (trim_dot u.hostname) in
    not (is_empty u.host) && (has_suffix host (46 ∷ domain) && not (text_eq host domain))

-- The loop over the allowed origins: whether it ends at a wildcard, at a match, or finds neither.
pub data Found : Type 0 where
  matched_wildcard matched unmatched : Found

-- The headers of the answer: an empty `allow_origin` is none of them. `no_content` is the answer to a
-- preflight request, after which no handler runs.
pub record Answer : Type 0 where
  pub allow_origin : Text
  pub vary_origin : Bool
  pub allow_methods : Text
  pub allow_headers : Text
  pub expose_headers : Text
  pub cache_age : ℤ
  pub allow_credentials : Bool
  pub no_content : Bool

abbrev pub allows_credentials : Option CorsConfig → Bool
allows_credentials none = false
allows_credentials (some c) = c.allow_credentials

abbrev pub effective : Option CorsConfig → Option Config → Option CorsConfig
effective (some own) cfg = some own
effective none none = none
effective none (some c) = some c.cors

module _ (parse : Text → Option Url) where
  -- `matchOrigin`
  unfoldable pub match_origin : Text → Text → Bool
  unfolding wildcard is_empty text_eq has_prefix trim_dot
  match_origin origin ao =
      not (is_empty origin)
      && (not (is_empty ao)
          && (text_eq origin ao
              || (has_prefix ao (42 ∷ 46 ∷ [])
                  && wildcard (lower (trim_dot (drop 2 ao))) (parse origin))))

  local_host : Option Url → Bool
  unfolding is_empty trim_dot text_eq
  local_host none = false
  local_host (some u) =
      let host = trim_dot u.hostname in
      not (is_empty u.host)
      && (text_eq host (codes "localhost")
          || (text_eq host (codes "127.0.0.1") || text_eq host (codes "::1")))

  -- `isLocalhostOrigin`
  unfoldable pub is_localhost_origin : Text → Bool
  unfolding local_host
  is_localhost_origin origin = local_host (parse origin)

  unfoldable pub search_origins : Text → List Text → Found
  unfolding match_origin text_eq
  search_origins origin [] = unmatched
  search_origins origin (ao ∷ aos) =
      if text_eq ao star
      then matched_wildcard
      else if match_origin origin ao
      then matched
      else search_origins origin aos

  echo : Text → Bool → Bool → Found → Text
  echo origin credentials fallback matched = origin
  echo origin credentials fallback matched_wildcard =
      if credentials && not (is_empty origin) then origin else star
  echo origin credentials fallback unmatched = if fallback then origin else []

  -- The origin that the answer names, or the empty text.
  unfoldable pub allowed_origin : Option Config → Option CorsConfig → Text → Text
  unfolding echo is_empty is_development is_localhost_origin get_allowed_origins search_origins
  allowed_origin cfg cors origin =
      echo origin (allows_credentials cors)
        (is_development cfg && (not (is_empty origin) && is_localhost_origin origin))
        (if is_empty origin
          then unmatched
          else search_origins origin (get_allowed_origins cfg cors))

  answer : Option CorsConfig → Text → Text → Answer
  unfolding is_empty get_allowed_methods get_allowed_headers get_exposed_headers get_max_age text_eq
      join
  answer cors method allowed = record {
    allow_origin = allowed;
    vary_origin = not (is_empty allowed) && not (text_eq allowed star);
    allow_methods = if is_empty allowed then [] else join (codes ", ") (get_allowed_methods cors);
    allow_headers = if is_empty allowed then [] else join (codes ", ") (get_allowed_headers cors);
    expose_headers = if is_empty allowed then [] else join (codes ", ") (get_exposed_headers cors);
    cache_age = get_max_age cors;
    allow_credentials =
        allows_credentials cors && (not (is_empty allowed) && not (text_eq allowed star));
    no_content = text_eq method (codes "OPTIONS");
  }

  -- `CORSWithConfig` and, without a configuration of its own, `CORS`
  unfoldable pub cors_with_config : Option CorsConfig → Option Config → Text → Text → Answer
  unfolding answer allowed_origin
  cors_with_config own cfg method origin =
      let cors = effective own cfg in answer cors method (allowed_origin cfg cors origin)
