-- ===== src/Cors/Tests.antt =====
-- The CORS middleware on concrete origins.
use xlgo_core.Base.{◌≡◌, ◌≢◌, ◌⊎◌, refl, [], ◌∷◌, true, false, Option, none, some}
use xlgo_core.Base.Text.{Text, codes}
use xlgo_core.Base.Int.{pos}
use xlgo_core.Cors.{
  CorsConfig, Url, cors_with_config, match_origin, get_allowed_origins, is_development,
  is_localhost_origin, allows_credentials,
}
use xlgo_core.Cors.Origins.{cors_with_config-origin, Listed}

-- A parser that takes what follows a scheme of one letter for the host.
abbrev parse : Text → Option Url
parse (h ∷ colon ∷ slash ∷ slash' ∷ rest) = some (record { host = rest; hostname = rest })
parse _ = none

abbrev shop : CorsConfig
shop = record {
  allowed_origins = codes "*.b.c" ∷ [];
  allowed_methods = [];
  allowed_headers = [];
  exposed_headers = [];
  allow_credentials = true;
  max_age = pos 0;
}

abbrev inside : Text
inside = codes "h://A.b.c"

match_origin-inside : match_origin parse inside (codes "*.b.c") ≡ true
unfolding match_origin
match_origin-inside = refl

match_origin-apex : match_origin parse (codes "h://b.c") (codes "*.b.c") ≡ false
unfolding match_origin
match_origin-apex = refl

match_origin-suffix : match_origin parse (codes "h://evilb.c") (codes "*.b.c") ≡ false
unfolding match_origin
match_origin-suffix = refl

cors_with_config-origin_example :
    ((cors_with_config parse (some shop) none (codes "GET") inside).allow_origin ≢ []
      → Listed parse inside (get_allowed_origins none (some shop))
        ⊎ ((is_development none ≡ true) × (is_localhost_origin parse inside ≡ true)))
    × ((cors_with_config parse (some shop) none (codes "GET") inside).allow_credentials ≡ true
        → ((cors_with_config parse (some shop) none (codes "GET") inside).allow_origin ≡ inside)
          × (allows_credentials (some shop) ≡ true))
cors_with_config-origin_example =
    cors_with_config-origin parse (some shop) none (codes "GET") 104 (codes "://A.b.c")

cors_with_config-inside :
    (cors_with_config parse (some shop) none (codes "GET") inside).allow_credentials ≡ true
unfolding cors_with_config
cors_with_config-inside = refl
