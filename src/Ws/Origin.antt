-- ===== src/Ws/Origin.antt =====
-- ws/ws.go: which origins may open a connection. `parse` is net/url's.
use xlgo_core.Base.{List, [], ◌∷◌, Bool, true, false, ◌&&◌, Option, none, some, if◌then◌else◌, any}
use xlgo_core.Base.Text.{Text, codes, text_eq, equal_fold}

pub record Url : Type 0 where
  pub scheme : Text
  pub host : Text

pub record Request : Type 0 where
  pub origin : Text
  pub url_scheme : Option Text
  pub tls : Bool
  pub host : Text

scheme_or : Bool → Option Text → Text
scheme_or tls (some (c ∷ s)) = c ∷ s
scheme_or tls _ = if tls then codes "https" else codes "http"

-- `requestScheme`
unfoldable pub request_scheme : Request → Text
unfolding scheme_or
request_scheme r = scheme_or r.tls r.url_scheme

given : Text → Bool
given [] = false
given (c ∷ s) = true

same : Request → Option Url → Bool
unfolding given equal_fold request_scheme
same r none = false
same r (some u) =
    (given u.scheme && given u.host)
    && (equal_fold u.scheme (request_scheme r) && equal_fold u.host r.host)

module _ (parse : Text → Option Url) where
  -- `sameOriginCheck`
  unfoldable pub same_origin_check : Request → Bool
  unfolding same given
  same_origin_check r = if given r.origin then same r (parse r.origin) else true

  -- `currentCheckOrigin`, on what `SetCheckOrigin` stored
  unfoldable pub current_check_origin : Option (Request → Bool) → Request → Bool
  unfolding same_origin_check
  current_check_origin none r = same_origin_check r
  current_check_origin (some check) r = check r

-- `AllowOrigins`
unfoldable pub allow_origins : List Text → Request → Bool
unfolding given text_eq
allow_origins origins r = if given r.origin then any (text_eq r.origin) origins else true
