-- ===== src/Jwt.antt =====
-- jwt/jwt.go: issuing, parsing, revoking and refreshing tokens. golang-jwt and the Redis client are
-- parameters. Instants and durations are nanoseconds of one clock, `none` a claim that is absent.
pub mod Revoked
pub mod Issued
pub mod Toy
mod Tests
use xlgo_core.Base.{
  ℕ, ◌+◌, ◌-◌, ◌*◌, ◌/◌, ◌≤◌, ◌<◌, ◌≡◌, List, [], ◌∷◌, ◌++◌, Bool, true, false, not, ◌&&◌, Option,
  none, some, leb, ltb, if◌then◌else◌, map, Result, ok, err, any,
}
use xlgo_core.Base.Text.{Text, codes, text_eq, trim_space, to_upper}
use xlgo_core.Base.Int.{ℤ, pos, pos_part, leb_ℤ, ◌*ℤ◌}

pub data JwtError : Type 0 where
  token_expired token_invalid token_malformed token_not_valid_yet token_revoked : JwtError
  blacklist_unavailable empty_secret unsupported_algorithm invalid_expiry empty_jti : JwtError
  no_entropy backend_error signing_failed : JwtError

pub record Claims : Type 0 where
  pub user_id : ℕ
  pub username : Text
  pub role : Text
  pub user_type : Text
  pub jti : Text
  pub expires_at : Option ℕ
  pub issued_at : Option ℕ
  pub not_before : Option ℕ
  pub issuer : Text
  pub id : Text

-- The JWT section of the configuration.
pub record Config : Type 0 where
  pub secret : Text
  pub jwt_issuer : Text
  pub algorithm : Text
  pub expire : ℤ
  pub refresh_expire : ℤ

-- `none` is an algorithm that is not an HMAC, alg=none included.
pub data Alg : Type 0 where
  hs256 hs384 hs512 other_hmac none_hmac : Alg

-- `validMethods`
abbrev pub valid_methods : Alg → Bool
valid_methods hs256 = true
valid_methods hs384 = true
valid_methods hs512 = true
valid_methods _ = false

pub record Options : Type 0 where
  pub methods : Alg → Bool
  pub issuer : Text
  pub validates_claims : Bool

-- What `errors.Is` finds in an error of the parser, which joins several, and the error of the key
-- function.
pub record ParseError : Type 0 where
  pub expired : Bool
  pub malformed : Bool
  pub not_valid_yet : Bool
  pub from_key : Option JwtError

-- Whether the claims of a token hold at an instant, as the parser checks them.
abbrev pub before_end : ℕ → Option ℕ → Bool
before_end now none = true
before_end now (some e) = ltb now e

abbrev pub after_start : ℕ → Option ℕ → Bool
after_start now none = true
after_start now (some b) = leb b now

-- golang-jwt: `parse` is `ParseWithClaims` at an instant, `content` the claims of a token whose
-- signature is not checked.
pub record Golang : Type 0 where
  pub sign : Alg → Text → Claims → Option Text
  pub parse : Options → (Alg → Result JwtError Text) → ℕ → Text → Result ParseError Claims
  pub content : Text → Option Claims
  pub parse-content :
      (o : Options) (key : Alg → Result JwtError Text) (now : ℕ) (token : Text) (c : Claims)
      → parse o key now token ≡ ok c
      → content token ≡ some c
  pub parse-in_time :
      (o : Options) (key : Alg → Result JwtError Text) (now : ℕ) (token : Text) (c : Claims)
      → o.validates_claims ≡ true
      → parse o key now token ≡ ok c
      → before_end now c.expires_at ≡ true
  pub parse-sign :
      (o : Options) (key : Alg → Result JwtError Text) (now : ℕ) (a : Alg) (k token : Text)
      (c : Claims)
      → sign a k c ≡ some token
      → key a ≡ ok k
      → o.methods a ≡ true
      → c.issuer ≡ o.issuer
      → before_end now c.expires_at ≡ true
      → after_start now c.not_before ≡ true
      → parse o key now token ≡ ok c

abbrev pub millisecond : ℕ
millisecond = 1000000

-- The keys of a Redis server with their times to live, through a client that rounds those down to
-- milliseconds.
pub record Keys : Type 1 where
  pub Store : Type 0
  pub exists : Store → ℕ → Text → Bool
  pub set : Store → ℕ → Text → Text → ℕ → Store
  pub exists-set_self :
      (s : Store) (now later : ℕ) (k v : Text) (ttl : ℕ)
      → now ≤ later
      → later + millisecond ≤ now + ttl
      → exists (set s now k v ttl) later k ≡ true
  pub exists-set_other :
      (s : Store) (now later : ℕ) (k j v : Text) (ttl : ℕ)
      → text_eq k j ≡ false
      → exists (set s now k v ttl) later j ≡ exists s later j

-- What becomes of a command: no client, lost on its way, only its answer lost, or all goes well.
pub data Wire : Type 0 where
  no_client lost answer_lost fine : Wire

-- `secretKey`
unfoldable pub secret_key : Option Config → Result JwtError Text
secret_key none = err empty_secret
secret_key (some c) = elim c.secret [ [] ↦ err empty_secret | x ∷ xs ↦ ok (x ∷ xs) ]

-- `hmacKeyfunc`
unfoldable pub hmac_keyfunc : Option Config → Alg → Result JwtError Text
unfolding secret_key
hmac_keyfunc cfg none_hmac = err unsupported_algorithm
hmac_keyfunc cfg _ = secret_key cfg

-- `signingMethod`
unfoldable pub signing_method : Text → Result JwtError Alg
unfolding trim_space to_upper text_eq
signing_method algorithm =
    let name = map to_upper (trim_space algorithm) in
    if any (text_eq name) ([] ∷ codes "HS256" ∷ [])
    then ok hs256
    else if text_eq name (codes "HS384")
    then ok hs384
    else if text_eq name (codes "HS512")
    then ok hs512
    else err unsupported_algorithm

abbrev pub xlgo : Text
xlgo = codes "xlgo"

-- `issuerOrDefault`
unfoldable pub issuer_or_default : Text → Text
issuer_or_default [] = xlgo
issuer_or_default (c ∷ s) = c ∷ s

issuer_of : Option Config → Text
unfolding issuer_or_default
issuer_of none = xlgo
issuer_of (some c) = issuer_or_default c.jwt_issuer

-- `parseOptions`; the flag is `WithoutClaimsValidation` denied.
unfoldable pub parse_options : Bool → Option Config → Options
unfolding issuer_of
parse_options validates cfg = record {
  methods = valid_methods;
  issuer = issuer_of cfg;
  validates_claims = validates;
}

-- `validateIssuer`
unfoldable pub validate_issuer : Option Config → Claims → Result JwtError (Unit {0})
unfolding issuer_of text_eq
validate_issuer cfg c = if text_eq c.issuer (issuer_of cfg) then ok tt else err token_invalid

key_error : Option JwtError → JwtError
key_error (some empty_secret) = empty_secret
key_error (some unsupported_algorithm) = unsupported_algorithm
key_error _ = token_invalid

-- `mapParseTokenError`
unfoldable pub map_parse_token_error : ParseError → JwtError
unfolding key_error
map_parse_token_error e =
    if e.expired
    then token_expired
    else if e.malformed
    then token_malformed
    else if e.not_valid_yet
    then token_not_valid_yet
    else key_error e.from_key

-- `BlacklistPolicy`
pub data BlacklistPolicy : Type 0 where
  fail_open fail_closed : BlacklistPolicy

is_blank : Text → Bool
unfolding trim_space
is_blank s = elim (trim_space s) [ [] ↦ true | c ∷ r ↦ false ]

abbrev pub blacklist_key : Text → Text
blacklist_key jti = codes "jwt_bl:" ++ jti

-- `jwt.NewNumericDate` cuts an instant to its second.
abbrev pub to_second : ℕ → ℕ
to_second t = t / 1000000000 * 1000000000

unfoldable pub claims_at : Option Config → Claims → Text → ℕ → ℕ → Claims
unfolding issuer_of
claims_at cfg user jti now expiry = record user {
  jti = jti;
  id = jti;
  expires_at = some (to_second (now + expiry));
  issued_at = some (to_second now);
  not_before = some (to_second now);
  issuer = issuer_of cfg;
}

signed : Option Text → Result JwtError Text
signed none = err signing_failed
signed (some token) = ok token

algorithm_of : Option Config → Text
algorithm_of none = []
algorithm_of (some c) = c.algorithm

module _ (golang : Golang) (keys : Keys) where
  open golang use {sign, parse, content}
  open keys use {Store, exists, set}

  add_wired : Wire → Text → ℕ → ℕ → Store → Store × Result JwtError (Unit {0})
  add_wired no_client jti ttl now s = (s, err blacklist_unavailable)
  add_wired lost jti ttl now s = (s, if ltb 0 ttl then err backend_error else ok tt)
  add_wired answer_lost jti ttl now s =
      if ltb 0 ttl
      then (set s now (blacklist_key jti) (codes "1") ttl, err backend_error)
      else (s, ok tt)
  add_wired fine jti ttl now s =
      if ltb 0 ttl then (set s now (blacklist_key jti) (codes "1") ttl, ok tt) else (s, ok tt)

  -- `TokenBlacklist.Add`
  unfoldable pub add : Wire → Text → ℕ → ℕ → Store → Store × Result JwtError (Unit {0})
  unfolding add_wired is_blank
  add w jti expiry now s =
      if is_blank jti then (s, err empty_jti) else add_wired w jti (expiry - now) now s

  -- `TokenBlacklist.IsBlacklisted` and `IsTokenRevoked`
  unfoldable pub is_blacklisted : Wire → Text → ℕ → Store → Result JwtError Bool
  is_blacklisted no_client jti now s = err blacklist_unavailable
  is_blacklisted fine jti now s = ok (exists s now (blacklist_key jti))
  is_blacklisted _ jti now s = err backend_error

  verdict : BlacklistPolicy → Result JwtError Bool → Result JwtError (Unit {0})
  verdict policy (ok revoked) = if revoked then err token_revoked else ok tt
  verdict fail_closed (err e) = err e
  verdict fail_open (err e) = ok tt

  -- `checkTokenBlacklist`
  unfoldable pub check_token_blacklist :
      BlacklistPolicy → Wire → Claims → ℕ → Store → Result JwtError (Unit {0})
  unfolding verdict is_blacklisted
  check_token_blacklist policy w c now s = elim c.jti [
    | [] ↦ ok tt
    | x ∷ xs ↦ verdict policy (is_blacklisted w (x ∷ xs) now s)
  ]

  checked : BlacklistPolicy → Wire → ℕ → Store → Result ParseError Claims → Result JwtError Claims
  unfolding check_token_blacklist map_parse_token_error
  checked policy w now s (err e) = err (map_parse_token_error e)
  checked policy w now s (ok c) = elim (check_token_blacklist policy w c now s) [
    | err e ↦ err e
    | ok u ↦ ok c
  ]

  -- `ParseTokenWithBlacklistPolicy`
  unfoldable pub parse_token_with_blacklist_policy :
      Option Config → Text → BlacklistPolicy → Wire → ℕ → Store → Result JwtError Claims
  unfolding checked parse_options hmac_keyfunc
  parse_token_with_blacklist_policy cfg token policy w now s =
      checked policy w now s (parse (parse_options true cfg) (hmac_keyfunc cfg) now token)

  -- `ParseToken`
  unfoldable pub parse_token : Option Config → Text → Wire → ℕ → Store → Result JwtError Claims
  unfolding parse_token_with_blacklist_policy
  parse_token cfg token w now s = parse_token_with_blacklist_policy cfg token fail_closed w now s

  revoke : Wire → Claims → ℕ → Store → Store × Result JwtError (Unit {0})
  unfolding add is_blank
  revoke w c now s =
      if is_blank c.jti
      then (s, err empty_jti)
      else elim c.expires_at [ none ↦ (s, ok tt) | some e ↦ add w c.jti e now s ]

  invalidated :
      Option Config
      → Wire
      → ℕ
      → Store
      → Result ParseError Claims
      → Store × Result JwtError (Unit {0})
  unfolding revoke validate_issuer
  invalidated cfg w now s (err e) = (s, ok tt)
  invalidated cfg w now s (ok c) = elim (validate_issuer cfg c) [
    | err e ↦ (s, ok tt)
    | ok u ↦ revoke w c now s
  ]

  -- `InvalidateToken`
  unfoldable pub invalidate_token :
      Option Config → Text → Wire → ℕ → Store → Store × Result JwtError (Unit {0})
  unfolding invalidated parse_options hmac_keyfunc
  invalidate_token cfg token w now s =
      invalidated cfg w now s (parse (parse_options false cfg) (hmac_keyfunc cfg) now token)

  -- `GetClaimsFromToken`, whose parser errors come through as they are
  unfoldable pub get_claims_from_token :
      Option Config → Text → ℕ → Result (Option ParseError) Claims
  unfolding parse_options hmac_keyfunc validate_issuer
  get_claims_from_token cfg token now =
      elim (parse (parse_options false cfg) (hmac_keyfunc cfg) now token) [
        | err e ↦ err (some e)
        | ok c ↦ elim (validate_issuer cfg c) [ err e ↦ err none | ok u ↦ ok c ]
      ]

  with_jti : Option Config → Claims → ℕ → ℕ → Text → Alg → Option Text → Result JwtError Text
  unfolding signed claims_at
  with_jti cfg user expiry now k a none = err no_entropy
  with_jti cfg user expiry now k a (some jti) =
      signed (sign a k (claims_at cfg user jti now expiry))

  with_method :
      Option Config
      → Claims
      → ℕ
      → Option Text
      → ℕ
      → Text
      → Result JwtError Alg
      → Result JwtError Text
  unfolding with_jti
  with_method cfg user expiry jti now k (err e) = err e
  with_method cfg user expiry jti now k (ok a) = with_jti cfg user expiry now k a jti

  with_key :
      Option Config → Claims → ℕ → Option Text → ℕ → Result JwtError Text → Result JwtError Text
  unfolding with_method algorithm_of signing_method
  with_key cfg user expiry jti now (err e) = err e
  with_key cfg user expiry jti now (ok k) =
      with_method cfg user expiry jti now k (signing_method (algorithm_of cfg))

  -- `generateTokenWithExpiry`. Of `user` the four fields of the user are read; `jti` is the fresh
  -- identifier, if there is one to have.
  unfoldable pub generate_token_with_expiry :
      Option Config → Claims → ℤ → Option Text → ℕ → Result JwtError Text
  unfolding with_key secret_key
  generate_token_with_expiry cfg user expiry jti now =
      if leb_ℤ expiry (pos 0)
      then err invalid_expiry
      else with_key cfg user (pos_part expiry) jti now (secret_key cfg)

  -- `GenerateToken`
  unfoldable pub generate_token : Option Config → Claims → Option Text → ℕ → Result JwtError Text
  unfolding generate_token_with_expiry
  generate_token cfg user jti now =
      generate_token_with_expiry cfg user (elim cfg [ none ↦ pos 0 | some c ↦ c.expire ]) jti now

  -- `GenerateTokenWithCustomExpiry`
  unfoldable pub generate_token_with_custom_expiry :
      Option Config → Claims → ℤ → Option Text → ℕ → Result JwtError Text
  unfolding generate_token_with_expiry
  generate_token_with_custom_expiry cfg user seconds jti now =
      if leb_ℤ seconds (pos 0)
      then err invalid_expiry
      else generate_token_with_expiry cfg user (seconds *ℤ pos 1000000000) jti now

  refresh_expiry : Option Config → ℤ
  refresh_expiry none = pos 0
  refresh_expiry (some c) = if leb_ℤ c.refresh_expire (pos 0) then c.expire else c.refresh_expire

  issued_after :
      Option Config
      → Claims
      → Option Text
      → ℕ
      → Store × Result JwtError (Unit {0})
      → Store × Result JwtError Text
  unfolding generate_token_with_expiry refresh_expiry
  issued_after cfg c jti now (s, err e) = (s, err e)
  issued_after cfg c jti now (s, ok u) =
      (s, generate_token_with_expiry cfg c (refresh_expiry cfg) jti now)

  refreshed :
      Option Config
      → Option Text
      → Wire
      → ℕ
      → ℕ
      → Store
      → Result JwtError Claims
      → Store × Result JwtError Text
  unfolding issued_after revoke
  refreshed cfg jti w later last s (err e) = (s, err e)
  refreshed cfg jti w later last s (ok c) = issued_after cfg c jti last (revoke w c later s)

  -- `RefreshToken`: the old token is parsed at `now`, revoked at `later` and replaced at `last`.
  unfoldable pub refresh_token :
      Option Config
      → Text
      → Option Text
      → Wire
      → Wire
      → ℕ
      → ℕ
      → ℕ
      → Store
      → Store × Result JwtError Text
  unfolding refreshed parse_token
  refresh_token cfg token jti w w' now later last s =
      refreshed cfg jti w' later last s (parse_token cfg token w now s)
