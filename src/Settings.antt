-- ===== src/Settings.antt =====
-- config/config.go and config/validate.go: the part of `Config` that `Validate` reads, the checks, and
-- the strings for connecting to a database. Durations are integers; the ratio of traces is in parts
-- of a million, and NaN, which passes the check, is left out.
pub mod Manage
pub mod Quoted
mod Tests
use xlgo_core.Base.{
  ℕ, ◌+◌, List, [], ◌∷◌, ◌++◌, Bool, true, false, not, ◌&&◌, ◌||◌, ◌==◌, ltb, leb, if◌then◌else◌,
  Option, none, some, length, any, map,
}
use xlgo_core.Base.Int.{ℤ, pos, negsuc, ltb_ℤ, leb_ℤ}
use xlgo_core.Base.Text.{Text, codes, text_eq, trim_space, to_lower}
use xlgo_core.Base.Decimal.{decimal}

-- `ServerConfig`, with its `TLSConfig`
pub record ServerConfig : Type 0 where
  pub port : ℤ
  pub read_timeout : ℤ
  pub write_timeout : ℤ
  pub idle_timeout : ℤ
  pub shutdown_timeout : ℤ
  pub max_header_bytes : ℤ
  pub mode : Text
  pub tls_enabled : Bool
  pub cert_file : Text
  pub key_file : Text

pub record JwtConfig : Type 0 where
  pub secret : Text
  pub expire : ℤ
  pub refresh_expire : ℤ

pub record DatabaseConfig : Type 0 where
  pub driver : Text
  pub host : Text
  pub port : ℤ
  pub user : Text
  pub password : Text
  pub name : Text
  pub timezone : Text
  pub custom_dsn : Text
  pub max_idle_conns : ℤ
  pub max_open_conns : ℤ
  pub ssl_mode : Text
  pub tls : Bool
  pub tls_root_ca : Text

pub record Config : Type 0 where
  pub env : Text
  pub server : ServerConfig
  pub jwt : JwtConfig
  pub database : DatabaseConfig
  pub redis_host : Text
  pub redis_port : ℤ
  pub trace_enabled : Bool
  pub sample_ratio : ℤ

abbrev pub or_positive : ℤ → ℤ → ℤ
or_positive default value = if ltb_ℤ (pos 0) value then value else default

-- `EffectiveReadTimeout`, in nanoseconds
unfoldable pub effective_read_timeout : ServerConfig → ℤ
effective_read_timeout c = or_positive (pos 15000000000) c.read_timeout

-- `EffectiveWriteTimeout`
unfoldable pub effective_write_timeout : ServerConfig → ℤ
effective_write_timeout c = or_positive (pos 30000000000) c.write_timeout

-- `EffectiveIdleTimeout`
unfoldable pub effective_idle_timeout : ServerConfig → ℤ
effective_idle_timeout c = or_positive (pos 60000000000) c.idle_timeout

-- `EffectiveShutdownTimeout`
unfoldable pub effective_shutdown_timeout : ServerConfig → ℤ
effective_shutdown_timeout c = or_positive (pos 30000000000) c.shutdown_timeout

-- `EffectiveMaxHeaderBytes`
unfoldable pub effective_max_header_bytes : ServerConfig → ℤ
effective_max_header_bytes c = or_positive (pos 1048576) c.max_header_bytes

-- `IsDevelopment`
unfoldable pub is_development : Config → Bool
unfolding text_eq
is_development c =
    if text_eq c.env []
    then text_eq c.server.mode (codes "development")
    else text_eq c.env (codes "dev") || text_eq c.env (codes "development")

abbrev pub blank : Text → Bool
unfolding text_eq trim_space
blank s = text_eq (trim_space s) []

-- `isConfigured`
unfoldable pub is_configured : DatabaseConfig → Bool
unfolding text_eq trim_space
is_configured c =
    not (blank c.driver)
    || not (blank c.host)
    || not (leb_ℤ c.port (pos 0) && leb_ℤ (pos 0) c.port)
    || not (blank c.user)
    || not (blank c.password)
    || not (blank c.name)
    || not (blank c.custom_dsn)

-- The problems that `Validate` reports, without the values they quote
pub data Problem : Type 0 where
  server_port server_tls server_timeout jwt_secret jwt_expire : Problem
  database_driver database_host database_name database_port : Problem
  database_idle_conns database_ssl_mode database_root_ca redis_port trace_ratio : Problem

unfoldable pub when : Bool → Problem → List Problem
when true p = p ∷ []
when false p = []

unfoldable pub guarded : Bool → List Problem → List Problem
guarded true ps = ps
guarded false ps = []

-- `validPostgresSSLMode`
unfoldable pub valid_postgres_ssl_mode : Text → Bool
unfolding text_eq
valid_postgres_ssl_mode s = any (text_eq s) (
    codes "disable"
    ∷ codes "allow"
    ∷ codes "prefer"
    ∷ codes "require"
    ∷ codes "verify-ca"
    ∷ codes "verify-full"
    ∷ [])

-- `validDuration`
abbrev pub negative : ℤ → Bool
negative d = ltb_ℤ d (pos 0)

abbrev pub out_of_range : ℤ → Bool
out_of_range port = leb_ℤ port (pos 0) || ltb_ℤ (pos 65535) port

unfoldable pub server_problems : ServerConfig → List Problem
unfolding when text_eq trim_space
server_problems c =
    when (negative c.port || ltb_ℤ (pos 65535) c.port) server_port
    ++ (when (c.tls_enabled && (blank c.cert_file || blank c.key_file)) server_tls
        ++ when
            (negative c.read_timeout
              || negative c.write_timeout
              || negative c.idle_timeout
              || negative c.shutdown_timeout)
            server_timeout)

-- The length of the secret is in bytes: a text is a list of bytes here.
unfoldable pub jwt_problems : JwtConfig → List Problem
unfolding when guarded text_eq
jwt_problems c = guarded (not (text_eq c.secret [])) (
    when (ltb (length c.secret) 32) jwt_secret
    ++ when (negative c.expire || negative c.refresh_expire) jwt_expire)

-- On the drivers that are registered, by their names in small letters
unfoldable pub database_problems : (Text → Bool) → DatabaseConfig → List Problem
unfolding when guarded is_configured valid_postgres_ssl_mode text_eq trim_space to_lower
database_problems registered c = guarded (is_configured c) (
    when (not (blank c.driver) && not (registered (map to_lower (trim_space c.driver))))
      database_driver
    ++ (when (blank c.custom_dsn && blank c.host) database_host
        ++ (when (blank c.custom_dsn && blank c.name) database_name
            ++ (when (blank c.custom_dsn && out_of_range c.port) database_port
                ++ (when (ltb_ℤ (pos 0) c.max_open_conns && ltb_ℤ c.max_open_conns c.max_idle_conns)
                      database_idle_conns
                    ++ (when
                          (not (blank c.ssl_mode)
                            && not (valid_postgres_ssl_mode (trim_space c.ssl_mode)))
                          database_ssl_mode
                        ++ when (not (blank c.tls_root_ca) && not c.tls) database_root_ca))))))

-- `Validate`: valid where there are no problems
unfoldable pub validate : (Text → Bool) → Config → List Problem
unfolding server_problems jwt_problems database_problems when text_eq trim_space
validate registered c =
    server_problems c.server
    ++ (jwt_problems c.jwt
        ++ (database_problems registered c.database
            ++ (when (not (blank c.redis_host) && out_of_range c.redis_port) redis_port
                ++ when
                    (c.trace_enabled
                      && (negative c.sample_ratio || ltb_ℤ (pos 1000000) c.sample_ratio))
                    trace_ratio)))

-- `strings.ReplaceAll` of a code point by itself with a backslash in front
unfoldable pub escape : ℕ → Text → Text
escape c [] = []
escape c (d ∷ s) = let rest = escape c s in if d == c then b'\\' ∷ d ∷ rest else d ∷ rest

-- `postgresQuote`
unfoldable pub postgres_quote : Text → Text
unfolding escape
postgres_quote s = b'\'' ∷ (escape b'\'' (escape b'\\' s) ++ b'\'' ∷ [])

abbrev or_text : Text → Text → Text
or_text default [] = default
or_text default (c ∷ s) = c ∷ s

-- `%d` of an integer
unfoldable pub print : ℤ → Text
unfolding decimal
print (pos n) = decimal n
print (negsuc n) = b'-' ∷ decimal (n + 1)

-- `PostgresDSN`
unfoldable pub postgres_dsn : DatabaseConfig → Text
unfolding postgres_quote print trim_space
postgres_dsn c =
    codes "host="
    ++ (postgres_quote c.host
        ++ (codes " port="
            ++ (print c.port
                ++ (codes " user="
                    ++ (postgres_quote c.user
                        ++ (codes " password="
                            ++ (postgres_quote c.password
                                ++ (codes " dbname="
                                    ++ (postgres_quote c.name
                                        ++ (codes " sslmode="
                                            ++ (or_text (codes "prefer") (trim_space c.ssl_mode)
                                                ++ (codes " TimeZone="
                                                    ++ postgres_quote (
                                                        or_text (codes "Asia/Shanghai")
                                                          c.timezone)))))))))))))
