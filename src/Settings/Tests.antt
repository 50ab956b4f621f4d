-- ===== src/Settings/Tests.antt =====
-- config/config.go: runs on small inputs, with a viper whose views are configurations, and the theorems
-- applied there.
use xlgo_core.Base.{ℕ, ◌≡◌, refl, List, [], ◌∷◌, ◌++◌, Bool, true, false, Option, some, All}
use xlgo_core.Base.Int.{pos}
use xlgo_core.Base.Text.{Text, codes}
use xlgo_core.Settings.{
  DatabaseConfig, Config, validate, server_port, database_name, database_ssl_mode, postgres_quote,
  postgres_dsn, effective_read_timeout,
}
use xlgo_core.Settings.Quoted.{read_quoted, read_quoted-postgres_quote}
use xlgo_core.Settings.Manage.{Viper, World, new_manager, invalid, get, get_viper, reload}
use xlgo_core.Settings.Manage.Views.{
  Call, loading, reloading, registering, run, IsValid, IsValidOpt, run-IsValid, reload-refused,
}

abbrev no_database : DatabaseConfig
no_database = record {
  driver = [];
  host = [];
  port = pos 0;
  user = [];
  password = [];
  name = [];
  timezone = [];
  custom_dsn = [];
  max_idle_conns = pos 0;
  max_open_conns = pos 0;
  ssl_mode = [];
  tls = false;
  tls_root_ca = [];
}

abbrev plain : Config
plain = record {
  env = codes "dev";
  server = record {
    port = pos 8080;
    read_timeout = pos 0;
    write_timeout = pos 0;
    idle_timeout = pos 0;
    shutdown_timeout = pos 0;
    max_header_bytes = pos 0;
    mode = [];
    tls_enabled = false;
    cert_file = [];
    key_file = [];
  };
  jwt = record { secret = []; expire = pos 0; refresh_expire = pos 0 };
  database = no_database;
  redis_host = [];
  redis_port = pos 0;
  trace_enabled = false;
  sample_ratio = pos 0;
}

abbrev toy : Viper Config (Option Config)
toy = record {
  new_viper = λ path. plain;
  read_in_config = λ file v. file;
  unmarshal = λ v. some v;
  from_config = λ path c. c;
}

abbrev bad : Config
bad = record plain { server = record plain.server { port = pos 70000 } }

abbrev known : Text → Bool
known driver = true

abbrev postgres : DatabaseConfig
postgres = record no_database {
  host = codes "db";
  user = codes "u";
  password = codes "a'b\\";
  port = pos 5432;
}

settings_tests :
    (validate known plain ≡ [])
    × (validate known bad ≡ server_port ∷ [])
    × (validate known (record plain { database = record postgres { ssl_mode = codes "no" } })
        ≡ database_name ∷ database_ssl_mode ∷ [])
    × (postgres_dsn postgres
        ≡ codes
            "host='db' port=5432 user='u' password='a\\'b\\\\' dbname='' sslmode=prefer TimeZone='Asia/Shanghai'")
    × (effective_read_timeout plain.server ≡ pos 15000000000)
unfolding validate postgres_dsn effective_read_timeout
settings_tests = (refl, refl, refl, refl, refl)

abbrev serving : World Config
serving = record {
  manager = record (new_manager (codes "c.yaml")) {
    view = some plain;
    cfg = some plain;
    callbacks = 1 ∷ [];
  };
  heard = [];
}

abbrev calls : List (Call (Option Config))
calls = registering 1 ∷ loading (some plain) ∷ reloading (some bad) ∷ reloading (some plain) ∷ []

run-IsValid_example :
    IsValidOpt known
      (get (run toy known calls (record { manager = new_manager (codes "c.yaml"); heard = [] })))
    × All
        (λ (h : ℕ × Config). IsValid known h.1)
        (run toy known calls (record { manager = new_manager (codes "c.yaml"); heard = [] })).heard
run-IsValid_example = run-IsValid toy known (codes "c.yaml") calls

bad_port : validate known bad ≡ server_port ∷ []
unfolding validate
bad_port = refl

reload-refused_example :
    ((reload toy known (some bad) serving).1 ≡ some (invalid (server_port ∷ [])))
    × (get (reload toy known (some bad) serving).0 ≡ some plain)
    × ((reload toy known (some bad) serving).0.heard ≡ [])
    × (get_viper (reload toy known (some bad) serving).0 ≡ some bad)
reload-refused_example =
    reload-refused toy known (some bad) serving plain bad bad server_port [] refl refl refl bad_port

read_quoted-postgres_quote_example :
    read_quoted (postgres_quote (codes "a' host='evil") ++ codes " dbname=x")
    ≡ some (codes "a' host='evil", codes " dbname=x")
read_quoted-postgres_quote_example =
    read_quoted-postgres_quote (codes "a' host='evil") (codes " dbname=x")
