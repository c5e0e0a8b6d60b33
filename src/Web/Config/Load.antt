-- ===== src/Web/Config/Load.antt =====
-- `Load` of backend/internal/config/config.go: the configuration from the environment.
pub mod Bounds
use gb_516_hydropower_gate_d.Prelude.{
  ℕ, String, ◌≡◌, refl, ◌*◌, ◌^◌, Bool, true, false, not, Option, none, some, ◌=ˢ◌, if◌then◌else◌,
}
use gb_516_hydropower_gate_d.Ints.{ℤ, pos, below}
use gb_516_hydropower_gate_d.Text.{Unicode, trim_space, to_lower, is_blank}
use gb_516_hydropower_gate_d.Platform.Library.{Library}
use gb_516_hydropower_gate_d.Web.Config.{Config, ConfigError, validate}
use gb_516_hydropower_gate_d.Web.Config.Lists.{split_csv}

abbrev pub second : ℕ
second = 10 ^ 9

-- `PublicConfig`
pub record PublicConfig : Type 0 where
  pub app_name : String
  pub environment : String
  pub database_driver : String
  pub redis_enabled : Bool
  pub token_ttl_seconds : ℤ
  pub request_limit : ℤ
  pub login_request_limit : ℤ
  pub shutdown_seconds : ℤ

unfoldable pub public_config : Library → Config → PublicConfig
public_config lib c = record {
  app_name = c.app_name;
  environment = c.environment;
  database_driver = c.database_driver;
  redis_enabled = not (is_blank c.redis_addr);
  token_ttl_seconds = lib.seconds c.token_ttl;
  request_limit = c.request_limit;
  login_request_limit = c.login_request_limit;
  shutdown_seconds = lib.seconds c.shutdown_timeout;
}

pub data Loaded : Type 0 where
  refused : ConfigError → Loaded
  loaded : Config → Loaded

abbrev pub set_or : String → Option String → String
set_or fallback none = fallback
set_or fallback (some value) = if is_blank value then fallback else trim_space value

abbrev pub positive_or : ℤ → Option ℤ → ℤ
positive_or fallback none = fallback
positive_or fallback (some value) = if below value 1 then fallback else value

module _ (u : Unicode) (lib : Library) (lookup_env : String → Option String) where
  unfoldable pub env : String → String → String
  env key fallback = set_or fallback (lookup_env key)

  unfoldable pub int_env : String → ℤ → ℤ
  int_env key fallback =
      if env key "" =ˢ "" then fallback else positive_or fallback (lib.atoi (env key ""))

  unfoldable pub duration_env : String → ℤ → ℤ
  duration_env key fallback =
      if env key "" =ˢ "" then fallback else positive_or fallback (lib.parse_duration (env key ""))

  -- The configuration before its checks.
  unfoldable pub read_config : Config
  read_config = record {
    app_name = env "APP_NAME" "hydropower-gate-dispatch-control";
    environment = to_lower u (env "APP_ENV" "development");
    port = env "PORT" "8080";
    database_driver = to_lower u (env "DATABASE_DRIVER" "postgres");
    database_dsn = env "DATABASE_DSN" "app.db";
    redis_addr = env "REDIS_ADDR" "";
    redis_password = env "REDIS_PASSWORD" "";
    jwt_secret = env "JWT_SECRET" "development-only-change-me";
    bootstrap_admin_password = env "BOOTSTRAP_ADMIN_PASSWORD" "Admin123!";
    bootstrap_operator_password = env "BOOTSTRAP_OPERATOR_PASSWORD" "Admin123!";
    bootstrap_reviewer_password = env "BOOTSTRAP_REVIEWER_PASSWORD" "Admin123!";
    token_ttl = duration_env "TOKEN_TTL" (pos (8 * 3600 * second));
    request_limit = int_env "REQUEST_LIMIT" (pos 180);
    login_request_limit = int_env "LOGIN_REQUEST_LIMIT" (pos 8);
    trusted_proxies = split_csv (env "TRUSTED_PROXIES" "");
    startup_timeout = duration_env "STARTUP_TIMEOUT" (pos (35 * second));
    shutdown_timeout = duration_env "SHUTDOWN_TIMEOUT" (pos (10 * second));
    read_header_timeout = duration_env "READ_HEADER_TIMEOUT" (pos (5 * second));
    read_timeout = duration_env "READ_TIMEOUT" (pos (15 * second));
    write_timeout = duration_env "WRITE_TIMEOUT" (pos (20 * second));
    idle_timeout = duration_env "IDLE_TIMEOUT" (pos (60 * second));
  }

  abbrev pub checked : Config → Option ConfigError → Loaded
  checked c none = loaded c
  checked c (some e) = refused e

  -- `Load`
  unfoldable pub load : Loaded
  load = checked read_config (validate u read_config)
