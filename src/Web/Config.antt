-- ===== src/Web/Config.antt =====
-- backend/internal/config/config.go: the checks of the configuration. `len` and the searches look at the
-- bytes of a text.
pub mod Load
pub mod Lists
use gb_516_hydropower_gate_d.Prelude.{
  String, ◌≡◌, ◌≢◌, refl, Bool, true, false, not, ◌||◌, ◌&&◌, Option, none, some, List, [], ◌∷◌,
  ltb, ◌=ˢ◌, if◌then◌else◌, arith, eq_iff,
}
use gb_516_hydropower_gate_d.Text.{Unicode, to_lower, strip_prefix, is_blank}
use gb_516_hydropower_gate_d.Ints.{ℤ, below, above, pos}
use gb_516_hydropower_gate_d.Web.RequestId.{byte_length}

-- A duration counts nanoseconds.
pub record Config : Type 0 where
  pub app_name : String
  pub environment : String
  pub port : String
  pub database_driver : String
  pub database_dsn : String
  pub redis_addr : String
  pub redis_password : String
  pub jwt_secret : String
  pub bootstrap_admin_password : String
  pub bootstrap_operator_password : String
  pub bootstrap_reviewer_password : String
  pub token_ttl : ℤ
  pub request_limit : ℤ
  pub login_request_limit : ℤ
  pub trusted_proxies : List String
  pub startup_timeout : ℤ
  pub shutdown_timeout : ℤ
  pub read_header_timeout : ℤ
  pub read_timeout : ℤ
  pub write_timeout : ℤ
  pub idle_timeout : ℤ

pub data ConfigError : Type 0 where
  unsupported_driver empty_app_name empty_port short_secret weak_production_secret : ConfigError
  weak_admin_password weak_operator_password weak_reviewer_password : ConfigError
  shared_passwords request_limit_range login_limit_range timeout_not_positive : ConfigError

abbrev is_prefix : Option String → Bool
is_prefix none = false
is_prefix (some _) = true

-- `strings.Contains(s, part)`
abbrev pub includes : String → String → Bool
includes part String.[] = is_prefix (strip_prefix part "")
includes part (String.◌∷◌ c s) =
    let later = includes part s in is_prefix (strip_prefix part (String.◌∷◌ c s)) || later

abbrev pub is_production : Config → Bool
is_production c = c.environment =ˢ "production"

abbrev pub is_weak_password : String → Bool
is_weak_password password = password =ˢ "Admin123!" || ltb (byte_length password) 12

abbrev pub is_weak_secret : Unicode → String → Bool
is_weak_secret u secret =
    secret =ˢ "development-only-change-me"
    || ltb (byte_length secret) 32
    || includes "replace-this" (to_lower u secret)
    || includes "change-me" (to_lower u secret)

abbrev pub shares_password : Config → Bool
shares_password c =
    c.bootstrap_admin_password =ˢ c.bootstrap_operator_password
    || c.bootstrap_admin_password =ˢ c.bootstrap_reviewer_password
    || c.bootstrap_operator_password =ˢ c.bootstrap_reviewer_password

-- A `map` of the timeouts is walked in any order, and each ends with the same error.
abbrev pub stops_at_once : Config → Bool
stops_at_once c =
    below c.startup_timeout 1
    || below c.shutdown_timeout 1
    || below c.read_header_timeout 1
    || below c.read_timeout 1
    || below c.write_timeout 1
    || below c.idle_timeout 1

-- The first test that holds gives the error.
abbrev pub first_failure : List (Bool × ConfigError) → Option ConfigError
first_failure [] = none
first_failure ((test, e) ∷ rest) = let later = first_failure rest in if test then some e else later

abbrev pub checks : Unicode → Config → List (Bool × ConfigError)
checks u c =
    (
      not (
          c.database_driver =ˢ "postgres"
          || c.database_driver =ˢ "mysql"
          || c.database_driver =ˢ "sqlite"),
      ConfigError.unsupported_driver,
    )
    ∷ (is_blank c.app_name, ConfigError.empty_app_name)
    ∷ (is_blank c.port, ConfigError.empty_port)
    ∷ (ltb (byte_length c.jwt_secret) 16, ConfigError.short_secret)
    ∷ (is_production c && is_weak_secret u c.jwt_secret, ConfigError.weak_production_secret)
    ∷ (
      is_production c && is_weak_password c.bootstrap_admin_password,
      ConfigError.weak_admin_password,
    )
    ∷ (
      is_production c && is_weak_password c.bootstrap_operator_password,
      ConfigError.weak_operator_password,
    )
    ∷ (
      is_production c && is_weak_password c.bootstrap_reviewer_password,
      ConfigError.weak_reviewer_password,
    )
    ∷ (is_production c && shares_password c, ConfigError.shared_passwords)
    ∷ (below c.request_limit 10 || above c.request_limit 100000, ConfigError.request_limit_range)
    ∷ (
      below c.login_request_limit 1 || above c.login_request_limit 1000,
      ConfigError.login_limit_range,
    )
    ∷ (stops_at_once c, ConfigError.timeout_not_positive)
    ∷ []

-- `Validate`: the error, if there is one.
unfoldable pub validate : Unicode → Config → Option ConfigError
validate u c = first_failure (checks u c)

-- A production server that starts: its secret and its three first passwords are strong, and the three
-- are different.
pub record IsHardened (u : Unicode) (c : Config) : Type 0 where
  pub secret : is_weak_secret u c.jwt_secret ≡ false
  pub admin : is_weak_password c.bootstrap_admin_password ≡ false
  pub operator : is_weak_password c.bootstrap_operator_password ≡ false
  pub reviewer : is_weak_password c.bootstrap_reviewer_password ≡ false
  pub admin_operator : c.bootstrap_admin_password ≢ c.bootstrap_operator_password
  pub admin_reviewer : c.bootstrap_admin_password ≢ c.bootstrap_reviewer_password
  pub operator_reviewer : c.bootstrap_operator_password ≢ c.bootstrap_reviewer_password

-- Every test of a list fails.
abbrev pub AllFail : List (Bool × ConfigError) → Type 0
AllFail [] = Unit
AllFail ((test, e) ∷ rest) = (test ≡ false) × AllFail rest

pub first_failure-AllFail : (l : List (Bool × ConfigError)) → first_failure l ≡ none → AllFail l
first_failure-AllFail [] h = tt
first_failure-AllFail ((true, e) ∷ rest) h = absurd (cc (h))
first_failure-AllFail ((false, e) ∷ rest) h = (refl, first_failure-AllFail rest h)

after_production : (p b : Bool) → p ≡ true → (p && b) ≡ false → b ≡ false
after_production p b h k = ground arith

distinct :
    (s t : String) (b c : Bool) → (s =ˢ t || b || c) ≡ false → (s ≢ t) × (b ≡ false) × (c ≡ false)
distinct s t b c h = ground (arith, eq_iff s t)

differ : (s t : String) → (s =ˢ t) ≡ false → s ≢ t
differ s t h = ground (arith, eq_iff s t)

-- A production configuration that passes the checks is hardened.
pub validate-IsHardened :
    (u : Unicode) (c : Config) → is_production c ≡ true → validate u c ≡ none → IsHardened u c
unfolding validate
validate-IsHardened u c production h =
    let (_, (_, (_, (_, (secret, (admin, (operator, (reviewer, (shared, _))))))))) =
      first_failure-AllFail (checks u c) h in
    let (apart, b, d) =
      distinct c.bootstrap_admin_password c.bootstrap_operator_password
        (c.bootstrap_admin_password =ˢ c.bootstrap_reviewer_password)
        (c.bootstrap_operator_password =ˢ c.bootstrap_reviewer_password)
        (after_production (is_production c) (shares_password c) production shared) in
    record {
      secret = after_production (is_production c) (is_weak_secret u c.jwt_secret) production secret;
      admin =
          after_production (is_production c) (is_weak_password c.bootstrap_admin_password)
            production admin;
      operator =
          after_production (is_production c) (is_weak_password c.bootstrap_operator_password)
            production operator;
      reviewer =
          after_production (is_production c) (is_weak_password c.bootstrap_reviewer_password)
            production reviewer;
      admin_operator = apart;
      admin_reviewer = differ c.bootstrap_admin_password c.bootstrap_reviewer_password b;
      operator_reviewer = differ c.bootstrap_operator_password c.bootstrap_reviewer_password d;
    }
