-- ===== src/Web/Config/Load/Bounds.antt =====
-- The numbers of a configuration that `Load` of backend/internal/config/config.go returns.
use gb_516_hydropower_gate_d.Prelude.{
  ℕ, String, ◌≡◌, refl, subst, ◌≤◌, false, ◌||◌, Option, none, some, ltb, ◌=ˢ◌, Bool-cases, inl,
  inr, arith,
}
use gb_516_hydropower_gate_d.Ints.{ℤ, pos, negsuc, below, above}
use gb_516_hydropower_gate_d.Text.{Unicode}
use gb_516_hydropower_gate_d.Platform.Library.{Library}
use gb_516_hydropower_gate_d.Web.Config.{
  Config, ConfigError, validate, checks, first_failure-AllFail, stops_at_once,
}
use gb_516_hydropower_gate_d.Web.Config.Load.{
  Loaded, positive_or, env, duration_env, read_config, checked, load,
}
use gb_516_hydropower_gate_d.Web.Queries.{IsWithin}
use gb_516_hydropower_gate_d.Web.RequestId.{byte_length}

-- A configuration that a server can run on.
pub record IsRunnable (c : Config) : Type 0 where
  pub request_limit : IsWithin 10 100000 c.request_limit
  pub login_request_limit : IsWithin 1 1000 c.login_request_limit
  pub token_ttl : below c.token_ttl 1 ≡ false
  pub timeouts : stops_at_once c ≡ false
  pub secret : 16 ≤ byte_length c.jwt_secret

positive_or_positive :
    (fallback : ℤ) (o : Option ℤ)
    → below fallback 1 ≡ false
    → below (positive_or fallback o) 1 ≡ false
positive_or_positive fallback none h = h
positive_or_positive fallback (some value) h = elim (Bool-cases (below value 1)) [
  | inl low ↦ rw low h
  | inr fine ↦ rw fine fine
]

module _ (u : Unicode) (lib : Library) (lookup_env : String → Option String) where
  -- Whatever the environment holds.
  pub duration_env_positive :
      (key : String) (fallback : ℤ)
      → below fallback 1 ≡ false
      → below (duration_env u lib lookup_env key fallback) 1 ≡ false
  unfolding duration_env
  duration_env_positive key fallback h = elim (Bool-cases (env u lib lookup_env key "" =ˢ "")) [
    | inl unset ↦ rw unset h
    | inr given ↦
        rw given
          (positive_or_positive fallback (lib.parse_duration (env u lib lookup_env key "")) h)
  ]

range : (low high : ℕ) (x : ℤ) → (below x low || above x high) ≡ false → IsWithin low high x
range low high (pos n) h = (ground arith, ground arith)
range low high (negsuc n) h = absurd (cc (h))

long_enough : (n : ℕ) → ltb n 16 ≡ false → 16 ≤ n
long_enough n h = ground arith

module _ (u : Unicode) (lib : Library) (lookup_env : String → Option String) where
  read_config-IsRunnable :
      validate u (read_config u lib lookup_env) ≡ none → IsRunnable (read_config u lib lookup_env)
  unfolding validate read_config
  read_config-IsRunnable h =
      let (_, (_, (_, (short, (_, (_, (_, (_, (_, (requests, (logins, (stops, _)))))))))))) =
        first_failure-AllFail (checks u (read_config u lib lookup_env)) h in
      record {
        request_limit = range 10 100000 _ requests;
        login_request_limit = range 1 1000 _ logins;
        token_ttl = duration_env_positive u lib lookup_env "TOKEN_TTL" _ refl;
        timeouts = stops;
        secret = long_enough _ short;
      }

  -- A configuration that is loaded is in range, whatever the environment holds: from 10 to 100000
  -- requests and from 1 to 1000 logins a minute, a positive life of a token, timeouts that are all
  -- positive, and a secret of 16 bytes at least.
  pub load-IsRunnable : (c : Config) → load u lib lookup_env ≡ Loaded.loaded c → IsRunnable c
  unfolding load
  load-IsRunnable c h = go (validate u (read_config u lib lookup_env)) refl h
    where
      go :
          (o : Option ConfigError)
          → validate u (read_config u lib lookup_env) ≡ o
          → checked u lib lookup_env (read_config u lib lookup_env) o ≡ Loaded.loaded c
          → IsRunnable c
      go none valid same = subst IsRunnable (cc (same)) (read_config-IsRunnable valid)
      go (some e) invalid same = absurd (cc (same))
