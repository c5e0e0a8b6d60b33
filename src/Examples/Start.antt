-- ===== src/Examples/Start.antt =====
-- The theorems about the start of a server, at concrete databases and settings.
use gb_516_hydropower_gate_d.Prelude.{
  ℕ, suc, String, ◌≡◌, refl, true, false, leb, Option, none, some, [], ◌∷◌, arith, eq_iff, ◌=ˢ◌,
  if◌then◌else◌,
}
use gb_516_hydropower_gate_d.Exec.{ok}
use gb_516_hydropower_gate_d.Text.{
  equal_fold, trim_space, trim_left, trim_right, is_space, to_lower, strip_prefix,
}
use gb_516_hydropower_gate_d.Database.Connect
use gb_516_hydropower_gate_d.Process
use gb_516_hydropower_gate_d.Process.Safety.{IsSafe, main-IsSafe}
use gb_516_hydropower_gate_d.Examples.Server.{creates, confirms}
use gb_516_hydropower_gate_d.Database.Connect.Reach.{FailsFor, round, connect-FailsFor}
use gb_516_hydropower_gate_d.Web.Config.{Config, validate}
use gb_516_hydropower_gate_d.Web.Config.Lists.{split_csv}
use gb_516_hydropower_gate_d.Web.Config.Lists.RoundTrip.{AreItems, join, split_csv-join}
use gb_516_hydropower_gate_d.Web.Config.Load.{Loaded, read_config, load, int_env, duration_env, env}
use gb_516_hydropower_gate_d.Web.Config.Load.Bounds.{IsRunnable, load-IsRunnable}
use gb_516_hydropower_gate_d.Examples.Database.{ascii, memory, memory_laws}
use gb_516_hydropower_gate_d.Examples.Data.{evidence_memory}
use gb_516_hydropower_gate_d.Examples.Safety.{evidence_memory-IsDispatchSafe}
use gb_516_hydropower_gate_d.Examples.Outside.{reads, reads_laws, parse_one, library}
use gb_516_hydropower_gate_d.Examples.Setup.{setup, setup_laws, driver, driver_laws}

names_differ : equal_fold ascii "operator" "reviewer" ≡ false
unfolding equal_fold
names_differ = refl

-- A database that answers from the second attempt on; the world counts the seconds.
abbrev slow : Connect.Driver ℕ
slow = record {
  open_connection = λ n. (leb 2 n, n);
  handle = λ n. (true, n);
  ping = λ n. (true, n);
  wait = λ n. (true, suc n);
  migrate = λ n. (ok tt, n);
  redis_ping = λ n. (true, n);
}

slow-FailsFor : FailsFor slow 2 0
unfolding Connect.attempt
slow-FailsFor = (λ e. absurd (cc (e)), refl, (λ e. absurd (cc (e)), refl, tt))

slow_answers : (Connect.attempt slow (round slow 2 0)).0 ≡ Connect.Attempt.ready
unfolding Connect.attempt
slow_answers = refl

connect-FailsFor_example : (Connect.connect slow 0).0 ≡ Connect.Outcome.connected
connect-FailsFor_example = connect-FailsFor slow 2 0 (ground arith) slow-FailsFor slow_answers

ranges-AreItems : AreItems ("10.0.0.0/8" ∷ "::1" ∷ [])
unfolding is_space
ranges-AreItems = (
  (ground (arith, eq_iff "10.0.0.0/8" ""), refl),
  refl,
  ((ground (arith, eq_iff "::1" ""), refl), refl, tt),
)

split_csv-join_example : split_csv (join "10.0.0.0/8" ("::1" ∷ [])) ≡ "10.0.0.0/8" ∷ "::1" ∷ []
split_csv-join_example = split_csv-join "10.0.0.0/8" ("::1" ∷ []) ranges-AreItems

-- An environment that sets one number.
abbrev environment : String → Option String
environment name = if name =ˢ "REQUEST_LIMIT" then some " 90 " else none

abbrev settings : Config
settings = read_config ascii library environment

settings_loaded : load ascii library environment ≡ Loaded.loaded settings
unfolding load validate read_config int_env duration_env env trim_space trim_left trim_right
    is_space to_lower split_csv strip_prefix
settings_loaded = refl

load-IsRunnable_example : IsRunnable settings
load-IsRunnable_example = load-IsRunnable ascii library environment settings settings_loaded

main-IsSafe_example : IsSafe ascii memory (
    Process.main ascii memory reads setup driver library environment
      (λ cfg m. parse_one)
      (creates ∷ confirms ∷ [])
      evidence_memory)
main-IsSafe_example =
    main-IsSafe ascii memory memory_laws reads reads_laws setup setup_laws driver driver_laws
      library environment (λ cfg m. parse_one) (creates ∷ confirms ∷ []) evidence_memory
      names_differ evidence_memory-IsDispatchSafe
