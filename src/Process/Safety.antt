-- ===== src/Process/Safety.antt =====
-- The two-person rule over the life of a process, of backend/cmd/server/main.go.
use gb_516_hydropower_gate_d.Prelude.{String, ◌≡◌, false, Option, List}
use gb_516_hydropower_gate_d.Exec.{Result, ok, err, After}
use gb_516_hydropower_gate_d.Text.{Unicode, equal_fold}
use gb_516_hydropower_gate_d.Platform.{Platform, PlatformLaws}
use gb_516_hydropower_gate_d.Platform.Reads.{Reads, ReadLaws}
use gb_516_hydropower_gate_d.Platform.Library.{Library}
use gb_516_hydropower_gate_d.Process
use gb_516_hydropower_gate_d.Database.Setup.{Setup, SetupLaws}
use gb_516_hydropower_gate_d.Database.Connect.{Driver}
use gb_516_hydropower_gate_d.Database.Connect.Safety.{DriverLaws, open_database-IsDispatchSafe}
use gb_516_hydropower_gate_d.System.TwoPerson.Invariant.{IsDispatchSafe}
use gb_516_hydropower_gate_d.Web.Access.{Token}
use gb_516_hydropower_gate_d.Web.Config.{Config}
use gb_516_hydropower_gate_d.Web.Config.Load.{Loaded, load}
use gb_516_hydropower_gate_d.Web.Server.{HttpRequest}
use gb_516_hydropower_gate_d.Web.Server.Safety.{exchange_all-IsDispatchSafe}

-- A process that serves requests does so on tables where every directive has its evidence.
abbrev pub IsSafe : (u : Unicode) (p : Platform) → Process.Process p.World → Type 0
IsSafe u p (Process.exited w) = Unit
IsSafe u p (Process.serving s) = IsDispatchSafe u (p.view s.world)

module _ (u : Unicode) (p : Platform) (laws : PlatformLaws p) (r : Reads p.World)
    (reads : ReadLaws p.view r) (s : Setup p.World) (setup : SetupLaws p.view s)
    (d : Driver p.World) (driver : DriverLaws p.view d) (lib : Library)
    (lookup_env : String → Option String) (parse : Config → p.World → String → Token) where
  serve_requests-IsSafe :
      (cfg : Config) (requests : List HttpRequest) (x : Result (Unit {0}) × p.World)
      → After (λ _ w. IsDispatchSafe u (p.view w)) (λ _ _. Unit {0}) x
      → IsSafe u p (Process.serve_requests u p r s d lib lookup_env parse cfg requests x)
  serve_requests-IsSafe cfg requests (ok _, w) h =
      exchange_all-IsDispatchSafe u p laws r reads lib cfg (parse cfg) requests
        (Process.new_server w) h.holds
  serve_requests-IsSafe cfg requests (err e, w) h = tt

  start-IsSafe :
      (requests : List HttpRequest) (w : p.World) (c : Loaded)
      → equal_fold u "operator" "reviewer" ≡ false
      → IsDispatchSafe u (p.view w)
      → IsSafe u p (Process.start u p r s d lib lookup_env parse requests w c)
  start-IsSafe requests w (Loaded.refused e) apart h = tt
  start-IsSafe requests w (Loaded.loaded cfg) apart h =
      serve_requests-IsSafe cfg requests _
        (open_database-IsDispatchSafe p.view d driver s setup lib cfg u w apart h)

  -- If every directive has the evidence of the two-person rule in the database that a process finds,
  -- and "operator" and "reviewer" are different under case folding, then every directive has it
  -- after the process has connected, migrated, seeded and answered any sequence of HTTP requests,
  -- whatever its environment, unless it has exited before the first one.
  pub main-IsSafe :
      (requests : List HttpRequest) (w : p.World)
      → equal_fold u "operator" "reviewer" ≡ false
      → IsDispatchSafe u (p.view w)
      → IsSafe u p (Process.main u p r s d lib lookup_env parse requests w)
  unfolding Process.main
  main-IsSafe requests w apart h = start-IsSafe requests w (load u lib lookup_env) apart h
