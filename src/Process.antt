-- ===== src/Process.antt =====
-- backend/cmd/server/main.go: a process from its environment to the requests that it answers. Signals, the
-- listener and the logger are left out.
pub mod Safety
use gb_516_hydropower_gate_d.Prelude.{String, Option, List, []}
use gb_516_hydropower_gate_d.Exec.{Result, ok, err}
use gb_516_hydropower_gate_d.Text.{Unicode}
use gb_516_hydropower_gate_d.Platform.{Platform}
use gb_516_hydropower_gate_d.Platform.Reads.{Reads}
use gb_516_hydropower_gate_d.Platform.Library.{Library}
use gb_516_hydropower_gate_d.Database.Setup.{Setup}
use gb_516_hydropower_gate_d.Database.Connect.{Driver, open_database}
use gb_516_hydropower_gate_d.Web.Access.{Token}
use gb_516_hydropower_gate_d.Web.Config.{Config}
use gb_516_hydropower_gate_d.Web.Config.Load.{Loaded, load}
use gb_516_hydropower_gate_d.Web.Server.{HttpRequest, Server, exchange_all}

-- `os.Exit(1)`, or a server that has answered its requests.
pub data Process (World : Type 0) : Type 0 where
  exited : World → Process World
  serving : Server World → Process World

-- Two limiters that have counted nothing.
abbrev pub new_server : {World : Type 0} → World → Server World
new_server w = record { world = w; login_buckets = []; api_buckets = [] }

module _ (u : Unicode) (p : Platform) (r : Reads p.World) (s : Setup p.World) (d : Driver p.World)
    (lib : Library) (lookup_env : String → Option String)
    (parse : Config → p.World → String → Token) where
  abbrev pub serve_requests :
      Config → List HttpRequest → Result (Unit {0}) × p.World → Process p.World
  serve_requests cfg requests (ok _, w) =
      Process.serving (exchange_all u p r lib cfg (parse cfg) requests (new_server w))
  serve_requests cfg requests (err e, w) = Process.exited w

  abbrev pub start : List HttpRequest → p.World → Loaded → Process p.World
  start requests w (Loaded.refused e) = Process.exited w
  start requests w (Loaded.loaded cfg) = serve_requests cfg requests (open_database d s lib cfg w)

  -- `main`
  unfoldable pub main : List HttpRequest → p.World → Process p.World
  main requests w = start requests w (load u lib lookup_env)
