-- ===== src/Web/Server/Safety.antt =====
-- What the HTTP requests that backend/internal/router/router.go routes can do to the database.
use gb_516_hydropower_gate_d.Prelude.{
  String, ◌≡◌, refl, sym, subst, ◌⊎◌, inl, inr, Bool, true, false, List, [], ◌∷◌,
}
use gb_516_hydropower_gate_d.Text.{Unicode, trim_space}
use gb_516_hydropower_gate_d.Platform.{Platform, PlatformLaws}
use gb_516_hydropower_gate_d.Platform.Schema.{Tables}
use gb_516_hydropower_gate_d.Platform.Reads.{Reads, ReadLaws}
use gb_516_hydropower_gate_d.Platform.Library.{Library}
use gb_516_hydropower_gate_d.System.Changes.{Change}
use gb_516_hydropower_gate_d.System.Serve.{Caller, Request, serve, serve-Change}
use gb_516_hydropower_gate_d.System.Kinds.{IsAccounted}
use gb_516_hydropower_gate_d.System.Trail.{Change-IsAccounted}
use gb_516_hydropower_gate_d.System.TwoPerson.{Change-IsDispatchSafe}
use gb_516_hydropower_gate_d.System.TwoPerson.Invariant.{IsDispatchSafe}
use gb_516_hydropower_gate_d.Web.Access.{Principal, Token, Verdict, denied, admitted, authenticate}
use gb_516_hydropower_gate_d.Web.Access.Accounts.{Account, authenticate-Account}
use gb_516_hydropower_gate_d.Web.Config.{Config}
use gb_516_hydropower_gate_d.Web.Http.{
  context_of, Context, Handler, actor_from_context, role_from_context,
}
use gb_516_hydropower_gate_d.Web.Routes.{may_ask}
use gb_516_hydropower_gate_d.Web.Handlers.Effects.{Effect, guarded-Effect}
use gb_516_hydropower_gate_d.Web.Handlers.Calls.Reservoir as ReservoirEffects
use gb_516_hydropower_gate_d.Web.Handlers.Calls.Gate as GateEffects
use gb_516_hydropower_gate_d.Web.Handlers.Calls.Directive as DirectiveEffects
use gb_516_hydropower_gate_d.Web.Handlers.Calls.Confirmation as ConfirmationEffects
use gb_516_hydropower_gate_d.Web.Handlers.Effects.System.{
  login-Looks, health-Looks, overview-Looks, audits-Looks, runtime-Looks, audit_summary-Looks,
  entity_history-Looks,
}
use gb_516_hydropower_gate_d.Web.RequestId.{normalize_request_id}
use gb_516_hydropower_gate_d.Web.Server.Routing.{Route, route}
use gb_516_hydropower_gate_d.Web.Server

-- The caller that a service sees, if the request is admitted as this principal.
abbrev pub caller_as : Principal → String → Caller
caller_as pr id = record {
  actor = trim_space pr.username;
  role = trim_space pr.role;
  request_id = id;
}

module _ (u : Unicode) (p : Platform) (r : Reads p.World) (lib : Library) where
  -- One write request, of an active account whose role may ask for it.
  pub record Served (id : String) (w w' : p.World) : Type 0 where
    pub principal : Principal
    pub account : Account (r.find_user w) lib.print principal
    pub request : Request
    pub permitted : may_ask principal.role request ≡ true
    pub served : w' ≡ serve u p (caller_as principal id) request w

module _ {W : Type 0} (P : W → Type 0) where
  unless_limited_keeps :
      (allowed : Bool) (h : Handler W) (w : W)
      → P w
      → P (h w).1
      → P (Server.unless_limited allowed h w).1
  unfolding Server.unless_limited
  unless_limited_keeps true h w idle run = run
  unless_limited_keeps false h w idle run = idle

  with_verdict_keeps :
      (v : Verdict) (h : Principal → Handler W) (w : W)
      → P w
      → ((pr : Principal) → v ≡ admitted pr → P (h pr w).1)
      → P (Server.with_verdict v h w).1
  unfolding Server.with_verdict
  with_verdict_keeps (denied d) h w idle run = idle
  with_verdict_keeps (admitted pr) h w idle run = run pr refl

module _ (u : Unicode) (p : Platform) (laws : PlatformLaws p) (r : Reads p.World)
    (reads : ReadLaws p.view r) (lib : Library) (cfg : Config) where
  route-Effect :
      (x : Route) (c : Context) (w : p.World) → Effect u p c w (route u p r lib cfg x c w).1
  unfolding route
  route-Effect Route.overview c w = inl (overview-Looks p laws r reads lib cfg w)
  route-Effect Route.session c w = inl refl
  route-Effect Route.runtime c w = inl (runtime-Looks p laws r reads lib cfg w)
  route-Effect (Route.audits query) c w =
      guarded-Effect u p _ c _ w (λ _. inl (audits-Looks p laws r reads lib cfg query w))
  route-Effect (Route.audit_summary hours) c w =
      guarded-Effect u p _ c _ w (λ _. inl (audit_summary-Looks p laws r reads lib cfg hours w))
  route-Effect (Route.entity_history entity_type raw limit) c w =
      guarded-Effect u p _ c _ w
        (λ _. inl (entity_history-Looks p laws r reads lib cfg entity_type raw limit w))
  route-Effect (Route.reservoirs x) c w =
      ReservoirEffects.register-Effect u p laws r reads lib c x w
  route-Effect (Route.gates x) c w = GateEffects.register-Effect u p laws r reads lib c x w
  route-Effect (Route.directives x) c w =
      DirectiveEffects.register-Effect u p laws r reads lib c x w
  route-Effect (Route.confirmations x) c w =
      ConfirmationEffects.register-Effect u p laws r reads lib c x w

  -- The tables are as before, or the request has been served.
  abbrev pub IsJustified : String → p.World → p.World → Type 0
  IsJustified id w w' = (p.view w' ≡ p.view w) ⊎ Served u p r lib id w w'

  -- What a handler does in the context of an account.
  Effect-IsJustified :
      (pr : Principal) (id : String) (w w' : p.World)
      → Account (r.find_user w) lib.print pr
      → Effect u p (context_of pr id) w w'
      → IsJustified id w w'
  unfolding actor_from_context role_from_context
  Effect-IsJustified pr id w w' account (inl same) = inl same
  Effect-IsJustified pr id w w' account (inr (request, (role, role_eq, may), served)) =
      inr (record {
        principal = pr;
        account = account;
        request = request;
        permitted = (let e : pr.role ≡ role = cc (role_eq) in rw e may);
        served = served;
      })

  module _ (parse : p.World → String → Token) where
    api_route-IsJustified :
        (x : Route) (q : Server.HttpRequest) (id : String) (w : p.World)
        → IsJustified id w (Server.api_route u p r lib cfg parse x q id w).1
    unfolding Server.api_route
    api_route-IsJustified x q id w =
        with_verdict_keeps (IsJustified id w)
          (authenticate (parse w) (r.find_user w) lib.print q.authorization) _ w (inl refl)
          (λ pr e.
            Effect-IsJustified pr id w _
              (authenticate-Account (parse w) (r.find_user w) lib.print q.authorization pr e)
              (route-Effect x (context_of pr id) w))

    answer-IsJustified :
        (e : Server.Endpoint) (q : Server.HttpRequest) (id : String) (s : Server.Server p.World)
        → IsJustified id s.world (Server.answer u p r lib cfg parse e q id s).1.world
    unfolding Server.answer
    answer-IsJustified Server.Endpoint.health q id s =
        inl (health-Looks p laws r reads lib cfg s.world)
    answer-IsJustified (Server.Endpoint.login body) q id s = inl (
        unless_limited_keeps (λ w'. p.view w' ≡ p.view s.world) _ _ s.world refl
          (login-Looks p laws r reads lib cfg body s.world))
    answer-IsJustified (Server.Endpoint.api x) q id s =
        unless_limited_keeps (IsJustified id s.world) _ _ s.world (inl refl)
          (api_route-IsJustified x q id s.world)
    answer-IsJustified (Server.Endpoint.unknown true) q id s = inl refl
    answer-IsJustified (Server.Endpoint.unknown false) q id s = inl refl

    -- An HTTP request leaves the tables as they are, or it is admitted as an active account with the
    -- name and the role that are in the database, and does to the world what one write request that
    -- this role may ask for does, with the name of the account as the actor and the normalised request
    -- id.
    pub exchange-IsJustified :
        (q : Server.HttpRequest) (s : Server.Server p.World)
        → IsJustified
            (normalize_request_id q.fresh_id q.x_request_id)
            s.world
            (Server.exchange u p r lib cfg parse q s).1.world
    unfolding Server.exchange
    exchange-IsJustified q s = answer-IsJustified q.endpoint q _ s

    IsJustified-Change :
        (id : String) (w w' : p.World) → IsJustified id w w' → Change u (p.view w) (p.view w')
    IsJustified-Change id w w' (inl same) = Change.no_change same
    IsJustified-Change id w w' (inr x) =
        subst (λ w'. Change u (p.view w) (p.view w')) (sym x.served)
          (serve-Change u p laws (caller_as x.principal id) x.request w)

    -- What every change keeps holds after any sequence of requests.
    exchange_all_keeps :
        (P : Tables → Type 0)
        → ((v v' : Tables) → Change u v v' → P v → P v')
        → (requests : List Server.HttpRequest) (s : Server.Server p.World) → P (p.view s.world)
        → P (p.view (Server.exchange_all u p r lib cfg parse requests s).world)
    unfolding Server.exchange_all
    exchange_all_keeps P keep [] s h = h
    exchange_all_keeps P keep (q ∷ rest) s h =
        exchange_all_keeps P keep rest (Server.exchange u p r lib cfg parse q s).1
          (keep _ _ (IsJustified-Change _ _ _ (exchange-IsJustified q s)) h)

    -- If every directive has the evidence of the two-person rule, every directive has it after any
    -- sequence of HTTP requests.
    pub exchange_all-IsDispatchSafe :
        (requests : List Server.HttpRequest) (s : Server.Server p.World)
        → IsDispatchSafe u (p.view s.world)
        → IsDispatchSafe u (p.view (Server.exchange_all u p r lib cfg parse requests s).world)
    exchange_all-IsDispatchSafe = exchange_all_keeps (IsDispatchSafe u) (Change-IsDispatchSafe u)

    -- If the audit trail accounts for the state of every record, it does so after any sequence of HTTP
    -- requests.
    pub exchange_all-IsAccounted :
        (requests : List Server.HttpRequest) (s : Server.Server p.World)
        → IsAccounted (p.view s.world)
        → IsAccounted (p.view (Server.exchange_all u p r lib cfg parse requests s).world)
    exchange_all-IsAccounted = exchange_all_keeps IsAccounted (Change-IsAccounted u)
