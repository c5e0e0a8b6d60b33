-- ===== src/Web/Server/Exact.antt =====
-- Which requests backend/internal/router/router.go serves.
use gb_516_hydropower_gate_d.Prelude.{
  String, ◌≡◌, ◌≢◌, refl, sym, subst, true, Option, none, some, ◌=ˢ◌, Bool-cases, inl, inr, arith,
  eq_iff, if◌then◌else◌,
}
use gb_516_hydropower_gate_d.Text.{Unicode, trim_space, trim_left, trim_right, is_space}
use gb_516_hydropower_gate_d.Platform.{Platform, PlatformLaws}
use gb_516_hydropower_gate_d.Platform.Reads.{Reads, ReadLaws}
use gb_516_hydropower_gate_d.Platform.Library.{Library}
use gb_516_hydropower_gate_d.System.Serve.{Request, serve}
use gb_516_hydropower_gate_d.Web.Access.{Principal, Token, admitted, authenticate, role_rank}
use gb_516_hydropower_gate_d.Web.Access.Accounts.{authenticate-Account}
use gb_516_hydropower_gate_d.Web.Config.{Config}
use gb_516_hydropower_gate_d.Web.Http.{context_of, actor_from_context, role_from_context}
use gb_516_hydropower_gate_d.Web.RateLimit.{admit}
use gb_516_hydropower_gate_d.Web.RequestId.{normalize_request_id}
use gb_516_hydropower_gate_d.Web.Routes.{may_ask}
use gb_516_hydropower_gate_d.Web.Handlers.Exact.{requested, decided}
use gb_516_hydropower_gate_d.Web.Handlers.Calls.Reservoir as ReservoirRequests
use gb_516_hydropower_gate_d.Web.Handlers.Calls.Gate as GateRequests
use gb_516_hydropower_gate_d.Web.Handlers.Calls.Directive as DirectiveRequests
use gb_516_hydropower_gate_d.Web.Handlers.Calls.Confirmation as ConfirmationRequests
use gb_516_hydropower_gate_d.Web.Server
use gb_516_hydropower_gate_d.Web.Server.Routing.{Route, route, full_path}
use gb_516_hydropower_gate_d.Web.Server.Safety.{caller_as}

-- The write request that a route carries, if it carries one that can be read.
abbrev pub route_request : Library → Route → Option Request
route_request lib Route.overview = none
route_request lib Route.session = none
route_request lib Route.runtime = none
route_request lib (Route.audits query) = none
route_request lib (Route.audit_summary hours) = none
route_request lib (Route.entity_history entity_type raw limit) = none
route_request lib (Route.reservoirs x) = requested lib ReservoirRequests.requests x
route_request lib (Route.gates x) = requested lib GateRequests.requests x
route_request lib (Route.directives x) = requested lib DirectiveRequests.requests x
route_request lib (Route.confirmations x) = requested lib ConfirmationRequests.requests x

-- No known role has white space around it.
viewer_trimmed : trim_space "viewer" ≡ "viewer"
unfolding trim_space trim_left trim_right is_space
viewer_trimmed = refl

operator_trimmed : trim_space "operator" ≡ "operator"
unfolding trim_space trim_left trim_right is_space
operator_trimmed = refl

reviewer_trimmed : trim_space "reviewer" ≡ "reviewer"
unfolding trim_space trim_left trim_right is_space
reviewer_trimmed = refl

admin_trimmed : trim_space "admin" ≡ "admin"
unfolding trim_space trim_left trim_right is_space
admin_trimmed = refl

trimmed_as : (s t : String) → (s =ˢ t) ≡ true → trim_space t ≡ t → trim_space s ≡ s
trimmed_as s t h e =
    let same : s ≡ t = ground (arith, eq_iff s t) in subst (λ x. trim_space x ≡ x) (sym same) e

role_trimmed : (role : String) → role_rank role ≢ 0 → trim_space role ≡ role
unfolding role_rank
role_trimmed role h = elim (Bool-cases (role =ˢ "viewer")) [
  | inl a ↦ trimmed_as role "viewer" a viewer_trimmed
  | inr a ↦ elim (Bool-cases (role =ˢ "operator")) [
    | inl b ↦ trimmed_as role "operator" b operator_trimmed
    | inr b ↦ elim (Bool-cases (role =ˢ "reviewer")) [
      | inl c ↦ trimmed_as role "reviewer" c reviewer_trimmed
      | inr c ↦ elim (Bool-cases (role =ˢ "admin")) [
        | inl d ↦ trimmed_as role "admin" d admin_trimmed
        | inr d ↦ absurd (h (rw (a, b, c, d) refl))
      ]
    ]
  ]
]

module _ (u : Unicode) (p : Platform) (laws : PlatformLaws p) (r : Reads p.World)
    (reads : ReadLaws p.view r) (lib : Library) (cfg : Config) where
  route-decided :
      (x : Route) (request : Request) (pr : Principal) (id : String) (w : p.World)
      → trim_space pr.role ≡ pr.role
      → route_request lib x ≡ some request
      → (route u p r lib cfg x (context_of pr id) w).1
        ≡ decided u p (context_of pr id) pr.role request w
  unfolding route
  route-decided Route.overview request pr id w t e = absurd (cc (e))
  route-decided Route.session request pr id w t e = absurd (cc (e))
  route-decided Route.runtime request pr id w t e = absurd (cc (e))
  route-decided (Route.audits query) request pr id w t e = absurd (cc (e))
  route-decided (Route.audit_summary hours) request pr id w t e = absurd (cc (e))
  route-decided (Route.entity_history entity_type raw limit) request pr id w t e = absurd (cc (e))
  route-decided (Route.reservoirs x) request pr id w t e =
      ReservoirRequests.register-IsDecided u p laws r reads lib pr id w x request t e
  route-decided (Route.gates x) request pr id w t e =
      GateRequests.register-IsDecided u p laws r reads lib pr id w x request t e
  route-decided (Route.directives x) request pr id w t e =
      DirectiveRequests.register-IsDecided u p laws r reads lib pr id w x request t e
  route-decided (Route.confirmations x) request pr id w t e =
      ConfirmationRequests.register-IsDecided u p laws r reads lib pr id w x request t e

  module _ (parse : p.World → String → Token) where
    -- A write request within the limit, with a readable id and body, and from a caller who is
    -- admitted, does to the world what the service does if the caller's role may ask for it: an
    -- administrator for anything, an operator for anything but a deletion, a reviewer for the
    -- transition of a directive. It leaves the world as it is otherwise.
    pub exchange-may_ask :
        (q : Server.HttpRequest) (s : Server.Server p.World) (x : Route) (request : Request)
        (pr : Principal)
        → q.endpoint ≡ Server.Endpoint.api x
        → route_request lib x ≡ some request
        → (admit
            (Server.limit_of cfg.request_limit)
            q.redis_count
            (Server.limiter_key q (full_path x))
            q.time
            s.api_buckets).0
          ≡ true
        → authenticate (parse s.world) (r.find_user s.world) lib.print q.authorization ≡ admitted pr
        → (Server.exchange u p r lib cfg parse q s).1.world ≡ (
            if may_ask pr.role request
            then serve u p
                (caller_as pr (normalize_request_id q.fresh_id q.x_request_id))
                request
                s.world
            else s.world)
    unfolding Server.exchange Server.answer Server.unless_limited Server.api_route
        Server.with_verdict actor_from_context role_from_context
    exchange-may_ask q s x request pr endpoint carried within admission =
        let account =
          authenticate-Account (parse s.world) (r.find_user s.world) lib.print q.authorization pr
            admission in
        let known : role_rank pr.role ≢ 0 =
          subst (λ role. role_rank role ≢ 0) (sym account.role) account.ranked in
        rw (endpoint, within, admission)
          (route-decided x request pr _ s.world (role_trimmed pr.role known) carried)
