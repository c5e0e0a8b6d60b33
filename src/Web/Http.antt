-- ===== src/Web/Http.antt =====
-- What the handlers share: backend/internal/util/http.go and the helpers of
-- backend/internal/handler/system.go. The messages beside an error's code are left out.
use gb_516_hydropower_gate_d.Prelude.{
  ℕ, String, Bool, false, Option, none, some, List, ◌==◌, if◌then◌else◌,
}
use gb_516_hydropower_gate_d.Exec.{Result, ok, err, Exec}
use gb_516_hydropower_gate_d.Text.{trim_space}
use gb_516_hydropower_gate_d.Model.{
  Reservoir, GateUnit, OperationDirective, ExecutionConfirmation, AuditLog, AuditSummary,
}
use gb_516_hydropower_gate_d.Dto.{PageQuery, LoginResponse, SessionResponse}
use gb_516_hydropower_gate_d.Repository.Lists.{Page}
use gb_516_hydropower_gate_d.Web.Access.{Principal, require_roles}
use gb_516_hydropower_gate_d.Web.Config.Load.{PublicConfig}
use gb_516_hydropower_gate_d.Web.Errors.{handle_error}
use gb_516_hydropower_gate_d.Web.Queries.{bind_page}

-- What the middleware has set on Gin's context: nothing, until a request is authenticated.
pub record Context : Type 0 where
  pub username : Option String
  pub display_name : Option String
  pub role : Option String
  pub request_id : String

-- What `Authenticate` sets on the context.
abbrev pub context_of : Principal → String → Context
context_of pr id = record {
  username = some pr.username;
  display_name = some pr.display_name;
  role = some pr.role;
  request_id = id;
}

-- The counts by state of the four record types.
pub record Overview : Type 0 where
  pub reservoirs : List (String × ℕ)
  pub gates : List (String × ℕ)
  pub directives : List (String × ℕ)
  pub confirmations : List (String × ℕ)

pub data Payload : Type 0 where
  no_payload : Payload
  failure : String → Payload
  reservoir : Reservoir → Payload
  gate : GateUnit → Payload
  directive : OperationDirective → Payload
  confirmation : ExecutionConfirmation → Payload
  reservoir_page : Page Reservoir → Payload
  gate_page : Page GateUnit → Payload
  directive_page : Page OperationDirective → Payload
  confirmation_page : Page ExecutionConfirmation → Payload
  audit_page : Page AuditLog → Payload
  audit_summary : AuditSummary → Payload
  audit_logs : List AuditLog → Payload
  token : LoginResponse → Payload
  session : SessionResponse → Payload
  runtime : PublicConfig → Payload
  -- `redis` is ready or disabled.
  health : String → Payload
  overview : Overview → Payload

pub record Response : Type 0 where
  pub status : ℕ
  pub payload : Payload

abbrev pub Handler : Type 0 → Type 0
Handler World = World → Response × World

-- `OK` and `Page`
abbrev pub ok_with : Payload → Response
ok_with payload = record { status = 200; payload = payload }

-- `Created`
abbrev pub created : Payload → Response
created payload = record { status = 201; payload = payload }

-- `NoContent`
abbrev pub no_content : Response
no_content = record { status = 204; payload = no_payload }

-- `Fail`
abbrev pub fail : ℕ → String → Response
fail status code = record { status = status; payload = failure code }

-- `actorFromContext`
unfoldable pub actor_from_context : Context → String
actor_from_context c = elim c.username [ none ↦ "anonymous" | some name ↦ trim_space name ]

-- `roleFromContext`
unfoldable pub role_from_context : Context → String
role_from_context c = elim c.role [ none ↦ "viewer" | some role ↦ trim_space role ]

-- `bindPage`: what the query has, with a page and a size that are in range.
unfoldable pub bound_query : PageQuery → PageQuery
bound_query query =
    let bounds = bind_page (query.page, query.page_size) in
    record query { page = bounds.0; page_size = bounds.1 }

-- `parseID`: a number that is not 0.
abbrev pub positive : Option ℕ → Option ℕ
positive none = none
positive (some n) = if n == 0 then none else some n

-- The role that `RequireRoles` looks at, untrimmed.
abbrev pub is_allowed : List String → Option String → Bool
is_allowed roles none = false
is_allowed roles (some role) = require_roles roles role

module _ {World : Type 0} where
  -- Shut, so that a goal about a handler keeps the call.
  unfoldable pub respond_with : {A : Type 0} → (A → Response) → Result A × World → Response × World
  respond_with f (ok a, w) = (f a, w)
  respond_with f (err e, w) = (let (status, code) = handle_error e in fail status code, w)

  -- The value of a call, or `handleError`.
  abbrev pub respond : {A : Type 0} → (A → Response) → Exec World A → Handler World
  respond f m w = respond_with f (m w)

  -- A body that does not bind is refused.
  abbrev pub with_body : {A : Type 0} → Option A → (A → Handler World) → Handler World
  with_body none f w = (fail 400 "invalid_request", w)
  with_body (some body) f w = f body w

  -- So is an id that does not parse.
  abbrev pub with_id : Option ℕ → (ℕ → Handler World) → Handler World
  with_id none f w = (fail 400 "invalid_id", w)
  with_id (some id) f w = f id w

  unfoldable pub unless_forbidden : Bool → Handler World → Handler World
  unless_forbidden allowed h w = if allowed then h w else (fail 403 "forbidden", w)

  -- `RequireRoles` before a handler.
  abbrev pub guarded : List String → Context → Handler World → Handler World
  guarded roles c h = unless_forbidden (is_allowed roles c.role) h
