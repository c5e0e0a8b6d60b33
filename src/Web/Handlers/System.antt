-- ===== src/Web/Handlers/System.antt =====
-- backend/internal/handler/system.go
use gb_516_hydropower_gate_d.Prelude.{
  ℕ, String, Bool, true, false, ◌||◌, Option, none, some, ◌=ˢ◌, ltb, if◌then◌else◌,
}
use gb_516_hydropower_gate_d.Ints.{ℤ}
use gb_516_hydropower_gate_d.Exec.{Result, ok, err, Exec, pure, ◌>>=◌}
use gb_516_hydropower_gate_d.Text.{trim_space}
use gb_516_hydropower_gate_d.Dto.{PageQuery, LoginRequest, LoginResponse}
use gb_516_hydropower_gate_d.Platform.{Platform}
use gb_516_hydropower_gate_d.Platform.Reads.{Reads}
use gb_516_hydropower_gate_d.Platform.Library.{Library}
use gb_516_hydropower_gate_d.Repository.Lists
use gb_516_hydropower_gate_d.Repository.Audits
use gb_516_hydropower_gate_d.Service.Login
use gb_516_hydropower_gate_d.Web.Config.{Config}
use gb_516_hydropower_gate_d.Web.Config.Load.{public_config}
use gb_516_hydropower_gate_d.Web.Http.{
  Context, Overview, Payload, Response, Handler, ok_with, fail, respond, with_body, with_id,
  positive, bound_query, actor_from_context, role_from_context,
}
use gb_516_hydropower_gate_d.Web.Queries.{window_hours, nanoseconds, normalized_limit}
use gb_516_hydropower_gate_d.Web.RequestId.{byte_length}

-- `Session`
unfoldable pub session : Context → Response
session c = ok_with (
    Payload.session (record {
      username = actor_from_context c;
      display_name = elim c.display_name [ none ↦ "" | some name ↦ trim_space name ];
      role = role_from_context c;
      request_id = c.request_id;
    }))

abbrev redis_state : Option Bool → Response
redis_state none = ok_with (Payload.health "disabled")
redis_state (some true) = ok_with (Payload.health "ready")
redis_state (some false) = fail 503 "redis_unavailable"

module _ (p : Platform) (r : Reads p.World) (lib : Library) (cfg : Config) where
  -- Every error of a login is answered alike.
  abbrev pub answer_login : Result LoginResponse × p.World → Response × p.World
  answer_login (ok token, w) = (ok_with (Payload.token token), w)
  answer_login (err e, w) = (fail 401 "unauthorized", w)

  -- `Login`
  unfoldable pub login : Option LoginRequest → Handler p.World
  login body = with_body body (λ input w. answer_login (Login.login p r lib cfg input w))

  -- `Health`
  unfoldable pub health : Handler p.World
  health w =
      ((if r.ping w then redis_state (r.redis_ping w) else fail 503 "database_unavailable"), w)

  -- `Overview`
  abbrev count_all : Exec p.World Overview
  count_all = do
    reservoirs ← Lists.count_by_status r.reservoirs
    gates ← Lists.count_by_status r.gates
    directives ← Lists.count_by_status r.directives
    confirmations ← Lists.count_by_status r.confirmations
    pure (record {
      reservoirs = reservoirs;
      gates = gates;
      directives = directives;
      confirmations = confirmations;
    })

  unfoldable pub overview : Handler p.World
  overview = respond (λ counts. ok_with (Payload.overview counts)) count_all

  -- `Audits`
  unfoldable pub audits : PageQuery → Handler p.World
  audits query =
      let bound = bound_query query in
      respond
        (λ found. ok_with (
          Payload.audit_page (record {
            items = found.0;
            total = found.1;
            page = bound.page;
            page_size = bound.page_size;
          })))
        (Audits.list_audits r bound.page bound.page_size bound.search)

  -- `Runtime`
  unfoldable pub runtime : Handler p.World
  runtime w = (ok_with (Payload.runtime (public_config lib cfg)), w)

  -- `AuditSummary`
  unfoldable pub audit_summary : ℤ → Handler p.World
  audit_summary hours =
      respond (λ summary. ok_with (Payload.audit_summary summary))
        (Login.audit_summary p r lib cfg (nanoseconds (window_hours hours)))

  abbrev pub named_history : String → ℕ → ℤ → Handler p.World
  named_history entity_type id limit w =
      if entity_type =ˢ "" || ltb 80 (byte_length entity_type)
      then (fail 400 "invalid_entity_type", w)
      else respond (λ logs. ok_with (Payload.audit_logs logs))
          (Login.audit_history p r lib cfg entity_type id (normalized_limit limit)) w

  -- `EntityHistory`
  unfoldable pub entity_history : String → String → ℤ → Handler p.World
  entity_history entity_type raw limit =
      with_id (positive (lib.parse_uint raw))
        (λ id. named_history (trim_space entity_type) id limit)
