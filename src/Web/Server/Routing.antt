-- ===== src/Web/Server/Routing.antt =====
-- The group `/api` of backend/internal/router/router.go.
use gb_516_hydropower_gate_d.Prelude.{String, [], ◌∷◌}
use gb_516_hydropower_gate_d.Ints.{ℤ}
use gb_516_hydropower_gate_d.Text.{Unicode}
use gb_516_hydropower_gate_d.Dto.{
  CreateReservoir, UpdateReservoir, CreateGateUnit, UpdateGateUnit, CreateOperationDirective,
  UpdateOperationDirective, CreateExecutionConfirmation, UpdateExecutionConfirmation, PageQuery,
}
use Prim.Native.String
use gb_516_hydropower_gate_d.Platform.{Platform}
use gb_516_hydropower_gate_d.Platform.Reads.{Reads}
use gb_516_hydropower_gate_d.Platform.Library.{Library}
use gb_516_hydropower_gate_d.Web.Config.{Config}
use gb_516_hydropower_gate_d.Web.Http.{Context, Handler, guarded}
use gb_516_hydropower_gate_d.Web.Handlers.Resource.{Resource}
use gb_516_hydropower_gate_d.Web.Handlers.Reservoir
use gb_516_hydropower_gate_d.Web.Handlers.Gate
use gb_516_hydropower_gate_d.Web.Handlers.Directive
use gb_516_hydropower_gate_d.Web.Handlers.Confirmation
use gb_516_hydropower_gate_d.Web.Handlers.System

pub data Route : Type 0 where
  overview session runtime : Route
  audits : PageQuery → Route
  audit_summary : ℤ → Route
  entity_history : String → String → ℤ → Route
  reservoirs : Resource CreateReservoir UpdateReservoir → Route
  gates : Resource CreateGateUnit UpdateGateUnit → Route
  directives : Resource CreateOperationDirective UpdateOperationDirective → Route
  confirmations : Resource CreateExecutionConfirmation UpdateExecutionConfirmation → Route

-- The path of a resource below that of its group.
abbrev resource_path : {C U : Type 0} → Resource C U → String
resource_path (Resource.list query) = ""
resource_path (Resource.get raw) = "/:id"
resource_path (Resource.create body) = ""
resource_path (Resource.update raw body) = "/:id"
resource_path (Resource.transition raw body) = "/:id/transition"
resource_path (Resource.remove raw) = "/:id"

-- `c.FullPath()`
abbrev pub full_path : Route → String
full_path overview = "/api/overview"
full_path session = "/api/session"
full_path runtime = "/api/runtime"
full_path (audits query) = "/api/audits"
full_path (audit_summary hours) = "/api/audit-summary"
full_path (entity_history entity_type raw limit) = "/api/audits/:entityType/:id"
full_path (reservoirs x) = String.◌++◌ "/api/reservoirs" (resource_path x)
full_path (gates x) = String.◌++◌ "/api/gates" (resource_path x)
full_path (directives x) = String.◌++◌ "/api/directives" (resource_path x)
full_path (confirmations x) = String.◌++◌ "/api/confirmations" (resource_path x)

module _ (u : Unicode) (p : Platform) (r : Reads p.World) (lib : Library) (cfg : Config) where
  unfoldable pub route : Route → Context → Handler p.World
  route overview c = System.overview p r lib cfg
  route session c = λ w. (System.session c, w)
  route runtime c = System.runtime p r lib cfg
  route (audits query) c = guarded ("reviewer" ∷ "admin" ∷ []) c (System.audits p r lib cfg query)
  route (audit_summary hours) c =
      guarded ("reviewer" ∷ "admin" ∷ []) c (System.audit_summary p r lib cfg hours)
  route (entity_history entity_type raw limit) c =
      guarded ("reviewer" ∷ "admin" ∷ []) c
        (System.entity_history p r lib cfg entity_type raw limit)
  route (reservoirs x) c = Reservoir.register u p r lib c x
  route (gates x) c = Gate.register u p r lib c x
  route (directives x) c = Directive.register u p r lib c x
  route (confirmations x) c = Confirmation.register u p r lib c x
