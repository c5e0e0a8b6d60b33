-- ===== src/Web/Handlers/Reservoir.antt =====
-- backend/internal/handler/reservoir.go. A body is what Gin binds, if it binds.
use gb_516_hydropower_gate_d.Prelude.{String, Option, [], ◌∷◌, ◌=ˢ◌}
use gb_516_hydropower_gate_d.Text.{Unicode}
use gb_516_hydropower_gate_d.Dto.{CreateReservoir, UpdateReservoir, TransitionRequest, PageQuery}
use gb_516_hydropower_gate_d.Platform.{Platform}
use gb_516_hydropower_gate_d.Platform.Reads.{Reads}
use gb_516_hydropower_gate_d.Platform.Library.{Library}
use gb_516_hydropower_gate_d.Repository.Lists
use gb_516_hydropower_gate_d.Repository.Store
use gb_516_hydropower_gate_d.Service.Reservoir
use gb_516_hydropower_gate_d.Web.Http.{
  Context, Payload, Handler, ok_with, created, no_content, respond, with_body, with_id,
  unless_forbidden, guarded, positive, bound_query, actor_from_context, role_from_context,
}
use gb_516_hydropower_gate_d.Web.Handlers.Resource.{Resource}

module _ (u : Unicode) (p : Platform) (r : Reads p.World) (lib : Library) where
  unfoldable pub list : PageQuery → Handler p.World
  list query =
      respond (λ page. ok_with (Payload.reservoir_page page))
        (Lists.list r.reservoirs u (bound_query query))

  unfoldable pub get : String → Handler p.World
  get raw =
      with_id (positive (lib.parse_uint raw))
        (λ id. respond (λ item. ok_with (Payload.reservoir item)) (Store.get p p.reservoirs id))

  unfoldable pub create : Context → Option CreateReservoir → Handler p.World
  create c body = with_body body (λ input.
      respond (λ item. created (Payload.reservoir item))
        (Reservoir.create u p input (actor_from_context c) c.request_id))

  unfoldable pub update : Context → String → Option UpdateReservoir → Handler p.World
  update c raw body = with_id (positive (lib.parse_uint raw)) (λ id. with_body body (λ input.
      respond (λ item. ok_with (Payload.reservoir item))
        (Reservoir.update u p id input (actor_from_context c) c.request_id)))

  unfoldable pub transition : Context → String → Option TransitionRequest → Handler p.World
  transition c raw body = with_id (positive (lib.parse_uint raw)) (λ id. with_body body (λ input.
      respond (λ item. ok_with (Payload.reservoir item))
        (Reservoir.transition u p id input (actor_from_context c) c.request_id)))

  unfoldable pub remove : Context → String → Handler p.World
  remove c raw = unless_forbidden (role_from_context c =ˢ "admin") (
      with_id (positive (lib.parse_uint raw)) (λ id.
        respond (λ done. no_content) (Reservoir.delete u p id (actor_from_context c) c.request_id)))

  -- `Register`: the routes, and the roles that they ask for.
  unfoldable pub register : Context → Resource CreateReservoir UpdateReservoir → Handler p.World
  register c (Resource.list query) = list query
  register c (Resource.get raw) = get raw
  register c (Resource.create body) = guarded ("operator" ∷ "admin" ∷ []) c (create c body)
  register c (Resource.update raw body) = guarded ("operator" ∷ "admin" ∷ []) c (update c raw body)
  register c (Resource.transition raw body) =
      guarded ("operator" ∷ "admin" ∷ []) c (transition c raw body)
  register c (Resource.remove raw) = guarded ("admin" ∷ []) c (remove c raw)
