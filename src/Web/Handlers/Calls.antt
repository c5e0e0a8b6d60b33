-- ===== src/Web/Handlers/Calls.antt =====
-- What the four handlers of records have in common: each asks the service of its record type, and the
-- routes differ in the roles of the transition only.
pub mod Effects
pub mod Decisions
pub mod Reservoir
pub mod Gate
pub mod Directive
pub mod Confirmation
use gb_516_hydropower_gate_d.Prelude.{ℕ, String, ◌≡◌, Option, List, [], ◌∷◌, ◌=ˢ◌}
use gb_516_hydropower_gate_d.Exec.{Exec}
use gb_516_hydropower_gate_d.Text.{Unicode}
use gb_516_hydropower_gate_d.Dto.{TransitionRequest, PageQuery}
use gb_516_hydropower_gate_d.Platform.{Platform}
use gb_516_hydropower_gate_d.Platform.Reads.{IsRead}
use gb_516_hydropower_gate_d.Platform.Library.{Library}
use gb_516_hydropower_gate_d.Repository.Lists.{Page}
use gb_516_hydropower_gate_d.System.Serve.{Caller, Request, world_after, serve}
use gb_516_hydropower_gate_d.Web.Access.{require_roles}
use gb_516_hydropower_gate_d.Web.Http.{
  Context, Payload, Handler, ok_with, created, no_content, respond, with_body, with_id,
  unless_forbidden, guarded, positive, bound_query, actor_from_context, role_from_context,
}
use gb_516_hydropower_gate_d.Web.Handlers.Effects.{caller_of}
use gb_516_hydropower_gate_d.Web.Handlers.Exact.{Requests}
use gb_516_hydropower_gate_d.Web.Handlers.Resource.{Resource}
use gb_516_hydropower_gate_d.Web.Routes.{may_ask}

-- The service of a record type `T`, and how its answers are written.
pub record Calls (World C U T : Type 0) : Type 0 where
  pub list : PageQuery → Exec World (Page T)
  pub get : ℕ → Exec World T
  pub create : C → Caller → Exec World T
  pub update : ℕ → U → Caller → Exec World T
  pub transition : ℕ → TransitionRequest → Caller → Exec World T
  pub delete : ℕ → Caller → Exec World (Unit {0})
  pub item : T → Payload
  pub page : Page T → Payload
  pub transition_roles : List String

-- A service reads, or does what the server does for a request; and a route asks for the roles that may
-- ask for its request.
pub record CallLaws (u : Unicode) (p : Platform) {C U T : Type 0} (q : Requests C U)
    (k : Calls p.World C U T) : Type 0 where
  pub list_law : (query : PageQuery) → IsRead p.view (k.list query)
  pub get_law : (id : ℕ) → IsRead p.view (k.get id)
  pub create_law :
      (input : C) (c : Caller) (w : p.World)
      → world_after (k.create input c w) ≡ serve u p c (q.create input) w
  pub update_law :
      (id : ℕ) (input : U) (c : Caller) (w : p.World)
      → world_after (k.update id input c w) ≡ serve u p c (q.update id input) w
  pub transition_law :
      (id : ℕ) (input : TransitionRequest) (c : Caller) (w : p.World)
      → world_after (k.transition id input c w) ≡ serve u p c (q.transition id input) w
  pub delete_law :
      (id : ℕ) (c : Caller) (w : p.World)
      → world_after (k.delete id c w) ≡ serve u p c (q.delete id) w
  pub create_roles :
      (role : String) (input : C)
      → require_roles ("operator" ∷ "admin" ∷ []) role ≡ may_ask role (q.create input)
  pub update_roles :
      (role : String) (id : ℕ) (input : U)
      → require_roles ("operator" ∷ "admin" ∷ []) role ≡ may_ask role (q.update id input)
  pub transition_roles :
      (role : String) (id : ℕ) (input : TransitionRequest)
      → require_roles k.transition_roles role ≡ may_ask role (q.transition id input)
  pub delete_roles :
      (role : String) (id : ℕ) → require_roles ("admin" ∷ []) role ≡ may_ask role (q.delete id)

module _ {World C U T : Type 0} (lib : Library) (k : Calls World C U T) where
  abbrev pub create : Context → Option C → Handler World
  create c body =
      with_body body
        (λ input. respond (λ item. created (k.item item)) (k.create input (caller_of c)))

  abbrev pub update : Context → String → Option U → Handler World
  update c raw body = with_id (positive (lib.parse_uint raw)) (λ id.
      with_body body
        (λ input. respond (λ item. ok_with (k.item item)) (k.update id input (caller_of c))))

  abbrev pub transition : Context → String → Option TransitionRequest → Handler World
  transition c raw body = with_id (positive (lib.parse_uint raw)) (λ id.
      with_body body
        (λ input. respond (λ item. ok_with (k.item item)) (k.transition id input (caller_of c))))

  abbrev pub remove : Context → String → Handler World
  remove c raw = unless_forbidden (role_from_context c =ˢ "admin") (
      with_id (positive (lib.parse_uint raw))
        (λ id. respond (λ done. no_content) (k.delete id (caller_of c))))

  -- The routes of a record type.
  abbrev pub answer : Context → Resource C U → Handler World
  answer c (Resource.list query) =
      respond (λ page. ok_with (k.page page)) (k.list (bound_query query))
  answer c (Resource.get raw) =
      with_id (positive (lib.parse_uint raw))
        (λ id. respond (λ item. ok_with (k.item item)) (k.get id))
  answer c (Resource.create body) = guarded ("operator" ∷ "admin" ∷ []) c (create c body)
  answer c (Resource.update raw body) = guarded ("operator" ∷ "admin" ∷ []) c (update c raw body)
  answer c (Resource.transition raw body) = guarded k.transition_roles c (transition c raw body)
  answer c (Resource.remove raw) = guarded ("admin" ∷ []) c (remove c raw)
