-- ===== src/Web/Handlers/Calls/Effects.antt =====
-- The effects of the routes of a record type, in backend/internal/handler.
use gb_516_hydropower_gate_d.Prelude.{String, ◌≡◌, refl, sym, ◌∙◌, inl, Option, List, [], ◌∷◌, ◌=ˢ◌}
use gb_516_hydropower_gate_d.Text.{Unicode}
use gb_516_hydropower_gate_d.Dto.{TransitionRequest}
use gb_516_hydropower_gate_d.Platform.{Platform}
use gb_516_hydropower_gate_d.Platform.Library.{Library}
use gb_516_hydropower_gate_d.Web.Access.{require_roles}
use gb_516_hydropower_gate_d.Web.Http.{Context, positive, bound_query, role_from_context}
use gb_516_hydropower_gate_d.Web.Handlers.Calls
use gb_516_hydropower_gate_d.Web.Handlers.Exact.{Requests}
use gb_516_hydropower_gate_d.Web.Handlers.Resource.{Resource}
use gb_516_hydropower_gate_d.Web.Handlers.Effects.{
  HasRole, Permits, Effect, caller_of, with_body_keeps, with_id_keeps, unless_forbidden_keeps,
  guarded-Effect, read-Effect, served-Effect,
}
use gb_516_hydropower_gate_d.System.Serve.{Request}
use gb_516_hydropower_gate_d.Web.Routes.{may_ask}

-- The roles of a route permit its request.
HasRole-Permits :
    (c : Context) (roles : List String) (request : Request)
    → ((role : String) → require_roles roles role ≡ may_ask role request)
    → HasRole c roles
    → Permits c request
HasRole-Permits c roles request same (role, e, h) = (role, e, sym (same role) ∙ h)

module _ (u : Unicode) (p : Platform) {C U T : Type 0} (q : Requests C U)
    (k : Calls.Calls p.World C U T) (laws : Calls.CallLaws u p q k) (lib : Library) (c : Context)
    (w : p.World) where
  create-Effect :
      (body : Option C)
      → HasRole c ("operator" ∷ "admin" ∷ [])
      → Effect u p c w (Calls.create lib k c body w).1
  create-Effect body role = with_body_keeps (Effect u p c w) body _ w (inl refl) (λ input.
      served-Effect u p (q.create input) _ _ c w
        (HasRole-Permits c _ (q.create input) (λ r. laws.create_roles r input) role)
        (laws.create_law input (caller_of c) w))

  update-Effect :
      (raw : String) (body : Option U)
      → HasRole c ("operator" ∷ "admin" ∷ [])
      → Effect u p c w (Calls.update lib k c raw body w).1
  update-Effect raw body role =
      with_id_keeps (Effect u p c w) (positive (lib.parse_uint raw)) _ w (inl refl) (λ id.
        with_body_keeps (Effect u p c w) body _ w (inl refl) (λ input.
          served-Effect u p (q.update id input) _ _ c w
            (HasRole-Permits c _ (q.update id input) (λ r. laws.update_roles r id input) role)
            (laws.update_law id input (caller_of c) w)))

  transition-Effect :
      (raw : String) (body : Option TransitionRequest)
      → HasRole c k.transition_roles
      → Effect u p c w (Calls.transition lib k c raw body w).1
  transition-Effect raw body role =
      with_id_keeps (Effect u p c w) (positive (lib.parse_uint raw)) _ w (inl refl) (λ id.
        with_body_keeps (Effect u p c w) body _ w (inl refl) (λ input.
          served-Effect u p (q.transition id input) _ _ c w
            (HasRole-Permits c _ (q.transition id input) (λ r. laws.transition_roles r id input)
              role)
            (laws.transition_law id input (caller_of c) w)))

  remove-Effect :
      (raw : String) → HasRole c ("admin" ∷ []) → Effect u p c w (Calls.remove lib k c raw w).1
  remove-Effect raw role =
      unless_forbidden_keeps (Effect u p c w) (role_from_context c =ˢ "admin") _ w (inl refl) (λ _.
        with_id_keeps (Effect u p c w) (positive (lib.parse_uint raw)) _ w (inl refl) (λ id.
          served-Effect u p (q.delete id) _ _ c w
            (HasRole-Permits c _ (q.delete id) (λ r. laws.delete_roles r id) role)
            (laws.delete_law id (caller_of c) w)))

  pub answer-Effect : (x : Resource C U) → Effect u p c w (Calls.answer lib k c x w).1
  answer-Effect (Resource.list query) =
      read-Effect u p _ (k.list (bound_query query)) c w (laws.list_law (bound_query query))
  answer-Effect (Resource.get raw) =
      with_id_keeps (Effect u p c w) (positive (lib.parse_uint raw)) _ w (inl refl)
        (λ id. read-Effect u p _ (k.get id) c w (laws.get_law id))
  answer-Effect (Resource.create body) = guarded-Effect u p _ c _ w (create-Effect body)
  answer-Effect (Resource.update raw body) = guarded-Effect u p _ c _ w (update-Effect raw body)
  answer-Effect (Resource.transition raw body) =
      guarded-Effect u p _ c _ w (transition-Effect raw body)
  answer-Effect (Resource.remove raw) = guarded-Effect u p _ c _ w (remove-Effect raw)
