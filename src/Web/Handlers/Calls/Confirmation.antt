-- ===== src/Web/Handlers/Calls/Confirmation.antt =====
-- The calls of execution_confirmation.go of backend/internal/handler.
use gb_516_hydropower_gate_d.Prelude.{String, ◌≡◌, refl, sym, subst, some, [], ◌∷◌, ◌=ˢ◌}
use gb_516_hydropower_gate_d.Text.{Unicode, trim_space}
use gb_516_hydropower_gate_d.Constants.{contains}
use gb_516_hydropower_gate_d.Model.{ExecutionConfirmation}
use gb_516_hydropower_gate_d.Dto.{CreateExecutionConfirmation, UpdateExecutionConfirmation}
use gb_516_hydropower_gate_d.Platform.{Platform, PlatformLaws}
use gb_516_hydropower_gate_d.Platform.Schema.{confirmation_entity}
use gb_516_hydropower_gate_d.Platform.Reads.{Reads, ReadLaws}
use gb_516_hydropower_gate_d.Platform.Library.{Library}
use gb_516_hydropower_gate_d.Repository.Lists
use gb_516_hydropower_gate_d.Repository.Lists.Laws.{get-IsRead, list-IsRead}
use gb_516_hydropower_gate_d.Repository.Store
use gb_516_hydropower_gate_d.Service.Confirmation as Service
use gb_516_hydropower_gate_d.System.Serve.{Request, serve}
use gb_516_hydropower_gate_d.Web.Access.{Principal, require_roles}
use gb_516_hydropower_gate_d.Web.Http.{Context, context_of, Payload, Handler}
use gb_516_hydropower_gate_d.Web.Handlers.Confirmation as Handlers
use gb_516_hydropower_gate_d.Web.Handlers.Resource.{Resource}
use gb_516_hydropower_gate_d.Web.Handlers.Calls.{Calls, CallLaws, answer}
use gb_516_hydropower_gate_d.Web.Handlers.Calls.Effects.{answer-Effect}
use gb_516_hydropower_gate_d.Web.Handlers.Calls.Decisions.{answer-IsDecided}
use gb_516_hydropower_gate_d.Web.Handlers.Effects.{Effect}
use gb_516_hydropower_gate_d.Web.Handlers.Exact.{
  Requests, requested, decided, writer_exact, admin_exact,
}

abbrev pub requests : Requests CreateExecutionConfirmation UpdateExecutionConfirmation
requests = record {
  create = Request.create_confirmation;
  update = Request.update_confirmation;
  transition = Request.transition_confirmation;
  delete = Request.delete_confirmation;
}

module _ (u : Unicode) (p : Platform) (laws : PlatformLaws p) (r : Reads p.World)
    (reads : ReadLaws p.view r) (lib : Library) where
  abbrev calls :
      Calls p.World CreateExecutionConfirmation UpdateExecutionConfirmation ExecutionConfirmation
  calls = record {
    list = λ query. Lists.list r.confirmations u query;
    get = λ id. Store.get p p.confirmations id;
    create = λ input c. Service.create u p input c.actor c.request_id;
    update = λ id input c. Service.update u p id input c.actor c.request_id;
    transition = λ id input c. Service.transition u p id input c.actor c.request_id;
    delete = λ id c. Service.delete u p id c.actor c.request_id;
    item = Payload.confirmation;
    page = Payload.confirmation_page;
    transition_roles = "operator" ∷ "admin" ∷ [];
  }

  call_laws : CallLaws u p requests calls
  unfolding serve require_roles contains
  call_laws = record {
    list_law = list-IsRead p.view r.confirmations reads.confirmation_laws u;
    get_law = get-IsRead p confirmation_entity p.confirmations laws.confirmation_laws;
    create_law = λ input c w. refl;
    update_law = λ id input c w. refl;
    transition_law = λ id input c w. refl;
    delete_law = λ id c w. refl;
    create_roles =
        λ role input. writer_exact (role =ˢ "admin") (role =ˢ "operator") (role =ˢ "reviewer");
    update_roles =
        λ role id input. writer_exact (role =ˢ "admin") (role =ˢ "operator") (role =ˢ "reviewer");
    transition_roles =
        λ role id input. writer_exact (role =ˢ "admin") (role =ˢ "operator") (role =ˢ "reviewer");
    delete_roles =
        λ role id. admin_exact (role =ˢ "admin") (role =ˢ "operator") (role =ˢ "reviewer");
  }

  -- The handler is this instance.
  register-answer :
      (c : Context) (x : Resource CreateExecutionConfirmation UpdateExecutionConfirmation)
      → Handlers.register u p r lib c x ≡ answer lib calls c x
  unfolding Handlers.register Handlers.list Handlers.get Handlers.create Handlers.update
      Handlers.transition Handlers.remove
  register-answer c (Resource.list query) = refl
  register-answer c (Resource.get raw) = refl
  register-answer c (Resource.create body) = refl
  register-answer c (Resource.update raw body) = refl
  register-answer c (Resource.transition raw body) = refl
  register-answer c (Resource.remove raw) = refl

  pub register-Effect :
      (c : Context) (x : Resource CreateExecutionConfirmation UpdateExecutionConfirmation)
      (w : p.World)
      → Effect u p c w (Handlers.register u p r lib c x w).1
  register-Effect c x w =
      subst (λ (h : Handler p.World). Effect u p c w (h w).1) (sym (register-answer c x))
        (answer-Effect u p requests calls call_laws lib c w x)

  pub register-IsDecided :
      (pr : Principal) (id : String) (w : p.World)
      (x : Resource CreateExecutionConfirmation UpdateExecutionConfirmation) (request : Request)
      → trim_space pr.role ≡ pr.role
      → requested lib requests x ≡ some request
      → (Handlers.register u p r lib (context_of pr id) x w).1
        ≡ decided u p (context_of pr id) pr.role request w
  register-IsDecided pr id w x request trimmed e =
      subst (λ (h : Handler p.World). (h w).1 ≡ decided u p (context_of pr id) pr.role request w)
        (sym (register-answer (context_of pr id) x))
        (answer-IsDecided u p requests calls call_laws lib pr id w x request trimmed e)
