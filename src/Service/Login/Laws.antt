-- ===== src/Service/Login/Laws.antt =====
-- What a login and the reports of backend/internal/service/security.go do to the tables.
use gb_516_hydropower_gate_d.Prelude.{
  ℕ, String, refl, Bool, true, false, not, ◌||◌, ◌==◌, ◌=ˢ◌, Option, none, some, if◌then◌else◌,
}
use gb_516_hydropower_gate_d.Ints.{ℤ}
use gb_516_hydropower_gate_d.Exec.{Error, Exec, raise}
use gb_516_hydropower_gate_d.Model.{User}
use gb_516_hydropower_gate_d.Dto.{LoginRequest}
use gb_516_hydropower_gate_d.Platform.{Platform, PlatformLaws}
use gb_516_hydropower_gate_d.Platform.Schema.{Tables}
use gb_516_hydropower_gate_d.Platform.Reads.{Reads, ReadLaws, IsRead}
use gb_516_hydropower_gate_d.Platform.Library.{Library}
use gb_516_hydropower_gate_d.Repository.Lists.Laws.{pure-IsRead, bind-IsRead}
use gb_516_hydropower_gate_d.Repository.Audits.Laws.{summarize_audits-IsRead, entity_history-IsRead}
use gb_516_hydropower_gate_d.Service.Login
use gb_516_hydropower_gate_d.Web.Config.{Config}

module _ {World : Type 0} (view : World → Tables) where
  raise-IsRead : {A : Type 0} (e : Error) → IsRead {World = World} view (raise {A = A} e)
  raise-IsRead e w = record { holds = refl }

  unless-IsRead :
      {A : Type 0} (b : Bool) (m k : Exec World A)
      → IsRead view m
      → IsRead view k
      → IsRead view (if b then m else k)
  unless-IsRead true m k f g = f
  unless-IsRead false m k f g = g

module _ (p : Platform) (laws : PlatformLaws p) (r : Reads p.World) (reads : ReadLaws p.view r)
    (lib : Library) (cfg : Config) where
  answer_login-IsRead :
      (user : User) (o : Option String) → IsRead p.view (Login.answer_login p r lib cfg user o)
  answer_login-IsRead user none = raise-IsRead p.view _
  answer_login-IsRead user (some token) = pure-IsRead p.view _

  login_as-IsRead :
      (input : LoginRequest) (o : Option User) → IsRead p.view (Login.login_as p r lib cfg input o)
  login_as-IsRead input none = raise-IsRead p.view _
  login_as-IsRead input (some user) =
      unless-IsRead p.view (not (lib.matches_password user.password_hash input.password)) _ _
        (raise-IsRead p.view _)
        (unless-IsRead p.view (not user.active) _ _ (raise-IsRead p.view _)
          (bind-IsRead p.view _ _ laws.now_law (λ now. answer_login-IsRead user _)))

  pub login-IsRead : (input : LoginRequest) → IsRead p.view (Login.login p r lib cfg input)
  unfolding Login.login
  login-IsRead input w = login_as-IsRead input (r.find_user w input.username) w

  pub audit_summary-IsRead : (window : ℤ) → IsRead p.view (Login.audit_summary p r lib cfg window)
  unfolding Login.audit_summary
  audit_summary-IsRead window =
      bind-IsRead p.view _ _ laws.now_law (λ now. summarize_audits-IsRead p.view r reads _)

  pub audit_history-IsRead :
      (entity_type : String) (id : ℕ) (limit : ℤ)
      → IsRead p.view (Login.audit_history p r lib cfg entity_type id limit)
  unfolding Login.audit_history
  audit_history-IsRead entity_type id limit =
      unless-IsRead p.view (id == 0 || entity_type =ˢ "") _ _ (raise-IsRead p.view _)
        (entity_history-IsRead p.view r reads entity_type id limit)
