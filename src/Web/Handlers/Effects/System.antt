-- ===== src/Web/Handlers/Effects/System.antt =====
-- What the handlers of backend/internal/handler/system.go do to the tables.
use gb_516_hydropower_gate_d.Prelude.{
  ℕ, String, ◌≡◌, refl, Option, ◌||◌, ◌=ˢ◌, ltb, Bool-cases, inl, inr,
}
use gb_516_hydropower_gate_d.Ints.{ℤ}
use gb_516_hydropower_gate_d.Exec.{Result, ok, err, After}
use gb_516_hydropower_gate_d.Text.{trim_space}
use gb_516_hydropower_gate_d.Dto.{PageQuery, LoginRequest, LoginResponse}
use gb_516_hydropower_gate_d.Platform.{Platform, PlatformLaws}
use gb_516_hydropower_gate_d.Platform.Reads.{Reads, ReadLaws}
use gb_516_hydropower_gate_d.Platform.Library.{Library}
use gb_516_hydropower_gate_d.Repository.Lists.{count_by_status}
use gb_516_hydropower_gate_d.Repository.Lists.Laws.{pure-IsRead, bind-IsRead}
use gb_516_hydropower_gate_d.Repository.Audits.Laws.{list_audits-IsRead}
use gb_516_hydropower_gate_d.Service.Login
use gb_516_hydropower_gate_d.Service.Login.Laws.{
  login-IsRead, audit_summary-IsRead, audit_history-IsRead,
}
use gb_516_hydropower_gate_d.Web.Config.{Config}
use gb_516_hydropower_gate_d.Web.Http.{Handler, positive}
use gb_516_hydropower_gate_d.Web.Handlers.System
use gb_516_hydropower_gate_d.Web.Handlers.Effects.{
  respond_with_same, with_body_keeps, with_id_keeps,
}
use gb_516_hydropower_gate_d.Web.RequestId.{byte_length}

module _ (p : Platform) (laws : PlatformLaws p) (r : Reads p.World) (reads : ReadLaws p.view r)
    (lib : Library) (cfg : Config) where
  -- The tables are the same when the handler has answered.
  abbrev pub Looks : Handler p.World → Type 0
  Looks h = (w : p.World) → p.view (h w).1 ≡ p.view w

  answer_login_same :
      (w : p.World) (x : Result LoginResponse × p.World)
      → After (λ _ w'. p.view w' ≡ p.view w) (λ _ w'. p.view w' ≡ p.view w) x
      → p.view (System.answer_login p r lib cfg x).1 ≡ p.view w
  answer_login_same w (ok token, w') h = h.holds
  answer_login_same w (err e, w') h = h.holds

  pub login-Looks : (body : Option LoginRequest) → Looks (System.login p r lib cfg body)
  unfolding System.login
  login-Looks body w =
      with_body_keeps (λ w'. p.view w' ≡ p.view w) body _ w refl
        (λ input.
          answer_login_same w (Login.login p r lib cfg input w)
            (login-IsRead p laws r reads lib cfg input w))

  pub health-Looks : Looks (System.health p r lib cfg)
  unfolding System.health
  health-Looks w = refl

  pub overview-Looks : Looks (System.overview p r lib cfg)
  unfolding System.overview count_by_status
  overview-Looks w = respond_with_same p.view (p.view w) _ _ (
      bind-IsRead p.view _ _ reads.reservoir_laws.count_by_status_law
        (λ reservoirs. bind-IsRead p.view _ _ reads.gate_laws.count_by_status_law (λ gates.
          bind-IsRead p.view _ _ reads.directive_laws.count_by_status_law (λ directives.
            bind-IsRead p.view _ _ reads.confirmation_laws.count_by_status_law
              (λ confirmations. pure-IsRead p.view _))))
        w)

  pub audits-Looks : (query : PageQuery) → Looks (System.audits p r lib cfg query)
  unfolding System.audits
  audits-Looks query w =
      respond_with_same p.view (p.view w) _ _ (list_audits-IsRead p.view r reads _ _ _ w)

  pub runtime-Looks : Looks (System.runtime p r lib cfg)
  unfolding System.runtime
  runtime-Looks w = refl

  pub audit_summary-Looks : (hours : ℤ) → Looks (System.audit_summary p r lib cfg hours)
  unfolding System.audit_summary
  audit_summary-Looks hours w =
      respond_with_same p.view (p.view w) _ _ (audit_summary-IsRead p laws r reads lib cfg _ w)

  named_history-Looks :
      (entity_type : String) (id : ℕ) (limit : ℤ)
      → Looks (System.named_history p r lib cfg entity_type id limit)
  named_history-Looks entity_type id limit w =
      elim (Bool-cases (entity_type =ˢ "" || ltb 80 (byte_length entity_type))) [
        | inl bad ↦ rw bad refl
        | inr good ↦ rw good (
            respond_with_same p.view (p.view w) _ _
              (audit_history-IsRead p laws r reads lib cfg entity_type id _ w))
      ]

  pub entity_history-Looks :
      (entity_type raw : String) (limit : ℤ)
      → Looks (System.entity_history p r lib cfg entity_type raw limit)
  unfolding System.entity_history
  entity_history-Looks entity_type raw limit w =
      with_id_keeps (λ w'. p.view w' ≡ p.view w) (positive (lib.parse_uint raw)) _ w refl
        (λ id. named_history-Looks (trim_space entity_type) id limit w)
