-- ===== src/Service/Security/Laws.antt =====
-- What `Audit` does: one more entry at the head of the trail.
use gb_516_hydropower_gate_d.Prelude.{ℕ, String, ◌≡◌, ◌∙◌, false, ◌||◌, ◌∷◌, ◌=ˢ◌}
use gb_516_hydropower_gate_d.Exec.{After, bind-After, After-map}
use gb_516_hydropower_gate_d.Model.{AuditLog}
use gb_516_hydropower_gate_d.Platform.{Platform, PlatformLaws}
use gb_516_hydropower_gate_d.Platform.Schema.{Tables}
use gb_516_hydropower_gate_d.Repository.Store.Laws.{AnyError}
use gb_516_hydropower_gate_d.Service.Security.{audit_entry, audit}

-- The trail of `v'` is that of `v` with one more entry, and the tables are otherwise the same.
pub record Audited (entry : ℕ → AuditLog) (v v' : Tables) : Type 0 where
  pub id : ℕ
  pub time : ℕ
  pub audited : v' ≡ record v { audits = record (entry time) { id = id } ∷ v.audits }

module _ (p : Platform) (laws : PlatformLaws p) where
  pub create_audit-After :
      (entry : AuditLog) (v : Tables) (w : p.World)
      → p.view w ≡ v
      → After (λ _ w'. Audited (λ _. entry) v (p.view w')) AnyError (p.create_audit entry w)
  create_audit-After entry v w h =
      After-map _ (laws.create_audit_law entry w)
        (λ _ w' q. record { id = q.0; time = 0; audited = rw (← h) q.1 }) (λ _ _ _. tt)

  pub audit-After :
      (actor request_id action entity_type : String) (entity_id : ℕ) (before after detail : String)
      (v : Tables) (w : p.World)
      → (action =ˢ "" || entity_type =ˢ "") ≡ false
      → p.view w ≡ v
      → After
          (λ _ w'.
            Audited
              (audit_entry actor request_id action entity_type entity_id before after detail)
              v
              (p.view w'))
          AnyError
          (audit p actor request_id action entity_type entity_id before after detail w)
  unfolding audit
  audit-After actor request_id action entity_type entity_id before after detail v w named h =
      rw named (
        bind-After _ _ _ (After-map _ (laws.now_law w) (λ n w' q. q) (λ _ _ _. tt)) λ time w' q.
          After-map _
            (create_audit-After
              (audit_entry actor request_id action entity_type entity_id before after detail time) v
              w' (q ∙ h))
            (λ _ _ a. record { id = a.id; time = time; audited = a.audited }) (λ _ _ _. tt))
