-- ===== src/Service/Security.antt =====
-- backend/internal/service/security.go: audit entries.
pub mod Laws
use gb_516_hydropower_gate_d.Prelude.{ℕ, String, ◌||◌, ◌=ˢ◌, if◌then◌else◌}
use gb_516_hydropower_gate_d.Exec.{Exec, raise, audit_fields_required, ◌>>=◌}
use gb_516_hydropower_gate_d.Model.{AuditLog}
use gb_516_hydropower_gate_d.Platform.{Platform}

-- The entry that `Audit` appends; the database gives it its id.
abbrev pub audit_entry :
    String → String → String → String → ℕ → String → String → String → ℕ → AuditLog
audit_entry actor request_id action entity_type entity_id before after detail time = record {
  id = 0;
  request_id = if request_id =ˢ "" then "untracked" else request_id;
  actor = if actor =ˢ "" then "system" else actor;
  action = action;
  entity_type = entity_type;
  entity_id = entity_id;
  before_state = before;
  after_state = after;
  detail = detail;
  created_at = time;
}

module _ (p : Platform) where
  unfoldable pub audit :
      String → String → String → String → ℕ → String → String → String → Exec p.World (Unit {0})
  audit actor request_id action entity_type entity_id before after detail =
      if action =ˢ "" || entity_type =ˢ "" then raise audit_fields_required else do
        time ← p.now
        p.create_audit
            (audit_entry actor request_id action entity_type entity_id before after detail time)
