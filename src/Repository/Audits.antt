-- ===== src/Repository/Audits.antt =====
-- backend/internal/repository/security.go: the reports on the audit log.
pub mod Laws
use gb_516_hydropower_gate_d.Prelude.{ℕ, String, List, ◌=ˢ◌}
use gb_516_hydropower_gate_d.Ints.{ℤ}
use gb_516_hydropower_gate_d.Exec.{Exec, pure, ◌>>=◌}
use gb_516_hydropower_gate_d.Model.{AuditLog, AuditSummary}
use gb_516_hydropower_gate_d.Platform.Reads.{Reads}
use gb_516_hydropower_gate_d.Repository.Lists.{pattern_of, page_offset}
use gb_516_hydropower_gate_d.Web.Queries.{normalize_page, history_limit}

module _ {World : Type 0} (r : Reads World) where
  unfoldable pub list_audits : ℤ → ℤ → String → Exec World (List AuditLog × ℕ)
  list_audits page page_size search = do
    let bounds = normalize_page (page, page_size)
    total ← r.count_audits (pattern_of search)
    logs ← r.find_audits (pattern_of search) (page_offset bounds.0 bounds.1) bounds.1
    pure (logs, total)

  unfoldable pub summarize_audits : ℕ → Exec World AuditSummary
  summarize_audits since = do
    total ← r.count_since since
    transitions ← r.count_transitions_since since
    unique_actors ← r.count_actors_since since
    actions ← r.group_actions_since since
    entity_types ← r.group_entities_since since
    pure (record {
      since = since;
      total = total;
      transitions = transitions;
      unique_actors = unique_actors;
      actions = actions;
      entity_types = entity_types;
    })

  unfoldable pub entity_history : String → ℕ → ℤ → Exec World (List AuditLog)
  entity_history entity_type id limit = r.find_history entity_type id (history_limit limit)
