-- ===== src/Repository/Audits/Laws.antt =====
-- What the reports of backend/internal/repository/security.go do to the tables.
use gb_516_hydropower_gate_d.Prelude.{ℕ, String}
use gb_516_hydropower_gate_d.Ints.{ℤ}
use gb_516_hydropower_gate_d.Platform.Schema.{Tables}
use gb_516_hydropower_gate_d.Platform.Reads.{Reads, ReadLaws, IsRead}
use gb_516_hydropower_gate_d.Repository.Lists.Laws.{pure-IsRead, bind-IsRead}
use gb_516_hydropower_gate_d.Repository.Audits

module _ {World : Type 0} (view : World → Tables) (r : Reads World) (reads : ReadLaws view r) where
  pub list_audits-IsRead :
      (page page_size : ℤ) (search : String)
      → IsRead view (Audits.list_audits r page page_size search)
  unfolding Audits.list_audits
  list_audits-IsRead page page_size search =
      bind-IsRead view _ _ (reads.count_audits_law _) (λ total.
        bind-IsRead view _ _ (reads.find_audits_law _ _ _) (λ logs. pure-IsRead view (logs, total)))

  pub summarize_audits-IsRead : (since : ℕ) → IsRead view (Audits.summarize_audits r since)
  unfolding Audits.summarize_audits
  summarize_audits-IsRead since = bind-IsRead view _ _ (reads.count_since_law since) (λ total.
      bind-IsRead view _ _ (reads.count_transitions_since_law since) (λ transitions.
        bind-IsRead view _ _ (reads.count_actors_since_law since) (λ unique_actors.
          bind-IsRead view _ _ (reads.group_actions_since_law since) (λ actions.
            bind-IsRead view _ _ (reads.group_entities_since_law since)
              (λ entity_types. pure-IsRead view _)))))

  pub entity_history-IsRead :
      (entity_type : String) (id : ℕ) (limit : ℤ)
      → IsRead view (Audits.entity_history r entity_type id limit)
  unfolding Audits.entity_history
  entity_history-IsRead entity_type id limit = reads.find_history_law entity_type id _
