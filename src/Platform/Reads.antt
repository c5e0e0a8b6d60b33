-- ===== src/Platform/Reads.antt =====
-- The statements that only read, as parameters: lists, counts and reports. A search pattern or a
-- state that is left out does not restrict a selection.
use gb_516_hydropower_gate_d.Prelude.{ℕ, String, ◌≡◌, Bool, true, Option, some, List}
use gb_516_hydropower_gate_d.Ints.{ℤ}
use gb_516_hydropower_gate_d.Exec.{Exec, After}
use gb_516_hydropower_gate_d.Model.{
  Reservoir, GateUnit, OperationDirective, ExecutionConfirmation, User, AuditLog, AuditActionCount,
  AuditEntityCount,
}
use gb_516_hydropower_gate_d.Platform.Schema.{Tables}

-- `Where("LOWER(code) LIKE ? OR LOWER(name) LIKE ?", ...)` and `Where("status = ?", ...)`
pub record Selection : Type 0 where
  pub pattern : Option String
  pub status : Option String

pub record Queries (World : Type 0) (T : Type 0) : Type 0 where
  -- `Count(&total)`
  pub count : Selection → Exec World ℕ
  -- `Order("updated_at DESC, id DESC").Offset(offset).Limit(limit).Find(&items)`
  pub find : Selection → ℤ → ℤ → Exec World (List T)
  -- `Select("status, COUNT(*) AS total").Group("status").Rows()`
  pub count_by_status : Exec World (List (String × ℕ))

pub record Reads (World : Type 0) : Type 0 where
  pub reservoirs : Queries World Reservoir
  pub gates : Queries World GateUnit
  pub directives : Queries World OperationDirective
  pub confirmations : Queries World ExecutionConfirmation
  -- `Where("username = ? AND active = ?", username, true).First(&user)`, if it finds one
  pub find_user : World → String → Option User
  -- The audit log: entries that match a pattern, entries since an instant, and those of an entity.
  pub count_audits : Option String → Exec World ℕ
  pub find_audits : Option String → ℤ → ℤ → Exec World (List AuditLog)
  pub count_since : ℕ → Exec World ℕ
  pub count_transitions_since : ℕ → Exec World ℕ
  pub count_actors_since : ℕ → Exec World ℕ
  pub group_actions_since : ℕ → Exec World (List AuditActionCount)
  pub group_entities_since : ℕ → Exec World (List AuditEntityCount)
  pub find_history : String → ℕ → ℤ → Exec World (List AuditLog)
  -- Whether the database answers, and whether Redis does, if it is configured.
  pub ping : World → Bool
  pub redis_ping : World → Option Bool

module _ {World : Type 0} (view : World → Tables) where
  -- The tables stay, whatever comes back.
  abbrev pub IsRead : {A : Type 0} → Exec World A → Type 0
  IsRead m = (w : World) → After (λ _ w'. view w' ≡ view w) (λ _ w'. view w' ≡ view w) (m w)

  pub record QueryLaws {T : Type 0} (q : Queries World T) : Type 0 where
    pub count_law : (s : Selection) → IsRead (q.count s)
    pub find_law : (s : Selection) (offset limit : ℤ) → IsRead (q.find s offset limit)
    pub count_by_status_law : IsRead q.count_by_status

  pub record ReadLaws (r : Reads World) : Type 0 where
    pub reservoir_laws : QueryLaws r.reservoirs
    pub gate_laws : QueryLaws r.gates
    pub directive_laws : QueryLaws r.directives
    pub confirmation_laws : QueryLaws r.confirmations
    pub count_audits_law : (s : Option String) → IsRead (r.count_audits s)
    pub find_audits_law :
        (s : Option String) (offset limit : ℤ) → IsRead (r.find_audits s offset limit)
    pub count_since_law : (t : ℕ) → IsRead (r.count_since t)
    pub count_transitions_since_law : (t : ℕ) → IsRead (r.count_transitions_since t)
    pub count_actors_since_law : (t : ℕ) → IsRead (r.count_actors_since t)
    pub group_actions_since_law : (t : ℕ) → IsRead (r.group_actions_since t)
    pub group_entities_since_law : (t : ℕ) → IsRead (r.group_entities_since t)
    pub find_history_law :
        (entity_type : String) (id : ℕ) (limit : ℤ) → IsRead (r.find_history entity_type id limit)
    -- The user that was asked for, and an active one.
    pub find_user_law :
        (w : World) (name : String) (user : User)
        → r.find_user w name ≡ some user
        → (user.username ≡ name) × (user.active ≡ true)
