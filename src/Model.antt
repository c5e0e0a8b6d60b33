-- ===== src/Model.antt =====
-- backend/internal/model: the persisted records. A `uint` and a `time.Time` (an instant) are natural
-- numbers, a `*time.Time` an option, and a `float64`, which the code only copies, is its bit pattern.
use gb_516_hydropower_gate_d.Prelude.{ℕ, String, Bool, ◌==◌, Option, List, if◌then◌else◌}

-- base.go
pub record BaseModel : Type 0 where
  pub id : ℕ
  pub code : String
  pub name : String
  pub status : String
  pub version : ℕ
  pub description : String
  pub created_at : ℕ
  pub updated_at : ℕ
  pub deleted_at : Option ℕ

-- The hook that GORM calls before an insert.
unfoldable pub before_create : BaseModel → BaseModel
before_create b = if b.version == 0 then record b { version = 1 } else b

-- reservoir.go
pub record Reservoir : Type 0 where
  pub base : BaseModel
  pub open base use *
  pub facility : String
  pub owner : String
  pub category : String
  pub risk_level : String
  pub metric_value : ℕ
  pub metric_unit : String
  pub effective_at : ℕ
  pub evidence : String
  pub related_code : String

-- gate_unit.go
pub record GateUnit : Type 0 where
  pub base : BaseModel
  pub open base use *
  pub facility : String
  pub owner : String
  pub category : String
  pub risk_level : String
  pub metric_value : ℕ
  pub metric_unit : String
  pub effective_at : ℕ
  pub evidence : String
  pub related_code : String

-- operation_directive.go: evidence for the two-person decision
pub record DirectiveApproval : Type 0 where
  pub id : ℕ
  pub directive_id : ℕ
  pub stage : String
  pub actor : String
  pub role : String
  pub request_id : String
  pub reason : String
  pub from_state : String
  pub to_state : String
  pub created_at : ℕ

-- operation_directive.go
pub record OperationDirective : Type 0 where
  pub base : BaseModel
  pub open base use *
  pub facility : String
  pub owner : String
  pub category : String
  pub risk_level : String
  pub metric_value : ℕ
  pub metric_unit : String
  pub effective_at : ℕ
  pub evidence : String
  pub related_code : String
  pub gate_state : String
  pub submitted_by : String
  pub submitted_at : Option ℕ
  pub approved_by : String
  pub approved_at : Option ℕ
  pub approvals : List DirectiveApproval

-- execution_confirmation.go
pub record ExecutionConfirmation : Type 0 where
  pub base : BaseModel
  pub open base use *
  pub facility : String
  pub owner : String
  pub category : String
  pub risk_level : String
  pub metric_value : ℕ
  pub metric_unit : String
  pub effective_at : ℕ
  pub evidence : String
  pub related_code : String
  pub confirmed_by : String
  pub confirmed_at : Option ℕ

-- security.go
pub record User : Type 0 where
  pub id : ℕ
  pub username : String
  pub display_name : String
  pub password_hash : String
  pub role : String
  pub active : Bool
  pub created_at : ℕ
  pub updated_at : ℕ

-- security.go
pub record AuditLog : Type 0 where
  pub id : ℕ
  pub request_id : String
  pub actor : String
  pub action : String
  pub entity_type : String
  pub entity_id : ℕ
  pub before_state : String
  pub after_state : String
  pub detail : String
  pub created_at : ℕ

abbrev pub reservoir_initial_status : String
reservoir_initial_status = "normal"

abbrev pub gate_unit_initial_status : String
gate_unit_initial_status = "open"

abbrev pub operation_directive_initial_status : String
operation_directive_initial_status = "draft"

abbrev pub execution_confirmation_initial_status : String
execution_confirmation_initial_status = "pending"

abbrev pub role_viewer : String
role_viewer = "viewer"

abbrev pub role_operator : String
role_operator = "operator"

abbrev pub role_reviewer : String
role_reviewer = "reviewer"

abbrev pub role_admin : String
role_admin = "admin"

-- security.go: the rows of an audit summary
pub record AuditActionCount : Type 0 where
  pub action : String
  pub count : ℕ

pub record AuditEntityCount : Type 0 where
  pub entity_type : String
  pub count : ℕ

pub record AuditSummary : Type 0 where
  pub since : ℕ
  pub total : ℕ
  pub transitions : ℕ
  pub unique_actors : ℕ
  pub actions : List AuditActionCount
  pub entity_types : List AuditEntityCount
