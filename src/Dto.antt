-- ===== src/Dto.antt =====
-- backend/internal/dto: the inputs of the operations, and some answers. Their binding tags are checked by Gin's
-- validator before a service is called.
use gb_516_hydropower_gate_d.Prelude.{ℕ, String}
use gb_516_hydropower_gate_d.Ints.{ℤ}

pub record CreateReservoir : Type 0 where
  pub code : String
  pub name : String
  pub description : String
  pub facility : String
  pub owner : String
  pub category : String
  pub risk_level : String
  pub metric_value : ℕ
  pub metric_unit : String
  pub effective_at : ℕ
  pub evidence : String
  pub related_code : String

pub record UpdateReservoir : Type 0 where
  pub expected_version : ℕ
  pub name : String
  pub description : String
  pub facility : String
  pub owner : String
  pub category : String
  pub risk_level : String
  pub metric_value : ℕ
  pub metric_unit : String
  pub effective_at : ℕ
  pub evidence : String
  pub related_code : String

pub record CreateGateUnit : Type 0 where
  pub code : String
  pub name : String
  pub description : String
  pub facility : String
  pub owner : String
  pub category : String
  pub risk_level : String
  pub metric_value : ℕ
  pub metric_unit : String
  pub effective_at : ℕ
  pub evidence : String
  pub related_code : String

pub record UpdateGateUnit : Type 0 where
  pub expected_version : ℕ
  pub name : String
  pub description : String
  pub facility : String
  pub owner : String
  pub category : String
  pub risk_level : String
  pub metric_value : ℕ
  pub metric_unit : String
  pub effective_at : ℕ
  pub evidence : String
  pub related_code : String

pub record CreateOperationDirective : Type 0 where
  pub code : String
  pub name : String
  pub description : String
  pub facility : String
  pub owner : String
  pub category : String
  pub risk_level : String
  pub metric_value : ℕ
  pub metric_unit : String
  pub effective_at : ℕ
  pub evidence : String
  pub related_code : String
  pub gate_state : String

pub record UpdateOperationDirective : Type 0 where
  pub expected_version : ℕ
  pub name : String
  pub description : String
  pub facility : String
  pub owner : String
  pub category : String
  pub risk_level : String
  pub metric_value : ℕ
  pub metric_unit : String
  pub effective_at : ℕ
  pub evidence : String
  pub related_code : String
  pub gate_state : String

pub record CreateExecutionConfirmation : Type 0 where
  pub code : String
  pub name : String
  pub description : String
  pub facility : String
  pub owner : String
  pub category : String
  pub risk_level : String
  pub metric_value : ℕ
  pub metric_unit : String
  pub effective_at : ℕ
  pub evidence : String
  pub related_code : String

pub record UpdateExecutionConfirmation : Type 0 where
  pub expected_version : ℕ
  pub name : String
  pub description : String
  pub facility : String
  pub owner : String
  pub category : String
  pub risk_level : String
  pub metric_value : ℕ
  pub metric_unit : String
  pub effective_at : ℕ
  pub evidence : String
  pub related_code : String

-- common.go
pub record TransitionRequest : Type 0 where
  pub status : String
  pub expected_version : ℕ
  pub reason : String

-- common.go: the queries and the answers
pub record PageQuery : Type 0 where
  pub page : ℤ
  pub page_size : ℤ
  pub search : String
  pub status : String

pub record LoginRequest : Type 0 where
  pub username : String
  pub password : String

pub record LoginResponse : Type 0 where
  pub token : String
  pub expires_in : ℤ
  pub username : String
  pub display_name : String
  pub role : String

pub record SessionResponse : Type 0 where
  pub username : String
  pub display_name : String
  pub role : String
  pub request_id : String
