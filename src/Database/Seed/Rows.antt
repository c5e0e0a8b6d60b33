-- ===== src/Database/Seed/Rows.antt =====
-- The records that `Seed` of backend/internal/database/database.go puts into empty tables.
use gb_516_hydropower_gate_d.Prelude.{ℕ, String, ◌*◌, ◌-◌, none, some, []}
use gb_516_hydropower_gate_d.Ints.{pos, negsuc}
use gb_516_hydropower_gate_d.Model.{
  BaseModel, Reservoir, GateUnit, OperationDirective, DirectiveApproval, ExecutionConfirmation,
  role_operator, role_reviewer,
}
use gb_516_hydropower_gate_d.Platform.Library.{Library}
use gb_516_hydropower_gate_d.Web.Queries.{hour}

-- The fields of a base that are given; GORM fills in the others.
abbrev pub new_base : String → String → String → String → BaseModel
new_base code name status description = record {
  id = 0;
  code = code;
  name = name;
  status = status;
  version = 1;
  description = description;
  created_at = 0;
  updated_at = 0;
  deleted_at = none;
}

abbrev pub submitted_at : Library → ℕ → ℕ
submitted_at lib now = lib.add now (negsuc (2 * hour - 1))

abbrev pub approved_at : Library → ℕ → ℕ
approved_at lib now = lib.add now (negsuc (hour - 1))

abbrev pub first_reservoir : Library → ℕ → Reservoir
first_reservoir lib now = record {
  base = new_base "R-001" "库区示例一" "normal" "用于启动验证和主要流程演示的库区记录";
  facility = "水电站闸门调度许可区域1";
  owner = "运行一组";
  category = "常规";
  risk_level = "low";
  metric_value = 0x4029000000000000;
  metric_unit = "unit";
  effective_at = lib.add now (pos (0 * hour));
  evidence = "已完成基础证据核对";
  related_code = "R-001";
}

abbrev pub second_reservoir : Library → ℕ → Reservoir
second_reservoir lib now = record {
  base = new_base "R-002" "库区示例二" "warning" "用于启动验证和主要流程演示的库区记录";
  facility = "水电站闸门调度许可区域2";
  owner = "质量复核组";
  category = "重点";
  risk_level = "medium";
  metric_value = 0x4039000000000000;
  metric_unit = "%";
  effective_at = lib.add now (pos (3 * hour));
  evidence = "已完成基础证据核对";
  related_code = "R-002";
}

abbrev pub third_reservoir : Library → ℕ → Reservoir
third_reservoir lib now = record {
  base = new_base "R-003" "库区示例三" "critical" "用于启动验证和主要流程演示的库区记录";
  facility = "水电站闸门调度许可区域3";
  owner = "安全主管组";
  category = "复核";
  risk_level = "high";
  metric_value = 0x4042C00000000000;
  metric_unit = "score";
  effective_at = lib.add now (pos (6 * hour));
  evidence = "已完成基础证据核对";
  related_code = "R-003";
}

abbrev pub first_gate : Library → ℕ → GateUnit
first_gate lib now = record {
  base = new_base "GU-001" "闸门示例一" "open" "用于启动验证和主要流程演示的闸门记录";
  facility = "水电站闸门调度许可区域1";
  owner = "运行一组";
  category = "常规";
  risk_level = "low";
  metric_value = 0x4029000000000000;
  metric_unit = "unit";
  effective_at = lib.add now (pos (0 * hour));
  evidence = "已完成基础证据核对";
  related_code = "R-001";
}

abbrev pub second_gate : Library → ℕ → GateUnit
second_gate lib now = record {
  base = new_base "GU-002" "闸门示例二" "closed" "用于启动验证和主要流程演示的闸门记录";
  facility = "水电站闸门调度许可区域2";
  owner = "质量复核组";
  category = "重点";
  risk_level = "medium";
  metric_value = 0x4039000000000000;
  metric_unit = "%";
  effective_at = lib.add now (pos (3 * hour));
  evidence = "已完成基础证据核对";
  related_code = "R-002";
}

abbrev pub third_gate : Library → ℕ → GateUnit
third_gate lib now = record {
  base = new_base "GU-003" "闸门示例三" "moving" "用于启动验证和主要流程演示的闸门记录";
  facility = "水电站闸门调度许可区域3";
  owner = "安全主管组";
  category = "复核";
  risk_level = "high";
  metric_value = 0x4042C00000000000;
  metric_unit = "score";
  effective_at = lib.add now (pos (6 * hour));
  evidence = "已完成基础证据核对";
  related_code = "R-003";
}

abbrev pub first_directive : Library → ℕ → OperationDirective
first_directive lib now = record {
  base = new_base "OD-001" "操作指令示例一" "draft" "用于启动验证和主要流程演示的操作指令记录";
  facility = "水电站闸门调度许可区域1";
  owner = "运行一组";
  category = "常规";
  risk_level = "low";
  metric_value = 0x4029000000000000;
  metric_unit = "unit";
  effective_at = lib.add now (pos (0 * hour));
  evidence = "已核对库水位与机组工况";
  related_code = "GU-001";
  gate_state = "open";
  submitted_by = "";
  submitted_at = none;
  approved_by = "";
  approved_at = none;
  approvals = [];
}

abbrev pub second_directive : Library → ℕ → OperationDirective
second_directive lib now = record {
  base = new_base "OD-002" "操作指令示例二" "pending" "用于启动验证和主要流程演示的操作指令记录";
  facility = "水电站闸门调度许可区域2";
  owner = "质量复核组";
  category = "重点";
  risk_level = "medium";
  metric_value = 0x4039000000000000;
  metric_unit = "%";
  effective_at = lib.add now (pos (3 * hour));
  evidence = "待安全复核员完成第二人确认";
  related_code = "GU-002";
  gate_state = "closed";
  submitted_by = "operator";
  submitted_at = some (submitted_at lib now);
  approved_by = "";
  approved_at = none;
  approvals = [];
}

abbrev pub third_directive : Library → ℕ → OperationDirective
third_directive lib now = record {
  base = new_base "OD-003" "右岸泄洪闸开启指令" "executing" "用于启动验证和主要流程演示的操作指令记录";
  facility = "水电站闸门调度许可区域3";
  owner = "安全主管组";
  category = "复核";
  risk_level = "high";
  metric_value = 0x4042C00000000000;
  metric_unit = "score";
  effective_at = lib.add now (pos (6 * hour));
  evidence = "双人确认已完成，现场正在执行";
  related_code = "GU-003";
  gate_state = "open";
  submitted_by = "operator";
  submitted_at = some (submitted_at lib now);
  approved_by = "reviewer";
  approved_at = some (approved_at lib now);
  approvals = [];
}

abbrev pub first_confirmation : Library → ℕ → ExecutionConfirmation
first_confirmation lib now = record {
  base = new_base "EC-001" "右岸泄洪闸现场执行回执" "pending" "关联已批准且正在执行的操作指令，记录现场反馈与证据";
  facility = "水电站闸门调度许可区域3";
  owner = "运行一组";
  category = "泄洪调度";
  risk_level = "high";
  metric_value = 0x4042C00000000000;
  metric_unit = "%";
  effective_at = now;
  evidence = "待现场核对开度反馈、视频与水位变化";
  related_code = "OD-003";
  confirmed_by = "";
  confirmed_at = none;
}

-- The evidence of the second and the third directive, with the ids that they have been given.
abbrev pub second_submission : Library → ℕ → OperationDirective → DirectiveApproval
second_submission lib now second = record {
  id = 0;
  directive_id = second.id;
  stage = "submitted";
  actor = "operator";
  role = role_operator;
  request_id = "seed-od-002-submit";
  reason = "值班员提交调度许可";
  from_state = "draft";
  to_state = "pending";
  created_at = submitted_at lib now;
}

abbrev pub third_submission : Library → ℕ → OperationDirective → DirectiveApproval
third_submission lib now third = record {
  id = 0;
  directive_id = third.id;
  stage = "submitted";
  actor = "operator";
  role = role_operator;
  request_id = "seed-od-003-submit";
  reason = "值班员提交调度许可";
  from_state = "draft";
  to_state = "pending";
  created_at = submitted_at lib now;
}

abbrev pub third_approval : Library → ℕ → OperationDirective → DirectiveApproval
third_approval lib now third = record {
  id = 0;
  directive_id = third.id;
  stage = "approved";
  actor = "reviewer";
  role = role_reviewer;
  request_id = "seed-od-003-approve";
  reason = "复核水位窗口和闸门目标无冲突";
  from_state = "pending";
  to_state = "approved";
  created_at = approved_at lib now;
}
