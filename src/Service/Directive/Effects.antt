-- ===== src/Service/Directive/Effects.antt =====
-- What a transition of a directive that commits has done: the specification of `Transition`.
use gb_516_hydropower_gate_d.Prelude.{
  ℕ, String, ◌≡◌, ◌≢◌, ◌⊎◌, Bool, true, false, ◌&&◌, ◌||◌, Option, none, some, ◌=ˢ◌,
}
use gb_516_hydropower_gate_d.Text.{Unicode, trim_space, equal_fold}
use gb_516_hydropower_gate_d.Constants.{can_transition, gate_unit_transitions}
use gb_516_hydropower_gate_d.Constants.Edges.{DirectiveEdge}
use gb_516_hydropower_gate_d.Model.{OperationDirective, GateUnit}
use gb_516_hydropower_gate_d.Dto.{TransitionRequest}
use gb_516_hydropower_gate_d.Platform.Schema.{Tables, gate_entity}
use gb_516_hydropower_gate_d.Repository.Store.{normal_code}
use gb_516_hydropower_gate_d.Repository.Directives.Laws.{DirectiveRead, DirectiveStored}
use gb_516_hydropower_gate_d.Service.Security.{audit_entry}
use gb_516_hydropower_gate_d.Service.Directive.Rows.{
  DirectiveMove, ApprovalsAfter, GateFollows, RoleFor,
}
use gb_516_hydropower_gate_d.Service.Directive.{
  directive_role_allowed, approval_for, advanced, gate_target_of, transition_entry,
}
use gb_516_hydropower_gate_d.Service.Records.{inc, dec, moved_gate, Written}

-- Whether the transition looks at the gate.
abbrev pub needs_gate : OperationDirective → String → Bool
needs_gate current target =
    target =ˢ "executing" || (current.status =ˢ "executing" && target =ˢ "aborted")

-- The linked gate, as it was read, and the state that it is to take.
pub record GateChosen (u : Unicode) (current : OperationDirective) (target : String) (v : Tables)
    (gate : GateUnit) (gate_target : String) : Type 0 where
  pub found : v.gates gate.id ≡ some gate
  pub code : gate.code ≡ normal_code u current.related_code
  pub unlocked : (target =ˢ "executing" && gate.status =ˢ "locked") ≡ false
  pub target_eq : gate_target ≡ gate_target_of target current gate
  pub permitted :
      (gate_target =ˢ ""
        || gate.status =ˢ gate_target
        || can_transition gate_unit_transitions gate.status gate_target)
      ≡ true

pub data LinkedGate (u : Unicode) (current : OperationDirective) (target : String) (v : Tables)
    (linked : Option GateUnit × String) : Type 0 where
  no_gate :
      needs_gate current target ≡ false → linked ≡ (none, "") → LinkedGate u current target v linked
  one_gate :
      (gate : GateUnit) (gate_target : String)
      → needs_gate current target ≡ true
      → GateChosen u current target v gate gate_target
      → linked ≡ (some gate, gate_target)
      → LinkedGate u current target v linked

-- The gate takes its new state under its optimistic lock, with an audit entry.
abbrev pub GateMoved : GateUnit → String → String → String → String → ℕ → Tables → Tables → Type 0
GateMoved gate gate_target actor request_id reason now =
    Written gate_entity gate.id (dec (inc gate.version)) (moved_gate gate gate_target now) (
      audit_entry actor request_id "directive_execution" "GateUnit" gate.id gate.status gate_target
        reason)

-- ... or nothing changes.
abbrev pub GateStep :
    Option GateUnit × String → String → String → String → ℕ → Tables → Tables → Type 0
GateStep (none, gate_target) actor request_id reason now v v' = v' ≡ v
GateStep (some gate, gate_target) actor request_id reason now v v' =
    ((gate_target =ˢ "" || gate.status =ˢ gate_target) ≡ true) × (v' ≡ v)
    ⊎ ((gate_target =ˢ "" || gate.status =ˢ gate_target) ≡ false)
      × GateMoved gate gate_target actor request_id reason now v v'

pub record Transitioned (u : Unicode) (id : ℕ) (input : TransitionRequest)
    (actor role request_id : String) (v v' : Tables) : Type 0 where
  pub current : OperationDirective
  pub linked : Option GateUnit × String
  pub now : ℕ
  pub middle : Tables
  pub read : DirectiveRead id v current
  pub edge : DirectiveEdge current.status (trim_space input.status)
  pub not_completed : trim_space input.status ≢ "completed"
  pub role_allowed : directive_role_allowed current.status (trim_space input.status) role ≡ true
  pub role_for : RoleFor (trim_space input.status) role
  pub two_person :
      trim_space input.status ≡ "approved"
      → (current.submitted_by ≢ "") × (equal_fold u current.submitted_by actor ≡ false)
  pub chosen : LinkedGate u current (trim_space input.status) v linked
  pub stored :
      DirectiveStored id input.expected_version
        (advanced current (trim_space input.status) actor input.expected_version now)
        (approval_for
          (trim_space input.status)
          current.status
          actor
          role
          request_id
          input.reason
          now)
        (transition_entry id current.status
          (trim_space input.status)
          actor
          request_id
          input.reason
          now)
        v
        middle
  pub gate_step : GateStep linked actor request_id input.reason now middle v'
  pub move : DirectiveMove id current input actor v'.directives
  pub approvals_after :
      ApprovalsAfter id current.status
        (trim_space input.status)
        actor
        role
        request_id
        input.reason
        v.approvals
        v'.approvals
  pub gate_follows : GateFollows u current (trim_space input.status) v v'
