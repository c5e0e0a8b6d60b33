-- ===== src/Service/Directive/Moves.antt =====
-- What the writes of `Transition` in backend/internal/service/operation_directive.go make of the rows.
use gb_516_hydropower_gate_d.Prelude.{
  ℕ, String, ◌≡◌, ◌≢◌, refl, ap, sym, ◌∙◌, subst, ◌⊎◌, inl, inr, true, false, ◌&&◌, ◌||◌, Option,
  none, some, List, ◌=ˢ◌, arith, eq_iff, Bool-cases, if_same, if_other,
}
use gb_516_hydropower_gate_d.Constants.{can_transition, gate_unit_transitions}
use gb_516_hydropower_gate_d.Constants.Edges.{GateEdge, reached-GateEdge}
use gb_516_hydropower_gate_d.Text.{Unicode, trim_space}
use gb_516_hydropower_gate_d.Model.{OperationDirective, GateUnit, DirectiveApproval, AuditLog}
use gb_516_hydropower_gate_d.Dto.{TransitionRequest}
use gb_516_hydropower_gate_d.Platform.Schema.{Tables, merged, directive_entity, gate_entity}
use gb_516_hydropower_gate_d.Repository.Directives.Laws.{
  DirectiveRead, DirectiveStored, with_approval,
}
use gb_516_hydropower_gate_d.Service.Records.{moved_gate}
use gb_516_hydropower_gate_d.Service.Records.Rows.{
  gate_business, directive-IsTable, gate-IsTable, Stored-row, Written-row,
}
use gb_516_hydropower_gate_d.Service.Records.Kept.{gate-others}
use gb_516_hydropower_gate_d.Service.Directive.{
  directive_role_allowed, advanced, approval_for, gate_target_of,
}
use gb_516_hydropower_gate_d.Service.Directive.Rows.{
  DirectiveMove, ApprovalsAfter, GateFollows, RoleFor,
}
use gb_516_hydropower_gate_d.Service.Directive.Effects.{
  needs_gate, LinkedGate, no_gate, one_gate, GateStep,
}

-- The gate's step changes no directive and no approval.
pub GateStep-others :
    (linked : Option GateUnit × String) (actor request_id reason : String) (now : ℕ) (v v' : Tables)
    → GateStep linked actor request_id reason now v v'
    → (v'.directives ≡ v.directives) × (v'.approvals ≡ v.approvals)
GateStep-others (none, gate_target) actor request_id reason now v v' same =
    (ap (λ t. t.directives) same, ap (λ t. t.approvals) same)
GateStep-others (some gate, gate_target) actor request_id reason now v v' (inl (stays, same)) =
    (ap (λ t. t.directives) same, ap (λ t. t.approvals) same)
GateStep-others (some gate, gate_target) actor request_id reason now v v' (inr (moves, written)) =
    ((gate-others written).1, (gate-others written).2)

pub stored-DirectiveMove :
    (id : ℕ) (current : OperationDirective) (input : TransitionRequest) (actor : String) (now : ℕ)
    (approval : Option DirectiveApproval) (entry : AuditLog) (v v' : Tables)
    → DirectiveRead id v current
    → DirectiveStored id input.expected_version
        (advanced current (trim_space input.status) actor input.expected_version now)
        approval
        entry
        v
        v'
    → DirectiveMove id current input actor v'.directives
unfolding advanced
stored-DirectiveMove id current input actor now approval entry v v' read stored =
    let new : OperationDirective → OperationDirective =
      λ c. advanced c (trim_space input.status) actor input.expected_version now in
    let loaded : OperationDirective = record read.row { approvals = read.approvals } in
    let (time, held, row) =
      Stored-row directive_entity directive-IsTable read.row stored.row read.found in
    subst (λ c. DirectiveMove id c input actor v'.directives) (sym read.item_eq)
      (record {
        row = merged directive_entity read.row (new loaded) time;
        stored_row =
            ap (λ t. t.directives id) stored.rest
            ∙ subst
                (λ c.
                  stored.middle.directives id
                  ≡ some (merged directive_entity read.row (new c) time))
                read.item_eq row;
        held = held;
        base_moved = record {
          id_eq = refl;
          code_eq = refl;
          name_eq = refl;
          description_eq = refl;
          created_at_eq = refl;
          live_eq = refl;
          version_eq = rw held refl;
          status_eq = refl;
        };
        business_kept = refl;
        gate_state_kept = refl;
        submits = λ h. (if_same _ _ _ _ h, (now, if_same _ _ _ _ h));
        submitter_kept = λ h. (if_other _ _ _ _ h, if_other _ _ _ _ h);
        approves = λ h. (if_same _ _ _ _ h, (now, if_same _ _ _ _ h));
        approver_kept = λ h. (if_other _ _ _ _ h, if_other _ _ _ _ h);
      })

approvals_after :
    (id approval_id : ℕ) (before target actor role request_id reason : String) (now : ℕ)
    (approvals : List DirectiveApproval)
    → ApprovalsAfter id before target actor role request_id reason approvals (
        with_approval approval_id id
          (approval_for target before actor role request_id reason now)
          approvals)
unfolding approval_for
approvals_after id approval_id before target actor role request_id reason now approvals = record {
  submission = λ h. rw h (record {
    approval = _;
    appended = refl;
    directive_eq = refl;
    stage_eq = refl;
    actor_eq = refl;
    role_eq = refl;
    request_eq = refl;
    reason_eq = refl;
    from_eq = refl;
    to_eq = refl;
  });
  decision = λ h. rw h (record {
    approval = _;
    appended = refl;
    directive_eq = refl;
    stage_eq = refl;
    actor_eq = refl;
    role_eq = refl;
    request_eq = refl;
    reason_eq = refl;
    from_eq = refl;
    to_eq = refl;
  });
  other = λ h k. rw (neither h k);
}
  where
    neither :
        target ≢ "pending"
        → target ≢ "approved"
        → (target =ˢ "approved" || target =ˢ "pending") ≡ false
    neither h k = ground (arith, eq_iff target "pending", eq_iff target "approved")

pub stored-ApprovalsAfter :
    (id version : ℕ) (item : OperationDirective)
    (before target actor role request_id reason : String) (now : ℕ) (entry : AuditLog)
    (v v' : Tables)
    → DirectiveStored id version item
        (approval_for target before actor role request_id reason now)
        entry
        v
        v'
    → ApprovalsAfter id before target actor role request_id reason v.approvals v'.approvals
stored-ApprovalsAfter id version item before target actor role request_id reason now entry v v'
      stored =
    subst (λ l. ApprovalsAfter id before target actor role request_id reason l v'.approvals)
      (ap (λ t. t.approvals) stored.row.stored)
      (subst (ApprovalsAfter id before target actor role request_id reason stored.middle.approvals)
        (sym (ap (λ t. t.approvals) stored.rest))
        (approvals_after id stored.approval_id before target actor role request_id reason now
          stored.middle.approvals))

pub stored_gates :
    (id version : ℕ) (item : OperationDirective) (approval : Option DirectiveApproval)
    (entry : AuditLog) (v v' : Tables)
    → DirectiveStored id version item approval entry v v'
    → v'.gates ≡ v.gates
stored_gates id version item approval entry v v' stored =
    ap (λ t. t.gates) stored.rest ∙ ap (λ t. t.gates) stored.row.stored

-- The gate has the target state, if there is one, and is otherwise as it was.
record GateReached (gate : GateUnit) (gate_target : String) (v' : Tables) : Type 0 where
  after : GateUnit
  row : v'.gates gate.id ≡ some after
  stays : gate_target ≡ "" → after.status ≡ gate.status
  reaches : gate_target ≢ "" → after.status ≡ gate_target
  kept : gate_business after ≡ gate_business gate

gate_reached :
    (gate : GateUnit) (gate_target actor request_id reason : String) (now : ℕ) (v v' : Tables)
    → v.gates gate.id ≡ some gate
    → GateStep (some gate, gate_target) actor request_id reason now v v'
    → GateReached gate gate_target v'
gate_reached gate gate_target actor request_id reason now v v' found (inl (stays, same)) = record {
  after = gate;
  row = ap (λ t. t.gates gate.id) same ∙ found;
  stays = λ h. refl;
  reaches = λ h. ground (arith, eq_iff gate_target "", eq_iff gate.status gate_target);
  kept = refl;
}
gate_reached gate gate_target actor request_id reason now v v' found (inr (moves, written)) =
    let (time, held, row) = Written-row gate_entity gate-IsTable gate written found in
    record {
      after = merged gate_entity gate (moved_gate gate gate_target now) time;
      row = row;
      stays = λ h. ground (arith, eq_iff gate_target "", eq_iff gate.status gate_target);
      reaches = λ h. refl;
      kept = refl;
    }

reach :
    (gate : GateUnit) (gate_target s : String) (v' : Tables) (r : GateReached gate gate_target v')
    → gate_target ≡ s
    → s ≢ ""
    → r.after.status ≡ s
reach gate gate_target s v' r e named = r.reaches (λ h. named (sym e ∙ h)) ∙ e

is_named : (s : String) → (s =ˢ "") ≡ false → s ≢ ""
is_named s h e = ground (arith, eq_iff s "")

gate_edge :
    (gate : GateUnit) (gate_target : String) (v' : Tables) (r : GateReached gate gate_target v')
    → (gate_target =ˢ ""
        || gate.status =ˢ gate_target
        || can_transition gate_unit_transitions gate.status gate_target)
      ≡ true
    → (r.after.status ≡ gate.status) ⊎ GateEdge gate.status r.after.status
gate_edge gate gate_target v' r h = elim (Bool-cases (gate_target =ˢ "")) [
  | inl unset ↦ inl (r.stays ((eq_iff gate_target "").0 unset))
  | inr set ↦
      reached-GateEdge gate.status gate_target r.after.status (r.reaches (is_named gate_target set))
        (rw set at h)
]

begun :
    (target : String) (current : OperationDirective) (gate : GateUnit)
    → target ≡ "executing"
    → (gate.status ≡ current.gate_state → gate_target_of target current gate ≡ "")
      × (gate.status ≢ current.gate_state → gate_target_of target current gate ≡ "moving")
unfolding gate_target_of
begun target current gate h = rw h (
  λ same. rw ((eq_iff gate.status current.gate_state).1 same),
  λ other. ground (arith, eq_iff gate.status current.gate_state),
)

aborted :
    (target : String) (current : OperationDirective) (gate : GateUnit)
    → target ≡ "aborted"
    → gate_target_of target current gate ≡ "locked"
unfolding gate_target_of
aborted target current gate h = rw h

not_locked :
    (target status : String)
    → (target =ˢ "executing" && status =ˢ "locked") ≡ false
    → target ≡ "executing"
    → status ≢ "locked"
not_locked target status h e = ground (arith, eq_iff target "executing", eq_iff status "locked")

needed :
    (current : OperationDirective) (target : String)
    → needs_gate current target ≡ true
    → (target ≡ "executing") ⊎ (current.status ≡ "executing") × (target ≡ "aborted")
needed current target h =
    ground
      (arith, eq_iff target "executing", eq_iff current.status "executing", eq_iff target "aborted")

pub chosen-GateFollows :
    (u : Unicode) (current : OperationDirective) (target : String)
    (linked : Option GateUnit × String) (actor request_id reason : String) (now : ℕ)
    (v middle v' : Tables)
    → LinkedGate u current target v linked
    → middle.gates ≡ v.gates
    → GateStep linked actor request_id reason now middle v'
    → GateFollows u current target v v'
chosen-GateFollows u current target linked actor request_id reason now v middle v'
      (no_gate unneeded unlinked) gates step =
    let same = subst (λ l. GateStep l actor request_id reason now middle v') unlinked step in
    inr (
      (ground (arith, eq_iff target "executing")),
      (λ e f. ground (arith, eq_iff target "aborted", eq_iff current.status "executing")),
      ap (λ t. t.gates) same ∙ gates,
    )
chosen-GateFollows u current target linked actor request_id reason now v middle v'
      (one_gate gate gate_target need chosen one) gates step =
    let reached =
      gate_reached gate gate_target actor request_id reason now middle v'
        (ap (λ rows. rows gate.id) gates ∙ chosen.found)
        (subst (λ l. GateStep l actor request_id reason now middle v') one step) in
    let to_named : (s : String)
        → gate_target_of target current gate ≡ s
        → s ≢ ""
        → reached.after.status ≡ s =
      λ s e named. reach gate gate_target s v' reached (chosen.target_eq ∙ e) named in
    inl (
      needed current target need,
      record {
        gate = gate;
        found = chosen.found;
        code = chosen.code;
        after = reached.after;
        row = reached.row;
        unlocked = not_locked target gate.status chosen.unlocked;
        stays = λ h same. reached.stays (chosen.target_eq ∙ (begun target current gate h).0 same);
        moves = λ h other.
            to_named "moving" ((begun target current gate h).1 other) (is_named "moving" refl);
        locks = λ h. to_named "locked" (aborted target current gate h) (is_named "locked" refl);
        gate_edge = gate_edge gate gate_target v' reached chosen.permitted;
        kept = reached.kept;
      },
    )

pub directive_role_allowed-RoleFor :
    (before target role : String)
    → directive_role_allowed before target role ≡ true
    → RoleFor target role
unfolding directive_role_allowed
directive_role_allowed-RoleFor before target role h = ground (
  arith,
  eq_iff target "pending",
  eq_iff target "approved",
  eq_iff target "executing",
  eq_iff target "aborted",
  eq_iff role "operator",
  eq_iff role "reviewer",
  eq_iff role "admin",
)
