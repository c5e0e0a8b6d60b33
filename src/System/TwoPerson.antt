-- ===== src/System/TwoPerson.antt =====
-- The two-person rule as a safety property of the whole server.
pub mod Moves
pub mod Kept
pub mod Invariant
pub mod Writes
use gb_516_hydropower_gate_d.Prelude.{
  ℕ, String, ◌≡◌, refl, sym, ◌∙◌, ap, subst, inl, inr, Option, none, some, List, ◌==◌, true, arith,
  eq_iff, ◌=ˢ◌, false,
}
use gb_516_hydropower_gate_d.Text.{Unicode}
use gb_516_hydropower_gate_d.Model.{GateUnit, OperationDirective, DirectiveApproval, AuditLog}
use gb_516_hydropower_gate_d.Dto.{TransitionRequest}
use gb_516_hydropower_gate_d.Platform.{Platform, PlatformLaws}
use gb_516_hydropower_gate_d.Platform.Schema.{
  Tables, override, Entity, merged, reservoir_entity, gate_entity, directive_entity,
  confirmation_entity,
}
use gb_516_hydropower_gate_d.Service.Records.{Written, Created, Deleted}
use gb_516_hydropower_gate_d.Service.Directive
use gb_516_hydropower_gate_d.Service.Directive.Draft
use gb_516_hydropower_gate_d.Service.Directive.Effects.{Transitioned}
use gb_516_hydropower_gate_d.Service.Confirmation
use gb_516_hydropower_gate_d.Service.Confirmation.{Outcome}
use gb_516_hydropower_gate_d.Service.Confirmation.Effects.{
  Executing, OutcomeStep, OutcomeApplied, ChosenOutcome, OutcomeChosen, ConfirmationTransitioned,
}
use gb_516_hydropower_gate_d.System.Changes.{Change}
use gb_516_hydropower_gate_d.System.Serve.{Caller, Request, serve_all, serve_all_keeps}
use gb_516_hydropower_gate_d.System.Evidence.{Grows, HasApproval}
use gb_516_hydropower_gate_d.System.TwoPerson.Kept.{Written-Kept, Created-Kept, Deleted-Kept}
use gb_516_hydropower_gate_d.System.TwoPerson.Writes.{
  confirmed-IsDispatchSafe, Transitioned-IsDispatchSafe, created-IsDispatchSafe,
  edited-IsDispatchSafe, deleted-IsDispatchSafe,
}
use gb_516_hydropower_gate_d.System.TwoPerson.Moves.{Moved, Transitioned-Moved}
use gb_516_hydropower_gate_d.System.TwoPerson.Invariant.{
  Evidenced, IsDispatchSafe, Evidenced-idle, Evidenced-same, kept-IsDispatchSafe,
  put-IsDispatchSafe, Moved-Evidenced,
}

pub Change-IsDispatchSafe :
    (u : Unicode) (v v' : Tables) → Change u v v' → IsDispatchSafe u v → IsDispatchSafe u v'
Change-IsDispatchSafe u v v' (Change.no_change same) h = subst (IsDispatchSafe u) (sym same) h
Change-IsDispatchSafe u v v' (Change.reservoir_created input actor request_id x c) h =
    kept-IsDispatchSafe u v v'
      (Created-Kept reservoir_entity (λ _ _ _. (refl, refl)) v v' c.created) h
Change-IsDispatchSafe u v v' (Change.reservoir_edited id input actor request_id c) h =
    kept-IsDispatchSafe u v v'
      (Written-Kept reservoir_entity (λ _ _ _. (refl, refl)) v v' c.written) h
Change-IsDispatchSafe u v v' (Change.reservoir_moved id input actor request_id c) h =
    kept-IsDispatchSafe u v v'
      (Written-Kept reservoir_entity (λ _ _ _. (refl, refl)) v v' c.written) h
Change-IsDispatchSafe u v v' (Change.reservoir_deleted id actor request_id c) h =
    kept-IsDispatchSafe u v v'
      (Deleted-Kept reservoir_entity (λ _ _ _. (refl, refl)) v v' c.deleted) h
Change-IsDispatchSafe u v v' (Change.gate_created input actor request_id x c) h =
    kept-IsDispatchSafe u v v' (Created-Kept gate_entity (λ _ _ _. (refl, refl)) v v' c.created) h
Change-IsDispatchSafe u v v' (Change.gate_edited id input actor request_id c) h =
    kept-IsDispatchSafe u v v' (Written-Kept gate_entity (λ _ _ _. (refl, refl)) v v' c.written) h
Change-IsDispatchSafe u v v' (Change.gate_moved id input actor request_id c) h =
    kept-IsDispatchSafe u v v' (Written-Kept gate_entity (λ _ _ _. (refl, refl)) v v' c.written) h
Change-IsDispatchSafe u v v' (Change.gate_deleted id actor request_id c) h =
    kept-IsDispatchSafe u v v' (Deleted-Kept gate_entity (λ _ _ _. (refl, refl)) v v' c.deleted) h
Change-IsDispatchSafe u v v' (Change.confirmation_created input actor request_id x c) h =
    kept-IsDispatchSafe u v v'
      (Created-Kept confirmation_entity (λ _ _ _. (refl, refl)) v v' c.created) h
Change-IsDispatchSafe u v v' (Change.confirmation_edited id input actor request_id c) h =
    kept-IsDispatchSafe u v v'
      (Written-Kept confirmation_entity (λ _ _ _. (refl, refl)) v v' c.written) h
Change-IsDispatchSafe u v v' (Change.confirmation_deleted id actor request_id c) h =
    kept-IsDispatchSafe u v v'
      (Deleted-Kept confirmation_entity (λ _ _ _. (refl, refl)) v v' c.deleted) h
Change-IsDispatchSafe u v v' (Change.confirmation_moved id input actor request_id t) h =
    confirmed-IsDispatchSafe u v v' t h
Change-IsDispatchSafe u v v' (Change.directive_moved id input actor role request_id t) h =
    Transitioned-IsDispatchSafe u v v' t h
Change-IsDispatchSafe u v v' (Change.directive_created input actor request_id x c) h =
    created-IsDispatchSafe u v v' c h
Change-IsDispatchSafe u v v' (Change.directive_edited id input actor request_id c) h =
    edited-IsDispatchSafe u v v' c h
Change-IsDispatchSafe u v v' (Change.directive_deleted id actor request_id c) h =
    deleted-IsDispatchSafe u v v' c h

-- Whatever requests are served, with whatever answers and failures of the database, the following
-- holds of every live directive, if it held at the start: one that is pending, approved, executing
-- or completed has a recorded submission by its submitter, who then was an operator or an
-- administrator; and one that is approved, executing or completed has a submitter, whose name differs
-- from the approver's under case folding, and a recorded approval by its approver, who then was a
-- reviewer or an administrator.
pub serve_all-IsDispatchSafe :
    (u : Unicode) (p : Platform)
    → PlatformLaws p
    → (requests : List (Caller × Request)) (w : p.World) → IsDispatchSafe u (p.view w)
    → IsDispatchSafe u (p.view (serve_all u p requests w))
serve_all-IsDispatchSafe u p laws requests w h =
    serve_all_keeps u p laws (IsDispatchSafe u) (λ v v' c. Change-IsDispatchSafe u v v' c) requests
      w h
