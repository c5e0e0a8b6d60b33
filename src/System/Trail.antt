-- ===== src/System/Trail.antt =====
-- The audit trail accounts for the state of every record, after any sequence of requests.
use gb_516_hydropower_gate_d.Prelude.{
  ℕ, String, refl, sym, subst, inl, inr, Option, none, some, List,
}
use gb_516_hydropower_gate_d.Text.{Unicode}
use gb_516_hydropower_gate_d.Model.{GateUnit}
use gb_516_hydropower_gate_d.Dto.{TransitionRequest}
use gb_516_hydropower_gate_d.Platform.{Platform, PlatformLaws}
use gb_516_hydropower_gate_d.Platform.Schema.{
  Tables, reservoir_entity, gate_entity, directive_entity, confirmation_entity,
}
use gb_516_hydropower_gate_d.Service.Reservoir
use gb_516_hydropower_gate_d.Service.Gate
use gb_516_hydropower_gate_d.Service.Directive
use gb_516_hydropower_gate_d.Service.Directive.Draft
use gb_516_hydropower_gate_d.Service.Directive.Effects.{GateStep, Transitioned}
use gb_516_hydropower_gate_d.Service.Confirmation
use gb_516_hydropower_gate_d.Service.Confirmation.{Outcome}
use gb_516_hydropower_gate_d.Service.Confirmation.Effects.{OutcomeStep, ConfirmationTransitioned}
use gb_516_hydropower_gate_d.System.Changes.{Change}
use gb_516_hydropower_gate_d.System.Serve.{Caller, Request, serve_all, serve_all_keeps}
use gb_516_hydropower_gate_d.System.Kinds.{
  reservoir, gate, directive, confirmation, IsAccounted, Logged-IsAccounted,
}
use gb_516_hydropower_gate_d.System.Kinds.Writes.{
  reservoir-Table, gate-Table, directive-Table, confirmation-Table, Stored-Logged, Written-Logged,
  Created-Logged, Deleted-Logged,
}

GateStep-IsAccounted :
    (linked : Option GateUnit × String) (actor request_id reason : String) (now : ℕ) (v v' : Tables)
    → GateStep linked actor request_id reason now v v'
    → IsAccounted v
    → IsAccounted v'
GateStep-IsAccounted (none, gate_target) actor request_id reason now v v' same h =
    subst IsAccounted (sym same) h
GateStep-IsAccounted (some g, gate_target) actor request_id reason now v v' (inl (_, same)) h =
    subst IsAccounted (sym same) h
GateStep-IsAccounted (some g, gate_target) actor request_id reason now v v' (inr (_, moved)) h =
    Logged-IsAccounted gate _ _ v v'
      (Written-Logged gate_entity gate gate-Table _ _ _ _ v v' moved (λ _. refl) (λ _. refl)
        (λ _. refl))
      h

Transitioned-IsAccounted :
    (u : Unicode) (v v' : Tables) {id : ℕ} {input : TransitionRequest}
    {actor role request_id : String}
    → Transitioned u id input actor role request_id v v'
    → IsAccounted v
    → IsAccounted v'
unfolding Directive.advanced
Transitioned-IsAccounted u v v' t h =
    GateStep-IsAccounted t.linked _ _ _ t.now t.middle v' t.gate_step (
      Logged-IsAccounted directive _ _ v t.middle
        (Stored-Logged directive_entity directive directive-Table _ _ _ _ _ v t.stored.middle
          t.middle t.stored.row t.stored.rest refl refl refl)
        h)

outcome-IsAccounted :
    (result : Option Outcome) (actor request_id reason : String) (now : ℕ) (v v' : Tables)
    → OutcomeStep result actor request_id reason now v v'
    → IsAccounted v
    → IsAccounted v'
outcome-IsAccounted none actor request_id reason now v v' same h = subst IsAccounted (sym same) h
outcome-IsAccounted (some o) actor request_id reason now v v' applied h =
    let middle =
      Logged-IsAccounted directive _ _ v applied.middle
        (Written-Logged directive_entity directive directive-Table _ _ _ _ v applied.middle
          applied.directive_written (λ _. refl) (λ _. refl) (λ _. refl))
        h in
    elim applied.gate_written [
      | inl (_, same) ↦ subst IsAccounted (sym same) middle
      | inr (_, moved) ↦
          Logged-IsAccounted gate _ _ applied.middle v'
            (Written-Logged gate_entity gate gate-Table _ _ _ _ applied.middle v' moved (λ _. refl)
              (λ _. refl) (λ _. refl))
            middle
    ]

confirmed-IsAccounted :
    (u : Unicode) (v v' : Tables) {id : ℕ} {input : TransitionRequest} {actor request_id : String}
    → ConfirmationTransitioned u id input actor request_id v v'
    → IsAccounted v
    → IsAccounted v'
unfolding Confirmation.transitioned
confirmed-IsAccounted u v v' t h =
    outcome-IsAccounted t.result _ _ _ t.now t.middle v' t.outcome_step (
      Logged-IsAccounted confirmation _ _ v t.middle
        (Written-Logged confirmation_entity confirmation confirmation-Table _ _ _ _ v t.middle
          t.written (λ _. refl) (λ _. refl) (λ _. refl))
        h)

pub Change-IsAccounted :
    (u : Unicode) (v v' : Tables) → Change u v v' → IsAccounted v → IsAccounted v'
unfolding Reservoir.edited_record Reservoir.transitioned Gate.edited_record Gate.transitioned
    Draft.edited_record Confirmation.edited_record
Change-IsAccounted u v v' (Change.no_change same) h = subst IsAccounted (sym same) h
Change-IsAccounted u v v' (Change.directive_moved id input actor role request_id t) h =
    Transitioned-IsAccounted u v v' t h
Change-IsAccounted u v v' (Change.confirmation_moved id input actor request_id t) h =
    confirmed-IsAccounted u v v' t h
Change-IsAccounted u v v' (Change.reservoir_created input actor request_id x c) h =
    Logged-IsAccounted reservoir _ _ v v'
      (Created-Logged reservoir_entity reservoir reservoir-Table _ actor request_id _ x v v'
        c.created)
      h
Change-IsAccounted u v v' (Change.reservoir_edited id input actor request_id c) h =
    Logged-IsAccounted reservoir _ _ v v'
      (Written-Logged reservoir_entity reservoir reservoir-Table _ _ _ _ v v' c.written (λ _. refl)
        (λ _. refl) (λ _. refl))
      h
Change-IsAccounted u v v' (Change.reservoir_moved id input actor request_id c) h =
    Logged-IsAccounted reservoir _ _ v v'
      (Written-Logged reservoir_entity reservoir reservoir-Table _ _ _ _ v v' c.written (λ _. refl)
        (λ _. refl) (λ _. refl))
      h
Change-IsAccounted u v v' (Change.reservoir_deleted id actor request_id c) h =
    Logged-IsAccounted reservoir _ _ v v'
      (Deleted-Logged reservoir_entity reservoir reservoir-Table _ _ v v' c.deleted (λ _. refl)
        (λ _. refl))
      h
Change-IsAccounted u v v' (Change.gate_created input actor request_id x c) h =
    Logged-IsAccounted gate _ _ v v'
      (Created-Logged gate_entity gate gate-Table _ actor request_id _ x v v' c.created) h
Change-IsAccounted u v v' (Change.gate_edited id input actor request_id c) h =
    Logged-IsAccounted gate _ _ v v'
      (Written-Logged gate_entity gate gate-Table _ _ _ _ v v' c.written (λ _. refl) (λ _. refl)
        (λ _. refl))
      h
Change-IsAccounted u v v' (Change.gate_moved id input actor request_id c) h =
    Logged-IsAccounted gate _ _ v v'
      (Written-Logged gate_entity gate gate-Table _ _ _ _ v v' c.written (λ _. refl) (λ _. refl)
        (λ _. refl))
      h
Change-IsAccounted u v v' (Change.gate_deleted id actor request_id c) h =
    Logged-IsAccounted gate _ _ v v'
      (Deleted-Logged gate_entity gate gate-Table _ _ v v' c.deleted (λ _. refl) (λ _. refl)) h
Change-IsAccounted u v v' (Change.directive_created input actor request_id x c) h =
    Logged-IsAccounted directive _ _ v v'
      (Created-Logged directive_entity directive directive-Table _ actor request_id _ x v v'
        c.created)
      h
Change-IsAccounted u v v' (Change.directive_edited id input actor request_id c) h =
    Logged-IsAccounted directive _ _ v v'
      (Written-Logged directive_entity directive directive-Table _ _ _ _ v v' c.written (λ _. refl)
        (λ _. refl) (λ _. refl))
      h
Change-IsAccounted u v v' (Change.directive_deleted id actor request_id c) h =
    Logged-IsAccounted directive _ _ v v'
      (Deleted-Logged directive_entity directive directive-Table _ _ v v' c.deleted (λ _. refl)
        (λ _. refl))
      h
Change-IsAccounted u v v' (Change.confirmation_created input actor request_id x c) h =
    Logged-IsAccounted confirmation _ _ v v'
      (Created-Logged confirmation_entity confirmation confirmation-Table _ actor request_id _ x v
        v' c.created)
      h
Change-IsAccounted u v v' (Change.confirmation_edited id input actor request_id c) h =
    Logged-IsAccounted confirmation _ _ v v'
      (Written-Logged confirmation_entity confirmation confirmation-Table _ _ _ _ v v' c.written
        (λ _. refl) (λ _. refl) (λ _. refl))
      h
Change-IsAccounted u v v' (Change.confirmation_deleted id actor request_id c) h =
    Logged-IsAccounted confirmation _ _ v v'
      (Deleted-Logged confirmation_entity confirmation confirmation-Table _ _ v v' c.deleted
        (λ _. refl) (λ _. refl))
      h

-- Whatever requests are served, with whatever answers and failures of the database, the newest audit
-- entry about each live record names the state that the record is in, if this was so at the start.
pub serve_all-IsAccounted :
    (u : Unicode) (p : Platform)
    → PlatformLaws p
    → (requests : List (Caller × Request)) (w : p.World) → IsAccounted (p.view w)
    → IsAccounted (p.view (serve_all u p requests w))
serve_all-IsAccounted u p laws requests w h =
    serve_all_keeps u p laws IsAccounted (λ v v' c. Change-IsAccounted u v v' c) requests w h
