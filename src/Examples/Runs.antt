-- ===== src/Examples/Runs.antt =====
-- A dispatch from the draft to the receipt, run on the database in memory.
use gb_516_hydropower_gate_d.Prelude.{String, ◌≡◌, refl, Option, none, some, List}
use gb_516_hydropower_gate_d.Exec.{◌>>=◌}
use gb_516_hydropower_gate_d.Model.{OperationDirective}
use gb_516_hydropower_gate_d.Text.{trim_space, trim_left, trim_right, is_space, equal_fold}
use gb_516_hydropower_gate_d.Constants.{can_transition, contains, lookup}
use gb_516_hydropower_gate_d.Repository.Store
use gb_516_hydropower_gate_d.Repository.Directives
use gb_516_hydropower_gate_d.Repository.Directives.{transition_with_approval, create_approval}
use gb_516_hydropower_gate_d.Service.Directive
use gb_516_hydropower_gate_d.Service.Directive.{
  directive_role_allowed, linked_gate, advanced, approval_for, move_gate,
}
use gb_516_hydropower_gate_d.System.Serve.{Caller, Request, serve, serve_all}
use gb_516_hydropower_gate_d.Examples.Data.{approval, submitted_memory}
use gb_516_hydropower_gate_d.Examples.Memory.{tables}
use gb_516_hydropower_gate_d.Examples.Database.{memory, ascii}

abbrev status_of_row : Option OperationDirective → String
status_of_row none = "no such directive"
status_of_row (some x) = x.status

abbrev status_after : List (Caller × Request) → String
status_after requests =
    status_of_row ((tables (serve_all ascii memory requests submitted_memory)).directives 5)

approved_by_bob : status_after approval ≡ "approved"
unfolding serve_all serve Directive.transition ◌>>=◌ trim_space trim_left trim_right is_space
    can_transition contains lookup Directives.get Store.get directive_role_allowed equal_fold
    linked_gate Store.within_transaction transition_with_approval create_approval advanced
    approval_for Store.update Store.transition_with_audit move_gate
approved_by_bob = refl
