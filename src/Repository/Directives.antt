-- ===== src/Repository/Directives.antt =====
-- backend/internal/repository/operation_directive.go: a directive is read with its approvals, and a
-- transition stores the row, the approval and the audit entry in one transaction.
pub mod Laws
use gb_516_hydropower_gate_d.Prelude.{ℕ, String, Option, none, some}
use gb_516_hydropower_gate_d.Exec.{Exec, pure, ◌>>=◌, ◌>>◌}
use gb_516_hydropower_gate_d.Text.{Unicode}
use gb_516_hydropower_gate_d.Model.{OperationDirective, DirectiveApproval, AuditLog}
use gb_516_hydropower_gate_d.Platform.{Platform}
use gb_516_hydropower_gate_d.Repository.Store

module _ (p : Platform) where
  unfoldable pub get : ℕ → Exec p.World OperationDirective
  get id = do
    item ← p.directives.first id
    approvals ← p.find_approvals id
    pure (record item { approvals = approvals })

  unfoldable pub get_by_code : Unicode → String → Exec p.World OperationDirective
  get_by_code u code = do item ← Store.get_by_code p p.directives u code; get item.id

  unfoldable pub create_approval : ℕ → Option DirectiveApproval → Exec p.World (Unit {0})
  create_approval id none = pure tt
  create_approval id (some approval) = p.create_approval (record approval { directive_id = id })

  unfoldable pub transition_with_approval :
      ℕ → ℕ → OperationDirective → Option DirectiveApproval → AuditLog → Exec p.World (Unit {0})
  unfolding create_approval
  transition_with_approval id version item approval audit = p.transaction Unit (do
    Store.update p p.directives id version item
    create_approval id approval
    p.create_audit audit)
