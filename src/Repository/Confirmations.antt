-- ===== src/Repository/Confirmations.antt =====
-- backend/internal/repository/execution_confirmation.go
use gb_516_hydropower_gate_d.Prelude.{ℕ, String}
use gb_516_hydropower_gate_d.Exec.{Exec}
use gb_516_hydropower_gate_d.Text.{Unicode}
use gb_516_hydropower_gate_d.Platform.{Platform}
use gb_516_hydropower_gate_d.Repository.Store.{normal_code}

module _ (p : Platform) where
  unfoldable pub count_by_directive_code : Unicode → String → Exec p.World ℕ
  count_by_directive_code u code = p.count_related (normal_code u code)
