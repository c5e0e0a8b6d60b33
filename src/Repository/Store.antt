-- ===== src/Repository/Store.antt =====
-- backend/internal/repository/base.go: the generic `Store[T]`, transactions, and paging.
pub mod Laws
use gb_516_hydropower_gate_d.Prelude.{ℕ, String, Bool, not, ◌==◌, ltb, if◌then◌else◌}
use gb_516_hydropower_gate_d.Exec.{
  Error, version_conflict, record_not_found, Exec, pure, raise, require, ◌>>=◌, ◌>>◌,
}
use gb_516_hydropower_gate_d.Text.{Unicode, trim_space, to_upper}
use gb_516_hydropower_gate_d.Model.{AuditLog}
use gb_516_hydropower_gate_d.Platform.{Platform, Statements}

-- Whether the context carries the handle of a transaction (`transactionContextKey`).
pub data Context : Type 0 where
  request in_transaction : Context

-- The form in which codes are stored: `strings.ToUpper(strings.TrimSpace(code))`.
unfoldable pub normal_code : Unicode → String → String
normal_code u code = to_upper u (trim_space code)

module _ (p : Platform) where
  -- A transaction within a transaction joins it.
  unfoldable pub within_transaction :
      {A : Type 0} → Context → (Context → Exec p.World A) → Exec p.World A
  within_transaction in_transaction fn = fn in_transaction
  within_transaction {A} request fn = p.transaction A (fn in_transaction)

  module _ {T : Type 0} (s : Statements p.World T) where
    unfoldable pub get : ℕ → Exec p.World T
    get id = s.first id

    unfoldable pub get_by_code : Unicode → String → Exec p.World T
    get_by_code u code = s.first_by_code (normal_code u code)

    unfoldable pub create : T → Exec p.World T
    create item = s.create item

    unfoldable pub update : ℕ → ℕ → T → Exec p.World (Unit {0})
    update id expected_version item = do
      affected ← s.updates id expected_version item
      require (not (affected == 0)) version_conflict

    unfoldable pub delete : ℕ → Exec p.World (Unit {0})
    delete id = do affected ← s.delete id; require (not (affected == 0)) record_not_found

    unfoldable pub transition_with_audit : ℕ → ℕ → T → AuditLog → Exec p.World (Unit {0})
    transition_with_audit id expected_version item audit =
        p.transaction Unit (do update id expected_version item; p.create_audit audit)
