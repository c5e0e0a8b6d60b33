-- ===== src/System/Kinds.antt =====
-- The status of every record, whatever its kind, beside the audit trail: one write is one entry.
pub mod Writes
use gb_516_hydropower_gate_d.Prelude.{
  ℕ, String, ◌≡◌, refl, ◌∙◌, ap, sym, Bool, true, false, ◌&&◌, Option, none, some, List, [], ◌∷◌,
  arith, ◌==◌, ◌=ˢ◌, eq_iff, Bool-cases, inl, inr, if◌then◌else◌,
}
use gb_516_hydropower_gate_d.Model.{BaseModel, Reservoir, AuditLog}
use gb_516_hydropower_gate_d.Platform.Schema.{
  Tables, Rows, override, merged, Entity, Inserted, Stored, Removed, reservoir_entity, gate_entity,
  directive_entity, confirmation_entity,
}
use gb_516_hydropower_gate_d.Service.Security.Laws.{Audited}
use gb_516_hydropower_gate_d.Service.Records.{Written, Created, Deleted}

pub data Kind : Type 0 where
  reservoir gate directive confirmation : Kind

-- `entity_type` in the audit entries
abbrev pub kind_name : Kind → String
kind_name reservoir = "Reservoir"
kind_name gate = "GateUnit"
kind_name directive = "OperationDirective"
kind_name confirmation = "ExecutionConfirmation"

abbrev pub same_kind : Kind → Kind → Bool
same_kind reservoir reservoir = true
same_kind gate gate = true
same_kind directive directive = true
same_kind confirmation confirmation = true
same_kind _ _ = false

abbrev pub status_in : {T : Type 0} → (T → BaseModel) → Option T → Option String
status_in base none = none
status_in base (some x) = some (base x).status

-- The status of the live record of this kind with this id.
abbrev pub status_of : Kind → Tables → ℕ → Option String
status_of reservoir v id = status_in (λ x. x.base) (v.reservoirs id)
status_of gate v id = status_in (λ x. x.base) (v.gates id)
status_of directive v id = status_in (λ x. x.base) (v.directives id)
status_of confirmation v id = status_in (λ x. x.base) (v.confirmations id)

-- The state after the newest entry about this record.
unfoldable pub last_state : String → ℕ → List AuditLog → Option String
last_state name id [] = none
last_state name id (a ∷ rest) =
    if a.entity_type =ˢ name && a.entity_id == id
    then some a.after_state
    else last_state name id rest

-- One record of the kind has a new status, or is gone, and the trail has one more entry, which says so.
pub record Logged (k : Kind) (id : ℕ) (new : Option String) (v v' : Tables) : Type 0 where
  pub entry : AuditLog
  pub statuses :
      (j : Kind) (i : ℕ)
      → status_of j v' i ≡ (if same_kind k j && id == i then new else status_of j v i)
  pub trail : v'.audits ≡ entry ∷ v.audits
  pub entry_type : entry.entity_type ≡ kind_name k
  pub entry_id : entry.entity_id ≡ id
  pub says : (s : String) → new ≡ some s → entry.after_state ≡ s

-- The trail accounts for every live record.
abbrev pub IsAccounted : Tables → Type 0
IsAccounted v =
    (k : Kind) (id : ℕ) (s : String)
    → status_of k v id ≡ some s
    → last_state (kind_name k) id v.audits ≡ some s

same_kind-name : (k j : Kind) → (kind_name k =ˢ kind_name j) ≡ same_kind k j
same_kind-name reservoir reservoir = refl
same_kind-name reservoir gate = refl
same_kind-name reservoir directive = refl
same_kind-name reservoir confirmation = refl
same_kind-name gate reservoir = refl
same_kind-name gate gate = refl
same_kind-name gate directive = refl
same_kind-name gate confirmation = refl
same_kind-name directive reservoir = refl
same_kind-name directive gate = refl
same_kind-name directive directive = refl
same_kind-name directive confirmation = refl
same_kind-name confirmation reservoir = refl
same_kind-name confirmation gate = refl
same_kind-name confirmation directive = refl
same_kind-name confirmation confirmation = refl

pub Logged-IsAccounted :
    (k : Kind) (id : ℕ) (new : Option String) (v v' : Tables)
    → Logged k id new v v'
    → IsAccounted v
    → IsAccounted v'
unfolding last_state
Logged-IsAccounted k id new v v' l h j i s e =
    rw (l.trail, l.entry_type, l.entry_id, same_kind-name k j)
      (elim (Bool-cases (same_kind k j && id == i)) [
        | inl this ↦ rw this (ap some (l.says s (sym (rw this at (l.statuses j i)) ∙ e)))
        | inr other ↦ rw other (h j i s (sym (rw other at (l.statuses j i)) ∙ e))
      ])
