-- ===== src/System/Kinds/Writes.antt =====
-- A write of a record with its audit entry is one logged step, for each of the four tables.
use gb_516_hydropower_gate_d.Prelude.{
  ℕ, String, ◌≡◌, refl, ◌∙◌, ap, sym, subst, List, Bool, true, false, ◌&&◌, Option, none, some, ◌∷◌,
  ◌==◌, if◌then◌else◌,
}
use gb_516_hydropower_gate_d.Model.{
  BaseModel, AuditLog, DirectiveApproval, Reservoir, GateUnit, OperationDirective,
  ExecutionConfirmation,
}
use gb_516_hydropower_gate_d.Platform.Schema.{
  Tables, Entity, Stored, merged, reservoir_entity, gate_entity, directive_entity,
  confirmation_entity,
}
use gb_516_hydropower_gate_d.Service.Records.{Written, Created, Deleted}
use gb_516_hydropower_gate_d.System.Kinds.{
  Kind, reservoir, gate, directive, confirmation, kind_name, same_kind, status_in, status_of,
  Logged,
}

-- How the statuses follow a write to the table of a kind.
pub record Table {T : Type 0} (e : Entity T) (k : Kind) : Type 0 where
  pub status_put :
      (j : Kind) (i id : ℕ) (row : Option T) (v : Tables)
      → status_of j (e.put id row v) i
        ≡ (if same_kind k j && id == i then status_in e.base row else status_of j v i)
  pub audits_put : (id : ℕ) (row : Option T) (v : Tables) → (e.put id row v).audits ≡ v.audits
  pub status_merged :
      (old item : T) (time : ℕ) → (e.base (merged e old item time)).status ≡ (e.base item).status
  pub base-with_base : (b : BaseModel) (item : T) → e.base (e.with_base b item) ≡ b
  pub status_columns : (item : T) → (e.base (e.columns item)).status ≡ (e.base item).status

status_if :
    {T : Type 0} (base : T → BaseModel) (b : Bool) (x y : Option T)
    → status_in base (if b then x else y) ≡ (if b then status_in base x else status_in base y)
status_if base true x y = refl
status_if base false x y = refl

status_audits :
    (j : Kind) (i : ℕ) (v : Tables) (approvals : List DirectiveApproval) (audits : List AuditLog)
    → status_of j (record v { approvals = approvals; audits = audits }) i ≡ status_of j v i
status_audits reservoir i v approvals audits = refl
status_audits gate i v approvals audits = refl
status_audits directive i v approvals audits = refl
status_audits confirmation i v approvals audits = refl

reservoir_status_put :
    (j : Kind) (i id : ℕ) (row : Option Reservoir) (v : Tables)
    → status_of j (reservoir_entity.put id row v) i ≡ (
        if same_kind reservoir j && id == i
        then status_in reservoir_entity.base row
        else status_of j v i)
reservoir_status_put reservoir i id row v = status_if (λ (x : Reservoir). x.base) (id == i) row _
reservoir_status_put gate i id row v = refl
reservoir_status_put directive i id row v = refl
reservoir_status_put confirmation i id row v = refl

pub reservoir-Table : Table reservoir_entity reservoir
reservoir-Table = record {
  status_put = reservoir_status_put;
  audits_put = λ id row v. refl;
  status_merged = λ old item time. refl;
  base-with_base = λ b item. refl;
  status_columns = λ item. refl;
}

gate_status_put :
    (j : Kind) (i id : ℕ) (row : Option GateUnit) (v : Tables)
    → status_of j (gate_entity.put id row v) i
      ≡ (if same_kind gate j && id == i then status_in gate_entity.base row else status_of j v i)
gate_status_put reservoir i id row v = refl
gate_status_put gate i id row v = status_if (λ (x : GateUnit). x.base) (id == i) row _
gate_status_put directive i id row v = refl
gate_status_put confirmation i id row v = refl

pub gate-Table : Table gate_entity gate
gate-Table = record {
  status_put = gate_status_put;
  audits_put = λ id row v. refl;
  status_merged = λ old item time. refl;
  base-with_base = λ b item. refl;
  status_columns = λ item. refl;
}

directive_status_put :
    (j : Kind) (i id : ℕ) (row : Option OperationDirective) (v : Tables)
    → status_of j (directive_entity.put id row v) i ≡ (
        if same_kind directive j && id == i
        then status_in directive_entity.base row
        else status_of j v i)
directive_status_put reservoir i id row v = refl
directive_status_put gate i id row v = refl
directive_status_put directive i id row v =
    status_if (λ (x : OperationDirective). x.base) (id == i) row _
directive_status_put confirmation i id row v = refl

pub directive-Table : Table directive_entity directive
directive-Table = record {
  status_put = directive_status_put;
  audits_put = λ id row v. refl;
  status_merged = λ old item time. refl;
  base-with_base = λ b item. refl;
  status_columns = λ item. refl;
}

confirmation_status_put :
    (j : Kind) (i id : ℕ) (row : Option ExecutionConfirmation) (v : Tables)
    → status_of j (confirmation_entity.put id row v) i ≡ (
        if same_kind confirmation j && id == i
        then status_in confirmation_entity.base row
        else status_of j v i)
confirmation_status_put reservoir i id row v = refl
confirmation_status_put gate i id row v = refl
confirmation_status_put directive i id row v = refl
confirmation_status_put confirmation i id row v =
    status_if (λ (x : ExecutionConfirmation). x.base) (id == i) row _

pub confirmation-Table : Table confirmation_entity confirmation
confirmation-Table = record {
  status_put = confirmation_status_put;
  audits_put = λ id row v. refl;
  status_merged = λ old item time. refl;
  base-with_base = λ b item. refl;
  status_columns = λ item. refl;
}

module _ {T : Type 0} (e : Entity T) (k : Kind) (table : Table e k) where
  -- Any change of one row, with an entry that says what has become of it.
  put-Logged :
      (id : ℕ) (row : Option T) (entry : AuditLog) (approvals : List DirectiveApproval)
      (v m v' : Tables)
      → m ≡ e.put id row v
      → v' ≡ record m { approvals = approvals; audits = entry ∷ m.audits }
      → entry.entity_type ≡ kind_name k
      → entry.entity_id ≡ id
      → ((s : String) → status_in e.base row ≡ some s → entry.after_state ≡ s)
      → Logged k id (status_in e.base row) v v'
  put-Logged id row entry approvals v m v' put added types ids says = record {
    entry = entry;
    statuses = λ j i.
        ap (λ (t : Tables). status_of j t i) added
        ∙ status_audits j i m approvals (entry ∷ m.audits)
        ∙ ap (λ (t : Tables). status_of j t i) put
        ∙ table.status_put j i id row v;
    trail =
        ap (λ (t : Tables). t.audits) added
        ∙ ap (λ (t : Tables). entry ∷ t.audits) put
        ∙ ap (λ l. entry ∷ l) (table.audits_put id row v);
    entry_type = types;
    entry_id = ids;
    says = says;
  }

  -- A stored row, in the state that the entry names.
  pub Stored-Logged :
      (id version : ℕ) (item : T) (entry : AuditLog) (approvals : List DirectiveApproval)
      (v m v' : Tables)
      → Stored e id version item v m
      → v' ≡ record m { approvals = approvals; audits = entry ∷ m.audits }
      → entry.entity_type ≡ kind_name k
      → entry.entity_id ≡ id
      → entry.after_state ≡ (e.base item).status
      → Logged k id (some (e.base item).status) v v'
  Stored-Logged id version item entry approvals v m v' row added types ids says =
      subst (λ s. Logged k id (some s) v v') (table.status_merged row.old item row.time)
        (put-Logged id (some (merged e row.old item row.time)) entry approvals v m v' row.stored
          added types ids (λ s h. says ∙ sym (table.status_merged row.old item row.time) ∙ cc h))

  pub Written-Logged :
      (id version : ℕ) (item : T) (entry : ℕ → AuditLog) (v v' : Tables)
      → Written e id version item entry v v'
      → ((time : ℕ) → (entry time).entity_type ≡ kind_name k)
      → ((time : ℕ) → (entry time).entity_id ≡ id)
      → ((time : ℕ) → (entry time).after_state ≡ (e.base item).status)
      → Logged k id (some (e.base item).status) v v'
  Written-Logged id version item entry v v' w types ids says =
      let a = w.trail in
      Stored-Logged id version item (record (entry a.time) { id = a.id }) w.middle.approvals v
        w.middle v' w.row a.audited (types a.time) (ids a.time) (says a.time)

  pub Created-Logged :
      (detail actor request_id : String) (item x : T) (v v' : Tables)
      → Created e (kind_name k) detail actor request_id item x v v'
      → Logged k (e.base x).id (some (e.base x).status) v v'
  Created-Logged detail actor request_id item x v v' c =
      let a = c.trail in
      let id_eq : (e.base x).id ≡ c.row.id =
        ap (λ (y : T). (e.base y).id) c.row.item_eq
        ∙ ap (λ (b : BaseModel). b.id) (table.base-with_base _ item) in
      subst (λ i. Logged k i (some (e.base x).status) v v') (sym id_eq)
        (subst (λ s. Logged k c.row.id (some s) v v') (table.status_columns x)
          (put-Logged c.row.id (some (e.columns x)) _ c.middle.approvals v c.middle v'
            c.row.inserted a.audited refl id_eq (λ s h. sym (table.status_columns x) ∙ cc h)))

  pub Deleted-Logged :
      (id : ℕ) (entry : ℕ → AuditLog) (v v' : Tables)
      → Deleted e id entry v v'
      → ((time : ℕ) → (entry time).entity_type ≡ kind_name k)
      → ((time : ℕ) → (entry time).entity_id ≡ id)
      → Logged k id none v v'
  Deleted-Logged id entry v v' d types ids =
      let a = d.trail in
      put-Logged id none (record (entry a.time) { id = a.id }) d.middle.approvals v d.middle v'
        d.row.removed a.audited (types a.time) (ids a.time) (λ s h. cc h)
