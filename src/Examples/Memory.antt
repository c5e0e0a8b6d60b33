-- ===== src/Examples/Memory.antt =====
-- A database in memory: a `Platform` whose laws hold.
use gb_516_hydropower_gate_d.Prelude.{
  ℕ, suc, String, ◌≡◌, refl, ap, subst, ◌∙◌, ◌⊎◌, inl, inr, Bool, false, ◌&&◌, Option, none, some,
  List, [], ◌∷◌, ◌==◌, ◌=ˢ◌, if◌then◌else◌, Bool-cases, arith, eq_iff,
}
use gb_516_hydropower_gate_d.Exec.{Error, Exec, ok, err, record_not_found, database_error, After}
use gb_516_hydropower_gate_d.Model.{
  before_create, Reservoir, GateUnit, OperationDirective, DirectiveApproval, ExecutionConfirmation,
  AuditLog,
}
use gb_516_hydropower_gate_d.Platform.{Statements, StatementLaws}
use gb_516_hydropower_gate_d.Platform.Schema.{
  Rows, Tables, Entity, merged, Inserted, Stored, Removed,
}

-- The newest version of a row hides the older ones; `none` is a row that was deleted.
abbrev pub Versions : Type 0 → Type 0
Versions T = List (ℕ × Option T)

abbrev pub find : {T : Type 0} → Versions T → Rows T
find [] j = none
find ((id, row) ∷ rest) j = if id == j then row else find rest j

pub record Memory : Type 0 where
  pub reservoirs : Versions Reservoir
  pub gates : Versions GateUnit
  pub directives : Versions OperationDirective
  pub confirmations : Versions ExecutionConfirmation
  pub approvals : List DirectiveApproval
  pub audits : List AuditLog
  pub next : ℕ
  pub clock : ℕ

abbrev pub empty_memory : Memory
empty_memory = record {
  reservoirs = [];
  gates = [];
  directives = [];
  confirmations = [];
  approvals = [];
  audits = [];
  next = 1;
  clock = 1000;
}

abbrev pub tables : Memory → Tables
tables m = record {
  reservoirs = find m.reservoirs;
  gates = find m.gates;
  directives = find m.directives;
  confirmations = find m.confirmations;
  approvals = m.approvals;
  audits = m.audits;
}

-- Where the rows of an entity are kept.
pub record Slot {T : Type 0} (e : Entity T) : Type 0 where
  pub versions : Memory → Versions T
  pub push : ℕ → Option T → Memory → Memory
  pub rows_law : (m : Memory) → e.rows (tables m) ≡ find (versions m)
  pub push_law :
      (id : ℕ) (row : Option T) (m : Memory) → tables (push id row m) ≡ e.put id row (tables m)

module _ {T : Type 0} (e : Entity T) (slot : Slot e) where
  abbrev answer_first : ℕ → Option T → Exec Memory T
  answer_first id none m = (err record_not_found, m)
  answer_first id (some x) m = (if (e.base x).id == id then ok x else err record_not_found, m)

  abbrev has_code : String → ℕ → Option T → Bool
  has_code c id none = false
  has_code c id (some x) = (e.base x).id == id && (e.base x).code =ˢ c

  abbrev search_code : String → Versions T → Versions T → Option T
  search_code c all [] = none
  search_code c all ((id, _) ∷ rest) =
      let later = search_code c all rest in
      if has_code c id (find all id) then find all id else later

  abbrev answer_code : Option T → Exec Memory T
  answer_code none m = (err record_not_found, m)
  answer_code (some x) m = (ok x, m)

  abbrev inserted : T → Memory → T
  inserted item m =
      e.with_base
        (record (before_create (e.base item)) {
          id = m.next;
          created_at = m.clock;
          updated_at = m.clock;
        })
        item

  abbrev answer_create : T → Option T → Exec Memory T
  answer_create item (some _) m = (err database_error, m)
  answer_create item none m =
      let x = inserted item m in
      (ok x, record (slot.push m.next (some (e.columns x)) m) { next = suc m.next })

  abbrev answer_updates : ℕ → ℕ → T → Option T → Exec Memory ℕ
  answer_updates id version item none m = (ok 0, m)
  answer_updates id version item (some old) m =
      if (e.base old).version == version
      then (ok 1, slot.push id (some (merged e old item m.clock)) m)
      else (ok 0, m)

  abbrev answer_delete : ℕ → Option T → Exec Memory ℕ
  answer_delete id none m = (ok 0, m)
  answer_delete id (some _) m = (ok 1, slot.push id none m)

  abbrev pub statements : Statements Memory T
  statements = record {
    first = λ id m. answer_first id (find (slot.versions m) id) m;
    first_by_code = λ c m. answer_code (search_code c (slot.versions m) (slot.versions m)) m;
    create = λ item m. answer_create item (find (slot.versions m) m.next) m;
    updates = λ id version item m. answer_updates id version item (find (slot.versions m) id) m;
    delete = λ id m. answer_delete id (find (slot.versions m) id) m;
  }

  abbrev IsFirst : ℕ → Memory → T → Memory → Type 0
  IsFirst id m x m' =
      (e.rows (tables m) id ≡ some x) × ((e.base x).id ≡ id) × (tables m' ≡ tables m)

  abbrev Unchanged : Memory → Error → Memory → Type 0
  Unchanged m _ m' = tables m' ≡ tables m

  at_slot :
      (id : ℕ) (row : Option T) (m : Memory)
      → find (slot.versions m) id ≡ row
      → e.rows (tables m) id ≡ row
  at_slot id row m h = ap (λ (r : Rows T). r id) (slot.rows_law m) ∙ h

  IsFirst-After :
      (id : ℕ) (row : Option T) (m : Memory)
      → find (slot.versions m) id ≡ row
      → After (IsFirst id m) (Unchanged m) (answer_first id row m)
  IsFirst-After id none m h = record { holds = refl }
  IsFirst-After id (some x) m h = elim (Bool-cases ((e.base x).id == id)) [
    | inl same ↦ rw same (record { holds = (at_slot id (some x) m h, ground arith, refl) })
    | inr other ↦ rw other (record { holds = refl })
  ]

  abbrev HasCode : String → Versions T → T → Type 0
  HasCode c all x = (find all (e.base x).id ≡ some x) × ((e.base x).code ≡ c)

  search_step :
      (c : String) (all : Versions T) (id : ℕ) (row later : Option T) (x : T)
      → find all id ≡ row
      → (if has_code c id row then row else later) ≡ some x
      → (later ≡ some x → HasCode c all x)
      → HasCode c all x
  search_step c all id none later x f h k = k h
  search_step c all id (some y) later x f h k = elim (Bool-cases (has_code c id (some y))) [
    | inl good ↦
        let same : y ≡ x = cc (rw good at h) in
        let id_eq : (e.base y).id ≡ id = ground arith in
        let code_eq : (e.base y).code ≡ c = ground (arith, eq_iff (e.base y).code c) in
        subst (HasCode c all) same (ap (find all) id_eq ∙ f, code_eq)
    | inr bad ↦ k (rw bad at h)
  ]

  search_code_found :
      (c : String) (all l : Versions T) (x : T) → search_code c all l ≡ some x → HasCode c all x
  search_code_found c all [] x h = absurd (cc (h))
  search_code_found c all ((id, _) ∷ rest) x h =
      search_step c all id (find all id) (search_code c all rest) x refl h
        (search_code_found c all rest x)

  first_by_code_After :
      (c : String) (found : Option T) (m : Memory)
      → search_code c (slot.versions m) (slot.versions m) ≡ found
      → After
          (λ x m'.
            (e.rows (tables m) (e.base x).id ≡ some x)
            × ((e.base x).code ≡ c)
            × (tables m' ≡ tables m))
          (Unchanged m)
          (answer_code found m)
  first_by_code_After c none m h = record { holds = refl }
  first_by_code_After c (some x) m h =
      let (row, code_eq) = search_code_found c (slot.versions m) (slot.versions m) x h in
      record { holds = (at_slot _ (some x) m row, code_eq, refl) }

  create_After :
      (item : T) (row : Option T) (m : Memory)
      → find (slot.versions m) m.next ≡ row
      → After
          (λ x m'. Inserted e item x (tables m) (tables m'))
          (Unchanged m)
          (answer_create item row m)
  create_After item (some x) m h = record { holds = refl }
  create_After item none m h = record {
    holds = record {
      id = m.next;
      time = m.clock;
      free = at_slot m.next none m h;
      item_eq = refl;
      inserted = slot.push_law _ _ m;
    };
  }

  updates_After :
      (id version : ℕ) (item : T) (row : Option T) (m : Memory)
      → find (slot.versions m) id ≡ row
      → After
          (λ n m'.
            (n ≡ 0) × (tables m' ≡ tables m)
            ⊎ (n ≡ 1) × Stored e id version item (tables m) (tables m'))
          (Unchanged m)
          (answer_updates id version item row m)
  updates_After id version item none m h = record { holds = inl (refl, refl) }
  updates_After id version item (some old) m h =
      elim (Bool-cases ((e.base old).version == version)) [
        | inr other ↦ rw other (record { holds = inl (refl, refl) })
        | inl same ↦ rw same (record {
          holds = inr (
            refl,
            record {
              old = old;
              time = m.clock;
              found = at_slot id (some old) m h;
              versions = ground arith;
              stored = slot.push_law _ _ m;
            },
          );
        })
      ]

  delete_After :
      (id : ℕ) (row : Option T) (m : Memory)
      → find (slot.versions m) id ≡ row
      → After
          (λ n m'. (n ≡ 0) × (tables m' ≡ tables m) ⊎ (n ≡ 1) × Removed e id (tables m) (tables m'))
          (Unchanged m)
          (answer_delete id row m)
  delete_After id none m h = record { holds = inl (refl, refl) }
  delete_After id (some old) m h = record {
    holds = inr (
      refl,
      record { old = old; found = at_slot id (some old) m h; removed = slot.push_law _ _ m },
    );
  }

  pub statement_laws : StatementLaws tables e statements
  statement_laws = record {
    first_law = λ id m. IsFirst-After id _ m refl;
    first_by_code_law = λ c m. first_by_code_After c _ m refl;
    create_law = λ item m. create_After item _ m refl;
    updates_law = λ id version item m. updates_After id version item _ m refl;
    delete_law = λ id m. delete_After id _ m refl;
  }
