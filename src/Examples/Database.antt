-- ===== src/Examples/Database.antt =====
-- The platform that keeps its tables in memory and rolls a failed transaction back.
use gb_516_hydropower_gate_d.Prelude.{
  ℕ, suc, String, Char, code, ◌≡◌, refl, inl, inr, Bool, false, Option, none, some, List, [], ◌∷◌,
  ◌++◌, ◌==◌, ◌=ˢ◌, if◌then◌else◌, Bool-cases, arith, eq_iff, subst,
}
use gb_516_hydropower_gate_d.Exec.{Result, Exec, ok, err, After}
use gb_516_hydropower_gate_d.Text.{Unicode}
use gb_516_hydropower_gate_d.Model.{DirectiveApproval, ExecutionConfirmation}
use gb_516_hydropower_gate_d.Platform.{Platform, PlatformLaws}
use gb_516_hydropower_gate_d.Platform.Schema.{
  reservoir_entity, gate_entity, directive_entity, confirmation_entity,
}
use gb_516_hydropower_gate_d.Examples.Memory.{
  Memory, Versions, find, tables, Slot, statements, statement_laws,
}

abbrev reservoir_slot : Slot reservoir_entity
reservoir_slot = record {
  versions = λ m. m.reservoirs;
  push = λ id row m. record m { reservoirs = (id, row) ∷ m.reservoirs };
  rows_law = λ m. refl;
  push_law = λ id row m. refl;
}

abbrev gate_slot : Slot gate_entity
gate_slot = record {
  versions = λ m. m.gates;
  push = λ id row m. record m { gates = (id, row) ∷ m.gates };
  rows_law = λ m. refl;
  push_law = λ id row m. refl;
}

abbrev directive_slot : Slot directive_entity
directive_slot = record {
  versions = λ m. m.directives;
  push = λ id row m. record m { directives = (id, row) ∷ m.directives };
  rows_law = λ m. refl;
  push_law = λ id row m. refl;
}

abbrev confirmation_slot : Slot confirmation_entity
confirmation_slot = record {
  versions = λ m. m.confirmations;
  push = λ id row m. record m { confirmations = (id, row) ∷ m.confirmations };
  rows_law = λ m. refl;
  push_law = λ id row m. refl;
}

-- Oldest first.
abbrev approvals_of : ℕ → List DirectiveApproval → List DirectiveApproval
approvals_of id [] = []
approvals_of id (a ∷ rest) =
    let older = approvals_of id rest in if a.directive_id == id then older ++ a ∷ [] else older

abbrev is_related : String → Option ExecutionConfirmation → Bool
is_related c none = false
is_related c (some x) = x.related_code =ˢ c

abbrev count : String → Versions ExecutionConfirmation → Versions ExecutionConfirmation → ℕ
count c all [] = 0
count c all ((id, _) ∷ rest) =
    let others = count c all rest in if is_related c (find all id) then suc others else others

abbrev pub settled : {A : Type 0} → Memory → Result A × Memory → Result A × Memory
settled m (ok a, done) = (ok a, done)
settled m (err e, _) = (err e, m)

abbrev pub memory : Platform
memory = record {
  World = Memory;
  view = tables;
  reservoirs = statements reservoir_entity reservoir_slot;
  gates = statements gate_entity gate_slot;
  directives = statements directive_entity directive_slot;
  confirmations = statements confirmation_entity confirmation_slot;
  find_approvals = λ id m. (ok (approvals_of id m.approvals), m);
  create_approval = λ a m.
      (ok tt, record m { approvals = record a { id = m.next } ∷ m.approvals; next = suc m.next });
  create_audit =
      λ a m. (ok tt, record m { audits = record a { id = m.next } ∷ m.audits; next = suc m.next });
  count_related = λ c m. (ok (count c m.confirmations m.confirmations), m);
  transaction = λ A body m. settled m (body m);
  now = λ m. (ok m.clock, record m { clock = suc m.clock });
}

absent :
    (c : String) (x : ExecutionConfirmation) (n : ℕ)
    → (if is_related c (some x) then suc n else n) ≡ 0
    → (x.related_code ≡ c)
    → ⊥
absent c x n h e = ground (arith, eq_iff x.related_code c)

none_left : (b : Bool) (n : ℕ) → (if b then suc n else n) ≡ 0 → n ≡ 0
none_left b n h = ground arith

count_zero :
    (c : String) (all l : Versions ExecutionConfirmation)
    → count c all l ≡ 0
    → (id : ℕ) (x : ExecutionConfirmation) → find all id ≡ some x
    → find l id ≡ some x
    → ¬ (x.related_code ≡ c)
count_zero c all [] h id x found here e = absurd (cc (here))
count_zero c all ((i, row) ∷ rest) h id x found here e = elim (Bool-cases (i == id)) [
  | inl this ↦
      let same : id ≡ i = ground arith in
      absent c x (count c all rest)
        (subst (λ r. (if is_related c r then suc (count c all rest) else count c all rest) ≡ 0)
          (subst (λ k. find all k ≡ some x) same found) h)
        e
  | inr other ↦ count_zero c all rest (none_left _ _ h) id x found (rw other at here) e
]

transaction_After :
    (A : Type 0) (body : Exec Memory A) (m : Memory) (r : Result A × Memory)
    → body m ≡ r
    → After
        (λ a m'.
          (begun : Memory) × (done : Memory) × (tables begun ≡ tables m)
          × (body begun ≡ (ok a, done))
          × (tables m' ≡ tables done))
        (λ _ m'. tables m' ≡ tables m)
        (settled m r)
transaction_After A body m (ok a, done) h = record { holds = (m, done, refl, h, refl) }
transaction_After A body m (err e, _) h = record { holds = refl }

pub memory_laws : PlatformLaws memory
memory_laws = record {
  reservoir_laws = statement_laws reservoir_entity reservoir_slot;
  gate_laws = statement_laws gate_entity gate_slot;
  directive_laws = statement_laws directive_entity directive_slot;
  confirmation_laws = statement_laws confirmation_entity confirmation_slot;
  find_approvals_law = λ id m. record { holds = refl };
  create_approval_law = λ a m. record { holds = (m.next, refl) };
  create_audit_law = λ a m. record { holds = (m.next, refl) };
  count_related_law = λ c m. record {
    holds = (refl, λ h id x found. count_zero c m.confirmations m.confirmations h id x found found);
  };
  transaction_law = λ A body m. transaction_After A body m (body m) refl;
  now_law = λ m. record { holds = refl };
}

abbrev capitals : String
capitals = "ABCDEFGHIJKLMNOPQRSTUVWXYZ"

abbrev small_letters : String
small_letters = "abcdefghijklmnopqrstuvwxyz"

-- The letter in the second text that stands where `c` stands in the first.
abbrev change_case : String → String → Char → Char
change_case String.[] t c = c
change_case (String.◌∷◌ a s) String.[] c = c
change_case (String.◌∷◌ a s) (String.◌∷◌ b t) c =
    let later = change_case s t c in if code a == code c then b else later

-- Unicode restricted to ASCII.
abbrev pub ascii : Unicode
ascii = record {
  upper = change_case small_letters capitals;
  lower = change_case capitals small_letters;
  same_fold = λ c d.
      code (change_case capitals small_letters c) == code (change_case capitals small_letters d);
}
