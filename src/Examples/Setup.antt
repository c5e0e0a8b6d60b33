-- ===== src/Examples/Setup.antt =====
-- The set-up statements on the database in memory.
use gb_516_hydropower_gate_d.Prelude.{ℕ, suc, ◌≡◌, refl, true, none, List, [], ◌∷◌, length, arith}
use gb_516_hydropower_gate_d.Exec.{Exec, Result, ok, err, After, After-map, bind-After, pure, ◌>>=◌}
use gb_516_hydropower_gate_d.Model.{DirectiveApproval}
use gb_516_hydropower_gate_d.Platform.{Statements, StatementLaws}
use gb_516_hydropower_gate_d.Platform.Schema.{Entity}
use gb_516_hydropower_gate_d.Database.Setup.{
  Bulk, Setup, InsertedAll, AddedApprovals, BulkLaws, SetupLaws,
}
use gb_516_hydropower_gate_d.Database.Connect.{Driver}
use gb_516_hydropower_gate_d.Database.Connect.Safety.{DriverLaws}
use gb_516_hydropower_gate_d.Examples.Memory.{Memory, Versions, find, tables}
use gb_516_hydropower_gate_d.Examples.Database.{memory, memory_laws, settled}
use gb_516_hydropower_gate_d.Platform.Schema.{
  reservoir_entity, gate_entity, directive_entity, confirmation_entity,
}

abbrev add_approvals : List DirectiveApproval → Memory → Memory
add_approvals [] m = m
add_approvals (a ∷ rest) m =
    add_approvals rest
      (record m { approvals = record a { id = m.next } ∷ m.approvals; next = suc m.next })

added :
    (l : List DirectiveApproval) (m : Memory)
    → AddedApprovals l (tables m) (tables (add_approvals l m))
added [] m = refl
added (a ∷ rest) m = (m.next, added rest _)

module _ {T : Type 0} (e : Entity T) (s : Statements Memory T) (laws : StatementLaws tables e s)
    (versions : Memory → Versions T)
    (rows_law : (m : Memory) → e.rows (tables m) ≡ find (versions m)) where
  -- One after the other, undone if one fails.
  unfoldable pub create_each : List T → Exec Memory (List T)
  create_each [] = pure []
  create_each (item ∷ items) = do x ← s.create item; xs ← create_each items; pure (x ∷ xs)

  abbrev pub bulk : Bulk Memory T
  bulk = record {
    count = λ m. (ok (length (versions m)), m);
    create_all = λ items m. settled m (create_each items m);
  }

  create_each-After :
      (items : List T) (m : Memory)
      → After
          (λ xs m'. InsertedAll e items xs (tables m) (tables m'))
          (λ _ _. Unit {0})
          (create_each items m)
  unfolding create_each
  create_each-After [] m = record { holds = refl }
  create_each-After (item ∷ items) m =
      bind-After {E = λ _ _. Unit {0}} _ _ m
        (After-map _ (laws.create_law item m) (λ x m' i. i) (λ _ _ _. tt))
        (λ x m' i.
          bind-After {E = λ _ _. Unit {0}} _ _ m' (create_each-After items m')
            (λ xs m'' all. record { holds = (tables m', i, all) }))

  settled-After :
      (items : List T) (m : Memory) (r : Result (List T) × Memory)
      → After (λ xs m'. InsertedAll e items xs (tables m) (tables m')) (λ _ _. Unit {0}) r
      → After
          (λ xs m'. InsertedAll e items xs (tables m) (tables m'))
          (λ _ m'. tables m' ≡ tables m)
          (settled m r)
  settled-After items m (ok xs, m') h = record { holds = h.holds }
  settled-After items m (err x, m') h = record { holds = refl }

  empty_rows : (l : Versions T) → length l ≡ 0 → (id : ℕ) → find l id ≡ none
  empty_rows [] h id = refl
  empty_rows (row ∷ rest) h id = absurd (ground arith)

  pub bulk_laws : BulkLaws tables e bulk
  bulk_laws = record {
    count_law =
        λ m. record { holds = (refl, λ h id. rw (rows_law m) (empty_rows (versions m) h id)) };
    create_all_law = λ items m. settled-After items m _ (create_each-After items m);
  }

abbrev pub setup : Setup Memory
setup = record {
  count_users = λ m. (ok 0, m);
  create_users = λ users m. (ok tt, m);
  reservoirs =
      bulk reservoir_entity memory.reservoirs memory_laws.reservoir_laws (λ m. m.reservoirs)
        (λ m. refl);
  gates = bulk gate_entity memory.gates memory_laws.gate_laws (λ m. m.gates) (λ m. refl);
  directives =
      bulk directive_entity memory.directives memory_laws.directive_laws (λ m. m.directives)
        (λ m. refl);
  confirmations =
      bulk confirmation_entity memory.confirmations memory_laws.confirmation_laws
        (λ m. m.confirmations) (λ m. refl);
  create_approvals = λ l m. (ok tt, add_approvals l m);
  now = memory.now;
}

pub setup_laws : SetupLaws tables setup
setup_laws = record {
  count_users_law = λ m. record { holds = refl };
  create_users_law = λ users m. record { holds = refl };
  reservoir_laws =
      bulk_laws reservoir_entity memory.reservoirs memory_laws.reservoir_laws (λ m. m.reservoirs)
        (λ m. refl);
  gate_laws = bulk_laws gate_entity memory.gates memory_laws.gate_laws (λ m. m.gates) (λ m. refl);
  directive_laws =
      bulk_laws directive_entity memory.directives memory_laws.directive_laws (λ m. m.directives)
        (λ m. refl);
  confirmation_laws =
      bulk_laws confirmation_entity memory.confirmations memory_laws.confirmation_laws
        (λ m. m.confirmations) (λ m. refl);
  create_approvals_law = λ l m. record { holds = added l m };
  now_law = λ m. record { holds = refl };
}

-- A database that answers at once.
abbrev pub driver : Driver Memory
driver = record {
  open_connection = λ m. (true, m);
  handle = λ m. (true, m);
  ping = λ m. (true, m);
  wait = λ m. (true, m);
  migrate = λ m. (ok tt, m);
  redis_ping = λ m. (true, m);
}

pub driver_laws : DriverLaws tables driver
driver_laws = record {
  open_connection_law = λ m. refl;
  handle_law = λ m. refl;
  ping_law = λ m. refl;
  wait_law = λ m. refl;
  migrate_law = λ m. record { holds = refl };
  redis_ping_law = λ m. refl;
}
