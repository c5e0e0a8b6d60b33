-- ===== src/Database/Seed.antt =====
-- `Seed` of backend/internal/database/database.go: what is put into tables that have no live rows.
pub mod Rows
pub mod Evidence
pub mod Safety
use gb_516_hydropower_gate_d.Prelude.{
  ℕ, String, not, Option, none, some, List, [], ◌∷◌, ◌++◌, ◌==◌, true, if◌then◌else◌,
}
use gb_516_hydropower_gate_d.Exec.{Exec, pure, raise, invalid_input, database_error, ◌>>=◌, ◌>>◌}
use gb_516_hydropower_gate_d.Model.{
  OperationDirective, DirectiveApproval, User, role_viewer, role_operator, role_reviewer,
  role_admin,
}
use gb_516_hydropower_gate_d.Platform.Library.{Library}
use gb_516_hydropower_gate_d.Database.Setup.{Bulk, Setup}
use gb_516_hydropower_gate_d.Web.Config.{Config, is_production}
use Rows

pub record SeedAccount : Type 0 where
  pub username : String
  pub display_name : String
  pub role : String
  pub password : String

abbrev viewer_account : Config → List SeedAccount
viewer_account cfg =
    record {
      username = "viewer";
      display_name = "值班观察员";
      role = role_viewer;
      password = cfg.bootstrap_admin_password;
    }
    ∷ []

-- Outside production there is a viewer too, with the administrator's password.
unfoldable pub accounts : Config → List SeedAccount
accounts cfg =
    record {
      username = "admin";
      display_name = "系统管理员";
      role = role_admin;
      password = cfg.bootstrap_admin_password;
    }
    ∷ record {
      username = "operator";
      display_name = "现场操作员";
      role = role_operator;
      password = cfg.bootstrap_operator_password;
    }
    ∷ record {
      username = "reviewer";
      display_name = "安全复核员";
      role = role_reviewer;
      password = cfg.bootstrap_reviewer_password;
    }
    ∷ (if is_production cfg then [] else viewer_account cfg)

abbrev new_user : SeedAccount → String → User
new_user account hash = record {
  id = 0;
  username = account.username;
  display_name = account.display_name;
  password_hash = hash;
  role = account.role;
  active = true;
  created_at = 0;
  updated_at = 0;
}

abbrev add_user : Option User → Option (List User) → Option (List User)
add_user none rest = none
add_user (some user) none = none
add_user (some user) (some rest) = some (user ∷ rest)

abbrev hashed : SeedAccount → Option String → Option User
hashed account none = none
hashed account (some hash) = some (new_user account hash)

-- The loop over the accounts: an error of the hash ends it.
unfoldable pub seed_users : Library → List SeedAccount → Option (List User)
seed_users lib [] = some []
seed_users lib (account ∷ rest) =
    add_user (hashed account (lib.hash_password account.password)) (seed_users lib rest)

-- `Create` gives as many items back as it has been given.
abbrev pub approvals_for : Library → ℕ → List OperationDirective → List DirectiveApproval
approvals_for lib now (first ∷ second ∷ third ∷ []) =
    Rows.second_submission lib now second
    ∷ Rows.third_submission lib now third
    ∷ Rows.third_approval lib now third
    ∷ []
approvals_for lib now items = []

module _ {World : Type 0} (s : Setup World) (lib : Library) where
  abbrev pub create_accounts : Option (List User) → Exec World (Unit {0})
  create_accounts none = raise database_error
  create_accounts (some users) = s.create_users users

  -- The accounts, if there is no user.
  unfoldable pub seed_accounts : Config → Exec World (Unit {0})
  seed_accounts cfg = do
    users ← s.count_users
    if users == 0 then create_accounts (seed_users lib (accounts cfg)) else pure tt

  abbrev pub create_reservoirs : ℕ → Exec World (Unit {0})
  create_reservoirs now = do
    s.reservoirs.create_all (
        Rows.first_reservoir lib now
        ∷ Rows.second_reservoir lib now
        ∷ Rows.third_reservoir lib now
        ∷ [])
    pure tt

  abbrev pub create_gates : ℕ → Exec World (Unit {0})
  create_gates now = do
    s.gates.create_all
        (Rows.first_gate lib now ∷ Rows.second_gate lib now ∷ Rows.third_gate lib now ∷ [])
    pure tt

  abbrev pub create_directives : ℕ → Exec World (Unit {0})
  create_directives now = do
    items ← s.directives.create_all (
        Rows.first_directive lib now
        ∷ Rows.second_directive lib now
        ∷ Rows.third_directive lib now
        ∷ [])
    s.create_approvals (approvals_for lib now items)

  abbrev pub create_confirmations : ℕ → Exec World (Unit {0})
  create_confirmations now = do
    s.confirmations.create_all (Rows.first_confirmation lib now ∷ [])
    pure tt

  -- Only a table without live rows is filled.
  abbrev pub unless_filled :
      {T : Type 0} → Bulk World T → (ℕ → Exec World (Unit {0})) → Exec World (Unit {0})
  unless_filled b fill = do
    count ← b.count
    if not (count == 0) then pure tt else do now ← s.now; fill now

  -- `seedReservoir`, `seedGateUnit`, `seedOperationDirective` and `seedExecutionConfirmation`
  unfoldable pub seed_reservoir : Exec World (Unit {0})
  seed_reservoir = unless_filled s.reservoirs create_reservoirs

  unfoldable pub seed_gate_unit : Exec World (Unit {0})
  seed_gate_unit = unless_filled s.gates create_gates

  unfoldable pub seed_operation_directive : Exec World (Unit {0})
  seed_operation_directive = unless_filled s.directives create_directives

  unfoldable pub seed_execution_confirmation : Exec World (Unit {0})
  seed_execution_confirmation = unless_filled s.confirmations create_confirmations

  unfoldable pub seed : Config → Exec World (Unit {0})
  seed cfg = do
    seed_accounts cfg
    seed_reservoir
    seed_gate_unit
    seed_operation_directive
    seed_execution_confirmation
