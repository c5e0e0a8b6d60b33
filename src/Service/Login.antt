-- ===== src/Service/Login.antt =====
-- backend/internal/service/security.go: `Login` and the reports on the audit log.
pub mod Laws
use gb_516_hydropower_gate_d.Prelude.{
  ℕ, String, not, ◌||◌, ◌==◌, ◌=ˢ◌, zero, suc, Option, none, some, List, if◌then◌else◌,
}
use gb_516_hydropower_gate_d.Ints.{ℤ, pos, negsuc}
use gb_516_hydropower_gate_d.Exec.{
  Exec, pure, raise, unauthorized, inactive_user, invalid_input, database_error, ◌>>=◌,
}
use gb_516_hydropower_gate_d.Model.{User, AuditLog, AuditSummary}
use gb_516_hydropower_gate_d.Dto.{LoginRequest, LoginResponse}
use gb_516_hydropower_gate_d.Platform.{Platform}
use gb_516_hydropower_gate_d.Platform.Reads.{Reads}
use gb_516_hydropower_gate_d.Platform.Library.{Library, Claims}
use gb_516_hydropower_gate_d.Repository.Audits.{summarize_audits, entity_history}
use gb_516_hydropower_gate_d.Web.Config.{Config}
use gb_516_hydropower_gate_d.Web.Queries.{summary_window}

-- The claims of a user's token.
unfoldable pub claims_of : Library → Config → User → ℕ → Claims
claims_of lib cfg user now = record {
  subject = lib.print user.id;
  username = user.username;
  name = user.display_name;
  role = user.role;
  issued_at = lib.unix now;
  expires_at = lib.unix (lib.add now cfg.token_ttl);
  issuer = cfg.app_name;
}

-- `-window`
abbrev negated : ℤ → ℤ
negated (pos zero) = pos zero
negated (pos (suc n)) = negsuc n
negated (negsuc n) = pos (suc n)

module _ (p : Platform) (r : Reads p.World) (lib : Library) (cfg : Config) where
  abbrev pub answer_login : User → Option String → Exec p.World LoginResponse
  answer_login user none = raise database_error
  answer_login user (some token) = pure (record {
    token = token;
    expires_in = lib.seconds cfg.token_ttl;
    username = user.username;
    display_name = user.display_name;
    role = user.role;
  })

  abbrev pub login_as : LoginRequest → Option User → Exec p.World LoginResponse
  login_as input none = raise unauthorized
  login_as input (some user) =
      if not (lib.matches_password user.password_hash input.password)
      then raise unauthorized
      else if not user.active
      then raise inactive_user
      else do now ← p.now; answer_login user (lib.sign cfg.jwt_secret (claims_of lib cfg user now))

  unfoldable pub login : LoginRequest → Exec p.World LoginResponse
  login input w = login_as input (r.find_user w input.username) w

  -- `AuditSummary` of the window, in nanoseconds.
  unfoldable pub audit_summary : ℤ → Exec p.World AuditSummary
  audit_summary window = do
    now ← p.now
    summarize_audits r (lib.add now (negated (summary_window window)))

  -- `EntityHistory`
  unfoldable pub audit_history : String → ℕ → ℤ → Exec p.World (List AuditLog)
  audit_history entity_type id limit =
      if id == 0 || entity_type =ˢ ""
      then raise invalid_input
      else entity_history r entity_type id limit
