-- ===== src/Web/Access.antt =====
-- backend/internal/middleware/auth.go: accounts and roles. The JWT library, the user table and
-- `fmt.Sprint` of a number are parameters.
pub mod Accounts
pub mod Tokens
use gb_516_hydropower_gate_d.Prelude.{
  ℕ, String, Bool, not, ◌||◌, Option, none, some, List, ◌==◌, ◌=ˢ◌, ltb, if◌then◌else◌,
}
use gb_516_hydropower_gate_d.Text.{trim_space, strip_prefix}
use gb_516_hydropower_gate_d.Constants.{contains}
use gb_516_hydropower_gate_d.Model.{User}

pub record Principal : Type 0 where
  pub subject : String
  pub username : String
  pub display_name : String
  pub role : String

-- `roleRank`, with the zero value of a role that it does not hold.
unfoldable pub role_rank : String → ℕ
role_rank role =
    if role =ˢ "viewer"
    then 1
    else if role =ˢ "operator"
    then 2
    else if role =ˢ "reviewer"
    then 3
    else if role =ˢ "admin"
    then 4
    else 0

-- What `jwt.Parse` makes of a token under the server's key, method and issuer: an error or an invalid
-- token, claims of another kind, or a map of claims with `stringClaim` of the four that are looked at.
pub data Token : Type 0 where
  invalid : Token
  foreign : Token
  valid : Principal → Token

pub data Denial : Type 0 where
  missing_token invalid_token invalid_claims incomplete_claims account_unavailable : Denial

pub data Verdict : Type 0 where
  denied : Denial → Verdict
  admitted : Principal → Verdict

-- `parse` is `jwt.Parse` at the time of the request: a token that has expired is invalid.
module _ (parse : String → Token) (find_user : String → Option User) (print : ℕ → String) where
  abbrev pub check_user : Principal → Option User → Verdict
  check_user claims none = denied account_unavailable
  check_user claims (some user) =
      if not (print user.id =ˢ claims.subject) || not user.active || role_rank user.role == 0
      then denied account_unavailable
      else admitted (record claims { display_name = user.display_name; role = user.role })

  abbrev pub check_token : Token → Verdict
  check_token invalid = denied invalid_token
  check_token foreign = denied invalid_claims
  check_token (valid claims) =
      if claims.subject =ˢ "" || claims.username =ˢ "" || role_rank claims.role == 0
      then denied incomplete_claims
      else check_user claims (find_user claims.username)

  abbrev pub check_header : Option String → Verdict
  check_header none = denied missing_token
  check_header (some rest) = check_token (parse (trim_space rest))

  -- `Authenticate`: what becomes of a request with this `Authorization` header.
  unfoldable pub authenticate : String → Verdict
  authenticate header = check_header (strip_prefix "Bearer " (trim_space header))

-- `RequireRoles`: whether the request goes on.
unfoldable pub require_roles : List String → String → Bool
require_roles roles role = contains role roles

-- `RequireMinimumRole`
unfoldable pub require_minimum_role : String → String → Bool
require_minimum_role minimum role =
    not (role_rank minimum == 0 || ltb (role_rank role) (role_rank minimum))
