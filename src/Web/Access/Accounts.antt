-- ===== src/Web/Access/Accounts.antt =====
-- Who is admitted by backend/internal/middleware/auth.go.
use gb_516_hydropower_gate_d.Prelude.{
  ℕ, String, ◌≡◌, ◌≢◌, refl, subst, inl, inr, Bool, true, false, not, ◌||◌, Option, none, some,
  ◌==◌, ◌=ˢ◌, Bool-cases, arith, eq_iff,
}
use gb_516_hydropower_gate_d.Text.{trim_space, strip_prefix}
use gb_516_hydropower_gate_d.Model.{User}
use gb_516_hydropower_gate_d.Web.Access.{
  Principal, role_rank, Token, Verdict, authenticate, check_user, check_token, check_header,
}

-- The account behind a principal, which gives the name and the role that count.
pub record Account (find_user : String → Option User) (print : ℕ → String) (pr : Principal)
    : Type 0 where
  pub user : User
  pub found : find_user pr.username ≡ some user
  pub subject : print user.id ≡ pr.subject
  pub active : user.active ≡ true
  pub ranked : role_rank user.role ≢ 0
  pub role : pr.role ≡ user.role
  pub display_name : pr.display_name ≡ user.display_name

abbrev IsSound : (find_user : String → Option User) (print : ℕ → String) → Verdict → Type 0
IsSound find_user print (Verdict.denied d) = Unit
IsSound find_user print (Verdict.admitted pr) = Account find_user print pr

-- What the test on an account has found.
account_tests :
    (id subject : String) (active : Bool) (rank : ℕ)
    → (not (id =ˢ subject) || not active || rank == 0) ≡ false
    → (id ≡ subject) × (active ≡ true) × (rank ≢ 0)
account_tests id subject active rank h = ground (arith, eq_iff id subject)

module _ (parse : String → Token) (find_user : String → Option User) (print : ℕ → String) where
  IsSound-user :
      (claims : Principal) (o : Option User)
      → find_user claims.username ≡ o
      → IsSound find_user print (check_user parse find_user print claims o)
  IsSound-user claims none h = tt
  IsSound-user claims (some user) h =
      elim (Bool-cases
        (not (print user.id =ˢ claims.subject) || not user.active || role_rank user.role == 0)) [
          | inl bad ↦ rw bad tt
          | inr good ↦
              let (subject, active, ranked) =
                account_tests (print user.id) claims.subject user.active (role_rank user.role)
                  good in
              rw good (record {
                user = user;
                found = h;
                subject = subject;
                active = active;
                ranked = ranked;
                role = refl;
                display_name = refl;
              })
        ]

  IsSound-token : (t : Token) → IsSound find_user print (check_token parse find_user print t)
  IsSound-token Token.invalid = tt
  IsSound-token Token.foreign = tt
  IsSound-token (Token.valid claims) =
      elim (Bool-cases
        (claims.subject =ˢ "" || claims.username =ˢ "" || role_rank claims.role == 0)) [
          | inl bad ↦ rw bad tt
          | inr good ↦ rw good (IsSound-user claims (find_user claims.username) refl)
        ]

  IsSound-header :
      (o : Option String) → IsSound find_user print (check_header parse find_user print o)
  IsSound-header none = tt
  IsSound-header (some rest) = IsSound-token (parse (trim_space rest))

  -- A request is admitted only as an active account of a known role that has the token's user name
  -- and whose id is the token's subject; the role and the display name are those of the account, not
  -- those of the token.
  pub authenticate-Account :
      (header : String) (pr : Principal)
      → authenticate parse find_user print header ≡ Verdict.admitted pr
      → Account find_user print pr
  unfolding authenticate
  authenticate-Account header pr e =
      subst (IsSound find_user print) e
        (IsSound-header (strip_prefix "Bearer " (trim_space header)))
