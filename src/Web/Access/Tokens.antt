-- ===== src/Web/Access/Tokens.antt =====
-- The token of a login, brought back in a header: `Login` of backend/internal/service/security.go and
-- `Authenticate` of backend/internal/middleware/auth.go.
use Prim.Native.String
use gb_516_hydropower_gate_d.Prelude.{
  ℕ, ◌<◌, String, ◌≡◌, ◌≢◌, refl, subst, Bool, true, false, not, ◌||◌, Option, none, some, ◌==◌,
  ◌=ˢ◌, if◌then◌else◌, arith, eq_iff,
}
use gb_516_hydropower_gate_d.Exec.{Error, raise, Exec, Result, ok, err, After, bind-After}
use gb_516_hydropower_gate_d.Text.Words.{IsWord, trim_space-IsWord, bearer-IsWord}
use gb_516_hydropower_gate_d.Model.{User}
use gb_516_hydropower_gate_d.Dto.{LoginRequest, LoginResponse}
use gb_516_hydropower_gate_d.Platform.{Platform}
use gb_516_hydropower_gate_d.Platform.Reads.{Reads}
use gb_516_hydropower_gate_d.Platform.Library.{Library, Claims}
use gb_516_hydropower_gate_d.Service.Login
use gb_516_hydropower_gate_d.Web.Access.{Principal, Token, admitted, role_rank, authenticate}
use gb_516_hydropower_gate_d.Web.Config.{Config}

-- `if !test { return err }`
unless-After :
    {W A : Type 0} {Q : A → W → Type 0} (test : Bool) (e : Error) (m : Exec W A) (w : W)
    → (test ≡ true → After Q (λ _ _. Unit {0}) (m w))
    → After Q (λ _ _. Unit {0}) ((if not test then raise e else m) w)
unless-After true e m w good = good refl
unless-After false e m w good = record { holds = tt }

-- The claims that `Authenticate` reads.
abbrev pub principal_of : Claims → Principal
principal_of claims = record {
  subject = claims.subject;
  username = claims.username;
  display_name = claims.name;
  role = claims.role;
}

module _ (p : Platform) (r : Reads p.World) (lib : Library) (cfg : Config) where
  -- A login that has succeeded: the account that was asked for, which is active and has this password,
  -- and a token with its claims.
  pub record Issued (input : LoginRequest) (w : p.World) (response : LoginResponse) : Type 0 where
    pub user : User
    pub now : ℕ
    pub answered : (next : p.World) × (p.now w ≡ (ok now, next))
    pub found : r.find_user w input.username ≡ some user
    pub active : user.active ≡ true
    pub matched : lib.matches_password user.password_hash input.password ≡ true
    pub signed : lib.sign cfg.jwt_secret (Login.claims_of lib cfg user now) ≡ some response.token
    pub name_eq : response.username ≡ user.username
    pub display_name_eq : response.display_name ≡ user.display_name
    pub role_eq : response.role ≡ user.role

  -- What `Login` promises of an answer.
  abbrev LoginAfter : LoginRequest → p.World → Result LoginResponse × p.World → Type 0
  LoginAfter input w = After (λ response _. Issued input w response) (λ _ _. Unit {0})

  answer_login-After :
      (input : LoginRequest) (w w' : p.World) (user : User) (now : ℕ) (o : Option String)
      → r.find_user w input.username ≡ some user
      → user.active ≡ true
      → lib.matches_password user.password_hash input.password ≡ true
      → p.now w ≡ (ok now, w')
      → lib.sign cfg.jwt_secret (Login.claims_of lib cfg user now) ≡ o
      → LoginAfter input w (Login.answer_login p r lib cfg user o w')
  answer_login-After input w w' user now none f a m n s = record { holds = tt }
  answer_login-After input w w' user now (some token) f a m n s = record {
    holds = record {
      user = user;
      now = now;
      answered = (w', n);
      found = f;
      active = a;
      matched = m;
      signed = s;
      name_eq = refl;
      display_name_eq = refl;
      role_eq = refl;
    };
  }

  login_as-After :
      (input : LoginRequest) (w : p.World) (o : Option User)
      → r.find_user w input.username ≡ o
      → LoginAfter input w (Login.login_as p r lib cfg input o w)
  login_as-After input w none f = record { holds = tt }
  login_as-After input w (some user) f =
      unless-After (lib.matches_password user.password_hash input.password) _ _ w (λ matched.
        unless-After user.active _ _ w (λ active.
          bind-After {P = λ now w'. p.now w ≡ (ok now, w')} {E = λ _ _. Unit {0}} p.now _ w
            (any_After (p.now w))
            (λ now w' n. answer_login-After input w w' user now _ f active matched n refl)))
    where
      any_After : (x : Result ℕ × p.World) → After (λ now w'. x ≡ (ok now, w')) (λ _ _. Unit {0}) x
      any_After (ok now, w') = record { holds = refl }
      any_After (err e, w') = record { holds = tt }

  -- A login gives a token only to an active account with the name that was asked for, if its password
  -- matches; the token is signed over this account's claims at the time of the login, and the answer
  -- names the account and its role.
  pub login-Issued :
      (input : LoginRequest) (w w' : p.World) (response : LoginResponse)
      → Login.login p r lib cfg input w ≡ (ok response, w')
      → Issued input w response
  unfolding Login.login
  login-Issued input w w' response e =
      (subst (LoginAfter input w) e
        (login_as-After input w (r.find_user w input.username) refl)).holds

  module _ (parse : String → Token) where
    known_passes :
        (id name : String) (rank : ℕ)
        → id ≢ ""
        → name ≢ ""
        → rank ≢ 0
        → (id =ˢ "" || name =ˢ "" || rank == 0) ≡ false
    known_passes id name rank a b c = ground (arith, eq_iff id "", eq_iff name "")

    account_passes :
        (id : String) (active : Bool) (rank : ℕ)
        → active ≡ true
        → rank ≢ 0
        → (not (id =ˢ id) || not active || rank == 0) ≡ false
    account_passes id active rank a c = ground (arith, eq_iff id id)

    -- A token that parses to the claims of an active account is admitted.
    bearer-admitted :
        (find_user : String → Option User) (user : User) (token : String) (claims : Principal)
        → IsWord token
        → parse token ≡ Token.valid claims
        → claims.subject ≡ lib.print user.id
        → claims.username ≡ user.username
        → claims.role ≡ user.role
        → find_user user.username ≡ some user
        → user.active ≡ true
        → lib.print user.id ≢ ""
        → user.username ≢ ""
        → role_rank user.role ≢ 0
        → authenticate parse find_user lib.print (String.◌++◌ "Bearer " token)
          ≡ admitted (record {
            subject = lib.print user.id;
            username = user.username;
            display_name = user.display_name;
            role = user.role;
          })
    unfolding authenticate
    bearer-admitted find_user user token claims word parsed subject name role found active id named
          rank =
        rw (
          bearer-IsWord token word,
          trim_space-IsWord token word,
          parsed,
          subject,
          name,
          role,
          known_passes (lib.print user.id) user.username (role_rank user.role) id named rank,
          found,
          account_passes (lib.print user.id) user.active (role_rank user.role) active rank,
        )

  module _ (parse : p.World → String → Token) (clock : p.World → ℕ) where
    -- A user who has logged in is admitted with the token as this user, under the role of the account,
    -- as long as the token has not expired, if `jwt.Parse` reads a token that was signed for the account
    -- and has not expired as the claims of that token, and such a token holds no white space, and if the
    -- account is still the one that was asked for and its name, its printed id and its role are not empty
    -- or unknown.
    pub login-authenticate :
        (input : LoginRequest) (w w' later : p.World) (response : LoginResponse)
        → Login.login p r lib cfg input w ≡ (ok response, w')
        → ((user : User) (now : ℕ) (token : String)
            → r.find_user w input.username ≡ some user
            → lib.sign cfg.jwt_secret (Login.claims_of lib cfg user now) ≡ some token
            → clock later < lib.unix (lib.add now cfg.token_ttl)
            → IsWord token
              × (parse later token ≡ Token.valid (principal_of (Login.claims_of lib cfg user now))))
        → ((now : ℕ) (next : p.World)
            → p.now w ≡ (ok now, next)
            → clock later < lib.unix (lib.add now cfg.token_ttl))
        → ((user : User)
            → r.find_user w input.username ≡ some user
            → (r.find_user later user.username ≡ some user)
              × (lib.print user.id ≢ "")
              × (user.username ≢ "")
              × (role_rank user.role ≢ 0))
        → (id : String) × (authenticate
              (parse later)
              (r.find_user later)
              lib.print
              (String.◌++◌ "Bearer " response.token)
            ≡ admitted (record {
              subject = id;
              username = response.username;
              display_name = response.display_name;
              role = response.role;
            }))
    unfolding Login.claims_of
    login-authenticate input w w' later response e reads_token fresh account =
        let i = login-Issued input w w' response e in
        let (next, answered) = i.answered in
        let (word, parsed) =
          reads_token i.user i.now response.token i.found i.signed (fresh i.now next answered) in
        let (found, id, named, rank) = account i.user i.found in
        (
          lib.print i.user.id,
          rw (i.name_eq, i.display_name_eq, i.role_eq)
              (bearer-admitted (parse later) (r.find_user later) i.user response.token _ word parsed
                refl refl refl found i.active id named rank),
        )
