-- ===== src/Examples/Server.antt =====
-- The theorems about HTTP requests, at concrete requests to the server in memory.
use Prim.Native.String
use gb_516_hydropower_gate_d.Prelude.{
  ℕ, String, ◌<◌, ◌+◌, ◌=ˢ◌, ◌&&◌, ltb, if◌then◌else◌, ◌≡◌, ◌≢◌, if◌then◌else◌, refl, none, some,
  [], ◌∷◌, true, arith, eq_iff,
}
use gb_516_hydropower_gate_d.Exec.{ok, ◌>>=◌}
use gb_516_hydropower_gate_d.Text.{is_space}
use gb_516_hydropower_gate_d.Text.Words.{IsWord}
use gb_516_hydropower_gate_d.Ints.{pos}
use gb_516_hydropower_gate_d.Model.{User}
use gb_516_hydropower_gate_d.Dto.{LoginRequest, LoginResponse}
use gb_516_hydropower_gate_d.Service.Login
use gb_516_hydropower_gate_d.System.Kinds.{IsAccounted}
use gb_516_hydropower_gate_d.System.TwoPerson.Invariant.{IsDispatchSafe}
use gb_516_hydropower_gate_d.Web.Access.{Token, admitted, authenticate, role_rank}
use gb_516_hydropower_gate_d.Web.Access.Tokens.{
  principal_of, Issued, login-Issued, login-authenticate,
}
use gb_516_hydropower_gate_d.Web.Handlers.Resource.{Resource}
use gb_516_hydropower_gate_d.System.Serve.{Request, serve}
use gb_516_hydropower_gate_d.Web.RateLimit.{admit, increment_local, cleanup_local}
use gb_516_hydropower_gate_d.Web.Routes.{may_ask}
use gb_516_hydropower_gate_d.Web.Server.Exact.{exchange-may_ask}
use gb_516_hydropower_gate_d.Examples.Requests.{ann_admitted}
use gb_516_hydropower_gate_d.Web.RequestId.{normalize_request_id}
use gb_516_hydropower_gate_d.Web.Server
use gb_516_hydropower_gate_d.Web.Server.Routing.{Route}
use gb_516_hydropower_gate_d.Web.Server.Safety.{
  caller_as, IsJustified, exchange-IsJustified, exchange_all-IsDispatchSafe,
  exchange_all-IsAccounted,
}
use gb_516_hydropower_gate_d.Examples.Memory.{Memory, empty_memory, tables}
use gb_516_hydropower_gate_d.Examples.Database.{memory, memory_laws, ascii}
use gb_516_hydropower_gate_d.Examples.Data.{
  move, reservoir_input, evidence_memory, confirmation_memory,
}
use gb_516_hydropower_gate_d.Examples.Safety.{
  evidence_memory-IsDispatchSafe, empty_memory-IsAccounted,
}
use gb_516_hydropower_gate_d.Examples.Outside.{
  parse_one, ann_now, find_one, print_one, production, library, reads, reads_laws,
}

abbrev server_on : Memory → Server.Server Memory
server_on m = record { world = m; login_buckets = []; api_buckets = [] }

abbrev pub ask : Route → Server.HttpRequest
ask route = record {
  endpoint = Server.Endpoint.api route;
  authorization = " Bearer t1";
  x_request_id = "req-1";
  fresh_id = "fresh";
  client_ip = "10.0.0.1";
  time = 61000000000;
  redis_count = none;
}

abbrev pub confirms : Server.HttpRequest
confirms = ask (Route.confirmations (Resource.transition "7" (some (move "confirmed" 1))))

abbrev pub creates : Server.HttpRequest
creates = ask (Route.reservoirs (Resource.create (some reservoir_input)))

exchange-IsJustified_example :
    IsJustified ascii memory memory_laws reads reads_laws library production
      (normalize_request_id "fresh" "req-1")
      confirmation_memory
      (Server.exchange ascii memory reads library production
        (λ _. parse_one)
        confirms
        (server_on confirmation_memory)).1.world
exchange-IsJustified_example =
    exchange-IsJustified ascii memory memory_laws reads reads_laws library production
      (λ _. parse_one) confirms (server_on confirmation_memory)

confirms_within :
    (admit
      (Server.limit_of production.request_limit)
      confirms.redis_count
      (Server.limiter_key confirms "/api/confirmations/:id/transition")
      confirms.time
      []).0
    ≡ true
unfolding admit increment_local cleanup_local
confirms_within = refl

exchange-may_ask_example :
    (Server.exchange ascii memory reads library production
      (λ _. parse_one)
      confirms
      (server_on confirmation_memory)).1.world
    ≡ (if may_ask "operator" (Request.transition_confirmation 7 (move "confirmed" 1))
        then serve ascii memory
            (caller_as ann_now (normalize_request_id "fresh" "req-1"))
            (Request.transition_confirmation 7 (move "confirmed" 1))
            confirmation_memory
        else confirmation_memory)
exchange-may_ask_example =
    exchange-may_ask ascii memory memory_laws reads reads_laws library production (λ _. parse_one)
      confirms (server_on confirmation_memory)
      (Route.confirmations (Resource.transition "7" (some (move "confirmed" 1))))
      (Request.transition_confirmation 7 (move "confirmed" 1)) ann_now refl refl confirms_within
      ann_admitted

exchange_all-IsDispatchSafe_example : IsDispatchSafe ascii (
    tables
      (Server.exchange_all ascii memory reads library production
        (λ _. parse_one)
        (creates ∷ confirms ∷ [])
        (server_on evidence_memory)).world)
exchange_all-IsDispatchSafe_example =
    exchange_all-IsDispatchSafe ascii memory memory_laws reads reads_laws library production
      (λ _. parse_one) (creates ∷ confirms ∷ []) (server_on evidence_memory)
      evidence_memory-IsDispatchSafe

exchange_all-IsAccounted_example : IsAccounted (
    tables
      (Server.exchange_all ascii memory reads library production
        (λ _. parse_one)
        (creates ∷ confirms ∷ [])
        (server_on empty_memory)).world)
exchange_all-IsAccounted_example =
    exchange_all-IsAccounted ascii memory memory_laws reads reads_laws library production
      (λ _. parse_one) (creates ∷ confirms ∷ []) (server_on empty_memory) empty_memory-IsAccounted

abbrev credentials : LoginRequest
credentials = record { username = "ann"; password = "" }

abbrev issued : LoginResponse
issued = record {
  token = "t1";
  expires_in = pos 28800;
  username = "ann";
  display_name = "Ann";
  role = "operator";
}

abbrev after_login : Memory
after_login = (memory.now empty_memory).1

logged_in :
    Login.login memory reads library production credentials empty_memory ≡ (ok issued, after_login)
unfolding Login.login ◌>>=◌ Login.claims_of
logged_in = refl

abbrev ann_user : User
ann_user = record {
  id = 7;
  username = "ann";
  display_name = "Ann";
  password_hash = "";
  role = "operator";
  active = true;
  created_at = 1;
  updated_at = 1;
}

-- Of one token, until it expires.
abbrev parse_claims : Memory → String → Token
parse_claims m raw =
    if raw =ˢ "t1" && ltb m.clock 29800
    then Token.valid
        (record { subject = "7"; username = "ann"; display_name = "Ann"; role = "operator" })
    else Token.invalid

token-IsWord : IsWord "t1"
unfolding is_space
token-IsWord = (ground (arith, eq_iff "t1" ""), refl)

issuer :
    (user : User) (now : ℕ) (token : String)
    → find_one "ann" ≡ some user
    → library.sign production.jwt_secret (Login.claims_of library production user now) ≡ some token
    → after_login.clock < now + 28800
    → IsWord token
      × (parse_claims after_login token
          ≡ Token.valid (principal_of (Login.claims_of library production user now)))
unfolding Login.claims_of
issuer user now token e s fresh =
    let same : ann_user ≡ user = cc (e) in
    let token_eq : "t1" ≡ token = cc (s) in rw (← same, ← token_eq) (token-IsWord, refl)

not_expired :
    (now : ℕ) (next : Memory)
    → memory.now empty_memory ≡ (ok now, next)
    → after_login.clock < now + 28800
not_expired now next e = ground arith

account :
    (user : User)
    → find_one "ann" ≡ some user
    → (find_one user.username ≡ some user)
      × (print_one user.id ≢ "")
      × (user.username ≢ "")
      × (role_rank user.role ≢ 0)
unfolding role_rank
account user e =
    let same : ann_user ≡ user = cc (e) in
    rw (← same) (refl, ground (arith, eq_iff "7" ""), ground (arith, eq_iff "ann" ""), ground arith)

login-authenticate_example :
    (id : String) × (authenticate
        (parse_claims after_login)
        (reads.find_user after_login)
        library.print
        (String.◌++◌ "Bearer " issued.token)
      ≡ admitted (record {
        subject = id;
        username = issued.username;
        display_name = issued.display_name;
        role = issued.role;
      }))
login-authenticate_example =
    login-authenticate memory reads library production parse_claims (λ m. m.clock) credentials
      empty_memory after_login after_login issued logged_in issuer not_expired account

login-Issued_example : Issued memory reads library production credentials empty_memory issued
login-Issued_example =
    login-Issued memory reads library production credentials empty_memory after_login issued
      logged_in
