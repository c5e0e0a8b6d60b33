-- ===== src/Web/Server.antt =====
-- backend/internal/router/router.go: the routes and what stands before each of them. A request that
-- comes in is given with the route that it matches; parsing the path, the query and the body is Gin's.
pub mod Safety
pub mod Routing
pub mod Exact
use gb_516_hydropower_gate_d.Prelude.{
  ℕ, String, Bool, true, false, Option, some, List, [], ◌∷◌, if◌then◌else◌,
}
use Prim.Native.String
use gb_516_hydropower_gate_d.Ints.{ℤ, pos, negsuc}
use gb_516_hydropower_gate_d.Text.{Unicode}
use gb_516_hydropower_gate_d.Dto.{
  CreateReservoir, UpdateReservoir, CreateGateUnit, UpdateGateUnit, CreateOperationDirective,
  UpdateOperationDirective, CreateExecutionConfirmation, UpdateExecutionConfirmation, LoginRequest,
}
use gb_516_hydropower_gate_d.Platform.{Platform}
use gb_516_hydropower_gate_d.Platform.Reads.{Reads}
use gb_516_hydropower_gate_d.Platform.Library.{Library}
use gb_516_hydropower_gate_d.Web.Access.{
  Principal, Token, Denial, missing_token, invalid_token, invalid_claims, incomplete_claims,
  account_unavailable, Verdict, denied, admitted, authenticate,
}
use gb_516_hydropower_gate_d.Web.Config.{Config}
use gb_516_hydropower_gate_d.Web.Http.{Context, Response, Handler, context_of, fail}
use gb_516_hydropower_gate_d.Web.Handlers.Resource.{Resource}
use gb_516_hydropower_gate_d.Web.RateLimit.{Buckets, admit}
use gb_516_hydropower_gate_d.Web.RequestId.{normalize_request_id}
use Routing.{Route, route, full_path}
use gb_516_hydropower_gate_d.Web.Handlers.System
use gb_516_hydropower_gate_d.Web.Http.{no_content}

-- What `c.FullPath()` tells apart, at the root.
pub data Endpoint : Type 0 where
  health : Endpoint
  login : Option LoginRequest → Endpoint
  api : Route → Endpoint
  -- No route: is the method `OPTIONS`?
  unknown : Bool → Endpoint

-- A request, and what the outside answers while it is served: a fresh UUID, the time, and Redis's
-- count.
pub record HttpRequest : Type 0 where
  pub endpoint : Endpoint
  pub authorization : String
  pub x_request_id : String
  pub fresh_id : String
  pub client_ip : String
  pub time : ℕ
  pub redis_count : Option ℕ

pub record Server (World : Type 0) : Type 0 where
  pub world : World
  pub login_buckets : Buckets
  pub api_buckets : Buckets

-- The code of each refusal of `Authenticate`.
abbrev pub denial_code : Denial → String
denial_code missing_token = "missing_token"
denial_code invalid_token = "invalid_token"
denial_code invalid_claims = "invalid_claims"
denial_code incomplete_claims = "incomplete_claims"
denial_code account_unavailable = "account_unavailable"

-- A count is positive, so that a limit below 0 admits what the limit 0 does.
abbrev pub limit_of : ℤ → ℕ
limit_of (pos n) = n
limit_of (negsuc n) = 0

-- `c.ClientIP() + ":" + c.FullPath()`
abbrev pub limiter_key : HttpRequest → String → String
limiter_key q path = String.◌++◌ q.client_ip (String.◌++◌ ":" path)

module _ {World : Type 0} where
  -- `Middleware` of a limiter.
  unfoldable pub unless_limited : Bool → Handler World → Handler World
  unless_limited allowed h w = if allowed then h w else (fail 429 "rate_limited", w)

  -- `Authenticate`
  unfoldable pub with_verdict : Verdict → (Principal → Handler World) → Handler World
  with_verdict (denied d) h w = (fail 401 (denial_code d), w)
  with_verdict (admitted pr) h w = h pr w

-- `parse` is `jwt.Parse` of the middleware at the time that the world has: a token expires.
module _ (u : Unicode) (p : Platform) (r : Reads p.World) (lib : Library) (cfg : Config)
    (parse : p.World → String → Token) where
  -- The group `/api` behind its limiter.
  unfoldable pub api_route : Route → HttpRequest → String → Handler p.World
  api_route x q id w =
      with_verdict (authenticate (parse w) (r.find_user w) lib.print q.authorization)
        (λ pr. route u p r lib cfg x (context_of pr id)) w

  -- The routes of `New`: the answer and the server after it.
  unfoldable pub answer :
      Endpoint → HttpRequest → String → Server p.World → Response × Server p.World
  answer health q id s =
      let (response, w) = System.health p r lib cfg s.world in (response, record s { world = w })
  answer (login body) q id s =
      let (allowed, buckets) =
        admit (limit_of cfg.login_request_limit) q.redis_count (limiter_key q "/api/auth/login")
          q.time s.login_buckets in
      let (response, w) = unless_limited allowed (System.login p r lib cfg body) s.world in
      (response, record s { world = w; login_buckets = buckets })
  answer (api x) q id s =
      let (allowed, buckets) =
        admit (limit_of cfg.request_limit) q.redis_count (limiter_key q (full_path x)) q.time
          s.api_buckets in
      let (response, w) = unless_limited allowed (api_route x q id) s.world in
      (response, record s { world = w; api_buckets = buckets })
  answer (unknown true) q id s = (no_content, s)
  answer (unknown false) q id s = (fail 404 "route_not_found", s)

  -- `RequestContext` gives the request its id, before anything else.
  unfoldable pub exchange : HttpRequest → Server p.World → Response × Server p.World
  exchange q s = answer q.endpoint q (normalize_request_id q.fresh_id q.x_request_id) s

  -- Requests one after another.
  unfoldable pub exchange_all : List HttpRequest → Server p.World → Server p.World
  exchange_all [] s = s
  exchange_all (q ∷ rest) s = exchange_all rest (exchange q s).1
