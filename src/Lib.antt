-- ===== src/Lib.antt =====
-- The dispatch control of hydropower gates: the Go server under `backend/`.
--
-- The program keeps reservoirs, gates, operation directives and execution confirmations (receipts),
-- each with a state, a version for the optimistic lock, and an audit trail. A directive is drafted,
-- submitted by one person, approved by another, executed, and ended by a receipt; its gate moves with
-- it. A request passes the middleware and a handler, and a service (`backend/internal/service`) checks
-- its guards, reads and writes through a repository (`backend/internal/repository`), and puts each
-- write and its audit entry in one transaction.
--
-- - Prelude: the shared names, and Boolean tests on numbers and texts.
-- - Ints: Go's `int` and `int64`.
-- - Exec: Go functions that change the world and may return an `error`, as state passing; the rules by
--   which a statement about a `do` block is proved call by call.
-- - Text: `strings.TrimSpace`, `ToUpper`, `ToLower` and `EqualFold`, with the tables of package
--   `unicode` as a parameter; Text.Words: texts without white space.
-- - Constants: `backend/internal/constants/status.go`; Constants.Edges: the graphs as relations.
-- - Model, Dto: `backend/internal/model` and `backend/internal/dto`.
-- - Platform: the database behind GORM, its transactions and the clock, as parameters with laws;
--   Platform.Schema: what the tables hold and what a statement does to them. Platform.Reads: the
--   statements that only read. Platform.Library: functions of Go's library, of bcrypt and of JWT.
-- - Repository.Store: `Store[T]` of `backend/internal/repository/base.go`; Repository.Directives and
--   Repository.Confirmations: what those repositories add. Repository.Lists and Repository.Audits: the
--   lists, the counts by state and the reports on the audit log. Their Laws say what each call does.
-- - Service.Security: `Audit` of `backend/internal/service/security.go`. Service.Login: `Login` and the
--   reports, of the same file. Service.Reservoir,
--   Service.Gate, Service.Directive (with Draft for `Create`, `Update` and `Delete`) and
--   Service.Confirmation: one function for each `Create`, `Update`, `Transition` and `Delete`. Their
--   Effects state what a committed call has done to the tables, and Service.Directive.Progress treats
--   a database that is up. Service.Records: what they share. The modules named Rows below Service
--   describe each row that a write leaves, column by column and apart from the code that builds it.
-- - System: the server as a whole. Serve answers a list of requests, Changes lists all that a request
--   can do, Kinds and Trail treat the audit trail, Evidence and TwoPerson the two-person rule.
-- - Web: what stands before the services, each in a module of its own. RateLimit: the counters of
--   `backend/internal/middleware/ratelimit.go`. Access: accounts and roles, of `auth.go` beside it, and
--   in Access.Tokens the way of a token from a login to a later request. Queries: paging and the ranges
--   of reports. RequestId: `normalizeRequestID` of `backend/internal/middleware/request.go`. Config: the
--   checks of `backend/internal/config/config.go`; Config.Load and Config.Lists: its `Load` and
--   `splitCSV`. Errors: `handleError`. Http: the answers and the helpers that the handlers share.
--   Handlers: the five files of handlers in `backend/internal/handler`, one module each, and in
--   Handlers.Effects and Handlers.Exact what they do to the world, over the interface of
--   Handlers.Calls for the four record types. Server: `backend/internal/router/router.go` with its
--   middleware; Server.Routing: the group `/api`; Server.Safety and Server.Exact: whole requests.
--   Routes: who may ask for which write request, the table that the handlers are compared with.
-- - Database: `backend/internal/database/database.go`. Setup: its statements, as parameters with laws.
--   Connect: `Open`, with the loop that waits for the database. Seed: `Seed` and, in Seed.Rows, every
--   record that it writes.
-- - Process: `main` of `backend/cmd/server/main.go`, from the environment to the last request.
-- - Examples: a database in memory that obeys the laws, runs on it, and the theorems applied to it.
--
-- A `uint` is a natural number of 64 bits whose increment and decrement wrap (Service.Records); a
-- `time.Time` is an instant in nanoseconds; a `float64`, which is only copied, is its bit pattern; a Go
-- `string` is a sequence of characters, so it is valid UTF-8. An error keeps its sentinel and loses
-- its message. Requests are served one at a time: the statements of two requests do not interleave.
-- Every function recurses on its data, but for the loop of `Open`, which recurses on the 20 attempts
-- that it has; no fuel is needed.
--
-- Not modelled: the front end; Gin's matching of routes, its binding and JSON, and the messages beside
-- the error codes; headers, logging and the recovery from a panic; the signals and the listener of
-- the process. JWT, bcrypt, GORM, Redis and the drivers are parameters; what JWT
-- makes of a token depends on the world, which has the time.
pub mod Prelude
pub mod Ints
pub mod Exec
pub mod Text
pub mod Constants
pub mod Model
pub mod Dto
pub mod Platform
pub mod Repository
pub mod Service
pub mod System
pub mod Web
pub mod Database
pub mod Process
pub mod Examples
