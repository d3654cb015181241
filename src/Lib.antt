-- ===== src/Lib.antt =====
-- A gateway between agents and PostgreSQL. A request carries a bearer key; internal/auth turns it
-- into a workspace and a database role; internal/httpapi limits its rate; internal/rpc keeps a
-- repeated request from running twice; internal/sql checks the statement; internal/tenant binds the
-- transaction to the workspace and the role. The handlers of internal/httpapi put these together;
-- internal/audit records what they answer; internal/mcp offers them as tools; internal/config and
-- internal/db read the settings and prepare the database before the first request.
--
-- Which file models which part, with the source's names in snake_case:
--   Auth.Key (internal/auth/key.go): IsValid, ParseBearer, Mint. ParseBearer is cut into
--     parse_token, parse_env and parse_fields, the code behind each of its early returns.
--   Auth.Secret (internal/auth/key.go): HashSecret, VerifySecret, subtleConstantTimeEq.
--   Auth.Record (internal/auth/key.go): KeyRecord and Active.
--   Auth.Cache (internal/auth/cache.go): VerifyCache, over LruCache, the laws of golang-lru.
--   Auth.Middleware (internal/auth/middleware.go): Authenticate, resolve, writeAuthError, itoa.
--   Auth.Store (internal/auth/store.go): FindByKeyID, TouchLastUsed, Create, Revoke, Rotate over the
--     rows of api_keys. create_row and rotate_row are the calls up to the commit.
--   Rpc.Idempotency (internal/rpc/idempotency.go): BeginOrReplay, Complete, PurgeExpired over the
--     rows of idempotency_keys. attempt and read_row are one transaction, begin_rounds
--     the calls of itself.
--   Rpc.Registry (internal/rpc/registry.go): Register and Get; LoadBuiltins in its child Builtins.
--   Rpc.Dispatcher (internal/rpc/dispatcher.go): Call and run, over Rpc.Idempotency and Tenant.
--   Sql.Errors, Sql.Executor (internal/sql/executor.go): Execute over Tenant, classifyPgErr, and the
--     chains of errors that Httpapi.Errors (internal/httpapi/errors.go) maps: MapError, mapPgError.
--   Httpapi.TokenBucket (internal/httpapi/middleware.go): newTokenBucket, refill, Allow, Tokens.
--   Httpapi.RateLimit (internal/httpapi/middleware.go): NewRateLimit, Middleware, limiterFor, with a
--     store of buckets behind the pointers of the LRU map.
--   Tenant (internal/tenant/tenant.go): Setup and isSafeRoleName.
--   Httpapi.Api (internal/httpapi/api.go): the requests and answers that the handlers share, and
--     audit; in its children handleSQLExecute (Statements, cut at the idempotency layer and at the
--     executor), handleRPCCall (Calls), handleKeyRotate, handleKeyCreate and handleMe (Keys), and the
--     mux with its guards (Routes).
--   Httpapi.Wrappers (internal/httpapi/middleware.go): RequestID, RealIP, Recoverer, responseWriter.
--   Audit (internal/audit/audit.go): NewWriter, Write and the two hashes.
--   Mcp.Values, Mcp.Tools (internal/mcp/tools.go): the JSON values and the handlers of the tools, each
--     in Plans as the call that it plans, or its refusal; handle makes the call and shows the reply.
--   Mcp.Client (internal/mcp/client.go): the HTTP client of the gateway.
--   Vector (internal/vector/vector.go): Format, EnsureIVFFlatIndex, Search.
--   Db.Migrate (internal/db/migrate.go): the redaction of secrets and SetRolePassword; in Flow
--     RunMigrations, ForceVersion and EnsureOwnerRole.
--   Db.Keys, Db.Keys.Admin (internal/db/keymint.go, keylist.go, keyrevoke.go): MintKey, cut into
--     mint_checked before the connection and find_or_create, ListKeys and RevokeKey.
--   Config, Config.Load (internal/config/config.go): Load, cut into its durations, numbers and secrets, and the
--     readers of variables.
--   Server.DirectDoer (cmd/server/direct_doer.go): SQLExecute, RPCCall, Me, Health and audit of the
--     tools that are served in process.
--   Sql.Validator (internal/sql/validator.go): Validate, classify, returningPresent,
--     countPlaceholders.
--
-- A string is its list of bytes, a time a number of nanoseconds, an int a natural number, with what
-- the source does below 0 written out where it can get there. Errors are values. State is passed
-- along; what other processes and the driver do is an argument.
--
-- Bounds and fuel: itoa writes into a buffer of 20 digits, enough for 64 bits. BeginOrReplay calls
-- itself without a bound; the model gives each call a round, and two rounds are enough where nobody
-- else writes the slot in between. A float64 is a parameter,
-- and what IEEE 754 says of its rounding a hypothesis of the theorem on the token bucket.
--
-- Parameters, code that is not the repository's: argon2id, base64, SHA-256, gzip, uuid.Parse,
-- fmt.Sscanf, fmt's %q and %g, encoding/json, net/url, golang-lru, golang-migrate, the parser and
-- scanner of pg_query, the HTTP transport, and the answers of PostgreSQL.
--
-- Not modelled: the access log and the limit of a request's body, which only call the libraries; the
-- registration of the tools with mcp-go, the pool, metrics and logging, and the
-- commands that wire these together.
pub mod Prelude
pub mod LruCache
pub mod Auth
pub mod Rpc
pub mod Tenant
pub mod Sql
pub mod Audit
pub mod Httpapi
pub mod Mcp
pub mod Vector
pub mod Db
pub mod Config
pub mod Server
