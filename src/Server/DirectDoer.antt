-- ===== src/Server/DirectDoer.antt =====
-- cmd/server/direct_doer.go: the tools' calls served in process, without HTTP. The JSON decoder, the
-- Go error behind an error of the dispatcher, and the ping of the pool are parameters.
pub mod Same
use agentic_coop_db.Prelude.{
  ℕ, Bool, true, false, Option, none, some, List, [], ◌∷◌, ◌++◌, Bytes, codes, Result, ok, err,
  String,
}
use agentic_coop_db.Audit.{Entry}
use agentic_coop_db.Auth.Middleware.{WorkspaceContext}
use agentic_coop_db.Httpapi.Errors.{Problem, map_error}
use agentic_coop_db.Httpapi.Api.{Gateway}
use agentic_coop_db.Httpapi.Api.Statements.{SqlExecuteRequest, SqlService, Run, run_sql}
use agentic_coop_db.Httpapi.Api.Calls
use agentic_coop_db.Httpapi.Api.Calls.{RpcService, dispatch}
use agentic_coop_db.Mcp.Tools.{MeResult, HealthResult}
use agentic_coop_db.Rpc.Dispatcher.{CallInput}
use agentic_coop_db.Rpc.Idempotency.{Table}
use agentic_coop_db.Sql.Errors.{GoError, validation, wrapped, other}
use agentic_coop_db.Sql.Executor.{Response}
use agentic_coop_db.Sql.Validator.{validate}
use agentic_coop_db.Tenant.{Stmt}

-- What a call leaves: the statements sent, the result, and the audit entries. A panic of MapError is a
-- result `none`.
pub record Done (A : Type 0) : Type 0 where
  pub sent : List Stmt
  pub result : Option (Result GoError A)
  pub audited : List Entry

-- The title and status of MapError, none for its panic; no error has neither title nor status.
abbrev problem_of : (GoError → Bytes) → Option GoError → Option (Option Problem)
problem_of text none = some none
problem_of text (some e) = elim (map_error text (some e)) [ none ↦ none | some p ↦ some (some p) ]

abbrev title_of : Option Problem → Bytes
title_of none = []
title_of (some p) = p.title

module _ (g : Gateway) where
  abbrev entry :
      (request_id : Bytes)
      → WorkspaceContext
      → (endpoint command sql : Bytes) → List Bytes
      → (elapsed_ms status : ℕ) → (error_code : Bytes) → Entry
  entry request_id ws endpoint command sql params elapsed_ms status error_code = record {
    request_id = request_id;
    workspace_id = ws.workspace_id;
    key_dbid = ws.key_dbid;
    endpoint = endpoint;
    command = command;
    sql = sql;
    params = some params;
    duration_ms = elapsed_ms;
    status_code = status;
    error_code = error_code;
    sqlstate = [];
    client_ip = [];
  }

  unfoldable pub audit :
      (request_id : Bytes)
      → WorkspaceContext
      → (endpoint command sql : Bytes) → List Bytes
      → (elapsed_ms status : ℕ) → (failure : Option Problem) → List Entry
  audit request_id ws endpoint command sql params elapsed_ms status failure = elim g.has_auditor [
    | false ↦ []
    | true ↦
        entry request_id ws endpoint command sql params elapsed_ms status (title_of failure) ∷ []
  ]

  -- An error that is mapped for the audit and returned.
  unfoldable pub fail :
      {A : Type 0}
      → (request_id : Bytes) → WorkspaceContext
      → (endpoint command sql : Bytes) → List Bytes
      → (elapsed_ms : ℕ) → List Stmt
      → GoError
      → Done A
  fail request_id ws endpoint command sql params elapsed_ms sent e =
      elim (map_error g.text (some e)) [
        | none ↦ record { sent = sent; result = none; audited = [] }
        | some p ↦ record {
          sent = sent;
          result = some (err e);
          audited = audit request_id ws endpoint command sql params elapsed_ms p.status (some p);
        }
      ]

  -- The idempotency key is not used.
  unfoldable pub direct_sql_execute :
      {Value : Type 0}
      → SqlService Value
      → Run Value
      → (request_id : Bytes) → WorkspaceContext
      → SqlExecuteRequest
      → (idempotency_key : Bytes) → Done (Response Value)
  direct_sql_execute s x request_id ws req idempotency_key =
      elim (validate s.parse s.scan s.limits req.sql req.params) [
        | err e ↦
            fail request_id ws (codes "MCP sql_execute") [] req.sql req.params x.elapsed_ms []
              (validation e)
        | ok res ↦
            let ran = run_sql g s x ws req res in
            elim ran.result [
              | err e ↦
                  fail request_id ws (codes "MCP sql_execute") res.command req.sql req.params
                    x.elapsed_ms ran.sent e
              | ok resp ↦ record {
                sent = ran.sent;
                result = some (ok resp);
                audited =
                    audit request_id ws (codes "MCP sql_execute") res.command req.sql req.params
                      x.elapsed_ms 200 none;
              }
            ]
      ]

  -- The input of a call without an idempotency key and a hash.
  unfoldable pub direct_input :
      {Args Schema : Type 0}
      → RpcService Args Schema
      → WorkspaceContext
      → (procedure : Bytes) → Args
      → CallInput Args
  direct_input s ws procedure args = record {
    workspace_id = ws.workspace_id;
    pg_role = ws.pg_role;
    name = procedure;
    args = args;
    idempotency_key = [];
    request_hash = [];
    statement_timeout = s.statement_timeout;
    idle_in_tx_timeout = s.idle_in_tx_timeout;
  }

  -- A null result is an empty text, which is not decoded.
  unfoldable pub decode_result :
      {A : Type 0} → (Bytes → Result Bytes A) → (zero : A) → Bytes → Result Bytes A
  decode_result unmarshal zero [] = ok zero
  decode_result unmarshal zero (b ∷ raw) = unmarshal (b ∷ raw)

  unfoldable pub direct_rpc_call :
      {Args Schema A : Type 0}
      → RpcService Args Schema
      → (Bytes → Result Bytes A)
      → (zero : A) → Calls.Run
      → (request_id : Bytes) → WorkspaceContext
      → (procedure : Bytes) → Args
      → Table
      → Done A
  direct_rpc_call s unmarshal zero x request_id ws procedure args table =
      let called = dispatch g s x (direct_input s ws procedure args) table in
      elim called.result [
        | err e ↦
            fail request_id ws (codes "MCP rpc_call") (codes "RPC") procedure
              (s.args_value args ∷ []) x.elapsed_ms called.sent (s.cause e)
        | ok res ↦ elim (decode_result unmarshal zero res.result) [
          | err e ↦
              let failure = wrapped (codes "unmarshal rpc result") (other e) in
              elim (map_error g.text (some failure)) [
                | none ↦ record { sent = called.sent; result = none; audited = [] }
                | some p ↦ record {
                  sent = called.sent;
                  result = some (err failure);
                  audited =
                      audit request_id ws (codes "MCP rpc_call") (codes "RPC") procedure
                        (s.args_value args ∷ []) x.elapsed_ms 500 (some p);
                }
              ]
          | ok a ↦ record {
            sent = called.sent;
            result = some (ok a);
            audited =
                audit request_id ws (codes "MCP rpc_call") (codes "RPC") procedure
                  (s.args_value args ∷ []) x.elapsed_ms 200 none;
          }
        ]
      ]

unfoldable pub direct_me : WorkspaceContext → MeResult
direct_me ws = record {
  workspace_id = ws.workspace_id;
  key_id = ws.key_id;
  role = ws.pg_role;
  env = ws.env;
}

-- A nil pool is `none`; else the answer of Ping.
unfoldable pub direct_health : Option (Option Bytes) → HealthResult
direct_health none = record {
  healthy = false;
  ready = false;
  detail = codes "database pool not initialized";
}
direct_health (some (some e)) = record {
  healthy = false;
  ready = false;
  detail = codes "database ping failed: " ++ e;
}
direct_health (some none) = record { healthy = true; ready = true; detail = [] }
