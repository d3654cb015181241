-- ===== src/Httpapi/Api/Calls.antt =====
-- handleRPCCall of internal/httpapi/api.go over the dispatcher. The JSON codecs, the text of a call's
-- error and the Go error behind it are parameters.
pub mod Repeat
use agentic_coop_db.Prelude.{
  ℕ, Option, none, some, List, [], ◌∷◌, Bytes, codes, Result, ok, err, if◌then◌else◌,
}
use agentic_coop_db.Auth.Middleware.{WorkspaceContext}
use agentic_coop_db.Httpapi.Errors.{map_error}
use agentic_coop_db.Httpapi.Api.{
  Request, Answer, json, replayed, idempotency_hit, idempotency_miss, rpc_invocation, Served,
  Gateway, problem_of, refused, audit,
}
use agentic_coop_db.Httpapi.Api.Statements.{problem_or_panic}
use agentic_coop_db.Rpc.Dispatcher.{
  CallInput, CallResult, CallError, unknown_procedure, role_not_permitted, Session, Called, call,
}
use agentic_coop_db.Rpc.Idempotency.{Table, conflict, Round}
use agentic_coop_db.Rpc.Idempotency.Hash.{hash_request}
use agentic_coop_db.Rpc.Registry.{Registry}
use agentic_coop_db.Sql.Errors.{GoError}

pub record RpcCallRequest (Args : Type 0) : Type 0 where
  pub procedure : Bytes
  pub args : Args

pub record RpcService (Args Schema : Type 0) : Type 0 where
  pub registry : Registry Schema
  pub validate_schema : Schema → Args → Option Bytes
  pub marshal_args : Args → Result Bytes Bytes
  pub marshal_body : Bytes → Option Bytes → ℕ → Bytes
  pub unmarshal : Bytes → Result Bytes (RpcCallRequest Args)
  pub marshal : CallResult → Bytes
  pub args_value : Args → Bytes
  pub error_text : CallError → Bytes
  pub cause : CallError → GoError
  pub statement_timeout : ℕ
  pub idle_in_tx_timeout : ℕ

pub record Run : Type 0 where
  pub rounds : List Round
  pub session : Session
  pub complete_error : Option Bytes
  pub elapsed_ms : ℕ

module _ {Args Schema : Type 0} (g : Gateway) (s : RpcService Args Schema) where
  unfoldable pub call_input :
      Request → WorkspaceContext → (body : Bytes) → RpcCallRequest Args → CallInput Args
  call_input r ws body req = record {
    workspace_id = ws.workspace_id;
    pg_role = ws.pg_role;
    name = req.procedure;
    args = req.args;
    idempotency_key = r.idempotency_key;
    request_hash = hash_request g.sha256 g.hex r.method r.path body;
    statement_timeout = s.statement_timeout;
    idle_in_tx_timeout = s.idle_in_tx_timeout;
  }

  unfoldable pub dispatch : Run → CallInput Args → Table → Called
  dispatch x input table =
      call Args Schema s.validate_schema s.marshal_args s.marshal_body g.codecs s.registry x.rounds
        x.session x.complete_error input table

  -- The problem of a call that failed.
  unfoldable pub call_problem : CallError → Option Answer
  call_problem unknown_procedure =
      some (problem_of "unknown_procedure" 404 (s.error_text unknown_procedure))
  call_problem role_not_permitted =
      some (problem_of "permission_denied" 403 (s.error_text role_not_permitted))
  call_problem (CallError.refused conflict) =
      some (problem_of "idempotency_conflict" 409 (s.error_text (CallError.refused conflict)))
  call_problem e = problem_or_panic (map_error g.text (some (s.cause e)))

  unfoldable pub answer_call :
      Run → Request → WorkspaceContext → RpcCallRequest Args → Called → Served Table
  answer_call x r ws req called = elim called.result [
    | err e ↦ elim (call_problem e) [
      | none ↦ record {
        state = called.table;
        sent = called.sent;
        answer = none;
        audited = [];
        counted = [];
      }
      | some a ↦ record {
        state = called.table;
        sent = called.sent;
        answer = some a;
        audited =
            audit g r ws "POST /v1/rpc/call" (codes "RPC") req.procedure
              (s.args_value req.args ∷ []) x.elapsed_ms 500 (some (s.cause e));
        counted = rpc_invocation req.procedure (codes "error") ∷ [];
      }
    ]
    | ok res ↦
        if res.replay
        then record {
          state = called.table;
          sent = called.sent;
          answer = some (replayed res.cached_status res.cached_body);
          audited = [];
          counted = idempotency_hit ∷ rpc_invocation req.procedure (codes "ok") ∷ [];
        }
        else record {
          state = called.table;
          sent = called.sent;
          answer = some (json 200 (s.marshal res));
          audited =
              audit g r ws "POST /v1/rpc/call" (codes "RPC") req.procedure
                (s.args_value req.args ∷ []) x.elapsed_ms 200 none;
          counted = idempotency_miss ∷ rpc_invocation req.procedure (codes "ok") ∷ [];
        }
  ]

  unfoldable pub handle_rpc_call : Run → Request → WorkspaceContext → Table → Served Table
  handle_rpc_call x r ws table = elim r.body [
    | err e ↦ refused table (problem_of "body_too_large" 413 e)
    | ok body ↦ elim (s.unmarshal body) [
      | err e ↦ refused table (problem_of "invalid_json" 400 e)
      | ok req ↦ answer_call x r ws req (dispatch x (call_input r ws body req) table)
    ]
  ]
