-- ===== src/Httpapi/Api/Statements.antt =====
-- handleSQLExecute of internal/httpapi/api.go, over the validator, the idempotency store, the executor
-- and the error table.
pub mod Repeat
pub mod Sound
pub mod Audited
use agentic_coop_db.Prelude.{
  ℕ, Bool, true, false, ◌&&◌, Option, none, some, List, [], ◌∷◌, ◌++◌, Bytes, codes, bytes_eq,
  length, ltb, Result, ok, err, if◌then◌else◌,
}
use agentic_coop_db.Auth.Middleware.{WorkspaceContext}
use agentic_coop_db.Httpapi.Errors.{Problem, map_error}
use agentic_coop_db.Httpapi.Api.{
  Request, Answer, problem, json, replayed, status_of, idempotency_hit, idempotency_miss,
  sql_statement, Served, Gateway, problem_of, refused, content, audit,
}
use agentic_coop_db.Rpc.Dispatcher.{day}
use agentic_coop_db.Rpc.Idempotency.{Table, StoreError, conflict, Round, begin_or_replay, complete}
use agentic_coop_db.Rpc.Idempotency.Hash.{hash_request}
use agentic_coop_db.Sql.Errors.{GoError, validation, response_too_large}
use agentic_coop_db.Sql.Executor.{
  ExecutorConfig, Database, Response, Executed, ExecuteInput, execute,
}
use agentic_coop_db.Sql.Validator.{ValidatorConfig, Validated, Node, Token, validate}

pub record SqlExecuteRequest : Type 0 where
  pub sql : Bytes
  pub params : List Bytes

-- The parsers and encoders that the handler calls, and the limits; a limit of the body that is not
-- positive is 0.
pub record SqlService (Value : Type 0) : Type 0 where
  pub parse : Bytes → Result Bytes (List (Option Node))
  pub scan : Bytes → Result Bytes (List Token)
  pub limits : ValidatorConfig
  pub row_bytes : List Value → ℕ
  pub executor : ExecutorConfig
  pub unmarshal : Bytes → Result Bytes SqlExecuteRequest
  pub marshal : Response Value → Bytes
  pub max_response_body_bytes : ℕ

-- What one request meets: the rounds of BeginOrReplay, the answers of the database, the failure of
-- the UPDATE of Complete, and its duration.
pub record Run (Value : Type 0) : Type 0 where
  pub rounds : List Round
  pub db : Database Value
  pub complete_error : Option Bytes
  pub elapsed_ms : ℕ

-- The answer of a request that was executed, whether it is stored as done, the label of its counter
-- and the error that is audited.
pub record Finished : Type 0 where
  pub answer : Answer
  pub was_ok : Bool
  pub label : Bytes
  pub failure : Option GoError

abbrev pub problem_or_panic : Option Problem → Option Answer
problem_or_panic none = none
problem_or_panic (some p) = some (problem p)

abbrev pub input_of : WorkspaceContext → SqlExecuteRequest → Validated → ExecuteInput
input_of ws req res = record {
  workspace_id = ws.workspace_id;
  pg_role = ws.pg_role;
  sql = req.sql;
  params = req.params;
  result = some res;
}

module _ {Value : Type 0} (g : Gateway) (s : SqlService Value) where
  unfoldable pub finish : Result GoError (Response Value) → Option Finished
  finish (err e) = elim (map_error g.text (some e)) [
    | none ↦ none
    | some p ↦
        some (record { answer = problem p; was_ok = false; label = p.sqlstate; failure = some e })
  ]
  finish (ok resp) =
      let body = s.marshal resp in
      if ltb 0 s.max_response_body_bytes && ltb s.max_response_body_bytes (length body)
      then some (record {
        answer =
            problem_of "response_too_large" 413
              (codes "serialized response exceeds AGENTCOOPDB_MAX_RESPONSE_BODY_BYTES");
        was_ok = false;
        label = codes "00000";
        failure = some response_too_large;
      })
      else some
          (record { answer = json 200 body; was_ok = true; label = codes "00000"; failure = none })

  unfoldable pub run_sql :
      Run Value → WorkspaceContext → SqlExecuteRequest → Validated → Executed Value
  run_sql x ws req res = execute s.row_bytes s.executor x.db (input_of ws req res)

  -- The part behind the idempotency layer. The error of Complete is only logged.
  unfoldable pub execute_and_complete :
      Run Value → Request → WorkspaceContext → SqlExecuteRequest → Validated → Table → Served Table
  execute_and_complete x r ws req res table =
      let ran = run_sql x ws req res in
      let missed = if bytes_eq r.idempotency_key [] then [] else idempotency_miss ∷ [] in
      elim (finish ran.result) [
        | none ↦ record {
          state = table;
          sent = ran.sent;
          answer = none;
          audited = [];
          counted = missed;
        }
        | some f ↦
            let completed =
              complete g.codecs x.complete_error ws.workspace_id r.idempotency_key
                (status_of f.answer) (content g f.answer) f.was_ok table in
            record {
              state = if bytes_eq r.idempotency_key [] then table else completed.0;
              sent = ran.sent;
              answer = some f.answer;
              audited =
                  audit g r ws "POST /v1/sql/execute" res.command req.sql req.params x.elapsed_ms
                    (status_of f.answer) f.failure;
              counted = missed ++ (sql_statement res.command f.label ∷ []);
            }
      ]

  unfoldable pub idempotency_refusal : StoreError → Answer
  idempotency_refusal conflict =
      problem_of "idempotency_conflict" 409
        (codes "idempotency key was used with a different request body")
  idempotency_refusal _ =
      problem_of "idempotency_internal" 500
        (codes "a request with this idempotency key is already in progress")

  unfoldable pub execute_once :
      Run Value
      → Request
      → WorkspaceContext
      → SqlExecuteRequest
      → Validated
      → (hash : Bytes) → Table
      → Served Table
  execute_once x r ws req res hash table =
      let (table', begun) =
        begin_or_replay g.codecs x.rounds ws.workspace_id r.idempotency_key hash day table in
      elim begun [
        | err e ↦ refused table' (idempotency_refusal e)
        | ok ir ↦
            if ir.replay
            then record {
              state = table';
              sent = [];
              answer = some (replayed ir.status_code ir.body);
              audited = [];
              counted = idempotency_hit ∷ [];
            }
            else execute_and_complete x r ws req res table'
      ]

  -- The part behind a body that was read.
  unfoldable pub validate_and_execute :
      Run Value
      → Request
      → WorkspaceContext
      → (body : Bytes) → SqlExecuteRequest
      → Table
      → Served Table
  validate_and_execute x r ws body req table =
      elim (validate s.parse s.scan s.limits req.sql req.params) [
        | err e ↦ record {
          state = table;
          sent = [];
          answer = problem_or_panic (map_error g.text (some (validation e)));
          audited =
              audit g r ws "POST /v1/sql/execute" [] req.sql req.params x.elapsed_ms 400
                (some (validation e));
          counted = [];
        }
        | ok res ↦
            if bytes_eq r.idempotency_key []
            then execute_and_complete x r ws req res table
            else execute_once x r ws req res (hash_request g.sha256 g.hex r.method r.path body)
                table
      ]

  unfoldable pub handle_sql_execute : Run Value → Request → WorkspaceContext → Table → Served Table
  handle_sql_execute x r ws table = elim r.body [
    | err e ↦ refused table (problem_of "body_too_large" 413 e)
    | ok body ↦ elim (s.unmarshal body) [
      | err e ↦ refused table (problem_of "invalid_json" 400 e)
      | ok req ↦ validate_and_execute x r ws body req table
    ]
  ]
