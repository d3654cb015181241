-- ===== src/Httpapi/Api/Tests.antt =====
-- The theorems about the handlers of internal/httpapi/api.go at concrete inputs.
use agentic_coop_db.Prelude.{
  ℕ, ◌≡◌, refl, arith, true, none, some, [], ◌∷◌, codes, bytes_eq, All, ok,
}
use agentic_coop_db.Auth.Middleware.{WorkspaceContext}
use agentic_coop_db.Httpapi.Api.{Request, json, replayed, status_of, Gateway, content}
use agentic_coop_db.Httpapi.Api.Statements.{
  SqlExecuteRequest, SqlService, Run, handle_sql_execute, validate_and_execute, execute_once,
  execute_and_complete, finish, run_sql,
}
use agentic_coop_db.Httpapi.Api.Statements.Repeat.{IsExecutable, handle-handle}
use agentic_coop_db.Httpapi.Api.Statements.Sound.{IsExecuted, handle-IsExecuted}
use agentic_coop_db.Httpapi.Api.Statements.Audited.{HasStatus, handle-audited}
use agentic_coop_db.Rpc.Idempotency.{begin_or_replay, begin_rounds, attempt, select}
use agentic_coop_db.Rpc.Idempotency.Hash.{hash_request, payload}
use agentic_coop_db.Rpc.Tests.{codecs, round_at, alone, sound, empty}
use agentic_coop_db.Sql.Executor.{execute, run_and_commit, run_statement, read_rows}
use agentic_coop_db.Sql.Validator.{
  validate, count_placeholders, highest, placeholder, token_text, decimal, atoi, classify,
  returning_present, new_validator,
}
use agentic_coop_db.Sql.Tests.{sql, parse, scan, limits, described, count_bytes, answers, config}
use agentic_coop_db.Tenant.{setup, send, is_safe_role_name, all_safe, is_safe_byte}

abbrev pub gateway : Gateway
gateway = record {
  has_auditor = true;
  codecs = codecs;
  text = λ e. codes "error";
  split_host_port = λ addr. none;
  marshal_problem = λ p. p.title;
  sha256 = λ s. s;
  hex = λ s. s;
}

abbrev pub request : Request
request = record {
  method = codes "POST";
  path = codes "/sql/execute";
  remote_addr = codes "10.0.0.1:4711";
  request_id = codes "r1";
  idempotency_key = codes "retry-1";
  body = ok (codes "{}");
}

abbrev pub caller : WorkspaceContext
caller = record {
  workspace_id = codes "w1";
  key_id = codes "AAAAAAAAAAAAAAAA";
  key_dbid = codes "k1";
  pg_role = codes "dbadmin";
  env = codes "dev";
}

abbrev pub decoded : SqlExecuteRequest
decoded = record { sql = sql; params = codes "7" ∷ codes "8" ∷ [] }

abbrev pub service : SqlService ℕ
service = record {
  parse = parse;
  scan = scan;
  limits = limits;
  row_bytes = count_bytes;
  executor = config;
  unmarshal = λ body. ok decoded;
  marshal = λ resp. resp.command;
  max_response_body_bytes = 1000;
}

abbrev pub run_of : ℕ → Run ℕ
run_of now = record {
  rounds = round_at now ∷ [];
  db = answers;
  complete_error = none;
  elapsed_ms = 3;
}

valid : validate parse scan limits sql (codes "7" ∷ codes "8" ∷ []) ≡ ok described
unfolding validate count_placeholders highest placeholder token_text atoi decimal classify
    returning_present bytes_eq new_validator
valid = refl

executable : IsExecutable service request (codes "{}") decoded described
executable = record { read = refl; decoded = refl; valid = valid; keyed = λ e. cc }

responds :
    (handle_sql_execute gateway service (run_of 50) request caller []).answer
    ≡ some (json 200 (codes "INSERT"))
unfolding handle_sql_execute validate_and_execute execute_once execute_and_complete finish run_sql
    validate count_placeholders highest placeholder token_text atoi decimal classify
    returning_present execute run_and_commit run_statement read_rows setup send is_safe_role_name
    all_safe is_safe_byte bytes_eq begin_or_replay begin_rounds attempt select hash_request payload
    new_validator
responds = refl

handle-handle_example :
    ((handle_sql_execute gateway service (run_of 50) request caller []).sent
      ≡ (run_sql gateway service (run_of 50) caller decoded described).sent)
    × ((handle_sql_execute gateway service
          (run_of 60)
          request
          caller
          (handle_sql_execute gateway service (run_of 50) request caller []).state).sent
        ≡ [])
    × ((handle_sql_execute gateway service
          (run_of 60)
          request
          caller
          (handle_sql_execute gateway service (run_of 50) request caller []).state).answer
        ≡ some (
            replayed
              (status_of (json 200 (codes "INSERT")))
              (content gateway (json 200 (codes "INSERT")))))
handle-handle_example =
    handle-handle gateway service request caller (codes "{}") decoded described executable
      (codes "w1") (run_of 50) (run_of 60) (round_at 50) (round_at 60) [] [] []
      (json 200 (codes "INSERT")) refl refl refl refl empty (sound 50) (sound 60) (alone 60)
      (omega arith) responds

handle-IsExecuted_example :
    IsExecuted gateway service
      (run_of 50)
      request
      caller
      (handle_sql_execute gateway service (run_of 50) request caller [])
      200
      (codes "INSERT")
handle-IsExecuted_example =
    handle-IsExecuted gateway service (run_of 50) request caller [] 200 (codes "INSERT") responds

handle-audited_example :
    All
      (HasStatus (status_of (json 200 (codes "INSERT"))))
      (handle_sql_execute gateway service (run_of 50) request caller []).audited
handle-audited_example =
    handle-audited gateway service (run_of 50) request caller [] (json 200 (codes "INSERT"))
      responds
