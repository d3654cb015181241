-- ===== src/Httpapi/Api.antt =====
-- internal/httpapi/api.go: what the handlers share. The JSON encoder and decoder, SHA-256, the texts of
-- errors, and net.SplitHostPort are parameters. A panic is an answer `none`.
pub mod Statements
pub mod Calls
pub mod Keys
pub mod Routes
pub mod Tests
mod CallTests
use agentic_coop_db.Prelude.{
  ℕ, Bool, true, false, Option, none, some, List, [], ◌∷◌, ◌++◌, Bytes, codes, Result,
  if◌then◌else◌, String,
}
use agentic_coop_db.Audit.{Entry}
use agentic_coop_db.Auth.Middleware.{WorkspaceContext}
use agentic_coop_db.Httpapi.Errors.{Problem, map_error}
use agentic_coop_db.Rpc.Idempotency.{Codecs}
use agentic_coop_db.Sql.Errors.{GoError}
use agentic_coop_db.Tenant.{Stmt}

-- What the handlers read of a request; `body` is the answer of io.ReadAll.
pub record Request : Type 0 where
  pub method : Bytes
  pub path : Bytes
  pub remote_addr : Bytes
  pub request_id : Bytes
  pub idempotency_key : Bytes
  pub body : Result Bytes Bytes

-- WriteProblem, a JSON body, or a stored body with its status and X-Idempotent-Replayed.
pub data Answer : Type 0 where
  problem : Problem → Answer
  json : (status : ℕ) → Bytes → Answer
  replayed : (status : ℕ) → Bytes → Answer

unfoldable pub status_of : Answer → ℕ
status_of (problem p) = p.status
status_of (json status body) = status
status_of (replayed status body) = status

-- The counters of observability.Metrics.
pub data Metric : Type 0 where
  idempotency_hit idempotency_miss : Metric
  sql_statement : (command sqlstate : Bytes) → Metric
  rpc_invocation : (procedure outcome : Bytes) → Metric

-- What a request leaves: the state S of the gateway, the statements it sent outside the idempotency
-- table, its answer, its audit entries and its counters.
pub record Served (S : Type 0) : Type 0 where
  pub state : S
  pub sent : List Stmt
  pub answer : Option Answer
  pub audited : List Entry
  pub counted : List Metric

pub record Gateway : Type 0 where
  pub has_auditor : Bool
  pub codecs : Codecs
  pub text : GoError → Bytes
  pub split_host_port : Bytes → Option Bytes
  pub marshal_problem : Problem → Bytes
  pub sha256 : Bytes → Bytes
  pub hex : Bytes → Bytes

unfoldable pub problem_of : (title : String) (status : ℕ) (detail : Bytes) → Answer
problem_of title status detail =
    problem (record { title = codes title; status = status; detail = detail; sqlstate = [] })

-- A request that is answered with no more ado.
unfoldable pub refused : {S : Type 0} → S → Answer → Served S
refused s a = record { state = s; sent = []; answer = some a; audited = []; counted = [] }

-- The response as the client sees it.
pub record Written : Type 0 where
  pub content_type : Bytes
  pub idempotent_replayed : Bool
  pub status : ℕ
  pub body : Bytes

module _ (g : Gateway) where
  -- json.Marshal of the answer's content.
  unfoldable pub content : Answer → Bytes
  content (problem p) = g.marshal_problem p
  content (json status body) = body
  content (replayed status body) = body

  -- The encoder that WriteProblem uses ends the document with a line feed.
  unfoldable pub render : Answer → Written
  render (problem p) = record {
    content_type = codes "application/problem+json";
    idempotent_replayed = false;
    status = p.status;
    body = g.marshal_problem p ++ (10 ∷ []);
  }
  render (json status body) = record {
    content_type = codes "application/json";
    idempotent_replayed = false;
    status = status;
    body = body;
  }
  render (replayed status body) = record {
    content_type = codes "application/json";
    idempotent_replayed = true;
    status = status;
    body = body;
  }

  unfoldable pub client_ip : Request → Bytes
  client_ip r = elim (g.split_host_port r.remote_addr) [ none ↦ r.remote_addr | some host ↦ host ]

  abbrev entry_of :
      Request
      → WorkspaceContext
      → (endpoint command sql : Bytes) → List Bytes
      → (elapsed_ms status : ℕ) → (error_code sqlstate : Bytes) → Entry
  entry_of r ws endpoint command sql params elapsed_ms status error_code sqlstate = record {
    request_id = r.request_id;
    workspace_id = ws.workspace_id;
    key_dbid = ws.key_dbid;
    endpoint = endpoint;
    command = command;
    sql = sql;
    params = some params;
    duration_ms = elapsed_ms;
    status_code = status;
    error_code = error_code;
    sqlstate = sqlstate;
    client_ip = client_ip r;
  }

  -- The entries that `audit` writes; a panic of MapError writes none.
  unfoldable pub audit :
      Request
      → WorkspaceContext
      → (endpoint : String) (command sql : Bytes) → List Bytes
      → (elapsed_ms status : ℕ) → Option GoError
      → List Entry
  audit r ws endpoint command sql params elapsed_ms status failure =
      let entry = entry_of r ws (codes endpoint) command sql params elapsed_ms status in
      if g.has_auditor
      then elim failure [
        | none ↦ entry [] [] ∷ []
        | some e ↦ elim (map_error g.text (some e)) [
          | none ↦ []
          | some p ↦ entry p.title p.sqlstate ∷ []
        ]
      ]
      else []
