-- ===== src/Audit.antt =====
-- internal/audit/audit.go: the record of a request and the row of audit_logs. SHA-256 in hex, uuid.New,
-- uuid.Parse, net.ParseIP and the JSON encoder are parameters; a parameter's value is its JSON.
pub mod Rows
mod Tests
use agentic_coop_db.Prelude.{
  ℕ, Bool, true, false, ◌||◌, Option, none, some, List, [], ◌∷◌, Bytes, bytes_eq, if◌then◌else◌,
}

-- A nil slice of parameters is `none`.
pub record Entry : Type 0 where
  pub request_id : Bytes
  pub workspace_id : Bytes
  pub key_dbid : Bytes
  pub endpoint : Bytes
  pub command : Bytes
  pub sql : Bytes
  pub params : Option (List Bytes)
  pub duration_ms : ℕ
  pub status_code : ℕ
  pub error_code : Bytes
  pub sqlstate : Bytes
  pub client_ip : Bytes

-- The arguments of the INSERT.
pub record Row : Type 0 where
  pub id : Bytes
  pub request_id : Bytes
  pub workspace_id : Option Bytes
  pub key_id : Option Bytes
  pub endpoint : Bytes
  pub command : Bytes
  pub sql_hash : Bytes
  pub params_hash : Bytes
  pub sql_text : Option Bytes
  pub params_json : Option Bytes
  pub duration_ms : ℕ
  pub status_code : ℕ
  pub error_code : Bytes
  pub sqlstate : Bytes
  pub client_ip : Option Bytes

pub record Writer : Type 0 where
  pub has_pool : Bool
  pub disabled : Bool
  pub include_sql : Bool

unfoldable pub new_writer : (has_pool disabled include_sql : Bool) → Writer
new_writer has_pool disabled include_sql = record {
  has_pool = has_pool;
  disabled = disabled;
  include_sql = include_sql;
}

-- The attributes of the line that is always logged.
pub record Line : Type 0 where
  pub request_id : Bytes
  pub workspace_id : Bytes
  pub key_id : Bytes
  pub endpoint : Bytes
  pub command : Bytes
  pub duration_ms : ℕ
  pub status_code : ℕ
  pub error_code : Bytes
  pub sqlstate : Bytes
  pub client_ip : Bytes

unfoldable pub line_of : Entry → Line
line_of e = record {
  request_id = e.request_id;
  workspace_id = e.workspace_id;
  key_id = e.key_dbid;
  endpoint = e.endpoint;
  command = e.command;
  duration_ms = e.duration_ms;
  status_code = e.status_code;
  error_code = e.error_code;
  sqlstate = e.sqlstate;
  client_ip = e.client_ip;
}

abbrev list_of : Option (List Bytes) → List Bytes
list_of none = []
list_of (some params) = params

-- A text that is empty or does not parse is a null.
unfoldable pub parsed_or_null : (Bytes → Option Bytes) → Bytes → Option Bytes
parsed_or_null parse s = if bytes_eq s [] then none else parse s

module _ (hex_sha256 : Bytes → Bytes) (marshal : List Bytes → Option Bytes)
    (uuid_parse parse_ip : Bytes → Option Bytes) where
  unfoldable pub hash_or_empty : Bytes → Bytes
  hash_or_empty s = if bytes_eq s [] then [] else hex_sha256 s

  unfoldable pub params_hash : List Bytes → Bytes
  params_hash [] = []
  params_hash (p ∷ params) = elim (marshal (p ∷ params)) [ none ↦ [] | some b ↦ hex_sha256 b ]

  -- A failure of json.Marshal leaves nil bytes.
  abbrev params_json : Option (List Bytes) → Option Bytes
  params_json none = none
  params_json (some params) = marshal params

  unfoldable pub row_of : Writer → (id : Bytes) → Entry → Row
  row_of w id e = record {
    id = id;
    request_id = e.request_id;
    workspace_id = parsed_or_null uuid_parse e.workspace_id;
    key_id = parsed_or_null uuid_parse e.key_dbid;
    endpoint = e.endpoint;
    command = e.command;
    sql_hash = hash_or_empty e.sql;
    params_hash = params_hash (list_of e.params);
    sql_text = if w.include_sql then some e.sql else none;
    params_json = if w.include_sql then params_json e.params else none;
    duration_ms = e.duration_ms;
    status_code = e.status_code;
    error_code = e.error_code;
    sqlstate = e.sqlstate;
    client_ip = parsed_or_null parse_ip e.client_ip;
  }

  abbrev skips : Writer → Bool
  skips w = elim w.disabled [
    | true ↦ true
    | false ↦ elim w.has_pool [ true ↦ false | false ↦ true ]
  ]

  -- The row that Write inserts, if any; an error of the INSERT is only logged.
  unfoldable pub write : Writer → (id : Bytes) → Entry → Line × Option Row
  write w id e = (line_of e, if skips w then none else some (row_of w id e))
