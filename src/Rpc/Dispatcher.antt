-- ===== src/Rpc/Dispatcher.antt =====
-- internal/rpc/dispatcher.go: a call of a procedure, with its optional idempotent replay. The JSON
-- schema's check, the JSON encoder, the clocks and the answers of the database are parameters.
pub mod Run
pub mod Repeat
use agentic_coop_db.Prelude.{
  ℕ, ◌+◌, ◌-◌, ◌*◌, ◌/◌, Bool, true, false, not, ◌&&◌, Option, none, some, List, [], ◌∷◌, ◌++◌,
  Bytes, bytes_eq, if◌then◌else◌, Result, ok, err,
}
use agentic_coop_db.Rpc.Registry
use agentic_coop_db.Rpc.Registry.{Procedure, Registry}
use agentic_coop_db.Rpc.Idempotency.{Table, StoreError, Codecs, Round, begin_or_replay, complete}
use agentic_coop_db.Tenant.{Stmt, SetupError, setup}

pub record CallInput (Args : Type 0) : Type 0 where
  pub workspace_id : Bytes
  pub pg_role : Bytes
  pub name : Bytes
  pub args : Args
  pub idempotency_key : Bytes
  pub request_hash : Bytes
  pub statement_timeout : ℕ
  pub idle_in_tx_timeout : ℕ

pub record CallResult : Type 0 where
  pub procedure : Bytes
  pub result : Bytes
  pub duration_ms : ℕ
  pub replay : Bool
  pub cached_status : ℕ
  pub cached_body : Bytes

-- `nil_schema` is the panic of a procedure without one.
pub data CallError : Type 0 where
  unknown_procedure role_not_permitted nil_schema : CallError
  invalid_args : Bytes → CallError
  refused : StoreError → CallError
  failed : Bytes → CallError
  setup_failed : SetupError Bytes → CallError

-- The database and the clock during one run: the answers of BeginTx, Exec, QueryRow with Scan,
-- Commit, and time.Now before and after.
pub record Session : Type 0 where
  pub begin_error : Option Bytes
  pub exec : List Stmt → Stmt → Option Bytes
  pub query : List Stmt → Stmt → Result Bytes Bytes
  pub commit_error : Option Bytes
  pub started : ℕ
  pub ended : ℕ

-- The statements sent, whether the transaction was committed, and the result.
pub record Ran : Type 0 where
  pub sent : List Stmt
  pub committed : Bool
  pub result : Result CallError Bytes

-- What a call leaves: the idempotency table, the statements it sent, and its answer.
pub record Called : Type 0 where
  pub table : Table
  pub sent : List Stmt
  pub result : Result CallError CallResult

-- 24*time.Hour.
abbrev pub day : ℕ
day = 24 * 3600 * 1000000000

module _ (Args Schema : Type 0) (validate_schema : Schema → Args → Option Bytes)
    (marshal_args : Args → Result Bytes Bytes) (marshal_body : Bytes → Option Bytes → ℕ → Bytes)
    (c : Codecs) where
  -- The part of `run` behind a setup without error.
  unfoldable pub query_and_commit : Session → Procedure Schema → CallInput Args → List Stmt → Ran
  query_and_commit s proc input sent = elim (marshal_args input.args) [
    | err e ↦ record { sent = sent; committed = false; result = err (failed e) }
    | ok args_json ↦
        let stmt : Stmt = record { text = proc.body; args = args_json ∷ [] } in
        elim (s.query sent stmt) [
          | err e ↦ record {
            sent = sent ++ (stmt ∷ []);
            committed = false;
            result = err (failed e);
          }
          | ok raw ↦ elim s.commit_error [
            | some e ↦ record {
              sent = sent ++ (stmt ∷ []);
              committed = false;
              result = err (failed e);
            }
            | none ↦ record { sent = sent ++ (stmt ∷ []); committed = true; result = ok raw }
          ]
        ]
  ]

  unfoldable pub run : Session → Procedure Schema → CallInput Args → Ran
  run s proc input = elim s.begin_error [
    | some e ↦ record { sent = []; committed = false; result = err (failed e) }
    | none ↦
        let (sent, failure) =
          setup s.exec [] input.workspace_id input.pg_role input.statement_timeout
            input.idle_in_tx_timeout in
        elim failure [
          | some e ↦ record { sent = sent; committed = false; result = err (setup_failed e) }
          | none ↦ query_and_commit s proc input sent
        ]
  ]

  -- A nil result is `none`.
  abbrev pub raw_of : Result CallError Bytes → Option Bytes
  raw_of (ok raw) = some raw
  raw_of (err e) = none

  abbrev pub is_ok : Result CallError Bytes → Bool
  is_ok (ok raw) = true
  is_ok (err e) = false

  abbrev pub status_for : Bool → ℕ
  status_for true = 200
  status_for false = 500

  abbrev respond : Procedure Schema → ℕ → Result CallError Bytes → Result CallError CallResult
  respond proc ms (err e) = err e
  respond proc ms (ok raw) = ok (record {
    procedure = proc.name;
    result = raw;
    duration_ms = ms;
    replay = false;
    cached_status = 0;
    cached_body = [];
  })

  -- The body that is stored for a repetition.
  abbrev pub stored_body : Session → Procedure Schema → CallInput Args → Bytes
  stored_body s proc input =
      marshal_body proc.name (raw_of (run s proc input).result) ((s.ended - s.started) / 1000000)

  abbrev pub replayed : ℕ → Bytes → CallResult
  replayed status body = record {
    procedure = [];
    result = [];
    duration_ms = 0;
    replay = true;
    cached_status = status;
    cached_body = body;
  }

  -- The part of Call behind the idempotency layer. The error of Complete is only logged.
  unfoldable pub run_and_complete :
      Session → Option Bytes → Procedure Schema → CallInput Args → Table → Called
  run_and_complete s complete_error proc input table =
      let r = run s proc input in
      let was_ok = is_ok r.result in
      let completed =
        complete c complete_error input.workspace_id input.idempotency_key (status_for was_ok)
          (stored_body s proc input) was_ok table in
      record {
        table = if bytes_eq input.idempotency_key [] then table else completed.0;
        sent = r.sent;
        result = respond proc ((s.ended - s.started) / 1000000) r.result;
      }

  unfoldable pub call_idempotent :
      List Round → Session → Option Bytes → Procedure Schema → CallInput Args → Table → Called
  call_idempotent rounds s complete_error proc input table =
      let (table', begun) =
        begin_or_replay c rounds input.workspace_id input.idempotency_key input.request_hash day
          table in
      elim begun [
        | err e ↦ record { table = table'; sent = []; result = err (refused e) }
        | ok res ↦
            if res.replay
            then record {
              table = table';
              sent = [];
              result = ok (replayed res.status_code res.body);
            }
            else run_and_complete s complete_error proc input table'
      ]

  abbrev check_args : Option Schema → Args → Option CallError
  check_args none args = some nil_schema
  check_args (some schema) args = elim (validate_schema schema args) [
    | none ↦ none
    | some e ↦ some (invalid_args e)
  ]

  unfoldable pub call :
      Registry Schema → List Round → Session → Option Bytes → CallInput Args → Table → Called
  call registry rounds s complete_error input table =
      elim (Registry.get Schema registry input.name) [
        | none ↦ record { table = table; sent = []; result = err unknown_procedure }
        | some proc ↦
            if not (bytes_eq proc.required_role [])
              && not (bytes_eq proc.required_role input.pg_role)
            then record { table = table; sent = []; result = err role_not_permitted }
            else elim (check_args proc.schema input.args) [
              | some e ↦ record { table = table; sent = []; result = err e }
              | none ↦
                  if bytes_eq input.idempotency_key []
                  then run_and_complete s complete_error proc input table
                  else call_idempotent rounds s complete_error proc input table
            ]
      ]
