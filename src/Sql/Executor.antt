-- ===== src/Sql/Executor.antt =====
-- internal/sql/executor.go: the request transaction. The answers of the database, the length of a
-- row's JSON and the clock are parameters; the statements sent are a list.
pub mod Laws
use agentic_coop_db.Prelude.{
  ℕ, ◌+◌, ◌-◌, ◌*◌, ◌/◌, Bool, true, false, ◌&&◌, ◌||◌, Option, none, some, List, [], ◌∷◌, ◌++◌,
  Bytes, length, ltb, nat_eq, codes, if◌then◌else◌, Result, ok, err,
}
use agentic_coop_db.Sql.Errors.{GoError, response_too_large, wrapped, other, classify_pg_err}
use agentic_coop_db.Sql.Validator.{Validated}
use agentic_coop_db.Tenant.{
  Stmt, SetupError, empty_workspace_id, empty_pg_role, unsafe_role, exec_failed, setup,
}

-- A limit that is not positive is 0.
pub record ExecutorConfig : Type 0 where
  pub statement_timeout : ℕ
  pub idle_in_tx_timeout : ℕ
  pub max_response_bytes : ℕ

unfoldable pub new_executor : ExecutorConfig → ExecutorConfig
new_executor cfg = record cfg {
  statement_timeout =
      if nat_eq cfg.statement_timeout 0 then 5 * 1000000000 else cfg.statement_timeout;
  idle_in_tx_timeout =
      if nat_eq cfg.idle_in_tx_timeout 0 then 5 * 1000000000 else cfg.idle_in_tx_timeout;
}

pub record Response (Value : Type 0) : Type 0 where
  pub command : Bytes
  pub columns : List Bytes
  pub rows : List (List Value)
  pub rows_affected : ℕ
  pub duration_ms : ℕ

pub record ExecuteInput : Type 0 where
  pub workspace_id : Bytes
  pub pg_role : Bytes
  pub sql : Bytes
  pub params : List Bytes
  pub result : Option Validated

-- What the code calls: BeginTx, Exec of the setup, Query with the columns and the rows, each row its
-- values or the error of Values, Err behind the last, Exec with its tag, Commit, and time.Now.
pub record Database (Value : Type 0) : Type 0 where
  pub begin_error : Option GoError
  pub setup_exec : List Stmt → Stmt → Option GoError
  pub query : Stmt → Result GoError (List Bytes × List (Result GoError (List Value)))
  pub rows_error : Option GoError
  pub exec : Stmt → Result GoError ℕ
  pub commit_error : Option GoError
  pub started : ℕ
  pub ended : ℕ

pub record Executed (Value : Type 0) : Type 0 where
  pub sent : List Stmt
  pub committed : Bool
  pub result : Result GoError (Response Value)

-- The errors of Setup, wrapped.
abbrev setup_error : SetupError GoError → GoError
setup_error empty_workspace_id = other (codes "tenant.Setup: empty workspace_id")
setup_error empty_pg_role = other (codes "tenant.Setup: empty pg_role")
setup_error unsafe_role = other (codes "unsafe pg_role identifier")
setup_error (exec_failed e) = wrapped (codes "set") e

module _ {Value : Type 0} (row_bytes : List Value → ℕ) (cfg : ExecutorConfig)
    (db : Database Value) where
  -- The loop over rows.Next, with the bytes counted so far.
  unfoldable pub read_rows :
      ℕ → List (Result GoError (List Value)) → Result GoError (List (List Value))
  read_rows approx_bytes [] = elim db.rows_error [ some e ↦ err (classify_pg_err e) | none ↦ ok [] ]
  read_rows approx_bytes (err e ∷ rows) = err (classify_pg_err e)
  read_rows approx_bytes (ok values ∷ rows) =
      let approx_bytes' = approx_bytes + row_bytes values + 1 in
      let rest = read_rows approx_bytes' rows in
      if ltb 0 cfg.max_response_bytes && ltb cfg.max_response_bytes approx_bytes'
      then err response_too_large
      else elim rest [ err e ↦ err e | ok more ↦ ok (values ∷ more) ]

  -- The columns, the rows and the number of rows that the statement affected.
  unfoldable pub run_statement :
      Validated → Stmt → Result GoError (List Bytes × List (List Value) × ℕ)
  run_statement r stmt =
      if r.is_select || r.has_returning
      then elim (db.query stmt) [
        | err e ↦ err (classify_pg_err e)
        | ok (columns, rows) ↦ elim (read_rows 0 rows) [
          | err e ↦ err e
          | ok values ↦ ok (columns, values, length values)
        ]
      ]
      else elim (db.exec stmt) [ err e ↦ err (classify_pg_err e) | ok n ↦ ok ([], [], n) ]

  -- The part of Execute behind the setup.
  unfoldable pub run_and_commit : Validated → Stmt → List Stmt → Executed Value
  run_and_commit r stmt sent = elim (run_statement r stmt) [
    | err e ↦ record { sent = sent ++ (stmt ∷ []); committed = false; result = err e }
    | ok (columns, rows, n) ↦ elim db.commit_error [
      | some e ↦ record {
        sent = sent ++ (stmt ∷ []);
        committed = false;
        result = err (classify_pg_err e);
      }
      | none ↦ record {
        sent = sent ++ (stmt ∷ []);
        committed = true;
        result = ok (record {
          command = r.command;
          columns = columns;
          rows = rows;
          rows_affected = n;
          duration_ms = (db.ended - db.started) / 1000000;
        });
      }
    ]
  ]

  unfoldable pub execute : ExecuteInput → Executed Value
  execute input = elim input.result [
    | none ↦ record {
      sent = [];
      committed = false;
      result = err (other (codes "executor.Execute: nil validator result"));
    }
    | some r ↦ elim db.begin_error [
      | some e ↦ record { sent = []; committed = false; result = err (wrapped (codes "begin") e) }
      | none ↦
          let (sent, failure) =
            setup db.setup_exec [] input.workspace_id input.pg_role cfg.statement_timeout
              cfg.idle_in_tx_timeout in
          elim failure [
            | some e ↦ record {
              sent = sent;
              committed = false;
              result = err (wrapped (codes "tenant setup") (setup_error e));
            }
            | none ↦ run_and_commit r (record { text = input.sql; args = input.params }) sent
          ]
    ]
  ]
