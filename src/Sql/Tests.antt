-- ===== src/Sql/Tests.antt =====
-- The theorems about internal/sql at concrete inputs.
use agentic_coop_db.Prelude.{
  ℕ, ◌≡◌, ◌↔◌, ◌⊎◌, pos, true, false, Option, some, List, [], ◌∷◌, ◌++◌, Bytes, codes, Result, ok,
}
use agentic_coop_db.Sql.Validator.{
  ValidatorConfig, new_validator, Validated, Node, insert_stmt, Token, highest,
}
use agentic_coop_db.Sql.Validator.Count.{IsBound, Occurs, highest_lem}
use agentic_coop_db.Prelude.{◌≤◌, bytes_eq, length, none, refl}
use agentic_coop_db.Sql.Executor.{
  Database, ExecutorConfig, ExecuteInput, Response, execute, run_and_commit, run_statement,
  read_rows,
}
use agentic_coop_db.Sql.Executor.Laws.{execute_sound, read_rows_iff, all_ok, total}
use agentic_coop_db.Tenant.{setup, send, is_safe_role_name, all_safe, is_safe_byte}
use agentic_coop_db.Tenant.Setup.{always, if_safe}

abbrev pub sql : Bytes
sql = codes "INSERT INTO t VALUES ($2) RETURNING id"

abbrev tokens : List Token
tokens =
    record { start = pos 0; end = pos 6 }
    ∷ record { start = pos 7; end = pos 11 }
    ∷ record { start = pos 22; end = pos 24 }
    ∷ []

abbrev pub parse : Bytes → Result Bytes (List (Option Node))
parse s = ok (some (insert_stmt 1) ∷ [])

abbrev pub scan : Bytes → Result Bytes (List Token)
scan s = ok tokens

abbrev pub limits : ValidatorConfig
limits = new_validator (record { max_statement_bytes = 0; max_statement_params = 0 })

abbrev params : List ℕ
params = 7 ∷ 8 ∷ []

abbrev pub described : Validated
described = record {
  command = codes "INSERT";
  is_select = false;
  has_returning = true;
  placeholder_count = 2;
}

highest_lem_example :
    IsBound sql (highest sql 0 tokens) tokens
    × ((highest sql 0 tokens ≡ 0) ⊎ Occurs sql (highest sql 0 tokens) tokens)
highest_lem_example = highest_lem sql tokens

abbrev pub count_bytes : List ℕ → ℕ
count_bytes values = length values

abbrev pub answers : Database ℕ
answers = record {
  begin_error = none;
  setup_exec = λ sent s. none;
  query = λ s. ok (codes "id" ∷ [], ok (1 ∷ []) ∷ ok (2 ∷ []) ∷ []);
  rows_error = none;
  exec = λ s. ok 0;
  commit_error = none;
  started = 0;
  ended = 3000000;
}

abbrev pub config : ExecutorConfig
config = record {
  statement_timeout = 5000000000;
  idle_in_tx_timeout = 5000000000;
  max_response_bytes = 100;
}

abbrev request : ExecuteInput
request = record {
  workspace_id = codes "w1";
  pg_role = codes "dbuser";
  sql = sql;
  params = codes "7" ∷ codes "8" ∷ [];
  result = some described;
}

abbrev pub response : Response ℕ
response = record {
  command = codes "INSERT";
  columns = codes "id" ∷ [];
  rows = (1 ∷ []) ∷ (2 ∷ []) ∷ [];
  rows_affected = 2;
  duration_ms = 3;
}

responds : (execute count_bytes config answers request).result ≡ ok response
unfolding execute run_and_commit run_statement read_rows setup send is_safe_role_name all_safe
    is_safe_byte bytes_eq
responds = refl

execute_sound_example :
    (r : Validated) × (some described ≡ some r)
    × (is_safe_role_name (codes "dbuser") ≡ true)
    × ((execute count_bytes config answers request).sent
        ≡ (always 5000000000 5000000000 (codes "w1") ++ if_safe (codes "dbuser"))
          ++ (record { text = sql; args = codes "7" ∷ codes "8" ∷ [] } ∷ []))
    × ((execute count_bytes config answers request).committed ≡ true)
    × (codes "INSERT" ≡ r.command)
execute_sound_example = execute_sound count_bytes config answers request response responds

read_rows_iff_example :
    (read_rows count_bytes config answers 0 (ok (1 ∷ []) ∷ []) ≡ ok ((1 ∷ []) ∷ [])) ↔ (
      (ok (1 ∷ []) ∷ [] ≡ all_ok count_bytes config answers ((1 ∷ []) ∷ []))
      × (answers.rows_error ≡ none)
      × ((config.max_response_bytes ≡ 0)
          ⊎ (total count_bytes config answers ((1 ∷ []) ∷ []) ≤ config.max_response_bytes)))
read_rows_iff_example = read_rows_iff count_bytes config answers (ok (1 ∷ []) ∷ []) ((1 ∷ []) ∷ [])
