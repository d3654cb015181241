-- ===== src/Sql/Validator/Accepts.antt =====
-- Which statements Validate (internal/sql/validator.go) accepts.
use agentic_coop_db.Prelude.{
  ◌≤◌, ◌≡◌, ◌≢◌, Option, List, [], ◌∷◌, Bytes, codes, bytes_eq, length, Result, ok,
}
use agentic_coop_db.Sql.Validator.{
  ValidatorConfig, Validated, Node, Token, classify, returning_present, count_placeholders,
}

module _ (parse : Bytes → Result Bytes (List (Option Node)))
    (scan : Bytes → Result Bytes (List Token)) {Param : Type 0} (v : ValidatorConfig) (sql : Bytes)
    (params : List Param) where
  -- What is reported of a statement.
  abbrev pub validated : Option Node → Validated
  validated stmt = record {
    command = classify stmt;
    is_select = bytes_eq (classify stmt) (codes "SELECT");
    has_returning = returning_present stmt;
    placeholder_count = length params;
  }

  -- The statement passes every check, and `r` describes it.
  pub record Accepted (r : Validated) : Type 0 where
    pub not_empty : sql ≢ []
    pub small : length sql ≤ v.max_statement_bytes
    pub few_params : length params ≤ v.max_statement_params
    pub stmt : Option Node
    pub alone : parse sql ≡ ok (stmt ∷ [])
    pub counted : count_placeholders parse scan sql ≡ ok (length params)
    pub described : validated stmt ≡ r
