-- ===== src/Sql/Validator.antt =====
-- internal/sql/validator.go: the static checks of a statement. pg_query's parser and scanner are
-- parameters; of a node only what the code reads is kept. An int is 64 bits wide.
pub mod Count
pub mod Accepts
use agentic_coop_db.Prelude.{
  ℕ, zero, suc, ◌+◌, ◌-◌, ◌*◌, ◌^◌, ℤ, pos, negsuc, Bool, true, false, not, ◌&&◌, ◌||◌, Option,
  none, some, List, [], ◌∷◌, ◌++◌, Bytes, codes, bytes_eq, length, take, drop, leb, ltb, nat_eq,
  if◌then◌else◌, Result, ok, err, String, ◌>>=◌, ◌>>◌, reject_if,
}
use agentic_coop_db.Auth.Middleware.{itoa}

-- A limit that is not positive is 0.
pub record ValidatorConfig : Type 0 where
  pub max_statement_bytes : ℕ
  pub max_statement_params : ℕ

unfoldable pub new_validator : ValidatorConfig → ValidatorConfig
new_validator cfg = record {
  max_statement_bytes =
      if nat_eq cfg.max_statement_bytes 0 then 256 * 1024 else cfg.max_statement_bytes;
  max_statement_params =
      if nat_eq cfg.max_statement_params 0 then 1000 else cfg.max_statement_params;
}

pub record ValidationError : Type 0 where
  pub code : Bytes
  pub message : Bytes

-- `Result` of the source.
pub record Validated : Type 0 where
  pub command : Bytes
  pub is_select : Bool
  pub has_returning : Bool
  pub placeholder_count : ℕ

-- The nodes of pg_query that the code tells apart, the three that can carry a RETURNING list with
-- its length.
pub data Node : Type 0 where
  select_stmt create_stmt create_role_stmt createdb_stmt drop_stmt alter_table_stmt : Node
  alter_role_stmt grant_stmt grant_role_stmt vacuum_stmt explain_stmt truncate_stmt : Node
  copy_stmt transaction_stmt index_stmt view_stmt create_extension_stmt rename_stmt : Node
  variable_set_stmt variable_show_stmt other_node : Node
  insert_stmt update_stmt delete_stmt : (returning_list : ℕ) → Node

-- A nil node is `none`.
unfoldable pub classify : Option Node → Bytes
classify none = codes "UNKNOWN"
classify (some select_stmt) = codes "SELECT"
classify (some (insert_stmt _)) = codes "INSERT"
classify (some (update_stmt _)) = codes "UPDATE"
classify (some (delete_stmt _)) = codes "DELETE"
classify (some create_stmt) = codes "CREATE TABLE"
classify (some create_role_stmt) = codes "CREATE ROLE"
classify (some createdb_stmt) = codes "CREATE DATABASE"
classify (some drop_stmt) = codes "DROP"
classify (some alter_table_stmt) = codes "ALTER TABLE"
classify (some alter_role_stmt) = codes "ALTER ROLE"
classify (some grant_stmt) = codes "GRANT"
classify (some grant_role_stmt) = codes "GRANT ROLE"
classify (some vacuum_stmt) = codes "VACUUM"
classify (some explain_stmt) = codes "EXPLAIN"
classify (some truncate_stmt) = codes "TRUNCATE"
classify (some copy_stmt) = codes "COPY"
classify (some transaction_stmt) = codes "TRANSACTION"
classify (some index_stmt) = codes "CREATE INDEX"
classify (some view_stmt) = codes "CREATE VIEW"
classify (some create_extension_stmt) = codes "CREATE EXTENSION"
classify (some rename_stmt) = codes "RENAME"
classify (some variable_set_stmt) = codes "SET"
classify (some variable_show_stmt) = codes "SHOW"
classify (some other_node) = codes "OTHER"

unfoldable pub returning_present : Option Node → Bool
returning_present (some (insert_stmt n)) = ltb 0 n
returning_present (some (update_stmt n)) = ltb 0 n
returning_present (some (delete_stmt n)) = ltb 0 n
returning_present _ = false

-- A token of the scanner: its place in the text, an int32 each.
pub record Token : Type 0 where
  pub start : ℤ
  pub end : ℤ

-- `sqlText[start:end]`, none where the loop skips the token.
unfoldable pub token_text : Bytes → Token → Option Bytes
token_text sql tok = elim tok.start [
  | negsuc _ ↦ none
  | pos start ↦ elim tok.end [
    | negsuc _ ↦ none
    | pos end ↦
        if ltb (length sql) end || leb end start
        then none
        else some (take (end - start) (drop start sql))
  ]
]

-- strconv.Atoi: an optional sign, decimal digits, and a value of 64 bits.
unfoldable pub decimal : ℕ → Bytes → Option ℕ
decimal n [] = some n
decimal n (c ∷ s) =
    let rest = decimal (n * 10 + (c - b'0')) s in if leb b'0' c && leb c b'9' then rest else none

abbrev to_pos : Option ℕ → Option ℤ
to_pos none = none
to_pos (some n) = if ltb n (2 ^ 63) then some (pos n) else none

abbrev to_neg : Option ℕ → Option ℤ
to_neg none = none
to_neg (some zero) = some (pos 0)
to_neg (some (suc n)) = if ltb n (2 ^ 63) then some (negsuc n) else none

abbrev unsigned : Bytes → Option ℕ
unsigned [] = none
unsigned (c ∷ s) = decimal 0 (c ∷ s)

unfoldable pub atoi : Bytes → Option ℤ
unfolding decimal
atoi [] = none
atoi (c ∷ s) =
    if nat_eq c b'-'
    then to_neg (unsigned s)
    else if nat_eq c b'+'
    then to_pos (unsigned s)
    else to_pos (unsigned (c ∷ s))

abbrev pub dollar_number : Bytes → Option ℤ
dollar_number (d ∷ c ∷ s) = if nat_eq d b'$' then atoi (c ∷ s) else none
dollar_number _ = none

-- The number that one token stands for, none where the loop skips it.
unfoldable pub placeholder : Bytes → Token → Option ℤ
placeholder sql tok = elim (token_text sql tok) [ none ↦ none | some text ↦ dollar_number text ]

abbrev pub at_least : ℕ → Option ℤ → ℕ
at_least max none = max
at_least max (some (negsuc _)) = max
at_least max (some (pos n)) = if ltb max n then n else max

unfoldable pub highest : Bytes → ℕ → List Token → ℕ
highest sql max [] = max
highest sql max (tok ∷ tokens) = highest sql (at_least max (placeholder sql tok)) tokens

abbrev error : String → Bytes → ValidationError
error code message = record { code = codes code; message = message }

module _ (parse : Bytes → Result Bytes (List (Option Node)))
    (scan : Bytes → Result Bytes (List Token)) where
  unfoldable pub count_placeholders : Bytes → Result Bytes ℕ
  count_placeholders sql = elim (scan sql) [ err e ↦ err e | ok tokens ↦ ok (highest sql 0 tokens) ]

  -- `return nil, &ValidationError{Code: "parse_error", Message: err.Error()}`.
  abbrev or_parse_error : {A : Type 0} → Result Bytes A → Result ValidationError A
  or_parse_error (ok a) = ok a
  or_parse_error (err e) = err (error "parse_error" e)

  -- The only statement of the tree.
  abbrev pub only_stmt : List (Option Node) → Result ValidationError (Option Node)
  only_stmt [] = err (error "empty_statement" (codes "no statement found"))
  only_stmt (stmt ∷ []) = ok stmt
  only_stmt (s ∷ s' ∷ rest) = err (
      error "multiple_statements" (
        codes "expected 1 statement, got "
        ++ (itoa false (length (s ∷ s' ∷ rest)) ++ codes " (use one POST per statement)")))

  module _ {Param : Type 0} (v : ValidatorConfig) where
    unfoldable pub validate : Bytes → List Param → Result ValidationError Validated
    validate sql params = do
      reject_if (bytes_eq sql []) (error "empty_statement" (codes "sql is empty"))
      reject_if (ltb v.max_statement_bytes (length sql)) (
          error "statement_too_large" (
            codes "statement is "
            ++ (itoa false (length sql)
                ++ (codes " bytes (max " ++ (itoa false v.max_statement_bytes ++ codes ")")))))
      reject_if (ltb v.max_statement_params (length params)) (
          error "too_many_params" (
            codes "got "
            ++ (itoa false (length params)
                ++ (codes " params (max " ++ (itoa false v.max_statement_params ++ codes ")")))))
      tree ← or_parse_error (parse sql)
      stmt ← only_stmt tree
      placeholders ← or_parse_error (count_placeholders sql)
      reject_if (not (nat_eq placeholders (length params))) (
          error "params_mismatch" (
            codes "statement has "
            ++ (itoa false placeholders
                ++ (codes " $N placeholders but "
                    ++ (itoa false (length params) ++ codes " params were supplied")))))
      ok (record {
        command = classify stmt;
        is_select = bytes_eq (classify stmt) (codes "SELECT");
        has_returning = returning_present stmt;
        placeholder_count = placeholders;
      })
