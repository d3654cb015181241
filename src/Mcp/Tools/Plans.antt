-- ===== src/Mcp/Tools/Plans.antt =====
-- The handlers of internal/mcp/tools.go: each plans one call of the gateway, or refuses its arguments.
-- fmt's %q and the JSON encoders are parameters.
use agentic_coop_db.Prelude.{
  ℕ, ◌+◌, ℤ, pos, negsuc, Bool, true, false, Option, none, some, List, [], ◌∷◌, ◌++◌, Bytes, codes,
  bytes_eq, length, ltb, if◌then◌else◌, Result, ok, err, ◌>>=◌, ◌>>◌, reject_if, or_err, String,
  not, map,
}
use agentic_coop_db.Auth.Middleware.{itoa}
use agentic_coop_db.Mcp.Values
use agentic_coop_db.Mcp.Values.{
  Floats, Value, Members, lookup, text_or_empty, as_array, as_object, as_number, format_vector,
}
use agentic_coop_db.Mcp.Tools.{
  is_safe_ident, Param, given, int, Call, sql_execute, rpc_call, me, health, Reply, sql_reply,
  written, ToolResult, err_result, text_result, list_tables_sql, describe_sql, search_sql,
  values_clause, upsert_sql,
}

module _ (Number : Type 0) (f : Floats Number) (quote : Bytes → Bytes)
    (marshal : Members Number → Result Bytes Bytes) where
  -- An empty text is a missing one.
  unfoldable pub plan_sql_execute : Members Number → Result Bytes (Call Number)
  plan_sql_execute args =
      let sql = text_or_empty Number (lookup Number args (codes "sql")) in
      if bytes_eq sql []
      then err (codes "required parameter 'sql' is missing or empty")
      else ok (
          sql_execute sql
            (elim (as_array Number (lookup Number args (codes "params"))) [
              | none ↦ none
              | some vs ↦ some (map given vs)
            ])
            (text_or_empty Number (lookup Number args (codes "idempotency_key"))))

  unfoldable pub plan_rpc_call : Members Number → Result Bytes (Call Number)
  plan_rpc_call args =
      let procedure = text_or_empty Number (lookup Number args (codes "procedure")) in
      if bytes_eq procedure []
      then err (codes "required parameter 'procedure' is missing or empty")
      else ok (rpc_call procedure (as_object Number (lookup Number args (codes "args"))))

  unfoldable pub plan_list_tables : Members Number → Result Bytes (Call Number)
  plan_list_tables args = ok (sql_execute list_tables_sql none [])

  unfoldable pub plan_describe_table : Members Number → Result Bytes (Call Number)
  plan_describe_table args =
      let table = text_or_empty Number (lookup Number args (codes "table")) in
      if is_safe_ident table
      then ok (sql_execute describe_sql (some (given (Values.text table) ∷ [])) [])
      else err (
          codes "invalid table name: "
          ++ (quote table ++ codes " (must be lowercase alphanumeric/underscore, max 63 chars)"))

  -- The identifier of an argument.
  unfoldable pub ident_arg : Members Number → (name what : String) → Result Bytes Bytes
  ident_arg args name what =
      let s = text_or_empty Number (lookup Number args (codes name)) in
      if is_safe_ident s
      then ok s
      else err (codes "invalid " ++ (codes what ++ (codes ": " ++ quote s)))

  -- The loop that reads floats, `j` of them behind it.
  unfoldable pub numbers : (place : Bytes) → ℕ → List (Value Number) → Result Bytes (List Number)
  numbers place j [] = ok []
  numbers place j (v ∷ vs) =
      let rest = numbers place (j + 1) vs in
      elim (as_number Number v) [
        | none ↦ err (place ++ (codes "[" ++ (itoa false j ++ codes "] is not a number")))
        | some x ↦ elim rest [ err e ↦ err e | ok xs ↦ ok (x ∷ xs) ]
      ]

  -- A non-empty array.
  abbrev pub some_elements : Option (Value Number) → Bytes → Result Bytes (List (Value Number))
  some_elements v msg = elim (as_array Number v) [
    | none ↦ err msg
    | some [] ↦ err msg
    | some (x ∷ xs) ↦ ok (x ∷ xs)
  ]

  abbrev pub limit_of : Option (Value Number) → ℤ
  limit_of (some (Values.number x)) = if f.is_positive x then f.to_int x else pos 5
  limit_of _ = pos 5

  abbrev pub too_many : ℤ → Bool
  too_many (pos n) = ltb 1000 n
  too_many (negsuc n) = false

  abbrev present : Option (Value Number) → Bool
  present none = false
  present (some v) = true

  unfoldable pub plan_vector_search : Members Number → Result Bytes (Call Number)
  plan_vector_search args = do
    table ← ident_arg args "table" "table name"
    vector_col ← ident_arg args "vector_column" "vector_column"
    reject_if (not (present (lookup Number args (codes "query_embedding"))))
        (codes "required parameter 'query_embedding' is missing")
    values ←
        some_elements (lookup Number args (codes "query_embedding"))
          (codes "query_embedding must be a non-empty array of numbers")
    embedding ← numbers (codes "query_embedding") 0 values
    reject_if (too_many (limit_of (lookup Number args (codes "k")))) (codes "k must be <= 1000")
    ok (
        sql_execute (search_sql vector_col table)
          (some (
            given (Values.text (format_vector Number f embedding))
            ∷ int (limit_of (lookup Number args (codes "k")))
            ∷ []))
          [])

  abbrev row_error : ℕ → String → Bytes
  row_error i what = codes "rows[" ++ (itoa false i ++ codes what)

  -- The three arguments of row `i`.
  unfoldable pub upsert_row : ℕ → Value Number → Result Bytes (List (Param Number))
  upsert_row i v = do
    row ← or_err (as_object Number (some v)) (row_error i "] must be an object")
    reject_if (bytes_eq (text_or_empty Number (lookup Number row (codes "id"))) [])
        (row_error i "].id is required")
    meta_value ←
        or_err (lookup Number row (codes "metadata")) (row_error i "].metadata is required")
    meta ←
        or_err (as_object Number (some meta_value)) (row_error i "].metadata must be a JSON object")
    meta_json ← elim (marshal meta) [ ok b ↦ ok b | err e ↦ err (row_error i "].metadata: " ++ e) ]
    values ←
        some_elements (lookup Number row (codes "vector"))
          (row_error i "].vector must be a non-empty array")
    vec ← numbers (row_error i "].vector") 0 values
    ok (
        given (Values.text (text_or_empty Number (lookup Number row (codes "id"))))
        ∷ given (Values.text meta_json)
        ∷ given (Values.text (format_vector Number f vec))
        ∷ [])

  -- The loop over the rows, `i` of them behind it: the clauses and the arguments.
  unfoldable pub upsert_rows :
      ℕ → List (Value Number) → Result Bytes (List Bytes × List (Param Number))
  upsert_rows i [] = ok ([], [])
  upsert_rows i (v ∷ vs) =
      let rest = upsert_rows (i + 1) vs in
      elim (upsert_row i v) [
        | err e ↦ err e
        | ok params ↦ elim rest [
          | err e ↦ err e
          | ok (clauses, more) ↦ ok (values_clause i ∷ clauses, params ++ more)
        ]
      ]

  unfoldable pub plan_vector_upsert : Members Number → Result Bytes (Call Number)
  plan_vector_upsert args = do
    table ← ident_arg args "table" "table name"
    id_col ← ident_arg args "id_column" "id_column"
    vector_col ← ident_arg args "vector_column" "vector_column"
    reject_if (not (present (lookup Number args (codes "rows"))))
        (codes "required parameter 'rows' is missing")
    rows ←
        some_elements (lookup Number args (codes "rows")) (codes "rows must be a non-empty array")
    reject_if (ltb 100 (length rows)) (codes "rows must contain at most 100 entries")
    built ← upsert_rows 0 rows
    ok (sql_execute (upsert_sql table id_col vector_col built.0) (some built.1) [])

  unfoldable pub plan_whoami : Members Number → Result Bytes (Call Number)
  plan_whoami args = ok me

  unfoldable pub plan_health : Members Number → Result Bytes (Call Number)
  plan_health args = ok health

  module _ (marshal_indent : Reply Number → Result Bytes Bytes)
      (doer : Call Number → Result Bytes (Reply Number)) where
    unfoldable pub json_result : Reply Number → ToolResult
    json_result v = elim (marshal_indent v) [
      | err e ↦ err_result (codes "marshal result: " ++ e)
      | ok b ↦ text_result b
    ]

    -- A handler: the calls that it makes, and its result. `show` picks what is shown of the reply.
    unfoldable pub handle :
        (Members Number → Result Bytes (Call Number))
        → (show : Reply Number → Reply Number) → Members Number
        → List (Call Number) × ToolResult
    handle plan show args = elim (plan args) [
      | err msg ↦ ([], err_result msg)
      | ok call ↦
          (call ∷ [], elim (doer call) [ err e ↦ err_result e | ok v ↦ json_result (show v) ])
    ]

    -- `rows_affected` and `command` of the result.
    unfoldable pub upsert_reply : Reply Number → Reply Number
    upsert_reply (sql_reply r) = written r.rows_affected r.command
    upsert_reply v = v
