-- ===== src/Mcp/Tools.antt =====
-- internal/mcp/tools.go: the handlers of the tools. The gateway's client, fmt's %q and the JSON
-- encoders are parameters.
pub mod Plans
pub mod Rows
pub mod Sound
pub mod Literal
use agentic_coop_db.Prelude.{
  ℕ, ◌+◌, ◌*◌, ℤ, pos, negsuc, Bool, true, false, ◌||◌, Option, none, some, List, [], ◌∷◌, ◌++◌,
  Bytes, codes, bytes_eq, length, ltb, nat_eq, if◌then◌else◌, Result, ok, err, ◌>>=◌, ◌>>◌,
  reject_if, or_err, String, not, map,
}
use agentic_coop_db.Auth.Middleware.{itoa}
use agentic_coop_db.Mcp.Values
use agentic_coop_db.Mcp.Values.{
  Floats, Value, Members, lookup, text_or_empty, as_array, as_object, as_number, format_vector,
}
use agentic_coop_db.Tenant.{all_safe}

unfoldable pub is_safe_ident : Bytes → Bool
is_safe_ident s = if nat_eq (length s) 0 || ltb 63 (length s) then false else all_safe s

pub record SqlResult (Number : Type 0) : Type 0 where
  pub command : Bytes
  pub columns : List Bytes
  pub rows : List (List (Value Number))
  pub rows_affected : ℕ
  pub duration_ms : ℕ

pub record MeResult : Type 0 where
  pub workspace_id : Bytes
  pub key_id : Bytes
  pub role : Bytes
  pub env : Bytes

pub record HealthResult : Type 0 where
  pub healthy : Bool
  pub ready : Bool
  pub detail : Bytes

-- An argument of a statement: a value of the request, or the int of LIMIT.
pub data Param (Number : Type 0) : Type 0 where
  given : Value Number → Param Number
  int : ℤ → Param Number

-- A call of the interface Doer. A nil slice or map is `none`.
pub data Call (Number : Type 0) : Type 0 where
  sql_execute :
      (sql : Bytes) → Option (List (Param Number)) → (idempotency_key : Bytes) → Call Number
  rpc_call : (procedure : Bytes) → Option (Members Number) → Call Number
  me health : Call Number

-- What is shown as JSON; `written` is the map of vector_upsert.
pub data Reply (Number : Type 0) : Type 0 where
  sql_reply : SqlResult Number → Reply Number
  rpc_reply : Members Number → Reply Number
  me_reply : MeResult → Reply Number
  health_reply : HealthResult → Reply Number
  written : (rows_affected : ℕ) → (command : Bytes) → Reply Number

pub record ToolResult : Type 0 where
  pub text : Bytes
  pub is_error : Bool

unfoldable pub err_result : Bytes → ToolResult
err_result msg = record { text = msg; is_error = true }

unfoldable pub text_result : Bytes → ToolResult
text_result text = record { text = text; is_error = false }

abbrev pub list_tables_sql : Bytes
list_tables_sql =
    codes "SELECT t.table_name,\n       COALESCE(s.n_live_tup, 0) AS approx_rows\n"
    ++ (codes "FROM information_schema.tables t\nLEFT JOIN pg_stat_user_tables s\n"
        ++ (codes "  ON s.relname = t.table_name AND s.schemaname = 'public'\n"
            ++ codes
                "WHERE t.table_schema = 'public'\n  AND t.table_type = 'BASE TABLE'\nORDER BY t.table_name"))

abbrev pub describe_sql : Bytes
describe_sql =
    codes
      "SELECT column_name, data_type, is_nullable, column_default\nFROM information_schema.columns\n"
    ++ codes "WHERE table_schema = 'public' AND table_name = $1\nORDER BY ordinal_position"

-- `"name"` in a format.
abbrev pub in_quotes : Bytes → Bytes
in_quotes name = b'"' ∷ (name ++ (b'"' ∷ []))

unfoldable pub search_sql : (vector_col table : Bytes) → Bytes
search_sql vector_col table =
    codes "SELECT *, "
    ++ (in_quotes vector_col
        ++ (codes " <=> $1::vector AS distance FROM "
            ++ (in_quotes table
                ++ (codes " ORDER BY "
                    ++ (in_quotes vector_col ++ codes " <=> $1::vector LIMIT $2")))))

-- `($%d, $%d::jsonb, $%d::vector)` of row `i`.
unfoldable pub values_clause : ℕ → Bytes
values_clause i =
    let base = i * 3 in
    codes "($"
    ++ (itoa false (base + 1)
        ++ (codes ", $"
            ++ (itoa false (base + 2)
                ++ (codes "::jsonb, $" ++ (itoa false (base + 3) ++ codes "::vector)")))))

-- strings.Join(…, ", ").
abbrev pub join : List Bytes → Bytes
join [] = []
join (s ∷ []) = s
join (s ∷ t ∷ rest) = s ++ (codes ", " ++ join (t ∷ rest))

unfoldable pub upsert_sql : (table id_col vector_col : Bytes) → (clauses : List Bytes) → Bytes
upsert_sql table id_col vector_col clauses =
    codes "INSERT INTO "
    ++ (in_quotes table
        ++ (codes " ("
            ++ (in_quotes id_col
                ++ (codes ", \"metadata\", "
                    ++ (in_quotes vector_col
                        ++ (codes ") VALUES "
                            ++ (join clauses
                                ++ (codes " ON CONFLICT ("
                                    ++ (in_quotes id_col
                                        ++ (codes
                                              ") DO UPDATE SET \"metadata\" = EXCLUDED.\"metadata\", "
                                            ++ (in_quotes vector_col
                                                ++ (codes " = EXCLUDED."
                                                    ++ in_quotes vector_col))))))))))))
