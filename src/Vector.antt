-- ===== src/Vector.antt =====
-- internal/vector/vector.go: literals, the index and the search over a transaction. %q, %g and the
-- answers of the database are parameters.
pub mod Index
mod Tests
use agentic_coop_db.Prelude.{
  ℕ, ◌+◌, Bool, true, false, not, ◌||◌, Option, none, some, List, [], ◌∷◌, ◌++◌, Bytes, codes,
  length, ltb, nat_eq, if◌then◌else◌, Result, ok, err,
}
use agentic_coop_db.Auth.Middleware.{itoa}
use agentic_coop_db.Mcp.Values.{Floats, format_vector}
use agentic_coop_db.Tenant.{Stmt, all_safe}

unfoldable pub is_safe_ident : Bytes → Bool
is_safe_ident s = if nat_eq (length s) 0 || ltb 63 (length s) then false else all_safe s

-- The two are one function of the printer; here the floats are of 32 bits.
unfoldable pub format : {Number : Type 0} → Floats Number → List Number → Bytes
format {Number} f v = format_vector Number f v

pub data VectorError : Type 0 where
  unsafe_identifier : VectorError
  database : Bytes → VectorError

-- What the transaction answers; the rows of a search are scanned, and `rows_error` is behind the last.
pub record Tx (Hit : Type 0) : Type 0 where
  pub index_exists : (index_name : Bytes) → Result Bytes Bool
  pub count : (stmt : Bytes) → Result Bytes ℕ
  pub exec : (stmt : Bytes) → Option Bytes
  pub query : Stmt → Result Bytes (List (Result Bytes Hit))
  pub rows_error : Option Bytes

-- The statements with %q and %d.
module _ (quote : Bytes → Bytes) where
  unfoldable pub index_name : (table column : Bytes) → Bytes
  index_name table column = table ++ (b'_' ∷ (column ++ codes "_ivfflat_idx"))

  unfoldable pub index_sql : (table column : Bytes) → (lists : ℕ) → Bytes
  index_sql table column lists =
      codes "CREATE INDEX "
      ++ (quote (index_name table column)
          ++ (codes " ON "
              ++ (quote table
                  ++ (codes " USING ivfflat ("
                      ++ (quote column
                          ++ (codes " vector_cosine_ops) WITH (lists = "
                              ++ (itoa false lists ++ codes ")")))))))

  unfoldable pub count_sql : (table : Bytes) → Bytes
  count_sql table = codes "SELECT count(*) FROM " ++ quote table

  unfoldable pub search_sql : (table column : Bytes) → Bytes
  search_sql table column =
      codes "SELECT id, metadata, "
      ++ (quote column
          ++ (codes " <=> $1::vector AS distance\n         FROM "
              ++ (quote table
                  ++ (codes "\n         ORDER BY "
                      ++ (quote column ++ codes " <=> $1::vector\n         LIMIT $2")))))

  -- A number of lists that is not positive is 0.
  unfoldable pub lists_for : (row_count lists : ℕ) → ℕ
  lists_for row_count lists =
      if nat_eq lists 0 then (if ltb 1000000 row_count then 1000 else 100) else lists

  module _ {Hit : Type 0} (tx : Tx Hit) where
    -- What Exec answers to CREATE INDEX.
    unfoldable pub create_index : (table column : Bytes) → (lists : ℕ) → Result VectorError Bool
    create_index table column lists = elim (tx.exec (index_sql table column lists)) [
      | some e ↦ err (database e)
      | none ↦ ok true
    ]

    -- The index is created if it does not exist and the table has enough rows; the statements of DDL
    -- sent, and whether the index was created.
    unfoldable pub ensure_ivfflat_index :
        (table column : Bytes) → (min_rows lists : ℕ) → List Bytes × Result VectorError Bool
    ensure_ivfflat_index table column min_rows lists =
        if not (is_safe_ident table) || not (is_safe_ident column)
        then ([], err unsafe_identifier)
        else elim (tx.index_exists (index_name table column)) [
          | err e ↦ ([], err (database e))
          | ok true ↦ ([], ok false)
          | ok false ↦ elim (tx.count (count_sql table)) [
            | err e ↦ ([], err (database e))
            | ok row_count ↦ if ltb row_count min_rows then ([], ok false) else (
              index_sql table column (lists_for row_count lists) ∷ [],
              create_index table column (lists_for row_count lists),
            )
          ]
        ]

    -- The loop over rows.Next.
    unfoldable pub scan_rows : List (Result Bytes Hit) → Result VectorError (List Hit)
    scan_rows [] = elim tx.rows_error [ some e ↦ err (database e) | none ↦ ok [] ]
    scan_rows (r ∷ rows) =
        let rest = scan_rows rows in
        elim r [
          | err e ↦ err (database e)
          | ok hit ↦ elim rest [ err e ↦ err e | ok hits ↦ ok (hit ∷ hits) ]
        ]

    -- A k that is not positive is 0.
    unfoldable pub search :
        {Number : Type 0}
        → Floats Number
        → (table column : Bytes) → List Number
        → (k : ℕ) → Result VectorError (List Hit)
    search f table column query k =
        if not (is_safe_ident table) || not (is_safe_ident column)
        then err unsafe_identifier
        else elim (tx.query (record {
          text = search_sql table column;
          args = format f query ∷ itoa false (if nat_eq k 0 then 5 else k) ∷ [];
        })) [ err e ↦ err (database e) | ok rows ↦ scan_rows rows ]
