-- ===== src/Mcp/Tools/Sound.antt =====
-- What the tools of internal/mcp/tools.go send: which identifiers stand in a statement, and how its
-- placeholders and its arguments go together.
use agentic_coop_db.Prelude.{
  ℕ, ◌≤◌, ◌≡◌, refl, ap, ◌∙◌, inl, inr, arith, ℤ, pos, negsuc, true, false, some, List, [], ◌∷◌,
  Bytes, codes, length, Result, ok, Result-cases, String,
}
use agentic_coop_db.Mcp.Values
use agentic_coop_db.Mcp.Values.{
  Floats, Value, Members, lookup, text_or_empty, as_object, format_vector,
}
use agentic_coop_db.Mcp.Tools.{
  is_safe_ident, Param, given, int, Call, sql_execute, search_sql, upsert_sql,
}
use agentic_coop_db.Mcp.Tools.Rows.{clauses_from, AreRows, upsert_rows_lem}
use agentic_coop_db.Mcp.Tools.Plans.{
  ident_arg, numbers, some_elements, limit_of, too_many, plan_vector_search, upsert_rows,
  plan_vector_upsert,
}

abbrev pub IsAtMost : ℕ → ℤ → Type 0
IsAtMost n (pos k) = k ≤ n
IsAtMost n (negsuc k) = Unit

module _ (Number : Type 0) (f : Floats Number) (quote : Bytes → Bytes)
    (marshal : Members Number → Result Bytes Bytes) where
  ident_arg_safe :
      (args : Members Number) (name what : String) (s : Bytes)
      → ident_arg Number f quote marshal args name what ≡ ok s
      → is_safe_ident s ≡ true
  unfolding ident_arg
  ident_arg_safe args name what s h = ground arith

  at_most : (k : ℤ) → too_many Number f quote marshal k ≡ false → IsAtMost 1000 k
  at_most (pos k) h = ground arith
  at_most (negsuc k) h = tt

  pub record IsSearch (c : Call Number) : Type 0 where
    pub table : Bytes
    pub vector_col : Bytes
    pub embedding : List Number
    pub k : ℤ
    pub safe_table : is_safe_ident table ≡ true
    pub safe_vector_col : is_safe_ident vector_col ≡ true
    pub bounded : IsAtMost 1000 k
    pub call :
        c
        ≡ sql_execute
            (search_sql vector_col table)
            (some (given (Values.text (format_vector Number f embedding)) ∷ int k ∷ []))
            []

  -- Whatever its arguments are, vector_search sends only the one statement of its form, between whose
  -- quotes stand safe identifiers, with a limit of at most 1000.
  pub plan_vector_search-IsSearch :
      (args : Members Number) (c : Call Number)
      → plan_vector_search Number f quote marshal args ≡ ok c
      → IsSearch c
  unfolding plan_vector_search
  plan_vector_search-IsSearch args c h =
      elim (Result-cases (ident_arg Number f quote marshal args "table" "table name")) [
        | inr (e, p) ↦ ground arith
        | inl (table, p) ↦
            elim (Result-cases
              (ident_arg Number f quote marshal args "vector_column" "vector_column")) [
                | inr (e, q) ↦ ground arith
                | inl (vector_col, q) ↦
                    elim (Result-cases (
                      some_elements Number f quote marshal
                        (lookup Number args (codes "query_embedding"))
                        (codes "query_embedding must be a non-empty array of numbers"))) [
                          | inr (e, r) ↦ ground arith
                          | inl (values, r) ↦
                              elim (Result-cases (
                                numbers Number f quote marshal (codes "query_embedding") 0
                                  values)) [
                                    | inr (e, s) ↦ ground arith
                                    | inl (embedding, s) ↦
                                        let k =
                                          limit_of Number f quote marshal
                                            (lookup Number args (codes "k")) in
                                        record {
                                          table = table;
                                          vector_col = vector_col;
                                          embedding = embedding;
                                          k = k;
                                          safe_table =
                                              ident_arg_safe args "table" "table name" table p;
                                          safe_vector_col =
                                              ident_arg_safe args "vector_column" "vector_column"
                                                vector_col q;
                                          bounded = at_most k (ground arith);
                                          call = ground arith;
                                        }
                                  ]
                        ]
              ]
      ]

  abbrev pub rows_of : Members Number → Result Bytes (List (Value Number))
  rows_of args =
      some_elements Number f quote marshal (lookup Number args (codes "rows"))
        (codes "rows must be a non-empty array")

  pub record IsUpsert (args : Members Number) (c : Call Number) : Type 0 where
    pub table : Bytes
    pub id_col : Bytes
    pub vector_col : Bytes
    pub rows : List (Value Number)
    pub params : List (Param Number)
    pub safe_table : is_safe_ident table ≡ true
    pub safe_id_col : is_safe_ident id_col ≡ true
    pub safe_vector_col : is_safe_ident vector_col ≡ true
    pub some_rows : 1 ≤ length rows
    pub bounded : length rows ≤ 100
    pub given_rows : rows_of args ≡ ok rows
    pub arguments : AreRows Number f marshal rows params
    pub call :
        c
        ≡ sql_execute
            (upsert_sql table id_col vector_col (clauses_from 1 (length rows)))
            (some params)
            []

  some_rows :
      (args : Members Number) (rows : List (Value Number))
      → rows_of args ≡ ok rows
      → 1 ≤ length rows
  some_rows args [] h = ground arith
  some_rows args (v ∷ vs) h = ground arith

  -- Whatever its arguments are, vector_upsert sends only one INSERT between whose quotes stand safe
  -- identifiers, with one row of VALUES for each of the 1 to 100 rows that it is given. The rows take
  -- the placeholders one after the other from $1 on, each number once, and the arguments are, in the
  -- same order, the id, the JSON of the metadata and the literal of the numbers of each row.
  pub plan_vector_upsert-IsUpsert :
      (args : Members Number) (c : Call Number)
      → plan_vector_upsert Number f quote marshal args ≡ ok c
      → IsUpsert args c
  unfolding plan_vector_upsert
  plan_vector_upsert-IsUpsert args c h =
      elim (Result-cases (ident_arg Number f quote marshal args "table" "table name")) [
        | inr (e, p) ↦ ground arith
        | inl (table, p) ↦
            elim (Result-cases (ident_arg Number f quote marshal args "id_column" "id_column")) [
              | inr (e, q) ↦ ground arith
              | inl (id_col, q) ↦
                  elim (Result-cases
                    (ident_arg Number f quote marshal args "vector_column" "vector_column")) [
                      | inr (e, r) ↦ ground arith
                      | inl (vector_col, r) ↦ elim (Result-cases (rows_of args)) [
                        | inr (e, s) ↦ ground arith
                        | inl (rows, s) ↦
                            elim (Result-cases (upsert_rows Number f quote marshal 0 rows)) [
                              | inr (e, u) ↦ ground arith
                              | inl ((cs, ps), u) ↦
                                  let (same, count) =
                                    upsert_rows_lem Number f quote marshal 0 1 rows cs ps refl u in
                                  record {
                                    table = table;
                                    id_col = id_col;
                                    vector_col = vector_col;
                                    rows = rows;
                                    given_rows = s;
                                    params = ps;
                                    safe_table = ident_arg_safe args "table" "table name" table p;
                                    safe_id_col =
                                        ident_arg_safe args "id_column" "id_column" id_col q;
                                    safe_vector_col =
                                        ident_arg_safe args "vector_column" "vector_column"
                                          vector_col r;
                                    some_rows = some_rows args rows s;
                                    bounded = ground arith;
                                    arguments = count;
                                    call =
                                        let e : c
                                            ≡ sql_execute (upsert_sql table id_col vector_col cs)
                                                (some ps) [] =
                                          ground arith in
                                        e
                                        ∙ ap
                                            (λ z.
                                              sql_execute (upsert_sql table id_col vector_col z)
                                                (some ps) [])
                                            same;
                                  }
                            ]
                      ]
                    ]
            ]
      ]
