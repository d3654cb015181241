-- ===== src/Vector/Index.antt =====
-- When EnsureIVFFlatIndex of internal/vector/vector.go creates an index.
use agentic_coop_db.Prelude.{
  ℕ, ◌≤◌, ◌≡◌, inl, inr, arith, true, false, none, [], ◌∷◌, Bytes, ok, Result-cases, Option-cases,
}
use agentic_coop_db.Vector.{
  Tx, is_safe_ident, index_name, index_sql, count_sql, lists_for, create_index,
  ensure_ivfflat_index,
}

module _ (quote : Bytes → Bytes) {Hit : Type 0} (tx : Tx Hit) (table column : Bytes)
    (min_rows lists : ℕ) where
  pub record IsCreated : Type 0 where
    pub safe_table : is_safe_ident table ≡ true
    pub safe_column : is_safe_ident column ≡ true
    pub missing : tx.index_exists (index_name quote table column) ≡ ok false
    pub row_count : ℕ
    pub counted : tx.count (count_sql quote table) ≡ ok row_count
    pub enough : min_rows ≤ row_count
    pub sent :
        (ensure_ivfflat_index quote tx table column min_rows lists).0
        ≡ index_sql quote table column (lists_for quote row_count lists) ∷ []
    pub accepted : tx.exec (index_sql quote table column (lists_for quote row_count lists)) ≡ none
    pub some_lists : 1 ≤ lists_for quote row_count lists

  some_lists_for : (n : ℕ) → 1 ≤ lists_for quote n lists
  unfolding lists_for
  some_lists_for n = ground arith

  -- The function answers that it created the index only for two safe identifiers, if the index was
  -- missing and the table holds at least the rows asked for, after the one CREATE INDEX, which the
  -- database accepted and which asks for at least one list.
  pub ensure_ivfflat_index-IsCreated :
      (ensure_ivfflat_index quote tx table column min_rows lists).1 ≡ ok true → IsCreated
  unfolding ensure_ivfflat_index create_index
  ensure_ivfflat_index-IsCreated h =
      elim (Result-cases (tx.index_exists (index_name quote table column))) [
        | inr (e, p) ↦ ground arith
        | inl (true, p) ↦ ground arith
        | inl (false, p) ↦ elim (Result-cases (tx.count (count_sql quote table))) [
          | inr (e, q) ↦ ground arith
          | inl (n, q) ↦
              elim (Option-cases
                (tx.exec (index_sql quote table column (lists_for quote n lists)))) [
                  | inr (e, r) ↦ ground arith
                  | inl r ↦ record {
                    safe_table = ground arith;
                    safe_column = ground arith;
                    missing = p;
                    row_count = n;
                    counted = q;
                    enough = ground arith;
                    sent = ground arith;
                    accepted = r;
                    some_lists = some_lists_for n;
                  }
                ]
        ]
      ]
