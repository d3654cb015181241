-- ===== src/Audit/Tests.antt =====
-- The theorem about internal/audit/audit.go at a concrete input.
use agentic_coop_db.Prelude.{
  ◌≡◌, refl, true, false, some, none, [], ◌∷◌, Bytes, codes, bytes_eq, length,
}
use agentic_coop_db.Audit.{Entry, Writer, write, row_of, hash_or_empty, params_hash}
use agentic_coop_db.Audit.Rows.{write_hides}

abbrev by_length : Bytes → Bytes
by_length s = length s ∷ []

abbrev entry : Entry
entry = record {
  request_id = codes "r1";
  workspace_id = codes "w1";
  key_dbid = codes "k1";
  endpoint = codes "POST /v1/sql/execute";
  command = codes "SELECT";
  sql = codes "SELECT 1";
  params = some (codes "7" ∷ []);
  duration_ms = 3;
  status_code = 200;
  error_code = [];
  sqlstate = [];
  client_ip = codes "10.0.0.1";
}

abbrev writer : Writer
writer = record { has_pool = true; disabled = false; include_sql = false }

same_hash :
    hash_or_empty by_length (λ ps. some []) (λ s. some s) (λ s. none) (codes "SELECT 1")
    ≡ hash_or_empty by_length (λ ps. some []) (λ s. some s) (λ s. none) (codes "SELECT 2")
unfolding hash_or_empty bytes_eq
same_hash = refl

same_params :
    (row_of by_length
      (λ ps. some [])
      (λ s. some s)
      (λ s. none)
      writer
      (codes "a1")
      entry).params_hash
    ≡ (row_of by_length
        (λ ps. some [])
        (λ s. some s)
        (λ s. none)
        writer
        (codes "a1")
        (record entry { params = some (codes "8" ∷ []) })).params_hash
unfolding row_of params_hash
same_params = refl

write_hides_example :
    write by_length (λ ps. some []) (λ s. some s) (λ s. none) writer (codes "a1") entry
    ≡ write by_length
        (λ ps. some [])
        (λ s. some s)
        (λ s. none)
        writer
        (codes "a1")
        (record entry { sql = codes "SELECT 2"; params = some (codes "8" ∷ []) })
write_hides_example =
    write_hides by_length (λ ps. some []) (λ s. some s) (λ s. none) writer (codes "a1") entry
      (codes "SELECT 2") (some (codes "8" ∷ [])) refl same_hash same_params
