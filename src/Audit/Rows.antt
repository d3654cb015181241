-- ===== src/Audit/Rows.antt =====
-- What of a request's statement and parameters the row of internal/audit/audit.go gives away.
use agentic_coop_db.Prelude.{◌≡◌, arith, false, Option, List, Bytes}
use agentic_coop_db.Audit.{Entry, Writer, write, row_of, line_of, hash_or_empty}

module _ (hex_sha256 : Bytes → Bytes) (marshal : List Bytes → Option Bytes)
    (uuid_parse parse_ip : Bytes → Option Bytes) where
  -- Without the option to include the SQL, what Write logs and inserts depends on the statement and
  -- the parameters through their two hashes only: two requests that agree in the hashes and in all
  -- else are logged and stored alike.
  pub write_hides :
      (w : Writer) (id : Bytes) (e : Entry) (sql : Bytes) (params : Option (List Bytes))
      → w.include_sql ≡ false
      → hash_or_empty hex_sha256 marshal uuid_parse parse_ip e.sql
        ≡ hash_or_empty hex_sha256 marshal uuid_parse parse_ip sql
      → (row_of hex_sha256 marshal uuid_parse parse_ip w id e).params_hash
        ≡ (row_of hex_sha256 marshal uuid_parse parse_ip w id
            (record e { params = params })).params_hash
      → write hex_sha256 marshal uuid_parse parse_ip w id e
        ≡ write hex_sha256 marshal uuid_parse parse_ip w id
            (record e { sql = sql; params = params })
  unfolding write row_of line_of
  write_hides w id e sql params h same same' = ground arith
