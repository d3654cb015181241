-- ===== src/Db/Keys/Admin.antt =====
-- internal/db/keylist.go and keyrevoke.go: listing and revoking keys from the command line. The
-- connection, uuid.Parse and the clocks are parameters; an error is its text.
use agentic_coop_db.Prelude.{
  ℕ, Option, none, some, List, [], ◌∷◌, ◌++◌, Bytes, codes, leb, if◌then◌else◌, Result, ok, err,
  ◌>>=◌, ◌>>◌,
}
use agentic_coop_db.Auth.Record.{KeyRecord}
use agentic_coop_db.Auth.Store.{Keys, select_id, update_id, revoke_row}
use agentic_coop_db.Db.Keys.{Workspace, Database, failing, workspace_name}
use agentic_coop_db.Db.Migrate.{World, inject_password, redact_text, url_password, in_front_of}

-- keyStatus at the time `now`.
unfoldable pub key_status : (revoked_at expires_at : Option ℕ) → (now : ℕ) → Bytes
key_status (some t) expires_at now = codes "revoked"
key_status none none now = codes "active"
key_status none (some t) now = if leb t now then codes "expired" else codes "active"

pub record KeySummary : Type 0 where
  pub id : Bytes
  pub workspace_name : Bytes
  pub pg_role : Bytes
  pub env : Bytes
  pub name : Bytes
  pub status : Bytes
  pub created_at : ℕ

-- ORDER BY created_at.
unfoldable pub insert_by_age : KeyRecord → Keys → Keys
insert_by_age r [] = r ∷ []
insert_by_age r (x ∷ keys) =
    let rest = insert_by_age r keys in
    if leb r.created_at x.created_at then r ∷ (x ∷ keys) else x ∷ rest

unfoldable pub by_age : Keys → Keys
by_age [] = []
by_age (r ∷ keys) = insert_by_age r (by_age keys)

abbrev pub summary : (now : ℕ) → List Workspace → KeyRecord → KeySummary
summary now ws r = record {
  id = r.id;
  workspace_name = workspace_name r.workspace_id ws;
  pg_role = r.pg_role;
  env = r.env;
  name = r.name;
  status = key_status r.revoked_at r.expires_at now;
  created_at = r.created_at;
}

-- The loop over the rows. A row that Scan cannot read ends it; `nows` are the times of time.Now.
unfoldable pub scan_keys :
    (scan_error : KeyRecord → Option Bytes)
    → (nows : KeyRecord → ℕ) → List Workspace
    → Keys
    → Result Bytes (List KeySummary)
scan_keys scan_error nows ws [] = ok []
scan_keys scan_error nows ws (r ∷ keys) = do
  failing (codes "scan") (scan_error r)
  rest ← scan_keys scan_error nows ws keys
  ok (summary (nows r) ws r ∷ rest)

module _ (w : World) where
  abbrev failing_scrubbed : (raw password what : Bytes) → Option Bytes → Result Bytes (Unit {0})
  failing_scrubbed raw password what none = ok tt
  failing_scrubbed raw password what (some e) =
      err (what ++ (codes ": " ++ redact_text e (password ∷ url_password w raw ∷ [])))

  -- The last error is that of rows.Err.
  unfoldable pub list_keys :
      (connect_error : Bytes → Option Bytes)
      → (query_error rows_error : Option Bytes) → (scan_error : KeyRecord → Option Bytes)
      → (nows : KeyRecord → ℕ) → (migrations_url owner_password : Bytes) → Database
      → Result Bytes (List KeySummary)
  list_keys connect_error query_error rows_error scan_error nows migrations_url owner_password db =
      do
        final_url ←
            in_front_of (codes "inject password") (inject_password w migrations_url owner_password)
        failing_scrubbed migrations_url owner_password (codes "connect") (connect_error final_url)
        failing_scrubbed migrations_url owner_password (codes "query") query_error
        keys ← scan_keys scan_error nows db.workspaces (by_age db.keys)
        elim rows_error [ none ↦ ok keys | some e ↦ err e ]

  abbrev not_found : Bytes → Bytes
  not_found key_id = codes "key " ++ (key_id ++ codes " not found or already revoked")

  -- The UPDATE with its RowsAffected.
  unfoldable pub revoke_rows : (key_id id : Bytes) → (db_now : ℕ) → Keys → Result Bytes Keys
  revoke_rows key_id id db_now keys = elim (select_id id keys) [
    | none ↦ err (not_found key_id)
    | some r ↦ elim r.revoked_at [
      | some t ↦ err (not_found key_id)
      | none ↦ ok (update_id id (revoke_row db_now) keys)
    ]
  ]

  unfoldable pub revoke_checked :
      (uuid_parse : Bytes → Result Bytes Bytes)
      → (connect_error : Bytes → Option Bytes) → (exec_error : Option Bytes) → (db_now : ℕ)
      → (migrations_url owner_password key_id : Bytes) → Keys
      → Result Bytes Keys
  revoke_checked uuid_parse connect_error exec_error db_now migrations_url owner_password key_id
        keys =
      do
        id ← in_front_of (codes "invalid key ID " ++ w.quote key_id) (uuid_parse key_id)
        final_url ←
            in_front_of (codes "inject password") (inject_password w migrations_url owner_password)
        failing (codes "connect") (connect_error final_url)
        failing (codes "revoke") exec_error
        revoke_rows key_id id db_now keys

  unfoldable pub revoke_key :
      (uuid_parse : Bytes → Result Bytes Bytes)
      → (connect_error : Bytes → Option Bytes) → (exec_error : Option Bytes) → (db_now : ℕ)
      → (migrations_url owner_password key_id : Bytes) → Database
      → Database × Option Bytes
  revoke_key uuid_parse connect_error exec_error db_now migrations_url owner_password key_id db =
      elim (revoke_checked uuid_parse connect_error exec_error db_now migrations_url owner_password
        key_id db.keys) [
          | err e ↦ (db, some (redact_text e (owner_password ∷ url_password w migrations_url ∷ [])))
          | ok keys ↦ (record db { keys = keys }, none)
        ]
