-- ===== src/Db/Keys.antt =====
-- internal/db/keymint.go: a key from the command line; Admin lists and revokes keys. The random bytes, uuids, clocks, the connection and the texts of errors are parameters; an error is its text.
pub mod Admin
pub mod Listed
pub mod Usable
use agentic_coop_db.Prelude.{
  ℕ, Bool, true, false, not, Option, none, some, List, [], ◌∷◌, ◌++◌, Bytes, codes, bytes_eq, leb,
  if◌then◌else◌, Result, ok, err, ◌>>=◌, ◌>>◌, reject_if, or_err,
}
use agentic_coop_db.Auth.Key.{KeyEnvironment, is_valid, RawUrlEncoding, MintError, Minted, mint}
use agentic_coop_db.Auth.Record.{KeyRecord}
use agentic_coop_db.Auth.Secret.{Crypto, hash_secret}
use agentic_coop_db.Auth.Store.{Keys, key_row, select_id, update_id, revoke_row}
use agentic_coop_db.Db.Migrate.{World, inject_password, redact_text, url_password, in_front_of}

pub record Workspace : Type 0 where
  pub id : Bytes
  pub name : Bytes

-- The tables agentcoopdb.workspaces and agentcoopdb.api_keys.
pub record Database : Type 0 where
  pub workspaces : List Workspace
  pub keys : Keys

-- What one call meets: random bytes, new ids, the clock of the server, and the answers of the driver.
pub record Round : Type 0 where
  pub rand : ℕ → Option Bytes
  pub rand' : ℕ → Option Bytes
  pub salt : Option Bytes
  pub workspace_id : Bytes
  pub key_pk : Bytes
  pub db_now : ℕ
  pub connect_error : (url : Bytes) → Option Bytes
  pub begin_error : Option Bytes
  pub lookup_error : Option Bytes
  pub workspace_error : Option Bytes
  pub insert_error : Option Bytes
  pub commit_error : Option Bytes

-- The texts of the errors of auth.Mint and auth.HashSecret.
pub record Texts : Type 0 where
  pub mint_text : MintError → Bytes
  pub hash_text : Bytes

-- `if err != nil { return fmt.Errorf(what + ": %w", err) }`.
abbrev pub failing : (what : Bytes) → Option Bytes → Result Bytes (Unit {0})
failing what none = ok tt
failing what (some e) = err (what ++ (codes ": " ++ e))

abbrev told {ℓ} : {A : Type ℓ} {E : Type 0} → (E → Bytes) → Result E A → Result Bytes A
told text (ok a) = ok a
told text (err e) = err (text e)

-- WHERE name = $1, the first of the rows that the server returns.
unfoldable pub select_name : Bytes → List Workspace → Option Workspace
select_name name [] = none
select_name name (w ∷ ws) = if bytes_eq w.name name then some w else select_name name ws

-- LEFT JOIN on the primary key, and coalesce.
unfoldable pub workspace_name : Bytes → List Workspace → Bytes
workspace_name id [] = []
workspace_name id (w ∷ ws) = if bytes_eq w.id id then w.name else workspace_name id ws

module _ (crypto : Crypto) (b64 : RawUrlEncoding) (uuid_parse : Bytes → Option Bytes) (w : World)
    (texts : Texts) where
  -- What is checked and made before the connection: the minted key and the hash of its secret.
  unfoldable pub mint_checked :
      Round → (workspace pg_role : Bytes) → KeyEnvironment → Result Bytes (Minted × Bytes)
  mint_checked round workspace pg_role env = do
    reject_if (bytes_eq workspace []) (codes "MintKey: empty workspace")
    reject_if (bytes_eq pg_role []) (codes "MintKey: empty pg_role")
    reject_if (not (is_valid env))
        (codes "MintKey: invalid env " ++ (w.quote env ++ codes " (must be dev / live / test)"))
    m ← in_front_of (codes "auth.Mint") (told texts.mint_text (mint b64 env round.rand round.rand'))
    salt ← in_front_of (codes "auth.HashSecret") (or_err round.salt texts.hash_text)
    ok (m, hash_secret crypto m.secret salt)

  -- The workspace of that name, or a new row.
  unfoldable pub find_or_create :
      Round → (workspace : Bytes) → List Workspace → Result Bytes (List Workspace × Bytes)
  find_or_create round workspace ws = elim (select_name workspace ws) [
    | some row ↦ ok (ws, row.id)
    | none ↦
        failing (codes "create workspace") round.workspace_error
        >> ok (record { id = round.workspace_id; name = workspace } ∷ ws, round.workspace_id)
  ]

  -- The row that is committed, with the workspaces and the token.
  unfoldable pub mint_row :
      Round
      → (migrations_url owner_password workspace pg_role : Bytes) → KeyEnvironment
      → List Workspace
      → Result Bytes (List Workspace × KeyRecord × Bytes)
  mint_row round migrations_url owner_password workspace pg_role env ws = do
    made ← mint_checked round workspace pg_role env
    final_url ←
        in_front_of (codes "inject password") (inject_password w migrations_url owner_password)
    failing (codes "connect") (round.connect_error final_url)
    failing (codes "begin tx") round.begin_error
    failing (codes "lookup workspace") round.lookup_error
    found ← find_or_create round workspace ws
    failing (codes "insert api_key") round.insert_error
    failing (codes "commit") round.commit_error
    ok (
      found.0,
      key_row crypto b64 uuid_parse round.key_pk found.1 env pg_role (codes "mint-key") made.1
          made.0 round.db_now none none,
      made.0.full_token,
    )

  abbrev scrubbed : {A : Type 0} → (raw password : Bytes) → Result Bytes A → Result Bytes A
  scrubbed raw password (ok a) = ok a
  scrubbed raw password (err e) = err (redact_text e (password ∷ url_password w raw ∷ []))

  unfoldable pub mint_key :
      Round
      → (migrations_url owner_password workspace pg_role : Bytes) → KeyEnvironment
      → Database
      → Database × Result Bytes Bytes
  mint_key round migrations_url owner_password workspace pg_role env db =
      elim (scrubbed migrations_url owner_password
        (mint_row round migrations_url owner_password workspace pg_role env db.workspaces)) [
          | err e ↦ (db, err e)
          | ok (ws, row, token) ↦ (record { workspaces = ws; keys = row ∷ db.keys }, ok token)
        ]
