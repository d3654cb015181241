-- ===== src/Auth/Store.antt =====
-- internal/auth/store.go: the table api_keys and the store over it. uuid.Parse, uuid.New, the random
-- bytes, the catalogue of roles, the clocks and the failures of the driver are parameters.
pub mod Created
pub mod Revoked
pub mod Rotated
pub mod Tests
use agentic_coop_db.Prelude.{
  ℕ, ◌+◌, ◌≡◌, Bool, true, false, not, ◌&&◌, Option, none, some, List, [], ◌∷◌, Bytes, bytes_eq,
  if◌then◌else◌, Result, ok, err, ◌>>=◌, ◌>>◌, reject_if, or_err,
}
use agentic_coop_db.Auth.Record.{KeyRecord}
use agentic_coop_db.Auth.Key.{KeyEnvironment, is_valid, RawUrlEncoding, MintError, Minted, mint}
use agentic_coop_db.Auth.Secret.{Crypto, hash_secret}
use agentic_coop_db.Auth.Middleware.{AuthError, key_not_found, lookup_failed}

abbrev pub Keys : Type 0
Keys = List KeyRecord

-- WHERE key_id = $1 LIMIT 1.
unfoldable pub select_key_id : Bytes → Keys → Option KeyRecord
select_key_id key_id [] = none
select_key_id key_id (r ∷ keys) =
    if bytes_eq r.key_id key_id then some r else select_key_id key_id keys

-- WHERE id = $1.
unfoldable pub select_id : Bytes → Keys → Option KeyRecord
select_id id [] = none
select_id id (r ∷ keys) = if bytes_eq r.id id then some r else select_id id keys

unfoldable pub update_id : Bytes → (KeyRecord → KeyRecord) → Keys → Keys
update_id id f [] = []
update_id id f (r ∷ keys) =
    let rest = update_id id f keys in if bytes_eq r.id id then f r ∷ rest else r ∷ rest

unfoldable pub find_by_key_id : Option Bytes → Keys → Bytes → Result AuthError KeyRecord
find_by_key_id query_error keys key_id = elim query_error [
  | some e ↦ err lookup_failed
  | none ↦ or_err (select_key_id key_id keys) key_not_found
]

pub data StoreError : Type 0 where
  invalid_env bad_id hash_failed no_role not_member no_key : StoreError
  mint_failed : MintError → StoreError
  driver_failed : Bytes → StoreError

pub record CreateKeyInput : Type 0 where
  pub workspace_id : Bytes
  pub env : KeyEnvironment
  pub pg_role : Bytes
  pub name : Bytes
  pub expires_at : Option ℕ

pub record CreatedKey : Type 0 where
  pub id : Bytes
  pub key_id : Bytes
  pub full_token : Bytes
  pub record_of : KeyRecord

-- What one call meets: random bytes, the new id, the clocks of the server and of the gateway, what a
-- column of the server keeps of a time, which is in microseconds there, and the answers of the driver.
pub record Round : Type 0 where
  pub rand : ℕ → Option Bytes
  pub rand' : ℕ → Option Bytes
  pub salt : Option Bytes
  pub new_id : Bytes
  pub db_now : ℕ
  pub now : ℕ
  pub stored : ℕ → ℕ
  pub begin_error : Option Bytes
  pub role_exists : Bytes → Result Bytes Bool
  pub is_member : Bytes → Result Bytes Bool
  pub select_error : Option Bytes
  pub insert_error : Option Bytes
  pub update_error : Option Bytes
  pub commit_error : Option Bytes

-- A nil time is a null column.
abbrev pub stored_time : (ℕ → ℕ) → Option ℕ → Option ℕ
stored_time stored none = none
stored_time stored (some t) = some (stored t)

-- `if err != nil { return err }`.
abbrev pub driver : Option Bytes → Result StoreError (Unit {0})
driver none = ok tt
driver (some e) = err (driver_failed e)

abbrev answered : {A : Type 0} → Result Bytes A → Result StoreError A
answered (ok a) = ok a
answered (err e) = err (driver_failed e)

abbrev minted_or : Result MintError Minted → Result StoreError Minted
minted_or (ok m) = ok m
minted_or (err e) = err (mint_failed e)

abbrev pub revoke_row : ℕ → KeyRecord → KeyRecord
revoke_row now r = elim r.revoked_at [ none ↦ record r { revoked_at = some now } | some _ ↦ r ]

abbrev pub expire_row : ℕ → KeyRecord → KeyRecord
expire_row at r = elim r.revoked_at [ none ↦ record r { expires_at = some at } | some _ ↦ r ]

module _ (crypto : Crypto) (b64 : RawUrlEncoding) (uuid_parse : Bytes → Option Bytes) where
  unfoldable pub touch_last_used :
      Option Bytes → ℕ → Bytes → Keys → Keys × Result StoreError (Unit {0})
  touch_last_used exec_error db_now id keys =
      elim (or_err (uuid_parse id) bad_id >>= λ u. driver exec_error >> ok u) [
        | err e ↦ (keys, err e)
        | ok u ↦ (update_id u (λ r. record r { last_used_at = some db_now }) keys, ok tt)
      ]

  unfoldable pub revoke : Option Bytes → ℕ → Bytes → Keys → Keys × Result StoreError (Unit {0})
  revoke exec_error db_now id keys =
      elim (or_err (uuid_parse id) bad_id >>= λ u. driver exec_error >> ok u) [
        | err e ↦ (keys, err e)
        | ok u ↦ (update_id u (revoke_row db_now) keys, ok tt)
      ]

  -- The row of a new key.
  abbrev pub key_row :
      (id ws : Bytes)
      → KeyEnvironment
      → (pg_role name hash : Bytes) → Minted
      → ℕ
      → (expires_at : Option ℕ) → (replaces : Option Bytes) → KeyRecord
  key_row id ws env pg_role name hash m created_at expires_at replaces = record {
    id = id;
    workspace_id = ws;
    key_id = m.key_id;
    secret_hash = hash;
    env = env;
    pg_role = pg_role;
    name = name;
    created_at = created_at;
    last_used_at = none;
    expires_at = expires_at;
    revoked_at = none;
    replaces_key_id = replaces;
  }

  abbrev created : Minted → KeyRecord → CreatedKey
  created m r = record { id = r.id; key_id = m.key_id; full_token = m.full_token; record_of = r }

  -- The row that Create inserts and the key that it returns.
  unfoldable pub create_row : Round → CreateKeyInput → Result StoreError (KeyRecord × CreatedKey)
  create_row round input = do
    reject_if (not (is_valid input.env)) invalid_env
    ws ← or_err (uuid_parse input.workspace_id) bad_id
    m ← minted_or (mint b64 input.env round.rand round.rand')
    salt ← or_err round.salt hash_failed
    driver round.begin_error
    role_ok ← answered (round.role_exists input.pg_role)
    reject_if (not role_ok) no_role
    member_ok ← answered (round.is_member input.pg_role)
    reject_if (not member_ok) not_member
    driver round.insert_error
    driver round.commit_error
    ok (
      key_row round.new_id ws input.env input.pg_role input.name (hash_secret crypto m.secret salt)
          m round.db_now (stored_time round.stored input.expires_at) none,
      created m (
          key_row round.new_id input.workspace_id input.env input.pg_role input.name
            (hash_secret crypto m.secret salt) m round.now input.expires_at none),
    )

  unfoldable pub create : Round → CreateKeyInput → Keys → Keys × Result StoreError CreatedKey
  create round input keys = elim (create_row round input) [
    | err e ↦ (keys, err e)
    | ok (row, key) ↦ (row ∷ keys, ok key)
  ]

  -- The row that Rotate inserts and the key that it returns, and the id of the old row.
  unfoldable pub rotate_row :
      Round → Bytes → Keys → Result StoreError (Bytes × KeyRecord × CreatedKey)
  rotate_row round old_id keys = do
    old ← or_err (uuid_parse old_id) bad_id
    driver round.begin_error
    driver round.select_error
    r ← or_err (select_id old keys) no_key
    m ← minted_or (mint b64 r.env round.rand round.rand')
    salt ← or_err round.salt hash_failed
    driver round.insert_error
    driver round.update_error
    driver round.commit_error
    ok (
      old,
      key_row round.new_id r.workspace_id r.env r.pg_role r.name (hash_secret crypto m.secret salt)
          m round.db_now none (some old),
      created m (
          key_row round.new_id r.workspace_id r.env r.pg_role r.name
            (hash_secret crypto m.secret salt) m round.now none none),
    )

  unfoldable pub rotate : Round → Bytes → (overlap : ℕ) → Keys → Keys × Result StoreError CreatedKey
  rotate round old_id overlap keys = elim (rotate_row round old_id keys) [
    | err e ↦ (keys, err e)
    | ok (old, row, key) ↦
        (update_id old (expire_row (round.db_now + overlap)) (row ∷ keys), ok key)
  ]
