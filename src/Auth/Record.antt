-- ===== src/Auth/Record.antt =====
-- The row of api_keys that the middleware works with (KeyRecord of internal/auth/key.go). Times are
-- nanoseconds since an epoch; a nil pointer is `none`.
use agentic_coop_db.Prelude.{ℕ, Bool, true, false, Option, none, some, Bytes, leb, if◌then◌else◌}

pub record KeyRecord : Type 0 where
  pub id : Bytes
  pub workspace_id : Bytes
  pub key_id : Bytes
  pub secret_hash : Bytes
  pub env : Bytes
  pub pg_role : Bytes
  pub name : Bytes
  pub created_at : ℕ
  pub last_used_at : Option ℕ
  pub expires_at : Option ℕ
  pub revoked_at : Option ℕ
  pub replaces_key_id : Option Bytes

-- `!r.ExpiresAt.After(now)`, false on nil.
abbrev expired : Option ℕ → ℕ → Bool
expired none now = false
expired (some t) now = leb t now

unfoldable pub active : KeyRecord → ℕ → Bool
active r now = elim r.revoked_at [
  | some _ ↦ false
  | none ↦ if expired r.expires_at now then false else true
]
