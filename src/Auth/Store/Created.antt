-- ===== src/Auth/Store/Created.antt =====
-- A created key (internal/auth/store.go) works: its token leads to the row that was inserted, and
-- its secret passes against that row's hash.
use agentic_coop_db.Prelude.{
  ℕ, ◌≡◌, refl, sym, ap, ◌∙◌, inl, inr, arith, true, Option, none, some, ◌∷◌, Bytes, bytes_eq_refl,
  length, ok, Option-cases, Result-cases,
}
use agentic_coop_db.Auth.Record.{KeyRecord}
use agentic_coop_db.Auth.Key.{ParsedKey, RawUrlEncoding, Minted, mint, parse_bearer}
use agentic_coop_db.Auth.Key.RoundTrip.{parse_bearer-mint, parsed}
use agentic_coop_db.Auth.Secret.{Crypto, hash_secret, verify_secret}
use agentic_coop_db.Auth.Secret.Laws.{IsBytes, verify_secret-hash_secret}
use agentic_coop_db.Auth.Store.{
  Keys, Round, CreateKeyInput, CreatedKey, select_key_id, stored_time, find_by_key_id, key_row,
  create_row, create,
}

-- rand.Read fills whole buffers of bytes.
pub record IsFull (round : Round) : Type 0 where
  pub first : (n : ℕ) (s : Bytes) → round.rand n ≡ some s → length s ≡ n
  pub second : (n : ℕ) (s : Bytes) → round.rand' n ≡ some s → length s ≡ n
  pub salt_bytes : (s : Bytes) → round.salt ≡ some s → IsBytes s

module _ (crypto : Crypto) (b64 : RawUrlEncoding) (uuid_parse : Bytes → Option Bytes)
    (round : Round) (input : CreateKeyInput) (keys : Keys) where
  -- What the token of a created key leads to.
  pub record Works (key : CreatedKey) (keys' : Keys) : Type 0 where
    pub token : ParsedKey
    pub parses : parse_bearer key.full_token ≡ some token
    pub full_token : token.full_token ≡ key.full_token
    pub row : KeyRecord
    pub found : find_by_key_id none keys' token.key_id ≡ ok row
    pub passes : verify_secret crypto token.secret row.secret_hash ≡ true
    pub workspace : uuid_parse input.workspace_id ≡ some row.workspace_id
    pub pg_role : row.pg_role ≡ input.pg_role
    pub expires_at : row.expires_at ≡ stored_time round.stored input.expires_at
    pub not_revoked : row.revoked_at ≡ none
    pub role_exists : round.role_exists input.pg_role ≡ ok true
    pub is_member : round.is_member input.pg_role ≡ ok true

  create_parts :
      (row : KeyRecord) (key : CreatedKey)
      → create_row crypto b64 uuid_parse round input ≡ ok (row, key)
      → (m : Minted) × (salt : Bytes) × (ws : Bytes) × (mint b64 input.env round.rand round.rand'
          ≡ ok m)
        × (round.salt ≡ some salt)
        × (uuid_parse input.workspace_id ≡ some ws)
  unfolding create_row
  create_parts row key h = elim (Option-cases (uuid_parse input.workspace_id)) [
    | inl e ↦ ground arith
    | inr (ws, e) ↦ elim (Result-cases (mint b64 input.env round.rand round.rand')) [
      | inr (x, f) ↦ ground arith
      | inl (m, f) ↦ elim (Option-cases round.salt) [
        | inl g ↦ ground arith
        | inr (salt, g) ↦ (m, salt, ws, f, g, e)
      ]
    ]
  ]

  create_opened :
      (row : KeyRecord) (key : CreatedKey) (m : Minted) (salt ws : Bytes)
      → mint b64 input.env round.rand round.rand' ≡ ok m
      → round.salt ≡ some salt
      → uuid_parse input.workspace_id ≡ some ws
      → create_row crypto b64 uuid_parse round input ≡ ok (row, key)
      → (row
          ≡ key_row crypto b64 uuid_parse round.new_id ws input.env input.pg_role input.name
              (hash_secret crypto m.secret salt)
              m
              round.db_now
              (stored_time round.stored input.expires_at)
              none)
        × (key.full_token ≡ m.full_token)
        × (round.role_exists input.pg_role ≡ ok true)
        × (round.is_member input.pg_role ≡ ok true)
  unfolding create_row
  create_opened row key m salt ws f g e h = ground arith

  create_result :
      (keys' : Keys) (key : CreatedKey)
      → create crypto b64 uuid_parse round input keys ≡ (keys', ok key)
      → (row : KeyRecord) × (create_row crypto b64 uuid_parse round input ≡ ok (row, key))
        × (keys' ≡ row ∷ keys)
  unfolding create
  create_result keys' key h = elim (Result-cases (create_row crypto b64 uuid_parse round input)) [
    | inr (e, f) ↦ ground arith
    | inl ((row, k), f) ↦ let same : k ≡ key = ground arith in (row, rw same at f, ground arith)
  ]

  found_first : (r : KeyRecord) (k : Bytes) → r.key_id ≡ k → find_by_key_id none (r ∷ keys) k ≡ ok r
  unfolding find_by_key_id select_key_id
  found_first r k e = ground (arith, bytes_eq_refl k)

  -- If Create returns a key, then its token is parsed to a key id under which the new table holds the
  -- row of that workspace and role, not revoked and with the expiry that was asked for as its column
  -- keeps it, and to a secret that passes against the row's hash; and the role exists and the gateway is
  -- a member of it. This holds for any full random bytes.
  pub create-Works :
      (keys' : Keys) (key : CreatedKey)
      → IsFull round
      → create crypto b64 uuid_parse round input keys ≡ (keys', ok key)
      → Works key keys'
  create-Works keys' key full h =
      let (row, made, same) = create_result keys' key h in
      let (m, salt, ws, minted, salted, ws_parsed) = create_parts row key made in
      let (row_is, token, role_exists, is_member) =
        create_opened row key m salt ws minted salted ws_parsed made in
      let (parses, _) =
        parse_bearer-mint b64 input.env round.rand round.rand' m full.first full.second minted in
      let new_row =
        key_row crypto b64 uuid_parse round.new_id ws input.env input.pg_role input.name
          (hash_secret crypto m.secret salt) m round.db_now
          (stored_time round.stored input.expires_at) none in
      record {
        token = parsed m.full_token input.env m.key_id m.secret;
        parses = ap parse_bearer token ∙ parses;
        full_token = sym token;
        row = new_row;
        found =
            ap (λ x. find_by_key_id none x m.key_id) (same ∙ ap (λ r. r ∷ keys) row_is)
            ∙ found_first new_row m.key_id refl;
        passes = verify_secret-hash_secret crypto m.secret salt (full.salt_bytes salt salted);
        workspace = ws_parsed;
        pg_role = refl;
        expires_at = refl;
        not_revoked = refl;
        role_exists = role_exists;
        is_member = is_member;
      }
