-- ===== src/Db/Keys/Usable.antt =====
-- A key from the command line (internal/db/keymint.go) works.
use agentic_coop_db.Prelude.{
  ℕ, ◌≡◌, refl, sym, ap, ◌∙◌, inl, inr, arith, true, Option, none, some, List, ◌∷◌, Bytes, codes,
  bytes_eq_refl, length, ok, Result-cases, Option-cases,
}
use agentic_coop_db.Auth.Record.{KeyRecord, active}
use agentic_coop_db.Auth.Key.{ParsedKey, RawUrlEncoding, Minted, KeyEnvironment, mint, parse_bearer}
use agentic_coop_db.Auth.Key.RoundTrip.{parse_bearer-mint, parsed}
use agentic_coop_db.Auth.Secret.{Crypto, hash_secret, verify_secret}
use agentic_coop_db.Auth.Secret.Laws.{IsBytes, verify_secret-hash_secret}
use agentic_coop_db.Auth.Store.{Keys, select_key_id, find_by_key_id, key_row}
use agentic_coop_db.Db.Keys.{
  Workspace, Database, Round, Texts, select_name, mint_checked, find_or_create, mint_row, mint_key,
}
use agentic_coop_db.Db.Migrate.{World}

-- rand.Read fills whole buffers of bytes.
pub record IsFull (round : Round) : Type 0 where
  pub first : (n : ℕ) (s : Bytes) → round.rand n ≡ some s → length s ≡ n
  pub second : (n : ℕ) (s : Bytes) → round.rand' n ≡ some s → length s ≡ n
  pub salt_bytes : (s : Bytes) → round.salt ≡ some s → IsBytes s

module _ (crypto : Crypto) (b64 : RawUrlEncoding) (uuid_parse : Bytes → Option Bytes) (w : World)
    (texts : Texts) (round : Round) (migrations_url owner_password workspace pg_role : Bytes)
    (env : KeyEnvironment) (db : Database) where
  -- What the token of a minted key leads to.
  pub record Works (token : Bytes) (db' : Database) : Type 0 where
    pub key : ParsedKey
    pub parses : parse_bearer token ≡ some key
    pub row : KeyRecord
    pub found : find_by_key_id none db'.keys key.key_id ≡ ok row
    pub passes : verify_secret crypto key.secret row.secret_hash ≡ true
    pub is_active : (now : ℕ) → active row now ≡ true
    pub pg_role_of : row.pg_role ≡ pg_role
    pub place : Workspace
    pub named : select_name workspace db'.workspaces ≡ some place
    pub workspace_of : row.workspace_id ≡ place.id

  checked_parts :
      (m : Minted) (hash : Bytes)
      → mint_checked crypto b64 uuid_parse w texts round workspace pg_role env ≡ ok (m, hash)
      → (salt : Bytes) × (mint b64 env round.rand round.rand' ≡ ok m)
        × (round.salt ≡ some salt)
        × (hash ≡ hash_secret crypto m.secret salt)
  unfolding mint_checked
  checked_parts m hash h = elim (Result-cases (mint b64 env round.rand round.rand')) [
    | inr (e, f) ↦ ground arith
    | inl (n, f) ↦ elim (Option-cases round.salt) [
      | inl g ↦ ground arith
      | inr (salt, g) ↦ (salt, ground arith, g, ground arith)
    ]
  ]

  create_named :
      (ws' : List Workspace) (id : Bytes)
      → find_or_create crypto b64 uuid_parse w texts round workspace db.workspaces ≡ ok (ws', id)
      → (place : Workspace) × (select_name workspace ws' ≡ some place) × (place.id ≡ id)
  unfolding find_or_create select_name
  create_named ws' id h = elim (Option-cases (select_name workspace db.workspaces)) [
    | inr (p, f) ↦ (p, ground arith, ground arith)
    | inl f ↦ elim (Option-cases round.workspace_error) [
      | inr (e, g) ↦ ground arith
      | inl g ↦ (
        record { id = round.workspace_id; name = workspace },
        ground (arith, bytes_eq_refl workspace),
        ground arith,
      )
    ]
  ]

  mint_parts :
      (ws' : List Workspace) (row : KeyRecord) (token : Bytes)
      → mint_row crypto b64 uuid_parse w texts round migrations_url owner_password workspace pg_role
          env db.workspaces
        ≡ ok (ws', row, token)
      → (m : Minted) × (hash id : Bytes) × (mint_checked crypto b64 uuid_parse w texts round
            workspace pg_role env
          ≡ ok (m, hash))
        × (find_or_create crypto b64 uuid_parse w texts round workspace db.workspaces
            ≡ ok (ws', id))
        × (row
            ≡ key_row crypto b64 uuid_parse round.key_pk id env pg_role
                (codes "mint-key")
                hash
                m
                round.db_now
                none
                none)
        × (token ≡ m.full_token)
  unfolding mint_row
  mint_parts ws' row token h =
      elim (Result-cases (mint_checked crypto b64 uuid_parse w texts round workspace pg_role env)) [
        | inr (e, f) ↦ ground arith
        | inl ((m, hash), f) ↦
            elim (Result-cases
              (find_or_create crypto b64 uuid_parse w texts round workspace db.workspaces)) [
                | inr (e, g) ↦ ground arith
                | inl ((ws, id), g) ↦ (m, hash, id, f, ground arith, ground arith, ground arith)
              ]
      ]

  mint_result :
      (db' : Database) (token : Bytes)
      → mint_key crypto b64 uuid_parse w texts round migrations_url owner_password workspace pg_role
          env db
        ≡ (db', ok token)
      → (ws' : List Workspace) × (row : KeyRecord) × (mint_row crypto b64 uuid_parse w texts round
            migrations_url owner_password workspace pg_role env db.workspaces
          ≡ ok (ws', row, token))
        × (db' ≡ record { workspaces = ws'; keys = row ∷ db.keys })
  unfolding mint_key
  mint_result db' token h =
      elim (Result-cases (
        mint_row crypto b64 uuid_parse w texts round migrations_url owner_password workspace pg_role
          env db.workspaces)) [
            | inr (e, f) ↦ ground arith
            | inl ((ws, row, t), f) ↦
                let same : t ≡ token = ground arith in (ws, row, rw same at f, ground arith)
          ]

  found_first :
      (r : KeyRecord) (k : Bytes) (keys : Keys)
      → r.key_id ≡ k
      → find_by_key_id none (r ∷ keys) k ≡ ok r
  unfolding find_by_key_id select_key_id
  found_first r k keys e = ground (arith, bytes_eq_refl k)

  always_active :
      (r : KeyRecord) → r.revoked_at ≡ none → r.expires_at ≡ none → (now : ℕ) → active r now ≡ true
  unfolding active
  always_active r e f now = ground arith

  -- If MintKey returns a token, then the token is parsed to a key id under which the table afterwards
  -- holds a row of that role, active at every time, against whose hash its secret passes; and the row
  -- belongs to the workspace that has the given name. This holds for any full random bytes.
  pub mint_key-Works :
      (db' : Database) (token : Bytes)
      → IsFull round
      → mint_key crypto b64 uuid_parse w texts round migrations_url owner_password workspace pg_role
          env db
        ≡ (db', ok token)
      → Works token db'
  mint_key-Works db' token full h =
      let (ws', row, made, same) = mint_result db' token h in
      let (m, hash, id, checked, placed, row_is, token_is) = mint_parts ws' row token made in
      let (salt, minted, salted, hash_is) = checked_parts m hash checked in
      let (place, named, place_id) = create_named ws' id placed in
      let (parses, _) =
        parse_bearer-mint b64 env round.rand round.rand' m full.first full.second minted in
      let new_row =
        key_row crypto b64 uuid_parse round.key_pk id env pg_role (codes "mint-key") hash m
          round.db_now none none in
      record {
        key = parsed m.full_token env m.key_id m.secret;
        parses = ap parse_bearer token_is ∙ parses;
        row = new_row;
        found =
            ap (λ d. find_by_key_id none d.keys m.key_id) same
            ∙ (ap (λ r. find_by_key_id none (r ∷ db.keys) m.key_id) row_is
                ∙ found_first new_row m.key_id db.keys refl);
        passes =
            ap (verify_secret crypto m.secret) hash_is
            ∙ verify_secret-hash_secret crypto m.secret salt (full.salt_bytes salt salted);
        is_active = always_active new_row refl refl;
        pg_role_of = refl;
        place = place;
        named = ap (λ d. select_name workspace d.workspaces) same ∙ named;
        workspace_of = sym place_id;
      }
