-- ===== src/Httpapi/Api/Keys/Granted.antt =====
-- To whom handleKeyCreate (internal/httpapi/api.go) gives a key, and what the key is good for.
use agentic_coop_db.Prelude.{
  ℕ, ◌≡◌, sym, ap, ◌∙◌, ◌⊎◌, inl, inr, arith, true, none, some, [], Bytes, codes, Result, bytes_eq,
  bytes_eq_iff, ok, Option-cases, Result-cases, Bool-cases,
}
use agentic_coop_db.Auth.Cache
use agentic_coop_db.Auth.Cache.{CachedKey, VerifyCache}
use agentic_coop_db.Auth.Record.{KeyRecord, active}
use agentic_coop_db.Auth.Key.{parse_bearer, ParsedKey}
use agentic_coop_db.Auth.Middleware.{
  cache_key, WorkspaceContext, AuthError, Clock, passed, authenticate, resolve, answer,
}
use agentic_coop_db.Auth.Middleware.Branches.{resolve_miss}
use agentic_coop_db.Auth.Secret.{Crypto}
use agentic_coop_db.Auth.Store.{Keys, Round, CreatedKey, create, find_by_key_id}
use agentic_coop_db.Auth.Store.Created.{IsFull, create-Works}
use agentic_coop_db.Httpapi.Errors.{map_error}
use agentic_coop_db.Httpapi.Api.{Request, json, Served, Gateway, refused, problem_of}
use agentic_coop_db.Httpapi.Api.Keys.{
  CreateKeyRequest, KeyService, key_input, key_answer, handle_key_create, shown_once,
}
use agentic_coop_db.LruCache.{Lru}

-- What a row stands for behind the middleware.
abbrev pub context_of : KeyRecord → WorkspaceContext
context_of rec = record {
  workspace_id = rec.workspace_id;
  key_id = rec.key_id;
  key_dbid = rec.id;
  pg_role = rec.pg_role;
  env = rec.env;
}

some_same : {a b : Bytes} → some a ≡ some b → a ≡ b
some_same h = ground arith

active_unlimited :
    (rec : KeyRecord) (now : ℕ)
    → rec.revoked_at ≡ none
    → rec.expires_at ≡ none
    → active rec now ≡ true
unfolding active
active_unlimited rec now live unlimited = ground arith

module _ (l : Lru CachedKey) (crypto : Crypto) (digest : Bytes → Bytes) (dummy : Bytes)
    (find : Bytes → Result AuthError KeyRecord) (t : Clock) (c : VerifyCache l) where
  authenticate_passes :
      (header : Bytes) (p : ParsedKey) (rec : KeyRecord)
      → parse_bearer header ≡ some p
      → (resolve l crypto digest dummy find t c p).result ≡ ok rec
      → active rec t.checked_at ≡ true
      → (authenticate l crypto digest dummy find t c header).1 ≡ passed (context_of rec)
  unfolding authenticate answer
  authenticate_passes header p rec parses resolved usable = ground arith

module _ (g : Gateway) (k : KeyService) (round : Round) (r : Request) (ws : WorkspaceContext)
    (keys : Keys) where
  -- The request was answered with a new key of the store.
  pub record IsGranted (served : Served Keys) (status : ℕ) (body : Bytes) : Type 0 where
    pub admin : ws.pg_role ≡ codes "dbadmin"
    pub req : CreateKeyRequest
    pub decoded : k.decode r.body ≡ ok req
    pub own_workspace : (req.workspace_id ≡ []) ⊎ (req.workspace_id ≡ ws.workspace_id)
    pub key : CreatedKey
    pub created :
        create k.crypto k.b64 k.uuid_parse round (key_input g k ws req) keys
        ≡ (served.state, ok key)
    pub written : json status body ≡ key_answer k 201 key shown_once

  -- A success is answered only to a key with the role dbadmin, for a request that names no workspace
  -- or the caller's own, with status 201 and the key that Create returns for the caller's workspace.
  pub handle_key_create-IsGranted :
      (status : ℕ) (body : Bytes)
      → (handle_key_create g k round r ws keys).answer ≡ some (json status body)
      → IsGranted (handle_key_create g k round r ws keys) status body
  unfolding handle_key_create refused problem_of
  handle_key_create-IsGranted status body h =
      elim (Bool-cases (bytes_eq ws.pg_role (codes "dbadmin"))) [
        | inr b ↦ ground arith
        | inl b ↦ elim (Result-cases (k.decode r.body)) [
          | inr (e, f) ↦ ground arith
          | inl (req, f) ↦
              let made = create k.crypto k.b64 k.uuid_parse round (key_input g k ws req) keys in
              elim (Result-cases made.1) [
                | inr (e, c) ↦ elim (Option-cases (map_error g.text (some (k.cause e)))) [
                  | inl n ↦ ground arith
                  | inr (p, n) ↦ ground arith
                ]
                | inl (key, c) ↦ record {
                  admin = (bytes_eq_iff ws.pg_role (codes "dbadmin")).0 b;
                  req = req;
                  decoded = f;
                  own_workspace = ground (
                    arith,
                    bytes_eq_iff req.workspace_id [],
                    bytes_eq_iff req.workspace_id ws.workspace_id,
                  );
                  key = key;
                  created =
                      let stored : made.0 ≡ (handle_key_create g k round r ws keys).state =
                        ground arith in
                      ap (λ z. (z, made.1)) stored
                      ∙ ap (λ z. ((handle_key_create g k round r ws keys).state, z)) c;
                  written = ground arith;
                }
              ]
        ]
      ]

  -- The new key can be used at once: if the random bytes are full and the caller's workspace is a uuid,
  -- then a request with the token of a 201 answer, for whose digest the verify cache has no answer
  -- whatever else it holds, is let through in the row's workspace, the caller's, and with the role that
  -- was asked for.
  pub handle_key_create-authenticate :
      (l : Lru CachedKey) (digest : Bytes → Bytes) (dummy : Bytes) (t : Clock) (c : VerifyCache l)
      (status : ℕ) (body id : Bytes)
      → IsFull round
      → (granted : IsGranted (handle_key_create g k round r ws keys) status body)
      → (Cache.get l c t.read_at (digest granted.key.full_token)).1 ≡ none
      → k.uuid_parse ws.workspace_id ≡ some id
      → (out : WorkspaceContext) × ((authenticate l k.crypto digest dummy
            (find_by_key_id none (handle_key_create g k round r ws keys).state)
            t
            c
            granted.key.full_token).1
          ≡ passed out)
        × (out.workspace_id ≡ id)
        × (out.pg_role ≡ granted.req.pg_role)
  unfolding key_input cache_key
  handle_key_create-authenticate l digest dummy t c status body id full granted cold parsed =
      let works =
        create-Works k.crypto k.b64 k.uuid_parse round (key_input g k ws granted.req) keys
          (handle_key_create g k round r ws keys).state granted.key full granted.created in
      let find = find_by_key_id none (handle_key_create g k round r ws keys).state in
      let resolved =
        (resolve_miss l k.crypto digest dummy find t c works.token
            (ap (λ s. (Cache.get l c t.read_at (digest s)).1) works.full_token ∙ cold) works.row).1
          (works.found, works.passes) in
      let usable = active_unlimited works.row t.checked_at works.not_revoked works.expires_at in
      (
        context_of works.row,
        authenticate_passes l k.crypto digest dummy find t c granted.key.full_token works.token
            works.row works.parses resolved usable,
        some_same (sym works.workspace ∙ parsed),
        works.pg_role,
      )
