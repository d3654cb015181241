-- ===== src/Auth/Middleware/Branches.antt =====
-- Which branch of Authenticate (internal/auth/middleware.go) answers, and how.
use agentic_coop_db.Prelude.{
  ℕ, ◌≡◌, refl, ◌↔◌, inl, inr, true, Option, none, some, [], ◌∷◌, Bytes, arith, Result, ok, err,
  Bool-cases, Option-cases,
}
use agentic_coop_db.Auth.Record.{KeyRecord, active}
use agentic_coop_db.LruCache.{Lru}
use agentic_coop_db.Auth.Cache
use agentic_coop_db.Auth.Cache.{CachedKey, VerifyCache}
use agentic_coop_db.Auth.Key.{ParsedKey, parse_bearer}
use agentic_coop_db.Auth.Secret.{Crypto, verify_secret}
use agentic_coop_db.Auth.Middleware.{
  WorkspaceContext, AuthError, key_not_found, invalid_key, lookup_failed, Clock, Outcome, denied,
  passed, cache_key, Resolved, verify_and_put, look_up, resolve, answer, authenticate,
  write_auth_error,
}

module _ (l : Lru CachedKey) (crypto : Crypto) (digest : Bytes → Bytes) (dummy_hash : Bytes)
    (find_by_key_id : Bytes → Result AuthError KeyRecord) (t : Clock) (c : VerifyCache l) where
  module _ (p : ParsedKey) where
    abbrev resolved : Resolved l crypto digest dummy_hash
    resolved = resolve l crypto digest dummy_hash find_by_key_id t c p

    abbrev cached : Option KeyRecord
    cached = (Cache.get l c t.read_at (cache_key l crypto digest dummy_hash p)).1

    -- The PHC text that a lookup leaves to check against.
    abbrev phc_of : Result AuthError KeyRecord → Bytes
    phc_of (ok rec) = rec.secret_hash
    phc_of (err e) = dummy_hash

    -- The secret of a request is checked exactly once if the cache does not answer, also where no key
    -- is found, then against the dummy hash; and not at all if it does.
    pub resolve-checks :
        resolved.checks
        ≡ elim cached [ none ↦ (p.secret, phc_of (find_by_key_id p.key_id)) ∷ [] | some _ ↦ [] ]
    unfolding resolve look_up verify_and_put
    resolve-checks = ground arith

    -- A request that the cache does not answer is resolved to a record exactly if that is the stored
    -- row of its key id and its secret passes against the row's hash.
    pub resolve_miss :
        cached ≡ none
        → (rec : KeyRecord)
        → (resolved.result ≡ ok rec) ↔ (
            (find_by_key_id p.key_id ≡ ok rec)
            × (verify_secret crypto p.secret rec.secret_hash ≡ true))
    unfolding resolve look_up verify_and_put
    resolve_miss miss rec = ground arith

    pub resolve_hit : (rec : KeyRecord) → cached ≡ some rec → resolved.result ≡ ok rec
    unfolding resolve
    resolve_hit rec hit = ground arith

  -- The status of the answer, 0 where the next handler answers.
  abbrev pub status_of : Outcome → ℕ
  status_of (denied w) = w.status
  status_of (passed ws) = 0

  outcome : Bytes → Outcome
  outcome header = (authenticate l crypto digest dummy_hash find_by_key_id t c header).1

  pub record Admits (header : Bytes) (ws : WorkspaceContext) : Type 0 where
    pub key : ParsedKey
    pub parsed : parse_bearer header ≡ some key
    pub rec : KeyRecord
    pub found : (resolved key).result ≡ ok rec
    pub usable : active rec t.checked_at ≡ true
    pub workspace : ws.workspace_id ≡ rec.workspace_id
    pub key_id : ws.key_id ≡ rec.key_id
    pub key_dbid : ws.key_dbid ≡ rec.id
    pub pg_role : ws.pg_role ≡ rec.pg_role
    pub env : ws.env ≡ rec.env

  answer_passed :
      (now : ℕ) (r : Result AuthError KeyRecord) (ws : WorkspaceContext)
      → (answer l crypto digest dummy_hash find_by_key_id now r).0 ≡ passed ws
      → (rec : KeyRecord) × (r ≡ ok rec)
        × (active rec now ≡ true)
        × (ws.workspace_id ≡ rec.workspace_id)
        × (ws.key_id ≡ rec.key_id)
        × (ws.key_dbid ≡ rec.id)
        × (ws.pg_role ≡ rec.pg_role)
        × (ws.env ≡ rec.env)
  unfolding answer
  answer_passed now (err key_not_found) ws h = cc
  answer_passed now (err invalid_key) ws h = cc
  answer_passed now (err lookup_failed) ws h = cc
  answer_passed now (ok rec) ws h = elim (Bool-cases (active rec now)) [
    | inl e ↦ (rec, refl, e, ground arith, ground arith, ground arith, ground arith, ground arith)
    | inr e ↦ ground arith
  ]

  -- A request reaches the next handler only with the workspace, key and role of the active record
  -- that its token is resolved to.
  pub authenticate_passed :
      (header : Bytes) (ws : WorkspaceContext)
      → (authenticate l crypto digest dummy_hash find_by_key_id t c header).1 ≡ passed ws
      → Admits header ws
  unfolding authenticate
  authenticate_passed header ws h = elim (Option-cases (parse_bearer header)) [
    | inl e ↦ cc (rw (e, authenticate) at h)
    | inr (p, e) ↦
        let (rec, found, usable, workspace, key_id, key_dbid, pg_role, env) =
          answer_passed t.checked_at (resolved p).result ws (rw (e, authenticate) at h) in
        record {
          key = p;
          parsed = e;
          rec = rec;
          found = found;
          usable = usable;
          workspace = workspace;
          key_id = key_id;
          key_dbid = key_dbid;
          pg_role = pg_role;
          env = env;
        }
  ]

  status-answer :
      (now : ℕ) (r : Result AuthError KeyRecord)
      → (status_of (answer l crypto digest dummy_hash find_by_key_id now r).0 ≡ 500)
        ↔ (r ≡ err lookup_failed)
  unfolding answer write_auth_error
  status-answer now (err key_not_found) = ground arith
  status-answer now (err invalid_key) = ground arith
  status-answer now (err lookup_failed) = ground arith
  status-answer now (ok rec) = ground arith

  resolve_failed_iff :
      (p : ParsedKey)
      → ((resolved p).result ≡ err lookup_failed)
        ↔ ((cached p ≡ none) × (find_by_key_id p.key_id ≡ err lookup_failed))
  unfolding resolve look_up verify_and_put
  resolve_failed_iff p = ground arith

  no_token :
      (header : Bytes)
      → parse_bearer header ≡ none
      → status_of (authenticate l crypto digest dummy_hash find_by_key_id t c header).1 ≡ 401
  unfolding authenticate write_auth_error
  no_token header e = rw (e, authenticate)

  -- The status is 500 exactly if the token is well formed, the cache does not answer for it and the
  -- lookup of its key id fails other than by finding no row.
  pub authenticate_500_iff :
      (header : Bytes)
      → (status_of (authenticate l crypto digest dummy_hash find_by_key_id t c header).1 ≡ 500) ↔ (
          (p : ParsedKey) × (parse_bearer header ≡ some p)
          × (cached p ≡ none)
          × (find_by_key_id p.key_id ≡ err lookup_failed))
  unfolding authenticate write_auth_error
  authenticate_500_iff header = (
    (λ h. elim (Option-cases (parse_bearer header)) [
      | inl e ↦ absurd (omega (arith, no_token header e, h))
      | inr (p, e) ↦
          let (miss, failed) =
            (resolve_failed_iff p).0
              ((status-answer t.checked_at (resolved p).result).0 (rw (e, authenticate) at h)) in
          (p, e, miss, failed)
    ]),
    (λ (p, e, miss, failed).
        rw (e, authenticate)
          ((status-answer t.checked_at (resolved p).result).1
            ((resolve_failed_iff p).1 (miss, failed)))),
  )
