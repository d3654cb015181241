-- ===== src/Auth/Middleware.antt =====
-- internal/auth/middleware.go: a bearer header becomes a workspace context. The key store, SHA-256
-- and the clock are parameters; the goroutine that touches last_used_at is an output.
pub mod Genuine
pub mod Branches
pub mod Race
pub mod Itoa
use agentic_coop_db.Prelude.{
  ℕ, zero, suc, ◌+◌, ◌-◌, ◌*◌, ◌/◌, ◌%◌, ◌≡◌, Bool, true, false, Option, none, some, List, [], ◌∷◌,
  ◌++◌, Bytes, codes, nat_eq, if◌then◌else◌, Result, ok, err, String,
}
use agentic_coop_db.Auth.Record.{KeyRecord, active}
use agentic_coop_db.LruCache.{Lru}
use agentic_coop_db.Auth.Cache
use agentic_coop_db.Auth.Cache.{CachedKey, VerifyCache, revoke_by_dbid}
use agentic_coop_db.Auth.Key.{ParsedKey, parse_bearer}
use agentic_coop_db.Auth.Secret.{Crypto, verify_secret}

pub record WorkspaceContext : Type 0 where
  pub workspace_id : Bytes
  pub key_id : Bytes
  pub key_dbid : Bytes
  pub pg_role : Bytes
  pub env : Bytes

-- ErrKeyNotFound, ErrInvalidKey, and any other error of the lookup.
pub data AuthError : Type 0 where
  key_not_found invalid_key lookup_failed : AuthError

-- The digits of `i`, last first; `rounds` bounds the loop by the size of the buffer.
unfoldable pub digits : ℕ → ℕ → Bytes → Bytes
digits zero i out = out
digits (suc rounds) i out = elim (nat_eq i 0) [
  | true ↦ out
  | false ↦ digits rounds (i / 10) ((b'0' + i % 10) ∷ out)
]

-- An int is its sign and its magnitude.
unfoldable pub itoa : Bool → ℕ → Bytes
itoa neg i = if nat_eq i 0 then codes "0" else if neg then b'-' ∷ digits 20 i [] else digits 20 i []

pub record Written : Type 0 where
  pub content_type : Bytes
  pub www_authenticate : Bytes
  pub status : ℕ
  pub body : Bytes

unfoldable pub write_auth_error : ℕ → Bytes → Bytes → Written
write_auth_error status code detail = record {
  content_type = codes "application/problem+json";
  www_authenticate = codes "Bearer realm=\"agentcoopdb\"";
  status = status;
  body =
      codes "{\"type\":\"about:blank\",\"title\":\""
      ++ (code
          ++ (codes "\",\"status\":"
              ++ (itoa false status ++ (codes ",\"detail\":\"" ++ (detail ++ codes "\"}")))));
}

-- The handler answered itself, or called the next handler with the context.
pub data Outcome : Type 0 where
  denied : Written → Outcome
  passed : WorkspaceContext → Outcome

-- The answers of time.Now in Get, in Put and for Active.
pub record Clock : Type 0 where
  pub read_at : ℕ
  pub put_at : ℕ
  pub checked_at : ℕ

abbrev pub bad_header : Written
bad_header =
    write_auth_error 401 (codes "missing_or_invalid_api_key")
      (codes "Authorization header must be 'Bearer acd_<env>_<id>_<secret>'")

abbrev pub bad_key : Written
bad_key = write_auth_error 401 (codes "invalid_api_key") (codes "the supplied API key is not valid")

abbrev pub inactive_key : Written
inactive_key = write_auth_error 401 (codes "key_inactive") (codes "this key is revoked or expired")

abbrev pub internal_error : Written
internal_error =
    write_auth_error 500 (codes "auth_internal") (codes "internal authentication error")

module _ (l : Lru CachedKey) (crypto : Crypto) (digest : Bytes → Bytes) (dummy_hash : Bytes) where
  unfoldable pub cache_key : ParsedKey → Bytes
  cache_key p = digest p.full_token

  -- The cache afterwards, the calls (secret, PHC text) of VerifySecret, and the result.
  pub record Resolved : Type 0 where
    pub cache : VerifyCache l
    pub checks : List (Bytes × Bytes)
    pub result : Result AuthError KeyRecord

  -- The part of `resolve` behind a successful lookup.
  unfoldable pub verify_and_put : ℕ → VerifyCache l → ParsedKey → KeyRecord → Resolved
  verify_and_put put_at c p rec =
      if verify_secret crypto p.secret rec.secret_hash
      then record {
        cache = Cache.put l c put_at (cache_key p) rec;
        checks = (p.secret, rec.secret_hash) ∷ [];
        result = ok rec;
      }
      else record { cache = c; checks = (p.secret, rec.secret_hash) ∷ []; result = err invalid_key }

  -- The part of `resolve` behind a miss of the cache.
  unfoldable pub look_up : ℕ → VerifyCache l → ParsedKey → Result AuthError KeyRecord → Resolved
  look_up put_at c p (err e) = record {
    cache = c;
    checks = (p.secret, dummy_hash) ∷ [];
    result = err e;
  }
  look_up put_at c p (ok rec) = verify_and_put put_at c p rec

  module _ (find_by_key_id : Bytes → Result AuthError KeyRecord) where
    unfoldable pub resolve : Clock → VerifyCache l → ParsedKey → Resolved
    resolve t c p =
        let (c', found) = Cache.get l c t.read_at (cache_key p) in
        elim found [
          | some rec ↦ record { cache = c'; checks = []; result = ok rec }
          | none ↦ look_up t.put_at c' p (find_by_key_id p.key_id)
        ]

    -- What the handler answers, and the row whose last_used_at is touched.
    unfoldable pub answer : ℕ → Result AuthError KeyRecord → Outcome × Option Bytes
    answer now (err key_not_found) = (denied bad_key, none)
    answer now (err invalid_key) = (denied bad_key, none)
    answer now (err lookup_failed) = (denied internal_error, none)
    answer now (ok rec) =
        if active rec now
        then (
          passed (record {
            workspace_id = rec.workspace_id;
            key_id = rec.key_id;
            key_dbid = rec.id;
            pg_role = rec.pg_role;
            env = rec.env;
          }),
          some rec.id,
        )
        else (denied inactive_key, none)

    unfoldable pub authenticate :
        Clock → VerifyCache l → Bytes → VerifyCache l × Outcome × Option Bytes
    authenticate t c header = elim (parse_bearer header) [
      | none ↦ (c, denied bad_header, none)
      | some p ↦
          let r = resolve t c p in
          let (out, touched) = answer t.checked_at r.result in (r.cache, out, touched)
    ]

  unfoldable pub revoke_from_cache : VerifyCache l → Bytes → VerifyCache l
  revoke_from_cache c key_dbid = revoke_by_dbid l c key_dbid
