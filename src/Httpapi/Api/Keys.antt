-- ===== src/Httpapi/Api/Keys.antt =====
-- handleKeyRotate, handleKeyCreate and handleMe of internal/httpapi/api.go, over the key store and the
-- verify cache. The decoder of the body, the encoder of the answer, and the Go error behind an error of
-- the store are parameters.
pub mod Granted
use agentic_coop_db.Prelude.{
  ℕ, Bool, true, false, not, ◌&&◌, Option, none, some, [], ◌∷◌, ◌++◌, Bytes, codes, bytes_eq,
  if◌then◌else◌, Result, ok, err,
}
use agentic_coop_db.Auth.Cache.{CachedKey, VerifyCache}
use agentic_coop_db.Auth.Key.{RawUrlEncoding}
use agentic_coop_db.Auth.Middleware.{WorkspaceContext, revoke_from_cache}
use agentic_coop_db.Auth.Secret.{Crypto}
use agentic_coop_db.Auth.Store.{Keys, StoreError, CreateKeyInput, CreatedKey, Round, create, rotate}
use agentic_coop_db.Httpapi.Errors.{map_error}
use agentic_coop_db.Httpapi.Api.{Request, Answer, json, Served, Gateway, problem_of, refused}
use agentic_coop_db.Httpapi.Api.Statements.{problem_or_panic}
use agentic_coop_db.LruCache.{Lru}
use agentic_coop_db.Sql.Errors.{GoError}

pub record CreateKeyRequest : Type 0 where
  pub workspace_id : Bytes
  pub env : Bytes
  pub pg_role : Bytes
  pub name : Bytes

pub record RotateKeyResponse : Type 0 where
  pub new_key_id : Bytes
  pub token : Bytes
  pub notice : Bytes

-- `server` is version.Get().
pub record MeResponse : Type 0 where
  pub workspace_id : Bytes
  pub key_id : Bytes
  pub role : Bytes
  pub env : Bytes
  pub server : Bytes

-- `decode` reads the stream of the body and may stop before its end.
pub record KeyService : Type 0 where
  pub crypto : Crypto
  pub digest : Bytes → Bytes
  pub dummy_hash : Bytes
  pub b64 : RawUrlEncoding
  pub uuid_parse : Bytes → Option Bytes
  pub decode : Result Bytes Bytes → Result Bytes CreateKeyRequest
  pub marshal : RotateKeyResponse → Bytes
  pub marshal_me : MeResponse → Bytes
  pub cause : StoreError → GoError
  pub overlap : ℕ
  pub version : Bytes

-- WriteJSON of a new key.
unfoldable pub key_answer : KeyService → (status : ℕ) → CreatedKey → (notice : Bytes) → Answer
key_answer k status created notice = json status (
    k.marshal (record { new_key_id = created.key_id; token = created.full_token; notice = notice }))

-- The dash of the notice is three bytes.
abbrev pub shown_once : Bytes
shown_once = codes "this token is shown exactly once " ++ (226 ∷ 128 ∷ 148 ∷ codes " store it now")

module _ (g : Gateway) (k : KeyService) where
  -- The input of Create: the caller's workspace, and its environment where none is named.
  unfoldable pub key_input : WorkspaceContext → CreateKeyRequest → CreateKeyInput
  key_input ws req = record {
    workspace_id = ws.workspace_id;
    env = if bytes_eq req.env [] then ws.env else req.env;
    pg_role = req.pg_role;
    name = req.name;
    expires_at = none;
  }

  unfoldable pub handle_key_create : Round → Request → WorkspaceContext → Keys → Served Keys
  handle_key_create round r ws keys =
      if not (bytes_eq ws.pg_role (codes "dbadmin"))
      then refused keys (
          problem_of "permission_denied" 403
            (codes "only keys with role=dbadmin may create new keys"))
      else elim (k.decode r.body) [
        | err e ↦ refused keys (problem_of "invalid_json" 400 e)
        | ok req ↦
            if not (bytes_eq req.workspace_id []) && not (bytes_eq req.workspace_id ws.workspace_id)
            then refused keys (
                problem_of "permission_denied" 403
                  (codes "dbadmin keys can only mint keys for their own workspace"))
            else let (keys', created) =
                create k.crypto k.b64 k.uuid_parse round (key_input ws req) keys in
              elim created [
                | err e ↦ record {
                  state = keys';
                  sent = [];
                  answer = problem_or_panic (map_error g.text (some (k.cause e)));
                  audited = [];
                  counted = [];
                }
                | ok key ↦ refused keys' (key_answer k 201 key shown_once)
              ]
      ]

  -- The state is the table of keys and the verify cache.
  unfoldable pub handle_key_rotate :
      (l : Lru CachedKey)
      → Round
      → WorkspaceContext
      → Keys × VerifyCache l
      → Served (Keys × VerifyCache l)
  handle_key_rotate l round ws (keys, cache) =
      let (keys', rotated) = rotate k.crypto k.b64 k.uuid_parse round ws.key_dbid k.overlap keys in
      elim rotated [
        | err e ↦ record {
          state = (keys', cache);
          sent = [];
          answer = problem_or_panic (map_error g.text (some (k.cause e)));
          audited = [];
          counted = [];
        }
        | ok key ↦
            refused (keys', revoke_from_cache l k.crypto k.digest k.dummy_hash cache ws.key_dbid)
              (key_answer k 200 key
                (codes "old key remains active for the configured overlap window"))
      ]

  unfoldable pub handle_me : WorkspaceContext → Answer
  handle_me ws = json 200 (
      k.marshal_me (record {
        workspace_id = ws.workspace_id;
        key_id = ws.key_id;
        role = ws.pg_role;
        env = ws.env;
        server = k.version;
      }))
