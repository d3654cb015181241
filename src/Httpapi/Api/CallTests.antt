-- ===== src/Httpapi/Api/CallTests.antt =====
-- The theorems about the keys, the calls and the routes of internal/httpapi/api.go at concrete inputs.
use agentic_coop_db.Prelude.{
  ℕ, ◌≡◌, pos, refl, inr, arith, none, some, [], ◌∷◌, Bytes, codes, bytes_eq, ok, if◌then◌else◌,
}
use agentic_coop_db.Auth.Cache
use agentic_coop_db.Auth.Cache.{CachedKey, VerifyCache}
use agentic_coop_db.Auth.Key.{mint, is_valid, token}
use agentic_coop_db.Auth.Key.Example.{raw_url}
use agentic_coop_db.Auth.Middleware.{WorkspaceContext, Clock, passed, authenticate}
use agentic_coop_db.Auth.Secret.Example.{crypto}
use agentic_coop_db.Auth.Store.{Keys, create, create_row, find_by_key_id}
use agentic_coop_db.Auth.Store.Tests as StoreTests
use agentic_coop_db.Auth.Tests as AuthTests
use agentic_coop_db.Httpapi.Api.Routes.{Times, Guards, handled, wrap, IsAdmitted, wrap-IsAdmitted}
use agentic_coop_db.Httpapi.RateLimit.{
  new_rate_limit, middleware, limiter_for, take_token, write, bucket_key,
}
use agentic_coop_db.Httpapi.TokenBucket.Example.{fixed}
use agentic_coop_db.Httpapi.TokenBucket.{new_token_bucket, allow, refill, tokens_at}
use agentic_coop_db.Httpapi.Api.{json, replayed, refused}
use agentic_coop_db.Httpapi.Api.Keys.{
  CreateKeyRequest, KeyService, handle_key_create, key_input, key_answer,
}
use agentic_coop_db.Httpapi.Api.Keys.Granted.{
  IsGranted, handle_key_create-IsGranted, handle_key_create-authenticate,
}
use agentic_coop_db.Httpapi.Api.Calls
use agentic_coop_db.Httpapi.Api.Calls.{RpcCallRequest, RpcService, handle_rpc_call, call_input}
use agentic_coop_db.Httpapi.Api.Calls.Repeat.{
  IsDispatched, run_at, ran, handle_rpc_call-handle_rpc_call,
}
use agentic_coop_db.LruCache.Assoc.{assoc}
use agentic_coop_db.Rpc.Dispatcher.{stored_body}
use agentic_coop_db.Rpc.Dispatcher.Repeat.{IsCallable}
use agentic_coop_db.Rpc.Tests.{
  codecs, round_at, alone, sound, empty, session, proc, registry, accepts, as_is, as_body,
  found_proc,
}
use agentic_coop_db.Sql.Errors.{other}
use agentic_coop_db.Httpapi.Api.Tests.{gateway, request, caller}

abbrev ask : CreateKeyRequest
ask = record { workspace_id = []; env = []; pg_role = codes "dbuser"; name = codes "ci" }

abbrev key_service : KeyService
key_service = record {
  crypto = crypto;
  digest = λ s. s;
  dummy_hash = [];
  b64 = raw_url;
  uuid_parse = StoreTests.parse_id;
  decode = λ body. ok ask;
  marshal = λ resp. resp.token;
  marshal_me = λ me. me.role;
  cause = λ e. other [];
  overlap = 100;
  version = codes "v1";
}

abbrev created_keys : Keys
created_keys = StoreTests.row 50 ∷ []

creates :
    create crypto raw_url StoreTests.parse_id StoreTests.round
      (key_input gateway key_service caller ask)
      []
    ≡ (created_keys, ok StoreTests.new_key)
unfolding create create_row mint is_valid token bytes_eq key_input
creates = refl

grants :
    (handle_key_create gateway key_service StoreTests.round request caller []).answer
    ≡ some (json 201 StoreTests.minted.full_token)
unfolding handle_key_create refused key_answer key_input create create_row mint is_valid token
    bytes_eq
grants = refl

granted :
    IsGranted gateway key_service StoreTests.round request caller []
      (handle_key_create gateway key_service StoreTests.round request caller [])
      201
      StoreTests.minted.full_token
granted =
    handle_key_create-IsGranted gateway key_service StoreTests.round request caller [] 201
      StoreTests.minted.full_token grants

handle_key_create-IsGranted_example :
    IsGranted gateway key_service StoreTests.round request caller []
      (handle_key_create gateway key_service StoreTests.round request caller [])
      201
      StoreTests.minted.full_token
handle_key_create-IsGranted_example =
    handle_key_create-IsGranted gateway key_service StoreTests.round request caller [] 201
      StoreTests.minted.full_token grants

abbrev now : Clock
now = record { read_at = 60; put_at = 61; checked_at = 62 }

-- The cache after a request of the caller.
abbrev warm : VerifyCache (assoc CachedKey)
warm = record {
  lru = (codes "caller", record { rec = StoreTests.row 10; verified_at = 59 }) ∷ [];
  ttl = 100;
  revoked = [];
}

is_new : (Cache.get (assoc CachedKey) warm now.read_at (b'#' ∷ granted.key.full_token)).1 ≡ none
unfolding Cache.get bytes_eq
is_new = refl

handle_key_create-authenticate_example :
    (out : WorkspaceContext) × ((authenticate
        (assoc CachedKey)
        crypto
        (λ s. b'#' ∷ s)
        []
        (find_by_key_id none
          (handle_key_create gateway key_service StoreTests.round request caller []).state)
        now
        warm
        granted.key.full_token).1
      ≡ passed out)
    × (out.workspace_id ≡ codes "w1")
    × (out.pg_role ≡ granted.req.pg_role)
handle_key_create-authenticate_example =
    handle_key_create-authenticate gateway key_service StoreTests.round request caller []
      (assoc CachedKey) (λ s. b'#' ∷ s) [] now warm 201 StoreTests.minted.full_token (codes "w1")
      StoreTests.full granted is_new refl

abbrev call_request : RpcCallRequest Bytes
call_request = record { procedure = codes "upsert_document"; args = codes "{}" }

abbrev calls : RpcService Bytes Bytes
calls = record {
  registry = registry;
  validate_schema = accepts;
  marshal_args = as_is;
  marshal_body = as_body;
  unmarshal = λ body. ok call_request;
  marshal = λ res. res.result;
  args_value = λ args. args;
  error_text = λ e. codes "error";
  cause = λ e. other [];
  statement_timeout = 5000000000;
  idle_in_tx_timeout = 5000000000;
}

abbrev user : WorkspaceContext
user = record caller { pg_role = codes "dbuser" }

dispatched : IsDispatched gateway calls request user (codes "{}") call_request
dispatched = record { read = refl; decoded = refl }

callable :
    IsCallable Bytes Bytes accepts as_is as_body codecs registry
      (call_input gateway calls request user (codes "{}") call_request)
      proc
unfolding call_input
callable = record {
  found = found_proc;
  permitted = inr refl;
  schema = codes "{}";
  has_schema = refl;
  valid = refl;
  keyed = λ e. cc;
}

abbrev first_call : Calls.Run
first_call =
    run_at gateway calls request user (codes "{}") call_request (round_at 50 ∷ []) session none 1

abbrev second_call : Calls.Run
second_call =
    run_at gateway calls request user (codes "{}") call_request (round_at 60 ∷ []) session none 1

handle_rpc_call-handle_rpc_call_example :
    ((handle_rpc_call gateway calls second_call request user
        (handle_rpc_call gateway calls first_call request user []).state).sent
      ≡ [])
    × ((handle_rpc_call gateway calls second_call request user
          (handle_rpc_call gateway calls first_call request user []).state).answer
        ≡ some (
            replayed
              (if ran gateway calls request user (codes "{}") call_request session proc
                then 200
                else 500)
              (stored_body Bytes Bytes accepts as_is as_body codecs session proc
                (call_input gateway calls request user (codes "{}") call_request))))
handle_rpc_call-handle_rpc_call_example =
    handle_rpc_call-handle_rpc_call gateway calls request user (codes "{}") call_request proc
      (codes "w1") (round_at 50) (round_at 60) [] [] session session none 1 1 [] dispatched callable
      refl empty (sound 50) (sound 60) (alone 60) (omega arith)

abbrev times : Times
times = record { clock = AuthTests.at_5; limited_at = 10; read_at = 11 }

abbrev guards : Guards AuthTests.keys fixed (assoc ℕ) crypto AuthTests.digest [] AuthTests.find_row
guards = record { cache = AuthTests.cold; limits = new_rate_limit fixed (assoc ℕ) 1000000000 2 }

abbrev role_of : WorkspaceContext → Bytes
role_of ws = ws.pg_role

wraps :
    (wrap AuthTests.keys fixed
      (assoc ℕ)
      crypto
      AuthTests.digest
      []
      AuthTests.find_row
      role_of
      times
      guards
      AuthTests.header).1
    ≡ handled (pos 1) (codes "dbuser")
unfolding wrap middleware limiter_for take_token write bucket_key new_rate_limit new_token_bucket
    allow refill tokens_at
wraps = rw (AuthTests.admits, wrap) refl

wrap-IsAdmitted_example :
    IsAdmitted AuthTests.keys fixed
      (assoc ℕ)
      crypto
      AuthTests.digest
      []
      AuthTests.find_row
      AuthTests.finds_row
      role_of
      times
      guards
      AuthTests.header
      (pos 1)
      (codes "dbuser")
wrap-IsAdmitted_example =
    wrap-IsAdmitted AuthTests.keys fixed (assoc ℕ) crypto AuthTests.digest [] AuthTests.find_row
      AuthTests.finds_row role_of times guards AuthTests.header (pos 1) (codes "dbuser")
      (λ s s' e. e) AuthTests.cold-IsGenuine wraps
