-- ===== src/Mcp/Client.antt =====
-- internal/mcp/client.go: the HTTP client of the gateway. The transport, net/http's URL check and status
-- texts, and encoding/json are parameters.
pub mod Decoded
use agentic_coop_db.Prelude.{
  ℕ, ◌≤◌, ◌<◌, ◌≡◌, ◌≢◌, ◌↔◌, ◌⊎◌, refl, inl, inr, arith, Bool, true, false, Option, none, some,
  List, [], ◌∷◌, ◌++◌, Bytes, codes, bytes_eq, leb, length, take, ltb, nat_eq, if◌then◌else◌,
  Result, ok, err, Result-cases, List-cases, bytes_eq_iff,
}
use agentic_coop_db.Mcp.Tools.{
  Param, Call, sql_execute, rpc_call, me, health, MeResult, HealthResult, SqlResult, Reply,
  sql_reply, rpc_reply, me_reply, health_reply,
}
use agentic_coop_db.Mcp.Values.{Members, no_members}

pub record GatewayError : Type 0 where
  pub title : Bytes
  pub detail : Bytes
  pub status : ℕ
  pub sqlstate : Bytes

pub data ClientError : Type 0 where
  gateway : GatewayError → ClientError
  failed : Bytes → ClientError

-- GatewayError.Error; the others are their text.
unfoldable pub error_text : ClientError → Bytes
error_text (gateway e) =
    if bytes_eq e.detail [] then e.title else e.title ++ (codes ": " ++ e.detail)
error_text (failed msg) = msg

pub record ClientConfig : Type 0 where
  pub gateway_url : Bytes
  pub api_key : Bytes

pub record Client : Type 0 where
  pub base_url : Bytes
  pub api_key : Bytes
  pub user_agent : Bytes

-- strings.TrimRight(s, "/").
abbrev all_slashes : Bytes → Bool
all_slashes [] = true
all_slashes (c ∷ s) = if nat_eq c b'/' then all_slashes s else false

unfoldable pub trim_right : Bytes → Bytes
trim_right [] = []
trim_right (c ∷ s) = let rest = trim_right s in if all_slashes (c ∷ s) then [] else c ∷ rest

-- A panic is `none`.
unfoldable pub new_client : (version : Bytes) → ClientConfig → Option Client
new_client version cfg =
    if bytes_eq cfg.gateway_url []
    then none
    else if bytes_eq cfg.api_key []
    then none
    else some (record {
      base_url = trim_right cfg.gateway_url;
      api_key = cfg.api_key;
      user_agent = codes "agentic-coop-db-mcp/" ++ version;
    })

pub record HttpRequest : Type 0 where
  pub method : Bytes
  pub url : Bytes
  pub headers : List (Bytes × Bytes)
  pub body : Bytes

-- What the transport returns: a status, and the body or the error of reading it.
pub record HttpResponse : Type 0 where
  pub status : ℕ
  pub body : Result Bytes Bytes

-- 10 << 20.
abbrev pub max_response_size : ℕ
max_response_size = 10485760

unfoldable pub common_headers : Client → List (Bytes × Bytes)
common_headers c =
    (codes "Authorization", codes "Bearer " ++ c.api_key) ∷ (codes "User-Agent", c.user_agent) ∷ []

module _ (transport : HttpRequest → Result Bytes HttpResponse) (valid_url : Bytes → Option Bytes)
    (status_text : ℕ → Bytes) (unmarshal_error : GatewayError → Bytes → GatewayError) where
  -- The error of a status from 400 on.
  unfoldable pub gateway_error : ℕ → Bytes → GatewayError
  gateway_error status body =
      let bare : GatewayError = record {
        title = [];
        detail = [];
        status = status;
        sqlstate = [];
      } in
      let ge = if bytes_eq body [] then bare else unmarshal_error bare body in
      if bytes_eq ge.title [] then record ge { title = status_text status } else ge

  -- `zero` is the value that the destination starts with.
  unfoldable pub decode :
      {A : Type 0} → (Bytes → Result Bytes A) → (zero : A) → ℕ → Bytes → Result ClientError A
  decode unmarshal zero status body =
      if leb 400 status
      then err (gateway (gateway_error status body))
      else if bytes_eq body []
      then ok zero
      else elim (unmarshal body) [
        | err e ↦ err (failed (codes "decode response: " ++ e))
        | ok a ↦ ok a
      ]

  unfoldable pub do_and_decode :
      {A : Type 0} → (Bytes → Result Bytes A) → (zero : A) → HttpRequest → Result ClientError A
  do_and_decode unmarshal zero req = elim (transport req) [
    | err e ↦ err (failed (codes "http request: " ++ e))
    | ok resp ↦ elim resp.body [
      | err e ↦ err (failed (codes "read response: " ++ e))
      | ok body ↦ decode unmarshal zero resp.status (take max_response_size body)
    ]
  ]

  unfoldable pub post :
      {A : Type 0}
      → Client
      → (path : Bytes) → (json_body : Result Bytes Bytes) → (extra : List (Bytes × Bytes))
      → (Bytes → Result Bytes A)
      → (zero : A) → Result ClientError A
  post c path json_body extra unmarshal zero = elim json_body [
    | err e ↦ err (failed (codes "marshal request: " ++ e))
    | ok body ↦ elim (valid_url (c.base_url ++ path)) [
      | some e ↦ err (failed (codes "create request: " ++ e))
      | none ↦ do_and_decode unmarshal zero (record {
        method = codes "POST";
        url = c.base_url ++ path;
        headers = (codes "Content-Type", codes "application/json") ∷ (common_headers c ++ extra);
        body = body;
      })
    ]
  ]

  unfoldable pub get :
      {A : Type 0}
      → Client
      → (path : Bytes) → (Bytes → Result Bytes A)
      → (zero : A) → Result ClientError A
  get c path unmarshal zero = elim (valid_url (c.base_url ++ path)) [
    | some e ↦ err (failed (codes "create request: " ++ e))
    | none ↦ do_and_decode unmarshal zero (record {
      method = codes "GET";
      url = c.base_url ++ path;
      headers = common_headers c;
      body = [];
    })
  ]

  module _ (Number : Type 0)
      (marshal_sql : Bytes → Option (List (Param Number)) → Result Bytes Bytes)
      (marshal_call : Bytes → Option (Members Number) → Result Bytes Bytes)
      (unmarshal_sql : Bytes → Result Bytes (SqlResult Number))
      (unmarshal_map : Bytes → Result Bytes (Members Number))
      (unmarshal_me : Bytes → Result Bytes MeResult) where
    unfoldable pub post_sql :
        Client
        → Bytes
        → Option (List (Param Number))
        → (idempotency_key : Bytes) → Result ClientError (SqlResult Number)
    post_sql c sql params idempotency_key =
        post c (codes "/v1/sql/execute") (marshal_sql sql params)
          (if bytes_eq idempotency_key []
            then []
            else (codes "Idempotency-Key", idempotency_key) ∷ [])
          unmarshal_sql
          (record { command = []; columns = []; rows = []; rows_affected = 0; duration_ms = 0 })

    unfoldable pub post_call :
        Client → Bytes → Option (Members Number) → Result ClientError (Members Number)
    post_call c procedure args =
        post c (codes "/v1/rpc/call") (marshal_call procedure args) [] unmarshal_map no_members

    unfoldable pub get_me : Client → Result ClientError MeResult
    get_me c =
        get c (codes "/v1/me") unmarshal_me
          (record { workspace_id = []; key_id = []; role = []; env = [] })

    -- json.RawMessage takes any valid JSON.
    unfoldable pub check_health :
        (valid_json : Bytes → Result Bytes (Unit {0})) → Client → HealthResult
    check_health valid_json c =
        let healthz = get c (codes "/healthz") valid_json tt in
        let readyz = get c (codes "/readyz") valid_json tt in
        record {
          healthy = elim healthz [ ok _ ↦ true | err _ ↦ false ];
          ready = elim readyz [ ok _ ↦ true | err _ ↦ false ];
          detail = elim healthz [
            | err e ↦ codes "healthz: " ++ error_text e
            | ok _ ↦ elim readyz [ err e ↦ codes "readyz: " ++ error_text e | ok _ ↦ [] ]
          ];
        }
