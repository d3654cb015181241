-- ===== src/Httpapi/Api/Statements/Sound.antt =====
-- What an answer of handleSQLExecute (internal/httpapi/api.go) says about the run, and what is audited.
use agentic_coop_db.Prelude.{
  ℕ, ◌≤◌, ◌≡◌, ◌≢◌, refl, sym, ap, ◌∙◌, ◌⊎◌, inl, inr, arith, true, some, [], Bytes, bytes_eq,
  length, Option-cases, Result-cases, Bool-cases, ok, err,
}
use agentic_coop_db.Auth.Middleware.{WorkspaceContext}
use agentic_coop_db.Httpapi.Errors.{map_error}
use agentic_coop_db.Httpapi.Api.{Request, json, Served, Gateway, refused, problem_of}
use agentic_coop_db.Httpapi.Api.Statements.{
  SqlExecuteRequest, SqlService, Run, Finished, finish, run_sql, execute_and_complete, execute_once,
  validate_and_execute, handle_sql_execute, input_of, idempotency_refusal,
}
use agentic_coop_db.Rpc.Idempotency.{Table, StoreError, begin_or_replay}
use agentic_coop_db.Rpc.Dispatcher.{day}
use agentic_coop_db.Rpc.Idempotency.Hash.{hash_request}
use agentic_coop_db.Sql.Executor.{Response}
use agentic_coop_db.Sql.Executor.Laws.{execute_sound}
use agentic_coop_db.Sql.Errors.{validation}
use agentic_coop_db.Sql.Validator.{Validated, validate}
use agentic_coop_db.Tenant.{is_safe_role_name}

module _ {Value : Type 0} (g : Gateway) (s : SqlService Value) (x : Run Value) (r : Request)
    (ws : WorkspaceContext) where
  -- The request was run, and answered with what the database returned.
  pub record IsExecuted (served : Served Table) (status : ℕ) (answer : Bytes) : Type 0 where
    pub body : Bytes
    pub req : SqlExecuteRequest
    pub res : Validated
    pub resp : Response Value
    pub read : r.body ≡ ok body
    pub decoded : s.unmarshal body ≡ ok req
    pub valid : validate s.parse s.scan s.limits req.sql req.params ≡ ok res
    pub ran : (run_sql g s x ws req res).result ≡ ok resp
    pub committed : (run_sql g s x ws req res).committed ≡ true
    pub sent : served.sent ≡ (run_sql g s x ws req res).sent
    pub safe_role : is_safe_role_name ws.pg_role ≡ true
    pub success : status ≡ 200
    pub marshalled : answer ≡ s.marshal resp
    pub fits : (s.max_response_body_bytes ≡ 0) ⊎ (length answer ≤ s.max_response_body_bytes)

  finish_json :
      (result : _) (status : ℕ) (b : Bytes) (f : Finished)
      → finish g s result ≡ some f
      → f.answer ≡ json status b
      → (resp : Response Value) × (result ≡ ok resp)
        × (status ≡ 200)
        × (b ≡ s.marshal resp)
        × ((s.max_response_body_bytes ≡ 0) ⊎ (length b ≤ s.max_response_body_bytes))
  unfolding finish problem_of
  finish_json (err e) status b f h same = elim (Option-cases (map_error g.text (some e))) [
    | inl n ↦ ground arith
    | inr (p, n) ↦ ground arith
  ]
  finish_json (ok resp) status b f h same = (resp, refl, ground arith, ground arith, ground arith)

  complete_json :
      (req : SqlExecuteRequest) (res : Validated) (t : Table) (status : ℕ) (b : Bytes)
      → (execute_and_complete g s x r ws req res t).answer ≡ some (json status b)
      → (f : Finished) × (finish g s (run_sql g s x ws req res).result ≡ some f)
        × (f.answer ≡ json status b)
        × ((execute_and_complete g s x r ws req res t).sent ≡ (run_sql g s x ws req res).sent)
  unfolding execute_and_complete
  complete_json req res t status b h =
      elim (Option-cases (finish g s (run_sql g s x ws req res).result)) [
        | inl f ↦ ground arith
        | inr (f, found) ↦ (f, found, ground arith, ground arith)
      ]

  refusal-ne_json :
      (e : StoreError) (status : ℕ) (b : Bytes)
      → some (idempotency_refusal g s e) ≢ some (json status b)
  unfolding idempotency_refusal problem_of
  refusal-ne_json e status b h = ground arith

  once_json :
      (req : SqlExecuteRequest) (res : Validated) (hash : Bytes) (t : Table) (status : ℕ)
      (b : Bytes)
      → (execute_once g s x r ws req res hash t).answer ≡ some (json status b)
      → (t' : Table) × (execute_once g s x r ws req res hash t
          ≡ execute_and_complete g s x r ws req res t')
  unfolding execute_once refused
  once_json req res hash t status b h =
      let begun = begin_or_replay g.codecs x.rounds ws.workspace_id r.idempotency_key hash day t in
      elim (Result-cases begun.1) [
        | inr (e, f) ↦ absurd (refusal-ne_json e status b (ground arith))
        | inl (ir, f) ↦ (begun.0, ground arith)
      ]

  validate_json :
      (body : Bytes) (req : SqlExecuteRequest) (t : Table) (status : ℕ) (b : Bytes)
      → (validate_and_execute g s x r ws body req t).answer ≡ some (json status b)
      → (res : Validated) × (t' : Table) × (validate s.parse s.scan s.limits req.sql req.params
          ≡ ok res)
        × (validate_and_execute g s x r ws body req t ≡ execute_and_complete g s x r ws req res t')
  unfolding validate_and_execute
  validate_json body req t status b h =
      elim (Result-cases (validate s.parse s.scan s.limits req.sql req.params)) [
        | inr (e, f) ↦ elim (Option-cases (map_error g.text (some (validation e)))) [
          | inl n ↦ ground arith
          | inr (p, n) ↦ ground arith
        ]
        | inl (res, f) ↦ elim (Bool-cases (bytes_eq r.idempotency_key [])) [
          | inl k ↦ (res, t, f, ground arith)
          | inr k ↦
              let hash = hash_request g.sha256 g.hex r.method r.path body in
              let (t', same) = once_json req res hash t status b (ground arith) in
              (res, t', f, ground arith)
        ]
      ]

  handle_json :
      (t : Table) (status : ℕ) (b : Bytes)
      → (handle_sql_execute g s x r ws t).answer ≡ some (json status b)
      → (body : Bytes) × (req : SqlExecuteRequest) × (r.body ≡ ok body)
        × (s.unmarshal body ≡ ok req)
        × (handle_sql_execute g s x r ws t ≡ validate_and_execute g s x r ws body req t)
  unfolding handle_sql_execute refused problem_of
  handle_json t status b h = elim (Result-cases r.body) [
    | inr (e, f) ↦ ground arith
    | inl (body, f) ↦ elim (Result-cases (s.unmarshal body)) [
      | inr (e, k) ↦ ground arith
      | inl (req, k) ↦ (body, req, f, k, ground arith)
    ]
  ]

  -- A JSON answer of its own is given only for a request that was read, decoded and validated, whose
  -- key has a safe role, and whose transaction was committed: the status is 200, the body is what the
  -- database returned and within the limit, and exactly the executor's statements were sent.
  pub handle-IsExecuted :
      (t : Table) (status : ℕ) (b : Bytes)
      → (handle_sql_execute g s x r ws t).answer ≡ some (json status b)
      → IsExecuted (handle_sql_execute g s x r ws t) status b
  unfolding run_sql
  handle-IsExecuted t status b h =
      let (body, req, read, decoded, e1) = handle_json t status b h in
      let (res, t', valid, e2) =
        validate_json body req t status b (sym (ap (λ z. z.answer) e1) ∙ h) in
      let e = e1 ∙ e2 in
      let (f, found, same, sent) =
        complete_json req res t' status b (sym (ap (λ z. z.answer) e) ∙ h) in
      let (resp, ran, success, marshalled, fits) =
        finish_json (run_sql g s x ws req res).result status b f found same in
      let (_, _, safe, _, committed, _) =
        execute_sound s.row_bytes s.executor x.db (input_of ws req res) resp ran in
      record {
        body = body;
        req = req;
        res = res;
        resp = resp;
        read = read;
        decoded = decoded;
        valid = valid;
        ran = ran;
        committed = committed;
        sent = ap (λ z. z.sent) e ∙ sent;
        safe_role = safe;
        success = success;
        marshalled = marshalled;
        fits = fits;
      }
