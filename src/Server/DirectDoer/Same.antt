-- ===== src/Server/DirectDoer/Same.antt =====
-- The direct doer of cmd/server/direct_doer.go against the REST handler of internal/httpapi/api.go.
use agentic_coop_db.Prelude.{
  ◌≡◌, inl, inr, arith, true, some, [], Bytes, bytes_eq, bytes_eq_refl, ok, Result-cases,
  Option-cases,
}
use agentic_coop_db.Auth.Middleware.{WorkspaceContext}
use agentic_coop_db.Httpapi.Errors.{map_error}
use agentic_coop_db.Httpapi.Api.{Request, Gateway}
use agentic_coop_db.Httpapi.Api.Statements.{
  SqlExecuteRequest, SqlService, Run, run_sql, finish, execute_and_complete, validate_and_execute,
  handle_sql_execute,
}
use agentic_coop_db.Rpc.Idempotency.{Table}
use agentic_coop_db.Server.DirectDoer.{direct_sql_execute, fail}
use agentic_coop_db.Sql.Errors.{validation}
use agentic_coop_db.Sql.Validator.{validate}

module _ {Value : Type 0} (g : Gateway) (s : SqlService Value) (x : Run Value) (r : Request)
    (ws : WorkspaceContext) (body : Bytes) (req : SqlExecuteRequest) (t : Table) where
  -- A statement that comes in through the embedded tools sends exactly what the same statement sends
  -- through the REST handler without an idempotency key, whatever the database answers.
  pub direct-handle :
      (request_id key : Bytes)
      → r.body ≡ ok body
      → s.unmarshal body ≡ ok req
      → r.idempotency_key ≡ []
      → (direct_sql_execute g s x request_id ws req key).sent
        ≡ (handle_sql_execute g s x r ws t).sent
  unfolding direct_sql_execute fail handle_sql_execute validate_and_execute execute_and_complete
  direct-handle request_id key read decoded plain =
      let none_given : bytes_eq r.idempotency_key [] ≡ true = rw plain (bytes_eq_refl []) in
      elim (Result-cases (validate s.parse s.scan s.limits req.sql req.params)) [
        | inr (e, f) ↦ elim (Option-cases (map_error g.text (some (validation e)))) [
          | inl n ↦ ground arith
          | inr (p, n) ↦ ground arith
        ]
        | inl (res, f) ↦ elim (Option-cases (finish g s (run_sql g s x ws req res).result)) [
          | inl n ↦ elim (Result-cases (run_sql g s x ws req res).result) [
            | inl (resp, k) ↦ ground arith
            | inr (e, k) ↦ elim (Option-cases (map_error g.text (some e))) [
              | inl m ↦ ground arith
              | inr (p, m) ↦ ground arith
            ]
          ]
          | inr (fin, n) ↦ elim (Result-cases (run_sql g s x ws req res).result) [
            | inl (resp, k) ↦ ground arith
            | inr (e, k) ↦ elim (Option-cases (map_error g.text (some e))) [
              | inl m ↦ ground arith
              | inr (p, m) ↦ ground arith
            ]
          ]
        ]
      ]
