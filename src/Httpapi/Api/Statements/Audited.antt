-- ===== src/Httpapi/Api/Statements/Audited.antt =====
-- What handleSQLExecute (internal/httpapi/api.go) writes to the audit log.
use agentic_coop_db.Prelude.{
  ℕ, ◌≡◌, refl, sym, ap, ◌∙◌, inl, inr, arith, Option, none, some, List, [], Bytes, bytes_eq, All,
  Option-cases, Result-cases, Bool-cases, String,
}
use mathlib.Core.Path.{subst}
use agentic_coop_db.Audit.{Entry}
use agentic_coop_db.Auth.Middleware.{WorkspaceContext}
use agentic_coop_db.Httpapi.Errors.{map_error}
use agentic_coop_db.Httpapi.Api.{Request, Answer, status_of, Gateway, refused, audit}
use agentic_coop_db.Httpapi.Api.Statements.{
  SqlExecuteRequest, SqlService, Run, finish, run_sql, execute_and_complete, execute_once,
  validate_and_execute, handle_sql_execute,
}
use agentic_coop_db.Rpc.Dispatcher.{day}
use agentic_coop_db.Rpc.Idempotency.Hash.{hash_request}
use agentic_coop_db.Rpc.Idempotency.{Table, begin_or_replay}
use agentic_coop_db.Sql.Errors.{GoError, validation, is_too_large, as_validation}
use agentic_coop_db.Sql.Validator.{Validated, validate}

abbrev pub HasStatus : ℕ → Entry → Type 0
HasStatus status e = e.status_code ≡ status

module _ {Value : Type 0} (g : Gateway) (s : SqlService Value) (x : Run Value) (r : Request)
    (ws : WorkspaceContext) where
  audit_status :
      (endpoint : String) (command sql : Bytes) (params : List Bytes) (ms status : ℕ)
      (failure : Option GoError)
      → All (HasStatus status) (audit g r ws endpoint command sql params ms status failure)
  unfolding audit
  audit_status endpoint command sql params ms status none = elim (Bool-cases g.has_auditor) [
    | inl h ↦ rw h (refl, tt)
    | inr h ↦ rw h tt
  ]
  audit_status endpoint command sql params ms status (some e) = elim (Bool-cases g.has_auditor) [
    | inr h ↦ rw h tt
    | inl h ↦ elim (Option-cases (map_error g.text (some e))) [
      | inl n ↦ rw (h, n) tt
      | inr (p, n) ↦ rw (h, n) (refl, tt)
    ]
  ]

  audited_complete :
      (req : SqlExecuteRequest) (res : Validated) (t : Table) (a : Answer)
      → (execute_and_complete g s x r ws req res t).answer ≡ some a
      → All (HasStatus (status_of a)) (execute_and_complete g s x r ws req res t).audited
  unfolding execute_and_complete
  audited_complete req res t a h =
      elim (Option-cases (finish g s (run_sql g s x ws req res).result)) [
        | inl f ↦ rw (f, All, execute_and_complete) tt
        | inr (f, found) ↦
            let same : f.answer ≡ a = ground arith in
            rw (← same) (rw (found, All, execute_and_complete) (audit_status _ _ _ _ _ _ _))
      ]

  audited_once :
      (req : SqlExecuteRequest) (res : Validated) (hash : Bytes) (t : Table) (a : Answer)
      → (execute_once g s x r ws req res hash t).answer ≡ some a
      → All (HasStatus (status_of a)) (execute_once g s x r ws req res hash t).audited
  unfolding execute_once refused
  audited_once req res hash t a h =
      let begun = begin_or_replay g.codecs x.rounds ws.workspace_id r.idempotency_key hash day t in
      elim (Result-cases begun.1) [
        | inr (e, f) ↦ rw (f, All, execute_once) tt
        | inl (ir, f) ↦ elim (Bool-cases ir.replay) [
          | inl k ↦ rw (f, k, All, execute_once) tt
          | inr k ↦ rw (f, k, All, execute_once) (audited_complete req res begun.0 a (ground arith))
        ]
      ]

  map_validation :
      (e : _)
      → map_error g.text (some (validation e))
        ≡ some (record { title = e.code; status = 400; detail = e.message; sqlstate = [] })
  unfolding map_error is_too_large as_validation
  map_validation e = refl

  audited_validate :
      (body : Bytes) (req : SqlExecuteRequest) (t : Table) (a : Answer)
      → (validate_and_execute g s x r ws body req t).answer ≡ some a
      → All (HasStatus (status_of a)) (validate_and_execute g s x r ws body req t).audited
  unfolding validate_and_execute status_of
  audited_validate body req t a h =
      elim (Result-cases (validate s.parse s.scan s.limits req.sql req.params)) [
        | inr (e, f) ↦
            let status : status_of a ≡ 400 = ground (arith, map_validation e) in
            subst (λ n. All (HasStatus n) (validate_and_execute g s x r ws body req t).audited)
              (sym status) (rw (f, All, validate_and_execute) (audit_status _ _ _ _ _ _ _))
        | inl (res, f) ↦ elim (Bool-cases (bytes_eq r.idempotency_key [])) [
          | inl k ↦
              let same : validate_and_execute g s x r ws body req t
                  ≡ execute_and_complete g s x r ws req res t =
                ground arith in
              rw same (audited_complete req res t a (sym (ap (λ z. z.answer) same) ∙ h))
          | inr k ↦
              let hash = hash_request g.sha256 g.hex r.method r.path body in
              let same : validate_and_execute g s x r ws body req t
                  ≡ execute_once g s x r ws req res hash t =
                ground arith in
              rw same (audited_once req res hash t a (sym (ap (λ z. z.answer) same) ∙ h))
        ]
      ]

  -- Every audit entry that handleSQLExecute writes for a request that it answers has the status that
  -- the client gets.
  pub handle-audited :
      (t : Table) (a : Answer)
      → (handle_sql_execute g s x r ws t).answer ≡ some a
      → All (HasStatus (status_of a)) (handle_sql_execute g s x r ws t).audited
  unfolding handle_sql_execute refused
  handle-audited t a h = elim (Result-cases r.body) [
    | inr (e, f) ↦ rw (f, All, handle_sql_execute) tt
    | inl (body, f) ↦ elim (Result-cases (s.unmarshal body)) [
      | inr (e, k) ↦ rw (f, k, All, handle_sql_execute) tt
      | inl (req, k) ↦
          let same : handle_sql_execute g s x r ws t ≡ validate_and_execute g s x r ws body req t =
            ground arith in
          rw same (audited_validate body req t a (sym (ap (λ z. z.answer) same) ∙ h))
    ]
  ]
