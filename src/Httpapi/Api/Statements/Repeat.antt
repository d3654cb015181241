-- ===== src/Httpapi/Api/Statements/Repeat.antt =====
-- A repeated request for one statement (handleSQLExecute of internal/httpapi/api.go).
use agentic_coop_db.Prelude.{
  ℕ, ◌≤◌, ◌+◌, ◌≡◌, ◌≢◌, refl, sym, ap, ◌∙◌, inl, inr, arith, true, none, some, List, [], ◌∷◌,
  Bytes, bytes_eq_iff, Option-cases, Bool, ok,
}
use agentic_coop_db.Auth.Middleware.{WorkspaceContext}
use agentic_coop_db.Httpapi.Api.{Request, Answer, replayed, status_of, Served, Gateway, content}
use agentic_coop_db.Httpapi.Api.Statements.{
  SqlExecuteRequest, SqlService, Run, finish, run_sql, execute_and_complete, execute_once,
  validate_and_execute, handle_sql_execute,
}
use agentic_coop_db.Rpc.Dispatcher.{day}
use agentic_coop_db.Rpc.Idempotency.Begin.{IsAlone}
use agentic_coop_db.Rpc.Idempotency.{
  Table, Round, begin_or_replay, complete, select, fresh, new_row,
}
use agentic_coop_db.Rpc.Idempotency.Hash.{hash_request}
use agentic_coop_db.Rpc.Idempotency.Replay.{IsSound, begin-complete, begin_taken, select_new}
use agentic_coop_db.Sql.Validator.{Validated, validate}

-- The request passes every check before the idempotency layer, and has a key for it.
pub record IsExecutable {Value : Type 0} (s : SqlService Value) (r : Request) (body : Bytes)
    (req : SqlExecuteRequest) (res : Validated) : Type 0 where
  pub read : r.body ≡ ok body
  pub decoded : s.unmarshal body ≡ ok req
  pub valid : validate s.parse s.scan s.limits req.sql req.params ≡ ok res
  pub keyed : r.idempotency_key ≢ []

module _ {Value : Type 0} (g : Gateway) (s : SqlService Value) (r : Request) (ws : WorkspaceContext)
    (body : Bytes) (req : SqlExecuteRequest) (res : Validated)
    (e : IsExecutable s r body req res) where
  abbrev request_hash : Bytes
  request_hash = hash_request g.sha256 g.hex r.method r.path body

  handle-execute_once :
      (x : Run Value) (t : Table)
      → handle_sql_execute g s x r ws t ≡ execute_once g s x r ws req res request_hash t
  unfolding handle_sql_execute validate_and_execute
  handle-execute_once x t =
      let read = e.read in
      let decoded = e.decoded in
      let valid = e.valid in
      let keyed = e.keyed in ground (arith, bytes_eq_iff r.idempotency_key [])

  once_fresh :
      (x : Run Value) (t t' : Table)
      → begin_or_replay g.codecs x.rounds ws.workspace_id r.idempotency_key request_hash day t
        ≡ (t', ok fresh)
      → execute_once g s x r ws req res request_hash t ≡ execute_and_complete g s x r ws req res t'
  unfolding execute_once
  once_fresh x t t' h = rw (ap (λ z. z.1) h, ap (λ z. z.0) h, execute_once)

  once_replay :
      (x : Run Value) (t : Table) (status : ℕ) (stored : Bytes)
      → (begin_or_replay g.codecs x.rounds ws.workspace_id r.idempotency_key request_hash day t).1
        ≡ ok (record { replay = true; status_code = status; body = stored })
      → ((execute_once g s x r ws req res request_hash t).sent ≡ [])
        × ((execute_once g s x r ws req res request_hash t).answer ≡ some (replayed status stored))
  unfolding execute_once
  once_replay x t status stored h = (rw (h, execute_once), rw (h, execute_once))

  -- A run that is answered: what is sent, and what is stored under the key.
  completes :
      (x : Run Value) (t : Table) (a : Answer)
      → x.complete_error ≡ none
      → (execute_and_complete g s x r ws req res t).answer ≡ some a
      → (was_ok : Bool) × ((execute_and_complete g s x r ws req res t).state
          ≡ (complete g.codecs none ws.workspace_id r.idempotency_key
              (status_of a)
              (content g a)
              was_ok
              t).0)
        × ((execute_and_complete g s x r ws req res t).sent ≡ (run_sql g s x ws req res).sent)
  unfolding execute_and_complete
  completes x t a sound answered =
      elim (Option-cases (finish g s (run_sql g s x ws req res).result)) [
        | inl f ↦ ground arith
        | inr (f, found) ↦
            let same : f.answer ≡ a = ground arith in
            let keyed = e.keyed in
            (f.was_ok, ground (arith, bytes_eq_iff r.idempotency_key []), ground arith)
      ]

  abbrev first : Run Value → Table → Served Table
  first x t = handle_sql_execute g s x r ws t

  -- Two requests with one key, workspace and body, the second within a day of the first, and the first
  -- answered: the first sends the statements of one run of the executor, the second sends none and is
  -- answered with the status and the content that the first was answered with, also where that was an
  -- error or a response too large. This holds if the slot was free, the driver fails in no call of the
  -- table, and no other process writes it in between.
  pub handle-handle :
      (id : Bytes) (x x' : Run Value) (r1 r2 : Round) (rs rs' : List Round) (t : Table) (a : Answer)
      → g.codecs.uuid_parse ws.workspace_id ≡ some id
      → x.rounds ≡ r1 ∷ rs
      → x'.rounds ≡ r2 ∷ rs'
      → x.complete_error ≡ none
      → select id r.idempotency_key (r1.others t) ≡ none
      → IsSound r1
      → IsSound r2
      → IsAlone r2
      → r2.now ≤ r1.db_now + day
      → (handle_sql_execute g s x r ws t).answer ≡ some a
      → ((handle_sql_execute g s x r ws t).sent ≡ (run_sql g s x ws req res).sent)
        × ((handle_sql_execute g s x' r ws (handle_sql_execute g s x r ws t).state).sent ≡ [])
        × ((handle_sql_execute g s x' r ws (handle_sql_execute g s x r ws t).state).answer
            ≡ some (replayed (status_of a) (content g a)))
  unfolding new_row
  handle-handle id x x' r1 r2 rs rs' t a parsed rounds rounds' sound missing ok1 ok2 alone live
        answered =
      let key = r.idempotency_key in
      let row = new_row id key request_hash (r1.db_now + day) in
      let t' = row ∷ r1.others t in
      let begun : begin_or_replay g.codecs x.rounds ws.workspace_id key request_hash day t
          ≡ (t', ok fresh) =
        ap (λ rounds. begin_or_replay g.codecs rounds ws.workspace_id key request_hash day t) rounds
        ∙ begin_taken g.codecs ws.workspace_id id key request_hash day r1 rs t parsed e.keyed
            missing ok1 in
      let ran : handle_sql_execute g s x r ws t ≡ execute_and_complete g s x r ws req res t' =
        handle-execute_once x t ∙ once_fresh x t t' begun in
      let (was_ok, state, sent) =
        completes x t' a sound (sym (ap (λ z. z.answer) ran) ∙ answered) in
      let stored =
        (complete g.codecs none ws.workspace_id key (status_of a) (content g a) was_ok t').0 in
      let again =
        begin-complete g.codecs ws.workspace_id id key request_hash (content g a) (status_of a) day
          was_ok t' row r2 rs' parsed e.keyed
          (select_new g.codecs id key request_hash (r1.db_now + day) (r1.others t)) refl live alone
          ok2 in
      let table : (handle_sql_execute g s x r ws t).state ≡ stored =
        ap (λ z. z.state) ran ∙ state in
      let second = once_replay x' stored (status_of a) (content g a) (rw rounds' again) in
      (
        ap (λ z. z.sent) ran ∙ sent,
        rw table (ap (λ z. z.sent) (handle-execute_once x' stored) ∙ second.0),
        rw table (ap (λ z. z.answer) (handle-execute_once x' stored) ∙ second.1),
      )
