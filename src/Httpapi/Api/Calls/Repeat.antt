-- ===== src/Httpapi/Api/Calls/Repeat.antt =====
-- A repeated request for one procedure (handleRPCCall of internal/httpapi/api.go).
use agentic_coop_db.Prelude.{
  ℕ, ◌≤◌, ◌+◌, ◌≡◌, ap, ◌∙◌, arith, Bool, Option, none, some, List, [], ◌∷◌, Bytes, ok,
  if◌then◌else◌,
}
use agentic_coop_db.Auth.Middleware.{WorkspaceContext}
use agentic_coop_db.Httpapi.Api.{Request, replayed, Gateway}
use agentic_coop_db.Httpapi.Api.Calls.{
  RpcCallRequest, RpcService, Run, call_input, dispatch, answer_call, handle_rpc_call,
}
use agentic_coop_db.Rpc.Registry.{Procedure}
use agentic_coop_db.Rpc.Dispatcher
use agentic_coop_db.Rpc.Dispatcher.{
  CallInput, CallResult, Session, Called, call, run, is_ok, status_for, stored_body, day,
}
use agentic_coop_db.Rpc.Dispatcher.Repeat.{IsCallable, call-call}
use agentic_coop_db.Rpc.Idempotency.Begin.{IsAlone}
use agentic_coop_db.Rpc.Idempotency.{Table, Round, select}
use agentic_coop_db.Rpc.Idempotency.Replay.{IsSound}

module _ {Args Schema : Type 0} (g : Gateway) (s : RpcService Args Schema) (r : Request)
    (ws : WorkspaceContext) (body : Bytes) (req : RpcCallRequest Args) where
  pub record IsDispatched : Type 0 where
    pub read : r.body ≡ ok body
    pub decoded : s.unmarshal body ≡ ok req

  abbrev pub run_at : List Round → Session → Option Bytes → ℕ → Run
  run_at rounds session complete_error elapsed_ms = record {
    rounds = rounds;
    session = session;
    complete_error = complete_error;
    elapsed_ms = elapsed_ms;
  }

  handle-answer_call :
      (x : Run) (t : Table)
      → IsDispatched
      → handle_rpc_call g s x r ws t
        ≡ answer_call g s x r ws req (dispatch g s x (call_input g s r ws body req) t)
  unfolding handle_rpc_call
  handle-answer_call x t d = let read = d.read in let decoded = d.decoded in ground arith

  answer_sent : (x : Run) (called : Called) → (answer_call g s x r ws req called).sent ≡ called.sent
  unfolding answer_call
  answer_sent x called = ground arith

  answer_state :
      (x : Run) (called : Called) → (answer_call g s x r ws req called).state ≡ called.table
  unfolding answer_call
  answer_state x called = ground arith

  abbrev pub ran : Session → Procedure Schema → Bool
  ran session proc =
      is_ok Args Schema s.validate_schema s.marshal_args s.marshal_body g.codecs
        (run Args Schema s.validate_schema s.marshal_args s.marshal_body g.codecs session proc
          (call_input g s r ws body req)).result

  status_if :
      (b : Bool)
      → status_for Args Schema s.validate_schema s.marshal_args s.marshal_body g.codecs b
        ≡ (if b then 200 else 500)
  status_if b = ground arith

  answer_replay :
      (x : Run) (called : Called) (status : ℕ) (stored : Bytes)
      → called.result
        ≡ ok (
            Dispatcher.replayed Args Schema s.validate_schema s.marshal_args s.marshal_body g.codecs
              status stored)
      → (answer_call g s x r ws req called).answer ≡ some (replayed status stored)
  unfolding answer_call
  answer_replay x called status stored h = rw (h, answer_call)

  -- Two requests for one procedure with one key, workspace and body, the second within a day of the
  -- first: the second sends nothing to the database and is answered with the stored document of the
  -- first run, with status 200 if that run succeeded and 500 if not, whatever status the first request
  -- was answered with. This holds if the slot was free, the driver fails in no call of the table, and
  -- no other process writes it in between.
  pub handle_rpc_call-handle_rpc_call :
      (proc : Procedure Schema) (id : Bytes) (r1 r2 : Round) (rs rs' : List Round)
      (session session' : Session) (e : Option Bytes) (ms ms' : ℕ) (t : Table)
      → IsDispatched
      → IsCallable Args Schema s.validate_schema s.marshal_args s.marshal_body g.codecs s.registry
          (call_input g s r ws body req)
          proc
      → g.codecs.uuid_parse ws.workspace_id ≡ some id
      → select id r.idempotency_key (r1.others t) ≡ none
      → IsSound r1
      → IsSound r2
      → IsAlone r2
      → r2.now ≤ r1.db_now + day
      → ((handle_rpc_call g s
            (run_at (r2 ∷ rs') session' e ms')
            r
            ws
            (handle_rpc_call g s (run_at (r1 ∷ rs) session none ms) r ws t).state).sent
          ≡ [])
        × ((handle_rpc_call g s
              (run_at (r2 ∷ rs') session' e ms')
              r
              ws
              (handle_rpc_call g s (run_at (r1 ∷ rs) session none ms) r ws t).state).answer
            ≡ some (
                replayed (if ran session proc then 200 else 500) (
                  stored_body Args Schema s.validate_schema s.marshal_args s.marshal_body g.codecs
                    session proc
                    (call_input g s r ws body req))))
  unfolding dispatch call_input
  handle_rpc_call-handle_rpc_call proc id r1 r2 rs rs' session session' e ms ms' t d callable parsed
        missing ok1 ok2 alone live =
      let x = run_at (r1 ∷ rs) session none ms in
      let x' = run_at (r2 ∷ rs') session' e ms' in
      let input = call_input g s r ws body req in
      let first = dispatch g s x input t in
      let (_, sent, result) =
        call-call Args Schema s.validate_schema s.marshal_args s.marshal_body g.codecs s.registry
          input proc callable id r1 r2 rs rs' session session' e t parsed missing ok1 ok2 alone
          live in
      let state : (handle_rpc_call g s x r ws t).state ≡ first.table =
        ap (λ z. z.state) (handle-answer_call x t d) ∙ answer_state x first in
      let again = handle-answer_call x' first.table d in
      let second = dispatch g s x' input first.table in
      (
        rw state (ap (λ z. z.sent) again ∙ answer_sent x' second ∙ sent),
        rw state (
            ap (λ z. z.answer) again
            ∙ answer_replay x' second _ _ result
            ∙ ap
                (λ n. some (
                  replayed n (
                    stored_body Args Schema s.validate_schema s.marshal_args s.marshal_body g.codecs
                      session proc input)))
                (status_if (ran session proc))),
      )
