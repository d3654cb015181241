-- ===== src/Rpc/Dispatcher/Repeat.antt =====
-- A repeated call with one idempotency key (internal/rpc/dispatcher.go over
-- internal/rpc/idempotency.go).
use agentic_coop_db.Prelude.{
  ℕ, ◌+◌, ◌≤◌, ◌≡◌, ◌≢◌, refl, ap, ◌∙◌, ◌⊎◌, arith, true, Option, none, some, List, [], ◌∷◌, Bytes,
  bytes_eq_iff, Result, ok,
}
use agentic_coop_db.Rpc.Registry
use agentic_coop_db.Rpc.Registry.{Procedure, Registry}
use agentic_coop_db.Rpc.Dispatcher.{
  CallInput, Session, call, call_idempotent, run_and_complete, run, is_ok, status_for, stored_body,
  replayed, day,
}
use agentic_coop_db.Rpc.Idempotency.{
  Table, Codecs, Round, begin_or_replay, complete, select, fresh, new_row,
}
use agentic_coop_db.Rpc.Idempotency.Begin.{IsAlone, begin_empty}
use agentic_coop_db.Rpc.Idempotency.Replay.{IsSound, begin-parsed, begin-complete, select_new}

module _ (Args Schema : Type 0) (validate_schema : Schema → Args → Option Bytes)
    (marshal_args : Args → Result Bytes Bytes) (marshal_body : Bytes → Option Bytes → ℕ → Bytes)
    (c : Codecs) where
  -- The call passes every check before the idempotency layer, and has a key for it.
  pub record IsCallable (registry : Registry Schema) (input : CallInput Args)
      (proc : Procedure Schema) : Type 0 where
    pub found : Registry.get Schema registry input.name ≡ some proc
    pub permitted : (proc.required_role ≡ []) ⊎ (proc.required_role ≡ input.pg_role)
    pub schema : Schema
    pub has_schema : proc.schema ≡ some schema
    pub valid : validate_schema schema input.args ≡ none
    pub keyed : input.idempotency_key ≢ []

  module _ (registry : Registry Schema) (input : CallInput Args) (proc : Procedure Schema)
      (callable : IsCallable registry input proc) where
    call-idempotent :
        (rounds : List Round) (s : Session) (complete_error : Option Bytes) (t : Table)
        → call Args Schema validate_schema marshal_args marshal_body c registry rounds s
            complete_error input t
          ≡ call_idempotent Args Schema validate_schema marshal_args marshal_body c rounds s
              complete_error proc input t
    unfolding call
    call-idempotent rounds s complete_error t =
        let found = callable.found in
        let permitted = callable.permitted in
        let has_schema = callable.has_schema in
        let valid = callable.valid in
        let keyed = callable.keyed in
        ground (
          arith,
          bytes_eq_iff proc.required_role [],
          bytes_eq_iff proc.required_role input.pg_role,
          bytes_eq_iff input.idempotency_key [],
        )

    -- A call that the idempotency layer lets through.
    call_fresh :
        (rounds : List Round) (s : Session) (t t' : Table)
        → begin_or_replay c rounds input.workspace_id input.idempotency_key input.request_hash day t
          ≡ (t', ok fresh)
        → (((call_idempotent Args Schema validate_schema marshal_args marshal_body c rounds s none
                proc input t).sent
              ≡ (run Args Schema validate_schema marshal_args marshal_body c s proc input).sent)
            × ((call_idempotent Args Schema validate_schema marshal_args marshal_body c rounds s
                  none proc input t).table
                ≡ (complete c none input.workspace_id input.idempotency_key
                    (status_for Args Schema validate_schema marshal_args marshal_body c (
                      is_ok Args Schema validate_schema marshal_args marshal_body c
                        (run Args Schema validate_schema marshal_args marshal_body c s proc
                          input).result))
                    (stored_body Args Schema validate_schema marshal_args marshal_body c s proc
                      input)
                    (is_ok Args Schema validate_schema marshal_args marshal_body c
                      (run Args Schema validate_schema marshal_args marshal_body c s proc
                        input).result)
                    t').0))
    unfolding call_idempotent run_and_complete
    call_fresh rounds s t t' e =
        let keyed = callable.keyed in
        rw (e, call_idempotent) (ground (arith, bytes_eq_iff input.idempotency_key []))

    call_replay :
        (rounds : List Round) (s : Session) (e : Option Bytes) (t : Table) (status : ℕ)
        (body : Bytes)
        → (begin_or_replay c rounds input.workspace_id input.idempotency_key input.request_hash day
            t).1
          ≡ ok (record { replay = true; status_code = status; body = body })
        → ((call_idempotent Args Schema validate_schema marshal_args marshal_body c rounds s e proc
              input t).sent
            ≡ [])
          × ((call_idempotent Args Schema validate_schema marshal_args marshal_body c rounds s e
                proc input t).result
              ≡ ok (replayed Args Schema validate_schema marshal_args marshal_body c status body))
    unfolding call_idempotent
    call_replay rounds s e t status body h = (rw (h, call_idempotent), rw (h, call_idempotent))

    begin_fresh :
        (ws : Bytes) (round : Round) (rounds : List Round) (t : Table)
        → c.uuid_parse input.workspace_id ≡ some ws
        → select ws input.idempotency_key (round.others t) ≡ none
        → IsSound round
        → begin_or_replay c
            (round ∷ rounds)
            input.workspace_id
            input.idempotency_key
            input.request_hash
            day
            t
          ≡ (
            new_row ws input.idempotency_key input.request_hash (round.db_now + day)
                ∷ round.others t,
            ok fresh,
          )
    begin_fresh ws round rounds t parsed missing sound =
        begin-parsed c (round ∷ rounds) input.workspace_id ws input.idempotency_key
          input.request_hash day t parsed callable.keyed
        ∙ begin_empty c ws input.idempotency_key input.request_hash day round rounds t missing
        ∙ rw (sound.begin_ok, sound.insert_ok, sound.commit_ok)

    -- Two calls with one key, workspace and body, the second within a day of the first: the first
    -- runs the procedure and the second sends no statement, but is answered with the status and body
    -- that the first stored, also where the first failed. This holds if the slot was free, the driver
    -- fails in no call of the table, and no other process writes it in between.
    pub call-call :
        (ws : Bytes) (r1 r2 : Round) (rs rs' : List Round) (s s' : Session) (e : Option Bytes)
        (t : Table)
        → c.uuid_parse input.workspace_id ≡ some ws
        → select ws input.idempotency_key (r1.others t) ≡ none
        → IsSound r1
        → IsSound r2
        → IsAlone r2
        → r2.now ≤ r1.db_now + day
        → ((call Args Schema validate_schema marshal_args marshal_body c registry
              (r1 ∷ rs)
              s
              none
              input
              t).sent
            ≡ (run Args Schema validate_schema marshal_args marshal_body c s proc input).sent)
          × ((call Args Schema validate_schema marshal_args marshal_body c registry
                (r2 ∷ rs')
                s'
                e
                input
                (call Args Schema validate_schema marshal_args marshal_body c registry
                  (r1 ∷ rs)
                  s
                  none
                  input
                  t).table).sent
              ≡ [])
          × ((call Args Schema validate_schema marshal_args marshal_body c registry
                (r2 ∷ rs')
                s'
                e
                input
                (call Args Schema validate_schema marshal_args marshal_body c registry
                  (r1 ∷ rs)
                  s
                  none
                  input
                  t).table).result
              ≡ ok (
                  replayed Args Schema validate_schema marshal_args marshal_body c
                    (status_for Args Schema validate_schema marshal_args marshal_body c (
                      is_ok Args Schema validate_schema marshal_args marshal_body c
                        (run Args Schema validate_schema marshal_args marshal_body c s proc
                          input).result))
                    (stored_body Args Schema validate_schema marshal_args marshal_body c s proc
                      input)))
    unfolding new_row
    call-call ws r1 r2 rs rs' s s' e t parsed missing sound sound' alone live =
        let key = input.idempotency_key in
        let hash = input.request_hash in
        let r = run Args Schema validate_schema marshal_args marshal_body c s proc input in
        let was_ok = is_ok Args Schema validate_schema marshal_args marshal_body c r.result in
        let status = status_for Args Schema validate_schema marshal_args marshal_body c was_ok in
        let body =
          stored_body Args Schema validate_schema marshal_args marshal_body c s proc input in
        let row = new_row ws key hash (r1.db_now + day) in
        let t' = row ∷ r1.others t in
        let (sent, table) =
          call_fresh (r1 ∷ rs) s t t' (begin_fresh ws r1 rs t parsed missing sound) in
        let first = call-idempotent (r1 ∷ rs) s none t in
        let table' = ap (λ x. x.table) first ∙ table in
        let second =
          call_replay (r2 ∷ rs') s' e
            (complete c none input.workspace_id key status body was_ok t').0 status body
            (begin-complete c input.workspace_id ws key hash body status day was_ok t' row r2 rs'
              parsed callable.keyed (select_new c ws key hash (r1.db_now + day) (r1.others t)) refl
              live alone sound') in
        let again =
          call-idempotent (r2 ∷ rs') s' e
            (complete c none input.workspace_id key status body was_ok t').0 in
        (
          ap (λ x. x.sent) first ∙ sent,
          rw table' (ap (λ x. x.sent) again ∙ second.0),
          rw table' (ap (λ x. x.result) again ∙ second.1),
        )
