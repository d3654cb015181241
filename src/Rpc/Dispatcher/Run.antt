-- ===== src/Rpc/Dispatcher/Run.antt =====
-- The transaction of one run (internal/rpc/dispatcher.go over internal/tenant/tenant.go).
use agentic_coop_db.Prelude.{
  ℕ, ◌≡◌, ◌≢◌, ◌↔◌, sym, ap, ◌∙◌, inl, inr, arith, true, Option, none, List, [], ◌∷◌, ◌++◌, Bytes,
  Result, ok, err, Option-cases, Result-cases,
}
use agentic_coop_db.Rpc.Registry.{Procedure}
use agentic_coop_db.Rpc.Dispatcher.{CallInput, Session, Ran, query_and_commit, run, is_ok}
use agentic_coop_db.Rpc.Idempotency.{Codecs}
use agentic_coop_db.Tenant.{Stmt, is_safe_role_name, setup, SetupError}
use agentic_coop_db.Tenant.Setup.{always, if_safe, setup_sound}

module _ (Args Schema : Type 0) (validate_schema : Schema → Args → Option Bytes)
    (marshal_args : Args → Result Bytes Bytes) (marshal_body : Bytes → Option Bytes → ℕ → Bytes)
    (c : Codecs) (s : Session) (proc : Procedure Schema) (input : CallInput Args) where
  abbrev ran : Ran
  ran = run Args Schema validate_schema marshal_args marshal_body c s proc input

  abbrev prepared : List Stmt × Option (SetupError Bytes)
  prepared =
      setup s.exec [] input.workspace_id input.pg_role input.statement_timeout
        input.idle_in_tx_timeout

  run_none :
      (raw : Bytes)
      → ran.result ≡ ok raw
      → (prepared.1 ≡ none)
        × (ran
            ≡ query_and_commit Args Schema validate_schema marshal_args marshal_body c s proc input
                prepared.0)
  unfolding run
  run_none raw h = elim (Option-cases prepared.1) [
    | inl e ↦ ground arith
    | inr (f, e) ↦ ground arith
  ]

  query_ok :
      (sent : List Stmt) (raw args_json : Bytes)
      → marshal_args input.args ≡ ok args_json
      → (query_and_commit Args Schema validate_schema marshal_args marshal_body c s proc input
          sent).result
        ≡ ok raw
      → ((query_and_commit Args Schema validate_schema marshal_args marshal_body c s proc input
            sent).sent
          ≡ sent ++ (record { text = proc.body; args = args_json ∷ [] } ∷ []))
        × ((query_and_commit Args Schema validate_schema marshal_args marshal_body c s proc input
              sent).committed
            ≡ true)
  unfolding query_and_commit
  query_ok sent raw args_json m h = ground arith

  query_failed :
      (sent : List Stmt) (raw e : Bytes)
      → marshal_args input.args ≡ err e
      → (query_and_commit Args Schema validate_schema marshal_args marshal_body c s proc input
          sent).result
        ≢ ok raw
  unfolding query_and_commit
  query_failed sent raw e m h = ground arith

  -- A run without error has sent the body of the procedure, with the arguments as its parameter,
  -- only after the transaction was bound to the workspace and the role of the call, whose name is
  -- safe, and has committed.
  pub run_sound :
      (raw : Bytes)
      → (run Args Schema validate_schema marshal_args marshal_body c s proc input).result ≡ ok raw
      → (args_json : Bytes) × (marshal_args input.args ≡ ok args_json)
        × (is_safe_role_name input.pg_role ≡ true)
        × ((run Args Schema validate_schema marshal_args marshal_body c s proc input).sent
            ≡ (always input.statement_timeout input.idle_in_tx_timeout input.workspace_id
                ++ if_safe input.pg_role)
              ++ (record { text = proc.body; args = args_json ∷ [] } ∷ []))
        × ((run Args Schema validate_schema marshal_args marshal_body c s proc input).committed
            ≡ true)
  run_sound raw h =
      let (done, same) = run_none raw h in
      let (_, safe, sent) =
        setup_sound s.exec input.workspace_id input.pg_role input.statement_timeout
          input.idle_in_tx_timeout done in
      let h' = sym (ap (λ r. r.result) same) ∙ h in
      elim (Result-cases (marshal_args input.args)) [
        | inr (e, m) ↦ absurd (query_failed prepared.0 raw e m h')
        | inl (args_json, m) ↦
            let (all, committed) = query_ok prepared.0 raw args_json m h' in
            (
              args_json,
              m,
              safe,
              ap (λ r. r.sent) same
                  ∙ all
                  ∙ ap (λ x. x ++ (record { text = proc.body; args = args_json ∷ [] } ∷ [])) sent,
              ap (λ r. r.committed) same ∙ committed,
            )
      ]

  -- A transaction is committed exactly where the run has no error.
  pub run_committed_iff :
      ((run Args Schema validate_schema marshal_args marshal_body c s proc input).committed ≡ true)
      ↔ (is_ok Args Schema validate_schema marshal_args marshal_body c
            (run Args Schema validate_schema marshal_args marshal_body c s proc input).result
          ≡ true)
  unfolding run query_and_commit
  run_committed_iff = ground arith
