-- ===== src/Sql/Executor/Laws.antt =====
-- What Execute (internal/sql/executor.go) has done where it returns a response.
use agentic_coop_db.Prelude.{
  ℕ, ◌+◌, ◌≤◌, ◌≡◌, ◌↔◌, sym, ap, ◌∙◌, inl, inr, ◌⊎◌, arith, Bool, true, false, Option, none, some,
  List, [], ◌∷◌, ◌++◌, Result, ok, err, Option-cases, Result-cases,
}
use agentic_coop_db.Sql.Errors.{GoError}
use agentic_coop_db.Sql.Validator.{Validated}
use agentic_coop_db.Sql.Executor.{
  ExecutorConfig, Response, ExecuteInput, Database, Executed, read_rows, run_and_commit, execute,
}
use agentic_coop_db.Tenant.{Stmt, is_safe_role_name, setup, SetupError}
use agentic_coop_db.Tenant.Setup.{always, if_safe, setup_sound}

abbrev pub succeeded {ℓ κ} : {E : Type ℓ} {A : Type κ} → Result E A → Bool
succeeded (ok a) = true
succeeded (err e) = false

module _ {Value : Type 0} (row_bytes : List Value → ℕ) (cfg : ExecutorConfig)
    (db : Database Value) where
  -- The bytes that the code counts for rows.
  abbrev pub total : List (List Value) → ℕ
  total [] = 0
  total (values ∷ rows) = row_bytes values + 1 + total rows

  abbrev pub all_ok : List (List Value) → List (Result GoError (List Value))
  all_ok [] = []
  all_ok (values ∷ rows) = ok values ∷ all_ok rows

  read_cons :
      (n : ℕ) (values : List Value) (rows : List (Result GoError (List Value)))
      (out : List (List Value))
      → read_rows row_bytes cfg db n (ok values ∷ rows) ≡ ok out
      → (rest : List (List Value)) × (out ≡ values ∷ rest)
        × (read_rows row_bytes cfg db (n + row_bytes values + 1) rows ≡ ok rest)
        × ((cfg.max_response_bytes ≡ 0) ⊎ (n + row_bytes values + 1 ≤ cfg.max_response_bytes))
  unfolding read_rows
  read_cons n values rows out h =
      elim (Result-cases (read_rows row_bytes cfg db (n + row_bytes values + 1) rows)) [
        | inl (rest, e) ↦ (rest, ground arith, e, ground arith)
        | inr (e, q) ↦ ground arith
      ]

  read_sound :
      (n : ℕ) (rows : List (Result GoError (List Value))) (out : List (List Value))
      → read_rows row_bytes cfg db n rows ≡ ok out
      → (cfg.max_response_bytes ≡ 0) ⊎ (n ≤ cfg.max_response_bytes)
      → (rows ≡ all_ok out)
        × (db.rows_error ≡ none)
        × ((cfg.max_response_bytes ≡ 0) ⊎ (n + total out ≤ cfg.max_response_bytes))
  unfolding read_rows
  read_sound n [] [] h fits = ground arith
  read_sound n [] (v ∷ out) h fits = ground arith
  read_sound n (err e ∷ rows) out h fits = cc
  read_sound n (ok values ∷ rows) out h fits =
      let (rest, same, h', fits') = read_cons n values rows out h in
      let (rows_ok, no_error, bound) = read_sound (n + row_bytes values + 1) rows rest h' fits' in
      rw same (ap (◌∷◌ (ok values)) rows_ok, no_error, ground arith)

  read_complete :
      (n : ℕ) (out : List (List Value))
      → db.rows_error ≡ none
      → (cfg.max_response_bytes ≡ 0) ⊎ (n + total out ≤ cfg.max_response_bytes)
      → read_rows row_bytes cfg db n (all_ok out) ≡ ok out
  unfolding read_rows
  read_complete n [] no_error fits = ground arith
  read_complete n (values ∷ out) no_error fits =
      ground (arith, read_complete (n + row_bytes values + 1) out no_error)

  -- The loop over the rows returns rows exactly where they are all the rows of the query, none of
  -- them and not the end failed, and their counted bytes are within the limit, if there is one.
  pub read_rows_iff :
      (rows : List (Result GoError (List Value))) (out : List (List Value))
      → (read_rows row_bytes cfg db 0 rows ≡ ok out) ↔ (
          (rows ≡ all_ok out)
          × (db.rows_error ≡ none)
          × ((cfg.max_response_bytes ≡ 0) ⊎ (total out ≤ cfg.max_response_bytes)))
  read_rows_iff rows out = (
    (λ h.
        let (same, no_error, fits) = read_sound 0 rows out h (inr (omega arith)) in
        (same, no_error, ground arith)),
    (λ (same, no_error, fits).
        let fits' : (cfg.max_response_bytes ≡ 0) ⊎ (0 + total out ≤ cfg.max_response_bytes) =
          ground arith in
        rw same (read_complete 0 out no_error fits')),
  )

  module _ (input : ExecuteInput) where
    abbrev executed : Executed Value
    executed = execute row_bytes cfg db input

    abbrev prepared : List Stmt × Option (SetupError GoError)
    prepared =
        setup db.setup_exec [] input.workspace_id input.pg_role cfg.statement_timeout
          cfg.idle_in_tx_timeout

    abbrev user_stmt : Stmt
    user_stmt = record { text = input.sql; args = input.params }

    execute_open :
        (resp : Response Value)
        → executed.result ≡ ok resp
        → (r : Validated) × (input.result ≡ some r)
          × (prepared.1 ≡ none)
          × (executed ≡ run_and_commit row_bytes cfg db r user_stmt prepared.0)
    unfolding execute
    execute_open resp h = elim (Option-cases input.result) [
      | inl e ↦ ground arith
      | inr (r, e) ↦ elim (Option-cases prepared.1) [
        | inl f ↦ (r, e, f, ground arith)
        | inr (x, f) ↦ ground arith
      ]
    ]

    commit_ok :
        (r : Validated) (sent : List Stmt) (resp : Response Value)
        → (run_and_commit row_bytes cfg db r user_stmt sent).result ≡ ok resp
        → ((run_and_commit row_bytes cfg db r user_stmt sent).sent ≡ sent ++ (user_stmt ∷ []))
          × ((run_and_commit row_bytes cfg db r user_stmt sent).committed ≡ true)
          × (resp.command ≡ r.command)
    unfolding run_and_commit
    commit_ok r sent resp h = ground arith

    -- A response is returned only for a statement that was validated, and after exactly the
    -- statements that bind the transaction to the workspace and the role, whose name is safe, then
    -- the statement with its parameters, and a commit; its command is the one that was validated.
    pub execute_sound :
        (resp : Response Value)
        → (execute row_bytes cfg db input).result ≡ ok resp
        → (r : Validated) × (input.result ≡ some r)
          × (is_safe_role_name input.pg_role ≡ true)
          × ((execute row_bytes cfg db input).sent
              ≡ (always cfg.statement_timeout cfg.idle_in_tx_timeout input.workspace_id
                  ++ if_safe input.pg_role)
                ++ (record { text = input.sql; args = input.params } ∷ []))
          × ((execute row_bytes cfg db input).committed ≡ true)
          × (resp.command ≡ r.command)
    execute_sound resp h =
        let (r, validated, done, same) = execute_open resp h in
        let (_, safe, sent) =
          setup_sound db.setup_exec input.workspace_id input.pg_role cfg.statement_timeout
            cfg.idle_in_tx_timeout done in
        let (all, committed, command) =
          commit_ok r prepared.0 resp (sym (ap (λ x. x.result) same) ∙ h) in
        (
          r,
          validated,
          safe,
          ap (λ x. x.sent) same ∙ all ∙ ap (λ x. x ++ (user_stmt ∷ [])) sent,
          ap (λ x. x.committed) same ∙ committed,
          command,
        )

    -- The transaction is committed exactly where Execute returns a response.
    pub execute_committed_iff :
        ((execute row_bytes cfg db input).committed ≡ true)
        ↔ (succeeded (execute row_bytes cfg db input).result ≡ true)
    unfolding execute run_and_commit
    execute_committed_iff = ground arith
