-- ===== src/Tenant/Setup.antt =====
-- What Setup (internal/tenant/tenant.go) sends: on success all five statements and in their order,
-- and the name of a role only where the server reads it back as that one identifier.
use agentic_coop_db.Prelude.{
  ℕ, ◌≡◌, ◌≢◌, refl, sym, ap, ◌∙◌, ◌⊎◌, inl, inr, arith, true, false, Option, none, some, List, [],
  ◌∷◌, ◌++◌, Bytes, codes, bytes_eq, bytes_eq_iff, bytes_eq_refl, nat_eq, if◌then◌else◌, Bool-cases,
  Option-cases, cut_prefix, cut_prefix-append, append_assoc, append-nil,
}
use agentic_coop_db.Tenant.{
  Stmt, SetupError, is_safe_byte, all_safe, is_safe_role_name, statement_timeout_stmt,
  idle_timeout_stmt, workspace_stmt, role_stmt, search_path_stmt, send, setup,
}

abbrev in_front : ℕ → Option (Bytes × Bytes) → Option (Bytes × Bytes)
in_front c none = none
in_front c (some (name, rest)) = some (c ∷ name, rest)

-- The scanner of PostgreSQL behind the opening quote of a quoted identifier: two quotes are one quote
-- of the name, and one quote ends it. The name and the text behind it.
abbrev pub quoted_ident : Bytes → Option (Bytes × Bytes)
quoted_ident [] = none
quoted_ident (c ∷ []) = if nat_eq c b'"' then some ([], []) else none
quoted_ident (c ∷ d ∷ s) =
    let rest = quoted_ident (d ∷ s) in
    let skipped = quoted_ident s in
    if nat_eq c b'"'
    then (if nat_eq d b'"' then in_front b'"' skipped else some ([], d ∷ s))
    else in_front c rest

-- The role that a text SET LOCAL ROLE "…" names, if nothing stands behind it.
abbrev only : Option (Bytes × Bytes) → Option Bytes
only none = none
only (some (name, [])) = some name
only (some (name, c ∷ s)) = none

abbrev role_behind : Option Bytes → Option Bytes
role_behind none = none
role_behind (some rest) = only (quoted_ident rest)

abbrev pub role_named : Bytes → Option Bytes
role_named text = role_behind (cut_prefix (codes "SET LOCAL ROLE \"") text)

unquoted : (c : ℕ) → is_safe_byte c ≡ true → nat_eq c b'"' ≡ false
unfolding is_safe_byte
unquoted c h = ground arith

quoted_ident-append :
    (c : ℕ) (s : Bytes)
    → all_safe (c ∷ s) ≡ true
    → quoted_ident (c ∷ (s ++ (b'"' ∷ []))) ≡ some (c ∷ s, [])
unfolding all_safe
quoted_ident-append c [] h = let e : is_safe_byte c ≡ true = ground arith in rw (unquoted c e)
quoted_ident-append c (d ∷ s) h =
    let e : is_safe_byte c ≡ true = ground arith in
    let safe : all_safe (d ∷ s) ≡ true = ground arith in
    rw (unquoted c e, quoted_ident-append d s safe)

-- A name that isSafeRoleName accepts is read back from the statement as it is: the text holds no
-- other identifier and nothing behind it.
pub role_named-role_stmt :
    (role : Bytes) → is_safe_role_name role ≡ true → role_named (role_stmt role).text ≡ some role
unfolding is_safe_role_name role_stmt
role_named-role_stmt [] h = ground arith
role_named-role_stmt (c ∷ s) h =
    rw
      (
        cut_prefix-append (codes "SET LOCAL ROLE \"") ((c ∷ s) ++ (b'"' ∷ [])),
        quoted_ident-append c s (ground arith),
      )
      refl

abbrev pub always : ℕ → ℕ → Bytes → List Stmt
always stmt_timeout idle_timeout workspace_id =
    statement_timeout_stmt stmt_timeout
    ∷ idle_timeout_stmt idle_timeout
    ∷ workspace_stmt workspace_id
    ∷ []

abbrev pub if_safe : Bytes → List Stmt
if_safe pg_role = role_stmt pg_role ∷ search_path_stmt ∷ []

module _ {E : Type 0} (exec : List Stmt → Stmt → Option E) where
  -- What `send` sends, where it succeeds.
  send_all :
      (sent rest : List Stmt)
      → (send exec sent rest).1 ≡ none
      → (send exec sent rest).0 ≡ sent ++ rest
  unfolding send
  send_all sent [] h = sym (append-nil sent)
  send_all sent (s ∷ rest) h = elim (Option-cases (exec sent s)) [
    | inl e ↦
        rw (e, send)
          (send_all (sent ++ (s ∷ [])) rest (rw (e, send) at h) ∙ append_assoc sent (s ∷ []) rest)
    | inr (b, e) ↦ let bad : ◌≡◌ {A = Option E} (some b) none = rw (e, send) at h in cc bad
  ]

  -- Where a statement fails, a first part of the list was sent.
  send_part :
      (sent rest : List Stmt)
      → (unsent : List Stmt) × ((send exec sent rest).0 ++ unsent ≡ sent ++ rest)
  unfolding send
  send_part sent [] = ([], refl)
  send_part sent (s ∷ rest) = elim (Option-cases (exec sent s)) [
    | inl e ↦
        let (unsent, same) = send_part (sent ++ (s ∷ [])) rest in
        rw (e, send) (unsent, same ∙ append_assoc sent (s ∷ []) rest)
    | inr (b, e) ↦ rw (e, send) (rest, append_assoc sent (s ∷ []) rest)
  ]

  module _ (workspace_id pg_role : Bytes) (stmt_timeout idle_timeout : ℕ) where
    abbrev result : List Stmt × Option (SetupError E)
    result = setup exec [] workspace_id pg_role stmt_timeout idle_timeout

    abbrev first : List Stmt × Option E
    first = send exec [] (always stmt_timeout idle_timeout workspace_id)

    setup_none :
        result.1 ≡ none
        → (workspace_id ≢ [])
          × (first.1 ≡ none)
          × (is_safe_role_name pg_role ≡ true)
          × ((send exec first.0 (if_safe pg_role)).1 ≡ none)
          × (result.0 ≡ (send exec first.0 (if_safe pg_role)).0)
    unfolding setup
    setup_none h = ground (arith, bytes_eq_refl workspace_id)

    -- If Setup returns no error, then the workspace is not empty, the role has a safe name, and
    -- exactly the two timeouts, the workspace, the role and the search path were sent, in that order.
    pub setup_sound :
        result.1 ≡ none
        → (workspace_id ≢ [])
          × (is_safe_role_name pg_role ≡ true)
          × (result.0 ≡ always stmt_timeout idle_timeout workspace_id ++ if_safe pg_role)
    setup_sound h =
        let (named, sent, safe, sent', same) = setup_none h in
        (
          named,
          safe,
          same
              ∙ send_all first.0 (if_safe pg_role) sent'
              ∙ ap (λ x. x ++ if_safe pg_role)
                  (send_all [] (always stmt_timeout idle_timeout workspace_id) sent),
        )

    setup_unsafe : is_safe_role_name pg_role ≡ false → (result.0 ≡ []) ⊎ (result.0 ≡ first.0)
    unfolding setup
    setup_unsafe h = elim (Bool-cases (bytes_eq workspace_id [])) [
      | inl e ↦ inl (ground arith)
      | inr e ↦ elim (Bool-cases (bytes_eq pg_role [])) [
        | inl e' ↦ inl (ground arith)
        | inr e' ↦ inr (ground arith)
      ]
    ]

    -- Where the role has no safe name, Setup returns an error, and what it has sent is a first part of
    -- the two timeouts and the workspace: never a statement with the role's name.
    pub setup_refuses :
        is_safe_role_name pg_role ≡ false
        → (result.1 ≢ none)
          × ((unsent : List Stmt) × (result.0 ++ unsent
                ≡ always stmt_timeout idle_timeout workspace_id))
    setup_refuses h = (
      (λ e. let (_, safe, _) = setup_sound e in cc),
      elim (setup_unsafe h) [
        | inl e ↦ (always stmt_timeout idle_timeout workspace_id, rw e refl)
        | inr e ↦
            let (unsent, same) = send_part [] (always stmt_timeout idle_timeout workspace_id) in
            (unsent, rw e same)
      ],
    )

  module _ (answers : (sent : List Stmt) (s : Stmt) → exec sent s ≡ none) where
    send-none : (sent rest : List Stmt) → (send exec sent rest).1 ≡ none
    unfolding send
    send-none sent [] = refl
    send-none sent (s ∷ rest) = rw (answers sent s, send) (send-none (sent ++ (s ∷ [])) rest)

    -- If the server accepts every statement, Setup succeeds for every workspace that is not empty and
    -- every role with a safe name.
    pub setup_complete :
        (workspace_id pg_role : Bytes) (stmt_timeout idle_timeout : ℕ)
        → workspace_id ≢ []
        → is_safe_role_name pg_role ≡ true
        → (setup exec [] workspace_id pg_role stmt_timeout idle_timeout).1 ≡ none
    unfolding setup is_safe_role_name
    setup_complete workspace_id pg_role stmt_timeout idle_timeout named safe =
        let three = always stmt_timeout idle_timeout workspace_id in
        let first = (send exec [] three).0 in
        ground (
          arith,
          bytes_eq_iff workspace_id [],
          bytes_eq_iff pg_role [],
          send-none [] three,
          send-none first (if_safe pg_role),
        )
