-- ===== src/Db/Migrate/Password.antt =====
-- What SetRolePassword of internal/db/migrate.go sends, and what it says when it fails.
use agentic_coop_db.Prelude.{
  ℕ, ◌≡◌, ◌≢◌, refl, ap, ◌∙◌, inl, inr, arith, true, false, Option, none, some, List, [], ◌∷◌, ◌++◌,
  Bytes, codes, nat_eq, nat_eq_iff, bytes_eq_iff, Bool-cases, if◌then◌else◌, Result-cases,
  Option-cases,
}
use agentic_coop_db.Db.Migrate.{
  World, Conn, is_safe_ident, escape_quotes, alter_role_sql, alter_role, set_role_password,
  inject_password, redact_secrets, redacted, has_sub, url_password,
}
use agentic_coop_db.Db.Migrate.Redact.{IsApart, redact_text_hides}

abbrev in_front : ℕ → Option (Bytes × Bytes) → Option (Bytes × Bytes)
in_front c none = none
in_front c (some (text, rest)) = some (c ∷ text, rest)

-- The scanner of PostgreSQL behind the quote that opens a string, with standard_conforming_strings:
-- two quotes are one of the text, and a single one ends it. The text and what is behind it.
abbrev pub string_literal : Bytes → Option (Bytes × Bytes)
string_literal [] = none
string_literal (c ∷ []) = if nat_eq c b'\'' then some ([], []) else none
string_literal (c ∷ d ∷ s) =
    let rest = string_literal (d ∷ s) in
    let skipped = string_literal s in
    if nat_eq c b'\''
    then (if nat_eq d b'\'' then in_front b'\'' skipped else some ([], d ∷ s))
    else in_front c rest

string_literal_other :
    (c : ℕ) (r : Bytes)
    → r ≢ []
    → nat_eq c b'\'' ≡ false
    → string_literal (c ∷ r) ≡ in_front c (string_literal r)
string_literal_other c [] some_left h = absurd (some_left refl)
string_literal_other c (d ∷ s) some_left h = rw h

append-ne-nil : (s : Bytes) (c : ℕ) → s ++ (c ∷ []) ≢ []
append-ne-nil [] c e = cc
append-ne-nil (x ∷ s) c e = cc

module _ (w : World) where
  -- A password is read back as it is, whatever quotes it holds, and nothing of it stands behind.
  pub string_literal-escape_quotes :
      (password : Bytes)
      → string_literal (escape_quotes w password ++ (b'\'' ∷ [])) ≡ some (password, [])
  unfolding escape_quotes
  string_literal-escape_quotes [] = refl
  string_literal-escape_quotes (c ∷ s) = elim (Bool-cases (nat_eq c b'\'')) [
    | inl e ↦
        let same : c ≡ b'\'' = (nat_eq_iff c b'\'').0 e in rw (same, string_literal-escape_quotes s)
    | inr e ↦
        let rest = escape_quotes w s ++ (b'\'' ∷ []) in
        rw e (
          string_literal_other c rest (append-ne-nil (escape_quotes w s) b'\'') e
          ∙ ap (in_front c) (string_literal-escape_quotes s))
  ]

  module _ (conn : Conn w) (raw owner_password role new_password : Bytes) where
    pub record IsAltered (stmt : Bytes) : Type 0 where
      pub safe_role : is_safe_ident role ≡ true
      pub not_empty : new_password ≢ []
      pub literal : Bytes
      pub text :
          stmt ≡ codes "ALTER ROLE " ++ (w.quote role ++ (codes " WITH PASSWORD '" ++ literal))
      pub read : string_literal literal ≡ some (new_password, [])

    -- A statement is sent only for a safe role and a password that is not empty, and it is the one
    -- ALTER ROLE whose string PostgreSQL reads as exactly that password, with nothing behind it.
    pub set_role_password-IsAltered :
        (stmt : Bytes) (rest : List Bytes)
        → (set_role_password w conn raw owner_password role new_password).0 ≡ stmt ∷ rest
        → (rest ≡ []) × IsAltered stmt
    unfolding set_role_password alter_role alter_role_sql
    set_role_password-IsAltered stmt rest h =
        elim (Result-cases (inject_password w raw owner_password)) [
          | inr (e, f) ↦ ground arith
          | inl (final, f) ↦ elim (Option-cases (conn.connect final)) [
            | inr (e, k) ↦ ground arith
            | inl k ↦ (
              ground arith,
              record {
                safe_role = ground arith;
                not_empty = ground (arith, bytes_eq_iff new_password []);
                literal = escape_quotes w new_password ++ (b'\'' ∷ []);
                text = ground arith;
                read = string_literal-escape_quotes new_password;
              },
            )
          ]
        ]

  -- The error that is returned never holds the new password, if that shares no byte with the word
  -- REDACTED, whatever the driver put into its error and whatever the other two secrets are.
  pub set_role_password_hides :
      (conn : Conn w) (raw owner_password role : Bytes) (p : ℕ) (ps message : Bytes)
      → IsApart redacted (p ∷ ps)
      → (set_role_password w conn raw owner_password role (p ∷ ps)).1 ≡ some message
      → has_sub (p ∷ ps) message ≡ false
  unfolding set_role_password redact_secrets
  set_role_password_hides conn raw owner_password role p ps message a h =
      elim (Option-cases (alter_role w conn raw owner_password role (p ∷ ps)).1) [
        | inl e ↦ ground arith
        | inr (msg, e) ↦
            let secrets = owner_password ∷ (p ∷ ps) ∷ url_password w raw ∷ [] in
            let hidden = redact_text_hides msg secrets 1 p ps refl a in ground arith
      ]
