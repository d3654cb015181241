-- ===== src/Db/Migrate.antt =====
-- internal/db/migrate.go. net/url, the file system, golang-migrate, the connection and fmt's %q are
-- parameters; an error is its text.
pub mod Redact
pub mod Flow
pub mod Password
pub mod Recovered
use agentic_coop_db.Prelude.{
  ℕ, zero, suc, ◌-◌, ℤ, pos, negsuc, Bool, true, false, ◌||◌, Option, none, some, List, [], ◌∷◌,
  ◌++◌, Bytes, codes, bytes_eq, length, ltb, nat_eq, if◌then◌else◌, Result, ok, err, cut_prefix,
  ◌>>=◌, ◌>>◌, reject_if, not,
}
use agentic_coop_db.Auth.Middleware.{itoa}
use agentic_coop_db.Tenant.{all_safe}

unfoldable pub is_safe_ident : Bytes → Bool
is_safe_ident s = if nat_eq (length s) 0 || ltb 63 (length s) then false else all_safe s

-- strings.HasPrefix and strings.Contains, the text looked for first.
abbrev found : Option Bytes → Bool
found none = false
found (some rest) = true

unfoldable pub has_prefix : Bytes → Bytes → Bool
unfolding cut_prefix
has_prefix p s = found (cut_prefix p s)

unfoldable pub has_sub : Bytes → Bytes → Bool
has_sub p [] = has_prefix p []
has_sub p (c ∷ s) = has_prefix p (c ∷ s) || has_sub p s

-- strings.ReplaceAll of a text that is not empty: `skip` bytes belong to a match that was replaced.
unfoldable pub replace_from : (old new : Bytes) → (skip : ℕ) → Bytes → Bytes
replace_from old new skip [] = []
replace_from old new (suc skip) (c ∷ s) = replace_from old new skip s
replace_from old new zero (c ∷ s) =
    let kept = replace_from old new zero s in
    let rest = replace_from old new (length old - 1) s in
    if has_prefix old (c ∷ s) then new ++ rest else c ∷ kept

abbrev pub redacted : Bytes
redacted = codes "REDACTED"

-- The loop over the secrets.
unfoldable pub redact_text : Bytes → List Bytes → Bytes
redact_text msg [] = msg
redact_text msg (s ∷ secrets) =
    if bytes_eq s []
    then redact_text msg secrets
    else if has_sub s msg
    then redact_text (replace_from s redacted 0 msg) secrets
    else redact_text msg secrets

-- A nil error is `none`.
unfoldable pub redact_secrets : Option Bytes → List Bytes → Option Bytes
redact_secrets none secrets = none
redact_secrets (some msg) secrets = some (redact_text msg secrets)

-- url.URL, as far as the code reads it; a user has a name and perhaps a password.
pub record Url : Type 0 where
  pub scheme : Bytes
  pub user : Option (Bytes × Option Bytes)
  pub rest : Bytes

-- What the process and its libraries are asked for.
pub record World : Type 0 where
  pub parse_url : Bytes → Result Bytes Url
  pub print_url : Url → Bytes
  pub quote : Bytes → Bytes
  pub migrations_dir_env : Bytes
  pub is_dir : Bytes → Bool
  pub abs : Bytes → Result Bytes Bytes

abbrev user_password : Option (Bytes × Option Bytes) → Bytes
user_password none = []
user_password (some (name, none)) = []
user_password (some (name, some pw)) = pw

-- `return fmt.Errorf(what + ": %w", err)`.
abbrev pub in_front_of {ℓ} : {A : Type ℓ} → Bytes → Result Bytes A → Result Bytes A
in_front_of what (ok a) = ok a
in_front_of what (err e) = err (what ++ (codes ": " ++ e))

module _ (w : World) where
  unfoldable pub url_password : Bytes → Bytes
  url_password raw = elim (w.parse_url raw) [ err e ↦ [] | ok u ↦ user_password u.user ]

  unfoldable pub inject_password : (raw password : Bytes) → Result Bytes Bytes
  inject_password raw password = if bytes_eq password [] then ok raw else elim (w.parse_url raw) [
    | err e ↦ err e
    | ok u ↦ elim u.user [
      | none ↦
          err (
            codes "URL " ++ (w.quote raw ++ codes " has no user component to attach a password to"))
      | some (name, _) ↦ ok (w.print_url (record u { user = some (name, some password) }))
    ]
  ]

  unfoldable pub rewrite_scheme_for_migrate : Bytes → Result Bytes Bytes
  rewrite_scheme_for_migrate raw = elim (w.parse_url raw) [
    | err e ↦ err e
    | ok u ↦
        if bytes_eq u.scheme (codes "postgres") || bytes_eq u.scheme (codes "postgresql")
        then ok (w.print_url (record u { scheme = codes "pgx5" }))
        else if bytes_eq u.scheme (codes "pgx5")
        then ok (w.print_url u)
        else err (
            codes "unsupported scheme "
            ++ (w.quote u.scheme ++ codes " (expected postgres / postgresql / pgx5)"))
  ]

  unfoldable pub migrations_dir : Result Bytes Bytes
  migrations_dir =
      if not (bytes_eq w.migrations_dir_env [])
      then ok w.migrations_dir_env
      else if w.is_dir (codes "/app/migrations")
      then w.abs (codes "/app/migrations")
      else if w.is_dir (codes "migrations")
      then w.abs (codes "migrations")
      else err (codes "migrations directory not found (set AGENTCOOPDB_MIGRATIONS_DIR)")

  -- What stands in front of migrate.New in RunMigrations and ForceVersion: the URL and the directory.
  unfoldable pub prepare : (who raw password : Bytes) → Result Bytes (Bytes × Bytes)
  prepare who raw password = do
    reject_if (bytes_eq raw []) (who ++ codes ": empty migrations URL")
    injected ← in_front_of (codes "inject password") (inject_password raw password)
    final ← in_front_of (codes "rewrite scheme") (rewrite_scheme_for_migrate injected)
    dir ← migrations_dir
    ok (final, codes "file://" ++ dir)

  -- pgx.Connect, Exec of a statement, the user of the connection, and has_schema_privilege.
  pub record Conn : Type 0 where
    pub connect : (url : Bytes) → Option Bytes
    pub exec : (stmt : Bytes) → Option Bytes
    pub user : Bytes
    pub has_create : Result Bytes Bool

  -- `'` becomes `''`.
  unfoldable pub escape_quotes : Bytes → Bytes
  escape_quotes [] = []
  escape_quotes (c ∷ s) =
      let rest = escape_quotes s in if nat_eq c b'\'' then b'\'' ∷ b'\'' ∷ rest else c ∷ rest

  unfoldable pub alter_role_sql : (role password : Bytes) → Bytes
  alter_role_sql role password =
      codes "ALTER ROLE "
      ++ (w.quote role ++ (codes " WITH PASSWORD '" ++ (escape_quotes password ++ (b'\'' ∷ []))))

  abbrev has_nul : Bytes → Bool
  has_nul [] = false
  has_nul (c ∷ s) = if nat_eq c 0 then true else has_nul s

  -- The statements sent, and the error before it is redacted.
  unfoldable pub alter_role :
      Conn → (raw owner_password role new_password : Bytes) → List Bytes × Option Bytes
  alter_role conn raw owner_password role new_password =
      if not (is_safe_ident role)
      then ([], some (codes "SetRolePassword: unsafe role identifier " ++ w.quote role))
      else if bytes_eq new_password []
      then ([], some (codes "SetRolePassword: empty new password"))
      else if has_nul new_password
      then ([], some (codes "SetRolePassword: password contains NUL byte"))
      else elim (inject_password raw owner_password) [
        | err e ↦ ([], some (codes "inject password: " ++ e))
        | ok final ↦ elim (conn.connect final) [
          | some e ↦ ([], some (codes "connect: " ++ e))
          | none ↦ (
            alter_role_sql role new_password ∷ [],
            elim (conn.exec (alter_role_sql role new_password)) [
              | some e ↦ some (codes "alter role: " ++ e)
              | none ↦ none
            ],
          )
        ]
      ]

  unfoldable pub set_role_password :
      Conn → (raw owner_password role new_password : Bytes) → List Bytes × Option Bytes
  set_role_password conn raw owner_password role new_password =
      let (sent, failure) = alter_role conn raw owner_password role new_password in
      (sent, redact_secrets failure (owner_password ∷ new_password ∷ url_password raw ∷ []))
