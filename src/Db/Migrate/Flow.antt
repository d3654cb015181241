-- ===== src/Db/Migrate/Flow.antt =====
-- RunMigrations, ForceVersion and EnsureOwnerRole of internal/db/migrate.go. golang-migrate's answers and
-- the texts of its errors are parameters.
use agentic_coop_db.Prelude.{
  zero, suc, ℤ, pos, negsuc, Bool, true, false, Option, none, some, List, [], ◌∷◌, ◌++◌, Bytes,
  codes, bytes_eq, if◌then◌else◌, Result, ok, err,
}
use agentic_coop_db.Auth.Middleware.{itoa}
use agentic_coop_db.Db.Migrate.{World, Conn, prepare, inject_password, redact_secrets, url_password}

-- migrate.Up: nil, ErrNoChange, an ErrDirty of a version somewhere in the chain, or another error.
pub data UpAnswer : Type 0 where
  done no_change : UpAnswer
  dirty : (version : ℤ) → (text : Bytes) → UpAnswer
  failed : (text : Bytes) → UpAnswer

pub data MigrateCall : Type 0 where
  up : MigrateCall
  force : (version : ℤ) → MigrateCall

-- migrate.New, the two calls of Up, and Force.
pub record Migrator : Type 0 where
  pub open_error : (dir url : Bytes) → Option Bytes
  pub first_up : UpAnswer
  pub force : ℤ → Option Bytes
  pub second_up : UpAnswer

unfoldable pub previous : ℤ → ℤ
previous (pos zero) = negsuc 0
previous (pos (suc n)) = pos n
previous (negsuc n) = negsuc (suc n)

-- %d.
abbrev decimal_text : ℤ → Bytes
decimal_text (pos n) = itoa false n
decimal_text (negsuc n) = itoa true (suc n)

-- The text of an error of the second Up, none for success.
abbrev pub up_failure : UpAnswer → Option Bytes
up_failure done = none
up_failure no_change = none
up_failure (dirty v text) = some text
up_failure (failed text) = some text

-- From ErrDirty on: force the version before, and try once more.
unfoldable pub recover : Migrator → ℤ → List MigrateCall × Option Bytes
recover m version = elim (m.force (previous version)) [
  | some e ↦ (
    force (previous version) ∷ [],
    some (
        codes "migrate.Up: dirty v"
        ++ (decimal_text version
            ++ (codes "; force to "
                ++ (decimal_text (previous version) ++ (codes " failed: " ++ e))))),
  )
  | none ↦ (
    force (previous version) ∷ up ∷ [],
    elim (up_failure m.second_up) [
      | none ↦ none
      | some e ↦ some (
          codes "migrate.Up: dirty v"
          ++ (decimal_text version ++ (codes "; retry after force also failed: " ++ e)))
    ],
  )
]

unfoldable pub apply : Migrator → List MigrateCall × Option Bytes
apply m = elim m.first_up [
  | done ↦ (up ∷ [], none)
  | no_change ↦ (up ∷ [], none)
  | failed text ↦ (up ∷ [], some (codes "migrate.Up: " ++ text))
  | dirty version text ↦ let (calls, failure) = recover m version in (up ∷ calls, failure)
]

module _ (w : World) where
  -- migrate.New, and then `act`.
  unfoldable pub with_migrate :
      Migrator
      → (who raw password : Bytes) → List MigrateCall × Option Bytes
      → List MigrateCall × Option Bytes
  with_migrate m who raw password act = elim (prepare w who raw password) [
    | err e ↦ ([], some e)
    | ok (final, dir) ↦ elim (m.open_error dir final) [
      | some e ↦ ([], some (codes "migrate.New: " ++ e))
      | none ↦ act
    ]
  ]

  abbrev scrub :
      (raw password : Bytes) → List MigrateCall × Option Bytes → List MigrateCall × Option Bytes
  scrub raw password (calls, failure) =
      (calls, redact_secrets failure (password ∷ url_password w raw ∷ []))

  unfoldable pub run_migrations :
      Migrator → (raw password : Bytes) → List MigrateCall × Option Bytes
  run_migrations m raw password =
      scrub raw password (with_migrate m (codes "RunMigrations") raw password (apply m))

  abbrev forced : Migrator → ℤ → Option Bytes
  forced m version = elim (m.force version) [
    | none ↦ none
    | some e ↦ some (codes "migrate.Force: " ++ e)
  ]

  unfoldable pub force_version :
      Migrator → (raw password : Bytes) → (version : ℤ) → List MigrateCall × Option Bytes
  force_version m raw password version =
      scrub raw password
        (with_migrate m (codes "ForceVersion") raw password (force version ∷ [], forced m version))

  abbrev pub create_role_sql : Bytes
  create_role_sql =
      codes "\nDO $$\nBEGIN\n    IF NOT EXISTS (\n        SELECT 1 FROM pg_roles\n"
      ++ (codes "        WHERE rolname IN ('agentcoopdb_owner', 'aicoopdb_owner')\n    ) THEN\n"
          ++ codes
              "        CREATE ROLE agentcoopdb_owner NOLOGIN CREATEDB CREATEROLE;\n    END IF;\nEND$$;")

  abbrev pub grant_sql : Bytes
  grant_sql = codes "GRANT CREATE ON SCHEMA public TO CURRENT_USER"

  abbrev may_create : Result Bytes Bool → Bool
  may_create (ok b) = b
  may_create (err e) = false

  -- A refused GRANT is an error only if the user lacks the privilege, or that cannot be found out.
  unfoldable pub grant_public : Conn w → Option Bytes
  grant_public conn = elim (conn.exec grant_sql) [
    | none ↦ none
    | some e ↦
        if may_create conn.has_create
        then none
        else some (
            codes
              "migrations user cannot CREATE in the public schema (PostgreSQL 15+ revoked this by "
            ++ (codes
                  "default). Connect to the database as a superuser and run: GRANT CREATE ON SCHEMA "
                ++ (codes "public TO " ++ w.quote conn.user)))
  ]

  unfoldable pub create_owner : Conn w → (raw owner_password : Bytes) → List Bytes × Option Bytes
  create_owner conn raw owner_password =
      if bytes_eq raw []
      then (
        [],
        some (
            codes "EnsureOwnerRole: migrations database URL is empty (set "
            ++ codes "AGENTCOOPDB_MIGRATIONS_DATABASE_URL or AGENTCOOPDB_DATABASE_URL)"),
      )
      else elim (inject_password w raw owner_password) [
        | err e ↦ ([], some (codes "inject password: " ++ e))
        | ok final ↦ elim (conn.connect final) [
          | some e ↦ ([], some (codes "connect: " ++ e))
          | none ↦ elim (conn.exec create_role_sql) [
            | some e ↦ (create_role_sql ∷ [], some (codes "create agentcoopdb_owner: " ++ e))
            | none ↦ (create_role_sql ∷ grant_sql ∷ [], grant_public conn)
          ]
        ]
      ]

  unfoldable pub ensure_owner_role :
      Conn w → (raw owner_password : Bytes) → List Bytes × Option Bytes
  ensure_owner_role conn raw owner_password =
      let (sent, failure) = create_owner conn raw owner_password in
      (sent, redact_secrets failure (owner_password ∷ url_password w raw ∷ []))
