-- ===== src/Sql/Errors.antt =====
-- The errors of internal/sql (ValidationError, Error, ErrResponseTooLarge) and of the driver, with
-- what errors.Is and errors.As find in them. classifyPgErr is of internal/sql/executor.go.
use agentic_coop_db.Prelude.{Bool, true, false, Option, none, some, Bytes}
use agentic_coop_db.Sql.Validator.{ValidationError}

-- pgconn.PgError.
pub record PgError : Type 0 where
  pub code : Bytes
  pub message : Bytes

-- `database` is the source's *Error with its field Pg, `wrapped` is fmt.Errorf with %w, `other` any
-- error that wraps none.
pub data GoError : Type 0 where
  response_too_large : GoError
  validation : ValidationError → GoError
  database : Option PgError → GoError
  postgres : PgError → GoError
  wrapped : Bytes → GoError → GoError
  other : Bytes → GoError

unfoldable pub is_too_large : GoError → Bool
is_too_large response_too_large = true
is_too_large (wrapped _ e) = is_too_large e
is_too_large _ = false

unfoldable pub as_validation : GoError → Option ValidationError
as_validation (validation v) = some v
as_validation (wrapped _ e) = as_validation e
as_validation _ = none

-- The first *Error of the chain.
unfoldable pub as_database : GoError → Option (Option PgError)
as_database (database pg) = some pg
as_database (wrapped _ e) = as_database e
as_database _ = none

-- The first *PgError of the chain. Unwrap of an *Error is its field Pg, also where that is nil.
unfoldable pub as_postgres : GoError → Option (Option PgError)
as_postgres (database pg) = some pg
as_postgres (postgres pg) = some (some pg)
as_postgres (wrapped _ e) = as_postgres e
as_postgres _ = none

unfoldable pub classify_pg_err : GoError → GoError
classify_pg_err e = elim (as_postgres e) [ some pg ↦ database pg | none ↦ e ]
