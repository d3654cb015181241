-- ===== src/Httpapi/Errors.antt =====
-- internal/httpapi/errors.go: from an error of the validator or the executor to a problem document.
pub mod Table
use agentic_coop_db.Prelude.{
  ℕ, Bool, true, false, ◌||◌, Option, none, some, [], Bytes, codes, bytes_eq, if◌then◌else◌, String,
}
use agentic_coop_db.Sql.Errors.{
  PgError, GoError, is_too_large, as_validation, as_database, as_postgres,
}

pub record Problem : Type 0 where
  pub title : Bytes
  pub status : ℕ
  pub detail : Bytes
  pub sqlstate : Bytes

abbrev is : Bytes → String → Bool
is code text = bytes_eq code (codes text)

abbrev entry : ℕ → String → ℕ × Bytes
entry status title = (status, codes title)

-- The status and title of a SQLSTATE.
unfoldable pub pg_status : Bytes → ℕ × Bytes
pg_status code =
    if is code "42501"
    then entry 403 "permission_denied"
    else if is code "42P01" || is code "42883"
    then entry 400 "undefined_object"
    else if is code "23505"
    then entry 409 "unique_violation"
    else if is code "23502" || is code "23503" || is code "23514"
    then entry 409 "integrity_violation"
    else if is code "22001" || is code "22003" || is code "22P02" || is code "22008"
    then entry 400 "invalid_input"
    else if is code "57014"
    then entry 408 "statement_timeout"
    else if is code "53300"
    then entry 503 "too_many_connections"
    else if is code "40001"
    then entry 409 "serialization_failure"
    else if is code "40P01"
    then entry 409 "deadlock_detected"
    else entry 500 "database_error"

unfoldable pub map_pg_error : PgError → Problem
map_pg_error pg = record {
  title = (pg_status pg.code).1;
  status = (pg_status pg.code).0;
  detail = pg.message;
  sqlstate = pg.code;
}

abbrev plain : ℕ → Bytes → Bytes → Problem
plain status title detail = record {
  title = title;
  status = status;
  detail = detail;
  sqlstate = [];
}

-- mapPgError of a pointer, which panics on nil.
abbrev map_pointer : Option PgError → Option Problem
map_pointer none = none
map_pointer (some pg) = some (map_pg_error pg)

-- `err.Error()` is a parameter; a panic is `none`.
module _ (text : GoError → Bytes) where
  -- The part of MapError behind the check for a *Error.
  unfoldable pub map_postgres : GoError → Option Problem
  map_postgres e = elim (as_postgres e) [
    | some pg ↦ map_pointer pg
    | none ↦ some (plain 500 (codes "internal") (text e))
  ]

  unfoldable pub map_error : Option GoError → Option Problem
  map_error none = some (plain 200 (codes "ok") [])
  map_error (some e) =
      if is_too_large e
      then some (plain 413 (codes "response_too_large") (text e))
      else elim (as_validation e) [
        | some v ↦ some (plain 400 v.code v.message)
        | none ↦ elim (as_database e) [
          | some (some pg) ↦ some (map_pg_error pg)
          | some none ↦ map_postgres e
          | none ↦ map_postgres e
        ]
      ]
