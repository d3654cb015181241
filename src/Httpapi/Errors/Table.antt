-- ===== src/Httpapi/Errors/Table.antt =====
-- What MapError (internal/httpapi/errors.go) answers.
use agentic_coop_db.Prelude.{
  ℕ, List, [], ◌∷◌, if◌then◌else◌, ◌≡◌, ◌↔◌, inl, inr, refl, ap, ◌∙◌, arith, false, Option, none,
  some, Bytes, codes, bytes_eq, bytes_eq_iff, Option-cases,
}
use agentic_coop_db.Sql.Errors.{
  PgError, GoError, response_too_large, validation, database, postgres, wrapped, other,
  is_too_large, as_validation, as_database, as_postgres,
}
use agentic_coop_db.Httpapi.Errors.{pg_status, map_postgres, map_error}

-- The SQLSTATE that a chain carries, where neither of the two earlier checks takes it.
pub record Carries (e : GoError) (pg : PgError) : Type 0 where
  pub not_large : is_too_large e ≡ false
  pub not_validation : as_validation e ≡ none
  pub found : as_postgres e ≡ some (some pg)

-- In a chain an *Error is found before what it wraps.
database_same :
    (e : GoError) (pg : Option PgError) → as_database e ≡ some pg → as_postgres e ≡ some pg
unfolding as_database as_postgres
database_same response_too_large pg h = cc
database_same (validation v) pg h = cc
database_same (database p) pg h = h
database_same (postgres p) pg h = cc
database_same (wrapped s e) pg h = database_same e pg h
database_same (other s) pg h = cc

-- The SQLSTATEs of PostgreSQL that have a status and a title of their own.
abbrev pub table : List (Bytes × (ℕ × Bytes))
table =
    (codes "42501", (403, codes "permission_denied"))
    ∷ (codes "42P01", (400, codes "undefined_object"))
    ∷ (codes "42883", (400, codes "undefined_object"))
    ∷ (codes "23505", (409, codes "unique_violation"))
    ∷ (codes "23502", (409, codes "integrity_violation"))
    ∷ (codes "23503", (409, codes "integrity_violation"))
    ∷ (codes "23514", (409, codes "integrity_violation"))
    ∷ (codes "22001", (400, codes "invalid_input"))
    ∷ (codes "22003", (400, codes "invalid_input"))
    ∷ (codes "22P02", (400, codes "invalid_input"))
    ∷ (codes "22008", (400, codes "invalid_input"))
    ∷ (codes "57014", (408, codes "statement_timeout"))
    ∷ (codes "53300", (503, codes "too_many_connections"))
    ∷ (codes "40001", (409, codes "serialization_failure"))
    ∷ (codes "40P01", (409, codes "deadlock_detected"))
    ∷ []

abbrev pub listed : Bytes → List (Bytes × (ℕ × Bytes)) → ℕ × Bytes
listed code [] = (500, codes "database_error")
listed code ((c, answer) ∷ rest) = if bytes_eq code c then answer else listed code rest

module _ (text : GoError → Bytes) where
  -- MapError panics exactly where the error is neither too large a response nor of the validator and
  -- an *Error of the chain, with no *PgError before it, has a nil field.
  pub map_error-none_iff :
      (e : GoError)
      → (map_error text (some e) ≡ none)
        ↔ ((is_too_large e ≡ false) × (as_validation e ≡ none) × (as_postgres e ≡ some none))
  unfolding map_error map_postgres
  map_error-none_iff e = elim (Option-cases (as_database e)) [
    | inl q ↦ ground arith
    | inr (none, q) ↦ ground arith
    | inr (some p, q) ↦ ground (arith, database_same e (some p) q)
  ]

status_403 : (code : Bytes) → (pg_status code).0 ≡ 403 → code ≡ codes "42501"
unfolding pg_status
status_403 code h = ground (arith, bytes_eq_iff code (codes "42501"))

status_408 : (code : Bytes) → (pg_status code).0 ≡ 408 → code ≡ codes "57014"
unfolding pg_status
status_408 code h = ground (arith, bytes_eq_iff code (codes "57014"))

at_42501 : (pg_status (codes "42501")).0 ≡ 403
unfolding pg_status bytes_eq
at_42501 = refl

at_57014 : (pg_status (codes "57014")).0 ≡ 408
unfolding pg_status bytes_eq
at_57014 = refl

-- A missing permission and nothing else is answered with 403, and a statement timeout and nothing
-- else with 408.
pub pg_status_iff :
    (code : Bytes)
    → (((pg_status code).0 ≡ 403) ↔ (code ≡ codes "42501"))
      × (((pg_status code).0 ≡ 408) ↔ (code ≡ codes "57014"))
pg_status_iff code = (
  (status_403 code, (λ e. ap (λ x. (pg_status x).0) e ∙ at_42501)),
  (status_408 code, (λ e. ap (λ x. (pg_status x).0) e ∙ at_57014)),
)
