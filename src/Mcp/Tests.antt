-- ===== src/Mcp/Tests.antt =====
-- The theorems about internal/mcp at concrete inputs.
use agentic_coop_db.Prelude.{
  ℕ, ◌≡◌, refl, pos, ◌+◌, some, [], ◌∷◌, ◌++◌, Bytes, codes, ok, bytes_eq, ltb, Result,
}
use agentic_coop_db.Mcp.Values.{
  Floats, Value, number, text, array, object, no_elements, element, Members, no_members, member,
  lookup, elements, format_vector,
}
use agentic_coop_db.Mcp.Tools.{
  Call, sql_execute, search_sql, given, int, upsert_sql, values_clause, is_safe_ident,
}
use agentic_coop_db.Mcp.Tools.Plans.{
  plan_vector_search, plan_vector_upsert, ident_arg, numbers, upsert_rows, upsert_row,
}
use agentic_coop_db.Mcp.Tools.Sound.{
  IsSearch, IsUpsert, plan_vector_search-IsSearch, plan_vector_upsert-IsUpsert,
}
use agentic_coop_db.Mcp.Client.{GatewayError, HttpRequest, HttpResponse}
use agentic_coop_db.Tenant.{all_safe, is_safe_byte}

-- Floats that are whole numbers from 0 to 9.
abbrev floats : Floats ℕ
floats = record { print_g = λ x. (b'0' + x) ∷ []; is_positive = λ x. ltb 0 x; to_int = pos }

abbrev quote : Bytes → Bytes
quote s = b'"' ∷ (s ++ (b'"' ∷ []))

abbrev marshal : Members ℕ → Result Bytes Bytes
marshal m = ok (codes "{}")

abbrev vector : Value ℕ
vector = array (element (number 1) (element (number 2) no_elements))

abbrev search_args : Members ℕ
search_args = member (codes "table") (text (codes "docs")) (
    member (codes "vector_column") (text (codes "embedding"))
      (member (codes "query_embedding") vector (member (codes "k") (number 7) no_members)))

abbrev searches : Call ℕ
searches =
    sql_execute (search_sql (codes "embedding") (codes "docs"))
      (some (given (text (codes "[1,2]")) ∷ int (pos 7) ∷ [])) []

planned : plan_vector_search ℕ floats quote marshal search_args ≡ ok searches
unfolding plan_vector_search ident_arg lookup is_safe_ident all_safe is_safe_byte bytes_eq elements
    numbers format_vector
planned = refl

plan_vector_search-IsSearch_example : IsSearch ℕ floats quote marshal searches
plan_vector_search-IsSearch_example =
    plan_vector_search-IsSearch ℕ floats quote marshal search_args searches planned

abbrev upsert_args : Members ℕ
upsert_args = member (codes "table") (text (codes "docs")) (
    member (codes "id_column") (text (codes "id")) (
      member (codes "vector_column") (text (codes "embedding")) (
        member (codes "rows")
          (array (
            element
              (object (
                member (codes "id") (text (codes "a")) (
                  member (codes "metadata") (object no_members)
                    (member (codes "vector") vector no_members))))
              no_elements))
          no_members)))

abbrev upserts : Call ℕ
upserts =
    sql_execute (upsert_sql (codes "docs") (codes "id") (codes "embedding") (values_clause 0 ∷ []))
      (some
        (given (text (codes "a")) ∷ given (text (codes "{}")) ∷ given (text (codes "[1,2]")) ∷ []))
      []

upsert_planned : plan_vector_upsert ℕ floats quote marshal upsert_args ≡ ok upserts
unfolding plan_vector_upsert ident_arg lookup is_safe_ident all_safe is_safe_byte bytes_eq elements
    numbers format_vector upsert_rows upsert_row
upsert_planned = refl

plan_vector_upsert-IsUpsert_example : IsUpsert ℕ floats quote marshal upsert_args upserts
plan_vector_upsert-IsUpsert_example =
    plan_vector_upsert-IsUpsert ℕ floats quote marshal upsert_args upserts upsert_planned

abbrev transport : HttpRequest → Result Bytes HttpResponse
transport req = ok (record { status = 200; body = ok (codes "{}") })

abbrev keep : GatewayError → Bytes → GatewayError
keep e body = e

abbrev ask : HttpRequest
ask = record { method = codes "GET"; url = codes "http://gateway/v1/me"; headers = []; body = [] }
