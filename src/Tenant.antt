-- ===== src/Tenant.antt =====
-- internal/tenant/tenant.go: the statements that bind a transaction to a workspace and a role. The
-- server's answer to each statement is a parameter.
pub mod Setup
mod Tests
use agentic_coop_db.Prelude.{
  ℕ, ◌+◌, ◌/◌, Bool, true, false, not, ◌&&◌, ◌||◌, Option, none, some, List, [], ◌∷◌, ◌++◌, Bytes,
  codes, bytes_eq, length, leb, ltb, nat_eq, if◌then◌else◌, String,
}
use agentic_coop_db.Auth.Middleware.{itoa}

-- A statement as it is sent: its text and its arguments.
pub record Stmt : Type 0 where
  pub text : Bytes
  pub args : List Bytes

pub data SetupError (E : Type 0) : Type 0 where
  empty_workspace_id empty_pg_role unsafe_role : SetupError E
  exec_failed : E → SetupError E

-- The loop of isSafeRoleName. Bytes above 127 decode to runes that no case accepts, and so does an
-- invalid encoding, so the loop may look at bytes.
unfoldable pub is_safe_byte : ℕ → Bool
is_safe_byte c = (leb b'a' c && leb c b'z') || (leb b'0' c && leb c b'9') || nat_eq c b'_'

unfoldable pub all_safe : Bytes → Bool
unfolding is_safe_byte
all_safe [] = true
all_safe (c ∷ s) = if is_safe_byte c then all_safe s else false

unfoldable pub is_safe_role_name : Bytes → Bool
is_safe_role_name s = if nat_eq (length s) 0 || ltb 63 (length s) then false else all_safe s

-- Durations are nanoseconds; %d prints their whole milliseconds.
unfoldable pub statement_timeout_stmt : ℕ → Stmt
statement_timeout_stmt d = record {
  text = codes "SET LOCAL statement_timeout = '" ++ (itoa false (d / 1000000) ++ codes "ms'");
  args = [];
}

unfoldable pub idle_timeout_stmt : ℕ → Stmt
idle_timeout_stmt d = record {
  text =
      codes "SET LOCAL idle_in_transaction_session_timeout = '"
      ++ (itoa false (d / 1000000) ++ codes "ms'");
  args = [];
}

unfoldable pub workspace_stmt : Bytes → Stmt
workspace_stmt workspace_id = record {
  text = codes "SELECT set_config('app.workspace_id', $1, true)";
  args = workspace_id ∷ [];
}

unfoldable pub role_stmt : Bytes → Stmt
role_stmt pg_role = record {
  text = codes "SET LOCAL ROLE \"" ++ (pg_role ++ (b'"' ∷ []));
  args = [];
}

unfoldable pub search_path_stmt : Stmt
search_path_stmt = record { text = codes "SET LOCAL search_path TO public"; args = [] }

-- `exec sent s` is the error of tx.Exec for `s` after the statements `sent`, if it fails.
module _ {E : Type 0} (exec : List Stmt → Stmt → Option E) where
  -- Sends statements in order up to the first failure; the statements sent, and the failure.
  unfoldable pub send : List Stmt → List Stmt → List Stmt × Option E
  send sent [] = (sent, none)
  send sent (s ∷ rest) =
      let more = send (sent ++ (s ∷ [])) rest in
      elim (exec sent s) [ some e ↦ (sent ++ (s ∷ []), some e) | none ↦ more ]

  -- `none` is a nil error.
  unfoldable pub setup :
      List Stmt
      → (workspace_id pg_role : Bytes) → (stmt_timeout idle_timeout : ℕ)
      → List Stmt × Option (SetupError E)
  setup sent workspace_id pg_role stmt_timeout idle_timeout =
      if bytes_eq workspace_id []
      then (sent, some empty_workspace_id)
      else if bytes_eq pg_role []
      then (sent, some empty_pg_role)
      else (let (sent', failed) = send sent (
            statement_timeout_stmt stmt_timeout
            ∷ idle_timeout_stmt idle_timeout
            ∷ workspace_stmt workspace_id
            ∷ []) in
          elim failed [
            | some e ↦ (sent', some (exec_failed e))
            | none ↦
                if not (is_safe_role_name pg_role)
                then (sent', some unsafe_role)
                else (let (sent'', failed') =
                      send sent' (role_stmt pg_role ∷ search_path_stmt ∷ []) in
                    elim failed' [
                      | some e ↦ (sent'', some (exec_failed e))
                      | none ↦ (sent'', none)
                    ])
          ])
