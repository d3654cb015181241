-- ===== src/Tenant/Tests.antt =====
-- The theorems about internal/tenant at concrete inputs.
use agentic_coop_db.Prelude.{
  ◌≡◌, ◌≢◌, refl, true, false, Option, none, List, [], ◌++◌, Bytes, codes,
}
use agentic_coop_db.Tenant.{Stmt, is_safe_byte, all_safe, is_safe_role_name, setup}
use agentic_coop_db.Tenant.Setup.{always, if_safe, setup_sound, setup_complete}

abbrev role : Bytes
role = codes "dbuser_2"

abbrev quoted : Bytes
quoted = codes "a\"; DROP TABLE t; --"

abbrev workspace_id : Bytes
workspace_id = codes "w1"

abbrev answers : List Stmt → Stmt → Option Bytes
answers sent s = none

safe : is_safe_role_name role ≡ true
unfolding is_safe_role_name all_safe is_safe_byte
safe = refl

unsafe : is_safe_role_name quoted ≡ false
unfolding is_safe_role_name all_safe is_safe_byte
unsafe = refl

succeeds : (setup answers [] workspace_id role 5000000000 1000000000).1 ≡ none
succeeds =
    setup_complete answers (λ sent s. refl) workspace_id role 5000000000 1000000000 (λ e. cc) safe

setup_sound_example :
    (workspace_id ≢ [])
    × (is_safe_role_name role ≡ true)
    × ((setup answers [] workspace_id role 5000000000 1000000000).0
        ≡ always 5000000000 1000000000 workspace_id ++ if_safe role)
setup_sound_example = setup_sound answers workspace_id role 5000000000 1000000000 succeeds
