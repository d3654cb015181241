-- ===== src/Server/Tests.antt =====
-- The theorem about the direct doer of cmd/server/direct_doer.go at a concrete input.
use agentic_coop_db.Prelude.{◌≡◌, refl, [], codes}
use agentic_coop_db.Httpapi.Api.{Request}
use agentic_coop_db.Httpapi.Api.Statements.{handle_sql_execute}
use agentic_coop_db.Httpapi.Api.Tests.{gateway, request, caller, decoded, service, run_of}
use agentic_coop_db.Server.DirectDoer.{direct_sql_execute}
use agentic_coop_db.Server.DirectDoer.Same.{direct-handle}

abbrev plain : Request
plain = record request { idempotency_key = [] }

direct-handle_example :
    (direct_sql_execute gateway service (run_of 50) (codes "r1") caller decoded (codes "k")).sent
    ≡ (handle_sql_execute gateway service (run_of 50) plain caller []).sent
direct-handle_example =
    direct-handle gateway service (run_of 50) plain caller (codes "{}") decoded [] (codes "r1")
      (codes "k") refl refl refl
