-- ===== src/Db/Tests.antt =====
-- The theorems about package internal/db at concrete inputs.
use agentic_coop_db.Prelude.{
  ◌≡◌, refl, pos, true, false, none, some, List, All, [], ◌∷◌, ◌++◌, Bytes, codes, bytes_eq, ok,
  cut_prefix,
}
use agentic_coop_db.Auth.Key.{mint, is_valid, token, env_dev}
use agentic_coop_db.Auth.Key.Example.{raw_url}
use agentic_coop_db.Auth.Secret.{hash_secret}
use agentic_coop_db.Auth.Secret.Example.{crypto}
use agentic_coop_db.Auth.Store.{key_row, select_id, update_id, revoke_row}
use agentic_coop_db.Auth.Store.Tests.{zeros, full, minted, parse_id}
use agentic_coop_db.Db.Keys.{
  Database, Round, Texts, mint_key, mint_row, mint_checked, find_or_create, select_name,
  workspace_name,
}
use agentic_coop_db.Db.Keys.Admin.{
  KeySummary, key_status, insert_by_age, by_age, scan_keys, list_keys, revoke_rows, revoke_checked,
  revoke_key,
}
use agentic_coop_db.Db.Keys.Listed.{IsRevokedSummary, list_keys-revoke_key}
use agentic_coop_db.Db.Keys.Usable.{Works, mint_key-Works}
use agentic_coop_db.Db.Migrate.{
  World, Url, Conn, prepare, set_role_password, alter_role, alter_role_sql, inject_password,
  rewrite_scheme_for_migrate, migrations_dir, is_safe_ident, escape_quotes, redact_secrets,
  redact_text, has_sub, has_prefix, replace_from, url_password,
}
use agentic_coop_db.Db.Migrate.Flow.{
  Migrator, dirty, done, run_migrations, with_migrate, apply, recover,
}
use agentic_coop_db.Db.Migrate.Password.{
  IsAltered, set_role_password-IsAltered, set_role_password_hides,
}
use agentic_coop_db.Db.Migrate.Recovered.{Route, run_migrations_sound}
use agentic_coop_db.Tenant.{all_safe, is_safe_byte}

abbrev target : Url
target = record {
  scheme = codes "postgres";
  user = some (codes "owner", none);
  rest = codes "db/app";
}

abbrev world : World
world = record {
  parse_url = λ raw. ok target;
  print_url = λ u. u.scheme ++ (codes "://" ++ u.rest);
  quote = λ s. b'"' ∷ (s ++ (b'"' ∷ []));
  migrations_dir_env = codes "/srv/migrations";
  is_dir = λ dir. false;
  abs = λ dir. ok dir;
}

abbrev refuses : Conn world
refuses = record {
  connect = λ url. none;
  exec = λ stmt. some stmt;
  user = codes "owner";
  has_create = ok true;
}

abbrev raw : Bytes
raw = codes "postgres://owner@db/app"

-- A password with a quote.
abbrev password : Bytes
password = codes "it's"

abbrev stmt : Bytes
stmt = codes "ALTER ROLE \"gateway\" WITH PASSWORD 'it''s'"

sends : (set_role_password world refuses raw [] (codes "gateway") password).0 ≡ stmt ∷ []
unfolding set_role_password alter_role alter_role_sql inject_password is_safe_ident escape_quotes
    all_safe is_safe_byte bytes_eq
sends = refl

set_role_password-IsAltered_example :
    (◌≡◌ {A = List Bytes} [] []) × IsAltered world refuses raw [] (codes "gateway") password stmt
set_role_password-IsAltered_example =
    set_role_password-IsAltered world refuses raw [] (codes "gateway") password stmt [] sends

-- Another whose bytes stand in the statement as they are.
abbrev plain : Bytes
plain = codes "s3cret"

abbrev message : Bytes
message = codes "alter role: ALTER ROLE \"gateway\" WITH PASSWORD 'REDACTED'"

fails : (set_role_password world refuses raw [] (codes "gateway") plain).1 ≡ some message
unfolding set_role_password alter_role alter_role_sql inject_password is_safe_ident escape_quotes
    all_safe is_safe_byte bytes_eq redact_secrets redact_text has_sub has_prefix cut_prefix
    replace_from url_password
fails = refl

set_role_password_hides_example : has_sub plain message ≡ false
set_role_password_hides_example =
    set_role_password_hides world refuses raw [] (codes "gateway") b's' (codes "3cret") message
      (
        (refl, (refl, (refl, (refl, (refl, (refl, (refl, (refl, tt)))))))),
        (
          (refl, (refl, (refl, (refl, (refl, (refl, (refl, (refl, tt)))))))),
          (
            (refl, (refl, (refl, (refl, (refl, (refl, (refl, (refl, tt)))))))),
            (
              (refl, (refl, (refl, (refl, (refl, (refl, (refl, (refl, tt)))))))),
              (
                (refl, (refl, (refl, (refl, (refl, (refl, (refl, (refl, tt)))))))),
                ((refl, (refl, (refl, (refl, (refl, (refl, (refl, (refl, tt)))))))), tt),
              ),
            ),
          ),
        ),
      )
      fails

abbrev migrator : Migrator
migrator = record {
  open_error = λ dir url. none;
  first_up = dirty (pos 7) (codes "Dirty database version 7");
  force = λ v. none;
  second_up = done;
}

migrates : (run_migrations world migrator raw []).1 ≡ none
unfolding run_migrations with_migrate apply recover prepare inject_password
    rewrite_scheme_for_migrate migrations_dir bytes_eq redact_secrets
migrates = refl

run_migrations_sound_example :
    ((final dir : Bytes) × (prepare world (codes "RunMigrations") raw [] ≡ ok (final, dir))
      × (migrator.open_error dir final ≡ none))
    × Route migrator (run_migrations world migrator raw []).0
run_migrations_sound_example = run_migrations_sound migrator world raw [] migrates

abbrev round : Round
round = record {
  rand = λ n. some (zeros n);
  rand' = λ n. some (zeros n);
  salt = some (zeros 16);
  workspace_id = codes "w1";
  key_pk = codes "k1";
  db_now = 50;
  connect_error = λ url. none;
  begin_error = none;
  lookup_error = none;
  workspace_error = none;
  insert_error = none;
  commit_error = none;
}

abbrev texts : Texts
texts = record { mint_text = λ e. codes "mint"; hash_text = codes "read salt" }

abbrev no_keys : Database
no_keys = record { workspaces = []; keys = [] }

abbrev minted_keys : Database
minted_keys = record {
  workspaces = record { id = codes "w1"; name = codes "team" } ∷ [];
  keys =
      key_row crypto raw_url parse_id (codes "k1") (codes "w1") env_dev (codes "dbuser")
        (codes "mint-key") (hash_secret crypto minted.secret (zeros 16)) minted 50 none none
      ∷ [];
}

mints :
    mint_key crypto raw_url parse_id world texts round raw []
      (codes "team")
      (codes "dbuser")
      env_dev
      no_keys
    ≡ (minted_keys, ok minted.full_token)
unfolding mint_key mint_row mint_checked find_or_create select_name mint inject_password bytes_eq
    token is_valid
mints = refl

mint_key-Works_example :
    Works crypto raw_url parse_id world texts round raw []
      (codes "team")
      (codes "dbuser")
      env_dev
      no_keys
      minted.full_token
      minted_keys
mint_key-Works_example =
    mint_key-Works crypto raw_url parse_id world texts round raw [] (codes "team") (codes "dbuser")
      env_dev no_keys minted_keys minted.full_token
      (record { first = full.first; second = full.second; salt_bytes = full.salt_bytes }) mints

abbrev revoked_keys : Database
revoked_keys = record minted_keys { keys = update_id (codes "k1") (revoke_row 60) minted_keys.keys }

revokes :
    revoke_key world (λ s. ok s) (λ url. none) none 60 raw [] (codes "k1") minted_keys
    ≡ (revoked_keys, none)
unfolding revoke_key revoke_checked revoke_rows select_id update_id inject_password bytes_eq
revokes = refl

abbrev listed : List KeySummary
listed =
    record {
      id = codes "k1";
      workspace_name = codes "team";
      pg_role = codes "dbuser";
      env = env_dev;
      name = codes "mint-key";
      status = codes "revoked";
      created_at = 50;
    }
    ∷ []

lists :
    list_keys world (λ url. none) none none (λ r. none) (λ r. 70) raw [] revoked_keys ≡ ok listed
unfolding list_keys scan_keys by_age insert_by_age key_status workspace_name update_id
    inject_password bytes_eq
lists = refl

list_keys-revoke_key_example : All (IsRevokedSummary (codes "k1")) listed
list_keys-revoke_key_example =
    list_keys-revoke_key world (λ s. ok s) (λ url. none) (λ url. none) none none none (λ r. none) 60
      (λ r. 70) raw [] (codes "k1") (codes "k1") minted_keys revoked_keys listed refl revokes lists
