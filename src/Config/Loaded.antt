-- ===== src/Config/Loaded.antt =====
-- What Load of internal/config/config.go makes of the environment.
use agentic_coop_db.Prelude.{
  ℕ, ◌*◌, ◌≤◌, ◌<◌, ◌^◌, ◌≡◌, ◌≢◌, refl, inl, inr, arith, ℤ, pos, negsuc, true, false, [], ◌∷◌,
  Bytes, codes, bytes_eq, bytes_eq_iff, if◌then◌else◌, ok, Result-cases, Option-cases, Bool-cases,
  String,
}
use agentic_coop_db.Config.{
  Env, Durations, Numbers, Config, seconds, get, env_or, env_bool, env_int, env_int32, env_float64,
  env_duration, load_secret_from_file, in_32_bits,
}
use agentic_coop_db.Config.Load.{
  read_durations, read_numbers, read_secrets, above_a_minute, is_positive, load,
}
use agentic_coop_db.Sql.Validator.{atoi}

-- An environment in which only the URL of the database is set.
abbrev pub only_url : Bytes → Bytes → Bytes
only_url url key = if bytes_eq key (codes "AGENTCOOPDB_DATABASE_URL") then url else []

abbrev pub default_durations : Durations
default_durations = record {
  read_header_timeout = seconds 5;
  read_timeout = seconds 10;
  write_timeout = seconds 30;
  idle_timeout = seconds 120;
  statement_timeout = seconds 5;
  idle_in_tx_timeout = seconds 5;
  auth_cache_ttl = seconds 300;
  key_rotate_overlap = seconds 86400;
  database_conn_lifetime = seconds 1800;
}

abbrev pub default_numbers : {Float : Type 0} → Float → Numbers Float
default_numbers sixty = record {
  max_request_body_bytes = pos 1048576;
  max_response_body_bytes = pos 8388608;
  max_statement_bytes = pos 262144;
  max_statement_params = pos 1000;
  auth_cache_size = pos 1024;
  rate_limit_burst = pos 120;
  rate_limit_per_second = sixty;
  database_max_conns = pos 20;
  database_min_conns = pos 2;
}

-- The defaults that Usage documents.
abbrev pub default_config : {Float : Type 0} → Float → (url : Bytes) → Config Float
default_config sixty url = record {
  http_addr = codes ":8080";
  insecure_http = false;
  trust_proxy = false;
  database_url = url;
  migrations_database_url = url;
  gateway_password = [];
  owner_password = [];
  audit_disabled = false;
  audit_include_sql = false;
  mcp_enabled = false;
  metrics_enabled = true;
  migrate_on_start = true;
  log_level = codes "info";
  log_format = codes "json";
  otel_endpoint = [];
  durations = default_durations;
  numbers = default_numbers sixty;
}

-- With no variable set but the URL of the database, Load succeeds with the documented defaults, and
-- migrations use the same URL.
pub load_default :
    {Float : Type 0} (e : Env Float) (c : ℕ) (s : Bytes)
    → load (record e { getenv = only_url (c ∷ s) }) ≡ ok (default_config e.sixty (c ∷ s))
unfolding load read_durations read_numbers read_secrets env_or env_bool env_int env_int32
    env_float64 env_duration load_secret_from_file bytes_eq
load_default e c s = refl

abbrev pub IsInt32 : ℤ → Type 0
IsInt32 (pos n) = n < 2 ^ 31
IsInt32 (negsuc n) = n < 2 ^ 31

abbrev pub IsAtMostMinute : ℤ → Type 0
IsAtMostMinute (pos n) = n ≤ 60 * 1000000000
IsAtMostMinute (negsuc n) = Unit

abbrev pub IsPositive : ℤ → Type 0
IsPositive (pos n) = 0 < n
IsPositive (negsuc n) = ⊥

pub record IsUsable {Float : Type 0} (c : Config Float) : Type 0 where
  pub database_url : c.database_url ≢ []
  pub migrations_url : c.migrations_database_url ≢ []
  pub statement_timeout : IsAtMostMinute c.durations.statement_timeout
  pub params : IsPositive c.numbers.max_statement_params
  pub max_conns : IsInt32 c.numbers.database_max_conns
  pub min_conns : IsInt32 c.numbers.database_min_conns

in_range : (n : ℤ) → in_32_bits n ≡ true → IsInt32 n
in_range (pos n) h = ground arith
in_range (negsuc n) h = ground arith

at_most : (n : ℤ) → above_a_minute n ≡ false → IsAtMostMinute n
at_most (pos n) h = ground arith
at_most (negsuc n) h = tt

positive : (n : ℤ) → is_positive n ≡ true → IsPositive n
positive (pos n) h = ground arith
positive (negsuc n) h = ground arith

module _ {Float : Type 0} (e : Env Float) where
  int32_range :
      (key : String) (fallback n : ℤ)
      → in_32_bits fallback ≡ true
      → env_int32 e key fallback ≡ ok n
      → in_32_bits n ≡ true
  unfolding env_int32
  int32_range key fallback n small h = elim (Bool-cases (bytes_eq (get e key) [])) [
    | inl f ↦ ground arith
    | inr f ↦ elim (Option-cases (atoi (get e key))) [
      | inl g ↦ ground arith
      | inr (k, g) ↦ elim (Bool-cases (in_32_bits k)) [
        | inl r ↦ ground arith
        | inr r ↦ ground arith
      ]
    ]
  ]

  conns_range :
      (n : Numbers Float)
      → read_numbers e ≡ ok n
      → (in_32_bits n.database_max_conns ≡ true) × (in_32_bits n.database_min_conns ≡ true)
  unfolding read_numbers
  conns_range n h = elim (Result-cases (env_int32 e "AGENTCOOPDB_DATABASE_MAX_CONNS" (pos 20))) [
    | inr (x, f) ↦ ground arith
    | inl (a, f) ↦ elim (Result-cases (env_int32 e "AGENTCOOPDB_DATABASE_MIN_CONNS" (pos 2))) [
      | inr (x, g) ↦ ground arith
      | inl (b, g) ↦
          let small = int32_range "AGENTCOOPDB_DATABASE_MAX_CONNS" (pos 20) a refl f in
          let small' = int32_range "AGENTCOOPDB_DATABASE_MIN_CONNS" (pos 2) b refl g in
          (ground arith, ground arith)
    ]
  ]

  -- A configuration that Load accepts has both URLs, a statement timeout of at most a minute, a
  -- positive limit of parameters, and bounds of the pool that fit 32 bits.
  pub load-IsUsable : (c : Config Float) → load e ≡ ok c → IsUsable c
  unfolding load
  load-IsUsable c h = elim (Result-cases (read_durations e)) [
    | inr (x, f) ↦ ground arith
    | inl (d, f) ↦ elim (Result-cases (read_numbers e)) [
      | inr (x, g) ↦ ground arith
      | inl (n, g) ↦ elim (Result-cases (read_secrets e)) [
        | inr (x, k) ↦ ground arith
        | inl (s, k) ↦
            let (max, min) = conns_range n g in
            let same : c.numbers ≡ n = ground arith in
            let same' : c.durations ≡ d = ground arith in
            let named : c.database_url ≢ [] =
              ground (arith, bytes_eq_iff (get e "AGENTCOOPDB_DATABASE_URL") []) in
            record {
              database_url = named;
              migrations_url =
                  ground (arith, bytes_eq_iff (get e "AGENTCOOPDB_MIGRATIONS_DATABASE_URL") []);
              statement_timeout = rw same' (at_most d.statement_timeout (ground arith));
              params = rw same (positive n.max_statement_params (ground arith));
              max_conns = rw same (in_range n.database_max_conns max);
              min_conns = rw same (in_range n.database_min_conns min);
            }
      ]
    ]
  ]
