-- ===== src/Config/Load.antt =====
-- Load of internal/config/config.go, cut into the variables that are durations, those that are numbers,
-- and the passwords.
use agentic_coop_db.Prelude.{
  ◌*◌, ℤ, pos, negsuc, Bool, true, false, not, ◌++◌, Bytes, codes, ltb, if◌then◌else◌, Result, ok,
  ◌>>=◌, ◌>>◌, reject_if,
}
use agentic_coop_db.Config.{
  Env, Durations, Numbers, Config, seconds, is, get, env_or, env_bool, env_int, env_int32,
  env_float64, env_duration, load_secret_from_file,
}

abbrev pub above_a_minute : ℤ → Bool
above_a_minute (pos n) = ltb (60 * 1000000000) n
above_a_minute (negsuc n) = false

abbrev pub is_positive : ℤ → Bool
is_positive (pos n) = ltb 0 n
is_positive (negsuc n) = false

module _ {Float : Type 0} (e : Env Float) where
  unfoldable pub read_durations : Result Bytes Durations
  read_durations = do
    read_header ← env_duration e "AGENTCOOPDB_READ_HEADER_TIMEOUT" (seconds 5)
    read ← env_duration e "AGENTCOOPDB_READ_TIMEOUT" (seconds 10)
    write ← env_duration e "AGENTCOOPDB_WRITE_TIMEOUT" (seconds 30)
    idle ← env_duration e "AGENTCOOPDB_IDLE_TIMEOUT" (seconds 120)
    statement ← env_duration e "AGENTCOOPDB_STATEMENT_TIMEOUT" (seconds 5)
    idle_in_tx ← env_duration e "AGENTCOOPDB_IDLE_IN_TX_TIMEOUT" (seconds 5)
    ttl ← env_duration e "AGENTCOOPDB_AUTH_CACHE_TTL" (seconds 300)
    overlap ← env_duration e "AGENTCOOPDB_KEY_ROTATE_OVERLAP" (seconds 86400)
    lifetime ← env_duration e "AGENTCOOPDB_DATABASE_CONN_LIFETIME" (seconds 1800)
    ok (record {
      read_header_timeout = read_header;
      read_timeout = read;
      write_timeout = write;
      idle_timeout = idle;
      statement_timeout = statement;
      idle_in_tx_timeout = idle_in_tx;
      auth_cache_ttl = ttl;
      key_rotate_overlap = overlap;
      database_conn_lifetime = lifetime;
    })

  unfoldable pub read_numbers : Result Bytes (Numbers Float)
  read_numbers = do
    request ← env_int e "AGENTCOOPDB_MAX_REQUEST_BODY_BYTES" (pos 1048576)
    response ← env_int e "AGENTCOOPDB_MAX_RESPONSE_BODY_BYTES" (pos 8388608)
    statement ← env_int e "AGENTCOOPDB_MAX_STATEMENT_BYTES" (pos 262144)
    params ← env_int e "AGENTCOOPDB_MAX_STATEMENT_PARAMS" (pos 1000)
    cache ← env_int e "AGENTCOOPDB_AUTH_CACHE_SIZE" (pos 1024)
    burst ← env_int e "AGENTCOOPDB_RATE_LIMIT_BURST" (pos 120)
    rate ← env_float64 e "AGENTCOOPDB_RATE_LIMIT_PER_SECOND" e.sixty
    max_conns ← env_int32 e "AGENTCOOPDB_DATABASE_MAX_CONNS" (pos 20)
    min_conns ← env_int32 e "AGENTCOOPDB_DATABASE_MIN_CONNS" (pos 2)
    ok (record {
      max_request_body_bytes = request;
      max_response_body_bytes = response;
      max_statement_bytes = statement;
      max_statement_params = params;
      auth_cache_size = cache;
      rate_limit_burst = burst;
      rate_limit_per_second = rate;
      database_max_conns = max_conns;
      database_min_conns = min_conns;
    })

  -- The two passwords, each from its variable or its file.
  unfoldable pub read_secrets : Result Bytes (Bytes × Bytes)
  read_secrets = do
    gateway ←
        load_secret_from_file e (codes "AGENTCOOPDB_GATEWAY_PASSWORD")
          (get e "AGENTCOOPDB_GATEWAY_PASSWORD")
    owner ←
        load_secret_from_file e (codes "AGENTCOOPDB_OWNER_PASSWORD")
          (get e "AGENTCOOPDB_OWNER_PASSWORD")
    ok (gateway, owner)

  unfoldable pub load : Result Bytes (Config Float)
  load = do
    reject_if (is (get e "AGENTCOOPDB_DATABASE_URL") "")
        (codes "AGENTCOOPDB_DATABASE_URL is required")
    durations ← read_durations
    numbers ← read_numbers
    secrets ← read_secrets
    reject_if (above_a_minute durations.statement_timeout) (
        codes "statement_timeout must be <= 60s, got "
        ++ e.print_duration durations.statement_timeout)
    reject_if (not (is_positive numbers.max_statement_params))
        (codes "MAX_STATEMENT_PARAMS must be > 0")
    ok (record {
      http_addr = env_or e "AGENTCOOPDB_HTTP_ADDR" ":8080";
      insecure_http = env_bool e "AGENTCOOPDB_INSECURE_HTTP" false;
      trust_proxy = env_bool e "AGENTCOOPDB_TRUST_PROXY" false;
      database_url = get e "AGENTCOOPDB_DATABASE_URL";
      migrations_database_url =
          if is (get e "AGENTCOOPDB_MIGRATIONS_DATABASE_URL") ""
          then get e "AGENTCOOPDB_DATABASE_URL"
          else get e "AGENTCOOPDB_MIGRATIONS_DATABASE_URL";
      gateway_password = secrets.0;
      owner_password = secrets.1;
      audit_disabled = env_bool e "AGENTCOOPDB_AUDIT_DISABLED" false;
      audit_include_sql = env_bool e "AGENTCOOPDB_AUDIT_INCLUDE_SQL" false;
      mcp_enabled = env_bool e "AGENTCOOPDB_MCP_ENABLED" false;
      metrics_enabled = env_bool e "AGENTCOOPDB_METRICS_ENABLED" true;
      migrate_on_start = env_bool e "AGENTCOOPDB_MIGRATE_ON_START" true;
      log_level = env_or e "AGENTCOOPDB_LOG_LEVEL" "info";
      log_format = env_or e "AGENTCOOPDB_LOG_FORMAT" "json";
      otel_endpoint = get e "AGENTCOOPDB_OTEL_EXPORTER_OTLP_ENDPOINT";
      durations = durations;
      numbers = numbers;
    })
