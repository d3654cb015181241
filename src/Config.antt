-- ===== src/Config.antt =====
-- internal/config/config.go: the configuration read from environment variables. os.Getenv, os.ReadFile,
-- time.ParseDuration, strconv.ParseFloat and the texts of their errors are parameters. An int is 64 bits
-- wide; durations are nanoseconds.
pub mod Load
pub mod Loaded
mod Tests
use agentic_coop_db.Prelude.{
  ℕ, ◌*◌, ◌^◌, ℤ, pos, negsuc, Bool, true, false, not, ◌||◌, Option, none, some, ◌++◌, Bytes, codes,
  bytes_eq, ltb, if◌then◌else◌, Result, ok, err, ◌>>=◌, ◌>>◌, reject_if, trim_space, String, suc,
}
use agentic_coop_db.Sql.Validator.{atoi}

pub record Env (Float : Type 0) : Type 0 where
  pub getenv : Bytes → Bytes
  pub read_file : Bytes → Result Bytes Bytes
  pub parse_duration : Bytes → Result Bytes ℤ
  pub parse_float : Bytes → Result Bytes Float
  pub sixty : Float
  pub number_error : Bytes → Bytes
  pub print_duration : ℤ → Bytes
  pub quote : Bytes → Bytes

abbrev pub is : Bytes → String → Bool
is s text = bytes_eq s (codes text)

-- strconv.ParseBool.
unfoldable pub parse_bool : Bytes → Option Bool
parse_bool s =
    if is s "1" || is s "t" || is s "T" || is s "TRUE" || is s "true" || is s "True"
    then some true
    else if is s "0" || is s "f" || is s "F" || is s "FALSE" || is s "false" || is s "False"
    then some false
    else none

-- The range of strconv.ParseInt with 32 bits.
abbrev pub in_32_bits : ℤ → Bool
in_32_bits (pos n) = ltb n (2 ^ 31)
in_32_bits (negsuc n) = ltb n (2 ^ 31)

abbrev pub seconds : ℕ → ℤ
seconds n = pos (n * 1000000000)

-- What is read with envDuration.
pub record Durations : Type 0 where
  pub read_header_timeout : ℤ
  pub read_timeout : ℤ
  pub write_timeout : ℤ
  pub idle_timeout : ℤ
  pub statement_timeout : ℤ
  pub idle_in_tx_timeout : ℤ
  pub auth_cache_ttl : ℤ
  pub key_rotate_overlap : ℤ
  pub database_conn_lifetime : ℤ

-- What is read with envInt64, envInt, envFloat64 and envInt32.
pub record Numbers (Float : Type 0) : Type 0 where
  pub max_request_body_bytes : ℤ
  pub max_response_body_bytes : ℤ
  pub max_statement_bytes : ℤ
  pub max_statement_params : ℤ
  pub auth_cache_size : ℤ
  pub rate_limit_burst : ℤ
  pub rate_limit_per_second : Float
  pub database_max_conns : ℤ
  pub database_min_conns : ℤ

pub record Config (Float : Type 0) : Type 0 where
  pub http_addr : Bytes
  pub insecure_http : Bool
  pub trust_proxy : Bool
  pub database_url : Bytes
  pub migrations_database_url : Bytes
  pub gateway_password : Bytes
  pub owner_password : Bytes
  pub audit_disabled : Bool
  pub audit_include_sql : Bool
  pub mcp_enabled : Bool
  pub metrics_enabled : Bool
  pub migrate_on_start : Bool
  pub log_level : Bytes
  pub log_format : Bytes
  pub otel_endpoint : Bytes
  pub durations : Durations
  pub numbers : Numbers Float

module _ {Float : Type 0} (e : Env Float) where
  abbrev pub get : String → Bytes
  get key = e.getenv (codes key)

  unfoldable pub env_or : (key fallback : String) → Bytes
  env_or key fallback = if is (get key) "" then codes fallback else get key

  -- A value that does not parse is the fallback.
  unfoldable pub env_bool : String → (fallback : Bool) → Bool
  env_bool key fallback =
      if is (get key) ""
      then fallback
      else elim (parse_bool (get key)) [ none ↦ fallback | some b ↦ b ]

  -- `fmt.Errorf("%s: %w", key, err)`.
  abbrev keyed : {A : Type 0} → String → Result Bytes A → Result Bytes A
  keyed key (ok a) = ok a
  keyed key (err msg) = err (codes key ++ (codes ": " ++ msg))

  abbrev parsed : Bytes → Option ℤ → Result Bytes ℤ
  parsed s (some n) = ok n
  parsed s none = err (e.number_error s)

  -- envInt and envInt64 are one function of the value.
  unfoldable pub env_int : String → (fallback : ℤ) → Result Bytes ℤ
  env_int key fallback =
      if is (get key) "" then ok fallback else keyed key (parsed (get key) (atoi (get key)))

  abbrev narrow : Option ℤ → Option ℤ
  narrow none = none
  narrow (some n) = if in_32_bits n then some n else none

  unfoldable pub env_int32 : String → (fallback : ℤ) → Result Bytes ℤ
  env_int32 key fallback =
      if is (get key) ""
      then ok fallback
      else keyed key (parsed (get key) (narrow (atoi (get key))))

  unfoldable pub env_float64 : String → (fallback : Float) → Result Bytes Float
  env_float64 key fallback =
      if is (get key) "" then ok fallback else keyed key (e.parse_float (get key))

  unfoldable pub env_duration : String → (fallback : ℤ) → Result Bytes ℤ
  env_duration key fallback =
      if is (get key) "" then ok fallback else keyed key (e.parse_duration (get key))

  unfoldable pub load_secret_from_file : (name : Bytes) → (current : Bytes) → Result Bytes Bytes
  load_secret_from_file name current =
      let path = e.getenv (name ++ codes "_FILE") in
      if not (is current "")
      then ok current
      else if is path ""
      then ok (codes "")
      else elim (e.read_file path) [
        | err msg ↦
            err
              (codes "read " ++ (name ++ (codes "_FILE " ++ (e.quote path ++ (codes ": " ++ msg)))))
        | ok content ↦ ok (trim_space content)
      ]
