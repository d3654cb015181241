-- ===== src/Config/Tests.antt =====
-- The theorems about internal/config/config.go at concrete inputs.
use agentic_coop_db.Prelude.{ℕ, pos, ◌≡◌, Bytes, codes, ok, err}
use agentic_coop_db.Config.{Env}
use agentic_coop_db.Config.Load.{load}
use agentic_coop_db.Config.Loaded.{only_url, default_config, load_default, IsUsable, load-IsUsable}

abbrev url : Bytes
url = codes "postgres://gateway@db/app"

abbrev env : Env ℕ
env = record {
  getenv = only_url url;
  read_file = λ path. err (codes "no such file");
  parse_duration = λ s. ok (pos 1);
  parse_float = λ s. ok 1;
  sixty = 60;
  number_error = λ s. codes "invalid syntax";
  print_duration = λ d. codes "1s";
  quote = λ s. s;
}

loads : load env ≡ ok (default_config 60 url)
loads = load_default env b'p' (codes "ostgres://gateway@db/app")

load-IsUsable_example : IsUsable {Float = ℕ} (default_config 60 url)
load-IsUsable_example = load-IsUsable env (default_config 60 url) loads
