-- ===== src/Rpc/Tests.antt =====
-- The theorems about internal/rpc at concrete inputs.
use agentic_coop_db.Prelude.{
  ℕ, ◌≡◌, ◌≢◌, refl, arith, true, Option, none, some, [], ◌∷◌, Bytes, codes, bytes_eq, ok, err,
  if◌then◌else◌,
}
use agentic_coop_db.Rpc.Idempotency.{
  Row, Table, Codecs, Round, pending, select, is_for, begin_rounds, begin_or_replay, complete,
  fresh, in_progress, conflict, out_of_rounds,
}
use agentic_coop_db.Rpc.Idempotency.Table.{IsUnique}
use agentic_coop_db.Rpc.Idempotency.Begin.{IsAlone, begin_terminates}
use agentic_coop_db.Rpc.Idempotency.Replay.{IsSound, begin-complete, begin-begin}
use agentic_coop_db.Prelude.{◌↔◌, inr, Result, Lacks, Bool, false, nat_eq}
use agentic_coop_db.Rpc.Idempotency.Reach.{
  Steps, Quiet, here, next, begins, round_of, none_left, IsUnique-Steps,
}
use agentic_coop_db.Rpc.Idempotency.Hash.{payload, payload_iff}
use agentic_coop_db.Tenant.{setup, send, is_safe_role_name, all_safe, is_safe_byte}
use agentic_coop_db.Rpc.Registry
use agentic_coop_db.Rpc.Registry.{Procedure, Registry, register, set}
use agentic_coop_db.Rpc.Dispatcher.{CallInput, Session, run, query_and_commit}
use agentic_coop_db.Rpc.Dispatcher.Repeat.{IsCallable}

abbrev zip : Bytes → Option Bytes
zip b = some (31 ∷ b)

abbrev unzip : Bytes → Option Bytes
unzip [] = none
unzip (_ ∷ b) = some b

pub zip-ne-nil : (b z : Bytes) → zip b ≡ some z → z ≢ []
zip-ne-nil b [] h e = ground arith
zip-ne-nil b (x ∷ z) h e = cc

pub unzip-zip : (b z : Bytes) → zip b ≡ some z → unzip z ≡ some b
unzip-zip b [] h = ground arith
unzip-zip b (x ∷ z) h = ground arith

abbrev pub codecs : Codecs
codecs = record {
  uuid_parse = λ s. some s;
  gzip = zip;
  gunzip = unzip;
  gzip_total = λ b. (31 ∷ b, refl);
  gzip-ne-nil = zip-ne-nil;
  gunzip-gzip = unzip-zip;
}

abbrev pub ws : Bytes
ws = codes "w1"

abbrev pub key : Bytes
key = codes "retry-1"

abbrev hash : Bytes
hash = codes "h1"

abbrev row : Row
row = record {
  workspace = ws;
  key = key;
  state = pending;
  request_hash = hash;
  status_code = none;
  response_body = none;
  expires_at = 100;
}

abbrev one_row : Table
one_row = row ∷ []

abbrev pub round_at : ℕ → Round
round_at now = record {
  db_now = now;
  now = now;
  others = λ t. t;
  between = λ t. t;
  before_delete = λ t. t;
  begin_error = none;
  insert_error = none;
  select_error = none;
  delete_error = none;
  commit_error = none;
}

pub alone : (now : ℕ) → IsAlone (round_at now)
alone now = record { before = λ t. refl; within = λ t. refl }

pub sound : (now : ℕ) → IsSound (round_at now)
sound now = record {
  begin_ok = refl;
  insert_ok = refl;
  select_ok = refl;
  delete_ok = refl;
  commit_ok = refl;
}

found : select ws key one_row ≡ some row
unfolding select is_for bytes_eq
found = refl

pub empty : select ws key [] ≡ none
unfolding select
empty = refl

unique : IsUnique one_row
unfolding select
unique = (refl, tt)

begin_terminates_example :
    (begin_rounds codecs (round_at 200 ∷ round_at 201 ∷ []) ws key hash 10 one_row).1
    ≢ err out_of_rounds
begin_terminates_example =
    begin_terminates codecs ws key hash 10 (round_at 200) (round_at 201) [] one_row (λ t. refl)

abbrev body : Bytes
body = codes "{}"

begin-complete_example :
    (begin_or_replay codecs
      (round_at 50 ∷ [])
      ws
      key
      hash
      10
      (complete codecs none ws key 200 body true one_row).0).1
    ≡ ok (record { replay = true; status_code = 200; body = body })
begin-complete_example =
    begin-complete codecs ws ws key hash body 200 10 true one_row row (round_at 50) [] refl
      (λ e. cc) found refl (omega arith) (alone 50) (sound 50)

begin-begin_example :
    ((begin_or_replay codecs (round_at 50 ∷ []) ws key hash 10 []).1 ≡ ok fresh)
    × ((begin_or_replay codecs
          (round_at 55 ∷ [])
          ws
          key
          (codes "h2")
          10
          (begin_or_replay codecs (round_at 50 ∷ []) ws key hash 10 []).0).1
        ≡ err (if bytes_eq hash (codes "h2") then in_progress else conflict))
begin-begin_example =
    begin-begin codecs ws ws key hash (codes "h2") 10 [] (round_at 50) (round_at 55) [] [] refl
      (λ e. cc) empty (omega arith) (alone 55) (sound 50) (sound 55)

abbrev pub accepts : Bytes → Bytes → Option Bytes
accepts schema args = none

abbrev pub as_is : Bytes → Result Bytes Bytes
as_is args = ok args

abbrev pub as_body : Bytes → Option Bytes → ℕ → Bytes
as_body name none ms = codes "null"
as_body name (some raw) ms = raw

abbrev pub proc : Procedure Bytes
proc = record {
  name = codes "upsert_document";
  version = 1;
  description = [];
  required_role = codes "dbuser";
  body_path = codes "upsert_document.sql";
  body = codes "SELECT 1";
  schema = some (codes "{}");
}

abbrev pub registry : Registry Bytes
registry = (codes "upsert_document", proc) ∷ []

abbrev input : CallInput Bytes
input = record {
  workspace_id = ws;
  pg_role = codes "dbuser";
  name = codes "upsert_document";
  args = codes "{}";
  idempotency_key = key;
  request_hash = hash;
  statement_timeout = 5000000000;
  idle_in_tx_timeout = 5000000000;
}

abbrev pub session : Session
session = record {
  begin_error = none;
  exec = λ sent s. none;
  query = λ sent s. ok (codes "{\"id\":1}");
  commit_error = none;
  started = 10;
  ended = 20;
}

registers : register Bytes [] (some proc) ≡ ok registry
unfolding register set bytes_eq
registers = refl

pub found_proc : Registry.get Bytes registry (codes "upsert_document") ≡ some proc
unfolding Registry.get bytes_eq
found_proc = refl

callable : IsCallable Bytes Bytes accepts as_is as_body codecs registry input proc
callable = record {
  found = found_proc;
  permitted = inr refl;
  schema = codes "{}";
  has_schema = refl;
  valid = refl;
  keyed = λ e. cc;
}

runs :
    (run Bytes Bytes accepts as_is as_body codecs session proc input).result
    ≡ ok (codes "{\"id\":1}")
unfolding run query_and_commit setup send is_safe_role_name all_safe is_safe_byte bytes_eq
runs = refl

abbrev no_zero : Bytes → Bool
no_zero [] = true
no_zero (c ∷ s) = if nat_eq c 0 then false else no_zero s

Lacks-zero : (s : Bytes) → no_zero s ≡ true → Lacks 0 s
Lacks-zero [] h = tt
Lacks-zero (c ∷ s) h = (ground arith, Lacks-zero s (ground arith))

abbrev one_zero : Bytes
one_zero = 0 ∷ 1 ∷ []

payload_iff_example :
    (payload (codes "POST") (codes "/sql/execute") one_zero
      ≡ payload (codes "POST") (codes "/rpc/call") [])
    ↔ ((codes "POST" ≡ codes "POST") × (codes "/sql/execute" ≡ codes "/rpc/call") × (one_zero ≡ []))
payload_iff_example =
    payload_iff (codes "POST") (codes "/sql/execute") one_zero (codes "POST") (codes "/rpc/call") []
      (Lacks-zero (codes "POST") refl) (Lacks-zero (codes "POST") refl)
      (Lacks-zero (codes "/sql/execute") refl) (Lacks-zero (codes "/rpc/call") refl)

Quiet-round : Quiet codecs (round_at 50 ∷ [])
Quiet-round = round_of (round_at 50) [] (λ t. here t) (λ t. here t) (λ t. here t) none_left

reached : Steps codecs [] (begin_or_replay codecs (round_at 50 ∷ []) ws key hash 10 []).0
reached = next (here []) (begins (round_at 50 ∷ []) ws key hash 10 [] Quiet-round)

IsUnique-Steps_example : IsUnique (begin_or_replay codecs (round_at 50 ∷ []) ws key hash 10 []).0
IsUnique-Steps_example =
    IsUnique-Steps codecs (begin_or_replay codecs (round_at 50 ∷ []) ws key hash 10 []).0 reached
