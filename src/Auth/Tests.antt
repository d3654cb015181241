-- ===== src/Auth/Tests.antt =====
-- The theorems about internal/auth at concrete inputs.
use agentic_coop_db.Prelude.{
  ℕ, zero, suc, ◌≡◌, refl, arith, Bool, true, false, Option, none, some, List, [], ◌∷◌, ◌++◌, Bytes,
  codes, bytes_eq, length, Result, ok, err, if◌then◌else◌, contains, cut_prefix, trim_prefix,
  trim_space, index_byte, trim_from, front_space, back_space, ltb, is_space, split, delete,
}
use agentic_coop_db.LruCache.{Lru}
use agentic_coop_db.LruCache.Assoc.{assoc}
use agentic_coop_db.Auth.Record.{KeyRecord, active}
use agentic_coop_db.Auth.Cache
use agentic_coop_db.Auth.Cache.{
  CachedKey, VerifyCache, new_verify_cache, check_entry, revoke_by_dbid,
}
use agentic_coop_db.Auth.Cache.History.{Call, after, step, get-after, is_revoked, last_put}
use agentic_coop_db.Auth.Key.{
  ParsedKey, Minted, parse_bearer, parse_token, parse_env, parse_fields, is_valid, mint, token,
  env_live,
}
use agentic_coop_db.Auth.Secret.{
  hash_secret, verify_secret, subtle_constant_time_eq, verify_parts, verify_hash, differences,
}
use agentic_coop_db.Auth.Secret.Example.{crypto}
use agentic_coop_db.Auth.Secret.Laws.{IsBytes, verify_secret-hash_secret}
use agentic_coop_db.Auth.Middleware.{
  AuthError, key_not_found, Clock, WorkspaceContext, passed, authenticate, resolve, look_up,
  verify_and_put, answer, cache_key,
}
use agentic_coop_db.Auth.Key.RoundTrip.{parse_bearer-mint, parsed}
use agentic_coop_db.Auth.Key.{env_dev}
use agentic_coop_db.Auth.Key.Example.{raw_url}
use agentic_coop_db.Auth.Middleware.{lookup_failed, key_not_found}
use agentic_coop_db.Auth.Middleware.Race.{raced, resolve-after-revoke}
use agentic_coop_db.Auth.Middleware.Genuine.{
  IsGenuine, Shown, authenticate_genuine, authenticate-IsGenuine,
}
use agentic_coop_db.Prelude.{◌-◌, ◌≤◌, bytes_eq_iff}

abbrev pub key_id : Bytes
key_id = codes "ABCDEFGHIJKLMNOP"

abbrev pub secret : Bytes
secret = codes "0123456789abcdef0123456789abcdef"

abbrev pub header : Bytes
header = codes "Bearer " ++ token env_live key_id secret

abbrev pub salt : Bytes
salt = codes "0123456789abcdef"

abbrev pub row : KeyRecord
row = record {
  id = codes "k1";
  workspace_id = codes "w1";
  key_id = key_id;
  secret_hash = hash_secret crypto secret salt;
  env = env_live;
  pg_role = codes "dbuser";
  name = codes "ci";
  created_at = 0;
  last_used_at = none;
  expires_at = none;
  revoked_at = none;
  replaces_key_id = none;
}

abbrev pub keys : Lru CachedKey
keys = assoc CachedKey

abbrev pub digest : Bytes → Bytes
digest s = s

abbrev pub find_row : Bytes → Result AuthError KeyRecord
find_row k = if bytes_eq k key_id then ok row else err key_not_found

abbrev pub at_5 : Clock
at_5 = record { read_at = 5; put_at = 6; checked_at = 7 }

abbrev pub cold : VerifyCache keys
cold = record { lru = []; ttl = 100; revoked = [] }

abbrev parsed_key : ParsedKey
parsed_key = record {
  env = env_live;
  key_id = key_id;
  secret = secret;
  full_token = token env_live key_id secret;
}

abbrev pub context : WorkspaceContext
context = record {
  workspace_id = codes "w1";
  key_id = key_id;
  key_dbid = codes "k1";
  pg_role = codes "dbuser";
  env = env_live;
}

abbrev all_bytes : Bytes → Bool
all_bytes [] = true
all_bytes (b ∷ s) = if ltb b 256 then all_bytes s else false

All_check : (s : Bytes) → all_bytes s ≡ true → IsBytes s
All_check [] h = tt
All_check (b ∷ s) h = (ground arith, All_check s (ground arith))

-- White space of one, two and three bytes around a text.
abbrev spaced : Bytes
spaced =
    0xC2
    ∷ 0x85
    ∷ b' '
    ∷ 0xE2
    ∷ 0x80
    ∷ 0x83
    ∷ (codes "ab c" ++ (0xE3 ∷ 0x80 ∷ 0x80 ∷ 0xC2 ∷ 0xA0 ∷ 10 ∷ []))

trims : trim_space spaced ≡ codes "ab c"
unfolding trim_space trim_from front_space back_space is_space
trims = refl

parses : parse_bearer header ≡ some parsed_key
unfolding parse_bearer parse_token parse_env parse_fields is_valid token bytes_eq cut_prefix
    trim_prefix trim_space index_byte trim_from front_space back_space is_space
parses = refl

verified : verify_secret crypto secret row.secret_hash ≡ true
verified = verify_secret-hash_secret crypto secret salt (All_check salt refl)

pub admits : (authenticate keys crypto digest [] find_row at_5 cold header).1 ≡ passed context
unfolding authenticate resolve look_up verify_and_put answer active Cache.get Cache.put cache_key
    parse_bearer parse_token parse_env parse_fields is_valid token bytes_eq cut_prefix trim_prefix
    trim_space index_byte trim_from front_space back_space is_space verify_secret verify_parts
    verify_hash hash_secret subtle_constant_time_eq differences split
admits = refl

pub cold-IsGenuine : IsGenuine keys crypto digest [] cold
cold-IsGenuine = record { backed = λ tok e h. cc }

pub finds_row : (k : Bytes) (rec : KeyRecord) → find_row k ≡ ok rec → rec.key_id ≡ k
finds_row k rec h = ground (arith, bytes_eq_iff k key_id)

authenticate_genuine_example :
    Shown keys crypto digest [] find_row finds_row at_5 cold header context
authenticate_genuine_example =
    authenticate_genuine keys crypto digest [] find_row finds_row (λ s s' e. e) at_5 cold header
      context cold-IsGenuine admits

authenticate-IsGenuine_example :
    IsGenuine keys crypto digest [] (authenticate keys crypto digest [] find_row at_5 cold header).0
authenticate-IsGenuine_example =
    authenticate-IsGenuine keys crypto digest [] find_row finds_row at_5 cold header cold-IsGenuine

abbrev fails : Bytes → Result AuthError KeyRecord
fails k = err lookup_failed

resolve-after-revoke_example :
    (resolve keys crypto digest [] fails at_5
      (raced keys crypto digest [] cold parsed_key row 3)
      parsed_key).result
    ≡ ok row
resolve-after-revoke_example =
    resolve-after-revoke keys crypto digest [] cold parsed_key row 3 at_5 fails verified
      (omega arith)

abbrev put_once : List Call
put_once = Call.get 4 (codes "t") ∷ Call.put 3 (codes "t") row ∷ []

serves : (Cache.get keys (after keys 10 100 put_once) 9 (codes "t")).1 ≡ some row
unfolding Cache.get Cache.put check_entry new_verify_cache after step bytes_eq delete contains
serves = refl

get-after_example :
    (t : ℕ) × (last_put put_once (codes "t") ≡ some (record { rec = row; verified_at = t }))
    × (9 - t ≤ (new_verify_cache keys 10 100).ttl)
    × (is_revoked put_once row.id ≡ false)
get-after_example = get-after keys 10 100 put_once 9 (codes "t") row serves

abbrev zeros : ℕ → Bytes
zeros zero = []
zeros (suc n) = 0 ∷ zeros n

length-zeros : (n : ℕ) (s : Bytes) → some (zeros n) ≡ some s → length s ≡ n
length-zeros zero s h = ground arith
length-zeros (suc n) [] h = cc
length-zeros (suc n) (b ∷ s) h =
    let e : zeros n ≡ s = ground arith in omega (arith, length-zeros n s (rw e refl))

abbrev random : ℕ → Option Bytes
random n = some (zeros n)

abbrev minted : Minted
minted = record {
  key_id = codes "AAAAAAAAAAAAAAAA";
  secret = codes "AAAAAAAAAAAAAAAAAAAAAAAAAAAAAAAA";
  full_token = codes "acd_dev_AAAAAAAAAAAAAAAA_AAAAAAAAAAAAAAAAAAAAAAAAAAAAAAAA";
}

mints : mint raw_url env_dev random random ≡ ok minted
unfolding mint is_valid bytes_eq token
mints = refl

parse_bearer-mint_example :
    (parse_bearer minted.full_token
      ≡ some (parsed minted.full_token env_dev minted.key_id minted.secret))
    × (parse_bearer (codes "Bearer " ++ minted.full_token)
        ≡ some (parsed minted.full_token env_dev minted.key_id minted.secret))
parse_bearer-mint_example =
    parse_bearer-mint raw_url env_dev random random minted length-zeros length-zeros mints
