-- ===== src/Auth/Key.antt =====
-- internal/auth/key.go: bearer tokens. A Go string is its list of bytes. What crypto/rand returns and
-- the base64 encoder are parameters.
pub mod Parse
pub mod RoundTrip
pub mod Example
use agentic_coop_db.Prelude.{
  ℕ, suc, ◌+◌, ◌*◌, ◌≤◌, ◌≡◌, Bool, true, false, not, ◌||◌, Option, none, some, List, [], ◌∷◌, ◌++◌,
  Bytes, codes, bytes_eq, cut_prefix, trim_prefix, trim_space, index_byte, length, take, drop, All,
  get_elem?, ltb, leb, nat_eq, ◌&&◌, if◌then◌else◌, Result, ok, err, ◌>>=◌, ◌>>◌, reject_if, or_err,
}

abbrev pub KeyEnvironment : Type 0
KeyEnvironment = Bytes

abbrev pub env_live : KeyEnvironment
env_live = codes "live"

abbrev pub env_dev : KeyEnvironment
env_dev = codes "dev"

abbrev pub env_test : KeyEnvironment
env_test = codes "test"

unfoldable pub is_valid : KeyEnvironment → Bool
is_valid e = bytes_eq e env_live || bytes_eq e env_dev || bytes_eq e env_test

abbrev pub key_id_encoded_len : ℕ
key_id_encoded_len = 16

abbrev pub secret_encoded_len : ℕ
secret_encoded_len = 32

pub record ParsedKey : Type 0 where
  pub env : KeyEnvironment
  pub key_id : Bytes
  pub secret : Bytes
  pub full_token : Bytes

-- The tail `<keyID>_<secret>`, read by position.
unfoldable pub parse_fields : Bytes → KeyEnvironment → Bytes → Option ParsedKey
parse_fields header env rest =
    if not (nat_eq (length rest) (key_id_encoded_len + 1 + secret_encoded_len))
    then none
    else elim (get_elem? rest key_id_encoded_len) [
      | none ↦ none
      | some b ↦
          if not (nat_eq b b'_')
          then none
          else some (record {
            env = env;
            key_id = take key_id_encoded_len rest;
            secret = drop (key_id_encoded_len + 1) rest;
            full_token = header;
          })
    ]

-- The part behind "acd_".
unfoldable pub parse_env : Bytes → Bytes → Option ParsedKey
parse_env header rest = elim (index_byte b'_' rest) [
  | none ↦ none
  | some sep ↦
      if ltb sep 1
      then none
      else if not (is_valid (take sep rest))
      then none
      else parse_fields header (take sep rest) (drop (suc sep) rest)
]

unfoldable pub parse_token : Bytes → Option ParsedKey
parse_token header = elim (cut_prefix (codes "acd_") header) [
  | none ↦ none
  | some rest ↦ parse_env header rest
]

-- `none` is ErrInvalidKey.
unfoldable pub parse_bearer : Bytes → Option ParsedKey
parse_bearer header = elim (trim_space header) [
  | [] ↦ none
  | c ∷ s ↦ parse_token (trim_space (trim_prefix (codes "Bearer ") (c ∷ s)))
]

-- The alphabet of base64url.
unfoldable pub is_base64url : ℕ → Bool
is_base64url c =
    (leb b'a' c && leb c b'z')
    || (leb b'A' c && leb c b'Z')
    || (leb b'0' c && leb c b'9')
    || nat_eq c b'-'
    || nat_eq c b'_'

-- base64.RawURLEncoding, as documented: four characters of the alphabet for three bytes.
pub record RawUrlEncoding : Type 0 where
  pub encode : Bytes → Bytes
  pub length-encode : (n : ℕ) (s : Bytes) → length s ≡ 3 * n → length (encode s) ≡ 4 * n
  pub encode_alphabet : (s : Bytes) → All (λ c. is_base64url c ≡ true) (encode s)

pub data MintError : Type 0 where
  invalid_env rand_failed : MintError

abbrev pub key_id_raw_bytes : ℕ
key_id_raw_bytes = 12

abbrev pub secret_raw_bytes : ℕ
secret_raw_bytes = 24

pub record Minted : Type 0 where
  pub key_id : Bytes
  pub secret : Bytes
  pub full_token : Bytes

-- fmt.Sprintf("acd_%s_%s_%s", env, keyID, secret).
unfoldable pub token : KeyEnvironment → Bytes → Bytes → Bytes
token env key_id secret = codes "acd_" ++ (env ++ (b'_' ∷ (key_id ++ (b'_' ∷ secret))))

-- `rand n` is what rand.Read fills a buffer of n bytes with, or its failure; the second buffer is
-- read by the call `rand'`.
module _ (b64 : RawUrlEncoding) where
  unfoldable pub mint : KeyEnvironment → (rand rand' : ℕ → Option Bytes) → Result MintError Minted
  mint env rand rand' = do
    reject_if (not (is_valid env)) invalid_env
    id_bytes ← or_err (rand key_id_raw_bytes) rand_failed
    sec_bytes ← or_err (rand' secret_raw_bytes) rand_failed
    ok (record {
      key_id = b64.encode id_bytes;
      secret = b64.encode sec_bytes;
      full_token = token env (b64.encode id_bytes) (b64.encode sec_bytes);
    })
