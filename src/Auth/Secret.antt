-- ===== src/Auth/Secret.antt =====
-- internal/auth/key.go: the argon2id hash of a secret and its check. argon2, base64 and fmt.Sscanf
-- are parameters.
pub mod Laws
pub mod Example
mod Bits
use Prim.Native.Nat.{bit_or, bit_xor}
use agentic_coop_db.Prelude.{
  ℕ, suc, ◌+◌, ◌*◌, ◌≤◌, ◌<◌, ◌≡◌, Bool, true, false, not, ◌||◌, Option, none, some, List, [], ◌∷◌,
  ◌++◌, Bytes, codes, bytes_eq, length, Lacks, split, All, nat_eq, if◌then◌else◌,
}

-- What the code calls: argon2.IDKey (secret, salt, time, memory, threads, length), the standard
-- base64 alphabet without padding, and fmt.Sscanf with the formats "v=%d" and "m=%d,t=%d,p=%d". The
-- laws are the documented ones, the last two at the texts that HashSecret writes.
pub record Crypto : Type 0 where
  pub id_key : Bytes → Bytes → ℕ → ℕ → ℕ → ℕ → Bytes
  pub encode : Bytes → Bytes
  pub decode : Bytes → Option Bytes
  pub scan_version : Bytes → Option ℕ
  pub scan_params : Bytes → Option (ℕ × ℕ × ℕ)
  pub length-id_key : (secret salt : Bytes) (t m p n : ℕ) → length (id_key secret salt t m p n) ≡ n
  pub id_key_bytes :
      (secret salt : Bytes) (t m p n : ℕ) → All (λ c. c < 256) (id_key secret salt t m p n)
  pub decode_bytes : (s r : Bytes) → decode s ≡ some r → All (λ c. c < 256) r
  pub decode-encode : (s : Bytes) → All (λ c. c < 256) s → decode (encode s) ≡ some s
  pub encode-Lacks : (s : Bytes) → Lacks b'$' (encode s)
  pub scan_version_written : scan_version (codes "v=19") ≡ some 19
  pub scan_params_written : scan_params (codes "m=65536,t=2,p=2") ≡ some (65536, 2, 2)

abbrev pub argon_time : ℕ
argon_time = 2

abbrev pub argon_memory : ℕ
argon_memory = 64 * 1024

abbrev pub argon_threads : ℕ
argon_threads = 2

abbrev pub argon_key_len : ℕ
argon_key_len = 32

abbrev pub argon_version : ℕ
argon_version = 19

-- The loop `v |= a[i] ^ b[i]`.
unfoldable pub differences : ℕ → Bytes → Bytes → ℕ
differences v (a ∷ s) (b ∷ t) = differences (bit_or v (bit_xor a b)) s t
differences v _ _ = v

unfoldable pub subtle_constant_time_eq : Bytes → Bytes → Bool
unfolding differences
subtle_constant_time_eq a b =
    if not (nat_eq (length a) (length b)) then false else nat_eq (differences 0 a b) 0

module _ (c : Crypto) where
  -- The PHC text; the numbers that %d prints are constants. `salt` is what rand.Read returned.
  unfoldable pub hash_secret : Bytes → Bytes → Bytes
  hash_secret secret salt =
      codes "$argon2id$v=19$m=65536,t=2,p=2$"
      ++ (c.encode salt
          ++ (b'$'
              ∷ c.encode
                  (c.id_key secret salt argon_time argon_memory argon_threads argon_key_len)))

  -- The comparison, once the parts are decoded.
  unfoldable pub verify_hash : Bytes → ℕ × ℕ × ℕ → Bytes → Bytes → Bool
  verify_hash secret (m, t, p) salt want =
      if not (nat_eq (length want) argon_key_len)
      then false
      else subtle_constant_time_eq (c.id_key secret salt t m p argon_key_len) want

  unfoldable pub verify_parts : Bytes → List Bytes → Bool
  verify_parts secret (_ ∷ name ∷ version ∷ params ∷ salt ∷ hash ∷ []) =
      if not (bytes_eq name (codes "argon2id")) then false else elim (c.scan_version version) [
        | none ↦ false
        | some v ↦ if not (nat_eq v argon_version) then false else elim (c.scan_params params) [
          | none ↦ false
          | some mtp ↦ elim (c.decode salt) [
            | none ↦ false
            | some s ↦ elim (c.decode hash) [
              | none ↦ false
              | some want ↦ verify_hash secret mtp s want
            ]
          ]
        ]
      ]
  verify_parts secret _ = false

  -- `true` is a nil error, `false` is ErrInvalidKey.
  unfoldable pub verify_secret : Bytes → Bytes → Bool
  unfolding verify_parts verify_hash
  verify_secret secret phc = verify_parts secret (split b'$' phc)
