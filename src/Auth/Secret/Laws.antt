-- ===== src/Auth/Secret/Laws.antt =====
-- The comparison of hashes, and what VerifySecret accepts (internal/auth/key.go).
use agentic_coop_db.Prelude.{
  ℕ, ◌<◌, ◌≡◌, refl, sym, ap, ◌∙◌, ◌↔◌, true, some, List, [], ◌∷◌, arith, Bytes, codes,
  bytes_eq_iff, bytes_eq_refl, length, split, split-append, split_last, All,
}
use agentic_coop_db.Auth.Secret.{
  Crypto, differences, subtle_constant_time_eq, hash_secret, verify_hash, verify_parts,
  verify_secret, argon_key_len, argon_time, argon_memory, argon_threads,
}
use agentic_coop_db.Auth.Secret.Bits.{xor_byte, or_byte}
use Prim.Native.Nat.{bit_or, bit_xor}

abbrev pub IsBytes : Bytes → Type 0
IsBytes = All (λ c. c < 256)

differences_iff :
    (v : ℕ) (a b : Bytes)
    → v < 256
    → IsBytes a
    → IsBytes b
    → length a ≡ length b
    → (differences v a b ≡ 0) ↔ ((v ≡ 0) × (a ≡ b))
unfolding differences
differences_iff v [] [] hv ha hb l = ((λ e. (e, refl)), (λ e. e.0))
differences_iff v [] (y ∷ b) hv ha hb l = absurd (omega arith)
differences_iff v (x ∷ a) [] hv ha hb l = absurd (omega arith)
differences_iff v (x ∷ a) (y ∷ b) hv (hx, ha) (hy, hb) l =
    let (small, zero_iff) = xor_byte x y hx hy in
    let (small', zero_iff') = or_byte v (bit_xor x y) hv small in
    let ih = differences_iff (bit_or v (bit_xor x y)) a b small' ha hb (omega arith) in ground arith

-- The constant-time comparison answers true exactly when the two byte strings are equal.
pub subtle_constant_time_eq_iff :
    (a b : Bytes) → IsBytes a → IsBytes b → (subtle_constant_time_eq a b ≡ true) ↔ (a ≡ b)
unfolding subtle_constant_time_eq
subtle_constant_time_eq_iff a b ha hb = (
  (λ h. ground (arith, differences_iff 0 a b)),
  (λ e. ground (arith, differences_iff 0 a b, ap length e)),
)

module _ (c : Crypto) where
  -- What a stored PHC text must be for `secret` to pass against it.
  pub record Accepts (secret phc : Bytes) : Type 0 where
    pub before : Bytes
    pub version : Bytes
    pub params : Bytes
    pub salt : Bytes
    pub hash : Bytes
    pub written : split b'$' phc ≡ before ∷ codes "argon2id" ∷ version ∷ params ∷ salt ∷ hash ∷ []
    pub known : c.scan_version version ≡ some 19
    pub memory : ℕ
    pub time : ℕ
    pub threads : ℕ
    pub cost : c.scan_params params ≡ some (memory, time, threads)
    pub salt_bytes : Bytes
    pub salted : c.decode salt ≡ some salt_bytes
    pub hashed : c.decode hash ≡ some (c.id_key secret salt_bytes time memory threads argon_key_len)

  split-hash_secret :
      (secret salt : Bytes)
      → split b'$' (hash_secret c secret salt)
        ≡ []
          ∷ codes "argon2id"
          ∷ codes "v=19"
          ∷ codes "m=65536,t=2,p=2"
          ∷ c.encode salt
          ∷ c.encode (c.id_key secret salt argon_time argon_memory argon_threads argon_key_len)
          ∷ []
  unfolding split hash_secret
  split-hash_secret secret salt =
      ap (λ r. [] ∷ codes "argon2id" ∷ codes "v=19" ∷ codes "m=65536,t=2,p=2" ∷ r)
        (split-append b'$' (c.encode salt) _ (c.encode-Lacks salt)
          ∙ ap (λ r. c.encode salt ∷ r) (split_last b'$' _ (c.encode-Lacks _)))

  -- A secret passes against its own hash, for every salt.
  pub verify_secret-hash_secret :
      (secret salt : Bytes)
      → IsBytes salt
      → verify_secret c secret (hash_secret c secret salt) ≡ true
  unfolding verify_secret
  verify_secret-hash_secret secret salt hb =
      let hash = c.id_key secret salt argon_time argon_memory argon_threads argon_key_len in
      let bytes = c.id_key_bytes secret salt argon_time argon_memory argon_threads argon_key_len in
      rw
        (
          split-hash_secret secret salt,
          c.scan_version_written,
          c.scan_params_written,
          c.decode-encode salt hb,
          c.decode-encode hash bytes,
          verify_secret,
        )
        (ground (
          arith,
          c.length-id_key secret salt argon_time argon_memory argon_threads argon_key_len,
          subtle_constant_time_eq_iff hash hash bytes bytes,
          bytes_eq_refl (codes "argon2id"),
        ))

  verify_hash_sound :
      (secret salt want : Bytes) (m t p : ℕ)
      → verify_hash c secret (m, t, p) salt want ≡ true
      → IsBytes want
      → c.id_key secret salt t m p argon_key_len ≡ want
  unfolding verify_hash
  verify_hash_sound secret salt want m t p h hb = ground (
    arith,
    subtle_constant_time_eq_iff (c.id_key secret salt t m p argon_key_len) want
        (c.id_key_bytes secret salt t m p argon_key_len) hb,
  )

  verify_parts_steps :
      (secret before name version params salt hash : Bytes)
      → verify_parts c secret (before ∷ name ∷ version ∷ params ∷ salt ∷ hash ∷ []) ≡ true
      → (name ≡ codes "argon2id")
        × (c.scan_version version ≡ some 19)
        × (mtp : ℕ × ℕ × ℕ) × (c.scan_params params ≡ some mtp)
        × (s : Bytes) × (c.decode salt ≡ some s)
        × (want : Bytes) × (c.decode hash ≡ some want)
        × (verify_hash c secret mtp s want ≡ true)
  unfolding verify_parts
  verify_parts_steps secret before name version params salt hash h =
      ground (arith, bytes_eq_iff name (codes "argon2id"))

  verify_parts_sound :
      (secret phc : Bytes) (parts : List Bytes)
      → split b'$' phc ≡ parts
      → verify_parts c secret parts ≡ true
      → Accepts secret phc
  unfolding verify_parts
  verify_parts_sound secret phc (before ∷ name ∷ version ∷ params ∷ salt ∷ hash ∷ []) e h =
      let (named, known, (m, t, p), cost, s, salted, want, hashed, matches) =
        verify_parts_steps secret before name version params salt hash h in
      record {
        before = before;
        version = version;
        params = params;
        salt = salt;
        hash = hash;
        written = e ∙ ap (λ n. before ∷ n ∷ version ∷ params ∷ salt ∷ hash ∷ []) named;
        known = known;
        memory = m;
        time = t;
        threads = p;
        cost = cost;
        salt_bytes = s;
        salted = salted;
        hashed =
            hashed
            ∙ ap some (
                sym (
                  verify_hash_sound secret s want m t p matches (c.decode_bytes hash want hashed)));
      }
  verify_parts_sound secret phc _ e h = cc

  -- Only the secret whose argon2id hash under the stored salt and cost is the stored hash passes.
  pub verify_secret_sound :
      (secret phc : Bytes) → verify_secret c secret phc ≡ true → Accepts secret phc
  unfolding verify_secret
  verify_secret_sound secret phc h = verify_parts_sound secret phc (split b'$' phc) refl h
