-- ===== src/Auth/Key/Parse.antt =====
-- What ParseBearer (internal/auth/key.go) accepts.
use agentic_coop_db.Prelude.{
  ℕ, zero, suc, ◌≡◌, inl, inr, ap, ◌∙◌, true, some, List, [], ◌∷◌, ◌++◌, arith, Bytes, codes,
  cut_prefix, trim_prefix, trim_space, index_byte, length, take, drop, get_elem?, Option-cases,
  length-take, length-drop, List-cases,
}
use agentic_coop_db.Auth.Key.{
  ParsedKey, is_valid, parse_fields, parse_env, parse_token, parse_bearer, token,
  key_id_encoded_len, secret_encoded_len,
}

-- `header` is the token whose parts `p` names.
pub record Spells (header : Bytes) (p : ParsedKey) : Type 0 where
  pub whole : p.full_token ≡ header
  pub joined : header ≡ token p.env p.key_id p.secret
  pub env : is_valid p.env ≡ true
  pub key_id : length p.key_id ≡ key_id_encoded_len
  pub secret : length p.secret ≡ secret_encoded_len

split_at {ℓ} :
    {A : Type ℓ} (n : ℕ) (s : List A) (b : A)
    → get_elem? s n ≡ some b
    → s ≡ take n s ++ (b ∷ drop (suc n) s)
split_at n [] b h = cc
split_at zero (c ∷ s) b h = ground arith
split_at (suc n) (c ∷ s) b h = ap (◌∷◌ c) (split_at n s b h)

index_byte_sound : (b : ℕ) (s : Bytes) (i : ℕ) → index_byte b s ≡ some i → get_elem? s i ≡ some b
unfolding index_byte
index_byte_sound b [] i h = cc
index_byte_sound b (c ∷ s) zero h = ground arith
index_byte_sound b (c ∷ s) (suc i) h = index_byte_sound b s i (ground arith)

cut_prefix_sound : (p s r : Bytes) → cut_prefix p s ≡ some r → s ≡ p ++ r
unfolding cut_prefix
cut_prefix_sound [] s r h = ground arith
cut_prefix_sound (a ∷ p) [] r h = cc
cut_prefix_sound (a ∷ p) (c ∷ s) r h = ground (arith, cut_prefix_sound p s r)

parse_fields_sound :
    (header env rest : Bytes) (p : ParsedKey)
    → parse_fields header env rest ≡ some p
    → (p.full_token ≡ header)
      × (p.env ≡ env)
      × (rest ≡ p.key_id ++ (b'_' ∷ p.secret))
      × (length p.key_id ≡ key_id_encoded_len)
      × (length p.secret ≡ secret_encoded_len)
unfolding parse_fields
parse_fields_sound header env rest p h =
    ground (arith, split_at 16 rest b'_', length-take 16 rest, length-drop 17 rest)

parse_env_sound :
    (header rest : Bytes) (p : ParsedKey)
    → parse_env header rest ≡ some p
    → (p.full_token ≡ header)
      × (is_valid p.env ≡ true)
      × (rest ≡ p.env ++ (b'_' ∷ (p.key_id ++ (b'_' ∷ p.secret))))
      × (length p.key_id ≡ key_id_encoded_len)
      × (length p.secret ≡ secret_encoded_len)
unfolding parse_env
parse_env_sound header rest p h = elim (Option-cases (index_byte b'_' rest)) [
  | inl e ↦ cc (rw (e, parse_env) at h)
  | inr (i, e) ↦ ground (
    arith,
    index_byte_sound b'_' rest i,
    split_at i rest b'_',
    parse_fields_sound header (take i rest) (drop (suc i) rest) p,
  )
]

parse_token_sound : (header : Bytes) (p : ParsedKey) → parse_token header ≡ some p → Spells header p
unfolding parse_token
parse_token_sound header p h = elim (Option-cases (cut_prefix (codes "acd_") header)) [
  | inl e ↦ cc (rw (e, parse_token) at h)
  | inr (rest, e) ↦
      let (whole, env, joined, key_id, secret) =
        parse_env_sound header rest p (rw (e, parse_token) at h) in
      record {
        whole = whole;
        joined =
            unfold token in
            (cut_prefix_sound (codes "acd_") header rest e ∙ ap (λ r. codes "acd_" ++ r) joined);
        env = env;
        key_id = key_id;
        secret = secret;
      }
]

-- The text that ParseBearer reads the token from: the header without spaces and "Bearer ".
abbrev pub stripped : Bytes → Bytes
stripped header = trim_space (trim_prefix (codes "Bearer ") (trim_space header))

-- An accepted header is exactly `acd_<env>_<keyID>_<secret>`, with optional spaces and "Bearer "
-- before it, for a known env, a key id of 16 bytes and a secret of 32, and the parts are its parts.
pub parse_bearer_sound :
    (header : Bytes) (p : ParsedKey) → parse_bearer header ≡ some p → Spells (stripped header) p
unfolding parse_bearer
parse_bearer_sound header p h = elim (List-cases (trim_space header)) [
  | inl e ↦ cc (rw (e, parse_bearer) at h)
  | inr (c, s, e) ↦ parse_token_sound _ p (rw e (rw (e, parse_bearer) at h))
]

-- The token that the key carries is itself parsed to that key.
pub parse_bearer-parse_token :
    (header : Bytes) (p : ParsedKey)
    → parse_bearer header ≡ some p
    → parse_token p.full_token ≡ some p
unfolding parse_bearer
parse_bearer-parse_token header p h = elim (List-cases (trim_space header)) [
  | inl e ↦ cc (rw (e, parse_bearer) at h)
  | inr (c, s, e) ↦
      let parsed = rw (e, parse_bearer) at h in
      ap parse_token (parse_token_sound _ p parsed).whole ∙ parsed
]
