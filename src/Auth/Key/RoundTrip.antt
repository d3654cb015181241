-- ===== src/Auth/Key/RoundTrip.antt =====
-- ParseBearer reads back what Mint writes (internal/auth/key.go).
use agentic_coop_db.Prelude.{
  ℕ, suc, ap, ◌<◌, ◌≡◌, ◌≢◌, refl, ◌⊎◌, inl, inr, true, false, Option, some, List, [], ◌∷◌, ◌++◌,
  arith, Bytes, codes, bytes_eq_iff, cut_prefix, trim_prefix, trim_space, index_byte, length,
  length-append, take, drop, take-append, get_elem?, All, IsPrinting, IsTrimmed, IsTrimmed-append,
  trim_space_of_IsTrimmed, is_space, is_printing, ok, append_assoc, nat_eq,
}
use agentic_coop_db.Auth.Key.{
  KeyEnvironment, env_live, env_dev, env_test, ParsedKey, is_valid, parse_fields, parse_env,
  parse_token, parse_bearer, token, is_base64url, RawUrlEncoding, Minted, mint, key_id_raw_bytes,
  secret_raw_bytes,
}

-- The three tags.
env_cases :
    (e : KeyEnvironment) → is_valid e ≡ true → (e ≡ env_live) ⊎ ((e ≡ env_dev) ⊎ (e ≡ env_test))
unfolding is_valid
env_cases e h =
    ground (arith, bytes_eq_iff e env_live, bytes_eq_iff e env_dev, bytes_eq_iff e env_test)

env_plain :
    (e : KeyEnvironment) → is_valid e ≡ true → All (λ c. nat_eq c b'_' ≡ false) e × (0 < length e)
env_plain e h = elim (env_cases e h) [
  | inl p ↦ rw p ((refl, (refl, (refl, (refl, tt)))), omega arith)
  | inr (inl p) ↦ rw p ((refl, (refl, (refl, tt))), omega arith)
  | inr (inr p) ↦ rw p ((refl, (refl, (refl, (refl, tt)))), omega arith)
]

index_byte-append :
    (e r : Bytes)
    → All (λ c. nat_eq c b'_' ≡ false) e
    → index_byte b'_' (e ++ (b'_' ∷ r)) ≡ some (length e)
unfolding index_byte
index_byte-append [] r h = refl
index_byte-append (c ∷ e) r h = rw (h.0, index_byte-append e r h.1)

get_elem?-append {ℓ} :
    {A : Type ℓ} (xs : List A) (y : A) (ys : List A)
    → get_elem? (xs ++ (y ∷ ys)) (length xs) ≡ some y
get_elem?-append [] y ys = refl
get_elem?-append (x ∷ xs) y ys = get_elem?-append xs y ys

drop-suc-append {ℓ} :
    {A : Type ℓ} (xs : List A) (y : A) (ys : List A) → drop (suc (length xs)) (xs ++ (y ∷ ys)) ≡ ys
drop-suc-append [] y ys = refl
drop-suc-append (x ∷ xs) y ys = drop-suc-append xs y ys

module _ (header env key_id secret : Bytes) where
  abbrev pub parsed : ParsedKey
  parsed = record { env = env; key_id = key_id; secret = secret; full_token = header }

  parse_fields-append :
      length key_id ≡ 16
      → length secret ≡ 32
      → parse_fields header env (key_id ++ (b'_' ∷ secret)) ≡ some parsed
  unfolding parse_fields
  parse_fields-append hk hs =
      let e : get_elem? (key_id ++ (b'_' ∷ secret)) 16 ≡ some b'_' =
        rw hk at (get_elem?-append key_id b'_' secret) in
      let t : take 16 (key_id ++ (b'_' ∷ secret)) ≡ key_id =
        rw hk at (take-append key_id (b'_' ∷ secret)) in
      let d : drop 17 (key_id ++ (b'_' ∷ secret)) ≡ secret =
        rw hk at (drop-suc-append key_id b'_' secret) in
      ground (arith, length-append key_id (b'_' ∷ secret))

  parse_env-append :
      is_valid env ≡ true
      → length key_id ≡ 16
      → length secret ≡ 32
      → parse_env header (env ++ (b'_' ∷ (key_id ++ (b'_' ∷ secret)))) ≡ some parsed
  unfolding parse_env
  parse_env-append hv hk hs =
      let rest = key_id ++ (b'_' ∷ secret) in
      let (plain, nonempty) = env_plain env hv in
      rw (index_byte-append env rest plain, take-append, drop-suc-append, hv, parse_env)
        (ground (arith, parse_fields-append hk hs))

is_base64url-IsPrinting : (c : ℕ) → is_base64url c ≡ true → IsPrinting c
unfolding is_base64url is_printing is_space
is_base64url-IsPrinting c h = ground arith

All-IsPrinting : (s : Bytes) → All (λ c. is_base64url c ≡ true) s → All IsPrinting s
All-IsPrinting [] a = tt
All-IsPrinting (c ∷ s) (p, a) = (is_base64url-IsPrinting c p, All-IsPrinting s a)

ne-nil_of_length : (s : Bytes) → length s ≡ 32 → s ≢ []
ne-nil_of_length s h e = absurd (omega (arith, ap length e))

acd-IsPrinting : All IsPrinting (codes "acd_") × All IsPrinting (codes "Bearer")
unfolding is_printing is_space
acd-IsPrinting =
    ((refl, (refl, (refl, (refl, tt)))), (refl, (refl, (refl, (refl, (refl, (refl, tt)))))))

module _ (env key_id secret : Bytes) (hv : is_valid env ≡ true) (hk : length key_id ≡ 16)
    (hs : length secret ≡ 32) (hp : All IsPrinting secret) where
  abbrev whole : Bytes
  whole = token env key_id secret

  token-IsTrimmed : IsTrimmed whole × IsTrimmed (codes "Bearer " ++ whole)
  unfolding token
  token-IsTrimmed =
      let m = env ++ (b'_' ∷ (key_id ++ (b'_' ∷ []))) in
      let e : whole ≡ codes "acd_" ++ (m ++ secret) = simp append_assoc in
      let e' : codes "Bearer " ++ whole ≡ codes "Bearer" ++ ((codes " acd_" ++ m) ++ secret) =
        simp append_assoc in
      let n = ne-nil_of_length secret hs in
      (
        rw e (IsTrimmed-append (codes "acd_") m secret (λ x. cc) acd-IsPrinting.0 n hp),
        rw e' (
            IsTrimmed-append (codes "Bearer") (codes " acd_" ++ m) secret (λ x. cc) acd-IsPrinting.1
              n hp),
      )

  parse_token-token : parse_token whole ≡ some (parsed whole env key_id secret)
  unfolding parse_token token cut_prefix
  parse_token-token = parse_env-append whole env key_id secret hv hk hs

  parse_bearer-token :
      (parse_bearer whole ≡ some (parsed whole env key_id secret))
      × (parse_bearer (codes "Bearer " ++ whole) ≡ some (parsed whole env key_id secret))
  unfolding parse_bearer trim_prefix token
  parse_bearer-token =
      let trimmed : trim_space whole ≡ whole = trim_space_of_IsTrimmed whole token-IsTrimmed.0 in
      let trimmed' : trim_space (codes "Bearer " ++ whole) ≡ codes "Bearer " ++ whole =
        trim_space_of_IsTrimmed (codes "Bearer " ++ whole) token-IsTrimmed.1 in
      (
        rw (trimmed, parse_bearer) (rw (trimmed, parse_bearer) parse_token-token),
        rw (trimmed', parse_bearer) (rw (trimmed, parse_bearer) parse_token-token),
      )

mint_ok :
    (b64 : RawUrlEncoding) (env : KeyEnvironment) (rand rand' : ℕ → Option Bytes) (m : Minted)
    → mint b64 env rand rand' ≡ ok m
    → (ids : Bytes) × (secs : Bytes) × (is_valid env ≡ true)
      × (rand key_id_raw_bytes ≡ some ids)
      × (rand' secret_raw_bytes ≡ some secs)
      × (m.key_id ≡ b64.encode ids)
      × (m.secret ≡ b64.encode secs)
      × (m.full_token ≡ token env (b64.encode ids) (b64.encode secs))
unfolding mint
mint_ok b64 env rand rand' m h = ground arith

-- A minted token, with or without "Bearer " before it, is parsed back into the environment it was
-- minted for and the key id and secret that Mint returned, for any random bytes, where rand.Read
-- fills the whole buffer.
pub parse_bearer-mint :
    (b64 : RawUrlEncoding) (env : KeyEnvironment) (rand rand' : ℕ → Option Bytes) (m : Minted)
    → ((n : ℕ) (s : Bytes) → rand n ≡ some s → length s ≡ n)
    → ((n : ℕ) (s : Bytes) → rand' n ≡ some s → length s ≡ n)
    → mint b64 env rand rand' ≡ ok m
    → (parse_bearer m.full_token ≡ some (parsed m.full_token env m.key_id m.secret))
      × (parse_bearer (codes "Bearer " ++ m.full_token)
          ≡ some (parsed m.full_token env m.key_id m.secret))
parse_bearer-mint b64 env rand rand' m full full' h =
    let (ids, secs, valid, ids_read, secs_read, same_id, same_secret, same_token) =
      mint_ok b64 env rand rand' m h in
    rw (same_token, same_id, same_secret)
      (parse_bearer-token env (b64.encode ids) (b64.encode secs) valid
        (b64.length-encode 4 ids (full 12 ids ids_read))
        (b64.length-encode 8 secs (full' 24 secs secs_read))
        (All-IsPrinting _ (b64.encode_alphabet secs)))
