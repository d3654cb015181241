-- ===== src/Auth/Middleware/Race.antt =====
-- A revocation between the lookup and the Put of one request (internal/auth/middleware.go).
use agentic_coop_db.Prelude.{
  ℕ, ◌-◌, ◌≤◌, ◌≡◌, refl, true, some, [], ◌∷◌, Bytes, Result, ok, contains-delete, bytes_eq_refl,
  ◌∙◌,
}
use agentic_coop_db.Auth.Record.{KeyRecord}
use agentic_coop_db.LruCache.{Lru}
use agentic_coop_db.Auth.Cache
use agentic_coop_db.Auth.Cache.{CachedKey, VerifyCache, revoke_by_dbid}
use agentic_coop_db.Auth.Cache.Reads.{get_iff}
use agentic_coop_db.Auth.Key.{ParsedKey}
use agentic_coop_db.Auth.Secret.{Crypto, verify_secret}
use agentic_coop_db.Auth.Middleware.{
  AuthError, Clock, cache_key, verify_and_put, resolve, revoke_from_cache,
}
use agentic_coop_db.Auth.Middleware.Branches.{resolve_hit}

module _ (l : Lru CachedKey) (crypto : Crypto) (digest : Bytes → Bytes) (dummy_hash : Bytes) where
  -- The cache after a request that read `rec` before the revocation and put it after.
  abbrev pub raced : VerifyCache l → ParsedKey → KeyRecord → ℕ → VerifyCache l
  raced c p rec put_at =
      (verify_and_put l crypto digest dummy_hash put_at
        (revoke_from_cache l crypto digest dummy_hash c rec.id) p rec).cache

  revoked_ttl :
      (c : VerifyCache l) (id : Bytes)
      → (revoke_from_cache l crypto digest dummy_hash c id).ttl ≡ c.ttl
  unfolding revoke_from_cache revoke_by_dbid
  revoked_ttl c [] = refl
  revoked_ttl c (b ∷ s) = refl

  raced_cache :
      (c : VerifyCache l) (p : ParsedKey) (rec : KeyRecord) (put_at : ℕ)
      → verify_secret crypto p.secret rec.secret_hash ≡ true
      → raced c p rec put_at
        ≡ Cache.put l
            (revoke_from_cache l crypto digest dummy_hash c rec.id)
            put_at
            (cache_key l crypto digest dummy_hash p)
            rec
  unfolding verify_and_put
  raced_cache c p rec put_at passes = rw (passes, raced, verify_and_put)

  put-get :
      (c : VerifyCache l) (now later : ℕ) (k : Bytes) (rec : KeyRecord)
      → later - now ≤ c.ttl
      → (Cache.get l (Cache.put l c now k rec) later k).1 ≡ some rec
  unfolding Cache.put
  put-get c now later k rec fresh = (get_iff l (Cache.put l c now k rec) later k rec).1 (record {
    entry = record { rec = rec; verified_at = now };
    stored = l.peek-add_self c.lru k _;
    same = refl;
    fresh = fresh;
    allowed = contains-delete rec.id rec.id c.revoked ∙ rw (bytes_eq_refl rec.id);
  })

  -- If a request has read the row of its key before the row is revoked, and goes on after the cache
  -- was told of the revocation, then the lookup that follows on its Put, for the same token and within
  -- the TTL of that Put, is resolved to the row as it was, whatever the store now answers.
  pub resolve-after-revoke :
      (c : VerifyCache l) (p : ParsedKey) (rec : KeyRecord) (put_at : ℕ) (t : Clock)
      (find_by_key_id : Bytes → Result AuthError KeyRecord)
      → verify_secret crypto p.secret rec.secret_hash ≡ true
      → t.read_at - put_at ≤ c.ttl
      → (resolve l crypto digest dummy_hash find_by_key_id t (raced c p rec put_at) p).result
        ≡ ok rec
  resolve-after-revoke c p rec put_at t find_by_key_id passes fresh =
      rw (raced_cache c p rec put_at passes) (
        resolve_hit l crypto digest dummy_hash find_by_key_id t _ p rec (
          put-get (revoke_from_cache l crypto digest dummy_hash c rec.id) put_at t.read_at _ rec
            (rw (revoked_ttl c rec.id) fresh)))
