-- ===== src/Auth/Cache.antt =====
-- internal/auth/cache.go: the verify cache, over the bounded LRU map of golang-lru.
pub mod Reads
pub mod History
use agentic_coop_db.Prelude.{
  ℕ, ◌+◌, ◌-◌, ◌*◌, ◌≡◌, ◌≢◌, ◌⊎◌, Bool, true, false, Option, none, some, List, [], ◌∷◌, Bytes,
  contains, delete, ltb, nat_eq, if◌then◌else◌,
}
use agentic_coop_db.LruCache.{Lru}
use agentic_coop_db.Auth.Record.{KeyRecord}

pub record CachedKey : Type 0 where
  pub rec : KeyRecord
  pub verified_at : ℕ

module _ (l : Lru CachedKey) where
  pub record VerifyCache : Type 0 where
    pub lru : l.Cache
    pub ttl : ℕ
    pub revoked : List Bytes

  -- A size or TTL that is not positive is 0 here.
  unfoldable pub new_verify_cache : ℕ → ℕ → VerifyCache
  new_verify_cache size ttl = record {
    lru = l.new (if nat_eq size 0 then 1024 else size);
    ttl = if nat_eq ttl 0 then 5 * 60 * 1000000000 else ttl;
    revoked = [];
  }

  -- What Get does with the entry that the LRU map returned.
  unfoldable pub check_entry : VerifyCache → ℕ → Bytes → CachedKey → VerifyCache × Option KeyRecord
  check_entry c now token v =
      if ltb c.ttl (now - v.verified_at)
      then (record c { lru = l.remove c.lru token }, none)
      else if contains c.revoked v.rec.id
      then (record c { lru = l.remove c.lru token }, none)
      else (c, some v.rec)

  -- `now` is what time.Now returns.
  unfoldable pub get : VerifyCache → ℕ → Bytes → VerifyCache × Option KeyRecord
  unfolding check_entry
  get c now token =
      let (lru', found) = l.get c.lru token in
      elim found [
        | none ↦ (record c { lru = lru' }, none)
        | some v ↦ check_entry (record c { lru = lru' }) now token v
      ]

  unfoldable pub put : VerifyCache → ℕ → Bytes → KeyRecord → VerifyCache
  put c now token rec = record c {
    lru = l.add c.lru token (record { rec = rec; verified_at = now });
    revoked = delete rec.id c.revoked;
  }

  unfoldable pub revoke_by_dbid : VerifyCache → Bytes → VerifyCache
  revoke_by_dbid c key_dbid = elim key_dbid [
    | [] ↦ c
    | b ∷ s ↦ record c { revoked = (b ∷ s) ∷ c.revoked }
  ]

  unfoldable pub len : VerifyCache → ℕ
  len c = l.len c.lru
