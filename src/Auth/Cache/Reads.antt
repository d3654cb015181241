-- ===== src/Auth/Cache/Reads.antt =====
-- What a read of the verify cache (internal/auth/cache.go) returns, and what it leaves behind.
use agentic_coop_db.Prelude.{
  ℕ, ◌-◌, ◌≤◌, ◌≡◌, ◌↔◌, ap, ◌∙◌, ◌⊎◌, inl, inr, false, none, some, Bytes, contains, bytes_eq,
  bytes_eq_iff, arith, Option-cases, Bool-cases,
}
use agentic_coop_db.Auth.Record.{KeyRecord}
use agentic_coop_db.LruCache.{Lru}
use agentic_coop_db.Auth.Cache
use agentic_coop_db.Auth.Cache.{CachedKey, VerifyCache, check_entry, put, revoke_by_dbid}

module _ (l : Lru CachedKey) where
  -- The entry behind an answer of Get.
  pub record Serves (c : VerifyCache l) (now : ℕ) (token : Bytes) (rec : KeyRecord) : Type 0 where
    pub entry : CachedKey
    pub stored : l.peek c.lru token ≡ some entry
    pub same : entry.rec ≡ rec
    pub fresh : now - entry.verified_at ≤ c.ttl
    pub allowed : contains c.revoked rec.id ≡ false

  get_entry :
      (c : VerifyCache l) (now : ℕ) (token : Bytes) (v : CachedKey)
      → l.peek c.lru token ≡ some v
      → Cache.get l c now token
        ≡ check_entry l (record c { lru = (l.get c.lru token).0 }) now token v
  unfolding Cache.get
  get_entry c now token v h = ground (arith, l.get-peek c.lru token)

  get_miss :
      (c : VerifyCache l) (now : ℕ) (token : Bytes)
      → l.peek c.lru token ≡ none
      → (Cache.get l c now token).1 ≡ none
  unfolding Cache.get
  get_miss c now token h = ground (arith, l.get-peek c.lru token)

  check_entry_result :
      (c : VerifyCache l) (now : ℕ) (token : Bytes) (v : CachedKey) (rec : KeyRecord)
      → ((check_entry l c now token v).1 ≡ some rec)
        ↔ ((v.rec ≡ rec) × (now - v.verified_at ≤ c.ttl) × (contains c.revoked v.rec.id ≡ false))
  unfolding check_entry
  check_entry_result c now token v rec = ground arith

  get_sound :
      (c : VerifyCache l) (now : ℕ) (token : Bytes) (rec : KeyRecord)
      → (Cache.get l c now token).1 ≡ some rec
      → Serves c now token rec
  get_sound c now token rec h = elim (Option-cases (l.peek c.lru token)) [
    | inl e ↦ cc (get_miss c now token e)
    | inr (v, e) ↦
        let (same, fresh, allowed) =
          (check_entry_result (record c { lru = (l.get c.lru token).0 }) now token v rec).0
            (rw (get_entry c now token v e) at h) in
        record { entry = v; stored = e; same = same; fresh = fresh; allowed = rw same at allowed }
  ]

  -- Get answers exactly with the record of a stored entry that is within its TTL and whose row is
  -- not marked revoked.
  pub get_iff :
      (c : VerifyCache l) (now : ℕ) (token : Bytes) (rec : KeyRecord)
      → ((Cache.get l c now token).1 ≡ some rec) ↔ Serves c now token rec
  get_iff c now token rec = (
    get_sound c now token rec,
    λ s. rw (get_entry c now token s.entry s.stored) (
        (check_entry_result (record c { lru = (l.get c.lru token).0 }) now token s.entry rec).1
          (s.same, s.fresh, ap (λ r. contains c.revoked r.id) s.same ∙ s.allowed)),
  )

  -- `q` reads in `after` as it does in `before`, or not at all.
  abbrev pub Shrinks : l.Cache → l.Cache → Bytes → Type 0
  Shrinks before after q = (l.peek after q ≡ none) ⊎ (l.peek after q ≡ l.peek before q)

  remove-Shrinks : (c : l.Cache) (k q : Bytes) → Shrinks c (l.remove c k) q
  remove-Shrinks c k q = elim (Bool-cases (bytes_eq k q)) [
    | inl e ↦ inl (rw (← (bytes_eq_iff k q).0 e) (l.peek-remove_self c k))
    | inr e ↦ inr (l.peek-remove_ne c k q (λ p. cc ((bytes_eq_iff k q).1 p)))
  ]

  -- A read changes no revocation mark and no TTL.
  pub get-marks :
      (c : VerifyCache l) (now : ℕ) (token : Bytes)
      → ((Cache.get l c now token).0.revoked ≡ c.revoked)
        × ((Cache.get l c now token).0.ttl ≡ c.ttl)
  unfolding Cache.get
  get-marks c now token = ground arith

  -- A read adds and changes no entry.
  pub get-Shrinks :
      (c : VerifyCache l) (now : ℕ) (token q : Bytes)
      → Shrinks c.lru (Cache.get l c now token).0.lru q
  unfolding Cache.get
  get-Shrinks c now token q =
      ground (arith, l.peek-get c.lru token q, remove-Shrinks (l.get c.lru token).0 token q)
