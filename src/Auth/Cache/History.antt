-- ===== src/Auth/Cache/History.antt =====
-- The verify cache (internal/auth/cache.go) against the list of all calls made of it: what was put,
-- and what was revoked since.
use agentic_coop_db.Prelude.{
  ℕ, ◌-◌, ◌≤◌, ◌≡◌, ◌≢◌, refl, ◌⊎◌, inl, inr, Bool, true, false, Option, none, some, List, [], ◌∷◌,
  ◌++◌, Bytes, contains, contains-delete, contains-cons, contains-nil, bytes_eq, bytes_eq_iff,
  bytes_eq_refl, arith, ap, ◌∙◌, if◌then◌else◌, Bool-cases,
}
use agentic_coop_db.Auth.Record.{KeyRecord}
use agentic_coop_db.LruCache.{Lru}
use agentic_coop_db.Auth.Cache
use agentic_coop_db.Auth.Cache.{CachedKey, VerifyCache, new_verify_cache, revoke_by_dbid}
use agentic_coop_db.Auth.Cache.Reads.{get_iff, get-marks, get-Shrinks}

pub data Call : Type 0 where
  get : (now : ℕ) (token : Bytes) → Call
  put : (now : ℕ) (token : Bytes) (rec : KeyRecord) → Call
  revoke : (key_dbid : Bytes) → Call

-- The last record that was put under a token. A history has its last call first.
abbrev pub last_put : List Call → Bytes → Option CachedKey
last_put [] q = none
last_put (Call.get _ _ ∷ h) q = last_put h q
last_put (Call.put now token rec ∷ h) q =
    if bytes_eq token q then some (record { rec = rec; verified_at = now }) else last_put h q
last_put (Call.revoke _ ∷ h) q = last_put h q

abbrev is_empty : Bytes → Bool
is_empty [] = true
is_empty (b ∷ s) = false

-- Whether the row was revoked since a record of it was last put.
abbrev pub is_revoked : List Call → Bytes → Bool
is_revoked [] id = false
is_revoked (Call.get _ _ ∷ h) id = is_revoked h id
is_revoked (Call.put _ _ rec ∷ h) id = if bytes_eq rec.id id then false else is_revoked h id
is_revoked (Call.revoke key ∷ h) id =
    if is_empty key then is_revoked h id else if bytes_eq key id then true else is_revoked h id

-- No record of the row is put.
abbrev pub PutsNone : Bytes → List Call → Type 0
PutsNone id [] = Unit
PutsNone id (Call.get _ _ ∷ h) = PutsNone id h
PutsNone id (Call.put _ _ rec ∷ h) = (rec.id ≢ id) × PutsNone id h
PutsNone id (Call.revoke _ ∷ h) = PutsNone id h

is_revoked-after-revoke :
    (h h' : List Call) (id : Bytes)
    → id ≢ []
    → PutsNone id h'
    → is_revoked (h' ++ (Call.revoke id ∷ h)) id ≡ true
is_revoked-after-revoke h [] [] named p = absurd (named refl)
is_revoked-after-revoke h [] (b ∷ s) named p = rw (bytes_eq_refl (b ∷ s))
is_revoked-after-revoke h (Call.get _ _ ∷ h') id named p = is_revoked-after-revoke h h' id named p
is_revoked-after-revoke h (Call.put _ _ rec ∷ h') id named p =
    ground (arith, bytes_eq_iff rec.id id, is_revoked-after-revoke h h' id named p.1)
is_revoked-after-revoke h (Call.revoke key ∷ h') id named p =
    ground (arith, is_revoked-after-revoke h h' id named p)

module _ (l : Lru CachedKey) where
  unfoldable pub step : VerifyCache l → Call → VerifyCache l
  step c (Call.get now token) = (Cache.get l c now token).0
  step c (Call.put now token rec) = Cache.put l c now token rec
  step c (Call.revoke key) = revoke_by_dbid l c key

  -- The cache after all calls of a history.
  unfoldable pub after : ℕ → ℕ → List Call → VerifyCache l
  after size ttl [] = new_verify_cache l size ttl
  after size ttl (call ∷ h) = step (after size ttl h) call

  contains-revoke :
      (c : VerifyCache l) (key id : Bytes)
      → contains (revoke_by_dbid l c key).revoked id ≡ (
          if is_empty key
          then contains c.revoked id
          else if bytes_eq key id
          then true
          else contains c.revoked id)
  unfolding revoke_by_dbid
  contains-revoke c [] id = refl
  contains-revoke c (b ∷ s) id = contains-cons (b ∷ s) id c.revoked

  revoke-ttl : (c : VerifyCache l) (key : Bytes) → (revoke_by_dbid l c key).ttl ≡ c.ttl
  unfolding revoke_by_dbid
  revoke-ttl c [] = refl
  revoke-ttl c (b ∷ s) = refl

  revoke-lru : (c : VerifyCache l) (key : Bytes) → (revoke_by_dbid l c key).lru ≡ c.lru
  unfolding revoke_by_dbid
  revoke-lru c [] = refl
  revoke-lru c (b ∷ s) = refl

  module _ (size ttl : ℕ) where
    contains-after :
        (h : List Call) (id : Bytes) → contains (after size ttl h).revoked id ≡ is_revoked h id
    unfolding after step Cache.put new_verify_cache
    contains-after [] id = contains-nil id
    contains-after (Call.get now token ∷ h) id =
        ap (λ r. contains r id) (get-marks l (after size ttl h) now token).0 ∙ contains-after h id
    contains-after (Call.put now token rec ∷ h) id =
        ground (arith, contains-delete rec.id id (after size ttl h).revoked, contains-after h id)
    contains-after (Call.revoke key ∷ h) id = rw contains-revoke (rw (contains-after h id))

    peek-after :
        (h : List Call) (q : Bytes)
        → (l.peek (after size ttl h).lru q ≡ none)
          ⊎ (l.peek (after size ttl h).lru q ≡ last_put h q)
    unfolding after step Cache.put new_verify_cache
    peek-after [] q = inl (l.peek-new _ q)
    peek-after (Call.get now token ∷ h) q =
        ground (arith, get-Shrinks l (after size ttl h) now token q, peek-after h q)
    peek-after (Call.put now token rec ∷ h) q = elim (Bool-cases (bytes_eq token q)) [
      | inl e ↦
          let same = (bytes_eq_iff token q).0 e in inr (rw (e, ← same) (l.peek-add_self _ token _))
      | inr e ↦
          let kept =
            l.peek-add_ne (after size ttl h).lru token q (record { rec = rec; verified_at = now })
              (λ p. cc ((bytes_eq_iff token q).1 p)) in
          ground (arith, peek-after h q)
    ]
    peek-after (Call.revoke key ∷ h) q = rw (revoke-lru (after size ttl h) key) (peek-after h q)

    ttl-after : (h : List Call) → (after size ttl h).ttl ≡ (new_verify_cache l size ttl).ttl
    unfolding after step Cache.put
    ttl-after [] = refl
    ttl-after (Call.get now token ∷ h) = (get-marks l (after size ttl h) now token).1 ∙ ttl-after h
    ttl-after (Call.put now token rec ∷ h) = ttl-after h
    ttl-after (Call.revoke key ∷ h) = revoke-ttl (after size ttl h) key ∙ ttl-after h

    -- Whatever calls were made of the cache: a record that it returns for a token is the one that
    -- was put under that token last, no more than one TTL ago, and its row was not revoked since a
    -- record of that row was last put.
    pub get-after :
        (h : List Call) (now : ℕ) (token : Bytes) (rec : KeyRecord)
        → (Cache.get l (after size ttl h) now token).1 ≡ some rec
        → (t : ℕ) × (last_put h token ≡ some (record { rec = rec; verified_at = t }))
          × (now - t ≤ (new_verify_cache l size ttl).ttl)
          × (is_revoked h rec.id ≡ false)
    get-after h now token rec e =
        let s = (get_iff l (after size ttl h) now token rec).0 e in
        (
          s.entry.verified_at,
          ground (arith, peek-after h token, s.stored, s.same),
          rw (← ttl-after h) s.fresh,
          rw (← contains-after h rec.id) s.allowed,
        )

    -- After a revocation of a row the cache answers for none of its records, whatever token is asked
    -- for, and whatever reads and revocations follow, until a record of the row is put again.
    pub get-after-revoke :
        (h h' : List Call) (now : ℕ) (token id : Bytes) (rec : KeyRecord)
        → id ≢ []
        → PutsNone id h'
        → rec.id ≡ id
        → (Cache.get l (after size ttl (h' ++ (Call.revoke id ∷ h))) now token).1 ≢ some rec
    get-after-revoke h h' now token id rec named none_put same e =
        let (_, _, _, kept) = get-after (h' ++ (Call.revoke id ∷ h)) now token rec e in
        cc (is_revoked-after-revoke h h' id named none_put, rw same at kept)
