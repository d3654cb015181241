-- ===== src/Auth/Middleware/Genuine.antt =====
-- The cache never lets a request through that a check of its own secret would not
-- (internal/auth/middleware.go with internal/auth/cache.go).
use mathlib.Core.Option.{some-injective}
use agentic_coop_db.Prelude.{
  ℕ, ◌⊎◌, ◌≡◌, refl, sym, ap, ◌∙◌, inl, inr, true, Option, none, some, [], ◌∷◌, Bytes, arith,
  Result, ok, err, Bool-cases, Option-cases, bytes_eq, bytes_eq_iff,
}
use agentic_coop_db.Auth.Record.{KeyRecord, active}
use agentic_coop_db.LruCache.{Lru}
use agentic_coop_db.Auth.Cache
use agentic_coop_db.Auth.Cache.{CachedKey, VerifyCache, revoke_by_dbid}
use agentic_coop_db.Auth.Cache.Reads.{Serves, get_iff, get-Shrinks, Shrinks}
use agentic_coop_db.Auth.Key.{ParsedKey, parse_bearer, parse_token}
use agentic_coop_db.Auth.Key.Parse.{parse_bearer-parse_token}
use agentic_coop_db.Auth.Secret.{Crypto, verify_secret}
use agentic_coop_db.Auth.Middleware.{
  WorkspaceContext, AuthError, Clock, passed, cache_key, verify_and_put, look_up, resolve,
  authenticate, revoke_from_cache,
}
use agentic_coop_db.Auth.Middleware.Branches.{authenticate_passed, resolve_miss, resolve_hit}

same_token :
    (p q : ParsedKey) (h k : Bytes)
    → parse_bearer h ≡ some p
    → parse_bearer k ≡ some q
    → p.full_token ≡ q.full_token
    → p ≡ q
same_token p q h k hp hq e =
    some-injective p q
      (sym (parse_bearer-parse_token h p hp) ∙ ap parse_token e ∙ parse_bearer-parse_token k q hq)

abbrev or_else {ℓ κ} : {E : Type ℓ} {A : Type κ} → A → Result E A → A
or_else d (ok a) = a
or_else d (err e) = d

ok_injective {ℓ κ} :
    {E : Type ℓ} {A : Type κ} {a b : A} → ◌≡◌ {A = Result E A} (ok a) (ok b) → a ≡ b
ok_injective {a} h = ap (or_else a) h

module _ (l : Lru CachedKey) (crypto : Crypto) (digest : Bytes → Bytes) (dummy_hash : Bytes) where
  -- Every entry of the cache stands under the digest of a token whose secret passes against the hash
  -- of the entry's record, and whose key id is the record's.
  abbrev Backed : Bytes → CachedKey → Type 0
  Backed tok e =
      (p : ParsedKey) × (header : Bytes) × (parse_bearer header ≡ some p)
      × (tok ≡ digest p.full_token)
      × (verify_secret crypto p.secret e.rec.secret_hash ≡ true)
      × (e.rec.key_id ≡ p.key_id)

  abbrev AllBacked : VerifyCache l → Type 0
  AllBacked c = (tok : Bytes) (e : CachedKey) → l.peek c.lru tok ≡ some e → Backed tok e

  pub record IsGenuine (c : VerifyCache l) : Type 0 where
    pub backed : AllBacked c

  Shrinks-AllBacked :
      (c d : VerifyCache l) → ((q : Bytes) → Shrinks l c.lru d.lru q) → AllBacked c → AllBacked d
  Shrinks-AllBacked c d s g tok e h = elim (s tok) [
    | inl gone ↦ cc
    | inr kept ↦ g tok e (sym kept ∙ h)
  ]

  put-AllBacked :
      (c : VerifyCache l) (now : ℕ) (p : ParsedKey) (header : Bytes) (rec : KeyRecord)
      → parse_bearer header ≡ some p
      → verify_secret crypto p.secret rec.secret_hash ≡ true
      → rec.key_id ≡ p.key_id
      → AllBacked c
      → AllBacked (Cache.put l c now (digest p.full_token) rec)
  unfolding Cache.put
  put-AllBacked c now p header rec parsed passes named g tok e h =
      let k = digest p.full_token in
      let v : CachedKey = record { rec = rec; verified_at = now } in
      elim (Bool-cases (bytes_eq k tok)) [
        | inl same ↦
            let at_tok : k ≡ tok = (bytes_eq_iff k tok).0 same in
            let at_self : l.peek (l.add c.lru k v) tok ≡ some v =
              rw (← at_tok) (l.peek-add_self c.lru k v) in
            let stored : e.rec ≡ rec = ground arith in
            (
              p,
              header,
              parsed,
              sym at_tok,
              ap (λ r. verify_secret crypto p.secret r.secret_hash) stored ∙ passes,
              ap (λ r. r.key_id) stored ∙ named,
            )
        | inr other ↦ elim (l.peek-add_ne c.lru k tok v (λ q. cc ((bytes_eq_iff k tok).1 q))) [
          | inr gone ↦
              let missing : ◌≡◌ {A = Option CachedKey} none (some e) = sym gone ∙ h in cc missing
          | inl kept ↦ g tok e (sym kept ∙ h)
        ]
      ]

  revoke-AllBacked :
      (c : VerifyCache l) (id : Bytes)
      → AllBacked c
      → AllBacked (revoke_from_cache l crypto digest dummy_hash c id)
  unfolding revoke_from_cache revoke_by_dbid
  revoke-AllBacked c [] g = g
  revoke-AllBacked c (b ∷ s) g = g

  module _ (find_by_key_id : Bytes → Result AuthError KeyRecord)
      (finds : (k : Bytes) (rec : KeyRecord) → find_by_key_id k ≡ ok rec → rec.key_id ≡ k) where
    look_up-AllBacked :
        (now : ℕ) (c : VerifyCache l) (header : Bytes) (p : ParsedKey)
        (r : Result AuthError KeyRecord)
        → find_by_key_id p.key_id ≡ r
        → parse_bearer header ≡ some p
        → AllBacked c
        → AllBacked (look_up l crypto digest dummy_hash now c p r).cache
    unfolding look_up verify_and_put cache_key
    look_up-AllBacked now c header p (err e) _ parsed g = g
    look_up-AllBacked now c header p (ok rec) found parsed g =
        elim (Bool-cases (verify_secret crypto p.secret rec.secret_hash)) [
          | inl passes ↦
              rw (passes, verify_and_put)
                (put-AllBacked c now p header rec parsed passes (finds p.key_id rec found) g)
          | inr fails ↦ rw (fails, verify_and_put) g
        ]

    resolve-AllBacked :
        (t : Clock) (c : VerifyCache l) (header : Bytes) (p : ParsedKey)
        → parse_bearer header ≡ some p
        → AllBacked c
        → AllBacked (resolve l crypto digest dummy_hash find_by_key_id t c p).cache
    unfolding resolve
    resolve-AllBacked t c header p parsed g =
        let k = cache_key l crypto digest dummy_hash p in
        let c' = (Cache.get l c t.read_at k).0 in
        let g' = Shrinks-AllBacked c c' (get-Shrinks l c t.read_at k) g in
        elim (Option-cases (Cache.get l c t.read_at k).1) [
          | inl miss ↦
              rw (miss, resolve)
                (look_up-AllBacked t.put_at c' header p (find_by_key_id p.key_id) refl parsed g')
          | inr (rec, hit) ↦ rw (hit, resolve) g'
        ]

    authenticate-AllBacked :
        (t : Clock) (c : VerifyCache l) (header : Bytes)
        → AllBacked c
        → AllBacked (authenticate l crypto digest dummy_hash find_by_key_id t c header).0
    unfolding authenticate
    authenticate-AllBacked t c header g = elim (Option-cases (parse_bearer header)) [
      | inl e ↦ rw (e, authenticate) g
      | inr (p, e) ↦ rw (e, authenticate) (resolve-AllBacked t c header p e g)
    ]

    -- A request leaves in the cache only entries that a check of a secret of their own key id has
    -- backed, if the store finds rows by their key id.
    pub authenticate-IsGenuine :
        (t : Clock) (c : VerifyCache l) (header : Bytes)
        → IsGenuine c
        → IsGenuine (authenticate l crypto digest dummy_hash find_by_key_id t c header).0
    authenticate-IsGenuine t c header g = record {
      backed = authenticate-AllBacked t c header g.backed;
    }

    -- Where a record comes from: an entry of the cache for the token, within its TTL and not marked
    -- revoked, or the store.
    abbrev pub IsHeld : VerifyCache l → Clock → ParsedKey → KeyRecord → Type 0
    IsHeld c t p rec =
        Serves l c t.read_at (digest p.full_token) rec ⊎ (find_by_key_id p.key_id ≡ ok rec)

    -- What a request that was let through has shown.
    pub record Shown (t : Clock) (c : VerifyCache l) (header : Bytes) (ws : WorkspaceContext)
        : Type 0 where
      pub key : ParsedKey
      pub parsed : parse_bearer header ≡ some key
      pub rec : KeyRecord
      pub held : IsHeld c t key rec
      pub usable : active rec t.checked_at ≡ true
      pub passes : verify_secret crypto key.secret rec.secret_hash ≡ true
      pub named : rec.key_id ≡ key.key_id
      pub workspace : ws.workspace_id ≡ rec.workspace_id
      pub key_id : ws.key_id ≡ rec.key_id
      pub pg_role : ws.pg_role ≡ rec.pg_role
      pub key_dbid : ws.key_dbid ≡ rec.id
      pub env : ws.env ≡ rec.env

    resolve_genuine :
        ((s s' : Bytes) → digest s ≡ digest s' → s ≡ s')
        → (t : Clock) (c : VerifyCache l) (header : Bytes) (p : ParsedKey)
        → parse_bearer header ≡ some p
        → (rec : KeyRecord) → AllBacked c
        → (resolve l crypto digest dummy_hash find_by_key_id t c p).result ≡ ok rec
        → IsHeld c t p rec
          × (verify_secret crypto p.secret rec.secret_hash ≡ true)
          × (rec.key_id ≡ p.key_id)
    unfolding cache_key
    resolve_genuine distinct t c header p parsed rec g h =
        let k = cache_key l crypto digest dummy_hash p in
        elim (Option-cases (Cache.get l c t.read_at k).1) [
          | inl miss ↦
              let (found, passes) =
                (resolve_miss l crypto digest dummy_hash find_by_key_id t c p miss rec).0 h in
              (inr found, passes, finds p.key_id rec found)
          | inr (rec', hit) ↦
              let hit' = resolve_hit l crypto digest dummy_hash find_by_key_id t c p rec' hit in
              let s = (get_iff l c t.read_at k rec').0 hit in
              let got : rec' ≡ rec = ok_injective (sym hit' ∙ h) in
              let (p', header', parsed', same, passes, named) = g k s.entry s.stored in
              let e : s.entry.rec ≡ rec = s.same ∙ ok_injective (sym hit' ∙ h) in
              let q : p' ≡ p =
                same_token p' p header' header parsed' parsed (distinct _ _ (sym same)) in
              (
                inl ((get_iff l c t.read_at k rec).0 (hit ∙ ap some got)),
                ap (λ x. verify_secret crypto x.secret rec.secret_hash) (sym q)
                    ∙ ap (λ r. verify_secret crypto p'.secret r.secret_hash) (sym e)
                    ∙ passes,
                ap (λ r. r.key_id) (sym e) ∙ named ∙ ap (λ x. x.key_id) q,
              )
        ]

    -- If no two tokens have one digest, the store finds rows by their key id, and the entries of the
    -- cache are genuine, then a request is let through only with a well-formed token and an active
    -- record, which is that of a live entry of the cache for this token or the one that the store now
    -- finds for its key id, against whose hash the token's own secret passes; and the context that the
    -- next handler gets is that of this record.
    pub authenticate_genuine :
        ((s s' : Bytes) → digest s ≡ digest s' → s ≡ s')
        → (t : Clock) (c : VerifyCache l) (header : Bytes) (ws : WorkspaceContext) → IsGenuine c
        → (authenticate l crypto digest dummy_hash find_by_key_id t c header).1 ≡ passed ws
        → Shown t c header ws
    authenticate_genuine distinct t c header ws g h =
        let a = authenticate_passed l crypto digest dummy_hash find_by_key_id t c header ws h in
        let (held, passes, named) =
          resolve_genuine distinct t c header a.key a.parsed a.rec g.backed a.found in
        record {
          key = a.key;
          parsed = a.parsed;
          rec = a.rec;
          held = held;
          usable = a.usable;
          passes = passes;
          named = named;
          workspace = a.workspace;
          key_id = a.key_id;
          pg_role = a.pg_role;
          key_dbid = a.key_dbid;
          env = a.env;
        }
