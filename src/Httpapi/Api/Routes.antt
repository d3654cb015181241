-- ===== src/Httpapi/Api/Routes.antt =====
-- Routes of internal/httpapi/api.go: the mux, and what `wrap` puts in front of every handler.
use agentic_coop_db.Prelude.{
  ℕ, ℤ, ◌≡◌, refl, ap, ◌∙◌, ◌⊎◌, ok, inl, inr, arith, Bool, ◌&&◌, Option, none, some, Bytes, codes,
  bytes_eq, Result, String, if◌then◌else◌,
}
use agentic_coop_db.Auth.Cache.{CachedKey, VerifyCache}
use agentic_coop_db.Auth.Middleware.{
  WorkspaceContext, AuthError, Clock, Written, Outcome, denied, passed, authenticate,
}
use agentic_coop_db.Auth.Middleware.Genuine.{IsGenuine, Shown, authenticate_genuine}
use agentic_coop_db.Auth.Record.{KeyRecord}
use agentic_coop_db.Auth.Secret.{Crypto}
use agentic_coop_db.Httpapi.RateLimit.{RateLimit, Limited, rate_limited, passed_on, middleware}
use agentic_coop_db.Httpapi.TokenBucket.{Floats}
use agentic_coop_db.LruCache.{Lru}

pub data Route : Type 0 where
  sql_execute rpc_call keys_rotate keys_create me : Route

abbrev is : Bytes → String → Bool
is s text = bytes_eq s (codes text)

-- The patterns of the mux, which differ in method or path.
unfoldable pub route : (method path : Bytes) → Option Route
route method path =
    if is method "POST" && is path "/sql/execute"
    then some sql_execute
    else if is method "POST" && is path "/rpc/call"
    then some rpc_call
    else if is method "POST" && is path "/auth/keys/rotate"
    then some keys_rotate
    else if is method "POST" && is path "/auth/keys"
    then some keys_create
    else if is method "GET" && is path "/me"
    then some me
    else none

-- Who answered, with the handler's own result A.
pub data Wrapped (A : Type 0) : Type 0 where
  unauthorized : Written → Wrapped A
  too_fast : (limit : ℤ) → Wrapped A
  handled : (remaining : ℤ) → A → Wrapped A

-- When the request meets the key check and the rate limiter.
pub record Times : Type 0 where
  pub clock : Clock
  pub limited_at : ℕ
  pub read_at : ℕ

module _ (l : Lru CachedKey) (fl : Floats) (buckets : Lru ℕ) (crypto : Crypto)
    (digest : Bytes → Bytes) (dummy_hash : Bytes)
    (find_by_key_id : Bytes → Result AuthError KeyRecord) where
  pub record Guards : Type 0 where
    pub cache : VerifyCache l
    pub limits : RateLimit fl buckets

  -- The verify cache and the buckets afterwards, and what the client gets.
  unfoldable pub wrap :
      {A : Type 0} → (WorkspaceContext → A) → Times → Guards → (header : Bytes) → Guards × Wrapped A
  wrap handler t s header =
      let (cache', out, _) =
        authenticate l crypto digest dummy_hash find_by_key_id t.clock s.cache header in
      elim out [
        | denied w ↦ (record s { cache = cache' }, unauthorized w)
        | passed ws ↦
            let (limits', limited) =
              middleware fl buckets s.limits t.limited_at t.read_at (some ws.key_dbid) in
            elim limited [
              | rate_limited limit ↦ (record { cache = cache'; limits = limits' }, too_fast limit)
              | passed_on limit remaining ↦
                  (record { cache = cache'; limits = limits' }, handled remaining (handler ws))
            ]
      ]

  Outcome-cases :
      (o : Outcome) → ((w : Written) × (o ≡ denied w)) ⊎ ((ws : WorkspaceContext) × (o ≡ passed ws))
  Outcome-cases (denied w) = inl (w, refl)
  Outcome-cases (passed ws) = inr (ws, refl)

  Limited-cases :
      (o : Limited) → ((n : ℤ) × (o ≡ rate_limited n)) ⊎ ((n m : ℤ) × (o ≡ passed_on n m))
  Limited-cases (rate_limited n) = inl (n, refl)
  Limited-cases (passed_on n m) = inr (n, m, refl)

  module _
      (finds : (k : Bytes) (rec : KeyRecord) → find_by_key_id k ≡ ok rec → rec.key_id ≡ k) where
    -- What stands behind a call of a handler.
    pub record IsAdmitted {A : Type 0} (handler : WorkspaceContext → A) (t : Times) (s : Guards)
        (header : Bytes) (remaining : ℤ) (a : A) : Type 0 where
      pub ws : WorkspaceContext
      pub shown : Shown l crypto digest dummy_hash find_by_key_id finds t.clock s.cache header ws
      pub limit : ℤ
      pub granted :
          (middleware fl buckets s.limits t.limited_at t.read_at (some ws.key_dbid)).1
          ≡ passed_on limit remaining
      pub called : a ≡ handler ws

    -- A handler behind `wrap` runs only for a token with an active record, which is that of a live entry
    -- of the cache for this token or the one that the store finds for its key id, against whose hash
    -- the token's secret passes, and in the context of that record; and only where the bucket of that
    -- row grants a token. This holds if no two tokens have one digest, the store finds rows by their
    -- key id, and the cache holds genuine entries.
    pub wrap-IsAdmitted :
        {A : Type 0} (handler : WorkspaceContext → A) (t : Times) (s : Guards) (header : Bytes)
        (remaining : ℤ) (a : A)
        → ((x y : Bytes) → digest x ≡ digest y → x ≡ y)
        → IsGenuine l crypto digest dummy_hash s.cache
        → (wrap handler t s header).1 ≡ handled remaining a
        → IsAdmitted handler t s header remaining a
    unfolding wrap
    wrap-IsAdmitted handler t s header remaining a distinct genuine h =
        elim (Outcome-cases
          (authenticate l crypto digest dummy_hash find_by_key_id t.clock s.cache header).1) [
            | inl (w, e) ↦ ground arith
            | inr (ws, e) ↦
                elim (Limited-cases
                  (middleware fl buckets s.limits t.limited_at t.read_at (some ws.key_dbid)).1) [
                    | inl (n, f) ↦ ground arith
                    | inr (n, m, f) ↦ record {
                      ws = ws;
                      shown =
                          authenticate_genuine l crypto digest dummy_hash find_by_key_id finds
                            distinct t.clock s.cache header ws genuine e;
                      limit = n;
                      granted =
                          let same : m ≡ remaining = ground arith in f ∙ ap (passed_on n) same;
                      called = ground arith;
                    }
                  ]
          ]
