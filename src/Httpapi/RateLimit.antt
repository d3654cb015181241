-- ===== src/Httpapi/RateLimit.antt =====
-- internal/httpapi/middleware.go: the per-key rate limiter. The LRU map holds pointers: the buckets
-- stand in a store by their addresses, and `next` is the first address that is free.
pub mod Isolation
use agentic_coop_db.Prelude.{
  ℕ, suc, ℤ, Bool, true, false, Option, none, some, Bytes, codes, nat_eq, if◌then◌else◌,
}
use agentic_coop_db.LruCache.{Lru}
use agentic_coop_db.Httpapi.TokenBucket.{Floats, TokenBucket, new_token_bucket, allow, tokens_at}

-- What the handler answers: 429, or the next handler with X-RateLimit-Remaining.
pub data Limited : Type 0 where
  rate_limited : (limit : ℤ) → Limited
  passed_on : (limit remaining : ℤ) → Limited

-- The workspace's key, or "anon" without a context.
unfoldable pub bucket_key : Option Bytes → Bytes
bucket_key none = codes "anon"
bucket_key (some key_dbid) = key_dbid

-- A rate and the number of tokens are converted by int().
module _ (fl : Floats) where
  -- `*a = b`.
  unfoldable pub write : ℕ → TokenBucket fl → (ℕ → TokenBucket fl) → ℕ → TokenBucket fl
  write a b store x = if nat_eq x a then b else store x

  module _ (l : Lru ℕ) where
    pub record RateLimit : Type 0 where
      pub limiters : l.Cache
      pub rps : fl.Float
      pub burst : ℕ
      pub store : ℕ → TokenBucket fl
      pub next : ℕ

    -- A burst that is not positive is 0.
    unfoldable pub new_rate_limit : (rps : fl.Float) → (burst : ℕ) → RateLimit
    new_rate_limit rps burst = record {
      limiters = l.new 4096;
      rps = if fl.le rps (fl.of_int 0) then fl.of_int 60 else rps;
      burst = if nat_eq burst 0 then 120 else burst;
      store = λ a. new_token_bucket fl (fl.of_int 0) 0 0;
      next = 0;
    }

    -- `now` is what time.Now returns in newTokenBucket.
    unfoldable pub limiter_for : RateLimit → ℕ → Bytes → RateLimit × ℕ
    limiter_for r now key =
        let (limiters', found) = l.get r.limiters key in
        elim found [
          | some a ↦ (record r { limiters = limiters' }, a)
          | none ↦ (
            record r {
              limiters = l.add limiters' key r.next;
              store = write r.next (new_token_bucket fl r.rps r.burst now) r.store;
              next = suc r.next;
            },
            r.next,
          )
        ]

    -- What Allow and Tokens do to the bucket at an address.
    unfoldable pub take_token : RateLimit → ℕ → (now later : ℕ) → RateLimit × Limited
    take_token r a now later =
        let (b, granted) = allow fl (r.store a) now in
        let (b', tokens) = tokens_at fl b later in
        if granted
        then (
          record r { store = write a b' r.store },
          passed_on (fl.to_int b.rate) (fl.to_int tokens),
        )
        else (record r { store = write a b r.store }, rate_limited (fl.to_int b.rate))

    unfoldable pub middleware : RateLimit → (now later : ℕ) → Option Bytes → RateLimit × Limited
    middleware r now later context =
        let (r', a) = limiter_for r now (bucket_key context) in take_token r' a now later
