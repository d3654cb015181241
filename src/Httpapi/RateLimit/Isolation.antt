-- ===== src/Httpapi/RateLimit/Isolation.antt =====
-- Keys do not share buckets (internal/httpapi/middleware.go).
use agentic_coop_db.Prelude.{
  ℕ, suc, ◌<◌, ◌≡◌, ◌≢◌, ◌⊎◌, inl, inr, sym, ap, ◌∙◌, arith, Option, none, some, Bytes, codes,
  bytes_eq, bytes_eq_iff, Bool-cases, Option-cases,
}
use agentic_coop_db.LruCache.{Lru}
use agentic_coop_db.Httpapi.TokenBucket.{Floats, TokenBucket, new_token_bucket, allow}
use agentic_coop_db.Httpapi.RateLimit.{
  RateLimit, bucket_key, write, limiter_for, take_token, middleware,
}

module _ (fl : Floats) (l : Lru ℕ) where
  -- Every address of the map is in use, and no two keys have one.
  pub record IsApart (r : RateLimit fl l) : Type 0 where
    pub below : (q : Bytes) (a : ℕ) → l.peek r.limiters q ≡ some a → a < r.next
    pub apart :
        (q q' : Bytes) (a : ℕ)
        → l.peek r.limiters q ≡ some a
        → l.peek r.limiters q' ≡ some a
        → q ≡ q'

  added : RateLimit fl l → Bytes → l.Cache
  added r key = l.add (l.get r.limiters key).0 key r.next

  -- An entry behind an Add is the one added or an old one.
  peek-added :
      (r : RateLimit fl l) (key q : Bytes) (a : ℕ)
      → l.peek (added r key) q ≡ some a
      → ((key ≡ q) × (a ≡ r.next)) ⊎ ((key ≢ q) × (l.peek r.limiters q ≡ some a))
  unfolding added
  peek-added r key q a h = elim (Bool-cases (bytes_eq key q)) [
    | inl e ↦
        let same : key ≡ q = (bytes_eq_iff key q).0 e in
        let at : l.peek (added r key) q ≡ some r.next =
          rw (← same) (l.peek-add_self (l.get r.limiters key).0 key r.next) in
        inl (same, ground arith)
    | inr e ↦
        let other : key ≢ q = λ p. cc ((bytes_eq_iff key q).1 p) in
        elim (l.peek-add_ne (l.get r.limiters key).0 key q r.next other) [
          | inl kept ↦ inr (other, sym (l.peek-get r.limiters key q) ∙ sym kept ∙ h)
          | inr gone ↦ let bad : ◌≡◌ {A = Option ℕ} none (some a) = sym gone ∙ h in cc bad
        ]
  ]

  module _ (r : RateLimit fl l) (g : IsApart r) (key : Bytes) where
    below_added : (q : Bytes) (a : ℕ) → l.peek (added r key) q ≡ some a → a < suc r.next
    below_added q a h = elim (peek-added r key q a h) [
      | inl (_, e) ↦ omega arith
      | inr (_, old) ↦ omega (arith, g.below q a old)
    ]

    apart_added :
        (q q' : Bytes) (a : ℕ)
        → l.peek (added r key) q ≡ some a
        → l.peek (added r key) q' ≡ some a
        → q ≡ q'
    apart_added q q' a h h' = elim (peek-added r key q a h) [
      | inl (same, e) ↦ elim (peek-added r key q' a h') [
        | inl (same', e') ↦ sym same ∙ same'
        | inr (_, old) ↦ absurd (omega (arith, g.below q' a old))
      ]
      | inr (_, old) ↦ elim (peek-added r key q' a h') [
        | inl (same', e') ↦ absurd (omega (arith, g.below q a old))
        | inr (_, old') ↦ g.apart q q' a old old'
      ]
    ]

    limiter_hit :
        (now a : ℕ)
        → l.peek r.limiters key ≡ some a
        → limiter_for fl l r now key ≡ (record r { limiters = (l.get r.limiters key).0 }, a)
    unfolding limiter_for
    limiter_hit now a h = ground (arith, l.get-peek r.limiters key)

    limiter_miss :
        (now : ℕ)
        → l.peek r.limiters key ≡ none
        → limiter_for fl l r now key ≡ (
          record r {
            limiters = added r key;
            store = write fl r.next (new_token_bucket fl r.rps r.burst now) r.store;
            next = suc r.next;
          },
          r.next,
        )
    unfolding limiter_for added
    limiter_miss now h = ground (arith, l.get-peek r.limiters key)

    limiter-IsApart : (now : ℕ) → IsApart (limiter_for fl l r now key).0
    limiter-IsApart now = elim (Option-cases (l.peek r.limiters key)) [
      | inl miss ↦ rw (limiter_miss now miss) (record { below = below_added; apart = apart_added })
      | inr (a, hit) ↦ rw (limiter_hit now a hit) (record {
        below = λ q a h. g.below q a (sym (l.peek-get r.limiters key q) ∙ h);
        apart = λ q q' a h h'.
            g.apart q q' a (sym (l.peek-get r.limiters key q) ∙ h)
              (sym (l.peek-get r.limiters key q') ∙ h');
      })
    ]

    -- The address that is handed out is the key's own.
    limiter_own :
        (now : ℕ)
        → l.peek (limiter_for fl l r now key).0.limiters key ≡ some (limiter_for fl l r now key).1
    unfolding added
    limiter_own now = elim (Option-cases (l.peek r.limiters key)) [
      | inl miss ↦ rw (limiter_miss now miss) (l.peek-add_self (l.get r.limiters key).0 key r.next)
      | inr (a, hit) ↦ rw (limiter_hit now a hit) (l.peek-get r.limiters key key ∙ hit)
    ]

  -- The bucket of a key, if it has one.
  abbrev pub bucket_of : RateLimit fl l → Bytes → Option (TokenBucket fl)
  bucket_of r q = elim (l.peek r.limiters q) [ none ↦ none | some a ↦ some (r.store a) ]

  module _ (r : RateLimit fl l) (g : IsApart r) (key q : Bytes) (other : key ≢ q) where
    added_other :
        (now a : ℕ)
        → l.peek (added r key) q ≡ some a
        → l.peek r.limiters q ≡ some a
        → a < r.next
        → bucket_of
            (record r {
              limiters = added r key;
              store = write fl r.next (new_token_bucket fl r.rps r.burst now) r.store;
              next = suc r.next;
            })
            q
          ≡ bucket_of r q
    unfolding write
    added_other now a here old small = ground arith

    limiter_other :
        (now : ℕ)
        → (bucket_of (limiter_for fl l r now key).0 q ≡ none)
          ⊎ (bucket_of (limiter_for fl l r now key).0 q ≡ bucket_of r q)
    limiter_other now = elim (Option-cases (l.peek r.limiters key)) [
      | inr (a, hit) ↦
          rw (limiter_hit r g key now a hit) (inr (rw (l.peek-get r.limiters key q, bucket_of)))
      | inl miss ↦
          rw (limiter_miss r g key now miss) (elim (Option-cases (l.peek (added r key) q)) [
            | inl gone ↦ inl (rw (gone, bucket_of))
            | inr (a, here) ↦ elim (peek-added r key q a here) [
              | inl (same, _) ↦ absurd (other same)
              | inr (_, old) ↦ inr (added_other now a here old (g.below q a old))
            ]
          ])
    ]

  taken :
      (r : RateLimit fl l) (a now later : ℕ)
      → ((take_token fl l r a now later).0.limiters ≡ r.limiters)
        × ((take_token fl l r a now later).0.next ≡ r.next)
  unfolding take_token
  taken r a now later = ground arith

  taken_store :
      (r : RateLimit fl l) (a b now later : ℕ)
      → b ≢ a
      → (take_token fl l r a now later).0.store b ≡ r.store b
  unfolding take_token write
  taken_store r a b now later h = elim (Bool-cases (allow fl (r.store a) now).1) [
    | inl e ↦ ground arith
    | inr e ↦ ground arith
  ]

  taken-IsApart :
      (r : RateLimit fl l) (a now later : ℕ) → IsApart r → IsApart (take_token fl l r a now later).0
  taken-IsApart r a now later g =
      let (same, next) = taken r a now later in
      let at : (q : Bytes)
          → l.peek (take_token fl l r a now later).0.limiters q ≡ l.peek r.limiters q =
        λ q. ap (λ c. l.peek c q) same in
      record {
        below = λ q b h. rw next (g.below q b (sym (at q) ∙ h));
        apart = λ q q' b h h'. g.apart q q' b (sym (at q) ∙ h) (sym (at q') ∙ h');
      }

  -- A request keeps it that every address of the map is in use and that no two keys share one.
  pub middleware-IsApart :
      (r : RateLimit fl l) (now later : ℕ) (context : Option Bytes)
      → IsApart r
      → IsApart (middleware fl l r now later context).0
  unfolding middleware
  middleware-IsApart r now later context g =
      let (r', a) = limiter_for fl l r now (bucket_key context) in
      taken-IsApart r' a now later (limiter-IsApart r g (bucket_key context) now)

  taken_other :
      (r : RateLimit fl l) (g : IsApart r) (key q : Bytes) (a now later : ℕ)
      → key ≢ q
      → l.peek r.limiters key ≡ some a
      → bucket_of (take_token fl l r a now later).0 q ≡ bucket_of r q
  taken_other r g key q a now later other own =
      let (same, _) = taken r a now later in
      let at : l.peek (take_token fl l r a now later).0.limiters q ≡ l.peek r.limiters q =
        ap (λ c. l.peek c q) same in
      elim (Option-cases (l.peek r.limiters q)) [
        | inl e ↦ rw (at, e, bucket_of)
        | inr (b, e) ↦
            let apart : b ≢ a = λ p. other (g.apart key q a own (e ∙ ap some p)) in
            rw (at, e, bucket_of) (ap some (taken_store r a b now later apart))
      ]

  -- Another key than that of the request; a request without a context has the key "anon".
  abbrev pub IsOther : Option Bytes → Bytes → Type 0
  IsOther none q = q ≢ codes "anon"
  IsOther (some key_dbid) q = key_dbid ≢ q

  other_key :
      (context : Option Bytes) (q : Bytes)
      → IsOther context q
      → bucket_key context ≢ bucket_key (some q)
  unfolding bucket_key
  other_key none q h = λ e. h (sym e)
  other_key (some key_dbid) q h = h

  -- A request changes no bucket but its own: if no two keys share an address, then after a request
  -- with a key, or without a context, the bucket of every other key is as before, or was evicted.
  pub middleware-bucket_of :
      (r : RateLimit fl l) (now later : ℕ) (context : Option Bytes) (q : Bytes)
      → IsApart r
      → IsOther context q
      → (bucket_of (middleware fl l r now later context).0 (bucket_key (some q)) ≡ none)
        ⊎ (bucket_of (middleware fl l r now later context).0 (bucket_key (some q))
            ≡ bucket_of r (bucket_key (some q)))
  unfolding middleware
  middleware-bucket_of r now later context q g other =
      let key = bucket_key context in
      let q' = bucket_key (some q) in
      let apart = other_key context q other in
      let r' = (limiter_for fl l r now key).0 in
      let a = (limiter_for fl l r now key).1 in
      let same =
        taken_other r' (limiter-IsApart r g key now) key q' a now later apart
          (limiter_own r g key now) in
      elim (limiter_other r g key q' apart now) [
        | inl gone ↦ inl (same ∙ gone)
        | inr kept ↦ inr (same ∙ kept)
      ]
