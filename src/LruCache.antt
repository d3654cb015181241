-- ===== src/LruCache.antt =====
-- The bounded map github.com/hashicorp/golang-lru/v2, which internal/auth/cache.go and
-- internal/httpapi/middleware.go call: its operations and what its documentation promises of them.
pub mod Assoc
use agentic_coop_db.Prelude.{ℕ, ◌≡◌, ◌≢◌, ◌⊎◌, Option, none, some, Bytes}

-- lru.Cache[string, V]: `peek` reads without a use; Add may evict other keys, never
-- the one added.
pub record Lru (V : Type 0) : Type 1 where
  pub Cache : Type 0
  pub new : ℕ → Cache
  pub peek : Cache → Bytes → Option V
  pub get : Cache → Bytes → Cache × Option V
  pub add : Cache → Bytes → V → Cache
  pub remove : Cache → Bytes → Cache
  pub len : Cache → ℕ
  pub peek-new : (n : ℕ) (q : Bytes) → peek (new n) q ≡ none
  pub get-peek : (c : Cache) (k : Bytes) → (get c k).1 ≡ peek c k
  pub peek-get : (c : Cache) (k q : Bytes) → peek (get c k).0 q ≡ peek c q
  pub peek-add_self : (c : Cache) (k : Bytes) (v : V) → peek (add c k v) k ≡ some v
  pub peek-add_ne :
      (c : Cache) (k q : Bytes) (v : V)
      → k ≢ q
      → (peek (add c k v) q ≡ peek c q) ⊎ (peek (add c k v) q ≡ none)
  pub peek-remove_self : (c : Cache) (k : Bytes) → peek (remove c k) k ≡ none
  pub peek-remove_ne : (c : Cache) (k q : Bytes) → k ≢ q → peek (remove c k) q ≡ peek c q
