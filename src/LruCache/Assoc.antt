-- ===== src/LruCache/Assoc.antt =====
-- A map that keeps the laws of golang-lru: an association list that never evicts.
use agentic_coop_db.Prelude.{
  ◌≡◌, ◌≢◌, refl, inl, Option, none, some, List, [], ◌∷◌, Bytes, bytes_eq, bytes_eq_iff,
  bytes_eq_refl, length, if◌then◌else◌, arith,
}
use agentic_coop_db.LruCache.{Lru}

module _ (V : Type 0) where
  abbrev pub lookup : List (Bytes × V) → Bytes → Option V
  lookup [] q = none
  lookup ((k, v) ∷ c) q = if bytes_eq k q then some v else lookup c q

  abbrev pub erase : List (Bytes × V) → Bytes → List (Bytes × V)
  erase [] q = []
  erase ((k, v) ∷ c) q = if bytes_eq k q then erase c q else (k, v) ∷ erase c q

  pub lookup-erase : (c : List (Bytes × V)) (q : Bytes) → lookup (erase c q) q ≡ none
  lookup-erase [] q = refl
  lookup-erase ((k, v) ∷ c) q = ground (arith, lookup-erase c q)

  pub lookup-erase_ne :
      (c : List (Bytes × V)) (k q : Bytes) → k ≢ q → lookup (erase c k) q ≡ lookup c q
  lookup-erase_ne [] k q h = refl
  lookup-erase_ne ((j, v) ∷ c) k q h =
      ground (arith, lookup-erase_ne c k q h, bytes_eq_iff j k, bytes_eq_iff j q)

  pub lookup-cons_ne :
      (c : List (Bytes × V)) (k q : Bytes) (v : V) → k ≢ q → lookup ((k, v) ∷ c) q ≡ lookup c q
  lookup-cons_ne c k q v h = ground (arith, bytes_eq_iff k q)

  abbrev pub assoc : Lru V
  assoc = record {
    Cache = List (Bytes × V);
    new = λ _. [];
    peek = lookup;
    get = λ c k. (c, lookup c k);
    add = λ c k v. (k, v) ∷ c;
    remove = erase;
    len = length;
    peek-new = λ _ _. refl;
    get-peek = λ _ _. refl;
    peek-get = λ _ _ _. refl;
    peek-add_self = λ c k v. rw (bytes_eq_refl k);
    peek-add_ne = λ c k q v h. inl (lookup-cons_ne c k q v h);
    peek-remove_self = lookup-erase;
    peek-remove_ne = lookup-erase_ne;
  }
