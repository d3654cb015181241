-- ===== src/Httpapi/Tests.antt =====
-- The theorems about internal/httpapi at concrete inputs.
use agentic_coop_db.Prelude.{ℕ, ◌+◌, ◌-◌, ◌*◌, ◌≤◌, ◌≡◌, ◌↔◌, arith, List, [], ◌∷◌}
use agentic_coop_db.Httpapi.TokenBucket.{new_token_bucket, TokenBucket}
use agentic_coop_db.Httpapi.TokenBucket.Example.{fixed, rounded}
use agentic_coop_db.Httpapi.TokenBucket.Bounds.{run, last, run-le}
use agentic_coop_db.Prelude.{false, true, Bytes, codes, some, none}
use agentic_coop_db.Sql.Errors.{
  GoError, PgError, database, wrapped, is_too_large, as_validation, as_postgres,
}
use agentic_coop_db.Httpapi.Errors.{map_error}
use agentic_coop_db.Httpapi.Errors.Table.{map_error-none_iff}
use agentic_coop_db.Prelude.{◌≢◌, ◌⊎◌, Bool, bytes_eq, bytes_eq_iff}
use agentic_coop_db.LruCache.{Lru}
use agentic_coop_db.LruCache.Assoc.{assoc}
use agentic_coop_db.Httpapi.RateLimit.{RateLimit, bucket_key, middleware}
use agentic_coop_db.Httpapi.RateLimit.Isolation.{IsApart, bucket_of, middleware-bucket_of}
use agentic_coop_db.Httpapi.Wrappers.{
  WriterCall, write_header, write_bytes, wrap_response_writer, run_writer,
}
use agentic_coop_db.Httpapi.Wrappers.Recorded.{sent_status, headers, total_bytes, run_writer_lem}

abbrev times : List ℕ
times = 5 ∷ 5 ∷ 2000000000 ∷ []

run-le_example :
    1000000000 * ((run fixed (new_token_bucket fixed 1000000000 2 5) times).1 * 1000000000)
    ≤ 1000000000 * (2000000000 + 2 * 3 * 1) + (last 5 times - 5) * 1000000000
run-le_example =
    run-le fixed 1000000000 2 5 1 (rounded 1000000000 2000000000) times
      (omega arith, (omega arith, (omega arith, tt)))

abbrev text : GoError → Bytes
text e = codes "error"

abbrev denied : PgError
denied = record { code = codes "42501"; message = codes "permission denied" }

abbrev chain : GoError
chain = wrapped (codes "tenant setup") (database (some denied))

map_error-none_iff_example : (map_error text (some (database none)) ≡ none) ↔ (
    (is_too_large (database none) ≡ false)
    × (as_validation (database none) ≡ none)
    × (as_postgres (database none) ≡ some none))
map_error-none_iff_example = map_error-none_iff text (database none)

abbrev limiters : Lru ℕ
limiters = assoc ℕ

abbrev bucket : ℕ → TokenBucket fixed
bucket a = new_token_bucket fixed 1000000000 2 0

abbrev two_keys : RateLimit fixed limiters
two_keys = record {
  limiters = (codes "k1", 0) ∷ (codes "k2", 1) ∷ [];
  rps = 1000000000;
  burst = 2;
  store = bucket;
  next = 2;
}

two_keys-IsApart : IsApart fixed limiters two_keys
two_keys-IsApart = record {
  below = λ q a h. ground (arith, bytes_eq_iff (codes "k1") q, bytes_eq_iff (codes "k2") q);
  apart = λ q q' a h h'. ground (
    arith,
    bytes_eq_iff (codes "k1") q,
    bytes_eq_iff (codes "k2") q,
    bytes_eq_iff (codes "k1") q',
    bytes_eq_iff (codes "k2") q',
  );
}

k1_ne_k2 : codes "k1" ≢ codes "k2"
unfolding bytes_eq
k1_ne_k2 e =
    let differ : ◌≡◌ {A = Bool} false true = (bytes_eq_iff (codes "k1") (codes "k2")).1 e in
    cc differ

abbrev after_k1 : RateLimit fixed limiters
after_k1 = (middleware fixed limiters two_keys 5 6 (some (codes "k1"))).0

middleware-bucket_of_example :
    (bucket_of fixed limiters after_k1 (bucket_key (some (codes "k2"))) ≡ none)
    ⊎ (bucket_of fixed limiters after_k1 (bucket_key (some (codes "k2")))
        ≡ bucket_of fixed limiters two_keys (bucket_key (some (codes "k2"))))
middleware-bucket_of_example =
    middleware-bucket_of fixed limiters two_keys 5 6 (some (codes "k1")) (codes "k2")
      two_keys-IsApart k1_ne_k2

abbrev writer_calls : List WriterCall
writer_calls = write_header 404 ∷ write_header 500 ∷ write_bytes 12 ∷ []

run_writer_lem_example :
    ((run_writer wrap_response_writer writer_calls).0.status ≡ sent_status writer_calls)
    × (sent_status (run_writer wrap_response_writer writer_calls).1 ≡ sent_status writer_calls)
    × (headers (run_writer wrap_response_writer writer_calls).1 ≤ 1)
    × ((run_writer wrap_response_writer writer_calls).0.bytes_written ≡ total_bytes writer_calls)
run_writer_lem_example = run_writer_lem writer_calls
