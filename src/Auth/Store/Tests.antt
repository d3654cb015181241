-- ===== src/Auth/Store/Tests.antt =====
-- The theorems about the key store at concrete inputs.
use agentic_coop_db.Prelude.{
  ℕ, zero, suc, ◌*◌, ◌/◌, ◌<◌, ◌≡◌, ◌≢◌, refl, arith, Bool, true, false, Option, none, some, [],
  ◌∷◌, Bytes, codes, length, ok, All, bytes_eq, bytes_eq_iff,
}
use agentic_coop_db.Auth.Record.{KeyRecord}
use agentic_coop_db.Auth.Key.{Minted, mint, is_valid, token, env_dev}
use agentic_coop_db.Auth.Key.Example.{raw_url}
use agentic_coop_db.Auth.Secret.{hash_secret}
use agentic_coop_db.Auth.Secret.Example.{crypto}
use agentic_coop_db.Auth.Store.{
  Keys, Round, CreateKeyInput, CreatedKey, key_row, create_row, create, revoke, rotate, rotate_row,
  select_id, select_key_id, update_id,
}
use agentic_coop_db.Auth.Store.Created.{IsFull, Works, create-Works}
use agentic_coop_db.Auth.Store.Rotated.{select_id-rotate}

abbrev pub zeros : ℕ → Bytes
zeros zero = []
zeros (suc n) = 0 ∷ zeros n

length-zeros : (n : ℕ) (s : Bytes) → some (zeros n) ≡ some s → length s ≡ n
length-zeros zero s h = ground arith
length-zeros (suc n) [] h = cc
length-zeros (suc n) (b ∷ s) h =
    let e : zeros n ≡ s = ground arith in omega (arith, length-zeros n s (rw e refl))

zeros_bytes : (n : ℕ) (s : Bytes) → some (zeros n) ≡ some s → All (λ c. c < 256) s
zeros_bytes n [] h = tt
zeros_bytes zero (b ∷ s) h = cc
zeros_bytes (suc n) (b ∷ s) h =
    let e : zeros n ≡ s = ground arith in (ground arith, zeros_bytes n s (rw e refl))

abbrev pub round : Round
round = record {
  rand = λ n. some (zeros n);
  rand' = λ n. some (zeros n);
  salt = some (zeros 16);
  new_id = codes "k2";
  db_now = 50;
  now = 51;
  stored = λ t. t / 1000 * 1000;
  begin_error = none;
  role_exists = λ role. ok true;
  is_member = λ role. ok true;
  select_error = none;
  insert_error = none;
  update_error = none;
  commit_error = none;
}

pub full : IsFull round
full = record { first = length-zeros; second = length-zeros; salt_bytes = zeros_bytes 16 }

abbrev input : CreateKeyInput
input = record {
  workspace_id = codes "w1";
  env = env_dev;
  pg_role = codes "dbuser";
  name = codes "ci";
  expires_at = none;
}

abbrev pub minted : Minted
minted = record {
  key_id = codes "AAAAAAAAAAAAAAAA";
  secret = codes "AAAAAAAAAAAAAAAAAAAAAAAAAAAAAAAA";
  full_token = codes "acd_dev_AAAAAAAAAAAAAAAA_AAAAAAAAAAAAAAAAAAAAAAAAAAAAAAAA";
}

abbrev pub parse_id : Bytes → Option Bytes
parse_id s = some s

abbrev pub row : ℕ → KeyRecord
row created_at =
    key_row crypto raw_url parse_id (codes "k2") (codes "w1") env_dev (codes "dbuser") (codes "ci")
      (hash_secret crypto minted.secret (zeros 16)) minted created_at none none

abbrev pub new_key : CreatedKey
new_key = record {
  id = codes "k2";
  key_id = minted.key_id;
  full_token = minted.full_token;
  record_of = row 51;
}

creates : create crypto raw_url parse_id round input [] ≡ (row 50 ∷ [], ok new_key)
unfolding create create_row mint is_valid token bytes_eq
creates = refl

create-Works_example : Works crypto raw_url parse_id round input [] new_key (row 50 ∷ [])
create-Works_example =
    create-Works crypto raw_url parse_id round input [] (row 50 ∷ []) new_key full creates

abbrev revoked : KeyRecord
revoked = record (row 50) { revoked_at = some 60 }

finds_revoked :
    select_key_id minted.key_id
      (revoke crypto raw_url parse_id none 60 (codes "k2") (row 50 ∷ [])).0
    ≡ some revoked
unfolding select_key_id revoke update_id bytes_eq
finds_revoked = refl

abbrev old : KeyRecord
old = record (row 5) { id = codes "k1"; expires_at = some 10 }

rotated : Keys
rotated = (rotate crypto raw_url parse_id round (codes "k1") 100 (old ∷ [])).0

abbrev rotated_key : CreatedKey
rotated_key = record new_key { record_of = row 51 }

rotates :
    rotate crypto raw_url parse_id round (codes "k1") 100 (old ∷ []) ≡ (rotated, ok rotated_key)
unfolding rotated rotate rotate_row select_id update_id mint is_valid token bytes_eq
rotates = refl

finds_old : select_id (codes "k1") (old ∷ []) ≡ some old
unfolding select_id bytes_eq
finds_old = refl

k2_ne_k1 : codes "k2" ≢ codes "k1"
unfolding bytes_eq
k2_ne_k1 e =
    let differ : ◌≡◌ {A = Bool} false true = (bytes_eq_iff (codes "k2") (codes "k1")).1 e in
    cc differ

select_id-rotate_example :
    select_id (codes "k1") rotated ≡ some (record old { expires_at = some 150 })
select_id-rotate_example =
    select_id-rotate crypto raw_url parse_id round (codes "k1") (codes "k1") (old ∷ []) refl 100
      rotated rotated_key old rotates finds_old k2_ne_k1 refl
