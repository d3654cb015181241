-- ===== src/Db/Keys/Listed.antt =====
-- A key that was revoked from the command line (internal/db/keyrevoke.go) is listed as revoked
-- (internal/db/keylist.go).
use agentic_coop_db.Prelude.{
  ℕ, ◌⊎◌, ◌≡◌, inl, inr, arith, false, Option, none, List, [], ◌∷◌, Bytes, codes, bytes_eq, leb,
  All, Result, ok, Result-cases, Option-cases, Bool-cases,
}
use agentic_coop_db.Auth.Record.{KeyRecord}
use agentic_coop_db.Auth.Store.{Keys, select_id, update_id, revoke_row}
use agentic_coop_db.Db.Keys.{Workspace, Database}
use agentic_coop_db.Db.Keys.Admin.{
  key_status, KeySummary, insert_by_age, by_age, scan_keys, summary, list_keys, revoke_rows,
  revoke_checked, revoke_key,
}
use agentic_coop_db.Db.Migrate.{World}

-- Another key, or a revoked one.
abbrev IsRevokedRow : Bytes → KeyRecord → Type 0
IsRevokedRow id r =
    (bytes_eq r.id id ≡ false)
    ⊎ ((now : ℕ) → key_status r.revoked_at r.expires_at now ≡ codes "revoked")

abbrev pub IsRevokedSummary : Bytes → KeySummary → Type 0
IsRevokedSummary id s = (bytes_eq s.id id ≡ false) ⊎ (s.status ≡ codes "revoked")

revoke_row_revoked :
    (id : Bytes) (db_now : ℕ) (r : KeyRecord) → IsRevokedRow id (revoke_row db_now r)
unfolding key_status
revoke_row_revoked id db_now r = elim (Option-cases r.revoked_at) [
  | inl e ↦ inr (λ now. ground arith)
  | inr (t, e) ↦ inr (λ now. ground arith)
]

update_revoked :
    (id : Bytes) (db_now : ℕ) (keys : Keys)
    → All (IsRevokedRow id) (update_id id (revoke_row db_now) keys)
unfolding update_id
update_revoked id db_now [] = tt
update_revoked id db_now (r ∷ keys) = elim (Bool-cases (bytes_eq r.id id)) [
  | inl e ↦ rw e (revoke_row_revoked id db_now r, update_revoked id db_now keys)
  | inr e ↦ rw e (inl e, update_revoked id db_now keys)
]

insert-All :
    (P : KeyRecord → Type 0) (r : KeyRecord) (keys : Keys)
    → P r
    → All P keys
    → All P (insert_by_age r keys)
unfolding insert_by_age
insert-All P r [] p ps = (p, tt)
insert-All P r (x ∷ keys) p (q, ps) = elim (Bool-cases (leb r.created_at x.created_at)) [
  | inl e ↦ rw e (p, (q, ps))
  | inr e ↦ rw e (q, insert-All P r keys p ps)
]

by_age-All : (P : KeyRecord → Type 0) (keys : Keys) → All P keys → All P (by_age keys)
unfolding by_age
by_age-All P [] ps = tt
by_age-All P (r ∷ keys) (p, ps) = insert-All P r (by_age keys) p (by_age-All P keys ps)

scan_revoked :
    (id : Bytes) (scan_error : KeyRecord → Option Bytes) (nows : KeyRecord → ℕ)
    (ws : List Workspace) (keys : Keys) (out : List KeySummary)
    → scan_keys scan_error nows ws keys ≡ ok out
    → All (IsRevokedRow id) keys
    → All (IsRevokedSummary id) out
unfolding scan_keys
scan_revoked id scan_error nows ws [] [] h ps = tt
scan_revoked id scan_error nows ws [] (s ∷ out) h ps = ground arith
scan_revoked id scan_error nows ws (r ∷ keys) out h (p, ps) = elim (Option-cases (scan_error r)) [
  | inr (e, f) ↦ ground arith
  | inl f ↦ elim (Result-cases (scan_keys scan_error nows ws keys)) [
    | inr (e, g) ↦ ground arith
    | inl (rest, g) ↦
        let same : out ≡ summary (nows r) ws r ∷ rest = ground arith in
        let first : IsRevokedSummary id (summary (nows r) ws r) = elim p [
          | inl other ↦ inl other
          | inr revoked ↦ inr (revoked (nows r))
        ] in
        rw same (first, scan_revoked id scan_error nows ws keys rest g ps)
  ]
]

module _ (w : World) (uuid_parse : Bytes → Result Bytes Bytes)
    (connect_error connect_error' : Bytes → Option Bytes)
    (exec_error query_error rows_error : Option Bytes) (scan_error : KeyRecord → Option Bytes)
    (db_now : ℕ) (nows : KeyRecord → ℕ) (migrations_url owner_password key_id id : Bytes)
    (db db' : Database) where
  checked_result :
      (keys : Keys)
      → uuid_parse key_id ≡ ok id
      → revoke_checked w uuid_parse connect_error exec_error db_now migrations_url owner_password
          key_id db.keys
        ≡ ok keys
      → keys ≡ update_id id (revoke_row db_now) db.keys
  unfolding revoke_checked revoke_rows
  checked_result keys u h = elim (Option-cases (select_id id db.keys)) [
    | inl e ↦ ground arith
    | inr (r, e) ↦ elim (Option-cases r.revoked_at) [
      | inr (t, f) ↦ ground arith
      | inl f ↦ ground arith
    ]
  ]

  revoke_result :
      uuid_parse key_id ≡ ok id
      → revoke_key w uuid_parse connect_error exec_error db_now migrations_url owner_password key_id
          db
        ≡ (db', none)
      → db'.keys ≡ update_id id (revoke_row db_now) db.keys
  unfolding revoke_key
  revoke_result u h =
      elim (Result-cases (
        revoke_checked w uuid_parse connect_error exec_error db_now migrations_url owner_password
          key_id db.keys)) [
            | inr (e, f) ↦ ground arith
            | inl (keys, f) ↦ let same = checked_result keys u f in ground arith
          ]

  list_result :
      (out : List KeySummary)
      → list_keys w connect_error' query_error rows_error scan_error nows migrations_url
          owner_password db'
        ≡ ok out
      → scan_keys scan_error nows db'.workspaces (by_age db'.keys) ≡ ok out
  unfolding list_keys
  list_result out h =
      elim (Result-cases (scan_keys scan_error nows db'.workspaces (by_age db'.keys))) [
        | inr (e, f) ↦ ground arith
        | inl (keys, f) ↦ ground arith
      ]

  -- If RevokeKey ends without an error, then every later list of the keys that ListKeys returns from
  -- those tables shows no key with the revoked id in a status other than "revoked", whatever the
  -- expiry of the key, the order of the rows and the time.
  pub list_keys-revoke_key :
      (out : List KeySummary)
      → uuid_parse key_id ≡ ok id
      → revoke_key w uuid_parse connect_error exec_error db_now migrations_url owner_password key_id
          db
        ≡ (db', none)
      → list_keys w connect_error' query_error rows_error scan_error nows migrations_url
          owner_password db'
        ≡ ok out
      → All (IsRevokedSummary id) out
  list_keys-revoke_key out u h l =
      let rows : All (IsRevokedRow id) db'.keys =
        rw (revoke_result u h) (update_revoked id db_now db.keys) in
      scan_revoked id scan_error nows db'.workspaces (by_age db'.keys) out (list_result out l)
        (by_age-All (IsRevokedRow id) db'.keys rows)
