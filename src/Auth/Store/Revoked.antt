-- ===== src/Auth/Store/Revoked.antt =====
-- A revoked key (internal/auth/store.go) stays unusable.
use agentic_coop_db.Prelude.{
  ℕ, ◌≡◌, arith, false, Option, none, some, [], ◌∷◌, Bytes, bytes_eq_iff, Option-cases, inl, inr,
}
use agentic_coop_db.Auth.Record.{KeyRecord, active}
use agentic_coop_db.Auth.Key.{RawUrlEncoding}
use agentic_coop_db.Auth.Secret.{Crypto}
use agentic_coop_db.Auth.Store.{Keys, select_key_id, update_id, revoke_row, revoke}

revoke_row_facts :
    (now at : ℕ) (r : KeyRecord)
    → (active (revoke_row now r) at ≡ false)
      × ((revoke_row now r).key_id ≡ r.key_id)
      × ((revoke_row now r).id ≡ r.id)
unfolding active
revoke_row_facts now at r = elim (Option-cases r.revoked_at) [
  | inl e ↦ ground arith
  | inr (t, e) ↦ ground arith
]

update_inactive :
    (id key_id : Bytes) (now at : ℕ) (keys : Keys) (r : KeyRecord)
    → select_key_id key_id (update_id id (revoke_row now) keys) ≡ some r
    → r.id ≡ id
    → active r at ≡ false
unfolding select_key_id update_id
update_inactive id key_id now at [] r h same = cc
update_inactive id key_id now at (x ∷ keys) r h same = ground (
  arith,
  update_inactive id key_id now at keys r,
  revoke_row_facts now at x,
  bytes_eq_iff x.id id,
)

module _ (crypto : Crypto) (b64 : RawUrlEncoding) (uuid_parse : Bytes → Option Bytes) where
  -- After Revoke without error no lookup finds an active row with that id, at any time.
  pub revoke_inactive :
      (db_now at : ℕ) (id u key_id : Bytes) (keys : Keys) (r : KeyRecord)
      → uuid_parse id ≡ some u
      → select_key_id key_id (revoke crypto b64 uuid_parse none db_now id keys).0 ≡ some r
      → r.id ≡ u
      → active r at ≡ false
  unfolding revoke
  revoke_inactive db_now at id u key_id keys r parsed found same =
      update_inactive u key_id db_now at keys r (rw (parsed, revoke) at found) same
