-- ===== src/Auth/Store/Rotated.antt =====
-- What Rotate (internal/auth/store.go) does to the old key.
use agentic_coop_db.Prelude.{
  ℕ, ◌+◌, ◌≡◌, ◌≢◌, sym, ap, ◌∙◌, inl, inr, arith, Option, none, some, [], ◌∷◌, Bytes, bytes_eq_iff,
  ok, Option-cases, Result-cases,
}
use agentic_coop_db.Auth.Record.{KeyRecord}
use agentic_coop_db.Auth.Key.{RawUrlEncoding, mint}
use agentic_coop_db.Auth.Secret.{Crypto}
use agentic_coop_db.Auth.Store.{
  Keys, Round, CreatedKey, select_id, update_id, expire_row, rotate_row, rotate,
}

select-update_id :
    (id : Bytes) (f : KeyRecord → KeyRecord) (keys : Keys) (r : KeyRecord)
    → ((x : KeyRecord) → (f x).id ≡ x.id)
    → select_id id keys ≡ some r
    → select_id id (update_id id f keys) ≡ some (f r)
unfolding select_id update_id
select-update_id id f [] r kept h = cc
select-update_id id f (x ∷ keys) r kept h =
    ground (arith, select-update_id id f keys r kept, kept x)

expire_row_id : (at : ℕ) (r : KeyRecord) → (expire_row at r).id ≡ r.id
expire_row_id at r = elim (Option-cases r.revoked_at) [
  | inl e ↦ ground arith
  | inr (t, e) ↦ ground arith
]

expire_live :
    (at : ℕ) (r : KeyRecord)
    → r.revoked_at ≡ none
    → expire_row at r ≡ record r { expires_at = some at }
expire_live at r live = ground arith

module _ (crypto : Crypto) (b64 : RawUrlEncoding) (uuid_parse : Bytes → Option Bytes)
    (round : Round) (old_id u : Bytes) (keys : Keys) (parsed : uuid_parse old_id ≡ some u) where
  rotate_parts :
      (old : Bytes) (row : KeyRecord) (key : CreatedKey)
      → rotate_row crypto b64 uuid_parse round old_id keys ≡ ok (old, row, key)
      → (old ≡ u) × (row.id ≡ round.new_id)
  unfolding rotate_row
  rotate_parts old row key h = elim (Option-cases (select_id u keys)) [
    | inl e ↦ ground arith
    | inr (r, e) ↦ elim (Result-cases (mint b64 r.env round.rand round.rand')) [
      | inr (x, f) ↦ ground arith
      | inl (m, f) ↦ elim (Option-cases round.salt) [
        | inl g ↦ ground arith
        | inr (salt, g) ↦ ground arith
      ]
    ]
  ]

  rotate_result :
      (overlap : ℕ) (keys' : Keys) (key : CreatedKey)
      → rotate crypto b64 uuid_parse round old_id overlap keys ≡ (keys', ok key)
      → (row : KeyRecord) × (row.id ≡ round.new_id)
        × (keys' ≡ update_id u (expire_row (round.db_now + overlap)) (row ∷ keys))
  unfolding rotate
  rotate_result overlap keys' key h =
      elim (Result-cases (rotate_row crypto b64 uuid_parse round old_id keys)) [
        | inr (e, f) ↦ ground arith
        | inl ((old, row, k), f) ↦
            let (same, named) = rotate_parts old row k f in
            let table : keys' ≡ update_id old (expire_row (round.db_now + overlap)) (row ∷ keys) =
              ground arith in
            (row, named, rw same at table)
      ]

  select_new : (row : KeyRecord) → row.id ≢ u → select_id u (row ∷ keys) ≡ select_id u keys
  unfolding select_id
  select_new row h = ground (arith, bytes_eq_iff row.id u)

  -- After a rotation that succeeds with a new id of its own, the old key, if it is not revoked,
  -- expires one overlap after the rotation, whatever its expiry was before: earlier, later or past.
  pub select_id-rotate :
      (overlap : ℕ) (keys' : Keys) (key : CreatedKey) (r : KeyRecord)
      → rotate crypto b64 uuid_parse round old_id overlap keys ≡ (keys', ok key)
      → select_id u keys ≡ some r
      → round.new_id ≢ u
      → r.revoked_at ≡ none
      → select_id u keys' ≡ some (record r { expires_at = some (round.db_now + overlap) })
  select_id-rotate overlap keys' key r h found other live =
      let (row, named, table) = rotate_result overlap keys' key h in
      let at = round.db_now + overlap in
      let expires : expire_row at r ≡ record r { expires_at = some at } = expire_live at r live in
      ap (select_id u) table
      ∙ select-update_id u (expire_row at) (row ∷ keys) r (expire_row_id at)
          (select_new row (λ e. other (sym named ∙ e)) ∙ found)
      ∙ ap some expires
