-- ===== src/Rpc/Idempotency/Table.antt =====
-- The statements on idempotency_keys (internal/rpc/idempotency.go) read by slot.
use agentic_coop_db.Prelude.{
  ℕ, ◌+◌, ◌≡◌, refl, Bool, true, ◌&&◌, Option, none, some, [], ◌∷◌, Bytes, bytes_eq, bytes_eq_iff,
  ltb, if◌then◌else◌, arith, length,
}
use agentic_coop_db.Rpc.Idempotency.{Row, Table, is_for, select, delete_row, update, purge_rows}

abbrev pub slot_eq : Bytes → Bytes → Bytes → Bytes → Bool
slot_eq ws key ws' key' = bytes_eq ws ws' && bytes_eq key key'

pub select-for :
    (ws key : Bytes) (t : Table) (r : Row) → select ws key t ≡ some r → is_for ws key r ≡ true
unfolding select
select-for ws key [] r h = cc
select-for ws key (x ∷ t) r h = ground (arith, select-for ws key t r)

pub select-delete_row :
    (ws key ws' key' : Bytes) (t : Table)
    → select ws' key' (delete_row ws key t)
      ≡ (if slot_eq ws key ws' key' then none else select ws' key' t)
unfolding select delete_row is_for
select-delete_row ws key ws' key' [] = ground arith
select-delete_row ws key ws' key' (r ∷ t) = ground (
  arith,
  select-delete_row ws key ws' key' t,
  bytes_eq_iff r.workspace ws,
  bytes_eq_iff r.workspace ws',
  bytes_eq_iff ws ws',
  bytes_eq_iff r.key key,
  bytes_eq_iff r.key key',
  bytes_eq_iff key key',
)

abbrev pub map_option : (Row → Row) → Option Row → Option Row
map_option f none = none
map_option f (some r) = some (f r)

-- An update that leaves the slot of a row changes just what is read at its own slot.
pub select-update :
    (ws key ws' key' : Bytes) (f : Row → Row) (t : Table)
    → ((r : Row) → (f r).workspace ≡ r.workspace)
    → ((r : Row) → (f r).key ≡ r.key)
    → select ws' key' (update ws key f t)
      ≡ (if slot_eq ws key ws' key' then map_option f (select ws' key' t) else select ws' key' t)
unfolding select update is_for
select-update ws key ws' key' f [] hw hk = ground arith
select-update ws key ws' key' f (r ∷ t) hw hk = ground (
  arith,
  select-update ws key ws' key' f t hw hk,
  hw r,
  hk r,
  bytes_eq_iff r.workspace ws,
  bytes_eq_iff r.workspace ws',
  bytes_eq_iff ws ws',
  bytes_eq_iff r.key key,
  bytes_eq_iff r.key key',
  bytes_eq_iff key key',
)

abbrev pub keep_live : ℕ → Option Row → Option Row
keep_live now none = none
keep_live now (some r) = if ltb r.expires_at now then none else some r

-- No slot has two rows: the unique index on (workspace_id, key).
abbrev pub IsUnique : Table → Type 0
IsUnique [] = Unit
IsUnique (r ∷ t) = (select r.workspace r.key t ≡ none) × IsUnique t

pub select-none-purge :
    (now : ℕ) (ws key : Bytes) (t : Table)
    → select ws key t ≡ none
    → select ws key (purge_rows now t).0 ≡ none
unfolding select purge_rows
select-none-purge now ws key [] h = refl
select-none-purge now ws key (r ∷ t) h = ground (arith, select-none-purge now ws key t)

is_for-slot :
    (ws key : Bytes) (r : Row) → is_for ws key r ≡ true → (r.workspace ≡ ws) × (r.key ≡ key)
unfolding is_for
is_for-slot ws key r h = ground (arith, bytes_eq_iff r.workspace ws, bytes_eq_iff r.key key)

-- Where the unique index holds, a purge removes exactly the rows that have expired: what is read at
-- a slot afterwards is the row that was there, if it has not expired.
pub select-purge :
    (now : ℕ) (ws key : Bytes) (t : Table)
    → IsUnique t
    → select ws key (purge_rows now t).0 ≡ keep_live now (select ws key t)
unfolding select purge_rows
select-purge now ws key [] u = refl
select-purge now ws key (r ∷ t) u =
    ground
      (arith, select-purge now ws key t u.1, is_for-slot ws key r, select-none-purge now ws key t)

-- A purge counts the rows that it removes.
pub purge-count :
    (now : ℕ) (t : Table) → length (purge_rows now t).0 + (purge_rows now t).1 ≡ length t
unfolding purge_rows
purge-count now [] = omega arith
purge-count now (r ∷ t) = ground (arith, purge-count now t)
