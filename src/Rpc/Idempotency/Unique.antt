-- ===== src/Rpc/Idempotency/Unique.antt =====
-- Every operation of internal/rpc/idempotency.go keeps the unique index of its table.
use agentic_coop_db.Prelude.{
  ℕ, ◌≡◌, refl, inl, inr, Bool, Option, none, some, List, [], ◌∷◌, Bytes, arith, Option-cases, All,
}
use agentic_coop_db.Rpc.Idempotency.{
  Row, Table, select, delete_row, update, Codecs, Round, new_row, attempt, read_row, begin_rounds,
  begin_or_replay, complete, purge_rows, purge_expired,
}
use agentic_coop_db.Rpc.Idempotency.Replay.{finish}
use agentic_coop_db.Rpc.Idempotency.Table.{
  select-update, select-delete_row, IsUnique, select-none-purge,
}

select-none-delete :
    (ws key ws' key' : Bytes) (t : Table)
    → select ws' key' t ≡ none
    → select ws' key' (delete_row ws key t) ≡ none
select-none-delete ws key ws' key' t h = ground (arith, select-delete_row ws key ws' key' t)

delete-IsUnique : (ws key : Bytes) (t : Table) → IsUnique t → IsUnique (delete_row ws key t)
unfolding delete_row
delete-IsUnique ws key [] u = tt
delete-IsUnique ws key (r ∷ t) u =
    ground (arith, delete-IsUnique ws key t, select-none-delete ws key r.workspace r.key t)

module _ (ws key : Bytes) (f : Row → Row) (hw : (r : Row) → (f r).workspace ≡ r.workspace)
    (hk : (r : Row) → (f r).key ≡ r.key) where
  select-none-update :
      (ws' key' : Bytes) (t : Table)
      → select ws' key' t ≡ none
      → select ws' key' (update ws key f t) ≡ none
  select-none-update ws' key' t h = ground (arith, select-update ws key ws' key' f t hw hk)

  update-IsUnique : (t : Table) → IsUnique t → IsUnique (update ws key f t)
  unfolding update
  update-IsUnique [] u = tt
  update-IsUnique (r ∷ t) u =
      ground (arith, update-IsUnique t, hw r, hk r, select-none-update r.workspace r.key t)

purge-IsUnique : (now : ℕ) (t : Table) → IsUnique t → IsUnique (purge_rows now t).0
unfolding purge_rows
purge-IsUnique now [] u = tt
purge-IsUnique now (r ∷ t) u =
    ground (arith, purge-IsUnique now t, select-none-purge now r.workspace r.key t)

-- What other processes do in a round keeps at most one row for a workspace and key.
pub record Keeps (round : Round) : Type 0 where
  pub others : (u : Table) → IsUnique u → IsUnique (round.others u)
  pub between : (u : Table) → IsUnique u → IsUnique (round.between u)
  pub before_delete : (u : Table) → IsUnique u → IsUnique (round.before_delete u)

module _ (c : Codecs) where
  attempt-IsUnique :
      (round : Round) (ws key hash : Bytes) (ttl : ℕ) (t : Table)
      → Keeps round
      → IsUnique t
      → IsUnique (attempt c round ws key hash ttl t).0
  unfolding attempt new_row read_row
  attempt-IsUnique round ws key hash ttl t kept u =
      let read = kept.between t u in
      let deleted = kept.before_delete (round.between t) read in
      ground (arith, delete-IsUnique ws key (round.before_delete (round.between t)) deleted)

  begin_rounds-IsUnique :
      (rounds : List Round) (ws key hash : Bytes) (ttl : ℕ) (t : Table)
      → All Keeps rounds
      → IsUnique t
      → IsUnique (begin_rounds c rounds ws key hash ttl t).0
  unfolding begin_rounds
  begin_rounds-IsUnique [] ws key hash ttl t kept u = u
  begin_rounds-IsUnique (round ∷ rounds) ws key hash ttl t kept u =
      let a = attempt c round ws key hash ttl (round.others t) in
      let u' = attempt-IsUnique round ws key hash ttl (round.others t) kept.0 (kept.0.others t u) in
      ground (arith, begin_rounds-IsUnique rounds ws key hash ttl a.0 kept.1 u')

  -- BeginOrReplay keeps at most one row for a workspace and key, whatever fails, if the other
  -- processes do.
  pub begin-IsUnique :
      (rounds : List Round) (id key hash : Bytes) (ttl : ℕ) (t : Table)
      → All Keeps rounds
      → IsUnique t
      → IsUnique (begin_or_replay c rounds id key hash ttl t).0
  unfolding begin_or_replay
  begin-IsUnique rounds id key hash ttl t kept u =
      grind (arith, λ (ws : Bytes). begin_rounds-IsUnique rounds ws key hash ttl t kept u)

  -- So does Complete.
  pub complete-IsUnique :
      (exec_error : Option Bytes) (id key body : Bytes) (status : ℕ) (was_ok : Bool) (t : Table)
      → IsUnique t
      → IsUnique (complete c exec_error id key status body was_ok t).0
  unfolding complete
  complete-IsUnique (some e) id key body status was_ok t u = ground arith
  complete-IsUnique none id key body status was_ok t u = elim (Option-cases (c.uuid_parse id)) [
    | inl e ↦ rw (e, complete) u
    | inr (ws, e) ↦
        let (gz, zipped) = c.gzip_total body in
        rw (e, zipped, complete)
          (update-IsUnique ws key (finish status gz was_ok) (λ r. refl) (λ r. refl) t u)
  ]

  -- So does the purge.
  pub purge_expired-IsUnique :
      (exec_error : Option Bytes) (now : ℕ) (t : Table)
      → IsUnique t
      → IsUnique (purge_expired exec_error now t).0
  unfolding purge_expired
  purge_expired-IsUnique none now t u = purge-IsUnique now t u
  purge_expired-IsUnique (some e) now t u = u
