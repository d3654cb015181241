-- ===== src/Rpc/Idempotency/Begin.antt =====
-- What BeginOrReplay (internal/rpc/idempotency.go) does with each state of a slot.
use agentic_coop_db.Prelude.{
  ℕ, ◌+◌, ◌≤◌, ◌<◌, ◌≡◌, ◌≢◌, refl, sym, ap, ◌∙◌, ◌⊎◌, inl, inr, true, Option, none, some, List,
  ◌∷◌, Bytes, bytes_eq_iff, arith, Option-cases, Result, ok, err,
}
use agentic_coop_db.Rpc.Idempotency.{
  pending, Row, Table, select, delete_row, StoreError, out_of_rounds, database, IdempotencyResult,
  Codecs, Round, fresh, new_row, serve, Attempt, returns, again, attempt, begin_rounds, read_row,
}
use agentic_coop_db.Rpc.Idempotency.Table.{select-delete_row}

-- The first error of a chain of calls of the driver.
abbrev pub first : Option Bytes → Option Bytes → Option Bytes
first none b = b
first (some e) b = some e

abbrev pub read_fault : Round → Option Bytes
read_fault round = first round.begin_error (first round.insert_error round.select_error)

abbrev pub insert_fault : Round → Option Bytes
insert_fault round = first round.begin_error (first round.insert_error round.commit_error)

abbrev pub guarded {ℓ} : {A : Type ℓ} → Option Bytes → Result StoreError A → Result StoreError A
guarded none r = r
guarded (some e) r = err (database e)

-- No other process writes before or during the read of the slot.
pub record IsAlone (round : Round) : Type 0 where
  pub before : (t : Table) → round.others t ≡ t
  pub within : (t : Table) → round.between t ≡ t

module _ (c : Codecs) (ws key hash : Bytes) (ttl : ℕ) where
  -- A replay is served from a finished row of the same request.
  pub record Replays (r : Row) (res : IdempotencyResult) : Type 0 where
    pub flag : res.replay ≡ true
    pub hash_eq : r.request_hash ≡ hash
    pub finished : r.state ≢ pending

  serve_sound :
      (round : Round) (r : Row) (res : IdempotencyResult)
      → serve c round r hash ≡ ok res
      → Replays r res
  unfolding serve
  serve_sound round r res h = record {
    flag = ground arith;
    hash_eq = ground (arith, bytes_eq_iff r.request_hash hash);
    finished = λ e. ground arith;
  }

  attempt_live :
      (round : Round) (table : Table) (r : Row)
      → select ws key table ≡ some r
      → round.between table ≡ table
      → round.now ≤ r.expires_at
      → attempt c round ws key hash ttl table
        ≡ (table, returns (guarded (read_fault round) (serve c round r hash)))
  unfolding attempt read_row
  attempt_live round table r found alone live = ground arith

  attempt_empty :
      (round : Round) (table : Table)
      → select ws key table ≡ none
      → attempt c round ws key hash ttl table ≡ elim (insert_fault round) [
        | none ↦ (new_row ws key hash (round.db_now + ttl) ∷ table, returns (ok fresh))
        | some e ↦ (table, returns (err (database e)))
      ]
  unfolding attempt read_row
  attempt_empty round table missing = ground arith

  attempt-again :
      (round : Round) (table : Table)
      → (attempt c round ws key hash ttl table).1 ≡ again
      → (attempt c round ws key hash ttl table).0
        ≡ delete_row ws key (round.before_delete (round.between table))
  unfolding attempt read_row
  attempt-again round table h = ground arith

  -- A slot whose row has not expired is never handed out: the table stays as it was, and the result
  -- is what the row serves for the request hash, or the first error of the driver.
  pub begin_live :
      (round : Round) (rounds : List Round) (table : Table) (r : Row)
      → select ws key (round.others table) ≡ some r
      → round.between (round.others table) ≡ round.others table
      → round.now ≤ r.expires_at
      → begin_rounds c (round ∷ rounds) ws key hash ttl table
        ≡ (round.others table, guarded (read_fault round) (serve c round r hash))
  unfolding begin_rounds
  begin_live round rounds table r found alone live =
      ground (arith, attempt_live round (round.others table) r found alone live)

  -- A slot without a row is taken with a pending row of the request, unless the driver fails; then
  -- the table stays as it was.
  pub begin_empty :
      (round : Round) (rounds : List Round) (table : Table)
      → select ws key (round.others table) ≡ none
      → begin_rounds c (round ∷ rounds) ws key hash ttl table ≡ elim (insert_fault round) [
        | none ↦ (new_row ws key hash (round.db_now + ttl) ∷ round.others table, ok fresh)
        | some e ↦ (round.others table, err (database e))
      ]
  unfolding begin_rounds
  begin_empty round rounds table missing =
      ground (arith, attempt_empty round (round.others table) missing)

  serve-ne_rounds : (round : Round) (r : Row) → serve c round r hash ≢ err out_of_rounds
  unfolding serve
  serve-ne_rounds round r h = ground arith

  attempt-ne_rounds :
      (round : Round) (table : Table)
      → (attempt c round ws key hash ttl table).1 ≢ returns (err out_of_rounds)
  unfolding attempt read_row
  attempt-ne_rounds round table h = elim (Option-cases (select ws key (round.between table))) [
    | inl e ↦ ground arith
    | inr (r, e) ↦ ground (arith, serve-ne_rounds round r)
  ]

  attempt_empty-ne_again :
      (round : Round) (table : Table)
      → select ws key table ≡ none
      → (attempt c round ws key hash ttl table).1 ≢ again
  unfolding attempt read_row
  attempt_empty-ne_again round table missing h = ground arith

  Attempt-cases :
      (a : Attempt c) → (a ≡ again) ⊎ ((r : Result StoreError IdempotencyResult) × (a ≡ returns r))
  Attempt-cases again = inl refl
  Attempt-cases (returns r) = inr (r, refl)

  select_deleted : (t : Table) → select ws key (delete_row ws key t) ≡ none
  select_deleted t =
      ground (arith, select-delete_row ws key ws key t, bytes_eq_iff ws ws, bytes_eq_iff key key)

  step_again :
      (round : Round) (rounds : List Round) (table : Table)
      → (attempt c round ws key hash ttl (round.others table)).1 ≡ again
      → begin_rounds c (round ∷ rounds) ws key hash ttl table
        ≡ begin_rounds c rounds ws key hash ttl
            (attempt c round ws key hash ttl (round.others table)).0
  unfolding begin_rounds
  step_again round rounds table e = rw (e, begin_rounds)

  step_returns :
      (round : Round) (rounds : List Round) (table : Table)
      (r : Result StoreError IdempotencyResult)
      → (attempt c round ws key hash ttl (round.others table)).1 ≡ returns r
      → (begin_rounds c (round ∷ rounds) ws key hash ttl table).1 ≡ r
  unfolding begin_rounds
  step_returns round rounds table r e = rw (e, begin_rounds)

  -- Whatever fails and whatever the slot holds: if no other process touches the table between the
  -- two transactions, the call calls itself at most once, for what its first transaction deleted
  -- its second does not find.
  pub begin_terminates :
      (r1 r2 : Round) (rounds : List Round) (table : Table)
      → ((t : Table) → r2.others t ≡ t)
      → (begin_rounds c (r1 ∷ r2 ∷ rounds) ws key hash ttl table).1 ≢ err out_of_rounds
  begin_terminates r1 r2 rounds table alone h =
      let a1 = attempt c r1 ws key hash ttl (r1.others table) in
      elim (Attempt-cases a1.1) [
        | inr (r, e) ↦
            attempt-ne_rounds r1 _ (e ∙ ap returns (sym (step_returns r1 _ table r e) ∙ h))
        | inl e ↦
            let a2 = attempt c r2 ws key hash ttl (r2.others a1.0) in
            let gone : select ws key (r2.others a1.0) ≡ none =
              ap (select ws key) (alone a1.0 ∙ attempt-again r1 (r1.others table) e)
              ∙ select_deleted _ in
            elim (Attempt-cases a2.1) [
              | inl e' ↦ attempt_empty-ne_again r2 _ gone e'
              | inr (r, e') ↦ attempt-ne_rounds r2 _ (
                  e'
                  ∙ ap returns (
                      sym (
                        ap (λ x. x.1) (step_again r1 (r2 ∷ rounds) table e)
                        ∙ step_returns r2 rounds a1.0 r e')
                      ∙ h))
            ]
      ]

  -- A slot that was stale at the SELECT is emptied at the DELETE, whatever row another process has put
  -- there since, and the call goes on to take it.
  pub attempt_stale :
      (round : Round) (table : Table) (r old : Row)
      → select ws key table ≡ some old
      → select ws key (round.between table) ≡ some r
      → r.expires_at < round.now
      → first (read_fault round) (first round.delete_error round.commit_error) ≡ none
      → attempt c round ws key hash ttl table
        ≡ (delete_row ws key (round.before_delete (round.between table)), again)
  unfolding attempt read_row
  attempt_stale round table r old met found stale fine = ground arith
