-- ===== src/Rpc/Idempotency/Replay.antt =====
-- Complete and BeginOrReplay together (internal/rpc/idempotency.go), and the table's invariant.
use agentic_coop_db.Prelude.{
  ℕ, ◌+◌, ◌≤◌, ◌≡◌, ◌≢◌, refl, ap, ◌∙◌, Bool, true, false, none, some, List, [], ◌∷◌, Bytes,
  bytes_eq, bytes_eq_iff, bytes_eq_refl, if◌then◌else◌, arith, ok, err,
}
use agentic_coop_db.Rpc.Idempotency.{
  Row, Table, select, conflict, in_progress, Codecs, Round, fresh, new_row, serve, begin_rounds,
  begin_or_replay, complete, is_for, finished, gunzip,
}
use agentic_coop_db.Rpc.Idempotency.Begin.{IsAlone, begin_live, begin_empty}
use agentic_coop_db.Rpc.Idempotency.Table.{slot_eq, select-update, map_option}

-- The driver fails nowhere.
pub record IsSound (round : Round) : Type 0 where
  pub begin_ok : round.begin_error ≡ none
  pub insert_ok : round.insert_error ≡ none
  pub select_ok : round.select_error ≡ none
  pub delete_ok : round.delete_error ≡ none
  pub commit_ok : round.commit_error ≡ none

-- The row that Complete writes.
abbrev pub finish : ℕ → Bytes → Bool → Row → Row
finish status gz was_ok r = record r {
  state = finished was_ok;
  status_code = some status;
  response_body = some gz;
}

module _ (c : Codecs) where
  -- What Complete leaves at every slot, if the UPDATE does not fail.
  pub select-complete :
      (id ws key ws' key' body gz : Bytes) (status : ℕ) (was_ok : Bool) (t : Table)
      → c.uuid_parse id ≡ some ws
      → c.gzip body ≡ some gz
      → select ws' key' (complete c none id key status body was_ok t).0 ≡ (
          if slot_eq ws key ws' key'
          then map_option (finish status gz was_ok) (select ws' key' t)
          else select ws' key' t)
  unfolding complete
  select-complete id ws key ws' key' body gz status was_ok t parsed zipped =
      rw (parsed, zipped, complete)
        (select-update ws key ws' key' (finish status gz was_ok) t (λ r. refl) (λ r. refl))

  gunzip_gzip : (b z : Bytes) → c.gzip b ≡ some z → gunzip c (some z) ≡ ok b
  unfolding gunzip
  gunzip_gzip b [] h = absurd (c.gzip-ne-nil b [] h refl)
  gunzip_gzip b (x ∷ z) h = rw (c.gunzip-gzip b (x ∷ z) h)

  serve-finish :
      (round : Round) (r : Row) (hash body gz : Bytes) (status : ℕ) (was_ok : Bool)
      → round.commit_error ≡ none
      → r.request_hash ≡ hash
      → c.gzip body ≡ some gz
      → serve c round (finish status gz was_ok r) hash
        ≡ ok (record { replay = true; status_code = status; body = body })
  unfolding serve
  serve-finish round r hash body gz status true committed same zipped =
      ground (arith, gunzip_gzip body gz zipped, bytes_eq_iff r.request_hash hash)
  serve-finish round r hash body gz status false committed same zipped =
      ground (arith, gunzip_gzip body gz zipped, bytes_eq_iff r.request_hash hash)

  pub begin-parsed :
      (rounds : List Round) (id ws key hash : Bytes) (ttl : ℕ) (t : Table)
      → c.uuid_parse id ≡ some ws
      → key ≢ []
      → begin_or_replay c rounds id key hash ttl t ≡ begin_rounds c rounds ws key hash ttl t
  unfolding begin_or_replay
  begin-parsed rounds id ws key hash ttl t parsed named = ground (arith, bytes_eq_iff key [])

  -- If Complete is called without a failure for a slot that has a row, then a request with the same
  -- key and hash whose first round comes before the row expires, meets no failure of the driver and no
  -- write of another process, is answered with the stored status and body and does not run again.
  pub begin-complete :
      (id ws key hash body : Bytes) (status ttl : ℕ) (was_ok : Bool) (t : Table) (r : Row)
      (round : Round) (rounds : List Round)
      → c.uuid_parse id ≡ some ws
      → key ≢ []
      → select ws key t ≡ some r
      → r.request_hash ≡ hash
      → round.now ≤ r.expires_at
      → IsAlone round
      → IsSound round
      → (begin_or_replay c
          (round ∷ rounds)
          id
          key
          hash
          ttl
          (complete c none id key status body was_ok t).0).1
        ≡ ok (record { replay = true; status_code = status; body = body })
  unfolding serve
  begin-complete id ws key hash body status ttl was_ok t r round rounds parsed named found same live
        alone s =
      let (gz, zipped) = c.gzip_total body in
      let t' = (complete c none id key status body was_ok t).0 in
      let at_slot : select ws key (round.others t') ≡ some (finish status gz was_ok r) =
        ap (select ws key) (alone.before t')
        ∙ select-complete id ws key ws key body gz status was_ok t parsed zipped
        ∙ rw (bytes_eq_refl ws, bytes_eq_refl key, found) in
      rw
        (
          begin-parsed (round ∷ rounds) id ws key hash ttl t' parsed named,
          begin_live c ws key hash ttl round rounds t' (finish status gz was_ok r) at_slot
              (alone.within _) live,
          s.begin_ok,
          s.insert_ok,
          s.select_ok,
        )
        (serve-finish round r hash body gz status was_ok s.commit_ok same zipped)

  pub select_new :
      (ws key hash : Bytes) (expires : ℕ) (t : Table)
      → select ws key (new_row ws key hash expires ∷ t) ≡ some (new_row ws key hash expires)
  unfolding select is_for new_row
  select_new ws key hash expires t = rw (bytes_eq_refl ws, bytes_eq_refl key)

  pub live_new :
      (ws key hash : Bytes) (now expires : ℕ)
      → now ≤ expires
      → now ≤ (new_row ws key hash expires).expires_at
  unfolding new_row
  live_new ws key hash now expires h = h

  -- A slot that is free is taken by the request.
  pub begin_taken :
      (id ws key hash : Bytes) (ttl : ℕ) (round : Round) (rounds : List Round) (t : Table)
      → c.uuid_parse id ≡ some ws
      → key ≢ []
      → select ws key (round.others t) ≡ none
      → IsSound round
      → begin_or_replay c (round ∷ rounds) id key hash ttl t
        ≡ (new_row ws key hash (round.db_now + ttl) ∷ round.others t, ok fresh)
  begin_taken id ws key hash ttl round rounds t parsed named missing sound =
      begin-parsed (round ∷ rounds) id ws key hash ttl t parsed named
      ∙ begin_empty c ws key hash ttl round rounds t missing
      ∙ rw (sound.begin_ok, sound.insert_ok, sound.commit_ok)

  serve_new :
      (round : Round) (ws key hash hash' : Bytes) (expires : ℕ)
      → serve c round (new_row ws key hash expires) hash'
        ≡ err (if bytes_eq hash hash' then in_progress else conflict)
  unfolding serve new_row
  serve_new round ws key hash hash' expires = ground arith

  -- A request with a key whose slot is empty is let through; and a second one with the key, before the
  -- TTL has passed since the first and before Complete, is refused: as being in progress if it has the
  -- same hash, and as a conflict if it has another. This is where the driver fails in neither and no
  -- other process writes in between.
  pub begin-begin :
      (id ws key hash hash' : Bytes) (ttl : ℕ) (t : Table) (r1 r2 : Round) (rs rs' : List Round)
      → c.uuid_parse id ≡ some ws
      → key ≢ []
      → select ws key (r1.others t) ≡ none
      → r2.now ≤ r1.db_now + ttl
      → IsAlone r2
      → IsSound r1
      → IsSound r2
      → ((begin_or_replay c (r1 ∷ rs) id key hash ttl t).1 ≡ ok fresh)
        × ((begin_or_replay c
              (r2 ∷ rs')
              id
              key
              hash'
              ttl
              (begin_or_replay c (r1 ∷ rs) id key hash ttl t).0).1
            ≡ err (if bytes_eq hash hash' then in_progress else conflict))
  begin-begin id ws key hash hash' ttl t r1 r2 rs rs' parsed named missing live alone s1 s2 =
      let r = new_row ws key hash (r1.db_now + ttl) in
      let t' = r ∷ r1.others t in
      let e : begin_or_replay c (r1 ∷ rs) id key hash ttl t ≡ (t', ok fresh) =
        begin-parsed (r1 ∷ rs) id ws key hash ttl t parsed named
        ∙ begin_empty c ws key hash ttl r1 rs t missing
        ∙ rw (s1.begin_ok, s1.insert_ok, s1.commit_ok) in
      let at_slot : select ws key (r2.others t') ≡ some r =
        ap (select ws key) (alone.before t')
        ∙ select_new ws key hash (r1.db_now + ttl) (r1.others t) in
      let e' : (begin_or_replay c (r2 ∷ rs') id key hash' ttl t').1 ≡ serve c r2 r hash' =
        ap (λ x. x.1)
          (begin-parsed (r2 ∷ rs') id ws key hash' ttl t' parsed named
            ∙ begin_live c ws key hash' ttl r2 rs' t' r at_slot (alone.within _)
                (live_new ws key hash r2.now (r1.db_now + ttl) live))
        ∙ rw (s2.begin_ok, s2.insert_ok, s2.select_ok) in
      (
        ap (λ x. x.1) e,
        ap (λ x. (begin_or_replay c (r2 ∷ rs') id key hash' ttl x.0).1) e
            ∙ e'
            ∙ serve_new r2 ws key hash hash' (r1.db_now + ttl),
      )
