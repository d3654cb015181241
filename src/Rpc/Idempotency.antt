-- ===== src/Rpc/Idempotency.antt =====
-- internal/rpc/idempotency.go: the table idempotency_keys and the store over it. The table's own
-- statements are written out as the SQL in the source says; uuid.Parse, gzip, the two clocks (the
-- server's now() and time.Now) and the failures of the driver are parameters.
pub mod Table
pub mod Begin
pub mod Replay
pub mod Unique
pub mod Hash
pub mod Reach
use agentic_coop_db.Prelude.{
  ℕ, ◌+◌, ◌≡◌, ◌≢◌, Bool, true, false, not, ◌&&◌, Option, none, some, List, [], ◌∷◌, Bytes, codes,
  bytes_eq, ltb, if◌then◌else◌, Result, ok, err, ◌>>=◌, ◌>>◌, reject_if, or_err,
}

pub data IdempotencyState : Type 0 where
  pending done failed : IdempotencyState

-- A row of idempotency_keys with its unique key (workspace_id, key).
pub record Row : Type 0 where
  pub workspace : Bytes
  pub key : Bytes
  pub state : IdempotencyState
  pub request_hash : Bytes
  pub status_code : Option ℕ
  pub response_body : Option Bytes
  pub expires_at : ℕ

abbrev pub Table : Type 0
Table = List Row

unfoldable pub is_for : Bytes → Bytes → Row → Bool
is_for ws key r = bytes_eq r.workspace ws && bytes_eq r.key key

-- SELECT … WHERE workspace_id = $1 AND key = $2.
unfoldable pub select : Bytes → Bytes → Table → Option Row
select ws key [] = none
select ws key (r ∷ t) = if is_for ws key r then some r else select ws key t

-- DELETE … WHERE workspace_id = $1 AND key = $2.
unfoldable pub delete_row : Bytes → Bytes → Table → Table
delete_row ws key [] = []
delete_row ws key (r ∷ t) = if is_for ws key r then delete_row ws key t else r ∷ delete_row ws key t

-- UPDATE … SET … WHERE workspace_id = $4 AND key = $5.
unfoldable pub update : Bytes → Bytes → (Row → Row) → Table → Table
update ws key f [] = []
update ws key f (r ∷ t) = if is_for ws key r then f r ∷ update ws key f t else r ∷ update ws key f t

pub data StoreError : Type 0 where
  empty_key bad_workspace conflict in_progress bad_body out_of_rounds : StoreError
  database : Bytes → StoreError

pub record IdempotencyResult : Type 0 where
  pub replay : Bool
  pub status_code : ℕ
  pub body : Bytes

-- compress/gzip and uuid.Parse.
pub record Codecs : Type 0 where
  pub uuid_parse : Bytes → Option Bytes
  pub gzip : Bytes → Option Bytes
  pub gunzip : Bytes → Option Bytes
  pub gzip_total : (b : Bytes) → (z : Bytes) × (gzip b ≡ some z)
  pub gzip-ne-nil : (b z : Bytes) → gzip b ≡ some z → z ≢ []
  pub gunzip-gzip : (b z : Bytes) → gzip b ≡ some z → gunzip z ≡ some b

-- One call of BeginOrReplay as the outside sees it: the clocks, and for each call of the driver the
-- error that it returns, if any. What other processes do to the table stands between the statements:
-- `others` before the INSERT, `between` before the SELECT, and `before_delete` before the DELETE.
pub record Round : Type 0 where
  pub db_now : ℕ
  pub now : ℕ
  pub others : Table → Table
  pub between : Table → Table
  pub before_delete : Table → Table
  pub begin_error : Option Bytes
  pub insert_error : Option Bytes
  pub select_error : Option Bytes
  pub delete_error : Option Bytes
  pub commit_error : Option Bytes

-- `if err != nil { return nil, err }` behind a call of the driver.
abbrev pub driver : Option Bytes → Result StoreError (Unit {0})
driver none = ok tt
driver (some e) = err (database e)

abbrev pub fresh : IdempotencyResult
fresh = record { replay = false; status_code = 0; body = [] }

unfoldable pub new_row : Bytes → Bytes → Bytes → ℕ → Row
new_row ws key hash expires = record {
  workspace = ws;
  key = key;
  state = pending;
  request_hash = hash;
  status_code = none;
  response_body = none;
  expires_at = expires;
}

abbrev status_or_200 : Option ℕ → ℕ
status_or_200 none = 200
status_or_200 (some s) = s

abbrev is_pending : IdempotencyState → Bool
is_pending pending = true
is_pending _ = false

-- The state that Complete stores.
abbrev pub finished : Bool → IdempotencyState
finished true = done
finished false = failed

module _ (c : Codecs) where
  -- `gunzip`: an empty or null column is an empty body.
  unfoldable pub gunzip : Option Bytes → Result StoreError Bytes
  gunzip none = ok []
  gunzip (some []) = ok []
  gunzip (some (b ∷ z)) = or_err (c.gunzip (b ∷ z)) bad_body

  -- The part behind the read of a row that is not stale. The commit after a refusal is ignored.
  unfoldable pub serve : Round → Row → Bytes → Result StoreError IdempotencyResult
  unfolding gunzip
  serve round r request_hash =
      if not (bytes_eq r.request_hash request_hash)
      then err conflict
      else if is_pending r.state
      then err in_progress
      else do
        driver round.commit_error
        decoded ← gunzip r.response_body
        ok (record { replay = true; status_code = status_or_200 r.status_code; body = decoded })

  -- What one call does before it returns or, on a stale row, calls itself again.
  pub data Attempt : Type 0 where
    returns : Result StoreError IdempotencyResult → Attempt
    again : Attempt

  -- The part behind an INSERT that met a row, over the table at the SELECT. A row that is gone by then
  -- is an error of the driver.
  unfoldable pub read_row : Round → Bytes → Bytes → Bytes → Table → Table × Attempt
  read_row round ws key request_hash table = elim (driver round.select_error) [
    | err e ↦ (table, returns (err e))
    | ok _ ↦ elim (select ws key table) [
      | none ↦ (table, returns (err (database (codes "no rows in result set"))))
      | some r ↦
          let table' = round.before_delete table in
          if ltb r.expires_at round.now
          then elim (driver round.delete_error >> driver round.commit_error) [
            | err e ↦ (table', returns (err e))
            | ok _ ↦ (delete_row ws key table', again)
          ]
          else (table, returns (serve round r request_hash))
    ]
  ]

  -- The transaction of one call with a parsed workspace, over the table at its INSERT, with each of
  -- its statements a step of its own. What is not committed leaves the table as it was.
  unfoldable pub attempt : Round → Bytes → Bytes → Bytes → ℕ → Table → Table × Attempt
  unfolding new_row read_row
  attempt round ws key request_hash ttl table =
      elim (driver round.begin_error >> driver round.insert_error) [
        | err e ↦ (table, returns (err e))
        | ok _ ↦ elim (select ws key table) [
          | none ↦ elim (driver round.commit_error) [
            | err e ↦ (table, returns (err e))
            | ok _ ↦ (new_row ws key request_hash (round.db_now + ttl) ∷ table, returns (ok fresh))
          ]
          | some _ ↦ read_row round ws key request_hash (round.between table)
        ]
      ]

  -- The call and its calls of itself, each with a round of its own.
  unfoldable pub begin_rounds :
      List Round → Bytes → Bytes → Bytes → ℕ → Table → Table × Result StoreError IdempotencyResult
  begin_rounds [] ws key request_hash ttl table = (table, err out_of_rounds)
  begin_rounds (round ∷ rounds) ws key request_hash ttl table =
      let (table', a) = attempt round ws key request_hash ttl (round.others table) in
      elim a [
        | returns r ↦ (table', r)
        | again ↦ begin_rounds rounds ws key request_hash ttl table'
      ]

  unfoldable pub begin_or_replay :
      List Round → Bytes → Bytes → Bytes → ℕ → Table → Table × Result StoreError IdempotencyResult
  begin_or_replay rounds workspace_id key request_hash ttl table =
      elim (reject_if (bytes_eq key []) empty_key
        >> or_err (c.uuid_parse workspace_id) bad_workspace) [
          | err e ↦ (table, err e)
          | ok ws ↦ begin_rounds rounds ws key request_hash ttl table
        ]

  -- Complete; `exec_error` is the driver's answer to the UPDATE.
  unfoldable pub complete :
      Option Bytes → Bytes → Bytes → ℕ → Bytes → Bool → Table → Table × Result StoreError (Unit {0})
  complete exec_error workspace_id key status body was_ok table = elim (c.uuid_parse workspace_id) [
    | none ↦ (table, err bad_workspace)
    | some ws ↦ elim (c.gzip body) [
      | none ↦ (table, err bad_body)
      | some gz ↦ elim (driver exec_error) [
        | err e ↦ (table, err e)
        | ok _ ↦ (
          update ws key
              (λ r. record r {
                state = finished was_ok;
                status_code = some status;
                response_body = some gz;
              })
              table,
          ok tt,
        )
      ]
    ]
  ]

-- DELETE … WHERE expires_at < now(), and the number of rows removed.
unfoldable pub purge_rows : ℕ → Table → Table × ℕ
purge_rows db_now [] = ([], 0)
purge_rows db_now (r ∷ t) =
    let (rest, n) = purge_rows db_now t in
    if ltb r.expires_at db_now then (rest, n + 1) else (r ∷ rest, n)

unfoldable pub purge_expired : Option Bytes → ℕ → Table → Table × Result StoreError ℕ
purge_expired exec_error db_now table = elim (driver exec_error) [
  | err e ↦ (table, err e)
  | ok _ ↦ let (table', n) = purge_rows db_now table in (table', ok n)
]
