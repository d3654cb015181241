-- ===== src/Rpc/Idempotency/Reach.antt =====
-- The table idempotency_keys under any sequence of calls of internal/rpc/idempotency.go by any number
-- of processes: each call is one step, and between two statements of a BeginOrReplay others may step.
use agentic_coop_db.Prelude.{ℕ, Bool, Option, List, [], ◌∷◌, Bytes, All}
use agentic_coop_db.Rpc.Idempotency.{Table, Codecs, Round, begin_or_replay, complete, purge_expired}
use agentic_coop_db.Rpc.Idempotency.Table.{IsUnique}
use agentic_coop_db.Rpc.Idempotency.Unique.{
  Keeps, begin-IsUnique, complete-IsUnique, purge_expired-IsUnique,
}

module _ (c : Codecs) where
  -- What the others do between two statements of a call is itself a sequence of steps.
  mutual
    pub data Step : Table → Table → Type 0 where
      begins :
          (rounds : List Round) (id key hash : Bytes) (ttl : ℕ) (t : Table)
          → Quiet rounds
          → Step t (begin_or_replay c rounds id key hash ttl t).0
      completes :
          (exec_error : Option Bytes) (id key : Bytes) (status : ℕ) (body : Bytes) (was_ok : Bool)
          (t : Table)
          → Step t (complete c exec_error id key status body was_ok t).0
      purges :
          (exec_error : Option Bytes) (now : ℕ) (t : Table)
          → Step t (purge_expired exec_error now t).0

    pub data Steps : Table → Table → Type 0 where
      here : (t : Table) → Steps t t
      next : {t u v : Table} → Steps t u → Step u v → Steps t v

    pub data Quiet : List Round → Type 0 where
      none_left : Quiet []
      round_of :
          (r : Round) (rounds : List Round)
          → ((t : Table) → Steps t (r.others t))
          → ((t : Table) → Steps t (r.between t))
          → ((t : Table) → Steps t (r.before_delete t))
          → Quiet rounds
          → Quiet (r ∷ rounds)

  mutual
    Step-IsUnique : {t u : Table} → Step t u → IsUnique t → IsUnique u
    Step-IsUnique (begins rounds id key hash ttl t quiet) u =
        begin-IsUnique c rounds id key hash ttl t (Quiet-kept quiet) u
    Step-IsUnique (completes e id key status body was_ok t) u =
        complete-IsUnique c e id key body status was_ok t u
    Step-IsUnique (purges e now t) u = purge_expired-IsUnique c e now t u

    Steps-IsUnique : {t u : Table} → Steps t u → IsUnique t → IsUnique u
    Steps-IsUnique (here t) u = u
    Steps-IsUnique (next before step) u = Step-IsUnique step (Steps-IsUnique before u)

    Quiet-kept : {rounds : List Round} → Quiet rounds → All Keeps rounds
    Quiet-kept none_left = tt
    Quiet-kept (round_of r rounds others between before_delete quiet) = (
      record {
        others = λ t u. Steps-IsUnique (others t) u;
        between = λ t u. Steps-IsUnique (between t) u;
        before_delete = λ t u. Steps-IsUnique (before_delete t) u;
      },
      Quiet-kept quiet,
    )

  -- Whatever calls are made, in whatever order, and interleaved between the statements of a BeginOrReplay
  -- in whatever way, also where the driver fails: a table that started empty never holds two rows for one
  -- workspace and key.
  pub IsUnique-Steps : (t : Table) → Steps [] t → IsUnique t
  IsUnique-Steps t steps = Steps-IsUnique steps tt
