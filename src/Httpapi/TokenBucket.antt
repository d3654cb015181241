-- ===== src/Httpapi/TokenBucket.antt =====
-- internal/httpapi/middleware.go: the token bucket. float64 is a parameter with the operations that
-- the code uses; a duration is a number of nanoseconds. time.Now has a monotonic reading, so that
-- `now` does not go back.
pub mod Bounds
pub mod Example
use agentic_coop_db.Prelude.{ℕ, ◌-◌, ℤ, Bool, true, false, if◌then◌else◌}

-- float64: the conversion of an int, the arithmetic, math.Min, the comparisons, Duration.Seconds and
-- the conversion to an int.
pub record Floats : Type 1 where
  pub Float : Type 0
  pub of_int : ℕ → Float
  pub add : Float → Float → Float
  pub sub : Float → Float → Float
  pub mul : Float → Float → Float
  pub smaller : Float → Float → Float
  pub lt : Float → Float → Bool
  pub le : Float → Float → Bool
  pub seconds : (nanoseconds : ℕ) → Float
  pub to_int : Float → ℤ

module _ (fl : Floats) where
  pub record TokenBucket : Type 0 where
    pub tokens : fl.Float
    pub max : fl.Float
    pub rate : fl.Float
    pub last_time : ℕ

  unfoldable pub new_token_bucket : (rps : fl.Float) → (burst now : ℕ) → TokenBucket
  new_token_bucket rps burst now = record {
    tokens = fl.of_int burst;
    max = fl.of_int burst;
    rate = rps;
    last_time = now;
  }

  unfoldable pub refill : TokenBucket → ℕ → TokenBucket
  refill b now =
      let elapsed = fl.seconds (now - b.last_time) in
      record b {
        last_time = now;
        tokens = fl.smaller (fl.add b.tokens (fl.mul elapsed b.rate)) b.max;
      }

  -- Allow: the bucket afterwards, and whether a token was taken.
  unfoldable pub allow : TokenBucket → ℕ → TokenBucket × Bool
  unfolding refill
  allow b now =
      let b' = refill b now in
      if fl.lt b'.tokens (fl.of_int 1)
      then (b', false)
      else (record b' { tokens = fl.sub b'.tokens (fl.of_int 1) }, true)

  unfoldable pub tokens_at : TokenBucket → ℕ → TokenBucket × fl.Float
  unfolding refill
  tokens_at b now = let b' = refill b now in (b', b'.tokens)
